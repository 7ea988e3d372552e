-- ===== src/Daemon/Wal/Replay.antt =====
-- crates/daemon/src/store/wal.rs: what `replay_from_frame` gives back of what was appended.
use scriptum.Prelude.{
  ℕ, zero, suc, ◌+◌, ◌-◌, ◌≤◌, ◌<◌, Bool, true, false, Option, none, some, List, [], ◌∷◌, ◌++◌, map,
  ◌≡◌, ◌≢◌, ◌⊎◌, refl, sym, ap, ◌∙◌, subst, arith, inl, inr, length, drop, All, is_some,
  length-drop, if◌then◌else◌, leb, leb→le, drop-nil, append-nil, Bool-cases, Option-cases,
  append_assoc, drop-append, take-append, length-append,
}
use scriptum.Daemon.Security.{Cipher, decrypt_at_rest}
use scriptum.Daemon.Wal.{
  frame_of, Frame, end_of_file, torn, corrupt, frame, read_frame, max_update_bytes, ReplayResult,
  replayed, update_failed, finish, apply_frame, replay_loop, replay_from_frame,
}
use scriptum.Daemon.Wal.Frames.{read-frame_of, length-frame_of, end-empty}

-- What an entry of the log holds: the payload as it is in the file, and the update.
abbrev pub Entry : Type 0
Entry = List ℕ × List ℕ

-- The frames of a list of entries.
abbrev pub frames : List Entry → List ℕ
frames [] = []
frames (x ∷ log) = frame_of x.0 ++ frames log

abbrev pub IsWritten : Cipher → Entry → Type 0
IsWritten cipher x = (length x.0 ≤ max_update_bytes) × (decrypt_at_rest cipher x.0 ≡ some x.1)

abbrev pub updates_of : List Entry → List (List ℕ)
updates_of = map (λ (x : Entry). x.1)

-- A client applies a list of updates in order, up to the first that fails.
abbrev pub apply_all : {S : Type 0} → (List ℕ → S → Option S) → List (List ℕ) → S → Option S
apply_all on_update [] s = some s
apply_all on_update (p ∷ ps) s = elim (on_update p s) [
  | none ↦ none
  | some s' ↦ apply_all on_update ps s'
]

abbrev pub then_finish : {S : Type 0} → (S → ReplayResult S) → Option S → ReplayResult S
then_finish f none = update_failed
then_finish f (some s) = f s

-- Where the log stops: at the end of the file, or at bytes that are no frame.
abbrev pub IsStop : Frame → Type 0
IsStop t = (p : List ℕ) (len : ℕ) → t ≢ frame p len

pub Frame-cases : (t : Frame) → IsStop t ⊎ ((p : List ℕ) × (len : ℕ) × (t ≡ frame p len))
Frame-cases end_of_file = inl (λ p len q. absurd (cc q))
Frame-cases torn = inl (λ p len q. absurd (cc q))
Frame-cases corrupt = inl (λ p len q. absurd (cc q))
Frame-cases (frame p len) = inr (p, len, refl)

abbrev pub cut_at : Frame → ℕ → Option ℕ
cut_at end_of_file n = none
cut_at torn n = some n
cut_at corrupt n = some n
cut_at (frame p len) n = none

abbrev pub is_corrupt : Frame → Bool
is_corrupt end_of_file = false
is_corrupt torn = false
is_corrupt corrupt = true
is_corrupt (frame p len) = false

module _ {S : Type 0} (cipher : Cipher) (on_update : List ℕ → S → Option S) (start : ℕ) where
  pub stop_here :
      (t : Frame) (tail file : List ℕ) (fuel offset applied valid : ℕ) (s : S)
      → IsStop t
      → read_frame cipher tail ≡ t
      → replay_loop cipher on_update start file fuel tail offset applied valid s
        ≡ finish file (cut_at t offset) (is_corrupt t) applied valid s
  unfolding replay_loop
  stop_here end_of_file tail file zero offset applied valid s stop e = rw (e, replay_loop) refl
  stop_here torn tail file zero offset applied valid s stop e = rw (e, replay_loop) refl
  stop_here corrupt tail file zero offset applied valid s stop e = rw (e, replay_loop) refl
  stop_here end_of_file tail file (suc fuel) offset applied valid s stop e =
      rw (e, replay_loop) refl
  stop_here torn tail file (suc fuel) offset applied valid s stop e = rw (e, replay_loop) refl
  stop_here corrupt tail file (suc fuel) offset applied valid s stop e = rw (e, replay_loop) refl
  stop_here (frame p len) tail file fuel offset applied valid s stop e = absurd (stop p len refl)

  pub one_frame :
      (p bytes rest file : List ℕ) (len fuel offset applied valid : ℕ) (s : S)
      → read_frame cipher bytes ≡ frame p len
      → drop (8 + len) bytes ≡ rest
      → replay_loop cipher on_update start file (suc fuel) bytes offset applied valid s
        ≡ then_finish
            (replay_loop cipher on_update start file fuel rest
              (offset + (8 + len))
              (if leb start valid then applied + 1 else applied)
              (valid + 1))
            (apply_frame cipher on_update start file valid p s)
  unfolding replay_loop
  one_frame p bytes rest file len fuel offset applied valid s e d =
      elim (Option-cases (apply_frame cipher on_update start file valid p s)) [
        | inl failed ↦ rw (e, replay_loop) (rw failed refl)
        | inr (s', done) ↦ rw (e, replay_loop) (rw (done, d) refl)
      ]

  -- The frames before `start` are skipped.
  drop_due : (valid : ℕ) (log : List Entry) → start ≤ valid → drop (start - valid) log ≡ log
  drop_due valid log h = let z : start - valid ≡ 0 = omega arith in ap (λ (n : ℕ). drop n log) z

  drop_skipped :
      (valid : ℕ) (x : Entry) (log : List Entry)
      → valid < start
      → drop (start - valid) (x ∷ log) ≡ drop (start - (valid + 1)) log
  drop_skipped valid x log h =
      let z : start - valid ≡ suc (start - (valid + 1)) = omega arith in
      ap (λ (n : ℕ). drop n (x ∷ log)) z

  replay_log :
      (t : Frame) (tail file : List ℕ) (log : List Entry) (fuel offset applied valid : ℕ) (s : S)
      (cut a v : ℕ) (us : List (List ℕ))
      → IsStop t
      → read_frame cipher tail ≡ t
      → All (IsWritten cipher) log
      → length log ≤ fuel
      → cut ≡ offset + length (frames log)
      → a ≡ applied + length (drop (start - valid) log)
      → v ≡ valid + length log
      → us ≡ updates_of (drop (start - valid) log)
      → replay_loop cipher on_update start file fuel (frames log ++ tail) offset applied valid s
        ≡ then_finish (finish file (cut_at t cut) (is_corrupt t) a v) (apply_all on_update us s)
  replay_log t tail file [] fuel offset applied valid s cut a v us stop e w l ce ae ve ue =
      let nothing : us ≡ [] = ue ∙ ap updates_of (drop-nil (start - valid)) in
      let same_applied : a ≡ applied =
        omega (arith, ae, ap length (drop-nil {A = Entry} (start - valid))) in
      let same_cut : cut ≡ offset = omega arith in
      let same_valid : v ≡ valid = omega arith in
      rw (nothing, same_applied, same_cut, same_valid)
        (stop_here t tail file fuel offset applied valid s stop e)
  replay_log t tail file (x ∷ log) zero offset applied valid s cut a v us stop e w l ce ae ve ue =
      absurd (omega arith)
  replay_log t tail file (x ∷ log) (suc fuel) offset applied valid s cut a v us stop e (w, ws) l ce
        ae ve ue =
      let whole = frames log ++ tail in
      let head : read_frame cipher ((frame_of x.0 ++ frames log) ++ tail) ≡ frame x.1 (length x.0) =
        rw (append_assoc (frame_of x.0) (frames log) tail)
          (read-frame_of cipher x.0 x.1 whole w.0 w.1) in
      let rest : drop (8 + length x.0) ((frame_of x.0 ++ frames log) ++ tail) ≡ whole =
        rw (append_assoc (frame_of x.0) (frames log) tail) (
          subst (λ n. drop n (frame_of x.0 ++ whole) ≡ whole) (length-frame_of x.0)
            (drop-append (frame_of x.0) whole)) in
      let cut_later : cut ≡ offset + (8 + length x.0) + length (frames log) =
        omega (arith, ce, length-append (frame_of x.0) (frames log), length-frame_of x.0) in
      let next = replay_log t tail file log fuel (offset + (8 + length x.0)) in
      one_frame x.1 _ whole file (length x.0) fuel offset applied valid s head rest
      ∙ elim (Bool-cases (leb start valid)) [
        | inl due ↦
            let du = drop_due valid (x ∷ log) (leb→le start valid due) in
            let dl = drop_due (valid + 1) log (omega (arith, leb→le start valid due)) in
            let these : us ≡ x.1 ∷ updates_of log = ue ∙ ap updates_of du in
            rw (due, these)
              (elim (Option-cases (on_update x.1 s)) [
                | inl failed ↦ rw (failed, apply_all) refl
                | inr (s', done) ↦
                    rw (done, apply_all)
                      (next (applied + 1) (valid + 1) s' cut a v (updates_of log) stop e ws
                        (omega arith) cut_later (omega (arith, ae, ap length du, ap length dl))
                        (omega arith) (sym (ap updates_of dl)))
              ])
        | inr skipped ↦
            let dl = drop_skipped valid x log (ground (arith, skipped)) in
            rw skipped (
              next applied (valid + 1) s cut a v us stop e ws (omega arith) cut_later
                (omega (arith, ae, ap length dl)) (omega arith) (ue ∙ ap updates_of dl))
      ]

  fuel_enough : (log : List Entry) (tail : List ℕ) → length log ≤ length (frames log ++ tail)
  fuel_enough [] tail = omega arith
  fuel_enough (x ∷ log) tail = omega (
    arith,
    fuel_enough log tail,
    length-append (frames (x ∷ log)) tail,
    length-append (frame_of x.0) (frames log),
    length-append (frames log) tail,
    length-frame_of x.0,
  )

  abbrev recovered : Frame → List Entry → S → ReplayResult S
  recovered t log s =
      replayed s
        (record {
          applied = length log - start;
          valid_frames = length log;
          truncated = is_some (cut_at t 0);
          checksum_failed = is_corrupt t;
        })
        (frames log)

  finish-recovered :
      (t : Frame) (tail : List ℕ) (log : List Entry) (s : S)
      → IsStop t
      → read_frame cipher tail ≡ t
      → finish
          (frames log ++ tail)
          (cut_at t (length (frames log)))
          (is_corrupt t)
          (length log - start)
          (length log)
          s
        ≡ recovered t log s
  finish-recovered end_of_file tail log s stop e =
      rw (end-empty cipher tail e) (rw (append-nil (frames log)) refl)
  finish-recovered torn tail log s stop e = rw (take-append (frames log) tail) refl
  finish-recovered corrupt tail log s stop e = rw (take-append (frames log) tail) refl
  finish-recovered (frame p len) tail log s stop e = absurd (stop p len refl)

  -- A log followed by bytes `tail` where no further frame stands is replayed from frame `start`: the
  -- updates from that frame on are applied in order, all frames are counted, and the file is left
  -- with the frames alone; whether bytes were cut off, and whether a checksum or a decryption
  -- failed, is what the tail says. If an update fails, so does the replay.
  pub replay-recovers :
      (t : Frame) (tail : List ℕ) (log : List Entry) (s : S)
      → IsStop t
      → read_frame cipher tail ≡ t
      → All (IsWritten cipher) log
      → replay_from_frame cipher on_update start (frames log ++ tail) s
        ≡ then_finish
            (λ s'.
              replayed s'
                (record {
                  applied = length log - start;
                  valid_frames = length log;
                  truncated = is_some (cut_at t 0);
                  checksum_failed = is_corrupt t;
                })
                (frames log))
            (apply_all on_update (updates_of (drop start log)) s)
  unfolding replay_from_frame
  replay-recovers t tail log s stop e w =
      let z : start - 0 ≡ start = omega arith in
      let from_start : drop (start - 0) log ≡ drop start log = ap (λ (n : ℕ). drop n log) z in
      replay_log t tail (frames log ++ tail) log (length (frames log ++ tail)) 0 0 0 s
        (length (frames log)) (length log - start) (length log) (updates_of (drop start log)) stop e
        w (fuel_enough log tail) (omega arith) (omega (arith, length-drop (start - 0) log))
        (omega arith) (sym (ap updates_of from_start))
      ∙ elim (Option-cases (apply_all on_update (updates_of (drop start log)) s)) [
        | inl failed ↦ rw failed refl
        | inr (s', done) ↦ rw done (finish-recovered t tail log s' stop e)
      ]
