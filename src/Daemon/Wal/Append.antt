-- ===== src/Daemon/Wal/Append.antt =====
-- crates/daemon/src/store/wal.rs: `append_update` and what replay finds after it, or after a crash in
-- the middle of it.
use scriptum.Prelude.{
  ℕ, zero, suc, ◌+◌, ◌-◌, ◌^◌, ◌≤◌, ◌<◌, true, false, Option, some, List, [], ◌∷◌, ◌++◌, ◌≡◌, ◌≢◌,
  refl, sym, ap, ◌∙◌, arith, inl, inr, length, take, drop, All, All-append, if◌then◌else◌, leb,
  Option-cases, append_assoc, append-nil, take-append_long, length-append, length-drop,
}
use scriptum.Daemon.Security.{Cipher, encrypt_at_rest, decrypt-encrypt, length-encrypt, nonce_bytes}
use scriptum.Daemon.Wal.{
  frame_of, torn, read_frame, max_update_bytes, append_update, ReplayResult, replayed, out_of_fuel,
  apply_frame, replay_loop, replay_from_frame,
}
use scriptum.Daemon.Wal.Frames.{frame_fits, read-take, read-oversized}
use scriptum.Daemon.Wal.Replay.{
  Entry, frames, IsWritten, updates_of, apply_all, then_finish, replay-recovers, IsStop, stop_here,
  one_frame, Frame-cases,
}

frames-snoc : (log : List Entry) (x : Entry) → frames (log ++ x ∷ []) ≡ frames log ++ frame_of x.0
frames-snoc [] x = append-nil (frame_of x.0)
frames-snoc (y ∷ log) x =
    ap (λ (r : List ℕ). frame_of y.0 ++ r) (frames-snoc log x)
    ∙ sym (append_assoc (frame_of y.0) (frames log) (frame_of x.0))

module _ (cipher : Cipher) (nonce payload file file' : List ℕ) where
  -- What an append that succeeds has written.
  appended :
      append_update cipher nonce payload file ≡ some file'
      → (e : List ℕ) × (encrypt_at_rest cipher nonce payload ≡ some e)
        × (length e < 2 ^ 32)
        × (file' ≡ file ++ frame_of e)
  unfolding append_update
  appended h = elim (Option-cases (encrypt_at_rest cipher nonce payload)) [
    | inl failed ↦ absurd (cc (h, failed))
    | inr (e, done) ↦ (e, done, ground (arith, done), ground (arith, done))
  ]

module _ (cipher : Cipher) (nonce payload : List ℕ) (log : List Entry) where
  -- An update of at most 1 MiB that is appended to a log makes the log one entry longer: that entry's
  -- update is the payload, and replay reads it back.
  pub append-extends :
      (file' : List ℕ)
      → length nonce ≡ nonce_bytes
      → length payload ≤ 1048576
      → All (IsWritten cipher) log
      → append_update cipher nonce payload (frames log) ≡ some file'
      → (e : List ℕ) × (file' ≡ frames (log ++ (let x : Entry = (e, payload) in x) ∷ []))
        × All (IsWritten cipher) (log ++ (let x : Entry = (e, payload) in x) ∷ [])
  append-extends file' n l w h =
      let (e, done, small, shape) = appended cipher nonce payload (frames log) file' h in
      (
        e,
        shape ∙ sym (frames-snoc log (e, payload)),
        All-append (IsWritten cipher) log _ w (
          (
            omega (arith, length-encrypt cipher nonce payload e n done),
            decrypt-encrypt cipher nonce payload e n done,
          ),
          tt,
        ),
      )

module _ {S : Type 0} (cipher : Cipher) (on_update : List ℕ → S → Option S) (start : ℕ)
    (log : List Entry) where
  -- What replay gives for the log and a tail that is cut off it.
  abbrev pub cut_off : S → ReplayResult S
  cut_off s =
      then_finish
        (λ s'.
          replayed s'
            (record {
              applied = length log - start;
              valid_frames = length log;
              truncated = true;
              checksum_failed = false;
            })
            (frames log))
        (apply_all on_update (updates_of (drop start log)) s)

  -- A crash in the middle of an append leaves the log and a part of the new frame: replay applies the
  -- updates of the log, no more, reports the truncation and cuts the part off.
  pub crash-recovers :
      (nonce payload file' : List ℕ) (k : ℕ) (s : S)
      → length nonce ≡ nonce_bytes
      → length payload ≤ 1048576
      → All (IsWritten cipher) log
      → append_update cipher nonce payload (frames log) ≡ some file'
      → length (frames log) < k
      → k < length file'
      → replay_from_frame cipher on_update start (take k file') s ≡ cut_off s
  crash-recovers nonce payload file' k s n l w h lo hi =
      let (e, done, small, shape) = appended cipher nonce payload (frames log) file' h in
      let part : take k file' ≡ frames log ++ take (k - length (frames log)) (frame_of e) =
        ap (take k) shape ∙ take-append_long k (frames log) (frame_of e) (omega arith) in
      let is_torn =
        read-take cipher e (k - length (frames log))
          (omega (arith, length-encrypt cipher nonce payload e n done)) (omega arith)
          (omega (arith, ap length shape, length-append (frames log) (frame_of e))) in
      rw part
        (replay-recovers cipher on_update start torn _ log s (λ p len q. absurd (cc q)) is_torn w)

  -- An append takes updates that replay does not: after one whose encryption is longer than replay
  -- admits, replay stops there, and cuts it off with all that was appended later.
  pub oversized-lost :
      (nonce payload file' later e : List ℕ) (s : S)
      → All (IsWritten cipher) log
      → encrypt_at_rest cipher nonce payload ≡ some e
      → max_update_bytes < length e
      → append_update cipher nonce payload (frames log) ≡ some file'
      → replay_from_frame cipher on_update start (file' ++ later) s ≡ cut_off s
  oversized-lost nonce payload file' later e s w enc big h =
      let (e', done, small, shape) = appended cipher nonce payload (frames log) file' h in
      let same : e' ≡ e = cc (enc, done) in
      let split : file' ++ later ≡ frames log ++ (frame_of e ++ later) =
        ap (λ (f : List ℕ). f ++ later) (shape ∙ ap (λ (x : List ℕ). frames log ++ frame_of x) same)
        ∙ append_assoc (frames log) (frame_of e) later in
      rw split (
        replay-recovers cipher on_update start torn _ log s (λ p len q. absurd (cc q))
          (read-oversized cipher e later big (omega (arith, ap length same))) w)

module _ {S : Type 0} (cipher : Cipher) (on_update : List ℕ → S → Option S) (start : ℕ)
    (file : List ℕ) where
  abbrev loop_result : S → ℕ → List ℕ → ℕ → ℕ → ℕ → ReplayResult S
  loop_result s fuel bytes offset applied valid =
      replay_loop cipher on_update start file fuel bytes offset applied valid s

  stops :
      (fuel : ℕ) (bytes : List ℕ) (offset applied valid : ℕ) (s : S)
      → IsStop (read_frame cipher bytes)
      → loop_result s fuel bytes offset applied valid ≢ out_of_fuel
  stops fuel bytes offset applied valid s stop q =
      absurd (
        cc (q, stop_here cipher on_update start _ bytes file fuel offset applied valid s stop refl))

  loop-returns :
      (fuel : ℕ) (bytes : List ℕ) (offset applied valid : ℕ) (s : S)
      → length bytes ≤ fuel
      → loop_result s fuel bytes offset applied valid ≢ out_of_fuel
  loop-returns zero bytes offset applied valid s l = elim (Frame-cases (read_frame cipher bytes)) [
    | inl stop ↦ stops zero bytes offset applied valid s stop
    | inr (p, len, e) ↦ λ q. absurd (omega (arith, frame_fits cipher bytes p len e))
  ]
  loop-returns (suc fuel) bytes offset applied valid s l =
      elim (Frame-cases (read_frame cipher bytes)) [
        | inl stop ↦ stops (suc fuel) bytes offset applied valid s stop
        | inr (p, len, e) ↦ λ q.
            let once =
              one_frame cipher on_update start p bytes _ file len fuel offset applied valid s e
                refl in
            elim (Option-cases (apply_frame cipher on_update start file valid p s)) [
              | inl failed ↦ absurd (cc (q, once, failed))
              | inr (s', done) ↦
                  let next : ReplayResult S =
                    loop_result s' fuel (drop (8 + len) bytes) (offset + (8 + len))
                      (if leb start valid then applied + 1 else applied) (valid + 1) in
                  let step : loop_result s (suc fuel) bytes offset applied valid ≡ next =
                    once ∙ rw done refl in
                  loop-returns fuel (drop (8 + len) bytes) (offset + (8 + len))
                    (if leb start valid then applied + 1 else applied) (valid + 1) s'
                    (omega (arith, frame_fits cipher bytes p len e, length-drop (8 + len) bytes))
                    (sym step ∙ q)
            ]
      ]

  -- Replay returns for every file: it uses a byte of the file, at least, in each round.
  pub replay-returns : (s : S) → replay_from_frame cipher on_update start file s ≢ out_of_fuel
  unfolding replay_from_frame
  replay-returns s = loop-returns (length file) file 0 0 0 s (omega arith)
