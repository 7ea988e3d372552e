-- ===== src/Daemon/Debounce/Delivery.antt =====
-- When and how an event of a path is delivered.
use scriptum.Prelude.{
  ℕ, ◌+◌, ◌<◌, ◌≡◌, ◌≢◌, refl, ap, subst, ◌∙◌, Bool, true, false, not, Option, none, some, inl, inr,
  List, [], ◌∷◌, ◌++◌, map, filter, leb, if◌then◌else◌, Eq, ◌==◌, ==_refl, ==_ne, ==→eq, arith,
  Bool-cases, filter-append,
}
use scriptum.Prelude.HashMap
use scriptum.Prelude.HashMap.{
  HashMap, Unique, keep_if, get-insert, get-retain, Unique-insert, Unique-retain,
}
use scriptum.Prelude.Numbers.{Instant}
use scriptum.Daemon.Debounce.{
  PendingEvent, RawFsEvent, Debouncer, push_at, drain_ready_at, is_ready, entry_ready, event_of,
  stays,
}

pub data Op (FilePath Kind : Type 0) : Type 0 where
  pushes : RawFsEvent FilePath Kind → Op FilePath Kind
  drains : Op FilePath Kind

module _ {FilePath Kind : Type 0} ⦃e : Eq FilePath⦄ where
  -- What the drains return, with their times.
  abbrev pub stamped :
      Instant → List (RawFsEvent FilePath Kind) → List (Instant × RawFsEvent FilePath Kind)
  stamped now = map (λ event. (now, event))

  unfoldable pub run :
      List (Instant × Op FilePath Kind)
      → Debouncer FilePath Kind
      → List (Instant × RawFsEvent FilePath Kind)
  unfolding drain_ready_at
  run [] d = []
  run ((now, pushes event) ∷ ops) d = run ops (push_at event now d)
  run ((now, drains) ∷ ops) d =
      let (d', events) = drain_ready_at now d in stamped now events ++ run ops d'

  abbrev is_of : FilePath → Instant × RawFsEvent FilePath Kind → Bool
  is_of path (now, event) = event.path == path

  -- The deliveries of one path.
  abbrev pub deliveries :
      FilePath
      → List (Instant × RawFsEvent FilePath Kind)
      → List (Instant × RawFsEvent FilePath Kind)
  deliveries path = filter (is_of path)

  -- The first drain from a time on delivers the event, and no other does.
  unfoldable pub delivered_once :
      RawFsEvent FilePath Kind
      → Instant
      → List (Instant × Op FilePath Kind)
      → List (Instant × RawFsEvent FilePath Kind)
  delivered_once event due [] = []
  delivered_once event due ((now, pushes other) ∷ ops) = delivered_once event due ops
  delivered_once event due ((now, drains) ∷ ops) =
      let rest = delivered_once event due ops in if leb due now then (now, event) ∷ [] else rest

  -- No push of the path.
  abbrev pub Quiet : FilePath → List (Instant × Op FilePath Kind) → Type 0
  Quiet path [] = Unit
  Quiet path ((now, pushes event) ∷ ops) = (event.path ≢ path) × Quiet path ops
  Quiet path ((now, drains) ∷ ops) = Quiet path ops

  abbrev one :
      FilePath → Instant → Option (PendingEvent Kind) → List (Instant × RawFsEvent FilePath Kind)
  one path now none = []
  one path now (some p) = (now, record { kind = p.kind; path = path }) ∷ []

  abbrev taken_out :
      ℕ → Instant → HashMap FilePath (PendingEvent Kind) → List (Instant × RawFsEvent FilePath Kind)
  taken_out window now pending =
      stamped now (map event_of (filter (entry_ready window now) pending))

  drained_none :
      (path : FilePath) (window now : ℕ) (pending : HashMap FilePath (PendingEvent Kind))
      → HashMap.get path pending ≡ none
      → deliveries path (taken_out window now pending) ≡ []
  unfolding HashMap.get
  drained_none path window now [] h = refl
  drained_none path window now ((other, p) ∷ rest) h =
      ground (arith, drained_none path window now rest)

  -- The events of one path among those that a drain takes out.
  drained :
      (path : FilePath) (window now : ℕ) (pending : HashMap FilePath (PendingEvent Kind))
      → Unique pending
      → deliveries path (taken_out window now pending)
        ≡ one path now (keep_if (is_ready window now) (HashMap.get path pending))
  unfolding HashMap.get
  drained path window now [] u = refl
  drained path window now ((other, p) ∷ rest) u = elim (Bool-cases (other == path)) [
    | inl same ↦
        let eq = ==→eq other path same in
        let gone = drained_none path window now rest (rw (← eq) u.0) in
        elim (Bool-cases (is_ready window now p)) [
          | inl r ↦
              rw same
                (rw r (rw same (rw gone (ap (λ (x : FilePath). (now, event_of (x, p)) ∷ []) eq))))
          | inr r ↦ rw same (rw r gone)
        ]
    | inr differs ↦ ground (arith, differs, drained path window now rest u.1)
  ]

  -- After a push at some time, and until the path is pushed again.
  abbrev Waits : FilePath → Option (PendingEvent Kind) → Debouncer FilePath Kind → Type 0
  Waits path p d = Unique d.pending × (0 < d.window) × (HashMap.get path d.pending ≡ p)

  push-Waits :
      (path : FilePath) (p : Option (PendingEvent Kind)) (event : RawFsEvent FilePath Kind)
      (now : Instant) (d : Debouncer FilePath Kind)
      → event.path ≢ path
      → Waits path p d
      → Waits path p (push_at event now d)
  push-Waits path p event now d ne (u, pos, h) =
      let new : PendingEvent Kind = record { kind = event.kind; last_seen = now } in
      (
        Unique-insert event.path new d.pending u,
        pos,
        get-insert event.path path new d.pending ∙ rw (==_ne event.path path ne) h,
      )

  drain-Waits :
      (path : FilePath) (p : Option (PendingEvent Kind)) (now : Instant)
      (d : Debouncer FilePath Kind)
      → Waits path p d
      → Waits path (keep_if (stays d.window now path) p) (drain_ready_at now d).0
  unfolding drain_ready_at
  drain-Waits path p now d (u, pos, h) = (
    Unique-retain (stays d.window now) d.pending u,
    pos,
    get-retain (stays d.window now) path d.pending u ∙ ap (keep_if (stays d.window now path)) h,
  )

  -- What a drain returns of a path.
  drain-deliveries :
      (path : FilePath) (p : Option (PendingEvent Kind)) (now : Instant)
      (d : Debouncer FilePath Kind)
      → Waits path p d
      → deliveries path (stamped now (drain_ready_at now d).1)
        ≡ one path now (keep_if (is_ready d.window now) p)
  unfolding drain_ready_at
  drain-deliveries path p now d (u, pos, h) =
      drained path d.window now d.pending u
      ∙ ap (λ q. one path now (keep_if (is_ready d.window now) q)) h

  no_delivery :
      (path : FilePath) (ops : List (Instant × Op FilePath Kind)) (d : Debouncer FilePath Kind)
      → Waits path none d
      → Quiet path ops
      → deliveries path (run ops d) ≡ []
  unfolding run
  no_delivery path [] d w q = refl
  no_delivery path ((now, pushes event) ∷ ops) d w q =
      no_delivery path ops (push_at event now d) (push-Waits path none event now d q.0 w) q.1
  no_delivery path ((now, drains) ∷ ops) d w q =
      filter-append (is_of path) (stamped now (drain_ready_at now d).1)
        (run ops (drain_ready_at now d).0)
      ∙ rw (drain-deliveries path none now d w)
          (no_delivery path ops (drain_ready_at now d).0 (drain-Waits path none now d w) q)

  one_delivery :
      (path : FilePath) (kind : Kind) (t : Instant) (ops : List (Instant × Op FilePath Kind))
      (d : Debouncer FilePath Kind)
      → Waits path (some (record { kind = kind; last_seen = t })) d
      → Quiet path ops
      → deliveries path (run ops d)
        ≡ delivered_once (record { kind = kind; path = path }) (t + d.window) ops
  unfolding run delivered_once
  one_delivery path kind t [] d w q = refl
  one_delivery path kind t ((now, pushes event) ∷ ops) d w q =
      let p = some (let z : PendingEvent Kind = record { kind = kind; last_seen = t } in z) in
      one_delivery path kind t ops (push_at event now d) (push-Waits path p event now d q.0 w) q.1
  one_delivery path kind t ((now, drains) ∷ ops) d w q =
      let z : PendingEvent Kind = record { kind = kind; last_seen = t } in
      let d' = (drain_ready_at now d).0 in
      let w' = drain-Waits path (some z) now d w in
      let split = filter-append (is_of path) (stamped now (drain_ready_at now d).1) (run ops d') in
      split
      ∙ rw (drain-deliveries path (some z) now d w) (elim (Bool-cases (is_ready d.window now z)) [
        | inl r ↦
            let due : leb (t + d.window) now ≡ true = ground (arith, w.1) in
            rw r (
              rw due (
                ap (◌∷◌ (now, event_of (path, z))) (
                  no_delivery path ops d'
                    (subst (λ b. Waits path (if not b then some z else none) d') r w') q)))
        | inr r ↦
            let due : leb (t + d.window) now ≡ false = ground arith in
            rw r (
              rw due (
                one_delivery path kind t ops d'
                  (subst (λ b. Waits path (if not b then some z else none) d') r w') q))
      ])

  -- An event that is pushed, and no other of its path after it, is delivered once, by the first drain
  -- after the window, with its own kind, whatever was pending and whatever happens to other paths.
  pub pushed_delivered :
      (event : RawFsEvent FilePath Kind) (now : Instant) (d : Debouncer FilePath Kind)
      (ops : List (Instant × Op FilePath Kind))
      → Unique d.pending
      → 0 < d.window
      → Quiet event.path ops
      → deliveries event.path (run ((now, pushes event) ∷ ops) d)
        ≡ delivered_once event (now + d.window) ops
  unfolding run
  pushed_delivered event now d ops u pos q =
      let new : PendingEvent Kind = record { kind = event.kind; last_seen = now } in
      one_delivery event.path event.kind now ops (push_at event now d)
        (
          Unique-insert event.path new d.pending u,
          pos,
          get-insert event.path event.path new d.pending ∙ rw (==_refl event.path) refl,
        )
        q
