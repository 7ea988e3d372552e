-- ===== src/Daemon/GitLeader/World/Stale.antt =====
-- A leader that the relay does not answer.
use scriptum.Prelude.{
  ℕ, ◌≤◌, ◌≡◌, ◌≢◌, refl, sym, ap, ◌∙◌, false, none, some, List, [], ◌∷◌, nat_eq, ==_refl, ==_ne,
  le→leb,
}
use scriptum.Prelude.HashMap
use scriptum.Prelude.Numbers.{Uuid, Instant}
use scriptum.Relay.Leader as Relay
use scriptum.Relay.Leader.{LeaseRow, LeaseTable, upserted, proposal, acquire_result}
use scriptum.Daemon.GitLeader.{
  granted, ok, err, connection_failed, leader, LeaderConfig, after_renew, after_acquire,
}
use scriptum.Daemon.GitLeader.World.{
  works, request_lost, Phase, ready, renewing, acquiring, sleeping, Daemon, State, Event, asks,
  continues, wakes, ask_with, put, step, run,
}

-- One round of a loop without an answer.
abbrev pub silent : Uuid → List (Instant × Uuid) → List (Instant × Event)
silent a [] = []
silent a ((now, p) ∷ rounds) =
    (now, asks a p request_lost) ∷ (now, continues a) ∷ (now, wakes a) ∷ silent a rounds

-- A daemon that leads, in some phase.
abbrev pub leading : Uuid → Phase → Instant → Daemon
leading l phase confirmed = record {
  inner = record { current_lease_id = some l; state = leader l };
  phase = phase;
  stopping = false;
  releases_asked = 0;
  releases_answered = 0;
  confirmed_at = confirmed;
}

module _ (config : Uuid → LeaderConfig) (ttl : ℕ) (w : Uuid) where
  -- The state after an event of one daemon, with the table as it was.
  Becomes : Uuid → Daemon → State → State → Type 0
  Becomes a d s s' = s' ≡ put config ttl w a d s.table s

  ask-Becomes :
      (now : Instant) (a p l : Uuid) (q : ℕ) (s : State)
      → s.daemons a ≡ leading l ready q
      → Becomes a
          (leading l (renewing now (err connection_failed)) q)
          s
          (step config ttl w now (asks a p request_lost) s)
  unfolding step Becomes
  ask-Becomes now a p l q s e = rw e (rw (e, ask_with) refl)

  continue-Becomes :
      (now asked : Instant) (a l : Uuid) (q : ℕ) (s : State)
      → s.daemons a ≡ leading l (renewing asked (err connection_failed)) q
      → Becomes a
          (leading l (sleeping (config a).heartbeat_interval) q)
          s
          (step config ttl w now (continues a) s)
  unfolding step after_renew Becomes
  continue-Becomes now asked a l q s e = rw e refl

  wake-Becomes :
      (now n : Instant) (a l : Uuid) (q : ℕ) (s : State)
      → s.daemons a ≡ leading l (sleeping n) q
      → Becomes a (leading l ready q) s (step config ttl w now (wakes a) s)
  unfolding step Becomes
  wake-Becomes now n a l q s e = rw e refl

  Becomes-at : (a : Uuid) (d : Daemon) (s s' : State) → Becomes a d s s' → s'.daemons a ≡ d
  unfolding Becomes
  Becomes-at a d s s' e = rw e (rw (==_refl a) refl)

  abbrev Untouched : Uuid → State → State → Type 0
  Untouched a s s' = (s'.table ≡ s.table) × ((x : Uuid) → x ≢ a → s'.daemons x ≡ s.daemons x)

  Becomes-Untouched : (a : Uuid) (d : Daemon) (s s' : State) → Becomes a d s s' → Untouched a s s'
  unfolding Becomes
  Becomes-Untouched a d s s' e =
      (ap (λ (t : State). t.table) e, λ x ne. rw e (rw (==_ne x a ne) refl))

  Untouched-trans : (a : Uuid) (s t u : State) → Untouched a s t → Untouched a t u → Untouched a s u
  Untouched-trans a s t u (e, f) (g, h) = (g ∙ e, λ x ne. h x ne ∙ f x ne)

  run-silent :
      (a l : Uuid) (q : ℕ) (rounds : List (Instant × Uuid)) (s : State)
      → s.daemons a ≡ leading l ready q
      → ((run config ttl w (silent a rounds) s).daemons a ≡ leading l ready q)
        × Untouched a s (run config ttl w (silent a rounds) s)
  unfolding run
  run-silent a l q [] s e = (e, (refl, λ x ne. refl))
  run-silent a l q ((now, p) ∷ rounds) s e =
      let s1 = step config ttl w now (asks a p request_lost) s in
      let b1 = ask-Becomes now a p l q s e in
      let s2 = step config ttl w now (continues a) s1 in
      let b2 = continue-Becomes now now a l q s1 (Becomes-at a _ s s1 b1) in
      let s3 = step config ttl w now (wakes a) s2 in
      let b3 = wake-Becomes now (config a).heartbeat_interval a l q s2 (Becomes-at a _ s1 s2 b2) in
      let rest = run-silent a l q rounds s3 (Becomes-at a _ s2 s3 b3) in
      (
        rest.0,
        Untouched-trans a s s1 _ (Becomes-Untouched a _ s s1 b1) (
            Untouched-trans a s1 s2 _ (Becomes-Untouched a _ s1 s2 b2)
              (Untouched-trans a s2 s3 _ (Becomes-Untouched a _ s2 s3 b3) rest.1)),
      )

  -- Another daemon acquires a lease that has expired.
  acquire_expired :
      (now : Instant) (b p : Uuid) (row : LeaseRow) (table : LeaseTable)
      → HashMap.get w table ≡ some row
      → row.expires_at ≤ now
      → Relay.acquire ttl w b p now table
        ≡ (HashMap.insert w (proposal ttl b p now) table, Relay.granted p)
  unfolding Relay.acquire
  acquire_expired now b p row table e le =
      let over_now = le→leb row.expires_at now le in
      rw e (rw (over_now, upserted) (rw (==_refl b) (rw (==_refl p) refl)))

  ask_expired :
      (now : Instant) (b p : Uuid) (row : LeaseRow) (s : State)
      → HashMap.get w s.table ≡ some row
      → row.expires_at ≤ now
      → (s.daemons b).phase ≡ ready
      → (s.daemons b).inner.current_lease_id ≡ none
      → step config ttl w now (asks b p works) s
        ≡ put config ttl w b
            (record (s.daemons b) { phase = acquiring now (ok (granted p)) })
            (HashMap.insert w (proposal ttl b p now) s.table)
            s
  unfolding step
  ask_expired now b p row s e le f g =
      rw f (rw (g, ask_with) (rw (acquire_expired now b p row s.table e le) refl))

  continue_acquired :
      (now asked : Instant) (b p : Uuid) (s : State)
      → (s.daemons b).phase ≡ acquiring asked (ok (granted p))
      → ((step config ttl w now (continues b) s).daemons b).inner.state ≡ leader p
  unfolding step after_acquire
  continue_acquired now asked b p s f = rw (==_refl b) (rw f refl)

  continue-other :
      (now : Instant) (a b : Uuid) (s : State)
      → a ≢ b
      → (step config ttl w now (continues b) s).daemons a ≡ s.daemons a
  unfolding step
  continue-other now a b s ne = rw (==_ne a b ne) refl

  put-other :
      (d : Daemon) (table : LeaseTable) (a b : Uuid) (s s' : State)
      → a ≢ b
      → s' ≡ put config ttl w b d table s
      → s'.daemons a ≡ s.daemons a
  put-other d table a b s s' ne e = rw e (rw (==_ne a b ne) refl)

  -- A leader keeps taking itself for the leader through any number of rounds whose renewals the relay
  -- does not answer, even past the end of its lease. Another daemon that then asks for the lease
  -- becomes the leader too, so that two daemons take themselves for the leader.
  pub two_leaders :
      (a b l p : Uuid) (q : ℕ) (rounds : List (Instant × Uuid)) (now : Instant) (row : LeaseRow)
      (s : State)
      → a ≢ b
      → s.daemons a ≡ leading l ready q
      → HashMap.get w s.table ≡ some row
      → row.expires_at ≤ now
      → (s.daemons b).phase ≡ ready
      → (s.daemons b).inner.current_lease_id ≡ none
      → let s' =
          run config ttl w
            ((now, asks b p works) ∷ (now, continues b) ∷ [])
            (run config ttl w (silent a rounds) s) in
        ((s'.daemons a).inner.state ≡ leader l) × ((s'.daemons b).inner.state ≡ leader p)
  unfolding run
  two_leaders a b l p q rounds now row s ne lead at le f g =
      let r = run-silent a l q rounds s lead in
      let s1 = run config ttl w (silent a rounds) s in
      let same = r.1.1 b (λ h. ne (sym h)) in
      let asked = ask_expired now b p row s1 (rw r.1.0 at) le (rw same f) (rw same g) in
      let s2 = step config ttl w now (asks b p works) s1 in
      (
        ap (λ (d : Daemon). d.inner.state)
            (continue-other now a b s2 ne ∙ (put-other _ _ a b s1 s2 ne asked ∙ r.0)),
        continue_acquired now now b p s2 (rw (asked, put) (rw (==_refl b) refl)),
      )
