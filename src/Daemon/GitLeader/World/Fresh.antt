-- ===== src/Daemon/GitLeader/World/Fresh.antt =====
-- A daemon whose lease was confirmed within the time to live leads, whatever happens.
use scriptum.Prelude.{
  ℕ, ◌+◌, ◌≤◌, ◌<◌, ◌≡◌, refl, sym, ◌∙◌, subst, false, ltb, some, List, [], ◌∷◌, arith, nat_eq,
}
use scriptum.Prelude.HashMap.{Unique, Unique-retain}
use scriptum.Prelude.Numbers.{Uuid, Instant}
use scriptum.Relay.Leader as Relay
use scriptum.Relay.Leader.{LeaseTable, survives, current_leader, active_row}
use scriptum.Daemon.GitLeader.{leader, LeaderConfig}
use scriptum.Daemon.GitLeader.World.{
  Network, let_go, Phase, ready, renewing, acquiring, sleeping, left, State, begin, Event, asks,
  continues, wakes, notices, shuts_down, releases, shut_down, evicts, ask_in, continue, woken,
  noticed, released, ended, step, run, Rising, last_time,
}
use scriptum.Daemon.GitLeader.World.Holds.{Holds-later, evict-Holds}
use scriptum.Daemon.GitLeader.World.Sound.{PendingHolds, AllSound, move-IsSound, put-AllSound}
use scriptum.Daemon.GitLeader.World.Moves.{
  ask-AllSound, continue-IsSound, woken-Holds, let_go-Holds, let_go-Unique, noticed_running,
  continue-stopping, released-stopping, ended-stopping,
}

evict-Unique :
    (now : ℕ) (table : LeaseTable) → Unique table → Unique (Relay.evict_expired now table).0
unfolding Relay.evict_expired
evict-Unique now table u = Unique-retain (survives now) table u

module _ (config : Uuid → LeaderConfig) (ttl : ℕ) (w : Uuid) where
  AllSound-later :
      (t now : Instant) (s : State)
      → t ≤ now
      → AllSound config ttl w t s
      → AllSound config ttl w now s
  AllSound-later t now s le (u, sound) = (
    u,
    λ x running.
        move-IsSound config ttl w s.table s.table t now x (s.daemons x)
          (λ since. Holds-later ttl w s.table x since le) (sound x running),
  )

  ask_in-AllSound :
      (t now : Instant) (c p : Uuid) (net : Network) (s : State) (phase : Phase)
      → t ≤ now
      → AllSound config ttl w t s
      → AllSound config ttl w now (ask_in config ttl w phase c p net now s)
  ask_in-AllSound t now c p net s ready le sound =
      ask-AllSound config ttl w t now c p net s (s.daemons c).inner.current_lease_id le refl sound
  ask_in-AllSound t now c p net s (acquiring asked a) le sound = AllSound-later t now s le sound
  ask_in-AllSound t now c p net s (renewing asked a) le sound = AllSound-later t now s le sound
  ask_in-AllSound t now c p net s (sleeping n) le sound = AllSound-later t now s le sound
  ask_in-AllSound t now c p net s left le sound = AllSound-later t now s le sound

  step-AllSound :
      (t now : Instant) (event : Event) (s : State)
      → t ≤ now
      → AllSound config ttl w t s
      → AllSound config ttl w now (step config ttl w now event s)
  unfolding step
  step-AllSound t now (asks c p net) s le sound =
      ask_in-AllSound t now c p net s (s.daemons c).phase le sound
  step-AllSound t now (continues c) s le (u, sound) =
      let d = s.daemons c in
      let later = (AllSound-later t now s le (u, sound)).1 in
      put-AllSound config ttl w now c (continue config ttl w (config c) d.phase d) s.table s u
        (λ running.
          let own = later c (sym (continue-stopping config ttl w (config c) d.phase d) ∙ running) in
          continue-IsSound config ttl w now c s.table d d.phase own.pending own)
        (λ x ne. later x)
  step-AllSound t now (wakes c) s le (u, sound) =
      let d = s.daemons c in
      let later = (AllSound-later t now s le (u, sound)).1 in
      put-AllSound config ttl w now c (record d { phase = woken config ttl w d.phase }) s.table s u
        (λ running. record {
          with_lease = (later c running).with_lease;
          held = (later c running).held;
          no_release = (later c running).no_release;
          pending = woken-Holds config ttl w now c s.table d d.phase (later c running).pending;
        })
        (λ x ne. later x)
  step-AllSound t now (notices c) s le (u, sound) =
      let d = s.daemons c in
      let later = (AllSound-later t now s le (u, sound)).1 in
      put-AllSound config ttl w now c (record d { phase = noticed config ttl w d.phase d.stopping })
        s.table s u
        (λ running. record {
          with_lease = (later c running).with_lease;
          held = (later c running).held;
          no_release = (later c running).no_release;
          pending =
              subst (λ p. PendingHolds config ttl w s.table now c d p)
                (sym (noticed_running config ttl w d.phase d.stopping running))
                (later c running).pending;
        })
        (λ x ne. later x)
  step-AllSound t now (shuts_down c) s le (u, sound) =
      let later = (AllSound-later t now s le (u, sound)).1 in
      put-AllSound config ttl w now c _ s.table s u (λ running. cc) (λ x ne. later x)
  step-AllSound t now (releases c net) s le (u, sound) =
      let d = s.daemons c in
      let after = let_go config ttl w (ltb 0 d.releases_asked) net c now s.table in
      let later = (AllSound-later t now s le (u, sound)).1 in
      put-AllSound config ttl w now c (released config ttl w d) after s
        (let_go-Unique config ttl w now c (ltb 0 d.releases_asked) net s.table u)
        (λ running.
          let own = later c (sym (released-stopping config ttl w d) ∙ running) in
          let none_asked : ltb 0 d.releases_asked ≡ false = rw own.no_release.0 refl in
          rw (none_asked, released) own)
        (λ x ne running.
          move-IsSound config ttl w s.table after now now x (s.daemons x)
            (λ since.
              let_go-Holds config ttl w now since c x (ltb 0 d.releases_asked) net s.table ne)
            (later x running))
  step-AllSound t now (shut_down c) s le (u, sound) =
      let d = s.daemons c in
      let later = (AllSound-later t now s le (u, sound)).1 in
      put-AllSound config ttl w now c (ended config ttl w d) s.table s u
        (λ running.
          let own = later c (sym (ended-stopping config ttl w d) ∙ running) in
          let none_answered : ltb 0 d.releases_answered ≡ false = rw own.no_release.1 refl in
          rw (none_answered, ended) own)
        (λ x ne. later x)
  step-AllSound t now evicts s le (u, sound) =
      let after = (Relay.evict_expired now s.table).0 in
      let later = (AllSound-later t now s le (u, sound)).1 in
      (
        evict-Unique now s.table u,
        λ x running.
            move-IsSound config ttl w s.table after now now x (s.daemons x)
              (λ since. evict-Holds ttl w now since x s.table u) (later x running),
      )

  run-AllSound :
      (t : Instant) (events : List (Instant × Event)) (s : State)
      → Rising t events
      → AllSound config ttl w t s
      → AllSound config ttl w (last_time t events) (run config ttl w events s)
  unfolding run
  run-AllSound t [] s up sound = sound
  run-AllSound t ((now, event) ∷ events) s (le, up) sound =
      run-AllSound now events (step config ttl w now event s) up
        (step-AllSound t now event s le sound)

  -- Daemons that start on any table of leases run their loops, whatever requests and answers are lost,
  -- however their steps interleave, and whenever others are shut down. A daemon whose own shutdown has
  -- not begun, that takes itself for the leader, and whose lease was granted or renewed by a request less
  -- than the time to live ago, is the leader in the table of the relay, so that no other daemon is.
  pub confirmed_leads :
      (events : List (Instant × Event)) (table : LeaseTable) (c l : Uuid)
      → Unique table
      → Rising 0 events
      → ((run config ttl w events (begin table)).daemons c).stopping ≡ false
      → ((run config ttl w events (begin table)).daemons c).inner.state ≡ leader l
      → last_time 0 events < ((run config ttl w events (begin table)).daemons c).confirmed_at + ttl
      → current_leader w (last_time 0 events) (run config ttl w events (begin table)).table ≡ some c
  unfolding current_leader active_row
  confirmed_leads events table c l u up running e lt =
      let begins : AllSound config ttl w 0 (begin table) = (
        u,
        λ x running. record {
          with_lease = λ k f. cc;
          held = λ k f. cc;
          pending = tt;
          no_release = (refl, refl);
        },
      ) in
      let own = (run-AllSound 0 events (begin table) up begins).1 c running in
      let (row, at, mine, le) = (own.held l (own.with_lease l e)).1 lt in ground arith
