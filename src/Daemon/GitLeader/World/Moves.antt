-- ===== src/Daemon/GitLeader/World/Moves.antt =====
-- Every event keeps the invariant of the loops, one lemma for each part of it.
use scriptum.Prelude.{ℕ, ◌≤◌, ◌≡◌, ◌≢◌, refl, arith, Bool, true, false, Option, none, some, nat_eq}
use scriptum.Prelude.HashMap.{Unique}
use scriptum.Prelude.Numbers.{Uuid, Instant}
use scriptum.Relay.Leader as Relay
use scriptum.Relay.Leader.{LeaseTable, survives, current_leader, active_row}
use scriptum.Relay.Leader.Holding.{acquire-LeavesOthers, renew-LeavesOthers, release-LeavesOthers}
use scriptum.Daemon.GitLeader.{
  granted, denied, renewed, lost, ok, err, LeaderConfig, after_renew, after_acquire,
}
use scriptum.Daemon.GitLeader.World.{
  Network, works, request_lost, answer_lost, over, let_go, acquire_response, renew_response, Phase,
  ready, renewing, acquiring, sleeping, left, Daemon, State, ask_with, continue, woken, noticed,
  released, ended, put,
}
use scriptum.Daemon.GitLeader.World.Holds.{
  Holds, Holds-later, acquire-Holds, renew-Holds, release-Holds, acquired-Holds, renewed-Holds,
  over_table,
}
use scriptum.Daemon.GitLeader.World.Sound.{
  IsSound, PendingHolds, AllSound, move-IsSound, put-AllSound,
}

module _ (config : Uuid → LeaderConfig) (ttl : ℕ) (w : Uuid) where
  -- The answer to an acquisition, and to a renewal.
  answered_acquire :
      (now : Instant) (c p : Uuid) (net : Network) (table : LeaseTable) (l : Uuid)
      → (over acquire_response net table (Relay.acquire ttl w c p now table)).1 ≡ ok (granted l)
      → Holds ttl w
          (over acquire_response net table (Relay.acquire ttl w c p now table)).0
          now
          c
          now
  answered_acquire now c p works table l e = acquired-Holds ttl w now c p table l (cc e)
  answered_acquire now c p request_lost table l e = cc
  answered_acquire now c p answer_lost table l e = cc

  answered_renew :
      (now : Instant) (c l : Uuid) (net : Network) (table : LeaseTable)
      → (over renew_response net table (Relay.renew ttl w c l now table)).1 ≡ ok renewed
      → Holds ttl w (over renew_response net table (Relay.renew ttl w c l now table)).0 now c now
  answered_renew now c l works table e = renewed-Holds ttl w now c l table (cc e)
  answered_renew now c l request_lost table e = cc
  answered_renew now c l answer_lost table e = cc

  pub ask-AllSound :
      (t now : Instant) (c p : Uuid) (net : Network) (s : State) (lease : Option Uuid)
      → t ≤ now
      → (s.daemons c).inner.current_lease_id ≡ lease
      → AllSound config ttl w t s
      → AllSound config ttl w now (
          let (table, phase) = ask_with config ttl w c p net now s.table lease in
          put config ttl w c (record (s.daemons c) { phase = phase }) table s)
  ask-AllSound t now c p net s none le e (u, sound) =
      let served = Relay.acquire ttl w c p now s.table in
      let after = over acquire_response net s.table served in
      let keep : (x : Uuid) (since : ℕ)
          → Holds ttl w s.table t x since
          → Holds ttl w after.0 now x since =
        λ x since h.
          let h' = Holds-later ttl w s.table x since le h in
          over_table ttl w (λ a. Holds ttl w a now x since) acquire_response net s.table served h'
            (acquire-Holds ttl w now since x c p s.table h') in
      let mine = λ (running : (s.daemons c).stopping ≡ false).
        move-IsSound config ttl w s.table after.0 t now c (s.daemons c) (keep c)
          (sound c running) in
      put-AllSound config ttl w now c (record (s.daemons c) { phase = acquiring now after.1 })
        after.0 s
        (over_table ttl w (λ a. Unique a) acquire_response net s.table served u
          (acquire-LeavesOthers ttl now w c p s.table u).0)
        (λ running. record {
          with_lease = (mine running).with_lease;
          held = (mine running).held;
          no_release = (mine running).no_release;
          pending = (e, answered_acquire now c p net s.table);
        })
        (λ x ne running.
          move-IsSound config ttl w s.table after.0 t now x (s.daemons x) (keep x)
            (sound x running))
  ask-AllSound t now c p net s (some lease) le e (u, sound) =
      let served = Relay.renew ttl w c lease now s.table in
      let after = over renew_response net s.table served in
      let keep : (x : Uuid) (since : ℕ)
          → Holds ttl w s.table t x since
          → Holds ttl w after.0 now x since =
        λ x since h.
          let h' = Holds-later ttl w s.table x since le h in
          over_table ttl w (λ a. Holds ttl w a now x since) renew_response net s.table served h'
            (renew-Holds ttl w now since x c lease s.table h') in
      let mine = λ (running : (s.daemons c).stopping ≡ false).
        move-IsSound config ttl w s.table after.0 t now c (s.daemons c) (keep c)
          (sound c running) in
      put-AllSound config ttl w now c (record (s.daemons c) { phase = renewing now after.1 })
        after.0 s
        (over_table ttl w (λ a. Unique a) renew_response net s.table served u
          (renew-LeavesOthers ttl now w c lease s.table u).0)
        (λ running. record {
          with_lease = (mine running).with_lease;
          held = (mine running).held;
          no_release = (mine running).no_release;
          pending = λ l f g. answered_renew now c lease net s.table g;
        })
        (λ x ne running.
          move-IsSound config ttl w s.table after.0 t now x (s.daemons x) (keep x)
            (sound x running))

  pub continue-IsSound :
      (now : Instant) (c : Uuid) (table : LeaseTable) (d : Daemon) (p : Phase)
      → PendingHolds config ttl w table now c d p
      → IsSound config ttl w table now c d
      → IsSound config ttl w table now c (continue config ttl w (config c) p d)
  unfolding after_renew after_acquire
  continue-IsSound now c table d (renewing asked (ok renewed)) h s = record {
    with_lease = s.with_lease;
    held = λ l e. h l e refl;
    pending = tt;
    no_release = s.no_release;
  }
  continue-IsSound now c table d (renewing asked (ok lost)) h s = record {
    with_lease = λ l e. cc;
    held = λ l e. cc;
    pending = tt;
    no_release = s.no_release;
  }
  continue-IsSound now c table d (renewing asked (err e)) h s = record {
    with_lease = s.with_lease;
    held = s.held;
    pending = tt;
    no_release = s.no_release;
  }
  continue-IsSound now c table d (acquiring asked (ok (granted lease))) (n, h) s = record {
    with_lease = λ l e. cc;
    held = λ l e. h lease refl;
    pending = tt;
    no_release = s.no_release;
  }
  continue-IsSound now c table d (acquiring asked (ok (denied holder))) (n, h) s = record {
    with_lease = λ l e. cc;
    held = λ l e. cc;
    pending = tt;
    no_release = s.no_release;
  }
  continue-IsSound now c table d (acquiring asked (err e)) (n, h) s = record {
    with_lease = λ l e. cc;
    held = λ l e. cc;
    pending = tt;
    no_release = s.no_release;
  }
  continue-IsSound now c table d ready h s = s
  continue-IsSound now c table d (sleeping n) h s = s
  continue-IsSound now c table d left h s = s

  pub woken-Holds :
      (now : Instant) (c : Uuid) (table : LeaseTable) (d : Daemon) (p : Phase)
      → PendingHolds config ttl w table now c d p
      → PendingHolds config ttl w table now c d (woken config ttl w p)
  woken-Holds now c table d (renewing asked a) h = h
  woken-Holds now c table d (acquiring asked a) h = h
  woken-Holds now c table d ready h = tt
  woken-Holds now c table d left h = tt
  woken-Holds now c table d (sleeping n) h = tt

  -- A loop that is not being shut down notices nothing.
  pub noticed_running : (p : Phase) (b : Bool) → b ≡ false → noticed config ttl w p b ≡ p
  noticed_running (renewing asked a) b e = refl
  noticed_running (acquiring asked a) b e = refl
  noticed_running ready b e = refl
  noticed_running left b e = refl
  noticed_running (sleeping n) true e = cc
  noticed_running (sleeping n) false e = refl

  pub continue-stopping :
      (conf : LeaderConfig) (p : Phase) (d : Daemon)
      → (continue config ttl w conf p d).stopping ≡ d.stopping
  continue-stopping conf (renewing asked a) d = refl
  continue-stopping conf (acquiring asked a) d = refl
  continue-stopping conf ready d = refl
  continue-stopping conf (sleeping n) d = refl
  continue-stopping conf left d = refl

  pub released-stopping : (d : Daemon) → (released config ttl w d).stopping ≡ d.stopping
  released-stopping d = ground arith

  pub ended-stopping : (d : Daemon) → (ended config ttl w d).stopping ≡ d.stopping
  ended-stopping d = ground arith

  pub let_go-Holds :
      (now since : ℕ) (c x : Uuid) (b : Bool) (net : Network) (table : LeaseTable)
      → x ≢ c
      → Holds ttl w table now x since
      → Holds ttl w (let_go config ttl w b net c now table) now x since
  let_go-Holds now since c x false net table ne h = h
  let_go-Holds now since c x true request_lost table ne h = h
  let_go-Holds now since c x true works table ne h = release-Holds ttl w now since x c table ne h
  let_go-Holds now since c x true answer_lost table ne h =
      release-Holds ttl w now since x c table ne h

  pub let_go-Unique :
      (now : ℕ) (c : Uuid) (b : Bool) (net : Network) (table : LeaseTable)
      → Unique table
      → Unique (let_go config ttl w b net c now table)
  let_go-Unique now c false net table u = u
  let_go-Unique now c true request_lost table u = u
  let_go-Unique now c true works table u = (release-LeavesOthers now w c table u).0
  let_go-Unique now c true answer_lost table u = (release-LeavesOthers now w c table u).0
