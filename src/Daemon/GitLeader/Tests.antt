-- ===== src/Daemon/GitLeader/Tests.antt =====
-- Two daemons and the relay at concrete states.
use scriptum.Prelude.{none, some, ◌++◌, List, [], ◌∷◌, ◌≡◌, refl, arith, nat_eq}
use scriptum.Prelude.HashMap
use scriptum.Prelude.Numbers.{Uuid, Instant}
use scriptum.Relay.Leader.{LeaseRow, current_leader}
use scriptum.Relay.Leader as Relay
use scriptum.Daemon.GitLeader.{
  LeaderConfig, new, leader, follower, shutdown, after_renew, after_acquire,
}
use scriptum.Daemon.GitLeader.World.{
  State, Event, asks, continues, wakes, shuts_down, releases, shut_down, evicts, works, begin, run,
  step, starting, ready, update,
}
use scriptum.Daemon.GitLeader.World.Fresh.{confirmed_leads}
use scriptum.Daemon.GitLeader.World.Stale.{silent, leading, two_leaders}

abbrev config : Uuid → LeaderConfig
config c = new 9 c

-- Daemon 1 acquires the lease, daemon 2 is denied it, and daemon 1 renews it.
abbrev events : List (Instant × Event)
events =
    (10, asks 1 70 works)
    ∷ (11, continues 1)
    ∷ (12, asks 2 71 works)
    ∷ (13, continues 2)
    ∷ (34, wakes 1)
    ∷ (34, asks 1 72 works)
    ∷ (35, evicts)
    ∷ (35, shuts_down 2)
    ∷ (36, continues 1)
    ∷ []

confirmed_leads_example : current_leader 9 36 (run config 60 9 events (begin [])).table ≡ some 1
unfolding run step after_renew after_acquire Relay.acquire Relay.renew HashMap.get HashMap.insert
confirmed_leads_example =
    confirmed_leads config 60 9 events [] 1 70 tt
      (
        omega arith,
        (
          omega arith,
          (
            omega arith,
            (
              omega arith,
              (omega arith, (omega arith, (omega arith, (omega arith, (omega arith, tt))))),
            ),
          ),
        ),
      )
      refl refl (omega arith)

-- A leader that is shut down still takes itself for the leader while its request to release is under
-- way, and also when it has been granted; in the end it does not.
abbrev stopped : List (Instant × Event)
stopped =
    (10, asks 1 70 works) ∷ (11, continues 1) ∷ (20, shuts_down 1) ∷ (21, releases 1 works) ∷ []

releasing :
    (((run config 60 9 stopped (begin [])).daemons 1).inner.state ≡ leader 70)
    × (current_leader 9 21 (run config 60 9 stopped (begin [])).table ≡ none)
    × (((run config 60 9 (stopped ++ (22, shut_down 1) ∷ []) (begin [])).daemons 1).inner.state
        ≡ follower)
unfolding run step after_acquire shutdown Relay.acquire Relay.release current_leader HashMap.get
    HashMap.insert HashMap.remove
releasing = (refl, refl, refl)

-- Daemon 1 leads with a lease that ends at 70.
abbrev row : LeaseRow
row = record { daemon_id = 1; lease_id = 70; acquired_at = 10; expires_at = 70 }

abbrev state : State
state = record { table = (9, row) ∷ []; daemons = update 1 (leading 70 ready 10) (λ c. starting) }

abbrev rounds : List (Instant × Uuid)
rounds = (34, 72) ∷ (58, 73) ∷ (82, 74) ∷ []

two_leaders_example :
    let s' =
      run config 60 9
        ((90, asks 2 71 works) ∷ (90, continues 2) ∷ [])
        (run config 60 9 (silent 1 rounds) state) in
    ((s'.daemons 1).inner.state ≡ leader 70) × ((s'.daemons 2).inner.state ≡ leader 71)
unfolding HashMap.get
two_leaders_example =
    two_leaders config 60 9 1 2 70 71 10 rounds 90 row state (omega arith) refl refl (omega arith)
      refl refl
