-- ===== src/Relay/Leader/Tests.antt =====
-- Leases at a concrete table.
use scriptum.Prelude.{some, inl, inr, List, [], ◌∷◌, ◌≡◌, refl, arith, nat_eq, All}
use scriptum.Prelude.HashMap
use scriptum.Prelude.Numbers.{Instant}
use scriptum.Relay.Leader.{LeaseRow, LeaseTable, remaining, active_count}
use scriptum.Relay.Leader.Runs.{Call, acquires, renews, releases, evicts, run}
use scriptum.Relay.Leader.Holding.{TurnedDown, run_keeps_leader}
use scriptum.Relay.Leader.Eviction.{answers, requests, answers_without_evictions}

abbrev held : LeaseRow
held = record { daemon_id = 1; lease_id = 70; acquired_at = 10; expires_at = 70 }

abbrev table : LeaseTable
table = (9, held) ∷ []

abbrev calls : List (Instant × Call)
calls =
    (20, acquires 9 2 71)
    ∷ (30, renews 9 2 70)
    ∷ (35, evicts)
    ∷ (40, releases 9 2)
    ∷ (50, acquires 8 1 72)
    ∷ []

run_keeps_leader_example :
    (HashMap.get 9 (run 60 calls table).0 ≡ some held) × All (TurnedDown 9 1) (run 60 calls table).1
unfolding HashMap.get
run_keeps_leader_example =
    run_keeps_leader 60 calls table 9 held (refl, tt) refl
      (
        (omega arith, inr (omega arith)),
        (
          (omega arith, inr (omega arith)),
          (
            (omega arith, tt),
            ((omega arith, inr (omega arith)), ((omega arith, inl (omega arith)), tt)),
          ),
        ),
      )

answers_without_evictions_example :
    answers (run 60 calls table).1 ≡ (run 60 (requests calls) table).1
unfolding HashMap.get
answers_without_evictions_example =
    answers_without_evictions 60 5 calls table (refl, tt)
      (omega arith, (omega arith, (omega arith, (omega arith, (omega arith, tt)))))

remaining_test :
    remaining 30
      (record { workspace_id = 9; holder_id = 1; lease_id = 70; granted_at = 10; expires_at = 70 })
    ≡ 40
unfolding remaining
remaining_test = refl

active_count_test : active_count 30 table ≡ 1
unfolding active_count
active_count_test = refl
