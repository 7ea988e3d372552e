-- ===== src/Daemon/Lease/Tests.antt =====
-- Leases at concrete stores.
use scriptum.Prelude.{
  ◌*◌, String, Bool, true, none, List, [], ◌∷◌, refl, nat_eq, string_eq, pair_eq,
}
use scriptum.Prelude.HashMap
use scriptum.Daemon.Lease.{LeaseStore, LeaseClaim, shared, exclusive, second}
use scriptum.Daemon.Lease.Sync.{
  IsSynced, Call, claim_call, activity_call, prune_call, run, run-IsSynced,
}

-- An order of texts that puts none before another.
abbrev any_le : String → String → Bool
any_le a b = true

abbrev empty : LeaseStore
empty = record { leases = []; table = [] }

empty-IsSynced : IsSynced empty
unfolding HashMap.get
empty-IsSynced = record { agree = λ k. refl; keyed = λ k l h. cc h; unique = (tt, tt) }

abbrev request : LeaseClaim
request = record {
  workspace_id = "w";
  doc_id = "d";
  section_id = "s";
  agent_id = "a";
  ttl_sec = 60;
  mode = shared;
  note = none;
}

abbrev calls : List Call
calls =
    claim_call request 5
    ∷ claim_call (record request { agent_id = "b"; mode = exclusive }) 6
    ∷ activity_call "w" "d" "s" "a" 7
    ∷ prune_call (66 * second)
    ∷ []

run-IsSynced_example : IsSynced (run any_le calls empty)
run-IsSynced_example = run-IsSynced any_le calls empty empty-IsSynced
