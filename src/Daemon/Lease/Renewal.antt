-- ===== src/Daemon/Lease/Renewal.antt =====
-- crates/daemon/src/agent/lease.rs: how long a lease lives.
use scriptum.Prelude.{
  ◌+◌, ◌*◌, String, Bool, true, false, none, some, ◌≡◌, ◌≢◌, refl, arith, ap, ◌∙◌, inl, inr,
  if◌then◌else◌, ltb, nat_eq, string_eq, pair_eq, Bool-cases,
}
use scriptum.Prelude.HashMap
use scriptum.Prelude.HashMap.{
  HashMap, Unique, get-insert, get-insert_self, get-retain, keep_if, Unique-insert, Unique-retain,
}
use scriptum.Prelude.Numbers.{Instant}
use scriptum.Daemon.Lease.{
  SectionLease, LeaseStore, LeaseClaim, key, keeps, prune_expired, claim, lease_of, record_activity,
  second,
}
use scriptum.Daemon.Lease.Sync.{IsSynced, prune-IsSynced, written, written-IsSynced, claim-written}

-- A lease that was claimed at `now` is extended by activity at `later` exactly if its time to live,
-- counted from the claim, has not passed; then it lives for another full time to live from `later`.
-- Otherwise there is no lease for the activity.
pub claim-activity :
    (string_le : String → String → Bool) (request : LeaseClaim) (now later : Instant)
    (store : LeaseStore)
    → IsSynced store
    → request.ttl_sec ≢ 0
    → (record_activity request.workspace_id request.doc_id request.section_id request.agent_id later
        (claim string_le request now store).0).1
      ≡ (if ltb later (now + request.ttl_sec * second)
          then some (lease_of string_le request later)
          else none)
unfolding record_activity prune_expired
claim-activity string_le request now later store v positive =
    rw (claim-written string_le request now store positive)
      (elim (Bool-cases (ltb later (now + request.ttl_sec * second))) [
        | inl live ↦ rw live (rw (pruned_lease ∙ alive live, record_activity) refl)
        | inr over ↦ rw over (rw (pruned_lease ∙ expired over, record_activity) refl)
      ])
  where
    lease : SectionLease
    lease = lease_of string_le request now

    before : LeaseStore
    before = written lease (prune_expired now store).0

    before-IsSynced : IsSynced before
    before-IsSynced =
        written-IsSynced lease (prune_expired now store).0 (prune-IsSynced now store v)

    pruned_lease :
        HashMap.get (key lease) (prune_expired later before).0.leases
        ≡ keep_if (keeps later (key lease)) (some lease)
    pruned_lease =
        get-retain (keeps later) (key lease) before.leases before-IsSynced.unique.0
        ∙ ap (keep_if (keeps later (key lease)))
            (get-insert_self (key lease) lease (prune_expired now store).0.leases)

    alive :
        ltb later (now + request.ttl_sec * second) ≡ true
        → keep_if (keeps later (key lease)) (some lease) ≡ some lease
    alive h = ground (arith, h)

    expired :
        ltb later (now + request.ttl_sec * second) ≡ false
        → keep_if (keeps later (key lease)) (some lease) ≡ none
    expired h = ground (arith, h)
