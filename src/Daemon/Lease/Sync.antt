-- ===== src/Daemon/Lease/Sync.antt =====
-- crates/daemon/src/agent/lease.rs: the memory and the table hold the same leases.
use scriptum.Prelude.{
  String, Bool, false, Option, none, some, List, [], ◌∷◌, ◌≡◌, ◌≢◌, refl, arith, ap, ◌∙◌, sym,
  subst, inl, inr, if◌then◌else◌, ◌==◌, nat_eq, string_eq, pair_eq, ==→eq, ==_ne, Bool-cases,
  Option-cases,
}
use scriptum.Prelude.HashMap
use scriptum.Prelude.HashMap.{
  HashMap, Unique, get-insert, get-retain, keep_if, Unique-insert, Unique-retain,
}
use scriptum.Prelude.Numbers.{Instant}
use scriptum.Daemon.Lease.{
  SectionLease, LeaseKey, LeaseStore, LeaseClaim, key, key_of, keeps, prune_expired, claim,
  lease_of, renewed, record_activity,
}

-- Memory and table agree at every key, each lease is at its own key, and no key is twice.
pub record IsSynced (store : LeaseStore) : Type 0 where
  pub agree : (k : LeaseKey) → HashMap.get k store.leases ≡ HashMap.get k store.table
  pub keyed : (k : LeaseKey) (l : SectionLease) → HashMap.get k store.leases ≡ some l → key l ≡ k
  pub unique : Unique store.leases × Unique store.table

kept_was : {V : Type 0} (p : V → Bool) (o : Option V) (l : V) → keep_if p o ≡ some l → o ≡ some l
kept_was p none l h = absurd (cc h)
kept_was p (some v) l h = ground arith

pub prune-IsSynced :
    (now : Instant) (store : LeaseStore) → IsSynced store → IsSynced (prune_expired now store).0
unfolding prune_expired
prune-IsSynced now store v = record {
  agree = λ k.
      get-retain (keeps now) k store.leases v.unique.0
      ∙ ap (keep_if (keeps now k)) (v.agree k)
      ∙ sym (get-retain (keeps now) k store.table v.unique.1);
  keyed = λ k l h. v.keyed k l (
      kept_was (keeps now k) (HashMap.get k store.leases) l
        (sym (get-retain (keeps now) k store.leases v.unique.0) ∙ h));
  unique = (
    Unique-retain (keeps now) store.leases v.unique.0,
    Unique-retain (keeps now) store.table v.unique.1,
  );
}

-- A lease written to both.
abbrev pub written : SectionLease → LeaseStore → LeaseStore
written l store = record store {
  leases = HashMap.insert (key l) l store.leases;
  table = HashMap.insert (key l) l store.table;
}

pub written-IsSynced :
    (l : SectionLease) (store : LeaseStore) → IsSynced store → IsSynced (written l store)
written-IsSynced l store v = record {
  agree = λ k.
      get-insert (key l) k l store.leases
      ∙ ap (λ o. if key l == k then some l else o) (v.agree k)
      ∙ sym (get-insert (key l) k l store.table);
  keyed = λ k m h. elim (Bool-cases (key l == k)) [
    | inl same ↦
        let e : some l ≡ some m = sym (get-insert (key l) k l store.leases ∙ rw same refl) ∙ h in
        let same_lease : l ≡ m = cc e in ap key (sym same_lease) ∙ ==→eq (key l) k same
    | inr other ↦ v.keyed k m (sym (get-insert (key l) k l store.leases ∙ rw other refl) ∙ h)
  ];
  unique = (
    Unique-insert (key l) l store.leases v.unique.0,
    Unique-insert (key l) l store.table v.unique.1,
  );
}

module _ (string_le : String → String → Bool) (request : LeaseClaim) (now : Instant)
    (store : LeaseStore) where
  claim_nothing : request.ttl_sec ≡ 0 → (claim string_le request now store).0 ≡ store
  unfolding claim
  claim_nothing z = ground (arith, z)

  pub claim-written :
      request.ttl_sec ≢ 0
      → (claim string_le request now store).0
        ≡ written (lease_of string_le request now) (prune_expired now store).0
  unfolding claim
  claim-written positive =
      let e : (request.ttl_sec == 0) ≡ false = ==_ne request.ttl_sec 0 positive in
      rw (e, claim) refl

pub data Call : Type 0 where
  claim_call : LeaseClaim → Instant → Call
  activity_call : String → String → String → String → Instant → Call
  prune_call : Instant → Call

module _ (string_le : String → String → Bool) where
  pub run_call : Call → LeaseStore → LeaseStore
  run_call (claim_call request now) store = (claim string_le request now store).0
  run_call (activity_call w d s a now) store = (record_activity w d s a now store).0
  run_call (prune_call now) store = (prune_expired now store).0

  pub run : List Call → LeaseStore → LeaseStore
  unfolding run_call
  run [] store = store
  run (c ∷ calls) store = run calls (run_call c store)

  run_call-IsSynced : (c : Call) (store : LeaseStore) → IsSynced store → IsSynced (run_call c store)
  unfolding run_call record_activity
  run_call-IsSynced (claim_call request now) store v = elim (Bool-cases (request.ttl_sec == 0)) [
    | inl zero_ttl ↦
        subst IsSynced
          (sym (claim_nothing string_le request now store (==→eq request.ttl_sec 0 zero_ttl))) v
    | inr positive ↦
        subst IsSynced
          (sym (claim-written string_le request now store (λ z. ground (arith, positive))))
          (written-IsSynced (lease_of string_le request now) (prune_expired now store).0
            (prune-IsSynced now store v))
  ]
  run_call-IsSynced (activity_call w d s a now) store v =
      let pruned = (prune_expired now store).0 in
      let p = prune-IsSynced now store v in
      elim (Option-cases (HashMap.get (key_of w d s a) pruned.leases)) [
        | inl gone ↦ rw (gone, run_call) p
        | inr (l, found) ↦
            let own : key l ≡ key_of w d s a = p.keyed (key_of w d s a) l found in
            rw (found, run_call) (rw (← own) (written-IsSynced (renewed now l) pruned p))
      ]
  run_call-IsSynced (prune_call now) store v = prune-IsSynced now store v

  -- After every sequence of claims, activity and pruning, the memory and the table hold the same
  -- leases under the same keys, and each key at most once, if they did before.
  pub run-IsSynced :
      (calls : List Call) (store : LeaseStore) → IsSynced store → IsSynced (run calls store)
  unfolding run
  run-IsSynced [] store v = v
  run-IsSynced (c ∷ calls) store v =
      run-IsSynced calls (run_call c store) (run_call-IsSynced c store v)
