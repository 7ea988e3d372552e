-- ===== src/Relay/DocSync/Invariant.antt =====
-- crates/relay/src/ws/session.rs, `DocSyncStore`: what every history of operations keeps.
use scriptum.Prelude.{
  ℕ, ◌≤◌, String, true, some, [], ◌∷◌, ◌++◌, ◌≡◌, refl, arith, inl, inr, Bool-cases, Option-cases,
  All, All-append, All-map, pair_eq, nat_eq, ltb,
}
use scriptum.Prelude.HashMap
use scriptum.Prelude.HashMap.{get-insert}
use scriptum.Prelude.Sort.{SortedBy, sort_by_key-SortedBy, All-sort_by, by_key}
use scriptum.Prelude.Numbers.{Uuid, i64_max}
use scriptum.Relay.DocSync.{
  DocSyncState, DocUpdateState, DocSnapshotState, UpdateAttribution, default_state, seq_of,
  push_update, snapshot_state, apply_to_state, accepted_update,
}

-- The dedupe table knows an update that is in the log.
abbrev pub IsKnown : DocSyncState → DocUpdateState → Type 0
IsKnown s u = HashMap.contains_key (u.client_id, u.client_update_id) s.dedupe ≡ true

-- The log is sorted, knows its updates, and nothing lies above the head.
pub record IsValid (s : DocSyncState) : Type 0 where
  pub sorted : SortedBy seq_of s.updates
  pub below_head : All (λ u. u.server_seq ≤ s.head_server_seq) s.updates
  pub known : All (IsKnown s) s.updates
  pub numbered : (k : Uuid × Uuid) (n : ℕ) → HashMap.get k s.dedupe ≡ some n → n ≤ s.head_server_seq
  pub in_range : s.head_server_seq ≤ i64_max
  pub snapshot_below :
      (snap : DocSnapshotState) → s.snapshot ≡ some snap → snap.snapshot_seq ≤ s.head_server_seq

pub default-IsValid : IsValid default_state
unfolding HashMap.get
default-IsValid = record {
  sorted = tt;
  below_head = tt;
  known = tt;
  numbered = λ k n h. cc;
  in_range = omega arith;
  snapshot_below = λ snap h. cc;
}

IsKnown-insert :
    (s : DocSyncState) (u : DocUpdateState) (head : ℕ) (v : DocUpdateState)
    → IsKnown s v
    → IsKnown (push_update u head s) v
unfolding push_update
IsKnown-insert s u head v h = ground (
  arith,
  get-insert (u.client_id, u.client_update_id) (v.client_id, v.client_update_id) u.server_seq
      s.dedupe,
)

IsKnown-self : (s : DocSyncState) (u : DocUpdateState) (head : ℕ) → IsKnown (push_update u head s) u
unfolding push_update
IsKnown-self s u head = rw HashMap.get-insert_self refl

pub push_update-IsValid :
    (u : DocUpdateState) (head : ℕ) (s : DocSyncState)
    → IsValid s
    → s.head_server_seq ≤ head
    → u.server_seq ≤ head
    → head ≤ i64_max
    → IsValid (push_update u head s)
unfolding push_update
push_update-IsValid u head s v grows fits range = record {
  in_range = range;
  sorted = sort_by_key-SortedBy seq_of (s.updates ++ u ∷ []);
  below_head = All-sort_by (by_key seq_of) _ (s.updates ++ u ∷ []) (
      All-append _ s.updates (u ∷ []) (All-map _ _ (λ w h. omega arith) s.updates v.below_head)
        (fits, tt));
  known = All-sort_by (by_key seq_of) _ (s.updates ++ u ∷ []) (
      All-append _ s.updates (u ∷ [])
        (All-map _ _ (λ w h. IsKnown-insert s u head w h) s.updates v.known)
        (IsKnown-self s u head, tt));
  numbered = λ k n h.
      ground (
        arith,
        get-insert (u.client_id, u.client_update_id) k u.server_seq s.dedupe,
        v.numbered k n,
      );
  snapshot_below = λ snap h. omega (arith, v.snapshot_below snap h);
}

pub snapshot_state-IsValid :
    (n : ℕ) (payload : String) (s : DocSyncState)
    → IsValid s
    → n ≤ i64_max
    → IsValid (snapshot_state n payload s)
unfolding snapshot_state
snapshot_state-IsValid n payload s v range = record {
  in_range = omega (arith, v.in_range);
  sorted = v.sorted;
  below_head = All-map _ _ (λ w h. omega arith) s.updates v.below_head;
  known = v.known;
  numbered = λ k m h. omega (arith, v.numbered k m h);
  snapshot_below = λ snap h. ground arith;
}

pub apply_to_state-IsValid :
    (client update : Uuid) (base : ℕ) (payload : String) (a : UpdateAttribution) (s : DocSyncState)
    → IsValid s
    → IsValid (apply_to_state client update base payload a s).0
unfolding apply_to_state
apply_to_state-IsValid client update base payload a s v =
    elim (Option-cases (HashMap.get (client, update) s.dedupe)) [
      | inr (n, known) ↦ rw (known, apply_to_state) v
      | inl fresh ↦ elim (Bool-cases (ltb s.head_server_seq base)) [
        | inl ahead ↦ rw (fresh, apply_to_state) (rw ahead v)
        | inr ok ↦
            rw (fresh, apply_to_state)
              (rw ok (
                push_update-IsValid (accepted_update client update payload a s) _ s v
                  (omega (arith, v.in_range)) (omega arith) (omega arith)))
      ]
    ]
