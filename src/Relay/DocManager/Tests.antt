-- ===== src/Relay/DocManager/Tests.antt =====
-- The document manager at concrete maps, with documents that are the payloads applied to them.
use scriptum.Prelude.{ℕ, Option, none, some, List, [], ◌∷◌, ◌≡◌, refl, arith, inr, nat_eq, pair_eq}
use mathlib.Core.List.{Perm}
use scriptum.Prelude.Sort.{sort_by, insert_sorted}
use scriptum.Prelude.HashMap
use scriptum.Prelude.HashMap.{Unique}
use scriptum.Relay.DocManager.{
  Payload, StoredUpdate, DocManager, DocHistory, hydrate_document, apply_sequenced_update,
}
use scriptum.Relay.DocManager.Hydrate.{IsAscending, rebuilt, hydrate-applies}

abbrev Text : Type 0
Text = List (List ℕ)

-- An empty payload cannot be decoded.
abbrev apply_text : Text → Payload → Option Text
apply_text doc [] = none
apply_text doc (b ∷ bs) = some ((b ∷ bs) ∷ doc)

abbrev history : DocHistory
history = record {
  snapshot = some (record { snapshot_seq = 4; payload = 9 ∷ [] });
  updates =
      record { server_seq = 7; payload = 3 ∷ [] }
      ∷ record { server_seq = 3; payload = 1 ∷ [] }
      ∷ record { server_seq = 5; payload = 2 ∷ [] }
      ∷ [];
}

hydrated :
    hydrate_document [] apply_text 1 2 history
    ≡ inr (record { doc = (3 ∷ []) ∷ (2 ∷ []) ∷ (9 ∷ []) ∷ []; head_server_seq = 7 })
unfolding hydrate_document sort_by insert_sorted
hydrated = refl

hydrate-applies_example :
    (updates : List StoredUpdate) × Perm updates history.updates
    × IsAscending updates
    × (hydrate_document [] apply_text 1 2 history
        ≡ rebuilt [] apply_text 1 2 history.snapshot updates)
hydrate-applies_example =
    hydrate-applies [] apply_text 1 2 history
      (((λ e. omega arith), ((λ e. omega arith), tt)), (((λ e. omega arith), tt), (tt, tt)))

abbrev docs : DocManager Text
docs = ((1, 2), record { doc = []; head_server_seq = 4; subscribers = 1; last_touched = 100 }) ∷ []

abbrev docs' : DocManager Text
docs' =
    (
      (1, 2),
      record { doc = (7 ∷ []) ∷ []; head_server_seq = 6; subscribers = 1; last_touched = 101 },
    )
    ∷ []

applied_here : apply_sequenced_update [] apply_text 1 2 4 6 (7 ∷ []) 101 docs ≡ inr docs'
unfolding apply_sequenced_update HashMap.get HashMap.insert
applied_here = refl

found :
    HashMap.get (1, 2) docs
    ≡ some (record { doc = []; head_server_seq = 4; subscribers = 1; last_touched = 100 })
unfolding HashMap.get
found = refl
