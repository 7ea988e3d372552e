-- ===== src/Relay/Awareness/Tests.antt =====
-- `AwarenessStore` at a concrete store, and its theorems there.
use scriptum.Prelude.{ℕ, [], ◌∷◌, ◌≡◌, refl}
use scriptum.Prelude.HashMap
use scriptum.Relay.Awareness.{AwarenessStore, update, active_docs}

abbrev store : AwarenessStore ℕ
store = ((1, 7), (20, 100 ∷ []) ∷ (21, 101 ∷ []) ∷ []) ∷ ((1, 8), (20, 102 ∷ []) ∷ []) ∷ []

-- A document stays listed when its only session withdraws its peers.
withdrawn_listed : active_docs 1 (update 1 8 20 [] store) ≡ 7 ∷ 8 ∷ []
unfolding active_docs update HashMap.get HashMap.insert HashMap.remove
withdrawn_listed = refl
