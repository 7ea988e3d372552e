-- ===== src/Relay/DocSync/Tests.antt =====
-- Runs of `DocSyncStore`, and its theorems at concrete stores.
use scriptum.Prelude.{ℕ, ◌<◌, none, some, List, [], ◌∷◌, ◌≡◌, refl, arith, In, pair_eq, nat_eq}
use scriptum.Prelude.HashMap
use scriptum.Prelude.Sort.{sort_by, insert_sorted}
use scriptum.Prelude.Numbers.{Uuid, pos}
use scriptum.Common.Ws.{WsMessage}
use scriptum.Relay.DocSync.{
  DocSyncState, DocUpdateState, UpdateAttribution, default_state, push_update, apply_to_state,
  apply_client_update, state_of, accepted_update, applied, duplicate, rejected_base_seq,
  workspace_outbox_depth, state_messages, set_snapshot, append_update, snapshot_state,
}
use scriptum.Relay.DocSync.History.{
  Call, set_snapshot_call, append_update_call, apply_client_update_call, IsValidStore, run,
  run-IsValidStore,
}
use scriptum.Relay.DocSync.Updates.{result_of, after}
use scriptum.Relay.DocSync.CatchUp.{Reaches, Lacked, messages_complete}
use scriptum.Relay.DocSync.Numbering.{later, apply_once, numbers_increase}

program : Unit {0}
unfolding apply_client_update apply_to_state push_update run set_snapshot append_update
    snapshot_state workspace_outbox_depth state_messages sort_by insert_sorted HashMap.get
    HashMap.insert
program = tt

abbrev human : UpdateAttribution
human = record { user_id = some 5; agent_id = none }

empty-IsValidStore : IsValidStore []
unfolding HashMap.get
empty-IsValidStore k s h = cc

abbrev calls : List (Uuid × Uuid × Call)
calls =
    (1, 2, set_snapshot_call 4 "s")
    ∷ (1, 2, append_update_call 5 7 8 "a")
    ∷ (1, 2, apply_client_update_call 7 9 5 "b" human)
    ∷ []

-- Two updates over a snapshot, and an update that is sent again.
numbers_run :
    (result_of 1 2 7 10 6 "c" human (run calls []) ≡ applied 7 (pos 6))
    × (result_of 1 2 7 9 0 "b" human (run calls []) ≡ duplicate 6)
    × (result_of 1 2 7 10 8 "c" human (run calls []) ≡ rejected_base_seq 6)
unfolding program
numbers_run = (refl, refl, refl)

run-IsValidStore_example : IsValidStore (run calls [])
run-IsValidStore_example = run-IsValidStore calls [] (omega arith) empty-IsValidStore

abbrev first_update : DocUpdateState
first_update = accepted_update 7 8 "a" human default_state

abbrev one_update : DocSyncState
one_update = record default_state { updates = first_update ∷ []; head_server_seq = 1 }

messages_complete_example :
    ((u : DocUpdateState)
      → In u one_update.updates
      → 0 < u.server_seq
      → Reaches ℕ 2 (some 0) one_update u)
    × ((m : WsMessage ℕ)
        → In m (state_messages 2 (some 0) one_update)
        → Lacked ℕ 2 (some 0) one_update m)
messages_complete_example = messages_complete ℕ 2 (some 0) one_update

abbrev other_calls : List (Uuid × Uuid × Call)
other_calls = (1, 2, apply_client_update_call 7 9 1 "b" human) ∷ []

first_applied : result_of 1 2 7 8 0 "a" human [] ≡ applied 1 (pos 0)
unfolding program
first_applied = refl

second_applied :
    result_of 1 2 7 10 2 "c" human
      (later 1 2 7 8 0 1 (pos 0) "a" human [] other_calls first_applied)
    ≡ applied 3 (pos 2)
unfolding program
second_applied = refl

apply_once_example :
    (result_of 1 2 7 8 9 "z" human
        (later 1 2 7 8 0 1 (pos 0) "a" human [] other_calls first_applied)
      ≡ duplicate 1)
    × (after 1 2 7 8 9 "z" human (later 1 2 7 8 0 1 (pos 0) "a" human [] other_calls first_applied)
        ≡ state_of 1 2 (later 1 2 7 8 0 1 (pos 0) "a" human [] other_calls first_applied))
apply_once_example =
    apply_once 1 2 7 8 0 1 (pos 0) "a" human [] other_calls first_applied 9 "z" human (tt, tt)

room_left :
    (state_of 1 2
      (later 1 2 7 8 0 1 (pos 0) "a" human [] other_calls first_applied)).head_server_seq
    < 9223372036854775807
unfolding program
room_left = omega arith

numbers_increase_example : 1 < 3
numbers_increase_example =
    numbers_increase 1 2 7 8 0 1 (pos 0) "a" human [] other_calls first_applied 7 10 2 3 (pos 2) "c"
      human empty-IsValidStore (tt, tt) second_applied room_left
