-- ===== src/Daemon/Outbox.antt =====
-- crates/daemon/src/outbox/mod.rs: the queue of updates for the relay, over the table
-- `outbox_updates` of SQLite: a map from the row id to the row. SQLite's own failures are left out,
-- and so is the text of the state column beyond `as_str` and `parse`.
pub mod Backoff
pub mod Lifecycle
pub mod Runs
pub mod Limits
mod Tests
use scriptum.Prelude.{
  ℕ, zero, suc, ◌+◌, ◌-◌, ◌*◌, ◌^◌, ◌≤◌, ◌<◌, min, String, Bool, true, false, ◌&&◌, ◌||◌, Option,
  none, some, List, [], ◌∷◌, ◌⊎◌, inl, inr, length, filter, map, if◌then◌else◌, ltb, leb, ◌==◌,
  nat_eq, string_eq, unwrap_or,
}
use scriptum.Prelude.HashMap
use scriptum.Prelude.HashMap.{HashMap}
use scriptum.Prelude.Sort.{sort_by_key}
use scriptum.Prelude.Numbers.{Instant}
use scriptum.Daemon.Security.{Cipher, encrypt_at_rest, decrypt_at_rest}

abbrev pub base_delay_ms : ℕ
base_delay_ms = 250

abbrev pub max_delay_ms : ℕ
max_delay_ms = 30_000

abbrev pub max_attempts : ℕ
max_attempts = 8

abbrev pub max_pending_updates : ℕ
max_pending_updates = 10_000

-- 1 GiB.
abbrev pub max_pending_bytes : ℕ
max_pending_bytes = 1_073_741_824

-- In nanoseconds.
abbrev pub millisecond : ℕ
millisecond = 1_000_000

pub data UpdateState : Type 0 where
  pending : UpdateState
  sent : UpdateState
  acked : UpdateState
  dead : UpdateState

pub as_str : UpdateState → String
as_str pending = "pending"
as_str sent = "sent"
as_str acked = "acked"
as_str dead = "dead"

pub parse : String → Option UpdateState
parse s =
    if s == "pending"
    then some pending
    else (if s == "sent"
        then some sent
        else (if s == "acked" then some acked else (if s == "dead" then some dead else none)))

-- `state = 'pending'` and `state = 'sent'`.
abbrev pub is_pending : UpdateState → Bool
is_pending pending = true
is_pending sent = false
is_pending acked = false
is_pending dead = false

abbrev pub is_sent : UpdateState → Bool
is_sent pending = false
is_sent sent = true
is_sent acked = false
is_sent dead = false

-- An `OutboxUpdate`, and a row of the table, where the payload is encrypted.
pub record OutboxUpdate : Type 0 where
  pub id : ℕ
  pub workspace_id : String
  pub doc_id : String
  pub client_update_id : String
  pub payload : List ℕ
  pub retry_count : ℕ
  pub next_retry_at : Option Instant
  pub state : UpdateState
  pub created_at : Instant

pub record BackpressureStatus : Type 0 where
  pub pending_count : ℕ
  pub pending_bytes : ℕ
  pub is_over_limit : Bool

-- `rows` by id; `last_id` is the sequence of AUTOINCREMENT.
pub record OutboxQueue : Type 0 where
  pub rows : HashMap ℕ OutboxUpdate
  pub last_id : ℕ

pub data EnqueueError : Type 0 where
  outbox_backpressure : ℕ → ℕ → EnqueueError
  encryption_failed : EnqueueError

-- `1u64 << exp` with `exp` at most 7, so nothing saturates. In milliseconds.
unfoldable pub backoff_delay : ℕ → ℕ
backoff_delay attempt = min (base_delay_ms * 2 ^ min attempt 7) max_delay_ms

-- A row that `check_backpressure` counts.
abbrev pub counts_for : String → OutboxUpdate → Bool
counts_for workspace_id row =
    (row.workspace_id == workspace_id) && (is_pending row.state || is_sent row.state)

-- `COUNT(*)` and `SUM(LENGTH(payload))` of the rows that count.
unfoldable pub count_rows : (OutboxUpdate → Bool) → HashMap ℕ OutboxUpdate → ℕ
count_rows p [] = 0
count_rows p (entry ∷ rows) = (if p entry.1 then 1 else 0) + count_rows p rows

unfoldable pub sum_payloads : (OutboxUpdate → Bool) → HashMap ℕ OutboxUpdate → ℕ
sum_payloads p [] = 0
sum_payloads p (entry ∷ rows) =
    (if p entry.1 then length entry.1.payload else 0) + sum_payloads p rows

unfoldable pub check_backpressure : String → OutboxQueue → BackpressureStatus
unfolding count_rows sum_payloads
check_backpressure workspace_id queue =
    let count = count_rows (counts_for workspace_id) queue.rows in
    let bytes = sum_payloads (counts_for workspace_id) queue.rows in
    record {
      pending_count = count;
      pending_bytes = bytes;
      is_over_limit = leb max_pending_updates count || leb max_pending_bytes bytes;
    }

abbrev pub new_row : ℕ → String → String → String → List ℕ → Instant → OutboxUpdate
new_row id workspace_id doc_id client_update_id payload now = record {
  id = id;
  workspace_id = workspace_id;
  doc_id = doc_id;
  client_update_id = client_update_id;
  payload = payload;
  retry_count = 0;
  next_retry_at = none;
  state = pending;
  created_at = now;
}

module _ (cipher : Cipher) where
  -- The queue and the row id, or the error, which leaves the queue as it was.
  unfoldable pub enqueue :
      List ℕ
      → String
      → String
      → String
      → List ℕ
      → Instant
      → OutboxQueue
      → EnqueueError ⊎ (OutboxQueue × ℕ)
  unfolding check_backpressure
  enqueue nonce workspace_id doc_id client_update_id payload now queue =
      let status = check_backpressure workspace_id queue in
      if status.is_over_limit
      then inl (outbox_backpressure status.pending_count status.pending_bytes)
      else (elim (encrypt_at_rest cipher nonce payload) [
        | none ↦ inl encryption_failed
        | some encrypted_payload ↦
            let id = queue.last_id + 1 in
            inr (
              record {
                rows =
                    HashMap.insert id
                      (new_row id workspace_id doc_id client_update_id encrypted_payload now)
                      queue.rows;
                last_id = id;
              },
              id,
            )
      ])

-- `UPDATE … WHERE id = ? AND …`: the row, if it passes the test, and whether it did.
abbrev pub update_where :
    ℕ → (OutboxUpdate → Bool) → (OutboxUpdate → OutboxUpdate) → OutboxQueue → OutboxQueue × Bool
update_where id test change queue = elim (HashMap.get id queue.rows) [
  | none ↦ (queue, false)
  | some row ↦
      if test row
      then (record queue { rows = HashMap.insert id (change row) queue.rows }, true)
      else (queue, false)
]

abbrev pub set_sent : OutboxUpdate → OutboxUpdate
set_sent row = record row { state = sent }

abbrev pub set_acked : OutboxUpdate → OutboxUpdate
set_acked row = record row { state = acked }

unfoldable pub mark_sent : ℕ → OutboxQueue → OutboxQueue × Bool
mark_sent id = update_where id (λ row. is_pending row.state) set_sent

unfoldable pub mark_acked : ℕ → OutboxQueue → OutboxQueue × Bool
mark_acked id = update_where id (λ row. is_sent row.state) set_acked

-- The two updates of `mark_failed`.
unfoldable pub set_failed : Instant → OutboxUpdate → OutboxUpdate
unfolding backoff_delay
set_failed now row =
    if leb max_attempts (row.retry_count + 1)
    then record row { state = dead; retry_count = row.retry_count + 1 }
    else record row {
      state = pending;
      retry_count = row.retry_count + 1;
      next_retry_at = some (now + backoff_delay row.retry_count * millisecond);
    }

-- `none` if there is no such row.
unfoldable pub mark_failed : ℕ → Instant → OutboxQueue → Option (OutboxQueue × Bool)
unfolding set_failed
mark_failed id now queue = elim (HashMap.get id queue.rows) [
  | none ↦ none
  | some row ↦ some (update_where id (λ r. is_sent r.state) (set_failed now) queue)
]

-- `next_retry_at IS NULL OR next_retry_at <= now`: the texts are in the order of the times.
abbrev pub retry_due : Instant → Option Instant → Bool
retry_due now none = true
retry_due now (some at) = leb at now

abbrev pub is_ready : Instant → OutboxUpdate → Bool
is_ready now row = is_pending row.state && retry_due now row.next_retry_at

-- The rows that `ready_to_send` selects, in the order of their ids.
unfoldable pub ready_rows : Instant → OutboxQueue → List OutboxUpdate
ready_rows now queue =
    sort_by_key (λ (row : OutboxUpdate). row.id)
      (filter (is_ready now) (map (λ (entry : ℕ × OutboxUpdate). entry.1) queue.rows))

module _ (cipher : Cipher) where
  abbrev pub row_to_update : OutboxUpdate → Option OutboxUpdate
  row_to_update row = elim (decrypt_at_rest cipher row.payload) [
    | none ↦ none
    | some payload ↦ some (record row { payload = payload })
  ]

  abbrev pub collect_rows : List OutboxUpdate → Option (List OutboxUpdate)
  collect_rows [] = some []
  collect_rows (row ∷ rows) = elim (row_to_update row) [
    | none ↦ none
    | some update ↦ elim (collect_rows rows) [
      | none ↦ none
      | some updates ↦ some (update ∷ updates)
    ]
  ]

  unfoldable pub ready_to_send : Instant → OutboxQueue → Option (List OutboxUpdate)
  unfolding ready_rows
  ready_to_send now queue = collect_rows (ready_rows now queue)
