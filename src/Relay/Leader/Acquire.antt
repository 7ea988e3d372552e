-- ===== src/Relay/Leader/Acquire.antt =====
-- What an acquisition finds, leaves and answers.
use scriptum.Prelude.{
  ℕ, ◌+◌, ◌≡◌, ◌≢◌, Option, none, some, arith, ◌==◌, nat_eq, if◌then◌else◌, ==_refl,
}
use scriptum.Prelude.HashMap
use scriptum.Prelude.HashMap.{Unique, keep_if, get-insert_self}
use scriptum.Prelude.Numbers.{Uuid, Instant}
use scriptum.Relay.Leader.{
  LeaseRow, LeaseTable, AcquireResult, granted, denied, acquire, is_active, upserted, proposal,
  acquire_result, active_row,
}

-- By the row found and the row left.
abbrev pub Outcome : ℕ → Uuid → Uuid → Instant → Option LeaseRow → LeaseRow → AcquireResult → Type 0
Outcome ttl client proposed now none left result =
    (result ≡ granted proposed) × (left ≡ proposal ttl client proposed now)
Outcome ttl client proposed now (some held) left result =
    if held.daemon_id == client
    then (result ≡ AcquireResult.renewed held.lease_id)
      × (left ≡ record held { expires_at = now + ttl })
    else (result ≡ denied held.daemon_id) × (left ≡ held)

upserted-Outcome :
    (ttl now : ℕ) (c p : Uuid) (old : Option LeaseRow)
    → ((row : LeaseRow) → old ≡ some row → row.lease_id ≢ p)
    → Outcome ttl c p now
        (keep_if (is_active now) old)
        (upserted old (proposal ttl c p now) now)
        (acquire_result (upserted old (proposal ttl c p now) now) c p)
upserted-Outcome ttl now c p none fresh = ground (arith, ==_refl c, ==_refl p)
upserted-Outcome ttl now c p (some row) fresh = ground (arith, fresh row, ==_refl c, ==_refl p)

-- An acquisition answers by the active lease that it finds. If there is none, the client is granted
-- one for the time to live under the fresh identifier. If it is the client's own, it keeps its
-- identifier and is extended. If it is another's, it stays as it is, and the answer names its
-- holder. What is left is the row of the workspace.
pub acquire-Outcome :
    (ttl now : ℕ) (w c p : Uuid) (table : LeaseTable)
    → ((row : LeaseRow) → HashMap.get w table ≡ some row → row.lease_id ≢ p)
    → (left : LeaseRow) × (HashMap.get w (acquire ttl w c p now table).0 ≡ some left)
      × Outcome ttl c p now (active_row w now table) left (acquire ttl w c p now table).1
unfolding acquire active_row
acquire-Outcome ttl now w c p table fresh =
    let left = upserted (HashMap.get w table) (proposal ttl c p now) now in
    (left, get-insert_self w left table, upserted-Outcome ttl now c p (HashMap.get w table) fresh)
