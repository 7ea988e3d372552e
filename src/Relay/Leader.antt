-- ===== src/Relay/Leader.antt =====
-- crates/relay/src/leader/mod.rs: the git leader leases of the workspaces, over the table
-- `git_leader_leases`, whose primary key is the workspace. A method is one call, for each of its
-- statements is atomic and a method writes at most once. SQL failures are left out.
pub mod Runs
pub mod Holding
pub mod Acquire
pub mod Eviction
mod Tests
use scriptum.Prelude.{
  ℕ, ◌+◌, ◌-◌, Bool, true, false, Option, none, some, List, [], ◌∷◌, filter, length, ltb, leb, ◌==◌,
  nat_eq, ◌&&◌, if◌then◌else◌, is_some,
}
use scriptum.Prelude.HashMap
use scriptum.Prelude.HashMap.{HashMap, keep_if}
use scriptum.Prelude.Numbers.{Uuid, Instant}

-- `DEFAULT_LEASE_TTL`, in nanoseconds.
abbrev pub default_lease_ttl : ℕ
default_lease_ttl = 60_000_000_000

pub record Lease : Type 0 where
  pub workspace_id : Uuid
  pub holder_id : Uuid
  pub lease_id : Uuid
  pub granted_at : Instant
  pub expires_at : Instant

abbrev pub is_expired_at : Instant → Lease → Bool
is_expired_at now lease = leb lease.expires_at now

-- How long a lease lasts.
pub remaining : Instant → Lease → ℕ
remaining now lease = if is_expired_at now lease then 0 else lease.expires_at - now

pub data AcquireResult : Type 0 where
  granted : Uuid → AcquireResult
  denied : Uuid → AcquireResult
  renewed : Uuid → AcquireResult

pub data RenewResult : Type 0 where
  renewed : RenewResult
  not_found : RenewResult
  wrong_holder : RenewResult

pub data ReleaseResult : Type 0 where
  released : ReleaseResult
  not_found : ReleaseResult
  wrong_holder : ReleaseResult

-- The columns of a row that are not its key.
pub record LeaseRow : Type 0 where
  pub daemon_id : Uuid
  pub lease_id : Uuid
  pub acquired_at : Instant
  pub expires_at : Instant

abbrev pub LeaseTable : Type 0
LeaseTable = HashMap Uuid LeaseRow

abbrev pub expires_at_with_ttl : Instant → ℕ → Instant
expires_at_with_ttl now ttl = now + ttl

-- `expires_at > now`.
abbrev pub is_active : Instant → LeaseRow → Bool
is_active now row = ltb now row.expires_at

-- `WHERE workspace_id = $1 AND expires_at > $2`.
unfoldable pub active_row : Uuid → Instant → LeaseTable → Option LeaseRow
active_row workspace now table = keep_if (is_active now) (HashMap.get workspace table)

-- The columns that `ON CONFLICT DO UPDATE` sets.
abbrev pub on_conflict : LeaseRow → LeaseRow → Instant → LeaseRow
on_conflict old excluded now =
    let expired = leb old.expires_at now in
    record {
      daemon_id = if expired then excluded.daemon_id else old.daemon_id;
      lease_id = if expired then excluded.lease_id else old.lease_id;
      acquired_at = if expired then excluded.acquired_at else old.acquired_at;
      expires_at =
          if expired
          then excluded.expires_at
          else if old.daemon_id == excluded.daemon_id
          then excluded.expires_at
          else old.expires_at;
    }

-- The row that the statement of `acquire` leaves and returns.
abbrev pub upserted : Option LeaseRow → LeaseRow → Instant → LeaseRow
upserted none excluded now = excluded
upserted (some old) excluded now = on_conflict old excluded now

abbrev pub acquire_result : LeaseRow → Uuid → Uuid → AcquireResult
acquire_result row client proposed =
    if row.daemon_id == client
    then (if row.lease_id == proposed
        then granted row.lease_id
        else AcquireResult.renewed row.lease_id)
    else denied row.daemon_id

-- `WHERE` of the update in `renew`.
abbrev pub is_renewable : Uuid → Uuid → Instant → LeaseRow → Bool
is_renewable client lease now row =
    (row.daemon_id == client) && ((row.lease_id == lease) && is_active now row)

module _ (ttl : ℕ) where
  abbrev pub proposal : Uuid → Uuid → Instant → LeaseRow
  proposal client proposed now = record {
    daemon_id = client;
    lease_id = proposed;
    acquired_at = now;
    expires_at = expires_at_with_ttl now ttl;
  }

  -- `proposed` is the fresh identifier.
  unfoldable pub acquire : Uuid → Uuid → Uuid → Instant → LeaseTable → LeaseTable × AcquireResult
  acquire workspace client proposed now table =
      let row = upserted (HashMap.get workspace table) (proposal client proposed now) now in
      (HashMap.insert workspace row table, acquire_result row client proposed)

  -- On the row that the update of `renew` finds.
  abbrev pub renew_on : Uuid → Instant → LeaseTable → Option LeaseRow → LeaseTable × RenewResult
  renew_on workspace now table (some row) = (
    HashMap.insert workspace (record row { expires_at = expires_at_with_ttl now ttl }) table,
    RenewResult.renewed,
  )
  renew_on workspace now table none = (
    table,
    if is_some (active_row workspace now table)
        then RenewResult.wrong_holder
        else RenewResult.not_found,
  )

  unfoldable pub renew : Uuid → Uuid → Uuid → Instant → LeaseTable → LeaseTable × RenewResult
  unfolding active_row
  renew workspace client lease now table =
      renew_on workspace now table
        (keep_if (is_renewable client lease now) (HashMap.get workspace table))

-- `WHERE` of the deletion in `release`.
abbrev pub is_releasable : Uuid → Instant → LeaseRow → Bool
is_releasable client now row = (row.daemon_id == client) && is_active now row

-- On the row that the deletion finds.
abbrev pub release_on : Uuid → Instant → LeaseTable → Option LeaseRow → LeaseTable × ReleaseResult
release_on workspace now table (some row) = (HashMap.remove workspace table, released)
release_on workspace now table none = (
  table,
  if is_some (active_row workspace now table)
      then ReleaseResult.wrong_holder
      else ReleaseResult.not_found,
)

unfoldable pub release : Uuid → Uuid → Instant → LeaseTable → LeaseTable × ReleaseResult
unfolding active_row
release workspace client now table =
    release_on workspace now table
      (keep_if (is_releasable client now) (HashMap.get workspace table))

unfoldable pub current_leader : Uuid → Instant → LeaseTable → Option Uuid
unfolding active_row
current_leader workspace now table = elim (active_row workspace now table) [
  | none ↦ none
  | some row ↦ some row.daemon_id
]

pub current_lease : Uuid → Instant → LeaseTable → Option Lease
unfolding active_row
current_lease workspace now table = elim (active_row workspace now table) [
  | none ↦ none
  | some row ↦ some (record {
    workspace_id = workspace;
    holder_id = row.daemon_id;
    lease_id = row.lease_id;
    granted_at = row.acquired_at;
    expires_at = row.expires_at;
  })
]

abbrev pub survives : Instant → Uuid → LeaseRow → Bool
survives now workspace row = is_active now row

unfoldable pub evict_expired : Instant → LeaseTable → LeaseTable × ℕ
evict_expired now table =
    let left = HashMap.retain (survives now) table in (left, length table - length left)

abbrev pub entry_active : Instant → Uuid × LeaseRow → Bool
entry_active now entry = is_active now entry.1

pub active_count : Instant → LeaseTable → ℕ
active_count now table = length (filter (entry_active now) table)
