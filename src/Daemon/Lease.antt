-- ===== src/Daemon/Lease.antt =====
-- crates/daemon/src/agent/lease.rs: the advisory leases of agents on sections, in memory and in the
-- table `agent_leases` of SQLite, whose primary key is the key of the map. SQLite's own failures are
-- left out, and with them rows that cannot be decoded. The order of texts is a parameter.
pub mod Sync
pub mod Renewal
mod Tests
use scriptum.Prelude.{
  ℕ, ◌+◌, ◌-◌, ◌*◌, ◌≤◌, ◌<◌, String, Bool, true, false, not, ◌&&◌, Option, none, some, List, [],
  ◌∷◌, map, length, filter, if◌then◌else◌, ltb, leb, ◌==◌, nat_eq, string_eq, pair_eq,
}
use scriptum.Prelude.HashMap
use scriptum.Prelude.HashMap.{HashMap}
use scriptum.Prelude.Sort.{sort_by}
use scriptum.Prelude.Numbers.{Instant}

-- In nanoseconds.
abbrev pub second : ℕ
second = 1_000_000_000

pub data LeaseMode : Type 0 where
  exclusive : LeaseMode
  shared : LeaseMode

pub record SectionLease : Type 0 where
  pub workspace_id : String
  pub doc_id : String
  pub section_id : String
  pub agent_id : String
  pub ttl_sec : ℕ
  pub mode : LeaseMode
  pub note : Option String
  pub expires_at : Instant

abbrev pub is_expired_at : Instant → SectionLease → Bool
is_expired_at now lease = leb lease.expires_at now

-- Workspace and document, section and agent.
abbrev pub LeaseKey : Type 0
LeaseKey = (String × String) × (String × String)

abbrev pub key_of : String → String → String → String → LeaseKey
key_of workspace_id doc_id section_id agent_id = ((workspace_id, doc_id), (section_id, agent_id))

abbrev pub key : SectionLease → LeaseKey
key lease = key_of lease.workspace_id lease.doc_id lease.section_id lease.agent_id

pub record LeaseClaim : Type 0 where
  pub workspace_id : String
  pub doc_id : String
  pub section_id : String
  pub agent_id : String
  pub ttl_sec : ℕ
  pub mode : LeaseMode
  pub note : Option String

pub record LeaseConflict : Type 0 where
  pub agent_id : String
  pub section_id : String

pub record ClaimResult : Type 0 where
  pub lease : SectionLease
  pub conflicts : List LeaseConflict

-- The store in memory, and the table.
pub record LeaseStore : Type 0 where
  pub leases : HashMap LeaseKey SectionLease
  pub table : HashMap LeaseKey SectionLease

abbrev pub keeps : Instant → LeaseKey → SectionLease → Bool
keeps now k lease = not (is_expired_at now lease)

unfoldable pub prune_expired : Instant → LeaseStore → LeaseStore × ℕ
prune_expired now store =
    let left = HashMap.retain (keeps now) store.leases in
    (
      record { leases = left; table = HashMap.retain (keeps now) store.table },
      length store.leases - length left,
    )

abbrev pub upsert_lease : SectionLease → LeaseStore → LeaseStore
upsert_lease lease store = record store { table = HashMap.insert (key lease) lease store.table }

-- The rows of the table that have not expired, inserted one by one.
unfoldable pub load_rows :
    Instant
    → HashMap LeaseKey SectionLease
    → HashMap LeaseKey SectionLease
    → HashMap LeaseKey SectionLease
load_rows now [] leases = leases
load_rows now ((k, lease) ∷ rows) leases =
    load_rows now rows
      (if ltb now lease.expires_at then HashMap.insert (key lease) lease leases else leases)

-- `LeaseStore::new` on a table.
pub new : Instant → HashMap LeaseKey SectionLease → LeaseStore
unfolding prune_expired load_rows
new now table =
    let pruned = (prune_expired now (record { leases = []; table = table })).0 in
    record pruned { leases = load_rows now pruned.table pruned.leases }

abbrev pub values : HashMap LeaseKey SectionLease → List SectionLease
values = map (λ (entry : LeaseKey × SectionLease). entry.1)

abbrev pub excluded : Option String → SectionLease → Bool
excluded none lease = false
excluded (some agent) lease = lease.agent_id == agent

abbrev pub on_section : String → String → String → SectionLease → Bool
on_section workspace_id doc_id section_id lease =
    (lease.workspace_id == workspace_id)
    && ((lease.doc_id == doc_id) && (lease.section_id == section_id))

abbrev pub on_doc : Option String → SectionLease → Bool
on_doc none lease = true
on_doc (some doc) lease = lease.doc_id == doc

module _ (string_le : String → String → Bool) where
  pub conflicts_for_section :
      String → String → String → Option String → Instant → LeaseStore → List LeaseConflict
  conflicts_for_section workspace_id doc_id section_id excluding_agent_id now store =
      sort_by (λ (a b : LeaseConflict). string_le a.agent_id b.agent_id)
        (map
          (λ (lease : SectionLease).
            (let c : LeaseConflict = record {
              agent_id = lease.agent_id;
              section_id = lease.section_id;
            } in
              c))
          (filter
            (λ (lease : SectionLease).
              on_section workspace_id doc_id section_id lease
              && (not (is_expired_at now lease) && not (excluded excluding_agent_id lease)))
            (values store.leases)))

  abbrev pub lease_of : LeaseClaim → Instant → SectionLease
  lease_of request now = record {
    workspace_id = request.workspace_id;
    doc_id = request.doc_id;
    section_id = request.section_id;
    agent_id = request.agent_id;
    ttl_sec = request.ttl_sec;
    mode = request.mode;
    note = request.note;
    expires_at = now + request.ttl_sec * second;
  }

  -- `none`: the time to live is 0.
  unfoldable pub claim : LeaseClaim → Instant → LeaseStore → LeaseStore × Option ClaimResult
  unfolding prune_expired conflicts_for_section
  claim request now store =
      if request.ttl_sec == 0
      then (store, none)
      else (let pruned = (prune_expired now store).0 in
          let conflicts =
            conflicts_for_section request.workspace_id request.doc_id request.section_id
              (some request.agent_id) now pruned in
          let lease = lease_of request now in
          let written = upsert_lease lease pruned in
          (
            record written { leases = HashMap.insert (key lease) lease pruned.leases },
            some (record { lease = lease; conflicts = conflicts }),
          ))

  unfoldable pub active_leases_for_section :
      String → String → String → Instant → LeaseStore → LeaseStore × List SectionLease
  unfolding prune_expired
  active_leases_for_section workspace_id doc_id section_id now store =
      let pruned = (prune_expired now store).0 in
      (
        pruned,
        sort_by (λ (a b : SectionLease). string_le a.agent_id b.agent_id)
            (filter
              (λ (lease : SectionLease).
                on_section workspace_id doc_id section_id lease && not (is_expired_at now lease))
              (values pruned.leases)),
      )

  -- By document, then section, then agent.
  abbrev pub lease_le : SectionLease → SectionLease → Bool
  lease_le a b =
      if a.doc_id == b.doc_id
      then (if a.section_id == b.section_id
          then string_le a.agent_id b.agent_id
          else string_le a.section_id b.section_id)
      else string_le a.doc_id b.doc_id

  unfoldable pub active_leases :
      String → Option String → Instant → LeaseStore → LeaseStore × List SectionLease
  unfolding prune_expired
  active_leases workspace_id doc_id now store =
      let pruned = (prune_expired now store).0 in
      (
        pruned,
        sort_by lease_le (
            filter
              (λ (lease : SectionLease).
                (lease.workspace_id == workspace_id)
                && (on_doc doc_id lease && not (is_expired_at now lease)))
              (values pruned.leases)),
      )

abbrev pub renewed : Instant → SectionLease → SectionLease
renewed now lease = record lease { expires_at = now + lease.ttl_sec * second }

unfoldable pub record_activity :
    String → String → String → String → Instant → LeaseStore → LeaseStore × Option SectionLease
unfolding prune_expired
record_activity workspace_id doc_id section_id agent_id now store =
    let pruned = (prune_expired now store).0 in
    elim (HashMap.get (key_of workspace_id doc_id section_id agent_id) pruned.leases) [
      | none ↦ (pruned, none)
      | some lease ↦
          let lease' = renewed now lease in
          (
            upsert_lease lease' (record pruned {
              leases =
                  HashMap.insert (key_of workspace_id doc_id section_id agent_id) lease'
                    pruned.leases;
            }),
            some lease',
          )
    ]
