-- ===== src/Daemon/Triggers.antt =====
-- crates/daemon/src/git/triggers.rs: the collector that decides when the daemon commits. The texts of the
-- commit messages are left out. A later `Instant` is a greater number, and a difference that would be
-- negative fails the test.
pub mod Due
pub mod History
pub mod Failure
mod Tests
use scriptum.Prelude.{
  ℕ, ◌+◌, String, Bool, true, false, not, ◌&&◌, Option, none, some, List, [], ◌∷◌, ◌++◌, map,
  filter, length, any, leb, ◌==◌, string_eq, if◌then◌else◌,
}
use scriptum.Prelude.HashSet
use scriptum.Prelude.HashSet.{HashSet}
use scriptum.Prelude.Sort.{sort_by}
use scriptum.Prelude.Numbers.{Uuid, Instant}

pub data TriggerEvent : Type 0 where
  lease_released : (agent doc_path section_heading : String) → TriggerEvent
  comment_resolved : (agent doc_path thread_id : String) → TriggerEvent
  explicit_checkpoint : String → Option String → TriggerEvent
  idle_fallback : TriggerEvent

abbrev pub agent : TriggerEvent → String
agent (lease_released a doc heading) = a
agent (comment_resolved a doc thread) = a
agent (explicit_checkpoint a message) = a
agent idle_fallback = "scriptum"

abbrev pub kind : TriggerEvent → String
kind (lease_released a doc heading) = "lease_released"
kind (comment_resolved a doc thread) = "comment_resolved"
kind (explicit_checkpoint a message) = "checkpoint"
kind idle_fallback = "idle_fallback"

pub data ChangeType : Type 0 where
  added : ChangeType
  modified : ChangeType
  deleted : ChangeType

pub record ChangedFile : Type 0 where
  pub path : String
  pub doc_id : Option Uuid
  pub change_type : ChangeType

pub record CommitContext : Type 0 where
  pub trigger : TriggerEvent
  pub changed_files : List ChangedFile
  pub agents_involved : HashSet String

-- In milliseconds.
pub record TriggerConfig : Type 0 where
  pub min_commit_interval : ℕ
  pub idle_fallback_timeout : ℕ
  pub max_batch_size : ℕ

abbrev pub default_config : TriggerConfig
default_config = record {
  min_commit_interval = 30_000;
  idle_fallback_timeout = 30_000;
  max_batch_size = 10;
}

pub record TriggerCollector : Type 0 where
  pub config : TriggerConfig
  pub pending_triggers : List TriggerEvent
  pub changed_paths : HashSet String
  pub last_edit_at : Option Instant
  pub last_commit_at : Option Instant

abbrev pub new : TriggerConfig → TriggerCollector
new config = record {
  config = config;
  pending_triggers = [];
  changed_paths = [];
  last_edit_at = none;
  last_commit_at = none;
}

unfoldable pub push_trigger : TriggerEvent → TriggerCollector → TriggerCollector
push_trigger event c = record c { pending_triggers = c.pending_triggers ++ event ∷ [] }

unfoldable pub mark_changed_at : String → Instant → TriggerCollector → TriggerCollector
mark_changed_at path at c = record c {
  changed_paths = HashSet.insert path c.changed_paths;
  last_edit_at = some at;
}

abbrev pub is_empty {ℓ} : {A : Type ℓ} → List A → Bool
is_empty [] = true
is_empty (x ∷ xs) = false

abbrev pub is_explicit : TriggerEvent → Bool
is_explicit (explicit_checkpoint a message) = true
is_explicit other = false

-- `checked_duration_since(last).is_some_and(|elapsed| elapsed >= interval)`.
abbrev pub elapsed : ℕ → Instant → Instant → Bool
elapsed interval last now = leb (last + interval) now

abbrev pub elapsed_since : ℕ → Option Instant → Instant → Bool
elapsed_since interval none now = true
elapsed_since interval (some last) now = elapsed interval last now

abbrev pub commit_interval_elapsed : Instant → TriggerCollector → Bool
commit_interval_elapsed now c = elapsed_since c.config.min_commit_interval c.last_commit_at now

abbrev pub idle_since : ℕ → Option Instant → Instant → Bool
idle_since timeout none now = false
idle_since timeout (some last_edit) now = elapsed timeout last_edit now

unfoldable pub should_idle_fallback_commit : Instant → TriggerCollector → Bool
should_idle_fallback_commit now c =
    if is_empty c.changed_paths
    then false
    else if not (idle_since c.config.idle_fallback_timeout c.last_edit_at now)
    then false
    else commit_interval_elapsed now c

unfoldable pub should_commit : Instant → TriggerCollector → Bool
unfolding should_idle_fallback_commit
should_commit now c =
    if is_empty c.pending_triggers
    then should_idle_fallback_commit now c
    else if any is_explicit c.pending_triggers
    then true
    else if leb c.config.max_batch_size (length c.pending_triggers)
    then true
    else commit_interval_elapsed now c

abbrev pub last_of : TriggerEvent → List TriggerEvent → TriggerEvent
last_of event [] = event
last_of event (next ∷ rest) = last_of next rest

-- `collect::<HashSet<_>>`.
unfoldable pub agents_of : List TriggerEvent → HashSet String
agents_of [] = []
agents_of (event ∷ events) = HashSet.insert (agent event) (agents_of events)

abbrev pub trigger_of : List TriggerEvent → TriggerEvent
trigger_of [] = idle_fallback
trigger_of (event ∷ events) = last_of event events

unfoldable pub take_commit_context_at :
    Instant → List ChangedFile → TriggerCollector → TriggerCollector × Option CommitContext
unfolding agents_of
take_commit_context_at now changed_files c =
    if is_empty c.pending_triggers && is_empty c.changed_paths then (c, none) else (
      record c {
        pending_triggers = [];
        changed_paths = [];
        last_edit_at = none;
        last_commit_at = some now;
      },
      some (record {
        trigger = trigger_of c.pending_triggers;
        changed_files = changed_files;
        agents_involved = agents_of c.pending_triggers;
      }),
    )

abbrev pub pending_count : TriggerCollector → ℕ
pending_count c = length c.pending_triggers

abbrev pub changed_path_count : TriggerCollector → ℕ
changed_path_count c = length c.changed_paths

-- The set has no duplicates for `dedup` to remove. The order of texts is a parameter.
pub tracked_changed_files : (String → String → Bool) → TriggerCollector → List ChangedFile
tracked_changed_files string_le c =
    map
      (λ (path : String).
        (let f : ChangedFile = record { path = path; doc_id = none; change_type = modified } in f))
      (sort_by string_le c.changed_paths)

-- crates/daemon/src/rpc/methods.rs: the policy of a workspace, and what git is asked to do.
pub data GitSyncPolicy : Type 0 where
  disabled : GitSyncPolicy
  manual : GitSyncPolicy
  auto_rebase : GitSyncPolicy

pub data GitSyncAction : Type 0 where
  commit : TriggerEvent → GitSyncAction
  commit_and_push : TriggerEvent → GitSyncAction

abbrev pub action_of : GitSyncPolicy → TriggerEvent → GitSyncAction
action_of auto_rebase trigger = commit_and_push trigger
action_of other trigger = commit trigger

-- `none`: nothing was done. `failed`: the error of git.
pub data AutoCommit : Type 0 where
  nothing : AutoCommit
  failed : AutoCommit
  committed : Uuid → AutoCommit

abbrev pub outcome_of : Option Uuid → AutoCommit
outcome_of none = failed
outcome_of (some job) = committed job

abbrev pub sync_with :
    GitSyncPolicy
    → (GitSyncAction → Option Uuid)
    → TriggerCollector × Option CommitContext
    → TriggerCollector × AutoCommit
sync_with policy sync (c, none) = (c, nothing)
sync_with policy sync (c, some context) = (c, outcome_of (sync (action_of policy context.trigger)))

-- `run_triggered_auto_commit`, with `sync` of git as an argument, `none` being its failure.
unfoldable pub run_triggered_auto_commit :
    (String → String → Bool)
    → GitSyncPolicy
    → (GitSyncAction → Option Uuid)
    → Instant
    → TriggerCollector
    → TriggerCollector × AutoCommit
unfolding should_commit take_commit_context_at tracked_changed_files
run_triggered_auto_commit string_le disabled sync now c = (c, nothing)
run_triggered_auto_commit string_le policy sync now c =
    if not (should_commit now c)
    then (c, nothing)
    else (let changed_files = tracked_changed_files string_le c in
        if is_empty changed_files
        then (c, nothing)
        else sync_with policy sync (take_commit_context_at now changed_files c))
