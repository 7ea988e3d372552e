-- ===== src/Daemon/Triggers/History.antt =====
-- The collector by what has happened since the last commit.
use scriptum.Prelude.{
  ◌+◌, ◌≤◌, ◌≡◌, ◌≢◌, ◌↔◌, refl, sym, ap, ◌∙◌, String, Bool, true, false, not, ◌||◌, Option, none,
  some, is_some, List, [], ◌∷◌, ◌++◌, length, any, leb, le→leb, ◌==◌, string_eq, if◌then◌else◌,
  arith, append_assoc, append-nil,
}
use scriptum.Prelude.HashSet
use scriptum.Prelude.Numbers.{Instant}
use scriptum.Daemon.Triggers.Due.{due_of, IsDue, due_of-IsDue}
use scriptum.Daemon.Triggers.{
  TriggerEvent, TriggerCollector, TriggerConfig, ChangedFile, agent, push_trigger, mark_changed_at,
  should_commit, take_commit_context_at, is_empty, is_explicit, elapsed_since, agents_of,
  trigger_of, idle_since,
}

pub data Edit : Type 0 where
  pushes : TriggerEvent → Edit
  marks : String → Instant → Edit

abbrev pub apply : Edit → TriggerCollector → TriggerCollector
apply (pushes event) = push_trigger event
apply (marks path at) = mark_changed_at path at

unfoldable pub run : List Edit → TriggerCollector → TriggerCollector
unfolding push_trigger mark_changed_at
run [] c = c
run (edit ∷ edits) c = run edits (apply edit c)

-- What the edits leave pending, and when the last change was.
abbrev pub pushed : List Edit → List TriggerEvent
pushed [] = []
pushed (pushes event ∷ edits) = event ∷ pushed edits
pushed (marks path at ∷ edits) = pushed edits

abbrev pub later_mark : Option Instant → List Edit → Option Instant
later_mark at [] = at
later_mark at (pushes event ∷ edits) = later_mark at edits
later_mark at (marks path new ∷ edits) = later_mark (some new) edits

abbrev pub last_mark : List Edit → Option Instant
last_mark = later_mark none

-- The collector that a commit at some time leaves, or a new one.
abbrev pub fresh : TriggerConfig → Option Instant → TriggerCollector
fresh config committed = record {
  config = config;
  pending_triggers = [];
  changed_paths = [];
  last_edit_at = none;
  last_commit_at = committed;
}

due_true : (a b c : Bool) → (if a then true else (b || (c || true))) ≡ true
due_true a b c = ground arith

-- A change is pending if there was one since.
abbrev EditsMatch : TriggerCollector → Type 0
EditsMatch c = is_empty c.changed_paths ≡ not (is_some c.last_edit_at)

insert_not_empty :
    (path : String) (paths : List String) → is_empty (HashSet.insert path paths) ≡ false
unfolding HashSet.insert
insert_not_empty path [] = refl
insert_not_empty path (x ∷ xs) = ground arith

-- The fields after the edits.
run_fields :
    (edits : List Edit) (c : TriggerCollector)
    → EditsMatch c
    → ((run edits c).config ≡ c.config)
      × ((run edits c).last_commit_at ≡ c.last_commit_at)
      × ((run edits c).pending_triggers ≡ c.pending_triggers ++ pushed edits)
      × ((run edits c).last_edit_at ≡ later_mark c.last_edit_at edits)
      × EditsMatch (run edits c)
unfolding run
run_fields [] c m = (refl, refl, sym (append-nil c.pending_triggers), refl, m)
run_fields (pushes event ∷ edits) c m =
    let r = run_fields edits (push_trigger event c) m in
    (r.0, r.1, r.2 ∙ append_assoc c.pending_triggers (event ∷ []) (pushed edits), r.3, r.4)
run_fields (marks path at ∷ edits) c m =
    run_fields edits (mark_changed_at path at c) (insert_not_empty path c.changed_paths)

abbrev pub is_due : TriggerConfig → Option Instant → List Edit → Instant → Bool
is_due config committed edits = due_of config committed (last_mark edits) (pushed edits)

due_cases :
    (config : TriggerConfig) (committed edit : Option Instant) (triggers : List TriggerEvent)
    (now : Instant)
    → (if is_empty triggers
        then (if not (is_some edit)
            then false
            else if not (idle_since config.idle_fallback_timeout edit now)
            then false
            else elapsed_since config.min_commit_interval committed now)
        else if any is_explicit triggers
        then true
        else if leb config.max_batch_size (length triggers)
        then true
        else elapsed_since config.min_commit_interval committed now)
      ≡ due_of config committed edit triggers now
due_cases config committed none triggers now = ground arith
due_cases config committed (some edit) triggers now = ground arith

should_commit-due_of :
    (now : Instant) (c : TriggerCollector)
    → EditsMatch c
    → should_commit now c ≡ due_of c.config c.last_commit_at c.last_edit_at c.pending_triggers now
unfolding should_commit
should_commit-due_of now c m =
    rw m (due_cases c.config c.last_commit_at c.last_edit_at c.pending_triggers now)

should_commit-is_due :
    (config : TriggerConfig) (committed : Option Instant) (edits : List Edit) (now : Instant)
    → should_commit now (run edits (fresh config committed)) ≡ is_due config committed edits now
should_commit-is_due config committed edits now =
    let c = run edits (fresh config committed) in
    let r = run_fields edits (fresh config committed) refl in
    should_commit-due_of now c r.4 ∙ rw (r.0, r.1, r.2, r.3) refl

-- A commit is due after these edits since the last commit in three cases and no other: a checkpoint was
-- asked for; or something was pushed, and it fills a batch or the interval since the last commit has
-- passed (there may have been none); or nothing was pushed, and since the last change, of which there is
-- one, the idle time has passed, and since the last commit the interval.
pub should_commit_history :
    (config : TriggerConfig) (committed : Option Instant) (edits : List Edit) (now : Instant)
    → (should_commit now (run edits (fresh config committed)) ≡ true)
      ↔ IsDue config committed (last_mark edits) (pushed edits) now
should_commit_history config committed edits now =
    let same = should_commit-is_due config committed edits now in
    let due = due_of-IsDue config committed (last_mark edits) (pushed edits) now in
    (λ e. due.0 (sym same ∙ e), λ h. same ∙ due.1 h)

-- Whatever was changed or pushed before, when the idle time has passed since the last change a commit
-- is due, if the interval between commits is no longer than the idle time and the last commit was
-- before the last change.
pub idle_timer_commits :
    (config : TriggerConfig) (committed : Instant) (edits : List Edit) (edit now : Instant)
    → config.min_commit_interval ≤ config.idle_fallback_timeout
    → last_mark edits ≡ some edit
    → committed ≤ edit
    → edit + config.idle_fallback_timeout ≤ now
    → should_commit now (run edits (fresh config (some committed))) ≡ true
idle_timer_commits config committed edits edit now le e before idle =
    let passed = le→leb (edit + config.idle_fallback_timeout) now idle in
    let spaced = le→leb (committed + config.min_commit_interval) now (omega arith) in
    should_commit-is_due config (some committed) edits now
    ∙ rw e (
        rw passed (
          rw spaced (
            due_true (is_empty (pushed edits)) (any is_explicit (pushed edits))
              (leb config.max_batch_size (length (pushed edits))))))

take_changed :
    (now : Instant) (files : List ChangedFile) (c : TriggerCollector)
    → is_empty c.changed_paths ≡ false
    → take_commit_context_at now files c ≡ (
      fresh c.config (some now),
      some (record {
        trigger = trigger_of c.pending_triggers;
        changed_files = files;
        agents_involved = agents_of c.pending_triggers;
      }),
    )
unfolding take_commit_context_at
take_changed now files c e = ground arith

edited_some : (e : Option Instant) → e ≢ none → not (is_some e) ≡ false
edited_some none ne = absurd (ne refl)
edited_some (some t) ne = refl

-- A commit after a change leaves a collector without triggers and changes, and its context has the
-- latest of the triggers, or the idle fallback if there was none, and the agents of all of them.
pub take_history :
    (config : TriggerConfig) (committed : Option Instant) (edits : List Edit) (now : Instant)
    (files : List ChangedFile)
    → last_mark edits ≢ none
    → take_commit_context_at now files (run edits (fresh config committed)) ≡ (
      fresh config (some now),
      some (record {
        trigger = trigger_of (pushed edits);
        changed_files = files;
        agents_involved = agents_of (pushed edits);
      }),
    )
take_history config committed edits now files ne =
    let c = run edits (fresh config committed) in
    let r = run_fields edits (fresh config committed) refl in
    let changed : is_empty c.changed_paths ≡ false =
      r.4 ∙ (ap (λ e. not (is_some e)) r.3 ∙ edited_some (last_mark edits) ne) in
    take_changed now files c changed ∙ rw (r.0, r.2) refl

-- The agents of a context are those of its triggers.
pub contains-agents_of :
    (a : String) (triggers : List TriggerEvent)
    → HashSet.contains a (agents_of triggers) ≡ any (λ (t : TriggerEvent). agent t == a) triggers
unfolding agents_of HashSet.contains
contains-agents_of a [] = refl
contains-agents_of a (t ∷ ts) =
    HashSet.contains-insert (agent t) a (agents_of ts) ∙ ground (arith, contains-agents_of a ts)
