-- ===== src/Daemon/Triggers/Tests.antt =====
-- A collector at concrete times.
use scriptum.Prelude.{
  String, Bool, true, Option, none, some, List, [], ◌∷◌, ◌≡◌, ◌↔◌, refl, arith, string_eq,
}
use scriptum.Daemon.Triggers.{
  TriggerCollector, lease_released, default_config, should_commit, manual, GitSyncAction, nothing,
  failed, run_triggered_auto_commit,
}
use scriptum.Daemon.Triggers.Due.{IsDue}
use scriptum.Daemon.Triggers.History.{
  Edit, pushes, marks, run, fresh, idle_timer_commits, should_commit_history, last_mark, pushed,
}
use scriptum.Daemon.Triggers.Failure.{failed_commit_forgotten}
use scriptum.Prelude.Numbers.{Uuid}
use scriptum.Prelude.HashSet
use scriptum.Prelude.Sort.{sort_by, insert_sorted}

abbrev edits : List Edit
edits =
    marks "a.md" 40_000 ∷ pushes (lease_released "agent" "a.md" "Intro") ∷ marks "b.md" 41_000 ∷ []

should_commit_history_example :
    (should_commit 50_000 (run edits (fresh default_config (some 30_000))) ≡ true)
    ↔ IsDue default_config (some 30_000) (last_mark edits) (pushed edits) 50_000
should_commit_history_example = should_commit_history default_config (some 30_000) edits 50_000

idle_timer_commits_example :
    should_commit 71_000 (run edits (fresh default_config (some 30_000))) ≡ true
idle_timer_commits_example =
    idle_timer_commits default_config 30_000 edits 41_000 71_000 (omega arith) refl (omega arith)
      (omega arith)

-- Git refuses.
abbrev refuses : GitSyncAction → Option Uuid
refuses action = none

abbrev any_le : String → String → Bool
any_le a b = true

abbrev changed : TriggerCollector
changed = run edits (fresh default_config (some 30_000))

refused : (run_triggered_auto_commit any_le manual refuses 71_000 changed).1 ≡ failed
unfolding run_triggered_auto_commit run HashSet.insert sort_by insert_sorted
refused = refl

failed_commit_forgotten_example :
    (run_triggered_auto_commit any_le manual refuses 99_000
      (run_triggered_auto_commit any_le manual refuses 71_000 changed).0).1
    ≡ nothing
failed_commit_forgotten_example =
    failed_commit_forgotten any_le refuses manual manual 71_000 99_000 changed refused
