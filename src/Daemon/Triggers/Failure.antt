-- ===== src/Daemon/Triggers/Failure.antt =====
-- A commit that git refuses.
use scriptum.Prelude.{
  ◌≡◌, ◌≢◌, refl, sym, ap, ◌∙◌, String, Bool, true, false, not, Option, none, some, inl, inr, List,
  ◌⊎◌, ◌&&◌, if◌then◌else◌, Bool-cases,
}
use scriptum.Prelude.Numbers.{Instant}
use scriptum.Daemon.Triggers.{
  TriggerConfig, TriggerCollector, should_commit, take_commit_context_at, ChangedFile,
  CommitContext, tracked_changed_files, is_empty, GitSyncPolicy, GitSyncAction, disabled, manual,
  auto_rebase, nothing, failed, run_triggered_auto_commit, sync_with,
}
use scriptum.Daemon.Triggers.History.{fresh}
use scriptum.Prelude.Numbers.{Uuid}

take_cases :
    (now : Instant) (c : TriggerCollector) (files : List ChangedFile)
    → (take_commit_context_at now files c ≡ (c, none))
      ⊎ ((take_commit_context_at now files c).0 ≡ fresh c.config (some now))
unfolding take_commit_context_at
take_cases now c files =
    elim (Bool-cases (is_empty c.pending_triggers && is_empty c.changed_paths)) [
      | inl e ↦ rw e (inl refl)
      | inr e ↦ rw e (inr refl)
    ]

sync_with-taken :
    (policy : GitSyncPolicy) (sync : GitSyncAction → Option Uuid)
    (taken : TriggerCollector × Option CommitContext)
    → (sync_with policy sync taken).0 ≡ taken.0
sync_with-taken policy sync (c, none) = refl
sync_with-taken policy sync (c, some context) = refl

-- The guards of a run.
guarded :
    (policy : GitSyncPolicy) (sync : GitSyncAction → Option Uuid) (c after : TriggerCollector)
    (taken : TriggerCollector × Option CommitContext) (x y : Bool)
    → (taken ≡ (c, none)) ⊎ (taken.0 ≡ after)
    → (if x then (c, nothing) else if y then (c, nothing) else sync_with policy sync taken).1
      ≢ nothing
    → (if x then (c, nothing) else if y then (c, nothing) else sync_with policy sync taken).0
      ≡ after
guarded policy sync c after taken true y t ne = absurd (ne refl)
guarded policy sync c after taken false true t ne = absurd (ne refl)
guarded policy sync c after taken false false (inl e) ne = absurd (ne (rw e refl))
guarded policy sync c after taken false false (inr e) ne = sync_with-taken policy sync taken ∙ e

module _ (string_le : String → String → Bool) (sync : GitSyncAction → Option Uuid) where
  -- A run that does something leaves no trigger and no change.
  run_takes :
      (policy : GitSyncPolicy) (now : Instant) (c : TriggerCollector)
      → (run_triggered_auto_commit string_le policy sync now c).1 ≢ nothing
      → (run_triggered_auto_commit string_le policy sync now c).0 ≡ fresh c.config (some now)
  unfolding run_triggered_auto_commit
  run_takes disabled now c ne = absurd (ne refl)
  run_takes manual now c ne =
      let files = tracked_changed_files string_le c in
      guarded manual sync c (fresh c.config (some now)) (take_commit_context_at now files c)
        (not (should_commit now c)) (is_empty files) (take_cases now c files) ne
  run_takes auto_rebase now c ne =
      let files = tracked_changed_files string_le c in
      guarded auto_rebase sync c (fresh c.config (some now)) (take_commit_context_at now files c)
        (not (should_commit now c)) (is_empty files) (take_cases now c files) ne

  -- A collector without triggers and changes commits nothing.
  fresh_nothing :
      (policy : GitSyncPolicy) (now : Instant) (config : TriggerConfig) (at : Option Instant)
      → run_triggered_auto_commit string_le policy sync now (fresh config at)
        ≡ (fresh config at, nothing)
  unfolding run_triggered_auto_commit
  fresh_nothing disabled now config at = refl
  fresh_nothing manual now config at = refl
  fresh_nothing auto_rebase now config at = refl

  -- If git refuses a commit, what was to be committed is forgotten: no later run, at whatever time and
  -- under whatever policy, does anything until there is another change or trigger.
  pub failed_commit_forgotten :
      (policy later_policy : GitSyncPolicy) (now later : Instant) (c : TriggerCollector)
      → (run_triggered_auto_commit string_le policy sync now c).1 ≡ failed
      → (run_triggered_auto_commit string_le later_policy sync later
          (run_triggered_auto_commit string_le policy sync now c).0).1
        ≡ nothing
  failed_commit_forgotten policy later_policy now later c e =
      let taken = run_takes policy now c (λ z. let w : failed ≡ nothing = sym e ∙ z in cc) in
      rw taken (ap (λ r. r.1) (fresh_nothing later_policy later c.config (some now)))
