-- ===== src/Daemon/Triggers/Due.antt =====
-- crates/daemon/src/git/triggers.rs, `should_commit`: when a commit is due, as a test and in words.
use scriptum.Prelude.{
  ◌+◌, ◌≤◌, ◌≡◌, ◌≢◌, ◌↔◌, ◌⊎◌, inl, inr, ℕ, In, refl, String, Bool, true, false, ◌&&◌, ◌||◌,
  Option, none, some, List, [], ◌∷◌, length, any, leb, le→leb, string_eq, if◌then◌else◌, arith,
}
use scriptum.Prelude.Numbers.{Instant}
use scriptum.Daemon.Triggers.{
  TriggerEvent, lease_released, comment_resolved, explicit_checkpoint, idle_fallback, TriggerConfig,
  is_empty, is_explicit, elapsed, elapsed_since,
}

-- The test, by what is pending and when the last commit and the last change were.
abbrev pub idle_due : TriggerConfig → Option Instant → Instant → Option Instant → Bool
idle_due config committed now none = false
idle_due config committed now (some edit) =
    elapsed config.idle_fallback_timeout edit now
    && elapsed_since config.min_commit_interval committed now

abbrev pub due_of :
    TriggerConfig → Option Instant → Option Instant → List TriggerEvent → Instant → Bool
due_of config committed edit triggers now =
    if is_empty triggers
    then idle_due config committed now edit
    else any is_explicit triggers
      || (leb config.max_batch_size (length triggers)
          || elapsed_since config.min_commit_interval committed now)

-- The time has passed since then, if there was a then.
abbrev pub Passed : ℕ → Option Instant → Instant → Type 0
Passed interval none now = Unit
Passed interval (some since) now = since + interval ≤ now

abbrev pub HasCheckpoint : List TriggerEvent → Type 0
HasCheckpoint triggers =
    (agent : String) × (message : Option String) × In (explicit_checkpoint agent message) triggers

-- When a commit is due.
abbrev pub IsDue :
    TriggerConfig → Option Instant → Option Instant → List TriggerEvent → Instant → Type 0
IsDue config committed edited triggers now =
    HasCheckpoint triggers
    ⊎ (((triggers ≢ [])
          × ((config.max_batch_size ≤ length triggers)
              ⊎ Passed config.min_commit_interval committed now))
        ⊎ ((triggers ≡ [])
            × ((edit : Instant) × (edited ≡ some edit)
                × (edit + config.idle_fallback_timeout ≤ now)
                × Passed config.min_commit_interval committed now)))

elapsed-Passed :
    (interval : ℕ) (since : Option Instant) (now : Instant)
    → (elapsed_since interval since now ≡ true) ↔ Passed interval since now
elapsed-Passed interval none now = (λ e. tt, λ p. refl)
elapsed-Passed interval (some since) now = (λ e. ground arith, λ p. ground arith)

any-HasCheckpoint :
    (triggers : List TriggerEvent) → (any is_explicit triggers ≡ true) ↔ HasCheckpoint triggers
any-HasCheckpoint triggers = (found triggers, present triggers)
  where
    found : (ts : List TriggerEvent) → any is_explicit ts ≡ true → HasCheckpoint ts
    found [] e = cc
    found (explicit_checkpoint a m ∷ ts) e = (a, m, inl refl)
    found (lease_released a p h ∷ ts) e = let (b, m, i) = found ts e in (b, m, inr i)
    found (comment_resolved a p h ∷ ts) e = let (b, m, i) = found ts e in (b, m, inr i)
    found (idle_fallback ∷ ts) e = let (b, m, i) = found ts e in (b, m, inr i)

    present : (ts : List TriggerEvent) → HasCheckpoint ts → any is_explicit ts ≡ true
    present [] (a, m, i) = absurd i
    present (t ∷ ts) (a, m, inl e) = rw (← e) refl
    present (t ∷ ts) (a, m, inr i) = rw (present ts (a, m, i)) (ground arith)

idle_due-IsDue :
    (config : TriggerConfig) (committed edited : Option Instant) (now : Instant)
    → (idle_due config committed now edited ≡ true) ↔ IsDue config committed edited [] now
idle_due-IsDue config committed none now = (
  λ e. cc,
  λ h. elim h [
    | inl (a, m, i) ↦ absurd i
    | inr (inl (ne, rest)) ↦ absurd (ne refl)
    | inr (inr (none_pushed, (edit, e, le, passed))) ↦ cc
  ],
)
idle_due-IsDue config committed (some edit) now =
    let p = elapsed-Passed config.min_commit_interval committed now in
    (
      λ e. inr (inr (refl, (edit, refl, ground (arith, e), p.0 (ground (arith, e))))),
      λ h. elim h [
        | inl (a, m, i) ↦ absurd i
        | inr (inl (ne, rest)) ↦ absurd (ne refl)
        | inr (inr (none_pushed, (other, e, le, passed))) ↦
            let same : edit ≡ other = cc in rw (p.1 passed) (ground (arith, same, le))
      ],
    )

three_cases : (a b c : Bool) → (a || (b || c)) ≡ true → (a ≡ true) ⊎ ((b ≡ true) ⊎ (c ≡ true))
three_cases true b c e = inl refl
three_cases false true c e = inr (inl refl)
three_cases false false c e = inr (inr e)

one_of_three : (a b c : Bool) → (a ≡ true) ⊎ ((b ≡ true) ⊎ (c ≡ true)) → (a || (b || c)) ≡ true
one_of_three a b c h = ground arith

pub due_of-IsDue :
    (config : TriggerConfig) (committed edited : Option Instant) (triggers : List TriggerEvent)
    (now : Instant)
    → (due_of config committed edited triggers now ≡ true)
      ↔ IsDue config committed edited triggers now
due_of-IsDue config committed edited [] now = idle_due-IsDue config committed edited now
due_of-IsDue config committed edited (t ∷ ts) now =
    let p = elapsed-Passed config.min_commit_interval committed now in
    let x = any-HasCheckpoint (t ∷ ts) in
    let full = leb config.max_batch_size (length (t ∷ ts)) in
    let spaced = elapsed_since config.min_commit_interval committed now in
    (
      λ e. elim (three_cases (any is_explicit (t ∷ ts)) full spaced e) [
        | inl asked ↦ inl (x.0 asked)
        | inr (inl fills) ↦ inr (inl ((λ f. cc), inl (ground (arith, fills))))
        | inr (inr passed) ↦ inr (inl ((λ f. cc), inr (p.0 passed)))
      ],
      λ h. one_of_three (any is_explicit (t ∷ ts)) full spaced (elim h [
        | inl asked ↦ inl (x.1 asked)
        | inr (inl (ne, inl fills)) ↦ inr (inl (le→leb _ _ fills))
        | inr (inl (ne, inr passed)) ↦ inr (inr (p.1 passed))
        | inr (inr (none_pushed, rest)) ↦ cc
      ]),
    )
