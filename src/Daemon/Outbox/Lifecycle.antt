-- ===== src/Daemon/Outbox/Lifecycle.antt =====
-- crates/daemon/src/outbox/mod.rs: the life of an update in the queue, under any sequence of calls.
use scriptum.Prelude.{
  ℕ, ◌+◌, ◌<◌, String, Bool, true, ◌&&◌, Option, none, some, List, [], ◌∷◌, ◌≡◌, ◌⊎◌, refl, sym, ap,
  ◌∙◌, subst, arith, inl, inr, if◌then◌else◌, leb, ◌==◌, nat_eq, Bool-cases, Option-cases,
}
use scriptum.Prelude.HashMap
use scriptum.Prelude.HashMap.{get-insert, get-insert_self}
use scriptum.Prelude.Numbers.{Instant}
use scriptum.Daemon.Security.{Cipher}
use scriptum.Daemon.Outbox.{
  UpdateState, pending, sent, acked, dead, is_pending, is_sent, OutboxUpdate, OutboxQueue, enqueue,
  update_where, set_sent, set_acked, set_failed, mark_sent, mark_acked, mark_failed, max_attempts,
}

-- The transitions of the code. The head of its file draws the last one from `pending`; `mark_failed` takes
-- it from `sent`.
pub data Step : UpdateState → UpdateState → Type 0 where
  send : Step pending sent
  acknowledge : Step sent acked
  retry : Step sent pending
  give_up : Step sent dead

-- A call leaves a row as it is, or takes a step with it that keeps its payload.
abbrev pub Moves : OutboxUpdate → OutboxUpdate → Type 0
Moves r r' = (r' ≡ r) ⊎ (Step r.state r'.state × (r'.payload ≡ r.payload))

pub data Call : Type 0 where
  enqueue_call : List ℕ → String → String → String → List ℕ → Instant → Call
  mark_sent_call : ℕ → Call
  mark_acked_call : ℕ → Call
  mark_failed_call : ℕ → Instant → Call

-- No row is beyond the sequence.
abbrev pub IsFresh : OutboxQueue → Type 0
IsFresh q = (j : ℕ) → q.last_id < j → HashMap.get j q.rows ≡ none

-- The failures of a row: a dead one has had them all, any other can have one more.
abbrev pub Attempts : UpdateState → ℕ → Type 0
Attempts pending n = n < max_attempts
Attempts sent n = n < max_attempts
Attempts acked n = n < max_attempts
Attempts dead n = n ≡ max_attempts

pub record IsValid (q : OutboxQueue) : Type 0 where
  pub fresh : IsFresh q
  pub attempts :
      (j : ℕ) (r : OutboxUpdate) → HashMap.get j q.rows ≡ some r → Attempts r.state r.retry_count

pub sent-Moves : (r : OutboxUpdate) → is_pending r.state ≡ true → Moves r (set_sent r)
sent-Moves r h = inr (from r.state h, refl)
  where
    from : (s : UpdateState) → is_pending s ≡ true → Step s sent
    from pending e = send
    from sent e = absurd (cc e)
    from acked e = absurd (cc e)
    from dead e = absurd (cc e)

pub is_sent_eq : (s : UpdateState) → is_sent s ≡ true → s ≡ sent
is_sent_eq pending e = absurd (cc e)
is_sent_eq sent e = refl
is_sent_eq acked e = absurd (cc e)
is_sent_eq dead e = absurd (cc e)

pub acked-Moves : (r : OutboxUpdate) → is_sent r.state ≡ true → Moves r (set_acked r)
acked-Moves r h = inr (subst (λ s. Step s acked) (sym (is_sent_eq r.state h)) acknowledge, refl)

pub failed-Moves :
    (now : Instant) (r : OutboxUpdate) → is_sent r.state ≡ true → Moves r (set_failed now r)
unfolding set_failed
failed-Moves now r h = elim (Bool-cases (leb max_attempts (r.retry_count + 1))) [
  | inl last ↦ rw last (inr (subst (λ s. Step s dead) (sym (is_sent_eq r.state h)) give_up, refl))
  | inr more ↦ rw more (inr (subst (λ s. Step s pending) (sym (is_sent_eq r.state h)) retry, refl))
]

module _ (cipher : Cipher) where
  unfoldable pub run_call : Call → OutboxQueue → OutboxQueue
  run_call (enqueue_call nonce w d c p now) q = elim (enqueue cipher nonce w d c p now q) [
    | inl e ↦ q
    | inr done ↦ done.0
  ]
  run_call (mark_sent_call id) q = (mark_sent id q).0
  run_call (mark_acked_call id) q = (mark_acked id q).0
  run_call (mark_failed_call id now) q = elim (mark_failed id now q) [
    | none ↦ q
    | some done ↦ done.0
  ]

  unfoldable pub run : List Call → OutboxQueue → OutboxQueue
  unfolding run_call
  run [] q = q
  run (c ∷ calls) q = run calls (run_call c q)

abbrev changed :
    (OutboxUpdate → Bool)
    → (OutboxUpdate → OutboxUpdate)
    → Option OutboxUpdate
    → Option OutboxUpdate
changed test change none = none
changed test change (some r) = if test r then some (change r) else some r

-- `update_where` on a row.
module _ (id : ℕ) (test : OutboxUpdate → Bool) (change : OutboxUpdate → OutboxUpdate)
    (q : OutboxQueue) where
  abbrev pub after : OutboxQueue
  after = (update_where id test change q).0

  update_row :
      (j : ℕ)
      → HashMap.get j after.rows
        ≡ (if id == j then changed test change (HashMap.get j q.rows) else HashMap.get j q.rows)
  update_row j = elim (Option-cases (HashMap.get id q.rows)) [
    | inl gone ↦ rw (gone, after) (ground (arith, gone, ap (λ (k : ℕ). HashMap.get k q.rows)))
    | inr (r, found) ↦
        rw (found, after)
          (ground
            (arith, found, get-insert id j (change r) q.rows, ap (λ (k : ℕ). HashMap.get k q.rows)))
  ]

  -- What a row can become.
  pub row_kept :
      (j : ℕ) (r : OutboxUpdate)
      → HashMap.get j q.rows ≡ some r
      → (HashMap.get j after.rows ≡ some r)
        ⊎ ((test r ≡ true) × (HashMap.get j after.rows ≡ some (change r)))
  row_kept j r h = elim (Bool-cases (id == j && test r)) [
    | inl hit ↦ inr (ground arith, rw (update_row j) (ground (arith, h)))
    | inr miss ↦ inl (rw (update_row j) (ground (arith, h)))
  ]

  -- What a row was.
  row_was :
      (j : ℕ) (r : OutboxUpdate)
      → HashMap.get j after.rows ≡ some r
      → (HashMap.get j q.rows ≡ some r)
        ⊎ ((old : OutboxUpdate) × (HashMap.get j q.rows ≡ some old)
            × (test old ≡ true)
            × (r ≡ change old))
  row_was j r h = elim (Option-cases (HashMap.get j q.rows)) [
    | inl gone ↦
        absurd (let e : none ≡ some r = sym (update_row j ∙ ground (arith, gone)) ∙ h in cc e)
    | inr (old, found) ↦ elim (Bool-cases (id == j && test old)) [
      | inl hit ↦ inr (old, found, ground arith, ground (arith, found, h, update_row j))
      | inr miss ↦ inl (ground (arith, found, h, update_row j))
    ]
  ]

  same_last : after.last_id ≡ q.last_id
  same_last = elim (Option-cases (HashMap.get id q.rows)) [
    | inl gone ↦ rw (gone, after) refl
    | inr (r, found) ↦ rw (found, after) (ground arith)
  ]

  pub update-IsValid :
      ((r : OutboxUpdate)
        → test r ≡ true
        → Attempts r.state r.retry_count
        → Attempts (change r).state (change r).retry_count)
      → IsValid q
      → IsValid after
  update-IsValid good v = record {
    fresh = λ j l. update_row j ∙ ground (arith, v.fresh j (omega (arith, same_last)));
    attempts = λ j r h. elim (row_was j r h) [
      | inl same ↦ v.attempts j r same
      | inr (old, found, hit, e) ↦
          subst (λ (x : OutboxUpdate). Attempts x.state x.retry_count) (sym e)
            (good old hit (v.attempts j old found))
    ];
  }
