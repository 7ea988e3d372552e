-- ===== src/Daemon/Outbox/Runs.antt =====
-- crates/daemon/src/outbox/mod.rs: the queue under any sequence of calls.
use scriptum.Prelude.{
  ℕ, ◌+◌, ◌<◌, String, Bool, true, false, some, List, [], ◌∷◌, ◌≡◌, ◌≢◌, ◌⊎◌, refl, sym, ap, ◌∙◌,
  subst, arith, inl, inr, leb, ◌==◌, nat_eq, Bool-cases, Option-cases,
}
use scriptum.Prelude.HashMap
use scriptum.Prelude.HashMap.{get-insert, get-insert_self}
use scriptum.Prelude.Numbers.{Instant}
use scriptum.Daemon.Security.{Cipher, encrypt_at_rest}
use scriptum.Daemon.Outbox.{
  UpdateState, pending, sent, acked, dead, is_pending, is_sent, OutboxUpdate, OutboxQueue, enqueue,
  new_row, set_sent, set_acked, set_failed, mark_sent, mark_acked, mark_failed, max_attempts,
  check_backpressure,
}
use scriptum.Daemon.Outbox.Lifecycle.{
  Step, send, acknowledge, retry, give_up, Moves, Call, enqueue_call, mark_sent_call,
  mark_acked_call, mark_failed_call, Attempts, IsValid, sent-Moves, acked-Moves, failed-Moves,
  is_sent_eq, run_call, run, row_kept, update-IsValid, after,
}

sent-Attempts :
    (r : OutboxUpdate)
    → is_pending r.state ≡ true
    → Attempts r.state r.retry_count
    → r.retry_count < max_attempts
sent-Attempts r h a = from r.state h a
  where
    from :
        (s : UpdateState)
        → is_pending s ≡ true
        → Attempts s r.retry_count
        → r.retry_count < max_attempts
    from pending e a' = a'
    from sent e a' = absurd (cc e)
    from acked e a' = absurd (cc e)
    from dead e a' = absurd (cc e)

failed-Attempts :
    (now : Instant) (r : OutboxUpdate)
    → is_sent r.state ≡ true
    → Attempts r.state r.retry_count
    → Attempts (set_failed now r).state (set_failed now r).retry_count
unfolding set_failed
failed-Attempts now r h a =
    let few : r.retry_count < max_attempts =
      subst (λ s. Attempts s r.retry_count) (is_sent_eq r.state h) a in
    elim (Bool-cases (leb max_attempts (r.retry_count + 1))) [
      | inl last ↦ rw last (ground (arith, few))
      | inr more ↦ rw more (ground arith)
    ]

moved :
    (id : ℕ) (test : OutboxUpdate → Bool) (change : OutboxUpdate → OutboxUpdate) (q : OutboxQueue)
    → ((x : OutboxUpdate) → test x ≡ true → Moves x (change x))
    → (j : ℕ) (r : OutboxUpdate) → HashMap.get j q.rows ≡ some r
    → (r' : OutboxUpdate) × (HashMap.get j (after id test change q).rows ≡ some r') × Moves r r'
moved id test change q good j r h = elim (row_kept id test change q j r h) [
  | inl same ↦ (r, same, inl refl)
  | inr (hit, e) ↦ (change r, e, good r hit)
]

no-Step : {s t : UpdateState} → Step s t → (s ≢ acked) × (s ≢ dead)
no-Step send = (λ q. absurd (cc q), λ q. absurd (cc q))
no-Step acknowledge = (λ q. absurd (cc q), λ q. absurd (cc q))
no-Step retry = (λ q. absurd (cc q), λ q. absurd (cc q))
no-Step give_up = (λ q. absurd (cc q), λ q. absurd (cc q))

stays : (r r' : OutboxUpdate) → (r.state ≡ acked) ⊎ (r.state ≡ dead) → Moves r r' → r' ≡ r
stays r r' t (inl same) = same
stays r r' (inl t) (inr (s, p)) = absurd ((no-Step s).0 t)
stays r r' (inr t) (inr (s, p)) = absurd ((no-Step s).1 t)

module _ (cipher : Cipher) where
  pub enqueue_cases :
      (nonce : List ℕ) (w d c : String) (p : List ℕ) (now : Instant) (q : OutboxQueue)
      → (run_call cipher (enqueue_call nonce w d c p now) q ≡ q)
        ⊎ ((e : List ℕ) × ((check_backpressure w q).is_over_limit ≡ false)
            × (run_call cipher (enqueue_call nonce w d c p now) q ≡ record {
              rows = HashMap.insert (q.last_id + 1) (new_row (q.last_id + 1) w d c e now) q.rows;
              last_id = q.last_id + 1;
            }))
  unfolding run_call enqueue
  enqueue_cases nonce w d c p now q = elim (Bool-cases (check_backpressure w q).is_over_limit) [
    | inl over ↦ inl (rw (over, run_call) refl)
    | inr within ↦ elim (Option-cases (encrypt_at_rest cipher nonce p)) [
      | inl failed ↦ inl (rw (within, run_call) (rw (failed, run_call) refl))
      | inr (e, done) ↦ inr (e, within, rw (within, run_call) (rw (done, run_call) refl))
    ]
  ]

  pub failed_eq :
      (id : ℕ) (now : Instant) (q : OutboxQueue)
      → run_call cipher (mark_failed_call id now) q
        ≡ after id (λ r. is_sent r.state) (set_failed now) q
  unfolding run_call mark_failed
  failed_eq id now q = elim (Option-cases (HashMap.get id q.rows)) [
    | inl gone ↦ rw (gone, run_call, after) refl
    | inr (r, found) ↦ rw (found, run_call) refl
  ]

  -- A call leaves a row as it is, or takes it from pending to sent, or from sent to acked, to pending or
  -- to dead, and keeps its payload either way.
  pub run_call-Moves :
      (c : Call) (q : OutboxQueue) (j : ℕ) (r : OutboxUpdate)
      → IsValid q
      → HashMap.get j q.rows ≡ some r
      → (r' : OutboxUpdate) × (HashMap.get j (run_call cipher c q).rows ≡ some r') × Moves r r'
  unfolding run_call mark_sent mark_acked
  run_call-Moves (enqueue_call nonce w d c p now) q j r v h =
      elim (enqueue_cases nonce w d c p now q) [
        | inl same ↦ (r, ap (λ (x : OutboxQueue). HashMap.get j x.rows) same ∙ h, inl refl)
        | inr (e, within, added) ↦ (
          r,
          ap (λ (x : OutboxQueue). HashMap.get j x.rows) added
              ∙ ground (
                arith,
                h,
                get-insert (q.last_id + 1) j (new_row (q.last_id + 1) w d c e now) q.rows,
                v.fresh (q.last_id + 1) (omega arith),
                ap (λ (k : ℕ). HashMap.get k q.rows),
              ),
          inl refl,
        )
      ]
  run_call-Moves (mark_sent_call id) q j r v h =
      moved id (λ x. is_pending x.state) set_sent q sent-Moves j r h
  run_call-Moves (mark_acked_call id) q j r v h =
      moved id (λ x. is_sent x.state) set_acked q acked-Moves j r h
  run_call-Moves (mark_failed_call id now) q j r v h =
      rw (failed_eq id now q)
        (moved id (λ x. is_sent x.state) (set_failed now) q (failed-Moves now) j r h)

  run_call-IsValid : (c : Call) (q : OutboxQueue) → IsValid q → IsValid (run_call cipher c q)
  unfolding run_call mark_sent mark_acked
  run_call-IsValid (enqueue_call nonce w d c p now) q v = elim (enqueue_cases nonce w d c p now q) [
    | inl same ↦ subst IsValid (sym same) v
    | inr (e, within, added) ↦
        let row = new_row (q.last_id + 1) w d c e now in
        subst IsValid (sym added) (record {
          fresh = λ j l.
              ground (arith, get-insert (q.last_id + 1) j row q.rows, v.fresh j (omega arith));
          attempts = λ j r h. elim (Bool-cases (let n : ℕ = q.last_id + 1 in n == j)) [
            | inl here ↦
                let made : row ≡ r = ground (arith, h, get-insert (q.last_id + 1) j row q.rows) in
                subst (λ (x : OutboxUpdate). Attempts x.state x.retry_count) made (omega arith)
            | inr other ↦
                v.attempts j r (ground (arith, h, get-insert (q.last_id + 1) j row q.rows))
          ];
        })
  ]
  run_call-IsValid (mark_sent_call id) q v =
      update-IsValid id (λ x. is_pending x.state) set_sent q sent-Attempts v
  run_call-IsValid (mark_acked_call id) q v =
      update-IsValid id (λ x. is_sent x.state) set_acked q
        (λ r t a. subst (λ s. Attempts s r.retry_count) (is_sent_eq r.state t) a) v
  run_call-IsValid (mark_failed_call id now) q v =
      rw (failed_eq id now q)
        (update-IsValid id (λ x. is_sent x.state) (set_failed now) q (failed-Attempts now) v)

  -- In every sequence of calls from a valid queue: no id is given twice, a row that is not dead has
  -- failed fewer than eight times, and a dead one exactly eight times.
  pub run-IsValid : (calls : List Call) (q : OutboxQueue) → IsValid q → IsValid (run cipher calls q)
  unfolding run
  run-IsValid [] q v = v
  run-IsValid (c ∷ calls) q v = run-IsValid calls (run_call cipher c q) (run_call-IsValid c q v)

  -- An update that is acknowledged or dead stays as it is, whatever calls follow.
  pub terminal_stays :
      (calls : List Call) (q : OutboxQueue) (j : ℕ) (r : OutboxUpdate)
      → IsValid q
      → HashMap.get j q.rows ≡ some r
      → (r.state ≡ acked) ⊎ (r.state ≡ dead)
      → HashMap.get j (run cipher calls q).rows ≡ some r
  unfolding run
  terminal_stays [] q j r v h t = h
  terminal_stays (c ∷ calls) q j r v h t =
      let (r', after_call, m) = run_call-Moves c q j r v h in
      let kept : r' ≡ r = stays r r' t m in
      terminal_stays calls (run_call cipher c q) j r (run_call-IsValid c q v)
        (after_call ∙ ap some kept) t
