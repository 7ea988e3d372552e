-- ===== src/Daemon/Outbox/Limits.antt =====
-- crates/daemon/src/outbox/mod.rs: backpressure, and the retries of one update.
use scriptum.Prelude.{
  ℕ, ◌+◌, ◌*◌, ◌≤◌, String, Bool, true, ◌&&◌, some, List, [], ◌∷◌, ◌≡◌, ap, arith, inl, inr,
  if◌then◌else◌, ltb, leb, ◌==◌, nat_eq, string_eq, ==→eq, Bool-cases, Option-cases,
}
use scriptum.Prelude.HashMap
use scriptum.Prelude.HashMap.{HashMap, get-insert, get-insert_self}
use scriptum.Prelude.Numbers.{Instant}
use scriptum.Daemon.Security.{Cipher}
use scriptum.Daemon.Outbox.{
  sent, is_pending, is_sent, OutboxUpdate, OutboxQueue, new_row, update_where, set_sent, set_acked,
  set_failed, mark_sent, mark_acked, mark_failed, is_ready, backoff_delay, millisecond,
  max_attempts, check_backpressure, count_rows, counts_for, max_pending_updates,
}
use scriptum.Daemon.Outbox.Lifecycle.{
  Call, enqueue_call, mark_sent_call, mark_acked_call, mark_failed_call, run_call, run, after,
}
use scriptum.Daemon.Outbox.Runs.{enqueue_cases, failed_eq}

abbrev one_if : Bool → ℕ
one_if b = if b then 1 else 0

-- A row more.
count-insert-le :
    (p : OutboxUpdate → Bool) (k : ℕ) (v : OutboxUpdate) (m : HashMap ℕ OutboxUpdate)
    → count_rows p (HashMap.insert k v m) ≤ count_rows p m + one_if (p v)
unfolding count_rows HashMap.insert
count-insert-le p k v [] = ground arith
count-insert-le p k v ((i, w) ∷ m) = ground (arith, count-insert-le p k v m)

-- A row that is replaced by one that counts only if it did.
count-replace-le :
    (p : OutboxUpdate → Bool) (k : ℕ) (v old : OutboxUpdate) (m : HashMap ℕ OutboxUpdate)
    → HashMap.get k m ≡ some old
    → (p v ≡ true → p old ≡ true)
    → count_rows p (HashMap.insert k v m) ≤ count_rows p m
unfolding count_rows HashMap.insert HashMap.get
count-replace-le p k v old [] h l = absurd (cc h)
count-replace-le p k v old ((i, w) ∷ m) h l = elim (Bool-cases (i == k)) [
  | inl same ↦ let e : w ≡ old = ground (arith, h) in rw same (ground (arith, l, ap p e))
  | inr other ↦ rw other (omega (arith, count-replace-le p k v old m (ground (arith, h)) l))
]

module _ (p : OutboxUpdate → Bool) (id : ℕ) (test : OutboxUpdate → Bool)
    (change : OutboxUpdate → OutboxUpdate) (q : OutboxQueue) where
  count-update-le :
      ((r : OutboxUpdate) → test r ≡ true → p (change r) ≡ true → p r ≡ true)
      → count_rows p (after id test change q).rows ≤ count_rows p q.rows
  count-update-le good = elim (Option-cases (HashMap.get id q.rows)) [
    | inl gone ↦ rw (gone, after) (omega arith)
    | inr (r, found) ↦ elim (Bool-cases (test r)) [
      | inl hit ↦
          rw (found, after) (rw hit (count-replace-le p id (change r) r q.rows found (good r hit)))
      | inr miss ↦ rw (found, after) (rw miss (omega arith))
    ]
  ]

-- No workspace has more updates waiting than the limit.
abbrev pub InBounds : OutboxQueue → Type 0
InBounds q = (w : String) → count_rows (counts_for w) q.rows ≤ max_pending_updates

module _ (w : String) where
  sent-counts :
      (r : OutboxUpdate)
      → is_pending r.state ≡ true
      → counts_for w (set_sent r) ≡ true
      → counts_for w r ≡ true
  sent-counts r t h = ground (arith)

  acked-counts :
      (r : OutboxUpdate)
      → is_sent r.state ≡ true
      → counts_for w (set_acked r) ≡ true
      → counts_for w r ≡ true
  acked-counts r t h = ground (arith)

  failed-counts :
      (now : Instant) (r : OutboxUpdate)
      → is_sent r.state ≡ true
      → counts_for w (set_failed now r) ≡ true
      → counts_for w r ≡ true
  unfolding set_failed
  failed-counts now r t h = ground (arith)

module _ (cipher : Cipher) where
  enqueue-InBounds :
      (nonce : List ℕ) (w d c : String) (p : List ℕ) (now : Instant) (q : OutboxQueue)
      → InBounds q
      → InBounds (run_call cipher (enqueue_call nonce w d c p now) q)
  unfolding check_backpressure
  enqueue-InBounds nonce w d c p now q b w' = elim (enqueue_cases cipher nonce w d c p now q) [
    | inl same ↦ rw same (b w')
    | inr (e, within, added) ↦
        let row = new_row (q.last_id + 1) w d c e now in
        rw added (
          ground (
            arith,
            b w',
            within,
            ==→eq w w',
            ap (λ v. count_rows (counts_for v) q.rows),
            count-insert-le (counts_for w') (q.last_id + 1) row q.rows,
          ))
  ]

  run_call-InBounds : (c : Call) (q : OutboxQueue) → InBounds q → InBounds (run_call cipher c q)
  unfolding run_call mark_sent mark_acked
  run_call-InBounds (enqueue_call nonce w d c p now) q b w' =
      enqueue-InBounds nonce w d c p now q b w'
  run_call-InBounds (mark_sent_call id) q b w = omega (
    arith,
    b w,
    count-update-le (counts_for w) id (λ x. is_pending x.state) set_sent q (sent-counts w),
  )
  run_call-InBounds (mark_acked_call id) q b w = omega (
    arith,
    b w,
    count-update-le (counts_for w) id (λ x. is_sent x.state) set_acked q (acked-counts w),
  )
  run_call-InBounds (mark_failed_call id now) q b w = rw (failed_eq cipher id now q) (
      omega (
        arith,
        b w,
        count-update-le (counts_for w) id (λ x. is_sent x.state) (set_failed now) q
            (failed-counts w now),
      ))

  -- Backpressure bounds the queue: in every sequence of calls, from a queue where each workspace has
  -- at most 10,000 updates that wait to be sent or acknowledged, each workspace has at most as many.
  pub run-InBounds :
      (calls : List Call) (q : OutboxQueue) → InBounds q → InBounds (run cipher calls q)
  unfolding run
  run-InBounds [] q b = b
  run-InBounds (c ∷ calls) q b = run-InBounds calls (run_call cipher c q) (run_call-InBounds c q b)

-- A sent update that fails is ready again exactly if this was not its eighth failure and the backoff
-- delay of its attempt has passed.
pub failed-ready :
    (id : ℕ) (now later : Instant) (q : OutboxQueue) (r : OutboxUpdate)
    → HashMap.get id q.rows ≡ some r
    → r.state ≡ sent
    → (done : OutboxQueue) × (r' : OutboxUpdate) × (mark_failed id now q ≡ some (done, true))
      × (HashMap.get id done.rows ≡ some r')
      × (is_ready later r' ≡ (
          ltb (r.retry_count + 1) max_attempts
          && leb (now + backoff_delay r.retry_count * millisecond) later))
unfolding mark_failed set_failed
failed-ready id now later q r h s = (
  record q { rows = HashMap.insert id (set_failed now r) q.rows },
  set_failed now r,
  rw (h, mark_failed) (rw (h, update_where) (ground (arith, s, ap is_sent s))),
  get-insert_self id (set_failed now r) q.rows,
  ground arith,
)
