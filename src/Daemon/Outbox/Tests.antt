-- ===== src/Daemon/Outbox/Tests.antt =====
-- The outbox at concrete queues.
use scriptum.Prelude.{ℕ, some, List, [], ◌∷◌, ◌≡◌, refl, arith, inl, map, nat_eq}
use scriptum.Prelude.HashMap
use scriptum.Daemon.Security.{encrypt_at_rest}
use scriptum.Daemon.Sample.{plain, nonce, sealed}
use scriptum.Daemon.Outbox.{
  UpdateState, pending, sent, acked, dead, as_str, parse, OutboxUpdate, OutboxQueue, new_row,
  count_rows, enqueue, mark_sent, mark_acked, mark_failed, set_failed, check_backpressure,
  backoff_delay,
}
use scriptum.Daemon.Outbox.Lifecycle.{
  Call, enqueue_call, mark_sent_call, mark_acked_call, mark_failed_call, IsValid, Moves, run_call,
  run,
}
use scriptum.Daemon.Outbox.Runs.{run_call-Moves, run-IsValid, terminal_stays}
use scriptum.Daemon.Outbox.Limits.{InBounds, run-InBounds}

parse-as_str : (s : UpdateState) → parse (as_str s) ≡ some s
unfolding parse as_str
parse-as_str pending = refl
parse-as_str sent = refl
parse-as_str acked = refl
parse-as_str dead = refl

abbrev empty : OutboxQueue
empty = record { rows = []; last_id = 0 }

empty-IsValid : IsValid empty
unfolding HashMap.get
empty-IsValid = record { fresh = λ j l. refl; attempts = λ j r h. cc h }

empty-InBounds : InBounds empty
unfolding count_rows
empty-InBounds w = omega arith

abbrev row : OutboxUpdate
row = new_row 1 "w" "d" "u" (sealed (1 ∷ [])) 5

abbrev queue : OutboxQueue
queue = record { rows = (1, record row { state = sent }) ∷ []; last_id = 1 }

abbrev done_queue : OutboxQueue
done_queue = record { rows = (1, record row { state = acked }) ∷ []; last_id = 1 }

abbrev calls : List Call
calls =
    enqueue_call nonce "w" "d" "u" (1 ∷ []) 5
    ∷ mark_sent_call 1
    ∷ mark_failed_call 1 6
    ∷ mark_sent_call 1
    ∷ mark_acked_call 1
    ∷ []

program : Unit {0}
unfolding run run_call enqueue check_backpressure count_rows encrypt_at_rest mark_sent mark_acked
    mark_failed set_failed backoff_delay HashMap.get HashMap.insert
program = tt

-- An update that fails once and is then acknowledged.
one_retry :
    map
      (λ (e : ℕ × OutboxUpdate). (let p : ℕ × UpdateState = (e.1.retry_count, e.1.state) in p))
      (run plain calls empty).rows
    ≡ (1, acked) ∷ []
unfolding program
one_retry = refl

row_found : HashMap.get 1 queue.rows ≡ some (record row { state = sent })
unfolding HashMap.get
row_found = refl

done_found : HashMap.get 1 done_queue.rows ≡ some (record row { state = acked })
unfolding HashMap.get
done_found = refl

abbrev sent_calls : List Call
sent_calls = enqueue_call nonce "w" "d" "u" (1 ∷ []) 5 ∷ mark_sent_call 1 ∷ []

run-IsValid_example : IsValid (run plain calls empty)
run-IsValid_example = run-IsValid plain calls empty empty-IsValid

run-InBounds_example : InBounds (run plain calls empty)
run-InBounds_example = run-InBounds plain calls empty empty-InBounds

queue-IsValid : IsValid queue
unfolding program
queue-IsValid = run-IsValid plain sent_calls empty empty-IsValid

done-IsValid : IsValid done_queue
unfolding program
done-IsValid =
    run-IsValid plain
      (enqueue_call nonce "w" "d" "u" (1 ∷ []) 5 ∷ mark_sent_call 1 ∷ mark_acked_call 1 ∷ []) empty
      empty-IsValid

run_call-Moves_example :
    (r' : OutboxUpdate) × (HashMap.get 1 (run_call plain (mark_failed_call 1 7) queue).rows
      ≡ some r')
    × Moves (record row { state = sent }) r'
run_call-Moves_example =
    run_call-Moves plain (mark_failed_call 1 7) queue 1 (record row { state = sent }) queue-IsValid
      row_found

terminal_stays_example :
    HashMap.get 1 (run plain (mark_failed_call 1 7 ∷ mark_sent_call 1 ∷ []) done_queue).rows
    ≡ some (record row { state = acked })
terminal_stays_example =
    terminal_stays plain (mark_failed_call 1 7 ∷ mark_sent_call 1 ∷ []) done_queue 1
      (record row { state = acked }) done-IsValid done_found (inl refl)
