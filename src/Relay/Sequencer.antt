-- ===== src/Relay/Sequencer.antt =====
-- crates/relay/src/sync/sequencer.rs, `UpdateSequencer`: the counter of a document and the atomic
-- steps on it. A task that seeds the counter can be interrupted between two of its steps by tasks
-- that take numbers. An i64 is its 64 bits, in two's complement, so that the counter wraps around. The SQL of the recovery and of the flush is left out.
mod Tests
use scriptum.Prelude.{
  ℕ, ◌+◌, ◌%◌, ◌≤◌, ◌<◌, Bool, true, false, String, List, [], ◌∷◌, ◌≡◌, ◌⊎◌, ◌∙◌, refl, arith,
  if◌then◌else◌, leb, ◌==◌, nat_eq, All, All-map, Bool-cases, inl, inr,
}
use scriptum.Prelude.Numbers.{Uuid}

pub record PendingUpdate : Type 0 where
  pub workspace_id : Uuid
  pub doc_id : Uuid
  pub client_id : Uuid
  pub client_update_id : Uuid
  pub payload : List ℕ

pub record SequencedUpdate : Type 0 where
  pub workspace_id : Uuid
  pub doc_id : Uuid
  pub server_seq : ℕ
  pub client_id : Uuid
  pub client_update_id : Uuid
  pub payload : List ℕ

-- 2 ^ 64 and 2 ^ 63.
abbrev pub i64_wrap : ℕ
i64_wrap = 18446744073709551616

abbrev pub i64_sign : ℕ
i64_sign = 9223372036854775808

abbrev pub wrapping_inc : ℕ → ℕ
wrapping_inc n = (n + 1) % i64_wrap

-- The comparison of signed numbers.
abbrev pub i64_le : ℕ → ℕ → Bool
i64_le a b = leb ((a + i64_sign) % i64_wrap) ((b + i64_sign) % i64_wrap)

-- `fetch_add(1) + 1`: the counter and the number.
pub next_server_seq : ℕ → ℕ × ℕ
next_server_seq counter = (wrapping_inc counter, wrapping_inc counter)

pub sequence_update : PendingUpdate → ℕ → ℕ × SequencedUpdate
unfolding next_server_seq
sequence_update update counter =
    let (counter', server_seq) = next_server_seq counter in
    (
      counter',
      record {
        workspace_id = update.workspace_id;
        doc_id = update.doc_id;
        server_seq = server_seq;
        client_id = update.client_id;
        client_update_id = update.client_update_id;
        payload = update.payload;
      },
    )

-- Where a task stands in `seed_counter`.
pub data Seeding : Type 0 where
  -- before the load
  started : Seeding
  -- at the test of the loop, with `current`
  looping : ℕ → Seeding
  -- before the `compare_exchange`, with `current`
  exchanging : ℕ → Seeding
  returned : Seeding

-- One atomic step of `seed_counter`, on the counter.
pub seed_step : ℕ → Seeding → ℕ → ℕ × Seeding
seed_step max_server_seq started counter = (counter, looping counter)
seed_step max_server_seq (looping current) counter =
    (counter, if i64_le max_server_seq current then returned else exchanging current)
seed_step max_server_seq (exchanging current) counter =
    if counter == current then (max_server_seq, returned) else (counter, looping counter)
seed_step max_server_seq returned counter = (counter, returned)

-- An interleaving: another task takes a number, or the seeding task takes a step.
pub data Event : Type 0 where
  take_number : Event
  seeding_step : Event

-- The counter, the seeding task, and the numbers given, the last one first.
pub record SequencerState : Type 0 where
  pub counter : ℕ
  pub seeding : Seeding
  pub given : List ℕ

pub on_event : ℕ → Event → SequencerState → SequencerState
unfolding next_server_seq seed_step
on_event max_server_seq take_number s =
    let (counter', server_seq) = next_server_seq s.counter in
    record s { counter = counter'; given = server_seq ∷ s.given }
on_event max_server_seq seeding_step s =
    let (counter', seeding') = seed_step max_server_seq s.seeding s.counter in
    record s { counter = counter'; seeding = seeding' }

pub run_events : ℕ → List Event → SequencerState → SequencerState
unfolding on_event
run_events max_server_seq [] s = s
run_events max_server_seq (e ∷ events) s =
    run_events max_server_seq events (on_event max_server_seq e s)

-- What the seeding task has read is a value that the counter has passed, and once it has returned the
-- counter is at the maximum or beyond.
abbrev pub IsBehind : ℕ → Seeding → ℕ → Type 0
IsBehind max_server_seq started counter = Unit
IsBehind max_server_seq (looping current) counter = current ≤ counter
IsBehind max_server_seq (exchanging current) counter =
    (current ≤ counter) × (current < max_server_seq)
IsBehind max_server_seq returned counter = max_server_seq ≤ counter

-- Each number given is greater than those given before it.
abbrev pub IsFalling : List ℕ → Type 0
IsFalling [] = Unit
IsFalling (n ∷ given) = All (λ m. m < n) given × IsFalling given

pub record IsSound (max_server_seq : ℕ) (s : SequencerState) : Type 0 where
  pub behind : IsBehind max_server_seq s.seeding s.counter
  pub below : All (λ n. n ≤ s.counter) s.given
  pub falling : IsFalling s.given

rise-IsBehind :
    (max_server_seq : ℕ) (seeding : Seeding) (c c' : ℕ)
    → c ≤ c'
    → IsBehind max_server_seq seeding c
    → IsBehind max_server_seq seeding c'
rise-IsBehind m started c c' h b = tt
rise-IsBehind m (looping current) c c' h b = omega arith
rise-IsBehind m (exchanging current) c c' h b = (omega arith, omega arith)
rise-IsBehind m returned c c' h b = omega arith

i64_le-leb : (a b : ℕ) → a < i64_sign → b < i64_sign → i64_le a b ≡ leb a b
i64_le-leb a b ha hb =
    let ea : (a + i64_sign) % i64_wrap ≡ a + i64_sign = omega arith in
    let eb : (b + i64_sign) % i64_wrap ≡ b + i64_sign = omega arith in rw (ea, eb) (ground arith)

wrapping_inc-suc : (n : ℕ) → n + 1 < i64_sign → wrapping_inc n ≡ n + 1
wrapping_inc-suc n h = omega arith

-- A step of the seeding task never lowers the counter, nor lifts it beyond the maximum.
seed_step-IsBehind :
    (m : ℕ) (seeding : Seeding) (c : ℕ)
    → m < i64_sign
    → c < i64_sign
    → IsBehind m seeding c
    → (c ≤ (seed_step m seeding c).0)
      × IsBehind m (seed_step m seeding c).1 (seed_step m seeding c).0
      × (((seed_step m seeding c).0 ≡ c) ⊎ ((seed_step m seeding c).0 ≡ m))
unfolding seed_step
seed_step-IsBehind m started c hm hc b = (omega arith, omega arith, inl refl)
seed_step-IsBehind m (looping current) c hm hc b =
    let same = i64_le-leb m current hm (omega arith) in
    elim (Bool-cases (leb m current)) [
      | inl enough ↦ (omega arith, rw (same ∙ enough) (ground (arith, enough)), inl refl)
      | inr less ↦ (omega arith, rw (same ∙ less) (b, ground (arith, less)), inl refl)
    ]
seed_step-IsBehind m (exchanging current) c hm hc b = elim (Bool-cases (c == current)) [
  | inl same ↦ rw same (ground (arith, same), omega arith, inr refl)
  | inr other ↦ rw other (omega arith, omega arith, inl refl)
]
seed_step-IsBehind m returned c hm hc b = (omega arith, b, inl refl)

take-IsSound :
    (m : ℕ) (s : SequencerState) (n : ℕ)
    → n ≡ s.counter + 1
    → IsSound m s
    → IsSound m (record s { counter = n; given = n ∷ s.given })
take-IsSound m s n e v = record {
  behind = rise-IsBehind m s.seeding s.counter n (omega (arith, e)) v.behind;
  below = (
    omega arith,
    All-map (λ k. k ≤ s.counter) (λ k. k ≤ n) (λ k h. omega (arith, e)) s.given v.below,
  );
  falling = (
    All-map (λ k. k ≤ s.counter) (λ k. k < n) (λ k h. omega (arith, e)) s.given v.below,
    v.falling,
  );
}

-- How many numbers are taken.
abbrev pub taken : List Event → ℕ
taken [] = 0
taken (take_number ∷ events) = taken events + 1
taken (seeding_step ∷ events) = taken events

-- However a task that seeds a counter with a maximum is interleaved with tasks that take numbers, as
-- long as the numbers that are taken lead neither the counter nor the maximum beyond the positive
-- 64-bit numbers: each number given is greater than all given before it and at most the counter, which
-- has not wrapped around, and once the seeding task has returned the counter is at the maximum or beyond.
pub run_events-IsSound :
    (m : ℕ) (events : List Event) (s : SequencerState)
    → m + taken events < i64_sign
    → s.counter + taken events < i64_sign
    → IsSound m s
    → IsSound m (run_events m events s) × ((run_events m events s).counter < i64_sign)
unfolding run_events on_event next_server_seq
run_events-IsSound m [] s hm hc v = (v, omega arith)
run_events-IsSound m (take_number ∷ events) s hm hc v =
    let e = wrapping_inc-suc s.counter (omega arith) in
    run_events-IsSound m events (on_event m take_number s) (omega arith) (omega (arith, e))
      (take-IsSound m s (wrapping_inc s.counter) e v)
run_events-IsSound m (seeding_step ∷ events) s hm hc v =
    let step = seed_step-IsBehind m s.seeding s.counter (omega arith) (omega arith) v.behind in
    run_events-IsSound m events (on_event m seeding_step s) hm
      (elim step.2 [ inl e ↦ omega (arith, e) | inr e ↦ omega (arith, e) ])
      (record {
        behind = step.1;
        below =
            All-map (λ n. n ≤ s.counter) (λ n. n ≤ (seed_step m s.seeding s.counter).0)
              (λ n h. omega (arith, step.0)) s.given v.below;
        falling = v.falling;
      })
