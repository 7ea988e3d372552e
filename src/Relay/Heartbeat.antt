-- ===== src/Relay/Heartbeat.antt =====
-- crates/relay/src/ws/handler.rs, the heartbeat of a websocket connection: the branch of the tick and
-- the branch of a pong in the loop of `handle_socket`. Times are in milliseconds; a ping that cannot
-- be sent ends the loop as a close does.
mod Tests
use scriptum.Prelude.{
  ℕ, ◌+◌, ◌-◌, ◌≤◌, ◌<◌, Bool, true, false, List, [], ◌∷◌, ◌≡◌, ◌≢◌, refl, arith, ap, lt→ltb,
  if◌then◌else◌, ltb,
}

abbrev pub heartbeat_interval_ms : ℕ
heartbeat_interval_ms = 15_000

abbrev pub heartbeat_timeout_ms : ℕ
heartbeat_timeout_ms = 10_000

pub record Connection : Type 0 where
  pub is_open : Bool
  pub last_pong : ℕ
  pub pings_sent : ℕ

pub data Event : Type 0 where
  tick : ℕ → Event
  pong : ℕ → Event

-- Before the loop.
abbrev pub open_connection : ℕ → Connection
open_connection now = record { is_open = true; last_pong = now; pings_sent = 0 }

pub on_tick : ℕ → Connection → Connection
on_tick now c =
    if ltb heartbeat_timeout_ms (now - c.last_pong)
    then record c { is_open = false }
    else record c { pings_sent = c.pings_sent + 1 }

abbrev pub on_event : Event → Connection → Connection
on_event (tick now) c = on_tick now c
on_event (pong now) c = record c { last_pong = now }

-- The loop ends with the first close.
pub run_loop : List Event → Connection → Connection
unfolding on_tick
run_loop [] c = c
run_loop (e ∷ events) c = if c.is_open then run_loop events (on_event e c) else c

loop_closed : (events : List Event) (c : Connection) → c.is_open ≡ false → run_loop events c ≡ c
unfolding run_loop
loop_closed [] c h = refl
loop_closed (e ∷ events) c h = ground arith

-- The interval exceeds the timeout, so the first tick closes the connection: a client that sends no
-- pong of its own accord is disconnected then, before any ping was sent to it, whatever comes later.
pub first_tick-closes :
    (opened now : ℕ) (events : List Event)
    → opened + heartbeat_interval_ms ≤ now
    → run_loop (tick now ∷ events) (open_connection opened)
      ≡ record (open_connection opened) { is_open = false }
unfolding run_loop on_tick
first_tick-closes opened now events h =
    let late : ltb heartbeat_timeout_ms (now - opened) ≡ true = lt→ltb _ _ (omega arith) in
    rw (late, on_tick)
      (loop_closed events (record (open_connection opened) { is_open = false }) refl)

-- A client that answers a ping within 5 s is disconnected at the next tick.
pub prompt_pong-closes :
    (pinged answered now : ℕ) (events : List Event) (c : Connection)
    → c.is_open ≡ true
    → answered < pinged + 5_000
    → pinged + heartbeat_interval_ms ≤ now
    → (run_loop (pong answered ∷ tick now ∷ events) c).is_open ≡ false
unfolding run_loop on_tick
prompt_pong-closes pinged answered now events c o a h =
    let late : ltb heartbeat_timeout_ms (now - answered) ≡ true = lt→ltb _ _ (omega arith) in
    let answered_at : Connection = record c { last_pong = answered } in
    let ended : run_loop events (record answered_at { is_open = false })
        ≡ record answered_at { is_open = false } =
      loop_closed events (record answered_at { is_open = false }) refl in
    ground (arith, late, ap (λ (x : Connection). x.is_open) ended)
