-- ===== src/Relay/Heartbeat/Tests.antt =====
-- The heartbeat at concrete times.
use scriptum.Prelude.{true, false, [], ◌∷◌, ◌≡◌, refl, arith}
use scriptum.Relay.Heartbeat.{
  tick, pong, open_connection, run_loop, first_tick-closes, prompt_pong-closes,
}

first_tick-closes_example :
    run_loop (tick 16_000 ∷ pong 16_100 ∷ []) (open_connection 1_000)
    ≡ record { is_open = false; last_pong = 1_000; pings_sent = 0 }
first_tick-closes_example = first_tick-closes 1_000 16_000 (pong 16_100 ∷ []) (omega arith)

prompt_pong-closes_example :
    (run_loop
      (pong 16_200 ∷ tick 31_000 ∷ [])
      (record { is_open = true; last_pong = 9_000; pings_sent = 1 })).is_open
    ≡ false
prompt_pong-closes_example =
    prompt_pong-closes 16_000 16_200 31_000 []
      (record { is_open = true; last_pong = 9_000; pings_sent = 1 }) refl (omega arith)
      (omega arith)
