-- ===== src/Relay/Sequencer/Tests.antt =====
-- The sequencer under a concrete interleaving.
use scriptum.Prelude.{◌-◌, ◌<◌, arith, [], ◌∷◌, ◌≡◌, refl}
use scriptum.Relay.Sequencer.{
  SequencerState, started, returned, take_number, seeding_step, IsSound, run_events, i64_sign,
  run_events-IsSound,
}

abbrev fresh : SequencerState
fresh = record { counter = 0; seeding = started; given = [] }

-- The first exchange fails, since a number was taken after the load.
interleaved :
    run_events 7
      (take_number ∷ seeding_step ∷ take_number ∷ seeding_step ∷ seeding_step ∷ seeding_step
        ∷ seeding_step ∷ take_number ∷ [])
      fresh
    ≡ record { counter = 8; seeding = returned; given = 8 ∷ 2 ∷ 1 ∷ [] }
unfolding run_events
interleaved = refl

-- At the largest number the counter wraps around to the least.
wrapped :
    run_events 0 (take_number ∷ []) (record fresh { counter = i64_sign - 1 })
    ≡ record { counter = i64_sign; seeding = started; given = i64_sign ∷ [] }
unfolding run_events
wrapped = refl

run_events-IsSound_example :
    let events = seeding_step ∷ take_number ∷ seeding_step ∷ seeding_step ∷ [] in
    IsSound 7 (run_events 7 events fresh) × ((run_events 7 events fresh).counter < i64_sign)
run_events-IsSound_example =
    run_events-IsSound 7 (seeding_step ∷ take_number ∷ seeding_step ∷ seeding_step ∷ []) fresh
      (omega arith) (omega arith) (record { behind = tt; below = tt; falling = tt })
