-- ===== src/Daemon/Outbox/Backoff.antt =====
-- crates/daemon/src/outbox/mod.rs, `backoff_delay`.
use scriptum.Prelude.{ℕ, zero, suc, ◌*◌, ◌≤◌, ◌<◌, min, ◌≡◌, refl, arith}
use scriptum.Daemon.Outbox.{backoff_delay, base_delay_ms, max_delay_ms}

late : (attempt : ℕ) → 7 ≤ attempt → backoff_delay attempt ≡ max_delay_ms
unfolding backoff_delay
late attempt h = let e : min attempt 7 ≡ 7 = omega arith in rw (e, backoff_delay) refl

-- The delay doubles from 250 ms over the first seven attempts and is 30 s from the eighth on; it
-- never falls, and stays between 250 ms and 30 s.
pub backoff_delay-doubles :
    (attempt : ℕ)
    → (attempt < 6 → backoff_delay (suc attempt) ≡ 2 * backoff_delay attempt)
      × (7 ≤ attempt → backoff_delay attempt ≡ max_delay_ms)
      × (base_delay_ms ≤ backoff_delay attempt)
      × (backoff_delay attempt ≤ max_delay_ms)
      × (backoff_delay attempt ≤ backoff_delay (suc attempt))
unfolding backoff_delay
backoff_delay-doubles zero =
    (λ h. refl, λ h. absurd (omega arith), omega arith, omega arith, omega arith)
backoff_delay-doubles (suc zero) =
    (λ h. refl, λ h. absurd (omega arith), omega arith, omega arith, omega arith)
backoff_delay-doubles (suc (suc zero)) =
    (λ h. refl, λ h. absurd (omega arith), omega arith, omega arith, omega arith)
backoff_delay-doubles (suc (suc (suc zero))) =
    (λ h. refl, λ h. absurd (omega arith), omega arith, omega arith, omega arith)
backoff_delay-doubles (suc (suc (suc (suc zero)))) =
    (λ h. refl, λ h. absurd (omega arith), omega arith, omega arith, omega arith)
backoff_delay-doubles (suc (suc (suc (suc (suc zero))))) =
    (λ h. refl, λ h. absurd (omega arith), omega arith, omega arith, omega arith)
backoff_delay-doubles (suc (suc (suc (suc (suc (suc zero)))))) =
    (λ h. absurd (omega arith), λ h. absurd (omega arith), omega arith, omega arith, omega arith)
backoff_delay-doubles (suc (suc (suc (suc (suc (suc (suc n))))))) =
    let now = late (suc (suc (suc (suc (suc (suc (suc n))))))) (omega arith) in
    let next = late (suc (suc (suc (suc (suc (suc (suc (suc n)))))))) (omega arith) in
    (
      λ h. absurd (omega arith),
      λ h. now,
      omega (arith, now),
      omega (arith, now),
      omega (arith, now, next),
    )
