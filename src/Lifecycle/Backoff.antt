-- ===== src/Lifecycle/Backoff.antt =====
-- The retry delay of `cf_lifecycle_retry` (cf_lifecycle.c).
use Prim.Native.Nat.{max}
use native.Mathlib.Nat.{pow-le-pow_right, mod-lt}
use esp_cf_tunnel.Prelude.{ℕ, zero, suc, ◌+◌, ◌*◌, ◌/◌, ◌^◌, ◌≤◌, min, ◌≡◌, refl, none, arith}
use esp_cf_tunnel.Lifecycle.{
  backoff, Lifecycle, u32_max, u64_max, ceiling, retry_delay, retry, apply, Call, call_start,
  call_environment, call_advance, call_retry, call_tick, call_stop,
}

large_power : (k : ℕ) → 64 ≤ 2 ^ (k + 6)
large_power k = pow-le-pow_right (omega arith) {i = 6} {j = k + 6} (omega arith)

-- The ceiling doubles with each failure, from a second up to a minute, and the shift never
-- overflows the 32-bit word.
pub ceiling-eq-min : (failures : ℕ) → ceiling failures ≡ min 60000 (1000 * 2 ^ failures)
unfolding ceiling
ceiling-eq-min zero = refl
ceiling-eq-min (suc zero) = refl
ceiling-eq-min (suc (suc zero)) = refl
ceiling-eq-min (suc (suc (suc zero))) = refl
ceiling-eq-min (suc (suc (suc (suc zero)))) = refl
ceiling-eq-min (suc (suc (suc (suc (suc zero))))) = refl
ceiling-eq-min (suc (suc (suc (suc (suc (suc k)))))) = ground (arith, large_power k)

ceiling_bounds : (failures : ℕ) → (1000 ≤ ceiling failures) × (ceiling failures ≤ 60000)
ceiling_bounds failures = omega (
  arith,
  ceiling-eq-min failures,
  pow-le-pow_right {n = 2} (omega arith) {i = 0} {j = failures} (omega arith),
)

pub retry_delay_bounds :
    (failures hint random : ℕ)
    → (max hint (ceiling failures / 2) ≤ retry_delay failures hint random)
      × (retry_delay failures hint random ≤ max hint (ceiling failures))
unfolding retry_delay
retry_delay_bounds failures hint random =
    ground
      (arith, ceiling_bounds failures, mod-lt random {m = ceiling failures / 2 + 1} (omega arith))

-- The wait fits a 32-bit word, so the deadline saturates instead of wrapping.
pub retry_delay-le-u32_max :
    (failures hint random : ℕ) → hint ≤ u32_max → retry_delay failures hint random ≤ u32_max
retry_delay-le-u32_max failures hint random h =
    omega (arith, retry_delay_bounds failures hint random, ceiling_bounds failures)

-- An accepted retry waits at least the server's hint and at least half the doubled ceiling, and no
-- longer than the larger of hint and ceiling; only the end of the 64-bit clock cuts the wait short.
pub retry_deadline :
    (l : Lifecycle) (now hint random : ℕ)
    → now ≤ u64_max
    → hint ≤ u32_max
    → (retry l now hint random).1 ≡ none
    → let c = min 60000 (1000 * 2 ^ l.failures) in
      let at = (retry l now hint random).0.retry_at_ms in
      (min u64_max (now + max hint (c / 2)) ≤ at) × (at ≤ now + max hint c) × (at ≤ u64_max)
unfolding retry
retry_deadline l now hint random hn hh accepted = ground (
  arith,
  ceiling-eq-min l.failures,
  retry_delay_bounds l.failures hint random,
  retry_delay-le-u32_max l.failures hint random hh,
)

-- A call that can end the backoff of `l`.
abbrev pub EndsBackoff : Lifecycle → Call → Type 0
EndsBackoff l (call_tick now) = l.retry_at_ms ≤ now
EndsBackoff l call_stop = Unit
EndsBackoff l _ = ⊥

-- In backoff the state and the deadline survive every call but a stop and a tick at or after the
-- deadline: network flaps, events and further retries do not move them.
backoff_holds :
    (l : Lifecycle) (c : Call)
    → l.phase ≡ backoff
    → ¬ EndsBackoff l c
    → ((apply c l).phase ≡ backoff) × ((apply c l).retry_at_ms ≡ l.retry_at_ms)
unfolding apply
backoff_holds l call_start b h = ground arith
backoff_holds l (call_environment n t) b h = ground arith
backoff_holds l (call_advance e) b h = ground arith
backoff_holds l (call_retry now hint random) b h = ground arith
backoff_holds l (call_tick now) b h = ground arith
backoff_holds l call_stop b h = absurd (h tt)
