-- ===== src/Lifecycle/Runs.antt =====
-- Concrete runs of the lifecycle, and the theorems at concrete inputs.
use Prim.Native.Nat.{max}
use mathlib.Core.List.{Memᴰ}
use esp_cf_tunnel.Prelude.{
  ◌+◌, ◌*◌, ◌/◌, ◌^◌, ◌≤◌, ◌≡◌, refl, min, true, false, List, [], ◌∷◌, All, arith,
}
use esp_cf_tunnel.Lifecycle.{
  online, u64_max, discovered, connected, tls_ready, http2_ready, registered, config_applied, init,
  retry, retry_delay, ceiling, apply, run, Call, call_start, call_environment, call_advance,
  call_retry,
}
use esp_cf_tunnel.Lifecycle.Invariant.{IsValid, run-IsValid}
use esp_cf_tunnel.Lifecycle.Online.{
  milestones, online_needs_milestones, milestones_reach_online, last_two,
}
use esp_cf_tunnel.Lifecycle.Backoff.{retry_deadline}

abbrev ready : List Call
ready = call_environment true true ∷ call_start ∷ []

abbrev to_online : List Call
to_online =
    call_environment true true
    ∷ call_start
    ∷ call_advance discovered
    ∷ call_advance connected
    ∷ call_advance tls_ready
    ∷ call_advance http2_ready
    ∷ call_advance config_applied
    ∷ call_advance registered
    ∷ []

abbrev to_backoff : List Call
to_backoff =
    call_environment true true ∷ call_start ∷ call_advance discovered ∷ call_retry 5000 0 123 ∷ []

to_online_phase : (run to_online init).phase ≡ online
unfolding run apply init
to_online_phase = refl

backoff_deadline : (run to_backoff init).retry_at_ms ≡ 5623
unfolding run apply init retry_delay ceiling
backoff_deadline = refl

run-IsValid_example : IsValid (run to_backoff init)
run-IsValid_example = run-IsValid to_backoff (omega arith)

online_needs_milestones_example : All (λ e. Memᴰ (call_advance e) to_online) milestones
online_needs_milestones_example = online_needs_milestones to_online (omega arith) to_online_phase

milestones_reach_online_example :
    (run
      (call_advance discovered
        ∷ call_advance connected
        ∷ call_advance tls_ready
        ∷ call_advance http2_ready
        ∷ last_two false)
      (run ready init)).phase
    ≡ online
unfolding run apply init
milestones_reach_online_example =
    milestones_reach_online (run ready init) false (run-IsValid ready (omega arith)) refl

retry_deadline_example :
    let at = (retry (run ready init) 5000 2000 123).0.retry_at_ms in
    (min u64_max (5000 + max 2000 (min 60000 (1000 * 2 ^ (run ready init).failures) / 2)) ≤ at)
    × (at ≤ 5000 + max 2000 (min 60000 (1000 * 2 ^ (run ready init).failures)))
    × (at ≤ u64_max)
unfolding run apply init
retry_deadline_example =
    retry_deadline (run ready init) 5000 2000 123 (omega arith) (omega arith) refl
