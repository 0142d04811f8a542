-- ===== src/Lifecycle/Invariant.antt =====
-- What holds of the lifecycle record between two calls (cf_lifecycle.c).
use esp_cf_tunnel.Prelude.{ℕ, ◌≤◌, ◌≡◌, Bool, true, false, arith, List, [], ◌∷◌, All}
use esp_cf_tunnel.Lifecycle.{
  CfState, stopped, wait_network, wait_time, registering, wait_config, online, backoff, auth_failed,
  config_failed, stopping, Event, Lifecycle, u32_max, u64_max, init, start, environment, advance,
  retry, tick, stop, apply, run, Call, call_start, call_environment, call_advance, call_retry,
  call_tick, call_stop,
}
use esp_cf_tunnel.Lifecycle.Backoff.{retry_delay-le-u32_max}

-- What a state says of the two flags.
abbrev pub FlagsFit : CfState → Bool → Bool → Type 0
FlagsFit online r c = (r ≡ true) × (c ≡ true)
FlagsFit wait_config r c = (r ≡ true) × (c ≡ false)
FlagsFit registering r c = r ≡ false
FlagsFit config_failed r c = c ≡ false
FlagsFit stopping r c = Unit
FlagsFit _ r c = (r ≡ false) × (c ≡ false)

-- What a state says of the environment.
abbrev pub EnvironmentFits : CfState → Bool → Bool → Type 0
EnvironmentFits stopped n t = Unit
EnvironmentFits stopping n t = Unit
EnvironmentFits auth_failed n t = Unit
EnvironmentFits backoff n t = Unit
EnvironmentFits wait_network n t = n ≡ false
EnvironmentFits wait_time n t = (n ≡ true) × (t ≡ false)
EnvironmentFits _ n t = (n ≡ true) × (t ≡ true)

pub record IsValid (l : Lifecycle) : Type 0 where
  pub flags : FlagsFit l.phase l.is_registered l.is_configured
  pub ready : EnvironmentFits l.phase l.network_ready l.time_ready
  pub failures_fit : l.failures ≤ u32_max
  pub retry_fits : l.retry_at_ms ≤ u64_max

pub init-IsValid : IsValid init
unfolding init
init-IsValid = ground arith

pub start-IsValid : (l : Lifecycle) → IsValid l → IsValid (start l).0
unfolding start
start-IsValid l v = ground arith

pub environment-IsValid : (l : Lifecycle) (n t : Bool) → IsValid l → IsValid (environment l n t)
unfolding environment
environment-IsValid l n t v = ground arith

pub advance-IsValid : (l : Lifecycle) (e : Event) → IsValid l → IsValid (advance l e).0
unfolding advance
advance-IsValid l e v = ground arith

pub retry-IsValid :
    (l : Lifecycle) (now hint random : ℕ)
    → IsValid l
    → now ≤ u64_max
    → hint ≤ u32_max
    → IsValid (retry l now hint random).0
unfolding retry
retry-IsValid l now hint random v h k =
    ground (arith, retry_delay-le-u32_max l.failures hint random k)

pub tick-IsValid : (l : Lifecycle) (now : ℕ) → IsValid l → IsValid (tick l now)
unfolding tick
tick-IsValid l now v = ground arith

pub stop-IsValid : (l : Lifecycle) → IsValid l → IsValid (stop l)
unfolding stop
stop-IsValid l v = ground arith

-- The arguments fit their C types.
abbrev pub InRange : Call → Type 0
InRange (call_retry now hint random) = (now ≤ u64_max) × (hint ≤ u32_max)
InRange _ = Unit

pub apply-IsValid : (c : Call) (l : Lifecycle) → InRange c → IsValid l → IsValid (apply c l)
unfolding apply
apply-IsValid call_start l h v = start-IsValid l v
apply-IsValid (call_environment n t) l h v = environment-IsValid l n t v
apply-IsValid (call_advance e) l h v = advance-IsValid l e v
apply-IsValid (call_retry now hint random) l h v = retry-IsValid l now hint random v h.0 h.1
apply-IsValid (call_tick now) l h v = tick-IsValid l now v
apply-IsValid call_stop l h v = stop-IsValid l v

run-IsValid_from :
    (cs : List Call) (l : Lifecycle) → All InRange cs → IsValid l → IsValid (run cs l)
unfolding run
run-IsValid_from [] l h v = v
run-IsValid_from (c ∷ cs) l h v = run-IsValid_from cs (apply c l) h.1 (apply-IsValid c l h.0 v)

-- After any calls at all, in any order, the state agrees with both flags and with the environment.
pub run-IsValid : (cs : List Call) → All InRange cs → IsValid (run cs init)
run-IsValid cs h = run-IsValid_from cs init h init-IsValid
