-- ===== src/Lifecycle.antt =====
-- cf_lifecycle.c and cf_lifecycle.h under components/esp_cf_tunnel: the reducer that decides when
-- the connector is online. A function that mutates `*l` returns the new record.
pub mod Invariant
pub mod Online
pub mod Backoff
mod Runs
use esp_cf_tunnel.Prelude.{
  ℕ, suc, ◌+◌, ◌-◌, ◌*◌, ◌/◌, ◌%◌, ◌^◌, Bool, true, false, ◌||◌, ◌&&◌, not, none, some, ltb, leb,
  if◌then◌else◌, List, [], ◌∷◌,
}
use esp_cf_tunnel.Core.{CfResult, argument, state, u32}

-- `cf_state`.
pub data CfState : Type 0 where
  stopped wait_network wait_time discovery connect tls http2 registering wait_config : CfState
  online backoff auth_failed config_failed stopping : CfState

-- `cf_lifecycle_event`; `other` stands for every value outside the enumeration.
pub data Event : Type 0 where
  discovered connected tls_ready http2_ready registered config_applied : Event
  auth_rejected config_rejected other : Event

-- `cf_lifecycle`.
pub record Lifecycle : Type 0 where
  pub phase : CfState
  pub network_ready : Bool
  pub time_ready : Bool
  pub is_registered : Bool
  pub is_configured : Bool
  pub failures : ℕ  -- uint32_t
  pub retry_at_ms : ℕ  -- uint64_t

abbrev pub u32_max : ℕ
u32_max = 0xffff_ffff

abbrev pub u64_max : ℕ
u64_max = 0xffff_ffff_ffff_ffff

unfoldable pub waiting : Lifecycle → CfState
waiting l =
    if not l.network_ready then wait_network else if not l.time_ready then wait_time else discovery

unfoldable pub terminal : CfState → Bool
terminal stopped = true
terminal stopping = true
terminal auth_failed = true
terminal _ = false

unfoldable pub init : Lifecycle
init = record {
  phase = stopped;
  network_ready = false;
  time_ready = false;
  is_registered = false;
  is_configured = false;
  failures = 0;
  retry_at_ms = 0;
}

start_from : CfState → Lifecycle → Lifecycle × CfResult
unfolding waiting
start_from stopped l =
    let l' = record l {
      is_registered = false;
      is_configured = false;
      failures = 0;
      retry_at_ms = 0;
    } in
    (record l' { phase = waiting l' }, none)
start_from _ l = (l, some state)

unfoldable pub start : Lifecycle → Lifecycle × CfResult
unfolding start_from
start l = start_from l.phase l

-- The state that `cf_lifecycle_environment` leaves when the network or the time is missing.
lose_environment : CfState → Lifecycle → Lifecycle
unfolding waiting
lose_environment backoff l = record l { is_registered = false; is_configured = false }
lose_environment _ l = record l { is_registered = false; is_configured = false; phase = waiting l }

gain_environment : CfState → Lifecycle → Lifecycle
gain_environment wait_network l = record l { phase = discovery }
gain_environment wait_time l = record l { phase = discovery }
gain_environment _ l = l

unfoldable pub environment : Lifecycle → Bool → Bool → Lifecycle
unfolding terminal lose_environment gain_environment
environment l network time_valid =
    let l' = record l { network_ready = network; time_ready = time_valid } in
    if terminal l'.phase
    then l'
    else if not network || not time_valid
    then lose_environment l'.phase l'
    else gain_environment l'.phase l'

-- The states in which the edge has accepted the HTTP/2 connection.
after_http2 : CfState → Bool
after_http2 registering = true
after_http2 wait_config = true
after_http2 online = true
after_http2 config_failed = true
after_http2 _ = false

-- The cases of the `switch` of `cf_lifecycle_advance` that look at one or two states.
on_progress : Event → CfState → Lifecycle → Lifecycle × CfResult
on_progress discovered discovery l = (record l { phase = connect }, none)
on_progress connected connect l = (record l { phase = tls }, none)
on_progress tls_ready tls l = (record l { phase = http2 }, none)
on_progress http2_ready http2 l = (record l { phase = registering }, none)
on_progress registered registering l = (
  record l { is_registered = true; phase = if l.is_configured then online else wait_config },
  none,
)
on_progress registered config_failed l = (
  record l { is_registered = true; phase = if l.is_configured then online else config_failed },
  none,
)
on_progress _ _ l = (l, some state)

-- The `switch` of `cf_lifecycle_advance`.
on_event : Event → Lifecycle → Lifecycle × CfResult
unfolding on_progress after_http2
on_event config_applied l =
    if after_http2 l.phase
    then (
      record l { is_configured = true; phase = if l.is_registered then online else registering },
      none,
    )
    else (l, some state)
on_event auth_rejected l =
    if after_http2 l.phase
    then (record l { is_registered = false; is_configured = false; phase = auth_failed }, none)
    else (l, some state)
on_event config_rejected l =
    if after_http2 l.phase
    then (if not l.is_configured then record l { phase = config_failed } else l, none)
    else (l, some state)
on_event other l = (l, some argument)
on_event e l = on_progress e l.phase l

unfoldable pub advance : Lifecycle → Event → Lifecycle × CfResult
unfolding terminal on_event
advance l e =
    if terminal l.phase || not l.network_ready || not l.time_ready
    then (l, some state)
    else on_event e l

-- `1000u << shift`, at most a minute; `failures` caps the shift at 6.
unfoldable pub ceiling : ℕ → ℕ
ceiling failures =
    let c = u32 (1000 * 2 ^ (if ltb failures 6 then failures else 6)) in
    if ltb 60000 c then 60000 else c

-- The wait in milliseconds: half the ceiling, jitter up to the other half, or the server's hint.
unfoldable pub retry_delay : ℕ → ℕ → ℕ → ℕ
retry_delay failures hint random =
    let half = ceiling failures / 2 in
    let delay = u32 (half + random % (half + 1)) in if ltb delay hint then hint else delay

-- The states in which `cf_lifecycle_retry` refuses.
no_retry : CfState → Bool
no_retry backoff = true
no_retry wait_network = true
no_retry wait_time = true
no_retry s = terminal s

unfoldable pub retry : Lifecycle → ℕ → ℕ → ℕ → Lifecycle × CfResult
unfolding no_retry terminal
retry l now hint random =
    let delay = retry_delay l.failures hint random in
    if no_retry l.phase then (l, some state) else (
      record l {
        retry_at_ms = if ltb (u64_max - delay) now then u64_max else now + delay;
        failures = if ltb l.failures u32_max then l.failures + 1 else l.failures;
        is_registered = false;
        is_configured = false;
        phase = backoff;
      },
      none,
    )

tick_from : CfState → Lifecycle → ℕ → Lifecycle
unfolding waiting
tick_from backoff l now = if leb l.retry_at_ms now then record l { phase = waiting l } else l
tick_from _ l now = l

unfoldable pub tick : Lifecycle → ℕ → Lifecycle
unfolding tick_from
tick l now = tick_from l.phase l now

unfoldable pub stop : Lifecycle → Lifecycle
stop l = record l { is_registered = false; is_configured = false; phase = stopped; retry_at_ms = 0 }

-- A call of the reducer by the application or the connection task.
pub data Call : Type 0 where
  call_start : Call
  call_environment : Bool → Bool → Call
  call_advance : Event → Call
  call_retry : ℕ → ℕ → ℕ → Call
  call_tick : ℕ → Call
  call_stop : Call

unfoldable pub apply : Call → Lifecycle → Lifecycle
unfolding start environment advance retry tick stop
apply call_start l = (start l).0
apply (call_environment n t) l = environment l n t
apply (call_advance e) l = (advance l e).0
apply (call_retry now hint random) l = (retry l now hint random).0
apply (call_tick now) l = tick l now
apply call_stop l = stop l

unfoldable pub run : List Call → Lifecycle → Lifecycle
run [] l = l
run (c ∷ cs) l = run cs (apply c l)
