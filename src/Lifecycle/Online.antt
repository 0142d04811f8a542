-- ===== src/Lifecycle/Online.antt =====
-- The way to `CF_ONLINE` (cf_lifecycle.c): it takes every event, and no more than those.
use mathlib.Core.List.{Memᴰ}
use esp_cf_tunnel.Prelude.{
  ℕ, ◌≡◌, refl, sym, ◌≢◌, ◌⊎◌, inl, inr, Bool, true, false, ◌&&◌, some, none, arith, List, [], ◌∷◌,
  leb, All, ap, if◌then◌else◌,
}
use esp_cf_tunnel.Core.{CfError}
use esp_cf_tunnel.Lifecycle.{
  CfState, wait_network, wait_time, discovery, connect, tls, http2, registering, wait_config,
  online, backoff, auth_failed, config_failed, Event, Lifecycle, discovered, connected, tls_ready,
  http2_ready, registered, config_applied, config_rejected, init, environment, advance, apply, run,
  terminal, Call, call_start, call_environment, call_advance, call_retry, call_tick, call_stop,
}
use esp_cf_tunnel.Lifecycle.Invariant.{IsValid, InRange, run-IsValid}

-- How many steps of the connection a state has behind it.
abbrev pub rank : CfState → ℕ
rank connect = 1
rank tls = 2
rank http2 = 3
rank registering = 4
rank wait_config = 4
rank online = 4
rank config_failed = 4
rank _ = 0

-- Whether the record shows the effect of an event.
abbrev pub shows : Event → Lifecycle → Bool
shows discovered l = leb 1 (rank l.phase)
shows connected l = leb 2 (rank l.phase)
shows tls_ready l = leb 3 (rank l.phase)
shows http2_ready l = leb 4 (rank l.phase)
shows registered l = l.is_registered
shows config_applied l = l.is_configured
shows _ l = false

abbrev pub is_backoff : CfState → Bool
is_backoff backoff = true
is_backoff _ = false

-- Only the event itself brings its effect about.
shows-apply :
    (e : Event) (c : Call) (l : Lifecycle)
    → shows e l ≡ false
    → (c ≡ call_advance e) ⊎ (shows e (apply c l) ≡ false)
unfolding apply
shows-apply e call_start l h = ground arith
shows-apply e (call_environment n t) l h = ground arith
shows-apply e (call_advance d) l h = ground arith
shows-apply e (call_retry now hint random) l h = ground arith
shows-apply e (call_tick now) l h = ground arith
shows-apply e call_stop l h = ground arith

shows-run :
    (e : Event) (cs : List Call) (l : Lifecycle)
    → shows e l ≡ false
    → shows e (run cs l) ≡ true
    → Memᴰ (call_advance e) cs
unfolding run
shows-run e [] l h s = cc
shows-run e (c ∷ cs) l h s = elim (shows-apply e c l h) [
  | inl p ↦ Memᴰ.head (sym p)
  | inr q ↦ Memᴰ.tail (shows-run e cs (apply c l) q s)
]

-- The events that a connection takes.
abbrev pub milestones : List Event
milestones = discovered ∷ connected ∷ tls_ready ∷ http2_ready ∷ registered ∷ config_applied ∷ []

-- Calls from the initial record reach `CF_ONLINE` only if each of the six events was reported to
-- `cf_lifecycle_advance`, the registration and the applied configuration among them.
pub online_needs_milestones :
    (cs : List Call)
    → All InRange cs
    → (run cs init).phase ≡ online
    → All (λ e. Memᴰ (call_advance e) cs) milestones
unfolding init
online_needs_milestones cs r h =
    let v = run-IsValid cs r in
    let late : rank (run cs init).phase ≡ 4 = ap rank h in
    (
      shows-run discovered cs init refl (ground arith),
      (
        shows-run connected cs init refl (ground arith),
        (
          shows-run tls_ready cs init refl (ground arith),
          (
            shows-run http2_ready cs init refl (ground arith),
            (
              shows-run registered cs init refl (ground (arith, v)),
              (shows-run config_applied cs init refl (ground (arith, v)), tt),
            ),
          ),
        ),
      ),
    )

-- The two orders in which registration and configuration can arrive.
abbrev pub last_two : Bool → List Call
last_two true = call_advance registered ∷ call_advance config_applied ∷ []
last_two false = call_advance config_applied ∷ call_advance registered ∷ []

-- From discovery, with the environment ready and nothing registered or configured, the four events
-- of the transport and then registration and configuration, in either order, lead to `CF_ONLINE`.
pub milestones_reach_online :
    (l : Lifecycle) (registration_first : Bool)
    → IsValid l
    → l.phase ≡ discovery
    → (run
        (call_advance discovered
          ∷ call_advance connected
          ∷ call_advance tls_ready
          ∷ call_advance http2_ready
          ∷ last_two registration_first)
        l).phase
      ≡ online
unfolding run apply
milestones_reach_online l true v h = ground arith
milestones_reach_online l false v h = ground arith

-- An event that `cf_lifecycle_advance` refuses leaves the record as it was.
pub advance_refused :
    (l : Lifecycle) (e : Event) {x : CfError} → (advance l e).1 ≡ some x → (advance l e).0 ≡ l
unfolding advance
advance_refused l e h = ground arith

-- A connection that loses the network or the time is neither registered nor configured any more,
-- and its state names what is missing, unless a retry deadline is running or the state is terminal.
pub environment_lost :
    (l : Lifecycle) (network time_valid : Bool)
    → terminal l.phase ≡ false
    → network && time_valid ≡ false
    → let l' = environment l network time_valid in
      (l'.is_registered ≡ false)
      × (l'.is_configured ≡ false)
      × (l'.phase
          ≡ (if is_backoff l.phase then backoff else if network then wait_time else wait_network))
unfolding environment terminal
environment_lost l network time_valid h k = ground arith

-- A rejected token is final: no call but a stop leaves `CF_AUTH_FAILED`.
pub auth_failed_absorbs :
    (l : Lifecycle) (c : Call)
    → l.phase ≡ auth_failed
    → c ≢ call_stop
    → (apply c l).phase ≡ auth_failed
unfolding apply
auth_failed_absorbs l call_stop h n = absurd (n refl)
auth_failed_absorbs l call_start h n = ground arith
auth_failed_absorbs l (call_environment a b) h n = ground arith
auth_failed_absorbs l (call_advance e) h n = ground arith
auth_failed_absorbs l (call_retry now hint random) h n = ground arith
auth_failed_absorbs l (call_tick now) h n = ground arith

-- A rejected update does not revoke a configuration in force: while registered and configured, the
-- rejection is accepted and the record stays online as it was.
pub rejected_update_keeps_config :
    (l : Lifecycle) → IsValid l → l.phase ≡ online → (advance l config_rejected ≡ (l, none))
unfolding advance
rejected_update_keeps_config l v h = ground arith
