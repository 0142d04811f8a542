-- ===== src/Tunnel/Phases.antt =====
-- What the environment and the clock do to the stages of the task in esp_cf_tunnel.c.
use esp_cf_tunnel.Prelude.{
  ℕ, ◌≡◌, ◌≢◌, inl, inr, refl, ap, ◌∙◌, Bool, true, false, ◌||◌, not, arith,
}
use esp_cf_tunnel.Core.{Bytes}
use esp_cf_tunnel.Lifecycle
use esp_cf_tunnel.Lifecycle.{CfState, Lifecycle, environment, tick}
use esp_cf_tunnel.Lifecycle.Invariant.{IsValid}
use esp_cf_tunnel.Tunnel.{Tunnel}
use esp_cf_tunnel.Tunnel.Task.{Task}
use esp_cf_tunnel.Tunnel.Invariant.{Serving}
use esp_cf_tunnel.Tunnel.Late.{is_late, is_stopping}
use esp_cf_tunnel.Tunnel.Links.{Linked}
use esp_cf_tunnel.Tunnel.Loop.{is_discovery, is_connecting}
use esp_cf_tunnel.Tunnel.Stages.{is_idle, is_attempt, Active}

-- Neither stopped nor stopping.
abbrev pub is_alive : CfState → Bool
is_alive Lifecycle.stopped = false
is_alive Lifecycle.stopping = false
is_alive _ = true

-- The states that wait for the environment or the clock.
abbrev pub is_waiting : CfState → Bool
is_waiting Lifecycle.wait_network = true
is_waiting Lifecycle.wait_time = true
is_waiting Lifecycle.backoff = true
is_waiting _ = false

pub idle_stays :
    (l : Lifecycle) (network time_valid : Bool) (now : ℕ)
    → is_idle l.phase ≡ true
    → is_idle (tick (environment l network time_valid) now).phase ≡ true
unfolding environment tick
idle_stays l network time_valid now h = ground (arith, h)

pub lost_idle :
    (l : Lifecycle) (network time_valid : Bool) (now : ℕ)
    → IsValid l
    → not network || not time_valid ≡ true
    → is_alive l.phase ≡ true
    → (is_idle (tick (environment l network time_valid) now).phase ≡ true)
      × ((tick (environment l network time_valid) now).is_configured ≡ false)
unfolding environment tick
lost_idle l network time_valid now v h k = ground (arith, v, h, k)

pub kept_phase :
    (l : Lifecycle) (network time_valid : Bool) (now : ℕ)
    → not network || not time_valid ≡ false
    → is_waiting l.phase ≡ false
    → (tick (environment l network time_valid) now).phase ≡ l.phase
unfolding environment tick
kept_phase l network time_valid now h k = ground (arith, h, k)

pub configured_earlier :
    (l : Lifecycle) (network time_valid : Bool) (now : ℕ)
    → (tick (environment l network time_valid) now).is_configured ≡ true
    → l.is_configured ≡ true
unfolding environment tick
configured_earlier l network time_valid now h = ground (arith, h)

pub attempt_waiting : (p : CfState) → is_attempt p ≡ true → is_waiting p ≡ false
attempt_waiting p h = ground (arith, h)

pub late_waiting : (p : CfState) → is_late p ≡ true → is_waiting p ≡ false
late_waiting p h = ground (arith, h)

idle_alive : (p : CfState) → is_idle p ≡ true → is_alive p ≡ true
idle_alive p h = ground (arith, h)

attempt_alive : (p : CfState) → is_attempt p ≡ true → is_alive p ≡ true
attempt_alive p h = ground (arith, h)

late_alive : (p : CfState) → is_late p ≡ true → is_stopping p ≡ false → is_alive p ≡ true
late_alive p h k = ground (arith, h, k)

pub in_discovery : (p : CfState) → is_discovery p ≡ true → p ≡ Lifecycle.discovery
in_discovery p h = ground (arith, h)

pub not_connecting : (p : CfState) → is_idle p ≡ true → is_connecting p ≢ true
not_connecting p h k = ground (arith, h, k)

pub late_served :
    (p : CfState) → is_late p ≡ true → (is_discovery p ≡ false) × (is_connecting p ≡ false)
late_served p h = ground (arith, h)

module _ {A : Type 0} where
  pub runs_of : (k : Task A) → Active k → k.is_running ≡ true
  runs_of k (inl (idle, going, runs, q)) = runs
  runs_of k (inr (inl (started, t))) = t.runs
  runs_of k (inr (inr (linked, up))) = up.runs

  pub alive_of :
      (k : Task A) → Active k → k.tunnel.stopping ≡ false → is_alive k.tunnel.life.phase ≡ true
  alive_of k (inl (idle, going, runs, q)) s = idle_alive k.tunnel.life.phase idle
  alive_of k (inr (inl (started, t))) s = attempt_alive k.tunnel.life.phase t.phased
  alive_of k (inr (inr (inl early, up))) s = ap is_alive early.phase
  alive_of k (inr (inr (inr (valid, late, flag, phase), up))) s =
      late_alive k.tunnel.life.phase late (phase ∙ s)

  pub relived-Serving :
      (t : Tunnel A) (l : Lifecycle) (ip : Bytes)
      → IsValid l
      → (l.is_configured ≡ true → t.life.is_configured ≡ true)
      → Serving t
      → Serving (record t { life = l; local_ip = ip })
  relived-Serving t l ip valid before v = record {
    lifecycle = valid;
    held = v.held;
    configured = λ h. v.configured (before h);
    queue_fits = v.queue_fits;
    bytes_fit = v.bytes_fit;
    reply_fits = v.reply_fits;
    sent_fits = v.sent_fits;
    fresh = v.fresh;
    pending = v.pending;
  }

  -- The stopping state asks nothing of the flags.
  pub stopping-Linked :
      (t : Tunnel A)
      → Serving t
      → let t' : Tunnel A = record t {
        stopping = true;
        life = record t.life { phase = Lifecycle.stopping };
      } in
        Serving t' × Linked true t'
  stopping-Linked t v =
      let valid : IsValid (record t.life { phase = Lifecycle.stopping }) = record {
        flags = tt;
        ready = tt;
        failures_fit = v.lifecycle.failures_fit;
        retry_fits = v.lifecycle.retry_fits;
      } in
      (relived-Serving t _ t.local_ip valid (λ h. h) v, inr (valid, refl, refl, refl))
