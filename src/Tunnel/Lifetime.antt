-- ===== src/Tunnel/Lifetime.antt =====
-- The tunnel of esp_cf_tunnel.c from its making on, and what the owner may read of it.
use mathlib.Core.Option.{some-injective}
use mathlib.Core.Path.{subst}
use esp_cf_tunnel.Prelude.{
  either, either_at, ℕ, ◌≡◌, ◌≢◌, inl, inr, refl, Bool, true, false, not, Option, none, some, List,
  All, arith, ◌≤◌,
}
use esp_cf_tunnel.Core.{Bytes}
use esp_cf_tunnel.Lifecycle
use esp_cf_tunnel.Lifecycle.{Lifecycle}
use esp_cf_tunnel.Lifecycle.Invariant.{FlagsFit, init-IsValid}
use esp_cf_tunnel.Config.Policy.{init-IsHeld}
use esp_cf_tunnel.Config.{int32_max}
use esp_cf_tunnel.Tunnel.{Firmware}
use esp_cf_tunnel.Tunnel.Task.{Task}
use esp_cf_tunnel.Tunnel.Loop.{
  EspResult, success, invalid_argument, invalid_state, no_memory, Move, moves,
}
use esp_cf_tunnel.Tunnel.Invariant.{Serving}
use esp_cf_tunnel.Tunnel.Stages.{Stopped, Managed, AreInRange}
use esp_cf_tunnel.Tunnel.Phases.{runs_of}
use esp_cf_tunnel.Tunnel.Managed.{moves-Managed}
use esp_cf_tunnel.Tunnel.Owner
use esp_cf_tunnel.Tunnel.Owner.{Settings, is_unfit, blank_task, deinit, publish}

first_life : (Lifecycle.init.phase ≡ Lifecycle.stopped) × (Lifecycle.init.is_configured ≡ false)
unfolding Lifecycle.init
first_life = (refl, refl)

module _ {A : Type 0} where
  -- What a call that makes a tunnel leaves.
  abbrev Made : EspResult × Option (Task A) → Type 0
  Made (rc, none) = Unit
  Made (rc, some k) = Serving k.tunnel × Stopped k

  init-Made :
      (app : A) (random : Bytes) (allocated : Bool) (c : Settings)
      → Made (Owner.init app random allocated c)
  unfolding Owner.init
  init-Made app random allocated c =
      let k = blank_task app random c in
      let stopped : Stopped k = (
        first_life.0,
        refl,
        record {
          no_socket = refl;
          no_tls = refl;
          no_h2 = refl;
          not_started = refl;
          wiped = refl;
          no_rpc = refl;
          no_config = refl;
          no_queue = refl;
          no_control = refl;
        },
      ) in
      let serving : Serving k.tunnel = record {
        lifecycle = init-IsValid;
        held = init-IsHeld _ _;
        configured = λ h. absurd (ground (arith, h, first_life.1));
        queue_fits = omega arith;
        bytes_fit = omega arith;
        reply_fits = omega arith;
        sent_fits = omega arith;
        fresh = λ h i. refl;
        pending = λ h. absurd (ground (arith, h));
      } in
      let good : Made (success, some k) = (serving, stopped) in
      let nothing : Made (no_memory, none) = tt in
      let refused : Made (invalid_argument, none) = tt in
      either Made (is_unfit c) (invalid_argument, none) _ refused
        (either Made (not allocated) (no_memory, none) (success, some k) nothing good)

module _ {A : Type 0} (firmware : Firmware A) where
  -- From the making of the tunnel on, through any calls of the owner and any rounds, with times that fit 64 bits and
  -- streams with an id, the task is managed. The parts that the streams use keep their bounds. Either the task is
  -- stopped, or it is in one of three stages: without a connection and with nothing of one left, credentials
  -- included; in an attempt with a socket for DNS or with TLS, and never both; or with HTTP/2 over TLS, where the
  -- lifecycle says so and knows of a stop.
  pub lifetime-Managed :
      (app : A) (random : Bytes) (allocated : Bool) (c : Settings) (k : Task A) (ms : List Move)
      → (Owner.init app random allocated c).1 ≡ some k
      → All AreInRange ms
      → Managed (moves firmware ms k)
  lifetime-Managed app random allocated c k ms h n =
      moves-Managed firmware ms k n
        (made (Owner.init app random allocated c) (init-Made app random allocated c) h)
    where
      made : (s : EspResult × Option (Task A)) → Made s → s.1 ≡ some k → Managed k
      made (rc, none) m e = absurd (ground (arith, e))
      made (rc, some k') (v, stopped) e = subst Managed (some-injective k' k e) (v, inl stopped)

module _ {A : Type 0} where
  -- The snapshot of a managed task says online only where the edge has registered the connection, a
  -- configuration is in force, and the version that it shows is one, at most 2^31 - 1.
  publish_online :
      (k : Task A)
      → Managed k
      → (publish k).phase ≡ Lifecycle.online
      → ((publish k).is_registered ≡ true)
        × ((publish k).is_configured ≡ true)
        × ((version : ℕ) × ((publish k).config_version ≡ some version) × (version ≤ int32_max))
  unfolding publish
  publish_online k (v, stage) h =
      let (registered, configured) =
        subst (λ p. FlagsFit p k.tunnel.life.is_registered k.tunnel.life.is_configured) h
          v.lifecycle.flags in
      let valid = v.configured configured in
      (registered, configured, rw (valid) (v.held.versioned valid))

  -- A tunnel is freed only where its task is stopped and nothing of a connection is left.
  deinit-Stopped : (k : Task A) → Managed k → (deinit k).1 ≡ none → Stopped k
  unfolding deinit
  deinit-Stopped k (v, inl stopped) h = stopped
  deinit-Stopped k (v, inr a) h = absurd (
      either_at (λ (s : EspResult × Option (Task A)). s.1 ≢ none) k.is_running
        (invalid_state, some k) (success, none) (λ r e. ground (arith, e))
        (λ r. absurd (ground (arith, r, runs_of k a))) h)
