-- ===== src/Tunnel/Closing.antt =====
-- How a connection of esp_cf_tunnel.c ends: its closing, the retry, and the end of the task.
use mathlib.Core.Path.{subst}
use esp_cf_tunnel.Prelude.{
  either, either_at, ℕ, ◌+◌, ◌≤◌, ◌≡◌, ◌≢◌, ◌⊎◌, inl, inr, refl, sym, ◌∙◌, Bool, true, false, ◌&&◌,
  not, List, [], ◌∷◌, arith, ltb, ◌==◌, if◌then◌else◌,
}
use esp_cf_tunnel.Core.{u32}
use esp_cf_tunnel.Lifecycle
use esp_cf_tunnel.Lifecycle.{CfState, Lifecycle, advance}
use esp_cf_tunnel.Lifecycle.Invariant.{
  IsValid, advance-IsValid, retry-IsValid, stop-IsValid, start-IsValid,
}
use esp_cf_tunnel.Rpc
use esp_cf_tunnel.Rpc.{Rpc}
use esp_cf_tunnel.Config.Policy.{init-IsHeld}
use esp_cf_tunnel.Tunnel.{Tunnel, Firmware}
use esp_cf_tunnel.Tunnel.Task.{Task, is_rejected, close_streams, close_connection, retry}
use esp_cf_tunnel.Tunnel.Transfers.{h2_closed}
use esp_cf_tunnel.Tunnel.Invariant.{Serving}
use esp_cf_tunnel.Tunnel.Late.{is_late, is_stopping}
use esp_cf_tunnel.Tunnel.Loop.{reload, finish}
use esp_cf_tunnel.Tunnel.Stages.{is_idle, Quiet, Stopped, Idle}

-- What a retry starts from: the edge has not said a word yet, or the connection is served.
abbrev pub is_early : CfState → Bool
is_early Lifecycle.discovery = true
is_early Lifecycle.connect = true
is_early Lifecycle.tls = true
is_early Lifecycle.http2 = true
is_early _ = false

abbrev pub Fails : Lifecycle → Rpc → Type 0
Fails l rpc =
    ((is_early l.phase ≡ true) × (rpc ≡ Rpc.init))
    ⊎ ((is_late l.phase ≡ true) × (is_stopping l.phase ≡ false))

module _ {A : Type 0} (firmware : Firmware A) where
  close_streams_keeps :
      (ids : List (ℕ × ℕ)) (t : Tunnel A)
      → ((close_streams firmware ids t).life ≡ t.life)
        × ((close_streams firmware ids t).stopping ≡ t.stopping)
  unfolding close_streams h2_closed
  close_streams_keeps [] t = (refl, refl)
  close_streams_keeps ((id, error) ∷ ids) t =
      let u = h2_closed firmware [] 0 t id error in
      let (life, flag) = close_streams_keeps ids u in
      let (life', flag') =
        either (λ (w : Tunnel A). (w.life ≡ t.life) × (w.stopping ≡ t.stopping))
          (id == t.control_stream) _ _ (refl, refl)
          (either (λ (w : Tunnel A). (w.life ≡ t.life) × (w.stopping ≡ t.stopping))
            (id == t.config_stream) _ _ (refl, refl) (refl, refl)) in
      (life ∙ life', flag ∙ flag')

  pub close_connection_keeps :
      (ids : List (ℕ × ℕ)) (k : Task A)
      → ((close_connection firmware ids k).tunnel.life ≡ k.tunnel.life)
        × ((close_connection firmware ids k).tunnel.stopping ≡ k.tunnel.stopping)
        × ((close_connection firmware ids k).is_running ≡ k.is_running)
  unfolding close_connection
  close_connection_keeps ids k =
      let t : Tunnel A = record k.tunnel { closing = true } in
      let (life, flag) =
        either (λ (w : Tunnel A). (w.life ≡ t.life) × (w.stopping ≡ t.stopping)) k.has_h2
          (close_streams firmware ids t) t (close_streams_keeps ids t) (refl, refl) in
      (life, flag, refl)

  pub close_connection-Quiet :
      (ids : List (ℕ × ℕ)) (k : Task A) → Quiet (close_connection firmware ids k)
  unfolding close_connection
  close_connection-Quiet ids k = record {
    no_socket = refl;
    no_tls = refl;
    no_h2 = refl;
    not_started = refl;
    wiped = refl;
    no_rpc = refl;
    no_config = refl;
    no_queue = refl;
    no_control = refl;
  }

  pub close_connection-Serving :
      (ids : List (ℕ × ℕ)) (k : Task A) (life : Lifecycle)
      → IsValid life
      → life.is_configured ≡ false
      → Serving (record (close_connection firmware ids k).tunnel { life = life })
  unfolding close_connection
  close_connection-Serving ids k life v c = record {
    lifecycle = v;
    held = init-IsHeld _ _;
    configured = λ h. absurd (ground (arith, h, c));
    queue_fits = omega arith;
    bytes_fit = omega arith;
    reply_fits = omega arith;
    sent_fits = omega arith;
    fresh = λ h i. refl;
    pending = λ h. absurd (ground (arith, h));
  }

  -- The same, where the lifecycle stays.
  pub close_connection_serves :
      (ids : List (ℕ × ℕ)) (k : Task A)
      → IsValid k.tunnel.life
      → k.tunnel.life.is_configured ≡ false
      → Serving (close_connection firmware ids k).tunnel
  close_connection_serves ids k v c =
      let c' = (close_connection firmware ids k).tunnel in
      subst (λ l. Serving (record c' { life = l })) (sym (close_connection_keeps ids k).0)
        (close_connection-Serving ids k k.tunnel.life v c)

abbrev Ends : Lifecycle → Type 0
Ends l = IsValid l × (is_idle l.phase ≡ true) × (l.is_configured ≡ false)

attempt_phase :
    (l : Lifecycle) (rpc : Rpc)
    → Fails l rpc
    → (is_early l.phase ≡ true) ⊎ ((is_late l.phase ≡ true) × (is_stopping l.phase ≡ false))
attempt_phase l rpc (inl (early, unused)) = inl early
attempt_phase l rpc (inr late) = inr late

retry_idle :
    (l : Lifecycle) (now hint random : ℕ)
    → (is_early l.phase ≡ true) ⊎ ((is_late l.phase ≡ true) × (is_stopping l.phase ≡ false))
    → (is_idle (Lifecycle.retry l now hint random).0.phase ≡ true)
      × ((Lifecycle.retry l now hint random).0.is_configured ≡ false)
unfolding Lifecycle.retry
retry_idle l now hint random h = ground (arith, h)

reject_idle :
    (l : Lifecycle)
    → IsValid l
    → (is_late l.phase ≡ true) × (is_stopping l.phase ≡ false)
    → (is_idle (advance l Lifecycle.auth_rejected).0.phase ≡ true)
      × ((advance l Lifecycle.auth_rejected).0.is_configured ≡ false)
unfolding advance
reject_idle l v h = ground (arith, v, h)

cap_fits :
    (hint : ℕ)
    → (if ltb Lifecycle.u32_max hint then Lifecycle.u32_max else hint) ≤ Lifecycle.u32_max
cap_fits hint = ground arith

unrejected : (rpc : Rpc) (b : Bool) → rpc ≡ Rpc.init → is_rejected rpc.phase && b ≢ true
unfolding Rpc.init
unrejected rpc b h k = no b (subst (λ r. is_rejected r.phase && b ≡ true) h k)
  where
    no : (b : Bool) → is_rejected Rpc.init.phase && b ≢ true
    no b h = ground (arith, h)

retried :
    (l : Lifecycle) (rpc : Rpc) (now hint random : ℕ)
    → now ≤ Lifecycle.u64_max
    → IsValid l
    → Fails l rpc
    → Ends (
        if is_rejected rpc.phase && not rpc.should_retry
        then (advance l Lifecycle.auth_rejected).0
        else (Lifecycle.retry l now
            (if ltb Lifecycle.u32_max hint then Lifecycle.u32_max else hint)
            random).0)
retried l rpc now hint random n v f =
    either_at Ends (is_rejected rpc.phase && not rpc.should_retry) _ _ (λ d. by_rejection f d)
      (λ d.
        let (idle, unset) = retry_idle l now _ random (attempt_phase l rpc f) in
        (retry-IsValid l now _ random v n (cap_fits hint), idle, unset))
  where
    by_rejection :
        Fails l rpc
        → is_rejected rpc.phase && not rpc.should_retry ≡ true
        → Ends (advance l Lifecycle.auth_rejected).0
    by_rejection (inl (early, unused)) d = absurd (unrejected rpc _ unused d)
    by_rejection (inr late) d =
        let (idle, unset) = reject_idle l v late in
        (advance-IsValid l Lifecycle.auth_rejected v, idle, unset)

pub stop_phase :
    (l : Lifecycle)
    → ((Lifecycle.stop l).phase ≡ Lifecycle.stopped) × ((Lifecycle.stop l).is_configured ≡ false)
unfolding Lifecycle.stop
stop_phase l = (refl, refl)

start_phase :
    (l : Lifecycle)
    → l.phase ≡ Lifecycle.stopped
    → (is_idle (Lifecycle.start l).0.phase ≡ true) × ((Lifecycle.start l).0.is_configured ≡ false)
unfolding Lifecycle.start
start_phase l h = ground (arith, h)

pub started-Ends :
    (l : Lifecycle) → IsValid l → l.phase ≡ Lifecycle.stopped → Ends (Lifecycle.start l).0
started-Ends l v h = let (idle, unset) = start_phase l h in (start-IsValid l v, idle, unset)

module _ {A : Type 0} (firmware : Firmware A) where
  pub retry-Idle :
      (ids : List (ℕ × ℕ)) (now random : ℕ) (k : Task A)
      → now ≤ Lifecycle.u64_max
      → IsValid k.tunnel.life
      → Fails k.tunnel.life k.tunnel.rpc
      → k.tunnel.stopping ≡ false
      → k.is_running ≡ true
      → Serving (retry firmware ids now random k).tunnel × Idle (retry firmware ids now random k)
  unfolding retry
  retry-Idle ids now random k n v f s runs =
      let t = k.tunnel in
      let rejected = is_rejected t.rpc.phase in
      let hint = if rejected then t.rpc.retry_after_ms else 0 in
      let most = if ltb Lifecycle.u32_max hint then Lifecycle.u32_max else hint in
      let life =
        if rejected && not t.rpc.should_retry
        then (advance t.life Lifecycle.auth_rejected).0
        else (Lifecycle.retry t.life now most random).0 in
      let k' : Task A = record k {
        last_failure_ms = now;
        failures = u32 (k.failures + 1);
        tunnel = record t { life = life };
      } in
      let (valid, idle, unset) = retried t.life t.rpc now hint random n v f in
      let (same, flag, running) = close_connection_keeps firmware ids k' in
      (
        close_connection_serves firmware ids k' valid unset,
        (
          subst (λ l. is_idle l.phase ≡ true) (sym same) idle,
          flag ∙ s,
          running ∙ runs,
          close_connection-Quiet firmware ids k',
        ),
      )

  pub finish-Stopped :
      (ids : List (ℕ × ℕ)) (k : Task A)
      → IsValid k.tunnel.life
      → Serving (finish firmware ids k).tunnel × Stopped (finish firmware ids k)
  unfolding finish
  finish-Stopped ids k v =
      let life = (close_connection firmware ids k).tunnel.life in
      let valid =
        stop-IsValid life (subst IsValid (sym (close_connection_keeps firmware ids k).0) v) in
      let (phase, unset) = stop_phase life in
      let quiet = close_connection-Quiet firmware ids k in
      (close_connection-Serving firmware ids k _ valid unset, (phase, refl, quiet))

  pub reload-Idle :
      (ids : List (ℕ × ℕ)) (k : Task A)
      → IsValid k.tunnel.life
      → k.is_running ≡ true
      → Serving (reload firmware ids k).tunnel × Idle (reload firmware ids k)
  unfolding reload
  reload-Idle ids k v runs =
      let life = (close_connection firmware ids k).tunnel.life in
      let stopped =
        stop-IsValid life (subst IsValid (sym (close_connection_keeps firmware ids k).0) v) in
      let (valid, idle, unset) = started-Ends (Lifecycle.stop life) stopped (stop_phase life).0 in
      let quiet = close_connection-Quiet firmware ids k in
      (
        close_connection-Serving firmware ids k _ valid unset,
        (idle, refl, (close_connection_keeps firmware ids k).2 ∙ runs, quiet),
      )
