-- ===== src/Tunnel/Search.antt =====
-- The search for the edge in esp_cf_tunnel.c: what a step of it leaves.
use esp_cf_tunnel.Prelude.{
  either, either_at, ℕ, ◌≡◌, ◌⊎◌, inl, inr, refl, sym, ap, Bool, true, false, not, some, List, [],
  ◌==◌, if◌then◌else◌, take, arith,
}
use esp_cf_tunnel.Core.{Bytes, Result, ok, err}
use esp_cf_tunnel.Lifecycle
use esp_cf_tunnel.Lifecycle.{CfState, Lifecycle, advance}
use esp_cf_tunnel.Rpc
use esp_cf_tunnel.Rpc.{Rpc, Credentials}
use esp_cf_tunnel.Dns.Query.{packet_max}
use esp_cf_tunnel.Dns.Records.{Record, parse}
use esp_cf_tunnel.Token.{no_credentials}
use esp_cf_tunnel.Tunnel.{Tunnel, Firmware}
use esp_cf_tunnel.Tunnel.Task
use esp_cf_tunnel.Tunnel.Task.{
  Task, Sending, Received, Discovery, not_yet, no_packet, dns_send, is_sent, on_services,
  on_addresses, on_packet, on_received, start_attempt, is_supplied, discover,
}
use esp_cf_tunnel.Tunnel.Invariant.{Serving, advanced-Serving}
use esp_cf_tunnel.Tunnel.Loop.{is_discovery}
use esp_cf_tunnel.Tunnel.Stages.{Quiet, Idle, Trying, is_attempt}
use esp_cf_tunnel.Tunnel.Queries.{
  IsSearch, discovered_phase, seeking-Failed, sent-Stepped, attempt-Search, rehosted-Serving,
  dns_send-Search, Stepped, Search, Found,
}

module _ {A : Type 0} (firmware : Firmware A) (now random : ℕ) where
  on_services-Stepped :
      (s : Sending) (found : List Record) (k : Task A)
      → Search k
      → Stepped (on_services firmware now random s found k)
  unfolding on_services
  on_services-Stepped s found k v = sent-Stepped _ (dns_send-Search firmware now _ 1 s _ v)

  on_addresses-Stepped :
      (has_context : Bool) (found : List Record) (k : Task A)
      → Search k
      → Stepped (on_addresses firmware now random has_context found k)
  unfolding on_addresses
  on_addresses-Stepped has_context found k (v, s) =
      let phase = discovered_phase k.tunnel.life v.lifecycle s.phased in
      let serving =
        advanced-Serving k.tunnel Lifecycle.discovered (λ e. absurd (ground (arith, e))) v in
      either Stepped (not has_context) _ _ (seeking-Failed k (v, s)) (
        serving,
        inr (
            inl (
              s.has_started,
              record {
                phased = ap is_attempt phase;
                going = s.going;
                runs = s.runs;
                no_h2 = s.no_h2;
                socket = sym (ap is_discovery phase);
                tls = sym (ap (λ p. not (is_discovery p)) phase);
                no_rpc = s.no_rpc;
                no_control = s.no_control;
              },
            )),
      )

  on_packet-Stepped :
      (d : Discovery) (p : Bytes) (k : Task A)
      → Search k
      → Stepped (on_packet firmware now random d p k)
  unfolding on_packet
  on_packet-Stepped d p k v = by_records (parse (take packet_max p) k.dns_name _ k.dns_id)
    where
      by_records :
          (found : Result (List Record))
          → Stepped {A = A} (elim found [
            | err e ↦ (false, record k { records = some [] })
            | ok rs ↦
                if k.dns_stage == 0
                then on_services firmware now random d.second_query rs k
                else on_addresses firmware now random d.has_context rs k
          ])
      by_records (err e) = seeking-Failed k v
      by_records (ok rs) =
          either Stepped (k.dns_stage == 0) _ _ (on_services-Stepped d.second_query rs k v)
            (on_addresses-Stepped d.has_context rs k v)

  on_received-Stepped :
      (d : Discovery) (p : Received) (k : Task A)
      → Search k
      → k.has_socket ≡ true
      → Stepped (on_received firmware now random d p k)
  unfolding on_received
  on_received-Stepped d not_yet k v up = sent-Stepped _ (v, λ h. up)
  on_received-Stepped d no_packet k v up = seeking-Failed k v
  on_received-Stepped d (Task.packet p) k v up = on_packet-Stepped d p k v

  start_attempt-Found :
      (s : Sending) (allocated : Bool) (k : Task A)
      → Serving k.tunnel
      → k.tunnel.life.phase ≡ Lifecycle.discovery
      → k.tunnel.stopping ≡ false
      → k.is_running ≡ true
      → k.has_tls ≡ false
      → k.has_h2 ≡ false
      → k.tunnel.rpc ≡ Rpc.init
      → k.tunnel.control_stream ≡ 0
      → Found (start_attempt firmware now s allocated k)
  unfolding start_attempt
  start_attempt-Found s allocated k v h going runs tls h2 rpc control =
      let search : IsSearch k.tunnel.life.phase k.tunnel.stopping k.is_running true k.has_tls
          k.has_h2 k.tunnel.rpc k.tunnel.control_stream =
        record {
          phased = h;
          going = going;
          runs = runs;
          has_started = refl;
          no_tls = tls;
          no_h2 = h2;
          no_rpc = rpc;
          no_control = control;
        } in
      either Found (not allocated) _ _ ((v, search), λ h. absurd (ground (arith, h)))
        (dns_send-Search firmware now _ 33 s _ (v, search))

  pub discover-Stepped :
      (d : Discovery) (k : Task A)
      → Serving k.tunnel
      → k.tunnel.life.phase ≡ Lifecycle.discovery
      → Idle k ⊎ Trying k
      → Stepped (discover firmware now random d k)
  unfolding discover
  discover-Stepped d k v h (inr t) =
      let (search, up) = attempt-Search k v h t in
      either_at Stepped k.attempt_started _ _ (λ e. on_received-Stepped d d.received k search up)
        (λ e. absurd (ground (arith, e, t.0)))
  discover-Stepped d k v h (inl (idle, going, runs, q)) =
      let t : Tunnel A = record k.tunnel { credentials = d.credentials; hostname = d.hostname } in
      let w = rehosted-Serving k.tunnel d.hostname d.credentials q.no_config v in
      let s =
        start_attempt firmware now d.first_query d.allocated
          (record k { settings_ready = true; tunnel = t }) in
      let quiet : Quiet (record k { tunnel = record t { credentials = no_credentials } }) = record {
        no_socket = q.no_socket;
        no_tls = q.no_tls;
        no_h2 = q.no_h2;
        not_started = q.not_started;
        wiped = refl;
        no_rpc = q.no_rpc;
        no_config = q.no_config;
        no_queue = q.no_queue;
        no_control = q.no_control;
      } in
      let found =
        start_attempt-Found d.first_query d.allocated
          (record k { settings_ready = true; tunnel = t }) w h going runs q.no_tls q.no_h2 q.no_rpc
          q.no_control in
      let wiped : Tunnel A = record t { credentials = no_credentials } in
      let k' : Task A = record k { settings_ready = false; tunnel = wiped } in
      let refused : Stepped (true, k') = (w, inl (idle, going, runs, quiet)) in
      let waits : Stepped (true, k) = (v, inl (idle, going, runs, q)) in
      let next = on_received firmware now random d d.received s.1 in
      let rest : Stepped (if not s.0 then (false, s.1) else next) =
        either_at Stepped (not s.0) (false, s.1) next (λ e. seeking-Failed s.1 found.0)
          (λ e. on_received-Stepped d d.received s.1 found.0 (found.1 (so s.0 e))) in
      either_at Stepped k.attempt_started _ _ (λ e. absurd (ground (arith, e, q.not_started)))
        (λ e.
          either Stepped (not d.locked) _ _ waits
            (either Stepped (not (is_supplied d)) (true, k') _ refused rest))
    where
      so : (b : Bool) → not b ≡ false → b ≡ true
      so b h = ground (arith, h)
