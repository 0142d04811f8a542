-- ===== src/Tunnel/TaskRuns.antt =====
-- Concrete rounds of the task, and the theorems on them.
use esp_cf_tunnel.Prelude.{
  ℕ, ◌≤◌, ◌≡◌, ◌⊎◌, inr, refl, true, false, none, some, List, [], ◌∷◌, All, arith, bytes_of,
}
use mathlib.Core.List.{Perm}
use esp_cf_tunnel.Lifecycle
use esp_cf_tunnel.Lifecycle.{Lifecycle}
use esp_cf_tunnel.Rpc
use esp_cf_tunnel.Config.Runs.{lib, hostname, service}
use esp_cf_tunnel.Dns.Records.{Record}
use esp_cf_tunnel.Token.{no_credentials}
use esp_cf_tunnel.Tunnel.Edge.{sort, choose}
use esp_cf_tunnel.Tunnel.Choice.{IsOrdered}
use esp_cf_tunnel.Tunnel.Chosen.{IsChosen, choose-IsChosen}
use esp_cf_tunnel.Tunnel.Task.{Task, retry, Sending, no_packet}
use esp_cf_tunnel.Tunnel.Exchange.{complete}
use esp_cf_tunnel.Tunnel.Loop.{Round, Move, move, moves, round, starts, stops, turns}
use esp_cf_tunnel.Tunnel.Owner
use esp_cf_tunnel.Tunnel.Owner.{Settings, blank_task, publish}
use esp_cf_tunnel.Tunnel.Stages.{Quiet, Stopped, Open, Managed, InRange, AreInRange}
use esp_cf_tunnel.Tunnel.Halting.{stop-Stopped}
use esp_cf_tunnel.Tunnel.Lifetime.{lifetime-Managed}
use esp_cf_tunnel.Tunnel.Rejected.{rejection_holds}
use esp_cf_tunnel.Tunnel.Runs.{firmware, waiting, waiting-Serving}

abbrev edge : ℕ → ℕ → Record
edge priority weight = record {
  ip = [];
  target = [];
  priority = priority;
  weight = weight;
  port = 7844;
  ttl = 60;
}

abbrev edges : List Record
edges = edge 2 1 ∷ edge 1 3 ∷ edge 1 5 ∷ []

choose-IsChosen_example :
    Perm (sort edges) edges
    × IsOrdered (sort edges)
    × IsChosen (sort edges) 1 (choose (sort edges) 1 4)
choose-IsChosen_example =
    choose-IsChosen edges 1 4 (omega arith) (omega arith)
      ((omega arith), ((omega arith), ((omega arith), tt)))

abbrev settings : Settings
settings = record {
  is_complete = true;
  version = bytes_of "1";
  arch = bytes_of "x";
  service = service;
  application_streams = 2;
}

abbrev query_sent : Sending
query_sent = record { is_open = true; connected = true; id = 7; sent = true }

-- A round in which nothing arrives.
abbrev at : ℕ → Round
at now = record {
  now = now;
  random = 9;
  out = [];
  network_ready = true;
  time_valid = true;
  local_ip = 10 ∷ 0 ∷ 0 ∷ 2 ∷ [];
  open_streams = (1, 0) ∷ [];
  discovery = record {
    locked = true;
    supplied = none;
    credentials = no_credentials;
    hostname = hostname;
    terminated = true;
    allocated = true;
    first_query = query_sent;
    second_query = query_sent;
    received = no_packet;
    has_context = true;
  };
  handshake = record { shakes_hands = true; progress = complete; created = true };
  exchange = record {
    reads = [];
    writes = [];
    peer_settings = true;
    goaway = false;
    lib = lib;
    locked = true;
    submitted = none;
    last_output = [];
  };
}

at-InRange : (now : ℕ) → now ≤ Lifecycle.u64_max → InRange (at now)
at-InRange now h = record { time_fits = h; reads_named = tt; writes_named = tt; last_named = tt }

abbrev a_life : List Move
a_life = starts true ∷ turns (at 5) ∷ stops ∷ turns (at 6) ∷ []

a_life-AreInRange : All AreInRange a_life
a_life-AreInRange = (tt, ((at-InRange 5 (omega arith)), (tt, ((at-InRange 6 (omega arith)), tt))))

made : (Owner.init {A = ℕ} 0 [] true settings).1 ≡ some (blank_task 0 [] settings)
unfolding Owner.init
made = refl

lifetime-Managed_example : Managed (moves firmware a_life (blank_task 0 [] settings))
lifetime-Managed_example =
    lifetime-Managed firmware 0 [] true settings (blank_task 0 [] settings) a_life made
      a_life-AreInRange

-- A registered connection whose owner asks for a stop.
abbrev served : Task ℕ
served = record {
  tunnel = record waiting { rpc = record Rpc.init { phase = Rpc.registered } };
  has_socket = false;
  has_tls = true;
  has_h2 = true;
  records = none;
  dns_name = [];
  dns_id = 7;
  dns_stage = 1;
  edge_ip = [];
  settings_ready = true;
  attempt_started = true;
  goaway_sent = false;
  shutdown_ms = 0;
  write_stalled_ms = 0;
  failures = 0;
  last_failure_ms = 0;
  stop_requested = true;
  reload_requested = false;
  is_running = true;
}

served-Managed : Managed served
served-Managed =
    let up : Open served = (
      inr (waiting-Serving.lifecycle, refl, refl, refl),
      record { runs = refl; no_socket = refl; tls = refl; h2 = refl },
    ) in
    (waiting-Serving, inr (inr (inr up)))

stop-Stopped_example : Stopped (
    move firmware
      (turns (at 2100))
      (moves firmware (turns (at 60) ∷ []) (round firmware (at 50) served)))
stop-Stopped_example =
    stop-Stopped firmware served (at 50) (at 2100) (turns (at 60) ∷ []) served-Managed refl refl
      refl (at-InRange 50 (omega arith)) (at-InRange 2100 (omega arith))
      ((at-InRange 60 (omega arith)), tt) (tt, tt) (omega arith)

-- A connection whose registration the edge has rejected for good.
abbrev rejected : Task ℕ
rejected = record served {
  tunnel = record waiting { rpc = record Rpc.init { phase = Rpc.rejected } };
  stop_requested = false;
}

rejected-Managed : Managed rejected
rejected-Managed =
    let up : Open rejected = (
      inr (waiting-Serving.lifecycle, refl, refl, refl),
      record { runs = refl; no_socket = refl; tls = refl; h2 = refl },
    ) in
    (waiting-Serving, inr (inr (inr up)))

rejection_holds_example :
    let k = moves firmware (turns (at 60) ∷ stops ∷ []) (retry firmware [] 55 9 rejected) in
    Quiet k
    × ((k.tunnel.life.phase ≡ Lifecycle.auth_failed) ⊎ (k.tunnel.life.phase ≡ Lifecycle.stopped))
unfolding Rpc.init
rejection_holds_example =
    rejection_holds firmware [] 55 9 rejected (turns (at 60) ∷ stops ∷ []) rejected-Managed refl
      refl refl refl (tt, (tt, tt))
