-- ===== src/Rpc/Runs.antt =====
-- Concrete registrations, and the theorems at concrete inputs.
use esp_cf_tunnel.Prelude.{
  ◌≡◌, refl, ◌⊎◌, none, true, [], ◌∷◌, length, take, replicate, arith, bytes_of,
}
use esp_cf_tunnel.Core.{Bytes}
use esp_cf_tunnel.Framing.Deliver.{IsFrame}
use esp_cf_tunnel.Capnp.Builder.{zeros}
use esp_cf_tunnel.Capnp.Builder.Invariant.{length-zeros}
use esp_cf_tunnel.Rpc.{
  Rpc, Credentials, Options, tx_max, is_accepted, ascii, printable, all_hex, is_hex, register, init,
  ready, registering,
}
use esp_cf_tunnel.Rpc.Steps.{IsRefused, IsMade, IsSound}
use esp_cf_tunnel.Rpc.Calls.{
  begins, registers, receives, reply_to, run, reply_to-IsMade, run-IsSound, register_fits,
}

abbrev empty_buffer : Bytes
empty_buffer = zeros tx_max

abbrev credentials : Credentials
credentials = record {
  account_tag = bytes_of "0123456789abcdef0123456789ABCDEF";
  tunnel_id = replicate 16 7;
  tunnel_secret = replicate 32 1;
}

abbrev options : Options
options = record {
  connector_id = replicate 16 9;
  local_ip = 192 ∷ 168 ∷ 1 ∷ 5 ∷ [];
  version = bytes_of "1.0.0";
  arch = bytes_of "esp32";
  connection_index = 0;
  previous_attempts = 2;
  replace_existing = true;
  features = 3;
}

-- The answer to the bootstrap question: the capability 5 is hosted by the edge.
abbrev bootstrap_frame : Bytes
bootstrap_frame =
    0 ∷ 0 ∷ 0 ∷ 0 ∷ 9 ∷ 0 ∷ 0 ∷ 0 ∷ 0 ∷ 0 ∷ 0 ∷ 0 ∷ 1 ∷ 0 ∷ 1 ∷ 0 ∷ 3 ∷ 0 ∷ 0 ∷ 0 ∷ 0 ∷ 0 ∷ 0 ∷ 0
    ∷ 0 ∷ 0 ∷ 0 ∷ 0 ∷ 1 ∷ 0 ∷ 1 ∷ 0 ∷ 0 ∷ 0 ∷ 0 ∷ 0 ∷ 0 ∷ 0 ∷ 0 ∷ 0 ∷ 0 ∷ 0 ∷ 0 ∷ 0 ∷ 0 ∷ 0 ∷ 2 ∷ 0
    ∷ 3 ∷ 0 ∷ 0 ∷ 0 ∷ 0 ∷ 0 ∷ 0 ∷ 0 ∷ 1 ∷ 0 ∷ 0 ∷ 0 ∷ 15 ∷ 0 ∷ 0 ∷ 0 ∷ 4 ∷ 0 ∷ 0 ∷ 0 ∷ 1 ∷ 0 ∷ 0 ∷ 0
    ∷ 1 ∷ 0 ∷ 0 ∷ 0 ∷ 5 ∷ 0 ∷ 0 ∷ 0 ∷ []

buffer_size : length empty_buffer ≡ tx_max
buffer_size = length-zeros tx_max

reply_to-IsMade_example :
    IsRefused init empty_buffer (reply_to begins init empty_buffer 1024)
    ⊎ IsMade init (reply_to begins init empty_buffer 1024)
unfolding init
reply_to-IsMade_example =
    reply_to-IsMade begins init empty_buffer 1024 init_sound tt (λ t. buffer_size)
  where
    init_sound : IsSound init
    init_sound = refl

run-IsSound_example : IsSound (
    run empty_buffer 1024 init
      (begins ∷ receives bootstrap_frame ∷ registers credentials options ∷ []))
run-IsSound_example =
    run-IsSound (begins ∷ receives bootstrap_frame ∷ registers credentials options ∷ [])
      empty_buffer 1024 (tt, (tt, ((refl, refl), tt))) (λ t. buffer_size)

abbrev ready_rpc : Rpc
ready_rpc = record init { phase = ready; have_capability = true; capability = 5 }

good_request : is_accepted credentials options ≡ true
unfolding is_accepted ascii printable all_hex is_hex
good_request = refl

register_fits_example :
    let reply = register ready_rpc credentials options empty_buffer 1024 in
    (reply.result ≡ none)
    × (reply.rpc ≡ record ready_rpc { phase = registering })
    × IsFrame tx_max (take reply.written reply.buffer)
register_fits_example =
    register_fits ready_rpc credentials options empty_buffer 1024 refl refl good_request refl refl
      (omega arith) buffer_size
