-- ===== src/Token/Runs.antt =====
-- A concrete token, and the theorems at concrete inputs.
use esp_cf_tunnel.Prelude.{
  ◌≡◌, refl, inl, true, false, Option, none, some, [], ◌∷◌, length, take, replicate, bytes_of,
  if◌then◌else◌, arith,
}
use esp_cf_tunnel.Core.{Bytes}
use esp_cf_tunnel.Base64
use esp_cf_tunnel.Framing.Deliver.{IsFrame}
use esp_cf_tunnel.Dns.Names.{same_text}
use esp_cf_tunnel.Capnp.Builder.{zeros}
use esp_cf_tunnel.Capnp.Builder.Invariant.{length-zeros}
use esp_cf_tunnel.Json.{
  Item, item, Items, no_items, followed, Fields, Cjson, parsed, json_parse, json_keys,
}
use esp_cf_tunnel.Json
use esp_cf_tunnel.Config.{value_of}
use esp_cf_tunnel.Rpc.{Rpc, Options, init, ready, registering, tx_max, register, ascii, printable}
use esp_cf_tunnel.Token.{
  parse, read_token, take_object, take_fields, uuid, uuid_loop, hex, all_hex, is_zero,
}
use esp_cf_tunnel.Token.Usable.{IsUsable, HasGoodOptions, parse-register}

-- An item that is a string.
abbrev text_item : Bytes → Item
text_item s =
    item
      (record {
        type = 16;
        valuestring = some s;
        valuedouble = record { negative = false; whole = 0; has_fraction = false };
        string = none;
      })
      no_items

-- A cJSON that finds the three fields in every text.
abbrev field_named : Bytes → Option Item
field_named name =
    if same_text name (bytes_of "a")
    then some (text_item (bytes_of "0123456789abcdef0123456789ABCDEF"))
    else if same_text name (bytes_of "s")
    then some (text_item (bytes_of "AAECAwQFBgcICQoLDA0ODxAREhMUFRYXGBkaGxwdHh8="))
    else if same_text name (bytes_of "t")
    then some (text_item (bytes_of "01234567-89ab-cdef-0123-456789abcdef"))
    else none

abbrev lib : Cjson
lib = record {
  parse = λ text. parsed (text_item []) (length text);
  is_object = λ i. true;
  is_string = λ i. true;
  is_number = λ i. false;
  is_array = λ i. false;
  is_false = λ i. false;
  get_item = λ i name. field_named name;
  array_size = λ i. 0;
  array_item = λ i n. none;
}

-- The encoding of "{}".
abbrev token : Bytes
token = bytes_of "e30="

abbrev scratch : Bytes
scratch = zeros 769

abbrev options : Options
options = record {
  connector_id = replicate 16 9;
  local_ip = 192 ∷ 168 ∷ 1 ∷ 5 ∷ [];
  version = bytes_of "1.0.0";
  arch = bytes_of "esp32";
  connection_index = 0;
  previous_attempts = 2;
  replace_existing = true;
  features = 3;
}

good_options : HasGoodOptions options
unfolding ascii printable
good_options = record {
  version = refl;
  arch = refl;
  ip = inl refl;
  features = omega arith;
  connector = refl;
}

token_accepted : (parse lib token scratch 769).result ≡ none
unfolding parse read_token take_object take_fields uuid uuid_loop hex all_hex is_zero Base64.decode
    Base64.decode_digits Base64.strip_pad Base64.decode_loop Base64.digit json_parse
    Json.valid_lexemes Json.lexemes Json.has_nul same_text Json.all_space json_keys Json.keys_loop
    value_of
token_accepted = refl

abbrev ready_rpc : Rpc
ready_rpc = record init { phase = ready; have_capability = true; capability = 5 }

parse-register_example :
    let cred = (parse lib token scratch 769).out in
    let reply = register ready_rpc cred options (zeros tx_max) tx_max in
    IsUsable cred
    × (reply.result ≡ none)
    × (reply.rpc ≡ record ready_rpc { phase = registering })
    × IsFrame tx_max (take reply.written reply.buffer)
parse-register_example =
    parse-register lib token scratch 769 ready_rpc options (zeros tx_max) token_accepted refl refl
      good_options (length-zeros tx_max)
