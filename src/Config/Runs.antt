-- ===== src/Config/Runs.antt =====
-- Concrete updates of the remote configuration, and the theorems on them.
use esp_cf_tunnel.Prelude.{
  ℕ, ◌≡◌, refl, true, false, Option, none, some, [], ◌∷◌, length, bytes_of, if◌then◌else◌, ◌==◌,
  ◌||◌,
}
use esp_cf_tunnel.Core.{Bytes}
use esp_cf_tunnel.Core
use esp_cf_tunnel.Dns.Names.{same_text}
use esp_cf_tunnel.Json.{Item, item, no_items, Cjson, parsed, json_parse, json_keys}
use esp_cf_tunnel.Json
use esp_cf_tunnel.Config.{
  RemoteConfig, applied, init, apply, apply_root, apply_config, apply_rules, publish, valid_policy,
  hostname_valid, hostname_loop, is_version, same_string, empty_object, value_of, run, response,
  response_text, decimal,
}
use esp_cf_tunnel.Config.Hostnames.{is_hostname, hostname_valid-is_hostname}
use esp_cf_tunnel.Config.Policy.{IsHeld, Follows, NotOlder, init-IsHeld, apply-Follows, run-IsHeld}

abbrev pub hostname : Bytes
hostname = bytes_of "a-1.io"

abbrev pub service : Bytes
service = bytes_of "http://localhost:80"

-- An item with a text and a whole number.
abbrev pub an_item : Bytes → ℕ → Item
an_item s n =
    item
      (record {
        type = 16;
        valuestring = some s;
        valuedouble = record { negative = false; whole = n; has_fraction = false };
        string = none;
      })
      no_items

abbrev pub number_in : Option Item → ℕ
number_in none = 0
number_in (some (item f cs)) = f.valuedouble.whole

-- The fields of every object; the rules are told apart by their number, and every text has version 7.
abbrev pub field_named : Option Item → Bytes → Option Item
field_named of name =
    if same_text name (bytes_of "version")
    then some (an_item [] 7)
    else if same_text name (bytes_of "hostname")
    then some (an_item hostname 0)
    else if same_text name (bytes_of "service")
    then some (an_item (if number_in of == 1 then bytes_of "http_status:404" else service) 0)
    else if same_text name (bytes_of "ingress") || same_text name (bytes_of "config")
    then some (an_item [] 0)
    else none

abbrev pub lib : Cjson
lib = record {
  parse = λ text. parsed (an_item [] 0) (length text);
  is_object = λ i. true;
  is_string = λ i. true;
  is_number = λ i. true;
  is_array = λ i. true;
  is_false = λ i. false;
  get_item = λ i name. field_named i name;
  array_size = λ i. 2;
  array_item = λ i n. some (an_item [] n);
}

abbrev accepted : RemoteConfig
accepted = record { valid = true; version = some 7; hostname = hostname; service = service }

apply_good : apply lib init (bytes_of "{}") hostname service ≡ (none, applied, accepted)
unfolding apply apply_root apply_config apply_rules publish valid_policy hostname_valid
    hostname_loop is_version same_string empty_object value_of init json_parse Json.valid_lexemes
    Json.lexemes Json.has_nul same_text Json.all_space json_keys Json.keys_loop
apply_good = refl

response_good :
    response accepted none 100 ≡ Core.ok (bytes_of "{\"lastAppliedVersion\":7,\"err\":null}")
unfolding response response_text decimal
response_good = refl

apply-Follows_example :
    Follows hostname service init (apply lib init (bytes_of "{}") hostname service)
apply-Follows_example =
    apply-Follows lib init hostname service (init-IsHeld hostname service) (bytes_of "{}")

run-IsHeld_example :
    let st' = run lib hostname service init (bytes_of "{}" ∷ bytes_of "{\"" ∷ bytes_of "{}" ∷ []) in
    IsHeld hostname service st' × NotOlder init.version st'.version
run-IsHeld_example =
    run-IsHeld lib hostname service (bytes_of "{}" ∷ bytes_of "{\"" ∷ bytes_of "{}" ∷ []) init
      (init-IsHeld hostname service)

hostname_valid-is_hostname_example : hostname_valid hostname ≡ is_hostname hostname
hostname_valid-is_hostname_example = hostname_valid-is_hostname hostname
