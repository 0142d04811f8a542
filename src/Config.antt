-- ===== src/Config.antt =====
-- components/esp_cf_tunnel/src/protocol/cf_config.c and include/cf_config.h: the remote configuration, a
-- single rule for the permitted hostname and service. Texts are without their NUL.
pub mod Policy
pub mod Hostnames
pub mod Runs
use esp_cf_tunnel.Prelude.{
  ℕ, zero, suc, ◌+◌, ◌-◌, ◌/◌, ◌%◌, Bool, true, false, ◌||◌, ◌&&◌, not, Option, none, some, List,
  [], ◌∷◌, ◌++◌, ltb, leb, ◌==◌, if◌then◌else◌, length, get_or, bytes_of,
}
use esp_cf_tunnel.Core.{Bytes, CfResult, Result, ok, err, argument, format, limit, unsupported}
use esp_cf_tunnel.Dns.Names.{same_text}
use esp_cf_tunnel.Json.{
  Number, Item, item, Items, no_items, followed, Cjson, fields, items_of, json_parse, json_keys,
}

abbrev pub message_limit : ℕ
message_limit = 8192

abbrev pub hostname_max : ℕ
hostname_max = 253

abbrev pub service_max : ℕ
service_max = 63

abbrev pub int32_max : ℕ
int32_max = 0x7fff_ffff

-- `cf_remote_config`; the version -1, which stands for none yet, is `none`.
pub record RemoteConfig : Type 0 where
  pub valid : Bool
  pub version : Option ℕ
  pub hostname : Bytes
  pub service : Bytes

-- The texts of `reason`.
pub data Reason : Type 0 where
  invalid_policy exceeds_limit invalid_json unknown_envelope invalid_version unknown_config : Reason
  global_origin_request warp_routing expected_two_rules unknown_rule unknown_fallback : Reason
  hostname_differs service_differs fallback_not_404 rule_origin_request applied : Reason

-- `cf_config_init`
unfoldable pub init : RemoteConfig
init = record { valid = false; version = none; hostname = []; service = [] }

-- `empty_object`
unfoldable pub empty_object : Cjson → Option Item → Bool
empty_object lib none = true
empty_object lib (some (item f no_items)) = lib.is_object (some (item f no_items))
empty_object lib (some (item f (followed i is))) = false

-- `valuestring` of an item that is a string.
unfoldable pub value_of : Option Item → Bytes
value_of none = []
value_of (some (item f cs)) = elim f.valuestring [ none ↦ [] | some s ↦ s ]

-- `same_string`
unfoldable pub same_string : Cjson → Option Item → Bytes → Bool
same_string lib s expected = lib.is_string s && same_text (value_of s) expected

abbrev pub hyphen : ℕ
hyphen = 45

abbrev pub dot : ℕ
dot = 46

abbrev pub host_char : ℕ → Bool
host_char c = (leb 97 c && leb c 122) || (leb 48 c && leb c 57) || c == hyphen

-- The loop of `hostname_valid`: the character before the rest, the length of the label so far, and the
-- rest.
unfoldable pub hostname_loop : ℕ → ℕ → Bytes → Bool
hostname_loop before label [] = not (label == 0)
hostname_loop before label (c ∷ cs) =
    let next = hostname_loop c 0 cs in
    let same = hostname_loop c (label + 1) cs in
    if c == dot
    then (if label == 0 || before == hyphen || get_or cs 0 0 == hyphen then false else next)
    else if not (host_char c)
    then false
    else if ltb 63 (label + 1)
    then false
    else same

-- `hostname_valid`
unfoldable pub hostname_valid : Bytes → Bool
hostname_valid s =
    let n = length s in
    if n == 0 || ltb hostname_max n || get_or s 0 0 == hyphen || get_or s (n - 1) 0 == hyphen
    then false
    else hostname_loop 0 0 s

-- `valuedouble` of an item; the tests of the version are for numbers alone.
abbrev pub number_of : Option Item → Number
number_of none = record { negative = false; whole = 0; has_fraction = false }
number_of (some i) = (fields i).valuedouble

-- A version is a whole number from 0 to `INT32_MAX`; `-0.0` is 0.
unfoldable pub is_version : Number → Bool
is_version v =
    not (v.negative && (not (v.whole == 0) || v.has_fraction))
    && not (ltb int32_max v.whole)
    && not v.has_fraction

-- The new configuration.
unfoldable pub publish : RemoteConfig → ℕ → Bytes → Bytes → RemoteConfig
publish st version hostname service =
    let newer : Bool = elim st.version [ none ↦ true | some old ↦ ltb old version ] in
    if not st.valid || newer
    then record { valid = true; version = some version; hostname = hostname; service = service }
    else st

-- What `cf_config_apply_ex` returns and leaves: its result, the reason and `*state`.
abbrev pub Applied : Type 0
Applied = CfResult × Reason × RemoteConfig

-- The arguments that `cf_config_apply_ex` accepts.
unfoldable pub valid_policy : Bytes → Bytes → Bool
valid_policy hostname service =
    hostname_valid hostname && not (length service == 0) && not (ltb service_max (length service))

module _ (lib : Cjson) where
  -- The rules, from the check of their keys on.
  unfoldable pub apply_rules :
      RemoteConfig → Option Item → Option Item → ℕ → Bytes → Bytes → Applied
  apply_rules st first last version hostname service =
      if not (
        json_keys lib first
          (bytes_of "hostname" ∷ bytes_of "service" ∷ bytes_of "originRequest" ∷ []))
      then (some unsupported, unknown_rule, st)
      else if not (json_keys lib last (bytes_of "service" ∷ []))
      then (some unsupported, unknown_fallback, st)
      else if not (same_string lib (lib.get_item first (bytes_of "hostname")) hostname)
      then (some unsupported, hostname_differs, st)
      else if not (same_string lib (lib.get_item first (bytes_of "service")) service)
      then (some unsupported, service_differs, st)
      else if not
          (same_string lib (lib.get_item last (bytes_of "service")) (bytes_of "http_status:404"))
      then (some unsupported, fallback_not_404, st)
      else if not (empty_object lib (lib.get_item first (bytes_of "originRequest")))
      then (some unsupported, rule_origin_request, st)
      else (none, applied, publish st version hostname service)

  abbrev pub warp_refused : Option Item → Bool
  warp_refused none = false
  warp_refused (some w) =
      not (json_keys lib (some w) (bytes_of "enabled" ∷ []))
      || not (lib.is_false (lib.get_item (some w) (bytes_of "enabled")))

  -- The configuration in an update.
  unfoldable pub apply_config : RemoteConfig → Option Item → ℕ → Bytes → Bytes → Applied
  apply_config st config version hostname service =
      let rules = lib.get_item config (bytes_of "ingress") in
      if not (
        json_keys lib config
          (bytes_of "ingress" ∷ bytes_of "originRequest" ∷ bytes_of "warp-routing" ∷ []))
      then (some unsupported, unknown_config, st)
      else if not (empty_object lib (lib.get_item config (bytes_of "originRequest")))
      then (some unsupported, global_origin_request, st)
      else if warp_refused (lib.get_item config (bytes_of "warp-routing"))
      then (some unsupported, warp_routing, st)
      else if not (lib.is_array rules) || not (lib.array_size rules == 2)
      then (some unsupported, expected_two_rules, st)
      else apply_rules st (lib.array_item rules 0) (lib.array_item rules 1) version hostname service

  -- The envelope of an update.
  unfoldable pub apply_root : RemoteConfig → Item → Bytes → Bytes → Applied
  apply_root st root hostname service =
      let version = lib.get_item (some root) (bytes_of "version") in
      let config = lib.get_item (some root) (bytes_of "config") in
      if not (json_keys lib (some root) (bytes_of "version" ∷ bytes_of "config" ∷ []))
      then (some unsupported, unknown_envelope, st)
      else if not (lib.is_number version) || not (is_version (number_of version))
      then (some format, invalid_version, st)
      else apply_config st config (number_of version).whole hostname service

  -- `cf_config_apply_ex`
  unfoldable pub apply : RemoteConfig → Bytes → Bytes → Bytes → Applied
  apply st update hostname service =
      if not (valid_policy hostname service)
      then (some argument, invalid_policy, st)
      else if length update == 0 || ltb message_limit (length update)
      then (some limit, exceeds_limit, st)
      else elim (json_parse lib update) [
        | err e ↦ (some e, invalid_json, st)
        | ok root ↦ apply_root st root hostname service
      ]

  -- Updates one after the other, under one policy.
  unfoldable pub run : Bytes → Bytes → RemoteConfig → List Bytes → RemoteConfig
  run hostname service st [] = st
  run hostname service st (u ∷ us) = run hostname service (apply st u hostname service).2 us

-- `%ld` of a number, with at most `rounds` digits.
unfoldable pub decimal : ℕ → ℕ → Bytes
decimal zero n = []
decimal (suc rounds) n =
    let front = decimal rounds (n / 10) in (if ltb n 10 then [] else front) ++ ((48 + n % 10) ∷ [])

abbrev pub version_text : Option ℕ → Bytes
version_text none = bytes_of "-1"
version_text (some n) = decimal 10 n

-- What `cf_config_response` prints.
unfoldable pub response_text : RemoteConfig → CfResult → Bytes
response_text config result =
    let version = if config.valid then config.version else none in
    let tail : Bytes = elim result [
      | none ↦ bytes_of ",\"err\":null"
      | some e ↦ bytes_of ",\"err\":{}"
    ] in
    bytes_of "{\"lastAppliedVersion\":" ++ version_text version ++ tail ++ bytes_of "}"

-- `cf_config_response` into a buffer of `capacity` bytes.
unfoldable pub response : RemoteConfig → CfResult → ℕ → Result Bytes
response config result capacity =
    let text = response_text config result in
    if capacity == 0
    then err argument
    else if leb capacity (length text)
    then err limit
    else ok text
