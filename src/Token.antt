-- ===== src/Token.antt =====
-- components/esp_cf_tunnel/src/protocol/cf_credentials.c and include/cf_credentials.h: the tunnel token.
pub mod Usable
mod Runs
use esp_cf_tunnel.Prelude.{
  ℕ, zero, suc, ◌+◌, ◌-◌, ◌*◌, Bool, true, false, ◌||◌, ◌&&◌, not, Option, none, some, List, [],
  ◌∷◌, ◌++◌, ltb, leb, ◌==◌, if◌then◌else◌, length, get_or, replicate, take, bytes_of,
}
use esp_cf_tunnel.Core.{
  Bytes, CfError, CfResult, Result, ok, err, argument, format, limit, memory, unsupported,
}
use esp_cf_tunnel.Base64
use esp_cf_tunnel.Base64.{secure_zero}
use esp_cf_tunnel.Json.{Item, Cjson, json_parse, json_keys}
use esp_cf_tunnel.Config.{value_of}
use esp_cf_tunnel.Rpc.{Credentials}

abbrev pub token_max : ℕ
token_max = 1024

abbrev pub json_max : ℕ
json_max = 768

abbrev pub secret_min : ℕ
secret_min = 32

abbrev pub secret_max : ℕ
secret_max = 128

-- `cf_token_diagnostic`
pub data Diagnostic : Type 0 where
  token_valid input_size base64 json json_fields account uuid_wrong secret_base64 : Diagnostic
  secret_size endpoint memory_missing : Diagnostic

-- `hex`; `none` is -1.
unfoldable pub hex : ℕ → Option ℕ
hex c =
    if leb b'0' c && leb c b'9'
    then some (c - b'0')
    else if leb b'a' c && leb c b'f'
    then some (c - b'a' + 10)
    else if leb b'A' c && leb c b'F'
    then some (c - b'A' + 10)
    else none

abbrev pub is_dash_place : ℕ → Bool
is_dash_place i = i == 8 || i == 13 || i == 18 || i == 23

-- The loop of `uuid` on the rest of the text from place `i` on: the bytes that it stores, or `none` for
-- `return false`. The text has 36 characters.
unfoldable pub uuid_loop : ℕ → Bytes → ℕ → Option Bytes
uuid_loop i [] n = some []
uuid_loop i (c ∷ []) n = if is_dash_place i && c == b'-' then some [] else none
uuid_loop i (c ∷ d ∷ cs) n =
    let behind_dash = uuid_loop (i + 1) (d ∷ cs) n in
    let behind_byte = uuid_loop (i + 2) cs (n + 1) in
    if is_dash_place i then (if c == b'-' then behind_dash else none) else elim (hex c) [
      | none ↦ none
      | some a ↦ elim (hex d) [
        | none ↦ none
        | some b ↦
            if leb 16 n
            then none
            else elim behind_byte [ none ↦ none | some out ↦ some ((a * 16 + b) ∷ out) ]
      ]
    ]

unfoldable pub is_zero : Bytes → Bool
is_zero [] = true
is_zero (b ∷ bs) = b == 0 && is_zero bs

-- `uuid`
unfoldable pub uuid : Bytes → Option Bytes
uuid s = if not (length s == 36) then none else elim (uuid_loop 0 s 0) [
  | none ↦ none
  | some out ↦ if length out == 16 && not (is_zero out) then some out else none
]

-- The loop over the account tag.
unfoldable pub all_hex : Bytes → Bool
all_hex [] = true
all_hex (c ∷ cs) = elim (hex c) [ none ↦ false | some a ↦ all_hex cs ]

-- The result and the diagnostic, or the credentials.
pub data Outcome : Type 0 where
  accepts : Credentials → Outcome
  rejects : CfError → Diagnostic → Outcome

abbrev pub why_memory : CfError → Diagnostic → Diagnostic
why_memory memory why = memory_missing
why_memory _ why = why

-- The fields of the token, from the tunnel id on.
unfoldable pub take_fields : Bytes → Bytes → Bytes → Outcome
take_fields a s t = elim (uuid t) [
  | none ↦ rejects format uuid_wrong
  | some id ↦
      if not (length a == 32)
      then rejects format account
      else if not (all_hex a)
      then rejects format account
      else elim (Base64.decode s true secret_max) [
        | err limit ↦ rejects limit secret_size
        | err e ↦ rejects e secret_base64
        | ok secret ↦
            if ltb (length secret) secret_min
            then rejects format secret_size
            else accepts
                (record { account_tag = a ++ (0 ∷ []); tunnel_id = id; tunnel_secret = secret })
      ]
]

abbrev pub has_text : Cjson → Option Item → Bool
has_text lib none = false
has_text lib (some e) = not (length (value_of (some e)) == 0)

abbrev pub is_present : Option Item → Bool
is_present none = false
is_present (some e) = true

-- The object of the token.
unfoldable pub take_object : Cjson → Item → Outcome
take_object lib root =
    let a = lib.get_item (some root) (bytes_of "a") in
    let s = lib.get_item (some root) (bytes_of "s") in
    let t = lib.get_item (some root) (bytes_of "t") in
    let e = lib.get_item (some root) (bytes_of "e") in
    if not
      (json_keys lib (some root) (bytes_of "a" ∷ bytes_of "s" ∷ bytes_of "t" ∷ bytes_of "e" ∷ []))
    then rejects format json_fields
    else if not (lib.is_string a) || not (lib.is_string s) || not (lib.is_string t)
    then rejects format json_fields
    else if is_present e && not (lib.is_string e)
    then rejects format json_fields
    else if has_text lib e
    then rejects unsupported endpoint
    else take_fields (value_of a) (value_of s) (value_of t)

-- `cf_credentials_parse_ex` behind the checks of its arguments.
unfoldable pub read_token : Cjson → Bytes → Outcome
read_token lib token =
    if length token == 0 || ltb token_max (length token)
    then rejects limit input_size
    else elim (Base64.decode token true json_max) [
      | err e ↦ rejects e base64
      | ok text ↦ elim (json_parse lib text) [
        | err e ↦ rejects e json
        | ok root ↦ take_object lib root
      ]
    ]

-- What `cf_credentials_parse_ex` leaves: its result, `*diagnostic`, `*out`, and `scratch`.
pub record Parse : Type 0 where
  pub result : CfResult
  pub diagnostic : Diagnostic
  pub out : Credentials
  pub scratch : Bytes

abbrev pub no_credentials : Credentials
no_credentials = record {
  account_tag = replicate 33 0;
  tunnel_id = replicate 16 0;
  tunnel_secret = [];
}

-- `cf_credentials_parse_ex`, with `scratch` of `capacity` bytes; its content has no influence.
unfoldable pub parse : Cjson → Bytes → Bytes → ℕ → Parse
parse lib token scratch capacity =
    if ltb capacity (json_max + 1)
    then record {
      result = some argument;
      diagnostic = json_fields;
      out = no_credentials;
      scratch = scratch;
    }
    else elim (read_token lib token) [
      | accepts cred ↦ record {
        result = none;
        diagnostic = token_valid;
        out = cred;
        scratch = secure_zero scratch capacity;
      }
      | rejects e why ↦ record {
        result = some e;
        diagnostic = why_memory e why;
        out = no_credentials;
        scratch = secure_zero scratch capacity;
      }
    ]
