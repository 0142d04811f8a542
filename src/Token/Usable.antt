-- ===== src/Token/Usable.antt =====
-- What cf_credentials.c accepts can be registered, and what it rejects leaves nothing behind.
use mathlib.Core.Path.{subst}
use esp_cf_tunnel.Prelude.{
  ℕ, ◌+◌, ◌≤◌, ◌≡◌, ◌⊎◌, inl, inr, refl, ap, true, false, ◌||◌, none, some, [], ◌∷◌, ◌++◌, ltb,
  ◌==◌, length, get_or, take, arith, Bool-cases, Option-cases, take-append, length-append, bytes_of,
}
use esp_cf_tunnel.Core.{Bytes, CfError, Result-cases}
use esp_cf_tunnel.Base64
use esp_cf_tunnel.Base64.{secure_zero}
use esp_cf_tunnel.Base64.Canonical.{canonical_padded}
use esp_cf_tunnel.Framing.Deliver.{IsFrame}
use esp_cf_tunnel.Json.{Item, Cjson, json_parse}
use esp_cf_tunnel.Config.{value_of}
use esp_cf_tunnel.Rpc
use esp_cf_tunnel.Rpc.{
  Credentials, Options, Rpc, State, ready, registering, ascii, is_hex, tx_max, is_accepted,
  register,
}
use esp_cf_tunnel.Rpc.Calls.{register_fits}
use esp_cf_tunnel.Token.{
  Outcome, accepts, rejects, Diagnostic, token_max, hex, all_hex, uuid, is_zero, take_fields,
  take_object, read_token, parse, secret_min, secret_max, json_max,
}

-- What holds of the credentials that are accepted.
pub record IsUsable (cred : Credentials) : Type 0 where
  pub tag_hex : Rpc.all_hex (take 32 cred.account_tag) ≡ true
  pub tag_size : length cred.account_tag ≡ 33
  pub tag_end : get_or cred.account_tag 32 0 ≡ 0
  pub id_size : length cred.tunnel_id ≡ 16
  pub id_some : is_zero cred.tunnel_id ≡ false
  pub secret_least : secret_min ≤ length cred.tunnel_secret
  pub secret_most : length cred.tunnel_secret ≤ secret_max

is_hex-hex : (c a : ℕ) → hex c ≡ some a → is_hex c ≡ true
unfolding hex is_hex
is_hex-hex c a h = ground (arith, h)

hex_tag : (s : Bytes) → all_hex s ≡ true → Rpc.all_hex s ≡ true
unfolding all_hex Rpc.all_hex
hex_tag [] h = refl
hex_tag (c ∷ cs) h = elim (Option-cases (hex c)) [
  | inl t ↦ absurd (ground (arith, h, t))
  | inr (a, t) ↦
      let rest : all_hex cs ≡ true = ground (arith, h, t) in
      let first = is_hex-hex c a t in ground (arith, first, hex_tag cs rest)
]

uuid_size : (s out : Bytes) → uuid s ≡ some out → (length out ≡ 16) × (is_zero out ≡ false)
unfolding uuid
uuid_size s out h = ground (arith, h)

accepts-injective : {c d : Credentials} → accepts c ≡ accepts d → c ≡ d
accepts-injective {c} {d} h = ap (λ q. cred_of q) h
  where
    cred_of : Outcome → Credentials
    cred_of (accepts x) = x
    cred_of (rejects e why) = c

get_or-end : (a : Bytes) (n : ℕ) → length a ≡ n → get_or (a ++ (0 ∷ [])) n 0 ≡ 0
get_or-end [] n h = rw⁻¹ h refl
get_or-end (x ∷ xs) n h = rw⁻¹ h (get_or-end xs (length xs) refl)

made :
    (a id secret : Bytes)
    → length a ≡ 32
    → all_hex a ≡ true
    → (length id ≡ 16) × (is_zero id ≡ false)
    → secret_min ≤ length secret
    → length secret ≤ secret_max
    → IsUsable (record { account_tag = a ++ (0 ∷ []); tunnel_id = id; tunnel_secret = secret })
made a id secret size tag (id_size, id_some) least most =
    let whole : take 32 (a ++ (0 ∷ [])) ≡ a = rw⁻¹ size (take-append a (0 ∷ [])) in
    record {
      tag_hex = rw whole (hex_tag a tag);
      tag_size = omega (arith, length-append a (0 ∷ []), size);
      tag_end = get_or-end a 32 size;
      id_size = id_size;
      id_some = id_some;
      secret_least = least;
      secret_most = most;
    }

take_fields-IsUsable :
    (a s t : Bytes) (cred : Credentials) → take_fields a s t ≡ accepts cred → IsUsable cred
unfolding take_fields
take_fields-IsUsable a s t cred h = elim (Option-cases (uuid t)) [
  | inl k ↦ absurd (ground (arith, rw (take_fields, k) at h))
  | inr (id, k) ↦ elim (Bool-cases (length a == 32)) [
    | inr l ↦ absurd (ground (arith, rw (take_fields, k, l) at h))
    | inl l ↦ elim (Bool-cases (all_hex a)) [
      | inr q ↦ absurd (ground (arith, rw (take_fields, k, l, q) at h))
      | inl q ↦ elim (Result-cases (Base64.decode s true secret_max)) [
        | inr (e, d) ↦ absurd (ground (arith, rw (take_fields, k, l, q, d) at h))
        | inl (secret, d) ↦ elim (Bool-cases (ltb (length secret) secret_min)) [
          | inl m ↦ absurd (ground (arith, rw (take_fields, k, l, q, d, m) at h))
          | inr m ↦
              let same = accepts-injective (rw (take_fields, k, l, q, d, m) at h) in
              let whole : length a ≡ 32 = ground (arith, l) in
              subst IsUsable same (
                made a id secret whole q (uuid_size t id k) (ground (arith, m))
                  (canonical_padded s secret_max d).1)
        ]
      ]
    ]
  ]
]

take_object-IsUsable :
    (lib : Cjson) (root : Item) (cred : Credentials)
    → take_object lib root ≡ accepts cred
    → IsUsable cred
unfolding take_object
take_object-IsUsable lib root cred h =
    let text = λ (name : Bytes). value_of (lib.get_item (some root) name) in
    let used =
      take_fields-IsUsable (text (bytes_of "a")) (text (bytes_of "s")) (text (bytes_of "t")) cred in
    ground (arith, h, used)

-- The options that `cf_rpc_register` accepts.
pub record HasGoodOptions (opt : Options) : Type 0 where
  pub version : ascii opt.version 63 ≡ true
  pub arch : ascii opt.arch 63 ≡ true
  pub ip : (length opt.local_ip ≡ 4) ⊎ (length opt.local_ip ≡ 16)
  pub features : opt.features ≤ 3
  pub connector : length opt.connector_id ≡ 16

usable_accepted :
    (cred : Credentials) (opt : Options)
    → IsUsable cred
    → HasGoodOptions opt
    → is_accepted cred opt ≡ true
unfolding is_accepted
usable_accepted cred opt u g = ground (
  arith, u.tag_hex, u.tag_end, u.secret_least, u.secret_most, g.version, g.arch, g.ip, g.features,
)

Outcome-cases :
    (q : Outcome)
    → ((c : Credentials) × (q ≡ accepts c))
      ⊎ ((e : CfError) × (why : Diagnostic) × (q ≡ rejects e why))
Outcome-cases (accepts c) = inl (c, refl)
Outcome-cases (rejects e why) = inr (e, why, refl)

read_token-IsUsable :
    (lib : Cjson) (token : Bytes) (cred : Credentials)
    → read_token lib token ≡ accepts cred
    → IsUsable cred
unfolding read_token
read_token-IsUsable lib token cred h =
    elim (Bool-cases (length token == 0 || ltb token_max (length token))) [
      | inl t ↦ absurd (ground (arith, rw (read_token, t) at h))
      | inr t ↦ elim (Result-cases (Base64.decode token true json_max)) [
        | inr (e, d) ↦ absurd (ground (arith, rw (read_token, t, d) at h))
        | inl (text, d) ↦ elim (Result-cases (json_parse lib text)) [
          | inr (e, j) ↦ absurd (ground (arith, rw (read_token, t, d, j) at h))
          | inl (root, j) ↦ take_object-IsUsable lib root cred (rw (read_token, t, d, j) at h)
        ]
      ]
    ]

parse-IsUsable :
    (lib : Cjson) (token scratch : Bytes) (capacity : ℕ)
    → (parse lib token scratch capacity).result ≡ none
    → IsUsable (parse lib token scratch capacity).out
unfolding parse
parse-IsUsable lib token scratch capacity h = elim (Bool-cases (ltb capacity (json_max + 1))) [
  | inl k ↦ absurd (ground (arith, h, k))
  | inr k ↦ elim (Outcome-cases (read_token lib token)) [
    | inr (e, why, t) ↦ absurd (ground (arith, rw (parse, k, t) at h))
    | inl (cred, t) ↦ rw (parse, k, t) (read_token-IsUsable lib token cred t)
  ]
]

-- A token that is accepted gives an account tag of 32 hexadecimal digits, a tunnel id of 16 bytes that are
-- not all zero, and a secret of 32 to 128 bytes; and with these credentials a registration in READY, with
-- acceptable options, is asked for: the request is built as one message.
pub parse-register :
    (lib : Cjson) (token scratch : Bytes) (capacity : ℕ) (r : Rpc) (opt : Options) (out : Bytes)
    → (parse lib token scratch capacity).result ≡ none
    → r.phase ≡ ready
    → r.have_capability ≡ true
    → HasGoodOptions opt
    → length out ≡ tx_max
    → let cred = (parse lib token scratch capacity).out in
      let reply = register r cred opt out tx_max in
      IsUsable cred
      × (reply.result ≡ none)
      × (reply.rpc ≡ record r { phase = registering })
      × IsFrame tx_max (take reply.written reply.buffer)
parse-register lib token scratch capacity r opt out h p c g size =
    let u = parse-IsUsable lib token scratch capacity h in
    let cred = (parse lib token scratch capacity).out in
    let (result, rpc, frame) =
      register_fits r cred opt out tx_max p c (usable_accepted cred opt u g) u.id_size g.connector
        (omega arith) size in
    (u, result, rpc, frame)
