-- ===== src/Rpc.antt =====
-- The registration RPC: the state and the requests of components/esp_cf_tunnel/src/protocol/cf_rpc.c and
-- include/cf_rpc.h. `out` holds the first `CF_RPC_TX_MAX` bytes of the caller's buffer, the only ones
-- that are used, and `capacity` is the buffer's capacity. The pointers that a call gets are not NULL. The word
-- indices that the builder returns are below 128 here, so that sums of them do not wrap.
pub mod Requests
pub mod Receive
pub mod Steps
pub mod Answers
pub mod Calls
mod Runs
use esp_cf_tunnel.Prelude.{
  ℕ, ◌+◌, ◌-◌, ◌/◌, ◌%◌, Bool, true, false, ◌||◌, ◌&&◌, not, none, some, List, [], ◌∷◌, ltb, leb,
  ◌==◌, if◌then◌else◌, length, get_or, take, bytes_of,
}
use esp_cf_tunnel.Core.{Bytes, CfResult, CfError, argument, state}
use esp_cf_tunnel.Base64.{secure_zero}
use esp_cf_tunnel.Capnp.Builder.{
  Builder, broken, build_init, build_struct, set_uint, pointer_list, blob, build_end,
}

abbrev pub tx_max : ℕ
tx_max = 1024

abbrev pub registration_interface : ℕ
registration_interface = 0xf716_95ec_7fe8_5497

-- `cf_rpc_state`
pub data State : Type 0 where
  idle bootstrapping ready registering registered unregistering closed rejected failed : State

-- `cf_rpc`; `location` is the text without its NUL.
pub record Rpc : Type 0 where
  pub phase : State
  pub capability : ℕ
  pub have_capability : Bool
  pub remotely_managed : Bool
  pub should_retry : Bool
  pub retry_after_ms : ℕ
  pub connection_id : Bytes
  pub location : Bytes
  pub error : CfResult

-- `cf_rpc_options`
pub record Options : Type 0 where
  pub connector_id : Bytes
  pub local_ip : Bytes
  pub version : Bytes
  pub arch : Bytes
  pub connection_index : ℕ
  pub previous_attempts : ℕ
  pub replace_existing : Bool
  pub features : ℕ

-- `cf_credentials`; `tunnel_secret` is the used part of the array, so that its length is
-- `tunnel_secret_len`.
pub record Credentials : Type 0 where
  pub account_tag : Bytes
  pub tunnel_id : Bytes
  pub tunnel_secret : Bytes

-- What a call leaves: its result, `*n`, the bytes of `out`, and `*r`.
pub record Reply : Type 0 where
  pub result : CfResult
  pub written : ℕ
  pub buffer : Bytes
  pub rpc : Rpc

abbrev pub bit : Bool → ℕ
bit b = if b then 1 else 0

-- `output_ok`; `*n = 0` is in the replies.
unfoldable pub output_ok : ℕ → Bool
output_ok capacity = leb tx_max capacity

-- The early return of a call.
abbrev pub refuse : Rpc → Bytes → CfError → Reply
refuse r out e = record { result = some e; written = 0; buffer = out; rpc = r }

unfoldable pub printable : Bytes → Bool
printable [] = true
printable (c ∷ cs) = not (ltb c 32) && not (ltb 126 c) && printable cs

-- `ascii`; NULL is the empty view.
unfoldable pub ascii : Bytes → ℕ → Bool
ascii b max = not (length b == 0) && not (ltb max (length b)) && printable b

-- `cf_rpc_init` and `cf_rpc_reset`
unfoldable pub init : Rpc
init = record {
  phase = idle;
  capability = 0;
  have_capability = false;
  remotely_managed = false;
  should_retry = false;
  retry_after_ms = 0;
  connection_id = 0 ∷ 0 ∷ 0 ∷ 0 ∷ 0 ∷ 0 ∷ 0 ∷ 0 ∷ 0 ∷ 0 ∷ 0 ∷ 0 ∷ 0 ∷ 0 ∷ 0 ∷ 0 ∷ [];
  location = [];
  error = none;
}

unfoldable pub message : Builder → ℕ → ℕ → ℕ → ℕ × Builder
message b kind data_words pointers =
    let (root, b1) = build_struct b 0 1 1 in
    build_struct (set_uint b1 root 0 2 kind) (root + 1) data_words pointers

unfoldable pub finish : ℕ → Bool → Bytes → ℕ → CfResult × ℕ × Builder
finish id release out capacity =
    let (s, b) = message (build_init out capacity).1 4 1 0 in
    build_end (set_uint (set_uint b s 0 4 id) s 4 1 (if release then 0 else 1))

unfoldable pub release_cap : ℕ → Bytes → ℕ → CfResult × ℕ × Builder
release_cap capability out capacity =
    let (s, b) = message (build_init out capacity).1 6 1 0 in
    build_end (set_uint (set_uint b s 0 4 capability) s 4 4 1)

abbrev pub reason : Bytes
reason = bytes_of "Unsupported or invalid registration RPC"

-- The message of `fail`.
unfoldable pub abort : Bytes → CfResult × ℕ × Builder
abort out =
    let (s, b) = message (build_init out tx_max).1 1 1 1 in build_end (blob b (s + 1) reason true)

unfoldable pub fail : Rpc → CfError → Bool → Bytes → Reply
fail r e abort_peer out =
    let r' = record r { error = some e; phase = failed } in
    let (rc, n, b) = abort out in
    if abort_peer
    then record { result = some e; written = n; buffer = b.buffer; rpc = r' }
    else record { result = some e; written = 0; buffer = out; rpc = r' }

-- `rc = cf_cp_build_end(...); if (rc == CF_OK) r->state = ...; return rc;`
abbrev pub sent : Rpc → State → CfResult × ℕ × Builder → Reply
sent r next (rc, n, b) = record {
  result = rc;
  written = n;
  buffer = b.buffer;
  rpc = elim rc [ none ↦ record r { phase = next } | some e ↦ r ];
}

abbrev pub is_idle : State → Bool
is_idle idle = true
is_idle _ = false

abbrev pub is_ready : State → Bool
is_ready ready = true
is_ready _ = false

abbrev pub is_registered : State → Bool
is_registered registered = true
is_registered _ = false

-- `cf_rpc_begin`
unfoldable pub begin : Rpc → Bytes → ℕ → Reply
begin r out capacity =
    if not (output_ok capacity)
    then refuse r out argument
    else if not (is_idle r.phase)
    then refuse r out state
    else sent r bootstrapping (build_end (message (build_init out tx_max).1 8 1 1).1)

unfoldable pub call : Builder → ℕ → ℕ → ℕ → ℕ × Builder
call b target_id question method =
    let (c, b1) = message b 2 3 3 in
    let b2 = set_uint (set_uint b1 c 0 4 question) c 4 2 method in
    let (target, b3) = build_struct (set_uint b2 c 8 8 registration_interface) (c + 3) 1 1 in
    build_struct (set_uint b3 target 0 4 target_id) (c + 4) 0 2

unfoldable pub is_hex : ℕ → Bool
is_hex c =
    not (ltb c 48) && not (ltb 57 c)
    || not (ltb c 97) && not (ltb 102 c)
    || not (ltb c 65) && not (ltb 70 c)

unfoldable pub all_hex : Bytes → Bool
all_hex [] = true
all_hex (c ∷ cs) = is_hex c && all_hex cs

-- The arguments that `cf_rpc_register` accepts.
unfoldable pub is_accepted : Credentials → Options → Bool
is_accepted cred opt =
    ascii opt.version 63
    && ascii opt.arch 63
    && (length opt.local_ip == 4 || length opt.local_ip == 16)
    && get_or cred.account_tag 32 0 == 0
    && not (ltb (length cred.tunnel_secret) 32)
    && not (ltb 128 (length cred.tunnel_secret))
    && not (ltb 3 opt.features)
    && all_hex (take 32 cred.account_tag)

-- The credentials in a request.
unfoldable pub put_auth : Builder → ℕ → Credentials → Builder
put_auth b params cred =
    let (auth, b1) = build_struct b (params + 1) 0 2 in
    let b2 = blob b1 auth (take 32 cred.account_tag) true in
    blob (blob b2 (auth + 1) cred.tunnel_secret false) (params + 2) cred.tunnel_id false

abbrev pub remote : Bytes
remote = bytes_of "allow_remote_config"

abbrev pub serialized : Bytes
serialized = bytes_of "serialized_headers"

-- The list of the features; bit 0 is `CF_RPC_REMOTE_CONFIG`, bit 1 `CF_RPC_SERIALIZED_HEADERS`.
unfoldable pub put_features : Builder → ℕ → ℕ → Builder
put_features b slot features =
    let first = features % 2 == 1 in
    let second = features / 2 % 2 == 1 in
    let (at, b1) = pointer_list b slot (bit first + bit second) in
    let b2 = if first then blob b1 at remote true else b1 in
    if features == 0 then b else if second then blob b2 (at + bit first) serialized true else b2

-- The options in a request.
unfoldable pub put_options : Builder → ℕ → Options → Builder
put_options b params opt =
    let (options, b1) = build_struct b (params + 3) 1 2 in
    let b2 = set_uint b1 options 0 1 (bit opt.replace_existing) in
    let b3 = set_uint b2 options 2 1 opt.previous_attempts in
    let (client, b4) = build_struct b3 (options + 1) 0 4 in
    let b5 = put_features (blob b4 client opt.connector_id false) (client + 1) opt.features in
    let b6 = blob (blob b5 (client + 2) opt.version true) (client + 3) opt.arch true in
    blob b6 (options + 2) opt.local_ip false

-- The registration request.
unfoldable pub put_request : Builder → ℕ → Credentials → Options → Builder
put_request b capability cred opt =
    let (payload, b1) = call b capability 1 0 in
    let (params, b2) = build_struct b1 payload 1 3 in
    let b3 = set_uint b2 params 0 1 opt.connection_index in
    put_options (put_auth b3 params cred) params opt

-- A request that could not be built is wiped, for it holds the secret.
abbrev pub wiped : Reply → Reply
wiped reply = elim reply.result [
  | none ↦ reply
  | some e ↦ record reply { buffer = secure_zero reply.buffer tx_max }
]

-- `cf_rpc_register`
unfoldable pub register : Rpc → Credentials → Options → Bytes → ℕ → Reply
register r cred opt out capacity =
    if not (output_ok capacity)
    then refuse r out argument
    else if not (is_ready r.phase) || not r.have_capability
    then refuse r out state
    else if not (is_accepted cred opt)
    then refuse r out argument
    else wiped (
        sent r registering
          (build_end (put_request (build_init out tx_max).1 r.capability cred opt)))

-- `cf_rpc_unregister`
unfoldable pub unregister : Rpc → Bytes → ℕ → Reply
unregister r out capacity =
    let (payload, b) = call (build_init out tx_max).1 r.capability 2 1 in
    if not (output_ok capacity)
    then refuse r out argument
    else if not (is_registered r.phase) || not r.have_capability
    then refuse r out state
    else sent r unregistering (build_end (build_struct b payload 0 0).1)
