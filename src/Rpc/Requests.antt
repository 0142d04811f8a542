-- ===== src/Rpc/Requests.antt =====
-- The messages that cf_rpc.c builds fit `CF_RPC_TX_MAX`.
use esp_cf_tunnel.Prelude.{
  ℕ, ◌+◌, ◌*◌, ◌/◌, ◌%◌, ◌≤◌, ◌<◌, ◌≡◌, refl, Bool, true, false, none, length, arith, ◌==◌,
  if◌then◌else◌, take, length-take, inl, inr, Bool-cases,
}
use esp_cf_tunnel.Core.{Bytes, CfResult}
use esp_cf_tunnel.Framing.Deliver.{IsFrame}
use esp_cf_tunnel.Capnp.Builder.{Builder, build_init, build_struct, pointer_list, blob, build_end}
use esp_cf_tunnel.Capnp.Builder.Room.{
  HasUsed, build_init-HasUsed, build_struct-HasUsed, set_uint-HasUsed, pointer_list-HasUsed,
  blob-HasUsed, build_end-HasUsed,
}
use esp_cf_tunnel.Rpc.{
  tx_max, Credentials, Options, message, finish, release_cap, abort, call, put_auth, put_features,
  put_options, put_request, is_accepted, ascii, bit, registration_interface, reason, remote,
  serialized,
}

-- What a finished message is: no error, whole words, in a buffer that keeps its size.
pub record IsSent (n : ℕ) (end : CfResult × ℕ × Builder) : Type 0 where
  pub fine : end.0 ≡ none
  pub some_bytes : 16 ≤ end.1
  pub fits : end.1 ≤ n
  pub kept : length end.2.buffer ≡ n
  pub framed : IsFrame n (take end.1 end.2.buffer)

build_end-IsSent : {n w : ℕ} {b : Builder} → HasUsed n w b → IsSent n (build_end b)
build_end-IsSent {n} {w} {b} h =
    let (rc, size, kept, framed) = build_end-HasUsed h in
    record {
      fine = rc;
      some_bytes = omega (arith, size, h.used, h.valid.started);
      fits = omega (arith, size, h.used, h.valid.room, h.size);
      kept = kept;
      framed = framed;
    }

message-HasUsed :
    {n : ℕ} {b : Builder} (kind d p : ℕ)
    → HasUsed n 1 b
    → 8 + (3 + (d + p)) * 8 ≤ n
    → ((message b kind d p).0 ≡ 3) × HasUsed n (3 + (d + p)) (message b kind d p).1
unfolding message
message-HasUsed {n} {b} kind d p h room =
    let (root, h1) = build_struct-HasUsed 0 1 1 h (omega arith) (omega arith) in
    let h2 = set_uint-HasUsed (build_struct b 0 1 1).0 0 2 kind h1 refl (omega (arith, root)) in
    build_struct-HasUsed ((build_struct b 0 1 1).0 + 1) d p h2 (omega (arith, root)) room

pub finish-IsSent :
    (id : ℕ) (release : Bool) (out : Bytes)
    → length out ≡ tx_max
    → IsSent tx_max (finish id release out tx_max)
unfolding finish
finish-IsSent id release out size =
    let h = build_init-HasUsed out tx_max size (omega arith) (omega arith) in
    let (s, h1) = message-HasUsed 4 1 0 h (omega arith) in
    build_end-IsSent (
      set_uint-HasUsed _ 4 1 _ (set_uint-HasUsed _ 0 4 id h1 refl (omega (arith, s))) refl
        (omega (arith, s)))

pub release_cap-IsSent :
    (capability : ℕ) (out : Bytes) (n : ℕ)
    → length out ≡ n
    → 48 ≤ n
    → n ≤ tx_max
    → IsSent n (release_cap capability out n)
unfolding release_cap
release_cap-IsSent capability out n size few many =
    let h = build_init-HasUsed out n size (omega arith) (omega arith) in
    let (s, h1) = message-HasUsed 6 1 0 h (omega arith) in
    let h2 = set_uint-HasUsed _ 0 4 capability h1 refl (omega (arith, s)) in
    build_end-IsSent (set_uint-HasUsed _ 4 4 1 h2 refl (omega (arith, s)))

pub finish-size :
    (id : ℕ) (release : Bool) (out : Bytes)
    → length out ≡ tx_max
    → (finish id release out tx_max).1 ≡ 40
unfolding finish
finish-size id release out size =
    let h = build_init-HasUsed out tx_max size (omega arith) (omega arith) in
    let (s, h1) = message-HasUsed 4 1 0 h (omega arith) in
    let h2 = set_uint-HasUsed _ 0 4 id h1 refl (omega (arith, s)) in
    (build_end-HasUsed
      (set_uint-HasUsed _ 4 1 (if release then 0 else 1) h2 refl (omega (arith, s)))).1

pub abort-IsSent : (out : Bytes) → length out ≡ tx_max → IsSent tx_max (abort out)
unfolding abort
abort-IsSent out size =
    let h = build_init-HasUsed out tx_max size (omega arith) (omega arith) in
    let (s, h1) = message-HasUsed 1 1 1 h (omega arith) in
    build_end-IsSent (blob-HasUsed _ reason true h1 (omega (arith, s)) (omega arith))

pub begin_message-IsSent :
    (out : Bytes)
    → length out ≡ tx_max
    → IsSent tx_max (build_end (message (build_init out tx_max).1 8 1 1).1)
begin_message-IsSent out size =
    let h = build_init-HasUsed out tx_max size (omega arith) (omega arith) in
    build_end-IsSent (message-HasUsed 8 1 1 h (omega arith)).1

call-HasUsed :
    {b : Builder} (capability question method : ℕ)
    → HasUsed tx_max 1 b
    → ((call b capability question method).0 ≡ 11)
      × HasUsed tx_max 13 (call b capability question method).1
unfolding call
call-HasUsed capability question method h =
    let (c, h1) = message-HasUsed 2 3 3 h (omega arith) in
    let h2 = set_uint-HasUsed _ 0 4 question h1 refl (omega (arith, c)) in
    let h3 = set_uint-HasUsed _ 4 2 method h2 refl (omega (arith, c)) in
    let h4 = set_uint-HasUsed _ 8 8 registration_interface h3 refl (omega (arith, c)) in
    let (target, h5) = build_struct-HasUsed _ 1 1 h4 (omega (arith, c)) (omega arith) in
    let h6 = set_uint-HasUsed _ 0 4 capability h5 refl (omega (arith, target)) in
    build_struct-HasUsed _ 0 2 h6 (omega (arith, c)) (omega arith)

pub unregister_message-IsSent :
    (capability : ℕ) (out : Bytes)
    → length out ≡ tx_max
    → let (payload, b) = call (build_init out tx_max).1 capability 2 1 in
      IsSent tx_max (build_end (build_struct b payload 0 0).1)
unregister_message-IsSent capability out size =
    let h = build_init-HasUsed out tx_max size (omega arith) (omega arith) in
    let (payload, h1) = call-HasUsed capability 2 1 h in
    build_end-IsSent (build_struct-HasUsed _ 0 0 h1 (omega (arith, payload)) (omega arith)).1

-- A builder that has used between `w` and `most` words.
abbrev HasRoom : ℕ → ℕ → Builder → Type 0
HasRoom w most b = (v : ℕ) × (w ≤ v) × (v ≤ most) × HasUsed tx_max v b

put_auth-HasRoom :
    {b : Builder} (params : ℕ) (cred : Credentials)
    → HasUsed tx_max 17 b
    → params ≡ 13
    → length cred.tunnel_secret ≤ 128
    → length cred.tunnel_id ≡ 16
    → HasRoom 17 42 (put_auth b params cred)
unfolding put_auth
put_auth-HasRoom params cred h at short id =
    let tag = take 32 cred.account_tag in
    let tag_size = length-take 32 cred.account_tag in
    let (auth, h1) = build_struct-HasUsed _ 0 2 h (omega (arith, at)) (omega arith) in
    let h2 = blob-HasUsed _ tag true h1 (omega (arith, auth)) (omega (arith, tag_size)) in
    let h3 =
      blob-HasUsed _ cred.tunnel_secret false h2 (omega (arith, auth)) (omega (arith, tag_size)) in
    let h4 = blob-HasUsed _ cred.tunnel_id false h3 (omega (arith, at)) (omega (arith, tag_size)) in
    (_, omega arith, omega (arith, tag_size), h4)

listed-HasRoom :
    {w : ℕ} (b : Builder) (slot : ℕ) (first second : Bool)
    → HasUsed tx_max w b
    → slot < w
    → w ≤ 60
    → let (at, b1) = pointer_list b slot (bit first + bit second) in
      let b2 = if first then blob b1 at remote true else b1 in
      HasRoom w (w + 8) (if second then blob b2 (at + bit first) serialized true else b2)
listed-HasRoom b slot true true h inside room =
    let (at, h1) = pointer_list-HasUsed slot 2 h inside (omega arith) in
    let h2 = blob-HasUsed _ remote true h1 (omega (arith, at)) (omega arith) in
    let h3 = blob-HasUsed _ serialized true h2 (omega (arith, at)) (omega arith) in
    (_, omega arith, omega arith, h3)
listed-HasRoom b slot true false h inside room =
    let (at, h1) = pointer_list-HasUsed slot 1 h inside (omega arith) in
    (_, omega arith, omega arith, blob-HasUsed _ remote true h1 (omega (arith, at)) (omega arith))
listed-HasRoom b slot false true h inside room =
    let (at, h1) = pointer_list-HasUsed slot 1 h inside (omega arith) in
    let h2 = blob-HasUsed _ serialized true h1 (omega (arith, at)) (omega arith) in
    (_, omega arith, omega arith, h2)
listed-HasRoom b slot false false h inside room =
    (_, omega arith, omega arith, (pointer_list-HasUsed slot 0 h inside (omega arith)).1)

put_features-HasRoom :
    {w : ℕ} (b : Builder) (slot features : ℕ)
    → HasUsed tx_max w b
    → slot < w
    → w ≤ 60
    → HasRoom w (w + 8) (put_features b slot features)
unfolding put_features
put_features-HasRoom {w} b slot features h inside room = elim (Bool-cases (features == 0)) [
  | inl z ↦ rw z (w, omega arith, omega arith, h)
  | inr z ↦ rw z (listed-HasRoom b slot (features % 2 == 1) (features / 2 % 2 == 1) h inside room)
]

put_options-HasRoom :
    {w : ℕ} {b : Builder} (params : ℕ) (opt : Options)
    → HasUsed tx_max w b
    → params ≡ 13
    → 17 ≤ w
    → w ≤ 42
    → length opt.version ≤ 63
    → length opt.arch ≤ 63
    → length opt.local_ip ≤ 16
    → length opt.connector_id ≡ 16
    → HasRoom w 127 (put_options b params opt)
unfolding put_options
put_options-HasRoom params opt h at few many version arch ip id =
    let (options, h1) = build_struct-HasUsed _ 1 2 h (omega (arith, at)) (omega arith) in
    let h2 = set_uint-HasUsed _ 0 1 (bit opt.replace_existing) h1 refl (omega (arith, options)) in
    let h3 = set_uint-HasUsed _ 2 1 opt.previous_attempts h2 refl (omega (arith, options)) in
    let (client, h4) = build_struct-HasUsed _ 0 4 h3 (omega (arith, options)) (omega arith) in
    let h5 = blob-HasUsed _ opt.connector_id false h4 (omega (arith, client)) (omega (arith, id)) in
    let (v, lo, hi, h6) =
      put_features-HasRoom _ _ opt.features h5 (omega (arith, client)) (omega (arith, id)) in
    let h7 = blob-HasUsed _ opt.version true h6 (omega (arith, client, id)) (omega (arith, id)) in
    let h8 = blob-HasUsed _ opt.arch true h7 (omega (arith, client, id)) (omega (arith, id)) in
    let h9 =
      blob-HasUsed _ opt.local_ip false h8 (omega (arith, options, id)) (omega (arith, id)) in
    (_, omega (arith, id), omega (arith, id), h9)

is_accepted_lem :
    (cred : Credentials) (opt : Options)
    → is_accepted cred opt ≡ true
    → (length opt.version ≤ 63)
      × (length opt.arch ≤ 63)
      × (length opt.local_ip ≤ 16)
      × (32 ≤ length cred.tunnel_secret)
      × (length cred.tunnel_secret ≤ 128)
unfolding is_accepted ascii
is_accepted_lem cred opt h = ground (arith, h)

-- The registration request fits whatever the credentials and the options hold, and is one message.
pub request-IsSent :
    (capability : ℕ) (cred : Credentials) (opt : Options) (out : Bytes)
    → is_accepted cred opt ≡ true
    → length cred.tunnel_id ≡ 16
    → length opt.connector_id ≡ 16
    → length out ≡ tx_max
    → IsSent tx_max (build_end (put_request (build_init out tx_max).1 capability cred opt))
unfolding put_request
request-IsSent capability cred opt out accepted tunnel connector size =
    let (version, arch, ip, _, secret) = is_accepted_lem cred opt accepted in
    let h = build_init-HasUsed out tx_max size (omega arith) (omega arith) in
    let (payload, h1) = call-HasUsed capability 1 0 h in
    let (params, h2) = build_struct-HasUsed _ 1 3 h1 (omega (arith, payload)) (omega arith) in
    let h3 = set_uint-HasUsed _ 0 1 opt.connection_index h2 refl (omega (arith, params)) in
    let (w, lo, hi, h4) = put_auth-HasRoom _ cred h3 params secret tunnel in
    let (v, _, _, h5) = put_options-HasRoom _ opt h4 params lo hi version arch ip connector in
    build_end-IsSent h5
