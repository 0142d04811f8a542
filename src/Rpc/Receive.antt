-- ===== src/Rpc/Receive.antt =====
-- `cf_rpc_receive` of components/esp_cf_tunnel/src/protocol/cf_rpc.c.
use esp_cf_tunnel.Prelude.{
  ℕ, ◌+◌, ◌-◌, ◌/◌, ◌%◌, Bool, true, false, ◌||◌, ◌&&◌, not, none, some, ◌++◌, ◌==◌, if◌then◌else◌,
  length, take, drop, Option,
}
use esp_cf_tunnel.Core.{
  Bytes, CfResult, CfError, ok, err, argument, state, format, unsupported, u32,
}
use esp_cf_tunnel.Capnp.Checks.{Kind, Value, Reader, read_init, null, struct, capability}
use esp_cf_tunnel.Capnp.Follow.{root}
use esp_cf_tunnel.Capnp.Reader.{field, element, uint, bytes, is_list}
use esp_cf_tunnel.Rpc.{
  State, Rpc, Reply, tx_max, bit, output_ok, ascii, refuse, fail, finish, release_cap, idle,
  bootstrapping, ready, registering, registered, unregistering, closed, rejected, failed,
}

abbrev pub is_struct : Kind → Bool
is_struct struct = true
is_struct _ = false

abbrev pub is_null : Kind → Bool
is_null null = true
is_null _ = false

abbrev pub is_capability : Kind → Bool
is_capability capability = true
is_capability _ = false

unfoldable pub required_struct : Value × Reader → Value × Reader
required_struct (v, rd) =
    if is_struct v.kind
    then (v, rd)
    else (v, record rd { error = elim rd.error [ none ↦ some format | some e ↦ some e ] })

-- What the results leave: the result of the call, `*r`, and the reader.
abbrev pub Outcome : Type 0
Outcome = CfResult × Rpc × Reader

-- Only `senderHosted` is accepted.
unfoldable pub bootstrap_result : Rpc → Reader → Value → Outcome
bootstrap_result r rd payload =
    let (content, r1) = field rd payload 0 in
    let (caps, r2) = field r1 payload 1 in
    let (desc, r3) = element r2 caps 0 in
    let (kind, r4) = uint r3 desc 0 2 in
    let (id, r5) = uint r4 desc 4 4 in
    let r' = record r { capability = u32 id } in
    if not (is_capability content.kind)
      || not (is_list caps.kind)
      || not (caps.element_size == 7)
      || not (caps.count == 1)
      || not (content.index == 0)
    then (some unsupported, r, r2)
    else if not (kind == 1)
    then (some unsupported, r, r4)
    else elim r5.error [
      | some e ↦ (some e, r', r5)
      | none ↦ (none, record r' { have_capability = true; phase = ready }, r5)
    ]

-- `ns` is a signed number of nanoseconds in 64 bits; it is rounded up, and negative means no delay.
unfoldable pub retry_ms : ℕ → ℕ
retry_ms ns =
    if not (ns / 0x8000_0000_0000_0000 == 0)
    then 0
    else ns / 1000000 + bit (not (ns % 1000000 == 0))

-- `registration_result` on a registration that the edge refuses.
unfoldable pub on_rejection : Rpc → Reader → Value → Outcome
on_rejection r rd details =
    let (ns, r1) = uint rd details 0 8 in
    let (cause, r2) = field r1 details 0 in
    let (_, r3) = bytes r2 cause true in
    let (flags, r4) = uint r3 details 8 1 in
    let r' = record r { should_retry = flags % 2 == 1; retry_after_ms = retry_ms ns } in
    elim r4.error [ some e ↦ (some e, r', r4) | none ↦ (none, record r' { phase = rejected }, r4) ]

-- `registration_result` on a registration that the edge accepts.
unfoldable pub on_acceptance : Rpc → Reader → Value → Outcome
on_acceptance r rd details =
    let (first, r1) = field rd details 0 in
    let (id, r2) = bytes r1 first false in
    let (second, r3) = field r2 details 1 in
    let (location, r4) = bytes r3 second true in
    let (flags, r5) = uint r4 details 0 1 in
    let r' = record r { remotely_managed = flags % 2 == 1 } in
    let accepted = record r' { connection_id = id; location = location; phase = registered } in
    elim r5.error [
      | some e ↦ (some e, r', r5)
      | none ↦
          if not (length id == 16) || not (ascii location 31)
          then (some format, r', r5)
          else if not r'.remotely_managed
          then (some unsupported, r', r5)
          else (none, accepted, r5)
    ]

unfoldable pub registration_result : Rpc → Reader → Value → Outcome
registration_result r rd payload =
    let (results, r1) = required_struct (field rd payload 0) in
    let (response, r2) = required_struct (field r1 results 0) in
    let (kind, r3) = uint r2 response 0 2 in
    let (details, r4) = required_struct (field r3 response 0) in
    elim r4.error [
      | some e ↦ (some e, r, r4)
      | none ↦
          if kind == 0
          then on_rejection r r4 details
          else if not (kind == 1)
          then (some unsupported, r, r4)
          else on_acceptance r r4 details
    ]

-- The answer to the question whether to unregister: an empty result is null or an empty structure.
unfoldable pub unregister_result : Rpc → Reader → Value → Outcome
unregister_result r rd payload =
    let (content, r1) = field rd payload 0 in
    let good = is_null content.kind || is_struct content.kind in
    (if good then none else some format, record r { phase = closed }, r1)

-- The results of a call that is not the first one: `expected` is the number of the question.
unfoldable pub call_result : Rpc → Reader → Value → ℕ → Outcome
call_result r rd payload expected =
    let (caps, r1) = field rd payload 1 in
    if not (is_null caps.kind)
      && (not (is_list caps.kind) || not (caps.element_size == 7) || not (caps.count == 0))
    then (some unsupported, r, r1)
    else if expected == 1
    then registration_result r r1 payload
    else unregister_result r r1 payload

abbrev pub is_bootstrapping : State → Bool
is_bootstrapping bootstrapping = true
is_bootstrapping _ = false

-- The number of the question that waits for its answer; `none` if no question does.
unfoldable pub expected_in : State → Option ℕ
expected_in bootstrapping = some 0
expected_in registering = some 1
expected_in unregistering = some 2
expected_in _ = none

abbrev pub is_closed : State → Bool
is_closed closed = true
is_closed _ = false

-- The answer of a call, and the release of the capability behind it.
unfoldable pub conclude : Rpc → ℕ → Bool → Bytes → Reply
conclude r answer boot out =
    let (rc, n, b) = finish answer (not boot) out tx_max in
    let plain : Reply = record { result = rc; written = n; buffer = b.buffer; rpc = r } in
    let (rc', extra, b') = release_cap r.capability (drop n b.buffer) (tx_max - n) in
    let released : Reply = record {
      result = rc';
      written = n + extra;
      buffer = take n b.buffer ++ b'.buffer;
      rpc = record r { have_capability = false };
    } in
    elim rc [ some e ↦ plain | none ↦ if is_closed r.phase then released else plain ]

-- `if (rd.error != CF_OK) rc = rd.error;`, and what follows.
unfoldable pub settle : Outcome → ℕ → Bool → Bytes → Reply
settle (rc, r, rd) answer boot out = elim rd.error [
  | some e ↦ fail r e true out
  | none ↦ elim rc [ some e ↦ fail r e true out | none ↦ conclude r answer boot out ]
]

unfoldable pub on_results : Rpc → Reader → Value → ℕ → Bytes → Reply
on_results r rd ret answer out =
    let boot = is_bootstrapping r.phase in
    let (payload, r1) = required_struct (field rd ret 0) in
    let outcome = if boot then bootstrap_result r r1 payload else call_result r r1 payload answer in
    settle outcome answer boot out

-- An RPC exception; it is not a rejection of the credentials.
unfoldable pub on_exception : Rpc → Reader → Value → ℕ → Bytes → Reply
on_exception r rd ret answer out =
    let (ex, r1) = required_struct (field rd ret 0) in
    let (cause, r2) = field r1 ex 0 in
    let (_, r3) = bytes r2 cause true in
    let (_, n, b) = finish answer true out tx_max in
    let why : CfError = elim r3.error [ none ↦ state | some e ↦ e ] in
    record {
      result = some why;
      written = n;
      buffer = b.buffer;
      rpc = record r { phase = failed; error = some why };
    }

unfoldable pub on_answer : Rpc → Reader → Value → ℕ → Bytes → Reply
on_answer r rd ret expected out =
    let (id, r1) = uint rd ret 0 4 in
    let (result_kind, r2) = uint r1 ret 6 2 in
    elim r2.error [
      | some e ↦ fail r e true out
      | none ↦
          if not (u32 id == expected)
          then fail r state true out
          else if result_kind == 1
          then on_exception r r2 ret expected out
          else if not (result_kind == 0)
          then fail r unsupported true out
          else on_results r r2 ret expected out
    ]

-- The edge aborts the connection; its reason is checked, and no message answers it.
unfoldable pub on_abort : Rpc → Reader → Value → Bytes → Reply
on_abort r rd ret out =
    let (cause, r1) = field rd ret 0 in
    let (_, r2) = bytes r1 cause true in
    fail r (elim r2.error [ none ↦ state | some e ↦ e ]) false out

unfoldable pub on_message : Rpc → Reader → Bytes → Reply
on_message r rd out =
    let (message, r1) = required_struct (root rd) in
    let (kind, r2) = uint r1 message 0 2 in
    let (ret, r3) = required_struct (field r2 message 0) in
    elim r3.error [
      | some e ↦ fail r e true out
      | none ↦
          if kind == 1
          then on_abort r r3 ret out
          else if not (kind == 3)
          then fail r unsupported true out
          else elim (expected_in r.phase) [
            | none ↦ fail r state true out
            | some expected ↦ on_answer r r3 ret expected out
          ]
    ]

-- The states in which nothing is received.
abbrev pub is_deaf : State → Bool
is_deaf idle = true
is_deaf failed = true
is_deaf closed = true
is_deaf rejected = true
is_deaf _ = false

-- `cf_rpc_receive`
unfoldable pub receive : Rpc → Bytes → Bytes → ℕ → Reply
receive r frame out capacity =
    if not (output_ok capacity)
    then refuse r out argument
    else if is_deaf r.phase
    then refuse r out state
    else elim (read_init frame) [ err e ↦ fail r e true out | ok rd ↦ on_message r rd out ]
