-- ===== src/Lib.antt =====
-- A model of the protocol core of esp-cf-tunnel, a Cloudflare Tunnel connector for ESP32 devices, in
-- components/esp_cf_tunnel. The device finds the edge by DNS, opens one HTTP/2 connection to it,
-- registers over Cap'n Proto RPC inside one stream of that connection, and then serves requests whose headers
-- travel in a Base64 notation of their own. A reducer without I/O decides what the connection does next.
--
-- The parts, and the file that models each (paths without a directory stand below
-- components/esp_cf_tunnel):
-- - Core: include/cf_core.h. `CfResult` is `none` for `CF_OK`; a function that fills its output
--   only on success returns a `Result`. `Bytes` is what a `cf_bytes` view shows.
-- - Lifecycle: src/cf_lifecycle.c, the reducer. Each `cf_lifecycle_*` function is the
--   function of that name, from a record to a record; `run` makes any sequence of calls.
-- - Base64: src/protocol/cf_base64.c, both directions, padded and raw; it also holds `cf_secure_zero`.
-- - Framing: src/protocol/cf_capnp_framing.c. `feed` is `cf_capnp_feed`; the callback is an argument,
--   and its context is passed along. Of the framer's buffer the model keeps the bytes received.
-- - Capnp: src/protocol/cf_capnp.c; Checks, Follow and Reader are the reader, Builder the builder. The
--   reader's `follow` is cut into `resolve`, `resolve_far` and the values that a near pointer can lead to; the builder is
--   a record with the bytes of the caller's buffer. The reader takes the framing's views of the segments.
-- - Dns.Names, Dns.Query and Dns.Records: src/protocol/cf_dns.c. `read_name` is the loop on a
--   cursor, `parse` is `cf_dns_parse` and returns the records that count.
-- - Headers: src/protocol/cf_headers.c, on top of Base64.
-- - Rpc: src/protocol/cf_rpc.c, the registration, on top of Capnp. The file Rpc holds the state and the
--   requests, Rpc.Receive the answers; a call returns a `Reply` with its result, the bytes it hands out and the
--   new state. `reply_to` makes any call, `run` any sequence of them.
-- - H2: src/transport/cf_h2.c, on top of Headers. nghttp2 and the application are a record of functions,
--   `Outside`; a callback of the application names the calls of the adapter that it makes. H2.Receive holds the
--   callbacks that nghttp2 makes, H2.Respond the calls of the application, H2.Session the calls of the
--   owner, where nghttp2 answers with the callbacks that it makes, and H2.Heap the allocator, where an address comes from `malloc`.
-- - Json: src/protocol/cf_json.c. The functions of cJSON are a record, `Cjson`; an item is the fields of the
--   structure that the code reads, and its children. A parse yields the error that `cf_json_failure` returns next.
-- - Config: src/protocol/cf_config.c, on top of Json; `apply` is `cf_config_apply_ex`, cut at the envelope, the
--   configuration and the rules, and returns the result, the reason and the state.
-- - Token: src/protocol/cf_credentials.c, on top of Base64 and Json; its credentials go to Rpc.
-- - Tunnel: src/transport/esp_cf_tunnel.c. Tunnel.Streams holds the requests and the messages of the edge, Tunnel.Transfers
--   the data and the updates; they call Lifecycle, Rpc, Framing and Config, and name the calls of H2 that they make. Tunnel.Edge
--   is the choice of the edge inside `discover`, Tunnel.Task the rest of `discover`, `retry` and
--   `close_connection`, Tunnel.Exchange `connect_tls` and `communicate`, Tunnel.Loop `run` and the calls of the owner while the
--   tunnel exists, Tunnel.Owner its making, its end and the snapshot. What sockets, TLS, nghttp2, the clock and the
--   allocator return in a round is a part of the `Round`, with one time for all that the round reads; what the
--   adapter does inside a call is a sequence of the callbacks, `Callbacks`. The callbacks of the firmware are a
--   record, `Firmware`. A `Move` is a call of the owner or a round.
-- - Prelude: tests on the native numbers, lists by native numbers, and the search of a table.
-- Each part has a module `Runs` (and Tunnel a second one, TaskRuns) with concrete runs, among them those that show that a
-- theorem's hypotheses can hold.
--
-- Numbers are natural numbers; where the code keeps 8, 16, 32 or 64 bits, the wrap is written out by `u8`,
-- `u16`, `u32` and `u64`. A store outside a buffer lengthens the list of its bytes, so that a kept length is a
-- bounds check. Null pointers have no counterpart, for a reference is a value; the guards on them are left out.
--
-- Fuel: `feed_loop` of Framing has the length of the input, and each round takes a byte at least.
-- `read_loop` of Dns has 144 rounds: sixteen hops, 127 labels and the last round.
-- `lexemes` of Json has the length of the text, and each round takes a byte at least; `decimal` of Config has ten
-- rounds, for a version has ten digits at most. The loops of reads and writes of Tunnel.Exchange have the eight
-- rounds that the code has. All other loops are structural.
--
-- Not modelled: the texts for people, `select` and the delays of the task (src/transport/esp_cf_tunnel.c), the
-- TLS diagnostics (src/transport/cf_tls_diag.c) and the counters of the snapshot, which nothing reads back; the
-- vendored cJSON and nghttp2, the examples, the tests and the tools.
pub mod Prelude
pub mod Core
pub mod Lifecycle
pub mod Base64
pub mod Framing
pub mod Capnp
pub mod Dns
pub mod Headers
pub mod Rpc
pub mod H2
pub mod Json
pub mod Config
pub mod Token
pub mod Tunnel
