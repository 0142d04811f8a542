-- ===== src/H2.antt =====
-- The HTTP/2 adapter of components/esp_cf_tunnel: include/cf_h2.h and the stream table of
-- src/transport/cf_h2.c. nghttp2 and the callbacks of the application are parameters.
pub mod Respond
pub mod Frame
pub mod Receive
pub mod Session
pub mod Table
pub mod Invariant
pub mod Slots
pub mod Callbacks
pub mod Frames
pub mod Answered
pub mod Arrivals
pub mod Departures
pub mod Events
pub mod Calls
pub mod Responses
pub mod Heap
mod Runs
use esp_cf_tunnel.Prelude.{
  ℕ, zero, suc, ◌+◌, ◌-◌, ◌*◌, Bool, true, false, ◌||◌, ◌&&◌, not, Option, none, some, List, [],
  ◌∷◌, ltb, leb, ◌==◌, if◌then◌else◌, length, bytes_of,
}
use esp_cf_tunnel.Core.{Bytes, CfResult, memory, u32}
use esp_cf_tunnel.Headers.{Header}

abbrev pub application_max : ℕ
application_max = 4

abbrev pub header_max : ℕ
header_max = 48

abbrev pub header_bytes_max : ℕ
header_bytes_max = 8192

abbrev pub chunk : ℕ
chunk = 2048

-- `cf_h2_kind`
pub data Kind : Type 0 where
  http control config : Kind

abbrev pub same_kind : Kind → Kind → Bool
same_kind http http = true
same_kind control control = true
same_kind config config = true
same_kind _ _ = false

-- `stream`; the id 0 marks an empty slot.
pub record Stream : Type 0 where
  pub id : ℕ
  pub kind : Kind
  pub headers_done : Bool
  pub response : Bool
  pub is_reset : Bool
  pub deferred : Bool
  pub progress_ms : ℕ

-- `(stream){0}`
abbrev pub empty_slot : Stream
empty_slot = record {
  id = 0;
  kind = http;
  headers_done = false;
  response = false;
  is_reset = false;
  deferred = false;
  progress_ms = 0;
}

-- `cf_h2_stats` without the counters of the allocator. `last_error` is the number without its sign.
pub record Stats : Type 0 where
  pub active_streams : ℕ
  pub rejected_streams : ℕ
  pub last_error : ℕ
  pub goaway_error : ℕ
  pub peer_goaway_error : ℕ
  pub peer_goaway_last_stream : ℕ
  pub local_goaway_reason : Bytes
  pub local_goaway : Bool
  pub peer_settings : Bool
  pub goaway : Bool

-- `struct cf_h2`; `headers` holds the texts that the entries show in `header_bytes`, and its length is
-- `header_count`. `outside` is the state of nghttp2 and of the application.
pub record Engine (W : Type 0) : Type 0 where
  pub app_limit : ℕ
  pub now_ms : ℕ
  pub streams : List Stream
  pub headers : List Header
  pub header_used : ℕ
  pub header_stream : ℕ
  pub pending : Bytes
  pub error : CfResult
  pub stats : Stats
  pub outside : W

-- `cf_h2_request`
pub record Request : Type 0 where
  pub stream : ℕ
  pub kind : Kind
  pub headers : List Header
  pub end_stream : Bool

-- A call of the adapter that a callback makes.
pub data Submission : Type 0 where
  responds : ℕ → ℕ → List Header → Bool → Submission
  resumes : ℕ → Submission
  resets : ℕ → ℕ → Submission

-- What a callback leaves: its result, the calls that it made, and the state outside before them.
abbrev pub Answer : Type 0 → Type 0
Answer W = CfResult × List Submission × W

-- The functions of nghttp2 that the adapter calls, each with `true` for an error, and the callbacks of
-- the application.
pub record Outside (W : Type 0) : Type 0 where
  pub submit_rst : W → ℕ → ℕ → Bool × W
  pub consume : W → ℕ → ℕ → Bool × W
  pub consume_connection : W → ℕ → Bool × W
  pub submit_response : W → ℕ → List Header → Bool × W
  pub resume_data : W → ℕ → Bool × W
  pub submit_goaway : W → Bool × W
  pub on_request : Engine W → Request → Answer W
  pub on_data : Engine W → ℕ → Bytes → Bool → Answer W
  -- The result of `read_response`, `n` and `eof`, and what the callback leaves else.
  pub on_read : Engine W → ℕ → ℕ → CfResult × ℕ × Bool × List Submission × W
  pub on_closed : Engine W → ℕ → ℕ → List Submission × W

-- The error codes of HTTP/2 that the adapter sends.
abbrev pub protocol_error : ℕ
protocol_error = 1

abbrev pub refused_stream : ℕ
refused_stream = 7

abbrev pub cancel : ℕ
cancel = 8

abbrev pub enhance_your_calm : ℕ
enhance_your_calm = 11

-- `find_stream`: the first slot with the id.
unfoldable pub find_stream : List Stream → ℕ → Option Stream
find_stream [] id = none
find_stream (s ∷ ss) id = if s.id == id then some s else find_stream ss id

-- A store through the pointer that `find_stream` returns.
unfoldable pub update : List Stream → ℕ → (Stream → Stream) → List Stream
update [] id f = []
update (s ∷ ss) id f = if s.id == id then f s ∷ ss else s ∷ update ss id f

unfoldable pub equals : Bytes → Bytes → Bool
equals [] [] = true
equals (x ∷ xs) (y ∷ ys) = x == y && equals xs ys
equals _ _ = false

-- `cf_h2_header`
unfoldable pub header : List Header → Bytes → Bytes
header [] name = []
header (h ∷ hs) name = if equals h.name name then h.value else header hs name

abbrev pub is_reset_in : Option Stream → Bool
is_reset_in none = false
is_reset_in (some s) = s.is_reset

module _ {W : Type 0} (o : Outside W) where
  -- `cf_h2_reset`
  unfoldable pub reset : Engine W → ℕ → ℕ → CfResult × Engine W
  reset h id code =
      let (bad, w) = o.submit_rst h.outside id code in
      let marked = update h.streams id (λ s. record s { is_reset = true }) in
      let stats = record h.stats { rejected_streams = u32 (h.stats.rejected_streams + 1) } in
      if is_reset_in (find_stream h.streams id)
      then (none, h)
      else if bad
      then (some memory, record h { error = some memory; outside = w })
      else (none, record h { streams = marked; stats = stats; outside = w })

  -- `cf_h2_reset(...) == CF_OK ? 0 : NGHTTP2_ERR_CALLBACK_FAILURE`; `true` is 0.
  unfoldable pub reset_stream : Engine W → ℕ → ℕ → Bool × Engine W
  reset_stream h id code =
      let (rc, h') = reset h id code in (elim rc [ none ↦ true | some e ↦ false ], h')
