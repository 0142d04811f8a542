-- ===== src/H2/Frame.antt =====
-- The frames that the callbacks of components/esp_cf_tunnel/src/transport/cf_h2.c look at, and their tests.
use esp_cf_tunnel.Prelude.{
  ℕ, ◌+◌, ◌-◌, Bool, true, false, ◌||◌, ◌&&◌, not, Option, none, some, List, [], ◌∷◌, ltb, ◌==◌,
  if◌then◌else◌, length, take, map, replicate, bytes_of,
}
use esp_cf_tunnel.Core.{Bytes}
use esp_cf_tunnel.Headers.{Header}
use esp_cf_tunnel.H2.{
  Kind, http, control, config, same_kind, Stream, empty_slot, Stats, header_max, header_bytes_max,
  equals,
}

-- The types of frames that the adapter looks at.
pub data FrameType : Type 0 where
  headers_frame data_frame settings_frame goaway_frame other_frame : FrameType

-- `nghttp2_frame`: the fields that the adapter reads.
pub record Frame : Type 0 where
  pub type : FrameType
  pub id : ℕ
  pub is_request : Bool
  pub ack : Bool
  pub end_stream : Bool
  pub error_code : ℕ
  pub last_stream : ℕ
  pub opaque : Bytes

abbrev pub is_headers : FrameType → Bool
is_headers headers_frame = true
is_headers _ = false

abbrev pub is_data : FrameType → Bool
is_data data_frame = true
is_data _ = false

abbrev pub is_settings : FrameType → Bool
is_settings settings_frame = true
is_settings _ = false

abbrev pub is_goaway : FrameType → Bool
is_goaway goaway_frame = true
is_goaway _ = false

-- A slot that `begin_headers` takes.
abbrev pub fresh_slot : ℕ → ℕ → Stream
fresh_slot id now = record empty_slot { id = id; progress_ms = now }

-- A name that must not come twice: a pseudo field or a control field.
unfoldable pub is_routing : Bytes → Bool
is_routing name =
    equals (take 1 name) (bytes_of ":") || equals (take 15 name) (bytes_of "cf-cloudflared-")

unfoldable pub has_name : List Header → Bytes → Bool
has_name [] name = false
has_name (h ∷ hs) name = equals h.name name || has_name hs name

-- The conditions under which `on_header` rejects the stream.
unfoldable pub is_rejected : List Header → ℕ → Bytes → Bytes → Bool
is_rejected headers used name value =
    length headers == header_max
    || ltb (header_bytes_max - used) (length name)
    || ltb (header_bytes_max - used - length name) (length value)
    || is_routing name && has_name headers name

-- The kind that the upgrade field announces; `none` is a kind that is not known.
unfoldable pub kind_of : Bytes → Option Kind
kind_of upgrade =
    if equals upgrade (bytes_of "control-stream")
    then some control
    else if equals upgrade (bytes_of "update-configuration")
    then some config
    else if not (length upgrade == 0)
    then none
    else some http

-- The streams of a kind that are served.
abbrev pub is_served : Kind → Stream → Bool
is_served k s = not (s.id == 0) && s.headers_done && not s.is_reset && same_kind s.kind k

unfoldable pub count : (Stream → Bool) → List Stream → ℕ
count test [] = 0
count test (s ∷ ss) = (if test s then 1 else 0) + count test ss

abbrev pub served : Kind → List Stream → ℕ
served k ss = count (is_served k) ss

abbrev pub limit_of : ℕ → Kind → ℕ
limit_of apps http = apps
limit_of apps control = 1
limit_of apps config = 1

-- `cf_secure_zero(h->header_bytes, h->header_used)`, as the entries show it.
abbrev pub wipe : List Header → List Header
wipe headers =
    map
      (λ (h : Header). record h {
        name = replicate (length h.name) 0;
        value = replicate (length h.value) 0;
      })
      headers

-- What `received_frame` notes of a frame before it looks at the stream.
abbrev pub noted : Stats → Frame → Stats
noted stats f =
    let stats1 =
      if is_settings f.type && not f.ack then record stats { peer_settings = true } else stats in
    if is_goaway f.type
    then record stats1 {
      goaway = true;
      goaway_error = f.error_code;
      peer_goaway_error = f.error_code;
      peer_goaway_last_stream = f.last_stream;
    }
    else stats1
