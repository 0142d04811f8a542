-- ===== src/Headers/Runs.antt =====
-- Concrete header lists, and the theorems at concrete inputs.
use esp_cf_tunnel.Prelude.{◌≤◌, ◌≡◌, refl, true, List, [], ◌∷◌, length, min, All, bytes_of, arith}
use esp_cf_tunnel.Core.{Bytes, ok, err, format}
use esp_cf_tunnel.Base64
use esp_cf_tunnel.Headers.{
  Header, encode, need_loop, write_loop, decode, decode_fields, decode_entry, fields, cut_colon,
  valid_name, valid_value, token_char, value_char, is_control, has_prefix, count_max, decoded_max,
  wire_max,
}
use esp_cf_tunnel.Headers.Written.{total}
use esp_cf_tunnel.Headers.RoundTrip.{decode-encode_headers}
use esp_cf_tunnel.Headers.Accepted.{IsSafe, decode-IsSafe}

-- A repeated name, and an empty value.
abbrev headers : List Header
headers =
    record { name = bytes_of "Via"; value = bytes_of "a" }
    ∷ record { name = bytes_of "Via"; value = [] }
    ∷ []

abbrev wire : Bytes
wire = bytes_of "Vmlh:YQ;Vmlh:"

encoded : encode headers 64 ≡ ok wire
unfolding encode need_loop write_loop valid_name valid_value token_char value_char Base64.encode
    Base64.encoded_size Base64.encode_loop Base64.sextet Base64.letter
encoded = refl

-- Empty fields are passed over.
decoded : decode (bytes_of ";Vmlh:YQ;;Vmlh:;") 8 64 ≡ ok headers
unfolding decode decode_fields decode_entry fields cut_colon valid_name valid_value token_char
    value_char Base64.decode Base64.decode_digits Base64.decode_loop Base64.digit
decoded = refl

-- `DQ` is a carriage return.
line_break : decode (bytes_of "Vmlh:DQ") 8 64 ≡ err format
unfolding decode decode_fields decode_entry fields cut_colon valid_name valid_value token_char
    value_char Base64.decode Base64.decode_digits Base64.decode_loop Base64.digit
line_break = refl

control : is_control (bytes_of "Cf-Int-Ray") ≡ true
unfolding is_control has_prefix
control = refl

decode-encode_headers_example :
    (length wire ≤ 64) × (length wire ≤ wire_max) × (decode wire 2 7 ≡ ok headers)
decode-encode_headers_example =
    decode-encode_headers headers 64 2 7 ((omega arith, omega arith), ((omega arith, tt), tt))
      encoded (omega arith) (omega arith)

decode-IsSafe_example :
    All IsSafe headers × (length headers ≤ min 8 count_max) × (total headers ≤ min 64 decoded_max)
decode-IsSafe_example = decode-IsSafe (bytes_of ";Vmlh:YQ;;Vmlh:;") 8 64 decoded
