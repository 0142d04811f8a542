-- ===== src/Base64/Runs.antt =====
-- Concrete encodings, and the theorems at concrete inputs.
use esp_cf_tunnel.Prelude.{◌≤◌, ◌≡◌, refl, true, false, [], ◌∷◌, bytes_of, arith}
use esp_cf_tunnel.Core.{ok, err, format, limit}
use esp_cf_tunnel.Base64.{
  digit, decode_loop, decode_digits, strip_pad, decode, encode_loop, sextet, letter, encoded_size,
  encode, secure_zero,
}
use esp_cf_tunnel.Base64.RoundTrip.{decode-encode}
use esp_cf_tunnel.Base64.Canonical.{encode-decode}

encode_padded : encode (bytes_of "Many") true 8 ≡ ok (bytes_of "TWFueQ==")
unfolding encode encode_loop encoded_size sextet letter
encode_padded = refl

decode_padded : decode (bytes_of "TWFueQ==") true 4 ≡ ok (bytes_of "Many")
unfolding decode decode_digits decode_loop strip_pad digit
decode_padded = refl

-- A nonzero spare bit is refused, and so is padding in raw input.
decode_spare_bits : decode (bytes_of "TWFueR==") true 4 ≡ err format
unfolding decode decode_digits decode_loop strip_pad digit
decode_spare_bits = refl

decode_raw_padding : decode (bytes_of "TWFueQ==") false 9 ≡ err format
unfolding decode decode_digits decode_loop strip_pad digit
decode_raw_padding = refl

decode_no_room : decode (bytes_of "TWFueQ") false 3 ≡ err limit
unfolding decode decode_digits decode_loop strip_pad digit
decode_no_room = refl

secure_zero_part : secure_zero (1 ∷ 2 ∷ 3 ∷ []) 2 ≡ 0 ∷ 0 ∷ 3 ∷ []
unfolding secure_zero
secure_zero_part = refl

decode-encode_example : decode (bytes_of "TWFueQ==") true 4 ≡ ok (bytes_of "Many")
decode-encode_example =
    decode-encode (bytes_of "Many") true 8 4 (omega arith) encode_padded (omega arith)

encode-decode_example : (encode (bytes_of "Many") true 8 ≡ ok (bytes_of "TWFueQ==")) × (4 ≤ 4)
encode-decode_example =
    encode-decode (bytes_of "TWFueQ==") true 4 8 decode_padded (omega arith) (omega arith)
