-- ===== src/Base64.antt =====
-- cf_base64.c under components/esp_cf_tunnel/src/protocol: strict Base64, padded and raw, and
-- `cf_secure_zero`. A buffer is the list of the bytes that a call leaves in it.
pub mod Letters
pub mod Groups
pub mod RoundTrip
pub mod Digits
pub mod Canonical
mod Runs
use esp_cf_tunnel.Prelude.{
  ℕ, zero, suc, ◌+◌, ◌-◌, ◌*◌, ◌/◌, ◌%◌, ◌^◌, Bool, true, false, ◌&&◌, not, Option, none, some,
  List, [], ◌∷◌, ◌++◌, ltb, leb, ◌==◌, if◌then◌else◌, length, get_or, take, bytes_of,
}
use esp_cf_tunnel.Core.{Bytes, Result, ok, err, ◌>>=◌, format, limit, u8, u32}

-- The loop of `cf_secure_zero`: the first `len` bytes of the object become zero.
unfoldable pub secure_zero : Bytes → ℕ → Bytes
secure_zero bytes zero = bytes
secure_zero [] (suc len) = []
secure_zero (b ∷ bs) (suc len) = 0 ∷ secure_zero bs len

-- The value of a digit; `none` is -1.
unfoldable pub digit : ℕ → Option ℕ
digit c =
    if leb b'A' c && leb c b'Z'
    then some (c - b'A')
    else if leb b'a' c && leb c b'z'
    then some (c - b'a' + 26)
    else if leb b'0' c && leb c b'9'
    then some (c - b'0' + 52)
    else if c == b'+'
    then some 62
    else if c == b'/'
    then some 63
    else none

-- A decoded byte in front of what the rest of the loop writes.
abbrev pub emit : ℕ → Result Bytes → Result Bytes
emit b (ok bs) = ok (b ∷ bs)
emit b (err e) = err e

-- The digits from here on, with the accumulator `bits` (a uint32_t) of which the low `pending` bits
-- are still to be written. `bits << 6 | d` is a sum, for the shift leaves six zero bits.
unfoldable pub decode_loop : Bytes → ℕ → ℕ → Result Bytes
decode_loop [] bits pending =
    if ltb 0 pending && not (bits % 2 ^ pending == 0) then err format else ok []
decode_loop (c ∷ cs) bits pending = elim (digit c) [
  | none ↦ err format
  | some d ↦
      let bits' = u32 (bits * 64 + d) in
      let full = leb 8 (pending + 6) in
      let pending' = if full then pending + 6 - 8 else pending + 6 in
      let rest = decode_loop cs bits' pending' in
      if full then emit (u8 (bits' / 2 ^ pending')) rest else rest
]

-- `if (n && in.ptr[n - 1] == '=') --n;`
unfoldable pub strip_pad : Bytes → ℕ → ℕ
strip_pad input n = if ltb 0 n && get_or input (n - 1) 0 == b'=' then n - 1 else n

-- What `cf_base64_decode` does once the padding is gone.
unfoldable pub decode_digits : Bytes → ℕ → ℕ → Result Bytes
decode_digits input n capacity =
    let count = n / 4 * 3 + (if n % 4 == 0 then 0 else n % 4 - 1) in
    if n % 4 == 1
    then err format
    else if ltb capacity count
    then err limit
    else decode_loop (take n input) 0 0

-- `cf_base64_decode`: the bytes that it writes into a buffer of `capacity` bytes.
unfoldable pub decode : Bytes → Bool → ℕ → Result Bytes
decode input padded capacity =
    if not padded
    then decode_digits input (length input) capacity
    else if not (length input % 4 == 0)
    then err format
    else decode_digits input (strip_pad input (strip_pad input (length input))) capacity

abbrev pub alphabet : List ℕ
alphabet = bytes_of "ABCDEFGHIJKLMNOPQRSTUVWXYZabcdefghijklmnopqrstuvwxyz0123456789+/"

-- `alphabet[i]`
unfoldable pub letter : ℕ → ℕ
letter i = get_or alphabet i 0

-- `alphabet[(word >> shift) & 63]`
unfoldable pub sextet : ℕ → ℕ → ℕ
sextet word shift = letter (word / 2 ^ shift % 64)

-- The `=` signs that complete a group.
abbrev pub padding : Bool → ℕ → Bytes
padding false n = []
padding true zero = []
padding true (suc n) = b'=' ∷ padding true n

unfoldable pub encode_loop : Bool → Bytes → Bytes
encode_loop padded [] = []
encode_loop padded (a ∷ []) =
    let word = a * 0x10000 in sextet word 18 ∷ sextet word 12 ∷ padding padded 2
encode_loop padded (a ∷ b ∷ []) =
    let word = a * 0x10000 + b * 0x100 in
    sextet word 18 ∷ sextet word 12 ∷ sextet word 6 ∷ padding padded 1
encode_loop padded (a ∷ b ∷ c ∷ rest) =
    let word = a * 0x10000 + b * 0x100 + c in
    sextet word 18 ∷ sextet word 12 ∷ sextet word 6 ∷ sextet word 0 ∷ encode_loop padded rest

-- `SIZE_MAX` of the 32-bit targets.
abbrev pub size_max : ℕ
size_max = 0xffff_ffff

-- The length of the encoding of `n` bytes.
unfoldable pub encoded_size : Bool → ℕ → ℕ
encoded_size padded n = n / 3 * 4 + (if n % 3 == 0 then 0 else if padded then 4 else n % 3 + 1)

-- `cf_base64_encode`: the characters that it writes into a buffer of `capacity` bytes.
unfoldable pub encode : Bytes → Bool → ℕ → Result Bytes
encode input padded capacity =
    if ltb ((size_max - 4) / 4) (length input / 3)
    then err limit
    else if ltb capacity (encoded_size padded (length input))
    then err limit
    else ok (encode_loop padded input)
