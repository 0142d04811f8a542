-- ===== src/Base64/RoundTrip.antt =====
-- What `cf_base64_encode` writes, `cf_base64_decode` reads back (cf_base64.c).
use esp_cf_tunnel.Prelude.{
  ℕ, zero, suc, ◌+◌, ◌-◌, ◌*◌, ◌/◌, ◌%◌, ◌^◌, ◌<◌, ◌≤◌, ◌≡◌, refl, Bool, true, false, some, [], ◌∷◌,
  ◌++◌, length, All, get_or, ◌==◌, if◌then◌else◌, arith, length-append, take-append, ◌≢◌,
  append-nil, ◌∙◌, get_or-append_left, get_or-append_right, All-get_or,
}
use esp_cf_tunnel.Core.{Bytes, ok}
use esp_cf_tunnel.Base64.{
  digit, sextet, decode_loop, decode_digits, strip_pad, decode, padding, encode_loop, encoded_size,
  encode,
}
use esp_cf_tunnel.Base64.Letters.{digit-letter}
use esp_cf_tunnel.Base64.Groups.{push, decode_two, decode_three, decode_four}

abbrev pub IsByte : ℕ → Type 0
IsByte b = b < 0x100

pub digit-sextet : (word shift : ℕ) → digit (sextet word shift) ≡ some (word / 2 ^ shift % 64)
unfolding sextet
digit-sextet word shift = digit-letter (word / 2 ^ shift % 64) (omega arith)

decode_loop-encode_loop :
    (xs : Bytes) (b : ℕ) → All IsByte xs → decode_loop (encode_loop false xs) b 0 ≡ ok xs
unfolding encode_loop
decode_loop-encode_loop [] b h = unfold decode_loop in refl
decode_loop-encode_loop (x ∷ []) b (hx, _) =
    let w = x * 0x10000 in
    ground
      (arith, decode_two _ _ (digit-sextet w 18) (digit-sextet w 12) b (omega arith) (omega arith))
decode_loop-encode_loop (x ∷ y ∷ []) b (hx, (hy, _)) =
    let w = x * 0x10000 + y * 0x100 in
    ground (
      arith,
      decode_three _ _ (digit-sextet w 18) (digit-sextet w 12) b _ (digit-sextet w 6) (omega arith)
          (omega arith) (omega arith),
    )
decode_loop-encode_loop (x ∷ y ∷ z ∷ rest) b (hx, (hy, (hz, hr))) =
    let w = x * 0x10000 + y * 0x100 + z in
    let b' =
      push (push (push (push b (w / 2 ^ 18 % 64)) (w / 2 ^ 12 % 64)) (w / 2 ^ 6 % 64))
        (w / 2 ^ 0 % 64) in
    ground (
      arith,
      decode_four _ _ (digit-sextet w 18) (digit-sextet w 12) b _ (digit-sextet w 6) _
          (digit-sextet w 0) (omega arith) (omega arith) (omega arith) (omega arith)
          (encode_loop false rest),
      decode_loop-encode_loop rest b' hr,
    )

-- How long the encoding is.
pub length-encode_loop :
    (padded : Bool) (xs : Bytes) → length (encode_loop padded xs) ≡ encoded_size padded (length xs)
unfolding encode_loop encoded_size
length-encode_loop true [] = refl
length-encode_loop false [] = refl
length-encode_loop true (x ∷ []) = refl
length-encode_loop false (x ∷ []) = refl
length-encode_loop true (x ∷ y ∷ []) = refl
length-encode_loop false (x ∷ y ∷ []) = refl
length-encode_loop true (x ∷ y ∷ z ∷ rest) = ground (arith, length-encode_loop true rest)
length-encode_loop false (x ∷ y ∷ z ∷ rest) = ground (arith, length-encode_loop false rest)

-- The padding that completes the last group.
abbrev pub pads : ℕ → ℕ
pads n = if n % 3 == 0 then 0 else 3 - n % 3

pads_step : (n : ℕ) → pads (suc (suc (suc n))) ≡ pads n
pads_step n = ground arith

pub encode_loop-padded :
    (xs : Bytes) → encode_loop true xs ≡ encode_loop false xs ++ padding true (pads (length xs))
unfolding encode_loop
encode_loop-padded [] = refl
encode_loop-padded (x ∷ []) = refl
encode_loop-padded (x ∷ y ∷ []) = refl
encode_loop-padded (x ∷ y ∷ z ∷ rest) =
    ground (arith, encode_loop-padded rest, pads_step (length rest))

letter-ne-pad : (c : ℕ) {d : ℕ} → digit c ≡ some d → c ≢ b'='
unfolding digit
letter-ne-pad c h = ground arith

sextet-ne-pad : (word shift : ℕ) → sextet word shift ≢ b'='
sextet-ne-pad word shift = letter-ne-pad (sextet word shift) (digit-sextet word shift)

encode_loop-ne-pad : (xs : Bytes) → All (λ c. c ≢ b'=') (encode_loop false xs)
unfolding encode_loop
encode_loop-ne-pad [] = tt
encode_loop-ne-pad (x ∷ []) = (sextet-ne-pad _ 18, (sextet-ne-pad _ 12, tt))
encode_loop-ne-pad (x ∷ y ∷ []) =
    (sextet-ne-pad _ 18, (sextet-ne-pad _ 12, (sextet-ne-pad _ 6, tt)))
encode_loop-ne-pad (x ∷ y ∷ z ∷ rest) = (
  sextet-ne-pad _ 18,
  (sextet-ne-pad _ 12, (sextet-ne-pad _ 6, (sextet-ne-pad _ 0, encode_loop-ne-pad rest))),
)

decode_digits-encode_loop :
    (xs ys : Bytes) (capacity : ℕ)
    → All IsByte xs
    → length xs ≤ capacity
    → decode_digits (encode_loop false xs ++ ys) (length (encode_loop false xs)) capacity ≡ ok xs
unfolding decode_digits encoded_size
decode_digits-encode_loop xs ys capacity h k = ground (
  arith,
  length-encode_loop false xs,
  take-append (encode_loop false xs) ys,
  decode_loop-encode_loop xs 0 h,
)

pub strip_pad_drop : (s : Bytes) (n : ℕ) → get_or s n 0 ≡ b'=' → strip_pad s (suc n) ≡ n
unfolding strip_pad
strip_pad_drop s n h = ground arith

strip_pad_keep : (e ys : Bytes) → All (λ c. c ≢ b'=') e → strip_pad (e ++ ys) (length e) ≡ length e
unfolding strip_pad
strip_pad_keep [] ys h = refl
strip_pad_keep (x ∷ xs) ys h = ground (
  arith,
  get_or-append_left (x ∷ xs) ys (length xs) 0,
  All-get_or (λ c. c ≢ b'=') (x ∷ xs) (length xs) 0 h,
)

strip_pad_last :
    (e ys : Bytes) (n : ℕ)
    → get_or ys n 0 ≡ b'='
    → strip_pad (e ++ ys) (suc (length e + n)) ≡ length e + n
strip_pad_last e ys n h = strip_pad_drop (e ++ ys) (length e + n) (get_or-append_right e ys n 0 ∙ h)

-- The two tests for `=` take off exactly the padding.
strip_pad-padding :
    (e : Bytes) (n : ℕ)
    → All (λ c. c ≢ b'=') e
    → n ≤ 2
    → let s = e ++ padding true n in strip_pad s (strip_pad s (length s)) ≡ length e
strip_pad-padding e zero h k =
    let l : length (e ++ []) ≡ length e = omega (arith, length-append e []) in
    rw (l, strip_pad_keep e [] h, strip_pad_keep e [] h)
strip_pad-padding e (suc zero) h k =
    let ys : Bytes = b'=' ∷ [] in
    let l : length (e ++ ys) ≡ suc (length e + 0) = omega (arith, length-append e ys) in
    let z : length e + 0 ≡ length e = omega arith in
    rw (l, strip_pad_last e ys 0 refl, z, strip_pad_keep e ys h)
strip_pad-padding e (suc (suc zero)) h k =
    let ys : Bytes = b'=' ∷ b'=' ∷ [] in
    let l : length (e ++ ys) ≡ suc (length e + 1) = omega (arith, length-append e ys) in
    let o : length e + 1 ≡ suc (length e + 0) = omega arith in
    let z : length e + 0 ≡ length e = omega arith in
    rw (l, strip_pad_last e ys 1 refl, o, strip_pad_last e ys 0 refl, z)
strip_pad-padding e (suc (suc (suc n))) h k = absurd (omega arith)

groups : (n k : ℕ) → n ≡ encoded_size true k → n % 4 ≡ 0
unfolding encoded_size
groups n k h = ground arith

decode-padded :
    (xs : Bytes) (capacity : ℕ)
    → All IsByte xs
    → length xs ≤ capacity
    → decode (encode_loop true xs) true capacity ≡ ok xs
unfolding decode
decode-padded xs capacity h k =
    let ys = padding true (pads (length xs)) in
    let e = encode_loop false xs in
    let stripped = strip_pad-padding e (pads (length xs)) (encode_loop-ne-pad xs) (ground arith) in
    let whole : length (e ++ ys) % 4 ≡ 0 =
      rw (encode_loop-padded xs) at
        (groups (length (encode_loop true xs)) (length xs) (length-encode_loop true xs)) in
    rw (encode_loop-padded xs, whole, stripped) (decode_digits-encode_loop xs ys capacity h k)

pub decode-raw :
    (xs : Bytes) (capacity : ℕ)
    → All IsByte xs
    → length xs ≤ capacity
    → decode (encode_loop false xs) false capacity ≡ ok xs
unfolding decode
decode-raw xs capacity h k = rw append-nil at (decode_digits-encode_loop xs [] capacity h k)

pub encode_ok :
    (xs : Bytes) (padded : Bool) (capacity : ℕ) {s : Bytes}
    → encode xs padded capacity ≡ ok s
    → encode_loop padded xs ≡ s
unfolding encode
encode_ok xs padded capacity h = ground arith

-- Decoding what was encoded gives the bytes back, padded or raw, if the output has room for them.
pub decode-encode :
    (xs : Bytes) (padded : Bool) (capacity room : ℕ) {s : Bytes}
    → All IsByte xs
    → encode xs padded capacity ≡ ok s
    → length xs ≤ room
    → decode s padded room ≡ ok xs
decode-encode xs true capacity room h e k =
    rw (← encode_ok xs true capacity e) (decode-padded xs room h k)
decode-encode xs false capacity room h e k =
    rw (← encode_ok xs false capacity e) (decode-raw xs room h k)
