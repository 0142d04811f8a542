-- ===== src/Base64/Canonical.antt =====
-- `cf_base64_decode` is strict: it accepts nothing but what `cf_base64_encode` writes
-- (cf_base64.c).
use mathlib.Core.Path.{ap₂, subst}
use native.Mathlib.Nat.{zero-add, suc-add, sub_self}
use esp_cf_tunnel.Prelude.{
  ℕ, zero, suc, ◌+◌, ◌-◌, ◌*◌, ◌/◌, ◌%◌, ◌<◌, ◌≤◌, ◌≡◌, refl, ap, sym, ◌∙◌, Bool, true, false, inl,
  inr, ◌∷◌, ◌++◌, length, take, get_or, ◌==◌, arith, take_all, take-suc, append-nil, append_assoc,
  Bool-cases, ==_iff,
}
use esp_cf_tunnel.Core.{Bytes, ok}
use esp_cf_tunnel.Base64.{
  decode_digits, strip_pad, decode, padding, encode_loop, encoded_size, encode, size_max,
}
use esp_cf_tunnel.Base64.RoundTrip.{length-encode_loop, encode_loop-padded, pads, strip_pad_drop}
use esp_cf_tunnel.Base64.Digits.{decode_digits_ok}

strip_pad_other : (s : Bytes) (k : ℕ) → (get_or s k 0 == b'=') ≡ false → strip_pad s (suc k) ≡ suc k
unfolding strip_pad
strip_pad_other s k h = ground arith

-- What one test for `=` takes off is a padding character.
abbrev Strips : Bytes → ℕ → ℕ → Type 0
Strips s n m = (m ≤ n) × (n ≤ m + 1) × (take n s ≡ take m s ++ padding true (n - m))

Strips-one : (s : Bytes) (k : ℕ) → k < length s → get_or s k 0 ≡ b'=' → Strips s (suc k) k
Strips-one s k h e =
    let one : suc k - k ≡ 1 = omega arith in
    (omega arith, omega arith, rw (one, ← e) (take-suc s k 0 h))

Strips-none : (s : Bytes) (n : ℕ) → Strips s n n
Strips-none s n = (omega arith, omega arith, rw (sub_self, append-nil))

strip_pad_empty : (s : Bytes) → strip_pad s zero ≡ zero
unfolding strip_pad
strip_pad_empty s = refl

strip_pad-Strips : (s : Bytes) (n : ℕ) → n ≤ length s → Strips s n (strip_pad s n)
strip_pad-Strips s zero h = subst (Strips s zero) (sym (strip_pad_empty s)) (Strips-none s zero)
strip_pad-Strips s (suc k) h = elim (Bool-cases (get_or s k 0 == b'=')) [
  | inl e ↦
      let p = (==_iff _ _).0 e in
      subst (Strips s (suc k)) (sym (strip_pad_drop s k p)) (Strips-one s k h p)
  | inr e ↦ subst (Strips s (suc k)) (sym (strip_pad_other s k e)) (Strips-none s (suc k))
]

padding-append : (a b : ℕ) → padding true a ++ padding true b ≡ padding true (a + b)
padding-append zero b = rw zero-add
padding-append (suc a) b = rw suc-add (ap (λ t. b'=' ∷ t) (padding-append a b))

strip_twice :
    (s : Bytes)
    → let n = length s in
      let m = strip_pad s (strip_pad s n) in
      (m ≤ n) × (n ≤ m + 2) × (s ≡ take m s ++ padding true (n - m))
strip_twice s =
    let n = length s in
    let k = strip_pad s n in
    let m = strip_pad s k in
    let (a1, b1, c1) = strip_pad-Strips s n (omega arith) in
    let (a2, b2, c2) = strip_pad-Strips s k a1 in
    let d : k - m + (n - k) ≡ n - m = omega arith in
    let whole : s ≡ take k s ++ padding true (n - k) = sym (take_all s) ∙ c1 in
    (
      omega arith,
      omega arith,
      whole
          ∙ ap (λ t. t ++ padding true (n - k)) c2
          ∙ append_assoc (take m s) (padding true (k - m)) (padding true (n - k))
          ∙ ap (λ t. take m s ++ t) (padding-append (k - m) (n - k) ∙ ap (padding true) d),
    )

pads_fit : (n m k : ℕ) → m ≤ n → n ≤ m + 2 → n % 4 ≡ 0 → encoded_size false k ≡ m → n - m ≡ pads k
unfolding encoded_size
pads_fit n m k a b d e = ground arith

digits_of_padded :
    (s : Bytes) (capacity : ℕ) {xs : Bytes}
    → decode s true capacity ≡ ok xs
    → (length s % 4 ≡ 0) × (decode_digits s (strip_pad s (strip_pad s (length s))) capacity ≡ ok xs)
unfolding decode
digits_of_padded s capacity h = ground arith

digits_of_raw :
    (s : Bytes) (capacity : ℕ) {xs : Bytes}
    → decode s false capacity ≡ ok xs
    → decode_digits s (length s) capacity ≡ ok xs
unfolding decode
digits_of_raw s capacity h = h

third-le-encoded_size : (padded : Bool) (n : ℕ) → n / 3 * 4 ≤ encoded_size padded n
unfolding encoded_size
third-le-encoded_size padded n = ground arith

encode-eq_ok :
    (s xs : Bytes) (padded : Bool) (room : ℕ)
    → encode_loop padded xs ≡ s
    → length s + 4 ≤ size_max
    → length s ≤ room
    → encode xs padded room ≡ ok s
unfolding encode
encode-eq_ok s xs padded room e k l =
    ground
      (arith, ap length e, length-encode_loop padded xs, third-le-encoded_size padded (length xs))

pub canonical_padded :
    (s : Bytes) (capacity : ℕ) {xs : Bytes}
    → decode s true capacity ≡ ok xs
    → (encode_loop true xs ≡ s) × (length xs ≤ capacity)
canonical_padded s capacity {xs} h =
    let n = length s in
    let m = strip_pad s (strip_pad s n) in
    let (a, b, c) = strip_twice s in
    let (q, r) = digits_of_padded s capacity h in
    let (e, size, fits) = decode_digits_ok s m capacity a r in
    (
      encode_loop-padded xs
          ∙ ap₂ (λ u v. u ++ padding true v) e (sym (pads_fit n m (length xs) a b q size))
          ∙ sym c,
      fits,
    )

pub canonical_raw :
    (s : Bytes) (capacity : ℕ) {xs : Bytes}
    → decode s false capacity ≡ ok xs
    → (encode_loop false xs ≡ s) × (length xs ≤ capacity)
canonical_raw s capacity {xs} h =
    let (e, size, fits) =
      decode_digits_ok s (length s) capacity (omega arith) (digits_of_raw s capacity h) in
    (e ∙ take_all s, fits)

-- An accepted input is exactly the encoding of its output: no other spelling of the same bytes is
-- accepted, and the output fits the buffer.
pub encode-decode :
    (s : Bytes) (padded : Bool) (capacity room : ℕ) {xs : Bytes}
    → decode s padded capacity ≡ ok xs
    → length s + 4 ≤ size_max
    → length s ≤ room
    → (encode xs padded room ≡ ok s) × (length xs ≤ capacity)
encode-decode s true capacity room {xs} h k l =
    let (e, fits) = canonical_padded s capacity h in (encode-eq_ok s xs true room e k l, fits)
encode-decode s false capacity room {xs} h k l =
    let (e, fits) = canonical_raw s capacity h in (encode-eq_ok s xs false room e k l, fits)
