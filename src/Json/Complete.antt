-- ===== src/Json/Complete.antt =====
-- What number_end, from cf_json.c, takes up is every number of the grammar, and nothing else.
use esp_cf_tunnel.Prelude.{
  ℕ, ◌≡◌, ◌⊎◌, ◌↔◌, inl, inr, refl, ap, Bool, true, false, ◌||◌, some, [], ◌∷◌, ◌++◌, ◌==◌, length,
  arith, Bool-cases,
}
use esp_cf_tunnel.Core.{Bytes}
use esp_cf_tunnel.Json.{
  number_digit, skip_digits, digits, sign_part, whole_part, fraction_part, exponent_sign,
  exponent_part, ends_number, number_end,
}
use esp_cf_tunnel.Json.Grammar.{
  all_digits, is_digits, is_whole, is_fraction, is_signed, is_exponent, IsNumberBefore,
}
use esp_cf_tunnel.Json.Sound.{number_end-IsNumberBefore}

-- Whether the first character of a text is one of those.
unfoldable starts : (ℕ → Bool) → Bytes → Bool
starts P [] = false
starts P (c ∷ cs) = P c

skip_digits-append :
    (p rest : Bytes)
    → all_digits p ≡ true
    → starts number_digit rest ≡ false
    → skip_digits (p ++ rest) ≡ rest
unfolding skip_digits all_digits starts
skip_digits-append [] [] h k = refl
skip_digits-append [] (c ∷ cs) h k = rw (k) refl
skip_digits-append (c ∷ p) rest h k =
    let d : number_digit c ≡ true = ground (arith, h) in
    rw (d) (skip_digits-append p rest (ground (arith, h, d)) k)

digits-append :
    (p rest : Bytes)
    → is_digits p ≡ true
    → starts number_digit rest ≡ false
    → digits (p ++ rest) ≡ some rest
unfolding digits is_digits
digits-append [] rest h k = absurd (ground (arith, h))
digits-append (c ∷ p) rest h k =
    let d : number_digit c ≡ true = ground (arith, h) in
    rw (d) (ap (λ z. some z) (skip_digits-append p rest (ground (arith, h, d)) k))

nothing_left : (p : Bytes) → length p == 0 ≡ true → p ≡ []
nothing_left [] h = refl
nothing_left (c ∷ p) h = absurd (ground (arith, h))

whole_part-append :
    (p rest : Bytes)
    → is_whole p ≡ true
    → starts number_digit rest ≡ false
    → whole_part (p ++ rest) ≡ some rest
unfolding whole_part is_whole
whole_part-append [] rest h k = absurd (ground (arith, h))
whole_part-append (c ∷ p) rest h k = elim (Bool-cases (c == b'0')) [
  | inl z ↦
      let d : number_digit c ≡ true = ground (arith, z) in
      rw (d, z) (ap (λ q. some (q ++ rest)) (nothing_left p (rw (z) at h)))
  | inr z ↦
      let d : number_digit c ≡ true = ground (arith, rw (z) at h) in
      rw (d, z) (ap (λ q. some q) (skip_digits-append p rest (ground (arith, rw (z, d) at h)) k))
]

abbrev is_point : ℕ → Bool
is_point c = c == b'.'

abbrev is_mark : ℕ → Bool
is_mark c = c == b'e' || c == b'E'

fraction_part-append :
    (p rest : Bytes)
    → is_fraction p ≡ true
    → starts number_digit rest ≡ false
    → starts is_point rest ≡ false
    → fraction_part (p ++ rest) ≡ some rest
unfolding fraction_part is_fraction starts
fraction_part-append [] [] h k m = refl
fraction_part-append [] (c ∷ cs) h k m = rw (m) refl
fraction_part-append (c ∷ p) rest h k m =
    let d : c == b'.' ≡ true = ground (arith, h) in
    rw (d) (digits-append p rest (ground (arith, h, d)) k)

signed-append :
    (p rest : Bytes)
    → is_signed p ≡ true
    → starts number_digit rest ≡ false
    → digits (exponent_sign (p ++ rest)) ≡ some rest
unfolding exponent_sign is_signed
signed-append [] rest h k = absurd (ground (arith, h))
signed-append (c ∷ p) rest h k = elim (Bool-cases (c == b'+' || c == b'-')) [
  | inl d ↦ rw (d) (digits-append p rest (rw (d) at h) k)
  | inr d ↦ rw (d) (digits-append (c ∷ p) rest (rw (d) at h) k)
]

exponent_part-append :
    (p rest : Bytes)
    → is_exponent p ≡ true
    → starts number_digit rest ≡ false
    → starts is_mark rest ≡ false
    → exponent_part (p ++ rest) ≡ some rest
unfolding exponent_part is_exponent starts
exponent_part-append [] [] h k m = refl
exponent_part-append [] (c ∷ cs) h k m = rw (m) refl
exponent_part-append (c ∷ p) rest h k m =
    let d : c == b'e' || c == b'E' ≡ true = ground (arith, h) in
    rw (d) (signed-append p rest (ground (arith, h, d)) k)

sign_part-append :
    (sign p rest : Bytes)
    → (sign ≡ []) ⊎ (sign ≡ b'-' ∷ [])
    → is_whole p ≡ true
    → sign_part (sign ++ (p ++ rest)) ≡ p ++ rest
unfolding sign_part is_whole
sign_part-append sign [] rest s h = absurd (ground (arith, h))
sign_part-append sign (c ∷ p) rest (inl s) h =
    let d : c == b'-' ≡ false = ground (arith, h) in rw (s) (rw (d) refl)
sign_part-append sign (c ∷ p) rest (inr s) h = rw (s) refl

behind_off :
    (behind : Bytes)
    → ends_number behind ≡ true
    → (starts number_digit behind ≡ false)
      × (starts is_point behind ≡ false)
      × (starts is_mark behind ≡ false)
unfolding ends_number starts
behind_off [] h = (refl, refl, refl)
behind_off (c ∷ cs) h = (ground (arith, h), ground (arith, h), ground (arith, h))

exponent_off :
    (p rest : Bytes)
    → is_exponent p ≡ true
    → starts number_digit rest ≡ false
    → starts is_point rest ≡ false
    → (starts number_digit (p ++ rest) ≡ false) × (starts is_point (p ++ rest) ≡ false)
unfolding is_exponent starts
exponent_off [] rest h k m = (k, m)
exponent_off (c ∷ p) rest h k m = (ground (arith, h), ground (arith, h))

fraction_off :
    (p rest : Bytes)
    → is_fraction p ≡ true
    → starts number_digit rest ≡ false
    → starts number_digit (p ++ rest) ≡ false
unfolding is_fraction starts
fraction_off [] rest h k = k
fraction_off (c ∷ p) rest h k = ground (arith, h)

number_end_complete :
    (text behind : Bytes) → IsNumberBefore text behind → number_end text ≡ some behind
unfolding number_end
number_end_complete text behind v =
    let (k0, k1, k2) = behind_off behind v.behind_good in
    let rest1 = v.exponent ++ behind in
    let rest2 = v.fraction ++ rest1 in
    let (m0, m1) = exponent_off v.exponent behind v.exponent_good k0 k1 in
    let e0 = sign_part-append v.sign v.whole rest2 v.sign_good v.whole_good in
    let e1 =
      whole_part-append v.whole rest2 v.whole_good
        (fraction_off v.fraction rest1 v.fraction_good m0) in
    let e2 = fraction_part-append v.fraction rest1 v.fraction_good m0 m1 in
    let e3 = exponent_part-append v.exponent behind v.exponent_good k0 k2 in
    rw (v.parts) (rw (number_end, e0, e1, e2, e3, v.behind_good) refl)

-- The number at the front of a text, of a value that begins with a digit or a minus sign, is taken up exactly if
-- it is one of the grammar of JSON, with the end of the text, a separator or a space behind it; the text goes on
-- there.
pub number_end_iff :
    (text behind : Bytes) → (number_end text ≡ some behind) ↔ IsNumberBefore text behind
number_end_iff text behind =
    (number_end-IsNumberBefore text behind, number_end_complete text behind)
