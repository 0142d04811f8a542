-- ===== src/Json/Sound.antt =====
-- What number_end, from cf_json.c, takes up is a number of the grammar.
use mathlib.Core.Path.{subst}
use mathlib.Core.Option.{some-injective}
use esp_cf_tunnel.Prelude.{
  ℕ, ◌≡◌, ◌⊎◌, ◌≢◌, get_or, inl, inr, refl, ap, ◌∙◌, Bool, true, false, ◌||◌, some, [], ◌∷◌, ◌++◌,
  ◌==◌, arith, Bool-cases, Option-cases,
}
use esp_cf_tunnel.Core.{Bytes}
use esp_cf_tunnel.Json.{
  number_digit, skip_digits, digits, sign_part, whole_part, fraction_part, exponent_sign,
  exponent_part, ends_number, number_end,
}
use esp_cf_tunnel.Json.Grammar.{
  all_digits, is_digits, is_whole, is_fraction, is_signed, is_exponent, IsNumberBefore,
}

-- What stands in front of the rest.
Front : (Bytes → Bool) → Bytes → Bytes → Type 0
Front P text rest = (p : Bytes) × (text ≡ p ++ rest) × (P p ≡ true)

-- One more character in front.
Front-cons :
    (P Q : Bytes → Bool) (c : ℕ) (cs rest : Bytes)
    → ((p : Bytes) → P p ≡ true → Q (c ∷ p) ≡ true)
    → Front P cs rest
    → Front Q (c ∷ cs) rest
unfolding Front
Front-cons P Q c cs rest h (p, e, g) = (c ∷ p, ap (λ z. c ∷ z) e, h p g)

Front-nil : (P : Bytes → Bool) (text : Bytes) → P [] ≡ true → Front P text text
unfolding Front
Front-nil P text h = ([], refl, h)

unchanged :
    (P : Bytes → Bool) (text rest : Bytes) → P [] ≡ true → some text ≡ some rest → Front P text rest
unchanged P text rest h e =
    subst (λ z. Front P text z) (some-injective text rest e) (Front-nil P text h)

skip_digits-Front : (text : Bytes) → Front all_digits text (skip_digits text)
unfolding skip_digits all_digits
skip_digits-Front [] = Front-nil all_digits [] refl
skip_digits-Front (c ∷ cs) = elim (Bool-cases (number_digit c)) [
  | inl d ↦ rw (d) (
      Front-cons all_digits all_digits c cs (skip_digits cs) (λ p g. ground (arith, d, g))
        (skip_digits-Front cs))
  | inr d ↦ rw (d) (Front-nil all_digits (c ∷ cs) refl)
]

digits-Front : (text rest : Bytes) → digits text ≡ some rest → Front is_digits text rest
unfolding digits is_digits
digits-Front [] rest h = absurd (ground (arith, h))
digits-Front (c ∷ cs) rest h = elim (Bool-cases (number_digit c)) [
  | inl d ↦
      subst (λ z. Front is_digits (c ∷ cs) z) (some-injective (skip_digits cs) rest (rw (d) at h))
        (Front-cons all_digits is_digits c cs (skip_digits cs) (λ p g. ground (arith, d, g))
          (skip_digits-Front cs))
  | inr d ↦ absurd (ground (arith, h, d))
]

lone_zero : (c : ℕ) (cs : Bytes) → c == b'0' ≡ true → Front is_whole (c ∷ cs) cs
unfolding Front is_whole
lone_zero c cs z = (c ∷ [], refl, ground (arith, z))

whole_part-Front : (text rest : Bytes) → whole_part text ≡ some rest → Front is_whole text rest
unfolding whole_part is_whole
whole_part-Front [] rest h = absurd (ground (arith, h))
whole_part-Front (c ∷ cs) rest h = elim (Bool-cases (number_digit c)) [
  | inr d ↦ absurd (ground (arith, h, d))
  | inl d ↦ elim (Bool-cases (c == b'0')) [
    | inl z ↦
        subst (λ q. Front is_whole (c ∷ cs) q) (some-injective cs rest (rw (d, z) at h))
          (lone_zero c cs z)
    | inr z ↦
        subst (λ q. Front is_whole (c ∷ cs) q)
          (some-injective (skip_digits cs) rest (rw (d, z) at h))
          (Front-cons all_digits is_whole c cs (skip_digits cs) (λ p g. ground (arith, d, z, g))
            (skip_digits-Front cs))
  ]
]

fraction_part-Front :
    (text rest : Bytes) → fraction_part text ≡ some rest → Front is_fraction text rest
unfolding fraction_part is_fraction
fraction_part-Front [] rest h = unchanged is_fraction [] rest refl h
fraction_part-Front (c ∷ cs) rest h = elim (Bool-cases (c == b'.')) [
  | inl d ↦
      Front-cons is_digits is_fraction c cs rest (λ p g. ground (arith, d, g))
        (digits-Front cs rest (rw (d) at h))
  | inr d ↦ unchanged is_fraction (c ∷ cs) rest refl (rw (d) at h)
]

empty_digits : (rest : Bytes) → digits [] ≢ some rest
unfolding digits
empty_digits rest h = absurd (ground (arith, h))

plain_signed :
    (c : ℕ) (cs rest : Bytes)
    → c == b'+' || c == b'-' ≡ false
    → Front is_digits (c ∷ cs) rest
    → Front is_signed (c ∷ cs) rest
unfolding Front is_signed is_digits
plain_signed c cs rest d ([], e, g) = absurd (ground (arith, g))
plain_signed c cs rest d (x ∷ p, e, g) =
    let same : c ≡ x = ap (λ z. get_or z 0 0) e in (x ∷ p, e, ground (arith, d, g, same))

signed-Front :
    (text rest : Bytes) → digits (exponent_sign text) ≡ some rest → Front is_signed text rest
unfolding exponent_sign is_signed
signed-Front [] rest h = absurd (empty_digits rest h)
signed-Front (c ∷ cs) rest h = elim (Bool-cases (c == b'+' || c == b'-')) [
  | inl d ↦
      Front-cons is_digits is_signed c cs rest (λ p g. rw (d) g)
        (digits-Front cs rest (rw (d) at h))
  | inr d ↦ plain_signed c cs rest d (digits-Front (c ∷ cs) rest (rw (d) at h))
]

exponent_part-Front :
    (text rest : Bytes) → exponent_part text ≡ some rest → Front is_exponent text rest
unfolding exponent_part is_exponent
exponent_part-Front [] rest h = unchanged is_exponent [] rest refl h
exponent_part-Front (c ∷ cs) rest h = elim (Bool-cases (c == b'e' || c == b'E')) [
  | inl d ↦
      Front-cons is_signed is_exponent c cs rest (λ p g. ground (arith, d, g))
        (signed-Front cs rest (rw (d) at h))
  | inr d ↦ unchanged is_exponent (c ∷ cs) rest refl (rw (d) at h)
]

sign_part_front :
    (text : Bytes) → (p : Bytes) × (text ≡ p ++ sign_part text) × ((p ≡ []) ⊎ (p ≡ b'-' ∷ []))
unfolding sign_part
sign_part_front [] = ([], refl, inl refl)
sign_part_front (c ∷ cs) = elim (Bool-cases (c == b'-')) [
  | inl d ↦
      let same : c ≡ b'-' = ground (arith, d) in rw (d) (b'-' ∷ [], ap (λ z. z ∷ cs) same, inr refl)
  | inr d ↦ rw (d) ([], refl, inl refl)
]

pub number_end-IsNumberBefore :
    (text behind : Bytes) → number_end text ≡ some behind → IsNumberBefore text behind
unfolding number_end Front
number_end-IsNumberBefore text behind h =
    let (sign, e0, g0) = sign_part_front text in
    elim (Option-cases (whole_part (sign_part text))) [
      | inl k ↦ absurd (ground (arith, rw (number_end, k) at h))
      | inr (t1, k1) ↦ elim (Option-cases (fraction_part t1)) [
        | inl k ↦ absurd (ground (arith, rw (number_end, k1, k) at h))
        | inr (t2, k2) ↦ elim (Option-cases (exponent_part t2)) [
          | inl k ↦ absurd (ground (arith, rw (number_end, k1, k2, k) at h))
          | inr (t3, k3) ↦ elim (Bool-cases (ends_number t3)) [
            | inr k ↦ absurd (ground (arith, rw (number_end, k1, k2, k3, k) at h))
            | inl k ↦
                let same = some-injective t3 behind (rw (number_end, k1, k2, k3, k) at h) in
                let (whole, e1, g1) = whole_part-Front (sign_part text) t1 k1 in
                let (fraction, e2, g2) = fraction_part-Front t1 t2 k2 in
                let (exponent, e3, g3) = exponent_part-Front t2 t3 k3 in
                subst (λ z. IsNumberBefore text z) same
                  (record {
                    sign = sign;
                    whole = whole;
                    fraction = fraction;
                    exponent = exponent;
                    parts =
                        e0
                        ∙ ap (λ z. sign ++ z)
                            (e1 ∙ ap (λ z. whole ++ z) (e2 ∙ ap (λ z. fraction ++ z) e3));
                    sign_good = g0;
                    whole_good = g1;
                    fraction_good = g2;
                    exponent_good = g3;
                    behind_good = k;
                  })
          ]
        ]
      ]
    ]
