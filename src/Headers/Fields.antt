-- ===== src/Headers/Fields.antt =====
-- The characters that the Base64 of cf_headers.c writes are neither a colon nor a semicolon, so that the fields
-- of a header list come apart where they were joined.
use esp_cf_tunnel.Prelude.{
  ℕ, ◌/◌, ◌%◌, ◌^◌, ◌≡◌, refl, Bool, true, false, ◌&&◌, not, some, [], ◌∷◌, ◌++◌, ◌==◌, All, arith,
}
use esp_cf_tunnel.Prelude.Table.{passes_under, passes_under_lem}
use esp_cf_tunnel.Core.{Bytes}
use esp_cf_tunnel.Base64.{letter, sextet, encode_loop}
use esp_cf_tunnel.Headers.{fields, cut_colon}

abbrev pub plain : ℕ → Bool
plain c = not (c == 58) && not (c == 59)

abbrev pub IsPlain : Bytes → Type 0
IsPlain s = All (λ c. plain c ≡ true) s

letter_plain : ℕ → Bool
letter_plain i = plain (letter i)

letters_plain : passes_under letter_plain 64 ≡ true
unfolding passes_under letter_plain letter
letters_plain = refl

plain-sextet : (word shift : ℕ) → plain (sextet word shift) ≡ true
unfolding sextet letter_plain
plain-sextet word shift =
    passes_under_lem letter_plain 64 (word / 2 ^ shift % 64) (omega arith) letters_plain

pub encode_loop-IsPlain : (xs : Bytes) → IsPlain (encode_loop false xs)
unfolding encode_loop
encode_loop-IsPlain [] = tt
encode_loop-IsPlain (a ∷ []) = (plain-sextet _ 18, (plain-sextet _ 12, tt))
encode_loop-IsPlain (a ∷ b ∷ []) = (plain-sextet _ 18, (plain-sextet _ 12, (plain-sextet _ 6, tt)))
encode_loop-IsPlain (a ∷ b ∷ c ∷ rest) = (
  plain-sextet _ 18,
  (plain-sextet _ 12, (plain-sextet _ 6, (plain-sextet _ 0, encode_loop-IsPlain rest))),
)

-- A text without a semicolon is one field.
abbrev pub NoSemicolon : Bytes → Type 0
NoSemicolon s = All (λ c. (c == 59) ≡ false) s

pub fields_alone : (f : Bytes) → NoSemicolon f → fields f ≡ f ∷ []
unfolding fields
fields_alone [] h = refl
fields_alone (c ∷ cs) h = rw (h.0, fields_alone cs h.1) refl

pub fields_first : (f rest : Bytes) → NoSemicolon f → fields (f ++ (59 ∷ rest)) ≡ f ∷ fields rest
unfolding fields
fields_first [] rest h = refl
fields_first (c ∷ cs) rest h = rw (h.0, fields_first cs rest h.1) refl

pub cut_colon-append : (a b : Bytes) → IsPlain a → cut_colon (a ++ (58 ∷ b)) ≡ some (a, b)
unfolding cut_colon
cut_colon-append [] b h = refl
cut_colon-append (c ∷ cs) b h =
    let other : (c == 58) ≡ false = ground (arith, h) in rw (other, cut_colon-append cs b h.1) refl

pub IsPlain-NoSemicolon : (s : Bytes) → IsPlain s → NoSemicolon s
IsPlain-NoSemicolon [] h = tt
IsPlain-NoSemicolon (c ∷ cs) h = (ground (arith, h), IsPlain-NoSemicolon cs h.1)
