-- ===== src/Base64/Letters.antt =====
-- The alphabet of cf_base64.c: letters and digits are inverse to one another.
use esp_cf_tunnel.Prelude.{ℕ, ◌<◌, ◌≡◌, refl, Bool, true, false, ◌&&◌, none, some, ltb, ◌==◌, arith}
use esp_cf_tunnel.Prelude.Table.{passes_under, passes_under_lem}
use esp_cf_tunnel.Base64.{digit, letter}

letters_agree : ℕ → Bool
letters_agree i = elim (digit (letter i)) [ none ↦ false | some d ↦ d == i ]

letters_table : passes_under letters_agree 64 ≡ true
unfolding passes_under letters_agree digit letter
letters_table = refl

pub digit-letter : (i : ℕ) → i < 64 → digit (letter i) ≡ some i
unfolding letters_agree
digit-letter i h = ground (arith, passes_under_lem letters_agree 64 i h letters_table)

digits_agree : ℕ → Bool
digits_agree c = elim (digit c) [ none ↦ true | some d ↦ letter d == c && ltb d 64 ]

digits_table : passes_under digits_agree 256 ≡ true
unfolding passes_under digits_agree digit letter
digits_table = refl

digit_small : (c : ℕ) {d : ℕ} → digit c ≡ some d → c < 256
unfolding digit
digit_small c h = ground arith

pub letter-digit : (c : ℕ) {d : ℕ} → digit c ≡ some d → (letter d ≡ c) × (d < 64)
unfolding digits_agree
letter-digit c {d} h =
    ground (arith, passes_under_lem digits_agree 256 c (digit_small c h) digits_table)
