-- ===== src/Json/Grammar.antt =====
-- The numbers of RFC 8259, for the check of them in cf_json.c.
use esp_cf_tunnel.Prelude.{
  ◌≡◌, ◌⊎◌, Bool, true, false, ◌||◌, ◌&&◌, [], ◌∷◌, ◌++◌, ◌==◌, if◌then◌else◌, length,
}
use esp_cf_tunnel.Core.{Bytes}
use esp_cf_tunnel.Json.{number_digit, ends_number}

unfoldable pub all_digits : Bytes → Bool
all_digits [] = true
all_digits (c ∷ cs) = number_digit c && all_digits cs

-- `1*DIGIT`
unfoldable pub is_digits : Bytes → Bool
is_digits [] = false
is_digits (c ∷ cs) = number_digit c && all_digits cs

-- `zero / ( digit1-9 *DIGIT )`
unfoldable pub is_whole : Bytes → Bool
is_whole [] = false
is_whole (c ∷ cs) = if c == b'0' then length cs == 0 else number_digit c && all_digits cs

-- `[ decimal-point 1*DIGIT ]`
unfoldable pub is_fraction : Bytes → Bool
is_fraction [] = true
is_fraction (c ∷ cs) = c == b'.' && is_digits cs

-- `[ minus / plus ] 1*DIGIT`
unfoldable pub is_signed : Bytes → Bool
is_signed [] = false
is_signed (c ∷ cs) = if c == b'+' || c == b'-' then is_digits cs else is_digits (c ∷ cs)

-- `[ e [ minus / plus ] 1*DIGIT ]`
unfoldable pub is_exponent : Bytes → Bool
is_exponent [] = true
is_exponent (c ∷ cs) = (c == b'e' || c == b'E') && is_signed cs

-- A text that begins with a number, with what stands behind it: the end of the text, a separator or a space.
pub record IsNumberBefore (text behind : Bytes) : Type 0 where
  pub sign : Bytes
  pub whole : Bytes
  pub fraction : Bytes
  pub exponent : Bytes
  pub parts : text ≡ sign ++ (whole ++ (fraction ++ (exponent ++ behind)))
  pub sign_good : (sign ≡ []) ⊎ (sign ≡ b'-' ∷ [])
  pub whole_good : is_whole whole ≡ true
  pub fraction_good : is_fraction fraction ≡ true
  pub exponent_good : is_exponent exponent ≡ true
  pub behind_good : ends_number behind ≡ true
