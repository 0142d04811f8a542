-- ===== src/Json/Runs.antt =====
-- Concrete texts for cf_json.c, and the theorems on them.
use esp_cf_tunnel.Prelude.{◌≡◌, refl, ◌↔◌, some, bytes_of, true, false}
use esp_cf_tunnel.Json.{valid_lexemes, lexemes, number_end}
use esp_cf_tunnel.Json
use esp_cf_tunnel.Json.Grammar.{IsNumberBefore}
use esp_cf_tunnel.Json.Complete.{number_end_iff}

good_text : valid_lexemes (bytes_of "{\"a\\\"b\": -10.5e+3}") ≡ true
unfolding valid_lexemes lexemes number_end Json.skip_digits Json.digits Json.sign_part
    Json.whole_part Json.fraction_part Json.exponent_sign Json.exponent_part Json.ends_number
good_text = refl

leading_zero : valid_lexemes (bytes_of "[01]") ≡ false
unfolding valid_lexemes lexemes number_end Json.skip_digits Json.digits Json.sign_part
    Json.whole_part Json.fraction_part Json.exponent_sign Json.exponent_part Json.ends_number
leading_zero = refl

number_end_iff_example :
    (number_end (bytes_of "-10.5e+3}") ≡ some (bytes_of "}"))
    ↔ IsNumberBefore (bytes_of "-10.5e+3}") (bytes_of "}")
number_end_iff_example = number_end_iff (bytes_of "-10.5e+3}") (bytes_of "}")
