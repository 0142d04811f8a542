-- ===== src/Prelude/Text.antt =====
-- The bytes of an ASCII text, as the compiler lays out a string literal without its NUL.
use Prim.Native.Nat.{ℕ}
use Prim.Native.Char.{code}
use Prim.Native.String.{String}
use mathlib.Core.List.{List, [], ◌∷◌}

abbrev pub bytes_of : String → List ℕ
bytes_of String.[] = []
bytes_of (String.◌∷◌ first rest) = code first ∷ bytes_of rest
