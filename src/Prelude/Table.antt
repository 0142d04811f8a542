-- ===== src/Prelude/Table.antt =====
-- A test that holds of every number under a bound: found by evaluation, used at a variable.
use Prim.Native.Nat.{ℕ, zero, suc, ◌<◌}
use mathlib.Core.Path.{◌≡◌}
use mathlib.Core.Bool.{Bool, true, false}
use native.Mathlib.Omega.{arith}
use esp_cf_tunnel.Prelude.Tests.{if◌then◌else◌}

unfoldable pub passes_under : (ℕ → Bool) → ℕ → Bool
passes_under test zero = true
passes_under test (suc top) = if test top then passes_under test top else false

pub passes_under_lem :
    (test : ℕ → Bool) (bound n : ℕ) → n < bound → passes_under test bound ≡ true → test n ≡ true
unfolding passes_under
passes_under_lem test zero n small all = elim small [ ]
passes_under_lem test (suc top) n small all = ground (arith, passes_under_lem test top n)
