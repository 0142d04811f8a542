-- ===== src/Core.antt =====
-- The shared types of components/esp_cf_tunnel/include/cf_core.h.
use esp_cf_tunnel.Prelude.{ap, ◌≡◌, refl, ◌⊎◌, inl, inr, ℕ, ◌%◌, Option, none, List}

-- The error codes of `cf_result`; `CF_OK` is `none` of `CfResult`.
pub data CfError : Type 0 where
  argument format limit unsupported state memory truncated : CfError

-- `cf_result`.
abbrev pub CfResult : Type 0
CfResult = Option CfError

abbrev pub cf_ok : CfResult
cf_ok = none

-- A function that fills its output only if it returns `CF_OK`.
pub data Result {ℓ} (A : Type ℓ) : Type ℓ where
  ok : A → Result A
  err : CfError → Result A

infixl 5 ◌>>=◌
abbrev pub ◌>>=◌ {ℓ κ} : {A : Type ℓ} {B : Type κ} → Result A → (A → Result B) → Result B
ok a >>= f = f a
err e >>= f = err e

-- `cf_bytes`: the bytes of the view, each below 256.
abbrev pub Bytes : Type 0
Bytes = List ℕ

abbrev pub u8 : ℕ → ℕ
u8 n = n % 0x100

abbrev pub u16 : ℕ → ℕ
u16 n = n % 0x10000

abbrev pub u32 : ℕ → ℕ
u32 n = n % 0x1_0000_0000

abbrev pub u64 : ℕ → ℕ
u64 n = n % 0x1_0000_0000_0000_0000

pub Result-cases {ℓ} :
    {A : Type ℓ} (r : Result A) → ((a : A) × (r ≡ ok a)) ⊎ ((e : CfError) × (r ≡ err e))
Result-cases (ok a) = inl (a, refl)
Result-cases (err e) = inr (e, refl)

-- A chain succeeds if both of its parts do.
pub chain_ok {ℓ κ} :
    {A : Type ℓ} {B : Type κ} (r : Result A) (f : A → Result B) {b : B}
    → (r >>= f) ≡ ok b
    → (a : A) × (r ≡ ok a) × (f a ≡ ok b)
chain_ok (ok a) f h = (a, refl, h)
chain_ok (err e) f h = cc

pub ok-injective {ℓ} : {A : Type ℓ} {a b : A} → ok a ≡ ok b → a ≡ b
ok-injective {A} {a} {b} h = ap (λ r. value_of r) h
  where
    value_of : Result A → A
    value_of (ok x) = x
    value_of (err e) = a
