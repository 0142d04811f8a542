-- ===== src/Framing/Table.antt =====
-- The segment table of a frame: `total_size` (cf_capnp_framing.c).
use mathlib.Core.Path.{subst}
use esp_cf_tunnel.Prelude.{
  ℕ, zero, suc, ◌+◌, ◌*◌, ◌/◌, ◌<◌, ◌≤◌, ◌≡◌, ◌≢◌, refl, ◌++◌, length, take, get_or-append_left,
  arith, sym, drop, take-append-drop, length-take,
}
use esp_cf_tunnel.Core.{Bytes, ok}
use esp_cf_tunnel.Framing.{u32_at, table_size, total_loop, total_size}

-- A word of a prefix is a word of the whole.
pub u32_at-append : (p q : Bytes) (at : ℕ) → at + 4 ≤ length p → u32_at (p ++ q) at ≡ u32_at p at
unfolding u32_at
u32_at-append p q at h = rw (
  get_or-append_left p q at 0 (omega arith),
  get_or-append_left p q (at + 1) 0 (omega arith),
  get_or-append_left p q (at + 2) 0 (omega arith),
  get_or-append_left p q (at + 3) 0 (omega arith),
)

total_loop-append :
    (p q : Bytes) (left i total most : ℕ)
    → 4 + (i + left) * 4 ≤ length p
    → total_loop (p ++ q) left i total most ≡ total_loop p left i total most
unfolding total_loop
total_loop-append p q zero i total most h = refl
total_loop-append p q (suc left) i total most h = rw (
  u32_at-append p q (4 + i * 4) (omega arith),
  total_loop-append p q left (i + 1) (total + u32_at p (4 + i * 4) * 8) most (omega arith),
)

-- The total depends on the table alone.
pub total_size-append :
    (p q : Bytes) (n most : ℕ)
    → 1 ≤ n
    → table_size n ≤ length p
    → total_size (p ++ q) n most ≡ total_size p n most
unfolding total_size table_size
total_size-append p q n most k h = rw (
  u32_at-append p q 4 (omega arith),
  total_loop-append p q n 0 ((n + 2) / 2 * 8) most (omega arith),
)

pub total_loop_bounds :
    (p : Bytes) (left i total most : ℕ) {t : ℕ}
    → total ≤ most
    → total_loop p left i total most ≡ ok t
    → (total ≤ t) × (t ≤ most)
unfolding total_loop
total_loop_bounds p zero i total most {t} h e = ground arith
total_loop_bounds p (suc left) i total most {t} h e =
    ground (arith, total_loop_bounds p left (i + 1) (total + u32_at p (4 + i * 4) * 8) most {t = t})

pub total_size_ok :
    (p : Bytes) (n most : ℕ) {t : ℕ}
    → total_size p n most ≡ ok t
    → (table_size n ≤ most) × (u32_at p 4 ≢ 0) × (total_loop p n 0 (table_size n) most ≡ ok t)
unfolding total_size
total_size_ok p n most {t} e = ground arith

total_loop_first :
    (p : Bytes) (n total most : ℕ) {t : ℕ}
    → total ≤ most
    → total_loop p (suc n) 0 total most ≡ ok t
    → (total + u32_at p 4 * 8 ≤ most) × (total_loop p n 1 (total + u32_at p 4 * 8) most ≡ ok t)
unfolding total_loop
total_loop_first p n total most {t} h e = ground arith

-- An accepted table announces a frame beyond the table itself, and within the capacity.
pub total_size_bounds :
    (p : Bytes) (n most : ℕ) {t : ℕ}
    → 1 ≤ n
    → total_size p n most ≡ ok t
    → (table_size n < t) × (t ≤ most)
total_size_bounds p (suc n) most {t} k e =
    let (a, b, c) = total_size_ok p (suc n) most e in
    let (d, r) = total_loop_first p n (table_size (suc n)) most a c in
    omega (arith, total_loop_bounds p n 1 (table_size (suc n) + u32_at p 4 * 8) most d r)
total_size_bounds p zero most k e = absurd (omega arith)

pub u32_at-take :
    (p : Bytes) (k at : ℕ) → at + 4 ≤ k → k ≤ length p → u32_at (take k p) at ≡ u32_at p at
u32_at-take p k at h l =
    let e = u32_at-append (take k p) (drop k p) at (omega (arith, length-take k p)) in
    subst (λ q. u32_at (take k p) at ≡ u32_at q at) (take-append-drop k p) (sym e)

pub total_size-take :
    (p : Bytes) (k n most : ℕ)
    → 1 ≤ n
    → table_size n ≤ k
    → k ≤ length p
    → total_size (take k p) n most ≡ total_size p n most
total_size-take p k n most o h l =
    let e = total_size-append (take k p) (drop k p) n most o (omega (arith, length-take k p)) in
    subst (λ q. total_size (take k p) n most ≡ total_size q n most) (take-append-drop k p) (sym e)
