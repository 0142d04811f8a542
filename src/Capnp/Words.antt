-- ===== src/Capnp/Words.antt =====
-- Little-endian words of a byte buffer: `le` and `put` of cf_capnp.c.
use native.Mathlib.Nat.{zero-add, suc-add, add_assoc}
use native.Mathlib.Numerals.{unary_clauses}
use esp_cf_tunnel.Prelude.{
  ℕ, zero, suc, ◌+◌, ◌*◌, ◌/◌, ◌^◌, ◌≤◌, ◌<◌, ◌≡◌, refl, [], ◌∷◌, length, slice, get_or-take,
  get_or-drop, get_or, drop, arith, ap, ◌∙◌,
}
use esp_cf_tunnel.Core.{Bytes, u8}

-- `le(p + at, n)`: the loop adds byte `i` shifted by `8 * i`.
unfoldable pub le : Bytes → ℕ → ℕ → ℕ
le p at zero = 0
le p at (suc n) = get_or p at 0 + 0x100 * le p (at + 1) n

-- The bytes that `put(p, n, v)` stores.
unfoldable pub le_bytes : ℕ → ℕ → Bytes
le_bytes zero v = []
le_bytes (suc n) v = u8 v ∷ le_bytes n (v / 0x100)

-- Store bytes from `at` on. A store beyond the end makes the list longer, so that a list that keeps its
-- length was not overrun.
unfoldable pub write_at : Bytes → ℕ → Bytes → Bytes
write_at buffer at [] = buffer
write_at [] zero (v ∷ vs) = v ∷ write_at [] zero vs
write_at [] (suc at) (v ∷ vs) = 0 ∷ write_at [] at (v ∷ vs)
write_at (b ∷ bs) zero (v ∷ vs) = v ∷ write_at bs zero vs
write_at (b ∷ bs) (suc at) (v ∷ vs) = b ∷ write_at bs at (v ∷ vs)

pub length-le_bytes : (n v : ℕ) → length (le_bytes n v) ≡ n
unfolding le_bytes
length-le_bytes zero v = refl
length-le_bytes (suc n) v = ap suc (length-le_bytes n (v / 0x100))

pub length-write_at :
    (buffer : Bytes) (at : ℕ) (vs : Bytes)
    → at + length vs ≤ length buffer
    → length (write_at buffer at vs) ≡ length buffer
unfolding write_at
length-write_at buffer at [] h = refl
length-write_at [] zero (v ∷ vs) h = omega (arith, h)
length-write_at [] (suc at) (v ∷ vs) h = omega (arith, h)
length-write_at (b ∷ bs) zero (v ∷ vs) h = ap suc (length-write_at bs zero vs (omega (arith, h)))
length-write_at (b ∷ bs) (suc at) (v ∷ vs) h =
    ap suc (length-write_at bs at (v ∷ vs) (omega (arith, h)))

-- A store changes nothing in front of it.
pub get_or-write_at :
    (buffer : Bytes) (at : ℕ) (vs : Bytes) (i : ℕ)
    → i < at
    → get_or (write_at buffer at vs) i 0 ≡ get_or buffer i 0
unfolding write_at
get_or-write_at buffer at [] i h = refl
get_or-write_at [] zero (v ∷ vs) i h = omega (arith, h)
get_or-write_at [] (suc at) (v ∷ vs) zero h = refl
get_or-write_at [] (suc at) (v ∷ vs) (suc i) h = get_or-write_at [] at (v ∷ vs) i (omega (arith, h))
get_or-write_at (b ∷ bs) zero (v ∷ vs) i h = omega (arith, h)
get_or-write_at (b ∷ bs) (suc at) (v ∷ vs) zero h = refl
get_or-write_at (b ∷ bs) (suc at) (v ∷ vs) (suc i) h =
    get_or-write_at bs at (v ∷ vs) i (omega (arith, h))

-- The bytes stored are there.
pub get_or-write_at_inside :
    (buffer : Bytes) (at : ℕ) (vs : Bytes) (i : ℕ)
    → i < length vs
    → get_or (write_at buffer at vs) (at + i) 0 ≡ get_or vs i 0
unfolding write_at
get_or-write_at_inside buffer at [] i h = elim h [ ]
get_or-write_at_inside [] zero (v ∷ vs) zero h = refl
get_or-write_at_inside [] zero (v ∷ vs) (suc i) h =
    rw zero-add (simp zero-add at (get_or-write_at_inside [] zero vs i (omega (arith, h))))
get_or-write_at_inside [] (suc at) (v ∷ vs) i h =
    rw suc-add (get_or-write_at_inside [] at (v ∷ vs) i h)
get_or-write_at_inside (b ∷ bs) zero (v ∷ vs) zero h = refl
get_or-write_at_inside (b ∷ bs) zero (v ∷ vs) (suc i) h =
    rw zero-add (simp zero-add at (get_or-write_at_inside bs zero vs i (omega (arith, h))))
get_or-write_at_inside (b ∷ bs) (suc at) (v ∷ vs) i h =
    rw suc-add (get_or-write_at_inside bs at (v ∷ vs) i h)

le-suc : (b : ℕ) (bs : Bytes) (at n : ℕ) → le (b ∷ bs) (suc at) n ≡ le bs at n
unfolding le
le-suc b bs at zero = refl
le-suc b bs at (suc n) =
    simp unary_clauses (ap (λ t. get_or bs at 0 + 0x100 * t) (le-suc b bs (suc at) n))

le_front : (v n : ℕ) (bs : Bytes) → v < 0x100 ^ n → le (write_at bs 0 (le_bytes n v)) 0 n ≡ v
unfolding le le_bytes write_at
le_front v zero bs h = omega (arith, h)
le_front v (suc n) [] h =
    let tail = le-suc (u8 v) (write_at [] 0 (le_bytes n (v / 0x100))) 0 n in
    let rest = le_front (v / 0x100) n [] (omega (arith, simp unary_clauses at h)) in
    omega (arith, tail, rest)
le_front v (suc n) (b ∷ bs) h =
    let tail = le-suc (u8 v) (write_at bs 0 (le_bytes n (v / 0x100))) 0 n in
    let rest = le_front (v / 0x100) n bs (omega (arith, simp unary_clauses at h)) in
    omega (arith, tail, rest)

-- Reading back what was stored.
pub le-write_at :
    (buffer : Bytes) (at n v : ℕ) → v < 0x100 ^ n → le (write_at buffer at (le_bytes n v)) at n ≡ v
unfolding write_at le_bytes
le-write_at buffer zero n v h = le_front v n buffer h
le-write_at buffer (suc at) zero v h = unfold le in omega (arith, h)
le-write_at [] (suc at) (suc n) v h = le-suc 0 _ at (suc n) ∙ le-write_at [] at (suc n) v h
le-write_at (b ∷ bs) (suc at) (suc n) v h = le-suc b _ at (suc n) ∙ le-write_at bs at (suc n) v h

-- Reading inside a part of the buffer.
pub le-slice :
    (m n : ℕ) (bs : Bytes) (at k : ℕ) → at + k ≤ n → le (slice m n bs) at k ≡ le bs (m + at) k
unfolding le
le-slice m n bs at zero h = refl
le-slice m n bs at (suc k) h = rw (
  get_or-take n (drop m bs) at 0 (omega (arith, h)),
  get_or-drop m bs at 0,
  le-slice m n bs (at + 1) k (omega (arith, h)),
  add_assoc,
)

-- A store behind the bytes that are read changes nothing of them.
pub le-write_at_behind :
    (buffer : Bytes) (at : ℕ) (vs : Bytes) (i n : ℕ)
    → i + n ≤ at
    → le (write_at buffer at vs) i n ≡ le buffer i n
unfolding le
le-write_at_behind buffer at vs i zero h = refl
le-write_at_behind buffer at vs i (suc n) h = rw (
  get_or-write_at buffer at vs i (omega (arith, h)),
  le-write_at_behind buffer at vs (i + 1) n (omega (arith, h)),
)

-- What was stored stands where it was stored.
pub slice-write_at :
    (buffer : Bytes) (at : ℕ) (vs : Bytes) → slice at (length vs) (write_at buffer at vs) ≡ vs
unfolding write_at
slice-write_at buffer at [] = refl
slice-write_at [] zero (v ∷ vs) = ap (λ q. v ∷ q) (slice-write_at [] zero vs)
slice-write_at [] (suc at) (v ∷ vs) = slice-write_at [] at (v ∷ vs)
slice-write_at (b ∷ bs) zero (v ∷ vs) = ap (λ q. v ∷ q) (slice-write_at bs zero vs)
slice-write_at (b ∷ bs) (suc at) (v ∷ vs) = slice-write_at bs at (v ∷ vs)
