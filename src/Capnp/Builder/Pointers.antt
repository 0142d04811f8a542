-- ===== src/Capnp/Builder/Pointers.antt =====
-- The reader of cf_capnp.c follows the pointers that its builder writes.
use esp_cf_tunnel.Prelude.{
  ℕ, ◌+◌, ◌-◌, ◌*◌, ◌/◌, ◌%◌, ◌≤◌, ◌<◌, ◌≡◌, refl, ◌∙◌, true, false, none, some, [], ◌∷◌, ltb, leb,
  ◌==◌, drop, slice, get_or, arith, if◌then◌else◌, inl, inr, Bool-cases, length-take, length-drop,
}
use esp_cf_tunnel.Core.{u16, u32}
use esp_cf_tunnel.Capnp.Words.{le, le_bytes, write_at, le-write_at, le-slice}
use esp_cf_tunnel.Capnp.Checks.{
  struct, Value, null_value, Reader, failed, charge, admit, word_at, traversal_words, depth_max,
}
use esp_cf_tunnel.Capnp.Follow.{target_of, finish_value, struct_value, resolve, follow}
use esp_cf_tunnel.Capnp.Reader.Charges.{Within, range-Within}
use esp_cf_tunnel.Capnp.Builder.{
  Builder, broken, set_word, alloc_words, build_struct, struct_pointer, struct_delta,
}
use esp_cf_tunnel.Capnp.Builder.Invariant.{
  IsValid, alloc_words_lem, set_word_lem, build_struct-IsValid,
}

struct_delta_bounds :
    (slot at d p : ℕ)
    → (struct_delta slot at d p < 0x4000_0000)
      × (d + p ≡ 0 → struct_delta slot at d p ≡ 0x3fff_ffff)
struct_delta_bounds slot at d p = (ground arith, λ e. ground arith)

module _ (slot at d p : ℕ) (h : d < 0x10000) (k : p < 0x10000) where
  near : struct_pointer slot at d p % 4 ≡ 0
  near = omega arith

  offset : u32 (struct_pointer slot at d p) / 4 ≡ struct_delta slot at d p
  offset = omega (arith, struct_delta_bounds slot at d p)

  data_part : u16 (struct_pointer slot at d p / 0x1_0000_0000) ≡ d
  data_part = omega (arith, struct_delta_bounds slot at d p)

  pointer_part : u16 (struct_pointer slot at d p / 0x1_0000_0000_0000) ≡ p
  pointer_part = omega (arith, struct_delta_bounds slot at d p)

  not_null : 1 ≤ struct_pointer slot at d p
  not_null = ground (arith, struct_delta_bounds slot at d p)

  one_word : struct_pointer slot at d p < 0x1_0000_0000_0000_0000
  one_word = omega (arith, struct_delta_bounds slot at d p)

  -- An empty structure stands in its own slot.
  leads_to :
      slot < 0x1000_0000
      → at < 0x1000_0000
      → target_of (struct_pointer slot at d p) slot false ≡ some (if d + p == 0 then slot else at)
  unfolding target_of
  leads_to s t = rw offset (ground arith)

pub charge_pays :
    (r : Reader) (n : ℕ)
    → (if n == 0 then 1 else n) ≤ r.budget
    → charge r n ≡ (true, record r { budget = r.budget - (if n == 0 then 1 else n) })
unfolding charge
charge_pays r n h = ground (arith, h)

pub admit_pays :
    (r : Reader) (seg at n : ℕ)
    → r.error ≡ none
    → Within r seg at n
    → (if n == 0 then 1 else n) ≤ r.budget
    → (admit r seg at n).0 ≡ true
unfolding admit
admit_pays r seg at n e w h = rw (range-Within r seg at n e w, charge_pays r n h)

abbrev pub struct_at : ℕ → ℕ → ℕ → ℕ → Value
struct_at at d p depth = record null_value {
  kind = struct;
  word = at;
  data_words = d;
  pointers = p;
  depth = depth;
}

-- Where the words of a structure stand: an empty one stands in its own slot.
abbrev pub place : ℕ → ℕ → ℕ → ℕ → ℕ
place slot at d p = if d + p == 0 then slot else at

struct_value_lem :
    (r : Reader) (at word depth d p : ℕ)
    → r.error ≡ none
    → Within r 0 at (d + p)
    → (if d + p == 0 then 1 else d + p) ≤ r.budget
    → u16 (word / 0x1_0000_0000) ≡ d
    → u16 (word / 0x1_0000_0000_0000) ≡ p
    → (struct_value r 0 at word depth).0 ≡ struct_at at d p depth
unfolding struct_value finish_value
struct_value_lem r at word depth d p e w h words ptrs =
    rw (words, ptrs, admit_pays r 0 at (d + p) e w h)

-- A pointer that `cf_cp_struct` wrote leads the reader to the structure.
module _ (slot at d p depth : ℕ) (h : d < 0x10000) (k : p < 0x10000) (shallow : depth ≤ depth_max)
    (small_slot : slot < 0x1000_0000) (small_at : at < 0x1000_0000) where
  resolve-struct_pointer :
      (r : Reader)
      → r.error ≡ none
      → Within r 0 (place slot at d p) (d + p)
      → (if d + p == 0 then 1 else d + p) ≤ r.budget
      → (resolve r 0 slot (struct_pointer slot at d p) false depth).0
        ≡ struct_at (place slot at d p) d p depth
  unfolding resolve
  resolve-struct_pointer r e w m =
      rw (near slot at d p h k, leads_to slot at d p h k small_slot small_at, near slot at d p h k)
        (struct_value_lem r (place slot at d p) (struct_pointer slot at d p) depth d p e w m
          (data_part slot at d p h k) (pointer_part slot at d p h k))

  module _ (r : Reader) (clean : r.error ≡ none) (inside : Within r 0 slot 1)
      (whole : Within r 0 (place slot at d p) (d + p)) (money : d + p + 2 ≤ r.budget)
      (found : le (get_or r.segments 0 []) (slot * 8) 8 ≡ struct_pointer slot at d p) where
    first_word : word_at r 0 slot ≡ (struct_pointer slot at d p, r)
    unfolding word_at
    first_word = rw (range-Within r 0 slot 1 clean inside, found)

    follow-struct_pointer : (follow r 0 slot depth).0 ≡ struct_at (place slot at d p) d p depth
    unfolding follow
    follow-struct_pointer =
        let r' = record r { budget = r.budget - 1 } in
        let last = resolve-struct_pointer r' clean whole (ground (arith, money)) in
        let not_far : (struct_pointer slot at d p % 4 == 2) ≡ false = rw (near slot at d p h k) in
        let there : (struct_pointer slot at d p == 0) ≡ false =
          ground (arith, not_null slot at d p h k) in
        let fine : failed r ≡ false = rw clean in
        let level : ltb depth_max depth ≡ false = ground (arith, shallow) in
        rw (first_word, charge_pays r 1 (omega (arith, money)), fine, level, there, not_far) last

-- The reader that `cf_cp_read_init` makes of the message as it stands.
abbrev pub read_back : Builder → Reader
read_back b = record {
  segments = slice 8 (b.words * 8) b.buffer ∷ [];
  budget = traversal_words;
  error = none;
}

pub set_word_stored :
    (b : Builder) (slot value : ℕ)
    → let out = set_word b slot value in
      out.error ≡ none
      → value < 0x1_0000_0000_0000_0000
      → le (get_or (read_back out).segments 0 []) (slot * 8) 8 ≡ value
unfolding set_word
set_word_stored b slot value e h =
    let stored = write_at b.buffer (8 + slot * 8) (le_bytes 8 value) in
    let whole : slot * 8 + 8 ≤ b.words * 8 = ground arith in
    let found =
      le-slice 8 (b.words * 8) stored (slot * 8) 8 whole
      ∙ le-write_at b.buffer (8 + slot * 8) 8 value h in
    elim (Bool-cases (broken b)) [
      | inl t ↦ ground (arith, t, e)
      | inr t ↦ rw t (elim (Bool-cases (leb b.words slot)) [
        | inl l ↦ ground (arith, t, e, l)
        | inr l ↦ rw l found
      ])
    ]

pub read_back-Within :
    (b : Builder) (at n : ℕ) → IsValid b → at + n ≤ b.words → Within (read_back b) 0 at n
read_back-Within b at n v h =
    let a = length-take (b.words * 8) (drop 8 b.buffer) in
    let c = length-drop 8 b.buffer in (omega arith, omega (arith, a, c, v.kept, v.room, h))

-- A structure that `cf_cp_struct` made without an error is what the reader finds in its slot: the same
-- words, with the same sections.
pub follow-build_struct :
    (b : Builder) (slot d p depth : ℕ)
    → IsValid b
    → d < 0x10000
    → p < 0x10000
    → depth ≤ depth_max
    → (build_struct b slot d p).1.error ≡ none
    → let (at, b') = build_struct b slot d p in
      (follow (read_back b') 0 slot depth).0 ≡ struct_at (place slot at d p) d p depth
unfolding build_struct
follow-build_struct b slot d p depth v h k shallow e =
    let (at, b1) = alloc_words b (d + p) in
    let pointer = struct_pointer slot at d p in
    let b2 = set_word b1 slot pointer in
    let valid = build_struct-IsValid b slot d p v in
    let (same, kept) = set_word_lem b1 slot pointer in
    let (_, start, after) = alloc_words_lem b (d + p) (kept e).0 in
    let found = set_word_stored b1 slot pointer e (one_word slot at d p h k) in
    let small : b2.words < 0x1000 = omega (arith, valid.room, valid.most) in
    let used : slot < b2.words = omega (arith, same, (kept e).1) in
    let fits : at + (d + p) ≤ b2.words = omega (arith, same, start, after) in
    let there : place slot at d p + (d + p) ≤ b2.words = ground (arith, used, fits) in
    follow-struct_pointer slot at d p depth h k shallow (omega (arith, used, small))
      (omega (arith, fits, small)) (read_back b2) refl
      (read_back-Within b2 slot 1 valid (omega (arith, used)))
      (read_back-Within b2 (place slot at d p) (d + p) valid there) (omega (arith, fits, small))
      found
