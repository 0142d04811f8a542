-- ===== src/Framing/Valid.antt =====
-- The framer between two rounds of the loop of `cf_capnp_feed` (cf_capnp_framing.c).
use esp_cf_tunnel.Prelude.{
  ℕ, zero, suc, ◌+◌, ◌<◌, ◌≤◌, ◌≡◌, refl, none, ◌++◌, ◌==◌, length, arith, length-append, inl, inr,
  Bool-cases, ==_iff, ◌∙◌,
}
use esp_cf_tunnel.Core.{Bytes, CfResult, Result-cases, ok}
use esp_cf_tunnel.Framing.{
  u32_at, table_size, total_size, Framer, reset, init, read_count, read_table, deliver, on_phase,
  complete, message_max, max_segments,
}
use esp_cf_tunnel.Framing.Table.{u32_at-append, total_size-append, total_size_bounds}

-- What the phase says of the bytes received and of the bytes awaited.
abbrev pub PhaseFits : ℕ → Framer → Type 0
PhaseFits zero f = f.target ≡ 4
PhaseFits (suc zero) f =
    (4 ≤ length f.received)
    × (f.segments ≡ u32_at f.received 0 + 1)
    × (f.segments ≤ max_segments)
    × (f.target ≡ table_size f.segments)
PhaseFits (suc (suc zero)) f =
    (f.segments ≡ u32_at f.received 0 + 1)
    × (f.segments ≤ max_segments)
    × (table_size f.segments ≤ length f.received)
    × (total_size f.received f.segments f.capacity ≡ ok f.target)
PhaseFits (suc (suc (suc n))) f = ⊥

pub record IsSound (f : Framer) : Type 0 where
  pub clean : f.error ≡ none
  pub fits : f.target ≤ f.capacity
  pub capacity_least : 16 ≤ f.capacity
  pub capacity_most : f.capacity ≤ message_max
  pub header : PhaseFits f.phase f

-- Between two rounds a byte at least is awaited.
pub record IsValid (f : Framer) : Type 0 where
  pub sound : IsSound f
  pub open sound use *
  pub room : length f.received < f.target

pub init-IsValid : (most : ℕ) {f : Framer} → init most ≡ ok f → IsValid f
unfolding init
init-IsValid most {f} h = ground arith

pub reset-IsValid : (f : Framer) → IsSound f → IsValid (reset f)
unfolding reset
reset-IsValid f v = ground arith

abbrev pub extend : Framer → Bytes → Framer
extend f bs = record f { received = f.received ++ bs }

table_size_least : (n : ℕ) → 1 ≤ n → 8 ≤ table_size n
unfolding table_size
table_size_least n h = omega arith

extend-PhaseFits : (f : Framer) (bs : Bytes) (p : ℕ) → PhaseFits p f → PhaseFits p (extend f bs)
extend-PhaseFits f bs zero h = h
extend-PhaseFits f bs (suc zero) (a, b, c, d) = (
  omega (arith, length-append f.received bs),
  b ∙ rw (u32_at-append f.received bs 0 (omega arith)),
  c,
  d,
)
extend-PhaseFits f bs (suc (suc zero)) (a, b, c, d) =
    let one : 1 ≤ f.segments = omega arith in
    (
      a ∙ rw (u32_at-append f.received bs 0 (omega (arith, table_size_least f.segments one))),
      b,
      omega (arith, length-append f.received bs),
      total_size-append f.received bs f.segments f.capacity one c ∙ d,
    )
extend-PhaseFits f bs (suc (suc (suc n))) h = h

pub extend-IsSound : (f : Framer) (bs : Bytes) → IsSound f → IsSound (extend f bs)
extend-IsSound f bs v = record {
  clean = v.clean;
  fits = v.fits;
  capacity_least = v.capacity_least;
  capacity_most = v.capacity_most;
  header = extend-PhaseFits f bs f.phase v.header;
}

-- Phase 0: with its four bytes the count is known, and with the count the table.
read_count-IsValid :
    (f : Framer)
    → IsSound f
    → f.phase ≡ 0
    → length f.received ≡ f.target
    → (read_count f).1 ≡ none
    → IsValid (read_count f).0
unfolding read_count
read_count-IsValid f v p l e = ground (arith, table_size_least (u32_at f.received 0 + 1))

read_table-IsValid :
    (f : Framer)
    → IsSound f
    → f.phase ≡ 1
    → length f.received ≡ f.target
    → (read_table f).1 ≡ none
    → IsValid (read_table f).0
unfolding read_table
read_table-IsValid f v p l e = elim (Result-cases (total_size f.received f.segments f.capacity)) [
  | inl (t, q) ↦
      ground
        (arith, q, total_size_bounds f.received f.segments f.capacity (ground (arith, v.header)) q)
  | inr (x, q) ↦ ground arith
]

module _ {C : Type 0} (on_message : C → Bytes → C × CfResult) where
  deliver-IsValid :
      (f : Framer) (c : C)
      → IsSound f
      → (deliver on_message f c).2 ≡ none
      → IsValid (deliver on_message f c).0
  unfolding deliver
  deliver-IsValid f c v e = ground (arith, reset-IsValid f v)

  on_phase-IsValid :
      (p : ℕ) (f : Framer) (c : C)
      → IsSound f
      → f.phase ≡ p
      → length f.received ≡ f.target
      → (on_phase on_message p f c).2 ≡ none
      → IsValid (on_phase on_message p f c).0
  unfolding on_phase
  on_phase-IsValid zero f c v p l e = read_count-IsValid f v p l e
  on_phase-IsValid (suc zero) f c v p l e = read_table-IsValid f v p l e
  on_phase-IsValid (suc (suc n)) f c v p l e = deliver-IsValid f c v e

  -- A round of the loop that copies no more than is awaited, and does not fail, keeps the framer valid.
  pub complete-IsValid :
      (f : Framer) (c : C)
      → IsSound f
      → length f.received ≤ f.target
      → (complete on_message f c).2 ≡ none
      → IsValid (complete on_message f c).0
  unfolding complete
  complete-IsValid f c v l e = elim (Bool-cases (length f.received == f.target)) [
    | inl t ↦ rw t (on_phase-IsValid f.phase f c v refl ((==_iff _ _).0 t) (rw t at e))
    | inr t ↦ rw t (record { sound = v; room = ground arith })
  ]
