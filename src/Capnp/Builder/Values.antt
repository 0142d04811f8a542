-- ===== src/Capnp/Builder/Values.antt =====
-- The reader of cf_capnp.c reads the numbers that its builder stores.
use esp_cf_tunnel.Prelude.{
  ℕ, ◌+◌, ◌-◌, ◌*◌, ◌^◌, ◌≤◌, ◌<◌, ◌≡◌, refl, ◌∙◌, ap, sym, true, false, not, none, [], ltb, get_or,
  arith, inl, inr, Bool-cases, ◌||◌,
}
use esp_cf_tunnel.Core.{u32}
use esp_cf_tunnel.Capnp.Words.{le, le_bytes, write_at, le-write_at, le-slice}
use esp_cf_tunnel.Capnp.Reader.{uint, is_width}
use esp_cf_tunnel.Capnp.Reader.Charges.{range-Within}
use esp_cf_tunnel.Capnp.Builder.{Builder, broken, set_uint}
use esp_cf_tunnel.Capnp.Builder.Invariant.{IsValid, set_uint-IsValid}
use esp_cf_tunnel.Capnp.Builder.Pointers.{read_back, charge_pays, struct_at, read_back-Within}

set_uint_lem :
    (b : Builder) (object byte width value : ℕ)
    → let out = set_uint b object byte width value in
      out.error ≡ none
      → value < 0x100 ^ width
      → (is_width width ≡ true)
        × (out.words ≡ b.words)
        × (u32 (object * 8 + byte) + width ≤ b.words * 8)
        × (le (get_or (read_back out).segments 0 []) (u32 (object * 8 + byte)) width ≡ value)
unfolding set_uint
set_uint_lem b object byte width value e h =
    let offset = u32 (object * 8 + byte) in
    let stored = write_at b.buffer (8 + offset) (le_bytes width value) in
    elim (Bool-cases (broken b)) [
      | inl t ↦ ground (arith, t, e)
      | inr t ↦
          elim (Bool-cases (
            not (is_width width) || ltb (b.words * 8) offset || ltb (b.words * 8 - offset) width)) [
              | inl k ↦ ground (arith, t, e, k)
              | inr k ↦
                  let whole : offset + width ≤ b.words * 8 = ground (arith, k) in
                  rw (t, k)
                    (
                      ground (arith, k),
                      refl,
                      whole,
                      le-slice 8 (b.words * 8) stored offset width whole
                          ∙ le-write_at b.buffer (8 + offset) width value h,
                    )
            ]
    ]

-- What `cf_cp_set_uint` stored without an error is what `cf_cp_uint` reads from the structure at the same
-- place, if the number fits the width and the place lies in the structure's data.
uint-set_uint :
    (b : Builder) (object byte width value d p depth : ℕ)
    → IsValid b
    → value < 0x100 ^ width
    → byte + width ≤ d * 8
    → object + d ≤ b.words
    → (set_uint b object byte width value).error ≡ none
    → (uint
        (read_back (set_uint b object byte width value))
        (struct_at object d p depth)
        byte
        width).0
      ≡ value
unfolding uint
uint-set_uint b object byte width value d p depth v h k w e =
    let b' = set_uint b object byte width value in
    let valid = set_uint-IsValid b object byte width value v in
    let (wide, same, whole, found) = set_uint_lem b object byte width value e h in
    let inside =
      range-Within (read_back b') 0 object d refl
        (read_back-Within b' object d valid (omega (arith, same, w))) in
    let fits : ltb (d * 8) (byte + width) ≡ false = ground (arith, k) in
    let no_wrap : u32 (object * 8 + byte) ≡ object * 8 + byte =
      omega (arith, w, k, v.room, v.most) in
    rw (inside, wide, fits, charge_pays (read_back b') 1 (omega arith))
      (ap (λ i. le (get_or (read_back b').segments 0 []) i width) (sym no_wrap) ∙ found)
