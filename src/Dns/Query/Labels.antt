-- ===== src/Dns/Query/Labels.antt =====
-- A label that `cf_dns_query` of cf_dns.c wrote, as one round of `read_name` reads it.
use native.Mathlib.Nat.{add-zero}
use esp_cf_tunnel.Prelude.{
  ℕ, suc, ◌+◌, ◌-◌, ◌*◌, ◌/◌, ◌≤◌, ◌≡◌, refl, sym, ap, ◌∙◌, true, false, ◌||◌, some, [], ◌∷◌, ◌++◌,
  map, ltb, leb, ◌==◌, length, length-append, get_or, get_or-append_right, drop, drop-append, take,
  take-append, slice, All, arith, inl, inr, Bool-cases, ==_iff, drop-drop,
}
use esp_cf_tunnel.Core.{Bytes, ok, ok-injective, u8}
use esp_cf_tunnel.Dns.Names.{
  lower, name_char, name_max, Cursor, more, done, dot, copy_label, read_label, read_round,
  read_loop, after_round,
}
use esp_cf_tunnel.Dns.Query.{put_label}

-- Every character may stand in a label.
abbrev pub IsLabel : Bytes → Type 0
IsLabel label = All (λ c. name_char (lower c) ≡ true) label

pub lower-lower : (c : ℕ) → lower (lower c) ≡ lower c
unfolding lower
lower-lower c = ground arith

pub copy_label-lower :
    (label : Bytes) → IsLabel label → copy_label (map lower label) ≡ some (map lower label)
unfolding copy_label
copy_label-lower [] h = refl
copy_label-lower (c ∷ cs) h = rw (lower-lower c, h.0, copy_label-lower cs h.1, lower-lower c) refl

pub length-lower : (label : Bytes) → length (map lower label) ≡ length label
length-lower [] = refl
length-lower (c ∷ cs) = ap suc (length-lower cs)

pub put_label_lem :
    (label : Bytes) {out : Bytes}
    → put_label label ≡ ok out
    → (1 ≤ length label) × (length label ≤ 63) × (out ≡ length label ∷ map lower label)
unfolding put_label
put_label_lem label {out} e = elim (Bool-cases (length label == 0 || ltb 63 (length label))) [
  | inl t ↦ ground (arith, t, e)
  | inr t ↦
      let small : length label ≤ 63 = ground (arith, t) in
      let byte : u8 (length label) ≡ length label = omega (arith, small) in
      (
        ground (arith, t),
        small,
        sym (ok-injective (rw t at e)) ∙ ap (λ n. n ∷ map lower label) byte,
      )
]

module _ (before after label : Bytes) where
  abbrev pub labelled : Bytes
  labelled = before ++ (length label ∷ map lower label ++ after)

  pub length-labelled : length labelled ≡ length before + 1 + length label + length after
  length-labelled = omega (
    arith,
    length-append before (length label ∷ map lower label ++ after),
    length-append (map lower label) after,
    length-lower label,
  )

  pub size_byte : (at : ℕ) → at ≡ length before → get_or labelled at 0 ≡ length label
  size_byte at e =
      ap (λ i. get_or labelled i 0) (e ∙ sym (add-zero _))
      ∙ get_or-append_right before (length label ∷ map lower label ++ after) 0 0

  pub cut : (at : ℕ) → at ≡ length before → slice (at + 1) (length label) labelled ≡ map lower label
  cut at e =
      let behind : drop (at + 1) labelled ≡ map lower label ++ after =
        sym (drop-drop at 1 labelled)
        ∙ ap (λ i. drop 1 (drop i labelled)) e
        ∙ ap (λ q. drop 1 q) (drop-append before (length label ∷ map lower label ++ after)) in
      ap (λ q. take (length label) q) behind
      ∙ ap (λ n. take n (map lower label ++ after)) (sym (length-lower label))
      ∙ take-append (map lower label) after

-- A label in the packet, as one round of the loop of `read_name` reads it.
pub label_round :
    (before after label : Bytes) (c : Cursor)
    → IsLabel label
    → c.at ≡ length before
    → 1 ≤ length label
    → length label ≤ 63
    → c.labels + 1 ≤ 127
    → length c.out + length label + length (dot c.out) ≤ name_max
    → read_round (labelled before after label) c
      ≡ more (record c {
        at = c.at + 1 + length label;
        out = c.out ++ dot c.out ++ map lower label;
        labels = c.labels + 1;
      })
unfolding read_round read_label
label_round before after label c v e h k l m =
    let n = length label in
    let total = length-labelled before after label in
    let inside : leb (length (labelled before after label)) c.at ≡ false =
      ground (arith, total, e) in
    let not_pointer : (n / 0x40 == 3) ≡ false = ground (arith, k) in
    let short : ltb 63 n ≡ false = ground (arith, k) in
    let some_bytes : (n == 0) ≡ false = ground (arith, h) in
    let few : ltb 127 (c.labels + 1) ≡ false = ground (arith, l) in
    let whole : ltb (length (labelled before after label) - (c.at + 1)) n ≡ false =
      ground (arith, total, e) in
    let fits : ltb name_max (length c.out + n + length (dot c.out)) ≡ false = ground (arith, m) in
    rw
      (
        inside,
        size_byte before after label c.at e,
        not_pointer,
        short,
        some_bytes,
        few,
        whole,
        fits,
        cut before after label c.at e,
        copy_label-lower label v,
        size_byte before after label c.at e,
      )
      refl

-- The byte behind the last label ends the name.
pub last_round :
    (before after : Bytes) (c : Cursor)
    → c.at ≡ length before
    → c.resume ≡ 0
    → read_round (before ++ (0 ∷ after)) c ≡ done c.out (c.at + 1)
unfolding read_round
last_round before after c e r =
    let total = length-append before (0 ∷ after) in
    let inside : leb (length (before ++ (0 ∷ after))) c.at ≡ false = ground (arith, total, e) in
    let zero_byte : get_or (before ++ (0 ∷ after)) c.at 0 ≡ 0 =
      ap (λ i. get_or (before ++ (0 ∷ after)) i 0) (e ∙ sym (add-zero _))
      ∙ get_or-append_right before (0 ∷ after) 0 0 in
    rw (inside, zero_byte, r) refl

-- The cursor behind a label.
abbrev pub past : Cursor → Bytes → Cursor
past c label = record c {
  at = c.at + 1 + length label;
  out = c.out ++ dot c.out ++ map lower label;
  labels = c.labels + 1;
}

-- What the loop keeps: the cursor stands behind `before`, no pointer was followed, and every label but the
-- first took two characters.
pub record Fits (before rest label : Bytes) (c : Cursor) (fuel : ℕ) : Type 0 where
  pub here : c.at ≡ length before
  pub straight : c.resume ≡ 0
  pub few : 2 * c.labels ≤ length c.out + 1
  pub first : length c.out ≡ 0 → c.labels ≡ 0
  pub room : length c.out + length (dot c.out) + length label + length rest ≤ name_max
  pub enough : 128 ≤ fuel + c.labels

pub length-dot :
    (out : Bytes)
    → (length out ≡ 0 → length (dot out) ≡ 0) × (1 ≤ length out → length (dot out) ≡ 1)
length-dot [] = (λ h. refl, λ h. omega (arith, h))
length-dot (x ∷ xs) = (λ h. omega (arith, h), λ h. refl)

pub labels_fit :
    (before rest label : Bytes) (c : Cursor) (fuel : ℕ)
    → Fits before rest label c fuel
    → 1 ≤ length label
    → (c.labels + 1 ≤ 127) × (2 ≤ fuel)
labels_fit before rest label c fuel s h =
    let d = length-dot c.out in
    elim (Bool-cases (length c.out == 0)) [
      | inl t ↦ ground (arith, t, s, h)
      | inr t ↦
          let one : length (dot c.out) ≡ 1 = d.1 (ground (arith, t)) in
          (omega (arith, s.few, s.room, one, h), omega (arith, s.few, s.room, s.enough, one, h))
    ]

pub label_step :
    (before after rest label : Bytes) (c : Cursor) (fuel : ℕ)
    → IsLabel label
    → 1 ≤ length label
    → length label ≤ 63
    → Fits before rest label c fuel
    → read_loop (suc fuel) (labelled before after label) c
      ≡ read_loop fuel (labelled before after label) (past c label)
unfolding read_loop
label_step before after rest label c fuel v h k s =
    ap (λ q. after_round (λ c'. read_loop fuel (labelled before after label) c') q)
      (label_round before after label c v s.here h k (labels_fit before rest label c fuel s h).0
        (omega (arith, s.room)))

pub past-Fits :
    (x : ℕ) (before rest label : Bytes) (c : Cursor) (fuel : ℕ)
    → 1 ≤ length label
    → Fits before (x ∷ rest) label c (suc fuel)
    → Fits (before ++ (length label ∷ map lower label)) rest [] (past c label) fuel
past-Fits x before rest label c fuel h s =
    let out' = c.out ++ dot c.out ++ map lower label in
    let size : length out' ≡ length c.out + length (dot c.out) + length label = omega (
      arith,
      length-append (c.out ++ dot c.out) (map lower label),
      length-append c.out (dot c.out),
      length-lower label,
    ) in
    let one : length (dot out') ≡ 1 = (length-dot out').1 (omega (arith, size, h)) in
    record {
      here = omega (
        arith,
        s.here,
        length-append before (length label ∷ map lower label),
        length-lower label,
      );
      straight = s.straight;
      few = elim (Bool-cases (length c.out == 0)) [
        | inl t ↦ omega (arith, s.first ((==_iff _ _).0 t), size, h)
        | inr t ↦ omega (arith, s.few, (length-dot c.out).1 (ground (arith, t)), size, h)
      ];
      first = λ e. absurd (omega (arith, e, size, h));
      room = omega (arith, s.room, size, one);
      enough = omega (arith, s.enough);
    }
