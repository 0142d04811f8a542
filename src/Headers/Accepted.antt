-- ===== src/Headers/Accepted.antt =====
-- What `cf_headers_decode` of cf_headers.c accepts.
use mathlib.Core.Path.{subst}
use esp_cf_tunnel.Prelude.{
  ℕ, ◌+◌, ◌-◌, min, ◌≤◌, ◌≡◌, ◌≢◌, refl, ap, true, false, ◌||◌, not, List, [], ◌∷◌, ltb, ◌==◌,
  if◌then◌else◌, length, All, arith, inl, inr, Bool-cases, Option-cases,
}
use esp_cf_tunnel.Core.{Bytes, ok, err, chain_ok, ok-injective, format}
use esp_cf_tunnel.Base64
use esp_cf_tunnel.Base64.Canonical.{canonical_raw}
use esp_cf_tunnel.Headers.{
  Header, count_max, decoded_max, wire_max, every, value_char, valid_name, valid_value, fields,
  cut_colon, decode_entry, decode_fields, decode,
}
use esp_cf_tunnel.Headers.Written.{total}

-- A value has no control character but the tab, so that no line ends in it.
abbrev pub IsSingleLine : Bytes → Type 0
IsSingleLine s = All (λ c. (c ≢ 0) × (c ≢ 10) × (c ≢ 13)) s

value_char_lem : (c : ℕ) → value_char c ≡ true → (c ≢ 0) × (c ≢ 10) × (c ≢ 13)
unfolding value_char
value_char_lem c h =
    (λ e. ground (arith, e, h), λ e. ground (arith, e, h), λ e. ground (arith, e, h))

single_line : (s : Bytes) → every value_char s ≡ true → IsSingleLine s
single_line [] h = tt
single_line (c ∷ cs) h = (value_char_lem c (ground (arith, h)), single_line cs (ground (arith, h)))

-- A header that may be passed on.
pub record IsSafe (h : Header) : Type 0 where
  pub name : valid_name h.name ≡ true
  pub value : IsSingleLine h.value

entry_tests :
    (name value : Bytes) {h : Header}
    → (if not (valid_name name) || not (valid_value value)
        then err format
        else ok (record { name = name; value = value }))
      ≡ ok h
    → IsSafe h × (h.name ≡ name) × (h.value ≡ value)
unfolding valid_value
entry_tests name value {h} e =
    elim (Bool-cases (not (valid_name name) || not (valid_value value))) [
      | inl t ↦ ground (arith, t, e)
      | inr t ↦
          subst (λ o. IsSafe o × (o.name ≡ name) × (o.value ≡ value)) (ok-injective (rw t at e))
            (
              record { name = ground (arith, t); value = single_line value (ground (arith, t)) },
              refl,
              refl,
            )
    ]

decode_entry-IsSafe :
    (field : Bytes) (room : ℕ) {h : Header}
    → decode_entry field room ≡ ok h
    → IsSafe h × (length h.name + length h.value ≤ room)
unfolding decode_entry
decode_entry-IsSafe field room {h} e = elim (Option-cases (cut_colon field)) [
  | inl t ↦ ground (arith, t, e)
  | inr ((a, b), t) ↦
      let (name, e1, chained) =
        chain_ok (Base64.decode a false room) _ (rw (decode_entry, t) at e) in
      let (value, e2, g) = chain_ok (Base64.decode b false (room - length name)) _ chained in
      let (safe, same_name, same_value) = entry_tests name value g in
      let small = (canonical_raw a room e1).1 in
      let small_value = (canonical_raw b (room - length name) e2).1 in
      (safe, omega (arith, ap length same_name, ap length same_value, small, small_value))
]

decode_fields-IsSafe :
    (fs : List Bytes) (num slots room : ℕ) {hs : List Header}
    → num ≤ slots
    → decode_fields fs num slots room ≡ ok hs
    → All IsSafe hs × (num + length hs ≤ slots) × (total hs ≤ room)
unfolding decode_fields
decode_fields-IsSafe [] num slots room {hs} k e =
    subst (λ o. All IsSafe o × (num + length o ≤ slots) × (total o ≤ room)) (ok-injective e)
      (tt, omega (arith, k), omega arith)
decode_fields-IsSafe ([] ∷ fs) num slots room {hs} k e = decode_fields-IsSafe fs num slots room k e
decode_fields-IsSafe ((c ∷ cs) ∷ fs) num slots room {hs} k e = elim (Bool-cases (num == slots)) [
  | inl t ↦ ground (arith, t, e)
  | inr t ↦
      let (h, e1, chained) = chain_ok (decode_entry (c ∷ cs) room) _ (rw t at e) in
      let (rest, e2, g) =
        chain_ok (decode_fields fs (num + 1) slots (room - length h.name - length h.value)) _
          chained in
      let (safe, fits) = decode_entry-IsSafe (c ∷ cs) room e1 in
      let (others, few, small) =
        decode_fields-IsSafe fs (num + 1) slots (room - length h.name - length h.value)
          (ground (arith, t, k)) e2 in
      subst (λ o. All IsSafe o × (num + length o ≤ slots) × (total o ≤ room)) (ok-injective g)
        ((safe, others), omega (arith, few), omega (arith, small, fits))
]

-- Whatever the peer sends, the headers that `cf_headers_decode` shows have token names and values without NUL,
-- CR and LF; there are at most as many as there are slots, and at most thirty-two; and their bytes fit the arena and the limit of 4,096.
pub decode-IsSafe :
    (wire : Bytes) (slots arena : ℕ) {hs : List Header}
    → decode wire slots arena ≡ ok hs
    → All IsSafe hs × (length hs ≤ min slots count_max) × (total hs ≤ min arena decoded_max)
unfolding decode
decode-IsSafe wire slots arena {hs} e = elim (Bool-cases (ltb wire_max (length wire))) [
  | inl t ↦ ground (arith, t, e)
  | inr t ↦
      let (safe, few, small) =
        decode_fields-IsSafe (fields wire) 0 (min slots count_max) (min arena decoded_max)
          (omega arith) (rw t at e) in
      (safe, omega (arith, few), small)
]
