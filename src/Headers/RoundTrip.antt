-- ===== src/Headers/RoundTrip.antt =====
-- What `cf_headers_encode` of cf_headers.c writes, `cf_headers_decode` reads back.
use esp_cf_tunnel.Prelude.{
  ℕ, ◌+◌, ◌-◌, min, ◌≤◌, ◌≡◌, refl, sym, ap, ◌∙◌, false, ◌||◌, not, some, List, [], ◌∷◌, ◌++◌, map,
  ltb, ◌==◌, if◌then◌else◌, length, length-append, append-nil, All, All-append, arith, inl, inr,
  Bool-cases,
}
use esp_cf_tunnel.Core.{Bytes, ok, err, ◌>>=◌, chain_ok, ok-injective, format}
use esp_cf_tunnel.Base64
use esp_cf_tunnel.Base64.{encode_loop, encoded_size}
use esp_cf_tunnel.Base64.RoundTrip.{IsByte, decode-raw}
use esp_cf_tunnel.Headers.{
  Header, count_max, decoded_max, wire_max, valid_name, valid_value, fields, cut_colon,
  decode_entry, decode_fields, decode, need_loop, encode,
}
use esp_cf_tunnel.Headers.Fields.{
  NoSemicolon, encode_loop-IsPlain, fields_alone, fields_first, cut_colon-append,
  IsPlain-NoSemicolon,
}
use esp_cf_tunnel.Headers.Written.{
  piece, more_pieces, total, IsEntry, need_loop_room, text, write_all,
}

-- The text comes apart into the entries' texts.
piece-NoSemicolon : (h : Header) → NoSemicolon (piece h)
piece-NoSemicolon h =
    All-append _ (encode_loop false h.name) (58 ∷ encode_loop false h.value)
      (IsPlain-NoSemicolon _ (encode_loop-IsPlain h.name))
      (refl, IsPlain-NoSemicolon _ (encode_loop-IsPlain h.value))

fields-more_pieces :
    (f : Bytes) (hs : List Header) → NoSemicolon f → fields (f ++ more_pieces hs) ≡ f ∷ map piece hs
fields-more_pieces f [] v = rw (append-nil f) (fields_alone f v)
fields-more_pieces f (h ∷ hs) v =
    fields_first f (piece h ++ more_pieces hs) v
    ∙ ap (λ q. f ∷ q) (fields-more_pieces (piece h) hs (piece-NoSemicolon h))

decode_entry_cut :
    (field a b : Bytes) (room : ℕ)
    → cut_colon field ≡ some (a, b)
    → decode_entry field room ≡ (
        Base64.decode a false room >>= λ name.
        Base64.decode b false (room - length name) >>= λ value.
        (if not (valid_name name) || not (valid_value value)
          then err format
          else ok (record { name = name; value = value })))
unfolding decode_entry
decode_entry_cut field a b room h = rw (decode_entry, h) refl

decode_entry-piece :
    (h : Header) (room : ℕ)
    → IsEntry h
    → All IsByte h.name
    → All IsByte h.value
    → length h.name + length h.value ≤ room
    → decode_entry (piece h) room ≡ ok h
decode_entry-piece h room (name_ok, value_ok, _) b c fits =
    let a1 = encode_loop false h.name in
    let a2 = encode_loop false h.value in
    decode_entry_cut (piece h) a1 a2 room (cut_colon-append a1 a2 (encode_loop-IsPlain h.name))
    ∙ rw
        (
          decode-raw h.name room b (omega (arith, fits)),
          decode-raw h.value (room - length h.name) c (omega (arith, fits)),
          name_ok,
          value_ok,
        )
        refl

abbrev pub AreBytes : Header → Type 0
AreBytes h = All IsByte h.name × All IsByte h.value

decode_fields_cons :
    (f : Bytes) (fs : List Bytes) (num slots room : ℕ)
    → 1 ≤ length f
    → (num == slots) ≡ false
    → decode_fields (f ∷ fs) num slots room ≡ (
        decode_entry f room >>= λ h.
        decode_fields fs (num + 1) slots (room - length h.name - length h.value) >>= λ hs.
        ok (h ∷ hs))
unfolding decode_fields
decode_fields_cons [] fs num slots room h k = absurd (omega (arith, h))
decode_fields_cons (c ∷ cs) fs num slots room h k = rw k refl

decode_fields-piece :
    (hs : List Header) (num slots room : ℕ)
    → All IsEntry hs
    → All AreBytes hs
    → num + length hs ≤ slots
    → total hs ≤ room
    → decode_fields (map piece hs) num slots room ≡ ok hs
decode_fields-piece [] num slots room v b few fits = unfold decode_fields in refl
decode_fields-piece (h ∷ hs) num slots room v b few fits =
    let rest =
      decode_fields-piece hs (num + 1) slots (room - length h.name - length h.value) v.1 b.1
        (omega (arith, few)) (omega (arith, fits)) in
    let some_left : (num == slots) ≡ false = ground (arith, few) in
    decode_fields_cons (piece h) (map piece hs) num slots room
      (omega (arith, length-append (encode_loop false h.name) (58 ∷ encode_loop false h.value)))
      some_left
    ∙ rw (decode_entry-piece h room v.0 b.0.0 b.0.1 (omega (arith, fits)), rest) refl

decode_text :
    (hs : List Header) (slots room : ℕ)
    → All IsEntry hs
    → All AreBytes hs
    → length hs ≤ slots
    → total hs ≤ room
    → decode_fields (fields (text hs)) 0 slots room ≡ ok hs
decode_text [] slots room v b few fits = unfold fields decode_fields in refl
decode_text (h ∷ hs) slots room v b few fits =
    ap (λ q. decode_fields q 0 slots room) (fields-more_pieces (piece h) hs (piece-NoSemicolon h))
    ∙ decode_fields-piece (h ∷ hs) 0 slots room v b (omega (arith, few)) fits

need_text :
    (hs : List Header) (capacity : ℕ) {w : Bytes}
    → encode hs capacity ≡ ok w
    → (w ≡ text hs)
      × (length w ≤ capacity)
      × (length w ≤ wire_max)
      × (length hs ≤ count_max)
      × All IsEntry hs
      × (total hs ≤ decoded_max)
unfolding encode
need_text hs capacity {w} e = elim (Bool-cases (ltb count_max (length hs))) [
  | inl t ↦ ground (arith, t, e)
  | inr t ↦
      let (need, f, g) = chain_ok (need_loop hs 0 0) _ (rw t at e) in
      elim (Bool-cases (ltb capacity need || ltb wire_max need)) [
        | inl u ↦ ground (arith, u, g)
        | inr u ↦
            let (form, size) = write_all hs capacity f (ground (arith, u)) in
            let (valid, small) = need_loop_room hs 0 0 (omega arith) f in
            let same : w ≡ text hs = sym (ok-injective (rw u at g)) ∙ form in
            let long = ap length same ∙ size in
            (
              same,
              ground (arith, u, long),
              ground (arith, u, long),
              ground (arith, t),
              valid,
              omega (arith, small),
            )
      ]
]

-- What `cf_headers_encode` writes fits the buffer and the limit on the wire, and `cf_headers_decode` reads the
-- same entries back, in order, if it has a slot for each and an arena for their bytes.
pub decode-encode_headers :
    (hs : List Header) (capacity slots arena : ℕ) {w : Bytes}
    → All AreBytes hs
    → encode hs capacity ≡ ok w
    → length hs ≤ slots
    → total hs ≤ arena
    → (length w ≤ capacity) × (length w ≤ wire_max) × (decode w slots arena ≡ ok hs)
unfolding decode
decode-encode_headers hs capacity slots arena {w} b e few fits =
    let (same, room, wire, count, valid, small) = need_text hs capacity e in
    let short : ltb wire_max (length w) ≡ false = ground (arith, wire) in
    (
      room,
      wire,
      rw short (
          ap (λ q. decode_fields (fields q) 0 (min slots count_max) (min arena decoded_max)) same
          ∙ decode_text hs (min slots count_max) (min arena decoded_max) valid b
              (omega (arith, few, count)) (omega (arith, small, fits))),
    )
