-- ===== src/Capnp/Builder/Blobs.antt =====
-- The reader of cf_capnp.c reads the bytes that its builder stores.
use mathlib.Core.Path.{subst}
use esp_cf_tunnel.Prelude.{
  ℕ, ◌+◌, ◌-◌, ◌*◌, ◌/◌, ◌≤◌, ◌<◌, ◌≡◌, refl, sym, ap, ◌∙◌, false, none, some, [], ltb, length,
  slice, slice-slice, get_or, arith, if◌then◌else◌, inl, inr, Bool-cases,
}
use esp_cf_tunnel.Core.{Bytes, argument}
use esp_cf_tunnel.Framing.{message_max}
use esp_cf_tunnel.Capnp.Words.{le, write_at, le-slice, le-write_at_behind, slice-write_at}
use esp_cf_tunnel.Capnp.Checks.{depth_max}
use esp_cf_tunnel.Capnp.Follow.{follow}
use esp_cf_tunnel.Capnp.Reader.{bytes}
use esp_cf_tunnel.Capnp.Reader.Charges.{range-Within}
use esp_cf_tunnel.Capnp.Builder.Pointers.{read_back, read_back-Within, set_word_stored}
use esp_cf_tunnel.Capnp.Builder.Invariant.{IsValid, blob-IsValid, alloc_words_lem, set_word_lem}
use esp_cf_tunnel.Capnp.Builder.{
  Builder, broken, store, list_pointer, blob, fill, set_word, alloc_words,
}
use esp_cf_tunnel.Capnp.Builder.ListPointers.{one_word, bytes_at, follow-list_pointer}

blob_tests :
    (b b2 : Builder) (at : ℕ) (value : Bytes)
    → let out =
        if broken b
        then b
        else if ltb (message_max - 1) (length value)
        then record b { error = some argument }
        else if broken b2
        then b2
        else store b2 (8 + at * 8) value in
      out.error ≡ none
      → (b2.error ≡ none) × (length value < message_max) × (out ≡ store b2 (8 + at * 8) value)
blob_tests b b2 at value e = elim (Bool-cases (broken b)) [
  | inl t ↦ ground (arith, t, e)
  | inr t ↦ elim (Bool-cases (ltb (message_max - 1) (length value))) [
    | inl u ↦ ground (arith, t, u, e)
    | inr u ↦ elim (Bool-cases (broken b2)) [
      | inl w ↦ ground (arith, t, u, w, e)
      | inr w ↦ (ground (arith, w), ground (arith, u), rw (t, u, w) refl)
    ]
  ]
]

-- The number of bytes that `cf_cp_blob` stores for data.
abbrev size_of : Bytes → ℕ
size_of value = length value + (if false then 1 else 0)

module _ (b : Builder) (slot depth : ℕ) (value : Bytes) (v : IsValid b) (before : slot < b.words)
    (shallow : depth ≤ depth_max) (e : (blob b slot value false).error ≡ none) where
  abbrev start : ℕ
  start = (alloc_words b ((size_of value + 7) / 8)).0

  abbrev grown : Builder
  grown = (alloc_words b ((size_of value + 7) / 8)).1

  abbrev linked : Builder
  linked = set_word grown slot (list_pointer slot start 2 (size_of value))

  blob_done :
      (linked.error ≡ none)
      × (length value < message_max)
      × (blob b slot value false ≡ store linked (8 + start * 8) value)
  blob_done = unfold blob fill in blob_tests b linked start value (unfold blob fill in e)

  allocated : (start ≡ b.words) × (linked.words ≡ b.words + (length value + 7) / 8)
  allocated =
      let (same, clean) = set_word_lem grown slot (list_pointer slot start 2 (size_of value)) in
      let (_, first, last) = alloc_words_lem b ((size_of value + 7) / 8) (clean blob_done.0).0 in
      (first, omega (arith, same, last))

  valid : IsValid (store linked (8 + start * 8) value)
  valid = subst IsValid blob_done.2 (blob-IsValid b slot value false v)

  pointer_found :
      le (get_or (read_back (store linked (8 + start * 8) value)).segments 0 []) (slot * 8) 8
      ≡ list_pointer slot start 2 (size_of value)
  pointer_found =
      let (at, words) = allocated in
      let small : b.words < 0x1000 = omega (arith, v.room, v.most) in
      let whole : slot * 8 + 8 ≤ linked.words * 8 = omega (arith, before, words) in
      let stored =
        set_word_stored grown slot (list_pointer slot start 2 (size_of value)) blob_done.0 (
          one_word slot start (size_of value) (omega (arith, at, before)) (omega (arith, at, small))
            (omega (arith, blob_done.1))) in
      le-slice 8 (linked.words * 8) (write_at linked.buffer (8 + start * 8) value) (slot * 8) 8
        whole
      ∙ le-write_at_behind linked.buffer (8 + start * 8) value (8 + slot * 8) 8
          (omega (arith, at, before))
      ∙ sym (le-slice 8 (linked.words * 8) linked.buffer (slot * 8) 8 whole)
      ∙ stored

  pointer_followed :
      (follow (read_back (store linked (8 + start * 8) value)) 0 slot depth).0
      ≡ bytes_at start (size_of value) depth
  pointer_followed =
      let b' = store linked (8 + start * 8) value in
      let (at, words) = allocated in
      let small : b.words < 0x1000 = omega (arith, v.room, v.most) in
      follow-list_pointer slot start (size_of value) depth (read_back b')
        (omega (arith, at, before)) (omega (arith, at, small)) (omega (arith, blob_done.1)) shallow
        refl (read_back-Within b' slot 1 valid (omega (arith, before, words)))
        (read_back-Within b' start ((size_of value + 7) / 8) valid (omega (arith, at, words)))
        (omega (arith, blob_done.1)) pointer_found

  bytes_found :
      (bytes
        (read_back (store linked (8 + start * 8) value))
        (bytes_at start (size_of value) depth)
        false).0
      ≡ value
  unfolding bytes
  bytes_found =
      let b' = store linked (8 + start * 8) value in
      let (at, words) = allocated in
      let inside =
        range-Within (read_back b') 0 start ((size_of value + 7) / 8) refl
          (read_back-Within b' start ((size_of value + 7) / 8) valid (omega (arith, at, words))) in
      let size : size_of value ≡ length value = omega arith in
      rw inside (
        slice-slice 8 (linked.words * 8) (start * 8) (size_of value)
          (write_at linked.buffer (8 + start * 8) value) (omega (arith, at, words))
        ∙ ap (λ n. slice (8 + start * 8) n (write_at linked.buffer (8 + start * 8) value)) size
        ∙ slice-write_at linked.buffer (8 + start * 8) value)

-- The reader of a message finds a value at the end of the pointer in `slot`.
abbrev pub Finds : Builder → ℕ → ℕ → Bytes → ℕ → ℕ → Type 0
Finds b slot depth value at n =
    ((follow (read_back b) 0 slot depth).0 ≡ bytes_at at n depth)
    × ((bytes (read_back b) (bytes_at at n depth) false).0 ≡ value)

-- Data that `cf_cp_blob` stored without an error, behind a slot made earlier, is what the reader finds: the
-- pointer in the slot leads to a list of as many bytes, and `cf_cp_data` shows those bytes.
pub bytes-blob :
    (b : Builder) (slot depth : ℕ) (value : Bytes)
    → IsValid b
    → slot < b.words
    → depth ≤ depth_max
    → (blob b slot value false).error ≡ none
    → Finds (blob b slot value false) slot depth value b.words (length value)
bytes-blob b slot depth value v before shallow e =
    let size : size_of value ≡ length value = omega arith in
    let at = start b slot depth value v before shallow e in
    let done = blob_done b slot depth value v before shallow e in
    let here = (allocated b slot depth value v before shallow e).0 in
    let b' = store (linked b slot depth value v before shallow e) (8 + at * 8) value in
    let found : Finds b' slot depth value at (size_of value) = (
      pointer_followed b slot depth value v before shallow e,
      bytes_found b slot depth value v before shallow e,
    ) in
    subst (λ q. Finds q slot depth value b.words (length value)) (sym done.2)
      (subst (λ a. Finds b' slot depth value a (length value)) here
        (subst (λ n. Finds b' slot depth value at n) size found))
