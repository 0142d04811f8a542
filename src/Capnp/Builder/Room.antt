-- ===== src/Capnp/Builder/Room.antt =====
-- Calls of the builder of cf_capnp.c that succeed, for the buffer has room.
use mathlib.Core.Path.{subst}
use esp_cf_tunnel.Prelude.{
  ℕ, ◌+◌, ◌-◌, ◌*◌, ◌/◌, ◌≤◌, ◌<◌, ◌≡◌, refl, Bool, true, false, none, ltb, length, arith,
  if◌then◌else◌, take,
}
use esp_cf_tunnel.Core.{Bytes}
use esp_cf_tunnel.Framing.{message_max}
use esp_cf_tunnel.Framing.Deliver.{IsFrame}
use esp_cf_tunnel.Capnp.Reader.{is_width}
use esp_cf_tunnel.Capnp.Builder.{
  Builder, broken, build_init, alloc_words, set_word, build_struct, set_uint, pointer_list, fill,
  blob, build_end, list_pointer,
}
use esp_cf_tunnel.Capnp.Builder.Invariant.{
  IsValid, alloc_words-IsValid, set_word-IsValid, set_uint-IsValid, fill-IsValid,
}
use esp_cf_tunnel.Capnp.Builder.Message.{build_init-IsValid, build_init-capacity, finished}

-- A builder without an error that has used `w` words of a buffer of `n` bytes.
pub record HasUsed (n w : ℕ) (b : Builder) : Type 0 where
  pub valid : IsValid b
  pub size : b.capacity ≡ n
  pub used : b.words ≡ w
  pub fine : b.error ≡ none

pub build_init-HasUsed :
    (out : Bytes) (n : ℕ)
    → length out ≡ n
    → 16 ≤ n
    → n ≤ message_max
    → HasUsed n 1 (build_init out n).1
unfolding build_init alloc_words
build_init-HasUsed out n h few many =
    let (rc, words, fine) = facts in
    record {
      valid = subst (λ k. IsValid (build_init out k).1) h (build_init-IsValid out (rw h rc));
      size = build_init-capacity out n rc;
      used = words;
      fine = fine;
    }
  where
    facts :
        ((build_init out n).0 ≡ none)
        × ((build_init out n).1.words ≡ 1)
        × ((build_init out n).1.error ≡ none)
    facts = ground (arith, few, many)

alloc_words-HasUsed :
    {n w : ℕ} {b : Builder} (k : ℕ)
    → HasUsed n w b
    → 8 + (w + k) * 8 ≤ n
    → ((alloc_words b k).0 ≡ w) × HasUsed n (w + k) (alloc_words b k).1
unfolding alloc_words
alloc_words-HasUsed {n} {w} {b} k h room =
    let (at, size, words, fine) = facts in
    (at, record { valid = alloc_words-IsValid b k h.valid; size = size; used = words; fine = fine })
  where
    facts :
        ((alloc_words b k).0 ≡ w)
        × ((alloc_words b k).1.capacity ≡ n)
        × ((alloc_words b k).1.words ≡ w + k)
        × ((alloc_words b k).1.error ≡ none)
    facts = ground (arith, h.fine, h.used, h.size)

set_word-HasUsed :
    {n w : ℕ} {b : Builder} (slot value : ℕ)
    → HasUsed n w b
    → slot < w
    → HasUsed n w (set_word b slot value)
unfolding set_word
set_word-HasUsed {n} {w} {b} slot value h inside =
    let (size, words, fine) = facts in
    record { valid = set_word-IsValid b slot value h.valid; size = size; used = words; fine = fine }
  where
    facts :
        ((set_word b slot value).capacity ≡ n)
        × ((set_word b slot value).words ≡ w)
        × ((set_word b slot value).error ≡ none)
    facts = ground (arith, h.fine, h.used, h.size)

pub build_struct-HasUsed :
    {n w : ℕ} {b : Builder} (slot d p : ℕ)
    → HasUsed n w b
    → slot < w + (d + p)
    → 8 + (w + (d + p)) * 8 ≤ n
    → ((build_struct b slot d p).0 ≡ w) × HasUsed n (w + (d + p)) (build_struct b slot d p).1
unfolding build_struct
build_struct-HasUsed slot d p h inside room =
    let (at, h1) = alloc_words-HasUsed (d + p) h room in (at, set_word-HasUsed slot _ h1 inside)

pub set_uint-HasUsed :
    {n w : ℕ} {b : Builder} (object byte width value : ℕ)
    → HasUsed n w b
    → is_width width ≡ true
    → object * 8 + byte + width ≤ w * 8
    → HasUsed n w (set_uint b object byte width value)
unfolding set_uint
set_uint-HasUsed {n} {w} {b} object byte width value h wide inside =
    let (size, words, fine) = facts in
    let kept = set_uint-IsValid b object byte width value h.valid in
    record { valid = kept; size = size; used = words; fine = fine }
  where
    facts :
        ((set_uint b object byte width value).capacity ≡ n)
        × ((set_uint b object byte width value).words ≡ w)
        × ((set_uint b object byte width value).error ≡ none)
    facts = ground (arith, h.fine, h.used, h.size, h.valid.room, h.valid.most, wide)

pub pointer_list-HasUsed :
    {n w : ℕ} {b : Builder} (slot count : ℕ)
    → HasUsed n w b
    → slot < w
    → 8 + (w + count) * 8 ≤ n
    → ((pointer_list b slot count).0 ≡ w) × HasUsed n (w + count) (pointer_list b slot count).1
unfolding pointer_list
pointer_list-HasUsed slot count h inside room =
    let (at, h1) = alloc_words-HasUsed count h room in
    (at, set_word-HasUsed slot _ h1 (omega arith))

-- The words of a list of bytes.
abbrev pub words_for : Bytes → Bool → ℕ
words_for value text = (length value + (if text then 1 else 0) + 7) / 8

fill-HasUsed :
    {n w : ℕ} {b : Builder} (at : ℕ) (value : Bytes)
    → HasUsed n w b
    → at * 8 + length value ≤ w * 8
    → HasUsed n w (fill b at value)
unfolding fill
fill-HasUsed {n} {w} {b} at value h inside =
    let kept = fill-IsValid b at value h.valid (λ e. omega (arith, h.used, inside)) in
    record {
      valid = kept;
      size = ground (arith, h.fine, h.size);
      used = ground (arith, h.fine, h.used);
      fine = ground (arith, h.fine);
    }

pub blob-HasUsed :
    {n w : ℕ} {b : Builder} (slot : ℕ) (value : Bytes) (text : Bool)
    → HasUsed n w b
    → slot < w
    → 8 + (w + words_for value text) * 8 ≤ n
    → HasUsed n (w + words_for value text) (blob b slot value text)
unfolding blob
blob-HasUsed {n} {w} {b} slot value text h inside room =
    let k = words_for value text in
    let (at, h1) = alloc_words-HasUsed k h room in
    let n_bytes = length value + (if text then 1 else 0) in
    let h2 =
      set_word-HasUsed slot (list_pointer slot (alloc_words b k).0 2 n_bytes) h1 (omega arith) in
    let short : ltb (message_max - 1) (length value) ≡ false =
      ground (arith, room, h.size, h.valid.most) in
    let h3 = fill-HasUsed (alloc_words b k).0 value h2 (omega (arith, at)) in
    let good : broken b ≡ false = rw (h.fine) refl in rw (good, short) h3

-- What such a builder hands out.
pub build_end-HasUsed :
    {n w : ℕ} {b : Builder}
    → HasUsed n w b
    → let (rc, written, end) = build_end b in
      (rc ≡ none)
      × (written ≡ 8 + w * 8)
      × (length end.buffer ≡ n)
      × IsFrame n (take written end.buffer)
unfolding build_end
build_end-HasUsed {n} {w} {b} h =
    let (_, long, good, _) = finished b h.valid n h.size in
    let rc : (build_end b).0 ≡ none = rw (h.fine) refl in
    (rc, rw (h.fine, h.used) refl, long, good rc)
