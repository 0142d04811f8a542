-- ===== src/Capnp/Builder/Invariant.antt =====
-- What holds of the builder of cf_capnp.c between two calls.
use esp_cf_tunnel.Prelude.{
  ℕ, ◌+◌, ◌-◌, ◌*◌, ◌/◌, ◌≤◌, ◌<◌, ◌≡◌, ◌∙◌, Bool, none, some, List, [], ◌∷◌, ltb, length, arith,
  if◌then◌else◌, length-replicate, inl, inr, Bool-cases,
}
use esp_cf_tunnel.Core.{u32, Bytes, CfError, argument, limit}
use esp_cf_tunnel.Framing.{message_max, u32_at}
use esp_cf_tunnel.Capnp.Words.{
  le_bytes, write_at, length-write_at, get_or-write_at, length-le_bytes,
}
use esp_cf_tunnel.Capnp.Builder.{
  Builder, broken, store, zeros, alloc_words, set_word, build_struct, set_uint, pointer_list, fill,
  blob, list_pointer, Build, put_struct, put_list, put_uint, put_blob, build, build_all,
}

-- The buffer has the size it was given, so that no store overran it; the words in use fit; the
-- segment count in front stays 0, which stands for one segment.
pub record IsValid (b : Builder) : Type 0 where
  pub kept : length b.buffer ≡ b.capacity
  pub room : 8 + b.words * 8 ≤ b.capacity
  pub most : b.capacity ≤ message_max
  pub started : 1 ≤ b.words
  pub one_segment : u32_at b.buffer 0 ≡ 0

pub u32_at-write_at :
    (buffer : Bytes) (at : ℕ) (bs : Bytes)
    → 4 ≤ at
    → u32_at (write_at buffer at bs) 0 ≡ u32_at buffer 0
unfolding u32_at
u32_at-write_at buffer at bs h = rw (
  get_or-write_at buffer at bs 0 (omega arith),
  get_or-write_at buffer at bs 1 (omega arith),
  get_or-write_at buffer at bs 2 (omega arith),
  get_or-write_at buffer at bs 3 (omega arith),
)

pub store-IsValid :
    (b : Builder) (at : ℕ) (bs : Bytes)
    → IsValid b
    → 4 ≤ at
    → at + length bs ≤ b.capacity
    → IsValid (store b at bs)
store-IsValid b at bs v h k = record {
  kept = length-write_at b.buffer at bs (omega (arith, k, v.kept)) ∙ v.kept;
  room = v.room;
  most = v.most;
  started = v.started;
  one_segment = u32_at-write_at b.buffer at bs h ∙ v.one_segment;
}

pub length-zeros : (n : ℕ) → length (zeros n) ≡ n
length-zeros n = length-replicate n 0

-- Another result changes no byte.
pub with_error : (b : Builder) (e : CfError) → IsValid b → IsValid (record b { error = some e })
with_error b e v = record {
  kept = v.kept;
  room = v.room;
  most = v.most;
  started = v.started;
  one_segment = v.one_segment;
}

-- The next words are in use.
pub more_words :
    (b : Builder) (n : ℕ)
    → IsValid b
    → 8 + n * 8 ≤ b.capacity
    → 1 ≤ n
    → IsValid (record b { words = n })
more_words b n v h k = record {
  kept = v.kept;
  room = h;
  most = v.most;
  started = k;
  one_segment = v.one_segment;
}

pub alloc_words-IsValid : (b : Builder) (n : ℕ) → IsValid b → IsValid (alloc_words b n).1
unfolding alloc_words
alloc_words-IsValid b n v =
    let at = 8 + b.words * 8 in
    let size = length-zeros (n * 8) in
    elim (Bool-cases (broken b)) [
      | inl t ↦ rw t v
      | inr t ↦ rw t (elim (Bool-cases (ltb ((b.capacity - 8) / 8 - b.words) n)) [
        | inl k ↦ rw k (with_error b limit v)
        | inr k ↦ rw k (
            more_words (store b at (zeros (n * 8))) (b.words + n)
              (store-IsValid b at (zeros (n * 8)) v (omega arith) (ground arith)) (ground arith)
              (omega arith))
      ])
    ]

pub set_word-IsValid : (b : Builder) (slot value : ℕ) → IsValid b → IsValid (set_word b slot value)
unfolding set_word
set_word-IsValid b slot value v = ground (
  arith,
  store-IsValid b (8 + slot * 8) (le_bytes 8 value),
  v,
  with_error b argument v,
  length-le_bytes 8 value,
)

pub build_struct-IsValid :
    (b : Builder) (slot d p : ℕ) → IsValid b → IsValid (build_struct b slot d p).1
unfolding build_struct
build_struct-IsValid b slot d p v =
    set_word-IsValid (alloc_words b (d + p)).1 slot _ (alloc_words-IsValid b (d + p) v)

pub pointer_list-IsValid :
    (b : Builder) (slot n : ℕ) → IsValid b → IsValid (pointer_list b slot n).1
unfolding pointer_list
pointer_list-IsValid b slot n v =
    set_word-IsValid (alloc_words b n).1 slot _ (alloc_words-IsValid b n v)

pub set_uint-IsValid :
    (b : Builder) (object byte width value : ℕ)
    → IsValid b
    → IsValid (set_uint b object byte width value)
unfolding set_uint
set_uint-IsValid b object byte width value v = ground (
  arith,
  store-IsValid b (8 + u32 (object * 8 + byte)) (le_bytes width value),
  v,
  with_error b argument v,
  length-le_bytes width value,
)

-- The words that an allocation hands out are in use.
pub alloc_words_lem :
    (b : Builder) (n : ℕ)
    → let out = alloc_words b n in
      (out.1.error ≡ none → (b.error ≡ none) × (out.0 ≡ b.words) × (out.1.words ≡ b.words + n))
unfolding alloc_words
alloc_words_lem b n e = ground arith

pub set_word_lem :
    (b : Builder) (slot value : ℕ)
    → let out = set_word b slot value in
      (out.words ≡ b.words) × (out.error ≡ none → (b.error ≡ none) × (slot < b.words))
unfolding set_word
set_word_lem b slot value = (ground arith, λ e. ground arith)

pub fill-IsValid :
    (b : Builder) (at : ℕ) (value : Bytes)
    → IsValid b
    → (b.error ≡ none → at * 8 + length value ≤ b.words * 8)
    → IsValid (fill b at value)
unfolding fill
fill-IsValid b at value v h = elim (Bool-cases (broken b)) [
  | inl t ↦ rw t v
  | inr t ↦ rw t (
      store-IsValid b (8 + at * 8) value v (omega arith)
        (omega (arith, v.room, h (ground (arith, t)))))
]

pub blob-IsValid :
    (b : Builder) (slot : ℕ) (value : Bytes) (text : Bool)
    → IsValid b
    → IsValid (blob b slot value text)
unfolding blob
blob-IsValid b slot value text v =
    let n = length value + (if text then 1 else 0) in
    let (at, b1) = alloc_words b ((n + 7) / 8) in
    let valid =
      set_word-IsValid b1 slot (list_pointer slot at 2 n) (alloc_words-IsValid b ((n + 7) / 8) v) in
    let (same, clean) = set_word_lem b1 slot (list_pointer slot at 2 n) in
    let room = fill-IsValid (set_word b1 slot (list_pointer slot at 2 n)) at value valid (λ e.
      let (_, first, last) = alloc_words_lem b ((n + 7) / 8) (clean e).0 in
      omega (arith, same, first, last)) in
    elim (Bool-cases (broken b)) [
      | inl t ↦ rw t v
      | inr t ↦ rw t (elim (Bool-cases (ltb (message_max - 1) (length value))) [
        | inl k ↦ rw k (with_error b argument v)
        | inr k ↦ rw k room
      ])
    ]

pub build-IsValid : (c : Build) (b : Builder) → IsValid b → IsValid (build c b)
unfolding build
build-IsValid (put_struct slot d p) b v = build_struct-IsValid b slot d p v
build-IsValid (put_list slot n) b v = pointer_list-IsValid b slot n v
build-IsValid (put_uint object byte width value) b v = set_uint-IsValid b object byte width value v
build-IsValid (put_blob slot value text) b v = blob-IsValid b slot value text v

pub build_all-IsValid : (cs : List Build) (b : Builder) → IsValid b → IsValid (build_all cs b)
unfolding build_all
build_all-IsValid [] b v = v
build_all-IsValid (c ∷ cs) b v = build_all-IsValid cs (build c b) (build-IsValid c b v)
