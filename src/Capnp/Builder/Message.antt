-- ===== src/Capnp/Builder/Message.antt =====
-- What the builder of cf_capnp.c leaves in the buffer.
use native.Mathlib.Nat.{add_assoc}
use esp_cf_tunnel.Prelude.{
  ℕ, ◌+◌, ◌-◌, ◌*◌, ◌/◌, ◌≤◌, ◌<◌, ◌≡◌, ◌≢◌, refl, ◌∙◌, none, List, [], ◌∷◌, ltb, length, take,
  arith, if◌then◌else◌, ◌||◌, length-take, inl, inr, Bool-cases,
}
use esp_cf_tunnel.Core.{Bytes}
use esp_cf_tunnel.Framing.{message_max, u32_at, total_size, total_loop, table_size}
use esp_cf_tunnel.Framing.Table.{u32_at-take}
use esp_cf_tunnel.Framing.Deliver.{IsFrame}
use esp_cf_tunnel.Capnp.Words.{
  le, le_bytes, write_at, length-write_at, get_or-write_at_inside, le-write_at, length-le_bytes,
}
use esp_cf_tunnel.Capnp.Builder.{
  Builder, broken, zeros, alloc_words, set_word, build_init, build_struct, set_uint, pointer_list,
  fill, blob, build_end, list_pointer, Build, put_struct, put_list, put_uint, put_blob, build,
  build_all,
}
use esp_cf_tunnel.Capnp.Builder.Invariant.{IsValid, u32_at-write_at, build_all-IsValid}

u32_at-zeros : (out : Bytes) → u32_at (write_at out 0 (zeros 8)) 0 ≡ 0
unfolding u32_at
u32_at-zeros out = rw (
  get_or-write_at_inside out 0 (zeros 8) 0 (omega arith),
  get_or-write_at_inside out 0 (zeros 8) 1 (omega arith),
  get_or-write_at_inside out 0 (zeros 8) 2 (omega arith),
  get_or-write_at_inside out 0 (zeros 8) 3 (omega arith),
)

started_builder :
    (out : Bytes)
    → 16 ≤ length out
    → length out ≤ message_max
    → IsValid (record {
      buffer = write_at (write_at out 0 (zeros 8)) 8 (zeros 8);
      capacity = length out;
      words = 1;
      error = none;
    })
started_builder out h k =
    let first = length-write_at out 0 (zeros 8) (omega (arith, h)) in
    record {
      kept =
          length-write_at (write_at out 0 (zeros 8)) 8 (zeros 8) (omega (arith, h, first)) ∙ first;
      room = h;
      most = k;
      started = omega arith;
      one_segment =
          u32_at-write_at (write_at out 0 (zeros 8)) 8 (zeros 8) (omega arith) ∙ u32_at-zeros out;
    }

u32_at-eq-le : (p : Bytes) (at : ℕ) → u32_at p at ≡ le p at 4
unfolding u32_at le
u32_at-eq-le p at = simp add_assoc (omega arith)

pub build_init-IsValid :
    (out : Bytes) → let start = build_init out (length out) in start.0 ≡ none → IsValid start.1
unfolding build_init alloc_words
build_init-IsValid out h = elim (Bool-cases (ltb (length out) 16 || ltb message_max (length out))) [
  | inl t ↦ ground (arith, t, h)
  | inr t ↦ rw t (elim (Bool-cases (ltb ((length out - 8) / 8 - 0) 1)) [
    | inl k ↦ ground (arith, t, k)
    | inr k ↦ rw k (started_builder out (ground (arith, t)) (ground (arith, t)))
  ])
]

-- The table in front of a finished message.
finished_table :
    (b : Builder)
    → IsValid b
    → let frame = take (8 + b.words * 8) (write_at b.buffer 4 (le_bytes 4 b.words)) in
      (length frame ≡ 8 + b.words * 8) × (u32_at frame 0 ≡ 0) × (u32_at frame 4 ≡ b.words)
unfolding le_bytes
finished_table b v =
    let front = length-write_at b.buffer 4 (le_bytes 4 b.words) (omega (arith, v.room, v.kept)) in
    let size = length-take (8 + b.words * 8) (write_at b.buffer 4 (le_bytes 4 b.words)) in
    let fits : b.words < 0x1_0000_0000 = omega (arith, v.room, v.most) in
    (
      omega (arith, size, front, v.kept, v.room),
      u32_at-take (write_at b.buffer 4 (le_bytes 4 b.words)) (8 + b.words * 8) 0 (omega arith)
            (omega (arith, front, v.room, v.kept))
          ∙ u32_at-write_at b.buffer 4 (le_bytes 4 b.words) (omega arith)
          ∙ v.one_segment,
      u32_at-take (write_at b.buffer 4 (le_bytes 4 b.words)) (8 + b.words * 8) 4
            (omega (arith, v.started)) (omega (arith, front, v.room, v.kept))
          ∙ u32_at-eq-le (write_at b.buffer 4 (le_bytes 4 b.words)) 4
          ∙ le-write_at b.buffer 4 4 b.words fits,
    )

-- A table of one segment and the words that follow it are a message.
single-IsFrame :
    (frame : Bytes) (words most : ℕ)
    → length frame ≡ 8 + words * 8
    → u32_at frame 0 ≡ 0
    → u32_at frame 4 ≡ words
    → 1 ≤ words
    → 8 + words * 8 ≤ most
    → IsFrame most frame
unfolding total_size total_loop table_size
single-IsFrame frame words most size none_more first some_words fits = record {
  few = omega (arith, none_more);
  sized = rw (none_more, first) (ground (arith, size));
}

alloc_words-capacity : (b : Builder) (n : ℕ) → (alloc_words b n).1.capacity ≡ b.capacity
unfolding alloc_words
alloc_words-capacity b n = ground arith

set_word-capacity : (b : Builder) (slot value : ℕ) → (set_word b slot value).capacity ≡ b.capacity
unfolding set_word
set_word-capacity b slot value = ground arith

fill-capacity : (b : Builder) (at : ℕ) (value : Bytes) → (fill b at value).capacity ≡ b.capacity
unfolding fill
fill-capacity b at value = ground arith

build-capacity : (c : Build) (b : Builder) → (build c b).capacity ≡ b.capacity
unfolding build build_struct pointer_list set_uint blob
build-capacity (put_struct slot d p) b =
    set_word-capacity (alloc_words b (d + p)).1 slot _ ∙ alloc_words-capacity b (d + p)
build-capacity (put_list slot n) b =
    set_word-capacity (alloc_words b n).1 slot _ ∙ alloc_words-capacity b n
build-capacity (put_uint object byte width value) b = ground arith
build-capacity (put_blob slot value text) b =
    let n = length value + (if text then 1 else 0) in
    let (at, b1) = alloc_words b ((n + 7) / 8) in
    let b2 = set_word b1 slot (list_pointer slot at 2 n) in
    let size =
      fill-capacity b2 at value
      ∙ set_word-capacity b1 slot _
      ∙ alloc_words-capacity b ((n + 7) / 8) in
    ground (arith, size)

build_all-capacity : (cs : List Build) (b : Builder) → (build_all cs b).capacity ≡ b.capacity
unfolding build_all
build_all-capacity [] b = refl
build_all-capacity (c ∷ cs) b = build_all-capacity cs (build c b) ∙ build-capacity c b

pub build_init-capacity :
    (out : Bytes) (n : ℕ) → (build_init out n).0 ≡ none → (build_init out n).1.capacity ≡ n
unfolding build_init
build_init-capacity out n h =
    let size =
      alloc_words-capacity
        (record { buffer = write_at out 0 (zeros 8); capacity = n; words = 0; error = none }) 1 in
    elim (Bool-cases (ltb n 16 || ltb message_max n)) [
      | inl t ↦ ground (arith, t, h)
      | inr t ↦ rw t size
    ]

pub finished :
    (b : Builder)
    → IsValid b
    → (n : ℕ) → b.capacity ≡ n
    → let (rc, written, end) = build_end b in
      (length b.buffer ≡ n)
      × (length end.buffer ≡ n)
      × (rc ≡ none → IsFrame n (take written end.buffer))
      × (rc ≢ none → written ≡ 0)
unfolding build_end
finished b v n h =
    let (size, none_more, first) = finished_table b v in
    let front =
      length-write_at b.buffer 4 (le_bytes 4 b.words)
        (omega (arith, v.room, v.kept, length-le_bytes 4 b.words)) in
    elim (Bool-cases (broken b)) [
      | inl t ↦ rw t (v.kept ∙ h, v.kept ∙ h, λ e. ground (arith, t, e), λ e. refl)
      | inr t ↦ rw t (
        v.kept ∙ h,
        front ∙ v.kept ∙ h,
        λ e. single-IsFrame _ b.words n size none_more first v.started (omega (arith, v.room, h)),
        λ e. absurd (e refl),
      )
    ]

-- Whatever calls a program makes, and in whatever order, what `cf_cp_build_end` hands out is one
-- well-formed message, which fits the buffer that `cf_cp_build_init` was given; no call stores a byte
-- beyond that buffer.
pub build_end-IsFrame :
    (out : Bytes) (cs : List Build)
    → (build_init out (length out)).0 ≡ none
    → let b = build_all cs (build_init out (length out)).1 in
      let (rc, written, finished) = build_end b in
      (length b.buffer ≡ length out)
      × (length finished.buffer ≡ length out)
      × (rc ≡ none → IsFrame (length out) (take written finished.buffer))
      × (rc ≢ none → written ≡ 0)
build_end-IsFrame out cs h =
    let start = (build_init out (length out)).1 in
    let valid = build_all-IsValid cs start (build_init-IsValid out h) in
    let size = build_all-capacity cs start ∙ build_init-capacity out (length out) h in
    finished (build_all cs start) valid (length out) size
