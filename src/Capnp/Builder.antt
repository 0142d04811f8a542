-- ===== src/Capnp/Builder.antt =====
-- The builder of cf_capnp.c. `buffer` holds the `capacity` bytes of the caller's buffer. Slots and objects
-- are 32-bit word indices.
pub mod Invariant
pub mod Message
pub mod Pointers
pub mod Errors
pub mod Values
pub mod ListPointers
pub mod Blobs
pub mod Room
use Prim.Native.Nat.{bit_or}
use esp_cf_tunnel.Prelude.{
  ℕ, zero, suc, ◌+◌, ◌-◌, ◌*◌, ◌/◌, ◌%◌, Bool, true, false, ◌||◌, ◌&&◌, not, none, some, List, [],
  ◌∷◌, ltb, leb, ◌==◌, if◌then◌else◌, length, replicate,
}
use esp_cf_tunnel.Core.{Bytes, CfResult, argument, limit, u8, u32}
use esp_cf_tunnel.Framing.{message_max}
use esp_cf_tunnel.Capnp.Words.{le_bytes, write_at}
use esp_cf_tunnel.Capnp.Reader.{is_width}

-- `cf_cp_builder`
pub record Builder : Type 0 where
  pub buffer : Bytes
  pub capacity : ℕ
  pub words : ℕ
  pub error : CfResult

abbrev pub broken : Builder → Bool
broken b = elim b.error [ none ↦ false | some e ↦ true ]

-- `memset` and `memcpy` at word `at` of the content, and `put`.
abbrev pub store : Builder → ℕ → Bytes → Builder
store b at bs = record b { buffer = write_at b.buffer at bs }

abbrev pub zeros : ℕ → Bytes
zeros n = replicate n 0

-- With a valid builder neither subtraction goes below 0.
unfoldable pub alloc_words : Builder → ℕ → ℕ × Builder
alloc_words b n =
    if broken b
    then (0, b)
    else if ltb ((b.capacity - 8) / 8 - b.words) n
    then (0, record b { error = some limit })
    else (b.words, record (store b (8 + b.words * 8) (zeros (n * 8))) { words = b.words + n })

unfoldable pub set_word : Builder → ℕ → ℕ → Builder
set_word b slot value =
    if broken b
    then b
    else if leb b.words slot
    then record b { error = some argument }
    else store b (8 + slot * 8) (le_bytes 8 value)

-- `cf_cp_build_init`, which is given the buffer with its size.
unfoldable pub build_init : Bytes → ℕ → CfResult × Builder
build_init out capacity =
    let b : Builder = record { buffer = out; capacity = capacity; words = 0; error = none } in
    if ltb capacity 16 || ltb message_max capacity
    then (some argument, record { buffer = []; capacity = 0; words = 0; error = some argument })
    else (none, (alloc_words (store b 0 (zeros 8)) 1).1)

-- The distance from behind the pointer in `slot` to `at`, in thirty bits of two's complement.
abbrev pub struct_delta : ℕ → ℕ → ℕ → ℕ → ℕ
struct_delta slot at data_words pointers =
    if data_words + pointers == 0
    then 0x3fff_ffff
    else (at + 0x1_0000_0000 - slot - 1) % 0x4000_0000

abbrev pub struct_pointer : ℕ → ℕ → ℕ → ℕ → ℕ
struct_pointer slot at data_words pointers =
    struct_delta slot at data_words pointers * 4
    + data_words * 0x1_0000_0000
    + pointers * 0x1_0000_0000_0000

-- `cf_cp_struct`
unfoldable pub build_struct : Builder → ℕ → ℕ → ℕ → ℕ × Builder
build_struct b slot data_words pointers =
    let (at, b1) = alloc_words b (data_words + pointers) in
    (at, set_word b1 slot (struct_pointer slot at data_words pointers))

-- `cf_cp_set_uint`; `size_t` has 32 bits on the targets, so that the offset can wrap.
unfoldable pub set_uint : Builder → ℕ → ℕ → ℕ → ℕ → Builder
set_uint b object byte width value =
    let offset = u32 (object * 8 + byte) in
    if broken b
    then b
    else if not (is_width width) || ltb (b.words * 8) offset || ltb (b.words * 8 - offset) width
    then record b { error = some argument }
    else store b (8 + offset) (le_bytes width value)

-- The 32-bit difference `at - slot - 1`, shifted by two, with the list's tag, the size of an element and the
-- number of elements: the two highest bits of a wrapped difference reach into the element size.
abbrev pub list_pointer : ℕ → ℕ → ℕ → ℕ → ℕ
list_pointer slot at size count =
    let delta = u32 (at + 0x1_0000_0000 - slot - 1) in
    delta * 4 % 0x1_0000_0000
    + 1
    + bit_or (delta / 0x4000_0000) size * 0x1_0000_0000
    + count * 0x8_0000_0000

-- `cf_cp_pointer_list`
unfoldable pub pointer_list : Builder → ℕ → ℕ → ℕ × Builder
pointer_list b slot count =
    let (at, b1) = alloc_words b count in (at, set_word b1 slot (list_pointer slot at 6 count))

-- The last lines of `cf_cp_blob`.
unfoldable pub fill : Builder → ℕ → Bytes → Builder
fill b at value = if broken b then b else store b (8 + at * 8) value

-- `cf_cp_blob`
unfoldable pub blob : Builder → ℕ → Bytes → Bool → Builder
blob b slot value text =
    let n = length value + (if text then 1 else 0) in
    let (at, b1) = alloc_words b ((n + 7) / 8) in
    if broken b
    then b
    else if ltb (message_max - 1) (length value)
    then record b { error = some argument }
    else fill (set_word b1 slot (list_pointer slot at 2 n)) at value

-- `cf_cp_build_end`: the result, `*written`, and the builder with the table in front.
unfoldable pub build_end : Builder → CfResult × ℕ × Builder
build_end b =
    if broken b then (b.error, 0, b) else (none, 8 + b.words * 8, store b 4 (le_bytes 4 b.words))

-- A call of a program that builds a message.
pub data Build : Type 0 where
  put_struct : ℕ → ℕ → ℕ → Build
  put_list : ℕ → ℕ → Build
  put_uint : ℕ → ℕ → ℕ → ℕ → Build
  put_blob : ℕ → Bytes → Bool → Build

unfoldable pub build : Build → Builder → Builder
build (put_struct slot data_words pointers) b = (build_struct b slot data_words pointers).1
build (put_list slot count) b = (pointer_list b slot count).1
build (put_uint object byte width value) b = set_uint b object byte width value
build (put_blob slot value text) b = blob b slot value text

unfoldable pub build_all : List Build → Builder → Builder
build_all [] b = b
build_all (c ∷ cs) b = build_all cs (build c b)
