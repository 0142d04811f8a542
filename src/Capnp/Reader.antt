-- ===== src/Capnp/Reader.antt =====
-- What the reader of cf_capnp.c offers: the fields, the elements, the numbers and the bytes of a message.
pub mod Charges
pub mod Bounds
pub mod Traversal
pub mod Contents
use esp_cf_tunnel.Prelude.{
  ℕ, zero, suc, ◌+◌, ◌-◌, ◌*◌, ◌/◌, ◌%◌, Bool, true, false, ◌||◌, ◌&&◌, not, Option, none, some,
  List, [], ◌∷◌, ltb, leb, ◌==◌, if◌then◌else◌, length, get_or, slice,
}
use esp_cf_tunnel.Core.{Bytes, CfResult, Result, ok, err, format, limit, unsupported, u8, u16, u32}
use esp_cf_tunnel.Framing.{u32_at, segment}
use esp_cf_tunnel.Capnp.Words.{le}
use esp_cf_tunnel.Capnp.Checks.{
  depth_max, traversal_words, Kind, Value, null_value, Reader, reject, failed, words_of, range,
  charge, admit, word_at, read_segments, read_init, null, struct, list, capability,
}
use esp_cf_tunnel.Capnp.Follow.{
  target_of, element_bits, finish_value, struct_value, composite_value, list_value, resolve,
  single_pad, double_pad, resolve_far, follow, root,
}

field_of : Kind → Reader → Value → ℕ → Value × Reader
field_of null r s i = (null_value, r)
field_of struct r s i =
    if leb s.pointers i
    then (null_value, r)
    else follow r s.segment (u32 (s.word + s.data_words + i)) (u8 (s.depth + 1))
field_of _ r s i = reject null_value r (some format)

-- `cf_cp_field`
unfoldable pub field : Reader → Value → ℕ → Value × Reader
unfolding field_of
field r s i = if failed r then (null_value, r) else field_of s.kind r s i

abbrev pub is_list : Kind → Bool
is_list list = true
is_list _ = false

-- `cf_cp_at`
unfoldable pub element : Reader → Value → ℕ → Value × Reader
element r l i =
    let (paid, r1) = charge r 1 in
    if failed r
    then (null_value, r)
    else if not (is_list l.kind) || leb l.count i
    then reject null_value r (some format)
    else if l.element_size == 6
    then follow r l.segment (u32 (l.word + i)) (u8 (l.depth + 1))
    else if not (l.element_size == 7)
    then reject null_value r (some unsupported)
    else if leb depth_max l.depth
    then reject null_value r (some limit)
    else if not paid
    then reject null_value r1 (some limit)
    else (
      record l {
        kind = struct;
        word = u32 (l.word + u32 (i * (l.data_words + l.pointers)));
        depth = l.depth + 1;
      },
      r1,
    )

abbrev pub is_width : ℕ → Bool
is_width width = width == 1 || width == 2 || width == 4 || width == 8

uint_of : Kind → Reader → Value → ℕ → ℕ → ℕ × Reader
uint_of null r s byte width = (0, r)
uint_of struct r s byte width =
    let (inside, r1) = range r s.segment s.word s.data_words in
    let (paid, r2) = charge r1 1 in
    if not (is_width width)
    then reject 0 r (some format)
    else if ltb (s.data_words * 8) (byte + width)
    then (0, r)
    else if not inside
    then (0, r1)
    else if not paid
    then (0, r2)
    else (le (get_or r2.segments s.segment []) (s.word * 8 + byte) width, r2)
uint_of _ r s byte width = reject 0 r (some format)

-- `cf_cp_uint`
unfoldable pub uint : Reader → Value → ℕ → ℕ → ℕ × Reader
unfolding uint_of
uint r s byte width = if failed r then (0, r) else uint_of s.kind r s byte width

-- A text ends in a NUL byte, which the view leaves out.
unfoldable pub text_of : Reader → Bytes → Bytes × Reader
text_of r bytes =
    let n = length bytes in
    if n == 0
    then reject [] r (some format)
    else if not (get_or bytes (n - 1) 0 == 0)
    then reject [] r (some format)
    else (slice 0 (n - 1) bytes, r)

data_of : Kind → Reader → Value → Bool → Bytes × Reader
data_of null r v text = ([], r)
data_of list r v text =
    let (inside, r1) = range r v.segment v.word ((v.count + 7) / 8) in
    let bytes = slice (v.word * 8) v.count (get_or r1.segments v.segment []) in
    if not (v.element_size == 2)
    then reject [] r (some format)
    else if not inside
    then ([], r1)
    else if text
    then text_of r1 bytes
    else (bytes, r1)
data_of _ r v text = reject [] r (some format)

-- `cf_cp_data`: the bytes that the view shows.
unfoldable pub bytes : Reader → Value → Bool → Bytes × Reader
unfolding data_of
bytes r v text = if failed r then ([], r) else data_of v.kind r v text
