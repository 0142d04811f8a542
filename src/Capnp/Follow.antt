-- ===== src/Capnp/Follow.antt =====
-- Following a pointer: `follow` of cf_capnp.c.
use esp_cf_tunnel.Prelude.{
  ℕ, ◌+◌, ◌-◌, ◌*◌, ◌/◌, ◌%◌, Bool, true, false, ◌||◌, not, Option, none, some, [], ◌∷◌, ltb, ◌==◌,
  if◌then◌else◌, get_or,
}
use esp_cf_tunnel.Core.{format, limit, unsupported, u16, u32}
use esp_cf_tunnel.Capnp.Checks.{
  depth_max, Value, null_value, Reader, reject, failed, range, charge, admit, word_at, struct, list,
  capability,
}

-- The word that a pointer in `slot` leads to. The offset counts from behind the pointer and has
-- thirty bits and a sign; `none` is a target out of `[0, UINT32_MAX]`.
unfoldable pub target_of : ℕ → ℕ → Bool → Option ℕ
target_of p slot direct =
    let offset = u32 p / 4 in
    let target = slot + 1 + offset in
    if direct
    then some slot
    else if ltb offset 0x2000_0000
    then (if ltb 0xffff_ffff target then none else some target)
    else if ltb target 0x4000_0000
    then none
    else if ltb 0xffff_ffff (target - 0x4000_0000)
    then none
    else some (target - 0x4000_0000)

-- `bits[element_size]`
unfoldable pub element_bits : ℕ → ℕ
element_bits size = get_or (0 ∷ 1 ∷ 8 ∷ 16 ∷ 32 ∷ 64 ∷ 64 ∷ []) size 0

-- The last lines of `follow`.
unfoldable pub finish_value : Reader → Value → ℕ → Value × Reader
finish_value r v words =
    let (fine, r') = admit r v.segment v.word words in if fine then (v, r') else (null_value, r')

unfoldable pub struct_value : Reader → ℕ → ℕ → ℕ → ℕ → Value × Reader
struct_value r seg target p depth =
    let v = record null_value {
      kind = struct;
      segment = seg;
      word = target;
      depth = depth;
      data_words = u16 (p / 0x1_0000_0000);
      pointers = u16 (p / 0x1_0000_0000_0000);
    } in
    finish_value r v (v.data_words + v.pointers)

-- A list of structures: the tag word in front of the elements gives their number and their shape.
unfoldable pub composite_value : Reader → Value → Value × Reader
composite_value r v =
    let words = v.count + 1 in
    let (inside, r1) = range r v.segment v.word words in
    let (tag, r2) = word_at r1 v.segment v.word in
    let v' = record v {
      word = v.word + 1;
      count = u32 tag / 4;
      data_words = u16 (tag / 0x1_0000_0000);
      pointers = u16 (tag / 0x1_0000_0000_0000);
    } in
    if not inside
    then (null_value, r1)
    else if not (tag % 4 == 0)
    then reject null_value r2 (some format)
    else if ltb (words - 1) (v'.count * (v'.data_words + v'.pointers))
    then reject null_value r2 (some format)
    else let (paid, r3) = charge r2 words in if paid then (v', r3) else (null_value, r3)

unfoldable pub list_value : Reader → ℕ → ℕ → ℕ → ℕ → Value × Reader
list_value r seg target p depth =
    let v = record null_value {
      kind = list;
      segment = seg;
      word = target;
      depth = depth;
      element_size = p / 0x1_0000_0000 % 8;
      count = u32 (p / 0x8_0000_0000);
    } in
    if v.element_size == 7
    then composite_value r v
    else finish_value r v ((v.count * element_bits v.element_size + 63) / 64)

-- `follow` once the far pointers are gone: `p` is a near pointer in `slot`, or the tag of a double far
-- pointer that leads to `slot` itself.
unfoldable pub resolve : Reader → ℕ → ℕ → ℕ → Bool → ℕ → Value × Reader
resolve r seg slot p direct depth =
    if p % 4 == 3
    then (if not (u32 p == 3)
        then reject null_value r (some unsupported)
        else (record null_value { kind = capability; index = p / 0x1_0000_0000; depth = depth }, r))
    else elim (target_of p slot direct) [
      | none ↦ reject null_value r (some format)
      | some target ↦
          if p % 4 == 0
          then struct_value r seg target p depth
          else if p % 4 == 1
          then list_value r seg target p depth
          else reject null_value r (some format)
    ]

-- The landing pad of a far pointer, one word: a near pointer.
unfoldable pub single_pad : Reader → ℕ → ℕ → ℕ → Value × Reader
single_pad r seg slot depth =
    let (pad, r1) = word_at r seg slot in
    if ltb 1 (pad % 4) || pad == 0
    then reject null_value r1 (some format)
    else resolve r1 seg slot pad false depth

-- The landing pad of a double far pointer: a far pointer to the content, and its tag.
unfoldable pub double_pad : Reader → ℕ → ℕ → ℕ → Value × Reader
double_pad r seg slot depth =
    let (pad, r1) = word_at r seg slot in
    let (tag, r2) = word_at r1 seg (slot + 1) in
    if not (pad % 8 == 2) || not (u32 tag / 4 == 0) || ltb 1 (tag % 4)
    then reject null_value r2 (some format)
    else resolve r2 (pad / 0x1_0000_0000) (u32 pad / 8) tag true depth

-- A far pointer resolves exactly one landing pad.
unfoldable pub resolve_far : Reader → ℕ → ℕ → Value × Reader
resolve_far r p depth =
    let two = p / 4 % 2 == 1 in
    let slot = u32 p / 8 in
    let seg = p / 0x1_0000_0000 in
    let (fine, r1) = admit r seg slot (if two then 2 else 1) in
    if not fine
    then (null_value, r1)
    else if two
    then double_pad r1 seg slot depth
    else single_pad r1 seg slot depth

unfoldable pub follow : Reader → ℕ → ℕ → ℕ → Value × Reader
follow r seg slot depth =
    let (p, r1) = word_at r seg slot in
    let (paid, r2) = charge r1 1 in
    if failed r
    then (null_value, r)
    else if ltb depth_max depth
    then reject null_value r (some limit)
    else if failed r1
    then (null_value, r1)
    else if not paid
    then (null_value, r2)
    else if p == 0
    then (null_value, r2)
    else if p % 4 == 2
    then resolve_far r2 p depth
    else resolve r2 seg slot p false depth

-- `cf_cp_root`
unfoldable pub root : Reader → Value × Reader
root r = follow r 0 0 1
