-- ===== src/Framing.antt =====
-- cf_capnp_framing.c under components/esp_cf_tunnel/src/protocol: the framing of unpacked Cap'n
-- Proto streams. Of the framer's buffer the model keeps the `used` bytes that were received.
pub mod Table
pub mod Valid
pub mod Bytewise
pub mod Chunks
pub mod Deliver
pub mod Capacity
pub mod Genuine
pub mod Segments
mod Runs
use esp_cf_tunnel.Prelude.{
  ℕ, zero, suc, ◌+◌, ◌-◌, ◌*◌, ◌/◌, min, Bool, true, false, ◌||◌, Option, none, some, List, [], ◌∷◌,
  ◌++◌, ltb, leb, ◌==◌, if◌then◌else◌, length, get_or, take, drop, slice,
}
use esp_cf_tunnel.Core.{Bytes, CfResult, Result, ok, err, argument, format, limit, truncated}

abbrev pub max_segments : ℕ
max_segments = 8

abbrev pub message_max : ℕ
message_max = 16384

-- `u32(p + at)`: four bytes, the lowest first.
unfoldable pub u32_at : Bytes → ℕ → ℕ
u32_at p at =
    get_or p at 0
    + get_or p (at + 1) 0 * 0x100
    + get_or p (at + 2) 0 * 0x10000
    + get_or p (at + 3) 0 * 0x100_0000

unfoldable pub table_size : ℕ → ℕ
table_size n = (n + 2) / 2 * 8

-- The loop of `total_size`, with `left` entries of the segment table to go from entry `i` on.
unfoldable pub total_loop : Bytes → ℕ → ℕ → ℕ → ℕ → Result ℕ
total_loop p zero i total most = ok total
total_loop p (suc left) i total most =
    let words = u32_at p (4 + i * 4) in
    let rest = total_loop p left (i + 1) (total + words * 8) most in
    if ltb ((most - total) / 8) words then err limit else rest

unfoldable pub total_size : Bytes → ℕ → ℕ → Result ℕ
total_size p n most =
    if ltb most (table_size n)
    then err limit
    else if u32_at p 4 == 0
    then err format
    else total_loop p n 0 (table_size n) most

-- `cf_capnp_framer`; `used` is the length of `received`.
pub record Framer : Type 0 where
  pub received : Bytes
  pub capacity : ℕ
  pub target : ℕ
  pub segments : ℕ
  pub phase : ℕ
  pub error : CfResult

unfoldable pub reset : Framer → Framer
reset f = record f { received = []; target = 4; segments = 0; phase = 0; error = none }

unfoldable pub init : ℕ → Result Framer
unfolding reset
init most =
    if ltb most 16 || ltb message_max most
    then err argument
    else ok (
        reset (record {
          received = [];
          capacity = most;
          target = 0;
          segments = 0;
          phase = 0;
          error = none;
        }))

-- `return f->error = rc`
abbrev pub poison : Framer → CfResult → Framer
poison f rc = record f { error = rc }

unfoldable pub read_count : Framer → Framer × CfResult
read_count f =
    let minus_one = u32_at f.received 0 in
    let f' = record f { segments = minus_one + 1; target = table_size (minus_one + 1) } in
    if leb max_segments minus_one
    then (poison f (some limit), some limit)
    else if ltb f.capacity f'.target
    then (poison f' (some limit), some limit)
    else (record f' { phase = 1 }, none)

unfoldable pub read_table : Framer → Framer × CfResult
read_table f = elim (total_size f.received f.segments f.capacity) [
  | ok total ↦ (record f { target = total; phase = 2 }, none)
  | err e ↦ (poison f (some e), some e)
]

-- `cf_capnp_eof`
unfoldable pub eof : Framer → CfResult
eof f = elim f.error [
  | some e ↦ some e
  | none ↦ if length f.received == 0 then none else some truncated
]

-- What a call of `cf_capnp_feed` leaves: the framer, the callback's context, `*consumed` and the result.
pub record Fed (C : Type 0) : Type 0 where
  pub framer : Framer
  pub context : C
  pub consumed : ℕ
  pub result : CfResult

module _ {C : Type 0} (on_message : C → Bytes → C × CfResult) where
  unfoldable pub deliver : Framer → C → Framer × C × CfResult
  deliver f c =
      let (c', rc) = on_message c f.received in
      elim rc [ some e ↦ (poison f (some e), c', some e) | none ↦ (reset f, c', none) ]

  -- The three arms of the loop's body.
  unfoldable pub on_phase : ℕ → Framer → C → Framer × C × CfResult
  unfolding deliver
  on_phase zero f c = let (g, rc) = read_count f in (g, c, rc)
  on_phase (suc zero) f c = let (g, rc) = read_table f in (g, c, rc)
  on_phase (suc (suc n)) f c = deliver f c

  -- The body of the loop once the bytes are copied.
  unfoldable pub complete : Framer → C → Framer × C × CfResult
  unfolding on_phase
  complete f c = if length f.received == f.target then on_phase f.phase f c else (f, c, none)

  -- The loop of `cf_capnp_feed` on the rest of the input; `none` means that the fuel ran out.
  unfoldable pub feed_loop : ℕ → Bytes → Framer → C → ℕ → Option (Fed C)
  feed_loop fuel [] f c consumed =
      some (record { framer = f; context = c; consumed = consumed; result = none })
  feed_loop zero (b ∷ bs) f c consumed = none
  feed_loop (suc fuel) (b ∷ bs) f c consumed =
      let n = min (f.target - length f.received) (length (b ∷ bs)) in
      let step = complete (record f { received = f.received ++ take n (b ∷ bs) }) c in
      let rest = feed_loop fuel (drop n (b ∷ bs)) step.0 step.1 (consumed + n) in
      elim step.2 [
        | some e ↦
            some (record {
              framer = step.0;
              context = step.1;
              consumed = consumed + n;
              result = some e;
            })
        | none ↦ rest
      ]

  -- `cf_capnp_feed`. Each round takes a byte at least, so the input's length is fuel enough.
  unfoldable pub feed : Framer → Bytes → C → Option (Fed C)
  feed f input c = elim f.error [
    | some e ↦ some (record { framer = f; context = c; consumed = 0; result = some e })
    | none ↦ feed_loop (length input) input f c 0
  ]

-- The offset of segment `index` from the offset of segment `i`, `left` entries further.
unfoldable pub offset_loop : Bytes → ℕ → ℕ → ℕ → ℕ
offset_loop frame zero i offset = offset
offset_loop frame (suc left) i offset =
    offset_loop frame left (i + 1) (offset + u32_at frame (4 + i * 4) * 8)

-- The checks of `cf_capnp_segment` on the size of the frame.
unfoldable pub check_size : Bytes → ℕ → Result ℕ
check_size frame n =
    if ltb (length frame) (table_size n)
    then err truncated
    else elim (total_size frame n message_max) [
      | err e ↦ err e
      | ok total ↦
          if total == length frame
          then ok total
          else if ltb (length frame) total
          then err truncated
          else err format
    ]

-- `cf_capnp_segment`: the bytes that the view shows.
unfoldable pub segment : Bytes → ℕ → Result Bytes
segment frame index =
    let n = u32_at frame 0 + 1 in
    if ltb (length frame) 8
    then err truncated
    else if leb max_segments (u32_at frame 0)
    then err limit
    else if leb n index
    then err argument
    else elim (check_size frame n) [
      | err e ↦ err e
      | ok total ↦ ok (
          slice (offset_loop frame index 0 (table_size n)) (u32_at frame (4 + index * 4) * 8) frame)
    ]
