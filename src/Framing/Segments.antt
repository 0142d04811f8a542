-- ===== src/Framing/Segments.antt =====
-- The segment views of a message: `cf_capnp_segment` (cf_capnp_framing.c).
use mathlib.Core.List.{flatten}
use native.Mathlib.Nat.{add-zero, zero-add}
use esp_cf_tunnel.Prelude.{
  ℕ, zero, suc, ◌+◌, ◌-◌, ◌*◌, ◌<◌, ◌≤◌, ◌≡◌, refl, ap, sym, ◌∙◌, List, [], ◌∷◌, ◌++◌, length,
  get_or, take, drop, slice, arith, take-append-drop, take-append_drop, drop-drop, length-drop,
  take_all, inl, inr,
}
use esp_cf_tunnel.Core.{Bytes, Result-cases, ok}
use esp_cf_tunnel.Framing.{
  u32_at, table_size, total_loop, total_size, offset_loop, check_size, segment, message_max,
}
use esp_cf_tunnel.Framing.Table.{total_size_bounds, total_size_ok, total_loop_bounds}
use esp_cf_tunnel.Framing.Deliver.{IsFrame}

-- The bytes that entry `i` of the table announces.
abbrev pub segment_bytes : Bytes → ℕ → ℕ
segment_bytes frame i = u32_at frame (4 + i * 4) * 8

-- The segments from entry `i` on, `left` of them, the first at `offset`.
pub views : Bytes → ℕ → ℕ → ℕ → List Bytes
views frame zero i offset = []
views frame (suc left) i offset =
    slice offset (segment_bytes frame i) frame
    ∷ views frame left (i + 1) (offset + segment_bytes frame i)

length-views : (frame : Bytes) (left i offset : ℕ) → length (views frame left i offset) ≡ left
unfolding views
length-views frame zero i offset = refl
length-views frame (suc left) i offset =
    ap suc (length-views frame left (i + 1) (offset + segment_bytes frame i))

-- A view is the slice at the sum of the sizes before it.
get_or-views :
    (frame : Bytes) (left j i offset : ℕ)
    → j < left
    → get_or (views frame left i offset) j []
      ≡ slice (offset_loop frame j i offset) (segment_bytes frame (i + j)) frame
unfolding views offset_loop
get_or-views frame zero j i offset h = elim h [ ]
get_or-views frame (suc left) zero i offset h = rw add-zero
get_or-views frame (suc left) (suc j) i offset h =
    let m : i + 1 + j ≡ i + suc j = omega arith in
    rw m at (get_or-views frame left j (i + 1) (offset + segment_bytes frame i) (omega arith))

total_loop_step :
    (frame : Bytes) (left i total most : ℕ) {t : ℕ}
    → total ≤ most
    → total_loop frame (suc left) i total most ≡ ok t
    → (total + segment_bytes frame i ≤ most)
      × (total_loop frame left (i + 1) (total + segment_bytes frame i) most ≡ ok t)
unfolding total_loop
total_loop_step frame left i total most {t} h e = ground arith

-- The views are the bytes from the offset up to the announced total, without a gap or an overlap.
flatten-views :
    (frame : Bytes) (left i total most : ℕ) {t : ℕ}
    → total ≤ most
    → total_loop frame left i total most ≡ ok t
    → flatten (views frame left i total) ≡ take (t - total) (drop total frame)
unfolding views flatten
flatten-views frame zero i total most {t} h e =
    let z : t - total ≡ 0 = unfold total_loop in ground arith in rw z
flatten-views frame (suc left) i total most {t} h e =
    let w = segment_bytes frame i in
    let (b, r) = total_loop_step frame left i total most h e in
    let (lo, hi) = total_loop_bounds frame left (i + 1) (total + w) most b r in
    let m : w + (t - (total + w)) ≡ t - total = omega arith in
    rw (flatten-views frame left (i + 1) (total + w) most b r, ← drop-drop total w frame)
      (take-append_drop w (t - (total + w)) (drop total frame) ∙ rw m)

check_size_ok :
    (frame : Bytes)
    → IsFrame message_max frame
    → check_size frame (u32_at frame 0 + 1) ≡ ok (length frame)
unfolding check_size
check_size_ok frame w =
    ground (
      arith,
      w.sized,
      total_size_bounds frame (u32_at frame 0 + 1) message_max (omega arith) w.sized,
    )

table_least : (n : ℕ) → 1 ≤ n → 8 ≤ table_size n
unfolding table_size
table_least n h = omega arith

first_view :
    (frame : Bytes) (n j offset : ℕ)
    → j < n
    → get_or (views frame n 0 offset) j []
      ≡ slice (offset_loop frame j 0 offset) (segment_bytes frame j) frame
first_view frame n j offset h =
    get_or-views frame n j 0 offset h
    ∙ ap (λ t. slice (offset_loop frame j 0 offset) (segment_bytes frame t) frame) (zero-add j)

segment-view :
    (frame : Bytes) (i : ℕ)
    → IsFrame message_max frame
    → i < u32_at frame 0 + 1
    → segment frame i
      ≡ ok (
          slice
            (offset_loop frame i 0 (table_size (u32_at frame 0 + 1)))
            (segment_bytes frame i)
            frame)
unfolding segment
segment-view frame i w h = ground (
  arith,
  check_size_ok frame w,
  w.few,
  table_least (u32_at frame 0 + 1) (omega arith),
  total_size_bounds frame (u32_at frame 0 + 1) message_max (omega arith) w.sized,
)

-- On a well-formed message `cf_capnp_segment` shows every segment, and the segments with the table
-- in front of them are the message: each view lies inside the frame, and no byte is lost or shared.
pub segments_partition :
    (frame : Bytes)
    → IsFrame message_max frame
    → let n = u32_at frame 0 + 1 in
      (segs : List Bytes) × (length segs ≡ n)
      × ((i : ℕ) → i < n → segment frame i ≡ ok (get_or segs i []))
      × (take (table_size n) frame ++ flatten segs ≡ frame)
segments_partition frame w =
    let n = u32_at frame 0 + 1 in
    let k = table_size n in
    let (a, b, c) = total_size_ok frame n message_max w.sized in
    let (lo, hi) = total_size_bounds frame n message_max (omega arith) w.sized in
    let rest : take (length frame - k) (drop k frame) ≡ drop k frame =
      ap (λ t. take t (drop k frame)) (sym (length-drop k frame)) ∙ take_all (drop k frame) in
    (
      views frame n 0 k,
      length-views frame n 0 k,
      λ i h. segment-view frame i w h ∙ ap ok (sym (first_view frame n i k h)),
      ap (λ t. take k frame ++ t) (flatten-views frame n 0 k message_max a c ∙ rest)
          ∙ take-append-drop k frame,
    )

-- Only a well-formed message has a segment.
pub segment-IsFrame :
    (frame : Bytes) (i : ℕ) {s : Bytes} → segment frame i ≡ ok s → IsFrame message_max frame
unfolding segment check_size
segment-IsFrame frame i {s} e =
    elim (Result-cases (total_size frame (u32_at frame 0 + 1) message_max)) [
      | inl (t, q) ↦ record { few = ground arith; sized = ground arith }
      | inr (x, q) ↦ ground arith
    ]
