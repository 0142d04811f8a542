-- ===== src/Framing/Capacity.antt =====
-- A framer of cf_capnp.c with a larger buffer takes the same messages.
use esp_cf_tunnel.Prelude.{ℕ, zero, suc, ◌+◌, ◌*◌, ◌≤◌, ◌≡◌, arith, length}
use esp_cf_tunnel.Core.{Bytes, ok}
use esp_cf_tunnel.Framing.{u32_at, table_size, total_loop, total_size}
use esp_cf_tunnel.Framing.Deliver.{IsFrame}

total_loop_wider :
    (p : Bytes) (left i total most wide n : ℕ)
    → most ≤ wide
    → total_loop p left i total most ≡ ok n
    → total_loop p left i total wide ≡ ok n
unfolding total_loop
total_loop_wider p zero i total most wide n h e = e
total_loop_wider p (suc left) i total most wide n h e =
    let words = u32_at p (4 + i * 4) in
    let ih = total_loop_wider p left (i + 1) (total + words * 8) most wide n h in
    ground (arith, e, ih)

pub IsFrame-wider :
    (most wide : ℕ) (frame : Bytes) → most ≤ wide → IsFrame most frame → IsFrame wide frame
unfolding total_size
IsFrame-wider most wide frame h f = record { few = f.few; sized = sized }
  where
    count : ℕ
    count = u32_at frame 0 + 1

    sized : total_size frame count wide ≡ ok (length frame)
    sized = ground (
      arith,
      f.sized,
      total_loop_wider frame count 0 (table_size count) most wide (length frame) h,
    )
