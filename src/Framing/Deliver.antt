-- ===== src/Framing/Deliver.antt =====
-- Whole messages: what `cf_capnp_feed` hands to its callback (cf_capnp_framing.c).
use mathlib.Core.List.{flatten}
use mathlib.Core.Path.{subst, ap₂}
use esp_cf_tunnel.Prelude.{
  ℕ, ◌+◌, ◌-◌, ◌<◌, ◌≤◌, ◌≡◌, refl, ap, ◌∙◌, none, some, List, [], ◌∷◌, ◌++◌, length, arith,
  length-append, inl, inr, Option-cases, take, drop, take-append, drop-append, take-append_drop,
  drop-drop, length-take, length-drop, All,
}
use esp_cf_tunnel.Core.{Bytes, CfResult, ok}
use esp_cf_tunnel.Framing.{
  Framer, Fed, u32_at, table_size, total_size, max_segments, reset, complete, on_phase, read_count,
  read_table, deliver, feed,
}
use esp_cf_tunnel.Framing.Table.{
  u32_at-take, total_size-take, total_size_bounds, u32_at-append, total_size-append,
}
use esp_cf_tunnel.Framing.Valid.{PhaseFits, IsSound, IsValid, extend, reset-IsValid}
use esp_cf_tunnel.Framing.Bytewise.{feed_bytes, after, round_full}
use esp_cf_tunnel.Framing.Chunks.{feed-eq-feed_bytes}

-- A message that a framer of this capacity takes: at most eight segments, the first not empty, and
-- exactly as many bytes as the table announces.
pub record IsFrame (capacity : ℕ) (frame : Bytes) : Type 0 where
  pub few : u32_at frame 0 < max_segments
  pub sized : total_size frame (u32_at frame 0 + 1) capacity ≡ ok (length frame)

-- Nothing of a message is received yet.
pub record AtStart (f : Framer) : Type 0 where
  pub valid : IsValid f
  pub empty : f.received ≡ []
  pub waits : f.phase ≡ 0

pub reset-AtStart : (f : Framer) → IsSound f → AtStart (reset f)
unfolding reset
reset-AtStart f v = record { valid = reset-IsValid f v; empty = refl; waits = refl }

table_bounds : (n : ℕ) → 1 ≤ n → 8 ≤ table_size n
unfolding table_size
table_bounds n h = omega arith

module _ {C : Type 0} (on_message : C → Bytes → C × CfResult) where
  -- The framer once it has read the first word, and once it has read the table.
  abbrev counted : Framer → Bytes → ℕ → Framer
  counted f stream n = record f {
    received = take 4 stream;
    segments = n;
    target = table_size n;
    phase = 1;
  }

  abbrev tabled : Framer → Bytes → ℕ → ℕ → Framer
  tabled f stream n total = record f {
    received = take (table_size n) stream;
    segments = n;
    target = total;
    phase = 2;
  }

  module _ (f : Framer) (frame rest : Bytes) (s : AtStart f) (w : IsFrame f.capacity frame) where
    abbrev stream : Bytes
    stream = frame ++ rest

    abbrev count : ℕ
    count = u32_at frame 0 + 1

    bounds :
        (table_size count < length frame) × (length frame ≤ f.capacity) × (8 ≤ table_size count)
    bounds =
        let (a, b) = total_size_bounds frame count f.capacity (omega arith) w.sized in
        (a, b, table_bounds count (omega arith))

    target_is_four : f.target ≡ 4
    target_is_four = subst (λ p. PhaseFits p f) s.waits s.valid.header

    long_enough : (k : ℕ) → k ≤ length frame → length (take k stream) ≡ k
    long_enough k h = omega (arith, length-take k stream, length-append frame rest)

    count_of_prefix : (k : ℕ) → 4 ≤ k → k ≤ length frame → u32_at (take k stream) 0 ≡ u32_at frame 0
    count_of_prefix k h l =
        u32_at-take stream k 0 h (omega (arith, length-append frame rest))
        ∙ u32_at-append frame rest 0 (omega arith)

    total_of_prefix :
        total_size (take (table_size count) stream) count f.capacity ≡ ok (length frame)
    total_of_prefix =
        let (a, b, e) = bounds in
        total_size-take stream (table_size count) count f.capacity (omega arith) (omega arith)
          (omega (arith, length-append frame rest))
        ∙ total_size-append frame rest count f.capacity (omega arith) (omega arith)
        ∙ w.sized

    count_round :
        (c : C)
        → complete on_message (extend f (take 4 stream)) c ≡ (counted f stream count, c, none)
    unfolding complete on_phase read_count
    count_round c = ground (
      arith,
      bounds,
      s.valid.clean,
      s.empty,
      s.waits,
      target_is_four,
      long_enough 4,
      count_of_prefix 4,
      w.few,
    )

    table_bytes :
        take 4 stream ++ take (table_size count - 4) (drop 4 stream)
        ≡ take (table_size count) stream
    table_bytes =
        let (a, b, e) = bounds in
        let k : 4 + (table_size count - 4) ≡ table_size count = omega arith in
        take-append_drop 4 (table_size count - 4) stream ∙ rw k

    table_round :
        (c : C)
        → complete on_message
            (record (counted f stream count) { received = take (table_size count) stream })
            c
          ≡ (tabled f stream count (length frame), c, none)
    unfolding complete on_phase read_table
    table_round c =
        let (a, b, e) = bounds in
        ground (arith, long_enough (table_size count) (omega arith), total_of_prefix)

    first_round :
        (c : C) (n : ℕ)
        → feed_bytes on_message stream f c n
          ≡ feed_bytes on_message (drop 4 stream) (counted f stream count) c (n + 4)
    first_round c n =
        let (a, b, e) = bounds in
        round_full on_message 4 stream f c n (omega (arith, target_is_four, ap length s.empty))
          (omega arith) (omega (arith, length-append frame rest))
        ∙ ap (λ t. after on_message t (drop 4 stream) (n + 4)) (count_round c)

    second_round :
        (c : C) (n : ℕ)
        → feed_bytes on_message (drop 4 stream) (counted f stream count) c (n + 4)
          ≡ feed_bytes on_message
              (drop (table_size count) stream)
              (tabled f stream count (length frame))
              c
              (n + table_size count)
    second_round c n =
        let (a, b, e) = bounds in
        let k = table_size count in
        let g = counted f stream count in
        let d : drop (k - 4) (drop 4 stream) ≡ drop k stream =
          drop-drop 4 (k - 4) stream ∙ ap (λ t. drop t stream) (omega arith) in
        let m : n + 4 + (k - 4) ≡ n + k = omega arith in
        let t =
          ap (λ u. complete on_message (record g { received = u }) c) table_bytes ∙ table_round c in
        round_full on_message (k - 4) (drop 4 stream) g c (n + 4)
          (omega (arith, long_enough 4 (omega arith))) (omega arith)
          (omega (arith, length-append frame rest, length-drop 4 stream))
        ∙ ap (λ u. after on_message u (drop (k - 4) (drop 4 stream)) (n + 4 + (k - 4))) t
        ∙ ap₂ (λ u v. feed_bytes on_message u (tabled f stream count (length frame)) c v) d m

    frame_round :
        (c : C)
        → let h = record (tabled f stream count (length frame)) { received = frame } in
          complete on_message h c ≡ deliver on_message h c
    unfolding complete on_phase
    frame_round c = ground arith

    third_round :
        (c : C) (n : ℕ)
        → feed_bytes on_message
            (drop (table_size count) stream)
            (tabled f stream count (length frame))
            c
            (n + table_size count)
          ≡ after on_message
              (deliver on_message
                (record (tabled f stream count (length frame)) { received = frame })
                c)
              rest
              (n + length frame)
    third_round c n =
        let (a, b, e) = bounds in
        let k = table_size count in
        let l = length frame in
        let h = tabled f stream count l in
        let whole : k + (l - k) ≡ l = omega arith in
        let m : n + k + (l - k) ≡ n + l = omega arith in
        let d : drop (l - k) (drop k stream) ≡ rest =
          drop-drop k (l - k) stream ∙ ap (λ t. drop t stream) whole ∙ drop-append frame rest in
        let r : take k stream ++ take (l - k) (drop k stream) ≡ frame =
          take-append_drop k (l - k) stream
          ∙ ap (λ t. take t stream) whole
          ∙ take-append frame rest in
        let t = ap (λ u. complete on_message (record h { received = u }) c) r ∙ frame_round c in
        round_full on_message (l - k) (drop k stream) h c (n + k)
          (omega (arith, long_enough k (omega arith))) (omega arith)
          (omega (arith, length-append frame rest, length-drop k stream))
        ∙ ap (λ u. after on_message u (drop (l - k) (drop k stream)) (n + k + (l - k))) t
        ∙ ap₂ (λ u v. after on_message (deliver on_message (record h { received = frame }) c) u v) d
            m

    -- The three rounds of one message, and then the rest of the stream.
    deliver_one :
        (c : C) (n : ℕ)
        → feed_bytes on_message stream f c n
          ≡ after on_message
              (deliver on_message
                (record (tabled f stream count (length frame)) { received = frame })
                c)
              rest
              (n + length frame)
    deliver_one c n = first_round c n ∙ second_round c n ∙ third_round c n

  reset_same :
      (f : Framer) (frame rest : Bytes)
      → reset (record (tabled f (frame ++ rest) (u32_at frame 0 + 1) (length frame)) {
        received = frame;
      })
        ≡ reset f
  unfolding reset
  reset_same f frame rest = refl

  same_capacity :
      (f : Framer) (frames : List Bytes)
      → All (IsFrame f.capacity) frames
      → All (IsFrame (reset f).capacity) frames
  unfolding reset
  same_capacity f frames w = w

  -- The callback on one message after the other, until it refuses one.
  pub messages : List Bytes → C → C × CfResult
  messages [] c = (c, none)
  messages (m ∷ ms) c =
      let step = on_message c m in
      let rest = messages ms step.0 in elim step.1 [ some e ↦ step | none ↦ rest ]

  deliver_frames :
      (frames : List Bytes) (f : Framer) (c : C) (n : ℕ)
      → AtStart f
      → All (IsFrame f.capacity) frames
      → let r = feed_bytes on_message (flatten frames) f c n in
        (r.context ≡ (messages frames c).0) × (r.result ≡ (messages frames c).1)
  unfolding messages flatten deliver
  deliver_frames [] f c n s w = unfold feed_bytes in (refl, refl)
  deliver_frames (frame ∷ frames) f c n s w =
      let g = record (tabled f (frame ++ flatten frames) (u32_at frame 0 + 1) (length frame)) {
        received = frame;
      } in
      rw (deliver_one f frame (flatten frames) s w.0 c n)
        (elim (Option-cases (on_message c frame).1) [
          | inl e ↦ ground (
            arith,
            deliver_frames frames (reset f) (on_message c frame).0 (n + length frame)
                (reset-AtStart f s.valid.sound) (same_capacity f frames w.1),
            reset_same f frame (flatten frames),
          )
          | inr (x, e) ↦ ground arith
        ])

  -- A stream of whole messages, fed from the start of a message in one call, reaches the callback
  -- message by message, in order and each exactly once, until the callback refuses one.
  pub feed-messages :
      (frames : List Bytes) (f : Framer) (c : C)
      → AtStart f
      → All (IsFrame f.capacity) frames
      → (r : Fed C) × (feed on_message f (flatten frames) c ≡ some r)
        × (r.context ≡ (messages frames c).0)
        × (r.result ≡ (messages frames c).1)
  feed-messages frames f c s w =
      let (a, b) = deliver_frames frames f c 0 s w in
      (
        feed_bytes on_message (flatten frames) f c 0,
        feed-eq-feed_bytes on_message f (flatten frames) c s.valid,
        a,
        b,
      )
