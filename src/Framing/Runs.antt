-- ===== src/Framing/Runs.antt =====
-- Concrete messages, and the theorems at concrete inputs.
use mathlib.Core.List.{flatten}
use esp_cf_tunnel.Prelude.{
  ℕ, ◌+◌, ◌<◌, ◌≤◌, ◌≡◌, refl, none, some, List, [], ◌∷◌, ◌++◌, ◌==◌, if◌then◌else◌, length, take,
  get_or, arith,
}
use esp_cf_tunnel.Core.{Bytes, CfResult, ok, err, state}
use esp_cf_tunnel.Framing.{
  Framer, Fed, u32_at, table_size, total_loop, total_size, reset, init, read_count, read_table,
  deliver, on_phase, complete, feed_loop, feed, offset_loop, check_size, segment, message_max,
}
use esp_cf_tunnel.Framing.Valid.{IsValid, init-IsValid}
use esp_cf_tunnel.Framing.Bytewise.{fed}
use esp_cf_tunnel.Framing.Chunks.{feed-total, feed-append, resume}
use esp_cf_tunnel.Framing.Deliver.{IsFrame, AtStart, messages, feed-messages}
use esp_cf_tunnel.Framing.Genuine.{feed-agree}
use esp_cf_tunnel.Framing.Segments.{segments_partition}

-- Two segments of one and two words, the table padded to two words.
abbrev two_segments : Bytes
two_segments =
    1 ∷ 0 ∷ 0 ∷ 0 ∷ 1 ∷ 0 ∷ 0 ∷ 0 ∷ 1 ∷ 0 ∷ 0 ∷ 0 ∷ 0 ∷ 0 ∷ 0 ∷ 0 ∷ 11 ∷ 12 ∷ 13 ∷ 14 ∷ 15 ∷ 16 ∷ 17
    ∷ 18 ∷ 21 ∷ 22 ∷ 23 ∷ 24 ∷ 25 ∷ 26 ∷ 27 ∷ 28 ∷ []

-- One segment of one word.
abbrev one_segment : Bytes
one_segment = 0 ∷ 0 ∷ 0 ∷ 0 ∷ 1 ∷ 0 ∷ 0 ∷ 0 ∷ 1 ∷ 2 ∷ 3 ∷ 4 ∷ 5 ∷ 6 ∷ 7 ∷ 8 ∷ []

-- The callback collects the messages.
abbrev collect : List Bytes → Bytes → List Bytes × CfResult
collect c m = (m ∷ c, none)

-- A callback that refuses a second message.
abbrev only_one : List Bytes → Bytes → List Bytes × CfResult
only_one [] m = (m ∷ [], none)
only_one (x ∷ c) m = (x ∷ c, some state)

abbrev fresh : Framer
fresh = record { received = []; capacity = 64; target = 4; segments = 0; phase = 0; error = none }

fresh-IsValid : IsValid fresh
fresh-IsValid = init-IsValid 64 (unfold init reset in refl)

fresh-AtStart : AtStart fresh
fresh-AtStart = record { valid = fresh-IsValid; empty = refl; waits = refl }

two-IsFrame : IsFrame 64 two_segments
unfolding total_size total_loop u32_at table_size
two-IsFrame = record { few = omega arith; sized = refl }

one-IsFrame : IsFrame 64 one_segment
unfolding total_size total_loop u32_at table_size
one-IsFrame = record { few = omega arith; sized = refl }

two-IsFrame_max : IsFrame message_max two_segments
unfolding total_size total_loop u32_at table_size
two-IsFrame_max = record { few = omega arith; sized = refl }

second_segment : segment two_segments 1 ≡ ok (21 ∷ 22 ∷ 23 ∷ 24 ∷ 25 ∷ 26 ∷ 27 ∷ 28 ∷ [])
unfolding segment check_size total_size total_loop offset_loop u32_at table_size
second_segment = refl

abbrev half : Bytes
half = 0 ∷ 0 ∷ 0 ∷ 0 ∷ 1 ∷ 0 ∷ 0 ∷ []

half_a_message :
    feed collect fresh half []
    ≡ some (fed (record fresh { received = half; target = 8; segments = 1; phase = 1 }) [] 7 none)
unfolding feed feed_loop complete on_phase read_count read_table deliver total_size total_loop
    u32_at table_size reset
half_a_message = refl

feed-total_example :
    (r : Fed (List Bytes)) × (feed collect fresh half [] ≡ some r)
    × (r.result ≡ none → IsValid r.framer × (r.consumed ≡ length half))
    × (r.consumed ≤ length half)
feed-total_example = feed-total collect fresh half [] fresh-IsValid

feed-append_example :
    feed collect fresh (half ++ (0 ∷ 9 ∷ [])) []
    ≡ resume collect
        (fed (record fresh { received = half; target = 8; segments = 1; phase = 1 }) [] 7 none)
        (0 ∷ 9 ∷ [])
feed-append_example = feed-append collect fresh half (0 ∷ 9 ∷ []) [] fresh-IsValid half_a_message

feed-messages_example :
    (r : Fed (List Bytes)) × (feed only_one fresh (flatten (two_segments ∷ one_segment ∷ [])) []
      ≡ some r)
    × (r.context ≡ (messages only_one (two_segments ∷ one_segment ∷ []) []).0)
    × (r.result ≡ (messages only_one (two_segments ∷ one_segment ∷ []) []).1)
feed-messages_example =
    feed-messages only_one (two_segments ∷ one_segment ∷ []) fresh [] fresh-AtStart
      (two-IsFrame, (one-IsFrame, tt))

-- A callback that takes well-formed messages and refuses all other bytes, for which it forgets what it took.
abbrev strict : List Bytes → Bytes → List Bytes × CfResult
strict c m = elim (total_size m (u32_at m 0 + 1) 64) [
  | err e ↦ ([], some state)
  | ok n ↦ if n == length m then collect c m else ([], some state)
]

half_is_refused : strict (one_segment ∷ []) half ≡ ([], some state)
unfolding total_size total_loop u32_at table_size
half_is_refused = refl

collect-strict : (c : List Bytes) (m : Bytes) → IsFrame 64 m → collect c m ≡ strict c m
collect-strict c m w = ground (arith, w.sized)

-- Two messages, and the beginning of a third one.
abbrev two_and_half : Bytes
two_and_half = two_segments ++ one_segment ++ half

both_messages :
    (r : Fed (List Bytes)) × (feed collect fresh two_and_half [] ≡ some r)
    × (r.context ≡ one_segment ∷ two_segments ∷ [])
unfolding feed feed_loop complete on_phase read_count read_table deliver total_size total_loop
    u32_at table_size reset
both_messages = (_, refl, refl)

feed-agree_example : feed collect fresh two_and_half [] ≡ feed strict fresh two_and_half []
feed-agree_example =
    feed-agree collect strict 64 collect-strict fresh two_and_half [] fresh-IsValid refl

segments_partition_example :
    (segs : List Bytes) × (length segs ≡ u32_at two_segments 0 + 1)
    × ((i : ℕ) → i < u32_at two_segments 0 + 1 → segment two_segments i ≡ ok (get_or segs i []))
    × (take (table_size (u32_at two_segments 0 + 1)) two_segments ++ flatten segs ≡ two_segments)
segments_partition_example = segments_partition two_segments two-IsFrame_max
