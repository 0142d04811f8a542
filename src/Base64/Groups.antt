-- ===== src/Base64/Groups.antt =====
-- One group of four digits in the decoding loop of cf_base64.c.
use esp_cf_tunnel.Prelude.{
  ℕ, ◌+◌, ◌*◌, ◌/◌, ◌%◌, ◌<◌, ◌≡◌, some, [], ◌∷◌, arith, if◌then◌else◌, ◌==◌,
}
use esp_cf_tunnel.Core.{Bytes, ok, err, format, u8, u32}
use esp_cf_tunnel.Base64.{digit, emit, decode_loop}

-- The three bytes of four digits, whatever the accumulator held before.
pub first_byte :
    (b d e : ℕ) → d < 64 → e < 64 → u8 (u32 (u32 (b * 64 + d) * 64 + e) / 16) ≡ d * 4 + e / 16
first_byte b d e hd he = omega arith

pub second_byte :
    (b d e : ℕ) → d < 64 → e < 64 → u8 (u32 (u32 (b * 64 + d) * 64 + e) / 4) ≡ d % 16 * 16 + e / 4
second_byte b d e hd he = omega arith

pub third_byte :
    (b d e : ℕ) → d < 64 → e < 64 → u8 (u32 (u32 (b * 64 + d) * 64 + e)) ≡ d % 4 * 64 + e
third_byte b d e hd he = omega arith

pub low_bits_of_digit :
    (b e : ℕ) → e < 64 → (u32 (b * 64 + e) % 16 ≡ e % 16) × (u32 (b * 64 + e) % 4 ≡ e % 4)
low_bits_of_digit b e he = omega arith

abbrev pub push : ℕ → ℕ → ℕ
push b d = u32 (b * 64 + d)

module _ (c1 c2 : ℕ) {d1 d2 : ℕ} (h1 : digit c1 ≡ some d1) (h2 : digit c2 ≡ some d2) (b : ℕ) where
  step_two :
      (rest : Bytes)
      → decode_loop (c1 ∷ c2 ∷ rest) b 0
        ≡ emit (u8 (push (push b d1) d2 / 16)) (decode_loop rest (push (push b d1) d2) 4)
  unfolding decode_loop
  step_two rest = ground arith

step_three :
    (c3 : ℕ) {d3 : ℕ}
    → digit c3 ≡ some d3
    → (b : ℕ) (rest : Bytes)
    → decode_loop (c3 ∷ rest) b 4 ≡ emit (u8 (push b d3 / 4)) (decode_loop rest (push b d3) 2)
unfolding decode_loop
step_three c3 h b rest = ground arith

step_four :
    (c4 : ℕ) {d4 : ℕ}
    → digit c4 ≡ some d4
    → (b : ℕ) (rest : Bytes)
    → decode_loop (c4 ∷ rest) b 2 ≡ emit (u8 (push b d4)) (decode_loop rest (push b d4) 0)
unfolding decode_loop
step_four c4 h b rest = ground arith

module _ (c1 c2 : ℕ) {d1 d2 : ℕ} (h1 : digit c1 ≡ some d1) (h2 : digit c2 ≡ some d2) (b : ℕ) where
  -- A last group of two digits is one byte, and its four spare bits have to be zero.
  pub decode_two :
      d1 < 64
      → d2 < 64
      → decode_loop (c1 ∷ c2 ∷ []) b 0
        ≡ (if d2 % 16 == 0 then ok ((d1 * 4 + d2 / 16) ∷ []) else err format)
  unfolding decode_loop
  decode_two g1 g2 = ground (
    arith,
    step_two c1 c2 h1 h2 b [],
    first_byte b d1 d2 g1 g2,
    low_bits_of_digit (push b d1) d2 g2,
  )

  module _ (c3 : ℕ) {d3 : ℕ} (h3 : digit c3 ≡ some d3) where
    -- A last group of three digits is two bytes, and its two spare bits have to be zero.
    pub decode_three :
        d1 < 64
        → d2 < 64
        → d3 < 64
        → decode_loop (c1 ∷ c2 ∷ c3 ∷ []) b 0 ≡ (
            if d3 % 4 == 0
            then ok ((d1 * 4 + d2 / 16) ∷ (d2 % 16 * 16 + d3 / 4) ∷ [])
            else err format)
    unfolding decode_loop
    decode_three g1 g2 g3 = ground (
      arith,
      step_two c1 c2 h1 h2 b (c3 ∷ []),
      step_three c3 h3 (push (push b d1) d2) [],
      first_byte b d1 d2 g1 g2,
      second_byte (push b d1) d2 d3 g2 g3,
      low_bits_of_digit (push (push b d1) d2) d3 g3,
    )

    -- A whole group is three bytes, and leaves nothing pending.
    pub decode_four :
        (c4 : ℕ) {d4 : ℕ}
        → digit c4 ≡ some d4
        → d1 < 64
        → d2 < 64
        → d3 < 64
        → d4 < 64
        → (rest : Bytes)
        → decode_loop (c1 ∷ c2 ∷ c3 ∷ c4 ∷ rest) b 0
          ≡ emit (d1 * 4 + d2 / 16) (
              emit (d2 % 16 * 16 + d3 / 4) (
                emit
                  (d3 % 4 * 64 + d4)
                  (decode_loop rest (push (push (push (push b d1) d2) d3) d4) 0)))
    decode_four c4 {d4} h4 g1 g2 g3 g4 rest = cc (
      step_two c1 c2 h1 h2 b (c3 ∷ c4 ∷ rest),
      step_three c3 h3 (push (push b d1) d2) (c4 ∷ rest),
      step_four c4 h4 (push (push (push b d1) d2) d3) rest,
      first_byte b d1 d2 g1 g2,
      second_byte (push b d1) d2 d3 g2 g3,
      third_byte (push (push b d1) d2) d3 d4 g3 g4,
    )
