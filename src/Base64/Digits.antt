-- ===== src/Base64/Digits.antt =====
-- What the digits of an accepted input are (cf_base64.c).
use esp_cf_tunnel.Prelude.{
  ℕ, ◌+◌, ◌-◌, ◌*◌, ◌/◌, ◌%◌, ◌^◌, ◌<◌, ◌≤◌, ◌≡◌, ◌≢◌, refl, ap, sym, ◌∙◌, Bool, true, false, some,
  inl, inr, [], ◌∷◌, length, All, take, leb, ◌==◌, if◌then◌else◌, arith, length-take, Option-cases,
  ==_iff,
}
use esp_cf_tunnel.Core.{Bytes, Result, ok, err, format, u32}
use esp_cf_tunnel.Base64.{
  digit, sextet, emit, decode_loop, decode_digits, encode_loop, encoded_size,
}
use esp_cf_tunnel.Base64.RoundTrip.{length-encode_loop}
use esp_cf_tunnel.Base64.Letters.{letter-digit}
use esp_cf_tunnel.Base64.Groups.{push, decode_two, decode_three, decode_four}

abbrev pub IsDigit : ℕ → Type 0
IsDigit c = (d : ℕ) × (digit c ≡ some d)

pub emit-ok :
    (b : ℕ) (r : Result Bytes) {xs : Bytes}
    → emit b r ≡ ok xs
    → (ys : Bytes) × (r ≡ ok ys) × (xs ≡ b ∷ ys)
emit-ok b (ok ys) h = (ys, refl, cc)
emit-ok b (err e) h = cc

-- The rest of the loop after one digit.
abbrev pub after : ℕ → Bytes → ℕ → ℕ → Result Bytes
after d cs b p = decode_loop cs (u32 (b * 64 + d)) (if leb 8 (p + 6) then p + 6 - 8 else p + 6)

pub decode_loop_uncons :
    (c : ℕ) (cs : Bytes) (b p : ℕ) {xs : Bytes}
    → decode_loop (c ∷ cs) b p ≡ ok xs
    → (d : ℕ) × (digit c ≡ some d) × ((ys : Bytes) × (after d cs b p ≡ ok ys))
unfolding decode_loop
decode_loop_uncons c cs b p h = elim (Option-cases (digit c)) [
  | inl e ↦ ground arith
  | inr (d, e) ↦ (d, e, ground arith)
]

pub decode_loop-IsDigit :
    (s : Bytes) (b p : ℕ) {xs : Bytes} → decode_loop s b p ≡ ok xs → All IsDigit s
decode_loop-IsDigit [] b p h = tt
decode_loop-IsDigit (c ∷ cs) b p h =
    let (d, e, (ys, r)) = decode_loop_uncons c cs b p h in
    (
      (d, e),
      decode_loop-IsDigit cs (u32 (b * 64 + d)) (if leb 8 (p + 6) then p + 6 - 8 else p + 6) r,
    )

pub sextet-eq :
    (c : ℕ) {d : ℕ}
    → digit c ≡ some d
    → (word shift : ℕ) → word / 2 ^ shift % 64 ≡ d
    → sextet word shift ≡ c
unfolding sextet
sextet-eq c h word shift e = rw e (letter-digit c h).0

-- Four digits and the three bytes that they decode to.
pub regroup :
    (c1 c2 c3 c4 : ℕ) {d1 d2 d3 d4 : ℕ}
    → digit c1 ≡ some d1
    → digit c2 ≡ some d2
    → digit c3 ≡ some d3
    → digit c4 ≡ some d4
    → (rest : Bytes)
    → encode_loop false ((d1 * 4 + d2 / 16) ∷ (d2 % 16 * 16 + d3 / 4) ∷ (d3 % 4 * 64 + d4) ∷ rest)
      ≡ c1 ∷ c2 ∷ c3 ∷ c4 ∷ encode_loop false rest
unfolding encode_loop
regroup c1 c2 c3 c4 {d1} {d2} {d3} {d4} h1 h2 h3 h4 rest =
    let (g1, g2, g3, g4) = bounds in
    let w = (d1 * 4 + d2 / 16) * 0x10000 + (d2 % 16 * 16 + d3 / 4) * 0x100 + (d3 % 4 * 64 + d4) in
    cc (
      sextet-eq c1 h1 w 18 (omega arith),
      sextet-eq c2 h2 w 12 (omega arith),
      sextet-eq c3 h3 w 6 (omega arith),
      sextet-eq c4 h4 w 0 (omega arith),
    )
  where
    bounds : (d1 < 64) × (d2 < 64) × (d3 < 64) × (d4 < 64)
    bounds = (
      (letter-digit c1 h1).1,
      (letter-digit c2 h2).1,
      (letter-digit c3 h3).1,
      (letter-digit c4 h4).1,
    )

pub regroup_two :
    (c1 c2 : ℕ) {d1 d2 : ℕ}
    → digit c1 ≡ some d1
    → digit c2 ≡ some d2
    → d2 % 16 ≡ 0
    → encode_loop false ((d1 * 4 + d2 / 16) ∷ []) ≡ c1 ∷ c2 ∷ []
unfolding encode_loop
regroup_two c1 c2 {d1} {d2} h1 h2 z =
    let (l1, g1) = letter-digit c1 h1 in
    let (l2, g2) = letter-digit c2 h2 in
    let w = (d1 * 4 + d2 / 16) * 0x10000 in
    cc (sextet-eq c1 h1 w 18 (omega arith), sextet-eq c2 h2 w 12 (omega arith))

pub regroup_three :
    (c1 c2 c3 : ℕ) {d1 d2 d3 : ℕ}
    → digit c1 ≡ some d1
    → digit c2 ≡ some d2
    → digit c3 ≡ some d3
    → d3 % 4 ≡ 0
    → encode_loop false ((d1 * 4 + d2 / 16) ∷ (d2 % 16 * 16 + d3 / 4) ∷ []) ≡ c1 ∷ c2 ∷ c3 ∷ []
unfolding encode_loop
regroup_three c1 c2 c3 {d1} {d2} {d3} h1 h2 h3 z =
    let (l1, g1) = letter-digit c1 h1 in
    let (l2, g2) = letter-digit c2 h2 in
    let (l3, g3) = letter-digit c3 h3 in
    let w = (d1 * 4 + d2 / 16) * 0x10000 + (d2 % 16 * 16 + d3 / 4) * 0x100 in
    cc (
      sextet-eq c1 h1 w 18 (omega arith),
      sextet-eq c2 h2 w 12 (omega arith),
      sextet-eq c3 h3 w 6 (omega arith),
    )

pub if_ok :
    (t : Bool) (bs : Bytes) {xs : Bytes}
    → (if t then ok bs else err format) ≡ ok xs
    → (t ≡ true) × (xs ≡ bs)
if_ok t bs h = ground arith

pub raw_two :
    (c1 c2 b : ℕ) {xs : Bytes}
    → All IsDigit (c1 ∷ c2 ∷ [])
    → decode_loop (c1 ∷ c2 ∷ []) b 0 ≡ ok xs
    → encode_loop false xs ≡ c1 ∷ c2 ∷ []
raw_two c1 c2 b ((d1, h1), ((d2, h2), _)) h =
    let (t, e) =
      if_ok _ _
        (sym (decode_two c1 c2 h1 h2 b (letter-digit c1 h1).1 (letter-digit c2 h2).1) ∙ h) in
    rw e (regroup_two c1 c2 h1 h2 ((==_iff _ _).0 t))

pub raw_three :
    (c1 c2 c3 b : ℕ) {xs : Bytes}
    → All IsDigit (c1 ∷ c2 ∷ c3 ∷ [])
    → decode_loop (c1 ∷ c2 ∷ c3 ∷ []) b 0 ≡ ok xs
    → encode_loop false xs ≡ c1 ∷ c2 ∷ c3 ∷ []
raw_three c1 c2 c3 b ((d1, h1), ((d2, h2), ((d3, h3), _))) h =
    let (t, e) = if_ok _ _ (
      sym (
        decode_three c1 c2 h1 h2 b c3 h3 (letter-digit c1 h1).1 (letter-digit c2 h2).1
          (letter-digit c3 h3).1)
      ∙ h) in
    rw e (regroup_three c1 c2 c3 h1 h2 h3 ((==_iff _ _).0 t))

-- The three bytes of a first group, and what the rest decodes to.
pub raw_four :
    (c1 c2 c3 c4 b : ℕ) (rest : Bytes) {xs : Bytes}
    → All IsDigit (c1 ∷ c2 ∷ c3 ∷ c4 ∷ rest)
    → decode_loop (c1 ∷ c2 ∷ c3 ∷ c4 ∷ rest) b 0 ≡ ok xs
    → (b' : ℕ) × ((ys : Bytes) × (decode_loop rest b' 0 ≡ ok ys)
        × (encode_loop false ys ≡ rest → encode_loop false xs ≡ c1 ∷ c2 ∷ c3 ∷ c4 ∷ rest))
raw_four c1 c2 c3 c4 b rest ((d1, h1), ((d2, h2), ((d3, h3), ((d4, h4), _)))) h =
    let group =
      decode_four c1 c2 h1 h2 b c3 h3 c4 h4 (letter-digit c1 h1).1 (letter-digit c2 h2).1
        (letter-digit c3 h3).1 (letter-digit c4 h4).1 rest in
    let (y1, r1, e1) = emit-ok _ _ (sym group ∙ h) in
    let (y2, r2, e2) = emit-ok _ _ r1 in
    let (y3, r3, e3) = emit-ok _ _ r2 in
    (
      push (push (push (push b d1) d2) d3) d4,
      (y3, r3, λ ih. cc (regroup c1 c2 c3 c4 h1 h2 h3 h4 y3)),
    )

pub raw_none : (b : ℕ) {xs : Bytes} → decode_loop [] b 0 ≡ ok xs → encode_loop false xs ≡ []
unfolding decode_loop encode_loop
raw_none b {xs} h = let e : xs ≡ [] = ground arith in rw e

pub encode_loop-decode_loop :
    (s : Bytes) (b : ℕ) {xs : Bytes}
    → length s % 4 ≢ 1
    → decode_loop s b 0 ≡ ok xs
    → encode_loop false xs ≡ s
encode_loop-decode_loop [] b n h = raw_none b h
encode_loop-decode_loop (c1 ∷ []) b n h = absurd (n refl)
encode_loop-decode_loop (c1 ∷ c2 ∷ []) b n h = raw_two c1 c2 b (decode_loop-IsDigit _ b 0 h) h
encode_loop-decode_loop (c1 ∷ c2 ∷ c3 ∷ []) b n h =
    raw_three c1 c2 c3 b (decode_loop-IsDigit _ b 0 h) h
encode_loop-decode_loop (c1 ∷ c2 ∷ c3 ∷ c4 ∷ rest) b n h =
    let (b', (ys, r, step)) = raw_four c1 c2 c3 c4 b rest (decode_loop-IsDigit _ b 0 h) h in
    step (encode_loop-decode_loop rest b' (λ e. n (omega arith)) r)

-- What the digits of an accepted input are.
pub decode_digits_ok :
    (s : Bytes) (n capacity : ℕ) {xs : Bytes}
    → n ≤ length s
    → decode_digits s n capacity ≡ ok xs
    → (encode_loop false xs ≡ take n s)
      × (encoded_size false (length xs) ≡ n)
      × (length xs ≤ capacity)
unfolding decode_digits encoded_size
decode_digits_ok s n capacity {xs} k h =
    let (g, c, l) = guards in
    let t : length (take n s) ≡ n = omega (arith, length-take n s) in
    let e = encode_loop-decode_loop (take n s) 0 (rw t g) l in
    let size : encoded_size false (length xs) ≡ n =
      sym (length-encode_loop false xs) ∙ ap length e ∙ t in
    (e, size, ground (arith, size, c))
  where
    guards :
        (n % 4 ≢ 1)
        × (n / 4 * 3 + (if n % 4 == 0 then 0 else n % 4 - 1) ≤ capacity)
        × (decode_loop (take n s) 0 0 ≡ ok xs)
    guards = ground arith
