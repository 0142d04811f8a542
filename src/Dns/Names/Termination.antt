-- ===== src/Dns/Names/Termination.antt =====
-- The loop of `read_name` in cf_dns.c ends.
use esp_cf_tunnel.Prelude.{
  ℕ, zero, suc, ◌+◌, ◌-◌, ◌≤◌, ◌<◌, ◌≡◌, refl, some, arith, inl, inr, Bool-cases, Option, ltb, leb,
  ◌==◌, ==_iff, ◌/◌, if◌then◌else◌, length, get_or,
}
use esp_cf_tunnel.Core.{Bytes, Result, CfError, ok, err, truncated, format}
use esp_cf_tunnel.Dns.Names.{
  Cursor, Round, more, done, stop, jump, read_label, read_round, after_round, read_loop, read_name,
  rounds,
}

-- How many rounds are left at most, with the last one.
abbrev measure : Cursor → ℕ
measure c = (16 - c.hops) + (127 - c.labels)

-- A round that goes on has used up a hop or a label.
abbrev Lowers : Cursor → Round → Type 0
Lowers c (more c') = (measure c' < measure c)
Lowers c (done out offset) = Unit
Lowers c (stop e) = Unit

jump-Lowers : (packet : Bytes) (c : Cursor) (n : ℕ) → Lowers c (jump packet c n)
unfolding jump
jump-Lowers packet c n = ground arith

read_label-Lowers : (packet : Bytes) (c : Cursor) (n : ℕ) → Lowers c (read_label packet c n)
unfolding read_label
read_label-Lowers packet c n = ground arith

-- What holds of every way a round can go holds of the round.
pub read_round_cases :
    (P : Round → Type 0) (packet : Bytes) (c : Cursor)
    → ((e : CfError) → P (stop e))
    → (c.at < length packet
        → get_or packet c.at 0 ≡ 0
        → P (done c.out (if c.resume == 0 then c.at + 1 else c.resume)))
    → (c.at < length packet → P (jump packet c (get_or packet c.at 0)))
    → (c.at < length packet
        → 1 ≤ get_or packet c.at 0
        → get_or packet c.at 0 ≤ 63
        → P (read_label packet c (get_or packet c.at 0)))
    → P (read_round packet c)
unfolding read_round
read_round_cases P packet c refuse finish hop label =
    let n = get_or packet c.at 0 in
    elim (Bool-cases (leb (length packet) c.at)) [
      | inl t ↦ rw t (refuse truncated)
      | inr t ↦ elim (Bool-cases (n / 0x40 == 3)) [
        | inl u ↦ rw (t, u) (hop (ground (arith, t)))
        | inr u ↦ elim (Bool-cases (ltb 63 n)) [
          | inl v ↦ rw (t, u, v) (refuse format)
          | inr v ↦ elim (Bool-cases (n == 0)) [
            | inl w ↦ rw (t, u, v, w) (finish (ground (arith, t)) ((==_iff _ _).0 w))
            | inr w ↦
                rw (t, u, v, w) (label (ground (arith, t)) (ground (arith, w)) (ground (arith, v)))
          ]
        ]
      ]
    ]

read_round-Lowers : (packet : Bytes) (c : Cursor) → Lowers c (read_round packet c)
read_round-Lowers packet c =
    read_round_cases (Lowers c) packet c (λ e. tt) (λ h k. tt) (λ h. jump-Lowers packet c _)
      (λ h k l. read_label-Lowers packet c _)

after_round-total :
    (go_on : Cursor → Option (Result (Bytes × ℕ))) (c : Cursor) (r : Round)
    → Lowers c r
    → ((c' : Cursor) → measure c' < measure c → (out : Result (Bytes × ℕ)) × (go_on c' ≡ some out))
    → (out : Result (Bytes × ℕ)) × (after_round go_on r ≡ some out)
after_round-total go_on c (more c') l h = h c' l
after_round-total go_on c (done out offset) l h = (ok (out, offset), refl)
after_round-total go_on c (stop e) l h = (err e, refl)

pub read_loop-total :
    (fuel : ℕ) (packet : Bytes) (c : Cursor)
    → measure c < fuel
    → (out : Result (Bytes × ℕ)) × (read_loop fuel packet c ≡ some out)
unfolding read_loop
read_loop-total zero packet c h = absurd (omega (arith, h))
read_loop-total (suc fuel) packet c h =
    after_round-total (λ c'. read_loop fuel packet c') c (read_round packet c)
      (read_round-Lowers packet c) (λ c' l. read_loop-total fuel packet c' (omega (arith, h, l)))

-- On any packet, and from any offset, reading a name ends with a result: the bounds on hops and on labels
-- stop a compression loop.
pub read_name-total :
    (packet : Bytes) (at : ℕ) → (out : Result (Bytes × ℕ)) × (read_name packet at ≡ some out)
unfolding read_name
read_name-total packet at = read_loop-total rounds packet _ (omega arith)
