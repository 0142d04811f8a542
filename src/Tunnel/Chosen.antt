-- ===== src/Tunnel/Chosen.antt =====
-- Which edge record `discover` in esp_cf_tunnel.c uses.
use mathlib.Core.List.{Perm}
use native.Mathlib.Nat.{mod-lt, zero-mod}
use esp_cf_tunnel.Prelude.{
  either, either_at, ℕ, zero, suc, ◌+◌, ◌-◌, ◌%◌, ◌*◌, All, ◌≤◌, ◌<◌, ◌≡◌, ◌⊎◌, inl, inr, refl, ap,
  ◌∙◌, List, [], ◌∷◌, ltb, ◌==◌, length, arith, Bool-cases,
}
use esp_cf_tunnel.Core.{u32}
use esp_cf_tunnel.Dns.Records.{Record}
use esp_cf_tunnel.Tunnel.Edge.{
  record_at, settle, sort_loop, sort, first_loop, last_loop, weight_sum, pick_loop, choose,
}
use esp_cf_tunnel.Tunnel.Choice.{
  IsOrdered, priority_at, ordered_at, sort_loop-perm, sort_loop-IsOrdered, settle-IsSettled,
}
use esp_cf_tunnel.Tunnel.Groups.{
  IsStart, first_loop-IsStart, IsEnd, last_loop-IsEnd, picked, no_weight,
}

-- What holds of the place that is chosen.
pub record IsChosen (rs : List Record) (attempts i : ℕ) : Type 0 where
  pub inside : i < length rs
  -- Each attempt takes the next place, and stays with the priority that it finds there.
  pub ranked :
      (record_at rs i).priority ≡ (record_at rs (u32 (attempts + 0xffff_ffff) % length rs)).priority
  pub first_best :
      attempts ≡ 1 → (j : ℕ) → j < length rs → (record_at rs i).priority ≤ (record_at rs j).priority
  -- A record without a weight is chosen only if no record of its priority has one.
  pub weighted :
      (record_at rs i).weight ≡ 0
      → (j : ℕ) → j < length rs
      → (record_at rs j).priority ≡ (record_at rs i).priority
      → (record_at rs j).weight ≡ 0

module _ (rs : List Record) (o : IsOrdered rs) (start : ℕ) (inside : start < length rs) where
  -- Every record of the priority of `start` stands in its group.
  grouped :
      (f l j : ℕ)
      → IsStart rs (priority_at rs start) start f
      → IsEnd rs (priority_at rs start) (length rs - 1 - start) start l
      → j < length rs
      → priority_at rs j ≡ priority_at rs start
      → (f ≤ j) × (j ≤ l)
  grouped f l j v w k e = (low, high)
    where
      low : f ≤ j
      low = elim (Bool-cases (ltb j f)) [
        | inr u ↦ ground (arith, u)
        | inl u ↦
            let a =
              ordered_at rs j (f - 1) o (ground (arith, u)) (omega (arith, v.at_most, inside)) in
            let b = ordered_at rs (f - 1) start o (omega (arith, v.at_most)) inside in
            absurd (v.stops (f - 1) (ground (arith, u)) (omega (arith, a, b, e)))
      ]

      high : j ≤ l
      high = elim (Bool-cases (ltb l j)) [
        | inr u ↦ ground (arith, u)
        | inl u ↦
            let a = ordered_at rs (l + 1) j o (ground (arith, u)) k in
            let b =
              ordered_at rs start (l + 1) o (omega (arith, w.at_least)) (ground (arith, u, k)) in
            absurd (w.stops (l + 1) refl (ground (arith, u, k, inside)) (omega (arith, a, b, e)))
      ]

  member-IsChosen :
      (attempts f l i : ℕ)
      → start ≡ u32 (attempts + 0xffff_ffff) % length rs
      → IsStart rs (priority_at rs start) start f
      → IsEnd rs (priority_at rs start) (length rs - 1 - start) start l
      → f ≤ i
      → i ≤ l
      → (weight_sum rs f (l - f + 1) ≡ 0) ⊎ (0 < (record_at rs i).weight)
      → IsChosen rs attempts i
  unfolding priority_at
  member-IsChosen attempts f l i place v w a b heavy = record {
    inside = omega (arith, b, w.at_most, inside);
    ranked = rank ∙ ap (priority_at rs) place;
    first_best = λ once j k.
        let zero_place : start ≡ 0 = first_place once in
        omega (arith, rank, ordered_at rs start j o (omega (arith, zero_place)) k);
    weighted = λ light j k e. elim heavy [
      | inl none_heavy ↦
          let (low, high) = grouped f l j v w k (e ∙ rank) in
          no_weight rs f (l - f + 1) j none_heavy low (omega (arith, high, low))
      | inr positive ↦ absurd (omega (arith, light, positive))
    ];
  }
    where
      rank : priority_at rs i ≡ priority_at rs start
      rank = elim (Bool-cases (ltb i start)) [
        | inl u ↦ v.same i a (ground (arith, u))
        | inr u ↦ w.same i (ground (arith, u)) b
      ]

      first_place : attempts ≡ 1 → start ≡ 0
      first_place once =
          place ∙ ap (λ a. u32 (a + 0xffff_ffff) % length rs) once ∙ zero-mod (length rs)

-- The sum of weights does not wrap.
weight_sum_le :
    (rs : List Record)
    → ((i : ℕ) → (record_at rs i).weight ≤ 0xffff)
    → (i n : ℕ) → weight_sum rs i n ≤ n * 0xffff
unfolding weight_sum
weight_sum_le rs light i zero = omega arith
weight_sum_le rs light i (suc n) = omega (arith, light i, weight_sum_le rs light (i + 1) n)

no_wrap : (n : ℕ) → n ≤ 0x10_0000 → u32 n ≡ 0 → n ≡ 0
no_wrap n h e = omega (arith, h, e)

below : (v n : ℕ) → v < u32 n → v < n
below v n h = omega (arith, h)

choose_lem :
    (rs : List Record) (attempts random : ℕ)
    → IsOrdered rs
    → 1 ≤ length rs
    → length rs ≤ 16
    → ((i : ℕ) → (record_at rs i).weight ≤ 0xffff)
    → IsChosen rs attempts (choose rs attempts random)
unfolding choose priority_at
choose_lem rs attempts random o some_record few light =
    let start = u32 (attempts + 0xffff_ffff) % length rs in
    let p = priority_at rs start in
    let f = first_loop rs p start in
    let l = last_loop rs p (length rs - 1 - start) start in
    let sum = weight_sum rs f (l - f + 1) in
    let weights = u32 sum in
    let inside : start < length rs =
      mod-lt (u32 (attempts + 0xffff_ffff)) {m = length rs} some_record in
    let v = first_loop-IsStart rs p start in
    let w = last_loop-IsEnd rs p (length rs - 1 - start) start refl in
    either_at (IsChosen rs attempts) (weights == 0) start
      (pick_loop rs f (l - f) (random % weights))
      (λ t. member-IsChosen rs o start inside attempts f l start refl v w v.at_most w.at_least (
        inl (
          no_wrap sum (omega (arith, weight_sum_le rs light f (l - f + 1), w.at_most, inside, few))
            (ground (arith, t)))))
      (λ t.
        let n =
          picked rs f (l - f) (random % weights)
            (below (random % weights) sum (mod-lt random {m = weights} (ground (arith, t)))) in
        member-IsChosen rs o start inside attempts f l (pick_loop rs f (l - f) (random % weights))
          refl v w n.at_least (omega (arith, n.at_most, v.at_most, w.at_least)) (inr n.weighted))

settle-length : (r : Record) (rs : List Record) → length (settle r rs).1 ≡ length rs
settle-length r rs = (settle-IsSettled r rs).size

sort_loop-length : (n : ℕ) (rs : List Record) → length (sort_loop n rs) ≡ length rs
unfolding sort_loop
sort_loop-length zero rs = refl
sort_loop-length (suc n) [] = refl
sort_loop-length (suc n) (r ∷ rs) = ap suc (sort_loop-length n (settle r rs).1 ∙ settle-length r rs)

length-sort : (records : List Record) → length (sort records) ≡ length records
unfolding sort
length-sort records = sort_loop-length (length records) records

-- The weights stay small in the sort.
abbrev IsLight : Record → Type 0
IsLight r = r.weight ≤ 0xffff

settle-IsLight :
    (r : Record) (rs : List Record)
    → IsLight r
    → All IsLight rs
    → IsLight (settle r rs).0 × All IsLight (settle r rs).1
unfolding settle
settle-IsLight r [] h hs = (h, tt)
settle-IsLight r (s ∷ rest) h (k, ks) =
    let low = settle-IsLight s rest k ks in
    let same = settle-IsLight r rest h ks in
    either (λ (p : Record × List Record). IsLight p.0 × All IsLight p.1) (ltb s.priority r.priority)
      ((settle s rest).0, r ∷ (settle s rest).1) ((settle r rest).0, s ∷ (settle r rest).1)
      (low.0, (h, low.1)) (same.0, (k, same.1))

sort_loop-IsLight : (n : ℕ) (rs : List Record) → All IsLight rs → All IsLight (sort_loop n rs)
unfolding sort_loop
sort_loop-IsLight zero rs h = h
sort_loop-IsLight (suc n) [] h = tt
sort_loop-IsLight (suc n) (r ∷ rs) (h, hs) =
    let (low, rest) = settle-IsLight r rs h hs in (low, sort_loop-IsLight n (settle r rs).1 rest)

record_at-IsLight : (rs : List Record) → All IsLight rs → (i : ℕ) → IsLight (record_at rs i)
unfolding record_at
record_at-IsLight [] h i = omega arith
record_at-IsLight (r ∷ rs) (h, hs) zero = h
record_at-IsLight (r ∷ rs) (h, hs) (suc i) = record_at-IsLight rs hs i

-- Of one to sixteen records with weights of 16 bits, sorted by priority, the choice takes one that is there. It has the priority of the record whose turn it is; on the first attempt that is the best
-- priority. It has a weight above 0 if any record of its priority has one.
pub choose-IsChosen :
    (records : List Record) (attempts random : ℕ)
    → 1 ≤ length records
    → length records ≤ 16
    → All (λ (r : Record). r.weight ≤ 0xffff) records
    → Perm (sort records) records
      × IsOrdered (sort records)
      × IsChosen (sort records) attempts (choose (sort records) attempts random)
unfolding sort
choose-IsChosen records attempts random some_record few light =
    let rs = sort records in
    let o : IsOrdered rs = sort_loop-IsOrdered (length records) records (omega arith) in
    (
      sort_loop-perm (length records) records,
      o,
      choose_lem rs attempts random o (omega (arith, length-sort records, some_record))
          (omega (arith, length-sort records, few))
          (λ i. record_at-IsLight rs (sort_loop-IsLight (length records) records light) i),
    )
