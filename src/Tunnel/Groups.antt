-- ===== src/Tunnel/Groups.antt =====
-- The group of edge records of one priority in esp_cf_tunnel.c, and the pick by weight.
use mathlib.Core.Path.{subst}
use esp_cf_tunnel.Prelude.{
  either_at, ℕ, zero, suc, ◌+◌, ◌-◌, ◌≤◌, ◌<◌, ◌≡◌, ◌≢◌, inl, inr, ap, ◌∙◌, List, ltb, ◌==◌, arith,
  Bool-cases,
}
use esp_cf_tunnel.Dns.Records.{Record}
use esp_cf_tunnel.Tunnel.Edge.{record_at, first_loop, last_loop, weight_sum, pick_loop}
use esp_cf_tunnel.Tunnel.Choice.{priority_at}

pub record IsStart (rs : List Record) (p k f : ℕ) : Type 0 where
  pub at_most : f ≤ k
  pub same : (j : ℕ) → f ≤ j → j < k → priority_at rs j ≡ p
  pub stops : (j : ℕ) → suc j ≡ f → priority_at rs j ≢ p

at_same : (rs : List Record) (p j k : ℕ) → j ≡ k → priority_at rs k ≡ p → priority_at rs j ≡ p
at_same rs p j k e h = ap (priority_at rs) e ∙ h

pub first_loop-IsStart : (rs : List Record) (p k : ℕ) → IsStart rs p k (first_loop rs p k)
unfolding first_loop priority_at
first_loop-IsStart rs p zero = record {
  at_most = omega arith;
  same = λ j a b. absurd (omega (arith, b));
  stops = λ j a. absurd (omega (arith, a));
}
first_loop-IsStart rs p (suc k) =
    let v = first_loop-IsStart rs p k in
    either_at (IsStart rs p (suc k)) (priority_at rs k == p) (first_loop rs p k) (suc k)
      (λ t.
        let here : priority_at rs k ≡ p = ground (arith, t) in
        record {
          at_most = omega (arith, v.at_most);
          same = λ j a b. elim (Bool-cases (ltb j k)) [
            | inl u ↦ v.same j a (ground (arith, u))
            | inr u ↦ at_same rs p j k (ground (arith, u, b)) here
          ];
          stops = v.stops;
        })
      (λ t. record {
        at_most = omega arith;
        same = λ j a b. absurd (omega (arith, a, b));
        stops = λ j a h.
            let here : priority_at rs k ≡ p = at_same rs p k j (omega (arith, a)) h in
            ground (arith, t, here);
      })

pub record IsEnd (rs : List Record) (p left last f : ℕ) : Type 0 where
  pub at_least : last ≤ f
  pub at_most : f ≤ last + left
  pub same : (j : ℕ) → last ≤ j → j ≤ f → priority_at rs j ≡ p
  pub stops : (j : ℕ) → j ≡ f + 1 → j ≤ last + left → priority_at rs j ≢ p

pub last_loop-IsEnd :
    (rs : List Record) (p left last : ℕ)
    → priority_at rs last ≡ p
    → IsEnd rs p left last (last_loop rs p left last)
unfolding last_loop priority_at
last_loop-IsEnd rs p zero last h = record {
  at_least = omega arith;
  at_most = omega arith;
  same = λ j a b. at_same rs p j last (omega (arith, a, b)) h;
  stops = λ j a b. absurd (omega (arith, a, b));
}
last_loop-IsEnd rs p (suc left) last h =
    either_at (IsEnd rs p (suc left) last) (priority_at rs (last + 1) == p)
      (last_loop rs p left (last + 1)) last
      (λ t.
        let here : priority_at rs (last + 1) ≡ p = ground (arith, t) in
        let v = last_loop-IsEnd rs p left (last + 1) here in
        record {
          at_least = omega (arith, v.at_least);
          at_most = omega (arith, v.at_most);
          same = λ j a b. elim (Bool-cases (ltb last j)) [
            | inl u ↦ v.same j (ground (arith, u)) b
            | inr u ↦ at_same rs p j last (ground (arith, u, a)) h
          ];
          stops = λ j a b. v.stops j a (omega (arith, b));
        })
      (λ t. record {
        at_least = omega arith;
        at_most = omega arith;
        same = λ j a b. at_same rs p j last (omega (arith, a, b)) h;
        stops = λ j a b e.
            let here : priority_at rs (last + 1) ≡ p =
              at_same rs p (last + 1) j (omega (arith, a)) e in
            ground (arith, t, here);
      })

-- The weights that are left choose a record with a weight.
pub record IsPicked (rs : List Record) (pick left i : ℕ) : Type 0 where
  pub at_least : pick ≤ i
  pub at_most : i ≤ pick + left
  pub weighted : 0 < (record_at rs i).weight

pick_loop-IsPicked :
    (rs : List Record) (pick left value : ℕ)
    → value < weight_sum rs pick (suc left)
    → IsPicked rs pick left (pick_loop rs pick left value)
unfolding pick_loop weight_sum
pick_loop-IsPicked rs pick zero value h = record {
  at_least = omega arith;
  at_most = omega arith;
  weighted = omega (arith, h);
}
pick_loop-IsPicked rs pick (suc left) value h =
    let w = (record_at rs pick).weight in
    either_at (IsPicked rs pick (suc left)) (ltb value w) pick
      (pick_loop rs (pick + 1) left (value - w))
      (λ t. record { at_least = omega arith; at_most = omega arith; weighted = ground (arith, t) })
      (λ t.
        let more : w ≤ value = ground (arith, t) in
        let v = pick_loop-IsPicked rs (pick + 1) left (value - w) (omega (arith, more, h)) in
        record {
          at_least = omega (arith, v.at_least);
          at_most = omega (arith, v.at_most);
          weighted = v.weighted;
        })

pub picked :
    (rs : List Record) (pick left value : ℕ)
    → value < weight_sum rs pick (left + 1)
    → IsPicked rs pick left (pick_loop rs pick left value)
picked rs pick left value h =
    let e : left + 1 ≡ suc left = omega arith in
    pick_loop-IsPicked rs pick left value (subst (λ n. value < weight_sum rs pick n) e h)

pub no_weight :
    (rs : List Record) (i n j : ℕ)
    → weight_sum rs i n ≡ 0
    → i ≤ j
    → j < i + n
    → (record_at rs j).weight ≡ 0
unfolding weight_sum
no_weight rs i zero j h a b = absurd (omega (arith, a, b))
no_weight rs i (suc n) j h a b = elim (Bool-cases (ltb i j)) [
  | inl u ↦ no_weight rs (i + 1) n j (omega (arith, h)) (ground (arith, u)) (omega (arith, b))
  | inr u ↦
      let e : j ≡ i = ground (arith, u, a) in ap (λ z. (record_at rs z).weight) e ∙ omega (arith, h)
]
