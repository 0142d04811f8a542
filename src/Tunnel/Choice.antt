-- ===== src/Tunnel/Choice.antt =====
-- The sort of the edge records and the choice among them (`discover` in esp_cf_tunnel.c).
use mathlib.Core.List.{Perm}
use mathlib.Core.List.Perm
use esp_cf_tunnel.Prelude.{
  ℕ, zero, suc, ◌≤◌, ◌<◌, ◌≡◌, inl, inr, refl, List, [], ◌∷◌, All, ltb, length, arith, Bool-cases,
}
use esp_cf_tunnel.Dns.Records.{Record}
use esp_cf_tunnel.Tunnel.Edge.{record_at, settle, sort_loop}

-- The records stand by their priority.
abbrev pub IsOrdered : List Record → Type 0
IsOrdered [] = Unit
IsOrdered (r ∷ rs) = All (λ s. r.priority ≤ s.priority) rs × IsOrdered rs

-- What one round of the sort leaves.
pub record IsSettled (r : Record) (rs : List Record) (next : Record × List Record) : Type 0 where
  pub size : length next.1 ≡ length rs
  below : next.0.priority ≤ r.priority
  least : All (λ s. next.0.priority ≤ s.priority) next.1
  same : Perm (next.0 ∷ next.1) (r ∷ rs)

pub settle-IsSettled : (r : Record) (rs : List Record) → IsSettled r rs (settle r rs)
unfolding settle
settle-IsSettled r [] = record {
  size = refl;
  below = omega arith;
  least = tt;
  same = Perm.refl (r ∷ []);
}
settle-IsSettled r (s ∷ rest) = elim (Bool-cases (ltb s.priority r.priority)) [
  | inl t ↦
      let v = settle-IsSettled s rest in
      let lower : s.priority < r.priority = ground (arith, t) in
      rw (settle, t)
        (record {
          size = omega (arith, v.size);
          below = omega (arith, v.below, lower);
          least = (omega (arith, v.below, lower), v.least);
          same = Perm.trans (Perm.swap r (settle s rest).0 (settle s rest).1) (Perm.cons r v.same);
        })
  | inr t ↦
      let v = settle-IsSettled r rest in
      let higher : r.priority ≤ s.priority = ground (arith, t) in
      rw (settle, t)
        (record {
          size = omega (arith, v.size);
          below = v.below;
          least = (omega (arith, v.below, higher), v.least);
          same =
              Perm.trans (Perm.swap s (settle r rest).0 (settle r rest).1)
                (Perm.trans (Perm.cons s v.same) (Perm.swap r s rest));
        })
]

pub sort_loop-perm : (n : ℕ) (rs : List Record) → Perm (sort_loop n rs) rs
unfolding sort_loop
sort_loop-perm zero rs = Perm.refl rs
sort_loop-perm (suc n) [] = Perm.refl []
sort_loop-perm (suc n) (r ∷ rs) =
    Perm.trans (Perm.cons (settle r rs).0 (sort_loop-perm n (settle r rs).1))
      (settle-IsSettled r rs).same

-- Sorting keeps a lower bound.
settle-All :
    (k : ℕ) (r : Record) (rs : List Record)
    → k ≤ r.priority
    → All (λ s. k ≤ s.priority) rs
    → (k ≤ (settle r rs).0.priority) × All (λ s. k ≤ s.priority) (settle r rs).1
unfolding settle
settle-All k r [] h a = (h, tt)
settle-All k r (s ∷ rest) h (g, a) = elim (Bool-cases (ltb s.priority r.priority)) [
  | inl t ↦ let (x, y) = settle-All k s rest g a in rw (settle, t) (x, (h, y))
  | inr t ↦ let (x, y) = settle-All k r rest h a in rw (settle, t) (x, (g, y))
]

sort_loop-All :
    (k n : ℕ) (rs : List Record)
    → All (λ s. k ≤ s.priority) rs
    → All (λ s. k ≤ s.priority) (sort_loop n rs)
unfolding sort_loop
sort_loop-All k zero rs a = a
sort_loop-All k (suc n) [] a = a
sort_loop-All k (suc n) (r ∷ rs) (h, a) =
    let (x, y) = settle-All k r rs h a in (x, sort_loop-All k n (settle r rs).1 y)

pub sort_loop-IsOrdered : (n : ℕ) (rs : List Record) → length rs ≤ n → IsOrdered (sort_loop n rs)
unfolding sort_loop
sort_loop-IsOrdered zero [] h = tt
sort_loop-IsOrdered zero (r ∷ rs) h = absurd (omega (arith, h))
sort_loop-IsOrdered (suc n) [] h = tt
sort_loop-IsOrdered (suc n) (r ∷ rs) h =
    let v = settle-IsSettled r rs in
    (
      sort_loop-All (settle r rs).0.priority n (settle r rs).1 v.least,
      sort_loop-IsOrdered n (settle r rs).1 (omega (arith, v.size, h)),
    )

-- In an ordered list a later record has no lower priority number.
unfoldable pub priority_at : List Record → ℕ → ℕ
priority_at rs i = (record_at rs i).priority

elements_at :
    (k : ℕ) (rs : List Record) (i : ℕ)
    → All (λ s. k ≤ s.priority) rs
    → i < length rs
    → k ≤ priority_at rs i
unfolding priority_at record_at
elements_at k [] i a h = absurd (omega (arith, h))
elements_at k (r ∷ rs) zero (g, a) h = g
elements_at k (r ∷ rs) (suc i) (g, a) h = elements_at k rs i a (omega (arith, h))

pub ordered_at :
    (rs : List Record) (i j : ℕ)
    → IsOrdered rs
    → i ≤ j
    → j < length rs
    → priority_at rs i ≤ priority_at rs j
unfolding priority_at record_at
ordered_at [] i j o h k = absurd (omega (arith, k))
ordered_at (r ∷ rs) zero zero o h k = omega arith
ordered_at (r ∷ rs) zero (suc j) (a, o) h k = elements_at r.priority rs j a (omega (arith, k))
ordered_at (r ∷ rs) (suc i) zero o h k = absurd (omega (arith, h))
ordered_at (r ∷ rs) (suc i) (suc j) (a, o) h k =
    ordered_at rs i j o (omega (arith, h)) (omega (arith, k))
