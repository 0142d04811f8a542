-- ===== src/Capnp/Reader/Bounds.antt =====
-- The reader of cf_capnp.c never shows bytes outside the message, and pays for what it shows.
use mathlib.Core.Path.{subst}
use native.Mathlib.Nat.{le_refl}
use esp_cf_tunnel.Prelude.{
  ℕ, ◌+◌, ◌-◌, ◌*◌, ◌/◌, ◌%◌, ◌≤◌, ◌≡◌, refl, Bool, true, false, ◌||◌, not, Option, none, some, ltb,
  ◌==◌, if◌then◌else◌, arith, inl, inr, Bool-cases, ◌∙◌, ==_iff, ap, sym,
}
use esp_cf_tunnel.Core.{u16, u32, format}
use esp_cf_tunnel.Capnp.Checks.{
  Kind, null, struct, list, capability, Value, null_value, Reader, reject, range, charge, admit,
  word_at,
}
use esp_cf_tunnel.Capnp.Follow.{
  single_pad, double_pad, target_of, finish_value, struct_value, composite_value, list_value,
  resolve, resolve_far,
}
use esp_cf_tunnel.Capnp.Reader.Charges.{
  Within, span, InBounds, Spends, IsSafe, range_lem, range-Within, charge_lem, admit_lem,
  word_at_lem, word_after,
}

finish_value-IsSafe :
    (r : Reader) (v : Value)
    → (n : ℕ) → (Within r v.segment v.word n → InBounds v.kind r v)
    → IsSafe r (finish_value r v n)
unfolding finish_value
finish_value-IsSafe r v n h =
    let (a, b) = admit_lem r v.segment v.word n in
    elim (Bool-cases (admit r v.segment v.word n).0) [
      | inl t ↦ rw t (record { spends = a; inside = h (b t).1; clean = λ k. (b t).0 })
      | inr t ↦ rw t (record { spends = a; inside = tt; clean = λ k. absurd (k refl) })
    ]

pub word_at-Spends : (r : Reader) (seg word : ℕ) → Spends r (word_at r seg word).1
word_at-Spends r seg word = let (a, b) = range_lem r seg word 1 in rw (word_at_lem r seg word) a

-- A null result that leaves the message and the budget is safe.
pub null-IsSafe : (r r' : Reader) → Spends r r' → IsSafe r (null_value, r')
null-IsSafe r r' s = record { spends = s; inside = tt; clean = λ k. absurd (k refl) }

pub Spends-trans : (r s t : Reader) → Spends r s → Spends s t → Spends r t
Spends-trans r s t a b = (b.0 ∙ a.0, omega (arith, a, b))

pub same_words :
    (r s : Reader) (seg word n : ℕ)
    → r.segments ≡ s.segments
    → Within r seg word n
    → Within s seg word n
same_words r s seg word n e w = rw (← e) w

same_bounds :
    (r s : Reader) (v : Value) (k : Kind)
    → r.segments ≡ s.segments
    → InBounds k r v
    → InBounds k s v
same_bounds r s v null e w = tt
same_bounds r s v capability e w = tt
same_bounds r s v struct e w = same_words r s v.segment v.word (v.data_words + v.pointers) e w
same_bounds r s v list e w = same_words r s v.segment v.word (span v) e w

-- A safe result of a reader that has already spent.
pub later-IsSafe : (r s : Reader) (out : Value × Reader) → Spends r s → IsSafe s out → IsSafe r out
later-IsSafe r s out a v = record {
  spends = Spends-trans r s out.1 a v.spends;
  inside = same_bounds s r out.0 out.0.kind a.0 v.inside;
  clean = v.clean;
}

struct_value-IsSafe :
    (r : Reader) (seg target p depth : ℕ) → IsSafe r (struct_value r seg target p depth)
unfolding struct_value
struct_value-IsSafe r seg target p depth = finish_value-IsSafe r _ _ (λ w. w)

-- Words that lie behind the first of `n + 1`.
tail_Within :
    (r : Reader) (seg word n m : ℕ) → m ≤ n → Within r seg word (n + 1) → Within r seg (word + 1) m
tail_Within r seg word n m h (a, b) = (a, omega arith)

composite_inside :
    (r : Reader) (v : Value) (count data_words pointers : ℕ)
    → v.kind ≡ list
    → v.element_size ≡ 7
    → Within r v.segment v.word (v.count + 1)
    → count * (data_words + pointers) ≤ v.count
    → InBounds v.kind r (record v {
      word = v.word + 1;
      count = count;
      data_words = data_words;
      pointers = pointers;
    })
composite_inside r v count data_words pointers k e b x =
    let v' = record v {
      word = v.word + 1;
      count = count;
      data_words = data_words;
      pointers = pointers;
    } in
    subst (λ q. InBounds q r v') (sym k) (b.0, ground arith)

composite_value-IsSafe :
    (r : Reader) (v : Value) → v.kind ≡ list → v.element_size ≡ 7 → IsSafe r (composite_value r v)
unfolding composite_value
composite_value-IsSafe r v k e =
    let (a, b) = range_lem r v.segment v.word (v.count + 1) in
    let r1 = (range r v.segment v.word (v.count + 1)).1 in
    let r2 = (word_at r1 v.segment v.word).1 in
    let tag = (word_at r1 v.segment v.word).0 in
    let need = u32 tag / 4 * (u16 (tag / 0x1_0000_0000) + u16 (tag / 0x1_0000_0000_0000)) in
    let (c, d) = range_lem r1 v.segment v.word 1 in
    let (f, g) = charge_lem r2 (v.count + 1) in
    let s2 : Spends r r2 = ground (arith, a, c, word_at_lem r1 v.segment v.word) in
    let s3 = Spends-trans r r2 (charge r2 (v.count + 1)).1 s2 f in
    elim (Bool-cases (range r v.segment v.word (v.count + 1)).0) [
      | inr t ↦ rw t (null-IsSafe r r1 a)
      | inl t ↦ elim (Bool-cases (tag % 4 == 0)) [
        | inr u ↦ rw (t, u) (null-IsSafe r _ s2)
        | inl u ↦ elim (Bool-cases (ltb (v.count + 1 - 1) need)) [
          | inl x ↦ rw (t, u, x) (null-IsSafe r _ s2)
          | inr x ↦ elim (Bool-cases (charge r2 (v.count + 1)).0) [
            | inr y ↦ rw (t, u, x, y) (null-IsSafe r _ s3)
            | inl y ↦
                rw (t, u, x, y)
                  (record {
                    spends = s3;
                    inside =
                        composite_inside r v (u32 tag / 4) (u16 (tag / 0x1_0000_0000))
                          (u16 (tag / 0x1_0000_0000_0000)) k e (b t).2 (ground arith);
                    clean = λ _. (g y).0 ∙ word_after r v.segment v.word v.count t;
                  })
          ]
        ]
      ]
    ]

list_value-IsSafe :
    (r : Reader) (seg target p depth : ℕ) → IsSafe r (list_value r seg target p depth)
unfolding list_value
list_value-IsSafe r seg target p depth = elim (Bool-cases (p / 0x1_0000_0000 % 8 == 7)) [
  | inl t ↦ rw t (composite_value-IsSafe r _ refl ((==_iff _ _).0 t))
  | inr t ↦ rw t (finish_value-IsSafe r _ _ (λ w. rw t w))
]

pub resolve-IsSafe :
    (r : Reader) (seg slot p : ℕ) (direct : Bool) (depth : ℕ)
    → r.error ≡ none
    → IsSafe r (resolve r seg slot p direct depth)
unfolding resolve
resolve-IsSafe r seg slot p direct depth e = elim (Bool-cases (p % 4 == 3)) [
  | inl t ↦ elim (Bool-cases (u32 p == 3)) [
    | inl u ↦ rw (t, u) (record { spends = (refl, omega arith); inside = tt; clean = λ k. e })
    | inr u ↦ rw (t, u) (null-IsSafe r _ (refl, le_refl r.budget))
  ]
  | inr t ↦ rw t (target_cases (target_of p slot direct))
]
  where
    target_cases :
        (o : Option ℕ)
        → IsSafe r (elim o [
          | none ↦ reject null_value r (some format)
          | some target ↦
              if p % 4 == 0
              then struct_value r seg target p depth
              else if p % 4 == 1
              then list_value r seg target p depth
              else reject null_value r (some format)
        ])
    target_cases none = null-IsSafe r _ (refl, le_refl r.budget)
    target_cases (some target) = elim (Bool-cases (p % 4 == 0)) [
      | inl u ↦ rw u (struct_value-IsSafe r seg target p depth)
      | inr u ↦ elim (Bool-cases (p % 4 == 1)) [
        | inl w ↦ rw (u, w) (list_value-IsSafe r seg target p depth)
        | inr w ↦ rw (u, w) (null-IsSafe r _ (refl, le_refl r.budget))
      ]
    ]

-- A word inside the segment is read without a failure.
pub word_at-Within :
    (r : Reader) (seg word : ℕ) → r.error ≡ none → Within r seg word 1 → (word_at r seg word).1 ≡ r
word_at-Within r seg word e w =
    word_at_lem r seg word ∙ ap (λ q. q.1) (range-Within r seg word 1 e w)

single_pad-IsSafe :
    (r : Reader) (seg slot depth : ℕ)
    → r.error ≡ none
    → Within r seg slot 1
    → IsSafe r (single_pad r seg slot depth)
unfolding single_pad
single_pad-IsSafe r seg slot depth e w =
    let s1 = word_at-Spends r seg slot in
    let same = word_at-Within r seg slot e w in
    let r1 = (word_at r seg slot).1 in
    let pad = (word_at r seg slot).0 in
    elim (Bool-cases (ltb 1 (pad % 4) || pad == 0)) [
      | inl x ↦ rw x (null-IsSafe r _ s1)
      | inr x ↦ rw x (
          later-IsSafe r r1 _ s1 (resolve-IsSafe r1 _ _ _ false depth (ap (λ q. q.error) same ∙ e)))
    ]

double_pad-IsSafe :
    (r : Reader) (seg slot depth : ℕ)
    → r.error ≡ none
    → Within r seg slot 2
    → IsSafe r (double_pad r seg slot depth)
unfolding double_pad
double_pad-IsSafe r seg slot depth e w =
    let r1 = (word_at r seg slot).1 in
    let r2 = (word_at r1 seg (slot + 1)).1 in
    let pad = (word_at r seg slot).0 in
    let tag = (word_at r1 seg (slot + 1)).0 in
    let s1 = word_at-Spends r seg slot in
    let s2 = Spends-trans r r1 r2 s1 (word_at-Spends r1 seg (slot + 1)) in
    let same = word_at-Within r seg slot e (w.0, omega (arith, w)) in
    let again : r2 ≡ r =
      ap (λ q. (word_at q seg (slot + 1)).1) same
      ∙ word_at-Within r seg (slot + 1) e (w.0, omega (arith, w)) in
    elim (Bool-cases (not (pad % 8 == 2) || not (u32 tag / 4 == 0) || ltb 1 (tag % 4))) [
      | inl x ↦ rw x (null-IsSafe r _ s2)
      | inr x ↦ rw x (
          later-IsSafe r r2 _ s2 (resolve-IsSafe r2 _ _ _ true depth (ap (λ q. q.error) again ∙ e)))
    ]

pub resolve_far-IsSafe : (r : Reader) (p depth : ℕ) → IsSafe r (resolve_far r p depth)
unfolding resolve_far
resolve_far-IsSafe r p depth = pad_cases (p / 4 % 2 == 1)
  where
    pad_cases :
        (two : Bool)
        → let slot = u32 p / 8 in
          let seg = p / 0x1_0000_0000 in
          let out = admit r seg slot (if two then 2 else 1) in
          IsSafe r (
            if not out.0
            then (null_value, out.1)
            else if two
            then double_pad out.1 seg slot depth
            else single_pad out.1 seg slot depth)
    pad_cases true =
        let slot = u32 p / 8 in
        let seg = p / 0x1_0000_0000 in
        let (a, b) = admit_lem r seg slot 2 in
        let r1 = (admit r seg slot 2).1 in
        elim (Bool-cases (admit r seg slot 2).0) [
          | inr t ↦ rw t (null-IsSafe r r1 a)
          | inl t ↦ rw t (
              later-IsSafe r r1 _ a (
                double_pad-IsSafe r1 seg slot depth (b t).0
                  (same_words r r1 seg slot 2 (sym a.0) (b t).1)))
        ]
    pad_cases false =
        let slot = u32 p / 8 in
        let seg = p / 0x1_0000_0000 in
        let (a, b) = admit_lem r seg slot 1 in
        let r1 = (admit r seg slot 1).1 in
        elim (Bool-cases (admit r seg slot 1).0) [
          | inr t ↦ rw t (null-IsSafe r r1 a)
          | inl t ↦ rw t (
              later-IsSafe r r1 _ a (
                single_pad-IsSafe r1 seg slot depth (b t).0
                  (same_words r r1 seg slot 1 (sym a.0) (b t).1)))
        ]
