-- ===== src/H2/Table.antt =====
-- The stream table of cf_h2.c: finding a slot, changing it, and counting.
use mathlib.Core.Path.{subst}
use mathlib.Core.Option.{some-injective}
use esp_cf_tunnel.Prelude.{
  Option, ℕ, ◌+◌, ◌≤◌, ◌≡◌, ◌≢◌, refl, ap, Bool, true, false, none, some, List, [], ◌∷◌, ◌==◌,
  if◌then◌else◌, length, All, arith, Bool-cases, inl, inr, ==_iff,
}
use esp_cf_tunnel.H2.{Stream, find_stream, update}
use esp_cf_tunnel.H2.Frame.{count}

pub length-update :
    (ss : List Stream) (id : ℕ) (f : Stream → Stream) → length (update ss id f) ≡ length ss
unfolding update
length-update [] id f = refl
length-update (s ∷ ss) id f = ground (arith, length-update ss id f)

pub find_id : (ss : List Stream) (id : ℕ) (s : Stream) → find_stream ss id ≡ some s → s.id ≡ id
unfolding find_stream
find_id [] id s h = ground (arith, h)
find_id (t ∷ ss) id s h = ground (arith, h, find_id ss id s, ==_iff t.id id)

pub find-All :
    (P : Stream → Type 0) (ss : List Stream) (id : ℕ) (s : Stream)
    → find_stream ss id ≡ some s
    → All P ss
    → P s
unfolding find_stream
find-All P [] id s h a = absurd (ground (arith, h))
find-All P (t ∷ ss) id s h (one, rest) = elim (Bool-cases (t.id == id)) [
  | inl e ↦ subst P (some-injective _ _ (rw (find_stream, e) at h)) one
  | inr e ↦ find-All P ss id s (rw (find_stream, e) at h) rest
]

pub All-map :
    (P Q : Stream → Type 0) → ((s : Stream) → P s → Q s) → (ss : List Stream) → All P ss → All Q ss
All-map P Q k [] a = tt
All-map P Q k (s ∷ ss) (one, rest) = (k s one, All-map P Q k ss rest)

pub update-All :
    (P Q : Stream → Type 0) (id : ℕ) (f : Stream → Stream)
    → ((s : Stream) → P s → Q s)
    → ((s : Stream) → s.id ≡ id → P s → Q (f s))
    → (ss : List Stream) → All P ss
    → All Q (update ss id f)
unfolding update
update-All P Q id f k g [] a = tt
update-All P Q id f k g (s ∷ ss) (one, rest) = elim (Bool-cases (s.id == id)) [
  | inl e ↦ rw e (g s (ground (arith, e, ==_iff s.id id)) one, All-map P Q k ss rest)
  | inr e ↦ rw e (k s one, update-All P Q id f k g ss rest)
]

pub update_absent :
    (ss : List Stream) (id : ℕ) (f : Stream → Stream)
    → find_stream ss id ≡ none
    → update ss id f ≡ ss
unfolding update find_stream
update_absent [] id f h = refl
update_absent (s ∷ ss) id f h = elim (Bool-cases (s.id == id)) [
  | inl e ↦ absurd (ground (arith, rw (find_stream, e) at h))
  | inr e ↦ rw (update, e) (ap (λ t. s ∷ t) (update_absent ss id f (rw (find_stream, e) at h)))
]

-- Changing the slot that is found changes a number of slots by what it changes there.
pub count-update :
    (test : Stream → Bool) (ss : List Stream) (id : ℕ) (f : Stream → Stream) (s : Stream)
    → find_stream ss id ≡ some s
    → count test (update ss id f) + (if test s then 1 else 0)
      ≡ count test ss + (if test (f s) then 1 else 0)
unfolding count update find_stream
count-update test [] id f s h = absurd (ground (arith, h))
count-update test (t ∷ ss) id f s h = elim (Bool-cases (t.id == id)) [
  | inl e ↦
      let same : t ≡ s = some-injective _ _ (rw (find_stream, e) at h) in
      rw (update, e)
        (subst
          (λ x.
            (if test (f t) then 1 else 0) + count test ss + (if test x then 1 else 0)
            ≡ (if test t then 1 else 0) + count test ss + (if test (f x) then 1 else 0))
          same (omega arith))
  | inr e ↦
      let ih = count-update test ss id f s (rw (find_stream, e) at h) in
      rw (update, e) (omega (arith, ih))
]

-- A change that makes no slot pass the test does not raise the number.
pub count-update-le :
    (test : Stream → Bool) (ss : List Stream) (id : ℕ) (f : Stream → Stream)
    → ((s : Stream) → test (f s) ≡ true → test s ≡ true)
    → count test (update ss id f) ≤ count test ss
unfolding count update
count-update-le test [] id f h = omega arith
count-update-le test (s ∷ ss) id f h = ground (arith, h s, count-update-le test ss id f h)

pub All-both :
    (P Q : Stream → Type 0) (ss : List Stream) → All P ss → All Q ss → All (λ s. P s × Q s) ss
All-both P Q [] a b = tt
All-both P Q (s ∷ ss) (a, c) (b, d) = ((a, b), All-both P Q ss c d)

-- An id that is not found stands in no slot.
pub absent-All : (ss : List Stream) (id : ℕ) → find_stream ss id ≡ none → All (λ s. s.id ≢ id) ss
unfolding find_stream
absent-All [] id h = tt
absent-All (s ∷ ss) id h = elim (Bool-cases (s.id == id)) [
  | inl e ↦ absurd (ground (arith, rw (find_stream, e) at h))
  | inr e ↦ (λ z. ground (arith, e, z, ==_iff s.id id), absent-All ss id (rw (find_stream, e) at h))
]

pub count-le : (test : Stream → Bool) (ss : List Stream) → count test ss ≤ length ss
unfolding count
count-le test [] = omega arith
count-le test (s ∷ ss) = ground (arith, count-le test ss)

pub count-absent :
    (ss : List Stream) (id : ℕ) → find_stream ss id ≡ none → count (λ s. s.id == id) ss ≡ 0
unfolding find_stream count
count-absent [] id h = refl
count-absent (s ∷ ss) id h = ground (arith, h, count-absent ss id)

pub find-update :
    (ss : List Stream) (id : ℕ) (f : Stream → Stream) (s : Stream)
    → ((s : Stream) → (f s).id ≡ s.id)
    → find_stream ss id ≡ some s
    → find_stream (update ss id f) id ≡ some (f s)
unfolding find_stream update
find-update [] id f s g h = absurd (ground (arith, h))
find-update (t ∷ ss) id f s g h = elim (Bool-cases (t.id == id)) [
  | inl e ↦
      let here : (f t).id == id ≡ true = ground (arith, e, g t) in
      rw (update, e, find_stream, here)
        (ap (λ x. some (f x)) (some-injective _ _ (rw (find_stream, e) at h)))
  | inr e ↦ rw (update, e, find_stream, e) (find-update ss id f s g (rw (find_stream, e) at h))
]

abbrev pub is_found : Option Stream → Bool
is_found none = false
is_found (some s) = true

-- A change that keeps the ids moves no stream.
pub found-update :
    (ss : List Stream) (id at : ℕ) (f : Stream → Stream)
    → ((s : Stream) → (f s).id ≡ s.id)
    → is_found (find_stream (update ss at f) id) ≡ is_found (find_stream ss id)
unfolding find_stream update
found-update [] id at f g = refl
found-update (s ∷ ss) id at f g = ground (arith, g s, found-update ss id at f g)
