-- ===== src/Dns/Names/Valid.antt =====
-- The names that `read_name` of cf_dns.c accepts.
use mathlib.Core.Path.{subst}
use mathlib.Core.Option.{some-injective}
use esp_cf_tunnel.Prelude.{
  ℕ, zero, suc, ◌+◌, ◌-◌, ◌≤◌, ◌<◌, ◌≡◌, ◌≢◌, refl, some, arith, inl, inr, Bool-cases, Option-cases,
  Option, [], ◌∷◌, ◌++◌, ◌||◌, length, length-append, length-take, drop, slice, All, All-append,
  ltb, ◌==◌, true,
}
use esp_cf_tunnel.Core.{Bytes, Result, ok}
use esp_cf_tunnel.Dns.Names.{
  Cursor, Round, more, done, stop, dot, jump, read_label, read_round, after_round, read_loop,
  read_name, rounds, copy_label, name_char, lower, name_max,
}
use esp_cf_tunnel.Dns.Names.Termination.{read_round_cases}

-- A character of a name: a dot, or what `name_char` lets through.
abbrev pub IsNameChar : ℕ → Type 0
IsNameChar c = (name_char c || c == 46) ≡ true

-- A text that fits the 254 bytes of a name.
abbrev pub IsName : Bytes → Type 0
IsName out = (length out ≤ name_max) × All IsNameChar out

copy_label_lem :
    (cs : Bytes) {out : Bytes}
    → copy_label cs ≡ some out
    → (length out ≡ length cs) × All IsNameChar out
unfolding copy_label
copy_label_lem [] {out} h =
    subst (λ o. (length o ≡ 0) × All IsNameChar o) (some-injective [] out h) (refl, tt)
copy_label_lem (c ∷ cs) {out} h = elim (Bool-cases (name_char (lower c))) [
  | inr t ↦ ground (arith, t, h)
  | inl t ↦ elim (Option-cases (copy_label cs)) [
    | inl e ↦ ground (arith, t, h, e)
    | inr (rest, e) ↦
        let (size, fine) = copy_label_lem cs e in
        subst (λ o. (length o ≡ suc (length cs)) × All IsNameChar o)
          (some-injective (lower c ∷ rest) out (rw (t, e) at h))
          (omega (arith, size), (ground (arith, t), fine))
  ]
]

dot-IsNameChar : (out : Bytes) → All IsNameChar (dot out)
dot-IsNameChar [] = tt
dot-IsNameChar (c ∷ cs) = (unfold name_char in refl, tt)

module _ (packet : Bytes) (start : ℕ) where
  -- The name so far, and where reading goes on behind it.
  record IsValid (c : Cursor) : Type 0 where
    pub name : IsName c.out
    pub forward : c.resume ≡ 0 → start ≤ c.at
    pub behind : c.resume ≢ 0 → (start < c.resume) × (c.resume ≤ length packet)

  abbrev Keeps : Round → Type 0
  Keeps (more c) = IsValid c
  Keeps (done out offset) = IsName out × (start < offset) × (offset ≤ length packet)
  Keeps (stop e) = Unit

  jump-Keeps : (c : Cursor) (n : ℕ) → IsValid c → Keeps (jump packet c n)
  unfolding jump
  jump-Keeps c n v = ground (arith, v)

  read_label-Keeps : (c : Cursor) (n : ℕ) → IsValid c → Keeps (read_label packet c n)
  unfolding read_label
  read_label-Keeps c n v =
      let at = c.at + 1 in
      elim (Bool-cases (
        ltb 127 (c.labels + 1)
        || ltb (length packet - at) n
        || ltb name_max (length c.out + n + length (dot c.out)))) [
          | inl t ↦ rw t tt
          | inr t ↦ elim (Option-cases (copy_label (slice at n packet))) [
            | inl e ↦ rw (t, e) tt
            | inr (label, e) ↦
                let (size, fine) = copy_label_lem (slice at n packet) e in
                let t_size : length c.out + n + length (dot c.out) ≤ name_max = ground (arith, t) in
                rw (t, e)
                  (record {
                    name = (
                      omega (
                        arith,
                        t_size,
                        size,
                        length-take n (drop at packet),
                        length-append (c.out ++ dot c.out) label,
                        length-append c.out (dot c.out),
                      ),
                      All-append IsNameChar (c.out ++ dot c.out) label
                          (All-append IsNameChar c.out (dot c.out) v.name.1 (dot-IsNameChar c.out))
                          fine,
                    );
                    forward = λ h. omega (arith, v.forward h);
                    behind = v.behind;
                  })
          ]
        ]

  read_round-Keeps : (c : Cursor) → IsValid c → Keeps (read_round packet c)
  read_round-Keeps c v =
      read_round_cases Keeps packet c (λ e. tt)
        (λ h k. (v.name, ground (arith, v.forward, v.behind), ground (arith, v.forward, v.behind)))
        (λ h. jump-Keeps c _ v) (λ h k l. read_label-Keeps c _ v)

  after_round-Keeps :
      (go_on : Cursor → Option (Result (Bytes × ℕ))) (r : Round) {out : Bytes} {offset : ℕ}
      → Keeps r
      → ((c : Cursor)
          → IsValid c
          → go_on c ≡ some (ok (out, offset))
          → IsName out × (start < offset) × (offset ≤ length packet))
      → after_round go_on r ≡ some (ok (out, offset))
      → IsName out × (start < offset) × (offset ≤ length packet)
  after_round-Keeps go_on (more c) k h e = h c k e
  after_round-Keeps go_on (done out' offset') {out} {offset} k h e =
      let text : out' ≡ out = cc in
      let place : offset' ≡ offset = cc in
      (subst IsName text k.0, omega (arith, place, k.1), omega (arith, place, k.2))
  after_round-Keeps go_on (stop x) k h e = cc

  read_loop-IsName :
      (fuel : ℕ) (c : Cursor) {out : Bytes} {offset : ℕ}
      → IsValid c
      → read_loop fuel packet c ≡ some (ok (out, offset))
      → IsName out × (start < offset) × (offset ≤ length packet)
  unfolding read_loop
  read_loop-IsName zero c v e = cc
  read_loop-IsName (suc fuel) c {out} {offset} v e =
      after_round-Keeps (λ c'. read_loop fuel packet c') (read_round packet c)
        (read_round-Keeps c v) (λ c' w. read_loop-IsName fuel c' w) e

-- A name that `read_name` accepts fits its buffer and holds lower-case letters, digits, `-`, `_` and dots
-- alone; reading goes on behind the place where it began, and inside the packet.
pub read_name-IsName :
    (packet : Bytes) (at : ℕ) {out : Bytes} {offset : ℕ}
    → read_name packet at ≡ some (ok (out, offset))
    → IsName out × (at < offset) × (offset ≤ length packet)
unfolding read_name
read_name-IsName packet at e =
    read_loop-IsName packet at rounds _
      (record {
        name = (omega arith, tt);
        forward = λ h. omega arith;
        behind = λ h. absurd (h refl);
      })
      e
