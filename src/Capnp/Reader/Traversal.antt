-- ===== src/Capnp/Reader/Traversal.antt =====
-- The operations of the reader of cf_capnp.c: bounds, cost, and errors that stay.
use esp_cf_tunnel.Prelude.{
  ℕ, ◌+◌, ◌*◌, ◌%◌, ◌≤◌, ◌<◌, ◌≡◌, ◌≢◌, refl, true, false, ◌||◌, not, none, ltb, leb, ◌==◌, arith,
  inl, inr, Bool-cases, ◌∙◌, ==_iff,
}
use esp_cf_tunnel.Core.{u32}
use esp_cf_tunnel.Capnp.Checks.{
  Kind, null, struct, list, capability, Value, null_value, Reader, failed, words_of, charge,
  word_at, depth_max,
}
use esp_cf_tunnel.Capnp.Follow.{follow, root}
use esp_cf_tunnel.Capnp.Reader.{field_of, field, is_list, element}
use esp_cf_tunnel.Capnp.Reader.Charges.{Within, InBounds, Spends, IsSafe, charge_lem}
use esp_cf_tunnel.Capnp.Reader.Bounds.{
  Spends-trans, null-IsSafe, later-IsSafe, word_at-Spends, resolve-IsSafe, resolve_far-IsSafe,
}

-- A safe result that costs budget unless it is null.
pub record IsPaid (r : Reader) (out : Value × Reader) : Type 0 where
  pub safe : IsSafe r out
  pub cost : out.0.kind ≢ null → out.1.budget < r.budget

null-IsPaid : (r r' : Reader) → Spends r r' → IsPaid r (null_value, r')
null-IsPaid r r' s = record { safe = null-IsSafe r r' s; cost = λ k. absurd (k refl) }

later-IsPaid :
    (r s : Reader) (out : Value × Reader)
    → Spends r s
    → s.budget < r.budget
    → IsSafe s out
    → IsPaid r out
later-IsPaid r s out a b v = record {
  safe = later-IsSafe r s out a v;
  cost = λ k. omega (arith, v.spends);
}

failed-none : (r : Reader) → failed r ≡ false → r.error ≡ none
failed-none r h = ground arith

stays : (r : Reader) → Spends r r
stays r = (refl, omega arith)

follow-IsPaid : (r : Reader) (seg slot depth : ℕ) → IsPaid r (follow r seg slot depth)
unfolding follow
follow-IsPaid r seg slot depth =
    let r1 = (word_at r seg slot).1 in
    let p = (word_at r seg slot).0 in
    let r2 = (charge r1 1).1 in
    let s1 = word_at-Spends r seg slot in
    let (c, d) = charge_lem r1 1 in
    let s2 = Spends-trans r r1 r2 s1 c in
    elim (Bool-cases (failed r)) [
      | inl a ↦ rw a (null-IsPaid r r (stays r))
      | inr a ↦ elim (Bool-cases (ltb depth_max depth)) [
        | inl b ↦ rw (a, b) (null-IsPaid r _ (stays r))
        | inr b ↦ elim (Bool-cases (failed r1)) [
          | inl e ↦ rw (a, b, e) (null-IsPaid r _ s1)
          | inr e ↦ elim (Bool-cases (charge r1 1).0) [
            | inr f ↦ rw (a, b, e, f) (null-IsPaid r _ s2)
            | inl f ↦
                let e2 = (d f).0 ∙ failed-none r1 e in
                let less : r2.budget < r.budget = omega (arith, d f, s1) in
                elim (Bool-cases (p == 0)) [
                  | inl g ↦ rw (a, b, e, f, g) (null-IsPaid r _ s2)
                  | inr g ↦ elim (Bool-cases (p % 4 == 2)) [
                    | inl h ↦
                        rw (a, b, e, f, g, h)
                          (later-IsPaid r r2 _ s2 less (resolve_far-IsSafe r2 p depth))
                    | inr h ↦
                        rw (a, b, e, f, g, h)
                          (later-IsPaid r r2 _ s2 less
                            (resolve-IsSafe r2 seg slot p false depth e2))
                  ]
                ]
          ]
        ]
      ]
    ]

-- The root of a message lies inside it and is paid for.
pub root-IsPaid : (r : Reader) → IsPaid r (root r)
unfolding root
root-IsPaid r = follow-IsPaid r 0 0 1

field_of-IsPaid : (k : Kind) (r : Reader) (s : Value) (i : ℕ) → IsPaid r (field_of k r s i)
unfolding field_of
field_of-IsPaid null r s i = null-IsPaid r r (stays r)
field_of-IsPaid list r s i = null-IsPaid r _ (stays r)
field_of-IsPaid capability r s i = null-IsPaid r _ (stays r)
field_of-IsPaid struct r s i = elim (Bool-cases (leb s.pointers i)) [
  | inl t ↦ rw t (null-IsPaid r r (stays r))
  | inr t ↦ rw t (follow-IsPaid r _ _ _)
]

-- Whatever the message holds, `cf_cp_field` shows a value inside one of its segments, keeps the
-- segments, never gives budget back, and charges for every value that is not null.
pub field-IsPaid : (r : Reader) (s : Value) (i : ℕ) → IsPaid r (field r s i)
unfolding field
field-IsPaid r s i = elim (Bool-cases (failed r)) [
  | inl t ↦ rw t (null-IsPaid r r (stays r))
  | inr t ↦ rw t (field_of-IsPaid s.kind r s i)
]

-- Element `i` of a list of structures lies inside the list, and its position does not wrap.
element_position :
    (word count size i most : ℕ)
    → i < count
    → word + count * size ≤ most
    → most < 0x1_0000_0000
    → u32 (word + u32 (i * size)) + size ≤ most
element_position word count size i most h w m =
    let step : i * size + size ≤ count * size = grind arith in omega arith

element_composite :
    (r : Reader) (l : Value) (i : ℕ)
    → l.element_size ≡ 7
    → i < l.count
    → Within r l.segment l.word (l.count * (l.data_words + l.pointers))
    → words_of r l.segment < 0x1_0000_0000
    → Within r l.segment
        (u32 (l.word + u32 (i * (l.data_words + l.pointers))))
        (l.data_words + l.pointers)
element_composite r l i e h (a, b) m =
    (a, element_position l.word l.count (l.data_words + l.pointers) i (words_of r l.segment) h b m)

list_span :
    (r : Reader) (l : Value)
    → is_list l.kind ≡ true
    → InBounds l.kind r l
    → l.element_size ≡ 7
    → Within r l.segment l.word (l.count * (l.data_words + l.pointers))
list_span r l k b e = span_of l.kind k b
  where
    span_of :
        (kind : Kind)
        → is_list kind ≡ true
        → InBounds kind r l
        → Within r l.segment l.word (l.count * (l.data_words + l.pointers))
    span_of list k b = (b.0, ground arith)
    span_of null k b = cc
    span_of struct k b = cc
    span_of capability k b = cc

element_step :
    (r : Reader) (l : Value) (i : ℕ)
    → failed r ≡ false
    → is_list l.kind ≡ true
    → InBounds l.kind r l
    → words_of r l.segment < 0x1_0000_0000
    → i < l.count
    → l.element_size ≡ 7
    → (charge r 1).0 ≡ true
    → IsPaid r (
      record l {
        kind = struct;
        word = u32 (l.word + u32 (i * (l.data_words + l.pointers)));
        depth = l.depth + 1;
      },
      (charge r 1).1,
    )
element_step r l i f k b m h e t =
    let (c, d) = charge_lem r 1 in
    record {
      safe = record {
        spends = c;
        inside = element_composite r l i e h (list_span r l k b e) m;
        clean = λ _. (d t).0 ∙ failed-none r f;
      };
      cost = λ _. (d t).2;
    }

-- `cf_cp_at` on a list that the reader has shown: the element is inside a segment and paid for, and
-- the 32-bit position does not wrap.
pub element-IsPaid :
    (r : Reader) (l : Value) (i : ℕ)
    → InBounds l.kind r l
    → words_of r l.segment < 0x1_0000_0000
    → IsPaid r (element r l i)
unfolding element
element-IsPaid r l i b m =
    let (c, d) = charge_lem r 1 in
    elim (Bool-cases (failed r)) [
      | inl f ↦ rw f (null-IsPaid r r (stays r))
      | inr f ↦ elim (Bool-cases (not (is_list l.kind) || leb l.count i)) [
        | inl g ↦ rw (f, g) (null-IsPaid r _ (stays r))
        | inr g ↦ elim (Bool-cases (l.element_size == 6)) [
          | inl h ↦ rw (f, g, h) (follow-IsPaid r _ _ _)
          | inr h ↦ elim (Bool-cases (l.element_size == 7)) [
            | inr k ↦ rw (f, g, h, k) (null-IsPaid r _ (stays r))
            | inl k ↦ elim (Bool-cases (leb depth_max l.depth)) [
              | inl n ↦ rw (f, g, h, k, n) (null-IsPaid r _ (stays r))
              | inr n ↦ elim (Bool-cases (charge r 1).0) [
                | inr t ↦ rw (f, g, h, k, n, t) (null-IsPaid r _ c)
                | inl t ↦
                    rw (f, g, h, k, n, t)
                      (element_step r l i f (ground (arith, g)) b m (ground (arith, g))
                        ((==_iff _ _).0 k) t)
              ]
            ]
          ]
        ]
      ]
    ]
