-- ===== src/Dns/Query/Rounds.antt =====
-- How `read_name` of cf_dns.c goes through the labels of a query.
use esp_cf_tunnel.Prelude.{
  ℕ, zero, suc, ◌+◌, ◌≤◌, ◌≡◌, refl, sym, ap, ◌∙◌, some, [], ◌∷◌, ◌++◌, map, length, length-append,
  append_assoc, append-nil, arith,
}
use esp_cf_tunnel.Core.{Bytes, ok}
use esp_cf_tunnel.Dns.Names.{lower, Cursor, dot, read_round, read_loop, after_round}
use esp_cf_tunnel.Dns.Query.Labels.{
  IsLabel, length-lower, labelled, last_round, past, Fits, labels_fit, label_step,
}

-- The same packet, cut in front of a label and behind it.
pub labelled-append :
    (before rest after label : Bytes)
    → before ++ ((length label ∷ map lower label) ++ rest) ++ (0 ∷ after)
      ≡ labelled before (rest ++ (0 ∷ after)) label
labelled-append before rest after label =
    append_assoc before ((length label ∷ map lower label) ++ rest) (0 ∷ after)
    ∙ ap (λ q. before ++ q) (append_assoc (length label ∷ map lower label) rest (0 ∷ after))

pub behind-append :
    (before rest after label : Bytes)
    → labelled before (rest ++ (0 ∷ after)) label
      ≡ (before ++ (length label ∷ map lower label)) ++ rest ++ (0 ∷ after)
behind-append before rest after label =
    let size_first = length label ∷ map lower label in
    sym (
      append_assoc (before ++ size_first) rest (0 ∷ after)
      ∙ append_assoc before size_first (rest ++ (0 ∷ after)))

pub name_ends :
    (label before after : Bytes) (c : Cursor) (fuel : ℕ)
    → c.at ≡ length (before ++ (length label ∷ map lower label))
    → c.resume ≡ 0
    → read_loop (suc fuel) (labelled before (0 ∷ after) label) c ≡ some (ok (c.out, c.at + 1))
unfolding read_loop
name_ends label before after c fuel e r =
    let size_first = length label ∷ map lower label in
    let packet = (before ++ size_first) ++ (0 ∷ after) in
    let cut_there : labelled before (0 ∷ after) label ≡ packet =
      sym (append_assoc before size_first (0 ∷ after)) in
    ap (λ q. after_round (λ c'. read_loop fuel q c') (read_round q c)) cut_there
    ∙ ap (λ q. after_round (λ c'. read_loop fuel packet c') q)
        (last_round (before ++ size_first) after c e r)

-- The last label and the end of the name.
pub last_label :
    (label before after : Bytes) (c : Cursor) (fuel : ℕ)
    → IsLabel label
    → 1 ≤ length label
    → length label ≤ 63
    → Fits before [] label c (suc fuel)
    → read_loop (suc (suc fuel)) (labelled before (0 ∷ after) label) c
      ≡ some (ok (c.out ++ dot c.out ++ map lower label, length before + (1 + length label) + 1))
last_label label before after c fuel v h k s =
    label_step before (0 ∷ after) [] label c (suc fuel) v h k s
    ∙ name_ends label before after (past c label) fuel
        (omega (
          arith,
          s.here,
          length-append before (length label ∷ map lower label),
          length-lower label,
        ))
        s.straight
    ∙ ap (λ n. some (ok (c.out ++ dot c.out ++ map lower label, n))) (omega (arith, s.here))

pub dot_text :
    (out rest : Bytes) → 1 ≤ length out → out ++ dot out ++ [] ++ rest ≡ out ++ (46 ∷ rest)
dot_text [] rest h = absurd (omega (arith, h))
dot_text (x ∷ xs) rest h =
    ap (λ q. q ++ rest) (append-nil ((x ∷ xs) ++ (46 ∷ []))) ∙ append_assoc (x ∷ xs) (46 ∷ []) rest

-- A label with a dot behind it.
pub dot_round :
    (x : ℕ) (xs label before after : Bytes) (c : Cursor) (fuel : ℕ) (rest : Bytes)
    → IsLabel label
    → 1 ≤ length label
    → length label ≤ 63
    → Fits before (x ∷ xs) label c (suc fuel)
    → ((f : ℕ)
        → fuel ≡ suc f
        → read_loop
            (suc (suc f))
            ((before ++ (length label ∷ map lower label)) ++ rest ++ (0 ∷ after))
            (past c label)
          ≡ some (
              ok (
                (past c label).out ++ dot (past c label).out ++ [] ++ map lower xs,
                length (before ++ (length label ∷ map lower label)) + length rest + 1,
              )))
    → read_loop
        (suc (suc fuel))
        (before ++ ((length label ∷ map lower label) ++ rest) ++ (0 ∷ after))
        c
      ≡ some (
          ok (
            c.out ++ dot c.out ++ map lower label ++ map lower (46 ∷ xs),
            length before + length ((length label ∷ map lower label) ++ rest) + 1,
          ))
dot_round x xs label before after c zero rest v h k s ih =
    absurd (omega (arith, labels_fit before (x ∷ xs) label c 1 s h))
dot_round x xs label before after c (suc f) rest v h k s ih =
    unfold lower in
    (ap (λ q. read_loop (suc (suc (suc f))) q c) (labelled-append before rest after label)
      ∙ label_step before (rest ++ (0 ∷ after)) (x ∷ xs) label c (suc (suc f)) v h k s
      ∙ ap (λ q. read_loop (suc (suc f)) q (past c label)) (behind-append before rest after label)
      ∙ ih f refl
      ∙ ap
          (λ q.
            some (ok (q, length (before ++ (length label ∷ map lower label)) + length rest + 1)))
          (dot_text (c.out ++ dot c.out ++ map lower label) (map lower xs) (
            omega
              (arith, h, length-append (c.out ++ dot c.out) (map lower label), length-lower label)))
      ∙ ap (λ n. some (ok (c.out ++ dot c.out ++ map lower label ++ (46 ∷ map lower xs), n)))
          (omega (
            arith,
            length-append before (length label ∷ map lower label),
            length-append (map lower label) rest,
          )))
