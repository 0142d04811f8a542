-- ===== src/Dns/Query/RoundTrip.antt =====
-- What `cf_dns_query` of cf_dns.c writes, `read_name` reads.
use mathlib.Core.List.{map-append}
use esp_cf_tunnel.Prelude.{
  ℕ, suc, ◌+◌, ◌≤◌, ◌≡◌, refl, sym, ap, ◌∙◌, true, ◌||◌, some, [], ◌∷◌, ◌++◌, map, ltb, ◌==◌,
  length, length-append, All-append, append_assoc, append-nil, arith, inl, inr, Bool-cases, ==_iff,
}
use esp_cf_tunnel.Core.{Bytes, ok, chain_ok, ok-injective}
use esp_cf_tunnel.Dns.Names.{lower, name_char, name_max, Cursor, dot, read_loop, read_name, rounds}
use esp_cf_tunnel.Dns.Query.{put_label, query_loop, query, query_header, be16, opt_record, is_type}
use esp_cf_tunnel.Dns.Query.Labels.{
  IsLabel, length-lower, put_label_lem, labelled, past, Fits, past-Fits,
}
use esp_cf_tunnel.Dns.Query.Rounds.{last_label, dot_round}

longer_text :
    (out label : Bytes) (x : ℕ) (rest : Bytes)
    → out ++ map lower (label ++ (x ∷ [])) ++ rest ≡ out ++ map lower label ++ (lower x ∷ rest)
longer_text out label x rest =
    ap (λ q. out ++ q ++ rest) (map-append lower label (x ∷ []))
    ∙ append_assoc out (map lower label ++ (lower x ∷ [])) rest
    ∙ ap (λ q. out ++ q) (append_assoc (map lower label) (lower x ∷ []) rest)
    ∙ sym (append_assoc out (map lower label) (lower x ∷ rest))

loop_round :
    (rest label before after : Bytes) (c : Cursor) (fuel : ℕ) {labels : Bytes}
    → IsLabel label
    → query_loop rest label ≡ ok labels
    → Fits before rest label c (suc fuel)
    → read_loop (suc (suc fuel)) (before ++ labels ++ (0 ∷ after)) c
      ≡ some (
          ok (
            c.out ++ dot c.out ++ map lower label ++ map lower rest,
            length before + length labels + 1,
          ))
unfolding query_loop
loop_round [] label before after c fuel {labels} v e s =
    let (h, k, form) = put_label_lem label e in
    let whole = last_label label before after c fuel v h k s in
    let place : before ++ (length label ∷ map lower label) ++ (0 ∷ after)
        ≡ labelled before (0 ∷ after) label =
      append_assoc before (length label ∷ map lower label) (0 ∷ after) in
    let size : length labels ≡ 1 + length label =
      ap length form ∙ omega (arith, length-lower label) in
    rw (form, append-nil (c.out ++ dot c.out ++ map lower label))
      (ap (λ q. read_loop (suc (suc fuel)) q c) place
        ∙ whole
        ∙ ap (λ n. some (ok (c.out ++ dot c.out ++ map lower label, length before + n + 1)))
            (omega (arith, length-lower label)))
loop_round (x ∷ xs) label before after c fuel {labels} v e s = elim (Bool-cases (x == 46)) [
  | inl t ↦
      let (out, e1, chained) = chain_ok (put_label label) _ (rw t at e) in
      let (rest, e2, g) = chain_ok (query_loop xs []) _ chained in
      let (h, k, form) = put_label_lem label e1 in
      let cut_labels : labels ≡ (length label ∷ map lower label) ++ rest =
        sym (ok-injective g) ∙ ap (λ q. q ++ rest) form in
      let next = past-Fits x before xs label c fuel h s in
      let ends = dot_round x xs label before after c fuel rest v h k s (λ f w.
        loop_round xs [] (before ++ (length label ∷ map lower label)) after (past c label) f tt e2
          (rw w at next)) in
      rw cut_labels ends
      ∙ ap
          (λ y. some (
            ok (
              c.out ++ dot c.out ++ map lower label ++ map lower (y ∷ xs),
              length before + length labels + 1,
            )))
          (sym ((==_iff x 46).0 t))
  | inr t ↦ elim (Bool-cases (name_char (lower x))) [
    | inr u ↦ ground (arith, t, u, e)
    | inl u ↦
        let longer : query_loop xs (label ++ (x ∷ [])) ≡ ok labels = rw (t, u) at e in
        let size = length-append label (x ∷ []) in
        let fits : Fits before xs (label ++ (x ∷ [])) c (suc fuel) = record {
          here = s.here;
          straight = s.straight;
          few = s.few;
          first = s.first;
          room = omega (arith, s.room, size);
          enough = s.enough;
        } in
        let all = All-append (λ y. name_char (lower y) ≡ true) label (x ∷ []) v (u, tt) in
        let text : c.out ++ dot c.out ++ map lower (label ++ (x ∷ [])) ++ map lower xs
            ≡ c.out ++ dot c.out ++ map lower label ++ map lower (x ∷ xs) =
          longer_text (c.out ++ dot c.out) label x (map lower xs) in
        loop_round xs (label ++ (x ∷ [])) before after c fuel all longer fits
        ∙ ap (λ q. some (ok (q, length before + length labels + 1))) text
  ]
]

length-query_loop :
    (rest label : Bytes) {labels : Bytes}
    → query_loop rest label ≡ ok labels
    → length labels ≡ length label + length rest + 1
unfolding query_loop
length-query_loop [] label e =
    let (h, k, form) = put_label_lem label e in ap length form ∙ omega (arith, length-lower label)
length-query_loop (x ∷ xs) label {labels} e = elim (Bool-cases (x == 46)) [
  | inl t ↦
      let (out, e1, chained) = chain_ok (put_label label) _ (rw t at e) in
      let (rest, e2, g) = chain_ok (query_loop xs []) _ chained in
      let (h, k, form) = put_label_lem label e1 in
      sym (ap length (ok-injective g))
      ∙ omega (
        arith,
        length-append out rest,
        length-query_loop xs [] e2,
        ap length form,
        length-lower label,
      )
  | inr t ↦ elim (Bool-cases (name_char (lower x))) [
    | inr u ↦ ground (arith, t, u, e)
    | inl u ↦ omega (
      arith,
      length-query_loop xs (label ++ (x ∷ [])) (rw (t, u) at e),
      length-append label (x ∷ []),
    )
  ]
]

abbrev question : ℕ → Bytes
question type = be16 type ++ be16 1 ++ opt_record

tail_form :
    (front : Bytes) (type : ℕ)
    → front ++ (0 ∷ []) ++ be16 type ++ be16 1 ++ opt_record ≡ front ++ (0 ∷ question type)
tail_form front type =
    append_assoc (front ++ (0 ∷ []) ++ be16 type) (be16 1) opt_record
    ∙ append_assoc (front ++ (0 ∷ [])) (be16 type) (be16 1 ++ opt_record)
    ∙ append_assoc front (0 ∷ []) (be16 type ++ be16 1 ++ opt_record)

-- A query is the header, the labels, and the rest of the question with the OPT record.
query_form :
    (name : Bytes) (type id capacity : ℕ) {out : Bytes}
    → query name type id capacity ≡ ok out
    → (labels : Bytes) × (query_loop name [] ≡ ok labels)
      × (out ≡ query_header id ++ labels ++ (0 ∷ question type))
      × (1 ≤ length name)
      × (length name ≤ name_max)
      × (length name + 29 ≤ capacity)
unfolding query
query_form name type id capacity {out} e = elim (Bool-cases (is_type type)) [
  | inr t ↦ ground (arith, t, e)
  | inl t ↦
      elim (Bool-cases
        (length name == 0 || ltb name_max (length name) || ltb capacity (length name + 29))) [
          | inl u ↦ ground (arith, t, u, e)
          | inr u ↦
              let (labels, f, g) = chain_ok (query_loop name []) _ (rw (t, u) at e) in
              (
                labels,
                f,
                sym (ok-injective g) ∙ tail_form (query_header id ++ labels) type,
                ground (arith, u),
                ground (arith, u),
                ground (arith, u),
              )
        ]
]

-- A query that `cf_dns_query` writes fits the buffer, has twenty-nine bytes besides the name, and reading
-- the name of its question gives the name in lower case and ends behind it.
pub read_name-query :
    (name : Bytes) (type id capacity : ℕ) {out : Bytes}
    → query name type id capacity ≡ ok out
    → (length out ≡ length name + 29)
      × (length out ≤ capacity)
      × (read_name out 12 ≡ some (ok (map lower name, length name + 14)))
unfolding read_name
read_name-query name type id capacity {out} e =
    let (labels, f, form, some_name, small, room) = query_form name type id capacity e in
    let size = length-query_loop name [] f in
    let start : Cursor = record { at = 12; out = []; resume = 0; hops = 0; labels = 0 } in
    let fits : Fits (query_header id) name [] start 143 = record {
      here = refl;
      straight = refl;
      few = omega arith;
      first = λ h. refl;
      room = omega (arith, small);
      enough = omega arith;
    } in
    let found = loop_round name [] (query_header id) (question type) start 142 tt f fits in
    let whole : length out ≡ length name + 29 =
      ap length form
      ∙ omega (
        arith,
        size,
        length-append (query_header id ++ labels) (0 ∷ question type),
        length-append (query_header id) labels,
      ) in
    (
      whole,
      omega (arith, whole, room),
      ap (λ q. read_loop rounds q start) form
          ∙ found
          ∙ ap (λ n. some (ok (map lower name, n))) (omega (arith, size)),
    )
