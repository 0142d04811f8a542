-- ===== src/Dns/Names/Edge.antt =====
-- `cf_dns_edge_target` of cf_dns.c.
use esp_cf_tunnel.Prelude.{
  ◌+◌, ◌-◌, ◌≤◌, ◌<◌, ◌≡◌, ◌↔◌, refl, sym, ap, ◌∙◌, true, [], ◌∷◌, ◌++◌, length, length-append,
  length-take, drop, take, take-append-drop, drop-append, arith,
}
use esp_cf_tunnel.Core.{Bytes}
use esp_cf_tunnel.Dns.Names.{same_text, edge_target, suffix, name_max}

pub same_text_iff : (xs ys : Bytes) → (same_text xs ys ≡ true) ↔ (xs ≡ ys)
unfolding same_text
same_text_iff xs ys = (forth xs ys, λ e. ap (λ q. same_text xs q) (sym e) ∙ back xs)
  where
    forth : (xs ys : Bytes) → same_text xs ys ≡ true → xs ≡ ys
    forth [] [] h = refl
    forth [] (y ∷ ys) h = cc
    forth (x ∷ xs) [] h = cc
    forth (x ∷ xs) (y ∷ ys) h =
        let first : x ≡ y = ground (arith, h) in
        let rest = forth xs ys (ground (arith, h)) in rw (first, rest) refl

    back : (xs : Bytes) → same_text xs xs ≡ true
    back [] = refl
    back (x ∷ xs) = ground (arith, back xs)

-- A name passes as an edge target exactly if it is some other text, not empty, with `.argotunnel.com` behind
-- it, and fits the limit on names: neither the bare domain nor a longer one with the same letters inside does.
edge_target_iff :
    (name : Bytes)
    → (edge_target name ≡ true)
      ↔ ((front : Bytes) × (name ≡ front ++ suffix) × (1 ≤ length front) × (length name ≤ name_max))
unfolding edge_target
edge_target_iff name = (forth, back)
  where
    forth :
        edge_target name ≡ true
        → (front : Bytes) × (name ≡ front ++ suffix) × (1 ≤ length front) × (length name ≤ name_max)
    forth h =
        let n = length name in
        let back_part : drop (n - 15) name ≡ suffix =
          (same_text_iff (drop (n - 15) name) suffix).0 (ground (arith, h)) in
        let long : 15 < n = ground (arith, h) in
        (
          take (n - 15) name,
          sym (take-append-drop (n - 15) name) ∙ ap (λ q. take (n - 15) name ++ q) back_part,
          omega (arith, long, length-take (n - 15) name),
          ground (arith, h),
        )

    back :
        (front : Bytes) × (name ≡ front ++ suffix) × (1 ≤ length front) × (length name ≤ name_max)
        → edge_target name ≡ true
    back (front, e, some_front, fits) =
        let size : length name ≡ length front + 15 = ap length e ∙ length-append front suffix in
        let cut : drop (length name - 15) name ≡ suffix =
          ap (λ k. drop k name) (omega (arith, size))
          ∙ ap (λ q. drop (length front) q) e
          ∙ drop-append front suffix in
        let same = (same_text_iff (drop (length name - 15) name) suffix).1 cut in
        ground (arith, same, size, some_front, fits)
