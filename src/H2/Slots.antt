-- ===== src/H2/Slots.antt =====
-- The changes of the stream table that the callbacks of cf_h2.c make.
use mathlib.Core.Path.{subst}
use esp_cf_tunnel.Prelude.{
  ℕ, ◌+◌, ◌≤◌, ◌<◌, ◌≡◌, ◌≢◌, refl, sym, ◌∙◌, true, false, none, some, List, [], ◌==◌, arith,
  Bool-cases, inl, inr, ◌⊎◌, ==_iff,
}
use esp_cf_tunnel.Core.{u32}
use esp_cf_tunnel.Headers.{Header}
use esp_cf_tunnel.H2.{Kind, http, control, config, same_kind, Stream, find_stream, update}
use esp_cf_tunnel.H2.Frame.{count, served, is_served, limit_of, fresh_slot}
use esp_cf_tunnel.H2.Table.{
  length-update, update-All, All-map, All-both, absent-All, count-le, count-update, count-update-le,
  find_id, count-absent,
}
use esp_cf_tunnel.H2.Invariant.{Fits, SlotFits, is_used, total_bytes, has_id, count-update-same}

-- No headers are being received.
pub between-Fits :
    {apps used at active : ℕ} {streams : List Stream} {headers : List Header}
    → Fits apps streams headers used at active
    → Fits apps streams headers used 0 active
between-Fits {at} {streams} v = record {
  size = v.size;
  counted = v.counted;
  slots =
      All-map (SlotFits at) (SlotFits 0) (λ s b. (b.0, λ z d. ground (arith, b.0 z, d))) streams
        v.slots;
  alone = v.alone;
  admitted = v.admitted;
  few = v.few;
  fits = v.fits;
  stored = v.stored;
}

pub taken-Fits :
    {apps used at active : ℕ} {streams : List Stream} {headers : List Header} (id now : ℕ)
    (slot : Stream)
    → Fits apps streams headers used at active
    → find_stream streams 0 ≡ some slot
    → find_stream streams id ≡ none
    → id ≢ 0
    → Fits apps (update streams 0 (λ s. fresh_slot id now)) [] 0 id (u32 (active + 1))
unfolding total_bytes
taken-Fits {at} {streams} id now slot v found absent id_used =
    let fresh = λ (s : Stream). fresh_slot id now in
    record {
      size = length-update streams 0 fresh ∙ v.size;
      counted =
          let before = count-update is_used streams 0 fresh slot found in
          let most = count-le is_used (update streams 0 fresh) in
          let size = length-update streams 0 fresh in
          let empty = find_id streams 0 slot found in
          ground (arith, before, most, size, v.size, empty, v.counted, id_used);
      slots =
          update-All (λ s. SlotFits at s × (s.id ≢ id)) (SlotFits id) 0 fresh
            (λ s b. (b.0.0, λ z d. absurd (b.1 z))) (λ s e b. (λ z. refl, λ z d. ground (arith, d)))
            streams
            (All-both (SlotFits at) (λ s. s.id ≢ id) streams v.slots
              (absent-All streams id absent));
      alone = λ i u.
          let after = count-update (has_id i) streams 0 fresh slot found in
          let none_yet = count-absent streams id absent in
          elim (Bool-cases (id == i)) [
            | inl e ↦
                let same : id ≡ i = ground (arith, e, ==_iff id i) in
                let none_i = subst (λ x. count (has_id x) streams ≡ 0) same none_yet in
                ground (arith, after, none_i)
            | inr e ↦ ground (arith, after, e, v.alone i u)
          ];
      admitted = λ k.
          let less = count-update-le (is_served k) streams 0 fresh (λ s t. ground (arith, t)) in
          omega (arith, less, v.admitted k);
      few = omega arith;
      fits = omega arith;
      stored = refl;
    }

-- The kind of a stream that is not served may change.
pub kind-Fits :
    {apps used at active : ℕ} {streams : List Stream} {headers : List Header} (id : ℕ) (k : Kind)
    (s : Stream)
    → Fits apps streams headers used at active
    → find_stream streams id ≡ some s
    → s.headers_done ≡ false
    → Fits apps (update streams id (λ s. record s { kind = k })) headers used at active
kind-Fits {at} {streams} id k s v found waiting =
    let f = λ (s : Stream). record s { kind = k } in
    record {
      size = length-update streams id f ∙ v.size;
      counted =
          let same = count-update is_used streams id f s found in omega (arith, same, v.counted);
      alone = λ i u.
          let same = count-update-same (has_id i) streams id f (λ s. refl) in
          omega (arith, same, v.alone i u);
      slots = update-All (SlotFits at) (SlotFits at) id f (λ s b. b) (λ s e b. b) streams v.slots;
      admitted = λ l.
          let same = count-update (is_served l) streams id f s found in
          ground (arith, same, waiting, v.admitted l);
      few = v.few;
      fits = v.fits;
      stored = v.stored;
    }

kinds : (k l : Kind) → (k ≡ l) ⊎ (same_kind k l ≡ false)
kinds http http = inl refl
kinds control control = inl refl
kinds config config = inl refl
kinds http control = inr refl
kinds http config = inr refl
kinds control http = inr refl
kinds control config = inr refl
kinds config http = inr refl
kinds config control = inr refl

-- A stream is served from now on, if its kind has room.
pub serve-Fits :
    {apps used at active : ℕ} {streams : List Stream} {headers : List Header} (id : ℕ) (k : Kind)
    (s : Stream)
    → Fits apps streams headers used at active
    → find_stream streams id ≡ some s
    → s.kind ≡ k
    → id ≢ 0
    → served k streams < limit_of apps k
    → Fits apps (update streams id (λ s. record s { headers_done = true })) headers used 0 active
serve-Fits {apps} {at} {streams} id k s v found kind id_used room =
    let f = λ (s : Stream). record s { headers_done = true } in
    record {
      size = length-update streams id f ∙ v.size;
      counted =
          let same = count-update is_used streams id f s found in omega (arith, same, v.counted);
      alone = λ i u.
          let same = count-update-same (has_id i) streams id f (λ s. refl) in
          omega (arith, same, v.alone i u);
      slots =
          update-All (SlotFits at) (SlotFits 0) id f (λ s b. (b.0, λ z d. ground (arith, b.0 z, d)))
            (λ s e b. (λ z. absurd (id_used (sym e ∙ z)), λ z d. absurd (id_used (sym e ∙ z))))
            streams v.slots;
      admitted = λ l.
          let after = count-update (is_served l) streams id f s found in
          elim (kinds k l) [
            | inl e ↦
                subst (λ x. served x (update streams id f) ≤ limit_of apps x) e
                  (ground (arith, count-update (is_served k) streams id f s found, room))
            | inr e ↦ ground (arith, after, kind, e, v.admitted l)
          ];
      few = v.few;
      fits = v.fits;
      stored = v.stored;
    }
