-- ===== src/Capnp/Reader/Contents.antt =====
-- The operations of the reader of cf_capnp.c: errors that stay, and the bytes that are read.
use esp_cf_tunnel.Prelude.{
  ℕ, ◌+◌, ◌*◌, ◌/◌, ◌≤◌, ◌≡◌, ◌≢◌, refl, Bool, true, false, none, [], ◌==◌, length, get_or, slice,
  drop, length-take, length-drop, arith, inl, inr, Bool-cases, ◌∙◌, ap,
}
use esp_cf_tunnel.Core.{Bytes}
use esp_cf_tunnel.Capnp.Checks.{
  Kind, null, struct, list, capability, Value, null_value, Reader, failed, range,
}
use esp_cf_tunnel.Capnp.Follow.{follow, root}
use esp_cf_tunnel.Capnp.Reader.{field, element, uint, bytes, data_of}
use esp_cf_tunnel.Capnp.Reader.Charges.{Within, range_lem, range_fails}

-- An error is sticky: after it no operation of the reader shows anything or changes the reader.
pub errors_stay :
    (r : Reader) (v : Value) (i width : ℕ) (text : Bool)
    → failed r ≡ true
    → (root r ≡ (null_value, r))
      × (field r v i ≡ (null_value, r))
      × (element r v i ≡ (null_value, r))
      × (uint r v i width ≡ (0, r))
      × (bytes r v text ≡ ([], r))
unfolding root follow field element uint bytes
errors_stay r v i width text h = (rw h, rw h, rw h, rw h, rw h)

data_of_list :
    (k : Kind) (r : Reader) (v : Value)
    → (data_of k r v false).1.error ≡ none
    → k ≢ null
    → Within r v.segment v.word ((v.count + 7) / 8)
      × ((data_of k r v false).0 ≡ slice (v.word * 8) v.count (get_or r.segments v.segment []))
unfolding data_of
data_of_list null r v e n = absurd (n refl)
data_of_list struct r v e n = cc
data_of_list capability r v e n = cc
data_of_list list r v e n =
    let (a, b) = range_lem r v.segment v.word ((v.count + 7) / 8) in
    elim (Bool-cases (v.element_size == 2)) [
      | inr t ↦ ground arith
      | inl t ↦ elim (Bool-cases (range r v.segment v.word ((v.count + 7) / 8)).0) [
        | inl u ↦ ground (arith, b u)
        | inr u ↦ ground (arith, range_fails r v.segment v.word ((v.count + 7) / 8) u)
      ]
    ]

length-slice : (at n : ℕ) (p : Bytes) → at + n ≤ length p → length (slice at n p) ≡ n
length-slice at n p h = omega (arith, length-take n (drop at p), length-drop at p)

-- A blob that is read without an error is exactly `count` bytes of its segment: the view neither
-- leaves the segment nor is cut short by its end.
bytes_lem :
    (r : Reader) (v : Value)
    → (bytes r v false).1.error ≡ none
    → v.kind ≢ null
    → (v.word * 8 + v.count ≤ length (get_or r.segments v.segment []))
      × ((bytes r v false).0 ≡ slice (v.word * 8) v.count (get_or r.segments v.segment []))
      × (length (bytes r v false).0 ≡ v.count)
unfolding bytes
bytes_lem r v e n = elim (Bool-cases (failed r)) [
  | inl f ↦ ground arith
  | inr f ↦
      let (w, s) = data_of_list v.kind r v (rw f at e) n in
      let fits : v.word * 8 + v.count ≤ length (get_or r.segments v.segment []) =
        omega (arith, w) in
      rw f (
        fits,
        s,
        ap length s ∙ length-slice (v.word * 8) v.count (get_or r.segments v.segment []) fits,
      )
]
