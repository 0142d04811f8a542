-- ===== src/H2/Callbacks.antt =====
-- The callbacks of cf_h2.c keep the adapter valid.
use mathlib.Core.Path.{subst}
use mathlib.Core.Option.{some-injective}
use esp_cf_tunnel.Prelude.{
  ℕ, ◌+◌, ◌≤◌, ◌≡◌, ◌≢◌, refl, sym, Bool, true, false, none, some, List, [], ◌∷◌, ◌++◌, ◌==◌,
  length, All, arith, Bool-cases, Option-cases, inl, inr, ==_iff, length-append,
}
use esp_cf_tunnel.Core.{Bytes}
use esp_cf_tunnel.Headers.{Header}
use esp_cf_tunnel.H2.{
  Stream, Engine, Outside, header_max, header_bytes_max, find_stream, update, reset, reset_stream,
  refused_stream, protocol_error, enhance_your_calm,
}
use esp_cf_tunnel.H2.Frame.{count, Frame, is_rejected}
use esp_cf_tunnel.H2.Receive.{begin_headers, on_header}
use esp_cf_tunnel.H2.Slots.{between-Fits, taken-Fits}
use esp_cf_tunnel.H2.Invariant.{
  Fits, IsValid, SlotFits, total_bytes, FitsAt, has_id, reset_stream-FitsAt,
}

abbrev entry : Bytes → Bytes → Header
entry name value = record { name = name; value = value }

total_bytes-append :
    (hs : List Header) (name value : Bytes)
    → total_bytes (hs ++ (entry name value ∷ [])) ≡ total_bytes hs + length name + length value
unfolding total_bytes
total_bytes-append [] name value = omega arith
total_bytes-append (h ∷ hs) name value = omega (arith, total_bytes-append hs name value)

-- A header that fits the scratch area is stored.
stored-Fits :
    {apps used at active : ℕ} {streams : List Stream} {headers : List Header} (name value : Bytes)
    → Fits apps streams headers used at active
    → (length headers ≢ header_max) × (used + length name + length value ≤ header_bytes_max)
    → Fits apps streams
        (headers ++ (entry name value ∷ []))
        (used + length name + length value)
        at
        active
stored-Fits {headers} name value v (few, room) = record {
  size = v.size;
  counted = v.counted;
  slots = v.slots;
  alone = v.alone;
  admitted = v.admitted;
  few = omega (arith, length-append headers (entry name value ∷ []), v.few, few);
  fits = room;
  stored = omega (arith, total_bytes-append headers name value, v.stored);
}

-- What a callback leaves: the adapter is valid if the callback returns 0, and else it still keeps its
-- bounds, but the headers of the last stream are not looked at again.
abbrev pub Leaves : {W : Type 0} → Bool × Engine W → Type 0
Leaves (fine, h) = (fine ≡ true → IsValid h) × FitsAt 0 h

pub leaves : {W : Type 0} (fine : Bool) (h : Engine W) → IsValid h → Leaves (fine, h)
leaves fine h v = (λ e. v, between-Fits v)

pub others-All :
    (ss : List Stream) (id : ℕ)
    → count (has_id id) ss ≡ 0
    → All (SlotFits 0) ss
    → All (SlotFits id) ss
unfolding count
others-All [] id h a = tt
others-All (s ∷ ss) id h (one, rest) = (
  (one.0, λ z d. ground (arith, h, z, ==_iff s.id id)),
  others-All ss id (ground (arith, h)) rest,
)

-- A stream that is marked as reset may hold the headers that are being received.
pub reset-All :
    (ss : List Stream) (id : ℕ)
    → count (has_id id) ss ≤ 1
    → All (SlotFits 0) ss
    → All (SlotFits id) (update ss id (λ s. record s { is_reset = true }))
unfolding update count
reset-All [] id h a = tt
reset-All (s ∷ ss) id h (one, rest) = elim (Bool-cases (s.id == id)) [
  | inl e ↦ rw (update, e) ((one.0, λ z d. refl), others-All ss id (ground (arith, e, h)) rest)
  | inr e ↦
      rw (update, e)
        (
          (one.0, λ z d. ground (arith, e, z, ==_iff s.id id)),
          reset-All ss id (ground (arith, e, h)) rest,
        )
]

pub found_reset-All :
    (ss : List Stream) (id : ℕ) (s : Stream)
    → find_stream ss id ≡ some s
    → s.is_reset ≡ true
    → count (has_id id) ss ≤ 1
    → All (SlotFits 0) ss
    → All (SlotFits id) ss
unfolding find_stream count
found_reset-All [] id s f r h a = tt
found_reset-All (t ∷ ss) id s f r h (one, rest) = elim (Bool-cases (t.id == id)) [
  | inl e ↦
      let same : t ≡ s = some-injective t s (rw (find_stream, e) at f) in
      let marked : t.is_reset ≡ true = subst (λ x. x.is_reset ≡ true) (sym same) r in
      ((one.0, λ z d. marked), others-All ss id (ground (arith, e, h)) rest)
  | inr e ↦ (
    (one.0, λ z d. ground (arith, e, z, ==_iff t.id id)),
    found_reset-All ss id s (rw (find_stream, e) at f) r (ground (arith, e, h)) rest,
  )
]

module _ {W : Type 0} (o : Outside W) where
  pub header_stream-reset_stream :
      (h : Engine W) (id code : ℕ) → (reset_stream o h id code).1.header_stream ≡ h.header_stream
  unfolding reset_stream reset
  header_stream-reset_stream h id code = ground arith

  pub reset_stream-Leaves :
      (h : Engine W) (id code : ℕ) → IsValid h → Leaves (reset_stream o h id code)
  reset_stream-Leaves h id code v =
      let after = reset_stream-FitsAt o h.header_stream h id code v in
      (λ e. rw (header_stream-reset_stream h id code) after, between-Fits after)

  pub begin_headers-Leaves :
      (h : Engine W) (f : Frame)
      → IsValid h
      → f.id ≢ 0
      → (f.is_request ≡ true → find_stream h.streams f.id ≡ none)
      → Leaves (begin_headers o h f)
  unfolding begin_headers
  begin_headers-Leaves h f v id_used absent =
      let h0 = record h { header_stream = 0 } in
      elim (Bool-cases f.is_request) [
        | inr t ↦
            rw (begin_headers, t) (reset_stream-Leaves h0 f.id protocol_error (between-Fits v))
        | inl t ↦
            rw (begin_headers, t)
              (elim (Option-cases (find_stream h.streams 0)) [
                | inl k ↦ rw k (reset_stream-Leaves h0 f.id refused_stream (between-Fits v))
                | inr (slot, k) ↦
                    let taken = taken-Fits f.id h.now_ms slot v k (absent t) id_used in
                    rw k (λ e. taken, between-Fits taken)
              ])
      ]

  room :
      (h : Engine W) (name value : Bytes)
      → IsValid h
      → is_rejected h.headers h.header_used name value ≡ false
      → (length h.headers ≢ header_max)
        × (h.header_used + length name + length value ≤ header_bytes_max)
  unfolding is_rejected
  room h name value v k = ground (arith, k, v.fits)

  -- The headers that are stored fit the scratch area.
  pub on_header-Leaves :
      (h : Engine W) (id : ℕ) (name value : Bytes)
      → IsValid h
      → Leaves (on_header o h id name value)
  unfolding on_header is_rejected
  on_header-Leaves h id name value v = elim (Bool-cases (h.header_stream == id)) [
    | inr t ↦ rw (on_header, t) (leaves true h v)
    | inl t ↦
        rw (on_header, t)
          (elim (Bool-cases (is_rejected h.headers h.header_used name value)) [
            | inl k ↦ rw k (
                reset_stream-Leaves (record h { header_stream = 0 }) id enhance_your_calm
                  (between-Fits v))
            | inr k ↦
                let longer = stored-Fits name value v (room h name value v k) in
                rw k (λ e. longer, between-Fits longer)
          ])
  ]
