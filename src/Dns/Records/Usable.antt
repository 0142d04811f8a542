-- ===== src/Dns/Records/Usable.antt =====
-- The records that `cf_dns_parse` of cf_dns.c takes up.
use mathlib.Core.Path.{subst}
use esp_cf_tunnel.Prelude.{
  ℕ, ◌+◌, ◌≤◌, ◌<◌, ◌≡◌, ◌≢◌, true, ◌||◌, not, List, [], ◌∷◌, ltb, leb, ◌==◌, if◌then◌else◌, length,
  length-append, length-take, length-drop, drop, get_or, slice, All, All-append, arith, inl, inr,
  Bool-cases, ==_iff,
}
use esp_cf_tunnel.Core.{Bytes, ok, err, chain_ok, ok-injective, unsupported}
use esp_cf_tunnel.Dns.Names.{edge_target}
use esp_cf_tunnel.Dns.Records.{
  Record, empty_record, edge_port, record_max, u16_at, a_record, srv_record, take_record, name_at,
}

-- An address that edge discovery may use is unicast and not a loopback.
pub record IsAddress (r : Record) : Type 0 where
  pub whole : length r.ip ≡ 4
  pub first : 1 ≤ get_or r.ip 0 0
  pub unicast : get_or r.ip 0 0 < 224
  pub routed : get_or r.ip 0 0 ≢ 127

-- A service that edge discovery may use is on the edge's port and under the edge's domain.
pub record IsEdge (r : Record) : Type 0 where
  pub port : r.port ≡ edge_port
  pub target : edge_target r.target ≡ true

-- What the type of the question asks of a record.
abbrev pub IsUsable : ℕ → Record → Type 0
IsUsable type r = (type ≡ 1 → IsAddress r) × (type ≢ 1 → IsEdge r)

pub a_record-IsAddress :
    (packet : Bytes) (at len ttl : ℕ) {r : Record}
    → at + len ≤ length packet
    → a_record packet at len ttl ≡ ok r
    → IsAddress r
unfolding a_record
a_record-IsAddress packet at len ttl {r} h e =
    let ip = slice at 4 packet in
    let first = get_or ip 0 0 in
    elim (Bool-cases (len == 4)) [
      | inr t ↦ ground (arith, t, e)
      | inl t ↦ elim (Bool-cases (first == 0 || leb 224 first || first == 127)) [
        | inl u ↦ ground (arith, t, u, e)
        | inr u ↦
            let four = (==_iff len 4).0 t in
            subst IsAddress (ok-injective (rw (t, u) at e)) (record {
              whole = omega (arith, h, four, length-take 4 (drop at packet), length-drop at packet);
              first = ground (arith, u);
              unicast = ground (arith, u);
              routed = ground (arith, u);
            })
      ]
    ]

pub service_lem :
    (target : Bytes) (next end priority weight port ttl : ℕ) {r : Record}
    → (if not (next == end) || not (port == edge_port) || not (edge_target target)
        then err unsupported
        else ok (record (empty_record ttl) {
          target = target;
          priority = priority;
          weight = weight;
          port = port;
        }))
      ≡ ok r
    → IsEdge r
service_lem target next end priority weight port ttl {r} e =
    elim (Bool-cases (not (next == end) || not (port == edge_port) || not (edge_target target))) [
      | inl t ↦ ground (arith, t, e)
      | inr t ↦
          subst IsEdge (ok-injective (rw t at e))
            (record { port = ground (arith, t); target = ground (arith, t) })
    ]

pub srv_record-IsEdge :
    (packet : Bytes) (at len ttl : ℕ) {r : Record} → srv_record packet at len ttl ≡ ok r → IsEdge r
unfolding srv_record
srv_record-IsEdge packet at len ttl {r} e = elim (Bool-cases (ltb len 7)) [
  | inl t ↦ ground (arith, t, e)
  | inr t ↦
      let ((target, next), _, f) = chain_ok (name_at packet (at + 6)) _ (rw t at e) in
      service_lem target next (at + len) (u16_at packet at) (u16_at packet (at + 2))
        (u16_at packet (at + 4)) ttl f
]

pub take_record-All :
    (packet : Bytes) (type at len ttl : ℕ) (records : List Record) {more : List Record}
    → at + len ≤ length packet
    → All (IsUsable type) records
    → take_record packet type at len ttl records ≡ ok more
    → All (IsUsable type) more × (length more ≤ record_max)
unfolding take_record
take_record-All packet type at len ttl records {more} h v e =
    elim (Bool-cases (leb record_max (length records))) [
      | inl t ↦ ground (arith, t, e)
      | inr t ↦
          let (r, f, g) =
            chain_ok
              (if type == 1 then a_record packet at len ttl else srv_record packet at len ttl) _
              (rw t at e) in
          let room : length records < record_max = ground (arith, t) in
          let usable : IsUsable type r = elim (Bool-cases (type == 1)) [
            | inl u ↦ (
              λ k. a_record-IsAddress packet at len ttl h (rw u at f),
              λ k. absurd (k ((==_iff type 1).0 u)),
            )
            | inr u ↦
                (λ k. ground (arith, u, k), λ k. srv_record-IsEdge packet at len ttl (rw u at f))
          ] in
          subst (λ m. All (IsUsable type) m × (length m ≤ record_max)) (ok-injective g)
            (
              All-append (IsUsable type) records (r ∷ []) v (usable, tt),
              omega (arith, length-append records (r ∷ []), room),
            )
    ]
