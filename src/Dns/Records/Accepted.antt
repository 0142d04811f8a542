-- ===== src/Dns/Records/Accepted.antt =====
-- What `cf_dns_parse` of cf_dns.c accepts.
use mathlib.Core.Path.{subst}
use esp_cf_tunnel.Prelude.{
  ℕ, zero, suc, ◌+◌, ◌-◌, ◌/◌, ◌≤◌, ◌≡◌, Bool, ◌||◌, ◌&&◌, not, none, List, [], ltb, ◌==◌,
  if◌then◌else◌, length, get_or, All, arith, inl, inr, Bool-cases, Option-cases,
}
use esp_cf_tunnel.Core.{
  Bytes, CfError, ok, err, ◌>>=◌, chain_ok, ok-injective, truncated, format, state,
}
use esp_cf_tunnel.Dns.Names.Edge.{same_text_iff}
use esp_cf_tunnel.Dns.Names.{same_text}
use esp_cf_tunnel.Dns.Query.{packet_max, is_type}
use esp_cf_tunnel.Dns.Records.{
  Record, record_max, u16_at, take_record, one_record, records_loop, parse_records, check_header,
  parse, u32_be, name_at,
}
use esp_cf_tunnel.Dns.Records.Usable.{IsUsable, take_record-All}

abbrev Fine : ℕ → List Record → Type 0
Fine type records = All (IsUsable type) records × (length records ≤ record_max)

-- A record behind its header: skipped, or taken up.
body_lem :
    (packet : Bytes) (type body len ttl : ℕ) (takes : Bool) (records : List Record)
    {out : List Record × ℕ}
    → Fine type records
    → (if ltb (length packet) body || ltb (length packet - body) len
        then err truncated
        else if takes
        then (take_record packet type body len ttl records >>= λ more. ok (more, body + len))
        else ok (records, body + len))
      ≡ ok out
    → Fine type out.0
body_lem packet type body len ttl takes records {out} v e =
    elim (Bool-cases (ltb (length packet) body || ltb (length packet - body) len)) [
      | inl t ↦ ground (arith, t, e)
      | inr t ↦ elim (Bool-cases takes) [
        | inr u ↦ subst (λ o. Fine type o.0) (ok-injective (rw (t, u) at e)) v
        | inl u ↦
            let (more, f, g) =
              chain_ok (take_record packet type body len ttl records) _ (rw (t, u) at e) in
            subst (λ o. Fine type o.0) (ok-injective g)
              (take_record-All packet type body len ttl records (ground (arith, t)) v.0 f)
      ]
    ]

one_record-Fine :
    (packet name : Bytes) (type : ℕ) (counted : Bool) (at : ℕ) (records : List Record)
    {out : List Record × ℕ}
    → Fine type records
    → one_record packet name type counted at records ≡ ok out
    → Fine type out.0
unfolding one_record
one_record-Fine packet name type counted at records {out} v e =
    let ((owner, next), _, f) = chain_ok (name_at packet at) _ e in
    body_lem packet type (next + 10) (u16_at packet (next + 8)) (u32_be packet (next + 4))
      (counted
        && u16_at packet next == type
        && u16_at packet (next + 2) == 1
        && same_text owner name)
      records v f

records_loop-Fine :
    (packet name : Bytes) (type answers left i at : ℕ) (records : List Record)
    {out : List Record × ℕ}
    → Fine type records
    → records_loop packet name type answers left i at records ≡ ok out
    → Fine type out.0
unfolding records_loop
records_loop-Fine packet name type answers zero i at records {out} v e =
    subst (λ o. Fine type o.0) (ok-injective e) v
records_loop-Fine packet name type answers (suc left) i at records {out} v e =
    let ((more, next), f, g) =
      chain_ok (one_record packet name type (ltb i answers) at records) _ e in
    records_loop-Fine packet name type answers left (i + 1) next more
      (one_record-Fine packet name type (ltb i answers) at records v f) g

cc_failed : {A : Type 0} {B : Type 0} {x : CfError} {a : A} → err x ≡ ok a → B
cc_failed h = cc

-- What an accepted response says: it answers this question, and every record is one that edge discovery may use.
pub record IsAnswer (packet name : Bytes) (type id : ℕ) (records : List Record) : Type 0 where
  pub bounded : length packet ≤ packet_max
  pub same_id : u16_at packet 0 ≡ id
  pub response : get_or packet 2 0 / 0x80 ≡ 1
  pub question : (at : ℕ) × (name_at packet 12 ≡ ok (name, at)) × (u16_at packet at ≡ type)
  pub found : 1 ≤ length records
  pub few : length records ≤ record_max
  pub usable : All (IsUsable type) records

check_header_lem :
    (packet : Bytes) (id : ℕ)
    → check_header packet id ≡ none
    → (length packet ≤ packet_max) × (u16_at packet 0 ≡ id) × (get_or packet 2 0 / 0x80 ≡ 1)
unfolding check_header
check_header_lem packet id h = (ground arith, ground arith, ground arith)

last_tests :
    (packet : Bytes) (type next : ℕ) (all : List Record) {records : List Record}
    → Fine type all
    → (if not (next == length packet)
        then err format
        else if length all == 0
        then err state
        else ok all)
      ≡ ok records
    → Fine type records × (1 ≤ length records)
last_tests packet type next all {records} v e = elim (Bool-cases (next == length packet)) [
  | inr t ↦ ground (arith, t, e)
  | inl t ↦ elim (Bool-cases (length all == 0)) [
    | inl u ↦ ground (arith, t, u, e)
    | inr u ↦
        subst (λ o. Fine type o × (1 ≤ length o)) (ok-injective (rw (t, u) at e))
          (v, ground (arith, u))
  ]
]

parse_records_lem :
    (packet name : Bytes) (type at : ℕ) {records : List Record}
    → parse_records packet name type at ≡ ok records
    → Fine type records × (1 ≤ length records)
unfolding parse_records
parse_records_lem packet name type at {records} e =
    let answers = u16_at packet 6 in
    let count = answers + u16_at packet 8 + u16_at packet 10 in
    elim (Bool-cases (ltb 64 count)) [
      | inl t ↦ ground (arith, t, e)
      | inr t ↦
          let ((all, next), f, g) =
            chain_ok (records_loop packet name type answers count 0 at []) _ (rw t at e) in
          last_tests packet type next all
            (records_loop-Fine packet name type answers count 0 at [] (tt, omega arith) f) g
    ]

-- A response that `cf_dns_parse` accepts carries the identifier of the question, holds between one and
-- sixteen records, and every address is unicast and every service is on the edge's port and domain.
pub parse-IsAnswer :
    (packet name : Bytes) (type id : ℕ) {records : List Record}
    → parse packet name type id ≡ ok records
    → IsAnswer packet name type id records
unfolding parse
parse-IsAnswer packet name type id {records} e = elim (Bool-cases (is_type type)) [
  | inr t ↦ ground (arith, t, e)
  | inl t ↦ elim (Option-cases (check_header packet id)) [
    | inr (x, h) ↦ cc_failed (rw (t, h) at e)
    | inl h ↦
        let ((owner, at), f, g) = chain_ok (name_at packet 12) _ (rw (t, h) at e) in
        let (bounded, same_id, response) = check_header_lem packet id h in
        elim (Bool-cases (
          not (same_text owner name)
          || ltb (length packet) (at + 4)
          || not (u16_at packet at == type)
          || not (u16_at packet (at + 2) == 1))) [
            | inl u ↦ cc_failed (rw u at g)
            | inr u ↦
                let ((usable, few), found) =
                  parse_records_lem packet name type (at + 4) (rw u at g) in
                record {
                  bounded = bounded;
                  same_id = same_id;
                  response = response;
                  question = (
                    at,
                    subst (λ o. name_at packet 12 ≡ ok (o, at))
                        ((same_text_iff owner name).0 (ground (arith, u))) f,
                    ground (arith, u),
                  );
                  found = found;
                  few = few;
                  usable = usable;
                }
          ]
  ]
]
