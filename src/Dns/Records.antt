-- ===== src/Dns/Records.antt =====
-- `cf_dns_parse` of cf_dns.c.
pub mod Usable
pub mod Accepted
use esp_cf_tunnel.Prelude.{
  ℕ, zero, suc, ◌+◌, ◌-◌, ◌*◌, ◌/◌, ◌%◌, Bool, true, false, ◌||◌, ◌&&◌, not, Option, none, some,
  List, [], ◌∷◌, ◌++◌, ltb, leb, ◌==◌, if◌then◌else◌, length, get_or, slice,
}
use esp_cf_tunnel.Core.{
  Bytes, CfError, CfResult, Result, ok, err, ◌>>=◌, argument, format, limit, unsupported, state,
  truncated,
}
use esp_cf_tunnel.Dns.Names.{read_name, same_text, edge_target}
use esp_cf_tunnel.Dns.Query.{packet_max, is_type}

abbrev pub edge_port : ℕ
edge_port = 7844

abbrev pub record_max : ℕ
record_max = 16

-- `cf_dns_record`
pub record Record : Type 0 where
  pub target : Bytes
  pub ip : Bytes
  pub priority : ℕ
  pub weight : ℕ
  pub port : ℕ
  pub ttl : ℕ

-- `u16` and `u32` of this file: the highest byte first.
unfoldable pub u16_at : Bytes → ℕ → ℕ
u16_at p at = get_or p at 0 * 0x100 + get_or p (at + 1) 0

unfoldable pub u32_be : Bytes → ℕ → ℕ
u32_be p at = u16_at p at * 0x1_0000 + u16_at p (at + 2)

-- The loop of `read_name` ends, so the last case is never met.
abbrev pub finished : Option (Result (Bytes × ℕ)) → Result (Bytes × ℕ)
finished (some r) = r
finished none = err state

abbrev pub name_at : Bytes → ℕ → Result (Bytes × ℕ)
name_at packet at = finished (read_name packet at)

abbrev pub empty_record : ℕ → Record
empty_record ttl = record {
  target = [];
  ip = 0 ∷ 0 ∷ 0 ∷ 0 ∷ [];
  priority = 0;
  weight = 0;
  port = 0;
  ttl = ttl;
}

-- An address record of `len` bytes at `at`.
unfoldable pub a_record : Bytes → ℕ → ℕ → ℕ → Result Record
a_record packet at len ttl =
    let ip = slice at 4 packet in
    let first = get_or ip 0 0 in
    if not (len == 4)
    then err format
    else if first == 0 || leb 224 first || first == 127
    then err format
    else ok (record (empty_record ttl) { ip = ip })

-- A service record of `len` bytes at `at`.
unfoldable pub srv_record : Bytes → ℕ → ℕ → ℕ → Result Record
srv_record packet at len ttl =
    if ltb len 7
    then err format
    else name_at packet (at + 6) >>= λ (target, next).
        (let r = record (empty_record ttl) {
          target = target;
          priority = u16_at packet at;
          weight = u16_at packet (at + 2);
          port = u16_at packet (at + 4);
        } in
          if not (next == at + len) || not (r.port == edge_port) || not (edge_target target)
          then err unsupported
          else ok r)

-- Take up a record that answers the question.
unfoldable pub take_record : Bytes → ℕ → ℕ → ℕ → ℕ → List Record → Result (List Record)
take_record packet type at len ttl records =
    if leb record_max (length records)
    then err limit
    else (if type == 1 then a_record packet at len ttl else srv_record packet at len ttl) >>= λ r.
        ok (records ++ (r ∷ []))

-- One round of the loop over the records; `counted` is `i < answers`.
unfoldable pub one_record : Bytes → Bytes → ℕ → Bool → ℕ → List Record → Result (List Record × ℕ)
one_record packet name type counted at records = name_at packet at >>= λ (owner, next).
    (let len = u16_at packet (next + 8) in
      let body = next + 10 in
      if ltb (length packet) (next + 10) || ltb (length packet - body) len
      then err truncated
      else if counted
          && u16_at packet next == type
          && u16_at packet (next + 2) == 1
          && same_text owner name
      then (take_record packet type body len (u32_be packet (next + 4)) records >>= λ more.
          ok (more, body + len))
      else ok (records, body + len))

-- The loop, with `left` records to go from record `i` on.
unfoldable pub records_loop :
    Bytes → Bytes → ℕ → ℕ → ℕ → ℕ → ℕ → List Record → Result (List Record × ℕ)
records_loop packet name type answers zero i at records = ok (records, at)
records_loop packet name type answers (suc left) i at records =
    one_record packet name type (ltb i answers) at records >>= λ (more, next).
    records_loop packet name type answers left (i + 1) next more

-- The records behind the question, which ends at `at`.
unfoldable pub parse_records : Bytes → Bytes → ℕ → ℕ → Result (List Record)
parse_records packet name type at =
    let answers = u16_at packet 6 in
    let count = answers + u16_at packet 8 + u16_at packet 10 in
    if ltb 64 count
    then err limit
    else records_loop packet name type answers count 0 at [] >>= λ (records, next).
        (if not (next == length packet)
          then err format
          else if length records == 0
          then err state
          else ok records)

-- The checks of the header.
unfoldable pub check_header : Bytes → ℕ → CfResult
check_header packet id =
    let flags = get_or packet 2 0 in
    if ltb (length packet) 12
    then some truncated
    else if ltb packet_max (length packet)
    then some limit
    else if not (u16_at packet 0 == id) || not (flags / 8 == 16) || not (u16_at packet 4 == 1)
    then some format
    else if flags / 2 % 2 == 1
    then some truncated
    else if not (get_or packet 3 0 % 16 == 0)
    then some state
    else none

abbrev pub unless_failed {ℓ} : {A : Type ℓ} → CfResult → Result A → Result A
unless_failed none r = r
unless_failed (some e) r = err e

-- `cf_dns_parse`: the records of the answer. A failure leaves the answer empty.
unfoldable pub parse : Bytes → Bytes → ℕ → ℕ → Result (List Record)
parse packet name type id =
    if not (is_type type)
    then err argument
    else unless_failed (check_header packet id) (
        name_at packet 12 >>= λ (owner, at).
        (if not (same_text owner name)
            || ltb (length packet) (at + 4)
            || not (u16_at packet at == type)
            || not (u16_at packet (at + 2) == 1)
          then err format
          else parse_records packet name type (at + 4)))
