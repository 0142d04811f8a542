-- ===== src/Dns/Query.antt =====
-- `cf_dns_query` of cf_dns.c.
pub mod Labels
pub mod Rounds
pub mod RoundTrip
use esp_cf_tunnel.Prelude.{
  ℕ, zero, suc, ◌+◌, ◌-◌, ◌*◌, ◌/◌, ◌%◌, Bool, true, false, ◌||◌, ◌&&◌, not, List, [], ◌∷◌, ◌++◌,
  map, ltb, leb, ◌==◌, if◌then◌else◌, length, replicate,
}
use esp_cf_tunnel.Core.{Bytes, CfError, Result, ok, err, ◌>>=◌, argument, limit, u8}
use esp_cf_tunnel.Dns.Names.{lower, name_char, name_max}

abbrev pub packet_max : ℕ
packet_max = 1232

-- `put16`
abbrev pub be16 : ℕ → Bytes
be16 n = u8 (n / 0x100) ∷ u8 n ∷ []

abbrev pub is_type : ℕ → Bool
is_type type = type == 1 || type == 33

-- The end of a label: its length and its characters.
unfoldable pub put_label : Bytes → Result Bytes
put_label label =
    if length label == 0 || ltb 63 (length label)
    then err argument
    else ok (u8 (length label) ∷ map lower label)

-- The loop: `label` holds the characters from `start` to `i`, and the list what `name` has from `i` on.
unfoldable pub query_loop : Bytes → Bytes → Result Bytes
query_loop [] label = put_label label
query_loop (c ∷ cs) label =
    let next = query_loop cs [] in
    let longer = query_loop cs (label ++ (c ∷ [])) in
    if c == 46
    then (put_label label >>= λ out. next >>= λ rest. ok (out ++ rest))
    else if name_char (lower c)
    then longer
    else err argument

-- One question, recursion desired, one additional record.
abbrev pub query_header : ℕ → Bytes
query_header id = be16 id ++ (1 ∷ 0 ∷ 0 ∷ 1 ∷ 0 ∷ 0 ∷ 0 ∷ 0 ∷ 0 ∷ 1 ∷ [])

-- The EDNS0 OPT record.
abbrev pub opt_record : Bytes
opt_record = (0 ∷ []) ++ be16 41 ++ be16 packet_max ++ replicate 6 0

-- `cf_dns_query` with a buffer of `capacity` bytes: the bytes written.
unfoldable pub query : Bytes → ℕ → ℕ → ℕ → Result Bytes
query name type id capacity =
    let n = length name in
    if not (is_type type)
    then err argument
    else if n == 0 || ltb name_max n || ltb capacity (n + 29)
    then err limit
    else query_loop name [] >>= λ labels.
        ok (query_header id ++ labels ++ (0 ∷ []) ++ be16 type ++ be16 1 ++ opt_record)
