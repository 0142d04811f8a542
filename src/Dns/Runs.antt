-- ===== src/Dns/Runs.antt =====
-- Concrete packets, and the theorems at concrete inputs.
use esp_cf_tunnel.Prelude.{length, ◌+◌, ℕ, ◌≤◌, ◌<◌, ◌≡◌, refl, some, [], ◌∷◌, bytes_of, true}
use esp_cf_tunnel.Core.{Bytes, format, Result, ok, err}
use esp_cf_tunnel.Dns.Names.{
  read_name, read_loop, read_round, read_label, jump, copy_label, lower, name_char, same_text,
  edge_target,
}
use esp_cf_tunnel.Dns.Names.Termination.{read_name-total}
use esp_cf_tunnel.Dns.Names.Valid.{IsName, read_name-IsName}
use esp_cf_tunnel.Dns.Query.{query, query_loop, put_label}
use esp_cf_tunnel.Dns.Query.RoundTrip.{read_name-query}
use esp_cf_tunnel.Dns.Records.{
  Record, parse, parse_records, records_loop, one_record, take_record, a_record, check_header,
  u16_at, u32_be,
}
use esp_cf_tunnel.Dns.Records.Accepted.{IsAnswer, parse-IsAnswer}

-- The response to a question for the address of `ab`, with one address.
abbrev response : Bytes
response =
    18 ∷ 52 ∷ 129 ∷ 128 ∷ 0 ∷ 1 ∷ 0 ∷ 1 ∷ 0 ∷ 0 ∷ 0 ∷ 0 ∷ 2 ∷ 97 ∷ 98 ∷ 0 ∷ 0 ∷ 1 ∷ 0 ∷ 1 ∷ 192 ∷ 12
    ∷ 0 ∷ 1 ∷ 0 ∷ 1 ∷ 0 ∷ 0 ∷ 0 ∷ 60 ∷ 0 ∷ 4 ∷ 10 ∷ 1 ∷ 2 ∷ 3 ∷ []

abbrev address : Record
address = record {
  target = [];
  ip = 10 ∷ 1 ∷ 2 ∷ 3 ∷ [];
  priority = 0;
  weight = 0;
  port = 0;
  ttl = 60;
}

compressed_name : read_name response 20 ≡ some (ok (bytes_of "ab", 22))
unfolding read_name read_loop read_round read_label jump copy_label lower name_char
compressed_name = refl

-- A pointer to itself.
looping_name : read_name (192 ∷ 0 ∷ []) 0 ≡ some (err format)
unfolding read_name read_loop read_round read_label jump
looping_name = refl

accepted : parse response (bytes_of "ab") 1 0x1234 ≡ ok (address ∷ [])
unfolding parse parse_records records_loop one_record take_record a_record check_header u16_at
    u32_be read_name read_loop read_round read_label jump copy_label lower name_char same_text
accepted = refl

edge_name : edge_target (bytes_of "region1.v2.argotunnel.com") ≡ true
unfolding edge_target same_text
edge_name = refl

read_name-total_example : (out : Result (Bytes × ℕ)) × (read_name (192 ∷ 0 ∷ []) 0 ≡ some out)
read_name-total_example = read_name-total (192 ∷ 0 ∷ []) 0

read_name-IsName_example : IsName (bytes_of "ab") × (20 < 22) × (22 ≤ 36)
read_name-IsName_example = read_name-IsName response 20 compressed_name

parse-IsAnswer_example : IsAnswer response (bytes_of "ab") 1 0x1234 (address ∷ [])
parse-IsAnswer_example = parse-IsAnswer response (bytes_of "ab") 1 0x1234 accepted

abbrev asked : Bytes
asked =
    18 ∷ 52 ∷ 1 ∷ 0 ∷ 0 ∷ 1 ∷ 0 ∷ 0 ∷ 0 ∷ 0 ∷ 0 ∷ 1 ∷ 2 ∷ 97 ∷ 98 ∷ 0 ∷ 0 ∷ 1 ∷ 0 ∷ 1 ∷ 0 ∷ 0 ∷ 41
    ∷ 4 ∷ 208 ∷ 0 ∷ 0 ∷ 0 ∷ 0 ∷ 0 ∷ 0 ∷ []

asked_lem : query (bytes_of "aB") 1 0x1234 64 ≡ ok asked
unfolding query query_loop put_label lower name_char
asked_lem = refl

read_name-query_example :
    (length asked ≡ 2 + 29)
    × (length asked ≤ 64)
    × (read_name asked 12 ≡ some (ok (bytes_of "ab", 2 + 14)))
unfolding lower
read_name-query_example = read_name-query (bytes_of "aB") 1 0x1234 64 asked_lem
