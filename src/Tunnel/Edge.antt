-- ===== src/Tunnel/Edge.antt =====
-- The choice of the edge in `discover` of esp_cf_tunnel.c.
use esp_cf_tunnel.Prelude.{
  ℕ, zero, suc, ◌+◌, ◌-◌, ◌%◌, List, [], ◌∷◌, ltb, ◌==◌, if◌then◌else◌, length,
}
use esp_cf_tunnel.Core.{u32}
use esp_cf_tunnel.Dns.Records.{Record, empty_record}

-- `records[i]`; behind the accepted records the array holds zeros.
unfoldable pub record_at : List Record → ℕ → Record
record_at [] i = empty_record 0
record_at (r ∷ rs) zero = r
record_at (r ∷ rs) (suc i) = record_at rs i

-- The inner loop of the sort: what the place `i` holds at its end, and the records behind it.
unfoldable pub settle : Record → List Record → Record × List Record
settle r [] = (r, [])
settle r (s ∷ rest) =
    let low = settle s rest in
    let same = settle r rest in
    if ltb s.priority r.priority then (low.0, r ∷ low.1) else (same.0, s ∷ same.1)

-- The sort, with `left` places to go.
unfoldable pub sort_loop : ℕ → List Record → List Record
sort_loop zero rs = rs
sort_loop (suc left) [] = []
sort_loop (suc left) (r ∷ rs) = let next = settle r rs in next.0 ∷ sort_loop left next.1

unfoldable pub sort : List Record → List Record
sort rs = sort_loop (length rs) rs

-- The loop of `first`.
unfoldable pub first_loop : List Record → ℕ → ℕ → ℕ
first_loop rs priority zero = zero
first_loop rs priority (suc before) =
    let next = first_loop rs priority before in
    if (record_at rs before).priority == priority then next else suc before

-- The loop of `last`, with `left` records behind it.
unfoldable pub last_loop : List Record → ℕ → ℕ → ℕ → ℕ
last_loop rs priority zero last = last
last_loop rs priority (suc left) last =
    let next = last_loop rs priority left (last + 1) in
    if (record_at rs (last + 1)).priority == priority then next else last

-- The loop of `weights`, over `n` records, before the wrap.
unfoldable pub weight_sum : List Record → ℕ → ℕ → ℕ
weight_sum rs i zero = 0
weight_sum rs i (suc n) = (record_at rs i).weight + weight_sum rs (i + 1) n

-- The loop of `pick`, with `left` records behind it.
unfoldable pub pick_loop : List Record → ℕ → ℕ → ℕ → ℕ
pick_loop rs pick zero value = pick
pick_loop rs pick (suc left) value =
    let w = (record_at rs pick).weight in
    let next = pick_loop rs (pick + 1) left (value - w) in if ltb value w then pick else next

-- The place of the record that is used, from the sorted records.
unfoldable pub choose : List Record → ℕ → ℕ → ℕ
choose rs attempts random =
    let start = u32 (attempts + 0xffff_ffff) % length rs in
    let priority = (record_at rs start).priority in
    let first = first_loop rs priority start in
    let last = last_loop rs priority (length rs - 1 - start) start in
    let weights = u32 (weight_sum rs first (last - first + 1)) in
    if weights == 0 then start else pick_loop rs first (last - first) (random % weights)
