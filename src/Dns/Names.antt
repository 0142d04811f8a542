-- ===== src/Dns/Names.antt =====
-- The names of cf_dns.c. A C string is the list of its characters without the NUL byte.
pub mod Termination
pub mod Valid
pub mod Edge
use esp_cf_tunnel.Prelude.{
  ℕ, zero, suc, ◌+◌, ◌-◌, ◌*◌, ◌/◌, ◌%◌, Bool, true, false, ◌||◌, ◌&&◌, not, Option, none, some,
  List, [], ◌∷◌, ◌++◌, ltb, leb, ◌==◌, if◌then◌else◌, length, get_or, drop, slice, bytes_of,
}
use esp_cf_tunnel.Core.{Bytes, CfError, Result, ok, err, format, limit, truncated}

abbrev pub name_max : ℕ
name_max = 253

unfoldable pub lower : ℕ → ℕ
lower c = if leb 65 c && leb c 90 then c + 32 else c

unfoldable pub name_char : ℕ → Bool
name_char c = (leb 97 c && leb c 122) || (leb 48 c && leb c 57) || c == 45 || c == 95

-- `!strcmp(a, b)`
unfoldable pub same_text : Bytes → Bytes → Bool
same_text [] [] = true
same_text [] (y ∷ ys) = false
same_text (x ∷ xs) [] = false
same_text (x ∷ xs) (y ∷ ys) = x == y && same_text xs ys

abbrev pub suffix : Bytes
suffix = bytes_of ".argotunnel.com"

-- `cf_dns_edge_target`
unfoldable pub edge_target : Bytes → Bool
edge_target name =
    let n = length name in ltb 15 n && leb n name_max && same_text (drop (n - 15) name) suffix

-- The variables of the loop of `read_name`; `used` is the length of `out`.
pub record Cursor : Type 0 where
  pub at : ℕ
  pub out : Bytes
  pub resume : ℕ
  pub hops : ℕ
  pub labels : ℕ

-- One round of the loop goes on, ends with a name and the offset behind it, or fails.
pub data Round : Type 0 where
  more : Cursor → Round
  done : Bytes → ℕ → Round
  stop : CfError → Round

-- A compression pointer whose first byte is `n`.
unfoldable pub jump : Bytes → Cursor → ℕ → Round
jump packet c n =
    let target = n % 0x40 * 0x100 + get_or packet (c.at + 1) 0 in
    let at = c.at + 2 in
    if leb (length packet) (c.at + 1)
    then stop truncated
    else if ltb 16 (c.hops + 1) || leb (at - 2) target
    then stop format
    else more (record c {
      at = target;
      resume = if c.resume == 0 then at else c.resume;
      hops = c.hops + 1;
    })

-- The characters of a label in lower case, if all of them may stand in a name.
unfoldable pub copy_label : Bytes → Option Bytes
copy_label [] = some []
copy_label (c ∷ cs) =
    let rest = copy_label cs in
    if name_char (lower c)
    then elim rest [ none ↦ none | some out ↦ some (lower c ∷ out) ]
    else none

-- The dot in front of every label but the first.
abbrev pub dot : Bytes → Bytes
dot [] = []
dot (c ∷ cs) = 46 ∷ []

-- A label of `n` bytes.
unfoldable pub read_label : Bytes → Cursor → ℕ → Round
read_label packet c n =
    let at = c.at + 1 in
    if ltb 127 (c.labels + 1)
      || ltb (length packet - at) n
      || ltb name_max (length c.out + n + length (dot c.out))
    then stop limit
    else elim (copy_label (slice at n packet)) [
      | none ↦ stop format
      | some label ↦
          more (record c { at = at + n; out = c.out ++ dot c.out ++ label; labels = c.labels + 1 })
    ]

unfoldable pub read_round : Bytes → Cursor → Round
read_round packet c =
    let n = get_or packet c.at 0 in
    if leb (length packet) c.at
    then stop truncated
    else if n / 0x40 == 3
    then jump packet c n
    else if ltb 63 n
    then stop format
    else if n == 0
    then done c.out (if c.resume == 0 then c.at + 1 else c.resume)
    else read_label packet c n

abbrev pub after_round :
    (Cursor → Option (Result (Bytes × ℕ))) → Round → Option (Result (Bytes × ℕ))
after_round go_on (more c) = go_on c
after_round go_on (done out offset) = some (ok (out, offset))
after_round go_on (stop e) = some (err e)

-- The loop with fuel; `none` if the fuel is used up.
unfoldable pub read_loop : ℕ → Bytes → Cursor → Option (Result (Bytes × ℕ))
read_loop zero packet c = none
read_loop (suc fuel) packet c = after_round (λ c'. read_loop fuel packet c') (read_round packet c)

-- Sixteen hops, 127 labels and the last round.
abbrev pub rounds : ℕ
rounds = 144

-- `read_name`: the name and the offset behind it.
unfoldable pub read_name : Bytes → ℕ → Option (Result (Bytes × ℕ))
read_name packet at =
    read_loop rounds packet (record { at = at; out = []; resume = 0; hops = 0; labels = 0 })
