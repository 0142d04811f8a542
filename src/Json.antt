-- ===== src/Json.antt =====
-- components/esp_cf_tunnel/src/protocol/cf_json.c: what is checked before and after cJSON parses a text. The
-- items are the fields of cJSON's structure that the code reads; the functions of cJSON are parameters.
pub mod Grammar
mod Sound
pub mod Complete
mod Runs
use esp_cf_tunnel.Prelude.{
  ℕ, zero, suc, ◌+◌, ◌-◌, Bool, true, false, ◌||◌, ◌&&◌, not, Option, none, some, List, [], ◌∷◌,
  ltb, leb, ◌==◌, if◌then◌else◌, length, take, drop, replicate, bytes_of,
}
use esp_cf_tunnel.Core.{Bytes, Result, ok, err, memory, format}
use esp_cf_tunnel.Dns.Names.{same_text}
use esp_cf_tunnel.H2.Heap.{Block, bytes_at, remove}

abbrev pub heap_limit : ℕ
heap_limit = 32768

abbrev pub text_max : ℕ
text_max = 8192

-- A `double` that is a number: its sign, the whole part of its amount, and whether there is more.
pub record Number : Type 0 where
  pub negative : Bool
  pub whole : ℕ
  pub has_fraction : Bool

-- `cf_cJSON`: `type`, `valuestring`, `valuedouble` and `string` of an item, and its children.
pub record Fields : Type 0 where
  pub type : ℕ
  pub valuestring : Option Bytes
  pub valuedouble : Number
  pub string : Option Bytes

mutual
  pub data Item : Type 0 where
    item : Fields → Items → Item

  pub data Items : Type 0 where
    no_items : Items
    followed : Item → Items → Items

abbrev pub fields : Item → Fields
fields (item f children) = f

abbrev pub children : Item → Items
children (item f cs) = cs

-- What `cf_cJSON_ParseWithLengthOpts` returns: the root with the distance of `end`, or NULL, for want of memory or
-- because of the text.
pub data Parsed : Type 0 where
  parsed : Item → ℕ → Parsed
  no_memory malformed : Parsed

-- The functions of cJSON that the code calls. An absent item is NULL.
pub record Cjson : Type 0 where
  pub parse : Bytes → Parsed
  pub is_object : Option Item → Bool
  pub is_string : Option Item → Bool
  pub is_number : Option Item → Bool
  pub is_array : Option Item → Bool
  pub is_false : Option Item → Bool
  pub get_item : Option Item → Bytes → Option Item
  pub array_size : Option Item → ℕ
  pub array_item : Option Item → ℕ → Option Item

-- `json_live_bytes` and `json_allocation_failed`, and the blocks that are allocated.
pub record JsonHeap : Type 0 where
  pub live : ℕ
  pub has_failed : Bool
  pub blocks : List Block

-- `json_alloc`; `header` is `sizeof(json_allocation)`, `fresh` what `malloc` returns.
unfoldable pub json_alloc : ℕ → Option ℕ → ℕ → JsonHeap → Option ℕ × JsonHeap
json_alloc header fresh size h =
    let charge = size + header in
    let broken = record h { has_failed = true } in
    if ltb (heap_limit - header) size
    then (none, broken)
    else if ltb (heap_limit - h.live) charge
    then (none, broken)
    else elim fresh [
      | none ↦ (none, broken)
      | some p ↦ (
        some p,
        record h { live = h.live + charge; blocks = record { at = p; bytes = charge } ∷ h.blocks },
      )
    ]

-- `json_free`
unfoldable pub json_free : Option ℕ → JsonHeap → JsonHeap
json_free none h = h
json_free (some p) h = record h { live = h.live - bytes_at h.blocks p; blocks = remove h.blocks p }

abbrev pub number_digit : ℕ → Bool
number_digit c = leb b'0' c && leb c b'9'

unfoldable pub skip_digits : Bytes → Bytes
skip_digits [] = []
skip_digits (c ∷ cs) = if number_digit c then skip_digits cs else c ∷ cs

-- One digit at least; `none` is `return false`.
unfoldable pub digits : Bytes → Option Bytes
digits [] = none
digits (c ∷ cs) = if number_digit c then some (skip_digits cs) else none

-- The parts of a number in `valid_lexemes`: `in.ptr + p`, before and behind it.
unfoldable pub whole_part : Bytes → Option Bytes
whole_part [] = none
whole_part (c ∷ cs) =
    if not (number_digit c) then none else if c == b'0' then some cs else some (skip_digits cs)

unfoldable pub sign_part : Bytes → Bytes
sign_part [] = []
sign_part (c ∷ cs) = if c == b'-' then cs else c ∷ cs

unfoldable pub fraction_part : Bytes → Option Bytes
fraction_part [] = some []
fraction_part (c ∷ cs) = if c == b'.' then digits cs else some (c ∷ cs)

unfoldable pub exponent_sign : Bytes → Bytes
exponent_sign [] = []
exponent_sign (c ∷ cs) = if c == b'+' || c == b'-' then cs else c ∷ cs

unfoldable pub exponent_part : Bytes → Option Bytes
exponent_part [] = some []
exponent_part (c ∷ cs) = if c == b'e' || c == b'E' then digits (exponent_sign cs) else some (c ∷ cs)

abbrev pub is_space : ℕ → Bool
is_space c = c == 32 || c == 9 || c == 13 || c == 10

unfoldable pub ends_number : Bytes → Bool
ends_number [] = true
ends_number (c ∷ cs) = c == b',' || c == b'}' || c == b']' || is_space c

-- The number at the front of a text: what stands behind it.
unfoldable pub number_end : Bytes → Option Bytes
number_end text = elim (whole_part (sign_part text)) [
  | none ↦ none
  | some t1 ↦ elim (fraction_part t1) [
    | none ↦ none
    | some t2 ↦ elim (exponent_part t2) [
      | none ↦ none
      | some t3 ↦ if ends_number t3 then some t3 else none
    ]
  ]
]

abbrev pub starts_number : ℕ → Bool
starts_number c = c == b'-' || number_digit c

-- The loop of `valid_lexemes` on the rest of the text, at most `rounds` times.
unfoldable pub lexemes : ℕ → Bool → Bool → Bytes → Bool
lexemes zero string escaped text = not string
lexemes (suc rounds) string escaped [] = not string
lexemes (suc rounds) true true (c ∷ cs) =
    let rest = lexemes rounds true false cs in if ltb c 32 then false else rest
lexemes (suc rounds) true false (c ∷ cs) =
    let rest = lexemes rounds (not (c == b'"')) (c == b'\\') cs in if ltb c 32 then false else rest
lexemes (suc rounds) false escaped (c ∷ cs) =
    let in_string = lexemes rounds true false cs in
    let plain = lexemes rounds false false cs in
    if c == b'"'
    then in_string
    else if ltb c 32 && not (is_space c)
    then false
    else if starts_number c
    then elim (number_end (c ∷ cs)) [
      | none ↦ false
      | some behind ↦ lexemes rounds false false behind
    ]
    else plain

-- `valid_lexemes`
unfoldable pub valid_lexemes : Bytes → Bool
valid_lexemes text = lexemes (length text) false false text

-- A NUL, or an escaped one.
unfoldable pub has_nul : Bytes → Bool
has_nul [] = false
has_nul (c ∷ cs) = c == 0 || same_text (take 6 (c ∷ cs)) (bytes_of "\\u0000") || has_nul cs

unfoldable pub all_space : Bytes → Bool
all_space [] = true
all_space (c ∷ cs) = is_space c && all_space cs

-- `cf_json_parse`; where it returns NULL, the error is what `cf_json_failure` returns next.
unfoldable pub json_parse : Cjson → Bytes → Result Item
json_parse lib text =
    if length text == 0 || ltb text_max (length text) || not (valid_lexemes text)
    then err format
    else if has_nul text
    then err format
    else elim (lib.parse text) [
      | no_memory ↦ err memory
      | malformed ↦ err format
      | parsed root end ↦ if all_space (drop end text) then ok root else err format
    ]

-- `strcmp(a->string, b->string) == 0` for an item behind `a`.
unfoldable pub has_key : Bytes → Items → Bool
has_key key no_items = false
has_key key (followed (item f cs) is) =
    elim f.string [ none ↦ false | some k ↦ same_text key k ] || has_key key is

unfoldable pub is_listed : Bytes → List Bytes → Bool
is_listed key [] = false
is_listed key (k ∷ ks) = same_text key k || is_listed key ks

unfoldable pub keys_loop : Items → List Bytes → Bool
keys_loop no_items allowed = true
keys_loop (followed (item f cs) is) allowed =
    let rest = keys_loop is allowed in
    elim f.string [ none ↦ false | some k ↦ is_listed k allowed && not (has_key k is) && rest ]

abbrev pub items_of : Option Item → Items
items_of none = no_items
items_of (some i) = children i

-- `cf_json_keys`
unfoldable pub json_keys : Cjson → Option Item → List Bytes → Bool
json_keys lib object allowed = lib.is_object object && keys_loop (items_of object) allowed

-- `wipe_tree`
unfoldable mutual
  pub wipe_item : Item → Item
  wipe_item (item f cs) =
      item
        (record f {
          valuestring = elim f.valuestring [ none ↦ none | some s ↦ some (replicate (length s) 0) ];
        })
        (wipe_tree cs)

  pub wipe_tree : Items → Items
  wipe_tree no_items = no_items
  wipe_tree (followed i is) = followed (wipe_item i) (wipe_tree is)
