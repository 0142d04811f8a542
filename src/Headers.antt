-- ===== src/Headers.antt =====
-- cf_headers.c under components/esp_cf_tunnel/src/protocol: the serialised HTTP headers of a request or a
-- response. Of the arena the model keeps the bytes that an entry shows.
pub mod Fields
pub mod Written
pub mod RoundTrip
pub mod Accepted
mod Runs
use esp_cf_tunnel.Prelude.{
  ℕ, zero, suc, ◌+◌, ◌-◌, ◌*◌, ◌/◌, ◌%◌, min, Bool, true, false, ◌||◌, ◌&&◌, not, Option, none,
  some, List, [], ◌∷◌, ◌++◌, ltb, leb, ◌==◌, if◌then◌else◌, length, bytes_of,
}
use esp_cf_tunnel.Core.{Bytes, Result, ok, err, ◌>>=◌, format, limit}
use esp_cf_tunnel.Base64

abbrev pub count_max : ℕ
count_max = 32

abbrev pub decoded_max : ℕ
decoded_max = 4096

abbrev pub wire_max : ℕ
wire_max = 6144

-- `cf_header`
pub record Header : Type 0 where
  pub name : Bytes
  pub value : Bytes

-- `strchr` on the characters of a string.
unfoldable pub one_of : Bytes → ℕ → Bool
one_of [] c = false
one_of (x ∷ xs) c = c == x || one_of xs c

unfoldable pub token_char : ℕ → Bool
token_char c =
    (leb 97 c && leb c 122)
    || (leb 65 c && leb c 90)
    || (leb 48 c && leb c 57)
    || (not (c == 0) && ltb c 128 && one_of (bytes_of "!#$%&'*+-.^_`|~") c)

unfoldable pub value_char : ℕ → Bool
value_char c = not ((ltb c 32 && not (c == 9)) || c == 127)

-- A loop that returns false at the first character that fails the test.
abbrev pub every : (ℕ → Bool) → Bytes → Bool
every test [] = true
every test (c ∷ cs) = test c && every test cs

unfoldable pub valid_name : Bytes → Bool
valid_name s = not (length s == 0) && every token_char s

unfoldable pub valid_value : Bytes → Bool
valid_value s = every value_char s

-- `prefix`, which folds capitals of `s` alone.
unfoldable pub has_prefix : Bytes → Bytes → Bool
has_prefix s [] = true
has_prefix [] (p ∷ ps) = false
has_prefix (c ∷ cs) (p ∷ ps) = (if leb 65 c && leb c 90 then c + 32 else c) == p && has_prefix cs ps

-- `cf_header_is_control`
unfoldable pub is_control : Bytes → Bool
is_control name =
    has_prefix name (bytes_of ":")
    || has_prefix name (bytes_of "cf-int-")
    || has_prefix name (bytes_of "cf-cloudflared-")
    || has_prefix name (bytes_of "cf-proxy-")

-- A character in front of the first field.
abbrev pub push : ℕ → List Bytes → List Bytes
push c [] = (c ∷ []) ∷ []
push c (f ∷ fs) = (c ∷ f) ∷ fs

-- The fields between the semicolons.
unfoldable pub fields : Bytes → List Bytes
fields [] = [] ∷ []
fields (c ∷ cs) = let rest = fields cs in if c == 59 then [] ∷ rest else push c rest

-- What stands in front of the first colon and behind it.
unfoldable pub cut_colon : Bytes → Option (Bytes × Bytes)
cut_colon [] = none
cut_colon (c ∷ cs) =
    let rest = cut_colon cs in
    if c == 58 then some ([], cs) else elim rest [ none ↦ none | some (a, b) ↦ some (c ∷ a, b) ]

-- One entry, with `room` bytes left in the arena.
unfoldable pub decode_entry : Bytes → ℕ → Result Header
decode_entry field room = elim (cut_colon field) [
  | none ↦ err format
  | some (a, b) ↦ Base64.decode a false room >>= λ name.
      Base64.decode b false (room - length name) >>= λ value.
      (if not (valid_name name) || not (valid_value value)
        then err format
        else ok (record { name = name; value = value }))
]

-- The loop; an empty field is passed over.
unfoldable pub decode_fields : List Bytes → ℕ → ℕ → ℕ → Result (List Header)
decode_fields [] num slots room = ok []
decode_fields ([] ∷ fs) num slots room = decode_fields fs num slots room
decode_fields ((c ∷ cs) ∷ fs) num slots room =
    if num == slots
    then err limit
    else decode_entry (c ∷ cs) room >>= λ h.
        decode_fields fs (num + 1) slots (room - length h.name - length h.value) >>= λ hs.
        ok (h ∷ hs)

-- `cf_headers_decode`
unfoldable pub decode : Bytes → ℕ → ℕ → Result (List Header)
decode wire slots capacity =
    if ltb wire_max (length wire)
    then err limit
    else decode_fields (fields wire) 0 (min slots count_max) (min capacity decoded_max)

-- The characters of the encoding of `n` bytes.
abbrev pub field_size : ℕ → ℕ
field_size n = n / 3 * 4 + (if n % 3 == 0 then 0 else n % 3 + 1)

-- The first loop of `cf_headers_encode`: `need`, from entry `i` on.
unfoldable pub need_loop : List Header → ℕ → ℕ → Result ℕ
need_loop [] i decoded = ok 0
need_loop (h ∷ hs) i decoded =
    let a = length h.name in
    let b = length h.value in
    let rest = need_loop hs (i + 1) (decoded + a + b) in
    if ltb (decoded_max - decoded) a
    then err limit
    else if ltb (decoded_max - (decoded + a)) b
    then err limit
    else if not (valid_name h.name) || not (valid_value h.value)
    then err format
    else rest >>= λ n. ok (field_size a + (field_size b + 1 + (if i == 0 then 0 else 1)) + n)

-- What `cf_base64_encode` writes; a failure, which the code ignores, writes nothing.
abbrev pub written : Result Bytes → Bytes
written (ok s) = s
written (err e) = []

-- The second loop, with `used` characters written.
unfoldable pub write_loop : List Header → ℕ → ℕ → ℕ → Bytes
write_loop [] i used capacity = []
write_loop (h ∷ hs) i used capacity =
    let separator : Bytes = if i == 0 then [] else 59 ∷ [] in
    let used1 = used + length separator in
    let name = written (Base64.encode h.name false (capacity - used1)) in
    let used2 = used1 + length name + 1 in
    let value = written (Base64.encode h.value false (capacity - used2)) in
    separator ++ name ++ (58 ∷ []) ++ value ++ write_loop hs (i + 1) (used2 + length value) capacity

-- `cf_headers_encode`
unfoldable pub encode : List Header → ℕ → Result Bytes
encode entries capacity =
    if ltb count_max (length entries)
    then err limit
    else need_loop entries 0 0 >>= λ need.
        (if ltb capacity need || ltb wire_max need
          then err limit
          else ok (write_loop entries 0 0 capacity))
