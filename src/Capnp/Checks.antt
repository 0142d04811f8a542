-- ===== src/Capnp/Checks.antt =====
-- The state of the reader of cf_capnp.c, and its checks of ranges and of the budget. A function that
-- changes `*r` returns the new reader behind its result.
use esp_cf_tunnel.Prelude.{
  ℕ, zero, suc, ◌+◌, ◌-◌, ◌*◌, ◌/◌, Bool, true, false, ◌||◌, none, some, List, [], ◌∷◌, ltb, leb,
  ◌==◌, if◌then◌else◌, length, get_or,
}
use esp_cf_tunnel.Core.{Bytes, CfResult, Result, ok, err, format, limit}
use esp_cf_tunnel.Framing.{u32_at, segment}
use esp_cf_tunnel.Capnp.Words.{le}

abbrev pub depth_max : ℕ
depth_max = 32

abbrev pub traversal_words : ℕ
traversal_words = 4096

-- `cf_cp_kind`
pub data Kind : Type 0 where
  null struct list capability : Kind

-- `cf_cp_value`
pub record Value : Type 0 where
  pub kind : Kind
  pub segment : ℕ
  pub word : ℕ
  pub count : ℕ
  pub index : ℕ  -- `cap`, the index in the capability table
  pub data_words : ℕ
  pub pointers : ℕ
  pub element_size : ℕ
  pub depth : ℕ

-- `{0}`
abbrev pub null_value : Value
null_value = record {
  kind = null;
  segment = 0;
  word = 0;
  count = 0;
  index = 0;
  data_words = 0;
  pointers = 0;
  element_size = 0;
  depth = 0;
}

-- `cf_cp_reader`; `segment_count` is the length of `segments`.
pub record Reader : Type 0 where
  pub segments : List Bytes
  pub budget : ℕ
  pub error : CfResult

-- `r->error = rc; return 0;`
abbrev pub reject {ℓ} : {A : Type ℓ} → A → Reader → CfResult → A × Reader
reject a r rc = (a, record r { error = rc })

abbrev pub failed : Reader → Bool
failed r = elim r.error [ none ↦ false | some e ↦ true ]

-- The whole words of segment `seg`; `r->segments[seg].len / 8`.
abbrev pub words_of : Reader → ℕ → ℕ
words_of r seg = length (get_or r.segments seg []) / 8

unfoldable pub range : Reader → ℕ → ℕ → ℕ → Bool × Reader
range r seg word words =
    if failed r
    then (false, r)
    else if leb (length r.segments) seg
        || ltb (words_of r seg) word
        || ltb (words_of r seg - word) words
    then reject false r (some format)
    else (true, r)

unfoldable pub charge : Reader → ℕ → Bool × Reader
charge r words =
    let cost = if words == 0 then 1 else words in
    if ltb r.budget cost
    then reject false r (some limit)
    else (true, record r { budget = r.budget - cost })

-- `range(...) && charge(...)`: the second call is made only if the first succeeds.
unfoldable pub admit : Reader → ℕ → ℕ → ℕ → Bool × Reader
admit r seg word words =
    let (inside, r') = range r seg word words in if inside then charge r' words else (false, r')

unfoldable pub word_at : Reader → ℕ → ℕ → ℕ × Reader
word_at r seg word =
    let (inside, r') = range r seg word 1 in
    if inside then (le (get_or r'.segments seg []) (word * 8) 8, r') else (0, r')

-- The segments that `cf_cp_read_init` collects, `left` of them from `i` on.
unfoldable pub read_segments : Bytes → ℕ → ℕ → Result (List Bytes)
read_segments frame i zero = ok []
read_segments frame i (suc left) =
    let rest = read_segments frame (i + 1) left in
    elim (segment frame i) [
      | err e ↦ err e
      | ok s ↦ elim rest [ err e ↦ err e | ok ss ↦ ok (s ∷ ss) ]
    ]

-- `cf_cp_read_init`
unfoldable pub read_init : Bytes → Result Reader
read_init frame = elim (segment frame 0) [
  | err e ↦ err e
  | ok first ↦ elim (read_segments frame 1 (u32_at frame 0)) [
    | err e ↦ err e
    | ok rest ↦ ok (record { segments = first ∷ rest; budget = traversal_words; error = none })
  ]
]
