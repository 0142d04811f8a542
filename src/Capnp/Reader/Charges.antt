-- ===== src/Capnp/Reader/Charges.antt =====
-- The checks of the reader of cf_capnp.c: ranges and the budget.
use esp_cf_tunnel.Prelude.{
  ℕ, ◌+◌, ◌*◌, ◌/◌, ◌≤◌, ◌<◌, ◌≡◌, ◌≢◌, true, false, none, ◌==◌, if◌then◌else◌, length, arith, ◌∙◌,
  ap,
}
use esp_cf_tunnel.Capnp.Checks.{
  Kind, null, struct, list, capability, Value, Reader, words_of, range, charge, admit, word_at,
}
use esp_cf_tunnel.Capnp.Follow.{element_bits}

-- `n` words from `word` on lie inside segment `seg`.
abbrev pub Within : Reader → ℕ → ℕ → ℕ → Type 0
Within r seg word n = (seg < length r.segments) × (word + n ≤ words_of r seg)

-- How many words a value of this element size spans.
abbrev pub span : Value → ℕ
span v =
    if v.element_size == 7
    then v.count * (v.data_words + v.pointers)
    else (v.count * element_bits v.element_size + 63) / 64

abbrev pub InBounds : Kind → Reader → Value → Type 0
InBounds null r v = Unit
InBounds capability r v = Unit
InBounds struct r v = Within r v.segment v.word (v.data_words + v.pointers)
InBounds list r v = Within r v.segment v.word (span v)

-- `r'` shows the same message, and has no more to spend.
abbrev pub Spends : Reader → Reader → Type 0
Spends r r' = (r'.segments ≡ r.segments) × (r'.budget ≤ r.budget)

-- A result of the reader: what it shows lies in the message, and is paid for unless it is null.
pub record IsSafe (r : Reader) (out : Value × Reader) : Type 0 where
  pub spends : Spends r out.1
  pub inside : InBounds out.0.kind r out.0
  pub clean : out.0.kind ≢ null → out.1.error ≡ none

pub range_lem :
    (r : Reader) (seg word words : ℕ)
    → let out = range r seg word words in
      Spends r out.1 × (out.0 ≡ true → (out.1 ≡ r) × (r.error ≡ none) × Within r seg word words)
unfolding range
range_lem r seg word words = (ground arith, λ t. ground arith)

pub range-Within :
    (r : Reader) (seg word n : ℕ)
    → r.error ≡ none
    → Within r seg word n
    → range r seg word n ≡ (true, r)
unfolding range
range-Within r seg word n e w = ground arith

pub range_fails :
    (r : Reader) (seg word words : ℕ)
    → (range r seg word words).0 ≡ false
    → (range r seg word words).1.error ≢ none
unfolding range
range_fails r seg word words h e = ground arith

pub charge_lem :
    (r : Reader) (words : ℕ)
    → let out = charge r words in
      Spends r out.1
      × (out.0 ≡ true
          → (out.1.error ≡ r.error) × (out.1.budget + words ≤ r.budget) × (out.1.budget < r.budget))
unfolding charge
charge_lem r words = (ground arith, λ t. ground arith)

pub admit_lem :
    (r : Reader) (seg word words : ℕ)
    → let out = admit r seg word words in
      Spends r out.1
      × (out.0 ≡ true → (out.1.error ≡ none) × Within r seg word words × (out.1.budget < r.budget))
unfolding admit
admit_lem r seg word words =
    let (a, b) = range_lem r seg word words in
    let (c, d) = charge_lem (range r seg word words).1 words in
    (ground (arith, a, c), λ t. ground (arith, a, b, c, d))

pub word_at_lem : (r : Reader) (seg word : ℕ) → (word_at r seg word).1 ≡ (range r seg word 1).1
unfolding word_at
word_at_lem r seg word = ground arith

-- A word read inside an accepted range does not fail.
pub word_after :
    (r : Reader) (seg word n : ℕ)
    → (range r seg word (n + 1)).0 ≡ true
    → (word_at (range r seg word (n + 1)).1 seg word).1.error ≡ none
word_after r seg word n t =
    let (a, b) = range_lem r seg word (n + 1) in
    let (same, e, w) = b t in
    let one = range-Within r seg word 1 e (w.0, omega (arith, w)) in
    ap (λ q. (word_at q seg word).1.error) same
    ∙ ap (λ q. q.error) (word_at_lem r seg word)
    ∙ ap (λ q. q.1.error) one
    ∙ e
