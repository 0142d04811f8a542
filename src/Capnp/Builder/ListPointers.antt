-- ===== src/Capnp/Builder/ListPointers.antt =====
-- The reader of cf_capnp.c follows the pointers to lists of bytes that its builder writes.
use esp_cf_tunnel.Prelude.{
  ℕ, ◌+◌, ◌-◌, ◌*◌, ◌/◌, ◌%◌, ◌≤◌, ◌<◌, ◌≡◌, false, none, some, [], ltb, ◌==◌, get_or, arith,
}
use esp_cf_tunnel.Core.{u32}
use esp_cf_tunnel.Capnp.Words.{le}
use esp_cf_tunnel.Capnp.Checks.{depth_max, list, Value, null_value, Reader, failed, word_at}
use esp_cf_tunnel.Capnp.Follow.{target_of, finish_value, list_value, resolve, follow, element_bits}
use esp_cf_tunnel.Capnp.Reader.Charges.{Within, range-Within}
use esp_cf_tunnel.Capnp.Builder.Pointers.{charge_pays, admit_pays}
use esp_cf_tunnel.Capnp.Builder.{list_pointer}

module _ (slot at n : ℕ) (h : slot < at) (k : at < 0x1000_0000) (m : n < 0x1000_0000) where
  pub blob_pointer_form :
      list_pointer slot at 2 n ≡ (at - slot - 1) * 4 + 1 + 2 * 0x1_0000_0000 + n * 0x8_0000_0000
  blob_pointer_form =
      let near : u32 (at + 0x1_0000_0000 - slot - 1) ≡ at - slot - 1 = omega arith in
      let low : (at - slot - 1) / 0x4000_0000 ≡ 0 = omega arith in rw (near, low) (omega arith)

  pub near : list_pointer slot at 2 n % 4 ≡ 1
  near = omega (arith, blob_pointer_form)

  pub byte_sized : list_pointer slot at 2 n / 0x1_0000_0000 % 8 ≡ 2
  byte_sized = omega (arith, blob_pointer_form)

  pub counted : u32 (list_pointer slot at 2 n / 0x8_0000_0000) ≡ n
  counted = omega (arith, blob_pointer_form)

  pub offset : u32 (list_pointer slot at 2 n) / 4 ≡ at - slot - 1
  offset = omega (arith, blob_pointer_form)

  pub one_word : list_pointer slot at 2 n < 0x1_0000_0000_0000_0000
  one_word = omega (arith, blob_pointer_form)

  pub leads_to : target_of (list_pointer slot at 2 n) slot false ≡ some at
  unfolding target_of
  leads_to = rw offset (ground arith)

-- A list of `n` bytes at word `at`.
abbrev pub bytes_at : ℕ → ℕ → ℕ → Value
bytes_at at n depth = record null_value {
  kind = list;
  word = at;
  count = n;
  element_size = 2;
  depth = depth;
}

pub bytes_value :
    (r : Reader) (at word depth n : ℕ)
    → r.error ≡ none
    → Within r 0 at ((n + 7) / 8)
    → (n + 7) / 8 + 1 ≤ r.budget
    → word / 0x1_0000_0000 % 8 ≡ 2
    → u32 (word / 0x8_0000_0000) ≡ n
    → (list_value r 0 at word depth).0 ≡ bytes_at at n depth
unfolding list_value finish_value element_bits
bytes_value r at word depth n e w money size count =
    let words : (n * 8 + 63) / 64 ≡ (n + 7) / 8 = omega arith in
    rw (size, count, words, admit_pays r 0 at ((n + 7) / 8) e w (ground (arith, money)))

pub resolve-list_pointer :
    (slot at n depth : ℕ) (r : Reader)
    → slot < at
    → at < 0x1000_0000
    → n < 0x1000_0000
    → r.error ≡ none
    → Within r 0 at ((n + 7) / 8)
    → (n + 7) / 8 + 1 ≤ r.budget
    → (resolve r 0 slot (list_pointer slot at 2 n) false depth).0 ≡ bytes_at at n depth
unfolding resolve
resolve-list_pointer slot at n depth r h k m clean whole money =
    let kind = near slot at n h k m in
    rw (kind, leads_to slot at n h k m, kind)
      (bytes_value r at (list_pointer slot at 2 n) depth n clean whole money
        (byte_sized slot at n h k m) (counted slot at n h k m))

pub first_word :
    (r : Reader) (slot word : ℕ)
    → r.error ≡ none
    → Within r 0 slot 1
    → le (get_or r.segments 0 []) (slot * 8) 8 ≡ word
    → word_at r 0 slot ≡ (word, r)
unfolding word_at
first_word r slot word clean inside found = rw (range-Within r 0 slot 1 clean inside, found)

pub follow-list_pointer :
    (slot at n depth : ℕ) (r : Reader)
    → slot < at
    → at < 0x1000_0000
    → n < 0x1000_0000
    → depth ≤ depth_max
    → r.error ≡ none
    → Within r 0 slot 1
    → Within r 0 at ((n + 7) / 8)
    → (n + 7) / 8 + 2 ≤ r.budget
    → le (get_or r.segments 0 []) (slot * 8) 8 ≡ list_pointer slot at 2 n
    → (follow r 0 slot depth).0 ≡ bytes_at at n depth
unfolding follow
follow-list_pointer slot at n depth r h k m shallow clean inside whole money found =
    let r' = record r { budget = r.budget - 1 } in
    let word = list_pointer slot at 2 n in
    let last = resolve-list_pointer slot at n depth r' h k m clean whole (omega (arith, money)) in
    let kind = near slot at n h k m in
    let not_far : (word % 4 == 2) ≡ false = rw kind in
    let there : (word == 0) ≡ false = ground (arith, kind) in
    let fine : failed r ≡ false = rw clean in
    let level : ltb depth_max depth ≡ false = ground (arith, shallow) in
    rw
      (
        first_word r slot word clean inside found,
        charge_pays r 1 (omega (arith, money)),
        fine,
        level,
        there,
        not_far,
      )
      last
