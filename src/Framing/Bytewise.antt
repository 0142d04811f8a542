-- ===== src/Framing/Bytewise.antt =====
-- The loop of `cf_capnp_feed` (cf_capnp_framing.c) as one byte after the other: where the input is
-- cut makes no difference.
use mathlib.Core.Path.{subst}
use native.Mathlib.Decide.{dec_lt}
use native.Mathlib.Nat.{add-zero}
use esp_cf_tunnel.Prelude.{
  ℕ, zero, suc, ◌+◌, ◌-◌, ◌<◌, ◌≤◌, ◌≡◌, refl, ◌∙◌, min, none, some, [], ◌∷◌, ◌++◌, length, take,
  drop, arith, length-append, length-take, length-drop, take-append-drop, take_all, drop_all,
  append-nil, append_assoc, inl, inr, Option-cases,
}
use esp_cf_tunnel.Core.{Bytes, CfResult}
use esp_cf_tunnel.Framing.{Framer, Fed, complete, feed_loop}
use esp_cf_tunnel.Framing.Valid.{IsValid, extend, extend-IsSound, complete-IsValid}

abbrev pub fed : {C : Type 0} → Framer → C → ℕ → CfResult → Fed C
fed f c n rc = record { framer = f; context = c; consumed = n; result = rc }

module _ {C : Type 0} (on_message : C → Bytes → C × CfResult) where
  -- One byte: copied, and looked at.
  unfoldable pub feed_byte : Framer → C → ℕ → Framer × C × CfResult
  feed_byte f c b = complete on_message (extend f (b ∷ [])) c

  unfoldable pub feed_bytes : Bytes → Framer → C → ℕ → Fed C
  feed_bytes [] f c n = fed f c n none
  feed_bytes (b ∷ bs) f c n =
      let step = feed_byte f c b in
      let rest = feed_bytes bs step.0 step.1 (n + 1) in
      elim step.2 [ some e ↦ fed step.0 step.1 (n + 1) (some e) | none ↦ rest ]

  -- What follows a round of the loop.
  abbrev pub after : Framer × C × CfResult → Bytes → ℕ → Fed C
  after step rest n = elim step.2 [
    | some e ↦ fed step.0 step.1 n (some e)
    | none ↦ feed_bytes rest step.0 step.1 n
  ]

  feed_byte_short :
      (f : Framer) (c : C) (b : ℕ)
      → suc (length f.received) < f.target
      → feed_byte f c b ≡ (extend f (b ∷ []), c, none)
  unfolding feed_byte complete
  feed_byte_short f c b h = ground (arith, length-append f.received (b ∷ []))

  -- A byte before the last one awaited is skipped over.
  feed_bytes_skip :
      (f : Framer) (c : C) (x : ℕ) (xs : Bytes) (n : ℕ)
      → suc (length f.received) < f.target
      → feed_bytes (x ∷ xs) f c n ≡ feed_bytes xs (extend f (x ∷ [])) c (n + 1)
  unfolding feed_bytes
  feed_bytes_skip f c x xs n h = ground (arith, feed_byte_short f c x h)

  -- Bytes that do not complete what is awaited are copied and nothing else.
  feed_bytes_short :
      (xs : Bytes) (f : Framer) (c : C) (n : ℕ)
      → length f.received + length xs < f.target
      → feed_bytes xs f c n ≡ fed (extend f xs) c (n + length xs) none
  feed_bytes_short [] f c n h = unfold feed_bytes in rw (append-nil, add-zero)
  feed_bytes_short (x ∷ xs) f c n h =
      let ih =
        feed_bytes_short xs (extend f (x ∷ [])) c (n + 1)
          (omega (arith, length-append f.received (x ∷ []))) in
      let m : n + 1 + length xs ≡ n + suc (length xs) = omega arith in
      feed_bytes_skip f c x xs n (omega arith) ∙ ih ∙ rw (append_assoc, m)

  -- Bytes that complete it exactly act as one round of the loop.
  feed_bytes_fill :
      (x : ℕ) (xs rest : Bytes) (f : Framer) (c : C) (n : ℕ)
      → length f.received + length (x ∷ xs) ≡ f.target
      → feed_bytes ((x ∷ xs) ++ rest) f c n
        ≡ after (complete on_message (extend f (x ∷ xs)) c) rest (n + length (x ∷ xs))
  feed_bytes_fill x [] rest f c n h = unfold feed_bytes feed_byte in refl
  feed_bytes_fill x (y ∷ ys) rest f c n h =
      let ih =
        feed_bytes_fill y ys rest (extend f (x ∷ [])) c (n + 1)
          (omega (arith, length-append f.received (x ∷ []))) in
      let m : n + 1 + length (y ∷ ys) ≡ n + suc (length (y ∷ ys)) = omega arith in
      feed_bytes_skip f c x ((y ∷ ys) ++ rest) n (omega arith) ∙ ih ∙ rw (append_assoc, m)

  complete_short :
      (f : Framer) (c : C) → length f.received < f.target → complete on_message f c ≡ (f, c, none)
  unfolding complete
  complete_short f c h = ground arith

  -- The byte machine makes a round of the loop of `cf_capnp_feed` that copies `k` bytes.
  abbrev pub Rounds : ℕ → Bytes → Framer → C → ℕ → Type 0
  Rounds k xs f c n =
      feed_bytes xs f c n ≡ after (complete on_message (extend f (take k xs)) c) (drop k xs) (n + k)

  pub round_full :
      (k : ℕ) (xs : Bytes) (f : Framer) (c : C) (n : ℕ)
      → length f.received + k ≡ f.target
      → 1 ≤ k
      → k ≤ length xs
      → Rounds k xs f c n
  round_full zero xs f c n h o l = absurd (omega arith)
  round_full (suc j) [] f c n h o l = absurd (omega arith)
  round_full (suc j) (x ∷ xs) f c n h o l =
      let t : length (take j xs) ≡ j = omega (arith, length-take j xs) in
      let fill = feed_bytes_fill x (take j xs) (drop j xs) f c n (omega (arith, t)) in
      subst
        (λ u.
          feed_bytes (x ∷ u) f c n
          ≡ after (complete on_message (extend f (x ∷ take j xs)) c) (drop j xs) (n + suc j))
        (take-append-drop j xs) (rw t at fill)

  round_short :
      (xs : Bytes) (f : Framer) (c : C) (n : ℕ)
      → length f.received + length xs < f.target
      → Rounds (length xs) xs f c n
  unfolding feed_bytes
  round_short xs f c n h =
      let short = complete_short (extend f xs) c (omega (arith, length-append f.received xs)) in
      feed_bytes_short xs f c n h ∙ rw (take_all, drop_all, short)

  feed_bytes_round :
      (xs : Bytes) (f : Framer) (c : C) (n : ℕ)
      → length f.received < f.target
      → 1 ≤ length xs
      → Rounds (min (f.target - length f.received) (length xs)) xs f c n
  feed_bytes_round xs f c n h o = elim (dec_lt (length f.received + length xs) f.target) [
    | yes p ↦
        let m : min (f.target - length f.received) (length xs) ≡ length xs = omega arith in
        rw m (round_short xs f c n p)
    | no p ↦
        let m : min (f.target - length f.received) (length xs) ≡ f.target - length f.received =
          omega arith in
        rw m (
          round_full (f.target - length f.received) xs f c n (omega arith) (omega arith)
            (omega arith))
  ]

  -- On a valid framer the loop never runs out of fuel, and is the byte machine.
  pub feed_loop-eq-feed_bytes :
      (fuel : ℕ) (xs : Bytes) (f : Framer) (c : C) (n : ℕ)
      → length xs ≤ fuel
      → IsValid f
      → feed_loop on_message fuel xs f c n ≡ some (feed_bytes xs f c n)
  unfolding feed_loop
  feed_loop-eq-feed_bytes fuel [] f c n h v = unfold feed_bytes in refl
  feed_loop-eq-feed_bytes zero (b ∷ bs) f c n h v = absurd (omega arith)
  feed_loop-eq-feed_bytes (suc fuel) (b ∷ bs) f c n h v =
      let xs : Bytes = b ∷ bs in
      let k = min (f.target - length f.received) (length xs) in
      let g = extend f (take k xs) in
      let step = complete on_message g c in
      let one : 1 ≤ k = omega (arith, v.room) in
      let fits : length g.received ≤ g.target =
        omega (arith, v.room, length-append f.received (take k xs), length-take k xs) in
      let sound = extend-IsSound f (take k xs) v.sound in
      let shorter : length (drop k xs) ≤ fuel = omega (arith, length-drop k xs) in
      rw (feed_bytes_round xs f c n v.room (omega arith)) (elim (Option-cases step.2) [
        | inl e ↦ ground (
          arith,
          feed_loop-eq-feed_bytes fuel (drop k xs) step.0 step.1 (n + k) shorter
              (complete-IsValid on_message g c sound fits e),
        )
        | inr (x, e) ↦ ground arith
      ])
