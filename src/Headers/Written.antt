-- ===== src/Headers/Written.antt =====
-- What `cf_headers_encode` of cf_headers.c writes.
use esp_cf_tunnel.Prelude.{
  ℕ, suc, ◌+◌, ◌-◌, ◌≤◌, ◌≡◌, refl, sym, ap, ◌∙◌, true, false, ◌||◌, not, List, [], ◌∷◌, ◌++◌, ltb,
  ◌==◌, if◌then◌else◌, length, length-append, append_assoc, All, arith, inl, inr, Bool-cases,
}
use esp_cf_tunnel.Core.{Bytes, ok, chain_ok, ok-injective}
use esp_cf_tunnel.Base64
use esp_cf_tunnel.Base64.{encode_loop, encoded_size}
use esp_cf_tunnel.Base64.RoundTrip.{length-encode_loop}
use esp_cf_tunnel.Headers.{
  Header, decoded_max, valid_name, valid_value, field_size, need_loop, write_loop,
}

pub encoded_field : (xs : Bytes) → length (encode_loop false xs) ≡ field_size (length xs)
unfolding encoded_size
encoded_field xs = length-encode_loop false xs

-- With the room that `need` counts, the Base64 encoder succeeds.
pub encode_field :
    (xs : Bytes) (room : ℕ)
    → length xs ≤ decoded_max
    → field_size (length xs) ≤ room
    → Base64.encode xs false room ≡ ok (encode_loop false xs)
unfolding Base64.encode encoded_size
encode_field xs room h k = ground arith

-- The text of one entry.
abbrev pub piece : Header → Bytes
piece h = encode_loop false h.name ++ (58 ∷ encode_loop false h.value)

-- The texts of the entries behind the first.
abbrev pub more_pieces : List Header → Bytes
more_pieces [] = []
more_pieces (h ∷ hs) = 59 ∷ (piece h ++ more_pieces hs)

abbrev pub entry_need : Header → ℕ
entry_need h = field_size (length h.name) + (field_size (length h.value) + 1)

-- The bytes of the names and the values.
abbrev pub total : List Header → ℕ
total [] = 0
total (h ∷ hs) = length h.name + length h.value + total hs

abbrev pub IsEntry : Header → Type 0
IsEntry h =
    (valid_name h.name ≡ true)
    × (valid_value h.value ≡ true)
    × (length h.name + length h.value ≤ decoded_max)

pub need_loop_first :
    (h : Header) (hs : List Header) (i decoded : ℕ) {n : ℕ}
    → decoded ≤ decoded_max
    → need_loop (h ∷ hs) i decoded ≡ ok n
    → IsEntry h
      × (decoded + length h.name + length h.value ≤ decoded_max)
      × ((m : ℕ) × (need_loop hs (i + 1) (decoded + length h.name + length h.value) ≡ ok m)
          × (n ≡ entry_need h + (if i == 0 then 0 else 1) + m))
unfolding need_loop
need_loop_first h hs i decoded {n} d e =
    let a = length h.name in
    let b = length h.value in
    elim (Bool-cases (ltb (decoded_max - decoded) a)) [
      | inl t ↦ ground (arith, t, e)
      | inr t ↦ elim (Bool-cases (ltb (decoded_max - (decoded + a)) b)) [
        | inl u ↦ ground (arith, t, u, e)
        | inr u ↦ elim (Bool-cases (not (valid_name h.name) || not (valid_value h.value))) [
          | inl w ↦ ground (arith, t, u, w, e)
          | inr w ↦
              let (m, f, g) =
                chain_ok (need_loop hs (i + 1) (decoded + a + b)) _ (rw (t, u, w) at e) in
              let same = ok-injective g in
              (
                (ground (arith, w), ground (arith, w), ground (arith, t, u, d)),
                ground (arith, t, u, d),
                (m, f, omega (arith, same)),
              )
        ]
      ]
    ]

pub need_loop_room :
    (hs : List Header) (i decoded : ℕ) {n : ℕ}
    → decoded ≤ decoded_max
    → need_loop hs i decoded ≡ ok n
    → All IsEntry hs × (decoded + total hs ≤ decoded_max)
need_loop_room [] i decoded d e = (tt, omega (arith, d))
need_loop_room (h ∷ hs) i decoded d e =
    let (v, room, (m, f, _)) = need_loop_first h hs i decoded d e in
    let (vs, rest) = need_loop_room hs (i + 1) (decoded + length h.name + length h.value) room f in
    ((v, vs), omega (arith, rest))

pub joined :
    (front name value rest : Bytes)
    → front ++ name ++ (58 ∷ []) ++ value ++ rest ≡ front ++ ((name ++ (58 ∷ value)) ++ rest)
joined front name value rest =
    append_assoc (front ++ name ++ (58 ∷ [])) value rest
    ∙ append_assoc (front ++ name) (58 ∷ []) (value ++ rest)
    ∙ append_assoc front name (58 ∷ (value ++ rest))
    ∙ ap (λ q. front ++ q) (sym (append_assoc name (58 ∷ value) rest))

abbrev pub separator : ℕ → Bytes
separator i = if i == 0 then [] else 59 ∷ []

pub write_first :
    (h : Header) (hs : List Header) (i used capacity : ℕ)
    → IsEntry h
    → used + length (separator i) + entry_need h ≤ capacity
    → write_loop (h ∷ hs) i used capacity
      ≡ separator i
        ++ (piece h ++ write_loop hs (i + 1) (used + length (separator i) + entry_need h) capacity)
unfolding write_loop
write_first h hs i used capacity v room =
    let used1 = used + length (separator i) in
    let first = encode_field h.name (capacity - used1) (omega (arith, v)) (omega (arith, room)) in
    let size1 = encoded_field h.name in
    let used2 = used1 + length (encode_loop false h.name) + 1 in
    let second =
      encode_field h.value (capacity - used2) (omega (arith, v)) (omega (arith, room, size1)) in
    let size2 = encoded_field h.value in
    let place : used2 + length (encode_loop false h.value) ≡ used1 + entry_need h =
      omega (arith, size1, size2) in
    rw (first, second, place)
      (joined (separator i) (encode_loop false h.name) (encode_loop false h.value)
        (write_loop hs (i + 1) (used1 + entry_need h) capacity))

pub length-piece :
    (h : Header) (rest : Bytes) → length (piece h ++ rest) ≡ entry_need h + length rest
length-piece h rest =
    let size1 = encoded_field h.name in
    let size2 = encoded_field h.value in
    length-append (piece h) rest
    ∙ omega (
      arith,
      length-append (encode_loop false h.name) (58 ∷ encode_loop false h.value),
      size1,
      size2,
    )

pub write_more :
    (hs : List Header) (i used decoded capacity : ℕ) {n : ℕ}
    → 1 ≤ i
    → decoded ≤ decoded_max
    → need_loop hs i decoded ≡ ok n
    → used + n ≤ capacity
    → (write_loop hs i used capacity ≡ more_pieces hs) × (length (more_pieces hs) ≡ n)
write_more [] i used decoded capacity p d e room =
    unfold write_loop need_loop in (refl, ok-injective e)
write_more (h ∷ hs) i used decoded capacity {n} p d e room =
    let (v, fits, (m, f, same)) = need_loop_first h hs i decoded d e in
    let later : (i == 0) ≡ false = ground (arith, p) in
    let size : n ≡ entry_need h + 1 + m =
      same ∙ ap (λ b. entry_need h + (if b then 0 else 1) + m) later in
    let one : length (separator i) ≡ 1 = rw later refl in
    let (rest, rest_size) =
      write_more hs (i + 1) (used + length (separator i) + entry_need h)
        (decoded + length h.name + length h.value) capacity (omega arith) fits f
        (omega (arith, room, size, one)) in
    (
      write_first h hs i used capacity v (omega (arith, room, size, one))
          ∙ ap
              (λ b.
                (if b then [] else 59 ∷ [])
                ++ (piece h
                    ++ write_loop hs (i + 1) (used + length (separator i) + entry_need h) capacity))
              later
          ∙ ap (λ q. 59 ∷ (piece h ++ q)) rest,
      ap suc (length-piece h (more_pieces hs)) ∙ omega (arith, rest_size, size),
    )

-- The text of a list of entries.
abbrev pub text : List Header → Bytes
text [] = []
text (h ∷ hs) = piece h ++ more_pieces hs

pub write_all :
    (hs : List Header) (capacity : ℕ) {n : ℕ}
    → need_loop hs 0 0 ≡ ok n
    → n ≤ capacity
    → (write_loop hs 0 0 capacity ≡ text hs) × (length (text hs) ≡ n)
write_all [] capacity e room = unfold write_loop need_loop in (refl, ok-injective e)
write_all (h ∷ hs) capacity {n} e room =
    let (v, fits, (m, f, same)) = need_loop_first h hs 0 0 (omega arith) e in
    let (rest, rest_size) =
      write_more hs (0 + 1) (0 + length (separator 0) + entry_need h)
        (0 + length h.name + length h.value) capacity (omega arith) fits f
        (omega (arith, room, same)) in
    (
      write_first h hs 0 0 capacity v (omega (arith, room, same)) ∙ ap (λ q. piece h ++ q) rest,
      length-piece h (more_pieces hs) ∙ omega (arith, rest_size, same),
    )
