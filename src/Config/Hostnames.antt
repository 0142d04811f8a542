-- ===== src/Config/Hostnames.antt =====
-- The host names that cf_config.c accepts: labels between dots, as RFC 1123 has them, in lower case.
use esp_cf_tunnel.Prelude.{
  ℕ, ◌+◌, ◌≤◌, ◌≡◌, inl, inr, refl, sym, Bool, true, false, ◌||◌, ◌&&◌, not, List, [], ◌∷◌, ltb,
  leb, ◌==◌, if◌then◌else◌, length, get_or, arith, Bool-cases,
}
use esp_cf_tunnel.Core.{Bytes}
use esp_cf_tunnel.Config.{hyphen, dot, host_char, hostname_max, hostname_loop, hostname_valid}

unfoldable pub last_or : Bytes → ℕ → ℕ
last_or [] d = d
last_or (x ∷ xs) d = last_or xs x

unfoldable pub all_host : Bytes → Bool
all_host [] = true
all_host (c ∷ cs) = host_char c && all_host cs

-- A label behind `n` characters of it, the last of which is `b`.
unfoldable tail_good : ℕ → ℕ → Bytes → Bool
tail_good n b l =
    leb 1 (n + length l) && leb (n + length l) 63 && all_host l && not (last_or l b == hyphen)

-- A label: 1 to 63 lower-case letters, digits and hyphens, with no hyphen at either end.
unfoldable pub is_label : Bytes → Bool
is_label l =
    leb 1 (length l)
    && leb (length l) 63
    && all_host l
    && not (last_or l 0 == hyphen)
    && not (get_or l 0 0 == hyphen)

unfoldable pub all_labels : List Bytes → Bool
all_labels [] = true
all_labels (l ∷ ls) = is_label l && all_labels ls

-- The text between the dots: the first piece and the others.
unfoldable pub split : Bytes → Bytes × List Bytes
split [] = ([], [])
split (c ∷ cs) =
    let rest = split cs in if c == dot then ([], rest.0 ∷ rest.1) else (c ∷ rest.0, rest.1)

-- A host name: at most 253 characters, and labels between its dots.
unfoldable pub is_hostname : Bytes → Bool
is_hostname s = leb (length s) hostname_max && is_label (split s).0 && all_labels (split s).1

first-split : (cs : Bytes) → (get_or (split cs).0 0 0 == hyphen) ≡ (get_or cs 0 0 == hyphen)
unfolding split
first-split [] = refl
first-split (c ∷ cs) = ground arith

get_or-last : (s : Bytes) (d x : ℕ) → get_or (x ∷ s) (length s) d ≡ last_or s x
unfolding last_or
get_or-last [] d x = refl
get_or-last (y ∷ s) d x = get_or-last s d y

-- Behind a dot a label begins.
tail-label :
    (b : ℕ) (l : Bytes)
    → not (b == hyphen) ≡ true
    → (tail_good 0 b l && not (get_or l 0 0 == hyphen)) ≡ is_label l
unfolding tail_good is_label last_or
tail-label b [] h = refl
tail-label b (x ∷ l) h = ground arith

at_dot : (c : ℕ) (cs : Bytes) → c == dot ≡ true → split (c ∷ cs) ≡ ([], (split cs).0 ∷ (split cs).1)
unfolding split
at_dot c cs d = rw (d) refl

off_dot :
    (c : ℕ) (cs : Bytes) → c == dot ≡ false → split (c ∷ cs) ≡ (c ∷ (split cs).0, (split cs).1)
unfolding split
off_dot c cs d = rw (d) refl

loop-dot :
    (b n c : ℕ) (cs : Bytes)
    → c == dot ≡ true
    → hostname_loop b n (c ∷ cs)
      ≡ (not (n == 0 || b == hyphen || get_or cs 0 0 == hyphen) && hostname_loop c 0 cs)
unfolding hostname_loop
loop-dot b n c cs d = ground (arith, d)

loop-char :
    (b n c : ℕ) (cs : Bytes)
    → c == dot ≡ false
    → hostname_loop b n (c ∷ cs)
      ≡ (host_char c && not (ltb 63 (n + 1)) && hostname_loop c (n + 1) cs)
unfolding hostname_loop
loop-char b n c cs d = ground (arith, d)

tail-char :
    (b n c : ℕ) (l : Bytes)
    → tail_good n b (c ∷ l) ≡ (host_char c && not (ltb 63 (n + 1)) && tail_good (n + 1) c l)
unfolding tail_good all_host last_or
tail-char b n c l = ground arith

tail_nil : (b n : ℕ) → tail_good n b [] ≡ (leb 1 n && leb n 63 && not (b == hyphen))
unfolding tail_good all_host last_or
tail_nil b n = ground arith

last-cons : (b c : ℕ) (cs : Bytes) → last_or (c ∷ cs) b ≡ last_or cs c
unfolding last_or
last-cons b c cs = refl

labels-cons : (l : Bytes) (ls : List Bytes) → all_labels (l ∷ ls) ≡ (is_label l && all_labels ls)
unfolding all_labels
labels-cons l ls = refl

loop_nil :
    (b n : ℕ)
    → n ≤ 63
    → (hostname_loop b n [] && not (last_or [] b == hyphen))
      ≡ (tail_good n b (split []).0 && all_labels (split []).1)
unfolding hostname_loop last_or tail_good split all_labels all_host
loop_nil b n small = ground (arith, small)

hostname_loop-labels :
    (b n : ℕ) (cs : Bytes)
    → n ≤ 63
    → (hostname_loop b n cs && not (last_or cs b == hyphen))
      ≡ (tail_good n b (split cs).0 && all_labels (split cs).1)
hostname_loop-labels b n [] small = loop_nil b n small
hostname_loop-labels b n (c ∷ cs) small = elim (Bool-cases (c == dot)) [
  | inl d ↦
      rw
        (
          loop-dot b n c cs d,
          at_dot c cs d,
          tail_nil b n,
          last-cons b c cs,
          labels-cons (split cs).0 (split cs).1,
        )
        (ground (
          arith,
          small,
          d,
          hostname_loop-labels c 0 cs (omega arith),
          first-split cs,
          tail-label c (split cs).0 (ground (arith, d)),
        ))
  | inr d ↦
      rw (loop-char b n c cs d, off_dot c cs d, tail-char b n c (split cs).0, last-cons b c cs)
        (elim (Bool-cases (ltb 63 (n + 1))) [
          | inl t ↦ ground (arith, t)
          | inr t ↦ ground (arith, t, hostname_loop-labels c (n + 1) cs (ground (arith, t)))
        ])
]

empty_refused : is_hostname [] ≡ false
unfolding is_hostname is_label split
empty_refused = refl

-- `hostname_valid` accepts the host names, and nothing else: at most 253 characters, and between the dots labels of 1
-- to 63 lower-case letters, digits and hyphens that neither begin nor end with a hyphen.
pub hostname_valid-is_hostname : (s : Bytes) → hostname_valid s ≡ is_hostname s
unfolding hostname_valid is_hostname
hostname_valid-is_hostname [] = sym empty_refused
hostname_valid-is_hostname (x ∷ s) =
    let loop = hostname_loop-labels 0 0 (x ∷ s) (omega arith) in
    ground (
      arith,
      loop,
      first-split (x ∷ s),
      tail-label 0 (split (x ∷ s)).0 refl,
      get_or-last s 0 x,
      last-cons 0 x s,
    )
