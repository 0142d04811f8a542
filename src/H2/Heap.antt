-- ===== src/H2/Heap.antt =====
-- The allocator that cf_h2.c gives to nghttp2: `allocate`, `deallocate`, `resize` and `zero_allocate`. A
-- pointer is the address that `malloc` returned; what the blocks hold is not modelled.
use esp_cf_tunnel.Prelude.{
  ℕ, ◌+◌, ◌-◌, ◌*◌, ◌/◌, ◌≤◌, ◌≡◌, refl, not, ◌&&◌, Option, none, some, List, [], ◌∷◌, ltb, ◌==◌,
  if◌then◌else◌, arith,
}

-- A block that is allocated: its address and its `bytes`, with the header.
pub record Block : Type 0 where
  pub at : ℕ
  pub bytes : ℕ

-- The counters of `cf_h2_stats` for the heap, and the blocks that are allocated.
pub record Heap : Type 0 where
  pub current : ℕ
  pub peak : ℕ
  pub limit : ℕ
  pub blocks : List Block

abbrev pub size_max : ℕ
size_max = 0xffff_ffff

unfoldable pub bytes_at : List Block → ℕ → ℕ
bytes_at [] p = 0
bytes_at (b ∷ bs) p = if b.at == p then b.bytes else bytes_at bs p

-- `free`
unfoldable pub remove : List Block → ℕ → List Block
remove [] p = []
remove (b ∷ bs) p = if b.at == p then bs else b ∷ remove bs p

-- `header` is `sizeof(allocation)`.
module _ (header : ℕ) where
  -- `allocate`; `fresh` is what `malloc` returns.
  unfoldable pub allocate : Option ℕ → ℕ → Heap → Option ℕ × Heap
  allocate fresh size h =
      let total = size + header in
      let current = h.current + total in
      if ltb (h.limit - header) size
      then (none, h)
      else if ltb (h.limit - h.current) total
      then (none, h)
      else elim fresh [
        | none ↦ (none, h)
        | some p ↦ (
          some p,
          record h {
            current = current;
            peak = if ltb h.peak current then current else h.peak;
            blocks = record { at = p; bytes = total } ∷ h.blocks;
          },
        )
      ]

  -- `deallocate`; `none` is NULL.
  unfoldable pub deallocate : Option ℕ → Heap → Heap
  deallocate none h = h
  deallocate (some p) h = record h {
    current = h.current - bytes_at h.blocks p;
    blocks = remove h.blocks p;
  }

  -- `resize`; the old block and the new one are counted together.
  unfoldable pub resize : Option ℕ → Option ℕ → ℕ → Heap → Option ℕ × Heap
  resize none fresh size h = allocate fresh size h
  resize (some p) fresh size h =
      let (next, h') = allocate fresh size h in
      if size == 0
      then (none, deallocate (some p) h)
      else elim next [ none ↦ (none, h') | some q ↦ (some q, deallocate (some p) h') ]

  -- `zero_allocate`
  unfoldable pub zero_allocate : Option ℕ → ℕ → ℕ → Heap → Option ℕ × Heap
  zero_allocate fresh n size h =
      if not (n == 0) && ltb (size_max / n) size then (none, h) else allocate fresh (n * size) h

-- The calls of nghttp2, each with what `malloc` returns.
pub data Call : Type 0 where
  allocates : Option ℕ → ℕ → Call
  frees : Option ℕ → Call
  resizes : Option ℕ → Option ℕ → ℕ → Call
  allocates_zero : Option ℕ → ℕ → ℕ → Call

unfoldable pub step : ℕ → Call → Heap → Heap
step header (allocates fresh size) h = (allocate header fresh size h).1
step header (frees p) h = deallocate header p h
step header (resizes p fresh size) h = (resize header p fresh size h).1
step header (allocates_zero fresh n size) h = (zero_allocate header fresh n size h).1

unfoldable pub run : ℕ → Heap → List Call → Heap
run header h [] = h
run header h (c ∷ cs) = run header (step header c h) cs

unfoldable pub total : List Block → ℕ
total [] = 0
total (b ∷ bs) = b.bytes + total bs

-- The counter is the number of bytes that are allocated, within the limit.
pub record IsAccounted (h : Heap) : Type 0 where
  pub counted : h.current ≡ total h.blocks
  pub within : h.current ≤ h.peak
  pub limited : h.peak ≤ h.limit

-- Freeing a block gives back what it was counted with.
total-remove : (bs : List Block) (p : ℕ) → total (remove bs p) + bytes_at bs p ≡ total bs
unfolding total remove bytes_at
total-remove [] p = refl
total-remove (b ∷ bs) p = ground (arith, total-remove bs p)

module _ (header : ℕ) where
  allocate-IsAccounted :
      (fresh : Option ℕ) (size : ℕ) (h : Heap)
      → IsAccounted h
      → IsAccounted (allocate header fresh size h).1
  unfolding allocate total
  allocate-IsAccounted fresh size h v = ground (arith, v.counted, v.within, v.limited)

  deallocate-IsAccounted :
      (p : Option ℕ) (h : Heap) → IsAccounted h → IsAccounted (deallocate header p h)
  unfolding deallocate
  deallocate-IsAccounted none h v = v
  deallocate-IsAccounted (some p) h v =
      let freed = total-remove h.blocks p in
      record {
        counted = omega (arith, freed, v.counted);
        within = omega (arith, v.within);
        limited = v.limited;
      }

  resize-IsAccounted :
      (p fresh : Option ℕ) (size : ℕ) (h : Heap)
      → IsAccounted h
      → IsAccounted (resize header p fresh size h).1
  unfolding resize
  resize-IsAccounted none fresh size h v = allocate-IsAccounted fresh size h v
  resize-IsAccounted (some p) fresh size h v =
      let (next, h') = allocate header fresh size h in
      let v' = allocate-IsAccounted fresh size h v in
      ground (arith, v', deallocate-IsAccounted (some p) h v, deallocate-IsAccounted (some p) h' v')

  zero_allocate-IsAccounted :
      (fresh : Option ℕ) (n size : ℕ) (h : Heap)
      → IsAccounted h
      → IsAccounted (zero_allocate header fresh n size h).1
  unfolding zero_allocate
  zero_allocate-IsAccounted fresh n size h v =
      ground (arith, v, allocate-IsAccounted fresh (n * size) h v)

  step-IsAccounted : (c : Call) (h : Heap) → IsAccounted h → IsAccounted (step header c h)
  unfolding step
  step-IsAccounted (allocates fresh size) h v = allocate-IsAccounted fresh size h v
  step-IsAccounted (frees p) h v = deallocate-IsAccounted p h v
  step-IsAccounted (resizes p fresh size) h v = resize-IsAccounted p fresh size h v
  step-IsAccounted (allocates_zero fresh n size) h v = zero_allocate-IsAccounted fresh n size h v

  -- Whatever nghttp2 allocates, resizes and frees, in whatever order, and whatever `malloc` returns, the counter of a heap that
  -- is accounted for stays the number of the bytes that are allocated, with their headers, and it stays below its
  -- peak, which stays within the limit.
  pub run-IsAccounted : (cs : List Call) (h : Heap) → IsAccounted h → IsAccounted (run header h cs)
  unfolding run
  run-IsAccounted [] h v = v
  run-IsAccounted (c ∷ cs) h v = run-IsAccounted cs (step header c h) (step-IsAccounted c h v)
