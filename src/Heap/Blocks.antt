-- ===== src/Heap/Blocks.antt =====
-- Two calls of `kalloc` in a row.
use tetra_os.Base.{ℕ, ◌+◌, ◌≤◌, ◌<◌, ◌≡◌, subst, Option, some, arith}
use tetra_os.Kernel.{Kernel}
use tetra_os.Heap.{kalloc}
use tetra_os.Heap.Invariant.{IsBacked, IsHeap}
use tetra_os.Heap.Take.{IsAllocated}
use tetra_os.Heap.Alloc.{HasRoom, kalloc_lem}

same_result :
    {o : Option (ℕ × Kernel)} {a b : ℕ} {k k' : Kernel}
    → o ≡ some (a, k)
    → o ≡ some (b, k')
    → (a ≡ b) × (k ≡ k')
same_result p q = (cc, cc)

module _ (fuel limit base : ℕ) (enough : limit ≤ fuel) where
  -- A call with room has the described outcome.
  kalloc-IsAllocated :
      (n size : ℕ) (k k' : Kernel) (at : ℕ)
      → n < fuel
      → IsHeap k limit base
      → HasRoom k limit n size
      → kalloc fuel size k ≡ some (at, k')
      → IsAllocated k k' limit base at size n
  kalloc-IsAllocated n size k k' at pos v room e =
      let (k1, runs, done) = kalloc_lem fuel limit base enough k v size n pos room in
      let (same_at, same_state) = same_result runs e in
      subst (λ (s : Kernel). IsAllocated k s limit base at size n) same_state
        (subst (λ (a : ℕ). IsAllocated k k1 limit base a size n) same_at done)

  -- Two blocks in a row do not meet: the second starts right behind the first and a header. Every
  -- byte of the first block and of its header is kept, and both blocks lie on mapped pages.
  pub kalloc-kalloc :
      (n n' size size' : ℕ) (k k' k'' : Kernel) (at at' : ℕ)
      → n < fuel
      → n' < fuel
      → IsHeap k limit base
      → HasRoom k limit n size
      → kalloc fuel size k ≡ some (at, k')
      → HasRoom k' limit n' size'
      → kalloc fuel size' k' ≡ some (at', k'')
      → (at' ≡ at + size + 16)
        × ((b : ℕ) → k.free_list ≤ b → b < at + size → k''.mem b ≡ k'.mem b)
        × ((b : ℕ) → k.free_list ≤ b → b < at' + size' → IsBacked k'' b)
  kalloc-kalloc n n' size size' k k' k'' at at' pos pos' v room e room' e' =
      let first = kalloc-IsAllocated n size k k' at pos v room e in
      let second = kalloc-IsAllocated n' size' k' k'' at' pos' first.heap room' e' in
      (
        omega (arith, second.at_list, first.next_list),
        (λ b low high.
            second.kept b (omega (arith, v.base_high, v.behind)) (omega (arith, first.next_list))),
        (λ b low high.
            second.heap.backed b (omega (arith, v.behind))
              (omega (arith, second.next_list, second.heap.covers))),
      )
