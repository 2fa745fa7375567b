-- ===== src/Frames/Count.antt =====
-- How many frames below a limit are free, and how an allocation changes that.
use tetra_os.Base.{
  ℕ, zero, suc, ◌+◌, ◌≤◌, ◌<◌, ◌≡◌, refl, ap, inl, inr, arith, ◌==◌, if◌then◌else◌, ℕ_discrete,
  Bool-cases,
}
use tetra_os.Kernel.{Kernel}
use tetra_os.Frames.Alloc.{flag, after_alloc, flag-after_alloc_self, flag-after_alloc_ne}

pub free_count : Kernel → ℕ → ℕ
free_count k zero = 0
free_count k (suc n) = free_count k n + (if flag k n == 0 then 1 else 0)

-- Where the count is positive there is a free frame.
pub free_frame :
    (k : Kernel) (limit : ℕ) → 0 < free_count k limit → (n : ℕ) × (n < limit) × (flag k n ≡ 0)
unfolding free_count
free_frame k zero h = absurd (omega arith)
free_frame k (suc n) h = elim (Bool-cases (flag k n == 0)) [
  | inl free ↦ (n, omega arith, ground arith)
  | inr taken ↦ let (m, below, free) = free_frame k n (ground arith) in (m, omega arith, free)
]

free_count-after_alloc_above :
    (k : Kernel) (i limit : ℕ) → limit ≤ i → free_count (after_alloc k i) limit ≡ free_count k limit
unfolding free_count
free_count-after_alloc_above k i zero h = refl
free_count-after_alloc_above k i (suc n) h =
    ground (arith, free_count-after_alloc_above k i n, flag-after_alloc_ne k i n)

-- Allocating a free frame below the limit takes one off the count.
pub free_count-after_alloc :
    (k : Kernel) (i limit : ℕ)
    → i < limit
    → flag k i ≡ 0
    → free_count (after_alloc k i) limit + 1 ≡ free_count k limit
unfolding free_count
free_count-after_alloc k i zero h free = absurd (omega arith)
free_count-after_alloc k i (suc n) h free = elim (ℕ_discrete i n) [
  | yes e ↦
      let below = free_count-after_alloc_above k i n (omega arith) in
      ground (arith, ap (flag k) e, ap (flag (after_alloc k i)) e, flag-after_alloc_self k i)
  | no ne ↦ ground (arith, free_count-after_alloc k i n, flag-after_alloc_ne k i n)
]

-- The count depends on the flags alone.
pub free_count_ext :
    (k k' : Kernel) (limit : ℕ)
    → ((j : ℕ) → j < limit → flag k j ≡ flag k' j)
    → free_count k limit ≡ free_count k' limit
unfolding free_count
free_count_ext k k' zero h = refl
free_count_ext k k' (suc n) h =
    ground (arith, h n, free_count_ext k k' n (λ j q. h j (omega arith)))

-- Where every flag is 0, all frames count.
pub free_count-all :
    (k : Kernel) (limit : ℕ) → ((j : ℕ) → j < limit → flag k j ≡ 0) → free_count k limit ≡ limit
unfolding free_count
free_count-all k zero h = refl
free_count-all k (suc n) h = ground (arith, h n, free_count-all k n (λ j q. h j (omega arith)))
