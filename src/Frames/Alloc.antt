-- ===== src/Frames/Alloc.antt =====
-- What `kalloc_frame` and `kfree_frame` of kernel/memory/physical_allocator.cpp do to the flags.
use tetra_os.Base.{
  ℕ, zero, suc, ◌+◌, ◌-◌, ◌*◌, ◌^◌, ◌≤◌, ◌<◌, ◌≡◌, ◌≢◌, ap, sym, ◌∙◌, inl, inr, some, false, arith,
  ℕ_discrete, Bool-cases,
}
use native.Mathlib.Nat.{add_assoc}
use tetra_os.Memory.{Bytes, u64, u32, load8, load8-store8_self, load8-store8_ne}
use tetra_os.Kernel.{Kernel}
use tetra_os.Frames.{
  get_frame_number, set_pageframe_allocated, is_free, first_free, kalloc_frame, kfree_frame,
}

-- The flag of frame `j`.
abbrev pub flag : Kernel → ℕ → ℕ
flag k j = load8 k.mem (k.managed_frames_address_start + j)

-- Frame `i` is the first free one.
pub record IsFirstFree (k : Kernel) (i : ℕ) : Type 0 where
  pub free : flag k i ≡ 0
  pub taken_before : (j : ℕ) → j < i → flag k j ≢ 0

abbrev pub after_alloc : Kernel → ℕ → Kernel
after_alloc k i = record k {
  mem = set_pageframe_allocated k.mem (k.managed_frames_address_start + i);
}

module _ (m : Bytes) (start : ℕ) where
  occupied : (n i : ℕ) → load8 m (start + (i + n)) ≡ 0 → is_free m (start + i) ≡ false → 0 < n
  occupied zero i free miss =
      let e : i + 0 ≡ i = omega arith in absurd (ground (arith, rw e at free))
  occupied (suc n) i free miss = omega arith

  passed :
      (l i j : ℕ)
      → is_free m (start + i) ≡ false
      → i ≤ l
      → l < j
      → ((r : ℕ) → i + 1 ≤ r → r < j → load8 m (start + r) ≢ 0)
      → load8 m (start + l) ≢ 0
  passed l i j miss low high later = elim (ℕ_discrete i l) [
    | yes e ↦ rw (← e) (λ z. ground arith)
    | no ne ↦ later l (omega arith) high
  ]

  wrap : (i : ℕ) → i + 1 < 2 ^ 32 → u32 (i + 1) ≡ i + 1
  wrap i h = omega arith

  -- The search from frame `i` ends at the first free frame, at most `n` further on.
  first_free_from :
      (fuel n i : ℕ)
      → n < fuel
      → i + n < 2 ^ 32
      → load8 m (start + (i + n)) ≡ 0
      → (j : ℕ) × (i ≤ j)
        × (j ≤ i + n)
        × (load8 m (start + j) ≡ 0)
        × ((l : ℕ) → i ≤ l → l < j → load8 m (start + l) ≢ 0)
        × (first_free fuel m (start + i) i ≡ some (start + j, j))
  unfolding first_free
  first_free_from zero n i h lim free = absurd (omega arith)
  first_free_from (suc fuel) n i h lim free = elim (Bool-cases (is_free m (start + i))) [
    | inl hit ↦ (i, omega arith, omega arith, ground arith, (λ l p q. absurd (omega arith)), rw hit)
    | inr miss ↦
        let pos : 0 < n = occupied n i free miss in
        let last : i + 1 + (n - 1) ≡ i + n = omega arith in
        let (j, low, high, at, before, runs) =
          first_free_from fuel (n - 1) (i + 1) (omega arith) (omega arith) (rw last free) in
        (
          j,
          omega arith,
          omega arith,
          at,
          (λ l p q. passed l i j miss p q before),
          rw miss (rw (add_assoc start i 1, wrap i (omega arith)) runs),
        )
  ]

kalloc_frame_found :
    (fuel i : ℕ) (k : Kernel)
    → i < 2 ^ 20
    → k.first_frame_address + 2 ^ 32 ≤ 2 ^ 64
    → first_free fuel k.mem k.managed_frames_address_start 0
      ≡ some (k.managed_frames_address_start + i, i)
    → kalloc_frame fuel k ≡ some (k.first_frame_address + 4096 * i, after_alloc k i)
unfolding kalloc_frame
kalloc_frame_found fuel i k h fits found =
    let e : u64 (k.first_frame_address + u32 (i * 4096)) ≡ k.first_frame_address + 4096 * i =
      omega arith in
    rw (found, kalloc_frame) (ap (λ (a : ℕ). some (a, after_alloc k i)) e)

-- With a free frame `n` in reach of the fuel, the first free frame is returned and marked as
-- allocated; nothing else changes.
pub kalloc_frame_lem :
    (fuel n : ℕ) (k : Kernel)
    → n < fuel
    → n < 2 ^ 20
    → k.first_frame_address + 2 ^ 32 ≤ 2 ^ 64
    → flag k n ≡ 0
    → (i : ℕ) × (i ≤ n)
      × IsFirstFree k i
      × (kalloc_frame fuel k ≡ some (k.first_frame_address + 4096 * i, after_alloc k i))
kalloc_frame_lem fuel n k h lim fits free =
    let start = k.managed_frames_address_start in
    let e : 0 + n ≡ n = omega arith in
    let e' : start + 0 ≡ start = omega arith in
    let (i, _, high, at, before, runs) =
      first_free_from k.mem start fuel n 0 h (omega arith) (rw e free) in
    (
      i,
      omega arith,
      record { free = at; taken_before = λ j q. before j (omega arith) q },
      kalloc_frame_found fuel i k (omega arith) fits (rw e' at runs),
    )

-- The flags after an allocation.
pub flag-after_alloc_self : (k : Kernel) (i : ℕ) → flag (after_alloc k i) i ≡ 1
flag-after_alloc_self k i =
    load8-store8_self k.mem (k.managed_frames_address_start + i) 1 (omega arith)

pub flag-after_alloc_ne : (k : Kernel) (i j : ℕ) → j ≢ i → flag (after_alloc k i) j ≡ flag k j
flag-after_alloc_ne k i j h =
    load8-store8_ne k.mem (k.managed_frames_address_start + i) 1
      (k.managed_frames_address_start + j) (omega arith)

frame_number_of :
    (k : Kernel) (i : ℕ)
    → i < 2 ^ 20
    → k.first_frame_address + 2 ^ 32 ≤ 2 ^ 64
    → get_frame_number k (k.first_frame_address + 4096 * i) ≡ i
unfolding get_frame_number
frame_number_of k i h fits = omega arith

module _ (k : Kernel) (i : ℕ) (h : i < 2 ^ 20) (fits : k.first_frame_address + 2 ^ 32 ≤ 2 ^ 64)
    (free : flag k i ≡ 0) where
  kfree_restores :
      (b : ℕ)
      → load8 (kfree_frame (k.first_frame_address + 4096 * i) (after_alloc k i)).mem b
        ≡ load8 k.mem b
  unfolding kfree_frame
  kfree_restores b =
      let at = k.managed_frames_address_start + i in
      let taken = set_pageframe_allocated k.mem at in
      rw (frame_number_of (after_alloc k i) i h fits) (elim (ℕ_discrete b at) [
        | yes e ↦ rw e (load8-store8_self taken at 0 (omega arith) ∙ sym free)
        | no ne ↦ load8-store8_ne taken at 0 b ne ∙ load8-store8_ne k.mem at 1 b ne
      ])

-- Freeing a frame that was just allocated restores every byte of the memory.
pub kfree_frame-kalloc_frame :
    (fuel n : ℕ) (k : Kernel)
    → n < fuel
    → n < 2 ^ 20
    → k.first_frame_address + 2 ^ 32 ≤ 2 ^ 64
    → flag k n ≡ 0
    → (frame : ℕ) × (k' : Kernel) × (kalloc_frame fuel k ≡ some (frame, k'))
      × ((b : ℕ) → load8 (kfree_frame frame k').mem b ≡ load8 k.mem b)
kfree_frame-kalloc_frame fuel n k h lim fits free =
    let (i, le, first, runs) = kalloc_frame_lem fuel n k h lim fits free in
    (
      k.first_frame_address + 4096 * i,
      after_alloc k i,
      runs,
      kfree_restores k i (omega arith) fits first.free,
    )
