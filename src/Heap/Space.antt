-- ===== src/Heap/Space.antt =====
-- The two words of a free space, kernel/libk/list.cpp: the size above the bit that marks the last.
use tetra_os.Base.{ℕ, ◌+◌, ◌*◌, ◌/◌, ◌%◌, ◌^◌, ◌<◌, bit_and, bit_or, ◌≡◌, ◌↔◌, true, false, arith}
use tetra_os.Bits.{bit_and-mask, bit_or-field, bit_or-half, bit_or-zero, bit_or-odd}
use tetra_os.Memory.{
  Bytes, u64, load64, store64, load64-lt, load64-store64_self, Apart, store64-outside,
}
use tetra_os.Heap.{get_size, set_size, is_last, set_last, set_not_last}

module _ (m : Bytes) (space : ℕ) where
  is_last_iff : (is_last m space ≡ true) ↔ (load64 m space % 2 ≡ 1)
  unfolding is_last
  is_last_iff = ground (arith, bit_and-mask 1 (load64 m space))

  pub get_size-lt : get_size m space < 2 ^ 63
  unfolding get_size
  get_size-lt = omega (arith, load64-lt m space)

  status-set_size :
      (size : ℕ)
      → size < 2 ^ 63
      → load64 (set_size m space size) space ≡ size * 2 + load64 m space % 2
  unfolding set_size
  status-set_size size h =
      let bit : bit_and (load64 m space) 1 ≡ load64 m space % 2 = bit_and-mask 1 (load64 m space) in
      let wide : u64 (size * 2) ≡ size * 2 ^ 1 = omega arith in
      let word : bit_or (u64 (size * 2)) (bit_and (load64 m space) 1)
          ≡ size * 2 + load64 m space % 2 =
        rw (bit, wide) (bit_or-field 1 size (load64 m space % 2) (omega arith)) in
      rw word (load64-store64_self m space (size * 2 + load64 m space % 2) (omega arith))

  -- `set_size` sets the size, if it has 63 bits, and keeps the mark.
  pub set_size_lem :
      (size : ℕ)
      → size < 2 ^ 63
      → (get_size (set_size m space size) space ≡ size)
        × (is_last (set_size m space size) space ≡ is_last m space)
  unfolding get_size is_last
  set_size_lem size h = (
    omega (arith, status-set_size size h),
    ground (
      arith,
      status-set_size size h,
      bit_and-mask 1 (load64 (set_size m space size) space),
      bit_and-mask 1 (load64 m space),
    ),
  )

  status-set_last : load64 (set_last m space) space ≡ bit_or (load64 m space) 1
  unfolding set_last
  status-set_last = load64-store64_self m space (bit_or (load64 m space) 1) (
      omega (
        arith,
        load64-lt m space,
        bit_or-half (load64 m space) 1,
        bit_or-zero (load64 m space / 2),
      ))

  -- `set_last` sets the mark and keeps the size.
  pub set_last_lem :
      (is_last (set_last m space) space ≡ true)
      × (get_size (set_last m space) space ≡ get_size m space)
  unfolding get_size is_last
  set_last_lem = (
    ground (
      arith,
      status-set_last,
      bit_and-mask 1 (load64 (set_last m space) space),
      bit_or-odd (load64 m space),
    ),
    omega
        (arith, status-set_last, bit_or-half (load64 m space) 1, bit_or-zero (load64 m space / 2)),
  )

  -- `set_not_last` clears the mark and keeps the size.
  set_not_last_lem :
      (is_last (set_not_last m space) space ≡ false)
      × (get_size (set_not_last m space) space ≡ get_size m space)
  unfolding get_size is_last set_not_last
  set_not_last_lem =
      let value = load64-store64_self m space (u64 (load64 m space / 2 * 2)) (omega arith) in
      (
        ground (
          arith,
          value,
          load64-lt m space,
          bit_and-mask 1 (load64 (store64 m space (u64 (load64 m space / 2 * 2))) space),
        ),
        omega (arith, value, load64-lt m space),
      )

  -- These change only the first word.
  pub set_size-outside : (size b : ℕ) → Apart space 8 b 1 → set_size m space size b ≡ m b
  unfolding set_size
  set_size-outside size b h =
      store64-outside m space (bit_or (u64 (size * 2)) (bit_and (load64 m space) 1)) b h

  pub set_last-outside : (b : ℕ) → Apart space 8 b 1 → set_last m space b ≡ m b
  unfolding set_last
  set_last-outside b h = store64-outside m space (bit_or (load64 m space) 1) b h
