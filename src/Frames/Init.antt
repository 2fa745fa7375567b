-- ===== src/Frames/Init.antt =====
-- What `physical_allocator_init` sets up, and where the bytes that manage the frames end.
use tetra_os.Base.{
  ℕ, zero, suc, ◌+◌, ◌-◌, ◌*◌, ◌/◌, ◌%◌, ◌^◌, ◌≤◌, ◌<◌, bit_and, ◌≡◌, refl, ap, arith, ℕ_discrete,
}
use tetra_os.Bits.{bit_and-high, bit_and-mask}
use tetra_os.Memory.{Bytes, u64, load8, load8-store8_self, load8-store8_ne}
use tetra_os.Kernel.{Kernel, virtual_offset}
use tetra_os.Frames.{
  Linker, allign_address, free_from, num_frames, set_pageframe_free, physical_allocator_init,
}
use tetra_os.Frames.Alloc.{flag}

-- What the linker script gives: the heap starts where the kernel's image ends, the image is
-- linked at `virtual_offset`, and memory ends on a page boundary above the frames' flags.
pub record IsLinked (l : Linker) : Type 0 where
  pub image : l.bss_end ≡ virtual_offset + l.physical_heap_start
  pub low : l.physical_heap_start + l.physical_heap_size ≤ 2 ^ 32
  pub aligned : (l.physical_heap_start + l.physical_heap_size) % 4096 ≡ 0
  pub roomy : 9 * 4096 ≤ l.physical_heap_size

page_mask : (x : ℕ) → x < 2 ^ 64 → bit_and x (2 ^ 64 - 1 - (4096 - 1)) ≡ x / 4096 * 4096
page_mask x h = omega (arith, bit_and-high 12 (2 ^ 52 - 1) x, bit_and-mask 52 (x / 2 ^ 12))

-- Rounding up to a page, where the sum does not wrap.
allign_address_lem :
    (address : ℕ)
    → address + 4095 < 2 ^ 64
    → allign_address address 4096 ≡ (address + 4095) / 4096 * 4096
unfolding allign_address
allign_address_lem address h = omega (arith, page_mask (u64 (address + 4096 - 1)) (omega arith))

free_from-before :
    (rounds start i : ℕ) (m : Bytes) (b : ℕ)
    → b < start + i
    → load8 (free_from rounds start i m) b ≡ load8 m b
unfolding free_from
free_from-before zero start i m b h = refl
free_from-before (suc rounds) start i m b h = omega (
  arith,
  free_from-before rounds start (i + 1) (set_pageframe_free m (start + i)) b (omega arith),
  load8-store8_ne m (start + i) 0 b (omega arith),
)

free_from-inside :
    (rounds start i : ℕ) (m : Bytes) (j : ℕ)
    → i ≤ j
    → j < i + rounds
    → load8 (free_from rounds start i m) (start + j) ≡ 0
unfolding free_from
free_from-inside zero start i m j low high = absurd (omega arith)
free_from-inside (suc rounds) start i m j low high = elim (ℕ_discrete i j) [
  | yes e ↦
      let m' = set_pageframe_free m (start + i) in
      omega (
        arith,
        free_from-before rounds start (i + 1) m' (start + j) (omega arith),
        ap (λ (t : ℕ). load8 m' (start + t)) e,
        load8-store8_self m (start + i) 0 (omega arith),
      )
  | no ne ↦
      free_from-inside rounds start (i + 1) (set_pageframe_free m (start + i)) j (omega arith)
        (omega arith)
]

-- The state after the initialisation.
pub record IsReady (l : Linker) (k : Kernel) : Type 0 where
  pub flags_behind_image : k.managed_frames_address_start % 4096 ≡ 0
  pub flags_high : virtual_offset ≤ k.managed_frames_address_start
  pub frames_behind_flags :
      k.managed_frames_address_start + 32768 ≡ virtual_offset + k.first_frame_address
  pub frames_aligned : k.first_frame_address % 4096 ≡ 0
  pub frames_after_heap : l.physical_heap_start ≤ k.first_frame_address
  pub frames_in_memory :
      k.first_frame_address + 4096 * num_frames l ≡ l.physical_heap_start + l.physical_heap_size
  pub all_free : (j : ℕ) → j < num_frames l → flag k j ≡ 0

module _ (l : Linker) (k : Kernel) (v : IsLinked l) where
  start_eq :
      (physical_allocator_init l k).managed_frames_address_start
      ≡ virtual_offset + (l.physical_heap_start + 4095) / 4096 * 4096
  unfolding physical_allocator_init
  start_eq = omega (arith, v.image, v.low, allign_address_lem l.bss_end)

  first_eq :
      (physical_allocator_init l k).first_frame_address
      ≡ (l.physical_heap_start + 4095) / 4096 * 4096 + 32768
  unfolding physical_allocator_init
  first_eq = omega (arith, v.low, allign_address_lem (l.physical_heap_start + 8 * 4096))

  amount_eq : num_frames l + 8 ≡ l.physical_heap_size / 4096
  unfolding num_frames
  amount_eq = omega (arith, v.low, v.roomy)

  -- The initialisation puts the flags behind the kernel's image and the frames 8 pages behind the
  -- first flag; the frames are aligned, end exactly where memory ends, and are all free.
  pub physical_allocator_init-IsReady : IsReady l (physical_allocator_init l k)
  physical_allocator_init-IsReady = record {
    flags_behind_image = omega (arith, start_eq);
    flags_high = omega (arith, start_eq);
    frames_behind_flags = omega (arith, start_eq, first_eq);
    frames_aligned = omega (arith, first_eq);
    frames_after_heap = omega (arith, first_eq);
    frames_in_memory = omega (arith, first_eq, amount_eq, v.aligned, v.roomy, v.low);
    all_free = λ j h.
        unfold physical_allocator_init in
        free_from-inside (num_frames l) _ 0 k.mem j (omega arith) (omega arith);
  }

  -- Only the first 32768 flags have room before the frames: from there on, the flag of a frame is
  -- a byte inside another frame.
  pub flag_inside_frame :
      (i : ℕ)
      → 32768 ≤ i
      → i < num_frames l
      → let k' = physical_allocator_init l k in
        let j = (i - 32768) / 4096 in
        (j < i)
        × (virtual_offset + k'.first_frame_address + 4096 * j ≤ k'.managed_frames_address_start + i)
        × (k'.managed_frames_address_start + i
            < virtual_offset + k'.first_frame_address + 4096 * j + 4096)
  flag_inside_frame i low high = omega (arith, start_eq, first_eq)
