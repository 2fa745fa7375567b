-- ===== src/Frames.antt =====
-- The physical frame allocator, kernel/memory/physical_allocator.cpp: one byte for each 4 KiB
-- frame, 0 for a free frame and 1 for an allocated one. Calls of `log` are left out here; the lines
-- that the initialisation puts are in Start.
pub mod Count
pub mod Alloc
pub mod Init
use tetra_os.Base.{
  ℕ, zero, suc, ◌+◌, ◌-◌, ◌*◌, ◌/◌, ◌^◌, bit_and, Bool, Option, none, some, ◌==◌, if◌then◌else◌,
}
use tetra_os.Memory.{Bytes, u64, u32, load8, store8}
use tetra_os.Kernel.{Kernel, Call}

abbrev frame_size : ℕ
frame_size = 4096

abbrev frames_for_managing : ℕ
frames_for_managing = 8

-- The symbols of the linker script that the allocator reads.
pub record Linker : Type 0 where
  pub bss_end : ℕ
  pub physical_heap_start : ℕ
  pub physical_heap_size : ℕ

unfoldable pub get_frame_number : Kernel → ℕ → ℕ
get_frame_number k frame_address =
    u32 (u64 (frame_address + 2 ^ 64 - k.first_frame_address) / frame_size)

abbrev pub set_pageframe_free : Bytes → ℕ → Bytes
set_pageframe_free m frame = store8 m frame 0

abbrev pub set_pageframe_allocated : Bytes → ℕ → Bytes
set_pageframe_allocated m frame = store8 m frame 1

abbrev pub is_free : Bytes → ℕ → Bool
is_free m frame = load8 m frame == 0

-- `(address + num - 1) & ~(num - 1)`.
unfoldable pub allign_address : ℕ → ℕ → ℕ
allign_address address num = bit_and (u64 (address + num - 1)) (2 ^ 64 - 1 - (num - 1))

-- The loop of the initialisation, with the rounds that are left.
unfoldable pub free_from : ℕ → ℕ → ℕ → Bytes → Bytes
free_from zero start i m = m
free_from (suc rounds) start i m = free_from rounds start (i + 1) (set_pageframe_free m (start + i))

-- `num_frames` is a 32-bit number, and the difference may wrap.
unfoldable pub num_frames : Linker → ℕ
num_frames l = u32 (l.physical_heap_size / frame_size + 2 ^ 32 - frames_for_managing)

unfoldable pub physical_allocator_init : Linker → Kernel → Kernel
unfolding free_from num_frames
physical_allocator_init l k =
    let start = allign_address l.bss_end frame_size in
    record k {
      managed_frames_address_start = start;
      first_frame_address =
          allign_address (l.physical_heap_start + frames_for_managing * frame_size) frame_size;
      mem = free_from (num_frames l) start 0 k.mem;
    }

-- The search of `kalloc_frame` from the flag at `flags`, the one of frame `index`. The source has
-- no bound; here the fuel ends it.
unfoldable pub first_free : ℕ → Bytes → ℕ → ℕ → Option (ℕ × ℕ)
first_free zero m flags index = none
first_free (suc fuel) m flags index =
    let rest = first_free fuel m (flags + 1) (u32 (index + 1)) in
    if is_free m flags then some (flags, index) else rest

unfoldable pub kalloc_frame : ℕ → Call ℕ
unfolding first_free
kalloc_frame fuel k = elim (first_free fuel k.mem k.managed_frames_address_start 0) [
  | none ↦ none
  | some (flags, index) ↦ some (
    u64 (k.first_frame_address + u32 (index * frame_size)),
    record k { mem = set_pageframe_allocated k.mem flags },
  )
]

unfoldable pub kfree_frame : ℕ → Kernel → Kernel
unfolding get_frame_number
kfree_frame frame k = record k {
  mem = set_pageframe_free k.mem (k.managed_frames_address_start + get_frame_number k frame);
}
