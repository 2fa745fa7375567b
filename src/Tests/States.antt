-- ===== src/Tests/States.antt =====
-- Concrete states of the kernel for the tests.
use tetra_os.Base.{ℕ, ◌+◌, ◌^◌, ◌≤◌, ◌≡◌, refl, some, arith}
use tetra_os.Memory.{load8}
use tetra_os.Kernel.{Kernel, virtual_offset}
use tetra_os.Frames.{Linker}
use tetra_os.Frames.Count.{free_count, free_count-all}
use tetra_os.Frames.Init.{IsLinked}
use tetra_os.Paging.{paging_init}
use tetra_os.Paging.Entry.{is_entry_valid_zero}
use tetra_os.Paging.Tree.{table_of}
use tetra_os.Paging.Setup.{IsClean, IsPaged, paging_init_lem}
use tetra_os.Heap.{kalloc, virtual_allocator_init}
use tetra_os.Heap.Invariant.{IsHeap}
use tetra_os.Heap.Take.{IsAllocated}
use tetra_os.Heap.Alloc.{HasRoom, kalloc_lem}
use tetra_os.Heap.Init.{IsBase, virtual_allocator_init-IsHeap}

-- 48 pages of memory behind the kernel's image.
abbrev pub small_linker : Linker
small_linker = record {
  bss_end = virtual_offset + 0x8000_1800;
  physical_heap_start = 0x8000_1800;
  physical_heap_size = 0x2_f800;
}

pub small_linker-IsLinked : IsLinked small_linker
small_linker-IsLinked = omega arith

-- Memory of which nothing is written.
abbrev pub empty_state : Kernel
empty_state = record {
  mem = λ _. 0;
  managed_frames_address_start = virtual_offset + 0x8000_0000;
  first_frame_address = 0x8000_8000;
  first_level_table = 0;
  active_table = 0;
  free_list = 0;
  virtual_alloc_end = 0;
}

pub empty_state-IsClean : IsClean empty_state 32
empty_state-IsClean = record {
  laid = omega arith;
  clean = λ j h z i hi. is_entry_valid_zero (λ _. 0) (table_of empty_state j) i (λ x hx. refl);
}

pub empty_state-free_count : free_count empty_state 32 ≡ 32
empty_state-free_count = free_count-all empty_state 32 (λ j h. unfold load8 in refl)

abbrev pub heap_base : ℕ
heap_base = virtual_offset + 2 ^ 32

pub heap_base-IsBase : IsBase heap_base
heap_base-IsBase = omega arith

-- The state after `paging_init` from empty memory.
pub paged : (k' : Kernel) × (paging_init 32 empty_state ≡ some (tt, k')) × IsPaged empty_state k' 32
paged =
    paging_init_lem 32 32 empty_state (omega arith) empty_state-IsClean
      (omega (arith, empty_state-free_count))

-- The heap behind it.
pub heaped :
    (k' : Kernel) × (virtual_allocator_init heap_base 32 paged.0 ≡ some (tt, k'))
    × IsHeap k' 32 heap_base
    × (k'.free_list ≡ heap_base)
    × (k'.virtual_alloc_end ≡ heap_base + 4096)
    × (free_count paged.0 32 ≤ free_count k' 32 + 4)
heaped =
    virtual_allocator_init-IsHeap 32 32 heap_base paged.0 (omega arith) heap_base-IsBase
      paged.2.tree (omega (arith, empty_state-free_count, paged.2.frames_left))

-- Room for 100 bytes on the page that is there, and for 5000 with one more.
pub heaped-HasRoom : HasRoom heaped.0 32 0 100
heaped-HasRoom = record {
  reach = omega (arith, heaped.2.covers, heaped.3, heaped.4);
  frames = omega arith;
  addresses = omega (arith, heaped.4);
}

pub heaped-HasRoom_large : HasRoom heaped.0 32 1 5000
heaped-HasRoom_large = record {
  reach = omega (arith, heaped.2.covers, heaped.3, heaped.4);
  frames = omega (arith, empty_state-free_count, paged.2.frames_left, heaped.5);
  addresses = omega (arith, heaped.4);
}

pub allocated :
    (k' : Kernel) × (kalloc 32 100 heaped.0 ≡ some (heaped.0.free_list + 16, k'))
    × IsAllocated heaped.0 k' 32 heap_base (heaped.0.free_list + 16) 100 0
allocated =
    kalloc_lem 32 32 heap_base (omega arith) heaped.0 heaped.2 100 0 (omega arith) heaped-HasRoom

pub allocated-HasRoom : HasRoom allocated.0 32 0 200
allocated-HasRoom = record {
  reach = omega (
    arith, allocated.2.heap.covers, allocated.2.next_list, allocated.2.moved, allocated.2.few,
    heaped.3, heaped.4,
  );
  frames = omega arith;
  addresses = omega (arith, allocated.2.moved, allocated.2.few, heaped.4);
}
