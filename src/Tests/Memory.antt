-- ===== src/Tests/Memory.antt =====
-- The memory managers at concrete inputs.
use tetra_os.Base.{ℕ, ◌+◌, ◌*◌, ◌≤◌, ◌<◌, ◌≡◌, refl, some, arith}
use tetra_os.Memory.{load8}
use tetra_os.Kernel.{Kernel, virtual_offset}
use tetra_os.Address.{get_vpn_3, get_vpn_2}
use tetra_os.Frames.{
  Linker, allign_address, kalloc_frame, kfree_frame, num_frames, physical_allocator_init,
}
use tetra_os.Frames.Alloc.{after_alloc, IsFirstFree, kalloc_frame_lem, kfree_frame-kalloc_frame}
use tetra_os.Frames.Count.{free_count}
use tetra_os.Frames.Init.{IsLinked, IsReady, physical_allocator_init-IsReady, flag_inside_frame}
use tetra_os.Paging.{paging_init, map_page}
use tetra_os.Paging.Tree.{IsTree}
use tetra_os.Paging.Map.{IsMappable}
use tetra_os.Paging.Translate.{IsRemapped, map_page-translate}
use tetra_os.Paging.Setup.{IsPaged, paging_init_lem}
use tetra_os.Heap.{kalloc}
use tetra_os.Heap.Invariant.{IsBacked, IsHeap}
use tetra_os.Heap.Take.{IsAllocated}
use tetra_os.Heap.Alloc.{kalloc_lem}
use tetra_os.Heap.Blocks.{kalloc-kalloc}
use tetra_os.Boot.{memory_start, memory_start-IsHeap}
use tetra_os.Tests.States.{
  small_linker, small_linker-IsLinked, empty_state, empty_state-IsClean, empty_state-free_count,
  heap_base, heap_base-IsBase, paged, heaped, heaped-HasRoom, heaped-HasRoom_large, allocated,
  allocated-HasRoom,
}

aligned_up : allign_address 0x8000_1801 4096 ≡ 0x8000_2000
unfolding allign_address
aligned_up = refl

parts_of_heap_base : (get_vpn_3 heap_base ≡ 256) × (get_vpn_2 heap_base ≡ 4)
unfolding get_vpn_3 get_vpn_2
parts_of_heap_base = (refl, refl)

pub small_linker-num_frames : num_frames small_linker ≡ 39
unfolding num_frames
small_linker-num_frames = refl

low_page-IsMappable : IsMappable 0x1000
low_page-IsMappable = unfold get_vpn_2 get_vpn_3 in refl

map_page-translate_example :
    (k' : Kernel) × (map_page 32 0x1000 0x8002_0000 0x1f paged.0 ≡ some (tt, k'))
    × IsTree k' 32
    × IsRemapped paged.0 k' 0x1000 0x8002_0000
map_page-translate_example =
    map_page-translate 32 32 paged.0 0x1000 0x8002_0000 0x1f (omega arith) paged.2.tree
      low_page-IsMappable (omega (arith, empty_state-free_count, paged.2.frames_left)) (omega arith)
      refl (omega arith)

memory_start-IsHeap_example :
    (k' : Kernel) × (memory_start small_linker heap_base 32 empty_state ≡ some (tt, k'))
    × IsHeap k' 32 heap_base
    × (k'.free_list ≡ heap_base)
    × (32 ≤ free_count k' 32 + 6)
memory_start-IsHeap_example =
    memory_start-IsHeap small_linker empty_state small_linker-IsLinked (λ b h. refl) 32
      (omega arith) (omega (arith, small_linker-num_frames)) 32 heap_base (omega arith)
      (omega arith) heap_base-IsBase

kalloc_lem_example :
    (k' : Kernel) × (kalloc 32 5000 heaped.0 ≡ some (heaped.0.free_list + 16, k'))
    × IsAllocated heaped.0 k' 32 heap_base (heaped.0.free_list + 16) 5000 1
kalloc_lem_example =
    kalloc_lem 32 32 heap_base (omega arith) heaped.0 heaped.2 5000 1 (omega arith)
      heaped-HasRoom_large

kalloc_again :
    (k' : Kernel) × (kalloc 32 200 allocated.0 ≡ some (allocated.0.free_list + 16, k'))
    × IsAllocated allocated.0 k' 32 heap_base (allocated.0.free_list + 16) 200 0
kalloc_again =
    kalloc_lem 32 32 heap_base (omega arith) allocated.0 allocated.2.heap 200 0 (omega arith)
      allocated-HasRoom

kalloc-kalloc_example :
    let at = heaped.0.free_list + 16 in
    let at' = allocated.0.free_list + 16 in
    let last = kalloc_again.0 in
    (at' ≡ at + 100 + 16)
    × ((b : ℕ) → heaped.0.free_list ≤ b → b < at + 100 → last.mem b ≡ allocated.0.mem b)
    × ((b : ℕ) → heaped.0.free_list ≤ b → b < at' + 200 → IsBacked last b)
kalloc-kalloc_example =
    kalloc-kalloc 32 32 heap_base (omega arith) 0 0 100 200 heaped.0 allocated.0 kalloc_again.0
      (heaped.0.free_list + 16) (allocated.0.free_list + 16) (omega arith) (omega arith) heaped.2
      heaped-HasRoom allocated.1 allocated-HasRoom kalloc_again.1

paging_init_lem_example :
    (k' : Kernel) × (paging_init 32 empty_state ≡ some (tt, k')) × IsPaged empty_state k' 32
paging_init_lem_example =
    paging_init_lem 32 32 empty_state (omega arith) empty_state-IsClean
      (omega (arith, empty_state-free_count))

kalloc_frame_lem_example :
    (i : ℕ) × (i ≤ 3)
    × IsFirstFree empty_state i
    × (kalloc_frame 32 empty_state
        ≡ some (empty_state.first_frame_address + 4096 * i, after_alloc empty_state i))
kalloc_frame_lem_example =
    kalloc_frame_lem 32 3 empty_state (omega arith) (omega arith) (omega arith)
      (unfold load8 in refl)

kfree_frame-kalloc_frame_example :
    (frame : ℕ) × (k' : Kernel) × (kalloc_frame 32 empty_state ≡ some (frame, k'))
    × ((b : ℕ) → load8 (kfree_frame frame k').mem b ≡ load8 empty_state.mem b)
kfree_frame-kalloc_frame_example =
    kfree_frame-kalloc_frame 32 3 empty_state (omega arith) (omega arith) (omega arith)
      (unfold load8 in refl)

physical_allocator_init-IsReady_example :
    IsReady small_linker (physical_allocator_init small_linker empty_state)
physical_allocator_init-IsReady_example =
    physical_allocator_init-IsReady small_linker empty_state small_linker-IsLinked

-- The symbols for a machine with its 2 GiB of memory.
abbrev machine_linker : Linker
machine_linker = record {
  bss_end = virtual_offset + 0x8000_1800;
  physical_heap_start = 0x8000_1800;
  physical_heap_size = 0x7fff_e800;
}

machine_linker-IsLinked : IsLinked machine_linker
machine_linker-IsLinked = omega arith

machine_linker-num_frames : num_frames machine_linker ≡ 524278
unfolding num_frames
machine_linker-num_frames = refl

flag_inside_frame_example :
    let k' = physical_allocator_init machine_linker empty_state in
    (1 < 40000)
    × (virtual_offset + k'.first_frame_address + 4096 * 1 ≤ k'.managed_frames_address_start + 40000)
    × (k'.managed_frames_address_start + 40000
        < virtual_offset + k'.first_frame_address + 4096 * 1 + 4096)
flag_inside_frame_example =
    flag_inside_frame machine_linker empty_state machine_linker-IsLinked 40000 (omega arith)
      (omega (arith, machine_linker-num_frames))
