-- ===== src/Boot.antt =====
-- The start of the memory managers, as `os_start` of kernel/os.cpp calls them one after another.
use tetra_os.Base.{ℕ, zero, suc, ◌+◌, ◌*◌, ◌≤◌, ◌≡◌, some, arith}
use tetra_os.Memory.{Bytes, store8}
use tetra_os.Kernel.{Kernel, Call, ◌>>=◌, ◌>>◌}
use tetra_os.Frames.{
  Linker, num_frames, free_from, set_pageframe_free, allign_address, physical_allocator_init,
}
use tetra_os.Frames.Count.{free_count, free_count-all}
use tetra_os.Frames.Init.{IsLinked, physical_allocator_init-IsReady}
use tetra_os.Paging.{paging_init}
use tetra_os.Paging.Entry.{is_entry_valid_zero}
use tetra_os.Paging.Tree.{table_of}
use tetra_os.Paging.Setup.{IsClean, paging_init_lem}
use tetra_os.Heap.{virtual_allocator_init}
use tetra_os.Heap.Invariant.{IsHeap}
use tetra_os.Heap.Init.{IsBase, virtual_allocator_init-IsHeap}

unfoldable pub memory_start : Linker → ℕ → ℕ → Call (Unit {0})
memory_start l virtual_heap_start fuel k =
    (paging_init fuel >> virtual_allocator_init virtual_heap_start fuel)
      (physical_allocator_init l k)

free_from-zero :
    (rounds start i : ℕ) (m : Bytes) (b : ℕ) → m b ≡ 0 → free_from rounds start i m b ≡ 0
unfolding free_from store8
free_from-zero zero start i m b h = h
free_from-zero (suc rounds) start i m b h =
    free_from-zero rounds start (i + 1) (set_pageframe_free m (start + i)) b (ground arith)

module _ (l : Linker) (k : Kernel) (v : IsLinked l) (empty : (b : ℕ) → l.bss_end ≤ b → k.mem b ≡ 0)
    (limit : ℕ) (flags : limit ≤ 32768) (frames : limit ≤ num_frames l) where
  started-mem : (b : ℕ) → k.mem b ≡ 0 → (physical_allocator_init l k).mem b ≡ 0
  unfolding physical_allocator_init
  started-mem b h = free_from-zero (num_frames l) (allign_address l.bss_end 4096) 0 k.mem b h

  started-IsClean : IsClean (physical_allocator_init l k) limit
  started-IsClean =
      let r = physical_allocator_init-IsReady l k v in
      record {
        laid = record {
          aligned = r.frames_aligned;
          low = omega (arith, r.frames_in_memory, v.low);
          apart = omega (arith, r.frames_behind_flags);
          flags_high = r.flags_high;
        };
        clean = λ j h z i hi.
            is_entry_valid_zero (physical_allocator_init l k).mem
              (table_of (physical_allocator_init l k) j) i
              (λ x hx.
                let at = table_of (physical_allocator_init l k) j + 8 * i + x in
                started-mem at (empty at (omega (arith, v.image, r.frames_after_heap))));
      }

  -- From memory that is empty behind the kernel's image, with six frames among those whose flags have room, the three initialisations
  -- end one after another, and leave a heap of one free page.
  pub memory_start-IsHeap :
      (fuel base : ℕ)
      → limit ≤ fuel
      → 6 ≤ limit
      → IsBase base
      → (k' : Kernel) × (memory_start l base fuel k ≡ some (tt, k'))
        × IsHeap k' limit base
        × (k'.free_list ≡ base)
        × (limit ≤ free_count k' limit + 6)
  unfolding memory_start
  memory_start-IsHeap fuel base enough six b =
      let r = physical_allocator_init-IsReady l k v in
      let all =
        free_count-all (physical_allocator_init l k) limit (λ j h. r.all_free j (omega arith)) in
      let (k1, pages, paged) =
        paging_init_lem fuel limit (physical_allocator_init l k) enough started-IsClean
          (omega arith) in
      let (k2, heap, is, list, _, left) =
        virtual_allocator_init-IsHeap fuel limit base k1 enough b paged.tree
          (omega (arith, paged.frames_left)) in
      (k2, rw (pages, ◌>>=◌) heap, is, list, omega (arith, paged.frames_left))
