-- ===== src/Heap/Init.antt =====
-- `virtual_allocator_init` of kernel/memory/virtual_allocator.cpp.
use tetra_os.Base.{
  ℕ, ◌+◌, ◌*◌, ◌%◌, ◌^◌, ◌≤◌, ◌<◌, ◌≡◌, refl, sym, ap, ◌∙◌, inr, true, some, List, arith,
}
use tetra_os.Memory.{u64}
use tetra_os.Kernel.{Kernel, virtual_offset, ◌>>=◌}
use tetra_os.Address.{get_vpn_0, address_parts}
use tetra_os.Frames.{kalloc_frame}
use tetra_os.Frames.Alloc.{flag, after_alloc, kalloc_frame_lem}
use tetra_os.Frames.Count.{free_count, free_frame, free_count-after_alloc}
use tetra_os.Paging.Tree.{IsTree, leaf_at}
use tetra_os.Paging.Map.{page_path, page_path-IsPath, leaf_entry, IsMapped, map_page_lem}
use tetra_os.Paging.Translate.{path_of_page}
use tetra_os.Paging.Stable.{
  with_heap, SameLow, alloc-IsTree, heap-IsTree, heap-leaf, heap-free_count,
}
use tetra_os.Heap.{get_size, set_size, set_last, is_last, virtual_allocator_init}
use tetra_os.Heap.Space.{set_size_lem, set_last_lem, set_size-outside, set_last-outside}
use tetra_os.Heap.Invariant.{IsHeap, high-IsMappable}

-- An address where the heap can start.
pub record IsBase (base : ℕ) : Type 0 where
  pub high : virtual_offset + 2 ^ 32 ≤ base
  pub aligned : base % 4096 ≡ 0
  pub fits : base + 8192 ≤ 2 ^ 64

module _ (fuel limit base : ℕ) (b : IsBase base) (k : Kernel) (v : IsTree k limit) (j : ℕ)
    (below : j < limit) (free : flag k j ≡ 0)
    (r : IsMapped fuel limit (after_alloc k j) base (k.first_frame_address + 4096 * j) 0xf) where
  abbrev first_space : Kernel
  first_space =
      with_heap r.state (set_last (set_size r.state.mem base 4096) base) base (u64 (base + 4096))

  low : SameLow first_space.mem r.state.mem
  low a h =
      set_last-outside (set_size r.state.mem base 4096) base a (inr (omega (arith, b.high)))
      ∙ set_size-outside r.state.mem base 4096 a (inr (omega (arith, b.high)))

  space : (get_size first_space.mem base ≡ 4096) × (is_last first_space.mem base ≡ true)
  space =
      let (mark, kept) = set_last_lem (set_size r.state.mem base 4096) base in
      let (size, _) = set_size_lem r.state.mem base 4096 (omega arith) in (kept ∙ size, mark)

  page :
      (w : ℕ)
      → base ≤ w
      → w < base + 4096
      → leaf_at first_space (page_path w) (get_vpn_0 w)
        ≡ some (leaf_entry (k.first_frame_address + 4096 * j) 0xf)
  page w from to =
      let path =
        page_path-IsPath w (high-IsMappable w (omega (arith, b.high)) (omega (arith, b.fits))) in
      let (same, index) = path_of_page w base (omega (arith, b.aligned)) in
      heap-leaf r.state limit r.tree first_space.mem base (u64 (base + 4096)) low (page_path w) path
        (get_vpn_0 w) (omega (arith, address_parts w))
      ∙ ap (λ (q : List ℕ). leaf_at r.state q (get_vpn_0 w)) same
      ∙ ap (leaf_at r.state (page_path base)) index
      ∙ r.mapped

  first_space-IsHeap : IsHeap first_space limit base
  first_space-IsHeap = record {
    tree = heap-IsTree r.state limit r.tree first_space.mem base (u64 (base + 4096)) low;
    last = space.1;
    covers = omega (arith, space, b.fits);
    header = omega (arith, space);
    behind = omega arith;
    base_high = b.high;
    aligned = omega (arith, b.aligned, b.fits);
    fits = omega (arith, b.fits);
    backed = λ w from to gone. cc (sym (page w from (omega (arith, b.fits))) ∙ gone);
  }

  runs :
      kalloc_frame fuel k ≡ some (k.first_frame_address + 4096 * j, after_alloc k j)
      → virtual_allocator_init base fuel k ≡ some (tt, first_space)
  unfolding virtual_allocator_init
  runs alloc = rw (alloc, ◌>>=◌) (rw (r.runs, ◌>>=◌) refl)

  first_space-free_count : free_count k limit ≤ free_count first_space limit + 4
  first_space-free_count = omega (
    arith,
    r.frames_left,
    free_count-after_alloc k j limit below free,
    heap-free_count r.state limit r.tree first_space.mem base (u64 (base + 4096)) low,
  )

-- With four free frames, `virtual_allocator_init` ends and leaves a heap of one free page.
pub virtual_allocator_init-IsHeap :
    (fuel limit base : ℕ) (k : Kernel)
    → limit ≤ fuel
    → IsBase base
    → IsTree k limit
    → 4 ≤ free_count k limit
    → (k' : Kernel) × (virtual_allocator_init base fuel k ≡ some (tt, k'))
      × IsHeap k' limit base
      × (k'.free_list ≡ base)
      × (k'.virtual_alloc_end ≡ base + 4096)
      × (free_count k limit ≤ free_count k' limit + 4)
virtual_allocator_init-IsHeap fuel limit base k enough b v room =
    let laid = v.laid in
    let (n, from, free) = free_frame k limit (omega arith) in
    let (j, le, first, alloc) =
      kalloc_frame_lem fuel n k (omega arith) (omega (arith, laid.low)) (omega (arith, laid.low))
        free in
    let below : j < limit = omega arith in
    let left = free_count-after_alloc k j limit below first.free in
    let r =
      map_page_lem fuel limit enough (after_alloc k j) (alloc-IsTree k limit v j below) base
        (k.first_frame_address + 4096 * j) 0xf (high-IsMappable base b.high (omega (arith, b.fits)))
        (omega arith) (omega (arith, laid.low)) (omega arith) in
    (
      first_space fuel limit base b k v j below first.free r,
      runs fuel limit base b k v j below first.free r alloc,
      first_space-IsHeap fuel limit base b k v j below first.free r,
      refl,
      omega (arith, b.fits),
      first_space-free_count fuel limit base b k v j below first.free r,
    )
