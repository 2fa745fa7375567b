-- ===== src/Heap/Write.antt =====
-- Writes below the free space of the heap, such as those of a program to a block that `kalloc` gave.
use tetra_os.Base.{ℕ, ◌+◌, ◌≤◌, ◌≡◌, refl, sym, ◌∙◌, arith}
use tetra_os.Memory.{Bytes, load64, load64_ext}
use tetra_os.Kernel.{Kernel}
use tetra_os.Address.{get_vpn_0, address_parts}
use tetra_os.Frames.Count.{free_count}
use tetra_os.Paging.Map.{page_path, page_path-IsPath}
use tetra_os.Paging.Stable.{SameLow, heap-IsTree, heap-leaf, heap-free_count}
use tetra_os.Heap.{get_size, is_last}
use tetra_os.Heap.Invariant.{IsHeap, high-IsMappable}

module _ (k : Kernel) (limit base : ℕ) (v : IsHeap k limit base) (m : Bytes) (low : SameLow m k.mem)
    (free : (b : ℕ) → k.free_list ≤ b → m b ≡ k.mem b) where
  header_kept : load64 m k.free_list ≡ load64 k.mem k.free_list
  header_kept = load64_ext m k.mem k.free_list (λ i h. free (k.free_list + i) (omega arith))

  size_kept : get_size m k.free_list ≡ get_size k.mem k.free_list
  unfolding get_size
  size_kept = rw header_kept refl

  last_kept : is_last m k.free_list ≡ is_last k.mem k.free_list
  unfolding is_last
  last_kept = rw header_kept refl

  -- The heap stays one under a write that changes neither the direct mapping nor the free space.
  pub write-IsHeap : IsHeap (record k { mem = m }) limit base
  write-IsHeap = record {
    tree = heap-IsTree k limit v.tree m k.free_list k.virtual_alloc_end low;
    last = last_kept ∙ v.last;
    covers = omega (arith, size_kept, v.covers);
    header = omega (arith, size_kept, v.header);
    behind = v.behind;
    base_high = v.base_high;
    aligned = v.aligned;
    fits = v.fits;
    backed = λ w from to gone.
        let path =
          page_path-IsPath w
            (high-IsMappable w (omega (arith, v.base_high)) (omega (arith, v.fits))) in
        v.backed w from to (
          sym (
            heap-leaf k limit v.tree m k.free_list k.virtual_alloc_end low (page_path w) path
              (get_vpn_0 w) (omega (arith, address_parts w)))
          ∙ gone);
  }

  pub write-free_count : free_count (record k { mem = m }) limit ≡ free_count k limit
  write-free_count = heap-free_count k limit v.tree m k.free_list k.virtual_alloc_end low
