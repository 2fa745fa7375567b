-- ===== src/Heap/Grow.antt =====
-- The loop of `kalloc` that maps more pages behind the last free space.
use tetra_os.Base.{
  ℕ, ◌+◌, ◌*◌, ◌^◌, ◌≤◌, ◌<◌, ◌≡◌, refl, ◌≢◌, sym, ap, ◌∙◌, inl, inr, some, List, arith, dec_lt,
}
use tetra_os.Memory.{Bytes, u64, load64_ext}
use tetra_os.Kernel.{IsOther, Kernel, virtual_offset}
use tetra_os.Address.{get_vpn_0, address_parts}
use tetra_os.Frames.Alloc.{flag, after_alloc}
use tetra_os.Frames.Count.{free_count, free_count-after_alloc}
use tetra_os.Paging.Tree.{leaf_at, IsPath}
use tetra_os.Paging.Map.{page_path, page_path-IsPath, leaf_entry, IsMapped}
use tetra_os.Paging.Translate.{page_of, path_of_page, page_of_path}
use tetra_os.Paging.Change.{after_alloc-outside}
use tetra_os.Paging.Stable.{with_heap, alloc-leaf, heap-IsTree, heap-leaf, heap-free_count}
use tetra_os.Heap.{get_size, set_size, is_last}
use tetra_os.Heap.Space.{set_size_lem, set_size-outside}
use tetra_os.Heap.Invariant.{IsBacked, IsHeap, high-IsMappable}

-- The words of a free space depend on its bytes.
space_ext :
    (m n : Bytes) (space : ℕ)
    → ((i : ℕ) → i < 8 → m (space + i) ≡ n (space + i))
    → (get_size m space ≡ get_size n space) × (is_last m space ≡ is_last n space)
unfolding get_size is_last
space_ext m n space h = let e = load64_ext m n space h in (rw e refl, rw e refl)

-- One round: the state after it.
pub record IsGrown (k k' : Kernel) (limit base : ℕ) : Type 0 where
  pub heap : IsHeap k' limit base
  pub same_list : k'.free_list ≡ k.free_list
  pub larger : get_size k'.mem k.free_list ≡ get_size k.mem k.free_list + 4096
  pub end_moved : k'.virtual_alloc_end ≡ k.virtual_alloc_end + 4096
  pub frames_left : free_count k limit ≤ free_count k' limit + 4
  pub kept : (b : ℕ) → virtual_offset + 2 ^ 32 ≤ b → b < k.free_list → k'.mem b ≡ k.mem b
  pub user : (b : ℕ) → b < virtual_offset → k'.mem b ≡ k.mem b

-- From the mapped page on, the round writes the new size and moves the end.
module _ (fuel limit base : ℕ) (k : Kernel) (v : IsHeap k limit base) (j : ℕ) (below : j < limit)
    (free : flag k j ≡ 0) (space : k.virtual_alloc_end + 8192 ≤ 2 ^ 64)
    (r : IsMapped fuel limit
      (after_alloc k j)
      k.virtual_alloc_end
      (k.first_frame_address + 4096 * j)
      0xf) where
  abbrev pub resized : Kernel
  resized =
      with_heap r.state
        (set_size r.state.mem k.free_list (u64 (get_size r.state.mem k.free_list + 4096)))
        r.state.free_list (u64 (r.state.virtual_alloc_end + 4096))

  mapped-mem : (b : ℕ) → IsOther b → r.state.mem b ≡ k.mem b
  mapped-mem b h = r.outside b h ∙ after_alloc-outside k limit v.tree.laid j below b h

  mapped-space :
      (get_size r.state.mem k.free_list ≡ get_size k.mem k.free_list)
      × (is_last r.state.mem k.free_list ≡ is_last k.mem k.free_list)
  mapped-space =
      space_ext r.state.mem k.mem k.free_list
        (λ i h. mapped-mem (k.free_list + i) (inl (omega (arith, v.base_high, v.behind))))

  resized-space :
      (get_size resized.mem k.free_list ≡ get_size k.mem k.free_list + 4096)
      × (is_last resized.mem k.free_list ≡ is_last k.mem k.free_list)
  resized-space =
      let (size, mark) = mapped-space in
      let (size', mark') =
        set_size_lem r.state.mem k.free_list (u64 (get_size r.state.mem k.free_list + 4096))
          (omega (arith, size, v.covers, v.base_high, v.behind)) in
      (omega (arith, size', size, v.covers), mark' ∙ mark)

  resized-low : (b : ℕ) → b < virtual_offset + 2 ^ 32 → resized.mem b ≡ r.state.mem b
  resized-low b h =
      set_size-outside r.state.mem k.free_list (u64 (get_size r.state.mem k.free_list + 4096)) b
        (inr (omega (arith, v.base_high, v.behind)))

  resized-leaf :
      (q : List ℕ) → IsPath q → (x : ℕ) → x < 512 → leaf_at resized q x ≡ leaf_at r.state q x
  resized-leaf =
      heap-leaf r.state limit r.tree resized.mem r.state.free_list resized.virtual_alloc_end
        resized-low

  old_page :
      (w : ℕ)
      → base ≤ w
      → w < k.virtual_alloc_end
      → leaf_at resized (page_path w) (get_vpn_0 w) ≡ leaf_at k (page_path w) (get_vpn_0 w)
  old_page w low high =
      let path =
        page_path-IsPath w (high-IsMappable w (omega (arith, v.base_high)) (omega arith)) in
      let index : get_vpn_0 w < 512 = omega (arith, address_parts w) in
      let apart : page_of w ≢ page_of k.virtual_alloc_end =
        omega (arith, v.base_high, v.behind, v.covers, v.aligned) in
      resized-leaf (page_path w) path (get_vpn_0 w) index
      ∙ r.others (page_path w) path refl (get_vpn_0 w) index
          (λ e d. apart (page_of_path w k.virtual_alloc_end e (sym d)))
      ∙ alloc-leaf k limit v.tree j below (page_path w) path (get_vpn_0 w) index

  new_page :
      (w : ℕ)
      → k.virtual_alloc_end ≤ w
      → w < k.virtual_alloc_end + 4096
      → leaf_at resized (page_path w) (get_vpn_0 w)
        ≡ some (leaf_entry (k.first_frame_address + 4096 * j) 0xf)
  new_page w low high =
      let path =
        page_path-IsPath w
          (high-IsMappable w (omega (arith, v.base_high, v.behind, v.covers)) (omega arith)) in
      let (same, index) = path_of_page w k.virtual_alloc_end (omega (arith, v.aligned)) in
      resized-leaf (page_path w) path (get_vpn_0 w) (omega (arith, address_parts w))
      ∙ ap (λ (q : List ℕ). leaf_at r.state q (get_vpn_0 w)) same
      ∙ ap (leaf_at r.state (page_path k.virtual_alloc_end)) index
      ∙ r.mapped

  -- A page that was backed stays so, and the new one is.
  resized-IsBacked : (w : ℕ) → base ≤ w → w < k.virtual_alloc_end + 4096 → IsBacked resized w
  resized-IsBacked w low high gone = elim (dec_lt w k.virtual_alloc_end) [
    | yes old ↦ v.backed w low old (sym (old_page w low old) ∙ gone)
    | no new ↦ absurd (cc (sym (new_page w (omega arith) high) ∙ gone))
  ]

  end_eq : resized.virtual_alloc_end ≡ k.virtual_alloc_end + 4096
  end_eq = omega (arith, r.same_end)

  resized-IsHeap : IsHeap resized limit base
  resized-IsHeap =
      let (size, mark) = resized-space in
      let list = r.same_list in
      record {
        tree =
            heap-IsTree r.state limit r.tree resized.mem r.state.free_list resized.virtual_alloc_end
              resized-low;
        last = ap (is_last resized.mem) list ∙ mark ∙ v.last;
        covers = omega (arith, ap (get_size resized.mem) list, size, list, end_eq, v.covers);
        header = omega (arith, ap (get_size resized.mem) list, size);
        behind = omega (arith, list, v.behind);
        base_high = v.base_high;
        aligned = omega (arith, end_eq, v.aligned);
        fits = omega (arith, end_eq);
        backed = λ w low high. resized-IsBacked w low (omega (arith, end_eq));
      }

  pub resized-IsGrown : IsGrown k resized limit base
  resized-IsGrown = record {
    heap = resized-IsHeap;
    same_list = r.same_list;
    larger = resized-space.0;
    end_moved = end_eq;
    frames_left = omega (
      arith,
      r.frames_left,
      free_count-after_alloc k j limit below free,
      heap-free_count r.state limit r.tree resized.mem r.state.free_list resized.virtual_alloc_end
          resized-low,
    );
    kept = λ b low high.
        set_size-outside r.state.mem k.free_list (u64 (get_size r.state.mem k.free_list + 4096)) b
          (inr (omega arith))
        ∙ mapped-mem b (inl low);
    user = λ b low. resized-low b (omega arith) ∙ mapped-mem b (inr low);
  }
