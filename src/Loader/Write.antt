-- ===== src/Loader/Write.antt =====
-- Writes to the memory of a process, below the direct mapping of the kernel.
use tetra_os.Base.{ℕ, ◌+◌, ◌*◌, ◌≤◌, ◌<◌, ◌≡◌, refl, sym, ap, ◌∙◌, Option, arith}
use tetra_os.Memory.{Bytes, load8_ext, load64, load64_ext}
use tetra_os.Kernel.{Kernel, virtual_offset}
use tetra_os.Frames.Alloc.{flag}
use tetra_os.Frames.Count.{free_count, free_count_ext}
use tetra_os.Paging.{get_entry, get_physical_address_of_virtual_address}
use tetra_os.Paging.Tree.{leaf_at, table_of, IsTree}
use tetra_os.Paging.Stable.{stable-IsTree, stable-leaf}
use tetra_os.Paging.Map.{page_path, page_path-IsPath, IsMappable}
use tetra_os.Paging.Translate.{address_in, translate-leaf}
use tetra_os.Heap.{get_size, is_last}
use tetra_os.Heap.Invariant.{IsHeap, high-IsMappable}
use tetra_os.Address.{get_vpn_0, get_offset, address_parts}

module _ (k : Kernel) (limit : ℕ) (v : IsTree k limit) (m : Bytes)
    (same : (b : ℕ) → virtual_offset ≤ b → m b ≡ k.mem b) where
  user-entries :
      (l x : ℕ)
      → l < limit
      → x < 512
      → get_entry m (table_of k l) x ≡ get_entry k.mem (table_of k l) x
  unfolding get_entry
  user-entries l x hl hx =
      load64_ext m k.mem (table_of k l + 8 * x)
        (λ i h. same (table_of k l + 8 * x + i) (omega arith))

  user-flag : (l : ℕ) → flag (record k { mem = m }) l ≡ flag k l
  user-flag l =
      load8_ext m k.mem (k.managed_frames_address_start + l)
        (same (k.managed_frames_address_start + l) (omega (arith, v.laid.flags_high)))

  -- The tables stay a tree, and as many frames are free.
  pub user-IsTree : IsTree (record k { mem = m }) limit
  user-IsTree =
      stable-IsTree k limit v m k.free_list k.virtual_alloc_end user-entries
        (λ l h t z. t (sym (user-flag l) ∙ z))

  pub user-free_count : free_count (record k { mem = m }) limit ≡ free_count k limit
  user-free_count = free_count_ext (record k { mem = m }) k limit (λ j h. user-flag j)

  pub user-leaf :
      (w : ℕ)
      → IsMappable w
      → leaf_at (record k { mem = m }) (page_path w) (get_vpn_0 w)
        ≡ leaf_at k (page_path w) (get_vpn_0 w)
  user-leaf w mappable =
      stable-leaf k limit v m k.free_list k.virtual_alloc_end user-entries
        (λ l h t z. t (sym (user-flag l) ∙ z)) (page_path w) (page_path-IsPath w mappable)
        (get_vpn_0 w) (omega (arith, address_parts w))

  -- Other translations than those of the direct mapping are as before.
  pub user-translate :
      (w : ℕ)
      → IsMappable w
      → get_physical_address_of_virtual_address (record k { mem = m }) w
        ≡ get_physical_address_of_virtual_address k w
  user-translate w mappable =
      translate-leaf (record k { mem = m }) w
      ∙ ap (λ (o : Option ℕ). address_in o (get_offset w)) (user-leaf w mappable)
      ∙ sym (translate-leaf k w)

-- The heap stays one.
module _ (k : Kernel) (limit base : ℕ) (v : IsHeap k limit base) (m : Bytes)
    (same : (b : ℕ) → virtual_offset ≤ b → m b ≡ k.mem b) where
  list_kept : load64 m k.free_list ≡ load64 k.mem k.free_list
  list_kept =
      load64_ext m k.mem k.free_list
        (λ i h. same (k.free_list + i) (omega (arith, v.base_high, v.behind)))

  pub user-get_size : get_size m k.free_list ≡ get_size k.mem k.free_list
  unfolding get_size
  user-get_size = rw list_kept refl

  last_kept : is_last m k.free_list ≡ is_last k.mem k.free_list
  unfolding is_last
  last_kept = rw list_kept refl

  pub user-IsHeap : IsHeap (record k { mem = m }) limit base
  user-IsHeap = record {
    tree = user-IsTree k limit v.tree m same;
    last = last_kept ∙ v.last;
    covers = omega (arith, user-get_size, v.covers);
    header = omega (arith, user-get_size, v.header);
    behind = v.behind;
    base_high = v.base_high;
    aligned = v.aligned;
    fits = v.fits;
    backed = λ w from to gone.
        (let mappable = high-IsMappable w (omega (arith, v.base_high)) (omega (arith, v.fits)) in
          v.backed w from to (sym (user-leaf k limit v.tree m same w mappable) ∙ gone));
  }
