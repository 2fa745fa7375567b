-- ===== src/Heap/Invariant.antt =====
-- What holds of the kernel's heap between calls of `kalloc`.
use tetra_os.Base.{ℕ, ◌+◌, ◌%◌, ◌^◌, ◌≤◌, ◌<◌, ◌≡◌, ◌≢◌, true, none, arith}
use tetra_os.Kernel.{Kernel, virtual_offset}
use tetra_os.Address.{vpn_3-eq, vpn_2-eq, get_vpn_0}
use tetra_os.Paging.Tree.{IsTree, leaf_at}
use tetra_os.Paging.Map.{page_path, IsMappable}
use tetra_os.Heap.{get_size, is_last}

-- The address is on a page that is mapped.
abbrev pub IsBacked : Kernel → ℕ → Type 0
IsBacked k v = leaf_at k (page_path v) (get_vpn_0 v) ≢ none

-- The heap from `base` on: one free space, the last, which reaches to the end of the pages that
-- are mapped and has room for its own header.
pub record IsHeap (k : Kernel) (limit base : ℕ) : Type 0 where
  pub tree : IsTree k limit
  pub last : is_last k.mem k.free_list ≡ true
  pub covers : k.free_list + get_size k.mem k.free_list ≡ k.virtual_alloc_end
  pub header : 16 ≤ get_size k.mem k.free_list
  pub behind : base ≤ k.free_list
  pub base_high : virtual_offset + 2 ^ 32 ≤ base
  pub aligned : k.virtual_alloc_end % 4096 ≡ 0
  pub fits : k.virtual_alloc_end + 4096 ≤ 2 ^ 64
  pub backed : (v : ℕ) → base ≤ v → v < k.virtual_alloc_end → IsBacked k v

-- Addresses behind the direct mapping can be mapped.
pub high-IsMappable : (v : ℕ) → virtual_offset + 2 ^ 32 ≤ v → v < 2 ^ 64 → IsMappable v
high-IsMappable v low high = ground (arith, vpn_3-eq v, vpn_2-eq v)
