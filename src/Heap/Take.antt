-- ===== src/Heap/Take.antt =====
-- The end of `kalloc`: a large enough last space is cut into an allocation and a smaller space.
use tetra_os.Base.{ℕ, ◌+◌, ◌-◌, ◌*◌, ◌^◌, ◌≤◌, ◌<◌, ◌≡◌, refl, sym, ◌∙◌, inr, true, some, arith}
use tetra_os.Memory.{
  Bytes, u64, Apart, load64, store64, load64_ext, load64-store64_self, load64-store64-Apart,
  store64-outside,
}
use tetra_os.Kernel.{Kernel, virtual_offset}
use tetra_os.Address.{get_vpn_0, address_parts}
use tetra_os.Frames.Count.{free_count}
use tetra_os.Paging.Map.{page_path, page_path-IsPath}
use tetra_os.Paging.Stable.{SameLow, heap-IsTree, heap-leaf, heap-free_count}
use tetra_os.Heap.{get_size, set_size, set_last, is_last, take_space, allocation_magic}
use tetra_os.Heap.Space.{
  get_size-lt, set_size_lem, set_last_lem, set_size-outside, set_last-outside,
}
use tetra_os.Heap.Invariant.{IsHeap, high-IsMappable}

-- What an allocation of `size` bytes leaves behind: the block starts at `at`, behind its header,
-- and ends where the next free space begins. At most `n` pages are new, for four frames each.
pub record IsAllocated (k k' : Kernel) (limit base at size n : ℕ) : Type 0 where
  pub heap : IsHeap k' limit base
  pub at_list : at ≡ k.free_list + 16
  pub next_list : k'.free_list ≡ at + size
  pub header_size : load64 k'.mem k.free_list ≡ size
  pub header_magic : load64 k'.mem (k.free_list + 8) ≡ allocation_magic
  pub kept : (b : ℕ) → virtual_offset + 2 ^ 32 ≤ b → b < k.free_list → k'.mem b ≡ k.mem b
  pub user : (b : ℕ) → b < virtual_offset → k'.mem b ≡ k.mem b
  pub pages : ℕ
  pub few : pages ≤ n
  pub moved : k'.virtual_alloc_end ≡ k.virtual_alloc_end + 4096 * pages
  pub frames_left : free_count k limit ≤ free_count k' limit + 4 * pages

module _ (k : Kernel) (limit base : ℕ) (v : IsHeap k limit base) (size : ℕ)
    (large : size + 32 ≤ get_size k.mem k.free_list) where
  abbrev current : ℕ
  current = k.free_list

  abbrev next : ℕ
  next = current + 16 + size

  abbrev left : ℕ
  left = u64 (get_size k.mem current + 2 ^ 64 - u64 (size + 16))

  abbrev headed : Bytes
  headed = store64 (store64 k.mem current size) (current + 8) allocation_magic

  abbrev taken : Kernel
  taken = record k { mem = set_size (set_last headed next) next left; free_list = next }

  left_eq : left + size + 16 ≡ get_size k.mem current
  left_eq = omega (arith, v.covers, v.fits)

  next_space : (get_size taken.mem next ≡ left) × (is_last taken.mem next ≡ true)
  next_space =
      let (size_is, mark) =
        set_size_lem (set_last headed next) next left
          (omega (arith, left_eq, get_size-lt k.mem current)) in
      (size_is, mark ∙ (set_last_lem headed next).0)

  -- Bytes apart from the two headers are kept.
  untouched : (b : ℕ) → Apart current 16 b 1 → Apart next 8 b 1 → taken.mem b ≡ k.mem b
  untouched b one two =
      set_size-outside (set_last headed next) next left b two
      ∙ set_last-outside headed next b two
      ∙ store64-outside (store64 k.mem current size) (current + 8) allocation_magic b (omega arith)
      ∙ store64-outside k.mem current size b (omega arith)

  low : SameLow taken.mem k.mem
  low b h =
      untouched b (inr (omega (arith, v.base_high, v.behind)))
        (inr (omega (arith, v.base_high, v.behind)))

  header_kept : (a : ℕ) → a + 8 ≤ next → load64 taken.mem a ≡ load64 headed a
  header_kept a h = load64_ext taken.mem headed a (λ i hi.
      set_size-outside (set_last headed next) next left (a + i) (inr (omega arith))
      ∙ set_last-outside headed next (a + i) (inr (omega arith)))

  taken-IsHeap : IsHeap taken limit base
  taken-IsHeap =
      let (size_is, mark) = next_space in
      record {
        tree = heap-IsTree k limit v.tree taken.mem next k.virtual_alloc_end low;
        last = mark;
        covers = omega (arith, size_is, left_eq, v.covers);
        header = omega (arith, size_is, left_eq);
        behind = omega (arith, v.behind);
        base_high = v.base_high;
        aligned = v.aligned;
        fits = v.fits;
        backed = λ w from to gone.
            let path =
              page_path-IsPath w
                (high-IsMappable w (omega (arith, v.base_high)) (omega (arith, v.fits))) in
            v.backed w from to (
              sym (
                heap-leaf k limit v.tree taken.mem next k.virtual_alloc_end low (page_path w) path
                  (get_vpn_0 w) (omega (arith, address_parts w)))
              ∙ gone);
      }

  pub take_space_lem :
      (n : ℕ)
      → (k' : Kernel) × (take_space k.free_list size k ≡ some (k.free_list + 16, k'))
        × IsAllocated k k' limit base (k.free_list + 16) size n
  unfolding take_space
  take_space_lem n = (
    taken,
    refl,
    record {
      heap = taken-IsHeap;
      at_list = refl;
      next_list = refl;
      header_size =
          header_kept current (omega arith)
          ∙ load64-store64-Apart (store64 k.mem current size) (current + 8) allocation_magic current
              (inr (omega arith))
          ∙ load64-store64_self k.mem current size (omega (arith, get_size-lt k.mem current));
      header_magic =
          header_kept (current + 8) (omega arith)
          ∙ load64-store64_self (store64 k.mem current size) (current + 8) allocation_magic
              (omega arith);
      kept = λ b from to. untouched b (inr (omega arith)) (inr (omega arith));
      user = λ b from. low b (omega arith);
      pages = 0;
      few = omega arith;
      moved = omega arith;
      frames_left =
          omega (arith, heap-free_count k limit v.tree taken.mem next k.virtual_alloc_end low);
    },
  )
