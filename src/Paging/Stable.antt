-- ===== src/Paging/Stable.antt =====
-- Changes of the state that leave the page tables alone keep the tree and its mappings.
use tetra_os.Base.{
  ℕ, ◌+◌, ◌*◌, ◌^◌, ◌<◌, ◌≡◌, refl, ◌≢◌, sym, ap, ◌∙◌, Option, none, some, List, [], ◌∷◌, arith,
  ℕ_discrete,
}
use tetra_os.Memory.{Bytes, load8_ext, load64_ext}
use tetra_os.Kernel.{Kernel, virtual_offset}
use tetra_os.Frames.Alloc.{flag, after_alloc, flag-after_alloc_self, flag-after_alloc_ne}
use tetra_os.Frames.Count.{free_count, free_count_ext}
use tetra_os.Paging.{get_entry}
use tetra_os.Paging.Entry.{is_entry_valid_ext}
use tetra_os.Paging.Tree.{table_of, table_at, leaf_of, leaf_at, IsPath, IsTree}
use tetra_os.Paging.Change.{child-same, after_alloc-entry}
use tetra_os.Paging.Grow.{leaf_ext}

-- `k` with another memory and other fields of the heap.
abbrev pub with_heap : Kernel → Bytes → ℕ → ℕ → Kernel
with_heap k m list end = record k { mem = m; free_list = list; virtual_alloc_end = end }

module _ (k : Kernel) (limit : ℕ) (v : IsTree k limit) (m : Bytes) (list end : ℕ)
    (entries : (l x : ℕ)
      → l < limit
      → x < 512
      → get_entry m (table_of k l) x ≡ get_entry k.mem (table_of k l) x)
    (taken : (l : ℕ) → l < limit → flag k l ≢ 0 → flag (with_heap k m list end) l ≢ 0) where
  stable-table_at :
      (q : List ℕ)
      → IsPath q
      → table_at m k.first_level_table q ≡ table_at k.mem k.first_level_table q
  stable-table_at [] good = refl
  stable-table_at (x ∷ q) good =
      child-same k limit v [] k.first_level_table 512 tt refl m (λ l i hl hi _. entries l i hl hi) x
        q good (λ _ e. absurd (omega (arith, good.0))) (stable-table_at q good.3)

  stable-free : (l : ℕ) → l < limit → flag (with_heap k m list end) l ≡ 0 → flag k l ≡ 0
  stable-free l h z = elim (ℕ_discrete (flag k l) 0) [ yes e ↦ e | no ne ↦ absurd (taken l h ne z) ]

  pub stable-IsTree : IsTree (with_heap k m list end) limit
  stable-IsTree = record {
    laid = record {
      aligned = v.laid.aligned;
      low = v.laid.low;
      apart = v.laid.apart;
      flags_high = v.laid.flags_high;
    };
    owned = λ q good u at.
        let (l, h, is, t) = v.owned q good u (sym (stable-table_at q good) ∙ at) in
        (l, h, is, taken l h t);
    distinct = λ q r gq gr u atq atr.
        v.distinct q r gq gr u (sym (stable-table_at q gq) ∙ atq)
          (sym (stable-table_at r gr) ∙ atr);
    clean = λ l h z x hx.
        is_entry_valid_ext m k.mem (table_of k l) x (entries l x h hx)
        ∙ v.clean l h (stable-free l h z) x hx;
  }

  pub stable-leaf :
      (q : List ℕ)
      → IsPath q
      → (x : ℕ) → x < 512
      → leaf_at (with_heap k m list end) q x ≡ leaf_at k q x
  stable-leaf q good x hx =
      ap (leaf_of m x) (stable-table_at q good) ∙ kept (table_at k.mem k.first_level_table q) refl
    where
      kept :
          (o : Option ℕ)
          → table_at k.mem k.first_level_table q ≡ o
          → leaf_of m x o ≡ leaf_of k.mem x o
      kept none at = refl
      kept (some u) at =
          let (l, h, is, _) = v.owned q good u at in
          rw is (leaf_ext m k.mem (table_of k l) x (entries l x h hx))

-- The memory below `virtual_offset + 2^32` is that of `k`.
abbrev pub SameLow : Bytes → Bytes → Type 0
SameLow m n = (b : ℕ) → b < virtual_offset + 2 ^ 32 → m b ≡ n b

-- A change of the heap alone.
module _ (k : Kernel) (limit : ℕ) (v : IsTree k limit) (m : Bytes) (list end : ℕ)
    (same : SameLow m k.mem) where
  low-entries :
      (l x : ℕ)
      → l < limit
      → x < 512
      → get_entry m (table_of k l) x ≡ get_entry k.mem (table_of k l) x
  unfolding get_entry
  low-entries l x hl hx =
      load64_ext m k.mem (table_of k l + 8 * x)
        (λ i h. same (table_of k l + 8 * x + i) (omega (arith, v.laid.low)))

  low-flag : (l : ℕ) → l < limit → flag (with_heap k m list end) l ≡ flag k l
  low-flag l h =
      load8_ext m k.mem (k.managed_frames_address_start + l)
        (same (k.managed_frames_address_start + l) (omega (arith, v.laid.apart, v.laid.low)))

  pub heap-IsTree : IsTree (with_heap k m list end) limit
  heap-IsTree =
      stable-IsTree k limit v m list end low-entries (λ l h t z. t (sym (low-flag l h) ∙ z))

  pub heap-leaf :
      (q : List ℕ)
      → IsPath q
      → (x : ℕ) → x < 512
      → leaf_at (with_heap k m list end) q x ≡ leaf_at k q x
  heap-leaf = stable-leaf k limit v m list end low-entries (λ l h t z. t (sym (low-flag l h) ∙ z))

  pub heap-free_count : free_count (with_heap k m list end) limit ≡ free_count k limit
  heap-free_count = free_count_ext (with_heap k m list end) k limit low-flag

-- The allocation of a frame.
module _ (k : Kernel) (limit : ℕ) (v : IsTree k limit) (j : ℕ) (below : j < limit) where
  taken_stays : (l : ℕ) → l < limit → flag k l ≢ 0 → flag (after_alloc k j) l ≢ 0
  taken_stays l h t z = elim (ℕ_discrete l j) [
    | yes e ↦ absurd (omega (arith, ap (flag (after_alloc k j)) e, flag-after_alloc_self k j, z))
    | no ne ↦ t (sym (flag-after_alloc_ne k j l ne) ∙ z)
  ]

  pub alloc-IsTree : IsTree (after_alloc k j) limit
  alloc-IsTree =
      stable-IsTree k limit v (after_alloc k j).mem k.free_list k.virtual_alloc_end
        (λ l x hl hx. after_alloc-entry k limit j l x v.laid below) taken_stays

  pub alloc-leaf :
      (q : List ℕ) → IsPath q → (x : ℕ) → x < 512 → leaf_at (after_alloc k j) q x ≡ leaf_at k q x
  alloc-leaf =
      stable-leaf k limit v (after_alloc k j).mem k.free_list k.virtual_alloc_end
        (λ l x hl hx. after_alloc-entry k limit j l x v.laid below) taken_stays
