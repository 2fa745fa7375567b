-- ===== src/Paging/Setup.antt =====
-- `paging_init` of kernel/memory/paging.cpp: the tables that it leaves behind.
mod Rounds
mod Ready
mod Direct
pub use Ready.{IsClean}
use Rounds.{setup_from-rounds}
use Direct.{ready-direct}
use Ready.{allocated, ready, ready-IsTree, ready-leaf, ready-free_count}
use tetra_os.Base.{
  ℕ, ◌+◌, ◌*◌, ◌^◌, ◌≤◌, ◌<◌, ◌≡◌, refl, ◌≢◌, sym, ap, ◌∙◌, Option, none, some, List, arith, length,
}
use tetra_os.Memory.{u64}
use tetra_os.Kernel.{Kernel, virtual_offset, ◌>>=◌}
use tetra_os.Frames.{kalloc_frame}
use tetra_os.Frames.Alloc.{
  flag, after_alloc, kalloc_frame_lem, flag-after_alloc_self, flag-after_alloc_ne,
}
use tetra_os.Frames.Count.{free_count, free_frame, free_count-after_alloc}
use tetra_os.Paging.{paging_init, setup_from}
use tetra_os.Paging.Tree.{leaf_at, IsPath, IsTree, table_of}
use tetra_os.Paging.Walk.{sv48}

-- The outcome of `paging_init`: a tree with no mapping, beside the direct one of four gigabytes.
pub record IsPaged (k k' : Kernel) (limit : ℕ) : Type 0 where
  pub tree : IsTree k' limit
  pub same_frames : k'.first_frame_address ≡ k.first_frame_address
  pub unmapped : (q : List ℕ) → IsPath q → length q ≡ 3 → (x : ℕ) → leaf_at k' q x ≡ none
  pub direct : (p : ℕ) → p < 2 ^ 32 → sv48 k' (virtual_offset + p) ≡ some p
  pub frames_left : free_count k' limit + 2 ≡ free_count k limit

paging_init_runs :
    (fuel : ℕ) (k : Kernel) (limit : ℕ) (v : IsClean k limit) (a b : ℕ) (first_below : a < limit)
    (below : b < limit) (ne : a ≢ b)
    → kalloc_frame fuel k ≡ some (k.first_frame_address + 4096 * a, after_alloc k a)
    → kalloc_frame fuel (after_alloc k a) ≡ some (k.first_frame_address + 4096 * b, allocated k a b)
    → (first_free : flag k a ≡ 0) (free : flag k b ≡ 0)
    → paging_init fuel k ≡ some (tt, ready k limit v a b first_below below ne first_free free)
unfolding paging_init
paging_init_runs fuel k limit v a b first_below below ne one two first_free free =
    let low_a : u64 (k.first_frame_address + 4096 * a + virtual_offset) ≡ table_of k a =
      omega (arith, v.laid.low) in
    let low_b : u64 (k.first_frame_address + 4096 * b + virtual_offset) ≡ table_of k b =
      omega (arith, v.laid.low) in
    rw (one, ◌>>=◌) (rw (two, ◌>>=◌) (rw (low_a, low_b, setup_from-rounds) refl))

abbrev Paged : ℕ → ℕ → Kernel → Type 0
Paged fuel limit k = (k' : Kernel) × (paging_init fuel k ≡ some (tt, k')) × IsPaged k k' limit

Paged-from :
    (fuel limit : ℕ) (k : Kernel) (v : IsClean k limit) (a b : ℕ) (first_below : a < limit)
    (below : b < limit)
    → flag k a ≡ 0
    → flag (after_alloc k a) b ≡ 0
    → kalloc_frame fuel k ≡ some (k.first_frame_address + 4096 * a, after_alloc k a)
    → kalloc_frame fuel (after_alloc k a) ≡ some (k.first_frame_address + 4096 * b, allocated k a b)
    → Paged fuel limit k
Paged-from fuel limit k v a b first_below below first_free later one two =
    let ne : a ≢ b = λ e.
      absurd (omega (arith, ap (flag (after_alloc k a)) e, flag-after_alloc_self k a, later)) in
    let free : flag k b ≡ 0 = sym (flag-after_alloc_ne k a b (λ e. ne (sym e))) ∙ later in
    (
      ready k limit v a b first_below below ne first_free free,
      paging_init_runs fuel k limit v a b first_below below ne one two first_free free,
      record {
        tree = ready-IsTree k limit v a b first_below below ne first_free free;
        same_frames = refl;
        unmapped = ready-leaf k limit v a b first_below below ne first_free free;
        direct = ready-direct k limit v a b first_below below ne first_free free;
        frames_left = ready-free_count k limit v a b first_below below ne first_free free;
      },
    )

Paged-after :
    (fuel limit : ℕ) (k : Kernel) (v : IsClean k limit) (a : ℕ)
    → limit ≤ fuel
    → a < limit
    → flag k a ≡ 0
    → kalloc_frame fuel k ≡ some (k.first_frame_address + 4096 * a, after_alloc k a)
    → 0 < free_count (after_alloc k a) limit
    → Paged fuel limit k
Paged-after fuel limit k v a enough first_below first_free one room =
    let (m, m_low, m_free) = free_frame (after_alloc k a) limit room in
    let (b, le, first, two) =
      kalloc_frame_lem fuel m (after_alloc k a) (omega arith) (omega (arith, v.laid.low))
        (omega (arith, v.laid.low)) m_free in
    Paged-from fuel limit k v a b first_below (omega arith) first_free first.free one two

-- With two free frames, in a state whose free frames hold no valid entry, `paging_init` ends and
-- leaves a tree of two tables: no page is mapped, but the processor finds each address of the
-- first four gigabytes of physical memory at `virtual_offset`. Two frames fewer are free.
pub paging_init_lem :
    (fuel limit : ℕ) (k : Kernel)
    → limit ≤ fuel
    → IsClean k limit
    → 2 ≤ free_count k limit
    → (k' : Kernel) × (paging_init fuel k ≡ some (tt, k')) × IsPaged k k' limit
paging_init_lem fuel limit k enough v room =
    let (n, low, free) = free_frame k limit (omega arith) in
    let (a, le, first, one) =
      kalloc_frame_lem fuel n k (omega arith) (omega (arith, v.laid.low))
        (omega (arith, v.laid.low)) free in
    let left = free_count-after_alloc k a limit (omega arith) first.free in
    Paged-after fuel limit k v a enough (omega arith) first.free one (omega arith)
