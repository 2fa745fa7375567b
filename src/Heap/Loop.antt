-- ===== src/Heap/Loop.antt =====
-- The whole loop of `kalloc` that maps more pages.
use tetra_os.Base.{
  ℕ, zero, suc, ◌+◌, ◌-◌, ◌*◌, ◌^◌, ◌≤◌, ◌<◌, ◌≡◌, refl, sym, ap, ◌∙◌, inl, inr, Bool, true, false,
  some, Bool-cases, arith, ltb,
}
use tetra_os.Memory.{u64}
use tetra_os.Kernel.{Kernel, virtual_offset, ◌>>=◌}
use tetra_os.Frames.{kalloc_frame}
use tetra_os.Frames.Alloc.{flag, after_alloc, kalloc_frame_lem}
use tetra_os.Frames.Count.{free_count, free_frame, free_count-after_alloc}
use tetra_os.Paging.Map.{IsMapped, map_page_lem}
use tetra_os.Paging.Stable.{alloc-IsTree}
use tetra_os.Heap.{get_size, grow}
use tetra_os.Heap.Invariant.{IsHeap, high-IsMappable}
use tetra_os.Heap.Grow.{IsGrown, resized, resized-IsGrown}

module _ (fuel limit base : ℕ) (enough : limit ≤ fuel) (size : ℕ) where
  abbrev is_short : Kernel → ℕ → Bool
  is_short k current = ltb (get_size k.mem current) (u64 (size + 32))

  -- One turn of the loop, from a state in which it goes on.
  Turn : Kernel → Type 0
  Turn k =
      (k' : Kernel) × IsGrown k k' limit base
      × ((rounds : ℕ)
          → is_short k k.free_list ≡ true
          → grow fuel (suc rounds) k.free_list size k ≡ grow fuel rounds k.free_list size k')

  turn_runs :
      (k : Kernel) (v : IsHeap k limit base) (j : ℕ) (below : j < limit) (free : flag k j ≡ 0)
      (space : k.virtual_alloc_end + 8192 ≤ 2 ^ 64)
      → kalloc_frame fuel k ≡ some (k.first_frame_address + 4096 * j, after_alloc k j)
      → (r : IsMapped fuel limit
          (after_alloc k j)
          k.virtual_alloc_end
          (k.first_frame_address + 4096 * j)
          0xf)
      → (rounds : ℕ) → is_short k k.free_list ≡ true
      → grow fuel (suc rounds) k.free_list size k
        ≡ grow fuel rounds k.free_list size (resized fuel limit base k v j below free space r)
  unfolding grow
  turn_runs k v j below free space alloc r rounds short =
      rw short (rw (alloc, ◌>>=◌) (rw (r.runs, ◌>>=◌) refl))

  turn :
      (k : Kernel)
      → IsHeap k limit base
      → 4 ≤ free_count k limit
      → k.virtual_alloc_end + 8192 ≤ 2 ^ 64
      → Turn k
  unfolding Turn
  turn k v room space =
      let laid = v.tree.laid in
      let (n, low, free) = free_frame k limit (omega arith) in
      let (j, le, first, alloc) =
        kalloc_frame_lem fuel n k (omega arith) (omega (arith, laid.low)) (omega (arith, laid.low))
          free in
      let below : j < limit = omega arith in
      let left = free_count-after_alloc k j limit below first.free in
      let r =
        map_page_lem fuel limit enough (after_alloc k j) (alloc-IsTree k limit v.tree j below)
          k.virtual_alloc_end (k.first_frame_address + 4096 * j) 0xf
          (high-IsMappable k.virtual_alloc_end (omega (arith, v.base_high, v.behind, v.covers))
            (omega arith))
          (omega arith) (omega (arith, laid.low)) (omega arith) in
      (
        resized fuel limit base k v j below first.free space r,
        resized-IsGrown fuel limit base k v j below first.free space r,
        turn_runs k v j below first.free space alloc r,
      )

  still_short :
      (n : ℕ) (k : Kernel)
      → is_short k k.free_list ≡ true
      → u64 (size + 32) ≤ get_size k.mem k.free_list + 4096 * n
      → 0 < n
  still_short n k short reach = ground arith

  stops :
      (rounds : ℕ) (k : Kernel)
      → is_short k k.free_list ≡ false
      → grow fuel (suc rounds) k.free_list size k ≡ some (tt, k)
  unfolding grow
  stops rounds k done = rw done refl

  -- The state after the loop.
  pub record IsEnlarged (k k' : Kernel) (n : ℕ) : Type 0 where
    pub heap : IsHeap k' limit base
    pub same_list : k'.free_list ≡ k.free_list
    pub large : u64 (size + 32) ≤ get_size k'.mem k.free_list
    pub kept : (b : ℕ) → virtual_offset + 2 ^ 32 ≤ b → b < k.free_list → k'.mem b ≡ k.mem b
    pub user : (b : ℕ) → b < virtual_offset → k'.mem b ≡ k.mem b
    pub pages : ℕ
    pub few : pages ≤ n
    pub moved : k'.virtual_alloc_end ≡ k.virtual_alloc_end + 4096 * pages
    pub frames_left : free_count k limit ≤ free_count k' limit + 4 * pages

  IsEnlarged-step :
      (n : ℕ) (k k' k'' : Kernel)
      → 0 < n
      → IsGrown k k' limit base
      → IsEnlarged k' k'' (n - 1)
      → IsEnlarged k k'' n
  IsEnlarged-step n k k' k'' more g e = record {
    heap = e.heap;
    same_list = e.same_list ∙ g.same_list;
    large = omega (arith, e.large, ap (get_size k''.mem) g.same_list);
    kept = λ b low high. e.kept b low (omega (arith, g.same_list)) ∙ g.kept b low high;
    user = λ b low. e.user b low ∙ g.user b low;
    pages = e.pages + 1;
    few = omega (arith, e.few);
    moved = omega (arith, e.moved, g.end_moved);
    frames_left = omega (arith, e.frames_left, g.frames_left);
  }

  next_turn :
      (rounds : ℕ) (k k' k'' : Kernel)
      → k'.free_list ≡ k.free_list
      → grow fuel rounds k'.free_list size k' ≡ some (tt, k'')
      → grow fuel rounds k.free_list size k' ≡ some (tt, k'')
  next_turn rounds k k' k'' e runs = ap (λ (c : ℕ). grow fuel rounds c size k') (sym e) ∙ runs

  -- With pages to spare for `n` rounds the loop ends, and the space is large enough.
  pub grow_lem :
      (rounds n : ℕ) (k : Kernel)
      → n < rounds
      → IsHeap k limit base
      → u64 (size + 32) ≤ get_size k.mem k.free_list + 4096 * n
      → 4 * n ≤ free_count k limit
      → k.virtual_alloc_end + 4096 * n + 4096 ≤ 2 ^ 64
      → (k' : Kernel) × (grow fuel rounds k.free_list size k ≡ some (tt, k')) × IsEnlarged k k' n
  unfolding Turn
  grow_lem zero n k h v reach room space = absurd (omega arith)
  grow_lem (suc rounds) n k h v reach room space = elim (Bool-cases (is_short k k.free_list)) [
    | inl short ↦
        let more : 0 < n = still_short n k short reach in
        let (k', g, step) = turn k v (omega arith) (omega arith) in
        let (k'', runs, e) =
          grow_lem rounds (n - 1) k' (omega arith) g.heap
            (omega (arith, ap (get_size k'.mem) g.same_list, g.larger))
            (omega (arith, g.frames_left)) (omega (arith, g.end_moved)) in
        (
          k'',
          step rounds short ∙ next_turn rounds k k' k'' g.same_list runs,
          IsEnlarged-step n k k' k'' more g e,
        )
    | inr done ↦ (
      k,
      stops rounds k done,
      record {
        heap = v;
        same_list = refl;
        large = ground arith;
        kept = λ b low high. refl;
        user = λ b low. refl;
        pages = 0;
        few = omega arith;
        moved = omega arith;
        frames_left = omega arith;
      },
    )
  ]
