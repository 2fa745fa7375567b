-- ===== src/Heap/Alloc.antt =====
-- `kalloc` of kernel/memory/virtual_allocator.cpp.
use tetra_os.Base.{
  ℕ, suc, zero, ◌+◌, ◌*◌, ◌^◌, ◌≤◌, ◌<◌, ◌≡◌, refl, sym, ap, ◌∙◌, inl, inr, true, false, some,
  arith, ltb, Bool-cases,
}
use tetra_os.Memory.{Bytes, u64, load64}
use tetra_os.Kernel.{Kernel, ◌>>=◌}
use tetra_os.Frames.Count.{free_count}
use tetra_os.Heap.{get_size, is_last, find_space, grow, take_space, kalloc}
use tetra_os.Heap.Invariant.{IsHeap}
use tetra_os.Heap.Loop.{IsEnlarged, grow_lem}
use tetra_os.Heap.Take.{IsAllocated, take_space_lem}

-- The search stops at a space that is the last.
find_space-last :
    (fuel : ℕ) (m : Bytes) (current size : ℕ)
    → 0 < fuel
    → is_last m current ≡ true
    → find_space fuel m current size ≡ some current
unfolding find_space
find_space-last zero m current size h last = absurd (omega arith)
find_space-last (suc fuel) m current size h last = rw last refl

-- What `kalloc` needs: pages to spare for `n` more, and four frames for each.
pub record HasRoom (k : Kernel) (limit n size : ℕ) : Type 0 where
  pub reach : size + 32 ≤ get_size k.mem k.free_list + 4096 * n
  pub frames : 4 * n ≤ free_count k limit
  pub addresses : k.virtual_alloc_end + 4096 * n + 4096 ≤ 2 ^ 64

module _ (fuel limit base : ℕ) (enough : limit ≤ fuel) (k : Kernel) (v : IsHeap k limit base)
    (size : ℕ) where
  abbrev Result : ℕ → Type 0
  Result n =
      (k' : Kernel) × (kalloc fuel size k ≡ some (k.free_list + 16, k'))
      × IsAllocated k k' limit base (k.free_list + 16) size n

  fitting :
      (n : ℕ)
      → 0 < fuel
      → ltb (get_size k.mem k.free_list) (u64 (size + 32)) ≡ false
      → size + 32 ≤ get_size k.mem k.free_list
      → Result n
  unfolding kalloc
  fitting n pos test large =
      let (k', runs, done) = take_space_lem k limit base v size large n in
      (
        k',
        rw (find_space-last fuel k.mem k.free_list size pos v.last, kalloc)
            (rw (v.last, test) runs),
        done,
      )

  grown_runs :
      0 < fuel
      → ltb (get_size k.mem k.free_list) (u64 (size + 32)) ≡ true
      → (k' k'' : Kernel) (block : ℕ) → grow fuel fuel k.free_list size k ≡ some (tt, k')
      → take_space k.free_list size k' ≡ some (block, k'')
      → kalloc fuel size k ≡ some (block, k'')
  unfolding kalloc
  grown_runs pos test k' k'' block loops takes =
      rw (find_space-last fuel k.mem k.free_list size pos v.last, kalloc)
        (rw (v.last, test) (rw (loops, ◌>>=◌) takes))

  grown :
      (n : ℕ)
      → 0 < fuel
      → ltb (get_size k.mem k.free_list) (u64 (size + 32)) ≡ true
      → size + 32 < 2 ^ 64
      → (k' : Kernel) → grow fuel fuel k.free_list size k ≡ some (tt, k')
      → IsEnlarged fuel limit base enough size k k' n
      → Result n
  grown n pos test low k' loops e =
      let (k'', runs, done) =
        take_space_lem k' limit base e.heap size
          (omega (arith, e.large, ap (get_size k'.mem) e.same_list)) 0 in
      (
        k'',
        grown_runs pos test k' k'' (k.free_list + 16) loops (
            ap (λ (c : ℕ). take_space c size k') (sym e.same_list)
            ∙ runs
            ∙ ap (λ (c : ℕ). some (c + 16, k'')) e.same_list),
        record {
          heap = done.heap;
          at_list = refl;
          next_list = omega (arith, done.next_list, e.same_list);
          header_size = ap (load64 k''.mem) (sym e.same_list) ∙ done.header_size;
          header_magic =
              ap (λ (c : ℕ). load64 k''.mem (c + 8)) (sym e.same_list) ∙ done.header_magic;
          kept = λ b from to. done.kept b from (omega (arith, e.same_list)) ∙ e.kept b from to;
          user = λ b from. done.user b from ∙ e.user b from;
          pages = e.pages + done.pages;
          few = omega (arith, e.few, done.few);
          moved = omega (arith, e.moved, done.moved);
          frames_left = omega (arith, e.frames_left, done.frames_left);
        },
      )

  -- With room, `kalloc` ends and returns the block 16 bytes behind the start of the free space,
  -- with its size and the magic number in front of it. The heap keeps its invariant, the free
  -- space begins behind the block, and no byte of the heap below or of a process is changed. At
  -- most `n` pages are new, for at most four frames each.
  pub kalloc_lem : (n : ℕ) → n < fuel → HasRoom k limit n size → Result n
  kalloc_lem n pos room = elim (Bool-cases (ltb (get_size k.mem k.free_list) (u64 (size + 32)))) [
    | inl short ↦
        let (k', loops, e) =
          grow_lem fuel limit base enough size fuel n k pos v (omega (arith, room.reach))
            room.frames room.addresses in
        grown n (omega arith) short (omega (arith, room.reach, room.addresses, v.covers)) k' loops e
    | inr fits ↦
        fitting n (omega arith) fits
          (not_short (omega (arith, room.reach, room.addresses, v.covers)) fits)
  ]
    where
      not_short :
          size + 32 < 2 ^ 64
          → ltb (get_size k.mem k.free_list) (u64 (size + 32)) ≡ false
          → size + 32 ≤ get_size k.mem k.free_list
      not_short low fits = ground arith
