-- ===== src/User/Malloc/Blocks.antt =====
-- The blocks that `malloc` of tlibc/malloc.c gives.
use tetra_os.Base.{
  ℕ, zero, suc, ◌+◌, ◌-◌, ◌*◌, ◌^◌, ◌≤◌, ◌<◌, ◌≡◌, refl, ap, ◌∙◌, inl, inr, false, some, ltb, arith,
}
use tetra_os.Memory.{
  Bytes, u64, Apart, load64, load64_ext, load64-store64_self, store64, store64-outside,
}
use tetra_os.User.Malloc.{size_of_item, magic, UserHeap, find_item, take_item, malloc}

-- What `malloc` leaves when it takes the first item: the mark and the size in front of the block, and
-- a new first item behind it, whose size comes from the mark and not from the size there was. No
-- other byte is changed.
pub record IsTaken (h h' : UserHeap) (size : ℕ) : Type 0 where
  pub moved : h'.first_item ≡ h.first_item + size_of_item + size
  pub marked : load64 h'.mem h.first_item ≡ magic
  pub sized : load64 h'.mem (h.first_item + 8) ≡ size
  pub left : load64 h'.mem h'.first_item + size + size_of_item ≡ magic
  pub outside : (b : ℕ) → Apart h.first_item 16 b 1 → Apart h'.first_item 8 b 1 → h'.mem b ≡ h.mem b

module _ (size : ℕ) (h : UserHeap) where
  find_first :
      (fuel : ℕ)
      → 0 < fuel
      → size ≤ load64 h.mem h.first_item
      → find_item fuel h.mem h.first_item size ≡ some h.first_item
  unfolding find_item
  find_first zero some_fuel large = absurd (omega arith)
  find_first (suc fuel) some_fuel large =
      let e : ltb (load64 h.mem h.first_item) size ≡ false = ground arith in rw e refl

  abbrev marked_mem : Bytes
  marked_mem = store64 h.mem h.first_item magic

  abbrev sized_mem : Bytes
  sized_mem = store64 marked_mem (h.first_item + 8) size

  abbrev behind : ℕ
  behind = u64 (h.first_item + size_of_item + size)

  marked_lem : load64 sized_mem h.first_item ≡ magic
  marked_lem =
      load64_ext sized_mem marked_mem h.first_item (λ i q.
        store64-outside marked_mem (h.first_item + 8) size (h.first_item + i) (inr (omega arith)))
      ∙ load64-store64_self h.mem h.first_item magic (omega arith)

  module _ (fits : h.first_item + 2 * size_of_item + size < 2 ^ 64)
      (small : size + size_of_item ≤ magic) where
    abbrev left_behind : ℕ
    left_behind = u64 (load64 sized_mem h.first_item + 2 ^ 64 - u64 (size + size_of_item))

    left_lem : left_behind + size + size_of_item ≡ magic
    left_lem = omega (arith, marked_lem)

    kept_below :
        (a : ℕ)
        → a + 8 ≤ behind
        → load64 (take_item h.mem h.first_item size).mem a ≡ load64 sized_mem a
    unfolding take_item
    kept_below a below =
        load64_ext (take_item h.mem h.first_item size).mem sized_mem a
          (λ i q. store64-outside sized_mem behind left_behind (a + i) (inr (omega arith)))

    taken : IsTaken h (take_item h.mem h.first_item size) size
    unfolding take_item
    taken = record {
      moved = omega arith;
      marked = kept_below h.first_item (omega arith) ∙ marked_lem;
      sized =
          kept_below (h.first_item + 8) (omega arith)
          ∙ load64-store64_self marked_mem (h.first_item + 8) size (omega arith);
      left =
          ap (λ (x : ℕ). x + size + size_of_item)
            (load64-store64_self sized_mem behind left_behind (omega (arith, left_lem)))
          ∙ left_lem;
      outside = λ b front back.
          store64-outside sized_mem behind left_behind b back
          ∙ store64-outside marked_mem (h.first_item + 8) size b (omega arith)
          ∙ store64-outside h.mem h.first_item magic b (omega arith);
    }

    -- A first item that is large enough is taken, in one round of the search.
    malloc_lem :
        (fuel : ℕ)
        → 0 < fuel
        → size ≤ load64 h.mem h.first_item
        → (h' : UserHeap) × (malloc fuel size h ≡ some (h.first_item + size_of_item, h'))
          × IsTaken h h' size
    unfolding malloc
    malloc_lem fuel some_fuel large = (
      take_item h.mem h.first_item size,
      rw (find_first fuel some_fuel large, malloc) refl,
      taken,
    )

-- After a first block, a second one is given whatever room there is: up to the mark, the size of the
-- heap is not looked at. The second block lies behind the first, and the bytes of the first and the
-- two fields in front of it are kept.
pub malloc-malloc :
    (fuel size1 size2 : ℕ) (h : UserHeap)
    → 0 < fuel
    → size1 ≤ load64 h.mem h.first_item
    → size1 + size2 + 2 * size_of_item ≤ magic
    → h.first_item + 3 * size_of_item + size1 + size2 < 2 ^ 64
    → (h1 : UserHeap) × (h2 : UserHeap) × (malloc fuel size1 h
        ≡ some (h.first_item + size_of_item, h1))
      × (malloc fuel size2 h1 ≡ some (h.first_item + 2 * size_of_item + size1, h2))
      × (load64 h2.mem h.first_item ≡ magic)
      × (load64 h2.mem (h.first_item + 8) ≡ size1)
      × ((i : ℕ)
          → i < size1
          → h2.mem (h.first_item + size_of_item + i) ≡ h.mem (h.first_item + size_of_item + i))
malloc-malloc fuel size1 size2 h some_fuel large small fits =
    let (h1, first, t1) = malloc_lem size1 h (omega arith) (omega arith) fuel some_fuel large in
    let (h2, second, t2) =
      malloc_lem size2 h1 (omega (arith, t1.moved)) (omega arith) fuel some_fuel
        (omega (arith, t1.left)) in
    let at : h1.first_item + size_of_item ≡ h.first_item + 2 * size_of_item + size1 =
      omega (arith, t1.moved) in
    let kept : (b : ℕ) → b < h1.first_item → h2.mem b ≡ h1.mem b =
      λ b below. t2.outside b (inr (omega arith)) (inr (omega (arith, t2.moved))) in
    (
      h1,
      h2,
      first,
      second ∙ ap (λ (a : ℕ). some (a, h2)) at,
      load64_ext h2.mem h1.mem h.first_item
            (λ i q. kept (h.first_item + i) (omega (arith, t1.moved)))
          ∙ t1.marked,
      load64_ext h2.mem h1.mem (h.first_item + 8)
            (λ i q. kept (h.first_item + 8 + i) (omega (arith, t1.moved)))
          ∙ t1.sized,
      (λ i below.
          kept (h.first_item + size_of_item + i) (omega (arith, t1.moved))
          ∙ t1.outside (h.first_item + size_of_item + i) (inl (omega arith))
              (inr (omega (arith, t1.moved)))),
    )
