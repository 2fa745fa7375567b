-- ===== src/User/Malloc.antt =====
-- The heap of a user program, tlibc/malloc.c. `sbrk` gives the start of the heap, a parameter; an
-- item of the list is its bytes.
pub mod Blocks
use tetra_os.Base.{
  ℕ, zero, suc, ◌+◌, ◌-◌, ◌*◌, ◌/◌, ◌%◌, ◌^◌, Option, none, some, ◌==◌, ltb, if◌then◌else◌,
}
use tetra_os.Memory.{Bytes, u64, load64, store8, store64}
use tetra_os.Ext2.{load16}

-- The offsets of the fields of `FreeItem` behind its size.
abbrev is_last_offset : ℕ
is_last_offset = 8

abbrev is_first_offset : ℕ
is_first_offset = 10

abbrev next_item_offset : ℕ
next_item_offset = 16

-- The size of `AllocationItem`, whose first fields are its mark and its size.
abbrev pub size_of_item : ℕ
size_of_item = 32

abbrev pub magic : ℕ
magic = 0xdead_beef

-- The memory and the static variable.
pub record UserHeap : Type 0 where
  pub mem : Bytes
  pub first_item : ℕ

abbrev pub store16 : Bytes → ℕ → ℕ → Bytes
store16 m a x = store8 (store8 m a x) (a + 1) (x / 2 ^ 8)

unfoldable pub malloc_init : ℕ → Bytes → UserHeap
malloc_init heap_start m =
    let sized = store64 m heap_start 4096 in
    let linked = store64 sized (heap_start + next_item_offset) 0 in
    let last = store16 linked (heap_start + is_last_offset) 1 in
    record { mem = store16 last (heap_start + is_first_offset) 1; first_item = heap_start }

-- The search for an item that is large enough or the last, on fuel.
unfoldable pub find_item : ℕ → Bytes → ℕ → ℕ → Option ℕ
find_item zero m current size = none
find_item (suc fuel) m current size =
    let rest = find_item fuel m (load64 m (current + next_item_offset)) size in
    if ltb (load64 m current) size
    then if load16 m (current + is_last_offset) == 0 then rest else some current
    else some current

-- The allocation in the item that was found. Its size is read after the mark is written there.
unfoldable pub take_item : Bytes → ℕ → ℕ → UserHeap
take_item m current size =
    let marked = store64 m current magic in
    let sized = store64 marked (current + 8) size in
    let new_item = u64 (current + size_of_item + size) in
    let left = u64 (load64 sized current + 2 ^ 64 - u64 (size + size_of_item)) in
    record { mem = store64 sized new_item left; first_item = new_item }

unfoldable pub malloc : ℕ → ℕ → UserHeap → Option (ℕ × UserHeap)
unfolding find_item take_item
malloc fuel size h = elim (find_item fuel h.mem h.first_item size) [
  | none ↦ none
  | some current ↦ some (current + size_of_item, take_item h.mem current size)
]
