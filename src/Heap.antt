-- ===== src/Heap.antt =====
-- The kernel's heap: kernel/libk/list.cpp and `kalloc` of kernel/memory/virtual_allocator.cpp.
-- A `FreeSpace *` is the virtual address of its two words, `status` and `next`.
pub mod Space
pub mod Invariant
pub mod Grow
pub mod Loop
pub mod Take
pub mod Alloc
pub mod Blocks
pub mod Write
pub mod Init
use tetra_os.Base.{
  ℕ, zero, suc, ◌+◌, ◌-◌, ◌*◌, ◌/◌, ◌%◌, ◌^◌, bit_and, bit_or, Bool, true, false, not, ◌&&◌, Option,
  none, some, ◌==◌, ltb, if◌then◌else◌,
}
use tetra_os.Memory.{Bytes, u64, load64, store64, load8, store8}
use tetra_os.Kernel.{Kernel, page_size, Call, pure, ◌>>=◌, ◌>>◌, write, read}
use tetra_os.Frames.{kalloc_frame}
use tetra_os.Paging.{map_page}

abbrev pub status : Bytes → ℕ → ℕ
status m space = load64 m space

unfoldable pub get_size : Bytes → ℕ → ℕ
get_size m space = status m space / 2

unfoldable pub set_size : Bytes → ℕ → ℕ → Bytes
set_size m space size = store64 m space (bit_or (u64 (size * 2)) (bit_and (status m space) 1))

unfoldable pub is_last : Bytes → ℕ → Bool
is_last m space = bit_and (status m space) 1 == 1

unfoldable pub set_last : Bytes → ℕ → Bytes
set_last m space = store64 m space (bit_or (status m space) 1)

unfoldable pub set_not_last : Bytes → ℕ → Bytes
set_not_last m space = store64 m space (u64 (status m space / 2 * 2))

unfoldable get_next : Bytes → ℕ → ℕ
get_next m space = load64 m (space + 8)

abbrev size_of_free_space : ℕ
size_of_free_space = 16

-- The search of `kalloc`, on fuel.
unfoldable pub find_space : ℕ → Bytes → ℕ → ℕ → Option ℕ
unfolding is_last get_size get_next
find_space zero m current size = none
find_space (suc fuel) m current size =
    let rest = find_space fuel m (get_next m current) size in
    if not (is_last m current) && ltb (get_size m current) size then rest else some current

-- The loop that maps new pages behind the last free space until it is large enough, on fuel.
unfoldable pub grow : ℕ → ℕ → ℕ → ℕ → Call (Unit {0})
unfolding get_size set_size
grow fuel zero current size k = none
grow fuel (suc rounds) current size k =
    let more =
      (do
        new_frame ← kalloc_frame fuel
        end ← read (λ k. k.virtual_alloc_end)
        map_page fuel end new_frame 0xf
        write (λ m. set_size m current (u64 (get_size m current + page_size)))
        λ k. some (tt, record k { virtual_alloc_end = u64 (k.virtual_alloc_end + page_size) })
        grow fuel rounds current size)
        k in
    if ltb (get_size k.mem current) (u64 (size + size_of_free_space * 2))
    then more
    else some (tt, k)

abbrev pub allocation_magic : ℕ
allocation_magic = 0xfeeb_daed_dead_beef

-- The end of `kalloc`: the header of the allocation, and the free space behind it.
unfoldable pub take_space : ℕ → ℕ → Call ℕ
unfolding get_size set_size set_last
take_space current size k =
    let old_size = get_size k.mem current in
    let m = store64 (store64 k.mem current size) (current + 8) allocation_magic in
    let result_pointer = current + 16 in
    let new_free_list = result_pointer + size in
    let m' =
      set_size (set_last m new_free_list) new_free_list
        (u64 (old_size + 2 ^ 64 - u64 (size + 16))) in
    some (result_pointer, record k { mem = m'; free_list = new_free_list })

unfoldable pub kalloc : ℕ → ℕ → Call ℕ
unfolding is_last get_size
kalloc fuel size k = elim (find_space fuel k.mem k.free_list size) [
  | none ↦ none
  | some current ↦
      (if is_last k.mem current
            && ltb (get_size k.mem current) (u64 (size + size_of_free_space * 2))
          then grow fuel fuel current size >> take_space current size
          else take_space current size)
        k
]

unfoldable pub virtual_allocator_init : ℕ → ℕ → Call (Unit {0})
unfolding set_size set_last
virtual_allocator_init virtual_heap_start fuel = do
  frame ← kalloc_frame fuel
  map_page fuel virtual_heap_start frame 0xf
  λ k. some (
    tt,
    record k {
      mem = set_last (set_size k.mem virtual_heap_start page_size) virtual_heap_start;
      free_list = virtual_heap_start;
      virtual_alloc_end = u64 (virtual_heap_start + page_size);
    },
  )
