-- ===== src/Paging.antt =====
-- Four-level page tables, kernel/memory/paging.cpp. A `PageTable *` is the address of the table at
-- `virtual_offset`, a `PhysicalFrame *` a physical address (the class is empty, so its pointers
-- count bytes). Calls of `log` are left out.
pub mod Entry
pub mod Tree
pub mod Change
pub mod Link
pub mod Grow
pub mod Map
pub mod Translate
pub mod Stable
pub mod Walk
pub mod Setup
use tetra_os.Base.{
  ℕ, zero, suc, ◌+◌, ◌-◌, ◌*◌, ◌/◌, ◌^◌, bit_and, bit_or, Bool, none, some, ◌==◌, ltb,
  if◌then◌else◌,
}
use tetra_os.Memory.{Bytes, u64, load64, store64}
use tetra_os.Kernel.{Kernel, virtual_offset, Call, pure, ◌>>=◌, ◌>>◌, write, read}
use tetra_os.Frames.{kalloc_frame}
use tetra_os.Address.{get_ppn, get_vpn_3, get_vpn_2, get_vpn_1, get_vpn_0, get_offset}

unfoldable pub create_valid_page_table_entry : ℕ → ℕ
create_valid_page_table_entry ppn = bit_or (u64 (bit_and ppn 0xff_ffff_ffff * 2 ^ 10)) 1

unfoldable pub get_entry : Bytes → ℕ → ℕ → ℕ
get_entry m table index = load64 m (table + 8 * index)

unfoldable pub set_entry : Bytes → ℕ → ℕ → ℕ → Bytes
set_entry m table index entry = store64 m (table + 8 * index) entry

unfoldable pub get_physical_frame : Bytes → ℕ → ℕ → ℕ
unfolding get_entry
get_physical_frame m table index = u64 (get_entry m table index / 2 ^ 10 * 2 ^ 12)

unfoldable pub is_entry_valid : Bytes → ℕ → ℕ → Bool
unfolding get_entry
is_entry_valid m table index = bit_and (get_entry m table index) 1 == 1

unfoldable pub table_ppn : ℕ → ℕ
table_ppn table = bit_and (u64 (table + 2 ^ 64 - virtual_offset) / 2 ^ 12) 0xfff_ffff_ffff

-- The table that an entry points to.
unfoldable pub pointed_table : Bytes → ℕ → ℕ → ℕ
unfolding get_physical_frame
pointed_table m table index = u64 (get_physical_frame m table index + virtual_offset)

-- One level of `map_page`: an invalid entry is first made to point to a new frame.
unfoldable pub next_table : ℕ → ℕ → ℕ → Call ℕ
next_table fuel table index k =
    if is_entry_valid k.mem table index
    then some (pointed_table k.mem table index, k)
    else (do
      frame ← kalloc_frame fuel
      write (λ m. set_entry m table index (create_valid_page_table_entry (get_ppn frame)))
      read (λ k'. pointed_table k'.mem table index))
        k

unfoldable pub map_page : ℕ → ℕ → ℕ → ℕ → Call (Unit {0})
unfolding next_table
map_page fuel virtual_page physical_frame flag = do
  first ← read (λ k. k.first_level_table)
  second ← next_table fuel first (get_vpn_3 virtual_page)
  third ← next_table fuel second (get_vpn_2 virtual_page)
  fourth ← next_table fuel third (get_vpn_1 virtual_page)
  write (λ m.
      set_entry m fourth (get_vpn_0 virtual_page)
        (bit_or (create_valid_page_table_entry (get_ppn physical_frame)) flag))

-- A null pointer, 0, stands for an address that is not mapped.
unfoldable pub get_physical_address_of_virtual_address : Kernel → ℕ → ℕ
unfolding is_entry_valid pointed_table get_physical_frame get_entry
get_physical_address_of_virtual_address k virtual_address =
    let m = k.mem in
    let first = k.first_level_table in
    let second = pointed_table m first (get_vpn_3 virtual_address) in
    let third = pointed_table m second (get_vpn_2 virtual_address) in
    let fourth = pointed_table m third (get_vpn_1 virtual_address) in
    let frame = get_physical_frame m fourth (get_vpn_0 virtual_address) in
    if is_entry_valid m first (get_vpn_3 virtual_address)
    then if is_entry_valid m second (get_vpn_2 virtual_address)
      then if is_entry_valid m third (get_vpn_1 virtual_address)
        then if is_entry_valid m fourth (get_vpn_0 virtual_address)
          then bit_or frame (get_offset virtual_address)
          else 0
        else 0
      else 0
    else 0

abbrev gigabyte_bytes : ℕ
gigabyte_bytes = 0x4000_0000

-- One gigabyte: an entry of the first table points to the second, and one of the second is a leaf.
unfoldable pub map_page_for_setup : ℕ → ℕ → ℕ → ℕ → Bytes → Bytes
map_page_for_setup first_table second_table page_to_map frame m =
    set_entry
      (set_entry m first_table (get_vpn_3 page_to_map)
        (create_valid_page_table_entry (table_ppn second_table)))
      second_table (get_vpn_2 page_to_map)
      (bit_or (create_valid_page_table_entry (get_ppn frame)) 0xf)

-- The loop of `paging_init`, on fuel.
unfoldable pub setup_from : ℕ → ℕ → ℕ → ℕ → Bytes → Bytes
setup_from zero first_table second_table kernel_page m = m
setup_from (suc fuel) first_table second_table kernel_page m =
    let frame = u64 (kernel_page + 2 ^ 64 - virtual_offset) in
    let m' = map_page_for_setup first_table second_table kernel_page frame m in
    let rest = setup_from fuel first_table second_table (u64 (kernel_page + gigabyte_bytes)) m' in
    if ltb kernel_page (virtual_offset + 4 * gigabyte_bytes) then rest else m

unfoldable pub paging_init : ℕ → Call (Unit {0})
unfolding setup_from
paging_init fuel = do
  first_frame ← kalloc_frame fuel
  second_frame ← kalloc_frame fuel
  let first_table = u64 (first_frame + virtual_offset)
  let second_table = u64 (second_frame + virtual_offset)
  λ k. some (
    tt,
    record k {
      first_level_table = first_table;
      active_table = get_ppn first_frame;
      mem = setup_from 5 first_table second_table virtual_offset k.mem;
    },
  )
