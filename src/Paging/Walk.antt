-- ===== src/Paging/Walk.antt =====
-- The walk that the processor makes for an address under 48-bit paging (Sv48), as the RISC-V
-- specification gives it: an independent description for the tables that
-- kernel/memory/paging.cpp builds. Permissions are left out, and so are reserved bits.
use tetra_os.Base.{
  ℕ, zero, suc, ◌+◌, ◌*◌, ◌/◌, ◌%◌, ◌^◌, Bool, true, false, ◌||◌, Option, none, some, ltb, leb,
  ◌==◌, if◌then◌else◌,
}
use tetra_os.Memory.{Bytes}
use tetra_os.Kernel.{Kernel, virtual_offset}
use tetra_os.Paging.{get_entry}

-- Read, write or execute is set.
abbrev is_leaf : ℕ → Bool
is_leaf entry = if entry / 2 % 8 == 0 then false else true

abbrev pub entry_ppn : ℕ → ℕ
entry_ppn entry = entry / 1024 % 2 ^ 44

-- A leaf whose page has `size` bytes; a frame that is not aligned to them is a fault.
abbrev leaf_target : ℕ → ℕ → ℕ → Option ℕ
leaf_target size entry v =
    if entry_ppn entry * 4096 % size == 0 then some (entry_ppn entry * 4096 + v % size) else none

-- One level: what a pointer to another table leads to is given by `deeper`.
abbrev pub resolve : ℕ → ℕ → ℕ → Option ℕ → Option ℕ
resolve size entry v deeper =
    if entry % 2 == 0 then none else if is_leaf entry then leaf_target size entry v else deeper

-- The entry for an address in the table of the given page number.
abbrev pub entry_for : Bytes → ℕ → ℕ → ℕ → ℕ
entry_for m size ppn v = get_entry m (virtual_offset + ppn * 4096) (v / size % 512)

-- The walk from a table with `levels` levels of tables below it.
unfoldable pub walk : ℕ → Bytes → ℕ → ℕ → Option ℕ
walk zero m ppn v = resolve 4096 (entry_for m 4096 ppn v) v none
walk (suc levels) m ppn v =
    let size = 4096 * 512 ^ suc levels in
    let entry = entry_for m size ppn v in
    let deeper = walk levels m (entry_ppn entry) v in resolve size entry v deeper

-- Bits 63 to 48 of an address repeat bit 47.
abbrev pub is_canonical : ℕ → Bool
is_canonical v = ltb v (2 ^ 47) || leb virtual_offset v

unfoldable pub sv48 : Kernel → ℕ → Option ℕ
unfolding walk
sv48 k v = if is_canonical v then walk 3 k.mem k.active_table v else none
