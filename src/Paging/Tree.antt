-- ===== src/Paging/Tree.antt =====
-- The page tables as a tree. A path is the list of indices that lead from the first table to
-- another, the last index first.
use tetra_os.Base.{
  ℕ, ◌+◌, ◌*◌, ◌%◌, ◌^◌, ◌≤◌, ◌<◌, ◌≡◌, ◌≢◌, Bool, false, ◌&&◌, Option, none, some, List, [], ◌∷◌,
  ◌==◌, ltb, if◌then◌else◌, length,
}
use tetra_os.Memory.{Bytes}
use tetra_os.Kernel.{Kernel, virtual_offset}
use tetra_os.Frames.Alloc.{flag}
use tetra_os.Paging.{is_entry_valid, pointed_table, get_entry}

-- The address of frame `j`, as a table.
abbrev pub table_of : Kernel → ℕ → ℕ
table_of k j = virtual_offset + (k.first_frame_address + 4096 * j)

abbrev pub child : Bytes → ℕ → ℕ → Option ℕ
child m table index =
    if is_entry_valid m table index then some (pointed_table m table index) else none

abbrev pub child_of : Bytes → ℕ → Option ℕ → Option ℕ
child_of m index none = none
child_of m index (some table) = child m table index

abbrev pub table_at : Bytes → ℕ → List ℕ → Option ℕ
table_at m root [] = some root
table_at m root (i ∷ p) = child_of m i (table_at m root p)

-- The four gigabytes at `virtual_offset` are leaves of the second level: no table is below them.
abbrev pub is_direct : ℕ → List ℕ → Bool
is_direct i [] = false
is_direct i (a ∷ []) = (a == 256) && ltb i 4
is_direct i (b ∷ a ∷ p) = false

abbrev pub IsPath : List ℕ → Type 0
IsPath [] = Unit {0}
IsPath (i ∷ p) = (i < 512) × (length p ≤ 2) × (is_direct i p ≡ false) × IsPath p

-- The frames are aligned and low, and the flags of the first `limit` ones lie before them, behind
-- the start of the direct mapping.
pub record IsLaid (k : Kernel) (limit : ℕ) : Type 0 where
  pub aligned : k.first_frame_address % 4096 ≡ 0
  pub low : k.first_frame_address + 4096 * limit ≤ 2 ^ 32
  pub apart : k.managed_frames_address_start + limit ≤ virtual_offset + k.first_frame_address
  pub flags_high : virtual_offset ≤ k.managed_frames_address_start

-- A table is one of the first `limit` frames, and allocated.
abbrev pub IsOwned : Kernel → ℕ → ℕ → Type 0
IsOwned k limit table = (j : ℕ) × (j < limit) × (table ≡ table_of k j) × (flag k j ≢ 0)

pub record IsTree (k : Kernel) (limit : ℕ) : Type 0 where
  pub laid : IsLaid k limit
  pub owned :
      (p : List ℕ)
      → IsPath p
      → (t : ℕ) → table_at k.mem k.first_level_table p ≡ some t
      → IsOwned k limit t
  pub distinct :
      (p q : List ℕ)
      → IsPath p
      → IsPath q
      → (t : ℕ) → table_at k.mem k.first_level_table p ≡ some t
      → table_at k.mem k.first_level_table q ≡ some t
      → p ≡ q
  pub clean :
      (j : ℕ)
      → j < limit
      → flag k j ≡ 0
      → (i : ℕ) → i < 512
      → is_entry_valid k.mem (table_of k j) i ≡ false

abbrev pub leaf_of : Bytes → ℕ → Option ℕ → Option ℕ
leaf_of m index none = none
leaf_of m index (some table) =
    if is_entry_valid m table index then some (get_entry m table index) else none

-- The valid entry at `index` of the table that the path leads to.
abbrev pub leaf_at : Kernel → List ℕ → ℕ → Option ℕ
leaf_at k p index = leaf_of k.mem index (table_at k.mem k.first_level_table p)
