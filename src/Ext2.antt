-- ===== src/Ext2.antt =====
-- The file system, kernel/drivers/ext2.cpp. Structures read from the disk are their bytes. The
-- block device is a parameter: what a read leaves in its buffer. Calls of `log`, `printf` and
-- `kalloc` are left out; a name is the list of its characters.
pub mod Spells
pub mod Steps
pub mod Path
pub mod Entries
pub mod Start
pub mod Disk
use tetra_os.Base.{
  ℕ, zero, suc, ◌+◌, ◌-◌, ◌*◌, ◌/◌, ◌%◌, ◌^◌, bit_and, Bool, true, false, ◌&&◌, Option, none, some,
  List, [], ◌∷◌, length, ◌==◌, if◌then◌else◌,
}
use tetra_os.Memory.{Bytes, u64, u32, load8}

abbrev pub load16 : Bytes → ℕ → ℕ
load16 m a = load8 m a + load8 m (a + 1) * 2 ^ 8

abbrev pub load32 : Bytes → ℕ → ℕ
load32 m a = load16 m a + load16 m (a + 2) * 2 ^ 16

abbrev pub Read : Type 0
Read = ℕ → ℕ → Bytes

-- The fields of `EXT2Inode` that the code reads.
abbrev pub i_mode : Bytes → ℕ
i_mode inode = load16 inode 0

abbrev pub i_size : Bytes → ℕ
i_size inode = load32 inode 4

abbrev pub i_block : Bytes → ℕ → ℕ
i_block inode index = load32 inode (40 + 4 * index)

abbrev pub size_of_inode : ℕ
size_of_inode = 256

-- The fields of `EXT2` that are used after its construction.
pub record Ext2 : Type 0 where
  pub block_size : ℕ
  pub inodes_per_group : ℕ
  pub inode_table : ℕ → ℕ

abbrev pub equal_chars : Bytes → ℕ → List ℕ → Bool
equal_chars contents a [] = true
equal_chars contents a (c ∷ cs) = (load8 contents a == c) && equal_chars contents (a + 1) cs

-- The directory entry at `entry` of the block has the name.
unfoldable pub matches : Bytes → ℕ → List ℕ → Bool
matches contents entry name =
    (load8 contents (entry + 6) == length name) && equal_chars contents (entry + 8) name

-- The search through a directory's block, with the entries that may still be looked at.
unfoldable pub find_entry : ℕ → Bytes → ℕ → List ℕ → Option ℕ
find_entry zero contents entry name = none
find_entry (suc rounds) contents entry name =
    let rest = find_entry rounds contents (u64 (entry + load16 contents (entry + 4))) name in
    if matches contents entry name then some entry else rest

-- The result (`true` for 0, `false` for -1), and the inode afterwards.
unfoldable pub get_inode_in_dir : Ext2 → Read → Bytes → List ℕ → Bool × Bytes
unfolding find_entry
get_inode_in_dir e read dir name =
    let contents = read (u32 (e.block_size * i_block dir 0)) e.block_size in
    if bit_and (i_mode dir) 0x4000 == 0
    then (false, dir)
    else elim (find_entry 10 contents 0 name) [
      | none ↦ (false, dir)
      | some entry ↦
          let number = u32 (load32 contents entry + 2 ^ 32 - 1) in
          let desc_index = number / e.inodes_per_group in
          let index = number % e.inodes_per_group in
          (
            true,
            read (u64 (u32 (e.block_size * e.inode_table desc_index) + size_of_inode * index))
                size_of_inode,
          )
    ]

unfoldable pub get_root_inode : Ext2 → Read → Bytes
get_root_inode e read =
    read (u64 (u32 (e.block_size * e.inode_table 0) + size_of_inode * 1)) size_of_inode

-- The `n` characters from `start`.
abbrev pub copy : (ℕ → ℕ) → ℕ → ℕ → List ℕ
copy path start zero = []
copy path start (suc n) = path start ∷ copy path (start + 1) n

-- The length of a string that ends with 0, on fuel.
unfoldable pub string_length : ℕ → (ℕ → ℕ) → ℕ → Option ℕ
string_length zero path i = none
string_length (suc fuel) path i =
    let rest = string_length fuel path (i + 1) in if path i == 0 then some i else rest

abbrev pub Look : Type 0
Look = Bytes → List ℕ → Bool × Bytes

-- The loop over the path, on fuel, with the lookup of what is left at its end.
unfoldable pub walk_path : Look → (ℕ → ℕ) → ℕ → ℕ → ℕ → ℕ → Bytes → Option (Bool × Bytes)
walk_path look path path_length zero current size dir = none
walk_path look path path_length (suc fuel) current size dir =
    let skip = walk_path look path path_length fuel (current + 1) size dir in
    let next = walk_path look path path_length fuel (current + 1) (size + 1) dir in
    let (found, dir') = look dir (copy path (u64 (current + 1 + 2 ^ 64 - size - 1)) size) in
    let deeper = walk_path look path path_length fuel (current + 2) 1 dir' in
    if path current == 0
    then some (look dir (copy path (u64 (current + 2 ^ 64 - size)) size))
    else if path current == 47
    then if current == 0
      then skip
      else if found
      then if path_length == current + 1 then some (true, dir') else deeper
      else some (false, dir')
    else next

unfoldable pub get_inode_from_dir : Ext2 → Read → ℕ → Bytes → (ℕ → ℕ) → Option (Bool × Bytes)
unfolding get_inode_in_dir walk_path string_length
get_inode_from_dir e read fuel dir path = elim (string_length fuel path 0) [
  | none ↦ none
  | some path_length ↦ walk_path (get_inode_in_dir e read) path path_length fuel 0 0 dir
]

-- The result of the lookup is not looked at.
unfoldable pub get_file_size : Ext2 → Read → ℕ → (ℕ → ℕ) → Option ℕ
unfolding get_inode_from_dir get_root_inode
get_file_size e read fuel path =
    elim (get_inode_from_dir e read fuel (get_root_inode e read) path) [
      | none ↦ none
      | some (found, inode) ↦ some (i_size inode)
    ]

unfoldable pub read_file : Ext2 → Read → ℕ → (ℕ → ℕ) → ℕ → Option Bytes
unfolding get_inode_from_dir get_root_inode
read_file e read fuel path size =
    elim (get_inode_from_dir e read fuel (get_root_inode e read) path) [
      | none ↦ none
      | some (found, inode) ↦ some (read (u32 (e.block_size * i_block inode 0)) size)
    ]
