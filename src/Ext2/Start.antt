-- ===== src/Ext2/Start.antt =====
-- The construction of the file system, the constructor of `EXT2` in kernel/drivers/ext2.cpp, on the
-- structures of kernel/drivers/ext2.h.
use tetra_os.Base.{
  ℕ, ◌+◌, ◌*◌, ◌/◌, ◌%◌, ◌^◌, ◌≤◌, ◌<◌, ◌≡◌, refl, sym, ap, ◌∙◌, true, false, ltb, Option, none,
  some, if◌then◌else◌, arith,
}
use tetra_os.Memory.{Bytes, u32, u64, load8}
use tetra_os.Ext2.{load32, Read, Ext2}

-- The fields of `EXT2SuperBlock` that are used, and its size.
abbrev s_blocks_count : Bytes → ℕ
s_blocks_count super_block = load32 super_block 4

abbrev s_log_block_size : Bytes → ℕ
s_log_block_size super_block = load32 super_block 24

abbrev s_blocks_per_group : Bytes → ℕ
s_blocks_per_group super_block = load32 super_block 32

abbrev s_inodes_per_group : Bytes → ℕ
s_inodes_per_group super_block = load32 super_block 40

abbrev size_of_super_block : ℕ
size_of_super_block = 92

-- A field of `EXT2BlockGroupDescriptor`, and its size.
abbrev bg_inode_table : Bytes → ℕ
bg_inode_table desc = load32 desc 8

abbrev size_of_group_desc : ℕ
size_of_group_desc = 32

-- The two loops over the groups: the table of the inodes of each group that was read. `unset` is what
-- the pointers hold that were not set.
abbrev read_groups : Read → ℕ → ℕ → (ℕ → ℕ) → ℕ → ℕ
read_groups read block_size amount_groups unset group =
    let desc = read (u64 (u32 (block_size * 1) + group * size_of_group_desc)) size_of_group_desc in
    if ltb group amount_groups then bg_inode_table desc else unset group

-- The fields that the constructor sets. `inodes_per_block` is set and never read. The source defines
-- no shift by 32 or more, and no group of no blocks.
unfoldable pub fields_of : Read → (ℕ → ℕ) → Ext2
fields_of read unset =
    let super_block = read 1024 size_of_super_block in
    let amount_groups = s_blocks_count super_block / s_blocks_per_group super_block in
    let block_size = u32 (1024 * 2 ^ s_log_block_size super_block) in
    record {
      block_size = block_size;
      inodes_per_group = s_inodes_per_group super_block;
      inode_table = read_groups read block_size amount_groups unset;
    }

-- The constructor. `none` is more than eight groups, for which its array of descriptors has no place:
-- they are read to what lies behind it.
unfoldable pub new_ext2 : Read → (ℕ → ℕ) → Option Ext2
unfolding fields_of
new_ext2 read unset =
    let super_block = read 1024 size_of_super_block in
    if ltb 8 (s_blocks_count super_block / s_blocks_per_group super_block)
    then none
    else some (fields_of read unset)

module _ (m n : Bytes) where
  load8_at : (a b : ℕ) → m a ≡ n b → load8 m a ≡ load8 n b
  unfolding load8
  load8_at a b e = ap (λ (x : ℕ). x % 256) e

  load32_at : (a b : ℕ) → ((i : ℕ) → i < 4 → m (a + i) ≡ n (b + i)) → load32 m a ≡ load32 n b
  load32_at a b h =
      let first = h 0 (omega arith) in
      let last = h 3 (omega arith) in
      let e0 : a + 0 ≡ a = omega arith in
      let e0' : b + 0 ≡ b = omega arith in
      let e3 : a + 3 ≡ a + 2 + 1 = omega arith in
      let e3' : b + 3 ≡ b + 2 + 1 = omega arith in
      omega (
        arith,
        load8_at a b (ap m (sym e0) ∙ first ∙ ap n e0'),
        load8_at (a + 1) (b + 1) (h 1 (omega arith)),
        load8_at (a + 2) (b + 2) (h 2 (omega arith)),
        load8_at (a + 2 + 1) (b + 2 + 1) (ap m (sym e3) ∙ last ∙ ap n e3'),
      )

-- A device that reads the bytes of a disk, as far as it transfers their sectors: one more than the
-- size has whole ones.
abbrev pub Reads : Read → Bytes → Type 0
Reads read disk =
    (offset size i : ℕ)
    → i < size
    → offset % 512 + i < (size / 512 + 1) * 512
    → offset + size + 2 ^ 21 < 2 ^ 41
    → read offset size i ≡ disk (offset + i)

-- The file system of a disk, by the specification: the descriptors of the groups start at the block
-- behind that of the super block.
abbrev pub block_size_of : Bytes → ℕ
block_size_of disk = 1024 * 2 ^ load32 disk 1048

abbrev pub inode_table_of : Bytes → ℕ → ℕ
inode_table_of disk group =
    load32 disk (block_size_of disk * (load32 disk 1044 + 1) + 32 * group + 8)

module _ (read : Read) (disk : Bytes) (reads : Reads read disk) (unset : ℕ → ℕ) where
  super_field :
      (a : ℕ) → a + 4 ≤ 92 → load32 (read 1024 size_of_super_block) a ≡ load32 disk (1024 + a)
  super_field a fits = load32_at (read 1024 size_of_super_block) disk a (1024 + a) (λ i h.
      (let e : 1024 + (a + i) ≡ 1024 + a + i = omega arith in
        reads 1024 size_of_super_block (a + i) (omega arith) (omega arith) (omega arith)
        ∙ ap disk e))

  table_of_group :
      (at group : ℕ)
      → at + 2 ^ 22 < 2 ^ 41
      → at % 512 + 32 ≤ 512
      → load32 (read (u64 at) size_of_group_desc) 8 ≡ load32 disk (at + 8)
  table_of_group at group low inside =
      let same : u64 at ≡ at = omega arith in
      load32_at (read (u64 at) size_of_group_desc) disk 8 (at + 8) (λ i h.
        (let e : u64 at + (8 + i) ≡ at + 8 + i = omega arith in
          reads (u64 at) size_of_group_desc (8 + i) (omega arith) (omega arith) (omega arith)
          ∙ ap disk e))

  fields_lem :
      block_size_of disk < 2 ^ 32
      → ((fields_of read unset).block_size ≡ block_size_of disk)
        × ((fields_of read unset).inodes_per_group ≡ load32 disk 1064)
  unfolding fields_of
  fields_lem low = (rw (super_field 24 (omega arith)) (omega arith), super_field 40 (omega arith))

  groups_read :
      (block_size groups group : ℕ)
      → group < groups
      → read_groups read block_size groups unset group
        ≡ load32
            (read (u64 (u32 (block_size * 1) + group * size_of_group_desc)) size_of_group_desc)
            8
  groups_read block_size groups group below =
      let e : ltb group groups ≡ true = ground arith in rw e refl

  fields_of_table :
      (group : ℕ)
      → group < load32 disk 1028 / load32 disk 1056
      → (fields_of read unset).inode_table group
        ≡ load32
            (read
              (u64 (u32 ((fields_of read unset).block_size * 1) + group * size_of_group_desc))
              size_of_group_desc)
            8
  unfolding fields_of
  fields_of_table group below =
      let block_size = (fields_of read unset).block_size in
      let groups =
        s_blocks_count (read 1024 size_of_super_block)
        / s_blocks_per_group (read 1024 size_of_super_block) in
      let same : groups ≡ load32 disk 1028 / load32 disk 1056 =
        rw (super_field 4 (omega arith), super_field 32 (omega arith)) refl in
      groups_read block_size groups group (omega (arith, same))

  new_ext2_runs :
      load32 disk 1028 / load32 disk 1056 ≤ 8 → new_ext2 read unset ≡ some (fields_of read unset)
  unfolding new_ext2
  new_ext2_runs few =
      let groups =
        s_blocks_count (read 1024 size_of_super_block)
        / s_blocks_per_group (read 1024 size_of_super_block) in
      let same : groups ≡ load32 disk 1028 / load32 disk 1056 =
        rw (super_field 4 (omega arith), super_field 32 (omega arith)) refl in
      let t : ltb 8 groups ≡ false = ground (arith, same) in rw t refl

  -- On a disk with a first data block 0, whose blocks are larger than the super block's, the
  -- constructor finds the block size, the inodes of a group, and the table of inodes of each full
  -- group, of which there are at most eight, where the specification has them.
  pub new_ext2_lem :
      (group : ℕ)
      → load32 disk 1044 ≡ 0
      → block_size_of disk < 2 ^ 32
      → load32 disk 1028 / load32 disk 1056 ≤ 8
      → group < load32 disk 1028 / load32 disk 1056
      → let e = fields_of read unset in
        (new_ext2 read unset ≡ some e)
        × (e.block_size ≡ block_size_of disk)
        × (e.inodes_per_group ≡ load32 disk 1064)
        × (e.inode_table group ≡ inode_table_of disk group)
  new_ext2_lem group first low eight below =
      let (size, inodes) = fields_lem low in
      let block_size = (fields_of read unset).block_size in
      let at : ℕ = u32 (block_size * 1) + group * size_of_group_desc in
      let place : at + 8 ≡ block_size_of disk * (load32 disk 1044 + 1) + 32 * group + 8 =
        rw first (omega (arith, size)) in
      (
        new_ext2_runs eight,
        size,
        inodes,
        fields_of_table group below
            ∙ table_of_group at group (omega (arith, size)) (omega (arith, size))
            ∙ ap (λ (a : ℕ). load32 disk a) place,
      )
