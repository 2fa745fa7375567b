-- ===== src/Ext2/Disk.antt =====
-- The file system over the block device: `EXT2` of kernel/drivers/ext2.cpp with
-- `VirtIOBlockDevice::read` of kernel/drivers/virtio/blk.cpp.
use tetra_os.Base.{ℕ, ◌+◌, ◌-◌, ◌*◌, ◌/◌, ◌%◌, ◌^◌, none, some}
use tetra_os.Memory.{Bytes}
use tetra_os.Block.{ReadBlocks, sectors_of, read}
use tetra_os.Ext2.{Ext2, Read, load32}
use tetra_os.Ext2.Start.{fields_of, block_size_of, inode_table_of}

-- The result of the device's `read` is not looked at: on a negative one the buffer is as it was.
unfoldable pub disk_read : ReadBlocks → Bytes → Bytes → Read
unfolding read
disk_read read_blocks behind old offset size = elim (read read_blocks behind offset size) [
  | none ↦ old
  | some buffer ↦ buffer
]

-- The partition with the file system, by the bytes of the disk.
abbrev pub partition : Bytes → Bytes
partition disk i = disk (2 ^ 20 + i)

-- Where the inode with a number is, by the specification, for inodes of 256 bytes.
abbrev pub inode_place : Bytes → ℕ → ℕ
inode_place p number =
    block_size_of p * inode_table_of p ((number - 1) / load32 p 1064)
    + 256 * ((number - 1) % load32 p 1064)

module _ (disk behind old : Bytes) where
  module _ (unset : ℕ → ℕ) where
    abbrev mounted : Ext2
    mounted = fields_of (disk_read (sectors_of disk) behind old) unset
