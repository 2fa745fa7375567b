-- ===== src/Tests/Disks.antt =====
-- A disk with a file system: what the theorems on reads of the file system state of it.
use tetra_os.Base.{ℕ, ◌+◌, ◌-◌, ◌*◌, ◌^◌, ◌&&◌, ltb, leb, ◌==◌, if◌then◌else◌}
use tetra_os.Memory.{Bytes, u32}
use tetra_os.Block.{sectors_of}
use tetra_os.Memory.{load64}
use tetra_os.Request.{VirtQueue}
use tetra_os.Kernel.{Kernel}
use tetra_os.Tests.States.{allocated}
use tetra_os.Ext2.{Ext2, Read, i_block, get_root_inode}
use tetra_os.Ext2.Start.{fields_of}
use tetra_os.Ext2.Disk.{disk_read, partition}

-- Blocks of 2048 bytes, 8 in each of 2 groups, with 8 inodes in a group, whose table is block 4; the
-- directory in block 5 holds a file "a", inode 3.
abbrev file_system : ℕ → ℕ
file_system a =
    if a == 1028
    then 16
    else if a == 1048
    then 1
    else if a == 1056
    then 8
    else if a == 1064
    then 8
    else if a == 2056
    then 4
    else if a == 2088
    then 6
    else if a == 8449
    then 0x40
    else if a == 8488
    then 5
    else if a == 10240
    then 3
    else if a == 10244
    then 12
    else if a == 10246
    then 1
    else if a == 10248
    then 97
    else 0

abbrev whole_disk : Bytes
whole_disk a = file_system (a - 2 ^ 20)

abbrev device : Read
device = disk_read (sectors_of whole_disk) (λ _. 7) (λ _. 0)

abbrev on_disk : Ext2
on_disk = fields_of device (λ _. 0)

abbrev root : Bytes
root = get_root_inode on_disk device

abbrev contents : Bytes
contents = device (u32 (on_disk.block_size * i_block root 0)) on_disk.block_size

abbrev p : Bytes
p = partition whole_disk

-- A device that serves requests from the disk, for a buffer and a request at these addresses.
abbrev temp_at : ℕ
temp_at = allocated.0.free_list + 16

abbrev request_at_disk : ℕ
request_at_disk = temp_at + 512 + 16

abbrev serve_disk : VirtQueue → Bytes → Bytes
serve_disk q m b =
    if b == request_at_disk + 528
    then 0
    else if leb temp_at b && ltb b (temp_at + 512)
    then whole_disk (512 * load64 m (request_at_disk + 8) + (b - temp_at))
    else m b

abbrev idle_queue : VirtQueue
idle_queue = record {
  desc = λ i. record { addr = 0; len = 0; flags = 0; next = 0 };
  avail_idx = 3;
  avail_ring = λ i. 0;
}
