-- ===== src/Request.antt =====
-- One operation of the block device, `VirtIOBlockDevice::basic_op` of kernel/drivers/virtio/blk.cpp,
-- on the structures of virtio.h and blk.h in the same directory. The queue is its fields. The device
-- is a parameter: the memory that it leaves when it has served the queue, and the rounds of the
-- waiting loop until then.
pub mod Chain
pub mod Serve
pub mod Transfer
use tetra_os.Base.{
  ℕ, zero, suc, ◌+◌, ◌*◌, ◌/◌, ◌%◌, ◌^◌, bit_or, Bool, true, false, ◌||◌, Option, none, some, ◌==◌,
  if◌then◌else◌,
}
use tetra_os.Memory.{Bytes, u16, u32, u64, load8, store8, store64}
use tetra_os.Copy.{memcpy}
use tetra_os.Kernel.{Kernel}
use tetra_os.Paging.{get_physical_address_of_virtual_address}
use tetra_os.Heap.{kalloc}

abbrev virtq_desc_f_next : ℕ
virtq_desc_f_next = 1

abbrev virtq_desc_f_write : ℕ
virtq_desc_f_write = 2

pub record VirtQueueDesc : Type 0 where
  pub addr : ℕ
  pub len : ℕ
  pub flags : ℕ
  pub next : ℕ

-- The descriptors, and the ring of available buffers with its index.
pub record VirtQueue : Type 0 where
  pub desc : ℕ → VirtQueueDesc
  pub avail_idx : ℕ
  pub avail_ring : ℕ → ℕ

-- The offsets of a `VirtIOBlkRequest`'s fields, and its size.
abbrev pub sector_offset : ℕ
sector_offset = 8

abbrev pub status_offset : ℕ
status_offset = 528

abbrev pub size_of_request : ℕ
size_of_request = 536

abbrev pub store32 : Bytes → ℕ → ℕ → Bytes
store32 m a x =
    store8 (store8 (store8 (store8 m a x) (a + 1) (x / 2 ^ 8)) (a + 2) (x / 2 ^ 16)) (a + 3)
      (x / 2 ^ 24)

-- The constructor, whose sector has 32 bits, and the mark that the status is still open.
unfoldable pub write_request : Bytes → ℕ → ℕ → ℕ → Bytes
write_request m request type sector =
    store8 (store64 (store32 m request type) (request + sector_offset) (u32 sector))
      (request + status_offset) 0x12

abbrev set_desc : (ℕ → VirtQueueDesc) → ℕ → VirtQueueDesc → ℕ → VirtQueueDesc
set_desc desc i d j = if j == i then d else desc j

-- The three descriptors of a request, and the entry of the ring. `next` of the last is not written.
unfoldable pub publish : Kernel → VirtQueue → ℕ → ℕ → ℕ → ℕ → VirtQueue
publish k q request buffer length type =
    let header : VirtQueueDesc = record {
      addr = get_physical_address_of_virtual_address k request;
      len = 16;
      flags = virtq_desc_f_next;
      next = 1;
    } in
    let contents : VirtQueueDesc = record {
      addr = get_physical_address_of_virtual_address k buffer;
      len = u32 length;
      flags = if type == 1 then virtq_desc_f_next else bit_or virtq_desc_f_next virtq_desc_f_write;
      next = 2;
    } in
    let status : VirtQueueDesc = record {
      addr = get_physical_address_of_virtual_address k (request + status_offset);
      len = 1;
      flags = virtq_desc_f_write;
      next = (q.desc 2).next;
    } in
    record {
      desc = set_desc (set_desc (set_desc q.desc 0 header) 1 contents) 2 status;
      avail_idx = u16 (q.avail_idx + 1);
      avail_ring = λ i. if i == q.avail_idx % 256 then 0 else q.avail_ring i;
    }

-- The waiting loop, on fuel. Until the device is done, memory is as it was.
unfoldable pub wait : ℕ → ℕ → Bytes → Bytes → ℕ → Option Bytes
wait zero delay m m' status = none
wait (suc fuel) zero m m' status =
    let rest = wait fuel zero m m' status in if load8 m' status == 0x12 then rest else some m'
wait (suc fuel) (suc delay) m m' status =
    let rest = wait fuel delay m m' status in if load8 m status == 0x12 then rest else some m

-- The result is `true` for 0 and `false` for -1.
unfoldable pub basic_op :
    (VirtQueue → Bytes → Bytes)
    → ℕ
    → ℕ
    → ℕ
    → ℕ
    → ℕ
    → ℕ
    → VirtQueue
    → Kernel
    → Option (Bool × VirtQueue × Kernel)
unfolding write_request publish wait
basic_op serve delay fuel sector length buffer type q k =
    let made : Option (Bool × VirtQueue × Kernel) = elim (kalloc fuel size_of_request k) [
      | none ↦ none
      | some (request, k') ↦
          let m = write_request k'.mem request type sector in
          let q' = publish (record k' { mem = m }) q request buffer length type in
          elim (wait fuel delay m (serve q' m) (request + status_offset)) [
            | none ↦ none
            | some m' ↦ some (true, q', record k' { mem = m' })
          ]
    ] in
    if length % 512 == 0
    then if (type == 0) || (type == 1) then made else some (false, q, k)
    else some (false, q, k)

unfoldable pub read_blocks :
    (VirtQueue → Bytes → Bytes)
    → ℕ
    → ℕ
    → ℕ
    → ℕ
    → ℕ
    → VirtQueue
    → Kernel
    → Option (Bool × VirtQueue × Kernel)
unfolding basic_op
read_blocks serve delay fuel sector length buffer = basic_op serve delay fuel sector length buffer 0

unfoldable write_blocks :
    (VirtQueue → Bytes → Bytes)
    → ℕ
    → ℕ
    → ℕ
    → ℕ
    → ℕ
    → VirtQueue
    → Kernel
    → Option (Bool × VirtQueue × Kernel)
unfolding basic_op
write_blocks serve delay fuel sector length buffer =
    basic_op serve delay fuel sector length buffer 1

-- The end of `VirtIOBlockDevice::read`, with what `read_blocks` gave.
abbrev pub copy_read :
    ℕ → ℕ → ℕ → Option (Bool × VirtQueue × Kernel) → Option (Bool × VirtQueue × Kernel)
copy_read buffer from length none = none
copy_read buffer from length (some (false, q, k)) = some (false, q, k)
copy_read buffer from length (some (true, q, k)) =
    some (true, q, record k { mem = memcpy k.mem buffer from length })

-- `VirtIOBlockDevice::read`, with the kernel's heap and memory; the temporary buffer is not given
-- back.
unfoldable pub device_read :
    (VirtQueue → Bytes → Bytes)
    → ℕ
    → ℕ
    → ℕ
    → ℕ
    → ℕ
    → VirtQueue
    → Kernel
    → Option (Bool × VirtQueue × Kernel)
unfolding read_blocks
device_read serve delay fuel offset length buffer q k =
    let from = u64 (offset + 512 * 2048) in
    elim (kalloc fuel (u64 (512 * (length / 512 + 1))) k) [
      | none ↦ none
      | some (temp_buffer, k') ↦ copy_read buffer (temp_buffer + from % 512) length (
          read_blocks serve delay fuel (from / 512) (u64 ((length / 512 + 1) * 512)) temp_buffer q
            k')
    ]
