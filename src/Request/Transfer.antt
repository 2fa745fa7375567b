-- ===== src/Request/Transfer.antt =====
-- Reads of any length through the queue, `VirtIOBlockDevice::read` of
-- kernel/drivers/virtio/blk.cpp, with the kernel's heap and memory.
use tetra_os.Base.{ℕ, ◌+◌, ◌*◌, ◌/◌, ◌%◌, ◌^◌, ◌≤◌, ◌<◌, ◌≡◌, ◌≢◌, true, some}
use tetra_os.Memory.{Bytes, Apart, u32, u64, load8, load64}
use tetra_os.Copy.{memcpy}
use tetra_os.Kernel.{Kernel}
use tetra_os.Frames.Count.{free_count}
use tetra_os.Heap.Invariant.{IsHeap}
use tetra_os.Heap.Take.{IsAllocated}
use tetra_os.Heap.Alloc.{HasRoom}
use tetra_os.Block.{buffer_byte}
use tetra_os.Request.{VirtQueue, status_offset, size_of_request, basic_op}
use tetra_os.Request.Chain.{request_at, parts}
use tetra_os.Request.Serve.{written, published}

-- What a device does with a request to read: the contents are the disk's, from the sector in the
-- header on, and the status is written; nothing else.
pub record Served (disk : Bytes) (request temp size : ℕ) (m m' : Bytes) : Type 0 where
  pub answered : load8 m' (request + status_offset) ≢ 0x12
  pub sectors : (i : ℕ) → i < size → m' (temp + i) ≡ disk (512 * load64 m (request + 8) + i)
  pub kept : (b : ℕ) → Apart temp size b 1 → b ≢ request + status_offset → m' b ≡ m b

-- The part of a request with its type and its sector.
abbrev size_of_request_header : ℕ
size_of_request_header = 16

module _ (serve : VirtQueue → Bytes → Bytes) (disk : Bytes) (delay fuel limit base : ℕ)
    (enough : limit ≤ fuel) (quick : delay < fuel) (q : VirtQueue) (k : Kernel)
    (heap : IsHeap k limit base) (offset length buffer n : ℕ) where
  abbrev size : ℕ
  size = 512 * (length / 512 + 1)

  abbrev temp : ℕ
  temp = k.free_list + 16

  abbrev request : ℕ
  request = temp + size + 16

  -- The device knows one physical address for each part of a request. It serves the request that it
  -- finds in the queue if the temporary buffer and the header of the request do not reach into
  -- another page, whose frame may lie anywhere.
  abbrev IsServing : Type 0
  IsServing =
      temp % 4096 + size ≤ 4096
      → request % 4096 + size_of_request_header ≤ 4096
      → (k' : Kernel) (q' : VirtQueue) (m : Bytes)
      → request_at q' q.avail_idx ≡ some (parts k' q request temp size 0)
      → Served disk request temp size m (serve q' m)

  -- The heap has room for the temporary buffer, and a page more for the request.
  module _ (rounds : n < fuel) (many : 1 < fuel) (room : HasRoom k limit n size)
      (frames : 4 * n + 4 ≤ free_count k limit)
      (addresses : k.virtual_alloc_end + 4096 * n + 8192 ≤ 2 ^ 64)
      (low : offset + length + 2 ^ 21 < 2 ^ 41) where
    abbrev sector : ℕ
    sector = (offset + 2 ^ 20) / 512

    abbrev asked : ℕ → Kernel → Bytes
    asked r k2 = (written serve delay fuel sector size temp 0 q k r k2).mem

    abbrev served_mem : ℕ → Kernel → Bytes
    served_mem r k2 = serve (published serve delay fuel sector size temp 0 q k r k2) (asked r k2)

    -- Outside the temporary buffer and the request the device leaves memory as it was.
    module _ (k2 : Kernel)
        (v : Served disk request temp size (asked request k2) (served_mem request k2)) where
      abbrev copied : Bytes
      copied = memcpy (served_mem request k2) buffer (temp + offset % 512) length

      module _ (inside : base ≤ buffer) (below : buffer + length ≤ k.free_list) where
        -- The bytes of `VirtIOBlockDevice::read` over the disk.
        abbrev bytes : Bytes
        bytes i =
            buffer_byte (λ j. disk (512 * u32 (u64 (offset + 512 * 2048) / 512) + j))
              (λ j. copied (temp + j)) (u64 ((length / 512 + 1) * 512))
              (u64 (offset + 512 * 2048) % 512 + i)

    -- What the request gives, at its address.
    abbrev Requested : Kernel → ℕ → Type 0
    Requested k1 r =
        (k2 : Kernel) × IsAllocated k1 k2 limit base r size_of_request 1
        × ((basic_op serve delay fuel sector size temp 0 q k1
              ≡ some (
                true,
                published serve delay fuel sector size temp 0 q k1 r k2,
                record k2 { mem = served_mem r k2 },
              ))
            × (load64 (asked r k2) (r + 8) ≡ u32 sector))
