-- ===== src/Request/Chain.antt =====
-- The request that a device finds in the queue, by the virtio specification (2.7: a chain of
-- descriptors from the head that the ring of available buffers names), against what
-- `VirtIOBlockDevice::basic_op` of kernel/drivers/virtio/blk.cpp writes there.
use tetra_os.Base.{
  ℕ, zero, suc, ◌+◌, ◌%◌, ◌^◌, bit_and, ◌≡◌, refl, ◌≢◌, ◌⊎◌, inl, inr, Bool, true, false, not,
  Option, none, some, List, [], ◌∷◌, ◌==◌, if◌then◌else◌, arith,
}
use tetra_os.Memory.{u32}
use tetra_os.Kernel.{Kernel}
use tetra_os.Paging.{get_physical_address_of_virtual_address}
use tetra_os.Request.{VirtQueueDesc, VirtQueue, publish, status_offset}

-- A piece of memory that the device may read or write.
pub record Part : Type 0 where
  pub addr : ℕ
  pub len : ℕ
  pub writable : Bool

abbrev pub part_of : VirtQueueDesc → Part
part_of d = record { addr = d.addr; len = d.len; writable = not (bit_and d.flags 2 == 0) }

abbrev cons : Part → Option (List Part) → Option (List Part)
cons p none = none
cons p (some ps) = some (p ∷ ps)

-- The chain from a descriptor on, with at most so many; flag 1 says that another follows.
unfoldable pub chain : ℕ → (ℕ → VirtQueueDesc) → ℕ → Option (List Part)
chain zero desc i = none
chain (suc n) desc i =
    let rest = cons (part_of (desc i)) (chain n desc (desc i).next) in
    if bit_and (desc i).flags 1 == 0 then some (part_of (desc i) ∷ []) else rest

-- The request at the index of the available ring, in a queue of 256 descriptors.
unfoldable pub request_at : VirtQueue → ℕ → Option (List Part)
unfolding chain
request_at q i = chain 256 q.desc (q.avail_ring (i % 256))

module _ (k : Kernel) (q : VirtQueue) (request buffer length : ℕ) where
  -- The three parts of a request to a block device: a header to read, the contents, which are to
  -- be written if the operation is a read, and a byte of status to write.
  abbrev pub parts : ℕ → List Part
  parts type =
      record {
        addr = get_physical_address_of_virtual_address k request;
        len = 16;
        writable = false;
      }
      ∷ record {
        addr = get_physical_address_of_virtual_address k buffer;
        len = u32 length;
        writable = type == 0;
      }
      ∷ record {
        addr = get_physical_address_of_virtual_address k (request + status_offset);
        len = 1;
        writable = true;
      }
      ∷ []

  head_of : (type : ℕ) → (publish k q request buffer length type).avail_ring (q.avail_idx % 256) ≡ 0
  unfolding publish
  head_of type = let e : (q.avail_idx % 256 == q.avail_idx % 256) ≡ true = ground arith in rw e refl

  three :
      (type : ℕ)
      → (type ≡ 0) ⊎ (type ≡ 1)
      → chain 256 (publish k q request buffer length type).desc 0 ≡ some (parts type)
  unfolding publish chain
  three type (inl e) = rw e refl
  three type (inr e) = rw e refl

  -- A read or a write makes one more buffer available, and there the device finds exactly the parts
  -- of the request.
  pub publish-request_at :
      (type : ℕ)
      → (type ≡ 0) ⊎ (type ≡ 1)
      → let q' = publish k q request buffer length type in
        (request_at q' q.avail_idx ≡ some (parts type))
        × (q'.avail_idx ≡ (q.avail_idx + 1) % 2 ^ 16)
        × ((i : ℕ) → i ≢ q.avail_idx % 256 → q'.avail_ring i ≡ q.avail_ring i)
  unfolding publish request_at
  publish-request_at type h = (
    rw (head_of type) (three type h),
    refl,
    (λ i ne. (let e : (i == q.avail_idx % 256) ≡ false = ground arith in rw e refl)),
  )
