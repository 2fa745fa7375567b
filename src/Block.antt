-- ===== src/Block.antt =====
-- Reads of any length from a block device, and the search for it, `VirtIOBlockDevice::read` and
-- `get_block_device` of kernel/drivers/virtio/blk.cpp. The device itself, behind `read_blocks`, is a
-- parameter: a call gives the bytes that it leaves in the buffer, or `none` for a negative result.
use tetra_os.Base.{
  zero, suc, sym, ap, Bool, true, false, ◌&&◌, ◌==◌, ℕ, ◌+◌, ◌*◌, ◌/◌, ◌%◌, ◌^◌, ◌≤◌, ◌<◌, ◌≡◌,
  refl, Option, none, some, arith, ltb, if◌then◌else◌,
}
use tetra_os.Memory.{Bytes, u32, u64}
use tetra_os.Kernel.{virtual_offset}

abbrev pub ReadBlocks : Type 0
ReadBlocks = ℕ → ℕ → Option Bytes

-- The partition starts at this sector.
abbrev partition_start : ℕ
partition_start = 2048

-- A byte of the temporary buffer of `size` bytes, or of what lies behind it.
unfoldable pub buffer_byte : Bytes → Bytes → ℕ → ℕ → ℕ
buffer_byte temp_buffer behind size i = if ltb i size then temp_buffer i else behind i

-- The bytes that a read of `length` bytes copies to its buffer; only the first `length` count.
-- `behind` is what memory holds behind the temporary buffer, by the distance from its start.
unfoldable pub read : ReadBlocks → Bytes → ℕ → ℕ → Option Bytes
unfolding buffer_byte
read read_blocks behind offset length =
    let from = u64 (offset + 512 * partition_start) in
    let sector = from / 512 in
    let too_much_at_start = from % 512 in
    let size = u64 ((length / 512 + 1) * 512) in
    elim (read_blocks sector size) [
      | none ↦ none
      | some temp_buffer ↦ some (λ i. buffer_byte temp_buffer behind size (too_much_at_start + i))
    ]

abbrev pub virtio_start : ℕ
virtio_start = 0x1000_1000 + virtual_offset

abbrev pub virtio_amount : ℕ
virtio_amount = 8

abbrev pub virtio_size : ℕ
virtio_size = 0x1000

-- A register of 32 bits by its address.
abbrev pub Registers : Type 0
Registers = ℕ → ℕ

-- A virtio device of version 2 that is a block device.
unfoldable pub is_block_device : Registers → ℕ → Bool
is_block_device registers address =
    (registers address == 0x7472_6976)
    && (registers (address + 4) == 0x2)
    && (registers (address + 8) == 0x2)

-- The loop over the places of devices, with those that are left, for the devices that are wanted.
unfoldable pub find_device : (Registers → ℕ → Bool) → ℕ → Registers → ℕ → Option ℕ
find_device wanted zero registers address = none
find_device wanted (suc rounds) registers address =
    let rest = find_device wanted rounds registers (address + virtio_size) in
    if wanted registers address then some address else rest

-- The registers' address of the device, and that of its configuration; `none` is the null pointer.
unfoldable pub get_block_device : Registers → Option (ℕ × ℕ)
unfolding find_device
get_block_device registers =
    elim (find_device is_block_device virtio_amount registers virtio_start) [
      | none ↦ none
      | some address ↦ some (address, address + 0x100)
    ]

find_device_lem :
    (wanted : Registers → ℕ → Bool) (registers : Registers) (rounds k address : ℕ)
    → k < rounds
    → wanted registers (address + virtio_size * k) ≡ true
    → ((j : ℕ) → j < k → wanted registers (address + virtio_size * j) ≡ false)
    → find_device wanted rounds registers address ≡ some (address + virtio_size * k)
unfolding find_device
find_device_lem wanted registers zero k address h hit earlier = absurd (omega arith)
find_device_lem wanted registers (suc rounds) zero address h hit earlier =
    let e : address + virtio_size * 0 ≡ address = omega arith in
    let here : wanted registers address ≡ true = rw e at hit in rw here (ap some (sym e))
find_device_lem wanted registers (suc rounds) (suc k) address h hit earlier =
    let e : address + virtio_size * 0 ≡ address = omega arith in
    let on : (j : ℕ) → address + virtio_size * suc j ≡ address + virtio_size + virtio_size * j =
      λ j. omega arith in
    let miss : wanted registers address ≡ false = rw e at (earlier 0 (omega arith)) in
    rw miss (
      rw (on k) (
        find_device_lem wanted registers rounds k (address + virtio_size) (omega arith)
          (rw (on k) at hit) (λ j below. rw (on j) at (earlier (suc j) (omega arith)))))

-- `get_block_device` finds the first of the devices' places that holds a block device.
get_block_device_lem :
    (registers : Registers) (k : ℕ)
    → k < virtio_amount
    → is_block_device registers (virtio_start + virtio_size * k) ≡ true
    → ((j : ℕ) → j < k → is_block_device registers (virtio_start + virtio_size * j) ≡ false)
    → let address = virtio_start + virtio_size * k in
      get_block_device registers ≡ some (address, address + 0x100)
unfolding get_block_device
get_block_device_lem registers k h hit earlier =
    rw
      (
        find_device_lem is_block_device registers virtio_amount k virtio_start h hit earlier,
        get_block_device,
      )
      refl

pub find_device-none :
    (wanted : Registers → ℕ → Bool) (registers : Registers) (rounds address : ℕ)
    → ((k : ℕ) → k < rounds → wanted registers (address + virtio_size * k) ≡ false)
    → find_device wanted rounds registers address ≡ none
unfolding find_device
find_device-none wanted registers zero address all = refl
find_device-none wanted registers (suc rounds) address all =
    let e : address + virtio_size * 0 ≡ address = omega arith in
    let on : (j : ℕ) → address + virtio_size * suc j ≡ address + virtio_size + virtio_size * j =
      λ j. omega arith in
    let miss : wanted registers address ≡ false = rw e at (all 0 (omega arith)) in
    rw miss (
      find_device-none wanted registers rounds (address + virtio_size)
        (λ j below. rw (on j) at (all (suc j) (omega arith))))

pub get_block_device-none :
    (registers : Registers)
    → ((k : ℕ)
        → k < virtio_amount
        → is_block_device registers (virtio_start + virtio_size * k) ≡ false)
    → get_block_device registers ≡ none
unfolding get_block_device
get_block_device-none registers all =
    rw (find_device-none is_block_device registers virtio_amount virtio_start all, get_block_device)
      refl

-- What `read_blocks` gives over a disk: whole sectors, from the one whose number the request has,
-- which is cut to 32 bits.
abbrev pub sectors_of : Bytes → ReadBlocks
sectors_of disk sector length = some (λ i. disk (512 * u32 sector + i))

read_runs :
    (read_blocks : ReadBlocks) (behind temp : Bytes) (offset length : ℕ)
    → let size = u64 ((length / 512 + 1) * 512) in
      let from = u64 (offset + 512 * partition_start) in
      read_blocks (from / 512) size ≡ some temp
      → read read_blocks behind offset length
        ≡ some (λ i. buffer_byte temp behind size (from % 512 + i))
unfolding read
read_runs read_blocks behind temp offset length e = rw (e, read) refl

inside_lem :
    (disk behind temp : Bytes) (size i at : ℕ)
    → i < size
    → temp i ≡ disk at
    → buffer_byte temp behind size i ≡ disk at
unfolding buffer_byte
inside_lem disk behind temp size i at h e = let t : ltb i size ≡ true = ground arith in rw t e

module _ (disk behind : Bytes) where
  -- Over the sectors of a disk, a read that ends below 2 TiB gives the bytes of the partition as far
  -- as the sectors reach that it transfers: one more than the length has whole ones, from the one
  -- where the offset lies. The bytes after them come from behind the temporary buffer.
  pub read_lem :
      (offset length : ℕ)
      → offset + length + 2 ^ 21 < 2 ^ 41
      → let size = (length / 512 + 1) * 512 in
        (buffer : Bytes) × (read (sectors_of disk) behind offset length ≡ some buffer)
        × ((i : ℕ) → offset % 512 + i < size → buffer i ≡ disk (2 ^ 20 + offset + i))
        × ((i : ℕ) → size ≤ offset % 512 + i → buffer i ≡ behind (offset % 512 + i))
  unfolding buffer_byte
  read_lem offset length fits =
      let size : ℕ = u64 ((length / 512 + 1) * 512) in
      let from : ℕ = u64 (offset + 512 * partition_start) in
      let temp : Bytes = λ i. disk (512 * u32 (from / 512) + i) in
      let at : (i : ℕ)
          → offset % 512 + i < size
          → 512 * u32 (from / 512) + (from % 512 + i) ≡ 2 ^ 20 + offset + i =
        λ i h. omega arith in
      (
        (λ i. buffer_byte temp behind size (from % 512 + i)),
        read_runs (sectors_of disk) behind temp offset length refl,
        (λ i low.
            inside_lem disk behind temp size (from % 512 + i) (2 ^ 20 + offset + i) (omega arith)
              (ap disk (at i (omega arith)))),
        (λ i high. ground arith),
      )
