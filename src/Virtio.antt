-- ===== src/Virtio.antt =====
-- The start of the virtio devices, `init` of kernel/drivers/virtio/blk.cpp and console.cpp, on the
-- registers of kernel/drivers/virtio/virtio.h. The device is a parameter: a state that changes with
-- each write of a register. Reading a register changes nothing.
pub mod Laws
pub mod Negotiate
pub mod Queue
pub mod Block
pub mod Console
use tetra_os.Base.{
  ℕ, zero, suc, ◌+◌, ◌^◌, bit_and, bit_or, Bool, true, false, not, Option, none, some, List, [],
  ◌∷◌, ◌==◌, ltb, if◌then◌else◌,
}
use tetra_os.Memory.{Bytes}
use tetra_os.Copy.{memset}
use tetra_os.Kernel.{Kernel}
use tetra_os.Paging.{get_physical_address_of_virtual_address}
use tetra_os.Heap.{kalloc}

-- The registers that the drivers use, `writeback` being a field of the block device's configuration.
pub data Register : Type 0 where
  device_features : Register
  device_features_sel : Register
  driver_features : Register
  driver_features_sel : Register
  queue_sel : Register
  queue_num_max : Register
  queue_num : Register
  queue_ready : Register
  queue_notify : Register
  status : Register
  queue_desc : Register
  queue_driver : Register
  queue_device : Register
  writeback : Register

pub record Device (S : Type 0) : Type 0 where
  pub get : S → Register → ℕ
  pub put : S → Register → ℕ → S

abbrev pub virtio_queue_size : ℕ
virtio_queue_size = 256

-- `VirtQueue`: 256 descriptors of 16 bytes, the ring of available and that of used buffers.
abbrev pub size_of_virt_queue : ℕ
size_of_virt_queue = 6672

abbrev pub avail_offset : ℕ
avail_offset = 4096

abbrev pub used_offset : ℕ
used_offset = 4616

-- The result of a call is `none` for a loop without an end; within it, `none` is the result -1.
abbrev Outcome : Type 0 → Type 0 → Type 0
Outcome S A = Option (Option A × Kernel × S)

module _ {S : Type 0} (d : Device S) where
  -- `registers->status |= bits`.
  abbrev pub add_status : S → ℕ → S
  add_status s bits = d.put s status (bit_or (d.get s status) bits)

  -- Steps 1 to 6: reset, acknowledge, and agree on the features. `true` if the device accepts them.
  unfoldable pub negotiate : S → Bool × S
  negotiate s =
      let acknowledged = d.put (d.put s status 0) status 1 in
      let first = d.put (add_status acknowledged 2) device_features_sel 0 in
      let features = d.get first device_features in
      let second = d.put first device_features_sel 1 in
      let chosen = d.put (d.put second driver_features_sel 0) driver_features features in
      let offered = add_status chosen 8 in (not (bit_and (d.get offered status) 8 == 0), offered)

  -- Steps 7.5 to 7.7: the device is told where the queue lies.
  unfoldable pub announce : Kernel → ℕ → S → S
  announce k queue s =
      let s1 = d.put s queue_num virtio_queue_size in
      let s2 = d.put s1 queue_desc (get_physical_address_of_virtual_address k queue) in
      let s3 =
        d.put s2 queue_driver (get_physical_address_of_virtual_address k (queue + avail_offset)) in
      let s4 =
        d.put s3 queue_device (get_physical_address_of_virtual_address k (queue + used_offset)) in
      d.put s4 queue_ready 1

  -- Step 7 for the queue of the given index. `new VirtQueue()` takes zeroed memory.
  unfoldable pub setup_queue : ℕ → ℕ → Kernel → S → Outcome S ℕ
  unfolding announce
  setup_queue fuel index k s =
      let selected = d.put s queue_sel index in
      let made : Outcome S ℕ = elim (kalloc fuel size_of_virt_queue k) [
        | none ↦ none
        | some (queue, k') ↦
            let k'' = record k' { mem = memset k'.mem queue 0 size_of_virt_queue } in
            some (some queue, k'', announce k'' queue selected)
      ] in
      if d.get selected queue_ready == 0
      then if d.get selected queue_num_max == 0
        then some (none, k, selected)
        else if ltb (d.get selected queue_num_max) virtio_queue_size
        then some (none, k, selected)
        else made
      else some (none, k, selected)

  -- `VirtIOBlockDevice::init`, with the queue that the driver keeps as its result.
  unfoldable pub block_init : ℕ → Kernel → S → Outcome S ℕ
  unfolding negotiate setup_queue
  block_init fuel k s =
      let (accepted, offered) = negotiate s in
      let rest : Outcome S ℕ = elim (setup_queue fuel 0 k offered) [
        | none ↦ none
        | some (none, k', s') ↦ some (none, k', s')
        | some (some queue, k', s') ↦ some (some queue, k', add_status (d.put s' writeback 0) 4)
      ] in
      if accepted then rest else some (none, k, offered)

  -- The loop of `VirtIOConsoleDevice::init` over the queues, with those that are left.
  unfoldable pub setup_queues : ℕ → ℕ → ℕ → Kernel → S → Outcome S (List ℕ)
  unfolding setup_queue
  setup_queues fuel zero index k s = some (some [], k, s)
  setup_queues fuel (suc rounds) index k s = elim (setup_queue fuel index k s) [
    | none ↦ none
    | some (none, k', s') ↦ some (none, k', s')
    | some (some queue, k', s') ↦ elim (setup_queues fuel rounds (index + 1) k' s') [
      | none ↦ none
      | some (none, k'', s'') ↦ some (none, k'', s'')
      | some (some queues, k'', s'') ↦ some (some (queue ∷ queues), k'', s'')
    ]
  ]

  -- `VirtIOConsoleDevice::init`, with its four queues as its result.
  unfoldable pub console_init : ℕ → Kernel → S → Outcome S (List ℕ)
  unfolding negotiate setup_queues
  console_init fuel k s =
      let (accepted, offered) = negotiate s in
      let rest : Outcome S (List ℕ) = elim (setup_queues fuel 4 0 k offered) [
        | none ↦ none
        | some (none, k', s') ↦ some (none, k', s')
        | some (some queues, k', s') ↦ some (some queues, k', add_status s' 4)
      ] in
      if accepted then rest else some (none, k, offered)
