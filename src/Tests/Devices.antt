-- ===== src/Tests/Devices.antt =====
-- Devices, their requests and the loading of programs at concrete inputs.
use tetra_os.Base.{
  ℕ, ◌+◌, ◌-◌, ◌%◌, ◌^◌, bit_and, ◌≤◌, ◌<◌, ◌≡◌, refl, ◌≢◌, sym, ap, ◌∙◌, inl, inr, true, false,
  some, List, length, ◌==◌, if◌then◌else◌, arith, ℕ_discrete,
}
use tetra_os.Memory.{Bytes, load8, store8}
use tetra_os.Kernel.{Kernel}
use tetra_os.Frames.Count.{free_count, free_count-all}
use tetra_os.Paging.{paging_init}
use tetra_os.Paging.Entry.{is_entry_valid_zero}
use tetra_os.Paging.Tree.{table_of}
use tetra_os.Paging.Setup.{IsClean, IsPaged, paging_init_lem}
use tetra_os.Heap.{virtual_allocator_init}
use tetra_os.Heap.Invariant.{IsHeap}
use tetra_os.Heap.Init.{virtual_allocator_init-IsHeap}
use tetra_os.Virtio.{
  size_of_virt_queue, Register, device_features, device_features_sel, driver_features,
  driver_features_sel, queue_notify, writeback, queue_num_max, queue_ready, status, queue_sel,
  queue_num, queue_desc, queue_driver, queue_device, Device, block_init, console_init,
}
use tetra_os.Virtio.Laws.{no_areas, View, update, IsPlain, at_selected, IsDevice}
use tetra_os.Virtio.Block.{IsLive, Refused, block_init_lem, block_init-Refused}
use tetra_os.Virtio.Console.{IsSpread, console_init_lem}
use tetra_os.Request.{VirtQueue, publish, status_offset}
use tetra_os.Request.Chain.{request_at, parts, publish-request_at}
use tetra_os.Tests.States.{
  empty_state, heap_base, heap_base-IsBase, heaped, paged, empty_state-free_count,
}

-- A device that is its own view.
abbrev plain_get : View → Register → ℕ
plain_get v status = v.state
plain_get v queue_ready = v.ready v.selected
plain_get v queue_num_max = v.num_max v.selected
plain_get v other = 0x20

abbrev put_state : View → ℕ → View
put_state v x =
    if x == 0
    then record v { state = 0; ready = λ _. 0; areas = λ _. no_areas }
    else if bit_and x 8 == 0
    then record v { state = x }
    else record v { state = if v.accepts then x else x - 8 }

abbrev plain_put : View → Register → ℕ → View
plain_put v status x = put_state v x
plain_put v queue_sel x = record v { selected = x }
plain_put v queue_ready x = record v { ready = update v.ready v.selected x }
plain_put v queue_num x = at_selected v (λ a. record a { num = x })
plain_put v queue_desc x = at_selected v (λ a. record a { desc = x })
plain_put v queue_driver x = at_selected v (λ a. record a { driver = x })
plain_put v queue_device x = at_selected v (λ a. record a { device = x })
plain_put v other x = v

abbrev plain_device : Device View
plain_device = record { get = plain_get; put = plain_put }

put_plain_state :
    (v : View) (x : ℕ) → bit_and x 8 ≡ 0 → 0 < x → put_state v x ≡ record v { state = x }
put_plain_state v x e h =
    let e1 : (x == 0) ≡ false = ground arith in
    let e2 : (bit_and x 8 == 0) ≡ true = ground arith in rw (e1, e2) refl

put_offered_state :
    (v : View) (x : ℕ)
    → bit_and x 8 ≡ 8
    → put_state v x ≡ record v { state = if v.accepts then x else x - 8 }
put_offered_state v x e =
    let e2 : (bit_and x 8 == 0) ≡ false = ground arith in
    elim (ℕ_discrete x 0) [
      | yes z ↦ absurd (omega (arith, sym e ∙ ap (λ (y : ℕ). bit_and y 8) z))
      | no nz ↦ (let e1 : (x == 0) ≡ false = ground arith in rw (e1, e2) refl)
    ]

put_other : (v : View) (r : Register) (x : ℕ) → IsPlain r → plain_put v r x ≡ v
put_other v device_features_sel x h = refl
put_other v driver_features x h = refl
put_other v driver_features_sel x h = refl
put_other v queue_notify x h = refl
put_other v writeback x h = refl
put_other v device_features x h = elim h [ ]
put_other v queue_sel x h = elim h [ ]
put_other v queue_num_max x h = elim h [ ]
put_other v queue_num x h = elim h [ ]
put_other v queue_ready x h = elim h [ ]
put_other v status x h = elim h [ ]
put_other v queue_desc x h = elim h [ ]
put_other v queue_driver x h = elim h [ ]
put_other v queue_device x h = elim h [ ]

plain_device-IsDevice : IsDevice plain_device (λ v. v)
plain_device-IsDevice = record {
  get_status = λ s. refl;
  get_ready = λ s. refl;
  get_num_max = λ s. refl;
  put_reset = λ s. refl;
  put_status = put_plain_state;
  put_features_ok = put_offered_state;
  put_sel = λ s x. refl;
  put_ready = λ s x. refl;
  put_num = λ s x. refl;
  put_desc = λ s x. refl;
  put_driver = λ s x. refl;
  put_device = λ s x. refl;
  put_plain = put_other;
}

-- A device that takes any features, one that takes none, and one whose queues are too small.
abbrev willing : View
willing = record {
  state = 0;
  selected = 0;
  ready = λ _. 0;
  num_max = λ _. 1024;
  areas = λ _. no_areas;
  accepts = true;
}

abbrev small_queues : View
small_queues = record willing { num_max = λ _. 128 }

block_init_lem_example :
    (queue : ℕ) × (k' : Kernel) × (s' : View) × (block_init plain_device 32 heaped.0 willing
      ≡ some (some queue, k', s'))
    × IsHeap k' 32 heap_base
    × (queue ≡ heaped.0.free_list + 16)
    × (k'.free_list ≡ queue + size_of_virt_queue)
    × IsLive plain_device (λ v. v) plain_device-IsDevice k' s' queue
block_init_lem_example =
    block_init_lem plain_device (λ v. v) plain_device-IsDevice 32 32 heap_base (omega arith)
      heaped.0 heaped.2 willing (omega arith) refl (omega arith)
      (omega (arith, empty_state-free_count, paged.2.frames_left, heaped.5))
      (omega (arith, heaped.4))

block_init-Refused_example :
    (s' : View) × Refused plain_device
      (λ v. v)
      plain_device-IsDevice
      32
      32
      heap_base
      (omega arith)
      heaped.0
      heaped.2
      small_queues
      s'
block_init-Refused_example =
    block_init-Refused plain_device (λ v. v) plain_device-IsDevice 32 32 heap_base (omega arith)
      heaped.0 heaped.2 small_queues (inr (omega arith))

-- The heap behind 48 frames.
empty_state-IsClean_large : IsClean empty_state 48
empty_state-IsClean_large = record {
  laid = omega arith;
  clean = λ j h z i hi. is_entry_valid_zero (λ _. 0) (table_of empty_state j) i (λ x hx. refl);
}

empty_state-free_count_large : free_count empty_state 48 ≡ 48
empty_state-free_count_large = free_count-all empty_state 48 (λ j h. unfold load8 in refl)

large_paged :
    (k' : Kernel) × (paging_init 48 empty_state ≡ some (tt, k')) × IsPaged empty_state k' 48
large_paged =
    paging_init_lem 48 48 empty_state (omega arith) empty_state-IsClean_large
      (omega (arith, empty_state-free_count_large))

large_heaped :
    (k' : Kernel) × (virtual_allocator_init heap_base 48 large_paged.0 ≡ some (tt, k'))
    × IsHeap k' 48 heap_base
    × (k'.free_list ≡ heap_base)
    × (k'.virtual_alloc_end ≡ heap_base + 4096)
    × (free_count large_paged.0 48 ≤ free_count k' 48 + 4)
large_heaped =
    virtual_allocator_init-IsHeap 48 48 heap_base large_paged.0 (omega arith) heap_base-IsBase
      large_paged.2.tree (omega (arith, empty_state-free_count_large, large_paged.2.frames_left))

console_init_lem_example :
    (queues : List ℕ) × (k' : Kernel) × (s' : View) × (console_init plain_device 48 large_heaped.0
        willing
      ≡ some (some queues, k', s'))
    × IsHeap k' 48 heap_base
    × (length queues ≡ 4)
    × IsSpread plain_device (λ v. v) plain_device-IsDevice (large_heaped.0.free_list + 16) queues
    × (s'.state ≡ 15)
    × ((j : ℕ) → j < 4 → (s'.ready j ≡ 1) × ((s'.areas j).num ≡ 256))
console_init_lem_example =
    console_init_lem plain_device (λ v. v) plain_device-IsDevice 48 48 heap_base (omega arith)
      (omega arith) large_heaped.0 willing large_heaped.2 refl (λ j h. omega arith)
      (omega (arith, empty_state-free_count_large, large_paged.2.frames_left, large_heaped.5))
      (omega (arith, large_heaped.4))

-- An empty queue, and a device that answers at once, with success.
abbrev empty_queue : VirtQueue
empty_queue = record {
  desc = λ i. record { addr = 0; len = 0; flags = 0; next = 0 };
  avail_idx = 65535;
  avail_ring = λ i. 7;
}

abbrev status_at : ℕ
status_at = heaped.0.free_list + 16 + status_offset

abbrev prompt : VirtQueue → Bytes → Bytes
prompt q m = store8 m status_at 0

publish-request_at_example :
    let q' = publish paged.0 empty_queue heap_base (heap_base + 1024) 512 0 in
    (request_at q' 65535 ≡ some (parts paged.0 empty_queue heap_base (heap_base + 1024) 512 0))
    × (q'.avail_idx ≡ (65535 + 1) % 2 ^ 16)
    × ((i : ℕ) → i ≢ 65535 % 256 → q'.avail_ring i ≡ 7)
publish-request_at_example =
    publish-request_at paged.0 empty_queue heap_base (heap_base + 1024) 512 0 (inl refl)
