-- ===== src/Virtio/Block.antt =====
-- `VirtIOBlockDevice::init` of kernel/drivers/virtio/blk.cpp.
use tetra_os.Base.{
  ℕ, ◌+◌, ◌^◌, bit_and, ◌≤◌, ◌<◌, ◌≡◌, refl, ap, ◌∙◌, ◌⊎◌, inl, inr, Bool, true, false, none, some,
  if◌then◌else◌, arith, Bool-cases,
}
use tetra_os.Memory.{load8}
use tetra_os.Kernel.{Kernel}
use tetra_os.Frames.Count.{free_count}
use tetra_os.Heap.Invariant.{IsHeap}
use tetra_os.Virtio.{
  queue_sel, writeback, Device, size_of_virt_queue, add_status, negotiate, setup_queue, block_init,
}
use tetra_os.Virtio.Laws.{View, IsDevice}
use tetra_os.Virtio.Negotiate.{negotiate_lem, agreed, driver_ok-view}
use tetra_os.Virtio.Queue.{areas_of, setup_queue_lem, setup_queue_refused}

module _ {S : Type 0} (d : Device S) (view : S → View) (v : IsDevice d view) where
  -- A device that runs: its status has ACKNOWLEDGE, DRIVER, FEATURES_OK and DRIVER_OK, and its first
  -- queue lies where the driver keeps it.
  pub record IsLive (k : Kernel) (s : S) (queue : ℕ) : Type 0 where
    pub driver_ok : (view s).state ≡ 15
    pub is_ready : (view s).ready 0 ≡ 1
    pub areas : (view s).areas 0 ≡ areas_of k queue
    pub zeroed : (i : ℕ) → i < size_of_virt_queue → load8 k.mem (queue + i) ≡ 0

  module _ (fuel limit base : ℕ) (enough : limit ≤ fuel) (k : Kernel) (heap : IsHeap k limit base)
      (s : S) where
    abbrev offered : S
    offered = (negotiate d s).1

    accepted : (view s).accepts ≡ true → (negotiate d s).0 ≡ true
    accepted yes_ok = (negotiate_lem d view v s).0 ∙ yes_ok

    finished : S → S
    finished s' = add_status d (d.put s' writeback 0) 4

    finished-view :
        (s' : S)
        → (view s').state ≡ 11
        → (view s').accepts ≡ true
        → view (finished s') ≡ record (view s') { state = 15 }
    unfolding finished
    finished-view s' running yes_ok =
        let plain = v.put_plain s' writeback 0 tt in
        driver_ok-view d view v (d.put s' writeback 0) (ap (λ (w : View). w.state) plain ∙ running)
          (ap (λ (w : View). w.accepts) plain ∙ yes_ok)
        ∙ ap (λ (w : View). record w { state = 15 }) plain

    block_init_runs :
        (queue : ℕ) (k' : Kernel) (s' : S)
        → (view s).accepts ≡ true
        → setup_queue d fuel 0 k offered ≡ some (some queue, k', s')
        → block_init d fuel k s ≡ some (some queue, k', finished s')
    unfolding block_init finished
    block_init_runs queue k' s' yes_ok runs = rw (accepted yes_ok) (rw (runs, block_init) refl)

    offered-view : view offered ≡ agreed d view v (view s)
    offered-view = (negotiate_lem d view v s).1

    -- On a heap with eight free frames and addresses for three pages, `init` of a device that accepts
    -- the features and has a queue of at least 256 entries ends with success: the queue is the block
    -- that the heap gives at its free list, behind a block header, and the free list moves behind
    -- it; the queue is zeroed, and the device is live and knows the physical addresses of its parts.
    pub block_init_lem :
        2 < fuel
        → (view s).accepts ≡ true
        → 256 ≤ (view s).num_max 0
        → 8 ≤ free_count k limit
        → k.virtual_alloc_end + 12288 ≤ 2 ^ 64
        → (queue : ℕ) × (k' : Kernel) × (s' : S) × (block_init d fuel k s
            ≡ some (some queue, k', s'))
          × IsHeap k' limit base
          × (queue ≡ k.free_list + 16)
          × (k'.free_list ≡ queue + size_of_virt_queue)
          × IsLive k' s' queue
    block_init_lem rounds yes_ok large frames addresses =
        let ready_0 = ap (λ (w : View). w.ready 0) offered-view in
        let max_0 = ap (λ (w : View). w.num_max 0) offered-view in
        let (queue, k', s', runs, done) =
          setup_queue_lem d view v fuel limit base enough k heap 0 offered rounds ready_0
            (omega (arith, max_0)) frames addresses in
        let running : (view s').state ≡ 11 =
          done.announced.same_state
          ∙ ap (λ (w : View). w.state) offered-view
          ∙ ap (λ (b : Bool). if b then 11 else 3) yes_ok in
        let still_ok =
          done.announced.same_accepts ∙ ap (λ (w : View). w.accepts) offered-view ∙ yes_ok in
        let final = finished-view s' running still_ok in
        (
          queue,
          k',
          finished s',
          block_init_runs queue k' s' yes_ok runs,
          done.heap,
          done.at_list,
          done.next_list,
          record {
            driver_ok = ap (λ (w : View). w.state) final;
            is_ready = ap (λ (w : View). w.ready 0) final ∙ done.announced.is_ready;
            areas = ap (λ (w : View). w.areas 0) final ∙ done.announced.has_areas;
            zeroed = done.zeroed;
          },
        )

    -- `init` failed: the kernel's state is unchanged, DRIVER_OK is not set, and no queue is ready.
    abbrev pub Refused : S → Type 0
    Refused s' =
        (block_init d fuel k s ≡ some (none, k, s'))
        × ((bit_and (view s').state 4 ≡ 0) × ((i : ℕ) → (view s').ready i ≡ 0))

    no_driver_ok : (b : Bool) → bit_and (if b then 11 else 3) 4 ≡ 0
    no_driver_ok true = refl
    no_driver_ok false = refl

    not_live :
        (s' : S) (i : ℕ)
        → view s' ≡ record (agreed d view v (view s)) { selected = i }
        → (bit_and (view s').state 4 ≡ 0) × ((j : ℕ) → (view s').ready j ≡ 0)
    not_live s' i e = (
      ap (λ (w : View). bit_and w.state 4) e ∙ no_driver_ok (view s).accepts,
      (λ j. ap (λ (w : View). w.ready j) e),
    )

    refused_features : (negotiate d s).0 ≡ false → block_init d fuel k s ≡ some (none, k, offered)
    unfolding block_init
    refused_features no_ok = rw no_ok refl

    refused_queue :
        (view s).accepts ≡ true
        → (view s).num_max 0 < 256
        → block_init d fuel k s ≡ some (none, k, d.put offered queue_sel 0)
    unfolding block_init
    refused_queue yes_ok small =
        let max_0 = ap (λ (w : View). w.num_max 0) offered-view in
        let runs =
          setup_queue_refused d view v fuel limit base enough k heap 0 offered
            (inr (omega (arith, max_0))) in
        rw (accepted yes_ok) (rw (runs, block_init) refl)

    by_features-Refused : (view s).accepts ≡ false → Refused offered
    by_features-Refused no_ok = (
      refused_features ((negotiate_lem d view v s).0 ∙ no_ok),
      not_live offered (view s).selected offered-view,
    )

    -- A device that refuses the features, or whose queue is too small, makes `init` fail. The
    -- kernel's state is unchanged, no queue is ready, and DRIVER_OK is not set.
    pub block_init-Refused :
        ((view s).accepts ≡ false) ⊎ ((view s).num_max 0 < 256) → (s' : S) × Refused s'
    block_init-Refused (inl no_ok) = (offered, by_features-Refused no_ok)
    block_init-Refused (inr small) = elim (Bool-cases (view s).accepts) [
      | inl yes_ok ↦ (
        d.put offered queue_sel 0,
        (
          refused_queue yes_ok small,
          not_live (d.put offered queue_sel 0) 0
              (v.put_sel offered 0 ∙ ap (λ (w : View). record w { selected = 0 }) offered-view),
        ),
      )
      | inr no_ok ↦ (offered, by_features-Refused no_ok)
    ]
