-- ===== src/Virtio/Queue.antt =====
-- The set-up of a virtio queue, step 7 of `init` in kernel/drivers/virtio/blk.cpp and console.cpp.
use tetra_os.Base.{
  ℕ, ◌+◌, ◌^◌, ◌≤◌, ◌<◌, ◌≡◌, refl, ◌≢◌, sym, ap, subst, ◌⊎◌, ◌∙◌, inl, inr, true, false, none,
  some, ◌==◌, ltb, arith, Bool-cases,
}
use tetra_os.Memory.{load8}
use tetra_os.Copy.{memset, memset_lem}
use tetra_os.Kernel.{Kernel, virtual_offset}
use tetra_os.Frames.Count.{free_count}
use tetra_os.Paging.{get_physical_address_of_virtual_address}
use tetra_os.Heap.{kalloc}
use tetra_os.Heap.Invariant.{IsHeap}
use tetra_os.Heap.Alloc.{HasRoom, kalloc_lem}
use tetra_os.Heap.Write.{write-IsHeap, write-free_count}
use tetra_os.Virtio.{
  queue_sel, queue_num_max, queue_num, queue_ready, queue_desc, queue_driver, queue_device, Device,
  virtio_queue_size, size_of_virt_queue, avail_offset, used_offset, announce, setup_queue,
}
use tetra_os.Virtio.Laws.{View, Areas, update, at_selected, IsDevice}

-- The areas of a queue at `queue`, by their physical addresses.
abbrev pub areas_of : Kernel → ℕ → Areas
areas_of k queue = record {
  num = virtio_queue_size;
  desc = get_physical_address_of_virtual_address k queue;
  driver = get_physical_address_of_virtual_address k (queue + avail_offset);
  device = get_physical_address_of_virtual_address k (queue + used_offset);
}

pub update_self {ℓ} : {A : Type ℓ} (f : ℕ → A) (i : ℕ) (x : A) → update f i x i ≡ x
update_self f i x = let e : (i == i) ≡ true = ground arith in rw e refl

pub update_ne {ℓ} : {A : Type ℓ} (f : ℕ → A) (i : ℕ) (x : A) (j : ℕ) → j ≢ i → update f i x j ≡ f j
update_ne f i x j h = let e : (j == i) ≡ false = ground arith in rw e refl

-- The view after the device was told of the queue.
pub record IsAnnounced (w w' : View) (index : ℕ) (areas : Areas) : Type 0 where
  pub same_state : w'.state ≡ w.state
  pub same_num_max : w'.num_max ≡ w.num_max
  pub same_accepts : w'.accepts ≡ w.accepts
  pub is_ready : w'.ready index ≡ 1
  pub has_areas : w'.areas index ≡ areas
  pub others_ready : (j : ℕ) → j ≢ index → w'.ready j ≡ w.ready j
  pub others_areas : (j : ℕ) → j ≢ index → w'.areas j ≡ w.areas j

-- The writes of the announcement, on the view.
abbrev with_num : ℕ → View → View
with_num x w = at_selected w (λ a. record a { num = x })

abbrev with_desc : ℕ → View → View
with_desc x w = at_selected w (λ a. record a { desc = x })

abbrev with_driver : ℕ → View → View
with_driver x w = at_selected w (λ a. record a { driver = x })

abbrev with_device : ℕ → View → View
with_device x w = at_selected w (λ a. record a { device = x })

abbrev with_ready : View → View
with_ready w = record w { ready = update w.ready w.selected 1 }

abbrev told : View → Areas → View
told w a =
    with_ready (with_device a.device (with_driver a.driver (with_desc a.desc (with_num a.num w))))

told-IsAnnounced :
    (w : View) (index : ℕ) (a : Areas)
    → IsAnnounced w (told (record w { selected = index }) a) index a
told-IsAnnounced w index a = record {
  same_state = refl;
  same_num_max = refl;
  same_accepts = refl;
  is_ready = update_self w.ready index 1;
  has_areas = (let e : (index == index) ≡ true = ground arith in rw e refl);
  others_ready = λ j ne. update_ne w.ready index 1 j ne;
  others_areas = λ j ne. (let e : (j == index) ≡ false = ground arith in rw e refl);
}

module _ {S : Type 0} (d : Device S) (view : S → View) (v : IsDevice d view) where
  announce-view :
      (k : Kernel) (queue : ℕ) (s : S)
      → view (announce d k queue s) ≡ told (view s) (areas_of k queue)
  unfolding announce
  announce-view k queue s =
      let a = areas_of k queue in
      let s1 = d.put s queue_num a.num in
      let s2 = d.put s1 queue_desc a.desc in
      let s3 = d.put s2 queue_driver a.driver in
      let s4 = d.put s3 queue_device a.device in
      let e2 = v.put_desc s1 a.desc ∙ ap (with_desc a.desc) (v.put_num s a.num) in
      let e3 = v.put_driver s2 a.driver ∙ ap (with_driver a.driver) e2 in
      let e4 = v.put_device s3 a.device ∙ ap (with_device a.device) e3 in
      v.put_ready s4 1 ∙ ap with_ready e4

  -- The outcome of a set-up that succeeds.
  pub record IsSetUp (k k' : Kernel) (s s' : S) (limit base index queue : ℕ) : Type 0 where
    pub heap : IsHeap k' limit base
    pub at_list : queue ≡ k.free_list + 16
    pub next_list : k'.free_list ≡ queue + size_of_virt_queue
    pub zeroed : (i : ℕ) → i < size_of_virt_queue → load8 k'.mem (queue + i) ≡ 0
    pub kept : (b : ℕ) → virtual_offset + 2 ^ 32 ≤ b → b < k.free_list → k'.mem b ≡ k.mem b
    pub frames_left : free_count k limit ≤ free_count k' limit + 8
    pub end_moved : k'.virtual_alloc_end ≤ k.virtual_alloc_end + 8192
    pub announced : IsAnnounced (view s) (view s') index (areas_of k' queue)

  module _ (fuel limit base : ℕ) (enough : limit ≤ fuel) (k : Kernel) (heap : IsHeap k limit base)
      (index : ℕ) (s : S) where
    abbrev selected : S
    selected = d.put s queue_sel index

    selected-view : view selected ≡ record (view s) { selected = index }
    selected-view = v.put_sel s index

    selected-ready : d.get selected queue_ready ≡ (view s).ready index
    selected-ready = v.get_ready selected ∙ ap (λ (w : View). w.ready w.selected) selected-view

    selected-num_max : d.get selected queue_num_max ≡ (view s).num_max index
    selected-num_max =
        v.get_num_max selected ∙ ap (λ (w : View). w.num_max w.selected) selected-view

    setup_queue_runs :
        (queue : ℕ) (k1 : Kernel)
        → (view s).ready index ≡ 0
        → 256 ≤ (view s).num_max index
        → kalloc fuel size_of_virt_queue k ≡ some (queue, k1)
        → let k2 = record k1 { mem = memset k1.mem queue 0 size_of_virt_queue } in
          setup_queue d fuel index k s ≡ some (some queue, k2, announce d k2 queue selected)
    unfolding setup_queue
    setup_queue_runs queue k1 unused large runs =
        let is_unused : (d.get selected queue_ready == 0) ≡ true = ground (arith, selected-ready) in
        let there : (d.get selected queue_num_max == 0) ≡ false =
          ground (arith, selected-num_max) in
        let enough_room : ltb (d.get selected queue_num_max) virtio_queue_size ≡ false =
          ground (arith, selected-num_max) in
        rw (is_unused, there, enough_room) (rw (runs, setup_queue) refl)

    -- A queue that is in use, or too small, is refused: nothing is allocated or announced.
    pub setup_queue_refused :
        ((view s).ready index ≢ 0) ⊎ ((view s).num_max index < 256)
        → setup_queue d fuel index k s ≡ some (none, k, selected)
    unfolding setup_queue
    setup_queue_refused (inl used) =
        let in_use : (d.get selected queue_ready == 0) ≡ false = ground (arith, selected-ready) in
        rw in_use refl
    setup_queue_refused (inr small) =
        let too_small : ltb (d.get selected queue_num_max) virtio_queue_size ≡ true =
          ground (arith, selected-num_max) in
        elim (Bool-cases (d.get selected queue_ready == 0)) [
          | inl unused ↦ elim (Bool-cases (d.get selected queue_num_max == 0)) [
            | inl gone ↦ rw (unused, gone) refl
            | inr there ↦ rw (unused, there, too_small) refl
          ]
          | inr used ↦ rw used refl
        ]

    announce-IsAnnounced :
        (k2 : Kernel) (queue : ℕ)
        → IsAnnounced (view s) (view (announce d k2 queue selected)) index (areas_of k2 queue)
    announce-IsAnnounced k2 queue =
        subst (λ (w : View). IsAnnounced (view s) w index (areas_of k2 queue))
          (sym (
            announce-view k2 queue selected
            ∙ ap (λ (w : View). told w (areas_of k2 queue)) selected-view))
          (told-IsAnnounced (view s) index (areas_of k2 queue))

    -- With an unused queue that is large enough, eight free frames and two pages of addresses, the
    -- set-up succeeds.
    pub setup_queue_lem :
        2 < fuel
        → (view s).ready index ≡ 0
        → 256 ≤ (view s).num_max index
        → 8 ≤ free_count k limit
        → k.virtual_alloc_end + 12288 ≤ 2 ^ 64
        → (queue : ℕ) × (k' : Kernel) × (s' : S) × (setup_queue d fuel index k s
            ≡ some (some queue, k', s'))
          × IsSetUp k k' s s' limit base index queue
    setup_queue_lem rounds unused large frames addresses =
        let room : HasRoom k limit 2 size_of_virt_queue = record {
          reach = omega arith;
          frames = omega arith;
          addresses = omega arith;
        } in
        let (k1, runs, done) =
          kalloc_lem fuel limit base enough k heap size_of_virt_queue 2 rounds room in
        let queue : ℕ = k.free_list + 16 in
        let (zeros, outside) = memset_lem k1.mem queue 0 size_of_virt_queue in
        let k2 = record k1 { mem = memset k1.mem queue 0 size_of_virt_queue } in
        (
          queue,
          k2,
          announce d k2 queue selected,
          setup_queue_runs queue k1 unused large runs,
          record {
            heap =
                write-IsHeap k1 limit base done.heap (memset k1.mem queue 0 size_of_virt_queue)
                  (λ b low. outside b (inr (omega (arith, heap.base_high, heap.behind))))
                  (λ b high. outside b (inl (omega (arith, done.next_list))));
            at_list = refl;
            next_list = done.next_list;
            zeroed = zeros;
            kept = λ b low high. outside b (inr (omega arith)) ∙ done.kept b low high;
            frames_left = omega (
              arith,
              done.frames_left,
              done.few,
              write-free_count k1 limit base done.heap (memset k1.mem queue 0 size_of_virt_queue)
                  (λ b low. outside b (inr (omega (arith, heap.base_high, heap.behind))))
                  (λ b high. outside b (inl (omega (arith, done.next_list)))),
            );
            end_moved = omega (arith, done.moved, done.few);
            announced = announce-IsAnnounced k2 queue;
          },
        )
