-- ===== src/Virtio/Console.antt =====
-- `VirtIOConsoleDevice::init` of kernel/drivers/virtio/console.cpp.
use tetra_os.Base.{
  ℕ, zero, suc, ◌+◌, ◌*◌, ◌^◌, ◌≤◌, ◌<◌, ◌≡◌, refl, ap, ◌∙◌, Bool, true, some, List, [], ◌∷◌,
  if◌then◌else◌, arith, ℕ_discrete,
}
use tetra_os.Base.{length}
use tetra_os.Kernel.{Kernel}
use tetra_os.Frames.Count.{free_count}
use tetra_os.Heap.Invariant.{IsHeap}
use tetra_os.Virtio.{
  Device, size_of_virt_queue, add_status, negotiate, setup_queue, setup_queues, console_init,
}
use tetra_os.Virtio.Laws.{View, Areas, IsDevice}
use tetra_os.Virtio.Negotiate.{negotiate_lem, driver_ok-view}
use tetra_os.Virtio.Queue.{IsAnnounced, areas_of, setup_queue_lem}

module _ {S : Type 0} (d : Device S) (view : S → View) (v : IsDevice d view) where
  -- Each queue from `index` on is ready, and its area of descriptors is not that of another.
  pub record IsServed (w w' : View) (index count : ℕ) : Type 0 where
    pub same_state : w'.state ≡ w.state
    pub same_accepts : w'.accepts ≡ w.accepts
    pub all_ready : (j : ℕ) → index ≤ j → j < index + count → w'.ready j ≡ 1
    pub others_ready : (j : ℕ) → j < index → w'.ready j ≡ w.ready j
    pub sized : (j : ℕ) → index ≤ j → j < index + count → (w'.areas j).num ≡ 256
    pub others_areas : (j : ℕ) → j < index → w'.areas j ≡ w.areas j

  -- Blocks of queues that follow one another.
  abbrev pub IsSpread : ℕ → List ℕ → Type 0
  IsSpread from [] = Unit {0}
  IsSpread from (q ∷ qs) = (from ≤ q) × IsSpread (q + size_of_virt_queue) qs

  IsSpread-weaken : (a b : ℕ) (queues : List ℕ) → a ≤ b → IsSpread b queues → IsSpread a queues
  IsSpread-weaken a b [] le spread = tt
  IsSpread-weaken a b (q ∷ qs) le spread = (omega (arith, spread.0), spread.1)

  queues_runs :
      (fuel count index queue : ℕ) (queues : List ℕ) (k k1 k' : Kernel) (s s1 s' : S)
      → setup_queue d fuel index k s ≡ some (some queue, k1, s1)
      → setup_queues d fuel count (index + 1) k1 s1 ≡ some (some queues, k', s')
      → setup_queues d fuel (suc count) index k s ≡ some (some (queue ∷ queues), k', s')
  unfolding setup_queues
  queues_runs fuel count index queue queues k k1 k' s s1 s' one more =
      rw (one, setup_queues) (rw more refl)

  console_runs :
      (fuel : ℕ) (queues : List ℕ) (k k' : Kernel) (s s' : S)
      → (negotiate d s).0 ≡ true
      → setup_queues d fuel 4 0 k (negotiate d s).1 ≡ some (some queues, k', s')
      → console_init d fuel k s ≡ some (some queues, k', add_status d s' 4)
  unfolding console_init
  console_runs fuel queues k k' s s' yes_ok runs = rw yes_ok (rw (runs, console_init) refl)

  IsServed-none : (w : View) (index : ℕ) → IsServed w w index 0
  IsServed-none w index = record {
    same_state = refl;
    same_accepts = refl;
    all_ready = λ j low high. absurd (omega arith);
    others_ready = λ j low. refl;
    sized = λ j low high. absurd (omega arith);
    others_areas = λ j low. refl;
  }

  IsServed-more :
      (w w1 w' : View) (index count : ℕ) (areas : Areas)
      → areas.num ≡ 256
      → IsAnnounced w w1 index areas
      → IsServed w1 w' (index + 1) count
      → IsServed w w' index (suc count)
  IsServed-more w w1 w' index count areas full a served = record {
    same_state = served.same_state ∙ a.same_state;
    same_accepts = served.same_accepts ∙ a.same_accepts;
    all_ready = λ j low high. elim (ℕ_discrete j index) [
      | yes e ↦ rw e (served.others_ready index (omega arith) ∙ a.is_ready)
      | no ne ↦ served.all_ready j (omega arith) (omega arith)
    ];
    others_ready = λ j low. served.others_ready j (omega arith) ∙ a.others_ready j (omega arith);
    sized = λ j low high. elim (ℕ_discrete j index) [
      | yes e ↦
          rw e (
            ap (λ (b : Areas). b.num) (served.others_areas index (omega arith) ∙ a.has_areas)
            ∙ full)
      | no ne ↦ served.sized j (omega arith) (omega arith)
    ];
    others_areas = λ j low. served.others_areas j (omega arith) ∙ a.others_areas j (omega arith);
  }

  module _ (fuel limit base : ℕ) (enough : limit ≤ fuel) (rounds : 2 < fuel) where
    setup_queues_lem :
        (count index : ℕ) (k : Kernel) (s : S)
        → IsHeap k limit base
        → ((j : ℕ) → index ≤ j → j < index + count → (view s).ready j ≡ 0)
        → ((j : ℕ) → index ≤ j → j < index + count → 256 ≤ (view s).num_max j)
        → 8 * count ≤ free_count k limit
        → k.virtual_alloc_end + 8192 * count + 4096 ≤ 2 ^ 64
        → (queues : List ℕ) × (k' : Kernel) × (s' : S) × (setup_queues d fuel count index k s
            ≡ some (some queues, k', s'))
          × IsHeap k' limit base
          × (length queues ≡ count)
          × IsSpread (k.free_list + 16) queues
          × IsServed (view s) (view s') index count
    unfolding setup_queues
    setup_queues_lem zero index k s heap unused large frames addresses =
        ([], k, s, refl, heap, refl, tt, IsServed-none (view s) index)
    setup_queues_lem (suc count) index k s heap unused large frames addresses =
        let (queue, k1, s1, runs, done) =
          setup_queue_lem d view v fuel limit base enough k heap index s rounds
            (unused index (omega arith) (omega arith)) (large index (omega arith) (omega arith))
            (omega arith) (omega arith) in
        let a = done.announced in
        let (queues, k', s', more, heap', number, spread, served) =
          setup_queues_lem count (index + 1) k1 s1 done.heap
            (λ j low high. a.others_ready j (omega arith) ∙ unused j (omega arith) (omega arith))
            (λ j low high.
              (let e = ap (λ (f : ℕ → ℕ). f j) a.same_num_max in
                let wide = large j (omega arith) (omega arith) in omega (arith, e)))
            (omega (arith, done.frames_left)) (omega (arith, done.end_moved)) in
        (
          queue ∷ queues,
          k',
          s',
          queues_runs fuel count index queue queues k k1 k' s s1 s' runs more,
          heap',
          omega (arith, number),
          (
            omega (arith, done.at_list),
            IsSpread-weaken (queue + size_of_virt_queue) (k1.free_list + 16) queues
                (omega (arith, done.next_list)) spread,
          ),
          IsServed-more (view s) (view s1) (view s') index count (areas_of k1 queue) refl a served,
        )

    -- With four unused queues of at least 256 entries, 32 free frames and addresses for eight pages,
    -- `init` of a device that accepts the features ends with success: the device is live, its four
    -- queues are ready, and they lie apart on the heap.
    pub console_init_lem :
        (k : Kernel) (s : S)
        → IsHeap k limit base
        → (view s).accepts ≡ true
        → ((j : ℕ) → j < 4 → 256 ≤ (view s).num_max j)
        → 32 ≤ free_count k limit
        → k.virtual_alloc_end + 36864 ≤ 2 ^ 64
        → (queues : List ℕ) × (k' : Kernel) × (s' : S) × (console_init d fuel k s
            ≡ some (some queues, k', s'))
          × IsHeap k' limit base
          × (length queues ≡ 4)
          × IsSpread (k.free_list + 16) queues
          × ((view s').state ≡ 15)
          × ((j : ℕ) → j < 4 → ((view s').ready j ≡ 1) × (((view s').areas j).num ≡ 256))
    console_init_lem k s heap yes_ok large frames addresses =
        let (accepted, offered-view) = negotiate_lem d view v s in
        let offered = (negotiate d s).1 in
        let (queues, k', s', runs, heap', number, spread, served) =
          setup_queues_lem 4 0 k offered heap
            (λ j low high. ap (λ (w : View). w.ready j) offered-view)
            (λ j low high.
              (let e = ap (λ (w : View). w.num_max j) offered-view in
                let wide = large j (omega arith) in omega (arith, e)))
            (omega arith) (omega arith) in
        let running : (view s').state ≡ 11 =
          served.same_state
          ∙ ap (λ (w : View). w.state) offered-view
          ∙ ap (λ (b : Bool). if b then 11 else 3) yes_ok in
        let still_ok = served.same_accepts ∙ ap (λ (w : View). w.accepts) offered-view ∙ yes_ok in
        let final = driver_ok-view d view v s' running still_ok in
        (
          queues,
          k',
          add_status d s' 4,
          console_runs fuel queues k k' s s' (accepted ∙ yes_ok) runs,
          heap',
          number,
          spread,
          ap (λ (w : View). w.state) final,
          (λ j below. (
            ap (λ (w : View). w.ready j) final ∙ served.all_ready j (omega arith) (omega arith),
            ap (λ (w : View). (w.areas j).num) final ∙ served.sized j (omega arith) (omega arith),
          )),
        )
