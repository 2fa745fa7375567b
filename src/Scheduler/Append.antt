-- ===== src/Scheduler/Append.antt =====
-- `Scheduler::add_new_process` of kernel/process/scheduler.cpp appends to the list.
use tetra_os.Base.{
  ℕ, ◌≤◌, ◌<◌, ◌≡◌, refl, ◌≢◌, ap, ◌∙◌, true, false, some, List, [], ◌∷◌, ◌++◌, length, ◌==◌, arith,
}
use tetra_os.Scheduler.{Process, ProcessListItem, Scheduler, set_item, last_item, add_new_process}
use tetra_os.Scheduler.Chain.{
  IsChain, IsNew, processes, last_of, set_item_self, set_item-IsChain, set_item-processes,
  last_item_lem, IsChain-ext, processes_ext, processes-append, set_item_process, set_item_next,
  linked, linked-IsChain,
}

module _ (s : Scheduler) (n : ℕ) (process : Process) (some_item : n ≢ 0) where
  abbrev written : ℕ → ProcessListItem
  written = set_item s.items n (record { next = 0; prev = 0; process = process })

  abbrev pub Appended : ℕ → List ℕ → Type 0
  Appended fuel addresses =
      (s' : Scheduler) × (add_new_process fuel n process s ≡ some s')
      × IsChain s'.items s'.first_process (addresses ++ n ∷ [])
      × (processes s'.items (addresses ++ n ∷ []) ≡ processes s.items addresses ++ process ∷ [])

  append_first : (fuel : ℕ) → s.first_process ≡ 0 → Appended fuel []
  unfolding add_new_process
  append_first fuel empty =
      let test : (s.first_process == 0) ≡ true = ground arith in
      let at_new = set_item_self s.items n (record { next = 0; prev = 0; process = process }) in
      (
        record s { items = written; first_process = n },
        rw (test, add_new_process) refl,
        (refl, some_item, rw at_new refl),
        rw at_new refl,
      )

  append_last :
      (fuel a : ℕ) (more : List ℕ)
      → length more < fuel
      → IsNew n (a ∷ more)
      → IsChain s.items s.first_process (a ∷ more)
      → Appended fuel (a ∷ more)
  unfolding add_new_process
  append_last fuel a more enough new chain =
      let fresh : ProcessListItem = record { next = 0; prev = 0; process = process } in
      let at_new = set_item_self s.items n fresh in
      let from_a : IsChain s.items a (a ∷ more) = (refl, chain.1, chain.2) in
      let kept = set_item-IsChain s.items n fresh a (a ∷ more) new from_a in
      let last = last_of a more in
      let links = linked written n some_item (rw at_new refl) last in
      let last_linked = record (written last) { next = n } in
      let back = record (links n) { prev = last } in
      let items = set_item links n back in
      let test : (s.first_process == 0) ≡ false = ground (arith, chain.0, chain.1) in
      let found : last_item fuel written s.first_process ≡ some last =
        ap (last_item fuel written) chain.0 ∙ last_item_lem written fuel a more enough kept in
      (
        record s { items = items },
        rw (test, add_new_process) (rw found refl),
        rw chain.0 (
            IsChain-ext links items a ((a ∷ more) ++ n ∷ []) (set_item_next links n back refl)
              (linked-IsChain written n some_item (rw at_new refl) a more new kept)),
        processes_ext links items ((a ∷ more) ++ n ∷ []) (set_item_process links n back refl)
            ∙ processes_ext written links ((a ∷ more) ++ n ∷ [])
                (set_item_process written last last_linked refl)
            ∙ processes-append written (a ∷ more) n
            ∙ rw at_new (
                ap (λ (ps : List Process). ps ++ process ∷ [])
                  (set_item-processes s.items n fresh (a ∷ more) new)),
      )

  -- On a list whose items do not include the new one, `add_new_process` ends and appends: the
  -- links run through the same items and then the new one, and so do the processes.
  pub add_new_process-append :
      (fuel : ℕ) (addresses : List ℕ)
      → length addresses ≤ fuel
      → IsNew n addresses
      → IsChain s.items s.first_process addresses
      → Appended fuel addresses
  add_new_process-append fuel [] enough new chain = append_first fuel chain
  add_new_process-append fuel (a ∷ more) enough new chain =
      append_last fuel a more (omega arith) new chain
