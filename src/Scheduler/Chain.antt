-- ===== src/Scheduler/Chain.antt =====
-- The linked items of kernel/process/scheduler.cpp as a list.
use tetra_os.Base.{
  ℕ, zero, suc, ◌<◌, ◌≡◌, refl, ◌≢◌, sym, ap, ◌∙◌, true, false, some, List, [], ◌∷◌, ◌++◌, length,
  ◌==◌, arith, ℕ_discrete,
}
use tetra_os.Scheduler.{Process, ProcessListItem, set_item, last_item}

-- From `item`, the items that are linked have the given addresses.
abbrev pub IsChain : (ℕ → ProcessListItem) → ℕ → List ℕ → Type 0
IsChain items item [] = item ≡ 0
IsChain items item (a ∷ more) = (item ≡ a) × (a ≢ 0) × IsChain items (items a).next more

abbrev pub IsNew : ℕ → List ℕ → Type 0
IsNew a [] = Unit {0}
IsNew a (b ∷ bs) = (b ≢ a) × IsNew a bs

abbrev pub processes : (ℕ → ProcessListItem) → List ℕ → List Process
processes items [] = []
processes items (a ∷ more) = (items a).process ∷ processes items more

pub set_item_self :
    (items : ℕ → ProcessListItem) (a : ℕ) (item : ProcessListItem) → set_item items a item a ≡ item
unfolding set_item
set_item_self items a item = let e : (a == a) ≡ true = ground arith in rw e refl

set_item_ne :
    (items : ℕ → ProcessListItem) (a : ℕ) (item : ProcessListItem) (b : ℕ)
    → b ≢ a
    → set_item items a item b ≡ items b
unfolding set_item
set_item_ne items a item b h = let e : (b == a) ≡ false = ground arith in rw e refl

-- A chain outside of an item stays when that item is written.
module _ (items : ℕ → ProcessListItem) (a : ℕ) (item : ProcessListItem) where
  pub set_item-IsChain :
      (from : ℕ) (more : List ℕ)
      → IsNew a more
      → IsChain items from more
      → IsChain (set_item items a item) from more
  set_item-IsChain from [] new chain = chain
  set_item-IsChain from (b ∷ bs) new chain = (
    chain.0,
    chain.1,
    rw (set_item_ne items a item b new.0) (set_item-IsChain (items b).next bs new.1 chain.2),
  )

  pub set_item-processes :
      (more : List ℕ) → IsNew a more → processes (set_item items a item) more ≡ processes items more
  set_item-processes [] new = refl
  set_item-processes (b ∷ bs) new =
      rw (set_item_ne items a item b new.0, set_item-processes bs new.1) refl

-- The last of a chain that is not empty.
abbrev pub last_of : ℕ → List ℕ → ℕ
last_of a [] = a
last_of a (b ∷ bs) = last_of b bs

pub last_item_lem :
    (items : ℕ → ProcessListItem) (fuel a : ℕ) (more : List ℕ)
    → length more < fuel
    → IsChain items a (a ∷ more)
    → last_item fuel items a ≡ some (last_of a more)
unfolding last_item
last_item_lem items zero a more h chain = absurd (omega arith)
last_item_lem items (suc fuel) a [] h chain =
    let e : ((items a).next == 0) ≡ true = ground arith in rw e refl
last_item_lem items (suc fuel) a (b ∷ bs) h chain =
    let e : ((items a).next == 0) ≡ false = ground arith in
    rw e (rw chain.2.0 (last_item_lem items fuel b bs (omega arith) (refl, chain.2.1, chain.2.2)))

last_of-next :
    (items : ℕ → ProcessListItem) (a : ℕ) (more : List ℕ)
    → IsChain items a (a ∷ more)
    → (items (last_of a more)).next ≡ 0
last_of-next items a [] chain = chain.2
last_of-next items a (b ∷ bs) chain = last_of-next items b bs (refl, chain.2.1, chain.2.2)

-- Chains look at the links alone, and processes at the processes.
pub IsChain-ext :
    (items items' : ℕ → ProcessListItem) (from : ℕ) (more : List ℕ)
    → ((x : ℕ) → (items' x).next ≡ (items x).next)
    → IsChain items from more
    → IsChain items' from more
IsChain-ext items items' from [] same chain = chain
IsChain-ext items items' from (a ∷ more) same chain =
    (chain.0, chain.1, rw (same a) (IsChain-ext items items' (items a).next more same chain.2))

pub processes_ext :
    (items items' : ℕ → ProcessListItem) (more : List ℕ)
    → ((x : ℕ) → (items' x).process ≡ (items x).process)
    → processes items' more ≡ processes items more
processes_ext items items' [] same = refl
processes_ext items items' (a ∷ more) same = rw (same a, processes_ext items items' more same) refl

pub processes-append :
    (items : ℕ → ProcessListItem) (more : List ℕ) (n : ℕ)
    → processes items (more ++ n ∷ []) ≡ processes items more ++ (items n).process ∷ []
processes-append items [] n = refl
processes-append items (a ∷ more) n = rw (processes-append items more n) refl

-- Two items after one of them got other links.
pub set_item_process :
    (items : ℕ → ProcessListItem) (a : ℕ) (item : ProcessListItem)
    → item.process ≡ (items a).process
    → (x : ℕ) → (set_item items a item x).process ≡ (items x).process
set_item_process items a item e x = elim (ℕ_discrete x a) [
  | yes same ↦ rw same (rw (set_item_self items a item) e)
  | no ne ↦ rw (set_item_ne items a item x ne) refl
]

pub set_item_next :
    (items : ℕ → ProcessListItem) (a : ℕ) (item : ProcessListItem)
    → item.next ≡ (items a).next
    → (x : ℕ) → (set_item items a item x).next ≡ (items x).next
set_item_next items a item e x = elim (ℕ_discrete x a) [
  | yes same ↦ rw same (rw (set_item_self items a item) e)
  | no ne ↦ rw (set_item_ne items a item x ne) refl
]

module _ (items : ℕ → ProcessListItem) (n : ℕ) (some_item : n ≢ 0) (ends : (items n).next ≡ 0) where
  abbrev pub linked : ℕ → ℕ → ProcessListItem
  linked last = set_item items last (record (items last) { next = n })

  pub linked-IsChain :
      (a : ℕ) (more : List ℕ)
      → IsNew n (a ∷ more)
      → IsChain items a (a ∷ more)
      → IsChain (linked (last_of a more)) a ((a ∷ more) ++ n ∷ [])
  linked-IsChain a [] new chain = (
    refl,
    chain.1,
    rw (set_item_self items a (record (items a) { next = n })) (
      refl,
      some_item,
      rw (set_item_ne items a (record (items a) { next = n }) n (λ e. new.0 (sym e))) ends,
    ),
  )
  linked-IsChain a (b ∷ bs) new chain =
      let last = last_of b bs in
      let rest : IsChain items b (b ∷ bs) = (refl, chain.2.1, chain.2.2) in
      let inner : a ≢ last = λ e.
        chain.2.1
          (sym chain.2.0 ∙ ap (λ (x : ℕ). (items x).next) e ∙ last_of-next items b bs rest) in
      (
        refl,
        chain.1,
        rw (set_item_ne items last (record (items last) { next = n }) a inner)
            (rw chain.2.0 (linked-IsChain b bs new.1 rest)),
      )
