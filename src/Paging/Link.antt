-- ===== src/Paging/Link.antt =====
-- A new table, as `map_page` adds it: a free frame is allocated and an invalid entry is made to
-- point to it.
use tetra_os.Base.{
  ℕ, ◌+◌, ◌*◌, ◌<◌, ◌≡◌, refl, ◌≢◌, sym, ap, ◌∙◌, true, false, none, some, List, [], ◌∷◌, arith,
  ℕ_discrete,
}
use tetra_os.Memory.{Bytes}
use tetra_os.Kernel.{IsOther, Kernel}
use tetra_os.Address.{get_ppn}
use tetra_os.Frames.Alloc.{flag, after_alloc}
use tetra_os.Paging.{
  create_valid_page_table_entry, get_entry, set_entry, is_entry_valid, pointed_table,
}
use tetra_os.Paging.Entry.{
  create_valid_page_table_entry_lem, is_entry_valid_iff, is_entry_valid_ext,
  get_entry-set_entry_self, pointed_table_lem,
}
use tetra_os.Paging.Tree.{table_of, child, child_of, table_at, IsPath, IsLaid, IsTree}
use tetra_os.Paging.Change.{
  SameElsewhere, child-same, table_at-short, set_entry-elsewhere, set_entry-flag, set_entry-outside,
  after_alloc-entry, after_alloc-outside,
}

abbrev pub new_entry : Kernel → ℕ → ℕ
new_entry k j = create_valid_page_table_entry (get_ppn (k.first_frame_address + 4096 * j))

abbrev pub linked : Kernel → ℕ → ℕ → ℕ → Kernel
linked k j table index = record k {
  mem = set_entry (after_alloc k j).mem table index (new_entry k j);
}

pub List-discrete : Discrete (List ℕ)
List-discrete = hlevel ℕ_discrete

-- The entry leads to the frame.
pub child-new :
    (k : Kernel) (limit j : ℕ)
    → IsLaid k limit
    → j < limit
    → (m : Bytes) (t i : ℕ) → get_entry m t i ≡ new_entry k j
    → child m t i ≡ some (table_of k j)
child-new k limit j laid h m t i e =
    let frame = k.first_frame_address + 4096 * j in
    let value = create_valid_page_table_entry_lem frame (omega (arith, laid.low)) in
    let valid : is_entry_valid m t i ≡ true =
      (is_entry_valid_iff m t i).1 (omega (arith, e, value)) in
    let points : pointed_table m t i ≡ table_of k j =
      pointed_table_lem m t i frame (omega (arith, e, value)) (omega (arith, laid.low))
        (omega (arith, laid.aligned)) in
    rw (valid, points) refl

module _ (k : Kernel) (limit : ℕ) (v : IsTree k limit) (p : List ℕ) (t i : ℕ)
    (path : IsPath (i ∷ p)) (here : table_at k.mem k.first_level_table p ≡ some t)
    (invalid : is_entry_valid k.mem t i ≡ false) (j : ℕ) (below : j < limit)
    (free : flag k j ≡ 0) where
  abbrev pub after : Kernel
  after = linked k j t i

  pub linked-flag : (l : ℕ) → l < limit → flag after l ≡ flag (after_alloc k j) l
  linked-flag l h =
      let (o, _, is, _) = v.owned p path.3 t here in
      rw is (set_entry-flag k o i path.0 (after_alloc k j).mem (new_entry k j) limit v.laid l h)

  pub linked-same : SameElsewhere k limit t i after.mem
  linked-same l x hl hx other =
      let (o, _, is, _) = v.owned p path.3 t here in
      rw is (
        set_entry-elsewhere k o i path.0 (after_alloc k j).mem (new_entry k j) l x hx
          (λ e. other (is ∙ e))
        ∙ after_alloc-entry k limit j l x v.laid below)

  -- Nothing behind the low physical memory is written.
  pub linked-outside : (b : ℕ) → IsOther b → after.mem b ≡ k.mem b
  linked-outside b h =
      let (o, low, is, _) = v.owned p path.3 t here in
      rw is (
        set_entry-outside k limit v.laid o i low path.0 (after_alloc k j).mem (new_entry k j) b h
        ∙ after_alloc-outside k limit v.laid j below b h)

  linked-entry : get_entry after.mem t i ≡ new_entry k j
  linked-entry = get_entry-set_entry_self (after_alloc k j).mem t i (new_entry k j) (
      omega (
        arith,
        create_valid_page_table_entry_lem (k.first_frame_address + 4096 * j)
            (omega (arith, v.laid.low)),
        v.laid.low,
      ))

  pub linked-child : child after.mem t i ≡ some (table_of k j)
  linked-child = child-new k limit j v.laid below after.mem t i linked-entry

  pub linked-at : table_at after.mem k.first_level_table (i ∷ p) ≡ some (table_of k j)
  linked-at =
      rw
        (
          table_at-short k limit v p t i path.3 here after.mem linked-same p path.3 (omega arith),
          here,
        )
        linked-child

  pub before-at : table_at k.mem k.first_level_table (i ∷ p) ≡ none
  before-at = rw (here, invalid) refl

  -- No table in use is the new one.
  pub owned_ne : (l : ℕ) → flag k l ≢ 0 → table_of k l ≢ table_of k j
  owned_ne l taken e =
      let same_frame : l ≡ j = omega (arith, e) in taken (ap (flag k) same_frame ∙ free)

  table_ne : t ≢ table_of k j
  table_ne e = let (o, _, is, taken) = v.owned p path.3 t here in owned_ne o taken (sym is ∙ e)

  -- The new table is empty.
  pub new-empty : (x : ℕ) → x < 512 → is_entry_valid after.mem (table_of k j) x ≡ false
  new-empty x h =
      is_entry_valid_ext after.mem k.mem (table_of k j) x
        (linked-same j x below h (λ e. absurd (table_ne e)))
      ∙ v.clean j below free x h

  linked-below : (x : ℕ) → x < 512 → table_at after.mem k.first_level_table (x ∷ i ∷ p) ≡ none
  linked-below x h = rw (linked-at, new-empty x h) refl

  -- Every other path leads where it led.
  pub table_at-linked :
      (q : List ℕ)
      → IsPath q
      → q ≢ i ∷ p
      → table_at after.mem k.first_level_table q ≡ table_at k.mem k.first_level_table q
  table_at-linked [] good ne = refl
  table_at-linked (x ∷ q) good ne = elim (List-discrete q (i ∷ p)) [
    | yes e ↦ rw e (linked-below x good.0 ∙ sym (ap (child_of k.mem x) before-at))
    | no other ↦
        child-same k limit v p t i path.3 here after.mem linked-same x q good
          (λ e r. ne (ap (λ l. x ∷ l) e ∙ ap (λ y. y ∷ p) (sym r))) (table_at-linked q good.3 other)
  ]
