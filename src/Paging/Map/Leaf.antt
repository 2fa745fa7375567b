-- ===== src/Paging/Map/Leaf.antt =====
-- The last write of `map_page`: a leaf of the page tables.
use tetra_os.Base.{
  ℕ, ◌%◌, ◌^◌, ◌≤◌, ◌<◌, ◌≡◌, refl, ◌≢◌, sym, ap, ◌∙◌, true, Option, none, some, List, [], ◌∷◌,
  arith, length,
}
use tetra_os.Kernel.{IsOther, Kernel}
use tetra_os.Frames.Alloc.{flag}
use tetra_os.Frames.Count.{free_count, free_count_ext}
use tetra_os.Paging.{get_entry, set_entry, is_entry_valid}
use tetra_os.Paging.Entry.{is_entry_valid_iff, is_entry_valid_ext, get_entry-set_entry_self}
use tetra_os.Paging.Tree.{table_of, table_at, leaf_of, leaf_at, IsPath, IsTree}
use tetra_os.Paging.Change.{
  SameElsewhere, table_at-short, set_entry-elsewhere, set_entry-flag, set_entry-outside,
}
use tetra_os.Paging.Grow.{leaf_ext}

abbrev pub with_leaf : Kernel → ℕ → ℕ → ℕ → Kernel
with_leaf k table index entry = record k { mem = set_entry k.mem table index entry }

short-IsPath : (q : List ℕ) → IsPath q → length q ≤ 3
short-IsPath [] good = omega arith
short-IsPath (x ∷ q) good = omega (arith, good.1)

module _ (k : Kernel) (limit : ℕ) (v : IsTree k limit) (p : List ℕ) (t i entry : ℕ)
    (path : IsPath p) (full : length p ≡ 3) (inside : i < 512)
    (here : table_at k.mem k.first_level_table p ≡ some t) where
  same : SameElsewhere k limit t i (set_entry k.mem t i entry)
  same l x hl hx other =
      let (o, _, is, _) = v.owned p path t here in
      rw is (set_entry-elsewhere k o i inside k.mem entry l x hx (λ e. other (is ∙ e)))

  leaf-flag : (l : ℕ) → l < limit → flag (with_leaf k t i entry) l ≡ flag k l
  leaf-flag l h =
      let (o, _, is, _) = v.owned p path t here in
      rw is (set_entry-flag k o i inside k.mem entry limit v.laid l h)

  -- Nothing behind the low physical memory is written.
  pub leaf-outside : (b : ℕ) → IsOther b → (with_leaf k t i entry).mem b ≡ k.mem b
  leaf-outside b h =
      let (o, low, is, _) = v.owned p path t here in
      rw is (set_entry-outside k limit v.laid o i low inside k.mem entry b h)

  pub leaf-table_at :
      (q : List ℕ)
      → IsPath q
      → table_at (with_leaf k t i entry).mem k.first_level_table q
        ≡ table_at k.mem k.first_level_table q
  leaf-table_at q good =
      table_at-short k limit v p t i path here (set_entry k.mem t i entry) same q good
        (omega (arith, short-IsPath q good))

  pub leaf-free_count : free_count (with_leaf k t i entry) limit ≡ free_count k limit
  leaf-free_count = free_count_ext (with_leaf k t i entry) k limit leaf-flag

  -- The tree of tables stays as it is.
  pub leaf-IsTree : IsTree (with_leaf k t i entry) limit
  leaf-IsTree = record {
    laid = record {
      aligned = v.laid.aligned;
      low = v.laid.low;
      apart = v.laid.apart;
      flags_high = v.laid.flags_high;
    };
    owned = λ q good u at.
        let (l, h, is, taken) = v.owned q good u (sym (leaf-table_at q good) ∙ at) in
        (l, h, is, (λ z. taken (sym (leaf-flag l h) ∙ z)));
    distinct = λ q r gq gr u atq atr.
        v.distinct q r gq gr u (sym (leaf-table_at q gq) ∙ atq) (sym (leaf-table_at r gr) ∙ atr);
    clean = λ l h z x hx.
        let z' : flag k l ≡ 0 = sym (leaf-flag l h) ∙ z in
        is_entry_valid_ext (set_entry k.mem t i entry) k.mem (table_of k l) x
          (same l x h hx (λ e. absurd (unowned l z' e)))
        ∙ v.clean l h z' x hx;
  }
    where
      unowned : (l : ℕ) → flag k l ≡ 0 → t ≡ table_of k l → ⊥
      unowned l z e =
          let (o, _, is, taken) = v.owned p path t here in
          let frame : o ≡ l = omega (arith, sym is ∙ e) in taken (ap (flag k) frame ∙ z)

  -- The new leaf is found.
  pub leaf_at_self :
      entry < 2 ^ 64 → entry % 2 ≡ 1 → leaf_at (with_leaf k t i entry) p i ≡ some entry
  leaf_at_self h odd =
      let got : get_entry (set_entry k.mem t i entry) t i ≡ entry =
        get_entry-set_entry_self k.mem t i entry h in
      let valid : is_entry_valid (set_entry k.mem t i entry) t i ≡ true =
        (is_entry_valid_iff (set_entry k.mem t i entry) t i).1 (omega (arith, got)) in
      rw (leaf-table_at p path, here, valid) (ap some got)

  -- Every other leaf stays.
  pub leaf_at-other :
      (q : List ℕ)
      → IsPath q
      → (x : ℕ) → x < 512
      → (q ≡ p → i ≢ x)
      → leaf_at (with_leaf k t i entry) q x ≡ leaf_at k q x
  leaf_at-other q good x hx other =
      ap (leaf_of (set_entry k.mem t i entry) x) (leaf-table_at q good)
      ∙ kept (table_at k.mem k.first_level_table q) refl
    where
      kept :
          (o : Option ℕ)
          → table_at k.mem k.first_level_table q ≡ o
          → leaf_of (set_entry k.mem t i entry) x o ≡ leaf_of k.mem x o
      kept none at = refl
      kept (some u) at =
          let (l, h, is, _) = v.owned q good u at in
          rw is (
            leaf_ext (set_entry k.mem t i entry) k.mem (table_of k l) x (
              same l x h hx
                (λ e. other (v.distinct q p good path u at (here ∙ ap some (e ∙ sym is))))))
