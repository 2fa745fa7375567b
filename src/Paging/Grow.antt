-- ===== src/Paging/Grow.antt =====
-- A new table keeps the tree and every mapping, and takes one free frame.
use tetra_os.Base.{
  ℕ, ◌+◌, ◌<◌, ◌≡◌, refl, ◌≢◌, sym, ap, ◌∙◌, inl, inr, ◌⊎◌, false, Option, none, some, List, ◌∷◌,
  arith, length,
}
use tetra_os.Memory.{Bytes}
use tetra_os.Kernel.{Kernel}
use tetra_os.Frames.Alloc.{flag, after_alloc, flag-after_alloc_self, flag-after_alloc_ne}
use tetra_os.Frames.Count.{free_count, free_count-after_alloc, free_count_ext}
use tetra_os.Paging.{get_entry, is_entry_valid}
use tetra_os.Paging.Entry.{is_entry_valid_ext}
use tetra_os.Paging.Tree.{table_of, table_at, leaf_of, leaf_at, IsPath, IsOwned, IsTree}
use tetra_os.Paging.Link.{
  List-discrete, linked, linked-flag, linked-same, linked-at, before-at, owned_ne, new-empty,
  table_at-linked,
}

same_table : {t u : ℕ} → ◌≡◌ {A = Option ℕ} (some t) (some u) → t ≡ u
same_table e = cc

pub leaf_ext :
    (m n : Bytes) (t x : ℕ)
    → get_entry m t x ≡ get_entry n t x
    → leaf_of m x (some t) ≡ leaf_of n x (some t)
leaf_ext m n t x e = rw (is_entry_valid_ext m n t x e, e) refl

module _ (k : Kernel) (limit : ℕ) (v : IsTree k limit) (p : List ℕ) (t i : ℕ)
    (path : IsPath (i ∷ p)) (here : table_at k.mem k.first_level_table p ≡ some t)
    (invalid : is_entry_valid k.mem t i ≡ false) (j : ℕ) (below : j < limit)
    (free : flag k j ≡ 0) where
  flag_new : flag (linked k j t i) j ≡ 1
  flag_new =
      linked-flag k limit v p t i path here invalid j below free j below ∙ flag-after_alloc_self k j

  flag_old : (l : ℕ) → l < limit → l ≢ j → flag (linked k j t i) l ≡ flag k l
  flag_old l h ne =
      linked-flag k limit v p t i path here invalid j below free l h ∙ flag-after_alloc_ne k j l ne

  -- Where a path of the larger tree leads: to the new table, or where it led.
  where_to :
      (q : List ℕ)
      → IsPath q
      → (u : ℕ) → table_at (linked k j t i).mem k.first_level_table q ≡ some u
      → ((q ≡ i ∷ p) × (u ≡ table_of k j)) ⊎ (table_at k.mem k.first_level_table q ≡ some u)
  where_to q good u at = elim (List-discrete q (i ∷ p)) [
    | yes e ↦ inl (
      e,
      same_table (
          sym at
          ∙ ap (table_at (linked k j t i).mem k.first_level_table) e
          ∙ linked-at k limit v p t i path here invalid j below free),
    )
    | no ne ↦
        inr (sym (table_at-linked k limit v p t i path here invalid j below free q good ne) ∙ at)
  ]

  linked-IsOwned :
      (q : List ℕ)
      → IsPath q
      → (u : ℕ) → table_at (linked k j t i).mem k.first_level_table q ≡ some u
      → IsOwned (linked k j t i) limit u
  linked-IsOwned q good u at = elim (where_to q good u at) [
    | inl (_, e) ↦ (j, below, e, (λ z. absurd (omega (arith, flag_new, z))))
    | inr old ↦
        let (l, h, is, taken) = v.owned q good u old in
        let ne : l ≢ j = λ e. taken (ap (flag k) e ∙ free) in
        (l, h, is, (λ z. taken (sym (flag_old l h ne) ∙ z)))
  ]

  linked-distinct :
      (q r : List ℕ)
      → IsPath q
      → IsPath r
      → (u : ℕ) → table_at (linked k j t i).mem k.first_level_table q ≡ some u
      → table_at (linked k j t i).mem k.first_level_table r ≡ some u
      → q ≡ r
  linked-distinct q r gq gr u atq atr = elim (where_to q gq u atq) [
    | inl (eq, uq) ↦ elim (where_to r gr u atr) [
      | inl (er, _) ↦ eq ∙ sym er
      | inr old ↦ absurd (old_ne r gr old uq)
    ]
    | inr oldq ↦ elim (where_to r gr u atr) [
      | inl (er, ur) ↦ absurd (old_ne q gq oldq ur)
      | inr oldr ↦ v.distinct q r gq gr u oldq oldr
    ]
  ]
    where
      old_ne :
          (q : List ℕ)
          → IsPath q
          → table_at k.mem k.first_level_table q ≡ some u
          → u ≡ table_of k j
          → ⊥
      old_ne q good old e =
          let (l, _, is, taken) = v.owned q good u old in
          owned_ne k limit v p t i path here invalid j below free l taken (sym is ∙ e)

  linked-clean :
      (l : ℕ)
      → l < limit
      → flag (linked k j t i) l ≡ 0
      → (x : ℕ) → x < 512
      → is_entry_valid (linked k j t i).mem (table_of k l) x ≡ false
  linked-clean l h z x hx =
      let ne : l ≢ j =
        λ e. absurd (omega (arith, flag_new, sym (ap (flag (linked k j t i)) e) ∙ z)) in
      let z' : flag k l ≡ 0 = sym (flag_old l h ne) ∙ z in
      let (o, _, is, taken) = v.owned p path.3 t here in
      let apart : t ≡ table_of k l → i ≢ x =
        λ e. absurd (taken (ap (flag k) (same_frame o l (sym is ∙ e)) ∙ z')) in
      is_entry_valid_ext (linked k j t i).mem k.mem (table_of k l) x
        (linked-same k limit v p t i path here invalid j below free l x h hx apart)
      ∙ v.clean l h z' x hx
    where
      same_frame : (a b : ℕ) → table_of k a ≡ table_of k b → a ≡ b
      same_frame a b e = omega arith

  pub linked-IsTree : IsTree (linked k j t i) limit
  linked-IsTree = record {
    laid = record {
      aligned = v.laid.aligned;
      low = v.laid.low;
      apart = v.laid.apart;
      flags_high = v.laid.flags_high;
    };
    owned = linked-IsOwned;
    distinct = linked-distinct;
    clean = linked-clean;
  }

  pub linked-free_count : free_count (linked k j t i) limit + 1 ≡ free_count k limit
  linked-free_count = omega (
    arith,
    free_count_ext (linked k j t i) (after_alloc k j) limit
        (linked-flag k limit v p t i path here invalid j below free),
    free_count-after_alloc k j limit below free,
  )

  -- No mapping appears or disappears.
  pub linked-leaf :
      (q : List ℕ)
      → IsPath q
      → length q ≡ 3
      → (x : ℕ) → x < 512
      → leaf_at (linked k j t i) q x ≡ leaf_at k q x
  linked-leaf q good full x hx = elim (List-discrete q (i ∷ p)) [
    | yes e ↦
        rw
          (
            e,
            linked-at k limit v p t i path here invalid j below free,
            before-at k limit v p t i path here invalid j below free,
            new-empty k limit v p t i path here invalid j below free x hx,
          )
          refl
    | no ne ↦
        ap (leaf_of (linked k j t i).mem x)
          (table_at-linked k limit v p t i path here invalid j below free q good ne)
        ∙ kept (table_at k.mem k.first_level_table q) refl
  ]
    where
      deeper : q ≡ p → ⊥
      deeper e = absurd (omega (arith, ap length e, path.1))

      kept :
          (o : Option ℕ)
          → table_at k.mem k.first_level_table q ≡ o
          → leaf_of (linked k j t i).mem x o ≡ leaf_of k.mem x o
      kept none at = refl
      kept (some u) at =
          let (l, h, is, _) = v.owned q good u at in
          let other : t ≡ table_of k l → i ≢ x =
            λ e. absurd (deeper (v.distinct q p good path.3 u at (here ∙ ap some (e ∙ sym is)))) in
          rw is (
            leaf_ext (linked k j t i).mem k.mem (table_of k l) x
              (linked-same k limit v p t i path here invalid j below free l x h hx other))
