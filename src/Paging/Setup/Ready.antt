-- ===== src/Paging/Setup/Ready.antt =====
-- The state after `paging_init`, from the frames `a` and `b` that it allocates.
use tetra_os.Base.{
  ℕ, ◌+◌, ◌*◌, ◌≤◌, ◌<◌, ◌≡◌, refl, ◌≢◌, ◌⊎◌, sym, ap, ◌∙◌, inl, inr, false, Option, none, some,
  List, [], ◌∷◌, arith, length, ℕ_discrete, Option-cases,
}
use tetra_os.Memory.{Bytes}
use tetra_os.Kernel.{Kernel}
use tetra_os.Address.{get_ppn}
use tetra_os.Frames.Alloc.{flag, after_alloc, flag-after_alloc_self, flag-after_alloc_ne}
use tetra_os.Frames.Count.{free_count, free_count-after_alloc, free_count_ext}
use tetra_os.Paging.{get_entry, is_entry_valid}
use tetra_os.Paging.Entry.{is_entry_valid_ext}
use tetra_os.Paging.Tree.{
  table_of, child, child_of, table_at, leaf_of, leaf_at, is_direct, IsPath, IsLaid, IsOwned, IsTree,
}
use tetra_os.Paging.Change.{after_alloc-entry}
use tetra_os.Paging.Link.{child-new, new_entry}
use tetra_os.Paging.Setup.Rounds.{
  giga_leaf, four, four-first, four-second, four-elsewhere, four-flag,
}

-- A state before paging: the free frames hold no valid entry.
pub record IsClean (k : Kernel) (limit : ℕ) : Type 0 where
  pub laid : IsLaid k limit
  pub clean :
      (j : ℕ)
      → j < limit
      → flag k j ≡ 0
      → (i : ℕ) → i < 512
      → is_entry_valid k.mem (table_of k j) i ≡ false

abbrev pub allocated : Kernel → ℕ → ℕ → Kernel
allocated k a b = after_alloc (after_alloc k a) b

no_child : (m : Bytes) (u x t : ℕ) → is_entry_valid m u x ≡ false → child m u x ≡ some t → ⊥
no_child m u x t e at = cc (rw e at at)

same_child : {o : Option ℕ} {t u : ℕ} → o ≡ some t → o ≡ some u → t ≡ u
same_child p q = cc

not_direct : (x : ℕ) → is_direct x (256 ∷ []) ≡ false → 4 ≤ x
not_direct x h = ground arith

module _ (k : Kernel) (limit : ℕ) (v : IsClean k limit) (a b : ℕ) (first_below : a < limit)
    (below : b < limit) (ne : a ≢ b) (first_free : flag k a ≡ 0) (free : flag k b ≡ 0) where
  abbrev pub ready : Kernel
  ready = record (allocated k a b) {
    first_level_table = table_of k a;
    active_table = get_ppn (k.first_frame_address + 4096 * a);
    mem = four k limit v.laid a b first_below below ne (allocated k a b).mem;
  }

  -- An entry that the initialisation does not write.
  untouched :
      (l x : ℕ)
      → l < limit
      → x < 512
      → (a ≡ l → 256 ≢ x)
      → (b ≡ l → 4 ≤ x)
      → get_entry ready.mem (table_of k l) x ≡ get_entry k.mem (table_of k l) x
  untouched l x hl hx one two =
      four-elsewhere k limit v.laid a b first_below below ne (allocated k a b).mem l x hx
        (λ e. one (omega (arith, e))) (λ e. two (omega (arith, e)))
      ∙ after_alloc-entry (after_alloc k a) limit b l x second_laid below
      ∙ after_alloc-entry k limit a l x v.laid first_below
    where
      second_laid : IsLaid (after_alloc k a) limit
      second_laid = record {
        aligned = v.laid.aligned;
        low = v.laid.low;
        apart = v.laid.apart;
        flags_high = v.laid.flags_high;
      }

  empty :
      (l x : ℕ)
      → l < limit
      → x < 512
      → flag k l ≡ 0
      → (a ≡ l → 256 ≢ x)
      → (b ≡ l → 4 ≤ x)
      → is_entry_valid ready.mem (table_of k l) x ≡ false
  empty l x hl hx z one two =
      is_entry_valid_ext ready.mem k.mem (table_of k l) x (untouched l x hl hx one two)
      ∙ v.clean l hl z x hx

  to_second : child ready.mem (table_of k a) 256 ≡ some (table_of k b)
  to_second =
      child-new k limit b v.laid below ready.mem (table_of k a) 256
        (four-first k limit v.laid a b first_below below ne (allocated k a b).mem)

  ready-flag : (l : ℕ) → l < limit → flag ready l ≡ flag (allocated k a b) l
  ready-flag l h = four-flag k limit v.laid a b first_below below ne (allocated k a b).mem l h

  flag_taken : (l : ℕ) → l < limit → (a ≡ l) ⊎ (b ≡ l) → flag ready l ≡ 1
  flag_taken l h (inl e) =
      ready-flag l h
      ∙ flag-after_alloc_ne (after_alloc k a) b l (λ z. ne (e ∙ z))
      ∙ ap (flag (after_alloc k a)) (sym e)
      ∙ flag-after_alloc_self k a
  flag_taken l h (inr e) =
      ready-flag l h
      ∙ ap (flag (allocated k a b)) (sym e)
      ∙ flag-after_alloc_self (after_alloc k a) b

  flag_kept : (l : ℕ) → l < limit → a ≢ l → b ≢ l → flag ready l ≡ flag k l
  flag_kept l h na nb =
      ready-flag l h
      ∙ flag-after_alloc_ne (after_alloc k a) b l (λ z. nb (sym z))
      ∙ flag-after_alloc_ne k a l (λ z. na (sym z))

  below_first :
      (x t : ℕ)
      → x < 512
      → child ready.mem (table_of k a) x ≡ some t
      → (x ≡ 256) × (t ≡ table_of k b)
  below_first x t h at = elim (ℕ_discrete x 256) [
    | yes e ↦ (e, same_child (ap (child ready.mem (table_of k a)) (sym e) ∙ at) to_second)
    | no other ↦ absurd (
        no_child ready.mem (table_of k a) x t
          (empty a x first_below h first_free (λ _ z. other (sym z)) (λ z. absurd (ne (sym z)))) at)
  ]

  below_second : (x t : ℕ) → x < 512 → 4 ≤ x → child ready.mem (table_of k b) x ≡ some t → ⊥
  below_second x t h far at =
      no_child ready.mem (table_of k b) x t (empty b x below h free (λ z. absurd (ne z)) (λ _. far))
        at

  -- Only the first table and, at index 256, the second are reached.
  reached :
      (p : List ℕ)
      → IsPath p
      → (t : ℕ) → table_at ready.mem ready.first_level_table p ≡ some t
      → ((p ≡ []) × (t ≡ table_of k a)) ⊎ ((p ≡ 256 ∷ []) × (t ≡ table_of k b))
  reached [] path t at = inl (refl, cc)
  reached (x ∷ q) path t at =
      down (Option-cases (table_at ready.mem ready.first_level_table q)) (reached q path.3)
    where
      at_child :
          (u w : ℕ)
          → table_at ready.mem ready.first_level_table q ≡ some u
          → u ≡ w
          → child ready.mem w x ≡ some t
      at_child u w is e =
          ap (λ (y : ℕ). child ready.mem y x) (sym e) ∙ sym (ap (child_of ready.mem x) is) ∙ at

      down :
          (table_at ready.mem ready.first_level_table q ≡ none)
            ⊎ ((u : ℕ) × (table_at ready.mem ready.first_level_table q ≡ some u))
          → ((u : ℕ)
              → table_at ready.mem ready.first_level_table q ≡ some u
              → ((q ≡ []) × (u ≡ table_of k a)) ⊎ ((q ≡ 256 ∷ []) × (u ≡ table_of k b)))
          → ((x ∷ q ≡ []) × (t ≡ table_of k a)) ⊎ ((x ∷ q ≡ 256 ∷ []) × (t ≡ table_of k b))
      down (inl gone) above = absurd (cc (sym (ap (child_of ready.mem x) gone) ∙ at))
      down (inr (u, is)) above = elim (above u is) [
        | inl (e, eu) ↦
            let (ex, et) = below_first x t path.0 (at_child u (table_of k a) is eu) in
            inr (rw (ex, e) refl, et)
        | inr (e, eu) ↦ absurd (
            below_second x t path.0 (not_direct x (ap (is_direct x) (sym e) ∙ path.2))
              (at_child u (table_of k b) is eu))
      ]

  tables_apart : table_of k a ≢ table_of k b
  tables_apart e = ne (omega (arith, e))

  owned :
      (p : List ℕ)
      → IsPath p
      → (t : ℕ) → table_at ready.mem ready.first_level_table p ≡ some t
      → IsOwned ready limit t
  owned p path t at = elim (reached p path t at) [
    | inl (_, e) ↦
        (a, first_below, e, (λ z. absurd (omega (arith, flag_taken a first_below (inl refl), z))))
    | inr (_, e) ↦ (b, below, e, (λ z. absurd (omega (arith, flag_taken b below (inr refl), z))))
  ]

  distinct :
      (p q : List ℕ)
      → IsPath p
      → IsPath q
      → (t : ℕ) → table_at ready.mem ready.first_level_table p ≡ some t
      → table_at ready.mem ready.first_level_table q ≡ some t
      → p ≡ q
  distinct p q gp gq t atp atq = elim (reached p gp t atp) [
    | inl (e, u) ↦ elim (reached q gq t atq) [
      | inl (e', _) ↦ e ∙ sym e'
      | inr (_, w) ↦ absurd (tables_apart (sym u ∙ w))
    ]
    | inr (e, u) ↦ elim (reached q gq t atq) [
      | inl (_, w) ↦ absurd (tables_apart (sym w ∙ u))
      | inr (e', _) ↦ e ∙ sym e'
    ]
  ]

  clean :
      (l : ℕ)
      → l < limit
      → flag ready l ≡ 0
      → (x : ℕ) → x < 512
      → is_entry_valid ready.mem (table_of k l) x ≡ false
  clean l h z x hx =
      let na : a ≢ l = λ e. absurd (omega (arith, flag_taken l h (inl e), z)) in
      let nb : b ≢ l = λ e. absurd (omega (arith, flag_taken l h (inr e), z)) in
      empty l x h hx (sym (flag_kept l h na nb) ∙ z) (λ e. absurd (na e)) (λ e. absurd (nb e))

  pub ready-IsTree : IsTree ready limit
  ready-IsTree = record {
    laid = record {
      aligned = v.laid.aligned;
      low = v.laid.low;
      apart = v.laid.apart;
      flags_high = v.laid.flags_high;
    };
    owned = owned;
    distinct = distinct;
    clean = clean;
  }

  pub ready-leaf : (q : List ℕ) → IsPath q → length q ≡ 3 → (x : ℕ) → leaf_at ready q x ≡ none
  ready-leaf q path full x = fate (Option-cases (table_at ready.mem ready.first_level_table q))
    where
      fate :
          (table_at ready.mem ready.first_level_table q ≡ none)
            ⊎ ((u : ℕ) × (table_at ready.mem ready.first_level_table q ≡ some u))
          → leaf_at ready q x ≡ none
      fate (inl gone) = ap (leaf_of ready.mem x) gone
      fate (inr (u, is)) = elim (reached q path u is) [
        | inl (e, _) ↦ absurd (omega (arith, ap length e, full))
        | inr (e, _) ↦ absurd (omega (arith, ap length e, full))
      ]

  pub ready-free_count : free_count ready limit + 2 ≡ free_count k limit
  ready-free_count =
      let nb : flag (after_alloc k a) b ≡ 0 = flag-after_alloc_ne k a b (λ e. ne (sym e)) ∙ free in
      omega (
        arith,
        free_count_ext ready (allocated k a b) limit ready-flag,
        free_count-after_alloc (after_alloc k a) b limit below nb,
        free_count-after_alloc k a limit first_below first_free,
      )

  pub ready-first : get_entry ready.mem (table_of k a) 256 ≡ new_entry k b
  ready-first = four-first k limit v.laid a b first_below below ne (allocated k a b).mem

  pub ready-second : (r : ℕ) → r < 4 → get_entry ready.mem (table_of k b) r ≡ giga_leaf r
  ready-second = four-second k limit v.laid a b first_below below ne (allocated k a b).mem
