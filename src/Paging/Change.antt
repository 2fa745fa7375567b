-- ===== src/Paging/Change.antt =====
-- What a write of one entry does to the tree of page tables.
use tetra_os.Base.{
  ℕ, ◌+◌, ◌*◌, ◌≤◌, ◌<◌, ◌≡◌, refl, ◌≢◌, sym, ap, ◌∙◌, inl, inr, some, List, [], ◌∷◌, arith, length,
  ℕ_discrete, Option-cases,
}
use tetra_os.Memory.{
  Bytes, Apart, load8, load8-store64-Apart, load64-store8-Apart, store64-outside, store8-outside,
}
use tetra_os.Kernel.{Kernel, IsOther}
use tetra_os.Paging.{get_entry, set_entry}
use tetra_os.Paging.Entry.{is_entry_valid_ext, pointed_table_ext, get_entry-set_entry-Apart}
use tetra_os.Frames.Alloc.{after_alloc}
use tetra_os.Paging.Tree.{table_of, child, child_of, table_at, IsPath, IsLaid, IsTree}

-- The entries of the first `limit` frames are those of `k`, but for the one at `table` and `index`.
abbrev pub SameElsewhere : Kernel → ℕ → ℕ → ℕ → Bytes → Type 0
SameElsewhere k limit table index m =
    (j i : ℕ)
    → j < limit
    → i < 512
    → (table ≡ table_of k j → index ≢ i)
    → get_entry m (table_of k j) i ≡ get_entry k.mem (table_of k j) i

child_ext : (m n : Bytes) (t i : ℕ) → get_entry m t i ≡ get_entry n t i → child m t i ≡ child n t i
child_ext m n t i e = rw (is_entry_valid_ext m n t i e, pointed_table_ext m n t i e) refl

module _ (k : Kernel) (limit : ℕ) (v : IsTree k limit) (p : List ℕ) (t i : ℕ) (good : IsPath p)
    (here : table_at k.mem k.first_level_table p ≡ some t) (m : Bytes)
    (same : SameElsewhere k limit t i m) where
  -- One level further down, unless it is the entry that was written.
  pub child-same :
      (x : ℕ) (q : List ℕ)
      → IsPath (x ∷ q)
      → (q ≡ p → i ≢ x)
      → table_at m k.first_level_table q ≡ table_at k.mem k.first_level_table q
      → table_at m k.first_level_table (x ∷ q) ≡ table_at k.mem k.first_level_table (x ∷ q)
  child-same x q path other e =
      ap (child_of m x) e ∙ (elim (Option-cases (table_at k.mem k.first_level_table q)) [
        | inl gone ↦ rw gone refl
        | inr (u, at) ↦
            let (j, below, is, _) = v.owned q path.3 u at in
            let elsewhere : t ≡ table_of k j → i ≢ x =
              λ r. other (v.distinct q p path.3 good u at (here ∙ ap some (r ∙ sym is))) in
            rw at (rw is (child_ext m k.mem (table_of k j) x (same j x below path.0 elsewhere)))
      ])

  -- The tables at most as deep as the written one stay where they are.
  pub table_at-short :
      (q : List ℕ)
      → IsPath q
      → length q ≤ length p
      → table_at m k.first_level_table q ≡ table_at k.mem k.first_level_table q
  table_at-short [] path short = refl
  table_at-short (x ∷ q) path short =
      child-same x q path (λ e. absurd (omega (arith, ap length e)))
        (table_at-short q path.3 (omega arith))

entries-Apart :
    (k : Kernel) (j i l x : ℕ)
    → i < 512
    → x < 512
    → (table_of k j ≡ table_of k l → i ≢ x)
    → Apart (table_of k j + 8 * i) 8 (table_of k l + 8 * x) 8
entries-Apart k j i l x hi hx other = elim (ℕ_discrete j l) [
  | yes e ↦ let ne : i ≢ x = other (ap (table_of k) e) in rw e (spread i x ne)
  | no ne ↦ omega arith
]
  where
    spread : (i x : ℕ) → i ≢ x → Apart (table_of k l + 8 * i) 8 (table_of k l + 8 * x) 8
    spread i x ne = omega arith

-- A write of one entry of an owned table.
module _ (k : Kernel) (j i : ℕ) (inside : i < 512) (m : Bytes) (entry : ℕ) where
  pub set_entry-elsewhere :
      (l x : ℕ)
      → x < 512
      → (table_of k j ≡ table_of k l → i ≢ x)
      → get_entry (set_entry m (table_of k j) i entry) (table_of k l) x
        ≡ get_entry m (table_of k l) x
  set_entry-elsewhere l x hx other =
      get_entry-set_entry-Apart m (table_of k j) i entry (table_of k l) x
        (entries-Apart k j i l x inside hx other)

  pub set_entry-flag :
      (limit : ℕ)
      → IsLaid k limit
      → (l : ℕ) → l < limit
      → load8 (set_entry m (table_of k j) i entry) (k.managed_frames_address_start + l)
        ≡ load8 m (k.managed_frames_address_start + l)
  unfolding set_entry
  set_entry-flag limit laid l h =
      load8-store64-Apart m (table_of k j + 8 * i) entry (k.managed_frames_address_start + l)
        (inr (omega (arith, laid.apart)))

-- The flag of a frame is no entry.
pub after_alloc-entry :
    (k : Kernel) (limit j l x : ℕ)
    → IsLaid k limit
    → j < limit
    → get_entry (after_alloc k j).mem (table_of k l) x ≡ get_entry k.mem (table_of k l) x
unfolding get_entry
after_alloc-entry k limit j l x laid h =
    load64-store8-Apart k.mem (k.managed_frames_address_start + j) 1 (table_of k l + 8 * x)
      (inl (omega (arith, laid.apart)))

-- Nothing behind the low physical memory is written.
module _ (k : Kernel) (limit : ℕ) (laid : IsLaid k limit) where
  pub set_entry-outside :
      (j i : ℕ)
      → j < limit
      → i < 512
      → (m : Bytes) (entry b : ℕ) → IsOther b
      → set_entry m (table_of k j) i entry b ≡ m b
  unfolding set_entry
  set_entry-outside j i hj hi m entry b h =
      store64-outside m (table_of k j + 8 * i) entry b (omega (arith, h, laid.low))

  pub after_alloc-outside :
      (j : ℕ) → j < limit → (b : ℕ) → IsOther b → (after_alloc k j).mem b ≡ k.mem b
  after_alloc-outside j hj b h =
      store8-outside k.mem (k.managed_frames_address_start + j) 1 b
        (omega (arith, h, laid.apart, laid.low, laid.flags_high))
