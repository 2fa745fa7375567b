-- ===== src/Paging/Map/Level.antt =====
-- One level of `map_page`: the table that an index leads to, made if it was missing.
use tetra_os.Base.{
  ℕ, ◌+◌, ◌*◌, ◌≤◌, ◌<◌, ◌≡◌, refl, ap, inl, inr, true, false, Option, some, List, ◌∷◌, arith,
  length, Bool-cases,
}
use tetra_os.Kernel.{IsOther, Kernel, ◌>>=◌}
use tetra_os.Frames.{kalloc_frame}
use tetra_os.Frames.Alloc.{flag, kalloc_frame_lem, after_alloc}
use tetra_os.Frames.Count.{free_count, free_frame}
use tetra_os.Paging.{is_entry_valid, pointed_table, next_table}
use tetra_os.Paging.Tree.{table_of, child, table_at, leaf_at, IsPath, IsTree}
use tetra_os.Paging.Link.{linked, linked-child, linked-at, linked-outside}
use tetra_os.Paging.Grow.{linked-IsTree, linked-free_count, linked-leaf}

-- A larger tree with the same mappings, for at most `used` frames.
pub record IsExtended (k k' : Kernel) (limit used : ℕ) : Type 0 where
  pub tree : IsTree k' limit
  pub same_root : k'.first_level_table ≡ k.first_level_table
  pub same_frames : k'.first_frame_address ≡ k.first_frame_address
  pub same_end : k'.virtual_alloc_end ≡ k.virtual_alloc_end
  pub same_list : k'.free_list ≡ k.free_list
  pub leaves :
      (q : List ℕ) → IsPath q → length q ≡ 3 → (x : ℕ) → x < 512 → leaf_at k' q x ≡ leaf_at k q x
  pub frames_left : free_count k limit ≤ free_count k' limit + used
  pub outside : (b : ℕ) → IsOther b → k'.mem b ≡ k.mem b

-- The outcome at the entry `i` of the table that the path `p` leads to.
pub record Descent (fuel limit : ℕ) (k : Kernel) (p : List ℕ) (t i : ℕ) : Type 0 where
  pub table : ℕ
  pub state : Kernel
  pub runs : next_table fuel t i k ≡ some (table, state)
  pub extended : IsExtended k state limit 1
  pub leads : table_at state.mem state.first_level_table (i ∷ p) ≡ some table

child-pointed : (k : Kernel) (t i u : ℕ) → child k.mem t i ≡ some u → pointed_table k.mem t i ≡ u
child-pointed k t i u e = elim (Bool-cases (is_entry_valid k.mem t i)) [
  | inl valid ↦ some_eq (rw valid at e)
  | inr invalid ↦ cc (rw invalid at e)
]
  where
    some_eq :
        ◌≡◌ {A = Option ℕ} (some (pointed_table k.mem t i)) (some u) → pointed_table k.mem t i ≡ u
    some_eq e = cc

module _ (fuel limit : ℕ) (enough : limit ≤ fuel) (k : Kernel) (v : IsTree k limit) (p : List ℕ)
    (t i : ℕ) (path : IsPath (i ∷ p)) (here : table_at k.mem k.first_level_table p ≡ some t) where
  present : is_entry_valid k.mem t i ≡ true → Descent fuel limit k p t i
  unfolding next_table
  present valid = record {
    table = pointed_table k.mem t i;
    state = k;
    runs = rw valid refl;
    extended = record {
      tree = v;
      same_root = refl;
      same_frames = refl;
      same_end = refl;
      same_list = refl;
      leaves = λ q good full x h. refl;
      frames_left = omega arith;
      outside = λ b h. refl;
    };
    leads = rw (here, valid) refl;
  }

  missing :
      (invalid : is_entry_valid k.mem t i ≡ false) (j : ℕ) (below : j < limit) (free : flag k j ≡ 0)
      → kalloc_frame fuel k ≡ some (k.first_frame_address + 4096 * j, after_alloc k j)
      → Descent fuel limit k p t i
  unfolding next_table
  missing invalid j below free alloc =
      let k' = linked k j t i in
      let pointed : pointed_table k'.mem t i ≡ table_of k j =
        child-pointed k' t i (table_of k j)
          (linked-child k limit v p t i path here invalid j below free) in
      record {
        table = table_of k j;
        state = k';
        runs = rw (invalid, alloc, ◌>>=◌) (ap (λ (u : ℕ). some (u, k')) pointed);
        extended = record {
          tree = linked-IsTree k limit v p t i path here invalid j below free;
          same_root = refl;
          same_frames = refl;
          same_end = refl;
          same_list = refl;
          leaves = linked-leaf k limit v p t i path here invalid j below free;
          frames_left =
              omega (arith, linked-free_count k limit v p t i path here invalid j below free);
          outside = linked-outside k limit v p t i path here invalid j below free;
        };
        leads = linked-at k limit v p t i path here invalid j below free;
      }

  -- With a free frame, the level succeeds: the entry leads to a table of a larger tree.
  pub next_table_lem : 0 < free_count k limit → Descent fuel limit k p t i
  next_table_lem room = elim (Bool-cases (is_entry_valid k.mem t i)) [
    | inl valid ↦ present valid
    | inr invalid ↦
        let (n, low, free) = free_frame k limit room in
        let (j, le, first, alloc) =
          kalloc_frame_lem fuel n k (omega arith) (omega (arith, v.laid.low))
            (omega (arith, v.laid.low)) free in
        missing invalid j (omega arith) first.free alloc
  ]
