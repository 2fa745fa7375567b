-- ===== src/Ext2/Path.antt =====
-- The walk along a path, `EXT2::get_inode_from_dir` of kernel/drivers/ext2.cpp.
use tetra_os.Base.{
  ℕ, zero, suc, ◌+◌, ◌-◌, ◌*◌, ◌^◌, ◌≤◌, ◌<◌, ◌≡◌, refl, ◌≢◌, sym, ap, ◌∙◌, Bool, true, false, some,
  List, [], ◌∷◌, ◌==◌, if◌then◌else◌, arith, ℕ_discrete,
}
use tetra_os.Memory.{Bytes, u32}
use tetra_os.Ext2.{
  Ext2, Read, Look, copy, walk_path, get_inode_in_dir, get_inode_from_dir, get_root_inode,
  get_file_size, read_file, i_size, i_block,
}
use tetra_os.Ext2.Spells.{Spells, end_of, visit, end_of_ge, char_of, pos_of, measured}
use tetra_os.Ext2.Steps.{after_folder, step_char, step_end, step_root, step_slash}

module _ (look : Look) (path : ℕ → ℕ) (path_length : ℕ) (low : path_length < 2 ^ 63) where
  -- The loop has read `size` characters of the first of the components.
  abbrev Walks : ℕ → ℕ → ℕ → List ℕ → Bool → ℕ → Bytes → Type 0
  Walks fuel start n ns folder size dir =
      walk_path look path path_length fuel (start + size) size dir
      ≡ some (visit look path start (n ∷ ns) dir)

  walk_char :
      (fuel start n : ℕ) (ns : List ℕ) (folder : Bool) (size : ℕ) (dir : Bytes)
      → path (start + size) ≢ 0
      → path (start + size) ≢ 47
      → Walks fuel start n ns folder (size + 1) dir
      → Walks (suc fuel) start n ns folder size dir
  walk_char fuel start n ns folder size dir a b rest =
      let e : start + (size + 1) ≡ start + size + 1 = omega arith in
      step_char look path path_length fuel (start + size) size dir a b ∙ rw e at rest

  visit_one : (r : Bool × Bytes) → (if r.0 then (true, r.1) else (false, r.1)) ≡ r
  visit_one (true, dir) = refl
  visit_one (false, dir) = refl

  last_file :
      (fuel start n : ℕ) (dir : Bytes)
      → path (start + n) ≡ 0
      → start + n < 2 ^ 63
      → Walks (suc fuel) start n [] false n dir
  last_file fuel start n dir stop fits =
      let e : start + n - n ≡ start = omega arith in
      step_end look path path_length fuel (start + n) n dir stop (omega arith) fits
      ∙ ap (λ (at : ℕ). some (look dir (copy path at n))) e
      ∙ ap some (sym (visit_one (look dir (copy path start n))))

  after_last :
      (fuel current : ℕ) (r : Bool × Bytes)
      → path_length ≡ current + 1
      → after_folder look path path_length fuel current r
        ≡ some (if r.0 then (true, r.1) else (false, r.1))
  after_last fuel current (true, dir) ends =
      let hit : (path_length == current + 1) ≡ true = ground arith in rw hit refl
  after_last fuel current (false, dir) ends = refl

  last_folder :
      (fuel start n : ℕ) (dir : Bytes)
      → 0 < start
      → path (start + n) ≡ 47
      → path_length ≡ start + n + 1
      → Walks (suc fuel) start n [] true n dir
  last_folder fuel start n dir pos slash ends =
      let e : start + n - n ≡ start = omega arith in
      step_slash look path path_length fuel (start + n) n dir slash (omega arith) (omega arith)
        (omega arith)
      ∙ ap
          (λ (at : ℕ).
            after_folder look path path_length fuel (start + n) (look dir (copy path at n)))
          e
      ∙ after_last fuel (start + n) (look dir (copy path start n)) ends

  after_inner :
      (fuel current : ℕ) (r : Bool × Bytes) (rest : Bytes → Bool × Bytes)
      → path_length ≢ current + 1
      → (walk_path look path path_length fuel (current + 2) 1 r.1 ≡ some (rest r.1))
      → after_folder look path path_length fuel current r
        ≡ some (if r.0 then rest r.1 else (false, r.1))
  after_inner fuel current (true, dir) rest more deeper =
      let miss : (path_length == current + 1) ≡ false = ground arith in rw miss deeper
  after_inner fuel current (false, dir) rest more deeper = refl

  inner_folder :
      (fuel start n m : ℕ) (ns : List ℕ) (folder : Bool) (dir : Bytes)
      → 0 < start
      → path (start + n) ≡ 47
      → start + n + 1 < path_length
      → ((dir' : Bytes) → Walks fuel (start + n + 1) m ns folder 1 dir')
      → Walks (suc fuel) start n (m ∷ ns) folder n dir
  inner_folder fuel start n m ns folder dir pos slash more deeper =
      let e : start + n - n ≡ start = omega arith in
      let next : start + n + 1 + 1 ≡ start + n + 2 = omega arith in
      let found = look dir (copy path start n) in
      step_slash look path path_length fuel (start + n) n dir slash (omega arith) (omega arith)
        (omega arith)
      ∙ ap
          (λ (at : ℕ).
            after_folder look path path_length fuel (start + n) (look dir (copy path at n)))
          e
      ∙ after_inner fuel (start + n) found (visit look path (start + n + 1) (m ∷ ns)) (omega arith)
          (ap (λ (at : ℕ). walk_path look path path_length fuel at 1 found.1) (sym next)
            ∙ deeper found.1)

  -- With so much fuel, the loop goes through the components.
  abbrev Reaches : ℕ → Type 0
  Reaches fuel =
      (start n : ℕ) (ns : List ℕ) (folder : Bool) (size : ℕ) (dir : Bytes)
      → 0 < start
      → size ≤ n
      → Spells path start (n ∷ ns) folder
      → path_length ≡ end_of start (n ∷ ns) folder
      → path_length < fuel + start + size
      → Walks fuel start n ns folder size dir

  component_end :
      (fuel start n : ℕ) (ns : List ℕ) (folder : Bool) (dir : Bytes)
      → Reaches fuel
      → 0 < start
      → Spells path start (n ∷ ns) folder
      → path_length ≡ end_of start (n ∷ ns) folder
      → path_length < fuel + 1 + start + n
      → Walks (suc fuel) start n ns folder n dir
  component_end fuel start n [] false dir reaches pos spelled ends enough =
      last_file fuel start n dir spelled.2 (omega arith)
  component_end fuel start n [] true dir reaches pos spelled ends enough =
      last_folder fuel start n dir pos spelled.2.0 ends
  component_end fuel start n (m ∷ ns) folder dir reaches pos spelled ends enough =
      let more = end_of_ge path (start + n + 1) m ns folder in
      let one = pos_of path (start + n + 1) m ns folder spelled.3 in
      inner_folder fuel start n m ns folder dir pos spelled.2 (omega arith) (λ dir'.
        reaches (start + n + 1) m ns folder 1 dir' (omega arith) (omega arith) spelled.3 ends
          (omega arith))

  walk_lem : (fuel : ℕ) → Reaches fuel
  walk_lem zero start n ns folder size dir pos le spelled ends enough =
      absurd (omega (arith, end_of_ge path start n ns folder))
  walk_lem (suc fuel) start n ns folder size dir pos le spelled ends enough =
      elim (ℕ_discrete size n) [
        | no ne ↦
            let (a, b) = char_of path start n ns folder spelled size (omega arith) in
            walk_char fuel start n ns folder size dir a b (
              walk_lem fuel start n ns folder (size + 1) dir pos (omega arith) spelled ends
                (omega arith))
        | yes e ↦ rw e (
            component_end fuel start n ns folder dir (walk_lem fuel) pos spelled ends (omega arith))
      ]

-- From an absolute path that spells components, the walk ends on fuel for two rounds more than the
-- path is long, and what it does is to look up the components in order, each in the directory that
-- the one before led to, up to the first that is not found.
pub get_inode_from_dir-visit :
    (e : Ext2) (read : Read) (fuel : ℕ) (dir : Bytes) (path : ℕ → ℕ) (n : ℕ) (ns : List ℕ)
    (folder : Bool)
    → path 0 ≡ 47
    → Spells path 1 (n ∷ ns) folder
    → end_of 1 (n ∷ ns) folder + 2 ≤ fuel
    → end_of 1 (n ∷ ns) folder < 2 ^ 63
    → get_inode_from_dir e read fuel dir path
      ≡ some (visit (get_inode_in_dir e read) path 1 (n ∷ ns) dir)
unfolding get_inode_from_dir
get_inode_from_dir-visit e read zero dir path n ns folder root spelled enough fits =
    absurd (omega arith)
get_inode_from_dir-visit e read (suc fuel) dir path n ns folder root spelled enough fits =
    let look = get_inode_in_dir e read in
    let size : ℕ = end_of 1 (n ∷ ns) folder in
    rw (measured path (suc fuel) n ns folder root spelled (omega arith), get_inode_from_dir)
      (step_root look path size fuel 0 0 dir refl root
        ∙ walk_lem look path size fits fuel 1 n ns folder 0 dir (omega arith) (omega arith) spelled
            refl (omega arith))

-- `get_file_size` and `read_file` work on what the walk ends with: the file that the path names, or
-- the last directory that was found, if a component is missing.
pub read_file-visit :
    (e : Ext2) (read : Read) (fuel : ℕ) (path : ℕ → ℕ) (n : ℕ) (ns : List ℕ) (folder : Bool)
    (size : ℕ)
    → path 0 ≡ 47
    → Spells path 1 (n ∷ ns) folder
    → end_of 1 (n ∷ ns) folder + 2 ≤ fuel
    → end_of 1 (n ∷ ns) folder < 2 ^ 63
    → let inode = (visit (get_inode_in_dir e read) path 1 (n ∷ ns) (get_root_inode e read)).1 in
      (get_file_size e read fuel path ≡ some (i_size inode))
      × (read_file e read fuel path size ≡ some (read (u32 (e.block_size * i_block inode 0)) size))
unfolding get_file_size read_file
read_file-visit e read fuel path n ns folder size root spelled enough fits =
    let found =
      get_inode_from_dir-visit e read fuel (get_root_inode e read) path n ns folder root spelled
        enough fits in
    (rw (found, get_file_size) refl, rw (found, read_file) refl)
