-- ===== src/Ext2/Steps.antt =====
-- One turn of the loop of `EXT2::get_inode_from_dir`, kernel/drivers/ext2.cpp, on each branch.
use tetra_os.Base.{
  ℕ, suc, ◌+◌, ◌-◌, ◌^◌, ◌≤◌, ◌<◌, ◌≡◌, refl, ◌≢◌, Bool, true, false, Option, some, ◌==◌,
  if◌then◌else◌, arith,
}
use tetra_os.Memory.{Bytes, u64}
use tetra_os.Ext2.{Look, copy, walk_path}

module _ (look : Look) (path : ℕ → ℕ) (path_length fuel : ℕ) where
  abbrev walk : ℕ → ℕ → Bytes → Option (Bool × Bytes)
  walk = walk_path look path path_length fuel

  -- What a slash behind a component leads to, by the outcome of its lookup.
  abbrev pub after_folder : ℕ → Bool × Bytes → Option (Bool × Bytes)
  after_folder current (found, dir) =
      if found
      then if path_length == current + 1 then some (true, dir) else walk (current + 2) 1 dir
      else some (false, dir)

  module _ (current size : ℕ) (dir : Bytes) where
    abbrev step : Option (Bool × Bytes)
    step = walk_path look path path_length (suc fuel) current size dir

    pub step_char : path current ≢ 0 → path current ≢ 47 → step ≡ walk (current + 1) (size + 1) dir
    unfolding walk_path
    step_char a b =
        let zero_no : (path current == 0) ≡ false = ground arith in
        let slash_no : (path current == 47) ≡ false = ground arith in rw (zero_no, slash_no) refl

    pub step_end :
        path current ≡ 0
        → size ≤ current
        → current < 2 ^ 63
        → step ≡ some (look dir (copy path (current - size) size))
    unfolding walk_path
    step_end a inside low =
        let hit : (path current == 0) ≡ true = ground arith in
        let e : u64 (current + 2 ^ 64 - size) ≡ current - size = omega arith in rw (hit, e) refl

    pub step_root : current ≡ 0 → path current ≡ 47 → step ≡ walk (current + 1) size dir
    unfolding walk_path
    step_root root a =
        let zero_no : (path current == 0) ≡ false = ground arith in
        let slash : (path current == 47) ≡ true = ground arith in
        let at_root : (current == 0) ≡ true = ground arith in rw (zero_no, slash, at_root) refl

    pub step_slash :
        path current ≡ 47
        → 0 < current
        → size ≤ current
        → current < 2 ^ 63
        → step ≡ after_folder current (look dir (copy path (current - size) size))
    unfolding walk_path
    step_slash a below inside low =
        let zero_no : (path current == 0) ≡ false = ground arith in
        let slash : (path current == 47) ≡ true = ground arith in
        let behind_root : (current == 0) ≡ false = ground arith in
        let e : u64 (current + 1 + 2 ^ 64 - size - 1) ≡ current - size = omega arith in
        rw (zero_no, slash, behind_root, e) refl
