-- ===== src/Ext2/Entries.antt =====
-- The entries of a directory's block: `EXT2LinkedListDirectory::matches` and the search of
-- `EXT2::get_inode_in_dir`, kernel/drivers/ext2.cpp.
use tetra_os.Base.{
  ℕ, zero, suc, ◌+◌, ◌<◌, ◌≡◌, refl, ◌↔◌, true, false, none, some, List, [], ◌∷◌, length, arith,
}
use tetra_os.Memory.{Bytes, u64, load8}
use tetra_os.Ext2.{load16, copy, equal_chars, matches, find_entry}

equal_chars_to :
    (contents : Bytes) (a : ℕ) (name : List ℕ)
    → equal_chars contents a name ≡ true
    → copy (load8 contents) a (length name) ≡ name
equal_chars_to contents a [] e = refl
equal_chars_to contents a (c ∷ cs) e =
    let both : (load8 contents a ≡ c) × (equal_chars contents (a + 1) cs ≡ true) = ground arith in
    let rest = equal_chars_to contents (a + 1) cs both.1 in rw (both.0, rest) refl

equal_chars_from :
    (contents : Bytes) (a : ℕ) (name : List ℕ)
    → copy (load8 contents) a (length name) ≡ name
    → equal_chars contents a name ≡ true
equal_chars_from contents a [] e = refl
equal_chars_from contents a (c ∷ cs) e =
    let head : load8 contents a ≡ c = cc in
    let tail : copy (load8 contents) (a + 1) (length cs) ≡ cs = cc in
    let rest = equal_chars_from contents (a + 1) cs tail in ground arith

-- An entry matches a name exactly if its length is the name's and its characters are the name.
matches_iff :
    (contents : Bytes) (entry : ℕ) (name : List ℕ)
    → (matches contents entry name ≡ true) ↔ (
        (load8 contents (entry + 6) ≡ length name)
        × (copy (load8 contents) (entry + 8) (length name) ≡ name))
unfolding matches
matches_iff contents entry name = (
  (λ e.
      let both : (load8 contents (entry + 6) ≡ length name)
          × (equal_chars contents (entry + 8) name ≡ true) =
        ground arith in
      (both.0, equal_chars_to contents (entry + 8) name both.1)),
  (λ (size, chars). let rest = equal_chars_from contents (entry + 8) name chars in ground arith),
)

-- Where the entry lies that is `k` records further.
abbrev pub entry_at : Bytes → ℕ → ℕ → ℕ
entry_at contents entry zero = entry
entry_at contents entry (suc k) = entry_at contents (u64 (entry + load16 contents (entry + 4))) k

module _ (contents : Bytes) (name : List ℕ) where
  -- The search finds the first entry that matches, if it is among the entries it looks at.
  find_entry-entry_at :
      (rounds k entry : ℕ)
      → k < rounds
      → matches contents (entry_at contents entry k) name ≡ true
      → ((j : ℕ) → j < k → matches contents (entry_at contents entry j) name ≡ false)
      → find_entry rounds contents entry name ≡ some (entry_at contents entry k)
  unfolding find_entry
  find_entry-entry_at zero k entry h hit before = absurd (omega arith)
  find_entry-entry_at (suc rounds) zero entry h hit before = rw hit refl
  find_entry-entry_at (suc rounds) (suc k) entry h hit before = rw (before 0 (omega arith)) (
      find_entry-entry_at rounds k (u64 (entry + load16 contents (entry + 4))) (omega arith) hit
        (λ j q. before (suc j) (omega arith)))

  -- Where none of the entries that it looks at matches, it finds none.
  find_entry-none :
      (rounds entry : ℕ)
      → ((j : ℕ) → j < rounds → matches contents (entry_at contents entry j) name ≡ false)
      → find_entry rounds contents entry name ≡ none
  unfolding find_entry
  find_entry-none zero entry all = refl
  find_entry-none (suc rounds) entry all = rw (all 0 (omega arith)) (
      find_entry-none rounds (u64 (entry + load16 contents (entry + 4)))
        (λ j q. all (suc j) (omega arith)))
