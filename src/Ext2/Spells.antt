-- ===== src/Ext2/Spells.antt =====
-- Paths that spell components, and their length as the code of kernel/drivers/ext2.cpp measures it.
use tetra_os.Base.{
  ℕ, zero, suc, ◌+◌, ◌-◌, ◌≤◌, ◌<◌, ◌≡◌, ◌≢◌, sym, ap, ◌∙◌, Bool, true, false, some, List, [], ◌∷◌,
  ◌==◌, if◌then◌else◌, arith, ℕ_discrete, dec_lt,
}
use tetra_os.Memory.{Bytes}
use tetra_os.Ext2.{Look, copy, string_length}

-- From `start`, the path spells components of the given lengths, with a slash between two, and
-- with one at its end if `folder` is set.
abbrev pub Spells : (ℕ → ℕ) → ℕ → List ℕ → Bool → Type 0
Spells path start [] folder = ⊥
Spells path start (n ∷ []) folder =
    (0 < n)
    × ((i : ℕ) → i < n → (path (start + i) ≢ 0) × (path (start + i) ≢ 47))
    × (if folder
        then (path (start + n) ≡ 47) × (path (start + n + 1) ≡ 0)
        else path (start + n) ≡ 0)
Spells path start (n ∷ m ∷ ns) folder =
    (0 < n)
    × ((i : ℕ) → i < n → (path (start + i) ≢ 0) × (path (start + i) ≢ 47))
    × (path (start + n) ≡ 47)
    × Spells path (start + n + 1) (m ∷ ns) folder

-- Where the path ends.
abbrev pub end_of : ℕ → List ℕ → Bool → ℕ
end_of start [] folder = start
end_of start (n ∷ []) folder = if folder then start + n + 1 else start + n
end_of start (n ∷ m ∷ ns) folder = end_of (start + n + 1) (m ∷ ns) folder

-- The lookups of the components one after another, up to the first that is not found.
abbrev pub visit : Look → (ℕ → ℕ) → ℕ → List ℕ → Bytes → Bool × Bytes
visit look path start [] dir = (true, dir)
visit look path start (n ∷ ns) dir =
    let (found, dir') = look dir (copy path start n) in
    let rest = visit look path (start + n + 1) ns dir' in if found then rest else (false, dir')

string_length_lem :
    (path : ℕ → ℕ) (fuel i n : ℕ)
    → n < fuel
    → ((j : ℕ) → i ≤ j → j < i + n → path j ≢ 0)
    → path (i + n) ≡ 0
    → string_length fuel path i ≡ some (i + n)
unfolding string_length
string_length_lem path zero i n h inside stop = absurd (omega arith)
string_length_lem path (suc fuel) i zero h inside stop =
    let e : i + 0 ≡ i = omega arith in
    let at_end : path i ≡ 0 = ap path (sym e) ∙ stop in
    let hit : (path i == 0) ≡ true = ground arith in rw hit (ap some (sym e))
string_length_lem path (suc fuel) i (suc n) h inside stop =
    let e : i + suc n ≡ i + 1 + n = omega arith in
    let miss : (path i == 0) ≡ false = ground (arith, inside i (omega arith) (omega arith)) in
    rw miss (
      rw e (
        string_length_lem path fuel (i + 1) n (omega arith)
          (λ j low high. inside j (omega arith) (omega arith)) (ap path (sym e) ∙ stop)))

module _ (path : ℕ → ℕ) where
  pub end_of_ge :
      (start n : ℕ) (ns : List ℕ) (folder : Bool) → start + n ≤ end_of start (n ∷ ns) folder
  end_of_ge start n [] folder = ground arith
  end_of_ge start n (m ∷ ns) folder = omega (arith, end_of_ge (start + n + 1) m ns folder)

  pub char_of :
      (start n : ℕ) (ns : List ℕ) (folder : Bool)
      → Spells path start (n ∷ ns) folder
      → (i : ℕ) → i < n
      → (path (start + i) ≢ 0) × (path (start + i) ≢ 47)
  char_of start n [] folder spelled = spelled.1
  char_of start n (m ∷ ns) folder spelled = spelled.1

  pub pos_of :
      (start n : ℕ) (ns : List ℕ) (folder : Bool) → Spells path start (n ∷ ns) folder → 0 < n
  pos_of start n [] folder spelled = spelled.0
  pos_of start n (m ∷ ns) folder spelled = spelled.0

  char_inside :
      (start n : ℕ) (ns : List ℕ) (folder : Bool) (j : ℕ)
      → Spells path start (n ∷ ns) folder
      → start ≤ j
      → j < start + n
      → path j ≢ 0
  char_inside start n ns folder j spelled from to =
      let e : start + (j - start) ≡ j = omega arith in
      rw e at (char_of start n ns folder spelled (j - start) (omega arith)).0

  slash_inside : (at j : ℕ) → path at ≡ 47 → at ≡ j → path j ≢ 0
  slash_inside at j slash e = let slash' : path j ≡ 47 = rw e at slash in λ gone. omega arith

  -- Up to its end the path has no 0.
  inside :
      (start n : ℕ) (ns : List ℕ) (folder : Bool) (j : ℕ)
      → Spells path start (n ∷ ns) folder
      → start ≤ j
      → j < end_of start (n ∷ ns) folder
      → path j ≢ 0
  inside start n [] false j spelled from to = char_inside start n [] false j spelled from to
  inside start n [] true j spelled from to = elim (ℕ_discrete (start + n) j) [
    | yes e ↦ slash_inside (start + n) j spelled.2.0 e
    | no ne ↦ char_inside start n [] true j spelled from (omega arith)
  ]
  inside start n (m ∷ ns) folder j spelled from to = elim (ℕ_discrete (start + n) j) [
    | yes e ↦ slash_inside (start + n) j spelled.2 e
    | no ne ↦ elim (dec_lt j (start + n)) [
      | yes below ↦ char_inside start n (m ∷ ns) folder j spelled from below
      | no above ↦ inside (start + n + 1) m ns folder j spelled.3 (omega arith) to
    ]
  ]

  stops :
      (start n : ℕ) (ns : List ℕ) (folder : Bool)
      → Spells path start (n ∷ ns) folder
      → path (end_of start (n ∷ ns) folder) ≡ 0
  stops start n [] false spelled = spelled.2
  stops start n [] true spelled = spelled.2.1
  stops start n (m ∷ ns) folder spelled = stops (start + n + 1) m ns folder spelled.3

  pub measured :
      (fuel n : ℕ) (ns : List ℕ) (folder : Bool)
      → path 0 ≡ 47
      → Spells path 1 (n ∷ ns) folder
      → end_of 1 (n ∷ ns) folder < fuel
      → string_length fuel path 0 ≡ some (end_of 1 (n ∷ ns) folder)
  measured fuel n ns folder root spelled enough =
      let size : ℕ = end_of 1 (n ∷ ns) folder in
      let e : 0 + size ≡ size = omega arith in
      let found =
        string_length_lem path fuel 0 size enough
          (λ j from to. elim (ℕ_discrete 0 j) [
            | yes same ↦ slash_inside 0 j root same
            | no ne ↦ inside 1 n ns folder j spelled (omega arith) (omega arith)
          ])
          (ap path e ∙ stops 1 n ns folder spelled) in
      rw e at found
