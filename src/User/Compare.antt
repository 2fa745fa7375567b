-- ===== src/User/Compare.antt =====
-- The comparison of strings in user programs, tlibc/string.c. A char is a byte, without a sign as on
-- this machine, and an int is its 32 bits.
use tetra_os.Base.{
  ℕ, zero, suc, ◌+◌, ◌-◌, ◌^◌, ◌<◌, ◌≡◌, refl, ◌≢◌, ◌⊎◌, inl, inr, sym, ap, subst, ◌∙◌, true, false,
  ◌&&◌, not, Bool-cases, Option, none, some, List, [], ◌∷◌, length, ◌==◌, ltb, if◌then◌else◌, arith,
}
use tetra_os.Memory.{Bytes, load8, IsString}

abbrev minus_one : ℕ
minus_one = 2 ^ 32 - 1

-- The two tests behind the loop, on the characters where it ends.
abbrev ended : ℕ → ℕ → ℕ
ended c1 c2 =
    if not (c1 == 0) && (c2 == 0) then 1 else if (c1 == 0) && not (c2 == 0) then minus_one else 0

-- The loop, on fuel.
unfoldable pub strcmp : ℕ → Bytes → ℕ → ℕ → Option ℕ
strcmp zero m s1 s2 = none
strcmp (suc fuel) m s1 s2 =
    let rest = strcmp fuel m (s1 + 1) (s2 + 1) in
    let c1 = load8 m s1 in
    let c2 = load8 m s2 in
    if not (c1 == 0) && not (c2 == 0)
    then if c1 == c2 then rest else if ltb c1 c2 then some minus_one else some 1
    else some (ended c1 c2)

-- The order of a dictionary.
pub data IsBefore : List ℕ → List ℕ → Type 0 where
  shorter : (c : ℕ) (cs : List ℕ) → IsBefore [] (c ∷ cs)
  smaller : (c d : ℕ) (cs ds : List ℕ) → c < d → IsBefore (c ∷ cs) (d ∷ ds)
  later : (c : ℕ) (cs ds : List ℕ) → IsBefore cs ds → IsBefore (c ∷ cs) (c ∷ ds)

-- What a result says about two strings.
abbrev pub Compares : List ℕ → List ℕ → ℕ → Type 0
Compares cs ds r =
    ((r ≡ 0) × (cs ≡ ds)) ⊎ (((r ≡ minus_one) × IsBefore cs ds) ⊎ ((r ≡ 1) × IsBefore ds cs))

Compares-later : (c r : ℕ) (cs ds : List ℕ) → Compares cs ds r → Compares (c ∷ cs) (c ∷ ds) r
Compares-later c r cs ds (inl (e, same)) = inl (e, ap (λ (xs : List ℕ). c ∷ xs) same)
Compares-later c r cs ds (inr (inl (e, b))) = inr (inl (e, later c cs ds b))
Compares-later c r cs ds (inr (inr (e, b))) = inr (inr (e, later c ds cs b))

module _ (fuel : ℕ) (m : Bytes) (s1 s2 : ℕ) where
  strcmp-ended :
      (c1 c2 : ℕ)
      → load8 m s1 ≡ c1
      → load8 m s2 ≡ c2
      → (c1 ≡ 0) ⊎ (c2 ≡ 0)
      → strcmp (suc fuel) m s1 s2 ≡ some (ended c1 c2)
  unfolding strcmp
  strcmp-ended c1 c2 e1 e2 end = rw (e1, e2) (ground arith)

  strcmp-differs :
      (c1 c2 : ℕ)
      → load8 m s1 ≡ c1
      → load8 m s2 ≡ c2
      → c1 ≢ 0
      → c2 ≢ 0
      → c1 ≢ c2
      → strcmp (suc fuel) m s1 s2 ≡ (if ltb c1 c2 then some minus_one else some 1)
  unfolding strcmp
  strcmp-differs c1 c2 e1 e2 n1 n2 d =
      let z1 : (c1 == 0) ≡ false = ground arith in
      let z2 : (c2 == 0) ≡ false = ground arith in
      let z : (c1 == c2) ≡ false = ground arith in rw (e1, e2) (rw (z1, z2, z) refl)

  strcmp-same :
      (c : ℕ)
      → load8 m s1 ≡ c
      → load8 m s2 ≡ c
      → c ≢ 0
      → strcmp (suc fuel) m s1 s2 ≡ strcmp fuel m (s1 + 1) (s2 + 1)
  unfolding strcmp
  strcmp-same c e1 e2 n =
      let z : (c == 0) ≡ false = ground arith in
      let same : (c == c) ≡ true = ground arith in rw (e1, e2) (rw (z, same) refl)

-- On two strings, with fuel for one round more than the characters of the first, the comparison ends,
-- with 0 if they are the same, with -1 if the first is before the second in the order of a
-- dictionary, and with 1 if it is behind.
pub strcmp_lem :
    (fuel : ℕ) (m : Bytes) (s1 s2 : ℕ) (cs ds : List ℕ)
    → IsString m s1 cs
    → IsString m s2 ds
    → length cs < fuel
    → (r : ℕ) × (strcmp fuel m s1 s2 ≡ some r) × Compares cs ds r
strcmp_lem zero m s1 s2 cs ds v1 v2 h = absurd (omega arith)
strcmp_lem (suc fuel) m s1 s2 [] [] v1 v2 h =
    (0, strcmp-ended fuel m s1 s2 0 0 v1 v2 (inl refl), inl (refl, refl))
strcmp_lem (suc fuel) m s1 s2 [] (d ∷ ds) v1 (e2, n2, v2) h =
    let z : (d == 0) ≡ false = ground arith in
    (
      minus_one,
      strcmp-ended fuel m s1 s2 0 d v1 e2 (inl refl) ∙ rw z refl,
      inr (inl (refl, shorter d ds)),
    )
strcmp_lem (suc fuel) m s1 s2 (c ∷ cs) [] (e1, n1, v1) v2 h =
    let z : (c == 0) ≡ false = ground arith in
    (1, strcmp-ended fuel m s1 s2 c 0 e1 v2 (inr refl) ∙ rw z refl, inr (inr (refl, shorter c cs)))
strcmp_lem (suc fuel) m s1 s2 (c ∷ cs) (d ∷ ds) (e1, n1, v1) (e2, n2, v2) h =
    elim (Bool-cases (ltb c d)) [
      | inl less ↦ (
        minus_one,
        strcmp-differs fuel m s1 s2 c d e1 e2 n1 n2 (ground arith) ∙ rw less refl,
        inr (inl (refl, smaller c d cs ds (ground arith))),
      )
      | inr more ↦ elim (Bool-cases (c == d)) [
        | inl same ↦
            let e : c ≡ d = ground arith in
            let (r, runs, is) = strcmp_lem fuel m (s1 + 1) (s2 + 1) cs ds v1 v2 (omega arith) in
            (
              r,
              strcmp-same fuel m s1 s2 c e1 (e2 ∙ sym e) n1 ∙ runs,
              subst (λ (x : ℕ). Compares (c ∷ cs) (x ∷ ds) r) e (Compares-later c r cs ds is),
            )
        | inr other ↦ (
          1,
          strcmp-differs fuel m s1 s2 c d e1 e2 n1 n2 (ground arith) ∙ rw more refl,
          inr (inr (refl, smaller d c ds cs (ground arith))),
        )
      ]
    ]
