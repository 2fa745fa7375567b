-- ===== src/Print/Digits.antt =====
-- The digits that `vprintf` puts, read back as a number.
use tetra_os.Base.{
  ℕ, zero, suc, ◌+◌, ◌*◌, ◌/◌, ◌%◌, ◌^◌, ◌<◌, ◌≡◌, refl, ap, ◌∙◌, inl, inr, true, false, some, List,
  [], ◌∷◌, map, arith, ltb, Bool-cases,
}
use tetra_os.Memory.{u32}
use tetra_os.Print.{split, decimal_char, hex_char, print_decimal, print_hex}

-- The number that digits stand for, behind those that stand for `i`.
abbrev pub value : ℕ → ℕ → List ℕ → ℕ
value base i [] = i
value base i (d ∷ ds) = value base (i * base + d) ds

abbrev pub AllBelow : ℕ → List ℕ → Type 0
AllBelow base [] = Unit {0}
AllBelow base (d ∷ ds) = (d < base) × AllBelow base ds

-- The powers of the base, as the loop goes down through them.
abbrev power : ℕ → ℕ → ℕ
power base zero = 1
power base (suc n) = base * power base n

abbrev Splits : ℕ → ℕ → ℕ → List ℕ → Type 0
Splits base fuel i digits =
    (ds : List ℕ) × (split base fuel i digits ≡ some ds)
    × (value base 0 ds ≡ value base i digits)
    × AllBelow base ds

module _ (base : ℕ) (divide : (i : ℕ) → i / base * base + i % base ≡ i)
    (digit : (i : ℕ) → i % base < base) (smaller : (i m : ℕ) → i < base * m → i / base < m)
    (single : 1 < base) where
  more_fuel : (fuel i : ℕ) → i < power base (suc fuel) → ltb i base ≡ false → 0 < fuel
  more_fuel zero i h high =
      let e : base * 1 ≡ base = omega arith in absurd (ground (arith, e, rw e at h))
  more_fuel (suc fuel) i h high = omega arith

  split_lem :
      (fuel i : ℕ) (digits : List ℕ)
      → i < power base fuel
      → 0 < fuel
      → AllBelow base digits
      → Splits base fuel i digits
  unfolding split
  split_lem zero i digits h pos all = absurd (omega arith)
  split_lem (suc fuel) i digits h pos all = elim (Bool-cases (ltb i base)) [
    | inl low ↦
        let start : 0 * base + i ≡ i = omega arith in
        (i ∷ digits, rw low refl, ap (λ (x : ℕ). value base x digits) start, (ground arith, all))
    | inr high ↦
        let (ds, runs, same, below) =
          split_lem fuel (i / base) (i % base ∷ digits) (smaller i (power base fuel) h)
            (more_fuel fuel i h high) (digit i, all) in
        (ds, rw high runs, same ∙ ap (λ (x : ℕ). value base x digits) (divide i), below)
  ]

split-decimal : (i : ℕ) → i < 10 ^ 10 → Splits 10 10 i []
split-decimal i h =
    split_lem 10 (λ i. omega arith) (λ i. omega arith) (λ i m h. omega arith) (omega arith) 10 i []
      (omega arith) (omega arith) tt

split-hex : (i : ℕ) → i < 2 ^ 64 → Splits 16 16 i []
split-hex i h =
    split_lem 16 (λ i. omega arith) (λ i. omega arith) (λ i m h. omega arith) (omega arith) 16 i []
      (omega arith) (omega arith) tt

print_decimal_runs :
    (i : ℕ) (ds : List ℕ)
    → i < 2 ^ 31
    → split 10 10 i [] ≡ some ds
    → print_decimal i ≡ some (map decimal_char ds)
unfolding print_decimal
print_decimal_runs i ds h runs =
    let low : ltb (u32 i) (2 ^ 31) ≡ true = ground arith in
    let same : u32 i ≡ i = omega arith in rw (low, print_decimal) (rw same (rw runs refl))

print_hex_runs :
    (i : ℕ) (ds : List ℕ)
    → i < 2 ^ 64
    → split 16 16 i [] ≡ some ds
    → print_hex i ≡ some (map hex_char ds)
unfolding print_hex
print_hex_runs i ds h runs =
    let same : i % 2 ^ 64 ≡ i = omega arith in rw (same, print_hex) (rw runs refl)

-- `%d` of an int that is not negative puts decimal digits that stand for the number.
pub print_decimal_lem :
    (i : ℕ)
    → i < 2 ^ 31
    → (ds : List ℕ) × (print_decimal i ≡ some (map decimal_char ds))
      × (value 10 0 ds ≡ i)
      × AllBelow 10 ds
print_decimal_lem i h =
    let (ds, runs, is, below) = split-decimal i (omega arith) in
    (ds, print_decimal_runs i ds h runs, is, below)

-- `%x` of a number of 64 bits puts hexadecimal digits that stand for the number.
pub print_hex_lem :
    (i : ℕ)
    → i < 2 ^ 64
    → (ds : List ℕ) × (print_hex i ≡ some (map hex_char ds)) × (value 16 0 ds ≡ i) × AllBelow 16 ds
print_hex_lem i h =
    let (ds, runs, is, below) = split-hex i h in (ds, print_hex_runs i ds h runs, is, below)
