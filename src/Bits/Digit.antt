-- ===== src/Bits/Digit.antt =====
-- The native `&` and `|` stand for a recursion on binary digits with fuel. This module drops the
-- fuel: one equation each for the lowest digit.
use Prim.Native.Nat.{min, max, digits, bit_and-bitwise, bit_or-bitwise}
use tetra_os.Base.{ℕ, zero, suc, ◌+◌, ◌*◌, ◌/◌, ◌%◌, ◌≤◌, bit_and, bit_or, ◌≡◌, refl, arith}

-- Any two amounts of fuel that reach the number's size give the same digits.
enough_fuel :
    (rest : ℕ → ℕ) (op : ℕ → ℕ → ℕ) (f g x y : ℕ)
    → x ≤ f
    → x ≤ g
    → digits rest op f x y ≡ digits rest op g x y
enough_fuel rest op zero zero x y hf hg = refl
enough_fuel rest op zero (suc g) zero y hf hg = refl
enough_fuel rest op zero (suc g) (suc x) y hf hg = absurd (omega arith)
enough_fuel rest op (suc f) zero zero y hf hg = refl
enough_fuel rest op (suc f) zero (suc x) y hf hg = absurd (omega arith)
enough_fuel rest op (suc f) (suc g) zero y hf hg = refl
enough_fuel rest op (suc f) (suc g) (suc x) y hf hg =
    let halves = enough_fuel rest op f g (suc x / 2) (y / 2) (omega arith) (omega arith) in
    rw halves

pub or_digit : (x y : ℕ) → bit_or x y ≡ 2 * bit_or (x / 2) (y / 2) + max (x % 2) (y % 2)
or_digit zero y = simp bit_or-bitwise (omega arith)
or_digit (suc x) y = simp bit_or-bitwise (
    omega (
      arith,
      enough_fuel (λ b. b) max x (suc x / 2) (suc x / 2) (y / 2) (omega arith) (omega arith),
    ))

pub and_digit : (x y : ℕ) → bit_and x y ≡ 2 * bit_and (x / 2) (y / 2) + min (x % 2) (y % 2)
and_digit zero y = simp bit_and-bitwise (omega arith)
and_digit (suc x) y = simp bit_and-bitwise (
    omega (
      arith,
      enough_fuel (λ b. 0) min x (suc x / 2) (suc x / 2) (y / 2) (omega arith) (omega arith),
    ))
