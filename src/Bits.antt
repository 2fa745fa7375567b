-- ===== src/Bits.antt =====
-- `&` and `|` of machine words as arithmetic: how they meet the lowest digit, shifts and masks.
mod Digit
use Digit.{and_digit, or_digit}
use mathlib.Core.WellFounded.{Acc, WellFounded, induction}
use native.Mathlib.Nat.{
  pow-suc, pow-zero, pow-succ', one-le-pow, div-one, mul-one, div-div-eq-div-mul,
}
use tetra_os.Base.{
  ℕ, zero, suc, ◌+◌, ◌-◌, ◌*◌, ◌/◌, ◌%◌, ◌^◌, ◌≤◌, ◌<◌, bit_and, bit_or, ◌≡◌, refl, sym, ap, arith,
}

Acc-under : (bound n : ℕ) → n < bound → Acc ◌<◌ n
Acc-under zero n h = elim h [ ]
Acc-under (suc bound) n h = Acc.intro n (λ m q. Acc-under bound m (omega arith))

lt_wf : WellFounded ◌<◌
lt_wf = record { apply = λ n. Acc-under (suc n) n (omega arith) }

-- What holds at 0, and at a positive number once it holds at its half, holds everywhere.
halving_induction : (P : ℕ → Type 0) → P 0 → ((n : ℕ) → P (suc n / 2) → P (suc n)) → (n : ℕ) → P n
halving_induction P base step n = induction lt_wf {C = P} n λ k. split k
  where
    split : (k : ℕ) → ((m : ℕ) → m < k → P m) → P k
    split zero ih = base
    split (suc k) ih = step k (ih (suc k / 2) (omega arith))

pub bit_or-zero : (a : ℕ) → bit_or a 0 ≡ a
bit_or-zero =
    halving_induction (λ a. bit_or a 0 ≡ a) refl λ n ih. omega (arith, or_digit (suc n) 0, ih)

bit_and-zero : (a : ℕ) → bit_and a 0 ≡ 0
bit_and-zero =
    halving_induction (λ a. bit_and a 0 ≡ 0) refl λ n ih. omega (arith, and_digit (suc n) 0, ih)

twice_pow : (k q : ℕ) → q * 2 ^ suc k ≡ 2 * (q * 2 ^ k)
twice_pow k q = omega (arith, ap (λ (t : ℕ). q * t) (pow-suc 2 k))

pow_pos : (k : ℕ) → 0 < 2 ^ k
pow_pos k = one-le-pow k 2 (omega arith)

mod_twice : (p x : ℕ) → 0 < p → x % (2 * p) ≡ 2 * (x / 2 % p) + x % 2
mod_twice p x h = grind arith

-- `x & (2^k - 1)` keeps the low `k` bits.
pub bit_and-mask : (k x : ℕ) → bit_and x (2 ^ k - 1) ≡ x % 2 ^ k
bit_and-mask zero x = omega (arith, bit_and-zero x)
bit_and-mask (suc k) x = ground (
  arith,
  and_digit x (2 ^ suc k - 1),
  pow-suc 2 k,
  pow_pos k,
  bit_and-mask k (x / 2),
  mod_twice (2 ^ k) x (pow_pos k),
)

-- `(q << k) | r` puts a field below another.
pub bit_or-field : (k q r : ℕ) → r < 2 ^ k → bit_or (q * 2 ^ k) r ≡ q * 2 ^ k + r
bit_or-field zero q r h = ground (arith, bit_or-zero q)
bit_or-field (suc k) q r h =
    ground (arith, or_digit (q * 2 ^ suc k) r, twice_pow k q, pow-suc 2 k, bit_or-field k q (r / 2))

half_first : (k x : ℕ) → x / 2 ^ suc k ≡ x / 2 / 2 ^ k
half_first k x = rw (pow-succ' 2 k) (sym (div-div-eq-div-mul x 2 (2 ^ k)))

pub bit_or-half : (a b : ℕ) → bit_or a b / 2 ≡ bit_or (a / 2) (b / 2)
bit_or-half a b = omega (arith, or_digit a b)

-- A right shift distributes over `|`.
pub bit_or-shr : (k a b : ℕ) → bit_or a b / 2 ^ k ≡ bit_or (a / 2 ^ k) (b / 2 ^ k)
bit_or-shr zero a b = simp (pow-zero, div-one)
bit_or-shr (suc k) a b =
    rw (half_first k (bit_or a b), half_first k a, half_first k b, bit_or-half)
      (bit_or-shr k (a / 2) (b / 2))

pub bit_or-parity : (a b : ℕ) → a % 2 ≡ 1 → bit_or a b % 2 ≡ 1
bit_or-parity a b h = omega (arith, or_digit a b)

even_mask : (x y : ℕ) → bit_and x (2 * y) ≡ 2 * bit_and (x / 2) y
even_mask x y = ground (arith, and_digit x (2 * y))

-- A mask whose low `k` bits are 0 clears those of the other operand.
pub bit_and-high : (k c x : ℕ) → bit_and x (c * 2 ^ k) ≡ bit_and (x / 2 ^ k) c * 2 ^ k
bit_and-high zero c x = simp (pow-zero, div-one, mul-one)
bit_and-high (suc k) c x =
    rw (half_first k x, twice_pow k (bit_and (x / 2 / 2 ^ k) c), ← bit_and-high k c (x / 2))
      (rw (twice_pow k c) (even_mask x (c * 2 ^ k)))

pub bit_or-odd : (a : ℕ) → bit_or a 1 % 2 ≡ 1
bit_or-odd a = omega (arith, or_digit a 1)
