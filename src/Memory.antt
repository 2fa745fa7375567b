-- ===== src/Memory.antt =====
-- Byte-addressed memory, and the 8-bit and 64-bit accesses that the kernel makes through pointers
-- (`uint8_t *`, `uint64_t *`, little endian). An address is a number below 2^64.
use tetra_os.Base.{
  ℕ, ◌+◌, ◌-◌, ◌*◌, ◌/◌, ◌%◌, ◌^◌, ◌≤◌, ◌<◌, ◌≡◌, refl, ◌∙◌, ◌⊎◌, inl, inr, ◌≢◌, ◌&&◌, arith, ltb,
  leb, ◌==◌, if◌then◌else◌, List, [], ◌∷◌,
}

abbrev pub Bytes : Type 0
Bytes = ℕ → ℕ

-- The values of uint64_t, uint32_t and uint16_t: arithmetic wraps.
abbrev pub u64 : ℕ → ℕ
u64 x = x % 2 ^ 64

abbrev pub u32 : ℕ → ℕ
u32 x = x % 2 ^ 32

abbrev pub u16 : ℕ → ℕ
u16 x = x % 2 ^ 16

-- What is read is a byte, whatever the memory holds.
unfoldable pub load8 : Bytes → ℕ → ℕ
load8 m a = m a % 256

unfoldable pub store8 : Bytes → ℕ → ℕ → Bytes
store8 m a v b = if b == a then v % 256 else m b

unfoldable pub load64 : Bytes → ℕ → ℕ
unfolding load8
load64 m a =
    load8 m a
    + load8 m (a + 1) * 2 ^ 8
    + load8 m (a + 2) * 2 ^ 16
    + load8 m (a + 3) * 2 ^ 24
    + load8 m (a + 4) * 2 ^ 32
    + load8 m (a + 5) * 2 ^ 40
    + load8 m (a + 6) * 2 ^ 48
    + load8 m (a + 7) * 2 ^ 56

unfoldable pub store64 : Bytes → ℕ → ℕ → Bytes
store64 m a v b = if leb a b && ltb b (a + 8) then v / 256 ^ (b - a) % 256 else m b

-- The string of these characters lies at an address.
abbrev pub IsString : Bytes → ℕ → List ℕ → Type 0
IsString m a [] = load8 m a ≡ 0
IsString m a (c ∷ cs) = (load8 m a ≡ c) × (c ≢ 0) × IsString m (a + 1) cs

-- Two ranges of addresses that do not meet.
abbrev pub Apart : ℕ → ℕ → ℕ → ℕ → Type 0
Apart a n b k = (a + n ≤ b) ⊎ (b + k ≤ a)

pub load64-lt : (m : Bytes) (a : ℕ) → load64 m a < 2 ^ 64
unfolding load64
load64-lt m a = omega arith

store64-byte : (m : Bytes) (a v i : ℕ) → i < 8 → store64 m a v (a + i) ≡ v / 256 ^ i % 256
unfolding store64
store64-byte m a v i h = let e : a + i - a ≡ i = omega arith in rw e (ground arith)

store64-first : (m : Bytes) (a v : ℕ) → store64 m a v a ≡ v % 256
unfolding store64
store64-first m a v = let e : a - a ≡ 0 = omega arith in rw e (ground arith)

pub store64-outside : (m : Bytes) (a v b : ℕ) → Apart a 8 b 1 → store64 m a v b ≡ m b
unfolding store64
store64-outside m a v b h = ground arith

pub store8-outside : (m : Bytes) (a v b : ℕ) → b ≢ a → store8 m a v b ≡ m b
unfolding store8
store8-outside m a v b h = ground arith

pub load64-store64_self : (m : Bytes) (a v : ℕ) → v < 2 ^ 64 → load64 (store64 m a v) a ≡ v
unfolding load64
load64-store64_self m a v h = omega (
  arith,
  store64-first m a v,
  store64-byte m a v 1 (omega arith),
  store64-byte m a v 2 (omega arith),
  store64-byte m a v 3 (omega arith),
  store64-byte m a v 4 (omega arith),
  store64-byte m a v 5 (omega arith),
  store64-byte m a v 6 (omega arith),
  store64-byte m a v 7 (omega arith),
)

-- A 64-bit read sees only its eight bytes.
pub load64_ext :
    (m n : Bytes) (a : ℕ) → ((i : ℕ) → i < 8 → m (a + i) ≡ n (a + i)) → load64 m a ≡ load64 n a
unfolding load64
load64_ext m n a h = ground (
  arith,
  h 0 (omega arith),
  h 1 (omega arith),
  h 2 (omega arith),
  h 3 (omega arith),
  h 4 (omega arith),
  h 5 (omega arith),
  h 6 (omega arith),
  h 7 (omega arith),
)

pub load64-store64-Apart :
    (m : Bytes) (a v b : ℕ) → Apart a 8 b 8 → load64 (store64 m a v) b ≡ load64 m b
load64-store64-Apart m a v b h =
    load64_ext (store64 m a v) m b (λ i q. store64-outside m a v (b + i) (split h i q))
  where
    split : Apart a 8 b 8 → (i : ℕ) → i < 8 → Apart a 8 (b + i) 1
    split (inl p) i q = inl (omega arith)
    split (inr p) i q = inr (omega arith)

pub load64-store8-Apart :
    (m : Bytes) (a v b : ℕ) → Apart a 1 b 8 → load64 (store8 m a v) b ≡ load64 m b
load64-store8-Apart m a v b h =
    load64_ext (store8 m a v) m b (λ i q. store8-outside m a v (b + i) (omega arith))

pub load8-store8_self : (m : Bytes) (a v : ℕ) → v < 256 → load8 (store8 m a v) a ≡ v
unfolding load8 store8
load8-store8_self m a v h = ground arith

pub load8-store8_ne : (m : Bytes) (a v b : ℕ) → b ≢ a → load8 (store8 m a v) b ≡ load8 m b
unfolding load8
load8-store8_ne m a v b h = omega (arith, store8-outside m a v b h)

pub load8-store64-Apart :
    (m : Bytes) (a v b : ℕ) → Apart a 8 b 1 → load8 (store64 m a v) b ≡ load8 m b
unfolding load8
load8-store64-Apart m a v b h = omega (arith, store64-outside m a v b h)

pub load8_ext : (m n : Bytes) (a : ℕ) → m a ≡ n a → load8 m a ≡ load8 n a
unfolding load8
load8_ext m n a h = omega (arith, h)

pub load64_zero : (m : Bytes) (a : ℕ) → ((i : ℕ) → i < 8 → m (a + i) ≡ 0) → load64 m a ≡ 0
load64_zero m a h = load64_ext m (λ _. 0) a h ∙ zeros a
  where
    zeros : (a : ℕ) → load64 (λ _. 0) a ≡ 0
    zeros a = unfold load64 in refl
