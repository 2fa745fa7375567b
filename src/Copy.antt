-- ===== src/Copy.antt =====
-- `memset` and `memcpy` of kernel/memory/virtual_allocator.cpp, byte after byte.
use tetra_os.Base.{ℕ, zero, suc, ◌+◌, ◌%◌, ◌<◌, ◌≡◌, refl, ◌∙◌, arith}
use tetra_os.Memory.{
  Bytes, Apart, load8, store8, store8-outside, load8-store8_self, load8-store8_ne, load8_ext,
}

unfoldable pub memset : Bytes → ℕ → ℕ → ℕ → Bytes
memset m s c zero = m
memset m s c (suc n) = memset (store8 m s c) (s + 1) c n

unfoldable pub memcpy : Bytes → ℕ → ℕ → ℕ → Bytes
memcpy m dest src zero = m
memcpy m dest src (suc len) = memcpy (store8 m dest (load8 m src)) (dest + 1) (src + 1) len

memset-outside : (m : Bytes) (s c n b : ℕ) → Apart s n b 1 → memset m s c n b ≡ m b
unfolding memset
memset-outside m s c zero b h = refl
memset-outside m s c (suc n) b h =
    memset-outside (store8 m s c) (s + 1) c n b (omega arith) ∙ store8-outside m s c b (omega arith)

load8-store8_mod : (m : Bytes) (a v : ℕ) → load8 (store8 m a v) a ≡ v % 256
unfolding load8 store8
load8-store8_mod m a v = ground arith

load8-lt : (m : Bytes) (a : ℕ) → load8 m a < 256
unfolding load8
load8-lt m a = omega arith

memset-inside : (m : Bytes) (s c n i : ℕ) → i < n → load8 (memset m s c n) (s + i) ≡ c % 256
unfolding memset
memset-inside m s c zero i h = absurd (omega arith)
memset-inside m s c (suc n) zero h =
    let e : s + 0 ≡ s = omega arith in
    rw e (
      load8_ext (memset (store8 m s c) (s + 1) c n) (store8 m s c) s
        (memset-outside (store8 m s c) (s + 1) c n s (omega arith))
      ∙ load8-store8_mod m s c)
memset-inside m s c (suc n) (suc i) h =
    let e : s + suc i ≡ s + 1 + i = omega arith in
    rw e (memset-inside (store8 m s c) (s + 1) c n i (omega arith))

-- The bytes from `s` become `c`, and no other byte is changed.
pub memset_lem :
    (m : Bytes) (s c n : ℕ)
    → ((i : ℕ) → i < n → load8 (memset m s c n) (s + i) ≡ c % 256)
      × ((b : ℕ) → Apart s n b 1 → memset m s c n b ≡ m b)
memset_lem m s c n = (memset-inside m s c n, memset-outside m s c n)

pub memcpy-outside :
    (m : Bytes) (dest src len b : ℕ) → Apart dest len b 1 → memcpy m dest src len b ≡ m b
unfolding memcpy
memcpy-outside m dest src zero b h = refl
memcpy-outside m dest src (suc len) b h =
    memcpy-outside (store8 m dest (load8 m src)) (dest + 1) (src + 1) len b (omega arith)
    ∙ store8-outside m dest (load8 m src) b (omega arith)

memcpy-inside :
    (m : Bytes) (dest src len i : ℕ)
    → Apart dest len src len
    → i < len
    → load8 (memcpy m dest src len) (dest + i) ≡ load8 m (src + i)
unfolding memcpy
memcpy-inside m dest src zero i apart h = absurd (omega arith)
memcpy-inside m dest src (suc len) zero apart h =
    let e : dest + 0 ≡ dest = omega arith in
    let e' : src + 0 ≡ src = omega arith in
    let written = store8 m dest (load8 m src) in
    rw (e, e')
      (load8_ext (memcpy written (dest + 1) (src + 1) len) written dest
          (memcpy-outside written (dest + 1) (src + 1) len dest (omega arith))
        ∙ load8-store8_self m dest (load8 m src) (load8-lt m src))
memcpy-inside m dest src (suc len) (suc i) apart h =
    let e : dest + suc i ≡ dest + 1 + i = omega arith in
    let e' : src + suc i ≡ src + 1 + i = omega arith in
    rw (e, e')
      (memcpy-inside (store8 m dest (load8 m src)) (dest + 1) (src + 1) len i (omega arith)
          (omega arith)
        ∙ load8-store8_ne m dest (load8 m src) (src + 1 + i) (omega arith))

-- Between ranges that do not meet, `memcpy` copies, and changes no other byte.
pub memcpy_lem :
    (m : Bytes) (dest src len : ℕ)
    → Apart dest len src len
    → ((i : ℕ) → i < len → load8 (memcpy m dest src len) (dest + i) ≡ load8 m (src + i))
      × ((b : ℕ) → Apart dest len b 1 → memcpy m dest src len b ≡ m b)
memcpy_lem m dest src len apart =
    ((λ i h. memcpy-inside m dest src len i apart h), memcpy-outside m dest src len)
