-- ===== src/Loader/Headers.antt =====
-- The program headers of a file, as `Scheduler::submit_new_process` of kernel/process/scheduler.cpp
-- reads them.
use tetra_os.Base.{
  ℕ, zero, suc, ◌+◌, ◌/◌, ◌%◌, ◌^◌, ◌≤◌, ◌<◌, ◌≡◌, refl, ◌∙◌, arith, ◌==◌, if◌then◌else◌,
}
use tetra_os.Memory.{Bytes, load8_ext, load64_ext}
use tetra_os.Ext2.{load32}
use tetra_os.Loader.{p_type, p_offset, p_vaddr, p_filesz, p_memsz, size_of_header}

-- A segment that is to be loaded lies in the lower quarter of the addresses of the process, and is
-- no longer in the file, at `file`, than in memory; what it has in the file lies in its first page,
-- the only one that is mapped.
abbrev IsLoadable : ℕ → Bytes → ℕ → Type 0
IsLoadable file m header =
    p_type m header ≡ 1
    → (p_vaddr m header + p_memsz m header < 2 ^ 46)
      × (p_filesz m header ≤ p_memsz m header)
      × (file + p_offset m header + p_filesz m header < 2 ^ 64)
      × (p_vaddr m header % 4096 + p_filesz m header ≤ 4096)

abbrev pub AllLoadable : ℕ → Bytes → ℕ → ℕ → Type 0
AllLoadable file m header zero = Unit {0}
AllLoadable file m header (suc n) =
    IsLoadable file m header × AllLoadable file m (header + size_of_header) n

-- The pages that the segments of the headers ask for.
unfoldable pub pages_of : Bytes → ℕ → ℕ → ℕ
pages_of m header zero = 0
pages_of m header (suc n) =
    (if p_type m header == 1 then p_memsz m header / 4096 + 1 else 0)
    + pages_of m (header + size_of_header) n

load32_ext : (m n : Bytes) (a : ℕ) → ((b : ℕ) → a ≤ b → m b ≡ n b) → load32 m a ≡ load32 n a
load32_ext m n a h = omega (
  arith,
  load8_ext m n a (h a (omega arith)),
  load8_ext m n (a + 1) (h (a + 1) (omega arith)),
  load8_ext m n (a + 2) (h (a + 2) (omega arith)),
  load8_ext m n (a + 2 + 1) (h (a + 2 + 1) (omega arith)),
)

module _ (m n : Bytes) where
  pub header_ext :
      (header : ℕ)
      → ((b : ℕ) → header ≤ b → m b ≡ n b)
      → (p_type m header ≡ p_type n header)
        × (p_offset m header ≡ p_offset n header)
        × (p_vaddr m header ≡ p_vaddr n header)
        × (p_filesz m header ≡ p_filesz n header)
        × (p_memsz m header ≡ p_memsz n header)
  header_ext header h = (
    load32_ext m n header h,
    load64_ext m n (header + 8) (λ i q. h (header + 8 + i) (omega arith)),
    load64_ext m n (header + 16) (λ i q. h (header + 16 + i) (omega arith)),
    load64_ext m n (header + 32) (λ i q. h (header + 32 + i) (omega arith)),
    load64_ext m n (header + 40) (λ i q. h (header + 40 + i) (omega arith)),
  )

  pub pages_of_ext :
      (header count : ℕ)
      → ((b : ℕ) → header ≤ b → m b ≡ n b)
      → pages_of m header count ≡ pages_of n header count
  unfolding pages_of
  pages_of_ext header zero h = refl
  pages_of_ext header (suc count) h =
      let (kind, _, _, _, size) = header_ext header h in
      let rest = pages_of_ext (header + size_of_header) count (λ b q. h b (omega arith)) in
      rw (kind, size, rest) refl

  pub AllLoadable-ext :
      (file header count : ℕ)
      → ((b : ℕ) → header ≤ b → m b ≡ n b)
      → AllLoadable file m header count
      → AllLoadable file n header count
  AllLoadable-ext file header zero h all = tt
  AllLoadable-ext file header (suc count) h all =
      let (kind, offset, addr, stored, size) = header_ext header h in
      (
        (λ e.
            let (low, fits, within, one_page) = all.0 (kind ∙ e) in
            (
              omega (arith, addr, size),
              omega (arith, stored, size),
              omega (arith, offset, stored),
              omega (arith, addr, stored),
            )),
        AllLoadable-ext file (header + size_of_header) count (λ b q. h b (omega arith)) all.1,
      )
