-- ===== src/Syscall/Write.antt =====
-- Writing, case 1 of `handle_syscall`, kernel/syscalls/syscall.cpp.
use tetra_os.Base.{
  ℕ, zero, suc, ◌+◌, ◌^◌, ◌≤◌, ◌<◌, ◌≡◌, refl, ◌≢◌, sym, ap, ◌∙◌, inr, some, List, [], ◌∷◌, ◌++◌,
  append_nil, ◌==◌, true, false, arith,
}
use tetra_os.Memory.{Bytes, u64, load8, store8, store8-outside, load8-store8_self, load8_ext}
use tetra_os.Copy.{memcpy, memcpy_lem}
use tetra_os.Kernel.{Kernel, virtual_offset}
use tetra_os.Heap.{kalloc}
use tetra_os.Heap.Invariant.{IsHeap}
use tetra_os.Heap.Alloc.{HasRoom, kalloc_lem}
use tetra_os.Print.{text, vprintf}
use tetra_os.Syscall.{Machine, put_chars, printf, string_at, sys_write}

-- The characters at an address.
abbrev pub chars_from : ℕ → Bytes → ℕ → List ℕ
chars_from zero m a = []
chars_from (suc n) m a = load8 m a ∷ chars_from n m (a + 1)

-- A string with its end after `n` characters, none of which is 0.
string_at-chars_from :
    (n : ℕ) (m : Bytes) (a : ℕ)
    → ((i : ℕ) → i < n → load8 m (a + i) ≢ 0)
    → load8 m (a + n) ≡ 0
    → string_at (suc n) m a ≡ some (chars_from n m a)
unfolding string_at
string_at-chars_from zero m a inside end =
    let at : a + 0 ≡ a = omega arith in
    let e : (load8 m a == 0) ≡ true = ground (arith, rw at at end) in rw e refl
string_at-chars_from (suc n) m a inside end =
    let at : a + 0 ≡ a = omega arith in
    let first : load8 m a ≢ 0 = rw at at (inside 0 (omega arith)) in
    let e : (load8 m a == 0) ≡ false = ground arith in
    let next =
      string_at-chars_from n m (a + 1)
        (λ i h.
          (let q : a + 1 + i ≡ a + suc i = omega arith in rw q (inside (suc i) (omega arith))))
        (let q : a + 1 + n ≡ a + suc n = omega arith in rw q end) in
    rw e (rw (next, string_at) refl)

pub chars_from-same :
    (n : ℕ) (m m' : Bytes) (a b : ℕ)
    → ((i : ℕ) → i < n → load8 m (a + i) ≡ load8 m' (b + i))
    → chars_from n m a ≡ chars_from n m' b
chars_from-same zero m m' a b h = refl
chars_from-same (suc n) m m' a b h =
    let at : a + 0 ≡ a = omega arith in
    let at' : b + 0 ≡ b = omega arith in
    let first : load8 m a ≡ load8 m' b = rw (at, at') at (h 0 (omega arith)) in
    let rest = chars_from-same n m m' (a + 1) (b + 1) (λ i q.
      (let e : a + 1 + i ≡ a + suc i = omega arith in
        let e' : b + 1 + i ≡ b + suc i = omega arith in rw (e, e') (h (suc i) (omega arith)))) in
    rw (first, rest) refl

string_put :
    (chars : List ℕ) (s : Machine)
    → printf (37 ∷ 115 ∷ []) (text chars ∷ []) s ≡ some (put_chars chars s)
unfolding printf vprintf
string_put chars s = rw (append_nil chars) refl

module _ (fuel limit base n from size : ℕ) (s : Machine) where
  abbrev block : ℕ
  block = s.kernel.free_list + 16

  abbrev filled : Kernel → Bytes
  filled k = store8 (memcpy k.mem block from size) (block + size) 0

  sys_write_runs :
      (k : Kernel) (chars : List ℕ)
      → size + 1 < 2 ^ 64
      → kalloc fuel (size + 1) s.kernel ≡ some (block, k)
      → string_at (suc size) (filled k) block ≡ some chars
      → sys_write fuel from size s
        ≡ some (put_chars chars (record s { kernel = record k { mem = filled k } }))
  unfolding sys_write
  sys_write_runs k chars low alloc ends =
      let same : u64 (size + 1) ≡ size + 1 = omega arith in
      let more : size + 1 ≡ suc size = omega arith in
      rw (same, alloc, sys_write)
        (rw more (
          rw (ends, sys_write)
            (string_put chars (record s { kernel = record k { mem = filled k } }))))

  -- On a heap with room for one byte more than the text, writing from the memory of a process puts
  -- exactly the bytes there, if none of them is 0. The memory of the process is as before, and the
  -- kernel's block for the text is never given back.
  pub sys_write_lem :
      limit ≤ fuel
      → IsHeap s.kernel limit base
      → n < fuel
      → HasRoom s.kernel limit n (size + 1)
      → size + 1 < 2 ^ 64
      → from + size ≤ virtual_offset
      → ((i : ℕ) → i < size → load8 s.kernel.mem (from + i) ≢ 0)
      → (s' : Machine) × (sys_write fuel from size s ≡ some s')
        × (s'.output ≡ s.output ++ chars_from size s.kernel.mem from)
        × ((b : ℕ) → b < virtual_offset → s'.kernel.mem b ≡ s.kernel.mem b)
        × (s'.kernel.free_list ≡ s.kernel.free_list + 17 + size)
  sys_write_lem enough heap rounds room low below visible =
      let (k, alloc, done) =
        kalloc_lem fuel limit base enough s.kernel heap (size + 1) n rounds room in
      let text_kept : (i : ℕ) → i < size → load8 k.mem (from + i) ≡ load8 s.kernel.mem (from + i) =
        λ i h. load8_ext k.mem s.kernel.mem (from + i) (done.user (from + i) (omega arith)) in
      let (copies, outside) =
        memcpy_lem k.mem block from size (inr (omega (arith, heap.base_high, heap.behind))) in
      let m = memcpy k.mem block from size in
      let inside : (i : ℕ)
          → i < size
          → load8 (filled k) (block + i) ≡ load8 s.kernel.mem (from + i) =
        λ i h.
          load8_ext (filled k) m (block + i)
            (store8-outside m (block + size) 0 (block + i) (omega arith))
          ∙ copies i h
          ∙ text_kept i h in
      let ends =
        string_at-chars_from size (filled k) block (λ i h z. visible i h (sym (inside i h) ∙ z))
          (load8-store8_self m (block + size) 0 (omega arith)) in
      (
        put_chars (chars_from size (filled k) block)
            (record s { kernel = record k { mem = filled k } }),
        sys_write_runs k (chars_from size (filled k) block) low alloc ends,
        ap (λ (cs : List ℕ). s.output ++ cs)
            (chars_from-same size (filled k) s.kernel.mem block from inside),
        (λ b h.
            store8-outside m (block + size) 0 b (omega (arith, heap.base_high, heap.behind))
            ∙ outside b (inr (omega (arith, heap.base_high, heap.behind)))
            ∙ done.user b h),
        omega (arith, done.next_list),
      )
