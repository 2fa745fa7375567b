-- ===== src/Syscall/Served.antt =====
-- Whole system calls keep the heap of the kernel, `handle_syscall` of
-- kernel/syscalls/syscall.cpp.
use tetra_os.Base.{
  ℕ, ◌+◌, ◌≤◌, ◌<◌, ◌≡◌, refl, ◌≢◌, subst, inl, inr, Option, none, some, List, [], ◌∷◌, ap, ◌∙◌,
  ◌==◌, Bool-cases, arith,
}
use tetra_os.Kernel.{virtual_offset}
use tetra_os.Heap.Invariant.{IsHeap}
use tetra_os.Heap.Alloc.{HasRoom}
use tetra_os.Print.{number}
use tetra_os.Log.{syscall, log}
use tetra_os.Ext2.{Ext2, Read}
use tetra_os.Syscall.{
  Machine, SyscallParameters, put_chars, put_log, call_format, read, serve_call, handle_syscall,
}
use tetra_os.Syscall.Kept.{IsServed, IsServed-trans, put-IsServed, and_then-some, aside-IsServed}
use tetra_os.Syscall.Steps.{read-IsServed, write-IsServed, getcwd-IsServed}

-- What the kernel does not check: the buffers of `read` and `getcwd` lie in the memory of the
-- process, and there is room for the text of a write. Opening a file is left out, since the model
-- does not have what the file system takes from the heap for it.
pub record IsAllowed (fuel limit : ℕ) (p : SyscallParameters) (s : Machine) : Type 0 where
  pub buffer : p.a7 ≡ 0 → p.a1 + p.a2 ≤ virtual_offset
  pub room : p.a7 ≡ 1 → (n : ℕ) × (n < fuel) × HasRoom s.kernel limit n (p.a2 + 1)
  pub no_open : p.a7 ≢ 2
  pub path : p.a7 ≡ 79 → p.a0 + fuel ≤ virtual_offset

module _ (e : Ext2) (read_disk : Read) (fuel limit base : ℕ) (enough : limit ≤ fuel) where
  read_outcome :
      (p : SyscallParameters) (s s' : Machine) (o : Option (ℕ × Machine))
      → read p.a2 p.a1 0 s ≡ o
      → elim o [ none ↦ none | some (counter, s1) ↦ some s1 ] ≡ some s'
      → (n : ℕ) × (read p.a2 p.a1 0 s ≡ some (n, s'))
  read_outcome p s s' none same e = cc
  read_outcome p s s' (some (n, s1)) same e = (n, cc)

  serve_call-IsServed :
      (p : SyscallParameters) (s s' : Machine)
      → IsHeap s.kernel limit base
      → IsAllowed fuel limit p s
      → serve_call e read_disk fuel p s ≡ some s'
      → IsServed limit base s s'
  unfolding serve_call
  serve_call-IsServed p s s' v allowed runs = elim (Bool-cases (p.a7 == 0)) [
    | inl is_read ↦
        let is_0 : p.a7 ≡ 0 = ground arith in
        let (n, reads) = read_outcome p s s' (read p.a2 p.a1 0 s) refl (rw is_read at runs) in
        read-IsServed limit base p.a2 p.a1 0 n s s' s.input refl v
          (omega (arith, allowed.buffer is_0)) reads
    | inr not_read ↦ elim (Bool-cases (p.a7 == 1)) [
      | inl is_write ↦
          let (n, rounds, room) = allowed.room (ground arith) in
          write-IsServed limit base fuel n p.a1 p.a2 s s' enough v rounds room
            (rw (not_read, is_write) at runs)
      | inr not_write ↦ elim (Bool-cases (p.a7 == 2)) [
        | inl is_open ↦ absurd (allowed.no_open (ground arith))
        | inr not_open ↦ elim (Bool-cases (p.a7 == 79)) [
          | inl is_getcwd ↦
              getcwd-IsServed limit base fuel p.a0 s s' v (allowed.path (ground arith))
                (rw (not_read, not_write, not_open, is_getcwd) at runs)
          | inr other ↦
              let same : s ≡ s' = cc (rw (not_read, not_write, not_open, other) at runs) in
              subst (IsServed limit base s) same
                (aside-IsServed limit base s v s.input s.next_descriptor)
        ]
      ]
    ]
  ]

  logged :
      (s s1 : Machine) (o : Option (List ℕ))
      → put_log o s ≡ some s1
      → (cs : List ℕ) × (put_chars cs s ≡ s1)
  logged s s1 none e = cc
  logged s s1 (some cs) e = (cs, cc)

  -- Every allowed call that ends keeps the heap of the kernel and its blocks, and takes back nothing
  -- that was put.
  pub handle_syscall-IsServed :
      (p : SyscallParameters) (s s' : Machine)
      → IsHeap s.kernel limit base
      → IsAllowed fuel limit p s
      → handle_syscall e read_disk fuel p s ≡ some s'
      → IsServed limit base s s'
  unfolding handle_syscall
  handle_syscall-IsServed p s s' v allowed runs =
      let (s1, puts, serves) =
        and_then-some (put_log (log s.log_level syscall call_format (number p.a7 ∷ [])) s)
          (serve_call e read_disk fuel p) s' runs in
      let (cs, same) = logged s s1 (log s.log_level syscall call_format (number p.a7 ∷ [])) puts in
      let t = put_chars cs s in
      let served : serve_call e read_disk fuel p t ≡ some s' =
        ap (serve_call e read_disk fuel p) same ∙ serves in
      let allowed_t : IsAllowed fuel limit p t = record {
        buffer = allowed.buffer;
        room = allowed.room;
        no_open = allowed.no_open;
        path = allowed.path;
      } in
      IsServed-trans limit base s t s' (put-IsServed limit base s v cs)
        (serve_call-IsServed p t s' v allowed_t served)
