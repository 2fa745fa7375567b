-- ===== src/Syscall/Dispatch.antt =====
-- Whole system calls, `handle_syscall` of kernel/syscalls/syscall.cpp.
use tetra_os.Base.{
  ℕ, ◌+◌, ◌^◌, ◌≤◌, ◌<◌, ◌≡◌, refl, ◌≢◌, ◌∙◌, some, List, [], ◌∷◌, ◌++◌, length, ◌==◌, true, false,
  append_assoc, arith,
}
use tetra_os.Memory.{Apart, load8}
use tetra_os.Kernel.{virtual_offset}
use tetra_os.Heap.Invariant.{IsHeap}
use tetra_os.Heap.Alloc.{HasRoom}
use tetra_os.Ext2.{Ext2, Read}
use tetra_os.Print.{number, vprintf, print_decimal, split}
use tetra_os.Syscall.{
  Machine, SyscallParameters, put_chars, read, string_at, sys_write, serve_call, handle_syscall,
}
use tetra_os.Syscall.Announce.{announced, handle_syscall_runs}
use tetra_os.Syscall.Line.{IsTyped, read_typed}
use tetra_os.Syscall.Write.{chars_from, sys_write_lem}

module _ (e : Ext2) (read_disk : Read) (fuel : ℕ) (p : SyscallParameters) (s : Machine) where
  read_runs :
      (counter : ℕ) (s' : Machine)
      → p.a7 ≡ 0
      → read p.a2 p.a1 0 s ≡ some (counter, s')
      → serve_call e read_disk fuel p s ≡ some s'
  unfolding serve_call
  read_runs counter s' is_0 runs =
      let t : (p.a7 == 0) ≡ true = ground arith in rw t (rw (runs, serve_call) refl)

  write_runs : p.a7 ≡ 1 → serve_call e read_disk fuel p s ≡ sys_write fuel p.a1 p.a2 s
  unfolding serve_call
  write_runs is_1 =
      let t : (p.a7 == 0) ≡ false = ground arith in
      let t' : (p.a7 == 1) ≡ true = ground arith in rw (t, t') refl

  read_number : p.a7 ≡ 0 → vprintf (37 ∷ 105 ∷ []) (number p.a7 ∷ []) ≡ some (48 ∷ [])
  unfolding vprintf print_decimal split
  read_number is_0 = rw is_0 refl

  write_number : p.a7 ≡ 1 → vprintf (37 ∷ 105 ∷ []) (number p.a7 ∷ []) ≡ some (49 ∷ [])
  unfolding vprintf print_decimal split
  write_number is_1 = rw is_1 refl

module _ (e : Ext2) (read_disk : Read) (fuel : ℕ) (p : SyscallParameters) (s : Machine) where
  -- Call 0 reads a typed line that is shorter than the buffer of the process, from whatever file
  -- descriptor: the buffer then holds the line as a string, and the line is put with a new line, behind
  -- the line that the kernel logs. What was typed after it is still to come, and no byte outside the
  -- string is changed.
  pub read_call :
      (line rest : List ℕ)
      → p.a7 ≡ 0
      → s.input ≡ line ++ (13 ∷ rest)
      → IsTyped line
      → length line < p.a2
      → (s' : Machine) × (handle_syscall e read_disk fuel p s ≡ some s')
        × (string_at p.a2 s'.kernel.mem p.a1 ≡ some line)
        × (s'.output ≡ s.output ++ (announced s.log_level (48 ∷ []) ++ (line ++ (10 ∷ []))))
        × (s'.input ≡ rest)
        × ((b : ℕ) → Apart p.a1 (length line + 1) b 1 → s'.kernel.mem b ≡ s.kernel.mem b)
  read_call line rest is_0 typed ok room =
      let logged = announced s.log_level (48 ∷ []) in
      let (s', runs, text, output, input, outside) =
        read_typed line rest p.a2 p.a1 (put_chars logged s) typed ok room in
      (
        s',
        handle_syscall_runs e read_disk fuel p s (48 ∷ []) (read_number e read_disk fuel p s is_0)
            ∙ read_runs e read_disk fuel p (put_chars logged s) (length line) s' is_0 runs,
        text,
        output ∙ append_assoc s.output logged (line ++ (10 ∷ [])),
        input,
        outside,
      )

  -- Call 1, on a heap of the kernel with room for one byte more than the text, puts exactly the bytes
  -- in the memory of the process, if none of them is 0, whatever the file descriptor, behind the line
  -- that the kernel logs. The memory of the process is as before, and the kernel's block for the text
  -- is not given back.
  pub write_call :
      (limit base n : ℕ)
      → p.a7 ≡ 1
      → limit ≤ fuel
      → IsHeap s.kernel limit base
      → n < fuel
      → HasRoom s.kernel limit n (p.a2 + 1)
      → p.a2 + 1 < 2 ^ 64
      → p.a1 + p.a2 ≤ virtual_offset
      → ((i : ℕ) → i < p.a2 → load8 s.kernel.mem (p.a1 + i) ≢ 0)
      → (s' : Machine) × (handle_syscall e read_disk fuel p s ≡ some s')
        × (s'.output
            ≡ s.output ++ (announced s.log_level (49 ∷ []) ++ chars_from p.a2 s.kernel.mem p.a1))
        × ((b : ℕ) → b < virtual_offset → s'.kernel.mem b ≡ s.kernel.mem b)
        × (s'.kernel.free_list ≡ s.kernel.free_list + 17 + p.a2)
  write_call limit base n is_1 enough heap rounds room low below visible =
      let logged = announced s.log_level (49 ∷ []) in
      let (s', runs, output, kept, list) =
        sys_write_lem fuel limit base n p.a1 p.a2 (put_chars logged s) enough heap rounds room low
          below visible in
      (
        s',
        handle_syscall_runs e read_disk fuel p s (49 ∷ []) (write_number e read_disk fuel p s is_1)
            ∙ write_runs e read_disk fuel p (put_chars logged s) is_1
            ∙ runs,
        output ∙ append_assoc s.output logged (chars_from p.a2 s.kernel.mem p.a1),
        kept,
        list,
      )
