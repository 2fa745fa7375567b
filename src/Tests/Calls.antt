-- ===== src/Tests/Calls.antt =====
-- The C library of programs and their system calls at concrete inputs.
use tetra_os.Base.{
  ℕ, ◌+◌, ◌*◌, ◌≤◌, ◌<◌, ◌≡◌, refl, ◌≢◌, true, false, some, [], ◌∷◌, ◌++◌, ltb, ◌==◌, if◌then◌else◌,
  arith,
}
use tetra_os.Memory.{Bytes, Apart, load8, load64, store8, store64}
use tetra_os.Kernel.{virtual_offset}
use tetra_os.Heap.Invariant.{IsHeap}
use tetra_os.Heap.Alloc.{HasRoom}
use tetra_os.Loader.Write.{user-IsHeap, user-get_size}
use tetra_os.Print.{number, text, vprintf}
use tetra_os.Ext2.{Ext2, Read}
use tetra_os.User.Malloc.{UserHeap, malloc_init, malloc, magic}
use tetra_os.User.Malloc.Blocks.{malloc-malloc}
use tetra_os.User.Printf.{user_vprintf}
use tetra_os.User.Printf.Same.{fitting, user_vprintf-vprintf}
use tetra_os.Syscall.Announce.{announced}
use tetra_os.Syscall.Dispatch.{read_call, write_call}
use tetra_os.Syscall.{Machine, SyscallParameters, handle_syscall, string_at}
use tetra_os.Syscall.Write.{chars_from}
use tetra_os.Tests.States.{heap_base, heaped}

-- The heap of a program after its start, at 0x20000.
abbrev started : UserHeap
started = malloc_init 0x2_0000 (λ _. 0)

started-size : load64 started.mem started.first_item ≡ 4096
unfolding malloc_init load64 load8 store64 store8
started-size = refl

started-first : started.first_item ≡ 0x2_0000
unfolding malloc_init
started-first = refl

malloc-malloc_example :
    (h1 : UserHeap) × (h2 : UserHeap) × (malloc 1 200 started ≡ some (started.first_item + 32, h1))
    × (malloc 1 5000 h1 ≡ some (started.first_item + 2 * 32 + 200, h2))
    × (load64 h2.mem started.first_item ≡ magic)
    × (load64 h2.mem (started.first_item + 8) ≡ 200)
    × ((i : ℕ)
        → i < 200
        → h2.mem (started.first_item + 32 + i) ≡ started.mem (started.first_item + 32 + i))
malloc-malloc_example =
    malloc-malloc 1 200 5000 started (omega arith) (omega (arith, started-size)) (omega arith)
      (omega (arith, started-first))

-- "%s=%d\n".
user_vprintf-vprintf_example :
    user_vprintf
      (λ _. 7)
      (37 ∷ 115 ∷ 61 ∷ 37 ∷ 100 ∷ 10 ∷ [])
      (text (97 ∷ 98 ∷ []) ∷ number 420 ∷ [])
    ≡ fitting (vprintf (37 ∷ 115 ∷ 61 ∷ 37 ∷ 100 ∷ 10 ∷ []) (text (97 ∷ 98 ∷ []) ∷ number 420 ∷ []))
user_vprintf-vprintf_example =
    user_vprintf-vprintf (λ _. 7) (37 ∷ 115 ∷ 61 ∷ 37 ∷ 100 ∷ 10 ∷ [])
      (text (97 ∷ 98 ∷ []) ∷ number 420 ∷ [])

-- A disk with blocks of 4096 bytes, in two groups of 100, and its reading.
abbrev small_disk : Bytes
small_disk i =
    if i == 1028
    then 250
    else if i == 1048
    then 2
    else if i == 1056
    then 100
    else if i == 1064
    then 16
    else if i == 4136
    then 9
    else 0

abbrev pub read_disk : Read
read_disk offset size i = small_disk (offset + i)

-- "ls", the end of the line, and a character more.
abbrev pub typing : Machine
typing = record {
  kernel = heaped.0;
  input = 108 ∷ 115 ∷ 13 ∷ 120 ∷ [];
  output = 62 ∷ [];
  log_level = 4016;
  next_descriptor = 3;
  current_working_directory = 0;
}

-- A file system that is not looked at.
abbrev pub no_files : Ext2
no_files = record { block_size = 1024; inodes_per_group = 8; inode_table = λ _. 5 }

abbrev pub call : ℕ → ℕ → SyscallParameters
call a7 size = record { a0 = 0; a1 = 0x5000; a2 = size; a7 = a7 }

read_call_example :
    (s' : Machine) × (handle_syscall no_files read_disk 32 (call 0 20) typing ≡ some s')
    × (string_at 20 s'.kernel.mem 0x5000 ≡ some (108 ∷ 115 ∷ []))
    × (s'.output ≡ (62 ∷ []) ++ (announced 4016 (48 ∷ []) ++ ((108 ∷ 115 ∷ []) ++ (10 ∷ []))))
    × (s'.input ≡ 120 ∷ [])
    × ((b : ℕ) → Apart 0x5000 (2 + 1) b 1 → s'.kernel.mem b ≡ typing.kernel.mem b)
read_call_example =
    read_call no_files read_disk 32 (call 0 20) typing (108 ∷ 115 ∷ []) (120 ∷ []) refl refl
      (
        (λ e. omega arith),
        (λ e. omega arith),
        omega arith,
        ((λ e. omega arith), (λ e. omega arith), omega arith, tt),
      )
      (omega arith)

-- The heap of the kernel, and a process whose memory is not 0.
abbrev pub writing : Machine
writing = record typing {
  kernel = record heaped.0 { mem = λ b. if ltb b virtual_offset then 65 else heaped.0.mem b };
}

abbrev pub writing_mem : Bytes
writing_mem = writing.kernel.mem

writing-kept : (b : ℕ) → virtual_offset ≤ b → writing_mem b ≡ heaped.0.mem b
writing-kept b h = let e : ltb b virtual_offset ≡ false = ground arith in rw e refl

pub writing-visible : (i : ℕ) → i < 100 → load8 writing_mem (0x5000 + i) ≢ 0
unfolding load8
writing-visible i h z =
    let e : ltb (0x5000 + i) virtual_offset ≡ true = ground arith in
    let byte : writing_mem (0x5000 + i) ≡ 65 = rw e refl in absurd (omega (arith, byte, z))

pub writing-IsHeap : IsHeap writing.kernel 32 heap_base
writing-IsHeap = user-IsHeap heaped.0 32 heap_base heaped.2 writing_mem writing-kept

pub writing-HasRoom : HasRoom writing.kernel 32 0 101
writing-HasRoom = record {
  reach = omega (
    arith,
    user-get_size heaped.0 32 heap_base heaped.2 writing_mem writing-kept,
    heaped.2.covers,
    heaped.3,
    heaped.4,
  );
  frames = omega arith;
  addresses = omega (arith, heaped.4);
}

write_call_example :
    (s' : Machine) × (handle_syscall no_files read_disk 32 (call 1 100) writing ≡ some s')
    × (s'.output ≡ (62 ∷ []) ++ (announced 4016 (49 ∷ []) ++ chars_from 100 writing_mem 0x5000))
    × ((b : ℕ) → b < virtual_offset → s'.kernel.mem b ≡ writing_mem b)
    × (s'.kernel.free_list ≡ writing.kernel.free_list + 17 + 100)
write_call_example =
    write_call no_files read_disk 32 (call 1 100) writing 32 heap_base 0 refl (omega arith)
      writing-IsHeap (omega arith) writing-HasRoom (omega arith) (omega arith) writing-visible
