-- ===== src/Syscall.antt =====
-- System calls, `handle_syscall` of kernel/syscalls/syscall.cpp, with `read` of
-- kernel/libk/read.cpp, `VFS::open_file` of kernel/vfs.cpp and `Path` of
-- kernel/process/process.cpp. What is typed is the list of characters that are still to come, and
-- the output the list of those that were put. What `open` takes from the heap, in the file system and
-- for its inode, is left out, and so are the messages of the file system.
pub mod Announce
pub mod Line
pub mod Write
pub mod Dispatch
pub mod Kept
pub mod Steps
pub mod Served
pub mod Directory
use tetra_os.Base.{
  ℕ, zero, suc, ◌+◌, ◌%◌, ◌^◌, Bool, Option, none, some, List, [], ◌∷◌, ◌++◌, ◌==◌, if◌then◌else◌,
}
use tetra_os.Memory.{Bytes, u64, load8, store8}
use tetra_os.Copy.{memcpy}
use tetra_os.Kernel.{Kernel}
use tetra_os.Heap.{kalloc}
use tetra_os.Print.{Arg, number, text, vprintf}
use tetra_os.Log.{syscall, log}
use tetra_os.Ext2.{Ext2, Read, string_length, get_root_inode, get_inode_from_dir}

-- `log_level` is the static variable of kernel/libk/logging.cpp; `open_files` of `VFS` is never used.
pub record Machine : Type 0 where
  pub kernel : Kernel
  pub input : List ℕ
  pub output : List ℕ
  pub log_level : ℕ
  pub next_descriptor : ℕ
  pub current_working_directory : ℕ

-- The parameters that are used.
pub record SyscallParameters : Type 0 where
  pub a0 : ℕ
  pub a1 : ℕ
  pub a2 : ℕ
  pub a7 : ℕ

abbrev pub put_chars : List ℕ → Machine → Machine
put_chars chars s = record s { output = s.output ++ chars }

abbrev pub set_mem : Bytes → Machine → Machine
set_mem m s = record s { kernel = record s.kernel { mem = m } }

unfoldable pub printf : List ℕ → List Arg → Machine → Option Machine
printf fmt args s = elim (vprintf fmt args) [ none ↦ none | some chars ↦ some (put_chars chars s) ]

-- The loop of `read`, with the characters that still fit. `none` is waiting for ever. The result is
-- the number of characters without the end of the line.
unfoldable pub read : ℕ → ℕ → ℕ → Machine → Option (ℕ × Machine)
read zero buffer counter s = some (counter, s)
read (suc rest) buffer counter s = elim s.input [
  | [] ↦ none
  | c ∷ input ↦
      let typed = record s { input = input } in
      let more =
        read rest buffer (counter + 1)
          (set_mem (store8 typed.kernel.mem (buffer + counter) c) (put_chars (c ∷ []) typed)) in
      if c == 13
      then some (
        counter,
        put_chars (10 ∷ []) (set_mem (store8 typed.kernel.mem (buffer + counter) 0) typed),
      )
      else more
]

-- The string at an address, on fuel.
unfoldable pub string_at : ℕ → Bytes → ℕ → Option (List ℕ)
string_at zero m a = none
string_at (suc fuel) m a =
    let rest : Option (List ℕ) = elim (string_at fuel m (a + 1)) [
      | none ↦ none
      | some cs ↦ some (load8 m a ∷ cs)
    ] in
    if load8 m a == 0 then some [] else rest

-- Writing: the characters are copied to a block, with a final 0, and put as a string.
unfoldable pub sys_write : ℕ → ℕ → ℕ → Machine → Option Machine
unfolding printf string_at
sys_write fuel from size s = elim (kalloc fuel (u64 (size + 1)) s.kernel) [
  | none ↦ none
  | some (buffer, k) ↦
      let m = store8 (memcpy k.mem buffer from size) (buffer + size) 0 in
      elim (string_at (size + 1) m buffer) [
        | none ↦ none
        | some chars ↦
            printf (37 ∷ 115 ∷ []) (text chars ∷ []) (record s { kernel = record k { mem = m } })
      ]
]

-- `VFS::open_file`: the inode that is found is not kept, and the descriptor that is counted is not
-- the result.
unfoldable pub open_file : Ext2 → Read → ℕ → (ℕ → ℕ) → Machine → Option (ℕ × Machine)
open_file e read fuel path s = elim (get_inode_from_dir e read fuel (get_root_inode e read) path) [
  | none ↦ none
  | some found ↦ some (3, record s { next_descriptor = u64 (s.next_descriptor + 1) })
]

abbrev pub chars_at : Bytes → ℕ → ℕ → ℕ
chars_at m a i = load8 m (a + i)

-- The constructor of `Path`: a copy without the final 0.
unfoldable new_path : ℕ → ℕ → Kernel → Option (ℕ × Kernel)
new_path fuel path k = elim (string_length fuel (chars_at k.mem path) 0) [
  | none ↦ none
  | some size ↦ elim (kalloc fuel size k) [
    | none ↦ none
    | some (path_buffer, k') ↦
        some (path_buffer, record k' { mem = memcpy k'.mem path_buffer path size })
  ]
]

abbrev pub and_then : Option Machine → (Machine → Option Machine) → Option Machine
and_then none next = none
and_then (some s) next = next s

-- `Path::copy_into`.
unfoldable pub copy_into : ℕ → ℕ → ℕ → Machine → Option Machine
unfolding printf
copy_into fuel path_string buffer s =
    and_then (printf (99 ∷ 111 ∷ 112 ∷ 121 ∷ 105 ∷ 110 ∷ 103 ∷ 10 ∷ []) [] s) (λ s1.
      elim (string_length fuel (chars_at s1.kernel.mem path_string) 0) [
        | none ↦ none
        | some size ↦
            and_then
              (printf (115 ∷ 105 ∷ 122 ∷ 101 ∷ 58 ∷ 32 ∷ 37 ∷ 105 ∷ 10 ∷ []) (number size ∷ []) s1)
              (λ s2. some (set_mem (memcpy s2.kernel.mem buffer path_string size) s2))
      ])

unfoldable pub sys_getcwd : ℕ → ℕ → Machine → Option Machine
unfolding copy_into
sys_getcwd fuel buffer s =
    and_then
      (printf
        (103 ∷ 111 ∷ 116 ∷ 32 ∷ 103 ∷ 101 ∷ 116 ∷ 99 ∷ 119 ∷ 100 ∷ 32 ∷ 115 ∷ 121 ∷ 115 ∷ 99 ∷ 97
          ∷ 108 ∷ 108 ∷ 10 ∷ [])
        [] s)
      (λ s1. and_then (printf (97 ∷ 10 ∷ []) [] s1) (λ s2.
        and_then (printf (98 ∷ 10 ∷ []) [] s2) (λ s3. and_then (printf (99 ∷ 10 ∷ []) [] s3) (λ s4.
          and_then (copy_into fuel s4.current_working_directory buffer s4)
            (λ s5. printf (100 ∷ 10 ∷ []) [] s5)))))

abbrev pub put_log : Option (List ℕ) → Machine → Option Machine
put_log none s = none
put_log (some chars) s = some (put_chars chars s)

-- The switch over the number of the call. The file descriptor of a call is not looked at, and no
-- result is passed on.
unfoldable pub serve_call : Ext2 → Read → ℕ → SyscallParameters → Machine → Option Machine
unfolding read sys_write open_file sys_getcwd
serve_call e read_disk fuel p s =
    let do_read : Option Machine = elim (read p.a2 p.a1 0 s) [
      | none ↦ none
      | some (counter, s') ↦ some s'
    ] in
    let do_open : Option Machine =
      and_then
        (printf (115 ∷ 121 ∷ 115 ∷ 99 ∷ 97 ∷ 108 ∷ 108 ∷ 32 ∷ 111 ∷ 112 ∷ 101 ∷ 110 ∷ 10 ∷ []) [] s)
        (λ s1. elim (open_file e read_disk fuel (chars_at s1.kernel.mem p.a0) s1) [
          | none ↦ none
          | some (descriptor, s2) ↦ some s2
        ]) in
    if p.a7 == 0
    then do_read
    else if p.a7 == 1
    then sys_write fuel p.a1 p.a2 s
    else if p.a7 == 2
    then do_open
    else if p.a7 == 79
    then sys_getcwd fuel p.a0 s
    else some s

-- "Handling system call with parameter %i".
abbrev pub call_format : List ℕ
call_format =
    72 ∷ 97 ∷ 110 ∷ 100 ∷ 108 ∷ 105 ∷ 110 ∷ 103 ∷ 32 ∷ 115 ∷ 121 ∷ 115 ∷ 116 ∷ 101 ∷ 109 ∷ 32 ∷ 99
    ∷ 97 ∷ 108 ∷ 108 ∷ 32 ∷ 119 ∷ 105 ∷ 116 ∷ 104 ∷ 32 ∷ 112 ∷ 97 ∷ 114 ∷ 97 ∷ 109 ∷ 101 ∷ 116 ∷ 101
    ∷ 114 ∷ 32 ∷ 37 ∷ 105 ∷ []

unfoldable pub handle_syscall : Ext2 → Read → ℕ → SyscallParameters → Machine → Option Machine
unfolding serve_call
handle_syscall e read_disk fuel p s =
    and_then (put_log (log s.log_level syscall call_format (number p.a7 ∷ [])) s)
      (λ s1. serve_call e read_disk fuel p s1)
