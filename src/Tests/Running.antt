-- ===== src/Tests/Running.antt =====
-- A process that calls the kernel, exceptions, and strings of a user program.
use tetra_os.Base.{
  ℕ, ◌+◌, ◌<◌, ◌≡◌, refl, false, some, List, [], ◌∷◌, ◌++◌, ◌==◌, ltb, if◌then◌else◌, arith,
}
use tetra_os.Memory.{Bytes, Apart, load8}
use tetra_os.Kernel.{virtual_offset}
use tetra_os.Log.{exception, prefix}
use tetra_os.Syscall.Directory.{getcwd_call}
use tetra_os.Syscall.{SyscallParameters, Machine, put_chars, set_mem, handle_syscall}
use tetra_os.Syscall.Announce.{announced}
use tetra_os.Syscall.Dispatch.{write_call}
use tetra_os.Syscall.Write.{chars_from}
use tetra_os.Syscall.Kept.{IsServed}
use tetra_os.Syscall.Served.{IsAllowed}
use tetra_os.Exception.{returned, stopped, machine_exception_handler}
use tetra_os.Exception.Message.{Says, machine_exception_handler-stopped}
use tetra_os.Exception.Reach.{typed, computed, trapped, here, next, Reach-IsServed}
use tetra_os.User.Compare.{strcmp, Compares, strcmp_lem}
use tetra_os.Tests.States.{heap_base, empty_state}
use tetra_os.Tests.Calls.{
  no_files, read_disk, call, writing, writing_mem, writing-IsHeap, writing-HasRoom, writing-visible,
}
use tetra_os.Base.{none, ◌*◌}
use tetra_os.Block.{Registers, is_block_device, virtio_start, virtio_size, virtio_amount}
use tetra_os.Log.{system, error}
use tetra_os.Heap.Invariant.{IsHeap}
use tetra_os.Start.{Sections, os_start_to_device, booted_text, no_device_text}
use tetra_os.Start.Lines.{log_line, IsLayout}
use tetra_os.Start.Outcomes.{os_start_to_device-none}
use tetra_os.Tests.States.{heap_base-IsBase, small_linker, small_linker-IsLinked}
use tetra_os.Tests.Memory.{small_linker-num_frames}

wrote :
    (s' : Machine) × (handle_syscall no_files read_disk 32 (call 1 100) writing ≡ some s')
    × (s'.output ≡ (62 ∷ []) ++ (announced 4016 (49 ∷ []) ++ chars_from 100 writing_mem 0x5000))
    × ((b : ℕ) → b < virtual_offset → s'.kernel.mem b ≡ writing_mem b)
    × (s'.kernel.free_list ≡ writing.kernel.free_list + 17 + 100)
wrote =
    write_call no_files read_disk 32 (call 1 100) writing 32 heap_base 0 refl (omega arith)
      writing-IsHeap (omega arith) writing-HasRoom (omega arith) (omega arith) writing-visible

writing-IsAllowed : IsAllowed 32 32 (call 1 100) writing
writing-IsAllowed = record {
  buffer = λ e. absurd (omega arith);
  room = λ e. (0, omega arith, writing-HasRoom);
  no_open = λ e. absurd (omega arith);
  path = λ e. absurd (omega arith);
}

wrote-trapped :
    machine_exception_handler no_files read_disk 32 100 (call 1 100) 8 0 0x5100 writing
    ≡ some (returned 0x5100 100, wrote.0)
unfolding machine_exception_handler
wrote-trapped = rw (wrote.1, machine_exception_handler) refl

abbrev typed_after : Machine
typed_after = record wrote.0 { input = wrote.0.input ++ (113 ∷ []) }

-- A call of `write`, a key, and a change of the process's own memory.
Reach-IsServed_example :
    IsServed 32 heap_base writing
      (set_mem (λ b. if ltb b virtual_offset then 7 else typed_after.kernel.mem b) typed_after)
Reach-IsServed_example =
    Reach-IsServed no_files read_disk 32 32 heap_base (omega arith) writing writing-IsHeap (
      next
        (next
          (next here (
            trapped (call 1 100) 8 0 0x5100 100 0x5100 100 writing wrote.0 (λ e. writing-IsAllowed)
              wrote-trapped))
          (typed wrote.0 113))
        (computed typed_after (λ b. if ltb b virtual_offset then 7 else typed_after.kernel.mem b)
          (λ b h. (let e : ltb b virtual_offset ≡ false = ground arith in rw e refl))))

-- A load from an address that is not mapped.
machine_exception_handler-stopped_example :
    (chars : List ℕ) × Says 13 0xdead chars
    × (machine_exception_handler no_files read_disk 32 0 (call 1 100) 13 0xdead 0x5100 writing
        ≡ some (stopped, put_chars (prefix exception ++ (32 ∷ (chars ++ (10 ∷ [])))) writing))
machine_exception_handler-stopped_example =
    machine_exception_handler-stopped no_files read_disk 32 0 (call 1 100) 13 0xdead 0x5100 writing
      refl (omega arith) (omega arith) (omega arith)

-- "ls" at 0, and "lt" at 3.
abbrev words : Bytes
words a =
    if a == 0
    then 108
    else if a == 1
    then 115
    else if a == 3
    then 108
    else if a == 4
    then 116
    else 0

strcmp_lem_example :
    (r : ℕ) × (strcmp 3 words 0 3 ≡ some r) × Compares (108 ∷ 115 ∷ []) (108 ∷ 116 ∷ []) r
strcmp_lem_example =
    strcmp_lem 3 words 0 3 (108 ∷ 115 ∷ []) (108 ∷ 116 ∷ [])
      (unfold load8 in (refl, (λ e. omega (arith, e)), (refl, (λ e. omega (arith, e)), refl)))
      (unfold load8 in (refl, (λ e. omega (arith, e)), (refl, (λ e. omega (arith, e)), refl)))
      (omega arith)

abbrev switched_on : Machine
switched_on = record {
  kernel = empty_state;
  input = [];
  output = [];
  log_level = 4016;
  next_descriptor = 0;
  current_working_directory = 0;
}

-- A machine without devices.
abbrev no_registers : Registers
no_registers a = 0

no_registers-absent :
    (k : ℕ)
    → k < virtio_amount
    → is_block_device no_registers (virtio_start + virtio_size * k) ≡ false
unfolding is_block_device
no_registers-absent k h = refl

abbrev small_sections : Sections
small_sections = record {
  text_start = virtual_offset + 0x8000_0000;
  text_end = virtual_offset + 0x8000_0800;
  rodata_start = virtual_offset + 0x8000_0800;
  rodata_end = virtual_offset + 0x8000_0a00;
  data_start = virtual_offset + 0x8000_0a00;
  data_end = virtual_offset + 0x8000_1000;
  bss_start = virtual_offset + 0x8000_1000;
}

os_start_to_device-none_example :
    (s' : Machine) × (os_start_to_device small_sections small_linker heap_base no_registers 32
        switched_on
      ≡ some (none, s'))
    × IsHeap s'.kernel 32 heap_base
    × (s'.kernel.free_list ≡ heap_base)
    × (lines : List ℕ) × IsLayout small_sections small_linker lines
    × (s'.output ≡ [] ++ (log_line system booted_text ++ (lines ++ log_line error no_device_text)))
os_start_to_device-none_example =
    os_start_to_device-none small_sections small_linker heap_base 32 no_registers switched_on 32
      small_linker-IsLinked (omega arith) (λ b h. refl) (omega arith)
      (omega (arith, small_linker-num_frames)) (omega arith) (omega arith) heap_base-IsBase
      no_registers-absent

-- A process in the directory "/a".
abbrev in_directory : Machine
in_directory = record switched_on {
  kernel = record empty_state {
    mem = λ b. if b == 0x100 then 47 else if b == 0x101 then 97 else 0;
  };
  current_working_directory = 0x100;
}

abbrev getcwd_parameters : SyscallParameters
getcwd_parameters = record { a0 = 0x200; a1 = 0; a2 = 0; a7 = 79 }

getcwd_call_example :
    (s' : Machine) × (handle_syscall no_files read_disk 4 getcwd_parameters in_directory ≡ some s')
    × ((i : ℕ)
        → i < 2
        → load8 s'.kernel.mem (0x200 + i) ≡ load8 in_directory.kernel.mem (0x100 + i))
    × ((b : ℕ) → Apart 0x200 2 b 1 → s'.kernel.mem b ≡ in_directory.kernel.mem b)
getcwd_call_example =
    getcwd_call no_files read_disk 4 getcwd_parameters in_directory (47 ∷ 97 ∷ []) refl
      (omega arith) (omega arith)
      (unfold load8 in (refl, (λ e. omega (arith, e)), (refl, (λ e. omega (arith, e)), refl)))
      (omega arith)
