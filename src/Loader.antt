-- ===== src/Loader.antt =====
-- The start of a process from a file, `Scheduler::submit_new_process` of
-- kernel/process/scheduler.cpp, on the structures of kernel/process/elf.h. Where the file lies in
-- memory once it is read, and the addresses that `new` gives, are parameters. `set_sum_bit` and
-- `set_spp_zero` change a register of the processor that nothing here reads.
pub mod Page
pub mod Segment
pub mod Write
pub mod Headers
pub mod Program
pub mod Whole
pub mod Start
use tetra_os.Base.{
  ℕ, zero, suc, ◌+◌, ◌-◌, ◌*◌, ◌/◌, ◌%◌, ◌^◌, Option, none, some, ◌==◌, ◌&&◌, ltb, if◌then◌else◌,
}
use tetra_os.Memory.{Bytes, u64, load64}
use tetra_os.Copy.{memcpy}
use tetra_os.Kernel.{Kernel, virtual_offset, page_size, Call, pure, ◌>>=◌, ◌>>◌, write, read}
use tetra_os.Frames.{kalloc_frame}
use tetra_os.Paging.{map_page}
use tetra_os.Ext2.{load16, load32}
use tetra_os.Scheduler.{Process, Scheduler, new_process, get_next_process_id, add_new_process}

-- The fields of `Elf64_Ehdr`, at the address of the file.
abbrev e_entry : Bytes → ℕ → ℕ
e_entry m file = load64 m (file + 24)

abbrev pub e_phoff : Bytes → ℕ → ℕ
e_phoff m file = load64 m (file + 32)

abbrev pub e_phnum : Bytes → ℕ → ℕ
e_phnum m file = load16 m (file + 56)

-- The fields of `Elf64_Phdr`, at the address of the header.
abbrev pub p_type : Bytes → ℕ → ℕ
p_type m header = load32 m header

abbrev pub p_offset : Bytes → ℕ → ℕ
p_offset m header = load64 m (header + 8)

abbrev pub p_vaddr : Bytes → ℕ → ℕ
p_vaddr m header = load64 m (header + 16)

abbrev pub p_filesz : Bytes → ℕ → ℕ
p_filesz m header = load64 m (header + 32)

abbrev pub p_memsz : Bytes → ℕ → ℕ
p_memsz m header = load64 m (header + 40)

abbrev pub size_of_header : ℕ
size_of_header = 56

abbrev pub user_flags : ℕ
user_flags = 0x1f

-- The memory of the process after a page got a frame: at the page it has the bytes that the direct
-- mapping has at the frame.
abbrev pub show_frame : ℕ → ℕ → Bytes → Bytes
show_frame page frame m b =
    if (b / page_size == page / page_size) && ltb b virtual_offset
    then m (virtual_offset + frame + b % page_size)
    else m b

-- A new frame behind a page of the process.
unfoldable pub map_new_frame : ℕ → ℕ → Call (Unit {0})
map_new_frame fuel page = do
  frame ← kalloc_frame fuel
  map_page fuel page frame user_flags
  write (show_frame page frame)

-- The loop over a segment's pages, with the rounds that are left. The address does not move.
unfoldable pub map_segment : ℕ → ℕ → ℕ → Call (Unit {0})
unfolding map_new_frame
map_segment fuel zero address = pure tt
map_segment fuel (suc rounds) address =
    map_new_frame fuel address >> map_segment fuel rounds address

-- The copy of a segment's bytes, whose header is read again. Only the first page of a segment was
-- mapped: `none` is also a copy that leaves it, which faults unless a page of another segment follows.
unfoldable copy_segment : ℕ → ℕ → ℕ → Call (Unit {0})
copy_segment file header to k =
    if ltb page_size (to % page_size + p_filesz k.mem header)
    then none
    else write (λ m. memcpy m to (u64 (file + p_offset m header)) (p_filesz m header)) k

-- One segment that is to be loaded: its pages, and the copy of its bytes.
unfoldable pub load_segment : ℕ → ℕ → ℕ → Call (Unit {0})
unfolding map_segment copy_segment
load_segment fuel file header k =
    let vaddr = p_vaddr k.mem header in
    let start = vaddr - vaddr % page_size in
    (map_segment fuel (p_memsz k.mem header / page_size + 1) start
        >> copy_segment file header (start + vaddr % page_size))
      k

abbrev pub segment_end : Bytes → ℕ → ℕ → ℕ
segment_end m header data_end =
    let end = u64 (p_vaddr m header + p_memsz m header) in
    if ltb data_end end then end else data_end

-- The loop over the program's headers, with those that are left. The result is the end of the
-- highest segment.
unfoldable pub load_segments : ℕ → ℕ → ℕ → ℕ → ℕ → Call ℕ
unfolding load_segment
load_segments fuel file zero header data_end k = some (data_end, k)
load_segments fuel file (suc rounds) header data_end k =
    let next = header + size_of_header in
    let skip = load_segments fuel file rounds next data_end k in
    let load =
      (do
        load_segment fuel file header
        end ← read (λ k1. segment_end k1.mem header data_end)
        load_segments fuel file rounds next end)
        k in
    if p_type k.mem header == 1 then load else skip

abbrev pub stack_page : ℕ
stack_page = 0x10_0000

-- Everything between the reading of the file and the new process, whose heap starts at the result.
unfoldable pub load_program : ℕ → ℕ → Call ℕ
unfolding load_segments map_new_frame
load_program fuel file k =
    (do
      data_end ← load_segments fuel file (e_phnum k.mem file) (u64 (file + e_phoff k.mem file)) 0
      let heap_start = u64 (data_end + page_size - data_end % page_size)
      map_new_frame fuel heap_start
      map_new_frame fuel stack_page
      pure heap_start)
      k

-- The whole call. `read_file` takes a frame that is never used, reads the file and gives its
-- address; `new_item` is the address of the new list item.
unfoldable pub submit_new_process :
    ℕ → Call ℕ → ℕ → Scheduler → Kernel → Option (Scheduler × Kernel)
unfolding load_program
submit_new_process fuel read_file new_item s k = elim ((kalloc_frame fuel >>= λ _. read_file) k) [
  | none ↦ none
  | some (file, k') ↦ elim (load_program fuel file k') [
    | none ↦ none
    | some (heap_start, k'') ↦
        let (id, s') = get_next_process_id s in
        let process = new_process id (e_entry k''.mem file) (stack_page + 4000) heap_start in
        elim (add_new_process fuel new_item process s') [ none ↦ none | some s'' ↦ some (s'', k'') ]
  ]
]
