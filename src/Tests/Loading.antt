-- ===== src/Tests/Loading.antt =====
-- Loading a small program, and copies of memory, at concrete inputs.
use tetra_os.Base.{
  ℕ, ◌+◌, ◌-◌, ◌*◌, ◌%◌, ◌<◌, ◌≡◌, refl, ◌∙◌, true, none, some, ltb, ◌==◌, if◌then◌else◌, arith,
}
use tetra_os.Memory.{Bytes, load8, load64}
use tetra_os.Block.{Registers, virtio_start, virtio_size, virtio_amount}
use tetra_os.Console.{get_console_device, get_console_device-none}
use tetra_os.Kernel.{Kernel}
use tetra_os.Frames.Count.{free_count}
use tetra_os.Paging.Tree.{IsTree}
use tetra_os.Paging.Stable.{heap-IsTree, heap-free_count}
use tetra_os.Loader.{
  p_type, p_offset, p_vaddr, p_filesz, p_memsz, e_phnum, map_segment, load_segment, load_program,
}
use tetra_os.Loader.Page.{user-IsMappable}
use tetra_os.Loader.Segment.{IsSegment, map_segment_lem}
use tetra_os.Loader.Headers.{AllLoadable, pages_of}
use tetra_os.Loader.Program.{IsLoaded, load_segment_lem}
use tetra_os.Loader.Start.{IsStarted, headers_of, load_program_lem}
use tetra_os.Tests.States.{heap_base, empty_state-free_count, paged}

-- A file with one segment: five bytes from 120 on, for address 0x10010, with eight in memory.
abbrev file_bytes : Bytes
file_bytes i =
    if i == 32
    then 64
    else if i == 56
    then 1
    else if i == 64
    then 1
    else if i == 72
    then 120
    else if i == 80
    then 16
    else if i == 82
    then 1
    else if i == 96
    then 5
    else if i == 104
    then 8
    else if ltb i 120
    then 0
    else i % 256

abbrev file : ℕ
file = heap_base + 4096

-- The state of the kernel with the file in memory.
abbrev with_file : Kernel
with_file = record paged.0 {
  mem = λ b. if ltb b heap_base then paged.0.mem b else file_bytes (b - file);
}

with_file-low : (b : ℕ) → b < heap_base → with_file.mem b ≡ paged.0.mem b
with_file-low b h = let e : ltb b heap_base ≡ true = ground arith in rw e refl

with_file-IsTree : IsTree with_file 32
with_file-IsTree =
    heap-IsTree paged.0 32 paged.2.tree with_file.mem paged.0.free_list paged.0.virtual_alloc_end
      with_file-low

with_file-free_count : free_count with_file 32 ≡ 30
with_file-free_count =
    heap-free_count paged.0 32 paged.2.tree with_file.mem paged.0.free_list
      paged.0.virtual_alloc_end with_file-low
    ∙ omega (arith, empty_state-free_count, paged.2.frames_left)

abbrev header : ℕ
header = file + 64

with_file-headers : headers_of with_file file ≡ header
unfolding load64 load8
with_file-headers = refl

with_file-p_type : p_type with_file.mem header ≡ 1
unfolding load8
with_file-p_type = refl

with_file-p_vaddr : p_vaddr with_file.mem header ≡ 0x10010
unfolding load64 load8
with_file-p_vaddr = refl

with_file-p_offset : p_offset with_file.mem header ≡ 120
unfolding load64 load8
with_file-p_offset = refl

with_file-p_filesz : p_filesz with_file.mem header ≡ 5
unfolding load64 load8
with_file-p_filesz = refl

with_file-p_memsz : p_memsz with_file.mem header ≡ 8
unfolding load64 load8
with_file-p_memsz = refl

with_file-e_phnum : e_phnum with_file.mem file ≡ 1
unfolding load8
with_file-e_phnum = refl

one_header : AllLoadable file with_file.mem header 1
one_header = (
  (λ e. (
    omega (arith, with_file-p_vaddr, with_file-p_memsz),
    omega (arith, with_file-p_filesz, with_file-p_memsz),
    omega (arith, with_file-p_offset, with_file-p_filesz),
    omega (arith, with_file-p_vaddr, with_file-p_filesz),
  )),
  tt,
)

one_page : pages_of with_file.mem header 1 ≡ 1
unfolding pages_of
one_page = rw (with_file-p_type, with_file-p_memsz) refl

map_segment_lem_example :
    (k' : Kernel) × (map_segment 32 2 0x10000 with_file ≡ some (tt, k'))
    × IsSegment with_file k' 32 0x10000 2
map_segment_lem_example =
    map_segment_lem 32 0x10000 32 (omega arith) (user-IsMappable 0x10000 (omega arith)) 2 with_file
      with_file-IsTree (omega (arith, with_file-free_count))

load_segment_lem_example :
    (k' : Kernel) × (load_segment 32 file header with_file ≡ some (tt, k'))
    × IsLoaded with_file k' 32 file header
load_segment_lem_example =
    load_segment_lem 32 32 (omega arith) file (omega arith) header with_file with_file-IsTree
      (omega arith) (omega (arith, with_file-p_vaddr, with_file-p_memsz))
      (omega (arith, with_file-p_filesz, with_file-p_memsz))
      (omega (arith, with_file-p_offset, with_file-p_filesz))
      (omega (arith, with_file-p_vaddr, with_file-p_filesz))
      (omega (arith, with_file-p_memsz, with_file-free_count))

headers_loadable :
    (h count : ℕ)
    → h ≡ header
    → count ≡ 1
    → AllLoadable file with_file.mem h count × (pages_of with_file.mem h count ≡ 1)
headers_loadable h count e e' = rw (e, e') (one_header, one_page)

all_headers :
    AllLoadable file with_file.mem (headers_of with_file file) (e_phnum with_file.mem file)
    × (pages_of with_file.mem (headers_of with_file file) (e_phnum with_file.mem file) ≡ 1)
all_headers =
    headers_loadable (headers_of with_file file) (e_phnum with_file.mem file) with_file-headers
      with_file-e_phnum

load_program_lem_example :
    (heap_start : ℕ) × (k' : Kernel) × (load_program 32 file with_file ≡ some (heap_start, k'))
    × IsStarted with_file k' 32 heap_start
load_program_lem_example =
    load_program_lem 32 32 file (omega arith) (omega arith) with_file with_file-IsTree
      (omega (arith, with_file-headers)) all_headers.0
      (omega (arith, all_headers.1, with_file-free_count))

-- Every device is a console of version 2.
abbrev consoles : Registers
consoles address = if (address - virtio_start) % virtio_size == 4 then 2 else 3

consoles-version : (k : ℕ) → k < virtio_amount → consoles (virtio_start + virtio_size * k + 4) ≡ 2
consoles-version k below =
    let e : ((virtio_start + virtio_size * k + 4 - virtio_start) % virtio_size == 4) ≡ true =
      ground arith in
    rw e refl

get_console_device-none_example : get_console_device consoles ≡ none
get_console_device-none_example = get_console_device-none consoles consoles-version
