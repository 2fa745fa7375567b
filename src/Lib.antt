-- ===== src/Lib.antt =====
-- tetraOS: a small operating system for 64-bit RISC-V machines. This library models the memory
-- managers of its kernel, the start and the requests of its virtio devices, the serial line, the lookup
-- of files, the list of processes and the loading of programs, formatted output, the system calls and
-- exceptions, and the heap, the output and the comparison of strings of user
-- programs, and proves that they do what the rest of the system relies on.
--
-- The parts of the kernel and how they interact. `os_start` (kernel/os.cpp) starts the memory
-- managers: first the allocator of physical frames, then paging, which takes two frames for its
-- tables and maps all of physical memory at VIRTUAL_OFFSET, then the heap, which takes a frame,
-- maps it at the heap's first address and writes the first free space there. Afterwards `kalloc`
-- serves every other part: it cuts blocks off the last free space, and takes further frames and
-- maps them when the space is too small. `map_page` itself takes frames for the tables it lacks.
-- Then `os_start` looks for a block device, mounts its file system, puts two files, and submits the
-- shell as the first process and runs it. From there on the kernel is entered by exceptions alone, of
-- which only system calls come back to the process.
--
-- Which file models which part:
--   Memory: bytes by address, with little-endian words of 8 bytes.
--   Kernel: the static variables of kernel/memory/*.cpp and the memory, as one record, and the
--     sequencing of calls that change it.
--   Frames: kernel/memory/physical_allocator.cpp (`get_frame_number`, `allign_address`,
--     `physical_allocator_init`, `kalloc_frame`, `kfree_frame`).
--   Address: kernel/memory/memory.cpp (the parts of an address).
--   Paging: kernel/memory/paging.cpp (`createValidPageTableEntry` as create_valid_page_table_entry,
--     the methods of `PageTable`, `map_page`, `map_page_for_setup`, `paging_init`,
--     `get_physical_address_of_virtual_address`). Paging/Tree says when the tables in memory form a
--     tree of frames that are owned and not shared, and Paging/Walk is the walk of the processor
--     for 48-bit addresses, written from its specification.
--   Heap: kernel/libk/list.cpp and kernel/memory/virtual_allocator.cpp (`FreeSpace`, `kalloc`,
--     `virtual_allocator_init`).
--   Copy: `memset` and `memcpy` of kernel/memory/virtual_allocator.cpp.
--   Virtio: `init` of kernel/drivers/virtio/blk.cpp and console.cpp, on the registers of virtio.h.
--     Virtio/Laws says what the specification promises of a device's registers.
--   Request: `VirtIOBlockDevice::basic_op` with its descriptors. Request/Chain is the walk of the
--     device along the descriptors, written from the specification. Request/Transfer is
--     `VirtIOBlockDevice::read` over it, with the kernel's heap.
--   Console: `get_console_device` of kernel/drivers/virtio/console.cpp.
--   Block: `VirtIOBlockDevice::read` and `get_block_device` of kernel/drivers/virtio/blk.cpp.
--   Ext2: kernel/drivers/ext2.cpp, the construction, the lookup of paths and the reading of files. A
--     string is its characters by position, with a final 0; an inode is the 256 bytes of `EXT2Inode`.
--     Ext2/Disk is the file system over the sectors of a disk.
--   Scheduler: kernel/process/process.cpp and scheduler.cpp, the list of processes.
--   Loader: `Scheduler::submit_new_process` of kernel/process/scheduler.cpp, on the structures of
--     elf.h.
--   Print: `vprintf` of kernel/libk/printf.cpp.
--   Log: `log` of kernel/libk/logging.cpp.
--   User: the C library of programs: User/Malloc is tlibc/malloc.c and User/Printf tlibc/printf.c,
--     whose text User/Printf/Same compares with the kernel's; User/Compare is `strcmp` of
--     tlibc/string.c.
--   Syscall: `handle_syscall` of kernel/syscalls/syscall.cpp, `read` of kernel/libk/read.cpp,
--     `VFS::open_file` of kernel/vfs.cpp and `Path` of kernel/process/process.cpp.
--   Exception: kernel/exception.cpp. Exception/Reach is what a process can do in any order, with the
--     exceptions that it raises and the characters that are typed, as a relation between states.
--   Uart: kernel/UART.cpp, and the loops of kernel/libk/printf.cpp and read.cpp that call it.
--     Uart/Laws says what the data sheet promises of the device's registers; elsewhere, what is typed
--     and what is put are lists of characters, which Uart/Line compares with the device.
--   Boot: the three initialisations of `os_start` in kernel/os.cpp.
--   Start: `os_start` behind `uart_init`, up to its block device, with the lines that
--     `physical_allocator_init` puts.
--   Base, Bits: shared names and arithmetic of bits. Tests: runs and concrete states.
--
-- Integers. A variable of w bits is a natural number, and each operation that can leave its range
-- is followed by `% 2 ^ w` (u64, u32, u16); a difference of unsigned numbers adds 2 ^ w first.
-- Pointers are their addresses. `PhysicalFrame` is an empty class, so adding to a pointer to it
-- adds bytes.
--
-- Memory is one function from the virtual address that the code uses to a byte. The bytes of the
-- direct mapping at VIRTUAL_OFFSET and those at the addresses of the heap and of a process are
-- kept apart: a page of a process takes the bytes of its frame when it is mapped (`show_frame` in
-- Loader), but that a later write to one of them is seen in the other is not modelled. The source
-- has one set of tables for all processes. The modelled code writes through the direct mapping
-- only to tables and flags, and those lie in no frame of another page as long as only frames are
-- in use whose flags have room before the first frame.
--
-- Loops run on fuel, and `none` is a loop that has not ended. The source's search for a free frame
-- has no bound: with fuel for as many rounds as there are frames it ends if one is free. The loop
-- of `kalloc` that maps pages needs one round more than the pages it maps. The loop of `paging_init`
-- has four rounds and one test, five units of fuel. The theorems state what is enough.
--
-- The walk along a path takes one round for each character, and the loops over the list of
-- processes one for each item. The loop that waits for a block device takes one round more than the
-- device takes to answer, the loops over the serial line one more than the device takes until it is
-- ready, and the search of a program's `malloc` one round, as its first item is large.
--
-- Parameters. The state of a virtio device and of the serial line with the reading and writing of
-- their registers; the registers of the processor at an exception; the memory that a block device
-- leaves when it has served a request, and the rounds of waiting until then; the registers of the
-- devices by address; where a file lies once it is read; the address of a new list item; the
-- characters that are typed; the start of a program's heap.
--
-- Bounds of the source that are hypotheses here, or have no result: the 200 characters of the buffer
-- in tlibc/printf.c, the eight group descriptors of the file system, and the one page of a segment
-- that is mapped. A device serves a request whose temporary buffer and header lie in one page each,
-- since a descriptor has one physical address.
--
-- Not modelled: the calls of `log` but those of the exceptions, of the system calls and of the
-- start; the messages of the file system and of the block device, and what they and
-- `VFS::open_file` take from the heap, so that nothing is stated of the heap or the output behind
-- a call of `open`; the rest of `os_start`, behind the search for its block device; boot and trap
-- code in assembly, and with it the calls into the kernel of the C library; the shell; the block
-- that `init_printf` takes for its buffer.
pub mod Base
pub mod Bits
pub mod Memory
pub mod Kernel
pub mod Frames
pub mod Address
pub mod Paging
pub mod Heap
pub mod Boot
pub mod Copy
pub mod Virtio
pub mod Block
pub mod Request
pub mod Console
pub mod Exception
pub mod Ext2
pub mod Scheduler
pub mod Loader
pub mod Print
pub mod Log
pub mod Uart
pub mod User
pub mod Syscall
pub mod Start
mod Tests
