-- ===== src/Tests/System.antt =====
-- Files, processes and printing at concrete inputs.
use tetra_os.Base.{
  ℕ, ◌+◌, ◌*◌, ◌/◌, ◌%◌, ◌^◌, ◌≤◌, ◌<◌, ◌≡◌, refl, ◌≢◌, false, none, some, [], ◌∷◌, length, arith,
  ◌==◌, if◌then◌else◌,
}
use tetra_os.Memory.{Bytes, u32}
use tetra_os.Block.{sectors_of, read, read_lem}
use tetra_os.Ext2.{
  Ext2, i_size, i_block, get_inode_in_dir, get_inode_from_dir, get_root_inode, get_file_size,
  read_file,
}
use tetra_os.Ext2.Spells.{Spells, visit}
use tetra_os.Ext2.Path.{get_inode_from_dir-visit, read_file-visit}
use tetra_os.Scheduler.{ProcessListItem, Scheduler, new_process, run_next_process}
use tetra_os.Scheduler.Append.{Appended, add_new_process-append}
use tetra_os.Scheduler.Run.{run_next_process-ready_of}
use tetra_os.Print.{number, vprintf}

-- A disk whose byte `i` is `i` modulo 251.
abbrev striped_disk : Bytes
striped_disk i = i % 251

read_lem_example :
    (buffer : Bytes) × (read (sectors_of striped_disk) (λ _. 0) 500 20 ≡ some buffer)
    × ((i : ℕ) → 500 % 512 + i < (20 / 512 + 1) * 512 → buffer i ≡ striped_disk (2 ^ 20 + 500 + i))
    × ((i : ℕ) → (20 / 512 + 1) * 512 ≤ 500 % 512 + i → buffer i ≡ 0)
read_lem_example = read_lem striped_disk (λ _. 0) 500 20 (omega arith)

-- A file system, over a device that reads zeros everywhere.
abbrev small_system : Ext2
small_system = record { block_size = 1024; inodes_per_group = 8; inode_table = λ _. 5 }

-- "/a/b" as a string.
abbrev small_path : ℕ → ℕ
small_path i =
    if i == 0 then 47 else if i == 1 then 97 else if i == 2 then 47 else if i == 3 then 98 else 0

one_char : (c i : ℕ) → c ≢ 0 → c ≢ 47 → (at : ℕ → ℕ) → at 0 ≡ c → i < 1 → (at i ≢ 0) × (at i ≢ 47)
one_char c i a b at e h = let first : i ≡ 0 = omega arith in rw first (rw e (a, b))

small_path-Spells : Spells small_path 1 (1 ∷ 1 ∷ []) false
small_path-Spells = (
  omega arith,
  (λ i h. one_char 97 i (λ e. omega arith) (λ e. omega arith) (λ x. small_path (1 + x)) refl h),
  refl,
  (
    omega arith,
    (λ i h. one_char 98 i (λ e. omega arith) (λ e. omega arith) (λ x. small_path (3 + x)) refl h),
    refl,
  ),
)

-- As an inode, a directory; as a directory's block, the entry "a" again and again.
abbrev small_block : Bytes
small_block i = if i == 1 then 0x40 else if i == 6 then 1 else if i == 8 then 97 else 0

abbrev small_read : ℕ → ℕ → Bytes
small_read offset length = small_block

get_inode_from_dir-visit_example :
    get_inode_from_dir small_system small_read 6 small_block small_path
    ≡ some (visit (get_inode_in_dir small_system small_read) small_path 1 (1 ∷ 1 ∷ []) small_block)
get_inode_from_dir-visit_example =
    get_inode_from_dir-visit small_system small_read 6 small_block small_path 1 (1 ∷ []) false refl
      small_path-Spells (omega arith) (omega arith)

read_file-visit_example :
    let inode =
      (visit
        (get_inode_in_dir small_system small_read)
        small_path
        1
        (1 ∷ 1 ∷ [])
        (get_root_inode small_system small_read)).1 in
    (get_file_size small_system small_read 6 small_path ≡ some (i_size inode))
    × (read_file small_system small_read 6 small_path 12
        ≡ some (small_read (u32 (1024 * i_block inode 0)) 12))
read_file-visit_example =
    read_file-visit small_system small_read 6 small_path 1 (1 ∷ []) false 12 refl small_path-Spells
      (omega arith) (omega arith)

abbrev first_item : ProcessListItem
first_item = record { next = 0; prev = 0; process = new_process 0 0x1_0000 0x10_0fa0 0x2_0000 }

-- A scheduler with one process, whose item lies at 4096.
abbrev one_process : Scheduler
one_process = record {
  next_id = 1;
  first_process = 4096;
  current_process = none;
  items = λ _. first_item;
}

add_new_process-append_example :
    Appended one_process 8192
      (new_process 1 0x3_0000 0x10_0fa0 0x4_0000)
      (omega arith)
      1
      (4096 ∷ [])
add_new_process-append_example =
    add_new_process-append one_process 8192 (new_process 1 0x3_0000 0x10_0fa0 0x4_0000)
      (omega arith) 1 (4096 ∷ []) (omega arith) ((λ e. omega arith), tt)
      (refl, (λ e. omega arith), refl)

run_next_process-ready_of_example :
    run_next_process 2 one_process
    ≡ some (first_item.process, record one_process { current_process = some first_item.process })
run_next_process-ready_of_example =
    run_next_process-ready_of 2 one_process (4096 ∷ []) first_item.process (omega arith)
      (refl, (λ e. omega arith), refl) refl

hex_of_255 : vprintf (37 ∷ 120 ∷ []) (number 255 ∷ []) ≡ some (70 ∷ 70 ∷ [])
unfolding vprintf
hex_of_255 = refl
