-- ===== src/Start.antt =====
-- The start of the kernel up to its block device, `os_start` of kernel/os.cpp behind `uart_init`, with
-- the messages of `physical_allocator_init`. The block that holds the object of the device is left out.
pub mod Lines
pub mod Outcomes
use tetra_os.Base.{ℕ, ◌+◌, ◌*◌, Option, none, some, List, [], ◌∷◌, ◌++◌}
use tetra_os.Memory.{u64}
use tetra_os.Kernel.{Kernel}
use tetra_os.Frames.{Linker, num_frames, allign_address}
use tetra_os.Boot.{memory_start}
use tetra_os.Block.{Registers, get_block_device}
use tetra_os.Print.{Arg, number}
use tetra_os.Log.{LogLevel, system, error, log}
use tetra_os.Syscall.{Machine, put_log, and_then}

-- The symbols of the linker script that are only put.
pub record Sections : Type 0 where
  pub text_start : ℕ
  pub text_end : ℕ
  pub rodata_start : ℕ
  pub rodata_end : ℕ
  pub data_start : ℕ
  pub data_end : ℕ
  pub bss_start : ℕ

-- The levels SYSCALL, EXCEPTION, SYSTEM, ERROR, WARNING, PROCESS and FS.
abbrev pub log_levels : ℕ
log_levels = 4016

abbrev pub put_message : LogLevel → List ℕ → List Arg → Machine → Option Machine
put_message level fmt args s = put_log (log s.log_level level fmt args) s

abbrev pub text_name : List ℕ
text_name = 84 ∷ 69 ∷ 88 ∷ 84 ∷ 58 ∷ 32 ∷ 32 ∷ 32 ∷ 32 ∷ 32 ∷ 32 ∷ 32 ∷ 32 ∷ 32 ∷ 32 ∷ 32 ∷ 32 ∷ []

abbrev pub rodata_name : List ℕ
rodata_name =
    82 ∷ 79 ∷ 68 ∷ 65 ∷ 84 ∷ 65 ∷ 58 ∷ 32 ∷ 32 ∷ 32 ∷ 32 ∷ 32 ∷ 32 ∷ 32 ∷ 32 ∷ 32 ∷ 32 ∷ []

abbrev pub data_name : List ℕ
data_name = 68 ∷ 65 ∷ 84 ∷ 65 ∷ 58 ∷ 32 ∷ 32 ∷ 32 ∷ 32 ∷ 32 ∷ 32 ∷ 32 ∷ 32 ∷ 32 ∷ 32 ∷ 32 ∷ 32 ∷ []

abbrev pub bss_name : List ℕ
bss_name = 66 ∷ 83 ∷ 83 ∷ 58 ∷ 32 ∷ 32 ∷ 32 ∷ 32 ∷ 32 ∷ 32 ∷ 32 ∷ 32 ∷ 32 ∷ 32 ∷ 32 ∷ 32 ∷ 32 ∷ []

abbrev pub heap_name : List ℕ
heap_name = 80 ∷ 72 ∷ 89 ∷ 83 ∷ 73 ∷ 67 ∷ 65 ∷ 76 ∷ 32 ∷ 72 ∷ 69 ∷ 65 ∷ 80 ∷ 58 ∷ 32 ∷ 32 ∷ 32 ∷ []

abbrev pub amount_name : List ℕ
amount_name =
    65 ∷ 109 ∷ 111 ∷ 117 ∷ 110 ∷ 116 ∷ 32 ∷ 111 ∷ 102 ∷ 32 ∷ 102 ∷ 114 ∷ 97 ∷ 109 ∷ 101 ∷ 115 ∷ 32
    ∷ 116 ∷ 104 ∷ 97 ∷ 116 ∷ 32 ∷ 99 ∷ 97 ∷ 110 ∷ 32 ∷ 98 ∷ 101 ∷ 32 ∷ 97 ∷ 108 ∷ 108 ∷ 111 ∷ 99
    ∷ 97 ∷ 116 ∷ 101 ∷ 100 ∷ 32 ∷ 98 ∷ 121 ∷ 32 ∷ 116 ∷ 104 ∷ 101 ∷ 32 ∷ 112 ∷ 104 ∷ 121 ∷ 115 ∷ 105
    ∷ 99 ∷ 97 ∷ 108 ∷ 32 ∷ 97 ∷ 108 ∷ 108 ∷ 111 ∷ 99 ∷ 97 ∷ 116 ∷ 111 ∷ 114 ∷ 58 ∷ 32 ∷ []

abbrev pub location_name : List ℕ
location_name =
    76 ∷ 111 ∷ 99 ∷ 97 ∷ 116 ∷ 105 ∷ 111 ∷ 110 ∷ 32 ∷ 111 ∷ 102 ∷ 32 ∷ 102 ∷ 114 ∷ 97 ∷ 109 ∷ 101
    ∷ 32 ∷ 109 ∷ 97 ∷ 110 ∷ 97 ∷ 103 ∷ 101 ∷ 109 ∷ 101 ∷ 110 ∷ 116 ∷ 58 ∷ 32 ∷ 48 ∷ 120 ∷ []

abbrev pub booted_text : List ℕ
booted_text = 66 ∷ 111 ∷ 111 ∷ 116 ∷ 101 ∷ 100 ∷ 32 ∷ 116 ∷ 111 ∷ 32 ∷ 79 ∷ 83 ∷ []

abbrev pub no_device_text : List ℕ
no_device_text =
    68 ∷ 105 ∷ 100 ∷ 32 ∷ 110 ∷ 111 ∷ 116 ∷ 32 ∷ 102 ∷ 105 ∷ 110 ∷ 100 ∷ 32 ∷ 97 ∷ 32 ∷ 98 ∷ 108
    ∷ 111 ∷ 99 ∷ 107 ∷ 32 ∷ 100 ∷ 101 ∷ 118 ∷ 105 ∷ 99 ∷ 101 ∷ 46 ∷ []

-- A message of a range of addresses, "0x%x -> 0x%x" behind its name.
abbrev pub range_format : List ℕ
range_format = 48 ∷ 120 ∷ 37 ∷ 120 ∷ 32 ∷ 45 ∷ 62 ∷ 32 ∷ 48 ∷ 120 ∷ 37 ∷ 120 ∷ []

abbrev pub put_range : List ℕ → ℕ → ℕ → Machine → Option Machine
put_range name start end s =
    put_message system (name ++ range_format) (number start ∷ number end ∷ []) s

-- The messages of `physical_allocator_init` at levels that are set.
unfoldable pub put_layout : Sections → Linker → Machine → Option Machine
unfolding num_frames allign_address
put_layout c l s = and_then (put_range text_name c.text_start c.text_end s) (λ s1.
    and_then (put_range rodata_name c.rodata_start c.rodata_end s1) (λ s2.
      and_then (put_range data_name c.data_start c.data_end s2) (λ s3.
        and_then (put_range bss_name c.bss_start l.bss_end s3) (λ s4.
          and_then
            (put_range heap_name l.physical_heap_start
              (u64 (l.physical_heap_start + l.physical_heap_size)) s4)
            (λ s5.
              and_then
                (put_message system (amount_name ++ (37 ∷ 105 ∷ [])) (number (num_frames l) ∷ [])
                  s5)
                (λ s6.
                  put_message system (location_name ++ (37 ∷ 120 ∷ []))
                    (number (allign_address l.bss_end 4096) ∷ []) s6))))))

-- The memory managers.
abbrev pub start_memory : Linker → ℕ → ℕ → Machine → Option Machine
start_memory l virtual_heap_start fuel s = elim (memory_start l virtual_heap_start fuel s.kernel) [
  | none ↦ none
  | some (done, k) ↦ some (record s { kernel = k })
]

abbrev pub search_device : Registers → Machine → Option (Option (ℕ × ℕ) × Machine)
search_device registers s = elim (get_block_device registers) [
  | none ↦ elim (put_message error no_device_text [] s) [ none ↦ none | some s' ↦ some (none, s') ]
  | some device ↦ some (some device, s)
]

abbrev pub then_search : Registers → Option Machine → Option (Option (ℕ × ℕ) × Machine)
then_search registers none = none
then_search registers (some s) = search_device registers s

-- The result is where the device is, or `none` for -1, with which `os_start` ends.
unfoldable pub os_start_to_device :
    Sections → Linker → ℕ → Registers → ℕ → Machine → Option (Option (ℕ × ℕ) × Machine)
unfolding put_layout
os_start_to_device c l virtual_heap_start registers fuel s = then_search registers (
    and_then (put_message system booted_text [] (record s { log_level = log_levels }))
      (λ s1. and_then (put_layout c l s1) (λ s2. start_memory l virtual_heap_start fuel s2)))
