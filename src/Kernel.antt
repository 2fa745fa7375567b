-- ===== src/Kernel.antt =====
-- The state of the kernel that its memory managers share: the static variables of
-- kernel/memory/physical_allocator.cpp, paging.cpp and virtual_allocator.cpp, and the memory, by
-- the virtual address through which the code reaches it. All of physical memory is seen at
-- `virtual_offset` (kernel/memory.h).
use tetra_os.Base.{ℕ, ◌+◌, ◌^◌, ◌≤◌, ◌<◌, ◌⊎◌, Option, none, some}
use tetra_os.Memory.{Bytes}

pub record Kernel : Type 0 where
  pub mem : Bytes
  pub managed_frames_address_start : ℕ
  pub first_frame_address : ℕ
  pub first_level_table : ℕ
  pub active_table : ℕ
  pub free_list : ℕ
  pub virtual_alloc_end : ℕ

abbrev pub virtual_offset : ℕ
virtual_offset = 0xffff_8000_0000_0000

-- Addresses that are not those of the direct mapping: of a process, or of the heap.
abbrev pub IsOther : ℕ → Type 0
IsOther b = (virtual_offset + 2 ^ 32 ≤ b) ⊎ (b < virtual_offset)

abbrev pub page_size : ℕ
page_size = 4096

-- A call that reads and changes the state. `none` is a loop that has not ended on its fuel.
abbrev pub Call : Type 0 → Type 0
Call A = Kernel → Option (A × Kernel)

abbrev pub pure : {A : Type 0} → A → Call A
pure a k = some (a, k)

infixl 5 ◌>>=◌ ◌>>◌
abbrev pub ◌>>=◌ : {A B : Type 0} → Call A → (A → Call B) → Call B
◌>>=◌ call next k = elim (call k) [ none ↦ none | some (a, k') ↦ next a k' ]

abbrev pub ◌>>◌ : {B : Type 0} → Call (Unit {0}) → Call B → Call B
first >> next = first >>= λ _. next

-- A change of the memory alone.
abbrev pub write : (Bytes → Bytes) → Call (Unit {0})
write change k = some (tt, record k { mem = change k.mem })

abbrev pub read : {A : Type 0} → (Kernel → A) → Call A
read look k = some (look k, k)
