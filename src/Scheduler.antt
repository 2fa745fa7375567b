-- ===== src/Scheduler.antt =====
-- Processes and the list that the scheduler keeps of them, kernel/process/process.cpp and
-- kernel/process/scheduler.cpp. List items are stored by their address, and 0 is the null pointer.
-- A process is its fields; its working directory is left out.
pub mod Chain
pub mod Append
pub mod Run
use tetra_os.Base.{
  ℕ, zero, suc, ◌+◌, ◌^◌, ◌≡◌, Bool, true, false, Option, none, some, ◌==◌, if◌then◌else◌,
}
use tetra_os.Memory.{u64}

pub data ProcessState : Type 0 where
  ready : ProcessState
  blocked : ProcessState

pub record Process : Type 0 where
  pub process_id : ℕ
  pub state : ProcessState
  pub stack_pointer : ℕ
  pub heap_start : ℕ
  pub entry : ℕ

-- The constructor.
abbrev pub new_process : ℕ → ℕ → ℕ → ℕ → Process
new_process id entry stack heap_start = record {
  process_id = id;
  state = ready;
  stack_pointer = stack;
  heap_start = heap_start;
  entry = entry;
}

abbrev pub is_ready : Process → Bool
is_ready process = elim process.state [ ready ↦ true | blocked ↦ false ]

pub record ProcessListItem : Type 0 where
  pub next : ℕ
  pub prev : ℕ
  pub process : Process

pub record Scheduler : Type 0 where
  pub next_id : ℕ
  pub first_process : ℕ
  pub current_process : Option Process
  pub items : ℕ → ProcessListItem

unfoldable pub set_item : (ℕ → ProcessListItem) → ℕ → ProcessListItem → ℕ → ProcessListItem
set_item items at item a = if a == at then item else items a

-- The identifier, and the scheduler with the next one.
abbrev pub get_next_process_id : Scheduler → ℕ × Scheduler
get_next_process_id s = (s.next_id, record s { next_id = u64 (s.next_id + 1) })

-- The loop to the end of the list, on fuel.
unfoldable pub last_item : ℕ → (ℕ → ProcessListItem) → ℕ → Option ℕ
last_item zero items item = none
last_item (suc fuel) items item =
    let rest = last_item fuel items (items item).next in
    if (items item).next == 0 then some item else rest

-- `new_item` is the address that the allocation gives.
unfoldable pub add_new_process : ℕ → ℕ → Process → Scheduler → Option Scheduler
unfolding last_item set_item
add_new_process fuel new_item process s =
    let fresh : ProcessListItem = record { next = 0; prev = 0; process = process } in
    let items = set_item s.items new_item fresh in
    let at_end : Option Scheduler = elim (last_item fuel items s.first_process) [
      | none ↦ none
      | some item ↦
          let linked = set_item items item (record (items item) { next = new_item }) in
          let back = record (linked new_item) { prev = item } in
          some (record s { items = set_item linked new_item back })
    ] in
    if s.first_process == 0
    then some (record s { items = items; first_process = new_item })
    else at_end

-- The search for a process that is ready, on fuel.
unfoldable pub first_ready : ℕ → (ℕ → ProcessListItem) → ℕ → Option Process
first_ready zero items item = none
first_ready (suc fuel) items item =
    let rest = first_ready fuel items (items item).next in
    if is_ready (items item).process then some (items item).process else rest

-- The process that runs next. The jump to it does not come back.
unfoldable pub run_next_process : ℕ → Scheduler → Option (Process × Scheduler)
unfolding first_ready
run_next_process fuel s = elim (first_ready fuel s.items s.first_process) [
  | none ↦ none
  | some process ↦ some (process, record s { current_process = some process })
]
