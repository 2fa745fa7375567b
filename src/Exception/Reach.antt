-- ===== src/Exception/Reach.antt =====
-- What a process can do in any order, with the exceptions that it raises, kernel/exception.cpp and
-- kernel/syscalls/syscall.cpp.
use tetra_os.Base.{ℕ, ◌≤◌, ◌≡◌, some, [], ◌∷◌, ◌++◌}
use tetra_os.Memory.{Bytes}
use tetra_os.Kernel.{virtual_offset}
use tetra_os.Heap.Invariant.{IsHeap}
use tetra_os.Ext2.{Ext2, Read}
use tetra_os.Syscall.{Machine, SyscallParameters, set_mem}
use tetra_os.Syscall.Kept.{IsServed, IsServed-trans, aside-IsServed, user-IsServed}
use tetra_os.Syscall.Served.{IsAllowed, handle_syscall-IsServed}
use tetra_os.Exception.{returned, machine_exception_handler}
use tetra_os.Exception.Message.{machine_exception_handler-returned}

module _ (e : Ext2) (read_disk : Read) (fuel limit base : ℕ) (enough : limit ≤ fuel) where
  -- A key is pressed, the process computes in its own memory, or it raises an exception from which
  -- the handler goes back.
  pub data Step : Machine → Machine → Type 0 where
    typed : (s : Machine) (c : ℕ) → Step s (record s { input = s.input ++ (c ∷ []) })
    computed :
        (s : Machine) (m : Bytes)
        → ((b : ℕ) → virtual_offset ≤ b → m b ≡ s.kernel.mem b)
        → Step s (set_mem m s)
    trapped :
        (p : SyscallParameters) (cause mtval mepc ret_value at value : ℕ) (s s' : Machine)
        → (cause ≡ 8 → IsAllowed fuel limit p s)
        → machine_exception_handler e read_disk fuel ret_value p cause mtval mepc s
          ≡ some (returned at value, s')
        → Step s s'

  pub data Reach (s : Machine) : Machine → Type 0 where
    here : Reach s s
    next : {t u : Machine} → Reach s t → Step t u → Reach s u

  Step-IsServed : {s t : Machine} → Step s t → IsHeap s.kernel limit base → IsServed limit base s t
  Step-IsServed (typed s c) v =
      aside-IsServed limit base s v (s.input ++ (c ∷ [])) s.next_descriptor
  Step-IsServed (computed s m same) v = user-IsServed limit base s v m same
  Step-IsServed (trapped p cause mtval mepc ret_value at value s s' allowed runs) v =
      let (call, back, served) =
        machine_exception_handler-returned e read_disk fuel ret_value p cause mtval mepc at value s
          s' runs in
      handle_syscall-IsServed e read_disk fuel limit base enough p s s' v (allowed call) served

  -- Whatever a process does in its own memory and by the exceptions that it comes back from, and
  -- whatever is typed: as long as it opens no file, the buffers of its calls lie in its own memory
  -- and there is room for the text of each write, the heap of the kernel stays one, the bytes that the heap had used
  -- stay, its free space only moves up, and what was put stays.
  pub Reach-IsServed :
      (s : Machine) {t : Machine} → IsHeap s.kernel limit base → Reach s t → IsServed limit base s t
  Reach-IsServed s v here = aside-IsServed limit base s v s.input s.next_descriptor
  Reach-IsServed s v (next {t} {u} r st) =
      let first = Reach-IsServed s v r in
      IsServed-trans limit base s t u first (Step-IsServed st first.heap)
