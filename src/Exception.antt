-- ===== src/Exception.antt =====
-- Exceptions in the machine, kernel/exception.cpp. The registers that the handler reads are its
-- parameters; `none` is a system call or a message that does not end.
pub mod Message
pub mod Reach
use tetra_os.Base.{ℕ, Option, none, some, List, [], ◌∷◌, ◌==◌, if◌then◌else◌}
use tetra_os.Print.{Arg, number}
use tetra_os.Log.{exception, log}
use tetra_os.Ext2.{Ext2, Read}
use tetra_os.Syscall.{Machine, SyscallParameters, put_chars, put_log, printf, handle_syscall}

-- A handler leaves by `jump_back_to_userspace`, with the address of the exception and a return value,
-- or stays in its last loop for ever.
pub data Ending : Type 0 where
  returned : ℕ → ℕ → Ending
  stopped : Ending

abbrev pub stop : Option Machine → Option (Ending × Machine)
stop none = none
stop (some s) = some (stopped, s)

-- The message by the cause, for every cause but 8.
unfoldable pub log_cause : ℕ → ℕ → ℕ → Option (List ℕ)
log_cause log_level cause mtval =
    if cause == 0
    then log log_level exception
        (73 ∷ 110 ∷ 115 ∷ 116 ∷ 114 ∷ 117 ∷ 99 ∷ 116 ∷ 105 ∷ 111 ∷ 110 ∷ 32 ∷ 97 ∷ 100 ∷ 100 ∷ 114
          ∷ 101 ∷ 115 ∷ 115 ∷ 32 ∷ 109 ∷ 105 ∷ 115 ∷ 97 ∷ 108 ∷ 105 ∷ 103 ∷ 110 ∷ 101 ∷ 100 ∷ [])
        []
    else if cause == 1
    then log log_level exception
        (73 ∷ 110 ∷ 115 ∷ 116 ∷ 114 ∷ 117 ∷ 99 ∷ 116 ∷ 105 ∷ 111 ∷ 110 ∷ 32 ∷ 97 ∷ 99 ∷ 99 ∷ 101
          ∷ 115 ∷ 115 ∷ 32 ∷ 102 ∷ 97 ∷ 117 ∷ 108 ∷ 116 ∷ [])
        []
    else if cause == 2
    then log log_level exception
        (73 ∷ 108 ∷ 108 ∷ 101 ∷ 103 ∷ 97 ∷ 108 ∷ 32 ∷ 105 ∷ 110 ∷ 115 ∷ 116 ∷ 114 ∷ 117 ∷ 99 ∷ 116
          ∷ 105 ∷ 111 ∷ 110 ∷ [])
        []
    else if cause == 12
    then log log_level exception
        (73 ∷ 110 ∷ 115 ∷ 116 ∷ 114 ∷ 117 ∷ 99 ∷ 116 ∷ 105 ∷ 111 ∷ 110 ∷ 32 ∷ 112 ∷ 97 ∷ 103 ∷ 101
          ∷ 32 ∷ 102 ∷ 97 ∷ 117 ∷ 108 ∷ 116 ∷ 32 ∷ 97 ∷ 116 ∷ 32 ∷ 48 ∷ 120 ∷ 37 ∷ 120 ∷ [])
        (number mtval ∷ [])
    else if cause == 13
    then log log_level exception
        (76 ∷ 111 ∷ 97 ∷ 100 ∷ 32 ∷ 112 ∷ 97 ∷ 103 ∷ 101 ∷ 32 ∷ 102 ∷ 97 ∷ 117 ∷ 108 ∷ 116 ∷ 32 ∷ 97
          ∷ 116 ∷ 32 ∷ 48 ∷ 120 ∷ 37 ∷ 120 ∷ [])
        (number mtval ∷ [])
    else if cause == 15
    then log log_level exception
        (83 ∷ 116 ∷ 111 ∷ 114 ∷ 101 ∷ 47 ∷ 65 ∷ 77 ∷ 79 ∷ 32 ∷ 112 ∷ 97 ∷ 103 ∷ 101 ∷ 32 ∷ 102 ∷ 97
          ∷ 117 ∷ 108 ∷ 116 ∷ 32 ∷ 97 ∷ 116 ∷ 32 ∷ 48 ∷ 120 ∷ 37 ∷ 120 ∷ [])
        (number mtval ∷ [])
    else log log_level exception
        (71 ∷ 111 ∷ 116 ∷ 32 ∷ 97 ∷ 110 ∷ 32 ∷ 117 ∷ 110 ∷ 107 ∷ 110 ∷ 111 ∷ 119 ∷ 110 ∷ 32 ∷ 101
          ∷ 120 ∷ 99 ∷ 101 ∷ 112 ∷ 116 ∷ 105 ∷ 111 ∷ 110 ∷ 58 ∷ 32 ∷ 37 ∷ 105 ∷ [])
        (number cause ∷ [])

-- `ret_value` is what the register `a0` holds after the call.
unfoldable pub machine_exception_handler :
    Ext2 → Read → ℕ → ℕ → SyscallParameters → ℕ → ℕ → ℕ → Machine → Option (Ending × Machine)
unfolding log_cause
machine_exception_handler e read fuel ret_value syscall_params cause mtval mepc s =
    if cause == 8
    then elim (handle_syscall e read fuel syscall_params s) [
      | none ↦ none
      | some s' ↦ some (returned mepc ret_value, s')
    ]
    else stop (put_log (log_cause s.log_level cause mtval) s)

unfoldable supervisor_exception_handler : Machine → Option (Ending × Machine)
supervisor_exception_handler s = stop (
    printf
      (105 ∷ 115 ∷ 32 ∷ 105 ∷ 110 ∷ 32 ∷ 115 ∷ 117 ∷ 112 ∷ 101 ∷ 114 ∷ 118 ∷ 105 ∷ 115 ∷ 111 ∷ 114
        ∷ 32 ∷ 101 ∷ 120 ∷ 99 ∷ 101 ∷ 112 ∷ 116 ∷ 105 ∷ 111 ∷ 110 ∷ 32 ∷ 104 ∷ 97 ∷ 110 ∷ 100 ∷ 108
        ∷ 101 ∷ 114 ∷ 10 ∷ [])
      [] s)
