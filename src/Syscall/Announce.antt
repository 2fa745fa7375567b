-- ===== src/Syscall/Announce.antt =====
-- The line that `handle_syscall` of kernel/syscalls/syscall.cpp logs first.
use tetra_os.Base.{
  ℕ, ◌≡◌, refl, ap, ◌∙◌, inl, inr, Bool-cases, bit_and, some, List, [], ◌∷◌, ◌++◌, ◌==◌,
  if◌then◌else◌,
}
use tetra_os.Print.{number, before, vprintf}
use tetra_os.Print.Text.{has_no_percent-HasNoPercent, vprintf-before}
use tetra_os.Log.{syscall, number_of, prefix, log, log_runs}
use tetra_os.Ext2.{Ext2, Read}
use tetra_os.Syscall.{
  Machine, SyscallParameters, put_chars, call_format, serve_call, handle_syscall,
}

abbrev handling_text : List ℕ
handling_text =
    72 ∷ 97 ∷ 110 ∷ 100 ∷ 108 ∷ 105 ∷ 110 ∷ 103 ∷ 32 ∷ 115 ∷ 121 ∷ 115 ∷ 116 ∷ 101 ∷ 109 ∷ 32 ∷ 99
    ∷ 97 ∷ 108 ∷ 108 ∷ 32 ∷ 119 ∷ 105 ∷ 116 ∷ 104 ∷ 32 ∷ 112 ∷ 97 ∷ 114 ∷ 97 ∷ 109 ∷ 101 ∷ 116 ∷ 101
    ∷ 114 ∷ 32 ∷ []

-- The line for a call with these digits, if the level of system calls is set, and otherwise nothing.
abbrev pub announced : ℕ → List ℕ → List ℕ
announced log_level digits =
    if bit_and log_level (number_of syscall) == 0
    then []
    else prefix syscall ++ (32 ∷ ((handling_text ++ digits) ++ (10 ∷ [])))

log_announced :
    (log_level a7 : ℕ) (digits : List ℕ)
    → vprintf (37 ∷ 105 ∷ []) (number a7 ∷ []) ≡ some digits
    → log log_level syscall call_format (number a7 ∷ []) ≡ some (announced log_level digits)
unfolding log
log_announced log_level a7 digits e =
    elim (Bool-cases (bit_and log_level (number_of syscall) == 0)) [
      | inl unset ↦ rw unset refl
      | inr set ↦
          log_runs log_level syscall call_format (number a7 ∷ []) (handling_text ++ digits) set (
            vprintf-before handling_text (37 ∷ 105 ∷ []) (number a7 ∷ [])
              (has_no_percent-HasNoPercent handling_text refl)
            ∙ ap (before (some handling_text)) e)
          ∙ (rw set refl)
    ]

-- A call puts the line, and is then served.
pub handle_syscall_runs :
    (e : Ext2) (read_disk : Read) (fuel : ℕ) (p : SyscallParameters) (s : Machine) (digits : List ℕ)
    → vprintf (37 ∷ 105 ∷ []) (number p.a7 ∷ []) ≡ some digits
    → handle_syscall e read_disk fuel p s
      ≡ serve_call e read_disk fuel p (put_chars (announced s.log_level digits) s)
unfolding handle_syscall
handle_syscall_runs e read_disk fuel p s digits is =
    rw (log_announced s.log_level p.a7 digits is) refl
