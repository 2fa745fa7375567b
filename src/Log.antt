-- ===== src/Log.antt =====
-- Messages by level, kernel/libk/logging.cpp. A string is the list of its characters.
use tetra_os.Base.{
  ℕ, bit_and, ◌≡◌, refl, sym, ap, ◌∙◌, false, Option, some, List, [], ◌∷◌, ◌++◌, append_nil, ◌==◌,
  if◌then◌else◌,
}
use tetra_os.Print.{Arg, before, vprintf}
use tetra_os.Print.Text.{HasNoPercent, vprintf-before}

pub data LogLevel : Type 0 where
  debug : LogLevel
  paging : LogLevel
  virtual_memory : LogLevel
  physical_memory : LogLevel
  system : LogLevel
  error : LogLevel
  virtio : LogLevel
  warning : LogLevel
  fs : LogLevel
  process : LogLevel
  exception : LogLevel
  syscall : LogLevel

abbrev pub number_of : LogLevel → ℕ
number_of debug = 1
number_of paging = 2
number_of virtual_memory = 4
number_of physical_memory = 8
number_of system = 16
number_of error = 32
number_of virtio = 64
number_of warning = 128
number_of fs = 256
number_of process = 512
number_of exception = 1024
number_of syscall = 2048

unfoldable pub prefix : LogLevel → List ℕ
prefix debug = 91 ∷ 68 ∷ 69 ∷ 66 ∷ 85 ∷ 71 ∷ 93 ∷ []
prefix paging = 91 ∷ 80 ∷ 65 ∷ 71 ∷ 73 ∷ 78 ∷ 71 ∷ 93 ∷ []
prefix virtual_memory = 91 ∷ 86 ∷ 77 ∷ 69 ∷ 77 ∷ 93 ∷ []
prefix physical_memory = 91 ∷ 80 ∷ 77 ∷ 69 ∷ 77 ∷ 93 ∷ []
prefix system = 91 ∷ 83 ∷ 89 ∷ 83 ∷ 84 ∷ 69 ∷ 77 ∷ 93 ∷ []
prefix error =
    27 ∷ 91 ∷ 51 ∷ 49 ∷ 109 ∷ 91 ∷ 69 ∷ 82 ∷ 82 ∷ 79 ∷ 82 ∷ 93 ∷ 27 ∷ 91 ∷ 51 ∷ 55 ∷ 109 ∷ []
prefix virtio = 91 ∷ 86 ∷ 73 ∷ 82 ∷ 84 ∷ 73 ∷ 79 ∷ 93 ∷ []
prefix warning =
    27 ∷ 91 ∷ 51 ∷ 51 ∷ 109 ∷ 91 ∷ 87 ∷ 65 ∷ 82 ∷ 78 ∷ 93 ∷ 27 ∷ 91 ∷ 51 ∷ 55 ∷ 109 ∷ []
prefix fs = 91 ∷ 70 ∷ 83 ∷ 93 ∷ []
prefix process = 91 ∷ 80 ∷ 82 ∷ 79 ∷ 67 ∷ 69 ∷ 83 ∷ 83 ∷ 93 ∷ []
prefix exception =
    27 ∷ 91 ∷ 51 ∷ 49 ∷ 109 ∷ 91 ∷ 69 ∷ 88 ∷ 67 ∷ 69 ∷ 80 ∷ 84 ∷ 73 ∷ 79 ∷ 78 ∷ 93 ∷ 27 ∷ 91 ∷ 51
    ∷ 55 ∷ 109 ∷ []
prefix syscall = 91 ∷ 83 ∷ 89 ∷ 83 ∷ 67 ∷ 65 ∷ 76 ∷ 76 ∷ 93 ∷ []

-- The characters that `log` puts, for the levels that are set.
unfoldable pub log : ℕ → LogLevel → List ℕ → List Arg → Option (List ℕ)
unfolding vprintf prefix
log log_level level fmt args =
    let line =
      before (vprintf (prefix level) [])
        (before (vprintf (32 ∷ []) []) (before (vprintf fmt args) (vprintf (10 ∷ []) []))) in
    if bit_and log_level (number_of level) == 0 then some [] else line

prefix-vprintf : (level : LogLevel) → vprintf (prefix level) [] ≡ some (prefix level)
unfolding vprintf prefix
prefix-vprintf debug = refl
prefix-vprintf paging = refl
prefix-vprintf virtual_memory = refl
prefix-vprintf physical_memory = refl
prefix-vprintf system = refl
prefix-vprintf error = refl
prefix-vprintf virtio = refl
prefix-vprintf warning = refl
prefix-vprintf fs = refl
prefix-vprintf process = refl
prefix-vprintf exception = refl
prefix-vprintf syscall = refl

text-vprintf :
    (chars : List ℕ) (args : List Arg) → HasNoPercent chars → vprintf chars args ≡ some chars
unfolding vprintf
text-vprintf chars args h =
    ap (λ (fmt : List ℕ). vprintf fmt args) (sym (append_nil chars))
    ∙ vprintf-before chars [] args h
    ∙ ap some (append_nil chars)

-- A message without conversions is put as one line, behind its prefix and a space, if its level is
-- set; otherwise nothing is put.
pub log_lem :
    (log_level : ℕ) (level : LogLevel) (chars : List ℕ) (args : List Arg)
    → HasNoPercent chars
    → log log_level level chars args ≡ (
        if bit_and log_level (number_of level) == 0
        then some []
        else some (prefix level ++ (32 ∷ (chars ++ (10 ∷ [])))))
unfolding log vprintf
log_lem log_level level chars args h =
    rw (prefix-vprintf level) (rw (text-vprintf chars args h) refl)

pub log_runs :
    (log_level : ℕ) (level : LogLevel) (fmt : List ℕ) (args : List Arg) (out : List ℕ)
    → (bit_and log_level (number_of level) == 0) ≡ false
    → vprintf fmt args ≡ some out
    → log log_level level fmt args ≡ some (prefix level ++ (32 ∷ (out ++ (10 ∷ []))))
unfolding log vprintf
log_runs log_level level fmt args out set e = rw (prefix-vprintf level) (rw (e, set) refl)
