-- ===== src/Exception/Message.antt =====
-- What the handler of exceptions puts, kernel/exception.cpp.
use tetra_os.Base.{
  ℕ, ◌^◌, ◌<◌, ◌≡◌, refl, ◌≢◌, inl, inr, sym, ap, ◌∙◌, false, Bool-cases, bit_and, Option, none,
  some, List, [], ◌∷◌, ◌++◌, append_nil, map, ◌==◌, arith,
}
use tetra_os.Print.{Arg, number, before, decimal_char, hex_char, print_decimal, print_hex, vprintf}
use tetra_os.Print.Digits.{value, AllBelow, print_decimal_lem, print_hex_lem}
use tetra_os.Print.Text.{HasNoPercent, has_no_percent-HasNoPercent, vprintf-before}
use tetra_os.Log.{exception, number_of, prefix, log, log_runs}
use tetra_os.Ext2.{Ext2, Read}
use tetra_os.Syscall.{Machine, SyscallParameters, put_chars, put_log, handle_syscall}
use tetra_os.Exception.{Ending, returned, stopped, stop, log_cause, machine_exception_handler}

abbrev misaligned_text : List ℕ
misaligned_text =
    73 ∷ 110 ∷ 115 ∷ 116 ∷ 114 ∷ 117 ∷ 99 ∷ 116 ∷ 105 ∷ 111 ∷ 110 ∷ 32 ∷ 97 ∷ 100 ∷ 100 ∷ 114 ∷ 101
    ∷ 115 ∷ 115 ∷ 32 ∷ 109 ∷ 105 ∷ 115 ∷ 97 ∷ 108 ∷ 105 ∷ 103 ∷ 110 ∷ 101 ∷ 100 ∷ []

abbrev access_fault_text : List ℕ
access_fault_text =
    73 ∷ 110 ∷ 115 ∷ 116 ∷ 114 ∷ 117 ∷ 99 ∷ 116 ∷ 105 ∷ 111 ∷ 110 ∷ 32 ∷ 97 ∷ 99 ∷ 99 ∷ 101 ∷ 115
    ∷ 115 ∷ 32 ∷ 102 ∷ 97 ∷ 117 ∷ 108 ∷ 116 ∷ []

abbrev illegal_text : List ℕ
illegal_text =
    73 ∷ 108 ∷ 108 ∷ 101 ∷ 103 ∷ 97 ∷ 108 ∷ 32 ∷ 105 ∷ 110 ∷ 115 ∷ 116 ∷ 114 ∷ 117 ∷ 99 ∷ 116 ∷ 105
    ∷ 111 ∷ 110 ∷ []

abbrev instruction_fault_text : List ℕ
instruction_fault_text =
    73 ∷ 110 ∷ 115 ∷ 116 ∷ 114 ∷ 117 ∷ 99 ∷ 116 ∷ 105 ∷ 111 ∷ 110 ∷ 32 ∷ 112 ∷ 97 ∷ 103 ∷ 101 ∷ 32
    ∷ 102 ∷ 97 ∷ 117 ∷ 108 ∷ 116 ∷ 32 ∷ 97 ∷ 116 ∷ 32 ∷ 48 ∷ 120 ∷ []

abbrev load_fault_text : List ℕ
load_fault_text =
    76 ∷ 111 ∷ 97 ∷ 100 ∷ 32 ∷ 112 ∷ 97 ∷ 103 ∷ 101 ∷ 32 ∷ 102 ∷ 97 ∷ 117 ∷ 108 ∷ 116 ∷ 32 ∷ 97
    ∷ 116 ∷ 32 ∷ 48 ∷ 120 ∷ []

abbrev store_fault_text : List ℕ
store_fault_text =
    83 ∷ 116 ∷ 111 ∷ 114 ∷ 101 ∷ 47 ∷ 65 ∷ 77 ∷ 79 ∷ 32 ∷ 112 ∷ 97 ∷ 103 ∷ 101 ∷ 32 ∷ 102 ∷ 97 ∷ 117
    ∷ 108 ∷ 116 ∷ 32 ∷ 97 ∷ 116 ∷ 32 ∷ 48 ∷ 120 ∷ []

abbrev unknown_text : List ℕ
unknown_text =
    71 ∷ 111 ∷ 116 ∷ 32 ∷ 97 ∷ 110 ∷ 32 ∷ 117 ∷ 110 ∷ 107 ∷ 110 ∷ 111 ∷ 119 ∷ 110 ∷ 32 ∷ 101 ∷ 120
    ∷ 99 ∷ 101 ∷ 112 ∷ 116 ∷ 105 ∷ 111 ∷ 110 ∷ 58 ∷ 32 ∷ []

-- The text for a cause: its name, with the address in hexadecimal digits (each below 16) for a page
-- fault, and the number of a cause without a name in decimal ones (each below 10).
pub data Says (cause mtval : ℕ) : List ℕ → Type 0 where
  misaligned : cause ≡ 0 → Says cause mtval misaligned_text
  access_fault : cause ≡ 1 → Says cause mtval access_fault_text
  illegal : cause ≡ 2 → Says cause mtval illegal_text
  instruction_fault :
      (ds : List ℕ)
      → cause ≡ 12
      → value 16 0 ds ≡ mtval
      → AllBelow 16 ds
      → Says cause mtval (instruction_fault_text ++ map hex_char ds)
  load_fault :
      (ds : List ℕ)
      → cause ≡ 13
      → value 16 0 ds ≡ mtval
      → AllBelow 16 ds
      → Says cause mtval (load_fault_text ++ map hex_char ds)
  store_fault :
      (ds : List ℕ)
      → cause ≡ 15
      → value 16 0 ds ≡ mtval
      → AllBelow 16 ds
      → Says cause mtval (store_fault_text ++ map hex_char ds)
  unknown :
      (ds : List ℕ)
      → cause ≢ 0
      → cause ≢ 1
      → cause ≢ 2
      → cause ≢ 12
      → cause ≢ 13
      → cause ≢ 15
      → value 10 0 ds ≡ cause
      → AllBelow 10 ds
      → Says cause mtval (unknown_text ++ map decimal_char ds)

hex_format :
    (i : ℕ) (out : List ℕ)
    → print_hex i ≡ some out
    → vprintf (37 ∷ 120 ∷ []) (number i ∷ []) ≡ some out
unfolding vprintf
hex_format i out e = rw e (ap some (append_nil out))

decimal_format :
    (i : ℕ) (out : List ℕ)
    → print_decimal i ≡ some out
    → vprintf (37 ∷ 105 ∷ []) (number i ∷ []) ≡ some out
unfolding vprintf
decimal_format i out e = rw e (ap some (append_nil out))

module _ (log_level : ℕ) (set : (bit_and log_level (number_of exception) == 0) ≡ false) where
  abbrev line : List ℕ → Option (List ℕ)
  line chars = some (prefix exception ++ (32 ∷ (chars ++ (10 ∷ []))))

  log_text :
      (chars format : List ℕ) (args : List Arg) (out : List ℕ)
      → HasNoPercent chars
      → vprintf format args ≡ some out
      → log log_level exception (chars ++ format) args ≡ line (chars ++ out)
  log_text chars format args out h e =
      log_runs log_level exception (chars ++ format) args (chars ++ out) set
        (vprintf-before chars format args h ∙ ap (before (some chars)) e)

  log_name : (chars : List ℕ) → HasNoPercent chars → log log_level exception chars [] ≡ line chars
  unfolding vprintf
  log_name chars h =
      ap (λ (fmt : List ℕ). log log_level exception fmt []) (sym (append_nil chars))
      ∙ log_text chars [] [] [] h refl
      ∙ ap line (append_nil chars)

  log_hex :
      (chars : List ℕ) (i : ℕ)
      → HasNoPercent chars
      → i < 2 ^ 64
      → (ds : List ℕ) × (value 16 0 ds ≡ i)
        × AllBelow 16 ds
        × (log log_level exception (chars ++ (37 ∷ 120 ∷ [])) (number i ∷ [])
            ≡ line (chars ++ map hex_char ds))
  log_hex chars i h low =
      let (ds, runs, is, below) = print_hex_lem i low in
      (
        ds,
        is,
        below,
        log_text chars (37 ∷ 120 ∷ []) (number i ∷ []) (map hex_char ds) h
            (hex_format i (map hex_char ds) runs),
      )

  log_decimal :
      (chars : List ℕ) (i : ℕ)
      → HasNoPercent chars
      → i < 2 ^ 31
      → (ds : List ℕ) × (value 10 0 ds ≡ i)
        × AllBelow 10 ds
        × (log log_level exception (chars ++ (37 ∷ 105 ∷ [])) (number i ∷ [])
            ≡ line (chars ++ map decimal_char ds))
  log_decimal chars i h low =
      let (ds, runs, is, below) = print_decimal_lem i low in
      (
        ds,
        is,
        below,
        log_text chars (37 ∷ 105 ∷ []) (number i ∷ []) (map decimal_char ds) h
            (decimal_format i (map decimal_char ds) runs),
      )

  log_cause_lem :
      (cause mtval : ℕ)
      → cause < 2 ^ 31
      → mtval < 2 ^ 64
      → (chars : List ℕ) × Says cause mtval chars × (log_cause log_level cause mtval ≡ line chars)
  unfolding log_cause
  log_cause_lem cause mtval small low = elim (Bool-cases (cause == 0)) [
    | inl e ↦ (
      misaligned_text,
      misaligned (ground arith),
      rw e (log_name misaligned_text (has_no_percent-HasNoPercent misaligned_text refl)),
    )
    | inr e0 ↦ elim (Bool-cases (cause == 1)) [
      | inl e ↦ (
        access_fault_text,
        access_fault (ground arith),
        rw (e0, e)
            (log_name access_fault_text (has_no_percent-HasNoPercent access_fault_text refl)),
      )
      | inr e1 ↦ elim (Bool-cases (cause == 2)) [
        | inl e ↦ (
          illegal_text,
          illegal (ground arith),
          rw (e0, e1, e) (log_name illegal_text (has_no_percent-HasNoPercent illegal_text refl)),
        )
        | inr e2 ↦ elim (Bool-cases (cause == 12)) [
          | inl e ↦
              let here : cause ≡ 12 = ground arith in
              let (ds, is, below, runs) =
                log_hex instruction_fault_text mtval
                  (has_no_percent-HasNoPercent instruction_fault_text refl) low in
              (
                instruction_fault_text ++ map hex_char ds,
                instruction_fault ds here is below,
                rw (e0, e1, e2, e) runs,
              )
          | inr e12 ↦ elim (Bool-cases (cause == 13)) [
            | inl e ↦
                let here : cause ≡ 13 = ground arith in
                let (ds, is, below, runs) =
                  log_hex load_fault_text mtval (has_no_percent-HasNoPercent load_fault_text refl)
                    low in
                (
                  load_fault_text ++ map hex_char ds,
                  load_fault ds here is below,
                  rw (e0, e1, e2, e12, e) runs,
                )
            | inr e13 ↦ elim (Bool-cases (cause == 15)) [
              | inl e ↦
                  let here : cause ≡ 15 = ground arith in
                  let (ds, is, below, runs) =
                    log_hex store_fault_text mtval
                      (has_no_percent-HasNoPercent store_fault_text refl) low in
                  (
                    store_fault_text ++ map hex_char ds,
                    store_fault ds here is below,
                    rw (e0, e1, e2, e12, e13, e) runs,
                  )
              | inr e15 ↦
                  let other : (cause ≢ 0)
                      × (cause ≢ 1)
                      × (cause ≢ 2)
                      × (cause ≢ 12)
                      × (cause ≢ 13)
                      × (cause ≢ 15) =
                    ground arith in
                  let (ds, is, below, runs) =
                    log_decimal unknown_text cause (has_no_percent-HasNoPercent unknown_text refl)
                      small in
                  (
                    unknown_text ++ map decimal_char ds,
                    unknown ds other.0 other.1 other.2 other.3 other.4 other.5 is below,
                    rw (e0, e1, e2, e12, e13, e15) runs,
                  )
            ]
          ]
        ]
      ]
    ]
  ]

-- With the level of exceptions set, an exception that is not a system call, and whose cause is an
-- int that is not negative, puts one line that says it, and the handler stays in its last loop: it
-- never goes back to the process.
pub machine_exception_handler-stopped :
    (e : Ext2) (read : Read) (fuel ret_value : ℕ) (p : SyscallParameters) (cause mtval mepc : ℕ)
    (s : Machine)
    → (bit_and s.log_level (number_of exception) == 0) ≡ false
    → cause ≢ 8
    → cause < 2 ^ 31
    → mtval < 2 ^ 64
    → (chars : List ℕ) × Says cause mtval chars
      × (machine_exception_handler e read fuel ret_value p cause mtval mepc s
          ≡ some (stopped, put_chars (prefix exception ++ (32 ∷ (chars ++ (10 ∷ [])))) s))
unfolding machine_exception_handler
machine_exception_handler-stopped e read fuel ret_value p cause mtval mepc s set other small low =
    let (chars, says, runs) = log_cause_lem s.log_level set cause mtval small low in
    let miss : (cause == 8) ≡ false = ground arith in (chars, says, rw (miss, runs) refl)

stop-stopped :
    (o : Option Machine) (ending : Ending) (s : Machine)
    → stop o ≡ some (ending, s)
    → ending ≡ stopped
stop-stopped none ending s e = cc
stop-stopped (some t) ending s e = cc

returned_call :
    (o : Option Machine) (at value at' value' : ℕ) (s : Machine)
    → elim o as (λ x. Option (Ending × Machine)) [
      | none ↦ none
      | some t ↦ some (returned at value, t)
    ]
      ≡ some (returned at' value', s)
    → (o ≡ some s) × (at' ≡ at) × (value' ≡ value)
returned_call none at value at' value' s e = cc
returned_call (some t) at value at' value' s e = (cc, cc, cc)

-- The handler goes back only from a system call that ends, to the address of the exception.
pub machine_exception_handler-returned :
    (e : Ext2) (read : Read) (fuel ret_value : ℕ) (p : SyscallParameters)
    (cause mtval mepc at value : ℕ) (s s' : Machine)
    → machine_exception_handler e read fuel ret_value p cause mtval mepc s
      ≡ some (returned at value, s')
    → (cause ≡ 8) × (at ≡ mepc) × (handle_syscall e read fuel p s ≡ some s')
unfolding machine_exception_handler
machine_exception_handler-returned e read fuel ret_value p cause mtval mepc at value s s' runs =
    elim (Bool-cases (cause == 8)) [
      | inl hit ↦
          let here : cause ≡ 8 = ground arith in
          let call =
            returned_call (handle_syscall e read fuel p s) mepc ret_value at value s'
              (rw hit at runs) in
          (here, call.1, call.0)
      | inr miss ↦ cc (
          stop-stopped (put_log (log_cause s.log_level cause mtval) s) (returned at value) s'
            (rw miss at runs))
    ]
