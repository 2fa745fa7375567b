-- ===== src/Tests/Serial.antt =====
-- A serial line that is not always ready: what the theorems on it state there.
use tetra_os.Base.{
  ℕ, ◌+◌, ◌-◌, ◌<◌, ◌≤◌, bit_and, ◌≡◌, refl, Bool, true, false, some, List, [], ◌∷◌, ◌++◌, ◌==◌,
  if◌then◌else◌, arith,
}
use tetra_os.Memory.{Apart}
use tetra_os.Uart.{Uart, uart_init, put_string, read_line}
use tetra_os.Uart.Laws.{View, IsUart}
use tetra_os.Uart.Init.{uart_init_lem}
use tetra_os.Uart.Chars.{IsMoved, put_string_lem}
use tetra_os.Uart.Line.{Matches, read_line-read}
use tetra_os.Syscall.{Machine, read, string_at}
use tetra_os.Syscall.Line.{read_typed}
use tetra_os.Tests.Calls.{typing}

-- After each character the device is not ready at the next read of its status.
record SerialLine : Type 0 where
  control : ℕ
  interrupts : ℕ
  low : ℕ
  high : ℕ
  sent : List ℕ
  arriving : List ℕ
  busy : Bool
  idle : Bool

abbrev reads : Bool → ℕ
reads true = 1
reads false = 0

abbrev line_view : SerialLine → View
line_view s = record {
  line_control = s.control;
  interrupts = s.interrupts;
  divisor_low = s.low;
  divisor_high = s.high;
  sent = s.sent;
  arriving = s.arriving;
  busy = reads s.busy;
  idle = reads s.idle;
}

abbrev empty_bit : Bool → ℕ
empty_bit true = 0
empty_bit false = 0x40

abbrev line_status : Bool → Bool → List ℕ → ℕ
line_status true true cs = 0
line_status true false [] = 0
line_status true false (c ∷ cs) = 1
line_status false true cs = 0x40
line_status false false [] = 0x40
line_status false false (c ∷ cs) = 0x41

abbrev first : List ℕ → ℕ
first [] = 0
first (c ∷ cs) = c

abbrev others : List ℕ → List ℕ
others [] = []
others (c ∷ cs) = cs

abbrev line_get : SerialLine → ℕ → ℕ × SerialLine
line_get s register =
    if register == 5
    then (line_status s.busy s.idle s.arriving, record s { busy = false; idle = false })
    else if register == 3
    then (s.control, s)
    else if register == 1
    then (s.interrupts, s)
    else (first s.arriving, record s { arriving = others s.arriving; idle = true })

abbrev line_put : SerialLine → ℕ → ℕ → SerialLine
line_put s register x =
    if register == 3
    then record s { control = x }
    else if bit_and s.control 0x80 == 0
    then if register == 1
      then record s { interrupts = x }
      else record s { sent = s.sent ++ (x ∷ []); busy = true }
    else if register == 1
    then record s { high = x }
    else record s { low = x }

abbrev line : Uart SerialLine
line = record { get = line_get; put = line_put }

reads-le : (b : Bool) → reads b ≤ 1
reads-le true = omega arith
reads-le false = omega arith

ready : (b : Bool) → reads b - 1 ≡ 0
ready true = refl
ready false = refl

line_status-empty :
    (b i : Bool) (cs : List ℕ) → reads b ≡ 0 → bit_and (line_status b i cs) 0x40 ≡ 0x40
line_status-empty true i cs e = absurd (omega arith)
line_status-empty false true cs e = refl
line_status-empty false false [] e = refl
line_status-empty false false (c ∷ cs) e = refl

line_status-full : (b i : Bool) (cs : List ℕ) → 0 < reads b → bit_and (line_status b i cs) 0x40 ≡ 0
line_status-full true true cs e = refl
line_status-full true false [] e = refl
line_status-full true false (c ∷ cs) e = refl
line_status-full false i cs e = absurd (omega arith)

line_status-there :
    (b i : Bool) (c : ℕ) (cs : List ℕ) → reads i ≡ 0 → bit_and (line_status b i (c ∷ cs)) 1 ≡ 1
line_status-there true true c cs e = absurd (omega arith)
line_status-there true false c cs e = refl
line_status-there false true c cs e = absurd (omega arith)
line_status-there false false c cs e = refl

line_status-away : (b i : Bool) (cs : List ℕ) → 0 < reads i → bit_and (line_status b i cs) 1 ≡ 0
line_status-away true true cs e = refl
line_status-away false true cs e = refl
line_status-away b false cs e = absurd (omega arith)

line_status-nothing : (b i : Bool) → bit_and (line_status b i []) 1 ≡ 0
line_status-nothing true true = refl
line_status-nothing true false = refl
line_status-nothing false true = refl
line_status-nothing false false = refl

line-IsUart : IsUart line line_view 1
line-IsUart = record {
  quick = λ s. reads-le s.busy;
  awake = λ s c cs e. reads-le s.idle;
  get_control = λ s. refl;
  get_control_view = λ s. refl;
  get_interrupts = λ s plain. refl;
  get_interrupts_view = λ s plain. refl;
  put_control = λ s x. refl;
  put_interrupts =
      λ s x plain. (let e : (bit_and s.control 0x80 == 0) ≡ true = ground arith in rw e refl);
  put_low =
      λ s x latched. (let e : (bit_and s.control 0x80 == 0) ≡ false = ground arith in rw e refl);
  put_high =
      λ s x latched. (let e : (bit_and s.control 0x80 == 0) ≡ false = ground arith in rw e refl);
  poll = λ s. rw (ready s.busy, ready s.idle) refl;
  empty = λ s e. line_status-empty s.busy s.idle s.arriving e;
  full = λ s h. line_status-full s.busy s.idle s.arriving h;
  there = λ s c cs e z. rw e (line_status-there s.busy s.idle c cs z);
  away = λ s h. line_status-away s.busy s.idle s.arriving h;
  nothing = λ s e. rw e (line_status-nothing s.busy s.idle);
  send = λ s c plain z.
      (let e : (bit_and s.control 0x80 == 0) ≡ true = ground arith in (1, rw e refl));
  receive = λ s c cs plain e z. (1, rw e refl, rw e refl);
}

abbrev quiet_line : SerialLine
quiet_line = record {
  control = 3;
  interrupts = 1;
  low = 3;
  high = 0;
  sent = 62 ∷ [];
  arriving = 108 ∷ 115 ∷ 13 ∷ 120 ∷ [];
  busy = true;
  idle = true;
}

uart_init_lem_example : line_view (uart_init line quiet_line) ≡ record (line_view quiet_line) {
  line_control = 3;
  interrupts = 1;
  divisor_low = 3;
  divisor_high = 0;
}
uart_init_lem_example = uart_init_lem line line_view 1 line-IsUart quiet_line refl

put_string_lem_example :
    (s' : SerialLine) × (put_string line 2 (111 ∷ 107 ∷ []) quiet_line ≡ some s')
    × IsMoved (line_view quiet_line) (line_view s') (111 ∷ 107 ∷ []) []
put_string_lem_example =
    put_string_lem line line_view 1 line-IsUart 2 (111 ∷ 107 ∷ []) quiet_line (omega arith) refl

typed_line :
    (s' : Machine) × (read 20 0x5000 0 typing ≡ some (2, s'))
    × (string_at 20 s'.kernel.mem 0x5000 ≡ some (108 ∷ 115 ∷ []))
    × (s'.output ≡ (62 ∷ []) ++ ((108 ∷ 115 ∷ []) ++ (10 ∷ [])))
    × (s'.input ≡ 120 ∷ [])
    × ((b : ℕ) → Apart 0x5000 (2 + 1) b 1 → s'.kernel.mem b ≡ typing.kernel.mem b)
typed_line =
    read_typed (108 ∷ 115 ∷ []) (120 ∷ []) 20 0x5000 typing refl
      (
        (λ e. omega arith),
        (λ e. omega arith),
        omega arith,
        ((λ e. omega arith), (λ e. omega arith), omega arith, tt),
      )
      (omega arith)

read_line-read_example :
    (w : SerialLine) × (read_line line 2 20 0x5000 0 typing.kernel.mem quiet_line
      ≡ some (2, typed_line.0.kernel.mem, w))
    × Matches typed_line.0 (line_view w)
read_line-read_example =
    read_line-read line line_view 1 line-IsUart 2 (omega arith) 20 0x5000 0 2 typing typed_line.0
      quiet_line (refl, refl, refl) typed_line.1
