-- ===== src/Print.antt =====
-- `vprintf` of kernel/libk/printf.cpp. A string is the list of its characters, and the output the
-- characters that are put. An argument is what `va_arg` reads.
pub mod Digits
pub mod Text
use tetra_os.Base.{
  ℕ, zero, suc, ◌+◌, ◌-◌, ◌*◌, ◌/◌, ◌%◌, ◌^◌, Bool, ◌||◌, Option, none, some, List, [], ◌∷◌, ◌++◌,
  map, ◌==◌, ltb, if◌then◌else◌,
}
use tetra_os.Memory.{u32}

pub data Arg : Type 0 where
  number : ℕ → Arg
  text : List ℕ → Arg

-- The loop that fills `chars` from the last digit on, on fuel; the digits lie before `digits`.
unfoldable pub split : ℕ → ℕ → ℕ → List ℕ → Option (List ℕ)
split base zero i digits = none
split base (suc fuel) i digits =
    let rest = split base fuel (i / base) (i % base ∷ digits) in
    if ltb i base then some (i ∷ digits) else rest

abbrev pub decimal_char : ℕ → ℕ
decimal_char digit = digit + 48

abbrev pub hex_char : ℕ → ℕ
hex_char digit = digit + (if ltb 9 digit then 65 - 10 else 48)

abbrev pub mapped : (ℕ → ℕ) → Option (List ℕ) → Option (List ℕ)
mapped char none = none
mapped char (some digits) = some (map char digits)

-- `%d` and `%i`: an int is its 32 bits, and a negative one is not divided.
unfoldable pub print_decimal : ℕ → Option (List ℕ)
unfolding split
print_decimal i =
    if ltb (u32 i) (2 ^ 31)
    then mapped decimal_char (split 10 10 (u32 i) [])
    else some ((u32 i + 48) % 256 ∷ [])

-- `%x`.
unfoldable pub print_hex : ℕ → Option (List ℕ)
unfolding split
print_hex i = mapped hex_char (split 16 16 (i % 2 ^ 64) [])

abbrev pub before : Option (List ℕ) → Option (List ℕ) → Option (List ℕ)
before none rest = none
before (some chars) none = none
before (some chars) (some rest) = some (chars ++ rest)

-- A conversion that is not known is dropped with its `%` alone. `none` is a missing argument, or one of
-- another kind.
unfoldable pub vprintf : List ℕ → List Arg → Option (List ℕ)
unfolding print_decimal print_hex
vprintf [] args = some []
vprintf (c ∷ []) args = if c == 37 then some [] else some (c ∷ [])
vprintf (c ∷ d ∷ fmt) [] =
    let skip = vprintf (d ∷ fmt) [] in
    if c == 37
    then if (d == 100) || (d == 105) || (d == 120) || (d == 115) || (d == 99) then none else skip
    else before (some (c ∷ [])) skip
vprintf (c ∷ d ∷ fmt) (number i ∷ args) =
    let skip = vprintf (d ∷ fmt) (number i ∷ args) in
    let rest = vprintf fmt args in
    if c == 37
    then if (d == 100) || (d == 105)
      then before (print_decimal i) rest
      else if d == 120
      then before (print_hex i) rest
      else if d == 115
      then none
      else if d == 99
      then before (some (i % 256 ∷ [])) rest
      else skip
    else before (some (c ∷ [])) skip
vprintf (c ∷ d ∷ fmt) (text chars ∷ args) =
    let skip = vprintf (d ∷ fmt) (text chars ∷ args) in
    let rest = vprintf fmt args in
    if c == 37
    then if (d == 100) || (d == 105) || (d == 120) || (d == 99)
      then none
      else if d == 115
      then before (some chars) rest
      else skip
    else before (some (c ∷ [])) skip
