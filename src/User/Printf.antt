-- ===== src/User/Printf.antt =====
-- `vprintf` of user programs, tlibc/printf.c: the text goes to a buffer, and from there to `write`.
-- The buffer has 200 characters, which the source does not check: a longer text is written over what
-- lies behind it, and has no result here. Strings and arguments are those of the kernel's `vprintf`.
pub mod Digits
pub mod Same
use tetra_os.Base.{
  ℕ, zero, suc, ◌+◌, ◌-◌, ◌*◌, ◌/◌, ◌%◌, ◌^◌, Bool, ◌||◌, Option, none, some, List, [], ◌∷◌, ◌++◌,
  ◌==◌, ltb, if◌then◌else◌,
}
use tetra_os.Memory.{u32}
use tetra_os.Print.{Arg, number, text}

-- `buffer` and `curr`.
pub record Buffer : Type 0 where
  pub chars : ℕ → ℕ
  pub curr : ℕ

abbrev pub set_char : (ℕ → ℕ) → ℕ → ℕ → ℕ → ℕ
set_char chars index c j = if j == index then c else chars j

abbrev pub put : Buffer → ℕ → Buffer
put b c = record { chars = set_char b.chars b.curr c; curr = suc b.curr }

-- The loop that fills `chars` from the last digit on, on fuel: the first digit, the number of the
-- others, and these.
unfoldable pub fill : ℕ → (ℕ → ℕ) → ℕ → ℕ → ℕ → (ℕ → ℕ) → Option (ℕ × ℕ × (ℕ → ℕ))
fill base char zero i index chars = none
fill base char (suc fuel) i index chars =
    let rest =
      fill base char fuel (i / base) (suc index) (set_char chars index (char (i % base))) in
    if ltb i base then some (i, index, chars) else rest

-- The loop from the character before `index` down to the first.
unfoldable pub copy_down : (ℕ → ℕ) → ℕ → (ℕ → ℕ) → Buffer → Buffer
copy_down char zero chars b = b
copy_down char (suc index) chars b = copy_down char index chars (put b (char (chars index)))

unfoldable pub put_decimal : ℕ → Buffer → Option Buffer
unfolding fill copy_down
put_decimal i b =
    let digits : Option Buffer = elim (fill 10 (λ last. last + 48) 10 (u32 i) 0 (λ _. 0)) [
      | none ↦ none
      | some (first, index, chars) ↦ some (copy_down (λ c. c) index chars (put b (first + 48)))
    ] in
    if ltb (u32 i) (2 ^ 31) then digits else some (put b ((u32 i + 48) % 256))

abbrev pub with_offset : ℕ → ℕ
with_offset c = c + (if ltb 9 c then 65 - 10 else 48)

unfoldable pub put_hex : ℕ → Buffer → Option Buffer
unfolding fill copy_down
put_hex i b = elim (fill 16 (λ last. last) 16 (i % 2 ^ 64) 0 (λ _. 0)) [
  | none ↦ none
  | some (first, index, chars) ↦
      some (copy_down with_offset (suc index) (set_char chars index first) b)
]

unfoldable pub put_text : List ℕ → Buffer → Buffer
put_text [] b = b
put_text (c ∷ cs) b = put_text cs (put b c)

abbrev pub bind : Option Buffer → (Buffer → Option Buffer) → Option Buffer
bind none next = none
bind (some b) next = next b

-- The loop over the format. `none` is a missing argument, or one of another kind.
unfoldable pub put_format : List ℕ → List Arg → Buffer → Option Buffer
unfolding put_decimal put_hex put_text
put_format [] args b = some b
put_format (c ∷ []) args b = if c == 37 then some b else some (put b c)
put_format (c ∷ d ∷ fmt) [] b =
    let skip = put_format (d ∷ fmt) [] b in
    let plain = put_format (d ∷ fmt) [] (put b c) in
    if c == 37
    then if (d == 100) || (d == 105) || (d == 120) || (d == 115) || (d == 99) then none else skip
    else plain
put_format (c ∷ d ∷ fmt) (number i ∷ args) b =
    let skip = put_format (d ∷ fmt) (number i ∷ args) b in
    let plain = put_format (d ∷ fmt) (number i ∷ args) (put b c) in
    let rest = put_format fmt args in
    if c == 37
    then if (d == 100) || (d == 105)
      then bind (put_decimal i b) rest
      else if d == 120
      then bind (put_hex i b) rest
      else if d == 115
      then none
      else if d == 99
      then rest (put b (i % 256))
      else skip
    else plain
put_format (c ∷ d ∷ fmt) (text chars ∷ args) b =
    let skip = put_format (d ∷ fmt) (text chars ∷ args) b in
    let plain = put_format (d ∷ fmt) (text chars ∷ args) (put b c) in
    let rest = put_format fmt args in
    if c == 37
    then if (d == 100) || (d == 105) || (d == 120) || (d == 99)
      then none
      else if d == 115
      then rest (put_text chars b)
      else skip
    else plain

-- The first characters of the buffer.
unfoldable pub contents : ℕ → (ℕ → ℕ) → List ℕ
contents zero chars = []
contents (suc n) chars = contents n chars ++ (chars n ∷ [])

-- The characters that the buffer has place for.
abbrev pub buffer_size : ℕ
buffer_size = 200

-- `vprintf`, with the characters that are written. `none` is also a text that leaves the buffer.
unfoldable pub user_vprintf : (ℕ → ℕ) → List ℕ → List Arg → Option (List ℕ)
unfolding put_format contents
user_vprintf buffer fmt args = elim (put_format fmt args (record { chars = buffer; curr = 0 })) [
  | none ↦ none
  | some b ↦ if ltb buffer_size b.curr then none else some (contents b.curr b.chars)
]
