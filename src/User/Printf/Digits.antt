-- ===== src/User/Printf/Digits.antt =====
-- The digits that `vprintf` of tlibc/printf.c puts are those of the kernel's.
use tetra_os.Base.{
  ℕ, zero, suc, ◌+◌, ◌/◌, ◌%◌, ◌^◌, ◌<◌, ◌≡◌, refl, sym, ap, ◌∙◌, inl, inr, true, false, Option,
  none, some, List, [], ◌∷◌, map, ltb, ◌==◌, arith, Bool-cases,
}
use tetra_os.Memory.{u32}
use tetra_os.Print.{split, decimal_char, hex_char, mapped, print_decimal, print_hex}
use tetra_os.User.Printf.{
  Buffer, set_char, put, fill, copy_down, put_decimal, with_offset, put_hex, put_text,
}

-- What putting the characters of an output does to a buffer.
abbrev pub after : Buffer → Option (List ℕ) → Option Buffer
after b none = none
after b (some cs) = some (put_text cs b)

-- The characters before `n`, from the last on.
abbrev listed : ℕ → (ℕ → ℕ) → List ℕ
listed zero chars = []
listed (suc n) chars = chars n ∷ listed n chars

listed_set :
    (n index c : ℕ) (chars : ℕ → ℕ)
    → n < suc index
    → listed n (set_char chars index c) ≡ listed n chars
listed_set zero index c chars h = refl
listed_set (suc n) index c chars h =
    let e : (n == index) ≡ false = ground arith in
    rw (e, listed_set n index c chars (omega arith)) refl

-- The outcomes of the kernel's loop and of this one.
abbrev Agree : (ℕ → ℕ) → Option (List ℕ) → Option (ℕ × ℕ × (ℕ → ℕ)) → Type 0
Agree char none none = Unit {0}
Agree char (some (d ∷ ds)) (some (first, index, chars)) =
    (d ≡ first) × (map char ds ≡ listed index chars)
Agree char ds result = ⊥

fill-split :
    (base : ℕ) (char : ℕ → ℕ) (fuel i index : ℕ) (chars : ℕ → ℕ) (digits : List ℕ)
    → map char digits ≡ listed index chars
    → Agree char (split base fuel i digits) (fill base char fuel i index chars)
unfolding split fill
fill-split base char zero i index chars digits same = tt
fill-split base char (suc fuel) i index chars digits same =
    let next = set_char chars index (char (i % base)) in
    let here : (index == index) ≡ true = ground arith in
    let more : map char (i % base ∷ digits) ≡ listed (suc index) next =
      rw (here, listed_set index index (char (i % base)) chars (omega arith))
        (ap (λ (cs : List ℕ). char (i % base) ∷ cs) same) in
    let rest = fill-split base char fuel (i / base) (suc index) next (i % base ∷ digits) more in
    elim (Bool-cases (ltb i base)) [ inl low ↦ rw low (refl, same) | inr high ↦ rw high rest ]

copy_down-listed :
    (char : ℕ → ℕ) (n : ℕ) (chars : ℕ → ℕ) (b : Buffer)
    → copy_down char n chars b ≡ put_text (map char (listed n chars)) b
unfolding copy_down put_text
copy_down-listed char zero chars b = refl
copy_down-listed char (suc n) chars b = copy_down-listed char n chars (put b (char (chars n)))

map_same : (cs : List ℕ) → map (λ (c : ℕ). c) cs ≡ cs
map_same [] = refl
map_same (c ∷ cs) = ap (λ (rest : List ℕ). c ∷ rest) (map_same cs)

decimal_outcome :
    (b : Buffer) (ds : Option (List ℕ)) (result : Option (ℕ × ℕ × (ℕ → ℕ)))
    → Agree decimal_char ds result
    → elim result [
      | none ↦ none
      | some (first, index, chars) ↦ some (copy_down (λ c. c) index chars (put b (first + 48)))
    ]
      ≡ after b (mapped decimal_char ds)
unfolding put_text
decimal_outcome b none none h = refl
decimal_outcome b none (some result) h = elim h [ ]
decimal_outcome b (some []) none h = elim h [ ]
decimal_outcome b (some []) (some result) h = elim h [ ]
decimal_outcome b (some (d ∷ ds)) none h = elim h [ ]
decimal_outcome b (some (d ∷ ds)) (some (first, index, chars)) h =
    rw
      (
        h.0,
        h.1,
        copy_down-listed (λ c. c) index chars (put b (first + 48)),
        map_same (listed index chars),
      )
      refl

hex_outcome :
    (b : Buffer) (ds : Option (List ℕ)) (result : Option (ℕ × ℕ × (ℕ → ℕ)))
    → Agree (λ c. c) ds result
    → elim result [
      | none ↦ none
      | some (first, index, chars) ↦
          some (copy_down with_offset (suc index) (set_char chars index first) b)
    ]
      ≡ after b (mapped hex_char ds)
hex_outcome b none none h = refl
hex_outcome b none (some result) h = elim h [ ]
hex_outcome b (some []) none h = elim h [ ]
hex_outcome b (some []) (some result) h = elim h [ ]
hex_outcome b (some (d ∷ ds)) none h = elim h [ ]
hex_outcome b (some (d ∷ ds)) (some (first, index, chars)) h =
    let here : (index == index) ≡ true = ground arith in
    let digits : listed (suc index) (set_char chars index first) ≡ d ∷ ds =
      rw (here, listed_set index index first chars (omega arith), h.0)
        (ap (λ (cs : List ℕ). first ∷ cs) (sym h.1 ∙ map_same ds)) in
    ap some (
      copy_down-listed with_offset (suc index) (set_char chars index first) b
      ∙ ap (λ (cs : List ℕ). put_text (map with_offset cs) b) digits)

pub put_decimal-print_decimal : (i : ℕ) (b : Buffer) → put_decimal i b ≡ after b (print_decimal i)
unfolding put_decimal print_decimal put_text
put_decimal-print_decimal i b =
    let digits =
      decimal_outcome b (split 10 10 (u32 i) []) (fill 10 (λ last. last + 48) 10 (u32 i) 0 (λ _. 0))
        (fill-split 10 decimal_char 10 (u32 i) 0 (λ _. 0) [] refl) in
    elim (Bool-cases (ltb (u32 i) (2 ^ 31))) [ inl low ↦ rw low digits | inr high ↦ rw high refl ]

pub put_hex-print_hex : (i : ℕ) (b : Buffer) → put_hex i b ≡ after b (print_hex i)
unfolding put_hex print_hex
put_hex-print_hex i b =
    hex_outcome b (split 16 16 (i % 2 ^ 64) []) (fill 16 (λ last. last) 16 (i % 2 ^ 64) 0 (λ _. 0))
      (fill-split 16 (λ c. c) 16 (i % 2 ^ 64) 0 (λ _. 0) [] refl)
