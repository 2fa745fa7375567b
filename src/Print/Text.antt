-- ===== src/Print/Text.antt =====
-- Text without conversions in a format of `vprintf`, kernel/libk/printf.cpp.
use tetra_os.Base.{
  ℕ, ◌≡◌, refl, ◌≢◌, ap, ◌∙◌, Bool, true, false, Bool-cases, not, ◌&&◌, inl, inr, Option, none,
  some, List, [], ◌∷◌, ◌++◌, ◌==◌, arith,
}
use tetra_os.Print.{Arg, number, text, before, vprintf}

abbrev pub HasNoPercent : List ℕ → Type 0
HasNoPercent [] = Unit {0}
HasNoPercent (c ∷ cs) = (c ≢ 37) × HasNoPercent cs

abbrev pub has_no_percent : List ℕ → Bool
has_no_percent [] = true
has_no_percent (c ∷ cs) = not (c == 37) && has_no_percent cs

pub has_no_percent-HasNoPercent : (cs : List ℕ) → has_no_percent cs ≡ true → HasNoPercent cs
has_no_percent-HasNoPercent [] e = tt
has_no_percent-HasNoPercent (c ∷ cs) e = elim (Bool-cases (c == 37)) [
  | inl hit ↦ cc (rw hit at e)
  | inr miss ↦ (ground arith, has_no_percent-HasNoPercent cs (rw miss at e))
]

vprintf-char :
    (c : ℕ) (fmt : List ℕ) (args : List Arg)
    → c ≢ 37
    → vprintf (c ∷ fmt) args ≡ before (some (c ∷ [])) (vprintf fmt args)
unfolding vprintf
vprintf-char c [] args h = let miss : (c == 37) ≡ false = ground arith in rw miss refl
vprintf-char c (d ∷ fmt) [] h = let miss : (c == 37) ≡ false = ground arith in rw miss refl
vprintf-char c (d ∷ fmt) (number i ∷ args) h =
    let miss : (c == 37) ≡ false = ground arith in rw miss refl
vprintf-char c (d ∷ fmt) (text chars ∷ args) h =
    let miss : (c == 37) ≡ false = ground arith in rw miss refl

before_cons :
    (c : ℕ) (cs : List ℕ) (rest : Option (List ℕ))
    → before (some (c ∷ [])) (before (some cs) rest) ≡ before (some (c ∷ cs)) rest
before_cons c cs none = refl
before_cons c cs (some chars) = refl

before_nil : (rest : Option (List ℕ)) → rest ≡ before (some []) rest
before_nil none = refl
before_nil (some chars) = refl

-- Text without a percent sign at the start of a format is put as it is, before what the rest of
-- the format puts for the same arguments.
pub vprintf-before :
    (chars fmt : List ℕ) (args : List Arg)
    → HasNoPercent chars
    → vprintf (chars ++ fmt) args ≡ before (some chars) (vprintf fmt args)
vprintf-before [] fmt args h = before_nil (vprintf fmt args)
vprintf-before (c ∷ cs) fmt args h =
    vprintf-char c (cs ++ fmt) args h.0
    ∙ ap (before (some (c ∷ []))) (vprintf-before cs fmt args h.1)
    ∙ before_cons c cs (vprintf fmt args)
