-- ===== src/User/Printf/Same.antt =====
-- The text that a user program prints, tlibc/printf.c, against the kernel's, kernel/libk/printf.cpp.
use tetra_os.Base.{
  ℕ, zero, suc, ◌%◌, ◌<◌, ◌≡◌, refl, sym, ap, ◌∙◌, Bool, true, false, ◌||◌, Option, none, some,
  List, [], ◌∷◌, ◌++◌, append_more, append_nil, length, ltb, ◌+◌, ◌==◌, if◌then◌else◌, arith,
}
use tetra_os.Print.{Arg, number, text, before, print_decimal, print_hex, vprintf}
use tetra_os.User.Printf.{
  Buffer, set_char, put, put_text, bind, put_format, contents, user_vprintf, buffer_size,
}
use tetra_os.User.Printf.Digits.{after, put_decimal-print_decimal, put_hex-print_hex}

put_text-append :
    (cs ds : List ℕ) (b : Buffer) → put_text (cs ++ ds) b ≡ put_text ds (put_text cs b)
unfolding put_text
put_text-append [] ds b = refl
put_text-append (c ∷ cs) ds b = put_text-append cs ds (put b c)

after-before :
    (b : Buffer) (cs : List ℕ) (rest : Option (List ℕ))
    → after (put_text cs b) rest ≡ after b (before (some cs) rest)
after-before b cs none = refl
after-before b cs (some ds) = ap some (sym (put_text-append cs ds b))

bind-before :
    (b : Buffer) (o rest : Option (List ℕ)) (next : Buffer → Option Buffer)
    → ((x : Buffer) → next x ≡ after x rest)
    → bind (after b o) next ≡ after b (before o rest)
bind-before b none rest next h = refl
bind-before b (some cs) rest next h = h (put_text cs b) ∙ after-before b cs rest

if_after :
    (test : Bool) (b : Buffer) (x y : Option Buffer) (o p : Option (List ℕ))
    → x ≡ after b o
    → y ≡ after b p
    → (if test then x else y) ≡ after b (if test then o else p)
if_after true b x y o p e e' = e
if_after false b x y o p e e' = e'

put_text-char : (c : ℕ) (b : Buffer) → put b c ≡ put_text (c ∷ []) b
unfolding put_text
put_text-char c b = refl

char_before :
    (c : ℕ) (b : Buffer) (rest : Option (List ℕ)) (next : Buffer → Option Buffer)
    → ((x : Buffer) → next x ≡ after x rest)
    → next (put b c) ≡ after b (before (some (c ∷ [])) rest)
char_before c b rest next h =
    ap next (put_text-char c b) ∙ h (put_text (c ∷ []) b) ∙ after-before b (c ∷ []) rest

put_format-vprintf :
    (fmt : List ℕ) (args : List Arg) (b : Buffer)
    → put_format fmt args b ≡ after b (vprintf fmt args)
unfolding put_format vprintf put_text
put_format-vprintf [] args b = refl
put_format-vprintf (c ∷ []) args b =
    if_after (c == 37) b (some b) (some (put b c)) (some []) (some (c ∷ [])) refl refl
put_format-vprintf (c ∷ d ∷ fmt) [] b =
    let skip = put_format-vprintf (d ∷ fmt) [] in
    if_after (c == 37) b _ _ _ _
      (if_after ((d == 100) || (d == 105) || (d == 120) || (d == 115) || (d == 99)) b _ _ _ _ refl
        (skip b))
      (char_before c b _ (put_format (d ∷ fmt) []) skip)
put_format-vprintf (c ∷ d ∷ fmt) (number i ∷ args) b =
    let skip = put_format-vprintf (d ∷ fmt) (number i ∷ args) in
    let rest = put_format-vprintf fmt args in
    let all = vprintf fmt args in
    let decimal =
      ap (λ (o : Option Buffer). bind o (put_format fmt args)) (put_decimal-print_decimal i b)
      ∙ bind-before b (print_decimal i) all (put_format fmt args) rest in
    let hex =
      ap (λ (o : Option Buffer). bind o (put_format fmt args)) (put_hex-print_hex i b)
      ∙ bind-before b (print_hex i) all (put_format fmt args) rest in
    if_after (c == 37) b _ _ _ _
      (if_after ((d == 100) || (d == 105)) b _ _ _ _ decimal (
        if_after (d == 120) b _ _ _ _ hex (
          if_after (d == 115) b _ _ _ _ refl (
            if_after (d == 99) b _ _ _ _ (char_before (i % 256) b all (put_format fmt args) rest)
              (skip b)))))
      (char_before c b _ (put_format (d ∷ fmt) (number i ∷ args)) skip)
put_format-vprintf (c ∷ d ∷ fmt) (text chars ∷ args) b =
    let skip = put_format-vprintf (d ∷ fmt) (text chars ∷ args) in
    let rest = put_format-vprintf fmt args in
    if_after (c == 37) b _ _ _ _
      (if_after ((d == 100) || (d == 105) || (d == 120) || (d == 99)) b _ _ _ _ refl (
        if_after (d == 115) b _ _ _ _
          (bind-before b (some chars) (vprintf fmt args) (put_format fmt args) rest) (skip b)))
      (char_before c b _ (put_format (d ∷ fmt) (text chars ∷ args)) skip)

contents_set :
    (n index c : ℕ) (chars : ℕ → ℕ)
    → n < suc index
    → contents n (set_char chars index c) ≡ contents n chars
unfolding contents
contents_set zero index c chars h = refl
contents_set (suc n) index c chars h =
    let e : (n == index) ≡ false = ground arith in
    rw (e, contents_set n index c chars (omega arith)) refl

contents_put :
    (b : Buffer) (c : ℕ)
    → contents (put b c).curr (put b c).chars ≡ contents b.curr b.chars ++ (c ∷ [])
unfolding contents
contents_put b c =
    let here : (b.curr == b.curr) ≡ true = ground arith in
    rw (here, contents_set b.curr b.curr c b.chars (omega arith)) refl

contents-put_text :
    (cs : List ℕ) (b : Buffer)
    → contents (put_text cs b).curr (put_text cs b).chars ≡ contents b.curr b.chars ++ cs
unfolding put_text
contents-put_text [] b = sym (append_nil (contents b.curr b.chars))
contents-put_text (c ∷ cs) b =
    contents-put_text cs (put b c)
    ∙ ap (λ (xs : List ℕ). xs ++ cs) (contents_put b c)
    ∙ append_more (contents b.curr b.chars) cs c

curr-put_text : (cs : List ℕ) (b : Buffer) → (put_text cs b).curr ≡ b.curr + length cs
unfolding put_text
curr-put_text [] b = omega arith
curr-put_text (c ∷ cs) b = omega (arith, curr-put_text cs (put b c))

-- A text that the buffer has place for.
abbrev pub fitting : Option (List ℕ) → Option (List ℕ)
fitting none = none
fitting (some cs) = if ltb buffer_size (length cs) then none else some cs

written_after :
    (buffer : ℕ → ℕ) (o : Option (List ℕ))
    → elim (after (record { chars = buffer; curr = 0 }) o) [
      | none ↦ none
      | some b ↦ if ltb buffer_size b.curr then none else some (contents b.curr b.chars)
    ]
      ≡ fitting o
unfolding contents
written_after buffer none = refl
written_after buffer (some cs) =
    let start : Buffer = record { chars = buffer; curr = 0 } in
    let size : (put_text cs start).curr ≡ length cs = omega (arith, curr-put_text cs start) in
    rw (contents-put_text cs start)
      (ap (λ (n : ℕ). if ltb buffer_size n then none else some cs) size)

-- Whatever was in its buffer, `vprintf` of a user program writes the text that the kernel's puts for
-- the same format and arguments, if it has at most 200 characters; it has no result if the text is
-- longer, or if the kernel's fails.
pub user_vprintf-vprintf :
    (buffer : ℕ → ℕ) (fmt : List ℕ) (args : List Arg)
    → user_vprintf buffer fmt args ≡ fitting (vprintf fmt args)
unfolding user_vprintf
user_vprintf-vprintf buffer fmt args =
    rw (put_format-vprintf fmt args (record { chars = buffer; curr = 0 }), user_vprintf)
      (written_after buffer (vprintf fmt args))
