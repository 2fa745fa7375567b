-- ===== src/Syscall/Directory.antt =====
-- The call for the working directory, `Path::copy_into` of kernel/process/process.cpp under
-- `handle_syscall` of kernel/syscalls/syscall.cpp.
use tetra_os.Base.{
  ℕ, zero, suc, ◌+◌, ◌^◌, ◌<◌, ◌≡◌, refl, sym, ap, subst, ◌∙◌, true, false, Option, some, List, [],
  ◌∷◌, ◌++◌, append_nil, length, map, ◌==◌, arith,
}
use tetra_os.Memory.{Bytes, Apart, load8, IsString}
use tetra_os.Copy.{memcpy, memcpy_lem}
use tetra_os.Print.{number, decimal_char, vprintf, print_decimal, split}
use tetra_os.Print.Digits.{print_decimal_lem}
use tetra_os.Print.Text.{has_no_percent, has_no_percent-HasNoPercent, vprintf-before}
use tetra_os.Ext2.{Ext2, Read, string_length}
use tetra_os.Syscall.{
  Machine, SyscallParameters, put_chars, set_mem, printf, chars_at, and_then, copy_into, sys_getcwd,
  serve_call, handle_syscall,
}
use tetra_os.Syscall.Announce.{announced, handle_syscall_runs}

string_length-IsString :
    (fuel i : ℕ) (m : Bytes) (a : ℕ) (cs : List ℕ)
    → IsString m (a + i) cs
    → length cs < fuel
    → string_length fuel (chars_at m a) i ≡ some (i + length cs)
unfolding string_length
string_length-IsString zero i m a cs v h = absurd (omega arith)
string_length-IsString (suc fuel) i m a [] v h =
    let e : (load8 m (a + i) == 0) ≡ true = ground arith in
    let same : i ≡ i + 0 = omega arith in rw e (ap some same)
string_length-IsString (suc fuel) i m a (c ∷ cs) (first, more, rest) h =
    let e : (load8 m (a + i) == 0) ≡ false = ground arith in
    let at : a + i + 1 ≡ a + (i + 1) = omega arith in
    let sum : i + 1 + length cs ≡ i + suc (length cs) = omega arith in
    rw e (
      string_length-IsString fuel (i + 1) m a cs (subst (λ (x : ℕ). IsString m x cs) at rest)
        (omega arith)
      ∙ ap some sum)

-- Text without conversions is put as it is.
text_runs :
    (cs : List ℕ) (s : Machine) → has_no_percent cs ≡ true → printf cs [] s ≡ some (put_chars cs s)
unfolding printf vprintf
text_runs cs s h =
    let e =
      ap (λ (fmt : List ℕ). vprintf fmt []) (sym (append_nil cs))
      ∙ vprintf-before cs [] [] (has_no_percent-HasNoPercent cs h)
      ∙ ap some (append_nil cs) in
    rw (e, printf) refl

abbrev size_format : List ℕ
size_format = 115 ∷ 105 ∷ 122 ∷ 101 ∷ 58 ∷ 32 ∷ 37 ∷ 105 ∷ 10 ∷ []

size_runs :
    (n : ℕ) (s : Machine)
    → n < 2 ^ 31
    → (cs : List ℕ) × (printf size_format (number n ∷ []) s ≡ some (put_chars cs s))
unfolding printf vprintf
size_runs n s low =
    let (ds, e, is, below) = print_decimal_lem n low in
    (
      115 ∷ 105 ∷ 122 ∷ 101 ∷ 58 ∷ 32 ∷ (map decimal_char ds ++ (10 ∷ [])),
      rw (e, printf, vprintf) refl,
    )

and_then_runs :
    (o : Option Machine) (f : Machine → Option Machine) (s : Machine)
    → o ≡ some s
    → and_then o f ≡ f s
and_then_runs o f s e = rw (e, and_then) refl

length_runs :
    (fuel path : ℕ) (t : Machine) (cs : List ℕ)
    → IsString t.kernel.mem path cs
    → length cs < fuel
    → string_length fuel (chars_at t.kernel.mem path) 0 ≡ some (length cs)
length_runs fuel path t cs text ends =
    let at : path ≡ path + 0 = omega arith in
    let sum : 0 + length cs ≡ length cs = omega arith in
    string_length-IsString fuel 0 t.kernel.mem path cs
      (subst (λ (a : ℕ). IsString t.kernel.mem a cs) at text) ends
    ∙ ap some sum

abbrev copying : List ℕ
copying = 99 ∷ 111 ∷ 112 ∷ 121 ∷ 105 ∷ 110 ∷ 103 ∷ 10 ∷ []

module _ (fuel path buffer : ℕ) (cs : List ℕ) (ends : length cs < fuel)
    (short : length cs < 2 ^ 31) where
  -- The memory after the copy, which has no final 0.
  abbrev copied : Bytes → Bytes
  copied m = memcpy m buffer path (length cs)

  copy_into_runs :
      (t : Machine)
      → IsString t.kernel.mem path cs
      → (x y : List ℕ) × (copy_into fuel path buffer t
          ≡ some (set_mem (copied t.kernel.mem) (put_chars y (put_chars x t))))
  unfolding copy_into
  copy_into_runs t text =
      let first : Machine = put_chars copying t in
      let (sized, e) = size_runs (length cs) first short in
      (
        copying,
        sized,
        and_then_runs (printf copying [] t) _ first (text_runs copying t refl)
            ∙ rw (length_runs fuel path first cs text ends, copy_into)
                (and_then_runs (printf size_format (number (length cs) ∷ []) first) _
                  (put_chars sized first) e),
      )

module _ (e : Ext2) (read_disk : Read) (fuel : ℕ) (p : SyscallParameters) (s : Machine)
    (cs : List ℕ) where
  getcwd_runs : p.a7 ≡ 79 → serve_call e read_disk fuel p s ≡ sys_getcwd fuel p.a0 s
  unfolding serve_call
  getcwd_runs is_79 =
      let no_read : (p.a7 == 0) ≡ false = ground arith in
      let no_write : (p.a7 == 1) ≡ false = ground arith in
      let no_open : (p.a7 == 2) ≡ false = ground arith in
      let is_getcwd : (p.a7 == 79) ≡ true = ground arith in
      rw (no_read, no_write, no_open, is_getcwd) refl

  copied_state :
      length cs < fuel
      → length cs < 2 ^ 31
      → IsString s.kernel.mem s.current_working_directory cs
      → (s' : Machine) × (sys_getcwd fuel p.a0 s ≡ some s')
        × (s'.kernel.mem ≡ memcpy s.kernel.mem p.a0 s.current_working_directory (length cs))
  unfolding sys_getcwd
  copied_state ends short text =
      let got : List ℕ =
        103 ∷ 111 ∷ 116 ∷ 32 ∷ 103 ∷ 101 ∷ 116 ∷ 99 ∷ 119 ∷ 100 ∷ 32 ∷ 115 ∷ 121 ∷ 115 ∷ 99 ∷ 97
        ∷ 108 ∷ 108 ∷ 10 ∷ [] in
      let s1 = put_chars got s in
      let s2 = put_chars (97 ∷ 10 ∷ []) s1 in
      let s3 = put_chars (98 ∷ 10 ∷ []) s2 in
      let s4 = put_chars (99 ∷ 10 ∷ []) s3 in
      let (x, y, copies) =
        copy_into_runs fuel s.current_working_directory p.a0 cs ends short s4 text in
      let s5 : Machine =
        set_mem (memcpy s.kernel.mem p.a0 s.current_working_directory (length cs))
          (put_chars y (put_chars x s4)) in
      (
        put_chars (100 ∷ 10 ∷ []) s5,
        and_then_runs (printf got [] s) _ s1 (text_runs got s refl)
            ∙ and_then_runs (printf (97 ∷ 10 ∷ []) [] s1) _ s2 (text_runs (97 ∷ 10 ∷ []) s1 refl)
            ∙ and_then_runs (printf (98 ∷ 10 ∷ []) [] s2) _ s3 (text_runs (98 ∷ 10 ∷ []) s2 refl)
            ∙ and_then_runs (printf (99 ∷ 10 ∷ []) [] s3) _ s4 (text_runs (99 ∷ 10 ∷ []) s3 refl)
            ∙ and_then_runs (copy_into fuel s.current_working_directory p.a0 s4) _ s5 copies
            ∙ text_runs (100 ∷ 10 ∷ []) s5 refl,
        refl,
      )

module _ (e : Ext2) (read_disk : Read) (fuel : ℕ) (p : SyscallParameters) (s : Machine)
    (cs : List ℕ) where
  getcwd_number : p.a7 ≡ 79 → vprintf (37 ∷ 105 ∷ []) (number p.a7 ∷ []) ≡ some (55 ∷ 57 ∷ [])
  unfolding vprintf print_decimal split
  getcwd_number is_79 = rw is_79 refl

  -- Call 79, with a working directory that is a string shorter than the fuel and than 2 ^ 31, apart
  -- from the buffer, ends with the characters in the buffer. No other byte is changed: the string in
  -- the buffer has no end.
  pub getcwd_call :
      p.a7 ≡ 79
      → length cs < fuel
      → length cs < 2 ^ 31
      → IsString s.kernel.mem s.current_working_directory cs
      → Apart p.a0 (length cs) s.current_working_directory (length cs)
      → (s' : Machine) × (handle_syscall e read_disk fuel p s ≡ some s')
        × ((i : ℕ)
            → i < length cs
            → load8 s'.kernel.mem (p.a0 + i) ≡ load8 s.kernel.mem (s.current_working_directory + i))
        × ((b : ℕ) → Apart p.a0 (length cs) b 1 → s'.kernel.mem b ≡ s.kernel.mem b)
  getcwd_call is_79 ends short text apart =
      let s1 = put_chars (announced s.log_level (55 ∷ 57 ∷ [])) s in
      let (s', runs, same) = copied_state e read_disk fuel p s1 cs ends short text in
      let (inside, outside) =
        memcpy_lem s.kernel.mem p.a0 s.current_working_directory (length cs) apart in
      (
        s',
        handle_syscall_runs e read_disk fuel p s (55 ∷ 57 ∷ []) (getcwd_number is_79)
            ∙ getcwd_runs e read_disk fuel p s1 cs is_79
            ∙ runs,
        (λ i h. ap (λ (m : Bytes). load8 m (p.a0 + i)) same ∙ inside i h),
        (λ b h. ap (λ (m : Bytes). m b) same ∙ outside b h),
      )
