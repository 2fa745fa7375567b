-- ===== src/Uart/Line.antt =====
-- `read` of kernel/libk/read.cpp over the serial line, against the `read` of the system calls, whose
-- line is two lists of characters.
use tetra_os.Base.{
  ℕ, zero, suc, ◌+◌, ◌<◌, bit_and, ◌≡◌, refl, sym, ap, subst, ◌∙◌, inl, inr, Option, none, some,
  List, [], ◌∷◌, ◌++◌, append_nil, ◌==◌, Bool-cases,
}
use tetra_os.Memory.{Bytes, store8}
use tetra_os.Syscall.{Machine, put_chars, set_mem, read}
use tetra_os.Uart.{Uart, put_char, get_char, read_line}
use tetra_os.Uart.Laws.{View, IsPlain, IsUart}
use tetra_os.Uart.Chars.{put_char_lem, get_char_lem}

-- The line has sent the output, and what arrives is the input; its divisor latch is closed.
abbrev pub Matches : Machine → View → Type 0
Matches s v = (v.sent ≡ s.output) × (v.arriving ≡ s.input) × IsPlain v

module _ {S : Type 0} (d : Uart S) (view : S → View) (limit : ℕ) (u : IsUart d view limit)
    (fuel : ℕ) (enough : limit < fuel) where
  abbrev Refines : Option (ℕ × Bytes × S) → Option (ℕ × Machine) → Type 0
  Refines line none = Unit {0}
  Refines line (some (n, s')) = (w : S) × (line ≡ some (n, s'.kernel.mem, w)) × Matches s' (view w)

  -- One character is taken and another one, or the same, is put.
  echo :
      (c x : ℕ) (cs : List ℕ) (s : Machine) (l : S)
      → s.input ≡ c ∷ cs
      → Matches s (view l)
      → (l1 : S) × (l2 : S) × (get_char d fuel l ≡ some (c, l1))
        × (put_char d fuel x l1 ≡ some l2)
        × Matches (put_chars (x ∷ []) (record s { input = cs })) (view l2)
  echo c x cs s l first m =
      let (l1, gets, got) = get_char_lem d view limit u fuel c cs l enough m.2 (m.1 ∙ first) in
      let plain = ap (λ (k : ℕ). bit_and k 0x80) got.same_control ∙ m.2 in
      let (l2, puts, put) = put_char_lem d view limit u fuel x l1 enough plain in
      (
        l1,
        l2,
        gets,
        puts,
        (
          put.sent ∙ ap (λ (r : List ℕ). r ++ (x ∷ [])) (got.sent ∙ append_nil (view l).sent ∙ m.0),
          sym put.arriving ∙ tail_eq (view l1).arriving cs c (sym got.arriving ∙ m.1 ∙ first),
          ap (λ (k : ℕ). bit_and k 0x80) put.same_control ∙ plain,
        ),
      )
    where
      tail_eq : (xs ys : List ℕ) (c : ℕ) → (c ∷ xs) ≡ (c ∷ ys) → xs ≡ ys
      tail_eq xs ys c e = cc

  line-Refines :
      (rest buffer counter : ℕ) (s : Machine) (l : S) (input : List ℕ)
      → s.input ≡ input
      → Matches s (view l)
      → Refines (read_line d fuel rest buffer counter s.kernel.mem l) (read rest buffer counter s)
  unfolding read_line read
  line-Refines zero buffer counter s l input e m = (l, refl, m)
  line-Refines (suc rest) buffer counter s l [] e m = rw e tt
  line-Refines (suc rest) buffer counter s l (c ∷ cs) e m = elim (Bool-cases (c == 13)) [
    | inl end ↦
        let (l1, l2, gets, puts, m') = echo c 10 cs s l e m in
        rw (e, end) (l2, rw (gets, read_line) (rw (end, puts, read_line) refl), m')
    | inr more ↦
        let (l1, l2, gets, puts, m') = echo c c cs s l e m in
        let s' : Machine =
          set_mem (store8 s.kernel.mem (buffer + counter) c)
            (put_chars (c ∷ []) (record s { input = cs })) in
        let rest_lem = line-Refines rest buffer (counter + 1) s' l2 cs refl m' in
        rw (e, more) (rw (gets, read_line) (rw (more, puts, read_line) rest_lem))
  ]

  -- With fuel for more polls than the device takes to be ready: whenever `read` ends on the lists of
  -- what was put and what is still typed, the loop over the serial line ends with the same number of
  -- characters and the same memory, and the line has sent and received just what the lists say.
  pub read_line-read :
      (rest buffer counter n : ℕ) (s s' : Machine) (l : S)
      → Matches s (view l)
      → read rest buffer counter s ≡ some (n, s')
      → (w : S) × (read_line d fuel rest buffer counter s.kernel.mem l ≡ some (n, s'.kernel.mem, w))
        × Matches s' (view w)
  read_line-read rest buffer counter n s s' l m runs =
      subst (Refines (read_line d fuel rest buffer counter s.kernel.mem l)) runs
        (line-Refines rest buffer counter s l s.input refl m)
