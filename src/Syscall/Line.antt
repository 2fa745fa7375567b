-- ===== src/Syscall/Line.antt =====
-- Reading a line, `read` of kernel/libk/read.cpp.
use tetra_os.Base.{
  ℕ, zero, suc, ◌+◌, ◌<◌, ◌≡◌, refl, ◌≢◌, ap, ◌∙◌, inr, some, List, [], ◌∷◌, ◌++◌, append_more,
  length, ◌==◌, true, false, arith,
}
use tetra_os.Memory.{Bytes, Apart, load8, store8, store8-outside, load8-store8_self, load8_ext}
use tetra_os.Syscall.{Machine, put_chars, set_mem, read, string_at}

-- The memory with a line and its final 0 at an address.
abbrev with_line : Bytes → ℕ → List ℕ → Bytes
with_line m a [] = store8 m a 0
with_line m a (c ∷ cs) = with_line (store8 m a c) (a + 1) cs

-- Characters that are typed before the end of a line, and can stand in a string.
abbrev pub IsTyped : List ℕ → Type 0
IsTyped [] = Unit {0}
IsTyped (c ∷ cs) = (c ≢ 13) × (c ≢ 0) × (c < 256) × IsTyped cs

abbrev read_state : ℕ → List ℕ → List ℕ → Machine → Machine
read_state a line rest s = record s {
  kernel = record s.kernel { mem = with_line s.kernel.mem a line };
  input = rest;
  output = s.output ++ (line ++ (10 ∷ []));
}

read_line :
    (line rest : List ℕ) (size buffer counter : ℕ) (s : Machine)
    → s.input ≡ line ++ (13 ∷ rest)
    → IsTyped line
    → length line < size
    → read size buffer counter s
      ≡ some (counter + length line, read_state (buffer + counter) line rest s)
unfolding read
read_line line rest zero buffer counter s typed ok room = absurd (omega arith)
read_line [] rest (suc size) buffer counter s typed ok room =
    let e : counter + 0 ≡ counter = omega arith in rw (typed, e) refl
read_line (c ∷ cs) rest (suc size) buffer counter s typed ok room =
    let e : (c == 13) ≡ false = ground arith in
    let s1 : Machine =
      set_mem (store8 s.kernel.mem (buffer + counter) c)
        (put_chars (c ∷ []) (record s { input = cs ++ (13 ∷ rest) })) in
    let number : counter + 1 + length cs ≡ counter + suc (length cs) = omega arith in
    let at : buffer + (counter + 1) ≡ buffer + counter + 1 = omega arith in
    rw typed (
      rw e (
        read_line cs rest size buffer (counter + 1) s1 refl ok.3 (omega arith)
        ∙ rw (number, at, append_more s.output (cs ++ (10 ∷ [])) c) refl))

line_outside :
    (line : List ℕ) (m : Bytes) (a b : ℕ)
    → Apart a (length line + 1) b 1
    → with_line m a line b ≡ m b
line_outside [] m a b h = store8-outside m a 0 b (omega arith)
line_outside (c ∷ cs) m a b h =
    line_outside cs (store8 m a c) (a + 1) b (omega arith) ∙ store8-outside m a c b (omega arith)

string_at-line :
    (line : List ℕ) (fuel : ℕ) (m : Bytes) (a : ℕ)
    → IsTyped line
    → length line < fuel
    → string_at fuel (with_line m a line) a ≡ some line
unfolding string_at
string_at-line line zero m a ok room = absurd (omega arith)
string_at-line [] (suc fuel) m a ok room =
    let e : (load8 (store8 m a 0) a == 0) ≡ true =
      ground (arith, load8-store8_self m a 0 (omega arith)) in
    rw e refl
string_at-line (c ∷ cs) (suc fuel) m a ok room =
    let first : load8 (with_line (store8 m a c) (a + 1) cs) a ≡ c =
      load8_ext (with_line (store8 m a c) (a + 1) cs) (store8 m a c) a
        (line_outside cs (store8 m a c) (a + 1) a (inr (omega arith)))
      ∙ load8-store8_self m a c ok.2 in
    let e : (load8 (with_line (store8 m a c) (a + 1) cs) a == 0) ≡ false = ground (arith, first) in
    let rest = string_at-line cs fuel (store8 m a c) (a + 1) ok.3 (omega arith) in
    rw e (rw (rest, string_at) (ap (λ (x : ℕ). some (x ∷ cs)) first))

-- A line that is shorter than the buffer is read up to its end: the call returns the number of its
-- characters, the buffer then holds them as a string, and they are put with a new line. What was
-- typed after it is still to come, and no byte behind the string is changed.
pub read_typed :
    (line rest : List ℕ) (size buffer : ℕ) (s : Machine)
    → s.input ≡ line ++ (13 ∷ rest)
    → IsTyped line
    → length line < size
    → (s' : Machine) × (read size buffer 0 s ≡ some (length line, s'))
      × (string_at size s'.kernel.mem buffer ≡ some line)
      × (s'.output ≡ s.output ++ (line ++ (10 ∷ [])))
      × (s'.input ≡ rest)
      × ((b : ℕ) → Apart buffer (length line + 1) b 1 → s'.kernel.mem b ≡ s.kernel.mem b)
read_typed line rest size buffer s typed ok room =
    let at : buffer + 0 ≡ buffer = omega arith in
    let zero_add : 0 + length line ≡ length line = omega arith in
    (
      read_state buffer line rest s,
      read_line line rest size buffer 0 s typed ok room ∙ rw (at, zero_add) refl,
      string_at-line line size s.kernel.mem buffer ok room,
      refl,
      refl,
      line_outside line s.kernel.mem buffer,
    )
