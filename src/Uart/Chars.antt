-- ===== src/Uart/Chars.antt =====
-- `put_char` and `get_char` of kernel/UART.cpp, and the loop of `vprintf` over a string.
use tetra_os.Base.{
  ℕ, zero, suc, ◌<◌, bit_and, ◌≡◌, refl, sym, ap, ◌∙◌, some, List, [], ◌∷◌, ◌++◌, append_assoc,
  append_nil, ◌==◌, true, false, arith,
}
use tetra_os.Uart.{Uart, uart_thr, uart_lsr, uart_rhr, put_char, get_char, put_string}
use tetra_os.Uart.Laws.{View, IsPlain, polled, IsUart}

-- From one state of the line to a later one: the characters sent and received in between. Its set-up
-- stays.
pub record IsMoved (v w : View) (text typed : List ℕ) : Type 0 where
  pub sent : w.sent ≡ v.sent ++ text
  pub arriving : v.arriving ≡ typed ++ w.arriving
  pub same_control : w.line_control ≡ v.line_control
  pub same_interrupts : w.interrupts ≡ v.interrupts
  pub same_low : w.divisor_low ≡ v.divisor_low
  pub same_high : w.divisor_high ≡ v.divisor_high

pub IsMoved-refl : (v : View) → IsMoved v v [] []
IsMoved-refl v = record {
  sent = sym (append_nil v.sent);
  arriving = refl;
  same_control = refl;
  same_interrupts = refl;
  same_low = refl;
  same_high = refl;
}

IsMoved-trans :
    (v w x : View) (text typed text' typed' : List ℕ)
    → IsMoved v w text typed
    → IsMoved w x text' typed'
    → IsMoved v x (text ++ text') (typed ++ typed')
IsMoved-trans v w x text typed text' typed' a b = record {
  sent = b.sent ∙ ap (λ (r : List ℕ). r ++ text') a.sent ∙ append_assoc v.sent text text';
  arriving =
      a.arriving
      ∙ ap (λ (r : List ℕ). typed ++ r) b.arriving
      ∙ sym (append_assoc typed typed' x.arriving);
  same_control = b.same_control ∙ a.same_control;
  same_interrupts = b.same_interrupts ∙ a.same_interrupts;
  same_low = b.same_low ∙ a.same_low;
  same_high = b.same_high ∙ a.same_high;
}

-- The same by equations of views.
IsMoved-polled :
    (v v1 w : View) (text typed : List ℕ)
    → v1 ≡ polled v
    → IsMoved v1 w text typed
    → IsMoved v w text typed
IsMoved-polled v v1 w text typed e m = record {
  sent = m.sent ∙ ap (λ (x : View). x.sent ++ text) e;
  arriving = sym (ap (λ (x : View). x.arriving) e) ∙ m.arriving;
  same_control = m.same_control ∙ ap (λ (x : View). x.line_control) e;
  same_interrupts = m.same_interrupts ∙ ap (λ (x : View). x.interrupts) e;
  same_low = m.same_low ∙ ap (λ (x : View). x.divisor_low) e;
  same_high = m.same_high ∙ ap (λ (x : View). x.divisor_high) e;
}

IsMoved-put :
    (v w : View) (c n : ℕ)
    → w ≡ record v { sent = v.sent ++ (c ∷ []); busy = n }
    → IsMoved v w (c ∷ []) []
IsMoved-put v w c n e = record {
  sent = ap (λ (x : View). x.sent) e;
  arriving = sym (ap (λ (x : View). x.arriving) e);
  same_control = ap (λ (x : View). x.line_control) e;
  same_interrupts = ap (λ (x : View). x.interrupts) e;
  same_low = ap (λ (x : View). x.divisor_low) e;
  same_high = ap (λ (x : View). x.divisor_high) e;
}

IsMoved-got :
    (v w : View) (c n : ℕ) (cs : List ℕ)
    → v.arriving ≡ c ∷ cs
    → w ≡ record v { arriving = cs; idle = n }
    → IsMoved v w [] (c ∷ [])
IsMoved-got v w c n cs first e = record {
  sent = ap (λ (x : View). x.sent) e ∙ sym (append_nil v.sent);
  arriving = first ∙ ap (λ (r : List ℕ). c ∷ r) (sym (ap (λ (x : View). x.arriving) e));
  same_control = ap (λ (x : View). x.line_control) e;
  same_interrupts = ap (λ (x : View). x.interrupts) e;
  same_low = ap (λ (x : View). x.divisor_low) e;
  same_high = ap (λ (x : View). x.divisor_high) e;
}

module _ {S : Type 0} (d : Uart S) (view : S → View) (limit : ℕ) (u : IsUart d view limit) where
  abbrev after_poll : S → S
  after_poll s = (d.get s uart_lsr).1

  still-IsPlain : (s : S) → IsPlain (view s) → IsPlain (view (after_poll s))
  still-IsPlain s plain = ap (λ (v : View). bit_and v.line_control 0x80) (u.poll s) ∙ plain

  put_char_ends :
      (delay fuel c : ℕ) (s : S)
      → (view s).busy ≡ delay
      → delay < fuel
      → IsPlain (view s)
      → (s' : S) × (put_char d fuel c s ≡ some s') × IsMoved (view s) (view s') (c ∷ []) []
  unfolding put_char
  put_char_ends delay zero c s e h plain = absurd (omega arith)
  put_char_ends zero (suc fuel) c s e h plain =
      let s1 = after_poll s in
      let test : (bit_and (d.get s uart_lsr).0 0x40 == 0) ≡ false = ground (arith, u.empty s e) in
      let ready : (view s1).busy ≡ 0 = omega (arith, e, ap (λ (v : View). v.busy) (u.poll s)) in
      let (n, sends) = u.send s1 c (still-IsPlain s plain) ready in
      (
        d.put s1 uart_thr c,
        rw test refl,
        IsMoved-polled (view s) (view s1) (view (d.put s1 uart_thr c)) (c ∷ []) [] (u.poll s)
            (IsMoved-put (view s1) (view (d.put s1 uart_thr c)) c n sends),
      )
  put_char_ends (suc delay) (suc fuel) c s e h plain =
      let s1 = after_poll s in
      let test : (bit_and (d.get s uart_lsr).0 0x40 == 0) ≡ true =
        ground (arith, u.full s (omega (arith, e))) in
      let sooner : (view s1).busy ≡ delay =
        omega (arith, e, ap (λ (v : View). v.busy) (u.poll s)) in
      let (s', runs, m) =
        put_char_ends delay fuel c s1 sooner (omega arith) (still-IsPlain s plain) in
      (s', rw test runs, IsMoved-polled (view s) (view s1) (view s') (c ∷ []) [] (u.poll s) m)

  pub put_char_lem :
      (fuel c : ℕ) (s : S)
      → limit < fuel
      → IsPlain (view s)
      → (s' : S) × (put_char d fuel c s ≡ some s') × IsMoved (view s) (view s') (c ∷ []) []
  put_char_lem fuel c s enough plain =
      put_char_ends (view s).busy fuel c s refl (omega (arith, u.quick s)) plain

  get_char_ends :
      (delay fuel c : ℕ) (cs : List ℕ) (s : S)
      → (view s).idle ≡ delay
      → delay < fuel
      → IsPlain (view s)
      → (view s).arriving ≡ c ∷ cs
      → (s' : S) × (get_char d fuel s ≡ some (c, s')) × IsMoved (view s) (view s') [] (c ∷ [])
  unfolding get_char
  get_char_ends delay zero c cs s e h plain first = absurd (omega arith)
  get_char_ends zero (suc fuel) c cs s e h plain first =
      let s1 = after_poll s in
      let test : (bit_and (d.get s uart_lsr).0 0x01 == 0) ≡ false =
        ground (arith, u.there s c cs first e) in
      let ready : (view s1).idle ≡ 0 = omega (arith, e, ap (λ (v : View). v.idle) (u.poll s)) in
      let same = ap (λ (v : View). v.arriving) (u.poll s) ∙ first in
      let (n, is, moves) = u.receive s1 c cs (still-IsPlain s plain) same ready in
      let s' = (d.get s1 uart_rhr).1 in
      (
        s',
        rw test (ap (λ (x : ℕ). some (x, s')) is),
        IsMoved-polled (view s) (view s1) (view s') [] (c ∷ []) (u.poll s)
            (IsMoved-got (view s1) (view s') c n cs same moves),
      )
  get_char_ends (suc delay) (suc fuel) c cs s e h plain first =
      let s1 = after_poll s in
      let test : (bit_and (d.get s uart_lsr).0 0x01 == 0) ≡ true =
        ground (arith, u.away s (omega (arith, e))) in
      let sooner : (view s1).idle ≡ delay =
        omega (arith, e, ap (λ (v : View). v.idle) (u.poll s)) in
      let (s', runs, m) =
        get_char_ends delay fuel c cs s1 sooner (omega arith) (still-IsPlain s plain)
          (ap (λ (v : View). v.arriving) (u.poll s) ∙ first) in
      (s', rw test runs, IsMoved-polled (view s) (view s1) (view s') [] (c ∷ []) (u.poll s) m)

  pub get_char_lem :
      (fuel c : ℕ) (cs : List ℕ) (s : S)
      → limit < fuel
      → IsPlain (view s)
      → (view s).arriving ≡ c ∷ cs
      → (s' : S) × (get_char d fuel s ≡ some (c, s')) × IsMoved (view s) (view s') [] (c ∷ [])
  get_char_lem fuel c cs s enough plain first =
      get_char_ends (view s).idle fuel c cs s refl (omega (arith, u.awake s c cs first)) plain first

  -- On a line whose divisor latch is closed, with fuel for more polls than the device takes to be
  -- ready, putting a string ends, and its characters are sent in their order.
  pub put_string_lem :
      (fuel : ℕ) (text : List ℕ) (s : S)
      → limit < fuel
      → IsPlain (view s)
      → (s' : S) × (put_string d fuel text s ≡ some s') × IsMoved (view s) (view s') text []
  unfolding put_string
  put_string_lem fuel [] s enough plain = (s, refl, IsMoved-refl (view s))
  put_string_lem fuel (c ∷ cs) s enough plain =
      let (s1, first, m) = put_char_lem fuel c s enough plain in
      let (s', rest, m') =
        put_string_lem fuel cs s1 enough (ap (λ (x : ℕ). bit_and x 0x80) m.same_control ∙ plain) in
      (
        s',
        rw (first, put_string) rest,
        IsMoved-trans (view s) (view s1) (view s') (c ∷ []) [] cs [] m m',
      )
