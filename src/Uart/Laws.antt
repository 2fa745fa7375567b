-- ===== src/Uart/Laws.antt =====
-- What the data sheet of the 16550 says of the registers that the kernel uses, as laws on an abstract
-- view of the device. The divisor latch takes the place of the first two registers while bit 7 of the
-- line control register is set.
use tetra_os.Base.{ℕ, ◌-◌, ◌<◌, ◌≤◌, bit_and, ◌≡◌, List, [], ◌∷◌, ◌++◌}
use tetra_os.Uart.{Uart, uart_thr, uart_dll, uart_dlm, uart_ier, uart_lcr, uart_lsr, uart_rhr}

-- `busy` and `idle` are the reads of the line status until the transmitter is empty, and until the
-- next character is there.
pub record View : Type 0 where
  pub line_control : ℕ
  pub interrupts : ℕ
  pub divisor_low : ℕ
  pub divisor_high : ℕ
  pub sent : List ℕ
  pub arriving : List ℕ
  pub busy : ℕ
  pub idle : ℕ

abbrev pub IsLatched : View → Type 0
IsLatched v = bit_and v.line_control 0x80 ≡ 0x80

abbrev pub IsPlain : View → Type 0
IsPlain v = bit_and v.line_control 0x80 ≡ 0

-- One more read of the line status.
abbrev pub polled : View → View
polled v = record v { busy = v.busy - 1; idle = v.idle - 1 }

abbrev pub set_latch : View → ℕ → ℕ → View
set_latch v low high = record v { divisor_low = low; divisor_high = high }

-- The device with delays of at most `limit`, which is also how long a character that will arrive is
-- waited for.
pub record IsUart {S : Type 0} (d : Uart S) (view : S → View) (limit : ℕ) : Type 0 where
  pub quick : (s : S) → (view s).busy ≤ limit
  pub awake : (s : S) (c : ℕ) (cs : List ℕ) → (view s).arriving ≡ c ∷ cs → (view s).idle ≤ limit
  pub get_control : (s : S) → (d.get s uart_lcr).0 ≡ (view s).line_control
  pub get_control_view : (s : S) → view (d.get s uart_lcr).1 ≡ view s
  pub get_interrupts : (s : S) → IsPlain (view s) → (d.get s uart_ier).0 ≡ (view s).interrupts
  pub get_interrupts_view : (s : S) → IsPlain (view s) → view (d.get s uart_ier).1 ≡ view s
  pub put_control :
      (s : S) (x : ℕ) → view (d.put s uart_lcr x) ≡ record (view s) { line_control = x }
  pub put_interrupts :
      (s : S) (x : ℕ)
      → IsPlain (view s)
      → view (d.put s uart_ier x) ≡ record (view s) { interrupts = x }
  pub put_low :
      (s : S) (x : ℕ)
      → IsLatched (view s)
      → view (d.put s uart_dll x) ≡ set_latch (view s) x (view s).divisor_high
  pub put_high :
      (s : S) (x : ℕ)
      → IsLatched (view s)
      → view (d.put s uart_dlm x) ≡ set_latch (view s) (view s).divisor_low x
  pub poll : (s : S) → view (d.get s uart_lsr).1 ≡ polled (view s)
  pub empty : (s : S) → (view s).busy ≡ 0 → bit_and (d.get s uart_lsr).0 0x40 ≡ 0x40
  pub full : (s : S) → 0 < (view s).busy → bit_and (d.get s uart_lsr).0 0x40 ≡ 0
  pub there :
      (s : S) (c : ℕ) (cs : List ℕ)
      → (view s).arriving ≡ c ∷ cs
      → (view s).idle ≡ 0
      → bit_and (d.get s uart_lsr).0 0x01 ≡ 1
  pub away : (s : S) → 0 < (view s).idle → bit_and (d.get s uart_lsr).0 0x01 ≡ 0
  pub nothing : (s : S) → (view s).arriving ≡ [] → bit_and (d.get s uart_lsr).0 0x01 ≡ 0
  pub send :
      (s : S) (c : ℕ)
      → IsPlain (view s)
      → (view s).busy ≡ 0
      → (n : ℕ) × (view (d.put s uart_thr c)
          ≡ record (view s) { sent = (view s).sent ++ (c ∷ []); busy = n })
  pub receive :
      (s : S) (c : ℕ) (cs : List ℕ)
      → IsPlain (view s)
      → (view s).arriving ≡ c ∷ cs
      → (view s).idle ≡ 0
      → (n : ℕ) × ((d.get s uart_rhr).0 ≡ c)
        × (view (d.get s uart_rhr).1 ≡ record (view s) { arriving = cs; idle = n })
