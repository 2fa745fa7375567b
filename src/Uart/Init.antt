-- ===== src/Uart/Init.antt =====
-- `uart_init` of kernel/UART.cpp.
use tetra_os.Base.{ℕ, bit_and, bit_or, ◌/◌, ◌%◌, ◌^◌, ◌≡◌, ap, ◌∙◌, arith}
use tetra_os.Bits.{bit_and-high, bit_and-mask, bit_or-shr, bit_or-odd}
use tetra_os.Uart.{Uart, uart_dll, uart_dlm, uart_ier, uart_lcr, uart_init}
use tetra_os.Uart.Laws.{View, IsPlain, IsLatched, set_latch, IsUart}

bit_or_latch : (x : ℕ) → bit_and (bit_or x 0x80) 0x80 ≡ 0x80
bit_or_latch x = omega (
  arith,
  bit_and-high 7 1 (bit_or x 0x80),
  bit_and-mask 1 (bit_or x 0x80 / 2 ^ 7),
  ap (λ (y : ℕ). y % 2) (bit_or-shr 7 x 0x80),
  bit_or-odd (x / 2 ^ 7),
)

module _ {S : Type 0} (d : Uart S) (view : S → View) (limit : ℕ) (u : IsUart d view limit) where
  module _ (s : S) (plain : IsPlain (view s)) where
    abbrev quiet : S
    quiet = d.put s uart_ier 0

    abbrev latched : S
    latched = d.put (d.get quiet uart_lcr).1 uart_lcr (bit_or (d.get quiet uart_lcr).0 0x80)

    abbrev rated : S
    rated = d.put (d.put latched uart_dll 3) uart_dlm 0

    quiet-view : view quiet ≡ record (view s) { interrupts = 0 }
    quiet-view = u.put_interrupts s 0 plain

    latched-view :
        view latched ≡ record (view quiet) { line_control = bit_or (d.get quiet uart_lcr).0 0x80 }
    latched-view =
        u.put_control (d.get quiet uart_lcr).1 (bit_or (d.get quiet uart_lcr).0 0x80)
        ∙ ap (λ (v : View). record v { line_control = bit_or (d.get quiet uart_lcr).0 0x80 })
            (u.get_control_view quiet)

    latched-IsLatched : IsLatched (view latched)
    latched-IsLatched =
        ap (λ (v : View). bit_and v.line_control 0x80) latched-view
        ∙ bit_or_latch (d.get quiet uart_lcr).0

    half-view :
        view (d.put latched uart_dll 3) ≡ set_latch (view latched) 3 (view latched).divisor_high
    half-view = u.put_low latched 3 latched-IsLatched

    rated-view : view rated ≡ set_latch (view latched) 3 0
    rated-view =
        u.put_high (d.put latched uart_dll 3) 0
          (ap (λ (v : View). bit_and v.line_control 0x80) half-view ∙ latched-IsLatched)
        ∙ ap (λ (v : View). set_latch v v.divisor_low 0) half-view

    abbrev framed : S
    framed = d.put rated uart_lcr 3

    framed-view :
        view framed
        ≡ record (view s) { line_control = 3; interrupts = 0; divisor_low = 3; divisor_high = 0 }
    framed-view =
        u.put_control rated 3
        ∙ ap (λ (v : View). record v { line_control = 3 }) rated-view
        ∙ ap (λ (v : View). record v { line_control = 3; divisor_low = 3; divisor_high = 0 })
            (latched-view
              ∙ ap (λ (v : View). record v { line_control = bit_or (d.get quiet uart_lcr).0 0x80 })
                  quiet-view)

    framed-IsPlain : IsPlain (view framed)
    framed-IsPlain = ap (λ (v : View). bit_and v.line_control 0x80) framed-view

    interrupts_read : bit_or (d.get framed uart_ier).0 1 ≡ 1
    interrupts_read =
        ap (λ (x : ℕ). bit_or x 1)
          (u.get_interrupts framed framed-IsPlain ∙ ap (λ (v : View). v.interrupts) framed-view)

    -- On a line whose divisor latch is closed, `uart_init` sets the divisor 3, eight bits without
    -- parity, and the interrupt of received characters alone, and closes the latch; what was sent and
    -- what arrives is as before.
    pub uart_init_lem :
        view (uart_init d s)
        ≡ record (view s) { line_control = 3; interrupts = 1; divisor_low = 3; divisor_high = 0 }
    unfolding uart_init
    uart_init_lem =
        u.put_interrupts (d.get framed uart_ier).1 (bit_or (d.get framed uart_ier).0 1) (
          ap (λ (v : View). bit_and v.line_control 0x80)
            (u.get_interrupts_view framed framed-IsPlain)
          ∙ framed-IsPlain)
        ∙ rw interrupts_read (
            ap (λ (v : View). record v { interrupts = 1 })
              (u.get_interrupts_view framed framed-IsPlain ∙ framed-view))
