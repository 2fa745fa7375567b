-- ===== src/Uart.antt =====
-- The serial line, kernel/UART.cpp, and the calls of it by the loops of kernel/libk/printf.cpp and
-- kernel/libk/read.cpp. The device is a parameter: a state that changes with each read and each
-- write of a register, which is named by its offset.
pub mod Laws
pub mod Init
pub mod Chars
pub mod Line
use tetra_os.Base.{
  ℕ, zero, suc, ◌+◌, ◌%◌, bit_and, bit_or, Option, none, some, List, [], ◌∷◌, ◌==◌, if◌then◌else◌,
}
use tetra_os.Memory.{Bytes, store8}

pub record Uart (S : Type 0) : Type 0 where
  pub get : S → ℕ → ℕ × S
  pub put : S → ℕ → ℕ → S

abbrev pub uart_thr : ℕ
uart_thr = 0

abbrev pub uart_rhr : ℕ
uart_rhr = 0

abbrev pub uart_dll : ℕ
uart_dll = 0

abbrev pub uart_dlm : ℕ
uart_dlm = 1

abbrev pub uart_ier : ℕ
uart_ier = 1

abbrev pub uart_lcr : ℕ
uart_lcr = 3

abbrev pub uart_lsr : ℕ
uart_lsr = 5

abbrev uart_lsr_empty_mask : ℕ
uart_lsr_empty_mask = 0x40

abbrev uart_lsr_rx_ready : ℕ
uart_lsr_rx_ready = 0x01

module _ {S : Type 0} (d : Uart S) where
  unfoldable pub uart_init : S → S
  uart_init s =
      let quiet = d.put s uart_ier 0 in
      let (lcr, s1) = d.get quiet uart_lcr in
      let open_latch = d.put s1 uart_lcr (bit_or lcr 0x80) in
      let rated = d.put (d.put open_latch uart_dll 3) uart_dlm 0 in
      let (ier, s2) = d.get (d.put rated uart_lcr 3) uart_ier in d.put s2 uart_ier (bit_or ier 1)

  -- The loop until the transmitter is empty, on fuel.
  unfoldable pub put_char : ℕ → ℕ → S → Option S
  put_char zero c s = none
  put_char (suc fuel) c s =
      let (lsr, s') = d.get s uart_lsr in
      let rest = put_char fuel c s' in
      if bit_and lsr uart_lsr_empty_mask == 0 then rest else some (d.put s' uart_thr c)

  -- The loop until a character has arrived, on fuel.
  unfoldable pub get_char : ℕ → S → Option (ℕ × S)
  get_char zero s = none
  get_char (suc fuel) s =
      let (lsr, s') = d.get s uart_lsr in
      let rest = get_char fuel s' in
      if bit_and lsr uart_lsr_rx_ready == 0 then rest else some (d.get s' uart_rhr)

  -- The loop of `vprintf` over the characters of a string.
  unfoldable pub put_string : ℕ → List ℕ → S → Option S
  unfolding put_char
  put_string fuel [] s = some s
  put_string fuel (c ∷ cs) s = elim (put_char fuel c s) [
    | none ↦ none
    | some s' ↦ put_string fuel cs s'
  ]

  -- The loop of `read`, with the characters that still fit in the buffer.
  unfoldable pub read_line : ℕ → ℕ → ℕ → ℕ → Bytes → S → Option (ℕ × Bytes × S)
  unfolding put_char get_char
  read_line fuel zero buffer counter m s = some (counter, m, s)
  read_line fuel (suc rest) buffer counter m s = elim (get_char fuel s) [
    | none ↦ none
    | some (c, s1) ↦
        let last : Option (ℕ × Bytes × S) = elim (put_char fuel 10 s1) [
          | none ↦ none
          | some s2 ↦ some (counter, store8 m (buffer + counter) 0, s2)
        ] in
        let more : Option (ℕ × Bytes × S) = elim (put_char fuel c s1) [
          | none ↦ none
          | some s2 ↦ read_line fuel rest buffer (counter + 1) (store8 m (buffer + counter) c) s2
        ] in
        if c == 13 then last else more
  ]
