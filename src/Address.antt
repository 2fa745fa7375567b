-- ===== src/Address.antt =====
-- The parts of an address, kernel/memory/memory.cpp: a page's four table indices and offset, and a
-- frame's number. `this` is the address itself.
use tetra_os.Base.{ℕ, ◌+◌, ◌*◌, ◌/◌, ◌%◌, ◌^◌, ◌<◌, bit_and, ◌≡◌, arith}
use tetra_os.Bits.{bit_and-mask}
use tetra_os.Memory.{u64, u16}
use tetra_os.Kernel.{virtual_offset}

unfoldable get_virtual_address : ℕ → ℕ
get_virtual_address frame = u64 (frame + virtual_offset)

unfoldable pub get_ppn : ℕ → ℕ
get_ppn frame = frame / 2 ^ 12

unfoldable pub get_vpn_3 : ℕ → ℕ
get_vpn_3 page = u16 (bit_and (page / 2 ^ 39) 511)

unfoldable pub get_vpn_2 : ℕ → ℕ
get_vpn_2 page = u16 (bit_and (page / 2 ^ 30) 511)

unfoldable pub get_vpn_1 : ℕ → ℕ
get_vpn_1 page = u16 (bit_and (page / 2 ^ 21) 511)

unfoldable pub get_vpn_0 : ℕ → ℕ
get_vpn_0 page = u16 (bit_and (page / 2 ^ 12) 511)

unfoldable pub get_offset : ℕ → ℕ
get_offset page = u16 (bit_and page 0xfff)

pub vpn_3-eq : (page : ℕ) → get_vpn_3 page ≡ page / 2 ^ 39 % 512
unfolding get_vpn_3
vpn_3-eq page = omega (arith, bit_and-mask 9 (page / 2 ^ 39))

pub vpn_2-eq : (page : ℕ) → get_vpn_2 page ≡ page / 2 ^ 30 % 512
unfolding get_vpn_2
vpn_2-eq page = omega (arith, bit_and-mask 9 (page / 2 ^ 30))

pub vpn_1-eq : (page : ℕ) → get_vpn_1 page ≡ page / 2 ^ 21 % 512
unfolding get_vpn_1
vpn_1-eq page = omega (arith, bit_and-mask 9 (page / 2 ^ 21))

pub vpn_0-eq : (page : ℕ) → get_vpn_0 page ≡ page / 2 ^ 12 % 512
unfolding get_vpn_0
vpn_0-eq page = omega (arith, bit_and-mask 9 (page / 2 ^ 12))

pub offset-eq : (page : ℕ) → get_offset page ≡ page % 4096
unfolding get_offset
offset-eq page = omega (arith, bit_and-mask 12 page)

-- The five parts are the low 48 bits of the address, each index in range.
pub address_parts :
    (page : ℕ)
    → (get_vpn_3 page * 2 ^ 39
          + get_vpn_2 page * 2 ^ 30
          + get_vpn_1 page * 2 ^ 21
          + get_vpn_0 page * 2 ^ 12
          + get_offset page
        ≡ page % 2 ^ 48)
      × (get_vpn_3 page < 512)
      × (get_vpn_2 page < 512)
      × (get_vpn_1 page < 512)
      × (get_vpn_0 page < 512)
      × (get_offset page < 4096)
address_parts page =
    omega (arith, vpn_3-eq page, vpn_2-eq page, vpn_1-eq page, vpn_0-eq page, offset-eq page)
