-- ===== src/Console.antt =====
-- The search for a console, `get_console_device` of kernel/drivers/virtio/console.cpp.
use tetra_os.Base.{
  ℕ, ◌+◌, ◌*◌, ◌<◌, ◌≡◌, refl, ◌≢◌, Bool, false, ◌&&◌, Option, none, some, ◌==◌, arith,
}
use tetra_os.Block.{
  Registers, virtio_start, virtio_amount, virtio_size, find_device, find_device-none,
}

-- The test compares the version, at 4, with 3 and the device's kind, at 8, with 2.
unfoldable pub is_console_device : Registers → ℕ → Bool
is_console_device registers address =
    (registers address == 0x7472_6976)
    && (registers (address + 4) == 0x3)
    && (registers (address + 8) == 0x2)

unfoldable pub get_console_device : Registers → Option (ℕ × ℕ)
unfolding find_device
get_console_device registers =
    elim (find_device is_console_device virtio_amount registers virtio_start) [
      | none ↦ none
      | some address ↦ some (address, address + 0x100)
    ]

other_version :
    (registers : Registers) (address : ℕ)
    → registers (address + 4) ≢ 3
    → is_console_device registers address ≡ false
unfolding is_console_device
other_version registers address h = ground arith

-- No console is found among devices of version 2, the version of the specification that the
-- drivers follow: the test takes version 3.
pub get_console_device-none :
    (registers : Registers)
    → ((k : ℕ) → k < virtio_amount → registers (virtio_start + virtio_size * k + 4) ≡ 2)
    → get_console_device registers ≡ none
unfolding get_console_device
get_console_device-none registers version =
    rw
      (
        find_device-none is_console_device registers virtio_amount virtio_start (λ k below.
            other_version registers (virtio_start + virtio_size * k)
              (λ e. omega (arith, version k below, e))),
        get_console_device,
      )
      refl
