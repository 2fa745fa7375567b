-- ===== src/Virtio/Laws.antt =====
-- What the virtio specification (4.2.2, registers of a memory-mapped device) says of the registers
-- that the drivers use, as laws on an abstract view of the device.
use tetra_os.Base.{ℕ, ◌-◌, ◌<◌, bit_and, ◌≡◌, Bool, ◌==◌, if◌then◌else◌}
use tetra_os.Virtio.{
  Register, device_features_sel, driver_features, driver_features_sel, queue_sel, queue_num_max,
  queue_num, queue_ready, queue_notify, status, queue_desc, queue_driver, queue_device, writeback,
  Device,
}

-- What the device knows of a queue.
pub record Areas : Type 0 where
  pub num : ℕ
  pub desc : ℕ
  pub driver : ℕ
  pub device : ℕ

abbrev pub no_areas : Areas
no_areas = record { num = 0; desc = 0; driver = 0; device = 0 }

pub record View : Type 0 where
  pub state : ℕ
  pub selected : ℕ
  pub ready : ℕ → ℕ
  pub num_max : ℕ → ℕ
  pub areas : ℕ → Areas
  pub accepts : Bool

abbrev pub update {ℓ} : {A : Type ℓ} → (ℕ → A) → ℕ → A → ℕ → A
update f i x j = if j == i then x else f j

-- Registers without a meaning for the view.
abbrev pub IsPlain : Register → Type 0
IsPlain device_features_sel = Unit {0}
IsPlain driver_features = Unit {0}
IsPlain driver_features_sel = Unit {0}
IsPlain queue_notify = Unit {0}
IsPlain writeback = Unit {0}
IsPlain other = ⊥

abbrev pub at_selected : View → (Areas → Areas) → View
at_selected v change = record v { areas = update v.areas v.selected (change (v.areas v.selected)) }

-- The driver's view of the device. Writing 0 to the status resets it. A status with FEATURES_OK, 8,
-- keeps that bit only if the device accepts the features.
pub record IsDevice {S : Type 0} (d : Device S) (view : S → View) : Type 0 where
  pub get_status : (s : S) → d.get s status ≡ (view s).state
  pub get_ready : (s : S) → d.get s queue_ready ≡ (view s).ready (view s).selected
  pub get_num_max : (s : S) → d.get s queue_num_max ≡ (view s).num_max (view s).selected
  pub put_reset :
      (s : S)
      → view (d.put s status 0)
        ≡ record (view s) { state = 0; ready = λ _. 0; areas = λ _. no_areas }
  pub put_status :
      (s : S) (x : ℕ)
      → bit_and x 8 ≡ 0
      → 0 < x
      → view (d.put s status x) ≡ record (view s) { state = x }
  pub put_features_ok :
      (s : S) (x : ℕ)
      → bit_and x 8 ≡ 8
      → view (d.put s status x) ≡ record (view s) { state = if (view s).accepts then x else x - 8 }
  pub put_sel : (s : S) (x : ℕ) → view (d.put s queue_sel x) ≡ record (view s) { selected = x }
  pub put_ready :
      (s : S) (x : ℕ)
      → view (d.put s queue_ready x)
        ≡ record (view s) { ready = update (view s).ready (view s).selected x }
  pub put_num :
      (s : S) (x : ℕ)
      → view (d.put s queue_num x) ≡ at_selected (view s) (λ a. record a { num = x })
  pub put_desc :
      (s : S) (x : ℕ)
      → view (d.put s queue_desc x) ≡ at_selected (view s) (λ a. record a { desc = x })
  pub put_driver :
      (s : S) (x : ℕ)
      → view (d.put s queue_driver x) ≡ at_selected (view s) (λ a. record a { driver = x })
  pub put_device :
      (s : S) (x : ℕ)
      → view (d.put s queue_device x) ≡ at_selected (view s) (λ a. record a { device = x })
  pub put_plain : (s : S) (r : Register) (x : ℕ) → IsPlain r → view (d.put s r x) ≡ view s
