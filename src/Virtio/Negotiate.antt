-- ===== src/Virtio/Negotiate.antt =====
-- The reset of a virtio device and the agreement on its features, steps 1 to 6 of `init` in
-- kernel/drivers/virtio/blk.cpp and console.cpp.
use tetra_os.Base.{
  ℕ, ◌-◌, ◌<◌, bit_and, bit_or, ◌≡◌, refl, ap, ◌∙◌, Bool, true, false, not, ◌==◌, if◌then◌else◌,
  arith,
}
use tetra_os.Virtio.{
  status, device_features, device_features_sel, driver_features, driver_features_sel, Device,
  add_status, negotiate,
}
use tetra_os.Virtio.Laws.{View, no_areas, IsDevice}

module _ {S : Type 0} (d : Device S) (view : S → View) (v : IsDevice d view) where
  -- A write to the status register that reads it first.
  add_status-view :
      (s : S) (x bits : ℕ)
      → (view s).state ≡ x
      → bit_and (bit_or x bits) 8 ≡ 0
      → 0 < bit_or x bits
      → view (add_status d s bits) ≡ record (view s) { state = bit_or x bits }
  add_status-view s x bits e clear some_bit =
      let read : d.get s status ≡ x = v.get_status s ∙ e in
      rw (read, add_status) (v.put_status s (bit_or x bits) clear some_bit)

  pub add_status-features_ok :
      (s : S) (x bits : ℕ)
      → (view s).state ≡ x
      → bit_and (bit_or x bits) 8 ≡ 8
      → view (add_status d s bits)
        ≡ record (view s) { state = if (view s).accepts then bit_or x bits else bit_or x bits - 8 }
  add_status-features_ok s x bits e set =
      let read : d.get s status ≡ x = v.get_status s ∙ e in
      rw (read, add_status) (v.put_features_ok s (bit_or x bits) set)

  -- DRIVER_OK is added once the features are accepted.
  pub driver_ok-view :
      (s : S)
      → (view s).state ≡ 11
      → (view s).accepts ≡ true
      → view (add_status d s 4) ≡ record (view s) { state = 15 }
  driver_ok-view s running yes_ok =
      add_status-features_ok s 11 4 running refl
      ∙ ap (λ (b : Bool). record (view s) { state = if b then 15 else 7 }) yes_ok

  -- The view after the agreement.
  abbrev pub agreed : View → View
  agreed w = record w { state = if w.accepts then 11 else 3; ready = λ _. 0; areas = λ _. no_areas }

  abbrev started : View → ℕ → View
  started w x = record w { state = x; ready = λ _. 0; areas = λ _. no_areas }

  module _ (s : S) where
    abbrev acknowledged : S
    acknowledged = d.put (d.put s status 0) status 1

    acknowledged-view : view acknowledged ≡ started (view s) 1
    acknowledged-view =
        v.put_status (d.put s status 0) 1 refl (omega arith) ∙ rw (v.put_reset s) refl

    abbrev driver : S
    driver = add_status d acknowledged 2

    driver-view : view driver ≡ started (view s) 3
    driver-view =
        add_status-view acknowledged 1 2 (ap (λ (w : View). w.state) acknowledged-view) refl
          (omega arith)
        ∙ rw acknowledged-view refl

    abbrev chosen : S
    chosen =
        let first = d.put driver device_features_sel 0 in
        d.put (d.put (d.put first device_features_sel 1) driver_features_sel 0) driver_features
          (d.get first device_features)

    chosen-view : view chosen ≡ started (view s) 3
    chosen-view =
        let first = d.put driver device_features_sel 0 in
        let second = d.put first device_features_sel 1 in
        let third = d.put second driver_features_sel 0 in
        v.put_plain third driver_features (d.get first device_features) tt
        ∙ v.put_plain second driver_features_sel 0 tt
        ∙ v.put_plain first device_features_sel 1 tt
        ∙ v.put_plain driver device_features_sel 0 tt
        ∙ driver-view

    offered-view : view (add_status d chosen 8) ≡ agreed (view s)
    offered-view =
        add_status-features_ok chosen 3 8 (ap (λ (w : View). w.state) chosen-view) refl
        ∙ rw chosen-view refl

    tested : not (bit_and (d.get (add_status d chosen 8) status) 8 == 0) ≡ (view s).accepts
    tested =
        let read = v.get_status (add_status d chosen 8) ∙ ap (λ (w : View). w.state) offered-view in
        rw read (bit_of (view s).accepts)
      where
        bit_of : (b : Bool) → not (bit_and (if b then 11 else 3) 8 == 0) ≡ b
        bit_of true = refl
        bit_of false = refl

    -- The agreement succeeds exactly if the device accepts the features. Afterwards the device is
    -- reset, acknowledged and has a driver, with FEATURES_OK only in the case of success.
    pub negotiate_lem :
        ((negotiate d s).0 ≡ (view s).accepts) × (view (negotiate d s).1 ≡ agreed (view s))
    unfolding negotiate
    negotiate_lem = (tested, offered-view)
