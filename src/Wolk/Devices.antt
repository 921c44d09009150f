-- ===== src/Wolk/Devices.antt =====
-- The devices of `WolkMulti`, under registrations.
use wolk_connect_task.Prelude.{
  Text, ℕ, ◌≡◌, refl, ap, false, ◌&&◌, ◌||◌, some, List, [], ◌∷◌, ◌++◌, text_eq, ◌==◌, arith,
  Bool-cases, inl, inr, if◌then◌else◌,
}
use wolk_connect_task.Sdk.{Device}
use wolk_connect_task.Wolk.{Surroundings, Wolk, heard_registration}
use wolk_connect_task.Wolk.Reports.{report_files, announce}
use wolk_connect_task.Wolk.Multi.{contains_key}
use wolk_connect_task.Wolk.Multi.Managed.{
  add_device, report_file_management_parameters_for_device,
  report_firmware_update_parameters_for_device, report_firmware_update_for_device,
}
use wolk_connect_task.Wolk.Multi.Registrations.{contains_text, add_registered, registered}

-- No two devices have the same key.
abbrev pub Distinct : List Device → Type 0
Distinct [] = Unit {0}
Distinct (d ∷ ds) = (contains_key d.key ds ≡ false) × Distinct ds

contains_key-append :
    (k : Text) (ds : List Device) (d : Device)
    → contains_key k (ds ++ d ∷ []) ≡ (contains_key k ds || d.key == k)
unfolding contains_key
contains_key-append k [] d = ground arith
contains_key-append k (c ∷ ds) d = ground (arith, contains_key-append k ds d)

Distinct-append :
    (ds : List Device) (d : Device)
    → Distinct ds
    → contains_key d.key ds ≡ false
    → Distinct (ds ++ d ∷ [])
unfolding contains_key
Distinct-append [] d distinct absent = ground arith
Distinct-append (c ∷ ds) d distinct absent =
    (ground (arith, contains_key-append c.key ds d), Distinct-append ds d distinct.1 (ground arith))

module _ {Wire P Fs D Info : Type 0} (e : Surroundings Wire P Fs D Info) where
  add_device-devices :
      (d : Device) (w : Wolk Wire P Fs Info)
      → (add_device e d w).1.devices
        ≡ (if contains_key d.key w.devices then w.devices else w.devices ++ d ∷ [])
  unfolding add_device report_file_management_parameters_for_device
      report_firmware_update_parameters_for_device report_firmware_update_for_device report_files
      announce
  add_device-devices d w = ground arith

  add_device-heard : (d : Device) (w : Wolk Wire P Fs Info) → (add_device e d w).1.heard ≡ w.heard
  unfolding add_device report_file_management_parameters_for_device
      report_firmware_update_parameters_for_device report_firmware_update_for_device report_files
      announce
  add_device-heard d w = ground arith

  -- One turn of the loop over the devices.
  abbrev turn : Text → List Text → Wolk Wire P Fs Info → Wolk Wire P Fs Info
  turn key success w =
      if contains_text key success
      then (add_device e (record { key = key; password = [] }) w).1
      else w

  turn-contains :
      (key k : Text) (success : List Text) (w : Wolk Wire P Fs Info)
      → contains_key k (turn key success w).devices
        ≡ (contains_key k w.devices || key == k && contains_text k success)
  turn-contains key k success w = ground (
    arith,
    add_device-devices (record { key = key; password = [] }) w,
    contains_key-append k w.devices (record { key = key; password = [] }),
  )

  turn-Distinct :
      (key : Text) (success : List Text) (w : Wolk Wire P Fs Info)
      → Distinct w.devices
      → Distinct (turn key success w).devices
  turn-Distinct key success w distinct =
      let d : Device = record { key = key; password = [] } in
      elim (Bool-cases (contains_key key w.devices)) [
        | inl here ↦ ground (arith, add_device-devices d w)
        | inr absent ↦
            ground (arith, add_device-devices d w, Distinct-append w.devices d distinct absent)
      ]

  -- The state of the list after some registrations.
  abbrev Grown : List Text → List Text → List Device → List Device → Type 0
  Grown keys success ds es =
      Distinct es
      × ((k : Text)
          → contains_key k es
            ≡ (contains_key k ds || contains_text k keys && contains_text k success))

  add_registered-Grown :
      (keys success : List Text) (w : Wolk Wire P Fs Info)
      → Distinct w.devices
      → Grown keys success w.devices (add_registered e keys success w).devices
  unfolding add_registered contains_text
  add_registered-Grown [] success w distinct = (distinct, λ k. ground arith)
  add_registered-Grown (key ∷ keys) success w distinct =
      let t = turn key success w in
      let (kept, all) =
        add_registered-Grown keys success t (turn-Distinct key success w distinct) in
      (kept, λ k. ground (arith, all k, turn-contains key k success w))

  add_registered-heard :
      (keys success : List Text) (w : Wolk Wire P Fs Info)
      → (add_registered e keys success w).heard ≡ w.heard
  unfolding add_registered
  add_registered-heard [] success w = refl
  add_registered-heard (key ∷ keys) success w = ground (
    arith,
    add_registered-heard keys success (turn key success w),
    add_device-heard (record { key = key; password = [] }) w,
  )

  -- A response to a registration: the devices that were asked for and succeeded are in the list
  -- afterwards, with those that were there, and nothing else is; when no two devices had the same
  -- key, no two have it then. The user's callback hears the response.
  pub registered-devices :
      (keys success failed : List Text) (callback : ℕ) (w : Wolk Wire P Fs Info)
      → Distinct w.devices
      → (t : Wolk Wire P Fs Info) × (registered e keys (some callback) success failed w ≡ some t)
        × Distinct t.devices
        × ((k : Text)
            → contains_key k t.devices
              ≡ (contains_key k w.devices || contains_text k keys && contains_text k success))
        × (t.heard ≡ w.heard ++ heard_registration callback success failed ∷ [])
  unfolding registered
  registered-devices keys success failed callback w distinct =
      let t = add_registered e keys success w in
      let (kept, all) = add_registered-Grown keys success w distinct in
      let heard = t.heard ++ heard_registration callback success failed ∷ [] in
      (
        record t { heard = heard },
        refl,
        kept,
        all,
        ap (λ h. h ++ heard_registration callback success failed ∷ [])
            (add_registered-heard keys success w),
      )
