-- ===== src/Builder/Outcomes.antt =====
-- What a builder that was configured builds.
use wolk_connect_task.Prelude.{
  is_some, Text, ◌≡◌, refl, ◌⊎◌, inl, inr, true, false, ◌||◌, Option, none, some, [], ◌∷◌, is_empty,
  arith, Option-cases, Bool-cases,
}
use wolk_connect_task.Sdk.{
  Device, ParameterName, file_transfer_platform_enabled, file_transfer_url_enabled,
  firmware_update_enabled, firmware_version,
}
use wolk_connect_task.Data.{make_persistence_key, update_parameter}
use wolk_connect_task.FileManagement.Service.{FileManagementService}
use wolk_connect_task.Firmware.{load_state, FirmwareUpdateService}
use wolk_connect_task.Wolk.{Surroundings, single_device}
use wolk_connect_task.Wolk.Multi.Managed.{flag}
use wolk_connect_task.Builder.{WolkBuilder}
use wolk_connect_task.Builder.Services.{
  surroundings_of, new_data_service, new_file_management_service, new_firmware_update_service,
  load_states, set_file_parameters, firmware_version_of, set_firmware_parameters, new_wolk,
}
use wolk_connect_task.Builder.Build.{
  Built, undefined, built, loaded, finished, build_with, build_over, build_as, build,
  build_wolk_single,
}
use wolk_connect_task.Builder.Options.{Configured, Configured-Enabled, has_firmware, is_complete}

module _ {Wire P Fs D Info : Type 0} (e : Surroundings Wire P Fs D Info) where
  -- The persistence with one parameter more.
  abbrev put : Device → WolkBuilder Wire P → ParameterName → Text → P → P
  put d b name value p =
      e.on_data.put_parameter
        (make_persistence_key d.key ((surroundings_of e b).on_data.to_string name))
        (record { name = name; value = value }) p

  -- The four parameters of a device, in the order in which they are put.
  abbrev pub with_parameters : Device → WolkBuilder Wire P → P → P
  with_parameters d b p = put d b firmware_version (firmware_version_of d.key b) (
      put d b firmware_update_enabled (flag b.firmware_update_protocol) (
        put d b file_transfer_url_enabled (flag b.file_transfer_url_enabled)
          (put d b file_transfer_platform_enabled (flag b.file_transfer_enabled) p)))

  parameters_put :
      (d : Device) (p : P) (b : WolkBuilder Wire P)
      → b.devices ≡ d ∷ []
      → (set_firmware_parameters e b.devices b
          (set_file_parameters e b.devices b (new_data_service p))).persistence
        ≡ with_parameters d b p
  unfolding set_firmware_parameters set_file_parameters new_data_service update_parameter
  parameters_put d p b one = rw one refl

  new_firmware-is_some :
      (disk : Fs) (b : WolkBuilder Wire P)
      → is_some (new_firmware_update_service e disk b)
        ≡ (is_some b.firmware_installer || is_some b.firmware_parameters_listener)
  unfolding new_firmware_update_service
  new_firmware-is_some disk b = ground arith

  loaded-cases :
      (disk : Fs) (d : Device) (b : WolkBuilder Wire P)
      → b.devices ≡ d ∷ []
      → ((has_firmware b ≡ false) × (loaded e disk b ≡ none))
        ⊎ ((has_firmware b ≡ true)
            × ((f : Option (FirmwareUpdateService Wire Fs)) × (loaded e disk b ≡ some f)
                × (is_some f ≡ b.firmware_update_protocol)))
  unfolding load_states
  loaded-cases disk d b one = elim (Bool-cases b.firmware_update_protocol) [
    | inl asked ↦ elim (Option-cases (new_firmware_update_service e disk b)) [
      | inl null ↦ inl (ground (arith, new_firmware-is_some disk b), ground arith)
      | inr (f, made) ↦
          let t = load_state (surroundings_of e b).on_firmware d.key f in
          inr (ground (arith, new_firmware-is_some disk b), (some t, ground arith, ground arith))
    ]
    | inr unasked ↦ inr (ground arith, (none, ground arith, ground arith))
  ]

module _ {Wire P Fs D Info Status : Type 0} (e : Surroundings Wire P Fs D Info) where
  -- An object for one device: it waits for `connect`, has a service for every option, and has put the
  -- parameters.
  pub record IsReady (d : Device) (p : P) (b : WolkBuilder Wire P)
      (t : Built Wire P Fs D Info Status) : Type 0 where
    pub type : t.wolk.type ≡ single_device
    pub devices : t.wolk.devices ≡ d ∷ []
    pub idle : (t.wolk.connected ≡ false) × (t.wolk.command_buffer ≡ [])
    pub files : is_some t.wolk.file_management_service ≡ b.file_management_protocol
    pub firmware : is_some t.wolk.firmware_update_service ≡ b.firmware_update_protocol
    pub registration : is_some t.wolk.registration_service ≡ b.registration_protocol
    pub platform : is_some t.platform_status ≡ b.platform_status_protocol
    pub client : t.client ≡ (d.key, d.password)
    pub parameters : t.wolk.data_service.persistence ≡ with_parameters e d b p

  -- The file management service never throws.
  build_over-with :
      (disk : Fs) (p : P) (b : WolkBuilder Wire P) (d : Device)
      → Configured b
      → (after : Fs) × ((files : Option (FileManagementService Wire Fs)) × (build_over
              {Status = Status} e single_device
              (d.key, d.password)
              disk
              p
              b
            ≡ build_with e single_device (d.key, d.password) after files p b)
          × (is_some files ≡ b.file_management_protocol))
  unfolding build_over new_file_management_service
  build_over-with disk p b d configured = elim (Bool-cases b.file_management_protocol) [
    | inl asked ↦ elim (Option-cases (new_file_management_service e disk b)) [
      | inl null ↦ ground (arith, Configured-Enabled configured)
      | inr (s, made) ↦ (s.disk, (some s, ground arith, ground arith))
    ]
    | inr unasked ↦ (disk, (none, ground arith, ground arith))
  ]

  -- The guards let a device with a key and a password pass.
  build_wolk_single-as :
      (disk : Fs) (b : WolkBuilder Wire P) (d : Device)
      → b.devices ≡ d ∷ []
      → is_empty d.key ≡ false
      → is_empty d.password ≡ false
      → build_wolk_single {Status = Status} e disk b
        ≡ build_as e single_device (d.key, d.password) disk b
  unfolding build_wolk_single build
  build_wolk_single-as disk b d one key password = ground arith

  build_over-IsReady :
      (disk : Fs) (p : P) (b : WolkBuilder Wire P) (d : Device)
      → Configured b
      → b.devices ≡ d ∷ []
      → ((has_firmware b ≡ false)
          × (build_over {Status = Status} e single_device (d.key, d.password) disk p b ≡ undefined))
        ⊎ ((has_firmware b ≡ true)
            × ((t : Built Wire P Fs D Info Status) × (build_over e single_device
                    (d.key, d.password)
                    disk
                    p
                    b
                  ≡ built t)
                × IsReady d p b t))
  unfolding build_with new_wolk
  build_over-IsReady disk p b d configured one =
      let (after, (files, same, made)) = build_over-with disk p b d configured in
      elim (loaded-cases e after d b one) [
        | inl (missing, null) ↦ inl (missing, ground arith)
        | inr (given, (firmware, done, present)) ↦
            let t = finished e single_device (d.key, d.password) files firmware p b in
            inr (
              given,
              (
                t,
                ground arith,
                record {
                  type = refl;
                  devices = one;
                  idle = (refl, refl);
                  files = made;
                  firmware = present;
                  registration = ground arith;
                  platform = ground arith;
                  client = refl;
                  parameters = parameters_put e d p b one;
                },
              ),
            )
      ]

  -- A builder that came of its setters, with one device that has a key and a password: when the
  -- persistence or the data protocol was set to a null pointer, or firmware updates were asked for
  -- with one, a null pointer is dereferenced. Otherwise an object is built: no exception is thrown, it
  -- is not connected and nothing waits, it has a service for each of the four options exactly when it
  -- was set, the connection is made with the device's key and password, and the four parameters of the
  -- device lie in the persistence that was set.
  pub build_wolk_single-IsReady :
      (disk : Fs) (b : WolkBuilder Wire P) (d : Device)
      → Configured b
      → b.devices ≡ d ∷ []
      → is_empty d.key ≡ false
      → is_empty d.password ≡ false
      → ((is_complete b ≡ false) × (build_wolk_single {Status = Status} e disk b ≡ undefined))
        ⊎ ((is_complete b ≡ true)
            × ((t : Built Wire P Fs D Info Status) × (build_wolk_single e disk b ≡ built t)
                × ((p : P) × (b.persistence ≡ some p) × IsReady d p b t)))
  unfolding build_as
  build_wolk_single-IsReady disk b d configured one key password =
      let same = build_wolk_single-as disk b d one key password in
      elim (Option-cases b.data_protocol) [
        | inl null ↦ inl (ground arith, ground arith)
        | inr (protocol, spoken) ↦ elim (Option-cases b.persistence) [
          | inl null ↦ inl (ground arith, ground arith)
          | inr (p, kept) ↦ elim (build_over-IsReady disk p b d configured one) [
            | inl (missing, broken) ↦ inl (ground arith, ground arith)
            | inr (given, (t, done, ready)) ↦
                inr (ground arith, (t, ground arith, (p, kept, ready)))
          ]
        ]
      ]
