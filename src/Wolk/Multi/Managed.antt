-- ===== src/Wolk/Multi/Managed.antt =====
-- wolk/WolkMulti.cpp: what is reported of a device, and the devices that are added.
use wolk_connect_task.Prelude.{
  Text, Bool, true, false, none, some, List, [], ◌∷◌, ◌++◌, codes, if◌then◌else◌,
}
use wolk_connect_task.Sdk.{
  Device, ParameterName, file_transfer_platform_enabled, file_transfer_url_enabled,
  firmware_update_enabled, firmware_version,
}
use wolk_connect_task.Data.{DataService}
use wolk_connect_task.Data.Publish.{publish_device_parameters}
use wolk_connect_task.Firmware.{load_state, get_version_for_device}
use wolk_connect_task.Wolk.{Surroundings, Wolk}
use wolk_connect_task.Wolk.Reports.{report_files, publish_queue, announce}
use wolk_connect_task.Wolk.Multi.{is_device_in_list}
use wolk_connect_task.Data
use wolk_connect_task.Wolk

-- How a flag is written.
abbrev pub flag : Bool → Text
flag b = if b then codes "true" else codes "false"

module _ {Wire P Fs D Info : Type 0} (e : Surroundings Wire P Fs D Info) where
  abbrev pub set_parameter : Text → ParameterName → Text → Wolk Wire P Fs Info → Wolk Wire P Fs Info
  set_parameter device_key name value w = record w {
    data_service =
        Data.update_parameter e.on_data device_key (record { name = name; value = value })
          w.data_service;
  }

  unfoldable pub report_file_management_parameters_for_device :
      Text → Wolk Wire P Fs Info → Wolk Wire P Fs Info
  report_file_management_parameters_for_device device_key w =
      let transfer_enabled : Bool = elim w.file_management_service [
        | none ↦ false
        | some s ↦ s.file_transfer_enabled
      ] in
      let url_download_enabled : Bool = elim w.file_management_service [
        | none ↦ false
        | some s ↦ s.file_transfer_url_enabled
      ] in
      set_parameter device_key file_transfer_url_enabled (flag url_download_enabled)
        (set_parameter device_key file_transfer_platform_enabled (flag transfer_enabled) w)

  unfoldable pub report_firmware_update_parameters_for_device :
      Text → Wolk Wire P Fs Info → Wolk Wire P Fs Info
  report_firmware_update_parameters_for_device device_key w =
      let version : Text = elim w.firmware_update_service [
        | none ↦ []
        | some f ↦ get_version_for_device e.on_firmware device_key f
      ] in
      let enabled : Bool = elim w.firmware_update_service [ none ↦ false | some f ↦ true ] in
      set_parameter device_key firmware_version version
        (set_parameter device_key firmware_update_enabled (flag enabled) w)

  unfoldable pub report_firmware_update_for_device :
      Text → Wolk Wire P Fs Info → Wolk Wire P Fs Info
  report_firmware_update_for_device device_key w = elim w.firmware_update_service [
    | none ↦ w
    | some f ↦
        if f.installer
        then (let t = load_state e.on_firmware device_key f in
            record w { firmware_update_service = some (publish_queue t.queue t) })
        else if f.parameters_listener
        then announce e device_key f w
        else w
  ]

  unfoldable pub add_device : Device → Wolk Wire P Fs Info → Bool × Wolk Wire P Fs Info
  add_device device w =
      if is_device_in_list device.key w
      then (false, w)
      else (let added : Wolk Wire P Fs Info = record w { devices = w.devices ++ device ∷ [] } in
          let t =
            report_firmware_update_parameters_for_device device.key
              (report_file_management_parameters_for_device device.key added) in
          let u : Wolk Wire P Fs Info = record t {
            data_service = publish_device_parameters e.on_data device.key t.data_service;
          } in
          (
            true,
            if t.connected
                then report_firmware_update_for_device device.key (report_files e device.key u)
                else t,
          ))

  unfoldable pub report_all : List Device → Wolk Wire P Fs Info → Wolk Wire P Fs Info
  report_all [] w = w
  report_all (device ∷ devices) w =
      report_all devices
        (report_firmware_update_for_device device.key (report_files e device.key w))

  unfoldable pub notify_connected : Wolk Wire P Fs Info → Wolk Wire P Fs Info
  notify_connected w = report_all w.devices (Wolk.notify_connected w)
