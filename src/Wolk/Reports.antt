-- ===== src/Wolk/Reports.antt =====
-- What is reported of the files and of the firmware: the parts that `WolkSingle` and `WolkMulti`
-- share.
use wolk_connect_task.Prelude.{Text, none, some, List, [], ◌∷◌, ◌++◌}
use wolk_connect_task.Sdk.{ParameterName}
use wolk_connect_task.Data.{DataService}
use wolk_connect_task.Data.Requests.{synchronize_parameters_with}
use wolk_connect_task.FileManagement.Service.Files.{report_present_files}
use wolk_connect_task.Firmware.{FirmwareUpdateService, obtain_parameters_and_announce}
use wolk_connect_task.Wolk.{Surroundings, Wolk}

module _ {Wire Fs : Type 0} where
  -- Each message of the queue is published, whatever comes of it.
  unfoldable pub publish_queue :
      List Wire → FirmwareUpdateService Wire Fs → FirmwareUpdateService Wire Fs
  publish_queue [] f = f
  publish_queue (message ∷ queue) f =
      publish_queue queue (record f { sent = f.sent ++ message ∷ []; queue = queue })

module _ {Wire P Fs D Info : Type 0} (e : Surroundings Wire P Fs D Info) where
  unfoldable pub report_files : Text → Wolk Wire P Fs Info → Wolk Wire P Fs Info
  report_files device_key w = elim w.file_management_service [
    | none ↦ w
    | some s ↦ record w {
      file_management_service = some (report_present_files e.on_files device_key s);
    }
  ]

  -- The calls that the firmware update service made of the data service.
  unfoldable pub deliver :
      List (Text × List ParameterName) → DataService Wire P → DataService Wire P
  deliver [] s = s
  deliver ((device_key, names) ∷ calls) s =
      deliver calls
        (synchronize_parameters_with e.on_data device_key names (some e.firmware_callback) s).1

  unfoldable pub announce :
      Text → FirmwareUpdateService Wire Fs → Wolk Wire P Fs Info → Wolk Wire P Fs Info
  announce device_key f w =
      let t = obtain_parameters_and_announce device_key f in
      record w {
        firmware_update_service = some (record t { synchronized = [] });
        data_service = deliver t.synchronized w.data_service;
      }
