-- ===== src/Tests/Wolk.antt =====
-- Witnesses for the objects of the user: a platform that is reached at the third attempt, and a
-- persistence that only counts what is put.
use wolk_connect_task.Prelude.{
  Text, ℕ, ◌+◌, ◌≡◌, refl, ltb, Bool, true, false, ◌&&◌, ◌||◌, Option, none, some, List, [], ◌∷◌,
  ◌++◌, codes, arith, text_eq, ◌==◌, if◌then◌else◌,
}
use wolk_connect_task.Sdk.{Device, Persistence}
use wolk_connect_task.Data.{DataService}
use wolk_connect_task.Wolk.{
  Surroundings, Wolk, multi_device, DataCall, connecting, publishing, status_changed,
  heard_registration,
}
use wolk_connect_task.Wolk.Run.{run_next, run_steps}
use wolk_connect_task.Wolk.Multi.{contains_key}
use wolk_connect_task.Wolk.Multi.Registrations.{contains_text, registered}
use wolk_connect_task.Wolk.Connection.{run_steps-connects}
use wolk_connect_task.Wolk.Deferral.{taken, request_all, call_all, run_steps-requests}
use wolk_connect_task.Wolk.Devices.{Distinct, registered-devices}
use wolk_connect_task.Tests.{Disk, disk_files, hashes}
use wolk_connect_task.Data
use wolk_connect_task.Firmware
use wolk_connect_task.Registration
use wolk_connect_task.FileManagement.Service

-- The keys under which something was put.
abbrev store : Persistence (List Text)
store = record {
  put_reading = λ k r p. k ∷ p;
  get_readings = λ p k n. [];
  remove_readings = λ k n p. p;
  get_readings_keys = λ p. [];
  put_attribute = λ k a p. k ∷ p;
  get_attributes = λ p. [];
  remove_attributes = λ k p. p;
  put_parameter = λ k a p. k ∷ p;
  get_parameters = λ p. [];
  remove_parameters = λ k p. p;
}

abbrev pub e : Surroundings Text (List Text) Disk Text Text
e = record {
  connects = λ n. ltb 1 n;
  firmware_callback = 0;
  on_data = record {
    protocol = record {
      get_message_type = λ w. Data.MessageType.other;
      get_device_key = λ w. w;
      parse_feed_values = λ w. none;
      parse_parameters = λ w. none;
      parse_details = λ w. none;
      make_outbound_message = λ k m. some k;
      get_response_channel = λ k. k;
      to_string = λ n. codes "p";
    };
    store = store;
    accepts = λ ws w. true;
  };
  on_files = record {
    protocol = record {
      get_message_type = λ w. Service.MessageType.other;
      get_device_key = λ w. w;
      parse_file_upload_init = λ w. none;
      parse_file_upload_abort = λ w. none;
      parse_file_binary_response = λ w. none;
      parse_file_url_download_init = λ w. none;
      parse_file_url_download_abort = λ w. none;
      parse_file_list_request = λ w. false;
      parse_file_delete = λ w. none;
      parse_file_purge = λ w. false;
      make_outbound_message = λ k m. some k;
    };
    file_system = disk_files;
    hashes = hashes;
  };
  on_firmware = record {
    protocol = record {
      get_message_type = λ w. Firmware.MessageType.other;
      get_device_key = λ w. w;
      parse_firmware_update_install = λ w. none;
      parse_firmware_update_abort = λ w. false;
      make_outbound_message = λ k s m. some k;
    };
    file_system = disk_files;
    firmware_installer = record {
      get_firmware_version = λ calls k. codes "1";
      install_firmware = λ calls k f. Firmware.InstallResponse.no_file;
      was_firmware_install_successful = λ k v. false;
    };
    listener_version = codes "1";
  };
  on_registration = record {
    protocol = record {
      get_message_type = λ w. Registration.MessageType.other;
      get_device_key = λ w. w;
      parse_children = λ w. none;
      parse_registration = λ w. none;
      parse_devices = λ w. none;
      make_outbound_message = λ k m. some k;
    };
    key_of = λ d. d;
    accepts = λ ws w. true;
  };
}

abbrev device_a : Device
device_a = record { key = codes "a"; password = [] }

abbrev pub idle : Wolk Text (List Text) Disk Text
idle = record {
  type = multi_device;
  devices = device_a ∷ [];
  connected = false;
  connection_status_listener = some 3;
  feed_update_handler = none;
  feed_update_handler_lambda = none;
  parameter_handler = none;
  parameter_lambda = none;
  attempts = 0;
  disconnects = 0;
  data_service = record {
    persistence = [];
    attempts = [];
    sent = [];
    retried = [];
    answered = [];
    feed_update_handler = true;
    parameter_sync_handler = true;
    details_sync_handler = true;
    iterator = 0;
    parameter_subscriptions = [];
    details_callbacks = [];
    command_buffer = [];
    calls = [];
  };
  error_service = record { retain_time = 1000; working = true; cached = [] };
  file_management_service = none;
  firmware_update_service = none;
  registration_service = none;
  registrations = [];
  command_buffer = [];
  heard = [];
}

abbrev starting : Wolk Text (List Text) Disk Text
starting = record idle { command_buffer = connecting true ∷ [] }

run_steps-connects_example :
    (t : Wolk Text (List Text) Disk Text) × (run_steps e 0 3 starting ≡ some t)
    × (t.connected ≡ true)
    × (t.attempts ≡ 3)
    × (t.command_buffer ≡ status_changed ∷ (publishing ∷ []))
run_steps-connects_example =
    run_steps-connects e 0 2 true starting refl (λ i small. ground arith) refl

-- A reading and an attribute of the device, and an attribute of another one.
abbrev calls : List DataCall
calls =
    DataCall.add_string_reading (codes "b") (codes "T") (codes "1") 0
    ∷ (DataCall.add_attribute (codes "b")
          (record { name = codes "N"; data_type = codes "S"; value = codes "1" })
        ∷ (DataCall.pull_parameters (codes "a") ∷ []))

run_steps-requests_example :
    run_steps e 0 2 (request_all 7 calls idle)
    ≡ some (record idle {
      data_service = call_all e.on_data (taken 7 idle.devices calls) idle.data_service;
    })
unfolding taken run_steps run_next contains_key wolk_connect_task.Prelude.text_dec
run_steps-requests_example = run_steps-requests e 0 7 calls idle refl

registered-devices_example :
    (t : Wolk Text (List Text) Disk Text) × (registered e
        (codes "b" ∷ (codes "c" ∷ []))
        (some 9)
        (codes "b" ∷ [])
        (codes "c" ∷ [])
        idle
      ≡ some t)
    × Distinct t.devices
    × ((k : Text)
        → contains_key k t.devices ≡ (
            contains_key k idle.devices
            || contains_text k (codes "b" ∷ (codes "c" ∷ [])) && contains_text k (codes "b" ∷ [])))
    × (t.heard ≡ heard_registration 9 (codes "b" ∷ []) (codes "c" ∷ []) ∷ [])
unfolding contains_key
registered-devices_example =
    registered-devices e (codes "b" ∷ (codes "c" ∷ [])) (codes "b" ∷ []) (codes "c" ∷ []) 9 idle
      (refl, tt)
