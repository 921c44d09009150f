-- ===== src/Wolk/Single.antt =====
-- wolk/WolkSingle.cpp: calls of the user for the one device.
use wolk_connect_task.Prelude.{
  Text, ℕ, Option, none, some, List, [], ◌∷◌, nat_eq, text_eq, ◌==◌, if◌then◌else◌,
}
use wolk_connect_task.Sdk.{Reading, Attribute, Parameter, ParameterName, Feed}
use wolk_connect_task.Registration.Requests.{obtain_children_async}
use wolk_connect_task.Wolk.{
  Surroundings, Wolk, DataCall, calling, WolkInterfaceType, single_device, add_to_command_buffer,
}
use wolk_connect_task.Wolk.Reports.{report_files, publish_queue, announce}
use wolk_connect_task.Wolk

-- A time of 0 stands for now.
abbrev pub or_now : ℕ → ℕ → ℕ
or_now now rtc = if rtc == 0 then now else rtc

module _ {Wire P Fs Info : Type 0} where
  -- `m_device.getKey()`.
  abbrev pub device_key : Wolk Wire P Fs Info → Text
  device_key w = elim w.devices [ [] ↦ [] | device ∷ devices ↦ device.key ]

  unfoldable pub add_string_reading :
      ℕ → Text → Text → ℕ → Wolk Wire P Fs Info → Wolk Wire P Fs Info
  add_string_reading now reference value rtc w =
      add_to_command_buffer
        (calling (DataCall.add_string_reading (device_key w) reference value (or_now now rtc))) w

  unfoldable pub add_strings_reading :
      ℕ → Text → List Text → ℕ → Wolk Wire P Fs Info → Wolk Wire P Fs Info
  add_strings_reading now reference values rtc w =
      add_to_command_buffer
        (calling (DataCall.add_strings_reading (device_key w) reference values (or_now now rtc))) w

  unfoldable pub add_reading : Reading → Wolk Wire P Fs Info → Wolk Wire P Fs Info
  add_reading reading w =
      add_to_command_buffer (calling (DataCall.add_reading (device_key w) reading)) w

  unfoldable pub add_readings : List Reading → Wolk Wire P Fs Info → Wolk Wire P Fs Info
  add_readings readings w =
      add_to_command_buffer (calling (DataCall.add_readings (device_key w) readings)) w

  unfoldable pub pull_feed_values : Wolk Wire P Fs Info → Wolk Wire P Fs Info
  pull_feed_values w = add_to_command_buffer (calling (DataCall.pull_feed_values (device_key w))) w

  unfoldable pub pull_parameters : Wolk Wire P Fs Info → Wolk Wire P Fs Info
  pull_parameters w = add_to_command_buffer (calling (DataCall.pull_parameters (device_key w))) w

  unfoldable pub synchronize_parameters :
      List ParameterName → Option ℕ → Wolk Wire P Fs Info → Wolk Wire P Fs Info
  synchronize_parameters names callback w =
      add_to_command_buffer
        (calling (DataCall.synchronize_parameters (device_key w) names callback)) w

  unfoldable pub obtain_details : Option ℕ → Wolk Wire P Fs Info → Wolk Wire P Fs Info
  obtain_details callback w =
      add_to_command_buffer (calling (DataCall.details_synchronization (device_key w) callback)) w

  unfoldable pub register_feed : Feed → Wolk Wire P Fs Info → Wolk Wire P Fs Info
  register_feed feed w =
      add_to_command_buffer (calling (DataCall.register_feed (device_key w) feed)) w

  unfoldable pub register_feeds : List Feed → Wolk Wire P Fs Info → Wolk Wire P Fs Info
  register_feeds feeds w =
      add_to_command_buffer (calling (DataCall.register_feeds (device_key w) feeds)) w

  unfoldable pub remove_feed : Text → Wolk Wire P Fs Info → Wolk Wire P Fs Info
  remove_feed reference w =
      add_to_command_buffer (calling (DataCall.remove_feed (device_key w) reference)) w

  unfoldable pub remove_feeds : List Text → Wolk Wire P Fs Info → Wolk Wire P Fs Info
  remove_feeds references w =
      add_to_command_buffer (calling (DataCall.remove_feeds (device_key w) references)) w

  unfoldable pub add_attribute : Attribute → Wolk Wire P Fs Info → Wolk Wire P Fs Info
  add_attribute attribute w =
      add_to_command_buffer (calling (DataCall.add_attribute (device_key w) attribute)) w

  unfoldable pub update_parameter : Parameter → Wolk Wire P Fs Info → Wolk Wire P Fs Info
  update_parameter parameter w =
      add_to_command_buffer (calling (DataCall.update_parameter (device_key w) parameter)) w

  abbrev pub get_type : Wolk Wire P Fs Info → WolkInterfaceType
  get_type w = single_device

module _ {Wire P Fs D Info : Type 0} (e : Surroundings Wire P Fs D Info) where
  unfoldable pub obtain_children : Option ℕ → Wolk Wire P Fs Info → Wolk Wire P Fs Info
  obtain_children callback w = elim w.registration_service [
    | none ↦ w
    | some s ↦ record w {
      registration_service =
          some (obtain_children_async e.on_registration (device_key w) callback s).1;
    }
  ]

  unfoldable pub notify_connected : Wolk Wire P Fs Info → Wolk Wire P Fs Info
  notify_connected w =
      let t = report_files e (device_key w) (Wolk.notify_connected w) in
      elim t.firmware_update_service [
        | none ↦ t
        | some f ↦
            if f.installer
            then record t { firmware_update_service = some (publish_queue f.queue f) }
            else if f.parameters_listener
            then announce e (device_key w) f t
            else t
      ]
