-- ===== src/Wolk/Multi.antt =====
-- wolk/WolkMulti.cpp: the calls of the user for a device of the list.
pub mod Managed
pub mod Registrations
use Prim.Native.Nat.{◌^◌}
use wolk_connect_task.Prelude.{
  Text, ℕ, ◌+◌, ◌-◌, Bool, true, false, not, Option, none, some, List, [], ◌∷◌, ◌++◌, nat_eq,
  text_eq, ◌==◌, if◌then◌else◌, codes,
}
use wolk_connect_task.Sdk.{Reading, Attribute, Parameter, Feed, Device}
use wolk_connect_task.Wolk.{
  Surroundings, Wolk, DataCall, calling, WolkInterfaceType, multi_device, add_to_command_buffer,
}
use wolk_connect_task.Wolk.Single.{or_now}

unfoldable pub contains_key : Text → List Device → Bool
contains_key device_key [] = false
contains_key device_key (device ∷ devices) =
    let rest = contains_key device_key devices in if device.key == device_key then true else rest

module _ {Wire P Fs Info : Type 0} where
  abbrev pub is_device_in_list : Text → Wolk Wire P Fs Info → Bool
  is_device_in_list device_key w = contains_key device_key w.devices

  -- The key of a reading is not checked.
  unfoldable pub add_string_reading :
      ℕ → Text → Text → Text → ℕ → Wolk Wire P Fs Info → Wolk Wire P Fs Info
  add_string_reading now device_key reference value rtc w =
      add_to_command_buffer
        (calling (DataCall.add_string_reading device_key reference value (or_now now rtc))) w

  unfoldable pub add_strings_reading :
      ℕ → Text → Text → List Text → ℕ → Wolk Wire P Fs Info → Wolk Wire P Fs Info
  add_strings_reading now device_key reference values rtc w =
      add_to_command_buffer
        (calling (DataCall.add_strings_reading device_key reference values (or_now now rtc))) w

  unfoldable pub add_reading : Text → Reading → Wolk Wire P Fs Info → Wolk Wire P Fs Info
  add_reading device_key reading w =
      add_to_command_buffer (calling (DataCall.add_reading device_key reading)) w

  unfoldable pub add_readings : Text → List Reading → Wolk Wire P Fs Info → Wolk Wire P Fs Info
  add_readings device_key readings w =
      add_to_command_buffer (calling (DataCall.add_readings device_key readings)) w

  unfoldable pub register_feed : Text → Feed → Wolk Wire P Fs Info → Wolk Wire P Fs Info
  register_feed device_key feed w =
      if not (is_device_in_list device_key w)
      then w
      else add_to_command_buffer (calling (DataCall.register_feed device_key feed)) w

  unfoldable pub register_feeds : Text → List Feed → Wolk Wire P Fs Info → Wolk Wire P Fs Info
  register_feeds device_key feeds w =
      if not (is_device_in_list device_key w)
      then w
      else add_to_command_buffer (calling (DataCall.register_feeds device_key feeds)) w

  unfoldable pub remove_feed : Text → Text → Wolk Wire P Fs Info → Wolk Wire P Fs Info
  remove_feed device_key reference w =
      if not (is_device_in_list device_key w)
      then w
      else add_to_command_buffer (calling (DataCall.remove_feed device_key reference)) w

  unfoldable pub remove_feeds : Text → List Text → Wolk Wire P Fs Info → Wolk Wire P Fs Info
  remove_feeds device_key references w =
      if not (is_device_in_list device_key w)
      then w
      else add_to_command_buffer (calling (DataCall.remove_feeds device_key references)) w

  unfoldable pub pull_feed_values : Text → Wolk Wire P Fs Info → Wolk Wire P Fs Info
  pull_feed_values device_key w =
      if not (is_device_in_list device_key w)
      then w
      else add_to_command_buffer (calling (DataCall.pull_feed_values device_key)) w

  unfoldable pub pull_parameters : Text → Wolk Wire P Fs Info → Wolk Wire P Fs Info
  pull_parameters device_key w =
      if not (is_device_in_list device_key w)
      then w
      else add_to_command_buffer (calling (DataCall.pull_parameters device_key)) w

  unfoldable pub add_attribute : Text → Attribute → Wolk Wire P Fs Info → Wolk Wire P Fs Info
  add_attribute device_key attribute w =
      if not (is_device_in_list device_key w)
      then w
      else add_to_command_buffer (calling (DataCall.add_attribute device_key attribute)) w

  unfoldable pub update_parameter : Text → Parameter → Wolk Wire P Fs Info → Wolk Wire P Fs Info
  update_parameter device_key parameter w =
      if not (is_device_in_list device_key w)
      then w
      else add_to_command_buffer (calling (DataCall.update_parameter device_key parameter)) w

  abbrev pub get_type : Wolk Wire P Fs Info → WolkInterfaceType
  get_type w = multi_device
