-- ===== src/Wolk/Requests.antt =====
-- The calls of the data service that the commands of the buffer make.
use wolk_connect_task.Data.{Surroundings, DataService}
use wolk_connect_task.Data
use wolk_connect_task.Data.Requests
use wolk_connect_task.Wolk.{
  DataCall, add_reading, add_string_reading, add_strings_reading, add_readings, pull_feed_values,
  pull_parameters, synchronize_parameters, details_synchronization, register_feed, register_feeds,
  remove_feed, remove_feeds, add_attribute, update_parameter,
}

module _ {Wire P : Type 0} (e : Surroundings Wire P) where
  unfoldable pub call_data : DataCall → DataService Wire P → DataService Wire P
  call_data (add_reading key reading) = Data.add_reading e key reading
  call_data (add_string_reading key reference value rtc) =
      Data.add_string_reading e key reference value rtc
  call_data (add_strings_reading key reference values rtc) =
      Data.add_strings_reading e key reference values rtc
  call_data (add_readings key readings) = Data.add_readings e key readings
  call_data (pull_feed_values key) = Data.Requests.pull_feed_values e key
  call_data (pull_parameters key) = Data.Requests.pull_parameters e key
  call_data (synchronize_parameters key names callback) =
      λ s. (Data.Requests.synchronize_parameters_with e key names callback s).1
  call_data (details_synchronization key callback) =
      λ s. (Data.Requests.details_synchronization_async e key callback s).1
  call_data (register_feed key feed) = Data.Requests.register_feed e key feed
  call_data (register_feeds key feeds) = Data.Requests.register_feeds e key feeds
  call_data (remove_feed key reference) = Data.Requests.remove_feed e key reference
  call_data (remove_feeds key references) = Data.Requests.remove_feeds e key references
  call_data (add_attribute key attribute) = Data.add_attribute e key attribute
  call_data (update_parameter key parameter) = Data.update_parameter e key parameter
