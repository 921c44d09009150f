-- ===== src/Data.antt =====
-- wolk/service/data/DataService.{h,cpp}: the service's state, its keys, and the readings,
-- attributes and parameters that it hands to the persistence.
pub mod Requests
pub mod Publish
pub mod Receive
pub mod Keys
use wolk_connect_task.Prelude.{
  Text, ℕ, Bool, true, false, Option, none, some, List, [], ◌∷◌, ◌++◌, nat_eq, ◌==◌, codes,
  if◌then◌else◌,
}
use wolk_connect_task.Sdk.{
  Reading, ReadingValue, string_value, string_values, Attribute, Parameter, ParameterName, Feed,
  Persistence, Connectivity,
}

-- What the service asks the protocol to serialize.
pub data Outbound : Type 0 where
  feed_registration : List Feed → Outbound
  feed_removal : List Text → Outbound
  pull_feed_values : Outbound
  parameters_pull : Outbound
  synchronize_parameters : List ParameterName → Outbound
  details_synchronization_request : Outbound
  feed_values : List Reading → Outbound
  attribute_registration : List Attribute → Outbound
  parameters_update : List Parameter → Outbound

pub data MessageType : Type 0 where
  feed_values parameter_sync details_synchronization_response other : MessageType

pub record FeedValues : Type 0 where
  pub readings : List (ℕ × List Reading)

pub record Details : Type 0 where
  pub feeds : List Text
  pub attributes : List Text

-- `DataProtocol`, with the names that `toString` gives the parameters.
pub record DataProtocol (Wire : Type 0) : Type 0 where
  pub get_message_type : Wire → MessageType
  pub get_device_key : Wire → Text
  pub parse_feed_values : Wire → Option FeedValues
  pub parse_parameters : Wire → Option (List Parameter)
  pub parse_details : Wire → Option Details
  pub make_outbound_message : Text → Outbound → Option Wire
  pub get_response_channel : Text → Text
  pub to_string : ParameterName → Text

pub record Surroundings (Wire P : Type 0) : Type 0 where
  pub protocol : DataProtocol Wire
  pub open protocol use *
  pub store : Persistence P
  pub open store use *
  pub accepts : Connectivity Wire

-- A callback is named by a number; `none` is an empty `std::function`.
pub record ParameterSubscription : Type 0 where
  pub parameters : List ParameterName
  pub callback : Option ℕ

-- What waits in the command buffer: calls of callbacks.
pub data Command : Type 0 where
  parameters_received : ℕ → List Parameter → Command
  details_received : ℕ → Details → Command

-- The calls of the handlers that the service was built with, and what the handler of retries gets.
pub data Call : Type 0 where
  feed_update : Text → FeedValues → Call
  parameter_sync : Text → List Parameter → Call
  details_sync : Text → Details → Call

pub record DataService (Wire P : Type 0) : Type 0 where
  pub persistence : P
  pub attempts : List Wire
  pub sent : List Wire
  pub retried : List (Wire × Text)
  pub answered : List Wire
  pub feed_update_handler : Bool
  pub parameter_sync_handler : Bool
  pub details_sync_handler : Bool
  pub iterator : ℕ
  pub parameter_subscriptions : List (ℕ × ParameterSubscription)
  pub details_callbacks : List ℕ
  pub command_buffer : List Command
  pub calls : List Call

abbrev pub delimiter : Text
delimiter = codes "+"

unfoldable pub make_persistence_key : Text → Text → Text
make_persistence_key device_key reference = device_key ++ (delimiter ++ reference)

-- Two texts around the first delimiter, if there is one: `find` and the two calls of `substr`.
unfoldable pub split_key : Text → Option (Text × Text)
split_key [] = none
split_key (c ∷ key) =
    let rest = split_key key in
    if c == b'+'
    then some ([], key)
    else elim rest [ none ↦ none | some (device_key, reference) ↦ some (c ∷ device_key, reference) ]

unfoldable pub parse_persistence_key : Text → Text × Text
parse_persistence_key key = elim (split_key key) [ none ↦ ([], []) | some parts ↦ parts ]

module _ {Wire P : Type 0} (e : Surroundings Wire P) where
  -- `m_connectivityService.publish`.
  unfoldable pub publish : Wire → DataService Wire P → Bool × DataService Wire P
  publish wire s =
      let ok = e.accepts s.attempts wire in
      (
        ok,
        record s {
          attempts = s.attempts ++ wire ∷ [];
          sent = if ok then s.sent ++ wire ∷ [] else s.sent;
        },
      )

  unfoldable pub add_reading : Text → Reading → DataService Wire P → DataService Wire P
  add_reading device_key reading s = record s {
    persistence =
        e.put_reading (make_persistence_key device_key reading.reference) reading s.persistence;
  }

  unfoldable pub add_string_reading :
      Text → Text → Text → ℕ → DataService Wire P → DataService Wire P
  add_string_reading device_key reference value rtc s = record s {
    persistence =
        e.put_reading (make_persistence_key device_key reference)
          (record { reference = reference; value = string_value value; rtc = rtc }) s.persistence;
  }

  unfoldable pub add_strings_reading :
      Text → Text → List Text → ℕ → DataService Wire P → DataService Wire P
  add_strings_reading device_key reference values rtc s = record s {
    persistence =
        e.put_reading (make_persistence_key device_key reference)
          (record { reference = reference; value = string_values values; rtc = rtc }) s.persistence;
  }

  unfoldable pub add_readings : Text → List Reading → DataService Wire P → DataService Wire P
  add_readings device_key [] s = s
  add_readings device_key (reading ∷ readings) s =
      add_readings device_key readings (add_reading device_key reading s)

  unfoldable pub add_attribute : Text → Attribute → DataService Wire P → DataService Wire P
  add_attribute device_key attribute s = record s {
    persistence =
        e.put_attribute (make_persistence_key device_key attribute.name) attribute s.persistence;
  }

  unfoldable pub update_parameter : Text → Parameter → DataService Wire P → DataService Wire P
  update_parameter device_key parameter s = record s {
    persistence =
        e.put_parameter (make_persistence_key device_key (e.to_string parameter.name)) parameter
          s.persistence;
  }
