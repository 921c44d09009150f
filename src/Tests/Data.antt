-- ===== src/Tests/Data.antt =====
-- Readings, attributes and parameters of a device, over a persistence that is a map.
use native.Mathlib.Decide.{ℕ_discrete}
use wolk_connect_task.Prelude.{
  Text, ◌≡◌, refl, ◌⊎◌, true, Option, none, some, List, [], ◌∷◌, ◌++◌, codes, arith, text_dec,
  text_eq, is_empty, take, drop,
}
use wolk_connect_task.Prelude.Dict.{Dict, lookup, insert, lookup-insert}
use wolk_connect_task.Sdk.{
  Reading, string_value, Attribute, Parameter, firmware_version, Persistence,
}
use wolk_connect_task.Data.{
  Outbound, feed_values, attribute_registration, MessageType, ParameterSubscription, Surroundings,
  DataService, split_key, parse_persistence_key,
}
use wolk_connect_task.Data.Publish.{
  group_by_device, attributes, parameters, publish_groups, publish_attributes, publish_parameters,
  publish_readings_for_persistence_key,
}
use wolk_connect_task.Data.Publish.Readings.{KeepsReadings, Drained, publish_readings-Drained}
use wolk_connect_task.Data.Publish.Groups.{Tries, publish_attributes-Tries}
use wolk_connect_task.Data.Receive.{message_received}
use wolk_connect_task.Data.Receive.Subscriptions.{
  NoneAsks, Served, to_handler, message_received-parameters,
}

data Wire : Type 0 where
  values : Text → List Parameter → Wire
  out : Text → Outbound → Wire

abbrev type_of : Wire → MessageType
type_of (values k ps) = MessageType.parameter_sync
type_of (out k m) = MessageType.other

abbrev device_of : Wire → Text
device_of (values k ps) = k
device_of (out k m) = k

abbrev values_of : Wire → Option (List Parameter)
values_of (values k ps) = some ps
values_of (out k m) = none

abbrev Store : Type 0
Store = Dict Text (List Reading)

abbrev readings_of : Store → Text → List Reading
readings_of p k = elim (lookup k p) [ none ↦ [] | some rs ↦ rs ]

abbrev store : Persistence Store
store = record {
  put_reading = λ k r p. insert k (readings_of p k ++ r ∷ []) p;
  get_readings = λ p k n. take n (readings_of p k);
  remove_readings = λ k n p. insert k (drop n (readings_of p k)) p;
  get_readings_keys = λ p. [];
  put_attribute = λ k a p. p;
  get_attributes = λ p. [];
  remove_attributes = λ k p. p;
  put_parameter = λ k a p. p;
  get_parameters = λ p. [];
  remove_parameters = λ k p. p;
}

store-KeepsReadings : KeepsReadings store
store-KeepsReadings = record {
  readings = readings_of;
  get = λ p k n. refl;
  remove = λ p k n. ground (arith, lookup-insert k k (drop n (readings_of p k)) p);
}

-- The connection takes one message.
abbrev world : Surroundings Wire Store
world = record {
  protocol = record {
    get_message_type = type_of;
    get_device_key = device_of;
    parse_feed_values = λ wire. none;
    parse_parameters = values_of;
    parse_details = λ wire. none;
    make_outbound_message = λ k m. some (out k m);
    get_response_channel = λ k. k;
    to_string = λ name. codes "p";
  };
  store = store;
  accepts = λ attempts wire. is_empty attempts;
}

abbrev device : Text
device = codes "D1"

abbrev key : Text
key = codes "D1+T"

abbrev reading : Reading
reading = record { reference = codes "T"; value = string_value (codes "20"); rtc = 0 }

abbrev callback_subscription : ParameterSubscription
callback_subscription = record { parameters = firmware_version ∷ []; callback = some 4 }

abbrev service : DataService Wire Store
service = record {
  persistence = (key, reading ∷ reading ∷ []) ∷ [];
  attempts = [];
  sent = [];
  retried = [];
  answered = [];
  feed_update_handler = true;
  parameter_sync_handler = true;
  details_sync_handler = true;
  iterator = 1;
  parameter_subscriptions = (0, callback_subscription) ∷ [];
  details_callbacks = [];
  command_buffer = [];
  calls = [];
}

publish_readings-Drained_example :
    (t : DataService Wire Store) × (publish_readings_for_persistence_key world 3 key service
      ≡ some t)
    × Drained world store-KeepsReadings key (λ rs. out device (feed_values rs)) service t
unfolding lookup text_dec ℕ_discrete parse_persistence_key split_key store-KeepsReadings
publish_readings-Drained_example =
    publish_readings-Drained world store-KeepsReadings 3 key (λ rs. out device (feed_values rs))
      service refl (λ rs. refl) (omega arith)

abbrev attribute : Attribute
attribute = record { name = codes "a"; data_type = codes "STRING"; value = codes "v" }

abbrev entries : List (Text × Attribute)
entries = (codes "D2+a", attribute) ∷ (codes "D1+a", attribute) ∷ (codes "D2+b", attribute) ∷ []

-- A persistence with attributes of two devices.
abbrev holding : Surroundings Wire Store
holding = record world { store = record store { get_attributes = λ p. entries } }

publish_attributes-Tries_example :
    Tries holding (attributes holding) entries service (publish_attributes holding service)
    × Tries holding
        (parameters holding)
        (holding.get_parameters service.persistence)
        service
        (publish_parameters holding service)
publish_attributes-Tries_example = publish_attributes-Tries holding service

-- The second message is tried although the connection refuses it.
publish_attributes_run :
    (publish_attributes holding service).attempts
    ≡ out (codes "D1") (attribute_registration (attribute ∷ []))
      ∷ out (codes "D2") (attribute_registration (attribute ∷ attribute ∷ []))
      ∷ []
unfolding publish_attributes group_by_device publish_groups parse_persistence_key split_key text_dec
    ℕ_discrete wolk_connect_task.Data.Publish.add_to_group wolk_connect_task.Data.Publish.delete_all
    wolk_connect_task.Data.publish wolk_connect_task.Prelude.Order.text_ltb
publish_attributes_run = refl

abbrev version : Parameter
version = record { name = firmware_version; value = codes "2" }

message_received-parameters_example :
    Served world
      (version ∷ [])
      service
      (message_received world (some (values device (version ∷ []))) service)
    ⊎ (NoneAsks service.parameter_subscriptions (version ∷ [])
        × (message_received world (some (values device (version ∷ []))) service
            ≡ to_handler world device (version ∷ []) service))
message_received-parameters_example =
    message_received-parameters world (values device (version ∷ [])) (version ∷ []) service
      ((4, refl), tt) refl refl refl
