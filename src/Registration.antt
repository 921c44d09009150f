-- ===== src/Registration.antt =====
-- wolk/service/registration_service/RegistrationService.{h,cpp}: the requests about devices, and the
-- callbacks that wait for the platform's responses.
pub mod Requests
pub mod Responses
pub mod Queries
pub mod Waiting
use native.Mathlib.Decide.{ℕ_discrete}
use mathlib.Core.Path.{refl, ap₂}
use mathlib.Core.Logic.{dite}
use mathlib.Core.List.{map, head-eq_of_cons-eq, tail-eq_of_cons-eq}
use wolk_connect_task.Prelude.{
  Text, ℕ, Bool, true, false, not, ◌&&◌, Option, none, some, List, [], ◌∷◌, ◌++◌, is_empty, text_eq,
  text_dec, nat_eq, Eq, ◌==◌, if◌then◌else◌,
}
use wolk_connect_task.Prelude.Dict.{Dict, lookup, insert, erase}
use wolk_connect_task.Prelude.Order.{sort, sort_heap}
use wolk_connect_task.Sdk.{Connectivity}

unfoldable pub texts_dec : Discrete (List Text)
texts_dec [] [] = yes refl
texts_dec [] (y ∷ ys) = no (λ e. cc)
texts_dec (x ∷ xs) [] = no (λ e. cc)
texts_dec (x ∷ xs) (y ∷ ys) =
    let rest = texts_dec xs ys in
    dite (text_dec x y)
      (λ e. dite rest (λ p. yes (ap₂ ◌∷◌ e p)) (λ p. no (λ q. p (tail-eq_of_cons-eq q))))
      (λ e. no (λ q. e (head-eq_of_cons-eq q)))

instance abbrev pub texts_eq : Eq (List Text)
texts_eq = record { dec = texts_dec }

-- What the service asks the protocol to serialize; `Data` stands for the data of a device that is
-- to be registered.
pub data Outbound (Data : Type 0) : Type 0 where
  device_registration : List Data → Outbound Data
  device_removal : List Text → Outbound Data
  children_synchronization_request : Outbound Data
  registered_devices_request : ℕ → Text → Text → Outbound Data

pub data MessageType : Type 0 where
  children_synchronization_response device_registration_response registered_devices_response other :
      MessageType

-- `Info` stands for the information on a registered device.
pub record DevicesResponse (Info : Type 0) : Type 0 where
  pub timestamp_from : ℕ
  pub device_type : Text
  pub external_id : Text
  pub matching_devices : List Info

pub record RegistrationProtocol (Wire Data Info : Type 0) : Type 0 where
  pub get_message_type : Wire → MessageType
  pub get_device_key : Wire → Text
  pub parse_children : Wire → Option (List Text)
  pub parse_registration : Wire → Option (List Text × List Text)
  pub parse_devices : Wire → Option (DevicesResponse Info)
  pub make_outbound_message : Text → Outbound Data → Option Wire

pub record Surroundings (Wire Data Info : Type 0) : Type 0 where
  pub protocol : RegistrationProtocol Wire Data Info
  pub open protocol use *
  pub key_of : Data → Text
  pub accepts : Connectivity Wire

-- A callback is named by a number; `none` is an empty `std::function`.
pub record DeviceQueryData : Type 0 where
  pub timestamp_from : ℕ
  pub device_type : Text
  pub external_id : Text
  pub callback : Option ℕ

pub data Command (Info : Type 0) : Type 0 where
  children_received : ℕ → List Text → Command Info
  devices_registered : Option ℕ → List Text → List Text → Command Info
  devices_received : ℕ → List Info → Command Info

pub record RegistrationService (Wire Info : Type 0) : Type 0 where
  pub attempts : List Wire
  pub sent : List Wire
  pub device_registration_callbacks : Dict (List Text) (Option ℕ)
  pub children_synchronization_callbacks : Dict Text (List ℕ)
  pub device_registration_responses : List (DeviceQueryData × Option (DevicesResponse Info))
  pub command_buffer : List (Command Info)

-- `DeviceQueryData::operator==`, which leaves out the callback.
unfoldable pub same_query : DeviceQueryData → DeviceQueryData → Bool
same_query q r =
    q.timestamp_from == r.timestamp_from
    && (q.device_type == r.device_type)
    && (q.external_id == r.external_id)

module _ {ℓ} {V : Type ℓ} where
  -- `find`, `emplace`, `erase` and assignment of a `std::unordered_map` over queries.
  unfoldable pub find_query :
      DeviceQueryData → List (DeviceQueryData × V) → Option (DeviceQueryData × V)
  find_query q [] = none
  find_query q ((r, v) ∷ entries) = if same_query r q then some (r, v) else find_query q entries

  unfoldable pub emplace_query :
      DeviceQueryData → V → List (DeviceQueryData × V) → List (DeviceQueryData × V)
  emplace_query q v entries = elim (find_query q entries) [
    | none ↦ (q, v) ∷ entries
    | some entry ↦ entries
  ]

  unfoldable pub erase_query :
      DeviceQueryData → List (DeviceQueryData × V) → List (DeviceQueryData × V)
  erase_query q [] = []
  erase_query q ((r, v) ∷ entries) =
      let rest = erase_query q entries in if same_query r q then rest else (r, v) ∷ rest

  unfoldable pub assign_query :
      DeviceQueryData → V → List (DeviceQueryData × V) → List (DeviceQueryData × V)
  assign_query q v [] = (q, v) ∷ []
  assign_query q v ((r, w) ∷ entries) =
      let rest = assign_query q v entries in
      if same_query r q then (r, v) ∷ entries else (r, w) ∷ rest

module _ {Wire Info : Type 0} where
  abbrev pub children_callbacks : Text → RegistrationService Wire Info → List ℕ
  children_callbacks device_key s = elim (lookup device_key s.children_synchronization_callbacks) [
    | none ↦ []
    | some callbacks ↦ callbacks
  ]

  unfoldable pub handle_children_synchronization_response :
      Text → List Text → RegistrationService Wire Info → RegistrationService Wire Info
  handle_children_synchronization_response device_key children s =
      elim (children_callbacks device_key s) [
        | [] ↦ record s {
          children_synchronization_callbacks =
              insert device_key [] s.children_synchronization_callbacks;
        }
        | callback ∷ callbacks ↦ record s {
          children_synchronization_callbacks =
              insert device_key callbacks s.children_synchronization_callbacks;
          command_buffer = s.command_buffer ++ children_received callback children ∷ [];
        }
      ]

  unfoldable pub handle_device_registration_response :
      List Text → List Text → RegistrationService Wire Info → RegistrationService Wire Info
  handle_device_registration_response success failed s =
      let names = sort (success ++ failed) in
      elim (lookup names s.device_registration_callbacks) [
        | none ↦ s
        | some callback ↦ record s {
          device_registration_callbacks = erase names s.device_registration_callbacks;
          command_buffer = s.command_buffer ++ devices_registered callback success failed ∷ [];
        }
      ]

  unfoldable pub handle_registered_devices_response :
      DevicesResponse Info → RegistrationService Wire Info → RegistrationService Wire Info
  handle_registered_devices_response response s =
      let query : DeviceQueryData = record {
        timestamp_from = response.timestamp_from;
        device_type = response.device_type;
        external_id = response.external_id;
        callback = none;
      } in
      elim (find_query query s.device_registration_responses) [
        | none ↦ s
        | some (found, value) ↦ elim found.callback [
          | some callback ↦ record s {
            command_buffer =
                s.command_buffer ++ devices_received callback response.matching_devices ∷ [];
          }
          | none ↦ record s {
            device_registration_responses =
                assign_query query (some response) s.device_registration_responses;
          }
        ]
      ]

  -- The second half of `obtainDevices`, after the waiting.
  unfoldable pub take_response :
      DeviceQueryData
      → RegistrationService Wire Info
      → Option (List Info) × RegistrationService Wire Info
  take_response query s = elim (find_query query s.device_registration_responses) [
    | none ↦ (none, s)
    | some (found, value) ↦ (
      elim value [ none ↦ none | some response ↦ some response.matching_devices ],
      record s {
        device_registration_responses = erase_query query s.device_registration_responses;
      },
    )
  ]
