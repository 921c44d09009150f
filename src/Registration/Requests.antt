-- ===== src/Registration/Requests.antt =====
-- The requests of RegistrationService, and messageReceived.
use mathlib.Core.List.{map}
use wolk_connect_task.Prelude.{
  Text, ℕ, Bool, true, false, Option, none, some, List, [], ◌∷◌, ◌++◌, is_empty, text_eq, nat_eq,
  if◌then◌else◌,
}
use wolk_connect_task.Prelude.Dict.{lookup, insert}
use wolk_connect_task.Prelude.Order.{sort_heap}
use wolk_connect_task.Registration.{
  device_registration, device_removal, children_synchronization_request, registered_devices_request,
  Outbound, Surroundings, DeviceQueryData, RegistrationService, texts_eq, emplace_query,
  children_callbacks, handle_children_synchronization_response, handle_device_registration_response,
  handle_registered_devices_response,
}
use wolk_connect_task.Registration.MessageType.{
  children_synchronization_response, device_registration_response, registered_devices_response,
  other,
}

module _ {Wire Data Info : Type 0} (e : Surroundings Wire Data Info) where
  -- The message is made and published: whether that succeeded.
  unfoldable pub send :
      Text → Outbound Data → RegistrationService Wire Info → Bool × RegistrationService Wire Info
  send device_key message s = elim (e.make_outbound_message device_key message) [
    | none ↦ (false, s)
    | some wire ↦
        let ok = e.accepts s.attempts wire in
        (
          ok,
          record s {
            attempts = s.attempts ++ wire ∷ [];
            sent = if ok then s.sent ++ wire ∷ [] else s.sent;
          },
        )
  ]

  unfoldable pub has_empty_key : List Data → Bool
  has_empty_key [] = false
  has_empty_key (device ∷ devices) =
      if is_empty (e.key_of device) then true else has_empty_key devices

  -- `none` is undefined behaviour: the names are not a heap.
  unfoldable pub register_devices :
      Text
      → List Data
      → Option ℕ
      → RegistrationService Wire Info
      → Option (Bool × RegistrationService Wire Info)
  register_devices device_key devices callback s =
      if is_empty devices
      then some (false, s)
      else if has_empty_key devices
      then some (false, s)
      else elim (sort_heap (map e.key_of devices)) [
        | none ↦ none
        | some names ↦
            let (ok, t) = send device_key (device_registration devices) s in
            some (
              ok,
              if ok
                  then record t {
                    device_registration_callbacks =
                        elim (lookup names t.device_registration_callbacks) [
                          | none ↦ insert names callback t.device_registration_callbacks
                          | some waiting ↦ t.device_registration_callbacks
                        ];
                  }
                  else t,
            )
      ]

  unfoldable pub remove_devices :
      Text → List Text → RegistrationService Wire Info → Bool × RegistrationService Wire Info
  remove_devices device_key device_keys = send device_key (device_removal device_keys)

  unfoldable pub obtain_children_async :
      Text → Option ℕ → RegistrationService Wire Info → Bool × RegistrationService Wire Info
  obtain_children_async device_key none s = (false, s)
  obtain_children_async device_key (some callback) s =
      let (ok, t) = send device_key children_synchronization_request s in
      (
        ok,
        if ok
            then record t {
              children_synchronization_callbacks =
                  insert device_key (children_callbacks device_key t ++ callback ∷ [])
                    t.children_synchronization_callbacks;
            }
            else t,
      )

  -- The first half of `obtainDevices`, up to the waiting, and all of `obtainDevicesAsync` but for
  -- its test of the callback.
  unfoldable pub request_devices :
      Text → DeviceQueryData → RegistrationService Wire Info → Bool × RegistrationService Wire Info
  request_devices device_key query s =
      let (ok, t) =
        send device_key
          (registered_devices_request query.timestamp_from query.device_type query.external_id) s in
      (
        ok,
        if ok
            then record t {
              device_registration_responses =
                  emplace_query query none t.device_registration_responses;
            }
            else t,
      )

  unfoldable pub obtain_devices_async :
      Text
      → ℕ
      → Text
      → Text
      → Option ℕ
      → RegistrationService Wire Info
      → Bool × RegistrationService Wire Info
  obtain_devices_async device_key timestamp_from device_type external_id none s = (false, s)
  obtain_devices_async device_key timestamp_from device_type external_id (some callback) s =
      request_devices device_key
        (record {
          timestamp_from = timestamp_from;
          device_type = device_type;
          external_id = external_id;
          callback = some callback;
        })
        s

  unfoldable pub message_received :
      Wire → RegistrationService Wire Info → RegistrationService Wire Info
  message_received wire s = elim (e.get_message_type wire) [
    | children_synchronization_response ↦ elim (e.parse_children wire) [
      | none ↦ s
      | some children ↦ handle_children_synchronization_response (e.get_device_key wire) children s
    ]
    | device_registration_response ↦ elim (e.parse_registration wire) [
      | none ↦ s
      | some (success, failed) ↦ handle_device_registration_response success failed s
    ]
    | registered_devices_response ↦ elim (e.parse_devices wire) [
      | none ↦ s
      | some response ↦ handle_registered_devices_response response s
    ]
    | other ↦ s
  ]
