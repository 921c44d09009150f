-- ===== src/Tests/Registration.antt =====
-- Registrations, children and queries of devices, where a device is its key.
use native.Mathlib.Decide.{ℕ_discrete}
use mathlib.Core.List.{Permᴰ}
use wolk_connect_task.Prelude.{
  Text, ℕ, ◌≡◌, refl, true, Option, none, some, List, [], ◌∷◌, codes, text_dec,
}
use wolk_connect_task.Prelude.Dict.{lookup, insert}
use wolk_connect_task.Prelude.Order.{text_ltb, heap_from, is_heap, sort_heap, sort}
use wolk_connect_task.Registration.{
  Outbound, device_registration, children_synchronization_request, registered_devices_request,
  MessageType, DevicesResponse, Surroundings, children_received, devices_registered,
  RegistrationService, texts_dec, texts_eq, find_query, emplace_query, children_callbacks,
  handle_device_registration_response, handle_registered_devices_response, take_response,
}
use wolk_connect_task.Registration.Requests.{
  send, has_empty_key, register_devices, obtain_children_async, request_devices,
}
use wolk_connect_task.Registration.Responses.{
  register_devices-response, receive_children, obtain_children_async-served,
}
use wolk_connect_task.Registration.Queries.{query_of, take_response-request}

data Wire : Type 0 where
  out : Text → Outbound Text → Wire

abbrev world : Surroundings Wire Text Text
world = record {
  protocol = record {
    get_message_type = λ wire. MessageType.other;
    get_device_key = λ wire. [];
    parse_children = λ wire. none;
    parse_registration = λ wire. none;
    parse_devices = λ wire. none;
    make_outbound_message = λ k m. some (out k m);
  };
  key_of = λ key. key;
  accepts = λ attempts wire. true;
}

abbrev gateway : Text
gateway = codes "G"

abbrev a : Text
a = codes "a"

abbrev b : Text
b = codes "b"

abbrev idle : RegistrationService Wire Text
idle = record {
  attempts = [];
  sent = [];
  device_registration_callbacks = [];
  children_synchronization_callbacks = [];
  device_registration_responses = [];
  command_buffer = [];
}

abbrev after : Outbound Text → RegistrationService Wire Text
after m = record idle { attempts = out gateway m ∷ []; sent = out gateway m ∷ [] }

abbrev registering : RegistrationService Wire Text
registering = record (after (device_registration (b ∷ a ∷ []))) {
  device_registration_callbacks = (a ∷ b ∷ [], some 7) ∷ [];
}

register_devices-response_example :
    (let u = handle_device_registration_response (a ∷ []) (b ∷ []) registering in
      (u.command_buffer ≡ devices_registered (some 7) (a ∷ []) (b ∷ []) ∷ [])
      × (lookup (sort (b ∷ a ∷ [])) u.device_registration_callbacks ≡ none))
unfolding lookup insert text_ltb heap_from is_heap sort_heap sort has_empty_key send
    register_devices texts_dec text_dec ℕ_discrete
register_devices-response_example =
    register_devices-response world gateway (b ∷ a ∷ []) (some 7) (a ∷ []) (b ∷ []) idle registering
      (refl, refl, refl) refl refl (Permᴰ.swap refl refl)

abbrev asked : RegistrationService Wire Text
asked = record (after children_synchronization_request) {
  children_synchronization_callbacks = (gateway, 3 ∷ []) ∷ [];
}

obtain_children_async-served_example :
    (let u = receive_children gateway ((a ∷ b ∷ []) ∷ []) asked in
      (u.command_buffer ≡ children_received 3 (a ∷ b ∷ []) ∷ [])
      × (children_callbacks gateway u ≡ []))
unfolding lookup insert obtain_children_async send
obtain_children_async-served_example =
    obtain_children_async-served world gateway 3 (a ∷ b ∷ []) [] idle asked refl refl

abbrev response : DevicesResponse Text
response = record {
  timestamp_from = 5;
  device_type = [];
  external_id = [];
  matching_devices = a ∷ [];
}

abbrev requested : Option ℕ → RegistrationService Wire Text
requested callback = record (after (registered_devices_request 5 [] [])) {
  device_registration_responses = (query_of response callback, none) ∷ [];
}

take_response-request_example :
    (let u = handle_registered_devices_response response (requested none) in
      ((take_response (query_of response none) u).0 ≡ some (a ∷ []))
      × (u.command_buffer ≡ [])
      × (find_query
            (query_of response none)
            (take_response (query_of response none) u).1.device_registration_responses
          ≡ none))
unfolding find_query emplace_query request_devices send
take_response-request_example =
    take_response-request world gateway response idle (requested none) refl refl

abbrev twice : RegistrationService Wire Text
twice = record (requested (some 1)) {
  attempts =
      out gateway (registered_devices_request 5 [] [])
      ∷ out gateway (registered_devices_request 5 [] [])
      ∷ [];
  sent =
      out gateway (registered_devices_request 5 [] [])
      ∷ out gateway (registered_devices_request 5 [] [])
      ∷ [];
}

-- Three responses, one of them without devices.
abbrev answers : List (List Text)
answers = (a ∷ []) ∷ ([] ∷ ((a ∷ (a ∷ [])) ∷ []))
