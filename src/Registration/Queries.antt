-- ===== src/Registration/Queries.antt =====
-- The queries of devices: obtainDevices, obtainDevicesAsync and their responses.
use wolk_connect_task.Prelude.{
  Text, ℕ, ◌≡◌, refl, inl, inr, true, Option, none, some, List, [], ◌∷◌, text_eq, nat_eq, arith,
  Option-cases, Bool-cases,
}
use wolk_connect_task.Registration.{
  texts_eq, DevicesResponse, Surroundings, DeviceQueryData, devices_received, Command,
  RegistrationService, same_query, registered_devices_request, find_query, emplace_query,
  erase_query, assign_query, handle_registered_devices_response, take_response,
}
use wolk_connect_task.Registration.Requests.{send, request_devices}

-- The query that a response is for; the code makes it without a callback.
abbrev pub query_of : {Info : Type 0} → DevicesResponse Info → Option ℕ → DeviceQueryData
query_of response callback = record {
  timestamp_from = response.timestamp_from;
  device_type = response.device_type;
  external_id = response.external_id;
  callback = callback;
}

module _ {ℓ} {V : Type ℓ} where
  find-emplace :
      (q : DeviceQueryData) (v : V) (entries : List (DeviceQueryData × V))
      → find_query q (emplace_query q v entries)
        ≡ (elim (find_query q entries) [ none ↦ some (q, v) | some entry ↦ some entry ])
  unfolding find_query emplace_query same_query
  find-emplace q v entries = elim (Option-cases (find_query q entries)) [
    | inl absent ↦ ground arith
    | inr (entry, found) ↦ ground arith
  ]

  find-assign :
      (q : DeviceQueryData) (v : V) (entries : List (DeviceQueryData × V))
      → (r : DeviceQueryData) × (find_query q (assign_query q v entries) ≡ some (r, v))
  unfolding find_query assign_query same_query
  find-assign q v [] = (q, ground arith)
  find-assign q v ((r, w) ∷ entries) = elim (Bool-cases (same_query r q)) [
    | inl hit ↦ (r, ground arith)
    | inr miss ↦ let (found, p) = find-assign q v entries in (found, ground arith)
  ]

  find-erase :
      (q : DeviceQueryData) (entries : List (DeviceQueryData × V))
      → find_query q (erase_query q entries) ≡ none
  unfolding find_query erase_query
  find-erase q [] = refl
  find-erase q ((r, w) ∷ entries) = ground (arith, find-erase q entries)

module _ {Wire Data Info : Type 0} (e : Surroundings Wire Data Info) where
  abbrev pub receive_devices :
      List (DevicesResponse Info) → RegistrationService Wire Info → RegistrationService Wire Info
  receive_devices [] s = s
  receive_devices (response ∷ responses) s =
      receive_devices responses (handle_registered_devices_response response s)

  request_devices-sent :
      (k : Text) (q : DeviceQueryData) (s t : RegistrationService Wire Info)
      → request_devices e k q s ≡ (true, t)
      → (t.device_registration_responses ≡ emplace_query q none s.device_registration_responses)
        × (t.command_buffer ≡ s.command_buffer)
  unfolding request_devices send
  request_devices-sent k q s t sent =
      let message = registered_devices_request q.timestamp_from q.device_type q.external_id in
      elim (Option-cases (e.make_outbound_message k message)) [
        | inl unmade ↦ ground arith
        | inr (wire, made) ↦ elim (Bool-cases (e.accepts s.attempts wire)) [
          | inl taken ↦ ground arith
          | inr refused ↦ ground arith
        ]
      ]

  -- The synchronous query of devices: when no query like it waits, it is sent, and the response
  -- arrives while the caller waits, the caller gets the devices of the response, no callback is
  -- queued, and the query waits no longer.
  pub take_response-request :
      (k : Text) (response : DevicesResponse Info) (s t : RegistrationService Wire Info)
      → find_query (query_of response none) s.device_registration_responses ≡ none
      → request_devices e k (query_of response none) s ≡ (true, t)
      → (let u = handle_registered_devices_response response t in
          ((take_response (query_of response none) u).0 ≡ some response.matching_devices)
          × (u.command_buffer ≡ s.command_buffer)
          × (find_query
                (query_of response none)
                (take_response (query_of response none) u).1.device_registration_responses
              ≡ none))
  unfolding handle_registered_devices_response take_response
  take_response-request k response s t free sent =
      let q = query_of response none in
      let (r, kept) = find-assign q (some response) t.device_registration_responses in
      ground (
        arith,
        request_devices-sent k q s t sent,
        find-emplace q none s.device_registration_responses,
        kept,
        find-erase q (assign_query q (some response) t.device_registration_responses),
      )

  -- Responses to one query, with the devices of each.
  abbrev pub responses_to : DevicesResponse Info → List (List Info) → List (DevicesResponse Info)
  responses_to response [] = []
  responses_to response (devices ∷ answers) =
      record response { matching_devices = devices } ∷ responses_to response answers

  -- What they queue for one callback.
  abbrev pub all_received : ℕ → List (List Info) → List (Command Info)
  all_received c [] = []
  all_received c (devices ∷ answers) = devices_received c devices ∷ all_received c answers
