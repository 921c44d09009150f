-- ===== src/Errors.antt =====
-- wolk/service/error/ErrorService.{h,cpp}: the errors that the platform reported, by device and by
-- the time of their arrival. In the passes of the timer `none` is undefined behaviour: an iterator
-- dereferenced at or past the end.
pub mod Order
pub mod Cache
pub mod Await
use wolk_connect_task.Prelude.{
  Text, ℕ, zero, suc, ◌+◌, ltb, leb, Bool, true, false, not, ◌||◌, Option, none, some, List, [],
  ◌∷◌, length, get_elem?, drop, last?, text_eq, nat_eq, ◌==◌, if◌then◌else◌,
}
use wolk_connect_task.Prelude.Dict.{Dict, lookup, insert}

pub record ErrorMessage : Type 0 where
  pub device_key : Text
  pub message : Text
  pub arrival_time : ℕ

-- `std::map<TimePoint, std::unique_ptr<ErrorMessage>>`, in the order of its keys.
abbrev pub DeviceErrorMessages : Type 0
DeviceErrorMessages = List (ℕ × ErrorMessage)

pub record ErrorService : Type 0 where
  pub retain_time : ℕ
  pub working : Bool
  pub cached : Dict Text DeviceErrorMessages

-- `m_cached.find(deviceKey)`, with nothing for a device that is not there.
unfoldable pub messages_of : Text → ErrorService → DeviceErrorMessages
messages_of device_key s = elim (lookup device_key s.cached) [
  | none ↦ []
  | some messages ↦ messages
]

unfoldable pub peek_messages_for_device : Text → ErrorService → ℕ
peek_messages_for_device device_key s = length (messages_of device_key s)

-- `std::map::emplace`: a key that is there already keeps its value.
unfoldable pub emplace : ℕ → ErrorMessage → DeviceErrorMessages → DeviceErrorMessages
emplace time message [] = (time, message) ∷ []
emplace time message ((t, m) ∷ messages) =
    let rest = emplace time message messages in
    if ltb time t
    then (time, message) ∷ ((t, m) ∷ messages)
    else if ltb t time
    then (t, m) ∷ rest
    else (t, m) ∷ messages

-- All but the last element.
unfoldable pub drop_last : DeviceErrorMessages → DeviceErrorMessages
drop_last [] = []
drop_last (x ∷ []) = []
drop_last (x ∷ (y ∷ ys)) = x ∷ drop_last (y ∷ ys)

unfoldable pub obtain_first_message_for_device :
    Text → ErrorService → Option ErrorMessage × ErrorService
obtain_first_message_for_device device_key s = elim (lookup device_key s.cached) [
  | none ↦ (none, s)
  | some messages ↦ elim messages [
    | [] ↦ (none, s)
    | (time, message) ∷ rest ↦ (some message, record s { cached = insert device_key rest s.cached })
  ]
]

unfoldable pub obtain_last_message_for_device :
    Text → ErrorService → Option ErrorMessage × ErrorService
obtain_last_message_for_device device_key s = elim (lookup device_key s.cached) [
  | none ↦ (none, s)
  | some messages ↦ elim (last? messages) [
    | none ↦ (none, s)
    | some (time, message) ↦
        (some message, record s { cached = insert device_key (drop_last messages) s.cached })
  ]
]

-- What `parseError` made of a message, if it could.
unfoldable pub message_received : Option ErrorMessage → ErrorService → ErrorService
message_received none s = s
message_received (some m) s = record s {
  cached = insert m.device_key (emplace m.arrival_time m (messages_of m.device_key s)) s.cached;
}

-- The loop of the timer over one device: `it` is the position `i`.
unfoldable pub expire : ℕ → ℕ → ℕ → DeviceErrorMessages → Option DeviceErrorMessages
expire now retain zero messages = some messages
expire now retain (suc i) messages = elim (get_elem? messages (suc i)) [
  | none ↦ none
  | some (time, m) ↦
      expire now retain i (if leb (time + retain) now then drop (suc i) messages else messages)
]

unfoldable pub expire_all :
    ℕ → ℕ → Dict Text DeviceErrorMessages → Option (Dict Text DeviceErrorMessages)
expire_all now retain [] = some []
expire_all now retain ((device_key, messages) ∷ cached) =
    elim (expire now retain (length messages) messages) [
      | none ↦ none
      | some kept ↦ elim (expire_all now retain cached) [
        | none ↦ none
        | some rest ↦ some ((device_key, kept) ∷ rest)
      ]
    ]

unfoldable pub timer_runtime : ℕ → ErrorService → Option ErrorService
timer_runtime now s = elim (expire_all now s.retain_time s.cached) [
  | none ↦ none
  | some cached ↦ some (record s { cached = cached })
]

-- `wait_for` looks at its predicate at once and after each message that arrives, until it holds or
-- the time is over. The arrivals are those within the time; those that are left come later.
unfoldable pub wait_for :
    ℕ
    → Text
    → List (Option ErrorMessage)
    → ErrorService
    → Bool × ErrorService × List (Option ErrorMessage)
wait_for start device_key [] s = (not (peek_messages_for_device device_key s == start), s, [])
wait_for start device_key (m ∷ arrivals) s =
    elim (not s.working || not (peek_messages_for_device device_key s == start)) [
      | true ↦ (not (peek_messages_for_device device_key s == start), s, m ∷ arrivals)
      | false ↦ wait_for start device_key arrivals (message_received m s)
    ]

unfoldable pub await_message :
    Text
    → List (Option ErrorMessage)
    → ErrorService
    → Bool × ErrorService × List (Option ErrorMessage)
await_message device_key arrivals s =
    wait_for (peek_messages_for_device device_key s) device_key arrivals s

unfoldable pub obtain_or_await_message_for_device :
    Text
    → List (Option ErrorMessage)
    → ErrorService
    → Option ErrorMessage × ErrorService × List (Option ErrorMessage)
obtain_or_await_message_for_device device_key arrivals s =
    let (found, t) = obtain_first_message_for_device device_key s in
    elim found [
      | some message ↦ (some message, t, arrivals)
      | none ↦
          let (arrived, u, rest) = await_message device_key arrivals t in
          elim arrived [
            | true ↦
                let (message, v) = obtain_first_message_for_device device_key u in
                (message, v, rest)
            | false ↦ (none, u, rest)
          ]
    ]
