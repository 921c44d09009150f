-- ===== src/Wolk/Multi/Registrations.antt =====
-- wolk/WolkMulti.cpp: registrations, removals and queries, and the errors of a device. `none` is
-- undefined: the registration service is a null pointer, or it orders what is no heap.
use Prim.Native.Nat.{◌^◌}
use mathlib.Core.List.{map}
use wolk_connect_task.Prelude.{
  Text, ℕ, ◌-◌, Bool, true, false, not, Option, none, some, List, [], ◌∷◌, ◌++◌, codes, length,
  text_eq, ◌==◌, if◌then◌else◌,
}
use wolk_connect_task.Errors.{
  ErrorMessage, peek_messages_for_device, obtain_first_message_for_device,
  obtain_last_message_for_device,
}
use wolk_connect_task.Wolk.{Surroundings, Wolk, heard_registration}
use wolk_connect_task.Wolk.Multi.{is_device_in_list}
use wolk_connect_task.Wolk.Multi.Managed.{add_device}
use wolk_connect_task.Registration.{DeviceQueryData}
use wolk_connect_task.Registration.Requests
use wolk_connect_task.Registration.Waiting

unfoldable pub contains_text : Text → List Text → Bool
contains_text key [] = false
contains_text key (k ∷ keys) = let rest = contains_text key keys in if k == key then true else rest

module _ {Wire P Fs D Info : Type 0} (e : Surroundings Wire P Fs D Info) where
  -- The callback that is registered, under its number.
  unfoldable pub wrap_register_callback :
      List D → Option ℕ → Wolk Wire P Fs Info → ℕ × Wolk Wire P Fs Info
  wrap_register_callback devices callback w = (
    length w.registrations,
    record w {
      registrations = w.registrations ++ (map e.on_registration.key_of devices, callback) ∷ [];
    },
  )

  unfoldable pub add_registered : List Text → List Text → Wolk Wire P Fs Info → Wolk Wire P Fs Info
  add_registered [] success w = w
  add_registered (key ∷ keys) success w = add_registered keys success (
      if contains_text key success
      then (add_device e (record { key = key; password = [] }) w).1
      else w)

  -- What the wrapped callback does; `none` is the call of an empty function.
  unfoldable pub registered :
      List Text
      → Option ℕ
      → List Text
      → List Text
      → Wolk Wire P Fs Info
      → Option (Wolk Wire P Fs Info)
  registered keys callback success failed w =
      let t = add_registered keys success w in
      elim callback [
        | none ↦ none
        | some c ↦ some (record t { heard = t.heard ++ heard_registration c success failed ∷ [] })
      ]

  unfoldable pub register_devices :
      List D → Option ℕ → Wolk Wire P Fs Info → Option (Bool × Wolk Wire P Fs Info)
  register_devices devices callback w = elim w.registration_service [
    | none ↦ some (false, w)
    | some s ↦
        let (number, t) = wrap_register_callback devices callback w in
        elim (Requests.register_devices e.on_registration (codes "*") devices (some number) s) [
          | none ↦ none
          | some (ok, u) ↦ some (ok, record t { registration_service = some u })
        ]
  ]

  unfoldable pub register_device :
      D → Option ℕ → Wolk Wire P Fs Info → Option (Bool × Wolk Wire P Fs Info)
  register_device device callback w = register_devices (device ∷ []) callback w

  unfoldable pub remove_devices :
      Text → List Text → Wolk Wire P Fs Info → Option (Bool × Wolk Wire P Fs Info)
  remove_devices device_key device_keys w =
      if not (is_device_in_list device_key w)
      then some (false, w)
      else elim w.registration_service [
        | none ↦ none
        | some s ↦
            let (ok, t) = Requests.remove_devices e.on_registration device_key device_keys s in
            some (ok, record w { registration_service = some t })
      ]

  unfoldable pub remove_device :
      Text → Text → Wolk Wire P Fs Info → Option (Bool × Wolk Wire P Fs Info)
  remove_device device_key key w = remove_devices device_key (key ∷ []) w

  -- The messages arrive while the caller waits.
  unfoldable pub obtain_devices :
      Text
      → DeviceQueryData
      → List Wire
      → Wolk Wire P Fs Info
      → Option (Option (List Info) × Wolk Wire P Fs Info)
  obtain_devices device_key query arrivals w =
      if not (is_device_in_list device_key w) then some (none, w) else elim w.registration_service [
        | none ↦ none
        | some s ↦
            let (found, t) = Waiting.obtain_devices e.on_registration device_key query arrivals s in
            some (found, record w { registration_service = some t })
      ]

  unfoldable pub obtain_devices_async :
      Text → ℕ → Text → Text → Option ℕ → Wolk Wire P Fs Info → Option (Bool × Wolk Wire P Fs Info)
  obtain_devices_async device_key timestamp_from device_type external_id callback w =
      if not (is_device_in_list device_key w)
      then some (false, w)
      else elim w.registration_service [
        | none ↦ none
        | some s ↦
            let (ok, t) =
              Requests.obtain_devices_async e.on_registration device_key timestamp_from device_type
                external_id callback s in
            some (ok, record w { registration_service = some t })
      ]

module _ {Wire P Fs Info : Type 0} where
  -- `UINT64_MAX` for a device that is not in the list.
  unfoldable pub peek_error_count : Text → Wolk Wire P Fs Info → ℕ
  peek_error_count device_key w =
      if not (is_device_in_list device_key w)
      then 2 ^ 64 - 1
      else peek_messages_for_device device_key w.error_service

  unfoldable pub pop_front_message :
      Text → Wolk Wire P Fs Info → Option ErrorMessage × Wolk Wire P Fs Info
  pop_front_message device_key w =
      if not (is_device_in_list device_key w)
      then (none, w)
      else (let (message, t) = obtain_first_message_for_device device_key w.error_service in
          (message, record w { error_service = t }))

  unfoldable pub pop_back_message :
      Text → Wolk Wire P Fs Info → Option ErrorMessage × Wolk Wire P Fs Info
  pop_back_message device_key w =
      if not (is_device_in_list device_key w)
      then (none, w)
      else (let (message, t) = obtain_last_message_for_device device_key w.error_service in
          (message, record w { error_service = t }))
