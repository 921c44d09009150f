-- ===== src/Registration/Waiting.antt =====
-- RegistrationService::obtainChildren and obtainDevices, whose callers wait. What arrives while they
-- wait is a list of messages.
use wolk_connect_task.Prelude.{
  Text, ℕ, zero, suc, ◌≡◌, refl, Bool, true, false, not, Option, none, some, List, [], ◌∷◌, take,
  drop, nat_eq, text_eq, ◌==◌, arith, if◌then◌else◌,
}
use wolk_connect_task.Prelude.Dict.{insert, lookup-insert}
use wolk_connect_task.Registration.{
  Surroundings, DeviceQueryData, RegistrationService, handle_children_synchronization_response,
  Command, children_received, children_callbacks, take_response,
}
use wolk_connect_task.Registration.Requests.{
  obtain_children_async, request_devices, message_received,
}

unfoldable pub same_numbers : List ℕ → List ℕ → Bool
same_numbers [] [] = true
same_numbers [] (y ∷ ys) = false
same_numbers (x ∷ xs) [] = false
same_numbers (x ∷ xs) (y ∷ ys) = let rest = same_numbers xs ys in if x == y then rest else false

unfoldable pub without_last : List ℕ → List ℕ
without_last [] = []
without_last (x ∷ []) = []
without_last (x ∷ (y ∷ ys)) = x ∷ without_last (y ∷ ys)

-- What the caller's own callback left in its list, if it was among the commands that were run.
unfoldable pub heard_children : {Info : Type 0} → ℕ → List (Command Info) → Option (List Text)
heard_children waiter [] = none
heard_children waiter (children_received callback children ∷ cs) =
    let rest = heard_children waiter cs in if callback == waiter then some children else rest
heard_children waiter (c ∷ cs) = heard_children waiter cs

take-drop_nil : {A : Type 0} (n : ℕ) → (take {A = A} n [] ≡ []) × (drop {A = A} n [] ≡ [])
take-drop_nil zero = (refl, refl)
take-drop_nil (suc n) = (refl, refl)

module _ {Wire Info : Type 0} where
  -- The end of `obtainChildren`. When the callback was not called it is erased through an iterator:
  -- `none` says that the vector has changed since the iterator was taken, which may invalidate it.
  unfoldable pub finish_children :
      Text
      → ℕ
      → List ℕ
      → List (Command Info)
      → RegistrationService Wire Info
      → Option (Option (List Text) × RegistrationService Wire Info)
  finish_children device_key waiter before ran s = elim (heard_children waiter ran) [
    | some children ↦ some (some children, s)
    | none ↦
        if same_numbers (children_callbacks device_key s) before
        then some (
          none,
          record s {
            children_synchronization_callbacks =
                insert device_key (without_last before) s.children_synchronization_callbacks;
          },
        )
        else none
  ]

module _ {Wire D Info : Type 0} (e : Surroundings Wire D Info) where
  unfoldable pub receive_all :
      List Wire → RegistrationService Wire Info → RegistrationService Wire Info
  receive_all [] s = s
  receive_all (wire ∷ arrivals) s = receive_all arrivals (message_received e wire s)

  -- `waiter` names the callback of the caller; while it waits the messages arrive, and then the buffer
  -- runs `n` commands.
  unfoldable pub obtain_children :
      Text
      → ℕ
      → List Wire
      → ℕ
      → RegistrationService Wire Info
      → Option (Option (List Text) × RegistrationService Wire Info)
  obtain_children device_key waiter arrivals n s =
      let (sent, t) = obtain_children_async e device_key (some waiter) s in
      if not sent
      then some (none, t)
      else (let u = receive_all arrivals t in
          finish_children device_key waiter (children_callbacks device_key t)
            (take n u.command_buffer) (record u { command_buffer = drop n u.command_buffer }))

  unfoldable pub obtain_devices :
      Text
      → DeviceQueryData
      → List Wire
      → RegistrationService Wire Info
      → Option (List Info) × RegistrationService Wire Info
  obtain_devices device_key query arrivals s =
      let (sent, t) = request_devices e device_key query s in
      if not sent then (none, t) else take_response query (receive_all arrivals t)

  -- A caller of `obtainChildren` whose request is taken. When nothing arrives it gets nothing, and every
  -- device keeps the callbacks that it had. When the device had none and a response to it arrives, whose
  -- command is run while the caller waits, it gets the children of the response, and the device has no
  -- callback afterwards.
  obtain_children-outcomes :
      (key j : Text) (waiter : ℕ) (wire : Wire) (children : List Text) (n : ℕ)
      (s t : RegistrationService Wire Info)
      → obtain_children_async e key (some waiter) s ≡ (true, t)
      → t.command_buffer ≡ []
      → children_callbacks key t ≡ waiter ∷ []
      → message_received e wire t ≡ handle_children_synchronization_response key children t
      → ((u : RegistrationService Wire Info) × (obtain_children key waiter [] n s ≡ some (none, u))
          × (children_callbacks j u ≡ (if key == j then [] else children_callbacks j t)))
        × ((u : RegistrationService Wire Info) × (obtain_children key waiter (wire ∷ []) 1 s
              ≡ some (some children, u))
            × (children_callbacks key u ≡ []))
  unfolding obtain_children receive_all finish_children heard_children same_numbers without_last
      handle_children_synchronization_response
  obtain_children-outcomes key j waiter wire children n s t sent idle alone response =
      let quiet : RegistrationService Wire Info = record t {
        children_synchronization_callbacks = insert key [] t.children_synchronization_callbacks;
        command_buffer = [];
      } in
      let heard : RegistrationService Wire Info = quiet in
      (
        (
          quiet,
          ground (arith, take-drop_nil {A = Command Info} n),
          ground (arith, lookup-insert j key [] t.children_synchronization_callbacks),
        ),
        (
          heard,
          ground arith,
          ground (arith, lookup-insert key key [] t.children_synchronization_callbacks),
        ),
      )
