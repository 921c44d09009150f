-- ===== src/Data/Receive.antt =====
-- DataService::messageReceived, and the subscriptions and callbacks that an answer may serve.
pub mod Subscriptions
use wolk_connect_task.Prelude.{
  Text, ℕ, Bool, true, false, not, ◌||◌, Option, none, some, List, [], ◌∷◌, ◌++◌, is_empty, length,
  nat_eq, ◌==◌, if◌then◌else◌,
}
use wolk_connect_task.Sdk.{Parameter, ParameterName, parameter_name_eq}
use wolk_connect_task.Data.{
  MessageType, Details, Command, parameters_received, details_received, Call, feed_update,
  parameter_sync, details_sync, ParameterSubscription, Surroundings, DataService,
}

-- `std::find_if` over the values.
unfoldable pub has_name : ParameterName → List Parameter → Bool
has_name name [] = false
has_name name (p ∷ values) = if p.name == name then true else has_name name values

-- `std::all_of` over the names of a subscription.
unfoldable pub all_names : List ParameterName → List Parameter → Bool
all_names [] values = true
all_names (name ∷ names) values = if has_name name values then all_names names values else false

unfoldable pub matches : ParameterSubscription → List Parameter → Bool
matches subscription values =
    if not (length values == length subscription.parameters)
    then false
    else all_names subscription.parameters values

-- The first subscription that matches, and the others.
unfoldable pub take_subscription :
    List Parameter
    → List (ℕ × ParameterSubscription)
    → Option (ParameterSubscription × List (ℕ × ParameterSubscription))
take_subscription values [] = none
take_subscription values ((id, subscription) ∷ subscriptions) =
    let rest = take_subscription values subscriptions in
    if matches subscription values then some (subscription, subscriptions) else elim rest [
      | none ↦ none
      | some (found, others) ↦ some (found, (id, subscription) ∷ others)
    ]

module _ {Wire P : Type 0} where
  unfoldable pub check_if_subscription_is_waiting :
      List Parameter → DataService Wire P → Bool × DataService Wire P
  check_if_subscription_is_waiting values s =
      elim (take_subscription values s.parameter_subscriptions) [
        | none ↦ (false, s)
        | some (found, others) ↦
            let t : DataService Wire P = record s { parameter_subscriptions = others } in
            elim found.callback [
              | none ↦ (false, t)
              | some c ↦ (
                true,
                record t { command_buffer = t.command_buffer ++ parameters_received c values ∷ [] },
              )
            ]
      ]

  unfoldable pub check_if_callback_is_waiting :
      Details → DataService Wire P → Bool × DataService Wire P
  check_if_callback_is_waiting details s = elim s.details_callbacks [
    | [] ↦ (false, s)
    | c ∷ callbacks ↦ (
      true,
      record s {
        details_callbacks = callbacks;
        command_buffer = s.command_buffer ++ details_received c details ∷ [];
      },
    )
  ]

  abbrev call : Call → DataService Wire P → DataService Wire P
  call c s = record s { calls = s.calls ++ c ∷ [] }

module _ {Wire P : Type 0} (e : Surroundings Wire P) where
  unfoldable pub dispatch : MessageType → Text → Wire → DataService Wire P → DataService Wire P
  dispatch MessageType.feed_values device_key wire s = elim (e.parse_feed_values wire) [
    | none ↦ s
    | some message ↦ if s.feed_update_handler then call (feed_update device_key message) s else s
  ]
  dispatch MessageType.parameter_sync device_key wire s = elim (e.parse_parameters wire) [
    | none ↦ s
    | some values ↦
        let (waiting, t) = check_if_subscription_is_waiting values s in
        if waiting
        then t
        else if t.parameter_sync_handler
        then call (parameter_sync device_key values) t
        else t
  ]
  dispatch MessageType.details_synchronization_response device_key wire s =
      let r : DataService Wire P = record s { answered = s.answered ++ wire ∷ [] } in
      elim (e.parse_details wire) [
        | none ↦ r
        | some details ↦
            let (waiting, t) = check_if_callback_is_waiting details r in
            if waiting
            then t
            else if t.details_sync_handler
            then call (details_sync device_key details) t
            else t
      ]
  dispatch MessageType.other device_key wire s = s

  unfoldable pub message_received : Option Wire → DataService Wire P → DataService Wire P
  message_received none s = s
  message_received (some wire) s =
      let device_key = e.get_device_key wire in
      if is_empty device_key then s else dispatch (e.get_message_type wire) device_key wire s
