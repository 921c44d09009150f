-- ===== src/Data/Requests.antt =====
-- The requests of DataService: feeds, pulls, and the two synchronizations.
use wolk_connect_task.Prelude.{
  Text, ℕ, ◌+◌, Bool, true, false, Option, none, some, List, [], ◌∷◌, ◌++◌, if◌then◌else◌,
}
use Prim.Native.Nat.{◌%◌, ◌^◌}
use wolk_connect_task.Sdk.{Feed, ParameterName}
use wolk_connect_task.Data.{
  Outbound, feed_registration, feed_removal, parameters_pull, synchronize_parameters,
  details_synchronization_request, Surroundings, DataService, publish,
}

module _ {Wire P : Type 0} (e : Surroundings Wire P) where
  -- Serialize and publish; the two failures are logged only.
  unfoldable pub send : Text → Outbound → DataService Wire P → DataService Wire P
  send device_key message s = elim (e.make_outbound_message device_key message) [
    | none ↦ s
    | some wire ↦ (publish e wire s).1
  ]

  unfoldable pub register_feeds : Text → List Feed → DataService Wire P → DataService Wire P
  register_feeds device_key feeds = send device_key (feed_registration feeds)

  unfoldable pub register_feed : Text → Feed → DataService Wire P → DataService Wire P
  register_feed device_key feed = register_feeds device_key (feed ∷ [])

  unfoldable pub remove_feeds : Text → List Text → DataService Wire P → DataService Wire P
  remove_feeds device_key feeds = send device_key (feed_removal feeds)

  unfoldable pub remove_feed : Text → Text → DataService Wire P → DataService Wire P
  remove_feed device_key reference = remove_feeds device_key (reference ∷ [])

  unfoldable pub pull_feed_values : Text → DataService Wire P → DataService Wire P
  pull_feed_values device_key = send device_key Outbound.pull_feed_values

  unfoldable pub pull_parameters : Text → DataService Wire P → DataService Wire P
  pull_parameters device_key = send device_key parameters_pull

  -- `m_parameterSubscriptions.emplace(m_iterator++, …)`: the numbers rise, so a new subscription is
  -- the last one of the map.
  unfoldable pub synchronize_parameters_with :
      Text → List ParameterName → Option ℕ → DataService Wire P → Bool × DataService Wire P
  synchronize_parameters_with device_key parameters callback s =
      elim (e.make_outbound_message device_key (synchronize_parameters parameters)) [
        | none ↦ (false, s)
        | some wire ↦
            let (ok, t) = publish e wire s in
            if ok
            then (
              true,
              elim callback [
                | none ↦ t
                | some c ↦ record t {
                  iterator = (t.iterator + 1) % 2 ^ 64;
                  parameter_subscriptions =
                      t.parameter_subscriptions
                      ++ (t.iterator, record { parameters = parameters; callback = some c }) ∷ [];
                }
              ],
            )
            else (false, t)
      ]

  -- The request goes to the handler of retries, with the channel of its answer.
  unfoldable pub details_synchronization_async :
      Text → Option ℕ → DataService Wire P → Bool × DataService Wire P
  details_synchronization_async device_key callback s =
      elim (e.make_outbound_message device_key details_synchronization_request) [
        | none ↦ (false, s)
        | some wire ↦
            let t : DataService Wire P = record s {
              retried = s.retried ++ (wire, e.get_response_channel device_key) ∷ [];
            } in
            (
              true,
              elim callback [
                | none ↦ t
                | some c ↦ record t { details_callbacks = t.details_callbacks ++ c ∷ [] }
              ],
            )
      ]
