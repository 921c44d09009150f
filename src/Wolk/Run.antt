-- ===== src/Wolk/Run.antt =====
-- The command buffer of wolk/WolkInterface.cpp: its commands, run one after another.
use wolk_connect_task.Prelude.{
  ℕ, zero, suc, ◌+◌, false, ◌>>=◌, Option, none, some, [], ◌∷◌, ◌++◌, if◌then◌else◌,
}
use wolk_connect_task.Wolk.{
  Surroundings, Wolk, WolkInterfaceType, single_device, multi_device, gateway, Command, connecting,
  disconnecting, publishing, status_changed, calling, updating_feeds, updating_parameters,
  heard_connection, heard_feeds, heard_parameters, try_connect, notify_connected,
  notify_disconnected, flush_attributes, flush_readings, flush_parameters,
}
use wolk_connect_task.Wolk.Requests.{call_data}
use wolk_connect_task.Wolk.Single
use wolk_connect_task.Wolk.Multi.Managed

module _ {Wire P Fs D Info : Type 0} (e : Surroundings Wire P Fs D Info) where
  -- The function that the type of the object overrides.
  unfoldable pub notify_connected_of : WolkInterfaceType → Wolk Wire P Fs Info → Wolk Wire P Fs Info
  notify_connected_of single_device w = Single.notify_connected e w
  notify_connected_of multi_device w = Managed.notify_connected e w
  notify_connected_of gateway w = notify_connected w

  -- `none` says that the fuel of the readings ran out.
  unfoldable pub run_command : ℕ → Command → Wolk Wire P Fs Info → Option (Wolk Wire P Fs Info)
  run_command fuel (connecting first_time) w =
      let t : Wolk Wire P Fs Info = record w { attempts = w.attempts + 1 } in
      some (if e.connects w.attempts then notify_connected_of w.type t else try_connect false t)
  run_command fuel disconnecting w =
      some (notify_disconnected (record w { disconnects = w.disconnects + 1 }))
  run_command fuel publishing w = do
    t ← flush_readings e fuel (flush_attributes e w)
    some (flush_parameters e t)
  run_command fuel status_changed w = some (elim w.connection_status_listener [
    | none ↦ w
    | some listener ↦ record w { heard = w.heard ++ heard_connection listener w.connected ∷ [] }
  ])
  run_command fuel (calling c) w =
      some (record w { data_service = call_data e.on_data c w.data_service })
  run_command fuel (updating_feeds device_key values) w = some (elim w.feed_update_handler [
    | some handler ↦ record w { heard = w.heard ++ heard_feeds handler device_key values ∷ [] }
    | none ↦ elim w.feed_update_handler_lambda [
      | some handler ↦ record w { heard = w.heard ++ heard_feeds handler device_key values ∷ [] }
      | none ↦ w
    ]
  ])
  run_command fuel (updating_parameters device_key values) w = some (elim w.parameter_handler [
    | some handler ↦ record w { heard = w.heard ++ heard_parameters handler device_key values ∷ [] }
    | none ↦ elim w.parameter_lambda [
      | some handler ↦ record w {
        heard = w.heard ++ heard_parameters handler device_key values ∷ [];
      }
      | none ↦ w
    ]
  ])

  unfoldable pub run_next : ℕ → Wolk Wire P Fs Info → Option (Wolk Wire P Fs Info)
  run_next fuel w = elim w.command_buffer [
    | [] ↦ some w
    | command ∷ rest ↦ run_command fuel command (record w { command_buffer = rest })
  ]

  unfoldable pub run_steps : ℕ → ℕ → Wolk Wire P Fs Info → Option (Wolk Wire P Fs Info)
  run_steps fuel zero w = some w
  run_steps fuel (suc n) w = elim (run_next fuel w) [ none ↦ none | some t ↦ run_steps fuel n t ]
