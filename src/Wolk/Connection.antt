-- ===== src/Wolk/Connection.antt =====
-- Attempts to connect, and what the listener of the connection hears.
use wolk_connect_task.Prelude.{
  Text, ℕ, zero, suc, ◌+◌, ◌<◌, ◌≡◌, refl, Bool, true, false, Option, none, some, List, [], ◌∷◌,
  ◌++◌, arith, Option-cases, inl, inr, append_assoc,
}
use wolk_connect_task.Sdk.{Device}
use wolk_connect_task.Wolk.{
  Surroundings, Wolk, WolkInterfaceType, single_device, multi_device, gateway, Command, connecting,
  publishing, status_changed, heard_connection, try_connect, publish,
  notify_connection_status_listener, notify_connected, notify_disconnected, on_connection_lost,
}
use wolk_connect_task.Wolk.Reports.{report_files, announce}
use wolk_connect_task.Wolk.Run.{notify_connected_of, run_command, run_next, run_steps}
use wolk_connect_task.Wolk.Multi.Managed.{report_firmware_update_for_device, report_all}
use wolk_connect_task.Wolk.Single
use wolk_connect_task.Wolk.Multi.Managed

-- The commands that a connection queues.
abbrev pub queued : Option ℕ → List Command
queued none = publishing ∷ []
queued (some listener) = status_changed ∷ (publishing ∷ [])

module _ {Wire P Fs Info : Type 0} where
  -- What the reports leave as it is.
  abbrev Same : Wolk Wire P Fs Info → Wolk Wire P Fs Info → Type 0
  Same w t =
      (t.connected ≡ w.connected)
      × (t.attempts ≡ w.attempts)
      × (t.command_buffer ≡ w.command_buffer)
      × (t.connection_status_listener ≡ w.connection_status_listener)
      × (t.heard ≡ w.heard)

  Same-trans : (w t u : Wolk Wire P Fs Info) → Same w t → Same t u → Same w u
  Same-trans w t u a b = ground arith

  -- The object right after the connection, before anything is reported.
  abbrev Connected : Wolk Wire P Fs Info → Wolk Wire P Fs Info → Type 0
  Connected w t =
      (t.connected ≡ true)
      × (t.attempts ≡ w.attempts)
      × (t.command_buffer ≡ w.command_buffer ++ queued w.connection_status_listener)
      × (t.connection_status_listener ≡ w.connection_status_listener)
      × (t.heard ≡ w.heard)

  notify_connected-Connected : (w : Wolk Wire P Fs Info) → Connected w (notify_connected w)
  unfolding notify_connected notify_connection_status_listener publish
  notify_connected-Connected w = elim (Option-cases w.connection_status_listener) [
    | inl none' ↦ ground arith
    | inr (listener, set) ↦
        ground (arith, append_assoc w.command_buffer (status_changed ∷ []) (publishing ∷ []))
  ]

module _ {Wire P Fs D Info : Type 0} (e : Surroundings Wire P Fs D Info) where
  report_files-Same : (key : Text) (w : Wolk Wire P Fs Info) → Same w (report_files e key w)
  unfolding report_files
  report_files-Same key w = ground arith

  report_firmware-Same :
      (key : Text) (w : Wolk Wire P Fs Info) → Same w (report_firmware_update_for_device e key w)
  unfolding report_firmware_update_for_device announce
  report_firmware-Same key w = ground arith

  report_all-Same :
      (devices : List Device) (w : Wolk Wire P Fs Info) → Same w (report_all e devices w)
  unfolding report_all
  report_all-Same [] w = (refl, refl, refl, refl, refl)
  report_all-Same (device ∷ devices) w =
      let t = report_files e device.key w in
      let u = report_firmware_update_for_device e device.key t in
      Same-trans w t (report_all e devices u) (report_files-Same device.key w) (
        Same-trans t u (report_all e devices u) (report_firmware-Same device.key t)
          (report_all-Same devices u))

  single-Same : (w : Wolk Wire P Fs Info) → Same (notify_connected w) (Single.notify_connected e w)
  unfolding Single.notify_connected announce
  single-Same w = ground (arith, report_files-Same (Single.device_key w) (notify_connected w))

  notify_connected_of-Connected :
      (type : WolkInterfaceType) (w : Wolk Wire P Fs Info)
      → Connected w (notify_connected_of e type w)
  unfolding notify_connected_of Managed.notify_connected
  notify_connected_of-Connected single_device w =
      ground (arith, single-Same w, notify_connected-Connected w)
  notify_connected_of-Connected multi_device w =
      ground (arith, report_all-Same w.devices (notify_connected w), notify_connected-Connected w)
  notify_connected_of-Connected gateway w = notify_connected-Connected w

  connecting-fails :
      (fuel : ℕ) (first : Bool) (w : Wolk Wire P Fs Info)
      → w.command_buffer ≡ connecting first ∷ []
      → e.connects w.attempts ≡ false
      → run_next e fuel w
        ≡ some (record w { attempts = w.attempts + 1; command_buffer = connecting false ∷ [] })
  unfolding run_next run_command try_connect
  connecting-fails fuel first w waits fails = ground arith

  connecting-succeeds :
      (fuel : ℕ) (first : Bool) (w : Wolk Wire P Fs Info)
      → w.command_buffer ≡ connecting first ∷ []
      → e.connects w.attempts ≡ true
      → run_next e fuel w
        ≡ some (
            notify_connected_of e w.type
              (record w { attempts = w.attempts + 1; command_buffer = [] }))
  unfolding run_next run_command
  connecting-succeeds fuel first w waits connects = ground arith

  -- Once an attempt succeeds, the object is connected: when an attempt to connect is all that waits,
  -- `k` attempts fail and the next succeeds, then `k + 1` commands are run, the object is connected,
  -- and what waits is the call of the listener, if there is one, and the publishing. No fuel is used.
  pub run_steps-connects :
      (fuel k : ℕ) (first : Bool) (w : Wolk Wire P Fs Info)
      → w.command_buffer ≡ connecting first ∷ []
      → ((i : ℕ) → i < k → e.connects (w.attempts + i) ≡ false)
      → e.connects (w.attempts + k) ≡ true
      → (t : Wolk Wire P Fs Info) × (run_steps e fuel (suc k) w ≡ some t)
        × (t.connected ≡ true)
        × (t.attempts ≡ w.attempts + suc k)
        × (t.command_buffer ≡ queued w.connection_status_listener)
  unfolding run_steps
  run_steps-connects fuel zero first w waits fails connects =
      let start : Wolk Wire P Fs Info = record w {
        attempts = w.attempts + 1;
        command_buffer = [];
      } in
      let (up, counted, buffer, listener, heard) = notify_connected_of-Connected w.type start in
      (
        notify_connected_of e w.type start,
        ground (arith, connecting-succeeds fuel first w waits),
        up,
        counted,
        buffer,
      )
  run_steps-connects fuel (suc k) first w waits fails connects =
      let next : Wolk Wire P Fs Info = record w {
        attempts = w.attempts + 1;
        command_buffer = connecting false ∷ [];
      } in
      let (t, ran, up, counted, buffer) =
        run_steps-connects fuel k false next refl (λ i small. ground (arith, fails (suc i)))
          (ground arith) in
      (t, ground (arith, connecting-fails fuel first w waits, fails 0), up, ground arith, buffer)

  -- The listener hears the status at the time when its command runs: when the connection is lost
  -- before that, it hears that there is none, and never that there was one.
  run_next-lost :
      (fuel listener : ℕ) (w : Wolk Wire P Fs Info)
      → w.command_buffer ≡ []
      → w.connection_status_listener ≡ some listener
      → (let t = on_connection_lost (notify_connected_of e w.type w) in
          ((u : Wolk Wire P Fs Info) × (run_next e fuel t ≡ some u)
            × (u.heard ≡ w.heard ++ heard_connection listener false ∷ [])
            × (u.command_buffer ≡ publishing ∷ (status_changed ∷ (connecting true ∷ [])))))
  unfolding on_connection_lost notify_disconnected notify_connection_status_listener try_connect
      run_next run_command
  run_next-lost fuel listener w idle set =
      let t = on_connection_lost (notify_connected_of e w.type w) in
      (
        record t {
          heard = w.heard ++ heard_connection listener false ∷ [];
          command_buffer = publishing ∷ (status_changed ∷ (connecting true ∷ []));
        },
        ground (arith, notify_connected_of-Connected w.type w),
        refl,
        refl,
      )
