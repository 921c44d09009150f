-- ===== src/Examples/FullFeature/Runs.antt =====
-- What the loop does under a list of events.
use wolk_connect_task.Prelude.{
  ℕ, ◌≡◌, refl, Bool, true, false, not, ◌&&◌, ◌||◌, List, [], ◌∷◌, ◌++◌, codes, nat_eq, text_eq,
  ◌==◌, arith,
}
use wolk_connect_task.Sdk.{Reading}
use wolk_connect_task.Wolk.{Wolk, disconnect}
use wolk_connect_task.Examples.FullFeature.{
  Conversions, DeviceData, looping, ended, waiting, FullFeature, handle_reading, handle_readings,
  handle_update, Event, pass, wake, interrupt, feeds, turn, step, run,
}

-- Whether a reading of some sets the heartbeat.
unfoldable pub sets_heartbeat : List Reading → Bool
sets_heartbeat [] = false
sets_heartbeat (reading ∷ readings) =
    let rest = sets_heartbeat readings in reading.reference == codes "HB" || rest

unfoldable pub update_sets_heartbeat : List (ℕ × List Reading) → Bool
update_sets_heartbeat [] = false
update_sets_heartbeat ((time, readings) ∷ pairs) =
    let rest = update_sets_heartbeat pairs in sets_heartbeat readings || rest

module _ {T : Type 0} where
  -- Neither the signal to stop nor a new heartbeat.
  unfoldable pub goes_on : Event T → Bool
  goes_on (pass now value) = true
  goes_on (wake timed_out) = true
  goes_on interrupt = false
  goes_on (feeds pairs) = not (update_sets_heartbeat pairs)

  -- Neither the end of the sleep nor a new heartbeat.
  unfoldable pub sleeps_on : Event T → Bool
  sleeps_on (pass now value) = true
  sleeps_on (wake timed_out) = not timed_out
  sleeps_on interrupt = true
  sleeps_on (feeds pairs) = not (update_sets_heartbeat pairs)

  unfoldable pub all_events : (Event T → Bool) → List (Event T) → Bool
  all_events test [] = true
  all_events test (event ∷ events) = let rest = all_events test events in test event && rest

module _ {T : Type 0} (c : Conversions T) where
  handle_readings-heartbeat :
      (readings : List Reading) (s : DeviceData T)
      → sets_heartbeat readings ≡ false
      → (handle_readings c readings s).heartbeat ≡ s.heartbeat
  unfolding handle_readings handle_reading sets_heartbeat
  handle_readings-heartbeat [] s none_set = refl
  handle_readings-heartbeat (reading ∷ readings) s none_set =
      ground (arith, handle_readings-heartbeat readings (handle_reading c reading s))

  handle_update-heartbeat :
      (pairs : List (ℕ × List Reading)) (s : DeviceData T)
      → update_sets_heartbeat pairs ≡ false
      → (handle_update c pairs s).heartbeat ≡ s.heartbeat
  unfolding handle_update update_sets_heartbeat
  handle_update-heartbeat [] s none_set = refl
  handle_update-heartbeat ((time, readings) ∷ pairs) s none_set = ground (
    arith,
    handle_readings-heartbeat readings s,
    handle_update-heartbeat pairs (handle_readings c readings s),
  )

module _ {T Wire P Fs Info : Type 0} (c : Conversions T) where
  -- At the head of the loop, with a heartbeat of 0 and no signal to stop.
  abbrev pub IsSilent : Wolk Wire P Fs Info → FullFeature T (Wolk Wire P Fs Info) → Type 0
  IsSilent w p =
      (p.wolk ≡ w) × (p.phase ≡ looping) × (p.running ≡ true) × (p.device_info.heartbeat ≡ 0)

  -- Asleep for an interval that is still the heartbeat, after the signal to stop.
  abbrev pub IsAsleep : ℕ → Wolk Wire P Fs Info → FullFeature T (Wolk Wire P Fs Info) → Type 0
  IsAsleep n w p =
      (p.wolk ≡ w) × (p.phase ≡ waiting n) × (p.running ≡ false) × (p.device_info.heartbeat ≡ n)

  step-IsSilent :
      (event : Event T) (w : Wolk Wire P Fs Info) (p : FullFeature T (Wolk Wire P Fs Info))
      → goes_on event ≡ true
      → IsSilent w p
      → IsSilent w (step c event p)
  unfolding step turn goes_on
  step-IsSilent (pass now value) w p on silent = ground arith
  step-IsSilent (wake timed_out) w p on silent = ground arith
  step-IsSilent interrupt w p on silent = ground arith
  step-IsSilent (feeds pairs) w p on silent =
      ground (arith, handle_update-heartbeat c pairs p.device_info)

  step-IsAsleep :
      (event : Event T) (n : ℕ) (w : Wolk Wire P Fs Info) (p : FullFeature T (Wolk Wire P Fs Info))
      → sleeps_on event ≡ true
      → IsAsleep n w p
      → IsAsleep n w (step c event p)
  unfolding step sleeps_on
  step-IsAsleep (pass now value) n w p on sleeping = ground arith
  step-IsAsleep (wake timed_out) n w p on sleeping = ground arith
  step-IsAsleep interrupt n w p on sleeping = ground arith
  step-IsAsleep (feeds pairs) n w p on sleeping =
      ground (arith, handle_update-heartbeat c pairs p.device_info)

  -- With a heartbeat of 0 the loop spins: until the signal to stop or a new heartbeat it stays at its
  -- head and gives no command to the object of the device.
  run-IsSilent :
      (events : List (Event T)) (w : Wolk Wire P Fs Info) (p : FullFeature T (Wolk Wire P Fs Info))
      → all_events goes_on events ≡ true
      → IsSilent w p
      → IsSilent w (run c events p)
  unfolding run all_events
  run-IsSilent [] w p on silent = silent
  run-IsSilent (event ∷ events) w p on silent =
      run-IsSilent events w (step c event p) (ground arith)
        (step-IsSilent event w p (ground arith) silent)

  run-IsAsleep :
      (events : List (Event T)) (n : ℕ) (w : Wolk Wire P Fs Info)
      (p : FullFeature T (Wolk Wire P Fs Info))
      → all_events sleeps_on events ≡ true
      → IsAsleep n w p
      → IsAsleep n w (run c events p)
  unfolding run all_events
  run-IsAsleep [] n w p on sleeping = sleeping
  run-IsAsleep (event ∷ events) n w p on sleeping =
      run-IsAsleep events n w (step c event p) (ground arith)
        (step-IsAsleep event n w p (ground arith) sleeping)

  run-append :
      (xs ys : List (Event T)) (p : FullFeature T (Wolk Wire P Fs Info))
      → run c (xs ++ ys) p ≡ run c ys (run c xs p)
  unfolding run
  run-append [] ys p = refl
  run-append (x ∷ xs) ys p = run-append xs ys (step c x p)

  -- The signal to stop does not end a sleep: however often the program is notified, without a new
  -- heartbeat it sleeps on and gives no command; once the sleep has timed out, the next pass
  -- disconnects and leaves the loop.
  pub run-stopped :
      (events : List (Event T)) (n now : ℕ) (value : T) (w : Wolk Wire P Fs Info)
      (p : FullFeature T (Wolk Wire P Fs Info))
      → all_events sleeps_on events ≡ true
      → IsAsleep n w p
      → IsAsleep n w (run c events p)
        × (let q = run c (events ++ (wake true ∷ (pass now value ∷ []))) p in
            (q.wolk ≡ disconnect w) × (q.phase ≡ ended))
  unfolding run step turn
  run-stopped events n now value w p on sleeping = (
    run-IsAsleep events n w p on sleeping,
    ground (
      arith,
      run-append events (wake true ∷ (pass now value ∷ [])) p,
      run-IsAsleep events n w p on sleeping,
    ),
  )
