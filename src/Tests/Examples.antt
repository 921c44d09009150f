-- ===== src/Tests/Examples.antt =====
-- Runs of the example programs.
use wolk_connect_task.Prelude.{
  Text, ℕ, ◌≡◌, refl, true, false, if◌then◌else◌, List, [], ◌∷◌, ◌++◌, codes,
}
use wolk_connect_task.Sdk.{string_value}
use wolk_connect_task.Wolk.{Wolk, DataCall, calling, publishing, disconnecting, disconnect}
use wolk_connect_task.Examples.FullFeature.{
  Conversions, FullFeature, looping, waiting, ended, Event, pass, wake, interrupt, feeds, run,
}
use wolk_connect_task.Examples.FullFeature.Runs.{all_events, IsAsleep, run-stopped}
use wolk_connect_task.Tests.{Disk}
use wolk_connect_task.Tests.Wolk.{idle}

abbrev c : Conversions ℕ
c = record {
  get_bool_value = λ r. true;
  get_uint_value = λ r. r.rtc;
  double_text = λ t. t ∷ [];
  bool_text = λ b. if b then codes "true" else codes "false";
  seconds_text = λ n. n ∷ [];
}

abbrev program : FullFeature ℕ (Wolk Text (List Text) Disk Text)
program = record {
  wolk = idle;
  device_info = record { temperature = 0; toggle = false; heartbeat = 5 };
  running = true;
  phase = looping;
}

abbrev heartbeat : ℕ → Event ℕ
heartbeat n =
    feeds ((1, record { reference = codes "HB"; value = string_value []; rtc = n } ∷ []) ∷ [])

-- With no heartbeat nothing is sent; a new one is reported at once, and the signal to stop is heeded
-- when the sleep is over.
heartbeat_run :
    (run c
      (heartbeat 0
        ∷ (pass 1 20
            ∷ (heartbeat 2
                ∷ (pass 3 21
                    ∷ (pass 3 22
                        ∷ (interrupt
                            ∷ (wake false ∷ (pass 4 23 ∷ (wake true ∷ (pass 5 24 ∷ []))))))))))
      program).wolk.command_buffer
    ≡ calling (DataCall.add_string_reading (codes "a") (codes "T") (21 ∷ []) 3)
      ∷ (calling (DataCall.add_string_reading (codes "a") (codes "SW") (codes "false") 3)
          ∷ (calling (DataCall.add_string_reading (codes "a") (codes "HB") (2 ∷ []) 3)
              ∷ (publishing ∷ (disconnecting ∷ []))))
unfolding run wolk_connect_task.Examples.FullFeature.step
    wolk_connect_task.Examples.FullFeature.turn wolk_connect_task.Examples.FullFeature.handle_update
    wolk_connect_task.Examples.FullFeature.handle_readings
    wolk_connect_task.Examples.FullFeature.handle_reading wolk_connect_task.Prelude.text_dec
    wolk_connect_task.Wolk.disconnect wolk_connect_task.Wolk.publish
    native.Mathlib.Decide.ℕ_discrete wolk_connect_task.Wolk.Single.add_string_reading
heartbeat_run = refl

-- Asleep for five seconds, after the signal to stop.
abbrev asleep : FullFeature ℕ (Wolk Text (List Text) Disk Text)
asleep = record program { running = false; phase = waiting 5 }

abbrev noises : List (Event ℕ)
noises = wake false ∷ (pass 1 20 ∷ (interrupt ∷ (wake false ∷ [])))

run-stopped_example :
    IsAsleep c 5 idle (run c noises asleep)
    × (let q = run c (noises ++ (wake true ∷ (pass 9 20 ∷ []))) asleep in
        (q.wolk ≡ disconnect idle) × (q.phase ≡ ended))
unfolding all_events wolk_connect_task.Examples.FullFeature.Runs.sleeps_on
run-stopped_example = run-stopped c noises 5 9 20 idle asleep refl (refl, refl, refl, refl)
