-- ===== src/Wolk/Deferral.antt =====
-- The calls of the user, carried out when the command buffer runs.
use mathlib.Core.List.{map}
use wolk_connect_task.Prelude.{
  ℕ, ◌≡◌, refl, ap, ◌∙◌, Bool, true, false, some, List, [], ◌∷◌, ◌++◌, append_assoc, append-nil,
  length, nat_eq, arith, Bool-cases, inl, inr, if◌then◌else◌,
}
use wolk_connect_task.Sdk.{Device}
use wolk_connect_task.Data.{DataService}
use wolk_connect_task.Data
use wolk_connect_task.Wolk.{Surroundings, Wolk, DataCall, calling}
use wolk_connect_task.Wolk.Requests.{call_data}
use wolk_connect_task.Wolk.Single.{or_now}
use wolk_connect_task.Wolk.Multi.{contains_key}
use wolk_connect_task.Wolk.Multi
use wolk_connect_task.Wolk.Run.{run_command, run_next, run_steps}

-- What is asked of `WolkMulti`, at the time `now`; it has no method for the two synchronizations.
module _ {Wire P Fs Info : Type 0} where
  unfoldable pub request : ℕ → DataCall → Wolk Wire P Fs Info → Wolk Wire P Fs Info
  request now (DataCall.add_reading key reading) w = Multi.add_reading key reading w
  request now (DataCall.add_string_reading key reference value rtc) w =
      Multi.add_string_reading now key reference value rtc w
  request now (DataCall.add_strings_reading key reference values rtc) w =
      Multi.add_strings_reading now key reference values rtc w
  request now (DataCall.add_readings key readings) w = Multi.add_readings key readings w
  request now (DataCall.pull_feed_values key) w = Multi.pull_feed_values key w
  request now (DataCall.pull_parameters key) w = Multi.pull_parameters key w
  request now (DataCall.synchronize_parameters key names callback) w = w
  request now (DataCall.details_synchronization key callback) w = w
  request now (DataCall.register_feed key feed) w = Multi.register_feed key feed w
  request now (DataCall.register_feeds key feeds) w = Multi.register_feeds key feeds w
  request now (DataCall.remove_feed key reference) w = Multi.remove_feed key reference w
  request now (DataCall.remove_feeds key references) w = Multi.remove_feeds key references w
  request now (DataCall.add_attribute key attribute) w = Multi.add_attribute key attribute w
  request now (DataCall.update_parameter key parameter) w = Multi.update_parameter key parameter w

  unfoldable pub request_all : ℕ → List DataCall → Wolk Wire P Fs Info → Wolk Wire P Fs Info
  request_all now [] w = w
  request_all now (c ∷ cs) w = request_all now cs (request now c w)

-- The calls that are taken up: those for a device of the list, and those that add a reading.
abbrev pub accepted : List Device → DataCall → Bool
accepted devices (DataCall.add_reading key reading) = true
accepted devices (DataCall.add_string_reading key reference value rtc) = true
accepted devices (DataCall.add_strings_reading key reference values rtc) = true
accepted devices (DataCall.add_readings key readings) = true
accepted devices (DataCall.pull_feed_values key) = contains_key key devices
accepted devices (DataCall.pull_parameters key) = contains_key key devices
accepted devices (DataCall.synchronize_parameters key names callback) = false
accepted devices (DataCall.details_synchronization key callback) = false
accepted devices (DataCall.register_feed key feed) = contains_key key devices
accepted devices (DataCall.register_feeds key feeds) = contains_key key devices
accepted devices (DataCall.remove_feed key reference) = contains_key key devices
accepted devices (DataCall.remove_feeds key references) = contains_key key devices
accepted devices (DataCall.add_attribute key attribute) = contains_key key devices
accepted devices (DataCall.update_parameter key parameter) = contains_key key devices

-- A reading without a time gets that of the call.
abbrev pub timed : ℕ → DataCall → DataCall
timed now (DataCall.add_string_reading key reference value rtc) =
    DataCall.add_string_reading key reference value (or_now now rtc)
timed now (DataCall.add_strings_reading key reference values rtc) =
    DataCall.add_strings_reading key reference values (or_now now rtc)
timed now c = c

unfoldable pub taken : ℕ → List Device → List DataCall → List DataCall
taken now devices [] = []
taken now devices (c ∷ cs) =
    let rest = taken now devices cs in if accepted devices c then timed now c ∷ rest else rest

-- The calls, made on the data service at once.
unfoldable pub call_all :
    {Wire P : Type 0}
    → Data.Surroundings Wire P
    → List DataCall
    → DataService Wire P
    → DataService Wire P
call_all e [] s = s
call_all e (c ∷ cs) s = call_all e cs (call_data e c s)

module _ {Wire P Fs Info : Type 0} where
  abbrev waiting : List DataCall → Wolk Wire P Fs Info → Wolk Wire P Fs Info
  waiting cs w = record w { command_buffer = w.command_buffer ++ map calling cs }

  request_lem :
      (now : ℕ) (c : DataCall) (w : Wolk Wire P Fs Info)
      → request now c w ≡ (if accepted w.devices c then waiting (timed now c ∷ []) w else w)
  unfolding request Multi.add_reading Multi.add_string_reading Multi.add_strings_reading
      Multi.add_readings Multi.pull_feed_values Multi.pull_parameters Multi.register_feed
      Multi.register_feeds Multi.remove_feed Multi.remove_feeds Multi.add_attribute
      Multi.update_parameter
  request_lem now (DataCall.add_reading key reading) w = ground arith
  request_lem now (DataCall.add_string_reading key reference value rtc) w = ground arith
  request_lem now (DataCall.add_strings_reading key reference values rtc) w = ground arith
  request_lem now (DataCall.add_readings key readings) w = ground arith
  request_lem now (DataCall.pull_feed_values key) w = ground arith
  request_lem now (DataCall.pull_parameters key) w = ground arith
  request_lem now (DataCall.synchronize_parameters key names callback) w = ground arith
  request_lem now (DataCall.details_synchronization key callback) w = ground arith
  request_lem now (DataCall.register_feed key feed) w = ground arith
  request_lem now (DataCall.register_feeds key feeds) w = ground arith
  request_lem now (DataCall.remove_feed key reference) w = ground arith
  request_lem now (DataCall.remove_feeds key references) w = ground arith
  request_lem now (DataCall.add_attribute key attribute) w = ground arith
  request_lem now (DataCall.update_parameter key parameter) w = ground arith

  request_all-taken :
      (now : ℕ) (cs : List DataCall) (w : Wolk Wire P Fs Info)
      → request_all now cs w ≡ waiting (taken now w.devices cs) w
  unfolding request_all taken
  request_all-taken now [] w = ground (arith, append-nil w.command_buffer)
  request_all-taken now (c ∷ cs) w = elim (Bool-cases (accepted w.devices c)) [
    | inl yes' ↦
        let t = waiting (timed now c ∷ []) w in
        ground (
          arith,
          request_lem now c w,
          request_all-taken now cs t,
          append_assoc w.command_buffer (calling (timed now c) ∷ [])
              (map calling (taken now w.devices cs)),
        )
    | inr no' ↦ ground (arith, request_lem now c w, request_all-taken now cs w)
  ]

module _ {Wire P Fs D Info : Type 0} (e : Surroundings Wire P Fs D Info) where
  run_steps-calls :
      (fuel : ℕ) (cs : List DataCall) (w : Wolk Wire P Fs Info)
      → w.command_buffer ≡ map calling cs
      → run_steps e fuel (length cs) w
        ≡ some
            (record w { command_buffer = []; data_service = call_all e.on_data cs w.data_service })
  unfolding run_steps run_next run_command call_all
  run_steps-calls fuel [] w waits = ground arith
  run_steps-calls fuel (c ∷ cs) w waits =
      let t : Wolk Wire P Fs Info = record w {
        command_buffer = map calling cs;
        data_service = call_data e.on_data c w.data_service;
      } in
      ground (arith, run_steps-calls fuel cs t refl)

  -- The buffered object does what the data service does: when nothing waits, and any calls are made
  -- of `WolkMulti`, running the buffer as often as calls were taken leaves nothing waiting, and leaves
  -- the data service as the same calls made on it directly, in their order, would. Those for a device
  -- that is not in the list are left out, except for readings; all else is unchanged.
  pub run_steps-requests :
      (fuel now : ℕ) (cs : List DataCall) (w : Wolk Wire P Fs Info)
      → w.command_buffer ≡ []
      → (let calls = taken now w.devices cs in
          run_steps e fuel (length calls) (request_all now cs w)
          ≡ some (record w {
            command_buffer = [];
            data_service = call_all e.on_data calls w.data_service;
          }))
  run_steps-requests fuel now cs w idle =
      let calls = taken now w.devices cs in
      ap (run_steps e fuel (length calls)) (request_all-taken now cs w)
      ∙ run_steps-calls fuel calls (waiting calls w) (ground arith)
