-- ===== src/Tests/Application.antt =====
-- Witnesses for the program: temperatures are whole numbers of degrees.
use wolk_connect_task.Prelude.{
  Text, ℕ, ◌+◌, ◌≡◌, refl, ltb, Bool, true, false, Option, none, some, is_some, List, [], ◌∷◌, ◌++◌,
  codes, arith, text_eq, ◌==◌, if◌then◌else◌,
}
use wolk_connect_task.Prelude.Dict.{Dict}
use wolk_connect_task.Sdk.{Reading, string_value}
use wolk_connect_task.Wolk.{Wolk, DataCall, connecting, calling}
use wolk_connect_task.Builder.Build.{empty_key}
use wolk_connect_task.Application.{
  Doubles, Application, publish_temperatures, publish_maximum, handle_update,
}
use wolk_connect_task.Application.Start.{build_failed, started, start}
use wolk_connect_task.Application.Starts.{start-outcome}
use wolk_connect_task.Application.Levels.{all_readings, levels, with_levels, handle_update-levels}
use wolk_connect_task.Application.Runs.{
  addresses, replaced, read_addresses, is_readable, run_loop, publish_temperatures-undefined,
  run_loop-replaced,
}
use wolk_connect_task.Tests.{Disk}
use wolk_connect_task.Tests.Wolk.{e, idle}

abbrev d : Doubles ℕ
d = record { truncate = λ t. some t; greater = λ a b. ltb b a; to_string = λ t. t ∷ [] }

-- The levels that the logger knows.
data Level : Type 0 where
  debug other : Level

abbrev level_of : Text → Level
level_of text = if text == codes "DEBUG" then debug else other

abbrev Program : Type 0
Program = Application ℕ Level (Wolk Text (List Text) Disk Text)

abbrev program : Program
program = record {
  wolk = idle;
  log_info = codes "DEBUG";
  log_level = debug;
  device_ip_address = codes "A";
  ip = codes "A";
  temperatures = 1 ∷ [];
  temperatures_max = 0 ∷ [];
}

publish_temperatures-undefined_example :
    (publish_temperatures d 5 program ≡ none)
    × (is_some (publish_maximum d 5 program) ≡ is_readable d (0 ∷ []))
publish_temperatures-undefined_example = publish_temperatures-undefined d 5 program

-- Two degrees at most, on four cores.
abbrev cool : List ℕ
cool = 2 ∷ (1 ∷ (0 ∷ (2 ∷ [])))

abbrev turns : List (ℕ × Text × List ℕ)
turns = (1, codes "B", cool) ∷ ((2, codes "B", cool) ∷ ((3, codes "C", cool) ∷ []))

run_loop-replaced_example :
    (t : Program) × (run_loop d turns program ≡ some t)
    × (addresses t.wolk.command_buffer
        ≡ addresses [] ++ replaced (codes "A") (read_addresses turns))
unfolding wolk_connect_task.Application.Runs.are_indices
run_loop-replaced_example = run_loop-replaced d turns program refl (refl, (refl, (refl, tt)))

-- The two addresses that were replaced.
replaced_run : replaced (codes "A") (read_addresses turns) ≡ codes "A" ∷ (codes "B" ∷ [])
unfolding replaced wolk_connect_task.Prelude.text_dec
replaced_run = refl

abbrev updates : List (ℕ × List Reading)
updates =
    (1, record { reference = codes "LOG_LEVEL"; value = string_value (codes "INFO"); rtc = 1 } ∷ [])
    ∷ ((2, record { reference = codes "LOG_LEVEL"; value = string_value (codes "X"); rtc = 2 } ∷ [])
        ∷ [])

handle_update-levels_example :
    handle_update level_of (λ ts. []) updates program
    ≡ with_levels level_of (λ ts. []) (levels level_of (λ ts. []) (all_readings updates)) program
handle_update-levels_example = handle_update-levels level_of (λ ts. []) updates program

abbrev document : Dict Text Text
document =
    (codes "DEVICE_KEY", codes "k")
    ∷ ((codes "DEVICE_PASSWORD", codes "p")
        ∷ ((codes "PLATFORM_HOST", codes "h")
            ∷ ((codes "CA_CERT_PATH", []) ∷ ((codes "FILE_MANAGEMENT_LOCATION", []) ∷ []))))

start-outcome_example :
    (start {T = ℕ} ℕ e debug [] e.on_data.protocol 1 [] 2 (codes "f") (some []) (codes "A") 9
      ≡ build_failed empty_key)
    × ((a : Program) × (start ℕ e debug [] e.on_data.protocol 1 [] 2
            (codes "f")
            (some document)
            (codes "A")
            9
          ≡ started a)
        × (a.wolk.connected ≡ false)
        × (a.wolk.command_buffer
            ≡ connecting true
              ∷ (calling
                    (DataCall.add_string_reading (codes "k") (codes "LOG_LEVEL") (codes "DEBUG") 9)
                  ∷ [])))
unfolding wolk_connect_task.Application.Start.field_of
    wolk_connect_task.Application.Start.contains_all wolk_connect_task.Prelude.Dict.lookup
    wolk_connect_task.Prelude.text_dec
start-outcome_example =
    start-outcome ℕ e debug [] e.on_data.protocol 1 [] (codes "f") (codes "A") 9 [] document refl
      refl refl refl
