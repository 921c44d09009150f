-- ===== src/Application.antt =====
-- application.cpp: the program ELab-Test, over the object of a single device. `none` is undefined:
-- an element past the end of a vector.
pub mod Start
pub mod Starts
pub mod Runs
pub mod Turns
pub mod Levels
use wolk_connect_task.Prelude.{
  Text, ℕ, Bool, true, false, not, ◌||◌, ◌>>=◌, Option, none, some, List, [], ◌∷◌, ◌++◌, get_elem?,
  is_empty, codes, text_eq, ◌==◌, if◌then◌else◌,
}
use wolk_connect_task.Sdk.{Reading, ReadingValue, string_value, string_values}
use wolk_connect_task.Wolk.{Wolk, publish}
use wolk_connect_task.Wolk.Single.{add_string_reading}

-- `double`: `truncate` is the conversion to an index, which is undefined for some values, and
-- `to_string` that of the SDK.
pub record Doubles (T : Type 0) : Type 0 where
  pub truncate : T → Option ℕ
  pub greater : T → T → Bool
  pub to_string : T → Text

-- The variables of `main` that change. `log_level` is the level of the logger, of the SDK's type `L`.
pub record Application (T L W : Type 0) : Type 0 where
  pub wolk : W
  pub log_info : Text
  pub log_level : L
  pub device_ip_address : Text
  pub ip : Text
  pub temperatures : List T
  pub temperatures_max : List T

abbrev pub valid_logs : List Text
valid_logs =
    codes "INFO"
    ∷ (codes "DEBUG"
        ∷ (codes "WARN"
            ∷ (codes "ERROR"
                ∷ (codes "TRACE"
                    ∷ (codes "OFF"
                        ∷ (codes "info"
                            ∷ (codes "debug"
                                ∷ (codes "warn"
                                    ∷ (codes "error" ∷ (codes "trace" ∷ (codes "off" ∷ [])))))))))))

unfoldable pub one_of_texts : Text → List Text → Bool
one_of_texts t [] = false
one_of_texts t (u ∷ us) = let rest = one_of_texts t us in t == u || rest

abbrev pub is_valid_log : Text → Bool
is_valid_log log_info = one_of_texts log_info valid_logs

-- `getStringValue`; that of a reading with several values is a parameter.
abbrev pub string_value_of : (List Text → Text) → Reading → Text
string_value_of first_value reading = elim reading.value [
  | string_value value ↦ value
  | string_values values ↦ first_value values
]

-- `from_string` is the SDK's: the level that a text names.
module _ {T L W : Type 0} (from_string : Text → L) (first_value : List Text → Text) where
  unfoldable pub handle_reading : Reading → Application T L W → Application T L W
  handle_reading reading a =
      if reading.reference == codes "LOG_LEVEL"
      then (if is_valid_log (string_value_of first_value reading)
          then record a {
            log_info = string_value_of first_value reading;
            log_level = from_string (string_value_of first_value reading);
          }
          else a)
      else a

  unfoldable pub handle_readings : List Reading → Application T L W → Application T L W
  handle_readings [] a = a
  handle_readings (reading ∷ readings) a = handle_readings readings (handle_reading reading a)

  -- The times are those of the map, in their order.
  unfoldable pub handle_update : List (ℕ × List Reading) → Application T L W → Application T L W
  handle_update [] a = a
  handle_update ((time, readings) ∷ pairs) a = handle_update pairs (handle_readings readings a)

-- What `timerCpu` writes to the output first.
unfoldable pub print_temperatures : {T : Type 0} → List T → Option (List T)
print_temperatures temperatures = do
  t0 ← get_elem? temperatures 0
  t1 ← get_elem? temperatures 1
  t2 ← get_elem? temperatures 2
  t3 ← get_elem? temperatures 3
  some (t0 ∷ (t1 ∷ (t2 ∷ (t3 ∷ []))))

module _ {T : Type 0} (d : Doubles T) where
  -- The loop: each temperature is taken for the index of another.
  unfoldable pub maximum_from : List T → List T → T → Option T
  maximum_from temperatures [] max_value = some max_value
  maximum_from temperatures (itr ∷ rest) max_value = elim (d.truncate itr) [
    | none ↦ none
    | some i ↦ elim (get_elem? temperatures i) [
      | none ↦ none
      | some value ↦
          maximum_from temperatures rest (if d.greater value max_value then value else max_value)
    ]
  ]

  unfoldable pub get_maximum_temperature : List T → Option T
  get_maximum_temperature [] = none
  get_maximum_temperature (t ∷ temperatures) = maximum_from (t ∷ temperatures) (t ∷ temperatures) t

module _ {T L Wire P Fs Info : Type 0} (d : Doubles T) where
  abbrev pub add_text :
      ℕ
      → Text
      → Text
      → Application T L (Wolk Wire P Fs Info)
      → Application T L (Wolk Wire P Fs Info)
  add_text now reference value a = record a {
    wolk = add_string_reading now reference value 0 a.wolk;
  }

  abbrev pub publish_all :
      Application T L (Wolk Wire P Fs Info) → Application T L (Wolk Wire P Fs Info)
  publish_all a = record a { wolk = publish a.wolk }

  -- The body of `timerCpuMax`, at the time `now`.
  unfoldable pub publish_maximum :
      ℕ → Application T L (Wolk Wire P Fs Info) → Option (Application T L (Wolk Wire P Fs Info))
  publish_maximum now a = do
    max ← get_maximum_temperature d a.temperatures_max
    some (record (publish_all (add_text now (codes "CPU_T_core_max") (d.to_string max) a)) {
      temperatures_max = [];
    })

  unfoldable pub add_temperature :
      ℕ
      → Text
      → ℕ
      → Application T L (Wolk Wire P Fs Info)
      → Option (Application T L (Wolk Wire P Fs Info))
  add_temperature now reference i a = elim (get_elem? a.temperatures i) [
    | none ↦ none
    | some t ↦ some (add_text now reference (d.to_string t) a)
  ]

  -- The body of `timerCpu`.
  unfoldable pub publish_temperatures :
      ℕ → Application T L (Wolk Wire P Fs Info) → Option (Application T L (Wolk Wire P Fs Info))
  publish_temperatures now a = do
    printed ← print_temperatures a.temperatures
    b ← add_temperature now (codes "CPU_T_core1") 0 (record a { temperatures = [] })
    c ← add_temperature now (codes "CPU_T_core2") 1 b
    f ← add_temperature now (codes "CPU_T_core3") 2 c
    g ← add_temperature now (codes "CPU_T_core4") 3 f
    some (record g { temperatures = [] })

  -- The body of `timerIp`.
  unfoldable pub publish_ip :
      ℕ → Application T L (Wolk Wire P Fs Info) → Application T L (Wolk Wire P Fs Info)
  publish_ip now a = add_text now (codes "IP_ADD") a.ip a

  -- One turn of the endless loop, with what the two readers return.
  unfoldable pub loop_body :
      ℕ
      → Text
      → List T
      → Application T L (Wolk Wire P Fs Info)
      → Option (Application T L (Wolk Wire P Fs Info))
  loop_body now new_ip temperatures a = do
    max ← get_maximum_temperature d temperatures
    let b : Application T L (Wolk Wire P Fs Info) = record a {
      temperatures = temperatures;
      temperatures_max = a.temperatures_max ++ max ∷ [];
    }
    some (
        publish_all (
          if not (b.device_ip_address == new_ip)
          then record (publish_all (add_text now (codes "IP_ADD") b.ip b)) {
            ip = new_ip;
            device_ip_address = new_ip;
          }
          else b))
