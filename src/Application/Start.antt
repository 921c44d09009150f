-- ===== src/Application/Start.antt =====
-- application.cpp: the start of `main`, up to the loop.
use wolk_connect_task.Prelude.{
  Text, ℕ, Bool, true, false, not, Option, none, some, List, [], ◌∷◌, is_empty, codes, text_eq,
  nat_eq, ◌==◌, if◌then◌else◌,
}
use wolk_connect_task.Prelude.Dict.{Dict, lookup}
use wolk_connect_task.Data.{DataProtocol}
use wolk_connect_task.Wolk.{Surroundings, Wolk, connect}
use wolk_connect_task.Wolk.Single.{add_string_reading}
use wolk_connect_task.Builder.{WolkBuilder, wolk_builder, with_host, with_feed_update_handler}
use wolk_connect_task.Builder.Build.{
  Built, BuildError, Outcome, thrown, undefined, built, build_wolk_single,
}
use wolk_connect_task.Application.{Application}

-- A document of JSON is an object whose values are texts.
unfoldable pub contains_all : List Text → Dict Text Text → Bool
contains_all [] json = true
contains_all (key ∷ keys) json =
    let rest = contains_all keys json in elim (lookup key json) [ none ↦ false | some value ↦ rest ]

abbrev pub required_keys : List Text
required_keys =
    codes "DEVICE_KEY"
    ∷ (codes "DEVICE_PASSWORD"
        ∷ (codes "PLATFORM_HOST"
            ∷ (codes "CA_CERT_PATH" ∷ (codes "FILE_MANAGEMENT_LOCATION" ∷ []))))

abbrev pub is_valid_json : Dict Text Text → Bool
is_valid_json json = contains_all required_keys json

-- What a variable holds after the document was read; before that it is empty.
unfoldable pub field_of : Text → Dict Text Text → Text
field_of key json =
    if not (is_valid_json json)
    then []
    else elim (lookup key json) [ none ↦ [] | some value ↦ value ]

pub data Exit (A : Type 0) : Type 0 where
  usage_error no_path no_file : Exit A
  build_failed : BuildError → Exit A
  broken : Exit A
  started : A → Exit A

module _ {Wire P : Type 0} where
  -- `handler` names the handler of the feeds.
  unfoldable pub builder_of : P → DataProtocol Wire → ℕ → Dict Text Text → WolkBuilder Wire P
  builder_of store protocol handler json = with_feed_update_handler (some handler) (
      with_host (field_of (codes "PLATFORM_HOST") json) (
        wolk_builder store protocol (
          record {
            key = field_of (codes "DEVICE_KEY") json;
            password = field_of (codes "DEVICE_PASSWORD") json;
          }
          ∷ [])))

module _ {T L Wire P Fs D Info : Type 0} (Status : Type 0) (e : Surroundings Wire P Fs D Info) where
  -- The program from its arguments on, with the level DEBUG of the SDK: the number of them, the path, and the document of the file,
  -- if it can be opened.
  unfoldable pub start :
      L
      → P
      → DataProtocol Wire
      → ℕ
      → Fs
      → ℕ
      → Text
      → Option (Dict Text Text)
      → Text
      → ℕ
      → Exit (Application T L (Wolk Wire P Fs Info))
  start debug store protocol handler disk argc path file ip now =
      if not (argc == 2) then usage_error else if is_empty path then no_path else elim file [
        | none ↦ no_file
        | some json ↦
            let outcome : Outcome (Built Wire P Fs D Info Status) =
              build_wolk_single e disk (builder_of store protocol handler json) in
            elim outcome [
              | thrown error ↦ build_failed error
              | undefined ↦ broken
              | built b ↦ started (record {
                wolk =
                    add_string_reading now (codes "LOG_LEVEL") (codes "DEBUG") 0 (connect b.wolk);
                log_info = codes "DEBUG";
                log_level = debug;
                device_ip_address = ip;
                ip = ip;
                temperatures = [];
                temperatures_max = [];
              })
            ]
      ]
