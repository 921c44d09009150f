-- ===== src/Application/Starts.antt =====
-- What the start of the program comes to, through the builder.
use wolk_connect_task.Prelude.{
  Text, ℕ, ◌≡◌, inl, inr, refl, true, false, some, [], ◌∷◌, codes, is_empty, text_eq, nat_eq, arith,
}
use wolk_connect_task.Prelude.Dict.{Dict}
use wolk_connect_task.Sdk.{Device}
use wolk_connect_task.Data.{DataProtocol}
use wolk_connect_task.Wolk.{Surroundings, Wolk, DataCall, connecting, calling, connect, try_connect}
use wolk_connect_task.Wolk.Single.{add_string_reading}
use wolk_connect_task.Builder.{wolk_builder, with_host, with_feed_update_handler}
use wolk_connect_task.Builder.Build.{empty_key, thrown, build_wolk_single}
use wolk_connect_task.Builder.Options.{Configured, is_complete}
use wolk_connect_task.Builder.Outcomes.{build_wolk_single-IsReady}
use wolk_connect_task.Application.{Application}
use wolk_connect_task.Application.Start.{build_failed, started, field_of, builder_of, start}

abbrev pub device_of : Dict Text Text → Device
device_of json = record {
  key = field_of (codes "DEVICE_KEY") json;
  password = field_of (codes "DEVICE_PASSWORD") json;
}

module _ {Wire P : Type 0} (store : P) (protocol : DataProtocol Wire) (handler : ℕ) where
  builder_of-Configured :
      (json : Dict Text Text) → Configured (builder_of store protocol handler json)
  unfolding builder_of
  builder_of-Configured json = Configured.feed_handler (some handler) _ (
      Configured.host (field_of (codes "PLATFORM_HOST") json) _
        (Configured.start store protocol (device_of json ∷ [])))

  builder_of-fields :
      (json : Dict Text Text)
      → ((builder_of store protocol handler json).devices ≡ device_of json ∷ [])
        × (is_complete (builder_of store protocol handler json) ≡ true)
  unfolding builder_of wolk_builder with_host with_feed_update_handler
  builder_of-fields json = (refl, refl)

module _ {Wire P Fs D Info Status : Type 0} (e : Surroundings Wire P Fs D Info) (store : P)
    (protocol : DataProtocol Wire) (handler : ℕ) (disk : Fs) where
  build-rejected :
      (json : Dict Text Text)
      → is_empty (field_of (codes "DEVICE_KEY") json) ≡ true
      → build_wolk_single {Status = Status} e disk (builder_of store protocol handler json)
        ≡ thrown empty_key
  unfolding build_wolk_single builder_of wolk_builder with_host with_feed_update_handler
  build-rejected json missing = rw missing refl

module _ {Wire P Fs Info : Type 0} where
  waiting-first :
      {d : Device} (now : ℕ) (w : Wolk Wire P Fs Info)
      → w.devices ≡ d ∷ []
      → w.command_buffer ≡ []
      → (add_string_reading now (codes "LOG_LEVEL") (codes "DEBUG") 0 (connect w)).command_buffer
        ≡ connecting true
          ∷ (calling (DataCall.add_string_reading d.key (codes "LOG_LEVEL") (codes "DEBUG") now)
              ∷ [])
  unfolding add_string_reading connect try_connect
  waiting-first now w one idle = ground arith

module _ {T L Wire P Fs D Info : Type 0} (Status : Type 0) (e : Surroundings Wire P Fs D Info)
    (debug : L) (store : P) (protocol : DataProtocol Wire) (handler : ℕ) (disk : Fs) where
  -- The program with the right number of arguments and a file that opens. When the document gives
  -- no key of the device, since it lacks one of the five keys or holds an empty one, the start fails with
  -- the exception of an empty key. When it gives a key and a password, the program starts:
  -- the attempt to connect and the reading of the level of the log wait, in this order, for the device of
  -- the document, and the object of the device is not connected.
  pub start-outcome :
      (path ip : Text) (now : ℕ) (bad good : Dict Text Text)
      → is_empty path ≡ false
      → is_empty (field_of (codes "DEVICE_KEY") bad) ≡ true
      → is_empty (field_of (codes "DEVICE_KEY") good) ≡ false
      → is_empty (field_of (codes "DEVICE_PASSWORD") good) ≡ false
      → (start {T = T} Status e debug store protocol handler disk 2 path (some bad) ip now
          ≡ build_failed empty_key)
        × ((a : Application T L (Wolk Wire P Fs Info)) × (start Status e debug store protocol
                handler disk 2 path
                (some good)
                ip
                now
              ≡ started a)
            × (a.wolk.connected ≡ false)
            × (a.wolk.command_buffer
                ≡ connecting true
                  ∷ (calling (
                        DataCall.add_string_reading
                          (field_of (codes "DEVICE_KEY") good)
                          (codes "LOG_LEVEL")
                          (codes "DEBUG")
                          now)
                      ∷ [])))
  unfolding start add_string_reading connect try_connect
  start-outcome path ip now bad good given missing key password = (
    ground (arith, build-rejected {Status = Status} e store protocol handler disk bad missing),
    elim (build_wolk_single-IsReady {Status = Status} e disk
        (builder_of store protocol handler good) (device_of good)
        (builder_of-Configured store protocol handler good)
        (builder_of-fields store protocol handler good).0 key password) [
          | inl (no_firmware, null) ↦ ground (arith, builder_of-fields store protocol handler good)
          | inr (has, (b, made, (stored, kept, ready))) ↦
              let a : Application T L (Wolk Wire P Fs Info) = record {
                wolk =
                    add_string_reading now (codes "LOG_LEVEL") (codes "DEBUG") 0 (connect b.wolk);
                log_info = codes "DEBUG";
                log_level = debug;
                device_ip_address = ip;
                ip = ip;
                temperatures = [];
                temperatures_max = [];
              } in
              (a, ground arith, ready.idle.0, waiting-first now b.wolk ready.devices ready.idle.1)
        ],
  )
