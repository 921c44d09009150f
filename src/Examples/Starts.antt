-- ===== src/Examples/Starts.antt =====
-- What the starts come to, through the builder.
use wolk_connect_task.Prelude.{
  ℕ, ◌≡◌, inl, inr, refl, true, false, some, [], ◌∷◌, codes, is_empty, arith,
}
use wolk_connect_task.Sdk.{Device}
use wolk_connect_task.Data.{DataProtocol}
use wolk_connect_task.Firmware.{FirmwareInstaller}
use wolk_connect_task.Wolk.{Surroundings, Wolk, DataCall, connecting, calling, connect, try_connect}
use wolk_connect_task.Wolk.Single.{obtain_details}
use wolk_connect_task.Builder.{
  WolkBuilder, wolk_builder, with_host, with_ca_cert_path, with_feed_update_handler,
  with_parameter_handler, with_persistence, with_file_transfer, with_file_listener,
  with_firmware_installer,
}
use wolk_connect_task.Builder.Build.{built}
use wolk_connect_task.Builder.Options.{Configured, is_complete}
use wolk_connect_task.Builder.Outcomes.{build_wolk_single-IsReady}
use wolk_connect_task.Examples.{example_device, ca_cert_path, max_packet_size, build_and_connect}
use wolk_connect_task.Examples.Senders.{
  simple_builder, register_builder, debian_device, debian_builder,
}
use wolk_connect_task.Examples.FullFeature.{
  FullFeature, looping, example_installer, full_feature_builder, start,
}
use wolk_connect_task.Examples.Pull.{pull_builder}

module _ {Wire P Fs Info : Type 0} where
  -- An object that waits to connect, and for nothing else.
  abbrev pub IsConnecting : Wolk Wire P Fs Info → Type 0
  IsConnecting w = (w.connected ≡ false) × (w.command_buffer ≡ connecting true ∷ [])

module _ {Wire P Fs D Info : Type 0} (Status : Type 0) (e : Surroundings Wire P Fs D Info) where
  -- No exception is thrown, no null pointer is dereferenced, and the object of a device waits to
  -- connect.
  abbrev pub Starts : Fs → WolkBuilder Wire P → Device → Type 0
  Starts disk b d =
      (w : Wolk Wire P Fs Info) × (build_and_connect Status e disk b ≡ built w)
      × ((w.devices ≡ d ∷ []) × IsConnecting w)

  build_and_connect-Starts :
      (disk : Fs) (b : WolkBuilder Wire P) (d : Device)
      → Configured b
      → b.devices ≡ d ∷ []
      → is_empty d.key ≡ false
      → is_empty d.password ≡ false
      → is_complete b ≡ true
      → Starts disk b d
  unfolding build_and_connect connect try_connect
  build_and_connect-Starts disk b d configured one key password firmware =
      elim (build_wolk_single-IsReady {Status = Status} e disk b d configured one key password) [
        | inl (missing, null) ↦ ground arith
        | inr (has, (t, made, (stored, kept, ready))) ↦
            let (idle, nothing) = ready.idle in
            (connect t.wolk, ground arith, (ready.devices, (idle, rw nothing refl)))
      ]

module _ {Wire P : Type 0} (store : P) (protocol : DataProtocol Wire) where
  simple_builder-Configured : Configured (simple_builder store protocol)
  unfolding simple_builder
  simple_builder-Configured =
      Configured.host (codes "tcp://INSERT_HOSTNAME:PORT") _
        (Configured.start store protocol (example_device ∷ []))

  register_builder-Configured : Configured (register_builder store protocol)
  unfolding register_builder
  register_builder-Configured = Configured.ca_cert_path ca_cert_path _ (
      Configured.host (codes "ssl://INSERT_HOSTNAME:PORT") _
        (Configured.start store protocol (example_device ∷ [])))

  pull_builder-Configured : (f g : ℕ) → Configured (pull_builder store protocol f g)
  unfolding pull_builder
  pull_builder-Configured f g = Configured.parameter_handler (some g) _ (
      Configured.feed_handler (some f) _ (
        Configured.ca_cert_path ca_cert_path _ (
          Configured.host (codes "ssl://INSERT_HOSTNAME:PORT") _
            (Configured.start store protocol (example_device ∷ [])))))

  debian_builder-Configured : (i : FirmwareInstaller) → Configured (debian_builder store protocol i)
  unfolding debian_builder
  debian_builder-Configured i = Configured.firmware_installer (some i) (codes "./") _ (
      Configured.file_transfer (codes "./files") max_packet_size _ (
        Configured.ca_cert_path ca_cert_path _ (
          Configured.host (codes "ssl://integration5.wolkabout.com:8883") _
            (Configured.start store protocol (debian_device ∷ [])))))

  full_feature_builder-Configured : (f g : ℕ) → Configured (full_feature_builder store protocol f g)
  unfolding full_feature_builder
  full_feature_builder-Configured f g =
      Configured.firmware_installer (some example_installer) (codes "./") _ (
        Configured.file_listener true _ (
          Configured.file_transfer (codes "./files") max_packet_size _ (
            Configured.persistence (some store) _ (
              Configured.parameter_handler (some g) _ (
                Configured.feed_handler (some f) _ (
                  Configured.ca_cert_path ca_cert_path _ (
                    Configured.host (codes "ssl://INSERT_HOSTNAME:PORT") _
                      (Configured.start store protocol (example_device ∷ [])))))))))

module _ {Wire P Fs D Info : Type 0} (Status : Type 0) (e : Surroundings Wire P Fs D Info)
    (store : P) (protocol : DataProtocol Wire) (disk : Fs) where
  -- Whatever the disk holds, each of the programs for one device starts.
  simple_builder-Starts : Starts Status e disk (simple_builder store protocol) example_device
  unfolding simple_builder wolk_builder with_host
  simple_builder-Starts =
      build_and_connect-Starts Status e disk (simple_builder store protocol) example_device
        (simple_builder-Configured store protocol) refl refl refl refl

  register_builder-Starts : Starts Status e disk (register_builder store protocol) example_device
  unfolding register_builder wolk_builder with_host with_ca_cert_path
  register_builder-Starts =
      build_and_connect-Starts Status e disk (register_builder store protocol) example_device
        (register_builder-Configured store protocol) refl refl refl refl

  pull_builder-Starts :
      (f g : ℕ) → Starts Status e disk (pull_builder store protocol f g) example_device
  unfolding pull_builder wolk_builder with_host with_ca_cert_path with_feed_update_handler
      with_parameter_handler
  pull_builder-Starts f g =
      build_and_connect-Starts Status e disk (pull_builder store protocol f g) example_device
        (pull_builder-Configured store protocol f g) refl refl refl refl

  debian_builder-Starts :
      (i : FirmwareInstaller) → Starts Status e disk (debian_builder store protocol i) debian_device
  unfolding debian_builder wolk_builder with_host with_ca_cert_path with_file_transfer
      with_firmware_installer
  debian_builder-Starts i =
      build_and_connect-Starts Status e disk (debian_builder store protocol i) debian_device
        (debian_builder-Configured store protocol i) refl refl refl refl

  full_feature_builder-Starts :
      (f g : ℕ) → Starts Status e disk (full_feature_builder store protocol f g) example_device
  unfolding full_feature_builder wolk_builder with_host with_ca_cert_path with_feed_update_handler
      with_parameter_handler with_persistence with_file_transfer with_file_listener
      with_firmware_installer
  full_feature_builder-Starts f g =
      build_and_connect-Starts Status e disk (full_feature_builder store protocol f g)
        example_device (full_feature_builder-Configured store protocol f g) refl refl refl refl

  -- The full-featured program reaches the head of its loop with a heartbeat of 5 s; the attempt to
  -- connect and the request for the details wait, in this order.
  start-looping :
      {T : Type 0} (f g callback : ℕ) (zero : T)
      → (p : FullFeature T (Wolk Wire P Fs Info)) × (start Status e store protocol disk f g callback
            zero
          ≡ built p)
        × ((p.phase ≡ looping)
            × (p.device_info.heartbeat ≡ 5)
            × (p.wolk.command_buffer
                ≡ connecting true
                  ∷ (calling
                        (DataCall.details_synchronization (codes "<DEVICE_KEY>") (some callback))
                      ∷ [])))
  unfolding start obtain_details
  start-looping f g callback zero =
      let (w, made, (one, (idle, waits))) = full_feature_builder-Starts f g in
      (
        record {
          wolk = obtain_details (some callback) w;
          device_info = record { temperature = zero; toggle = false; heartbeat = 5 };
          running = true;
          phase = looping;
        },
        rw (start, made) refl,
        (refl, refl, ground arith),
      )
