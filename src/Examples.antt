-- ===== src/Examples.antt =====
-- examples/: what the example programs for one device do first. Each has its device and its builder.
pub mod Senders
pub mod FullFeature
pub mod Pull
pub mod Subdevices
pub mod Starts
pub mod Commands
pub mod Restarts
use wolk_connect_task.Prelude.{Text, ℕ, List, [], ◌∷◌, codes}
use wolk_connect_task.Sdk.{Device}
use wolk_connect_task.Wolk.{Surroundings, Wolk, connect}
use wolk_connect_task.Builder.{WolkBuilder}
use wolk_connect_task.Builder.Build.{Built, Outcome, thrown, undefined, built, build_wolk_single}

-- The credentials that the user is to replace.
abbrev pub example_device : Device
example_device = record { key = codes "<DEVICE_KEY>"; password = codes "<DEVICE_PASSWORD>" }

abbrev pub ca_cert_path : Text
ca_cert_path = codes "/INSERT/PATH/TO/YOUR/CA.CRT/FILE"

-- The default of `withFileTransfer`.
abbrev pub max_packet_size : ℕ
max_packet_size = 268435

module _ {Wire P Fs D Info : Type 0} (Status : Type 0) (e : Surroundings Wire P Fs D Info) where
  -- `buildWolkSingle` and `connect`.
  unfoldable pub build_and_connect : Fs → WolkBuilder Wire P → Outcome (Wolk Wire P Fs Info)
  build_and_connect disk b =
      let outcome : Outcome (Built Wire P Fs D Info Status) = build_wolk_single e disk b in
      elim outcome [
        | thrown error ↦ thrown error
        | undefined ↦ undefined
        | built t ↦ built (connect t.wolk)
      ]
