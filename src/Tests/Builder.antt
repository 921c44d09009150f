-- ===== src/Tests/Builder.antt =====
-- Witnesses for the builder: a device with all the options but firmware updates.
use wolk_connect_task.Prelude.{◌≡◌, refl, ◌⊎◌, true, false, none, some, [], ◌∷◌, codes}
use wolk_connect_task.Sdk.{Device}
use wolk_connect_task.Builder.{
  WolkBuilder, wolk_builder, with_persistence, with_file_url_download, with_platform_status,
  with_registration,
}
use wolk_connect_task.Builder.Build.{Built, undefined, built, build_wolk_single}
use wolk_connect_task.Builder.Options.{Configured, is_complete}
use wolk_connect_task.Builder.Outcomes.{IsReady, build_wolk_single-IsReady}
use wolk_connect_task.Prelude.{Text, ℕ, List}
use wolk_connect_task.Tests.{Disk}
use wolk_connect_task.Tests.Wolk.{e}

abbrev device : Device
device = record { key = codes "a"; password = codes "p" }

abbrev options : WolkBuilder Text (List Text)
options = with_registration (
    with_platform_status (some 1) (
      with_file_url_download (codes "f") true false 0
        (wolk_builder [] e.on_data.protocol (device ∷ []))))

options-Configured : Configured options
options-Configured = Configured.registration _ (
    Configured.platform_status (some 1) _ (
      Configured.file_url_download (codes "f") true false 0 _
        (Configured.start [] e.on_data.protocol (device ∷ []))))

build_wolk_single-IsReady_example :
    ((is_complete options ≡ false) × (build_wolk_single {Status = ℕ} e [] options ≡ undefined))
    ⊎ ((is_complete options ≡ true)
        × ((t : Built Text (List Text) Disk Text Text ℕ) × (build_wolk_single e [] options
              ≡ built t)
            × ((p : List Text) × (options.persistence ≡ some p) × IsReady e device p options t)))
unfolding with_registration with_platform_status with_file_url_download wolk_builder
build_wolk_single-IsReady_example =
    build_wolk_single-IsReady e [] options device options-Configured refl refl refl

-- A null pointer in place of the persistence.
nothing_stored : build_wolk_single {Status = ℕ} e [] (with_persistence none options) ≡ undefined
unfolding build_wolk_single with_registration with_platform_status with_file_url_download
    wolk_builder with_persistence wolk_connect_task.Builder.Build.build
    wolk_connect_task.Builder.Build.build_as
nothing_stored = refl
