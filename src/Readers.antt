-- ===== src/Readers.antt =====
-- cpuTemperatureReader/cpuTemperatureReader.cpp and ipAddressReader/ipAddressReader.cpp: what the
-- program of application.cpp reads. The library of the sensors and the system are parameters.
use wolk_connect_task.Prelude.{
  Text, ◌-◌, ◌≡◌, ◌⊎◌, leb, Bool, Option, none, some, List, [], ◌∷◌, ◌++◌, length, drop,
  length-drop, codes, text_eq, ◌==◌, arith, if◌then◌else◌,
}

-- A subfeature, and the temperature that `sensors_get_value` gives for it, if it gives one.
pub record Subfeature (Temperature : Type 0) : Type 0 where
  pub is_temp_input : Bool
  pub value : Option Temperature

-- The chips that are detected, with their features and the subfeatures of each.
pub record Sensors (Temperature : Type 0) : Type 0 where
  pub starts : Bool
  pub chips : List (List (List (Subfeature Temperature)))

module _ {T : Type 0} where
  unfoldable pub read_feature : List (Subfeature T) → List T → List T
  read_feature [] temperatures = temperatures
  read_feature (subfeature ∷ subfeatures) temperatures = read_feature subfeatures (
      if subfeature.is_temp_input
      then (elim subfeature.value [
        | none ↦ temperatures
        | some temperature ↦ temperatures ++ temperature ∷ []
      ])
      else temperatures)

  unfoldable pub read_chip : List (List (Subfeature T)) → List T → List T
  read_chip [] temperatures = temperatures
  read_chip (feature ∷ features) temperatures =
      read_chip features (read_feature feature temperatures)

  unfoldable pub read_chips : List (List (List (Subfeature T))) → List T → List T
  read_chips [] temperatures = temperatures
  read_chips (chip ∷ chips) temperatures = read_chips chips (read_chip chip temperatures)

  -- `none` is the end of the program.
  unfoldable pub read_temperatures : Sensors T → Option (List T)
  read_temperatures sensors =
      let temperatures = read_chips sensors.chips [] in
      if sensors.starts
      then some
          (if leb 4 (length temperatures) then drop (length temperatures - 4) temperatures else [])
      else none

  -- Every reading gives four temperatures or none.
  read_temperatures-length :
      (sensors : Sensors T) (temperatures : List T)
      → read_temperatures sensors ≡ some temperatures
      → (length temperatures ≡ 4) ⊎ (temperatures ≡ [])
  unfolding read_temperatures
  read_temperatures-length sensors temperatures read =
      let all = read_chips sensors.chips [] in ground (arith, length-drop (length all - 4) all)

-- `gethostname` and `gethostbyname`, whose addresses are written as `inet_ntoa` does.
pub record Network : Type 0 where
  pub host_name : Option Text
  pub addresses : Text → Option (List Text)

abbrev pub unknown : Text
unknown = codes "Unknown"

unfoldable pub retrieve_host_name : Network → Text
retrieve_host_name network = elim network.host_name [ none ↦ unknown | some name ↦ name ]

-- `none` is a null pointer dereferenced: the list of the addresses is empty.
unfoldable pub retrieve_ip_address : Network → Option Text
unfolding retrieve_host_name
retrieve_ip_address network =
    let name = retrieve_host_name network in
    if name == unknown then some unknown else (elim (network.addresses name) [
      | none ↦ some unknown
      | some [] ↦ none
      | some (address ∷ addresses) ↦ some address
    ])
