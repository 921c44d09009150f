-- ===== src/Data/Publish.antt =====
-- DataService::publishReadings, publishAttributes and publishParameters.
pub mod Readings
pub mod Groups
use wolk_connect_task.Prelude.{
  Text, ℕ, zero, suc, ltb, Bool, true, false, Option, none, some, List, [], ◌∷◌, ◌++◌, ◌||◌,
  is_empty, text_eq, ◌==◌, if◌then◌else◌,
}
use wolk_connect_task.Prelude.Order.{text_ltb}
use wolk_connect_task.Sdk.{Reading, Attribute, Parameter}
use wolk_connect_task.Data.{
  Outbound, feed_values, attribute_registration, parameters_update, Surroundings, DataService,
  make_persistence_key, parse_persistence_key, publish,
}

module _ {ℓ} {A : Type ℓ} where
  -- `it->second.emplace_back(…)`, with a new vector for a device that has none.
  unfoldable pub add_to_group : Text → A → List (Text × List A) → List (Text × List A)
  add_to_group k a [] = (k, a ∷ []) ∷ []
  add_to_group k a ((j, items) ∷ groups) =
      let rest = add_to_group k a groups in
      if k == j
      then (j, items ++ a ∷ []) ∷ groups
      else if text_ltb k j
      then (k, a ∷ []) ∷ ((j, items) ∷ groups)
      else (j, items) ∷ rest

  -- The loop that groups what the persistence holds by device.
  unfoldable pub group_by_device : List (Text × A) → List (Text × List A) → List (Text × List A)
  group_by_device [] groups = groups
  group_by_device ((key, a) ∷ entries) groups =
      group_by_device entries (add_to_group (parse_persistence_key key).0 a groups)

  -- The loop that takes what belongs to one device.
  unfoldable pub of_device : Text → List (Text × A) → List A
  of_device device_key [] = []
  of_device device_key ((key, a) ∷ entries) =
      let rest = of_device device_key entries in
      if (parse_persistence_key key).0 == device_key then a ∷ rest else rest

abbrev pub batch_size : ℕ
batch_size = 50

module _ {Wire P : Type 0} (e : Surroundings Wire P) where
  -- The recursion goes on while batches are taken: `none` says that the fuel ran out.
  unfoldable pub publish_readings_for_persistence_key :
      ℕ → Text → DataService Wire P → Option (DataService Wire P)
  publish_readings_for_persistence_key zero key s = none
  publish_readings_for_persistence_key (suc fuel) key s =
      let readings = e.get_readings s.persistence key batch_size in
      let removed = λ (t : DataService Wire P). record t {
        persistence = e.remove_readings key batch_size t.persistence;
      } in
      let device_key = (parse_persistence_key key).0 in
      elim (is_empty readings || is_empty device_key) [
        | true ↦ some s
        | false ↦ elim (e.make_outbound_message device_key (feed_values readings)) [
          | none ↦ some (removed s)
          | some wire ↦
              let (ok, t) = publish e wire s in
              elim ok [
                | true ↦ publish_readings_for_persistence_key fuel key (removed t)
                | false ↦ some t
              ]
        ]
      ]

  unfoldable pub publish_readings_for_keys :
      ℕ → List Text → DataService Wire P → Option (DataService Wire P)
  publish_readings_for_keys fuel [] s = some s
  publish_readings_for_keys fuel (key ∷ keys) s =
      elim (publish_readings_for_persistence_key fuel key s) [
        | none ↦ none
        | some t ↦ publish_readings_for_keys fuel keys t
      ]

  unfoldable pub publish_readings : ℕ → DataService Wire P → Option (DataService Wire P)
  publish_readings fuel s = publish_readings_for_keys fuel (e.get_readings_keys s.persistence) s

  -- `publishReadings(deviceKey)`, which takes the device's key for a key of the persistence.
  unfoldable pub publish_device_readings :
      ℕ → Text → DataService Wire P → Option (DataService Wire P)
  publish_device_readings fuel device_key s = publish_readings_for_persistence_key fuel device_key s

-- What `publishAttributes` and `publishParameters` differ in: the message, the key under which an
-- item lies, and its removal.
pub record Kind (Wire P A : Type 0) : Type 0 where
  pub message : List A → Outbound
  pub reference : A → Text
  pub remove : Text → P → P

module _ {Wire P A : Type 0} (e : Surroundings Wire P) (kind : Kind Wire P A) where
  -- The lambda that deletes what was sent.
  unfoldable pub delete_all : Text → List A → DataService Wire P → DataService Wire P
  delete_all device_key [] s = s
  delete_all device_key (a ∷ items) s = delete_all device_key items (record s {
    persistence = kind.remove (make_persistence_key device_key (kind.reference a)) s.persistence;
  })

  -- One message for each device. One that cannot be serialized ends the loop.
  unfoldable pub publish_groups : List (Text × List A) → DataService Wire P → DataService Wire P
  publish_groups [] s = s
  publish_groups ((device_key, items) ∷ groups) s =
      elim (e.make_outbound_message device_key (kind.message items)) [
        | none ↦ delete_all device_key items s
        | some wire ↦
            let (ok, t) = publish e wire s in
            publish_groups groups (if ok then delete_all device_key items t else t)
      ]

  unfoldable pub publish_device : Text → List A → DataService Wire P → DataService Wire P
  publish_device device_key items s =
      if is_empty items then s else publish_groups ((device_key, items) ∷ []) s

module _ {Wire P : Type 0} (e : Surroundings Wire P) where
  abbrev pub attributes : Kind Wire P Attribute
  attributes = record {
    message = attribute_registration;
    reference = λ a. a.name;
    remove = e.remove_attributes;
  }

  abbrev pub parameters : Kind Wire P Parameter
  parameters = record {
    message = parameters_update;
    reference = λ p. e.to_string p.name;
    remove = e.remove_parameters;
  }

  unfoldable pub publish_attributes : DataService Wire P → DataService Wire P
  publish_attributes s =
      publish_groups e attributes (group_by_device (e.get_attributes s.persistence) []) s

  unfoldable pub publish_device_attributes : Text → DataService Wire P → DataService Wire P
  publish_device_attributes device_key s =
      publish_device e attributes device_key (of_device device_key (e.get_attributes s.persistence))
        s

  unfoldable pub publish_parameters : DataService Wire P → DataService Wire P
  publish_parameters s =
      publish_groups e parameters (group_by_device (e.get_parameters s.persistence) []) s

  unfoldable pub publish_device_parameters : Text → DataService Wire P → DataService Wire P
  publish_device_parameters device_key s =
      publish_device e parameters device_key (of_device device_key (e.get_parameters s.persistence))
        s
