-- ===== src/Data/Publish/Groups.antt =====
-- The attributes and parameters of all devices, grouped: what each device gets, and which messages
-- are attempted.
use wolk_connect_task.Prelude.{
  Text, ◌≡◌, refl, sym, ap, ◌∙◌, inl, inr, true, Option, none, some, List, [], ◌∷◌, ◌++◌,
  append_assoc, append-nil, is_empty, arith, text_eq, ◌==◌, if◌then◌else◌, Option-cases,
}
use wolk_connect_task.Prelude.Dict.{lookup}
use wolk_connect_task.Prelude.Order.{text_ltb, text_ltb_irrefl, text_ltb_trans, text_ltb_total}
use wolk_connect_task.Data.{Surroundings, DataService, parse_persistence_key, publish}
use wolk_connect_task.Data.Publish.{
  add_to_group, group_by_device, of_device, Kind, delete_all, publish_groups, attributes,
  parameters, publish_attributes, publish_parameters,
}

module _ {ℓ} {A : Type ℓ} where
  -- The keys rise, and lie above `k`.
  abbrev pub Above : Text → List (Text × List A) → Type 0
  Above k [] = Unit {0}
  Above k ((j, items) ∷ groups) = (text_ltb k j ≡ true) × Above j groups

  abbrev pub Sorted : List (Text × List A) → Type 0
  Sorted [] = Unit {0}
  Sorted ((k, items) ∷ groups) = Above k groups

  Above-Sorted : (k : Text) (groups : List (Text × List A)) → Above k groups → Sorted groups
  Above-Sorted k [] h = tt
  Above-Sorted k ((j, items) ∷ groups) h = h.1

  lookup_below :
      (k i : Text) (groups : List (Text × List A))
      → text_ltb k i ≡ true
      → Above i groups
      → lookup k groups ≡ none
  unfolding lookup
  lookup_below k i [] p a = refl
  lookup_below k i ((j, items) ∷ groups) p (q, a) = ground (
    arith,
    text_ltb_trans k i j p q,
    text_ltb_irrefl k,
    lookup_below k j groups (text_ltb_trans k i j p q) a,
  )

  add_to_group-Above :
      (i k : Text) (a : A) (groups : List (Text × List A))
      → text_ltb i k ≡ true
      → Above i groups
      → Above i (add_to_group k a groups)
  unfolding add_to_group
  add_to_group-Above i k a [] p h = (p, tt)
  add_to_group-Above i k a ((j, items) ∷ groups) p (q, h) =
      ground (arith, text_ltb_total j k, add_to_group-Above j k a groups)

  add_to_group-Sorted :
      (k : Text) (a : A) (groups : List (Text × List A))
      → Sorted groups
      → Sorted (add_to_group k a groups)
  unfolding add_to_group
  add_to_group-Sorted k a [] h = tt
  add_to_group-Sorted k a ((j, items) ∷ groups) h =
      ground (arith, text_ltb_total j k, add_to_group-Above j k a groups)

  abbrev items_of : Option (List A) → List A
  items_of none = []
  items_of (some items) = items

  lookup-add_to_group :
      (i k : Text) (a : A) (groups : List (Text × List A))
      → Sorted groups
      → lookup i (add_to_group k a groups)
        ≡ (if k == i then some (items_of (lookup i groups) ++ a ∷ []) else lookup i groups)
  unfolding lookup add_to_group
  lookup-add_to_group i k a [] h = ground arith
  lookup-add_to_group i k a ((j, items) ∷ groups) h =
      ground
        (arith, lookup-add_to_group i k a groups (Above-Sorted j groups h), lookup_below k j groups)

  abbrev merge : Option (List A) → List A → Option (List A)
  merge o [] = o
  merge o (a ∷ items) = some (items_of o ++ a ∷ items)

  merge-cons :
      (o : Option (List A)) (a : A) (items : List A)
      → merge (some (items_of o ++ a ∷ [])) items ≡ merge o (a ∷ items)
  merge-cons o a [] = refl
  merge-cons o a (b ∷ items) = ap some (append_assoc (items_of o) (a ∷ []) (b ∷ items))

  lookup-group_by_device_onto :
      (k : Text) (entries : List (Text × A)) (groups : List (Text × List A))
      → Sorted groups
      → lookup k (group_by_device entries groups) ≡ merge (lookup k groups) (of_device k entries)
  unfolding group_by_device of_device
  lookup-group_by_device_onto k [] groups h = refl
  lookup-group_by_device_onto k ((key, a) ∷ entries) groups h =
      let j = (parse_persistence_key key).0 in
      lookup-group_by_device_onto k entries (add_to_group j a groups)
        (add_to_group-Sorted j a groups h)
      ∙ ground (
        arith,
        lookup-add_to_group k j a groups h,
        merge-cons (lookup k groups) a (of_device k entries),
      )

  -- The group of a device has all of its items, in their order; a device without items has none.
  lookup-group_by_device :
      (k : Text) (entries : List (Text × A))
      → lookup k (group_by_device entries [])
        ≡ (if is_empty (of_device k entries) then none else some (of_device k entries))
  unfolding lookup
  lookup-group_by_device k entries =
      lookup-group_by_device_onto k entries [] tt ∙ merge-nil (of_device k entries)
    where
      merge-nil :
          (items : List A) → merge none items ≡ (if is_empty items then none else some items)
      merge-nil [] = refl
      merge-nil (a ∷ items) = refl

  group_by_device-Sorted :
      (entries : List (Text × A)) (groups : List (Text × List A))
      → Sorted groups
      → Sorted (group_by_device entries groups)
  unfolding group_by_device
  group_by_device-Sorted [] groups h = h
  group_by_device-Sorted ((key, a) ∷ entries) groups h =
      let j = (parse_persistence_key key).0 in
      group_by_device-Sorted entries (add_to_group j a groups) (add_to_group-Sorted j a groups h)

  -- The groups of what the persistence holds: their keys rise, so that each device has one group, and
  -- the group of a device has all of its items, in the order of the persistence. This leaves only one
  -- list of groups.
  pub record IsGrouped (entries : List (Text × A)) (groups : List (Text × List A)) : Type ℓ where
    pub sorted : Sorted groups
    pub group :
        (k : Text)
        → lookup k groups
          ≡ (if is_empty (of_device k entries) then none else some (of_device k entries))

  group_by_device-IsGrouped :
      (entries : List (Text × A)) → IsGrouped entries (group_by_device entries [])
  group_by_device-IsGrouped entries = record {
    sorted = group_by_device-Sorted entries [] tt;
    group = λ k. lookup-group_by_device k entries;
  }

module _ {Wire P A : Type 0} (e : Surroundings Wire P) (kind : Kind Wire P A) where
  -- The messages of the devices, up to the first that cannot be serialized.
  unfoldable pub serialized : List (Text × List A) → List Wire
  serialized [] = []
  serialized ((device_key, items) ∷ groups) =
      elim (e.make_outbound_message device_key (kind.message items)) [
        | none ↦ []
        | some wire ↦ wire ∷ serialized groups
      ]

  delete_all-attempts :
      (k : Text) (items : List A) (s : DataService Wire P)
      → ((delete_all e kind k items s).attempts ≡ s.attempts)
        × ((delete_all e kind k items s).sent ≡ s.sent)
  unfolding delete_all
  delete_all-attempts k [] s = (refl, refl)
  delete_all-attempts k (a ∷ items) s = delete_all-attempts k items _

  -- One message is tried for each group, whether or not the connection takes them.
  publish_groups-attempts :
      (groups : List (Text × List A)) (s : DataService Wire P)
      → (publish_groups e kind groups s).attempts ≡ s.attempts ++ serialized groups
  unfolding publish_groups serialized publish
  publish_groups-attempts [] s = rw append-nil
  publish_groups-attempts ((k, items) ∷ groups) s =
      elim (Option-cases (e.make_outbound_message k (kind.message items))) [
        | inl bad ↦
            rw (bad, publish_groups, serialized)
              ((delete_all-attempts k items s).0 ∙ sym (append-nil s.attempts))
        | inr (w, good) ↦
            let t = (publish e w s).1 in
            ground (
              arith,
              publish_groups-attempts groups t,
              publish_groups-attempts groups (delete_all e kind k items t),
              delete_all-attempts k items t,
              append_assoc s.attempts (w ∷ []) (serialized groups),
            )
      ]

module _ {Wire P A : Type 0} (e : Surroundings Wire P) (kind : Kind Wire P A) where
  -- The messages that are tried for some entries of the persistence.
  abbrev pub Tries : List (Text × A) → DataService Wire P → DataService Wire P → Type 0
  Tries entries s t =
      (groups : List (Text × List A)) × IsGrouped entries groups
      × (t.attempts ≡ s.attempts ++ serialized e kind groups)

module _ {Wire P : Type 0} (e : Surroundings Wire P) (s : DataService Wire P) where
  -- `publishAttributes()` and `publishParameters()` group what the persistence holds by device. They
  -- try one message for each device that has items, with all of its items in the order of the
  -- persistence, and in the order of the devices' keys, whether or not the connection takes the
  -- messages before. The first message that cannot be serialized ends this: the devices after it
  -- are not served.
  pub publish_attributes-Tries :
      Tries e (attributes e) (e.get_attributes s.persistence) s (publish_attributes e s)
      × Tries e (parameters e) (e.get_parameters s.persistence) s (publish_parameters e s)
  unfolding publish_attributes publish_parameters
  publish_attributes-Tries = (
    (
      group_by_device (e.get_attributes s.persistence) [],
      group_by_device-IsGrouped (e.get_attributes s.persistence),
      publish_groups-attempts e (attributes e) (group_by_device (e.get_attributes s.persistence) [])
          s,
    ),
    (
      group_by_device (e.get_parameters s.persistence) [],
      group_by_device-IsGrouped (e.get_parameters s.persistence),
      publish_groups-attempts e (parameters e) (group_by_device (e.get_parameters s.persistence) [])
          s,
    ),
  )
