-- ===== src/Data/Publish/Readings.antt =====
-- The readings of one key go out in batches, in order, and none is lost.
use wolk_connect_task.Prelude.{
  Text, ℕ, zero, suc, ◌≤◌, ◌<◌, ◌≡◌, refl, ap, ◌∙◌, ◌⊎◌, inl, inr, Bool, true, false, some, List,
  [], ◌∷◌, ◌++◌, append_assoc, append-nil, is_empty, length, take, drop, take-append-drop,
  length-drop, length-take_le, arith, Bool-cases, if◌then◌else◌,
}
use mathlib.Core.List.{map}
use wolk_connect_task.Sdk.{Reading, Persistence}
use wolk_connect_task.Data.{Surroundings, DataService, feed_values, parse_persistence_key, publish}
use wolk_connect_task.Data.Publish.{batch_size, publish_readings_for_persistence_key}

-- What the service relies on of the persistence: a key holds a list of readings, the oldest are
-- read first, and those are removed.
pub record KeepsReadings {P : Type 0} (store : Persistence P) : Type 0 where
  pub readings : P → Text → List Reading
  pub get : (p : P) (k : Text) (n : ℕ) → store.get_readings p k n ≡ take n (readings p k)
  pub remove :
      (p : P) (k : Text) (n : ℕ) → readings (store.remove_readings k n p) k ≡ drop n (readings p k)

abbrev pub concat : List (List Reading) → List Reading
concat [] = []
concat (b ∷ bs) = b ++ concat bs

-- Batches are not empty and hold at most 50 readings.
abbrev pub AreBatches : List (List Reading) → Type 0
AreBatches [] = Unit {0}
AreBatches (b ∷ bs) = (0 < length b) × (length b ≤ batch_size) × AreBatches bs

nonempty_pos : (rs : List Reading) → is_empty rs ≡ false → 0 < length rs
nonempty_pos [] h = cc
nonempty_pos (r ∷ rs) h = omega arith

is_empty→nil : (rs : List Reading) → is_empty rs ≡ true → rs ≡ []
is_empty→nil [] h = refl
is_empty→nil (r ∷ rs) h = cc

module _ {Wire P : Type 0} (e : Surroundings Wire P) (law : KeepsReadings e.store) where
  -- The last attempt was refused.
  pub record WasRefused (t : DataService Wire P) : Type 0 where
    pub before : List Wire
    pub wire : Wire
    pub refused : e.accepts before wire ≡ false
    pub last : t.attempts ≡ before ++ wire ∷ []

  pub record Drained (key : Text) (wire : List Reading → Wire) (s t : DataService Wire P)
      : Type 0 where
    pub batches : List (List Reading)
    pub sized : AreBatches batches
    pub sent : t.sent ≡ s.sent ++ map wire batches
    pub kept : concat batches ++ law.readings t.persistence key ≡ law.readings s.persistence key
    pub ends : (law.readings t.persistence key ≡ []) ⊎ WasRefused t

  abbrev removed : Text → DataService Wire P → DataService Wire P
  removed key t = record t { persistence = e.remove_readings key batch_size t.persistence }

  abbrev batch : Text → DataService Wire P → List Reading
  batch key s = take batch_size (law.readings s.persistence key)

  step-empty :
      (fuel : ℕ) (key : Text) (s : DataService Wire P)
      → law.readings s.persistence key ≡ []
      → publish_readings_for_persistence_key e (suc fuel) key s ≡ some s
  unfolding publish_readings_for_persistence_key
  step-empty fuel key s h = ground (arith, law.get s.persistence key batch_size)

  batch_nonempty :
      (rs : List Reading)
      → is_empty rs ≡ false
      → (is_empty (take batch_size rs) ≡ false) × (0 < length (take batch_size rs))
  batch_nonempty [] h = cc
  batch_nonempty (r ∷ rs) h = (refl, omega arith)

  -- A round with something to send, on both answers of the connection.
  step-publish :
      (fuel : ℕ) (key : Text) (w : Wire) (s : DataService Wire P)
      → is_empty (parse_persistence_key key).0 ≡ false
      → is_empty (law.readings s.persistence key) ≡ false
      → e.make_outbound_message (parse_persistence_key key).0 (feed_values (batch key s)) ≡ some w
      → publish_readings_for_persistence_key e (suc fuel) key s ≡ (elim (publish e w s).0 [
        | true ↦ publish_readings_for_persistence_key e fuel key (removed key (publish e w s).1)
        | false ↦ some (publish e w s).1
      ])
  unfolding publish_readings_for_persistence_key
  step-publish fuel key w s dev more ser = ground (
    arith,
    law.get s.persistence key batch_size,
    batch_nonempty (law.readings s.persistence key) more,
  )

  -- The service after a batch that was taken.
  abbrev advanced : Text → (List Reading → Wire) → DataService Wire P → DataService Wire P
  advanced key wire s = removed key (publish e (wire (batch key s)) s).1

  readings-advanced :
      (key : Text) (wire : List Reading → Wire) (s : DataService Wire P)
      → law.readings (advanced key wire s).persistence key
        ≡ drop batch_size (law.readings s.persistence key)
  unfolding publish
  readings-advanced key wire s = law.remove s.persistence key batch_size

  Drained-advanced :
      (key : Text) (wire : List Reading → Wire) (s t : DataService Wire P)
      → is_empty (law.readings s.persistence key) ≡ false
      → e.accepts s.attempts (wire (batch key s)) ≡ true
      → Drained key wire (advanced key wire s) t
      → Drained key wire s t
  unfolding publish
  Drained-advanced key wire s t more taken d = record {
    batches = batch key s ∷ d.batches;
    sized = (
      (batch_nonempty (law.readings s.persistence key) more).1,
      length-take_le batch_size (law.readings s.persistence key),
      d.sized,
    );
    sent =
        d.sent
        ∙ ap
            (λ (ok : Bool).
              (if ok then s.sent ++ wire (batch key s) ∷ [] else s.sent) ++ map wire d.batches)
            taken
        ∙ append_assoc s.sent (wire (batch key s) ∷ []) (map wire d.batches);
    kept =
        append_assoc (batch key s) (concat d.batches) (law.readings t.persistence key)
        ∙ ap (◌++◌ (batch key s)) (d.kept ∙ readings-advanced key wire s)
        ∙ take-append-drop batch_size (law.readings s.persistence key);
    ends = d.ends;
  }

  Drained-refused :
      (key : Text) (wire : List Reading → Wire) (s : DataService Wire P)
      → e.accepts s.attempts (wire (batch key s)) ≡ false
      → Drained key wire s (publish e (wire (batch key s)) s).1
  unfolding publish
  Drained-refused key wire s refused = record {
    batches = [];
    sized = tt;
    sent = rw (refused, append-nil);
    kept = refl;
    ends =
        inr (record {
          before = s.attempts;
          wire = wire (batch key s);
          refused = refused;
          last = refl;
        });
  }

  -- With more fuel than readings, the publication of a key of a device ends. The messages that were
  -- taken are batches of at most 50 readings, in order; together with what is left they are the
  -- readings that were there; and nothing is left unless the last message was refused. This is so
  -- for every behaviour of the connection, if the protocol serializes readings.
  pub publish_readings-Drained :
      (fuel : ℕ) (key : Text) (wire : List Reading → Wire) (s : DataService Wire P)
      → is_empty (parse_persistence_key key).0 ≡ false
      → ((rs : List Reading)
          → e.make_outbound_message (parse_persistence_key key).0 (feed_values rs) ≡ some (wire rs))
      → length (law.readings s.persistence key) < fuel
      → (t : DataService Wire P) × (publish_readings_for_persistence_key e fuel key s ≡ some t)
        × Drained key wire s t
  unfolding publish
  publish_readings-Drained zero key wire s dev ser lt = absurd (omega arith)
  publish_readings-Drained (suc fuel) key wire s dev ser lt =
      elim (Bool-cases (is_empty (law.readings s.persistence key))) [
        | inl nothing ↦
            let none_left = is_empty→nil (law.readings s.persistence key) nothing in
            (
              s,
              step-empty fuel key s none_left,
              record {
                batches = [];
                sized = tt;
                sent = rw append-nil;
                kept = refl;
                ends = inl none_left;
              },
            )
        | inr more ↦ elim (Bool-cases (e.accepts s.attempts (wire (batch key s)))) [
          | inl taken ↦
              let (t, run, d) =
                publish_readings-Drained fuel key wire (advanced key wire s) dev ser (
                  omega (
                    arith,
                    ap length (readings-advanced key wire s),
                    length-drop batch_size (law.readings s.persistence key),
                    nonempty_pos (law.readings s.persistence key) more,
                  )) in
              (
                t,
                step-publish fuel key (wire (batch key s)) s dev more (ser (batch key s))
                    ∙ (ground arith ∙ run),
                Drained-advanced key wire s t more taken d,
              )
          | inr refused ↦ (
            (publish e (wire (batch key s)) s).1,
            step-publish fuel key (wire (batch key s)) s dev more (ser (batch key s))
                ∙ ground arith,
            Drained-refused key wire s refused,
          )
        ]
      ]
