-- ===== src/Application/Levels.antt =====
-- The level of the log, under the updates of its feed.
use wolk_connect_task.Prelude.{
  Text, ℕ, ◌≡◌, refl, sym, ◌∙◌, ◌&&◌, List, [], ◌∷◌, ◌++◌, codes, text_eq, ◌==◌, arith,
  if◌then◌else◌,
}
use wolk_connect_task.Sdk.{Reading}
use wolk_connect_task.Application.{
  Application, is_valid_log, string_value_of, handle_reading, handle_readings, handle_update,
}

-- All the readings of an update, in their order.
abbrev pub all_readings : List (ℕ × List Reading) → List Reading
all_readings [] = []
all_readings ((time, readings) ∷ pairs) = readings ++ all_readings pairs

-- The last of some texts, or another one.
abbrev pub last_or : Text → List Text → Text
last_or t [] = t
last_or t (u ∷ us) = last_or u us

module _ {L : Type 0} (from_string : Text → L) (first_value : List Text → Text) where
  -- The valid levels among the readings.
  unfoldable pub levels : List Reading → List Text
  levels [] = []
  levels (reading ∷ readings) =
      let rest = levels readings in
      if reading.reference == codes "LOG_LEVEL"
        && is_valid_log (string_value_of first_value reading)
      then string_value_of first_value reading ∷ rest
      else rest

  -- The level that the last of some texts names, or another one.
  abbrev pub last_level : L → List Text → L
  last_level l [] = l
  last_level l (u ∷ us) = last_level (from_string u) us

  module _ {T W : Type 0} where
    -- The program with the last of some levels.
    abbrev pub with_levels : List Text → Application T L W → Application T L W
    with_levels ls a = record a {
      log_info = last_or a.log_info ls;
      log_level = last_level a.log_level ls;
    }

    handle_readings-levels :
        (readings : List Reading) (a : Application T L W)
        → handle_readings from_string first_value readings a ≡ with_levels (levels readings) a
    unfolding handle_readings handle_reading levels
    handle_readings-levels [] a = refl
    handle_readings-levels (reading ∷ readings) a =
        handle_readings-levels readings (handle_reading from_string first_value reading a)
        ∙ ground arith

    handle_readings-append :
        (xs ys : List Reading) (a : Application T L W)
        → handle_readings from_string first_value (xs ++ ys) a
          ≡ handle_readings from_string first_value ys
              (handle_readings from_string first_value xs a)
    unfolding handle_readings
    handle_readings-append [] ys a = refl
    handle_readings-append (x ∷ xs) ys a =
        handle_readings-append xs ys (handle_reading from_string first_value x a)

    handle_update-all :
        (pairs : List (ℕ × List Reading)) (a : Application T L W)
        → handle_update from_string first_value pairs a
          ≡ handle_readings from_string first_value (all_readings pairs) a
    unfolding handle_update handle_readings
    handle_update-all [] a = refl
    handle_update-all ((time, readings) ∷ pairs) a =
        handle_update-all pairs (handle_readings from_string first_value readings a)
        ∙ sym (handle_readings-append readings (all_readings pairs) a)

    -- An update of the feeds leaves the program with the last of the valid levels that the readings of
    -- the feed LOG_LEVEL hold, in the order of their times: it keeps the text, and the logger gets the
    -- level that the SDK reads in it. With none, both stay. All else is unchanged.
    pub handle_update-levels :
        (pairs : List (ℕ × List Reading)) (a : Application T L W)
        → handle_update from_string first_value pairs a
          ≡ with_levels (levels (all_readings pairs)) a
    handle_update-levels pairs a =
        handle_update-all pairs a ∙ handle_readings-levels (all_readings pairs) a
