-- ===== src/Tests/Errors.antt =====
-- Errors of two devices.
use wolk_connect_task.Prelude.{
  Text, ℕ, ◌≡◌, refl, true, none, some, [], ◌∷◌, ◌++◌, codes, arith, text_dec, text_eq, ◌==◌,
  if◌then◌else◌, ◌≢◌, ◌↔◌,
}
use wolk_connect_task.Prelude.Dict.{lookup, insert}
use wolk_connect_task.Errors.{
  timer_runtime, ErrorMessage, ErrorService, messages_of, drop_last,
  obtain_first_message_for_device, obtain_last_message_for_device, message_received,
  obtain_or_await_message_for_device,
}
use wolk_connect_task.Errors.Order.{After, IsOrdered}
use wolk_connect_task.Errors.Cache.{obtain_first_and_last}
use wolk_connect_task.Errors.Await.{
  receive_all, obtain_or_await-first, IsDrained, timer_runtime-defined,
}

abbrev error_of : Text → ℕ → ErrorMessage
error_of device time = record { device_key = device; message = codes "x"; arrival_time = time }

abbrev d1 : Text
d1 = codes "D1"

abbrev d2 : Text
d2 = codes "D2"

abbrev busy : ErrorService
busy = record {
  retain_time = 10;
  working = true;
  cached = (d1, (3, error_of d1 3) ∷ (5, error_of d1 5) ∷ []) ∷ [];
}

abbrev free : ErrorService
free = record { retain_time = 10; working = true; cached = [] }

busy-IsOrdered : IsOrdered busy
unfolding messages_of lookup
busy-IsOrdered k = ground arith

-- A pass of the timer over a cache with messages.
timer_runtime-defined_example :
    (timer_runtime 9 busy ≢ none ↔ IsDrained busy.cached)
    × ((timer_runtime 9 busy ≡ some busy) ↔ IsDrained busy.cached)
timer_runtime-defined_example = timer_runtime-defined 9 busy

abbrev left : ErrorService
left = record busy { cached = (d1, (5, error_of d1 5) ∷ []) ∷ [] }

abbrev right : ErrorService
right = record busy { cached = (d1, (3, error_of d1 3) ∷ []) ∷ [] }

obtain_first_and_last_example :
    ((time : ℕ) × (messages_of d1 busy ≡ (time, error_of d1 3) ∷ messages_of d1 left)
      × After time (messages_of d1 left)
      × (messages_of d2 left ≡ (if d1 == d2 then messages_of d1 left else messages_of d2 busy)))
    × ((time : ℕ) × (messages_of d1 busy ≡ messages_of d1 right ++ (time, error_of d1 5) ∷ [])
        × (messages_of d2 right ≡ (if d1 == d2 then messages_of d1 right else messages_of d2 busy)))
unfolding obtain_first_message_for_device obtain_last_message_for_device drop_last lookup insert
    text_dec
obtain_first_and_last_example =
    obtain_first_and_last busy left right d1 d2 (error_of d1 3) (error_of d1 5) busy-IsOrdered refl
      refl

obtain_or_await-first_example :
    (let t =
        message_received (some (error_of d1 7)) (receive_all (some (error_of d2 6) ∷ []) free) in
      obtain_or_await_message_for_device d1
        (some (error_of d2 6) ∷ some (error_of d1 7) ∷ none ∷ [])
        free
      ≡ (some (error_of d1 7), record t { cached = insert d1 [] t.cached }, none ∷ []))
    × (obtain_or_await_message_for_device d1 (some (error_of d2 6) ∷ []) free
        ≡ (none, receive_all (some (error_of d2 6) ∷ []) free, []))
unfolding messages_of lookup
obtain_or_await-first_example =
    obtain_or_await-first d1 (some (error_of d2 6) ∷ []) (none ∷ []) (error_of d1 7) free refl refl
      ((λ e. ground arith), tt) refl
