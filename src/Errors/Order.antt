-- ===== src/Errors/Order.antt =====
-- The messages of a device, in the order of arrival.
use wolk_connect_task.Prelude.{
  Text, ℕ, ◌<◌, ◌≡◌, refl, none, some, [], ◌∷◌, ◌++◌, last?, text_eq, nat_eq, ◌==◌, if◌then◌else◌,
  arith,
}
use wolk_connect_task.Prelude.Dict.{insert, lookup-insert}
use wolk_connect_task.Errors.{
  ErrorMessage, DeviceErrorMessages, ErrorService, messages_of, emplace, drop_last,
}

-- The times rise, and lie above `n`.
abbrev pub After : ℕ → DeviceErrorMessages → Type 0
After n [] = Unit {0}
After n ((t, m) ∷ messages) = (n < t) × After t messages

abbrev pub Rising : DeviceErrorMessages → Type 0
Rising [] = Unit {0}
Rising ((t, m) ∷ messages) = After t messages

abbrev pub IsOrdered : ErrorService → Type 0
IsOrdered s = (k : Text) → Rising (messages_of k s)

emplace-After :
    (n t : ℕ) (m : ErrorMessage) (ms : DeviceErrorMessages)
    → n < t
    → After n ms
    → After n (emplace t m ms)
unfolding emplace
emplace-After n t m [] lt a = (lt, tt)
emplace-After n t m ((u, v) ∷ ms) lt a = ground (arith, emplace-After u t m ms)

pub emplace-Rising :
    (t : ℕ) (m : ErrorMessage) (ms : DeviceErrorMessages) → Rising ms → Rising (emplace t m ms)
unfolding emplace
emplace-Rising t m [] a = tt
emplace-Rising t m ((u, v) ∷ ms) a = ground (arith, emplace-After u t m ms)

pub messages_of-insert :
    (j k : Text) (ms : DeviceErrorMessages) (s : ErrorService)
    → messages_of j (record s { cached = insert k ms s.cached })
      ≡ (if k == j then ms else messages_of j s)
unfolding messages_of
messages_of-insert j k ms s = ground (arith, lookup-insert j k ms s.cached)

pub After-Rising : (n : ℕ) (ms : DeviceErrorMessages) → After n ms → Rising ms
After-Rising n [] a = tt
After-Rising n ((t, m) ∷ ms) a = a.1

drop_last-After : (n : ℕ) (ms : DeviceErrorMessages) → After n ms → After n (drop_last ms)
unfolding drop_last
drop_last-After n [] a = tt
drop_last-After n (x ∷ []) a = tt
drop_last-After n (x ∷ (y ∷ ms)) a = (a.0, drop_last-After x.0 (y ∷ ms) a.1)

pub drop_last-Rising : (ms : DeviceErrorMessages) → Rising ms → Rising (drop_last ms)
unfolding drop_last
drop_last-Rising [] a = tt
drop_last-Rising (x ∷ []) a = tt
drop_last-Rising (x ∷ (y ∷ ms)) a = drop_last-After x.0 (y ∷ ms) a

pub last?-none : (ms : DeviceErrorMessages) → last? ms ≡ none → ms ≡ []
last?-none [] e = refl
last?-none (x ∷ []) e = ground arith
last?-none (x ∷ (y ∷ ms)) e = ground (arith, last?-none (y ∷ ms))

pub last?-drop_last :
    (ms : DeviceErrorMessages) (t : ℕ) (m : ErrorMessage)
    → last? ms ≡ some (t, m)
    → ms ≡ drop_last ms ++ (t, m) ∷ []
unfolding drop_last
last?-drop_last [] t m e = ground arith
last?-drop_last (x ∷ []) t m e = ground arith
last?-drop_last (x ∷ (y ∷ ms)) t m e = ground (arith, last?-drop_last (y ∷ ms) t m)
