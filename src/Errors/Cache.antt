-- ===== src/Errors/Cache.antt =====
-- The cache of a device, in the order of arrival.
use wolk_connect_task.Prelude.{
  Text, ℕ, ◌≡◌, Bool, false, ◌||◌, Option, none, some, [], ◌∷◌, ◌++◌, last?, text_eq, nat_eq, ◌==◌,
  if◌then◌else◌, arith, Option-cases, List-cases, Bool-cases, inl, inr, ◌⊎◌,
}
use wolk_connect_task.Prelude.Dict.{lookup, insert}
use wolk_connect_task.Errors.{
  ErrorMessage, DeviceErrorMessages, ErrorService, messages_of, emplace, drop_last,
  obtain_first_message_for_device, obtain_last_message_for_device, message_received,
}
use wolk_connect_task.Errors.Order.{
  emplace-Rising, messages_of-insert, After-Rising, drop_last-Rising, last?-none, last?-drop_last,
  After, Rising, IsOrdered,
}

insert-IsOrdered :
    (k : Text) (ms : DeviceErrorMessages) (s : ErrorService)
    → IsOrdered s
    → Rising ms
    → IsOrdered (record s { cached = insert k ms s.cached })
insert-IsOrdered k ms s o r j = elim (Bool-cases (k == j)) [
  | inl e ↦ ground (arith, messages_of-insert j k ms s)
  | inr e ↦ ground (arith, messages_of-insert j k ms s, o j)
]

message_received-IsOrdered :
    (s : ErrorService) (m : Option ErrorMessage) → IsOrdered s → IsOrdered (message_received m s)
unfolding message_received
message_received-IsOrdered s none o = o
message_received-IsOrdered s (some m) o =
    insert-IsOrdered m.device_key (emplace m.arrival_time m (messages_of m.device_key s)) s o
      (emplace-Rising m.arrival_time m (messages_of m.device_key s) (o m.device_key))

pub obtain_first-cases :
    (k : Text) (s : ErrorService)
    → (messages_of k s ≡ []) × (obtain_first_message_for_device k s ≡ (none, s))
      ⊎ ((time : ℕ) × (m : ErrorMessage) × (rest : DeviceErrorMessages) × (messages_of k s
            ≡ (time, m) ∷ rest)
          × obtain_first_message_for_device k s
            ≡ (some m, record s { cached = insert k rest s.cached }))
unfolding obtain_first_message_for_device messages_of
obtain_first-cases k s = elim (Option-cases (lookup k s.cached)) [
  | inl e ↦ inl (ground arith, ground arith)
  | inr (messages, e) ↦ elim (List-cases messages) [
    | inl f ↦ inl (ground arith, ground arith)
    | inr ((time, m), rest, f) ↦ inr (time, m, rest, ground arith, ground arith)
  ]
]

obtain_last-cases :
    (k : Text) (s : ErrorService)
    → (messages_of k s ≡ []) × (obtain_last_message_for_device k s ≡ (none, s))
      ⊎ ((time : ℕ) × (m : ErrorMessage) × (messages_of k s
            ≡ drop_last (messages_of k s) ++ (time, m) ∷ [])
          × obtain_last_message_for_device k s
            ≡ (some m, record s { cached = insert k (drop_last (messages_of k s)) s.cached }))
unfolding obtain_last_message_for_device messages_of
obtain_last-cases k s = elim (Option-cases (lookup k s.cached)) [
  | inl e ↦ inl (ground arith, ground arith)
  | inr (messages, e) ↦ elim (Option-cases (last? messages)) [
    | inl f ↦ inl (ground (arith, last?-none messages), ground arith)
    | inr ((time, m), f) ↦
        inr (time, m, ground (arith, last?-drop_last messages time m), ground arith)
  ]
]

obtain_first-IsOrdered :
    (s : ErrorService) (k : Text) → IsOrdered s → IsOrdered (obtain_first_message_for_device k s).1
obtain_first-IsOrdered s k o j = elim (obtain_first-cases k s) [
  | inl (e, f) ↦ ground (arith, o j)
  | inr (time, m, rest, e, f) ↦
      ground (arith, insert-IsOrdered k rest s o (ground (arith, After-Rising time rest, o k)) j)
]

obtain_last-IsOrdered :
    (s : ErrorService) (k : Text) → IsOrdered s → IsOrdered (obtain_last_message_for_device k s).1
obtain_last-IsOrdered s k o j = elim (obtain_last-cases k s) [
  | inl (e, f) ↦ ground (arith, o j)
  | inr (time, m, e, f) ↦ ground (
    arith,
    insert-IsOrdered k (drop_last (messages_of k s)) s o (drop_last-Rising (messages_of k s) (o k))
        j,
  )
]

-- The three operations that change the cache keep every device's messages in the order of their
-- times, each time at most once.
cache-IsOrdered :
    (s : ErrorService) (k : Text) (m : Option ErrorMessage)
    → IsOrdered s
    → IsOrdered (message_received m s)
      × IsOrdered (obtain_first_message_for_device k s).1
      × IsOrdered (obtain_last_message_for_device k s).1
cache-IsOrdered s k m o =
    (message_received-IsOrdered s m o, obtain_first-IsOrdered s k o, obtain_last-IsOrdered s k o)

-- In an ordered cache the message that is obtained first is the oldest of its device; the device
-- keeps the others, and the other devices keep all.
obtain_first-oldest :
    (s t : ErrorService) (k j : Text) (m : ErrorMessage)
    → IsOrdered s
    → obtain_first_message_for_device k s ≡ (some m, t)
    → (time : ℕ) × (messages_of k s ≡ (time, m) ∷ messages_of k t)
      × After time (messages_of k t)
      × (messages_of j t ≡ (if k == j then messages_of k t else messages_of j s))
obtain_first-oldest s t k j m o e = elim (obtain_first-cases k s) [
  | inl (_, f) ↦ ground arith
  | inr (time, n, rest, g, f) ↦ (
    time,
    ground (arith, messages_of-insert k k rest s),
    ground (arith, messages_of-insert k k rest s, o k),
    ground (arith, messages_of-insert j k rest s, messages_of-insert k k rest s),
  )
]

-- The message that is obtained last is the last of its device's messages; the device keeps the
-- others in their order, and the other devices keep all.
obtain_last-newest :
    (s t : ErrorService) (k j : Text) (m : ErrorMessage)
    → obtain_last_message_for_device k s ≡ (some m, t)
    → (time : ℕ) × (messages_of k s ≡ messages_of k t ++ (time, m) ∷ [])
      × (messages_of j t ≡ (if k == j then messages_of k t else messages_of j s))
obtain_last-newest s t k j m e = elim (obtain_last-cases k s) [
  | inl (_, f) ↦ ground arith
  | inr (time, n, g, f) ↦
      let kept = drop_last (messages_of k s) in
      (
        time,
        ground (arith, messages_of-insert k k kept s),
        ground (arith, messages_of-insert j k kept s, messages_of-insert k k kept s),
      )
]

-- What is taken from an ordered cache: the message that is obtained first is the oldest of its
-- device, and the one that is obtained last is the last of them; each time the device keeps the others in
-- their order, and the other devices keep all.
pub obtain_first_and_last :
    (s t u : ErrorService) (k j : Text) (m n : ErrorMessage)
    → IsOrdered s
    → obtain_first_message_for_device k s ≡ (some m, t)
    → obtain_last_message_for_device k s ≡ (some n, u)
    → ((time : ℕ) × (messages_of k s ≡ (time, m) ∷ messages_of k t)
        × After time (messages_of k t)
        × (messages_of j t ≡ (if k == j then messages_of k t else messages_of j s)))
      × ((time : ℕ) × (messages_of k s ≡ messages_of k u ++ (time, n) ∷ [])
          × (messages_of j u ≡ (if k == j then messages_of k u else messages_of j s)))
obtain_first_and_last s t u k j m n o first last =
    (obtain_first-oldest s t k j m o first, obtain_last-newest s u k j n last)

-- A message of that time is there.
abbrev pub holds : ℕ → DeviceErrorMessages → Bool
holds time [] = false
holds time ((t, m) ∷ ms) = t == time || holds time ms
