-- ===== src/Errors/Await.antt =====
-- Waiting for the next error of a device, and the timer.
use wolk_connect_task.Prelude.{
  Text, ℕ, ◌≡◌, ◌≢◌, refl, ◌∙◌, true, false, Option, none, some, List, [], ◌∷◌, ◌++◌, length,
  get_elem?, text_eq, nat_eq, arith, inl, inr, ◌↔◌,
}
use wolk_connect_task.Prelude.Dict.{Dict, insert}
use wolk_connect_task.Errors.{
  ErrorMessage, DeviceErrorMessages, ErrorService, messages_of, peek_messages_for_device, emplace,
  obtain_first_message_for_device, message_received, wait_for, await_message,
  obtain_or_await_message_for_device, expire, expire_all, timer_runtime,
}
use wolk_connect_task.Errors.Order.{messages_of-insert}
use wolk_connect_task.Errors.Cache.{obtain_first-cases}

-- The service after the arrivals.
abbrev pub receive_all : List (Option ErrorMessage) → ErrorService → ErrorService
receive_all [] s = s
receive_all (m ∷ arrivals) s = receive_all arrivals (message_received m s)

-- None of the arrivals is an error of the device.
abbrev pub NoneFor : Text → List (Option ErrorMessage) → Type 0
NoneFor k [] = Unit {0}
NoneFor k (none ∷ arrivals) = NoneFor k arrivals
NoneFor k (some m ∷ arrivals) = (m.device_key ≢ k) × NoneFor k arrivals

message_received-other :
    (k : Text) (m : ErrorMessage) (s : ErrorService)
    → m.device_key ≢ k
    → messages_of k (message_received (some m) s) ≡ messages_of k s
unfolding message_received
message_received-other k m s d = ground (
  arith,
  messages_of-insert k m.device_key (emplace m.arrival_time m (messages_of m.device_key s)) s,
)

message_received-own :
    (k : Text) (m : ErrorMessage) (s : ErrorService)
    → m.device_key ≡ k
    → messages_of k s ≡ []
    → messages_of k (message_received (some m) s) ≡ (m.arrival_time, m) ∷ []
unfolding message_received emplace
message_received-own k m s d e = ground (
  arith,
  messages_of-insert k m.device_key (emplace m.arrival_time m (messages_of m.device_key s)) s,
)

message_received-working :
    (m : Option ErrorMessage) (s : ErrorService) → (message_received m s).working ≡ s.working
unfolding message_received
message_received-working none s = refl
message_received-working (some m) s = refl

receive_all-other :
    (k : Text) (arrivals : List (Option ErrorMessage)) (s : ErrorService)
    → NoneFor k arrivals
    → messages_of k (receive_all arrivals s) ≡ messages_of k s
unfolding message_received
receive_all-other k [] s n = refl
receive_all-other k (none ∷ arrivals) s n = receive_all-other k arrivals s n
receive_all-other k (some m ∷ arrivals) s n =
    receive_all-other k arrivals (message_received (some m) s) n.1
    ∙ message_received-other k m s n.0

wait_for-none :
    (k : Text) (arrivals : List (Option ErrorMessage)) (s : ErrorService)
    → s.working ≡ true
    → messages_of k s ≡ []
    → NoneFor k arrivals
    → wait_for 0 k arrivals s ≡ (false, receive_all arrivals s, [])
unfolding wait_for peek_messages_for_device message_received
wait_for-none k [] s w e n = ground arith
wait_for-none k (none ∷ arrivals) s w e n = ground (arith, wait_for-none k arrivals s)
wait_for-none k (some m ∷ arrivals) s w e n = ground (
  arith,
  wait_for-none k arrivals (message_received (some m) s),
  message_received-working (some m) s,
  message_received-other k m s,
)

wait_for-changed :
    (k : Text) (m : ℕ × ErrorMessage) (after : List (Option ErrorMessage)) (s : ErrorService)
    → messages_of k s ≡ m ∷ []
    → wait_for 0 k after s ≡ (true, s, after)
unfolding wait_for peek_messages_for_device
wait_for-changed k m [] s e = ground arith
wait_for-changed k m (x ∷ after) s e = ground arith

wait_for-some :
    (k : Text) (before after : List (Option ErrorMessage)) (m : ErrorMessage) (s : ErrorService)
    → s.working ≡ true
    → messages_of k s ≡ []
    → NoneFor k before
    → m.device_key ≡ k
    → wait_for 0 k (before ++ some m ∷ after) s
      ≡ (true, message_received (some m) (receive_all before s), after)
unfolding wait_for peek_messages_for_device
wait_for-some k [] after m s w e n d = ground (
  arith,
  wait_for-changed k (m.arrival_time, m) after (message_received (some m) s),
  message_received-own k m s,
)
wait_for-some k (x ∷ before) after m s w e n d = ground (
  arith,
  wait_for-some k before after m (message_received x s),
  message_received-working x s,
  receive_all-other k (x ∷ []) s,
)

obtain_first-none :
    (k : Text) (s : ErrorService)
    → messages_of k s ≡ []
    → obtain_first_message_for_device k s ≡ (none, s)
obtain_first-none k s e = elim (obtain_first-cases k s) [
  | inl (_, f) ↦ f
  | inr (time, m, rest, g, f) ↦ ground arith
]

obtain_first-only :
    (k : Text) (s : ErrorService) (time : ℕ) (m : ErrorMessage)
    → messages_of k s ≡ (time, m) ∷ []
    → obtain_first_message_for_device k s ≡ (some m, record s { cached = insert k [] s.cached })
obtain_first-only k s time m e = elim (obtain_first-cases k s) [
  | inl (g, f) ↦ ground arith
  | inr (time, n, rest, g, f) ↦ ground arith
]

-- While the service works and has no error of the device, the next error is that of the first
-- arrival for the device, whatever arrives before and after it for others, and it leaves the cache;
-- when none arrives within the time, nothing is returned and every arrival is kept.
pub obtain_or_await-first :
    (k : Text) (before after : List (Option ErrorMessage)) (m : ErrorMessage) (s : ErrorService)
    → s.working ≡ true
    → messages_of k s ≡ []
    → NoneFor k before
    → m.device_key ≡ k
    → (let t = message_received (some m) (receive_all before s) in
        obtain_or_await_message_for_device k (before ++ some m ∷ after) s
        ≡ (some m, record t { cached = insert k [] t.cached }, after))
      × (obtain_or_await_message_for_device k before s ≡ (none, receive_all before s, []))
unfolding obtain_or_await_message_for_device await_message peek_messages_for_device
obtain_or_await-first k before after m s w e n d = (
  ground (
    arith,
    obtain_first-none k s,
    wait_for-some k before after m s,
    receive_all-other k before s,
    message_received-own k m (receive_all before s),
    obtain_first-only k (message_received (some m) (receive_all before s)) m.arrival_time m,
  ),
  ground (arith, obtain_first-none k s, wait_for-none k before s),
)

-- Every device's messages are gone.
abbrev pub IsDrained : Dict Text DeviceErrorMessages → Type 0
IsDrained [] = Unit {0}
IsDrained ((k, messages) ∷ cached) = (messages ≡ []) × IsDrained cached

get_elem?-length : (ms : DeviceErrorMessages) → get_elem? ms (length ms) ≡ none
get_elem?-length [] = refl
get_elem?-length (m ∷ ms) = get_elem?-length ms

expire-nonempty :
    (now retain : ℕ) (m : ℕ × ErrorMessage) (ms : DeviceErrorMessages)
    → expire now retain (length (m ∷ ms)) (m ∷ ms) ≡ none
unfolding expire
expire-nonempty now retain m ms = ground (arith, get_elem?-length ms)

expire_all_iff :
    (now retain : ℕ) (cached : Dict Text DeviceErrorMessages)
    → (IsDrained cached → expire_all now retain cached ≡ some cached)
      × (expire_all now retain cached ≢ none → IsDrained cached)
unfolding expire_all expire
expire_all_iff now retain [] = (λ _. refl, λ _. tt)
expire_all_iff now retain ((k, []) ∷ cached) = ground (arith, expire_all_iff now retain cached)
expire_all_iff now retain ((k, m ∷ ms) ∷ cached) = ground (arith, expire-nonempty now retain m ms)

-- A pass of the timer reads no element past the end of a map only when no device has a message in
-- the cache, and it then changes nothing.
pub timer_runtime-defined :
    (now : ℕ) (s : ErrorService)
    → (timer_runtime now s ≢ none ↔ IsDrained s.cached)
      × ((timer_runtime now s ≡ some s) ↔ IsDrained s.cached)
unfolding timer_runtime
timer_runtime-defined now s = ground (arith, expire_all_iff now s.retain_time s.cached)
