-- ===== src/Registration/Responses.antt =====
-- What becomes of the requests: which callback a response reaches.
use mathlib.Core.List.{map, Permᴰ}
use wolk_connect_task.Prelude.{
  Text, ℕ, ◌≡◌, refl, sym, ap, inl, inr, true, false, Option, none, some, List, [], ◌∷◌, ◌++◌,
  append_assoc, append-nil, is_empty, text_eq, nat_eq, arith, Option-cases, Bool-cases,
}
use wolk_connect_task.Prelude.Dict.{lookup, lookup-insert, lookup-erase}
use wolk_connect_task.Prelude.Order.{
  text_ltb, text_ltb_irrefl, text_ltb_nil, sort, is_heap, sort_heap, sort-Permᴰ, heap_from,
}
use wolk_connect_task.Registration.{
  texts_eq, Outbound, device_registration, Surroundings, Command, children_received,
  devices_registered, RegistrationService, children_callbacks,
  handle_children_synchronization_response, handle_device_registration_response,
}
use wolk_connect_task.Registration.Requests.{
  send, has_empty_key, register_devices, obtain_children_async,
}

module _ {Wire Data Info : Type 0} (e : Surroundings Wire Data Info) where
  -- The keys of the devices can be sorted as the code sorts them, and none is empty.
  abbrev pub IsProper : List Data → Type 0
  IsProper devices =
      (is_empty devices ≡ false)
      × (has_empty_key e devices ≡ false)
      × (is_heap (map e.key_of devices) ≡ true)

  -- A registration that was sent, for devices whose keys are a heap and for which no other waits:
  -- a response that names just these devices, succeeded and failed together in any order, queues
  -- the callback with the two lists, and the registration waits no longer.
  pub register_devices-response :
      (k : Text) (devices : List Data) (callback : Option ℕ) (success failed : List Text)
      (s t : RegistrationService Wire Info)
      → IsProper devices
      → lookup (sort (map e.key_of devices)) s.device_registration_callbacks ≡ none
      → register_devices e k devices callback s ≡ some (true, t)
      → Permᴰ (success ++ failed) (map e.key_of devices)
      → (let u = handle_device_registration_response success failed t in
          (u.command_buffer ≡ s.command_buffer ++ devices_registered callback success failed ∷ [])
          × (lookup (sort (map e.key_of devices)) u.device_registration_callbacks ≡ none))
  unfolding register_devices handle_device_registration_response send sort_heap
  register_devices-response k devices callback success failed s t proper free sent p =
      let names = sort (map e.key_of devices) in
      elim (Option-cases (e.make_outbound_message k (device_registration devices))) [
        | inl unmade ↦ ground arith
        | inr (wire, made) ↦ elim (Bool-cases (e.accepts s.attempts wire)) [
          | inl taken ↦ ground (
            arith,
            sort-Permᴰ p,
            lookup-insert names names callback s.device_registration_callbacks,
            lookup-erase names names t.device_registration_callbacks,
          )
          | inr refused ↦ ground arith
        ]
      ]

  -- Two devices whose keys rise, in the order in which they are given, are no heap: their
  -- registration is undefined behaviour.
  register_devices-rising :
      (k : Text) (a b : Data) (callback : Option ℕ) (s : RegistrationService Wire Info)
      → is_empty (e.key_of a) ≡ false
      → text_ltb (e.key_of a) (e.key_of b) ≡ true
      → register_devices e k (a ∷ b ∷ []) callback s ≡ none
  unfolding register_devices has_empty_key sort_heap is_heap heap_from
  register_devices-rising k a b callback s full rising =
      ground (arith, text_ltb_irrefl (e.key_of a), text_ltb_nil (e.key_of a))

abbrev pub callback_of : ℕ × List Text → ℕ
callback_of p = p.0

abbrev pub children_of : ℕ × List Text → List Text
children_of p = p.1

abbrev pub command_of : {Info : Type 0} → ℕ × List Text → Command Info
command_of p = children_received p.0 p.1

map-snoc :
    {A B : Type 0} (f : A → B) (xs : List A) (x : A) → map f (xs ++ x ∷ []) ≡ map f xs ++ f x ∷ []
map-snoc f [] x = refl
map-snoc f (y ∷ xs) x = ap (◌∷◌ (f y)) (map-snoc f xs x)

module _ {Wire Info : Type 0} where
  abbrev pub receive_children :
      Text → List (List Text) → RegistrationService Wire Info → RegistrationService Wire Info
  receive_children k [] s = s
  receive_children k (children ∷ responses) s =
      receive_children k responses (handle_children_synchronization_response k children s)

  handle_children-first :
      (k : Text) (children : List Text) (c : ℕ) (cs : List ℕ) (s : RegistrationService Wire Info)
      → children_callbacks k s ≡ c ∷ cs
      → (let t = handle_children_synchronization_response k children s in
          (children_callbacks k t ≡ cs)
          × (t.command_buffer ≡ s.command_buffer ++ children_received c children ∷ []))
  unfolding handle_children_synchronization_response
  handle_children-first k children c cs s found =
      ground (arith, lookup-insert k k cs s.children_synchronization_callbacks)

  -- Responses about the children of a device serve the requests in their order, one each.
  pub receive_children-fifo :
      (k : Text) (pairs : List (ℕ × List Text)) (more : List ℕ) (s : RegistrationService Wire Info)
      → children_callbacks k s ≡ map callback_of pairs ++ more
      → (let t = receive_children k (map children_of pairs) s in
          (t.command_buffer ≡ s.command_buffer ++ map command_of pairs)
          × (children_callbacks k t ≡ more))
  receive_children-fifo k [] more s waiting = (sym (append-nil s.command_buffer), waiting)
  receive_children-fifo k ((c, children) ∷ pairs) more s waiting =
      let t = handle_children_synchronization_response k children s in
      ground (
        arith,
        handle_children-first k children c (map callback_of pairs ++ more) s,
        receive_children-fifo k pairs more t,
        append_assoc s.command_buffer (children_received c children ∷ []) (map command_of pairs),
      )

module _ {Wire Data Info : Type 0} (e : Surroundings Wire Data Info) where
  -- A request for the children of a device that was sent is served by the response after those to
  -- the requests before it: every callback gets the response of its own turn, and none is left.
  pub obtain_children_async-served :
      (k : Text) (c : ℕ) (children : List Text) (pairs : List (ℕ × List Text))
      (s t : RegistrationService Wire Info)
      → children_callbacks k s ≡ map callback_of pairs
      → obtain_children_async e k (some c) s ≡ (true, t)
      → (let u = receive_children k (map children_of (pairs ++ (c, children) ∷ [])) t in
          (u.command_buffer ≡ s.command_buffer ++ map command_of (pairs ++ (c, children) ∷ []))
          × (children_callbacks k u ≡ []))
  unfolding obtain_children_async send
  obtain_children_async-served k c children pairs s t waiting sent =
      let all = pairs ++ (c, children) ∷ [] in
      elim (Option-cases (e.make_outbound_message k Outbound.children_synchronization_request)) [
        | inl unmade ↦ ground arith
        | inr (wire, made) ↦ elim (Bool-cases (e.accepts s.attempts wire)) [
          | inl taken ↦ ground (
            arith,
            lookup-insert k k (children_callbacks k s ++ c ∷ [])
                s.children_synchronization_callbacks,
            receive_children-fifo k all [] t,
            map-snoc callback_of pairs (c, children),
            append-nil (map callback_of all),
          )
          | inr refused ↦ ground arith
        ]
      ]
