-- ===== src/Data/Receive/Subscriptions.antt =====
-- An answer serves the oldest subscription that asked for just these parameters.
use wolk_connect_task.Prelude.{
  Text, ℕ, ◌≡◌, ◌↔◌, refl, ◌⊎◌, inl, inr, true, false, none, some, List, [], ◌∷◌, ◌++◌, length,
  is_empty, arith, nat_eq, if◌then◌else◌, Bool-cases, Option-cases,
}
use wolk_connect_task.Sdk.{Parameter, ParameterName, parameter_name_eq}
use wolk_connect_task.Data.{
  MessageType, parameters_received, parameter_sync, ParameterSubscription, Surroundings,
  DataService,
}
use wolk_connect_task.Data.Receive.{
  has_name, all_names, matches, take_subscription, check_if_subscription_is_waiting, dispatch,
  message_received,
}

-- One of the values has the name.
abbrev pub HasName : ParameterName → List Parameter → Type 0
HasName name [] = ⊥
HasName name (p ∷ values) = (p.name ≡ name) ⊎ HasName name values

abbrev pub HasAll : List ParameterName → List Parameter → Type 0
HasAll [] values = Unit {0}
HasAll (name ∷ names) values = HasName name values × HasAll names values

-- The values are as many as the subscription asks for, and each of its names is among them.
abbrev pub Asks : ParameterSubscription → List Parameter → Type 0
Asks subscription values =
    (length values ≡ length subscription.parameters) × HasAll subscription.parameters values

abbrev pub NoneAsks : List (ℕ × ParameterSubscription) → List Parameter → Type 0
NoneAsks [] values = Unit {0}
NoneAsks ((id, s) ∷ subscriptions) values = (¬ Asks s values) × NoneAsks subscriptions values

has_name_iff :
    (name : ParameterName) (values : List Parameter)
    → (has_name name values ≡ true) ↔ HasName name values
unfolding has_name
has_name_iff name [] = (λ e. cc, λ h. absurd h)
has_name_iff name (p ∷ values) = ground (arith, has_name_iff name values)

all_names_iff :
    (names : List ParameterName) (values : List Parameter)
    → (all_names names values ≡ true) ↔ HasAll names values
unfolding all_names
all_names_iff [] values = (λ e. tt, λ h. refl)
all_names_iff (name ∷ names) values =
    ground (arith, has_name_iff name values, all_names_iff names values)

matches_iff :
    (subscription : ParameterSubscription) (values : List Parameter)
    → (matches subscription values ≡ true) ↔ Asks subscription values
unfolding matches
matches_iff s values = ground (arith, all_names_iff s.parameters values)

-- The first subscription that asks for the values, with those before and after it.
pub record IsFirst (values : List Parameter) (subscriptions : List (ℕ × ParameterSubscription))
    (found : ParameterSubscription) (others : List (ℕ × ParameterSubscription)) : Type 0 where
  pub before : List (ℕ × ParameterSubscription)
  pub id : ℕ
  pub after : List (ℕ × ParameterSubscription)
  pub all : subscriptions ≡ before ++ (id, found) ∷ after
  pub left : others ≡ before ++ after
  pub asks : Asks found values
  pub first : NoneAsks before values

take_subscription-IsFirst :
    (values : List Parameter) (subscriptions others : List (ℕ × ParameterSubscription))
    (found : ParameterSubscription)
    → take_subscription values subscriptions ≡ some (found, others)
    → IsFirst values subscriptions found others
unfolding take_subscription
take_subscription-IsFirst values [] others found e = cc
take_subscription-IsFirst values ((id, s) ∷ subscriptions) others found e =
    elim (Bool-cases (matches s values)) [
      | inl hit ↦ record {
        before = [];
        id = id;
        after = subscriptions;
        all = ground arith;
        left = ground arith;
        asks = ground (arith, (matches_iff s values).0 hit);
        first = tt;
      }
      | inr miss ↦ elim (Option-cases (take_subscription values subscriptions)) [
        | inl nothing ↦ absurd (ground arith)
        | inr ((f, os), some_found) ↦
            let r = take_subscription-IsFirst values subscriptions os f some_found in
            record {
              before = (id, s) ∷ r.before;
              id = r.id;
              after = r.after;
              all = ground (arith, r.all);
              left = ground (arith, r.left);
              asks = ground (arith, r.asks);
              first = (λ a. ground (arith, (matches_iff s values).1 a), r.first);
            }
      ]
    ]

take_subscription-NoneAsks :
    (values : List Parameter) (subscriptions : List (ℕ × ParameterSubscription))
    → take_subscription values subscriptions ≡ none
    → NoneAsks subscriptions values
unfolding take_subscription
take_subscription-NoneAsks values [] e = tt
take_subscription-NoneAsks values ((id, s) ∷ subscriptions) e = (
  λ a. ground (arith, (matches_iff s values).1 a),
  take_subscription-NoneAsks values subscriptions (ground (arith, matches_iff s values)),
)

-- Every subscription has a callback: `synchronizeParameters` keeps none without.
abbrev pub HaveCallbacks : List (ℕ × ParameterSubscription) → Type 0
HaveCallbacks [] = Unit {0}
HaveCallbacks ((id, s) ∷ subscriptions) =
    ((c : ℕ) × (s.callback ≡ some c)) × HaveCallbacks subscriptions

HaveCallbacks-middle :
    (before : List (ℕ × ParameterSubscription)) (id : ℕ) (found : ParameterSubscription)
    (after : List (ℕ × ParameterSubscription))
    → HaveCallbacks (before ++ (id, found) ∷ after)
    → (c : ℕ) × (found.callback ≡ some c)
HaveCallbacks-middle [] id found after h = h.0
HaveCallbacks-middle (b ∷ before) id found after h = HaveCallbacks-middle before id found after h.1

module _ {Wire P : Type 0} (e : Surroundings Wire P) where
  -- The values went to the oldest subscription that asks for them.
  pub record Served (values : List Parameter) (s t : DataService Wire P) : Type 0 where
    pub found : ParameterSubscription
    pub others : List (ℕ × ParameterSubscription)
    pub callback : ℕ
    pub is_first : IsFirst values s.parameter_subscriptions found others
    pub calls_back : found.callback ≡ some callback
    pub result : t ≡ record s {
      parameter_subscriptions = others;
      command_buffer = s.command_buffer ++ parameters_received callback values ∷ [];
    }

  abbrev pub to_handler : Text → List Parameter → DataService Wire P → DataService Wire P
  to_handler device_key values s =
      if s.parameter_sync_handler
      then record s { calls = s.calls ++ parameter_sync device_key values ∷ [] }
      else s

  -- Parameters that arrive for a device go to one place: to the oldest subscription that asked for
  -- as many and for each of its names among them, whose callback is queued once and which alone is
  -- forgotten; or, when no subscription asks for them, to the handler, if there is one. Nothing else
  -- of the service changes.
  pub message_received-parameters :
      (wire : Wire) (values : List Parameter) (s : DataService Wire P)
      → HaveCallbacks s.parameter_subscriptions
      → is_empty (e.get_device_key wire) ≡ false
      → e.get_message_type wire ≡ MessageType.parameter_sync
      → e.parse_parameters wire ≡ some values
      → Served values s (message_received e (some wire) s)
        ⊎ (NoneAsks s.parameter_subscriptions values
            × (message_received e (some wire) s ≡ to_handler (e.get_device_key wire) values s))
  unfolding message_received dispatch check_if_subscription_is_waiting
  message_received-parameters wire values s h dev type parsed =
      elim (Option-cases (take_subscription values s.parameter_subscriptions)) [
        | inl nothing ↦
            inr (take_subscription-NoneAsks values s.parameter_subscriptions nothing, ground arith)
        | inr ((found, others), some_found) ↦
            let r =
              take_subscription-IsFirst values s.parameter_subscriptions others found some_found in
            let (c, hc) = HaveCallbacks-middle r.before r.id found r.after (rw r.all at h) in
            inl (record {
              found = found;
              others = others;
              callback = c;
              is_first = r;
              calls_back = hc;
              result = ground arith;
            })
      ]
