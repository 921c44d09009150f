-- ===== src/Dbus/Methods.antt =====
-- The methods of GenericDBusInterface.cpp. What only an error message tells apart is left out.
use wolk_connect_task.Prelude.{
  Text, ℕ, Bool, true, false, not, ◌&&◌, Option, none, some, List, [], ◌∷◌, ◌++◌, codes, text_eq,
  nat_eq, ◌==◌, if◌then◌else◌,
}
use wolk_connect_task.Prelude.Dict.{Dict, lookup, emplace}
use wolk_connect_task.Dbus.{
  Reply, exception, null, answer, Call, SignalIdentification, signal_eq, system, session, Glib,
  Signal, GenericDbusInterface, main_namespace_name, main_namespace_dbus_object_name,
  properties_interface_name, emplace_name, set_name, name_of, erase_subscription,
}

abbrev pub new_interface : {V C : Type 0} → GenericDbusInterface V C
new_interface = record {
  dbus_connection = false;
  is_closed = false;
  main_loop = false;
  command_buffer = [];
  signal_callbacks = [];
  name_tracking = [];
  calls = [];
  subscribed = [];
  unsubscribed = [];
  watched = [];
}

abbrev pub subscription_ids : {C : Type 0} → Dict SignalIdentification (ℕ × C) → List ℕ
subscription_ids [] = []
subscription_ids ((k, (id, c)) ∷ subscriptions) = id ∷ subscription_ids subscriptions

-- A null pointer for an exception.
abbrev pub value_of : {V : Type 0} → Reply V → Option V
value_of exception = none
value_of null = none
value_of (answer value) = some value

module _ {V : Type 0} (e : Glib V) where
  abbrev pub property_call : Text → Text → Text → List V → Call V
  property_call dbus_namespace object_name method_name parameters = record {
    dbus_namespace = dbus_namespace;
    object_name = object_name;
    interface_name = properties_interface_name;
    method_name = method_name;
    parameters = some (e.tuple parameters);
  }

  abbrev pub owner_call : Text → Call V
  owner_call name = record {
    dbus_namespace = main_namespace_name;
    object_name = main_namespace_dbus_object_name;
    interface_name = main_namespace_name;
    method_name = codes "GetNameOwner";
    parameters = some (e.tuple (e.string name ∷ []));
  }

module _ {V C : Type 0} where
  unfoldable pub check_connection : GenericDbusInterface V C → Bool
  check_connection s = s.dbus_connection && not s.is_closed

  unfoldable pub stop_loop : GenericDbusInterface V C → GenericDbusInterface V C
  stop_loop s = if s.main_loop then record s { main_loop = false } else s

  unfoldable pub external_name_watch :
      Text → Text → GenericDbusInterface V C → GenericDbusInterface V C
  external_name_watch name owner s = elim (lookup name s.name_tracking) [
    | none ↦ record s { name_tracking = emplace_name name owner s.name_tracking }
    | some old ↦ record s { name_tracking = set_name name owner s.name_tracking }
  ]

  -- `none` is an exception.
  unfoldable pub unsubscribe : ℕ → GenericDbusInterface V C → Option (GenericDbusInterface V C)
  unfolding check_connection
  unsubscribe subscription_id s =
      if check_connection s
      then (elim (erase_subscription subscription_id s.signal_callbacks) [
        | none ↦ none
        | some others ↦ some (record s {
          signal_callbacks = others;
          unsubscribed = s.unsubscribed ++ subscription_id ∷ [];
        })
      ])
      else none

  unfoldable pub unsubscribe_from_signal :
      ℕ → GenericDbusInterface V C → Bool × GenericDbusInterface V C
  unfolding unsubscribe
  unsubscribe_from_signal subscription_id s = elim (unsubscribe subscription_id s) [
    | none ↦ (false, s)
    | some t ↦ (true, t)
  ]

  unfoldable pub unsubscribe_all : List ℕ → GenericDbusInterface V C → GenericDbusInterface V C
  unsubscribe_all [] s = s
  unsubscribe_all (id ∷ ids) s = unsubscribe_all ids (unsubscribe_from_signal id s).1

module _ {V C : Type 0} (e : Glib V) where
  unfoldable pub connect : Text → GenericDbusInterface V C → Bool × GenericDbusInterface V C
  connect path s =
      if path == codes "SYSTEM_BUS"
      then (let got = e.bus_get_sync system in
          (got, record s { dbus_connection = got; is_closed = if got then false else s.is_closed }))
      else if path == codes "SESSION_BUS"
      then (let got = e.bus_get_sync session in
          (got, record s { dbus_connection = got; is_closed = if got then false else s.is_closed }))
      else if e.is_address path
      then (let got = e.connection_new_for_address_sync path in
          (got, record s { dbus_connection = got; is_closed = if got then false else s.is_closed }))
      else (false, s)

  unfoldable pub disconnect : GenericDbusInterface V C → Bool × GenericDbusInterface V C
  disconnect s =
      let (closed, error) = e.connection_close_sync s.dbus_connection in
      if not closed && error then (false, s) else (true, record s { dbus_connection = false })

  -- `none` is an exception; the loop then runs until another thread stops it.
  unfoldable pub start_loop : GenericDbusInterface V C → Option (GenericDbusInterface V C)
  start_loop s = if e.main_loop_new then some (record s { main_loop = true }) else none

  unfoldable pub call_method :
      Call V → GenericDbusInterface V C → Reply V × GenericDbusInterface V C
  unfolding check_connection
  call_method call s =
      if check_connection s
      then (e.call_sync s.calls call, record s { calls = s.calls ++ call ∷ [] })
      else (exception, s)

  unfoldable pub get_property :
      Text → Text → Text → Text → GenericDbusInterface V C → Option V × GenericDbusInterface V C
  unfolding call_method
  get_property dbus_namespace object_name interface_name property_name s =
      let (reply, t) =
        call_method
          (property_call e dbus_namespace object_name (codes "Get")
            (e.string interface_name ∷ (e.string property_name ∷ [])))
          s in
      (value_of reply, t)

  unfoldable pub set_property :
      Text → Text → Text → Text → V → GenericDbusInterface V C → Bool × GenericDbusInterface V C
  unfolding call_method
  set_property dbus_namespace object_name interface_name property_name value s =
      let (reply, t) =
        call_method
          (property_call e dbus_namespace object_name (codes "Set")
            (e.string interface_name ∷ (e.string property_name ∷ (value ∷ []))))
          s in
      (elim reply [ exception ↦ false | _ ↦ true ], t)

  unfoldable pub get_all_properties :
      Text → Text → Text → GenericDbusInterface V C → Option V × GenericDbusInterface V C
  unfolding call_method
  get_all_properties dbus_namespace object_name interface_name s =
      let (reply, t) =
        call_method
          (property_call e dbus_namespace object_name (codes "GetAll")
            (e.string interface_name ∷ []))
          s in
      (value_of reply, t)

  -- `none` is an exception, also where the call gave a null pointer.
  unfoldable pub get_name_owner :
      Text → GenericDbusInterface V C → Option Text × GenericDbusInterface V C
  unfolding call_method
  get_name_owner name s =
      let (reply, t) = call_method (owner_call e name) s in
      (elim reply [ answer value ↦ some (e.child_string value) | _ ↦ none ], t)

  -- Whether there was no exception.
  unfoldable pub subscribe_to_name :
      Text → GenericDbusInterface V C → Bool × GenericDbusInterface V C
  unfolding get_name_owner
  subscribe_to_name name s =
      let (owner, t) = get_name_owner name (record s { watched = s.watched ++ name ∷ [] }) in
      elim owner [
        | none ↦ (false, t)
        | some o ↦ (
          true,
          record t {
            name_tracking = elim (lookup name t.name_tracking) [
              | none ↦ emplace_name name o t.name_tracking
              | some old ↦ t.name_tracking
            ];
          },
        )
      ]

  unfoldable pub subscribe_to_signal :
      SignalIdentification → C → GenericDbusInterface V C → ℕ × GenericDbusInterface V C
  unfolding subscribe_to_name check_connection
  subscribe_to_signal signal callback s =
      let id = e.signal_subscribe s.subscribed signal in
      let (watching, t) = subscribe_to_name signal.dbus_namespace (record s {
        subscribed = s.subscribed ++ signal ∷ [];
        signal_callbacks = emplace signal (id, callback) s.signal_callbacks;
      }) in
      if check_connection s then (if watching then (id, t) else (0, t)) else (0, s)

  -- `none` is an exception.
  unfoldable pub external_signal_callback :
      Signal V → GenericDbusInterface V C → Option (GenericDbusInterface V C)
  external_signal_callback signal s = elim (name_of signal.sender_name s.name_tracking) [
    | none ↦ some s
    | some name ↦
        let identification : SignalIdentification = record {
          dbus_namespace = name;
          object_name = signal.object_path;
          interface_name = signal.interface_name;
          signal_name = signal.signal_name;
        } in
        elim (lookup identification s.signal_callbacks) [
          | none ↦ none
          | some (id, callback) ↦ some (record s {
            command_buffer =
                s.command_buffer ++ (callback, identification, e.byteswap signal.parameters) ∷ [];
          })
        ]
  ]

  -- What GLib calls for a signal.
  unfoldable pub callback_pointer : Signal V → GenericDbusInterface V C → GenericDbusInterface V C
  unfolding external_signal_callback
  callback_pointer signal s = elim (external_signal_callback signal s) [ none ↦ s | some t ↦ t ]

  -- What GLib calls for the owner of a name.
  abbrev pub name_watcher : Text → Text → GenericDbusInterface V C → GenericDbusInterface V C
  name_watcher name owner s = external_name_watch name owner s

  unfoldable pub destroy : GenericDbusInterface V C → GenericDbusInterface V C
  unfolding disconnect stop_loop unsubscribe_all
  destroy s = stop_loop (
      if s.dbus_connection
      then (disconnect (unsubscribe_all (subscription_ids s.signal_callbacks) s)).1
      else s)
