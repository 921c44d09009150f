-- ===== src/Dbus/Signals.antt =====
-- Signals of D-Bus from their subscription to the call of a callback.
use wolk_connect_task.Prelude.{
  Text, ℕ, ◌≡◌, ◌≢◌, ◌⊎◌, inl, inr, true, false, none, some, [], ◌∷◌, ◌++◌, text_eq, nat_eq, arith,
}
use wolk_connect_task.Prelude.Dict.{lookup, lookup-emplace, lookup-emplace_kept}
use wolk_connect_task.Dbus.{
  exception, answer, SignalIdentification, signal_eq, Glib, Signal, GenericDbusInterface, name_of,
  erase_subscription,
}
use wolk_connect_task.Dbus.Methods.{
  check_connection, owner_call, external_name_watch, unsubscribe_from_signal, subscribe_to_signal,
  callback_pointer,
}
use wolk_connect_task.Dbus.Owners.{
  Owns, IsNew, emplace_name-Owns, emplace_name-others, set_name-Owns,
}

-- The signal that has an identification, from the owner of its namespace.
abbrev pub signal_of : {V : Type 0} → SignalIdentification → Text → V → Signal V
signal_of signal owner value = record {
  sender_name = owner;
  object_path = signal.object_name;
  interface_name = signal.interface_name;
  signal_name = signal.signal_name;
  parameters = value;
}

module _ {V C : Type 0} (e : Glib V) where
  -- A signal from the owner queues the callback that its identification has.
  abbrev pub Delivers : SignalIdentification → C → Text → V → GenericDbusInterface V C → Type 0
  Delivers signal callback owner value s =
      callback_pointer e (signal_of signal owner value) s
      ≡ record s { command_buffer = s.command_buffer ++ (callback, signal, e.byteswap value) ∷ [] }

  pub callback_pointer-Delivers :
      (signal : SignalIdentification) (callback : C) (owner : Text) (value : V) (id : ℕ)
      (s : GenericDbusInterface V C)
      → name_of owner s.name_tracking ≡ some signal.dbus_namespace
      → lookup signal s.signal_callbacks ≡ some (id, callback)
      → Delivers signal callback owner value s
  unfolding callback_pointer
  callback_pointer-Delivers signal callback owner value id s named found = ground arith

  -- What a subscription changes, when the owner of the namespace is found and was not known.
  pub subscribe_to_signal-Owns :
      (signal : SignalIdentification) (callback : C) (owner : V) (s : GenericDbusInterface V C)
      → check_connection s ≡ true
      → e.call_sync s.calls (owner_call e signal.dbus_namespace) ≡ answer owner
      → IsNew signal.dbus_namespace (e.child_string owner) s.name_tracking
        ⊎ Owns signal.dbus_namespace (e.child_string owner) s.name_tracking
      → lookup signal s.signal_callbacks ≡ none
      → let (id, t) = subscribe_to_signal e signal callback s in
        (id ≡ e.signal_subscribe s.subscribed signal)
        × (lookup signal t.signal_callbacks ≡ some (id, callback))
        × Owns signal.dbus_namespace (e.child_string owner) t.name_tracking
        × (check_connection t ≡ true)
        × (t.command_buffer ≡ s.command_buffer)
  unfolding subscribe_to_signal
  subscribe_to_signal-Owns signal callback owner s open' answered (inl new) fresh = ground (
    arith,
    emplace_name-Owns signal.dbus_namespace (e.child_string owner) s.name_tracking,
    lookup-emplace signal signal (e.signal_subscribe s.subscribed signal, callback)
        s.signal_callbacks,
  )
  subscribe_to_signal-Owns signal callback owner s open' answered (inr old) fresh = ground (
    arith,
    lookup-emplace signal signal (e.signal_subscribe s.subscribed signal, callback)
        s.signal_callbacks,
  )

  subscribe_to_signal-others :
      (signal : SignalIdentification) (callback : C) (owner : V) (next : Text)
      (s : GenericDbusInterface V C)
      → check_connection s ≡ true
      → e.call_sync s.calls (owner_call e signal.dbus_namespace) ≡ answer owner
      → IsNew signal.dbus_namespace (e.child_string owner) s.name_tracking
      → name_of next s.name_tracking ≡ none
      → e.child_string owner ≢ next
      → name_of next (subscribe_to_signal e signal callback s).1.name_tracking ≡ none
  unfolding subscribe_to_signal
  subscribe_to_signal-others signal callback owner next s open' answered new unknown distinct =
      ground (
        arith,
        emplace_name-others signal.dbus_namespace (e.child_string owner) next s.name_tracking,
      )

  -- A later subscription to a signal of the same namespace leaves an earlier one as it is.
  pub subscribe_to_signal-keeps :
      (signal other : SignalIdentification) (id : ℕ) (callback handler : C) (owner : Text)
      (s : GenericDbusInterface V C)
      → other.dbus_namespace ≡ signal.dbus_namespace
      → Owns signal.dbus_namespace owner s.name_tracking
      → lookup signal s.signal_callbacks ≡ some (id, callback)
      → let t = (subscribe_to_signal e other handler s).1 in
        (lookup signal t.signal_callbacks ≡ some (id, callback))
        × Owns signal.dbus_namespace owner t.name_tracking
        × (check_connection t ≡ check_connection s)
        × (t.command_buffer ≡ s.command_buffer)
  unfolding subscribe_to_signal
  subscribe_to_signal-keeps signal other id callback handler owner s same (known, named) found =
      ground (
        arith,
        lookup-emplace_kept other signal (e.signal_subscribe s.subscribed other, handler)
            (id, callback) s.signal_callbacks,
      )

  -- A subscription while the connection is open, to a signal that is not subscribed to, where the
  -- owner of the namespace is found and owns no namespace that is known: the number that GLib gave
  -- comes back. A signal from the owner then queues the callback, once and behind what waits, with
  -- the namespace in place of the owner and the bytes of the value swapped. So does a signal from a
  -- later owner, another one that owns nothing known either, after the watch told of it.
  pub subscribe_to_signal-Delivers :
      (signal : SignalIdentification) (callback : C) (owner value : V) (next : Text)
      (s : GenericDbusInterface V C)
      → check_connection s ≡ true
      → e.call_sync s.calls (owner_call e signal.dbus_namespace) ≡ answer owner
      → IsNew signal.dbus_namespace (e.child_string owner) s.name_tracking
      → name_of next s.name_tracking ≡ none
      → e.child_string owner ≢ next
      → lookup signal s.signal_callbacks ≡ none
      → let (id, t) = subscribe_to_signal e signal callback s in
        (id ≡ e.signal_subscribe s.subscribed signal)
        × (t.command_buffer ≡ s.command_buffer)
        × Delivers signal callback (e.child_string owner) value t
        × Delivers signal callback next value (external_name_watch signal.dbus_namespace next t)
  unfolding external_name_watch
  subscribe_to_signal-Delivers signal callback owner value next s open' answered new unknown
        distinct fresh =
      let (id, t) = subscribe_to_signal e signal callback s in
      let (numbered, found, (known, named), kept, idle) =
        subscribe_to_signal-Owns signal callback owner s open' answered (inl new) fresh in
      let watched = external_name_watch signal.dbus_namespace next t in
      let absent : name_of next t.name_tracking ≡ none =
        subscribe_to_signal-others signal callback owner next s open' answered new unknown
          distinct in
      let moved =
        set_name-Owns signal.dbus_namespace (e.child_string owner) next t.name_tracking known
          absent in
      (
        numbered,
        idle,
        callback_pointer-Delivers signal callback (e.child_string owner) value id t named found,
        callback_pointer-Delivers signal callback next value id watched (ground arith)
            (ground arith),
      )

  -- A second subscription to a signal, while the connection is open and the owner is found: GLib
  -- subscribes again and the new number comes back, but the callback is lost; the signal still queues
  -- the first one. The subscription cannot be ended: with the new number nothing is done.
  pub subscribe_to_signal-again :
      (signal : SignalIdentification) (first second : C) (owner value : V) (id : ℕ)
      (s : GenericDbusInterface V C)
      → check_connection s ≡ true
      → e.call_sync s.calls (owner_call e signal.dbus_namespace) ≡ answer owner
      → Owns signal.dbus_namespace (e.child_string owner) s.name_tracking
      → lookup signal s.signal_callbacks ≡ some (id, first)
      → erase_subscription (e.signal_subscribe s.subscribed signal) s.signal_callbacks ≡ none
      → let (again, t) = subscribe_to_signal e signal second s in
        (again ≡ e.signal_subscribe s.subscribed signal)
        × Delivers signal first (e.child_string owner) value t
        × (unsubscribe_from_signal again t ≡ (false, t))
  unfolding subscribe_to_signal unsubscribe_from_signal
  subscribe_to_signal-again signal first second owner value id s open' answered (known, named) found
        other =
      (
        ground arith,
        callback_pointer-Delivers signal first (e.child_string owner) value id
            (subscribe_to_signal e signal second s).1 (ground arith) (ground arith),
        ground arith,
      )

  -- A subscription to a service that does not run, while the connection is open: 0 comes back, as for
  -- a failure. But the callback stays: when the watch tells that the service has appeared, with an
  -- owner that owns nothing known, its signals queue the callback all the same.
  pub subscribe_to_signal-refused :
      (signal : SignalIdentification) (callback : C) (value : V) (owner : Text)
      (s : GenericDbusInterface V C)
      → check_connection s ≡ true
      → e.call_sync s.calls (owner_call e signal.dbus_namespace) ≡ exception
      → IsNew signal.dbus_namespace owner s.name_tracking
      → lookup signal s.signal_callbacks ≡ none
      → let (id, t) = subscribe_to_signal e signal callback s in
        (id ≡ 0)
        × Delivers signal callback owner value (external_name_watch signal.dbus_namespace owner t)
  unfolding subscribe_to_signal external_name_watch
  subscribe_to_signal-refused signal callback value owner s open' failed new fresh =
      let t = (subscribe_to_signal e signal callback s).1 in
      let (known, named) = emplace_name-Owns signal.dbus_namespace owner s.name_tracking new in
      (
        ground arith,
        callback_pointer-Delivers signal callback owner value
            (e.signal_subscribe s.subscribed signal)
            (external_name_watch signal.dbus_namespace owner t) (ground arith)
            (ground (
              arith,
              lookup-emplace signal signal (e.signal_subscribe s.subscribed signal, callback)
                  s.signal_callbacks,
            )),
      )
