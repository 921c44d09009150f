-- ===== src/Dbus/Ends.antt =====
-- The end of an interface.
use wolk_connect_task.Prelude.{
  ℕ, ◌≡◌, refl, true, false, [], ◌∷◌, ◌++◌, text_eq, nat_eq, arith, append-nil, append_assoc,
}
use wolk_connect_task.Prelude.Dict.{Dict}
use wolk_connect_task.Dbus.{
  SignalIdentification, signal_eq, Glib, GenericDbusInterface, erase_subscription,
}
use wolk_connect_task.Dbus.Methods.{
  check_connection, unsubscribe_from_signal, unsubscribe_all, subscription_ids, destroy,
}

module _ {V C : Type 0} (e : Glib V) where
  unsubscribe_all-Ends :
      (subscriptions : Dict SignalIdentification (ℕ × C)) (s : GenericDbusInterface V C)
      → check_connection s ≡ true
      → s.signal_callbacks ≡ subscriptions
      → unsubscribe_all (subscription_ids subscriptions) s ≡ record s {
        signal_callbacks = [];
        unsubscribed = s.unsubscribed ++ subscription_ids subscriptions;
      }
  unfolding unsubscribe_all unsubscribe_from_signal erase_subscription
  unsubscribe_all-Ends [] s open' all = ground (arith, append-nil s.unsubscribed)
  unsubscribe_all-Ends ((k, (id, c)) ∷ subscriptions) s open' all =
      let t : GenericDbusInterface V C = record s {
        signal_callbacks = subscriptions;
        unsubscribed = s.unsubscribed ++ id ∷ [];
      } in
      ground (
        arith,
        unsubscribe_all-Ends subscriptions t open' refl,
        append_assoc s.unsubscribed (id ∷ []) (subscription_ids subscriptions),
      )

  -- The end of an interface whose connection is open: every subscription that is recorded is ended,
  -- each by its number, none is left, and the loop is stopped.
  destroy-Ends :
      (s : GenericDbusInterface V C)
      → check_connection s ≡ true
      → ((destroy e s).signal_callbacks ≡ [])
        × ((destroy e s).unsubscribed ≡ s.unsubscribed ++ subscription_ids s.signal_callbacks)
        × ((destroy e s).main_loop ≡ false)
  unfolding destroy check_connection
  destroy-Ends s open' = ground (arith, unsubscribe_all-Ends s.signal_callbacks s open' refl)
