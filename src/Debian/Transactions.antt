-- ===== src/Debian/Transactions.antt =====
-- wolk/service/firmware_update/debian/apt/APTPackageInstaller.cpp: a transaction from the call that
-- makes it to its signal.
use wolk_connect_task.Prelude.{
  Text, ℕ, ◌≡◌, ◌≢◌, ◌⊎◌, ◌∙◌, ap, refl, true, none, some, List, [], ◌∷◌, ◌++◌, codes, text_eq,
  ◌==◌, arith, if◌then◌else◌,
}
use wolk_connect_task.Prelude.Dict.{lookup, lookup-insert, lookup-erase}
use wolk_connect_task.Dbus.{
  exception, answer, SignalIdentification, signal_eq, Glib, Signal, GenericDbusInterface,
}
use wolk_connect_task.Dbus.Methods.{check_connection, owner_call, call_method, subscribe_to_signal}
use wolk_connect_task.Dbus.Owners.{Owns, IsNew}
use wolk_connect_task.Dbus.Signals.{
  signal_of, callback_pointer-Delivers, subscribe_to_signal-Owns, subscribe_to_signal-keeps,
}
use wolk_connect_task.Debian.{
  InstallationResult, installing, package_not_found, SignalHandler, finished, config_file_conflict,
  properties_changed, AptPackageInstaller, apt_namespace, transaction_signal, finished_signal,
  run_call, install_call, receive_signal, receive_signals, run_handlers, handle_finished_signal,
  subscribe_transaction, install_package,
}

-- The connection listens to the Finished signal of a transaction, whose service has the owner.
abbrev pub Listens : {V : Type 0} → Text → Text → ℕ → GenericDbusInterface V SignalHandler → Type 0
Listens object owner id d =
    (check_connection d ≡ true)
    × (lookup (finished_signal object) d.signal_callbacks ≡ some (id, finished))
    × Owns apt_namespace owner d.name_tracking
    × (d.command_buffer ≡ [])

-- What APT, systemd and GLib answer to the calls for a transaction, whatever was called before.
pub record Answers {V : Type 0} (e : Glib V) (path object : Text) (owner : V) : Type 0 where
  pub created : V
  pub creates : (calls : List _) → e.call_sync calls (install_call e path) ≡ answer created
  pub names : e.child_string created ≡ object
  pub owns : (calls : List _) → e.call_sync calls (owner_call e apt_namespace) ≡ answer owner
  pub runs : (calls : List _) → e.call_sync calls (run_call object) ≢ exception
  pub numbers :
      (before : List SignalIdentification) (signal : SignalIdentification)
      → e.signal_subscribe before signal ≢ 0

-- `callback` waits for the transaction of the package `path`.
abbrev pub Waits : {V C : Type 0} → Text → Text → C → AptPackageInstaller V C → Type 0
Waits object path callback s =
    (lookup object s.callbacks ≡ some callback) × (lookup object s.transactions ≡ some path)

-- The connection is open and idle, the owner of APT's name is new or known as that, and nothing is
-- known of the transaction.
abbrev pub IsReady : {V C : Type 0} → Text → Text → AptPackageInstaller V C → Type 0
IsReady object owner s =
    (check_connection s.connection ≡ true)
    × (s.connection.command_buffer ≡ [])
    × (IsNew apt_namespace owner s.connection.name_tracking
        ⊎ Owns apt_namespace owner s.connection.name_tracking)
    × (lookup (finished_signal object) s.connection.signal_callbacks ≡ none)
    × (lookup object s.callbacks ≡ none)
    × (lookup object s.transactions ≡ none)

module _ {V : Type 0} (e : Glib V) where
  subscribe_transaction-Listens :
      (object : Text) (owner : V) (d : GenericDbusInterface V SignalHandler)
      → check_connection d ≡ true
      → d.command_buffer ≡ []
      → e.call_sync d.calls (owner_call e apt_namespace) ≡ answer owner
      → IsNew apt_namespace (e.child_string owner) d.name_tracking
        ⊎ Owns apt_namespace (e.child_string owner) d.name_tracking
      → lookup (finished_signal object) d.signal_callbacks ≡ none
      → e.signal_subscribe d.subscribed (finished_signal object) ≢ 0
      → let (subscription, t) = subscribe_transaction e object d in
        (subscription ≢ 0) × Listens object (e.child_string owner) subscription t
  unfolding subscribe_transaction
  subscribe_transaction-Listens object owner d open' idle answered known fresh number =
      let signal = finished_signal object in
      let conflict = transaction_signal object (codes "ConfigFileConflict") in
      let changed = transaction_signal object (codes "PropertiesChanged") in
      let (id, t) = subscribe_to_signal e signal finished d in
      let u = (subscribe_to_signal e conflict config_file_conflict t).1 in
      let first = subscribe_to_signal-Owns e signal finished owner d open' answered known fresh in
      let second =
        subscribe_to_signal-keeps e signal conflict id finished config_file_conflict
          (e.child_string owner) t refl first.2 first.1 in
      let third =
        subscribe_to_signal-keeps e signal changed id finished properties_changed
          (e.child_string owner) u refl second.1 second.0 in
      ground arith

module _ {V : Type 0} (e : Glib V) where
  abbrev pub result_of : V → InstallationResult
  result_of value =
      if e.child_string (e.byteswap value) == codes "exit-success"
      then InstallationResult.installed
      else package_not_found

module _ {V C : Type 0} (e : Glib V) where
  -- The Finished signal of a transaction, from its arrival on the connection to the end of the handler.
  abbrev pub finish_transaction :
      Text → Text → V → AptPackageInstaller V C → AptPackageInstaller V C
  finish_transaction object owner value s =
      run_handlers e (receive_signal e (signal_of (finished_signal object) owner value) s)

  finish_transaction-handles :
      (object owner : Text) (value : V) (id : ℕ) (s : AptPackageInstaller V C)
      → Listens object owner id s.connection
      → finish_transaction object owner value s
        ≡ handle_finished_signal e object (e.byteswap value) s
  unfolding run_handlers
  finish_transaction-handles object owner value id s (open', found, (known, named), idle) =
      let delivered =
        callback_pointer-Delivers e (finished_signal object) finished owner value id s.connection
          named found in
      ground (arith, delivered)

  pub finish_transaction-Waits :
      (object owner path : Text) (value : V) (id : ℕ) (callback : C) (s : AptPackageInstaller V C)
      → Listens object owner id s.connection
      → Waits object path callback s
      → let u = finish_transaction object owner value s in
        (u.command_buffer ≡ s.command_buffer ++ (callback, path, result_of e value) ∷ [])
        × (lookup object u.callbacks ≡ none)
        × (u.connection ≡ s.connection)
  unfolding handle_finished_signal
  finish_transaction-Waits object owner path value id callback s listens (waits, kept) =
      rw (finish_transaction-handles object owner value id s listens)
        (ground (arith, lookup-erase object object s.callbacks))

  finish_transaction-nothing :
      (object owner : Text) (value : V) (id : ℕ) (s : AptPackageInstaller V C)
      → Listens object owner id s.connection
      → lookup object s.callbacks ≡ none
      → finish_transaction object owner value s ≡ s
  unfolding handle_finished_signal
  finish_transaction-nothing object owner value id s listens waits =
      rw (finish_transaction-handles object owner value id s listens) (ground arith)

  pub install_package-Waits :
      (path object : Text) (callback : C) (owner : V) (s : AptPackageInstaller V C)
      → Answers e path object owner
      → IsReady object (e.child_string owner) s
      → let (result, t) = install_package e path callback [] s in
        (result ≡ installing)
        × ((id : ℕ) × Listens object (e.child_string owner) id t.connection)
        × Waits object path callback t
        × (t.command_buffer ≡ s.command_buffer)
  unfolding install_package receive_signals call_method
  install_package-Waits path object callback owner s a (open', idle, known, silent, new, fresh) =
      let d = (call_method e (install_call e path) s.connection).1 in
      let made = a.creates s.connection.calls in
      let listens =
        subscribe_transaction-Listens e object owner d (ground arith) (ground arith)
          (a.owns d.calls) (ground arith) (ground arith)
          (a.numbers d.subscribed (finished_signal object)) in
      let (id, t) = subscribe_transaction e object d in
      let ran = a.runs t.calls in
      let made_for = a.names in
      (
        ground arith,
        (id, ground arith),
        ground (
          arith,
          lookup-insert object object callback s.callbacks,
          lookup-insert object object path s.transactions,
        ),
        ground arith,
      )

  -- A package of which APT makes a transaction that is not known yet: when D-Bus and GLib answer the
  -- calls for it, the connection is open and idle, and the owner of APT's name is new or known as
  -- that, then the call answers that it installs. The Finished signal of the transaction, from that
  -- owner, then passes through the buffer of the connection and queues the callback, once and behind
  -- all others, with the path of the package, and Installed for exit-success and PackageNotFound for
  -- every other result. The transaction is then forgotten: another Finished signal changes nothing.
  pub install_package-finished :
      (path object : Text) (callback : C) (owner value other : V) (s : AptPackageInstaller V C)
      → Answers e path object owner
      → IsReady object (e.child_string owner) s
      → let (result, t) = install_package e path callback [] s in
        let u = finish_transaction object (e.child_string owner) value t in
        (result ≡ installing)
        × (u.command_buffer ≡ s.command_buffer ++ (callback, path, result_of e value) ∷ [])
        × (lookup object u.callbacks ≡ none)
        × (finish_transaction object (e.child_string owner) other u ≡ u)
  install_package-finished path object callback owner value other s a ready =
      let t = (install_package e path callback [] s).1 in
      let u = finish_transaction object (e.child_string owner) value t in
      let (answered, (id, listens), waits, kept) =
        install_package-Waits path object callback owner s a ready in
      let (queued, forgotten, same) =
        finish_transaction-Waits object (e.child_string owner) path value id callback t listens
          waits in
      (
        answered,
        queued ∙ ap (λ buffer. buffer ++ (callback, path, result_of e value) ∷ []) kept,
        forgotten,
        finish_transaction-nothing object (e.child_string owner) other id u (rw same listens)
            forgotten,
      )

  -- A call that does not answer that it installs keeps no transaction and no callback, so that its
  -- callback is never called.
  pub install_package-refused :
      (path : Text) (callback : C) (early : List (Signal V)) (s : AptPackageInstaller V C)
      → let (result, t) = install_package e path callback early s in
        (result ≡ installing)
        ⊎ ((t.callbacks ≡ s.callbacks)
            × (t.transactions ≡ s.transactions)
            × (t.command_buffer ≡ s.command_buffer))
  unfolding install_package
  install_package-refused path callback early s = ground arith
