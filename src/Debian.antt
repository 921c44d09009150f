-- ===== src/Debian.antt =====
-- wolk/service/firmware_update/debian/apt/APTPackageInstaller.{h,cpp}: packages that APT installs in
-- transactions, over a connection to D-Bus.
pub mod Systemd
pub mod Version
pub mod Answers
pub mod Service
pub mod Installer
pub mod Transactions
use wolk_connect_task.Prelude.{
  Text, ℕ, true, Option, none, some, List, [], ◌∷◌, ◌++◌, codes, text_eq, nat_eq, ◌==◌,
  if◌then◌else◌,
}
use wolk_connect_task.Prelude.Dict.{Dict, lookup, insert, erase, emplace}
use wolk_connect_task.Dbus.{
  Reply, exception, null, answer, Call, SignalIdentification, Glib, Signal, GenericDbusInterface,
}
use wolk_connect_task.Dbus.Methods.{
  connect, disconnect, start_loop, stop_loop, call_method, subscribe_to_signal, callback_pointer,
}

pub data InstallationResult : Type 0 where
  installing installed failed_to_connect_to_apt package_not_found invalid_response_received
        failed_to_subscribe_to_signal :
      InstallationResult

-- The three callbacks that `installPackage` gives to the connection.
pub data SignalHandler : Type 0 where
  finished config_file_conflict properties_changed : SignalHandler

-- A callback is a value of type `C`; the command buffer lists the calls of callbacks.
pub record AptPackageInstaller (V C : Type 0) : Type 0 where
  pub connection : GenericDbusInterface V SignalHandler
  pub transactions : Dict Text Text
  pub callbacks : Dict Text C
  pub command_buffer : List (C × Text × InstallationResult)

abbrev pub apt_namespace : Text
apt_namespace = codes "org.debian.apt"

abbrev pub apt_transaction_interface : Text
apt_transaction_interface = codes "org.debian.apt.transaction"

abbrev pub transaction_signal : Text → Text → SignalIdentification
transaction_signal object name = record {
  dbus_namespace = apt_namespace;
  object_name = object;
  interface_name = apt_transaction_interface;
  signal_name = name;
}

abbrev pub finished_signal : Text → SignalIdentification
finished_signal object = transaction_signal object (codes "Finished")

abbrev pub run_call : {V : Type 0} → Text → Call V
run_call object = record {
  dbus_namespace = apt_namespace;
  object_name = object;
  interface_name = apt_transaction_interface;
  method_name = codes "Run";
  parameters = none;
}

module _ {V : Type 0} (e : Glib V) where
  abbrev pub install_call : Text → Call V
  install_call path = record {
    dbus_namespace = apt_namespace;
    object_name = codes "/org/debian/apt";
    interface_name = apt_namespace;
    method_name = codes "InstallFile";
    parameters = some (e.tuple (e.string path ∷ (e.boolean true ∷ [])));
  }

  -- `keep` is the answer to every conflict.
  abbrev pub resolve_call : Text → V → Call V
  resolve_call object value = record {
    dbus_namespace = apt_namespace;
    object_name = object;
    interface_name = apt_transaction_interface;
    method_name = codes "ResolveConfigFileConflict";
    parameters = some (e.tuple (e.string (e.child_string value) ∷ (e.string (codes "keep") ∷ [])));
  }

  -- The three subscriptions, of which only the first must succeed.
  unfoldable pub subscribe_transaction :
      Text → GenericDbusInterface V SignalHandler → ℕ × GenericDbusInterface V SignalHandler
  subscribe_transaction object d =
      let (subscription, t) = subscribe_to_signal e (finished_signal object) finished d in
      if subscription == 0
      then (0, t)
      else (let u =
            (subscribe_to_signal e (transaction_signal object (codes "ConfigFileConflict"))
              config_file_conflict t).1 in
          (
            subscription,
            (subscribe_to_signal e (transaction_signal object (codes "PropertiesChanged"))
                properties_changed u).1,
          ))

module _ {V C : Type 0} (e : Glib V) where
  -- The thread of the main loop is started; `none` is its exception, which nothing catches.
  unfoldable pub start : AptPackageInstaller V C → Option (AptPackageInstaller V C)
  start s =
      let (connected, d) = connect e (codes "SYSTEM_BUS") s.connection in
      if connected
      then (elim (start_loop e d) [ none ↦ none | some t ↦ some (record s { connection = t }) ])
      else some (record s { connection = d })

  unfoldable pub stop : AptPackageInstaller V C → AptPackageInstaller V C
  stop s = record s { connection = stop_loop (disconnect e s.connection).1 }

  unfoldable pub handle_finished_signal :
      Text → V → AptPackageInstaller V C → AptPackageInstaller V C
  handle_finished_signal object value s = elim (lookup object s.callbacks) [
    | none ↦ s
    | some callback ↦ elim (lookup object s.transactions) [
      | none ↦ s
      | some path ↦ record s {
        transactions = erase object s.transactions;
        callbacks = erase object s.callbacks;
        command_buffer =
            s.command_buffer
            ++ (
              callback,
              path,
              if e.child_string value == codes "exit-success"
                  then InstallationResult.installed
                  else package_not_found,
            )
              ∷ [];
      }
    ]
  ]

  -- An exception of the call is left to the command buffer that runs the handler.
  unfoldable pub handle_config_file_conflict :
      Text → V → AptPackageInstaller V C → AptPackageInstaller V C
  handle_config_file_conflict object value s = record s {
    connection = (call_method e (resolve_call e object value) s.connection).1;
  }

  -- A signal arrives on the connection, which may queue a handler.
  abbrev pub receive_signal : Signal V → AptPackageInstaller V C → AptPackageInstaller V C
  receive_signal signal s = record s { connection = callback_pointer e signal s.connection }

  abbrev pub handle : SignalHandler → Text → V → AptPackageInstaller V C → AptPackageInstaller V C
  handle finished object value s = handle_finished_signal object value s
  handle config_file_conflict object value s = handle_config_file_conflict object value s
  handle properties_changed object value s = s

  unfoldable pub handle_all :
      List (SignalHandler × SignalIdentification × V)
      → AptPackageInstaller V C
      → AptPackageInstaller V C
  unfolding handle_finished_signal handle_config_file_conflict
  handle_all [] s = s
  handle_all ((handler, signal, value) ∷ commands) s =
      handle_all commands (handle handler signal.object_name value s)

  -- The command buffer of the connection runs what waits in it.
  unfoldable pub run_handlers : AptPackageInstaller V C → AptPackageInstaller V C
  unfolding handle_all
  run_handlers s =
      let d = s.connection in
      handle_all d.command_buffer (record s { connection = record d { command_buffer = [] } })

  -- Signals arrive one by one, and each is handled before the next.
  unfoldable pub receive_signals :
      List (Signal V) → AptPackageInstaller V C → AptPackageInstaller V C
  unfolding run_handlers
  receive_signals [] s = s
  receive_signals (signal ∷ signals) s =
      receive_signals signals (run_handlers (receive_signal signal s))

  -- `early` are the signals that arrive after the transaction was run and before it is kept.
  unfoldable pub install_package :
      Text
      → C
      → List (Signal V)
      → AptPackageInstaller V C
      → InstallationResult × AptPackageInstaller V C
  unfolding subscribe_transaction
  install_package path callback early s =
      let (created, d) = call_method e (install_call e path) s.connection in
      elim created [
        | exception ↦ (invalid_response_received, record s { connection = d })
        | null ↦ (failed_to_connect_to_apt, record s { connection = d })
        | answer value ↦
            let object = e.child_string value in
            let (subscription, t) = subscribe_transaction e object d in
            if subscription == 0
            then (failed_to_subscribe_to_signal, record s { connection = t })
            else (let (run, u) = call_method e (run_call object) t in
                elim run [
                  | exception ↦ (failed_to_connect_to_apt, record s { connection = u })
                  | _ ↦
                      let v = receive_signals early (record s { connection = u }) in
                      (
                        installing,
                        record v {
                          transactions = emplace object path v.transactions;
                          callbacks = emplace object callback v.callbacks;
                        },
                      )
                ])
      ]
