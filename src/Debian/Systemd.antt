-- ===== src/Debian/Systemd.antt =====
-- wolk/service/firmware_update/debian/systemd/SystemdServiceInterface.{h,cpp}: services that systemd
-- restarts, over a connection of its own.
use wolk_connect_task.Prelude.{Text, Option, none, some, [], ◌∷◌, ◌++◌, codes}
use wolk_connect_task.Downloader.Url.{find}
use wolk_connect_task.Dbus.{exception, null, answer, Call, Glib, GenericDbusInterface}
use wolk_connect_task.Dbus.Methods.{connect, disconnect, call_method}

pub data ServiceRestartResult : Type 0 where
  failed_to_find_to_dbus failed_to_find_service successful : ServiceRestartResult

-- The class gives no callbacks to its connection.
abbrev pub Connection : Type 0 → Type 0
Connection V = GenericDbusInterface V ⊥

abbrev pub systemd_namespace : Text
systemd_namespace = codes "org.freedesktop.systemd1"

module _ {V : Type 0} (e : Glib V) where
  unfoldable pub start : Connection V → Connection V
  start s = (connect e (codes "SYSTEM_BUS") s).1

  unfoldable pub stop : Connection V → Connection V
  stop s = (disconnect e s).1

  abbrev pub restart_call : Text → Call V
  restart_call service_object_name = record {
    dbus_namespace = systemd_namespace;
    object_name = service_object_name;
    interface_name = codes "org.freedesktop.systemd1.Unit";
    method_name = codes "Restart";
    parameters = some (e.tuple (e.string (codes "replace") ∷ []));
  }

  unfoldable pub restart_service : Text → Connection V → ServiceRestartResult × Connection V
  restart_service service_object_name s =
      let (reply, t) = call_method e (restart_call service_object_name) s in
      (elim reply [ exception ↦ failed_to_find_to_dbus | _ ↦ successful ], t)

  abbrev pub load_call : Text → Call V
  load_call service_name = record {
    dbus_namespace = systemd_namespace;
    object_name = codes "/org/freedesktop/systemd1";
    interface_name = codes "org.freedesktop.systemd1.Manager";
    method_name = codes "LoadUnit";
    parameters = some (e.tuple (e.string service_name ∷ []));
  }

  abbrev pub unit_name : Text → Text
  unit_name service_name = elim (find (codes ".service") service_name) [
    | none ↦ service_name ++ codes ".service"
    | some i ↦ service_name
  ]

  -- A null pointer is taken apart by GLib, which gives a null pointer for the text: none.
  unfoldable pub obtain_object_name_for_service : Text → Connection V → Option Text × Connection V
  obtain_object_name_for_service service_name s =
      let (reply, t) = call_method e (load_call (unit_name service_name)) s in
      (
        elim reply [
          | exception ↦ some []
          | null ↦ none
          | answer value ↦ some (e.child_string value)
        ],
        t,
      )
