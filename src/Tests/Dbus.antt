-- ===== src/Tests/Dbus.antt =====
-- A bus on which APT runs with the owner ":1.5", and one on which nothing runs.
use wolk_connect_task.Prelude.{
  Text, ap, ℕ, suc, ◌≡◌, refl, false, true, List, [], ◌∷◌, ◌++◌, length, codes, text_dec, text_eq,
  ◌==◌, if◌then◌else◌, arith,
}
use wolk_connect_task.Prelude.Dict.{lookup}
use wolk_connect_task.Dbus.{
  Reply, exception, null, answer, Call, SignalIdentification, Glib, GenericDbusInterface, name_of,
}
use wolk_connect_task.Dbus.Methods.{
  new_interface, check_connection, connect, external_name_watch, subscribe_to_signal,
}
use wolk_connect_task.Dbus.Signals.{
  Delivers, subscribe_to_signal-Delivers, subscribe_to_signal-refused,
}

-- A value is the list of the texts in it.
abbrev pub Value : Type 0
Value = List Text

abbrev pub first : Value → Text
first [] = []
first (t ∷ ts) = t

abbrev pub join : List Value → Value
join [] = []
join (v ∷ vs) = v ++ join vs

abbrev pub reply : Call Value → Reply Value
reply call =
    if call.method_name == codes "GetNameOwner"
    then answer (codes ":1.5" ∷ [])
    else if call.method_name == codes "InstallFile"
    then answer (codes "/t2" ∷ [])
    else null

abbrev pub glib : Glib Value
glib = record {
  bus_get_sync = λ type. true;
  is_address = λ path. false;
  connection_new_for_address_sync = λ path. false;
  connection_close_sync = λ connected. (connected, false);
  main_loop_new = true;
  call_sync = λ calls call. reply call;
  signal_subscribe = λ before signal. suc (length before);
  string = λ t. t ∷ [];
  boolean = λ b. [];
  tuple = join;
  child_string = first;
  byteswap = λ v. v;
}

abbrev silent : Glib Value
silent = record glib { call_sync = λ calls call. exception }

abbrev pub connected : {C : Type 0} → GenericDbusInterface Value C
connected = (connect glib (codes "SYSTEM_BUS") new_interface).1

abbrev changed : SignalIdentification
changed = record {
  dbus_namespace = codes "org.debian.apt";
  object_name = codes "/t1";
  interface_name = codes "org.debian.apt.transaction";
  signal_name = codes "PropertiesChanged";
}

abbrev callback : ℕ
callback = 9

subscribe_to_signal-Delivers_example :
    let (id, t) = subscribe_to_signal glib changed callback connected in
    (id ≡ 1)
    × (t.command_buffer ≡ [])
    × Delivers glib changed callback (codes ":1.5") (codes "idle" ∷ []) t
    × Delivers glib changed callback
        (codes ":1.66")
        (codes "idle" ∷ [])
        (external_name_watch (codes "org.debian.apt") (codes ":1.66") t)
unfolding check_connection connect lookup name_of text_dec
subscribe_to_signal-Delivers_example =
    subscribe_to_signal-Delivers glib changed callback (codes ":1.5" ∷ []) (codes "idle" ∷ [])
      (codes ":1.66") connected refl refl (refl, refl) refl (λ same. omega (arith, ap length same))
      refl

subscribe_to_signal-refused_example :
    let (id, t) = subscribe_to_signal silent changed callback connected in
    (id ≡ 0)
    × Delivers silent changed callback
        (codes ":1.6")
        (codes "idle" ∷ [])
        (external_name_watch (codes "org.debian.apt") (codes ":1.6") t)
unfolding check_connection connect lookup name_of text_dec
subscribe_to_signal-refused_example =
    subscribe_to_signal-refused silent changed callback (codes "idle" ∷ []) (codes ":1.6") connected
      refl refl (refl, refl) refl
