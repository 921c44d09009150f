-- ===== src/Dbus.antt =====
-- wolk/service/firmware_update/debian/GenericDBusInterface.{h,cpp}: a connection to D-Bus, the
-- methods that are called over it, and the signals that are subscribed to. GLib is a parameter.
pub mod Methods
pub mod Owners
pub mod Signals
pub mod Ends
use wolk_connect_task.Prelude.{
  Text, ℕ, Bool, true, false, not, ◌&&◌, Option, none, some, List, [], ◌∷◌, ◌++◌, codes, text_dec,
  text_eq, nat_eq, Eq, ◌==◌, if◌then◌else◌,
}
use wolk_connect_task.Prelude.Dict.{Dict, lookup}
use wolk_connect_task.Prelude.Order.{text_ltb}

-- What a call of `callMethod` comes to: an exception, a null pointer, or an answer.
pub data Reply (V : Type 0) : Type 0 where
  exception null : Reply V
  answer : V → Reply V

pub record Call (V : Type 0) : Type 0 where
  pub dbus_namespace : Text
  pub object_name : Text
  pub interface_name : Text
  pub method_name : Text
  pub parameters : Option V

-- The namespace, the object, the interface and the name of a signal.
pub record SignalIdentification : Type 0 where
  pub dbus_namespace : Text
  pub object_name : Text
  pub interface_name : Text
  pub signal_name : Text

unfoldable pub signal_dec : Discrete SignalIdentification
unfolding text_dec
signal_dec = hlevel text_dec

instance abbrev pub signal_eq : Eq SignalIdentification
signal_eq = record { dec = signal_dec }

pub data BusType : Type 0 where
  system session : BusType

-- What the code takes of GLib. The first three say whether a call gives a pointer other than null,
-- or whether a text is an address; `connection_close_sync` is given whether there is a connection,
-- and says whether it was closed and whether there was an error. Calls and subscriptions are given
-- those before them. The others make and read values, `child_string` the text of the first part.
pub record Glib (V : Type 0) : Type 0 where
  pub bus_get_sync : BusType → Bool
  pub is_address : Text → Bool
  pub connection_new_for_address_sync : Text → Bool
  pub connection_close_sync : Bool → Bool × Bool
  pub main_loop_new : Bool
  pub call_sync : List (Call V) → Call V → Reply V
  pub signal_subscribe : List SignalIdentification → SignalIdentification → ℕ
  pub string : Text → V
  pub boolean : Bool → V
  pub tuple : List V → V
  pub child_string : V → Text
  pub byteswap : V → V

-- A signal as GLib hands it over: its sender is the owner of a namespace.
pub record Signal (V : Type 0) : Type 0 where
  pub sender_name : Text
  pub object_path : Text
  pub interface_name : Text
  pub signal_name : Text
  pub parameters : V

-- A callback is a value of type `C`. `is_closed` says whether GLib has closed the connection;
-- `calls`, `subscribed`, `unsubscribed` and `watched` list the calls of GLib.
pub record GenericDbusInterface (V C : Type 0) : Type 0 where
  pub dbus_connection : Bool
  pub is_closed : Bool
  pub main_loop : Bool
  pub command_buffer : List (C × SignalIdentification × V)
  pub signal_callbacks : Dict SignalIdentification (ℕ × C)
  pub name_tracking : Dict Text Text
  pub calls : List (Call V)
  pub subscribed : List SignalIdentification
  pub unsubscribed : List ℕ
  pub watched : List Text

abbrev pub main_namespace_name : Text
main_namespace_name = codes "org.freedesktop.DBus"

abbrev pub main_namespace_dbus_object_name : Text
main_namespace_dbus_object_name = codes "/org/freedesktop/DBus"

abbrev pub properties_interface_name : Text
properties_interface_name = codes "org.freedesktop.DBus.Properties"

-- `emplace` of the map of names, which is kept in the order of its keys.
unfoldable pub emplace_name : Text → Text → Dict Text Text → Dict Text Text
emplace_name name owner [] = (name, owner) ∷ []
emplace_name name owner ((n, o) ∷ names) =
    let rest = emplace_name name owner names in
    if text_ltb n name
    then (n, o) ∷ rest
    else if n == name
    then (n, o) ∷ names
    else (name, owner) ∷ ((n, o) ∷ names)

-- `m_nameTracking[name] = nameOwner`, of a name that is there.
unfoldable pub set_name : Text → Text → Dict Text Text → Dict Text Text
set_name name owner [] = []
set_name name owner ((n, o) ∷ names) =
    let rest = set_name name owner names in if n == name then (n, owner) ∷ names else (n, o) ∷ rest

-- The first name, in the order of the map, that has the owner.
unfoldable pub name_of : Text → Dict Text Text → Option Text
name_of owner [] = none
name_of owner ((n, o) ∷ names) =
    let rest = name_of owner names in if o == owner then some n else rest

-- The record of the first subscription that has the number is taken out, if there is one.
unfoldable pub erase_subscription :
    {C : Type 0}
    → ℕ
    → Dict SignalIdentification (ℕ × C)
    → Option (Dict SignalIdentification (ℕ × C))
erase_subscription subscription_id [] = none
erase_subscription subscription_id ((k, (id, c)) ∷ subscriptions) = elim (id == subscription_id) [
  | true ↦ some subscriptions
  | false ↦ elim (erase_subscription subscription_id subscriptions) [
    | none ↦ none
    | some others ↦ some ((k, (id, c)) ∷ others)
  ]
]
