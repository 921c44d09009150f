-- ===== src/Dbus/Owners.antt =====
-- The owners of the names.
use wolk_connect_task.Prelude.{Text, ◌≡◌, ◌≢◌, none, some, [], ◌∷◌, text_eq, nat_eq, arith}
use wolk_connect_task.Prelude.Dict.{Dict, lookup}
use wolk_connect_task.Prelude.Order.{text_ltb_irrefl}
use wolk_connect_task.Dbus.{signal_eq, emplace_name, set_name, name_of}

-- The name has the owner, and no name before it has.
abbrev pub Owns : Text → Text → Dict Text Text → Type 0
Owns name owner names = (lookup name names ≡ some owner) × (name_of owner names ≡ some name)

abbrev pub IsNew : Text → Text → Dict Text Text → Type 0
IsNew name owner names = (lookup name names ≡ none) × (name_of owner names ≡ none)

pub emplace_name-Owns :
    (name owner : Text) (names : Dict Text Text)
    → IsNew name owner names
    → Owns name owner (emplace_name name owner names)
unfolding emplace_name lookup name_of
emplace_name-Owns name owner [] new = ground arith
emplace_name-Owns name owner ((n, o) ∷ names) new =
    ground (arith, emplace_name-Owns name owner names, text_ltb_irrefl name)

pub emplace_name-others :
    (name owner other : Text) (names : Dict Text Text)
    → name_of other names ≡ none
    → owner ≢ other
    → name_of other (emplace_name name owner names) ≡ none
unfolding emplace_name name_of
emplace_name-others name owner other [] absent distinct = ground arith
emplace_name-others name owner other ((n, o) ∷ names) absent distinct =
    ground (arith, emplace_name-others name owner other names)

pub set_name-Owns :
    (name old owner : Text) (names : Dict Text Text)
    → lookup name names ≡ some old
    → name_of owner names ≡ none
    → Owns name owner (set_name name owner names)
unfolding set_name lookup name_of
set_name-Owns name old owner [] known new = cc
set_name-Owns name old owner ((n, o) ∷ names) known new =
    ground (arith, set_name-Owns name old owner names)
