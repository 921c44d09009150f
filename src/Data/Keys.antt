-- ===== src/Data/Keys.antt =====
-- The keys under which the persistence holds what belongs to a device.
use wolk_connect_task.Prelude.{Text, ◌≡◌, ◌≢◌, ◌↔◌, some, [], ◌∷◌, arith, nat_eq}
use wolk_connect_task.Data.{make_persistence_key, split_key, parse_persistence_key}

-- The delimiter does not occur.
abbrev pub NoDelimiter : Text → Type 0
NoDelimiter [] = Unit {0}
NoDelimiter (c ∷ cs) = (c ≢ b'+') × NoDelimiter cs

pub split_key-make :
    (device_key reference : Text)
    → NoDelimiter device_key
    → split_key (make_persistence_key device_key reference) ≡ some (device_key, reference)
unfolding split_key make_persistence_key
split_key-make [] reference h = ground arith
split_key-make (c ∷ cs) reference h = ground (arith, split_key-make cs reference h.1)

make-split_key :
    (key device_key reference : Text)
    → split_key key ≡ some (device_key, reference)
    → (key ≡ make_persistence_key device_key reference) × NoDelimiter device_key
unfolding split_key make_persistence_key
make-split_key [] d r e = cc
make-split_key (c ∷ key) [] r e = ground (arith, make-split_key key [] r)
make-split_key (c ∷ key) (b ∷ d) r e = ground (arith, make-split_key key d r)

-- A key reads as a device and a reference exactly when it was made from them and the delimiter does
-- not occur in the device's key. So the two functions are inverse to one another for such devices,
-- and for no others.
split_key_iff :
    (key device_key reference : Text)
    → (split_key key ≡ some (device_key, reference))
      ↔ ((key ≡ make_persistence_key device_key reference) × NoDelimiter device_key)
split_key_iff key d r = (make-split_key key d r, λ h. rw h.0 (split_key-make d r h.1))

pub parse_persistence_key-make :
    (device_key reference : Text)
    → NoDelimiter device_key
    → parse_persistence_key (make_persistence_key device_key reference) ≡ (device_key, reference)
unfolding parse_persistence_key
parse_persistence_key-make d r h = rw (split_key-make d r h, parse_persistence_key)
