-- ===== src/FileManagement/Session/Content.antt =====
-- The bytes that the chunks of a session hold, and their number.
use Prim.Native.Nat.{◌%◌, ◌^◌}
use wolk_connect_task.Prelude.{
  ℕ, ◌+◌, ◌<◌, ◌≡◌, refl, true, some, List, [], ◌∷◌, ◌++◌, length, length-append, append_assoc,
  append-nil, arith, nat_eq,
}
use wolk_connect_task.Sdk.{ByteArray}
use wolk_connect_task.FileManagement.Session.{
  FileChunk, collect_from, collected_size, all_bytes, hash_matches,
}

pub all_bytes-append :
    (cs ds : List FileChunk) → all_bytes (cs ++ ds) ≡ all_bytes cs ++ all_bytes ds
unfolding all_bytes
all_bytes-append [] ds = refl
all_bytes-append (c ∷ cs) ds = rw (all_bytes-append cs ds, append_assoc)

pub all_bytes-snoc :
    (cs : List FileChunk) (c : FileChunk) → all_bytes (cs ++ c ∷ []) ≡ all_bytes cs ++ c.bytes
unfolding all_bytes
all_bytes-snoc cs c = rw (all_bytes-append cs (c ∷ []), append-nil)

collect_from-mod :
    (n : ℕ) (cs : List FileChunk)
    → n < 2 ^ 64
    → collect_from n cs ≡ (n + length (all_bytes cs)) % 2 ^ 64
unfolding collect_from all_bytes
collect_from-mod n [] h = omega arith
collect_from-mod n (c ∷ cs) h = omega (
  arith,
  collect_from-mod ((n + length c.bytes) % 2 ^ 64) cs (omega arith),
  length-append c.bytes (all_bytes cs),
)

-- The counter is the number of bytes, modulo its width.
pub collected_size-mod : (cs : List FileChunk) → collected_size cs ≡ length (all_bytes cs) % 2 ^ 64
unfolding collected_size
collected_size-mod cs = omega (arith, collect_from-mod 0 cs (omega arith))

pub hash_matches_self : (xs : ByteArray) → hash_matches xs xs ≡ some true
unfolding hash_matches
hash_matches_self [] = refl
hash_matches_self (x ∷ xs) = ground (arith, hash_matches_self xs)
