-- ===== src/FileManagement/Session/Chunks.antt =====
-- A file that is cut in pieces, and what a session does with one of them.
use Prim.Native.Nat.{◌%◌, ◌^◌}
use wolk_connect_task.Prelude.{
  Text, ◌+◌, ◌<◌, ◌≤◌, ◌≡◌, true, false, Option, none, some, List, [], ◌∷◌, ◌++◌, length,
  last?-append, arith, text_eq,
}
use wolk_connect_task.Sdk.{
  ByteArray, FileTransferStatus, FileTransferError, status_eq, error_eq, Hashes,
  FileBinaryResponseMessage,
}
use wolk_connect_task.FileManagement.Session.{
  FileChunk, FileTransferSession, Request, notify, collected_size, all_bytes, follows, push_chunk,
}
use wolk_connect_task.FileManagement.Session.Content.{all_bytes-snoc, hash_matches_self}

-- The bytes of the pieces, in order.
abbrev pub joined : List ByteArray → ByteArray
joined [] = []
joined (d ∷ ds) = d ++ joined ds

abbrev pub NonEmpty : List ByteArray → Type 0
NonEmpty [] = Unit {0}
NonEmpty (d ∷ ds) = (0 < length d) × NonEmpty ds

module _ (sign : ByteArray → Text) where
  abbrev pub chunk_message : Text → ByteArray → FileBinaryResponseMessage
  chunk_message previous d = record { content = d; previous_hash = previous; current_hash = sign d }

  -- What the platform sends for the pieces: each message names the hash of the one before.
  abbrev pub messages : Text → List ByteArray → List FileBinaryResponseMessage
  messages previous [] = []
  messages previous (d ∷ ds) = chunk_message previous d ∷ messages (sign d) ds

  abbrev pub chunk_of : Text → ByteArray → FileChunk
  chunk_of previous d = record { previous_hash = previous; bytes = d; hash = sign d }

module _ (h : Hashes) where
  -- The session after a series of chunks, with the statuses queued on the way.
  unfoldable pub push_all :
      FileTransferSession
      → List FileBinaryResponseMessage
      → Option (FileTransferSession × List Request)
  push_all s [] = some (s, [])
  push_all s (m ∷ ms) = elim (push_chunk h s m) [
    | none ↦ none
    | some (t, e, out) ↦ elim (push_all t ms) [
      | none ↦ none
      | some (u, more) ↦ some (u, out ++ more)
    ]
  ]

  pub push_all-cons :
      (s t : FileTransferSession) (m : FileBinaryResponseMessage) (e : FileTransferError)
      (out : List Request) (ms : List FileBinaryResponseMessage) (u : FileTransferSession)
      (more : List Request)
      → push_chunk h s m ≡ some (t, e, out)
      → push_all t ms ≡ some (u, more)
      → push_all s (m ∷ ms) ≡ some (u, out ++ more)
  unfolding push_all
  push_all-cons s t m e out ms u more p q = rw (p, push_all, q)

-- A platform transfer that waits for bytes.
pub record IsActive (s : FileTransferSession) : Type 0 where
  pub platform : s.url ≡ []
  pub open_still : s.done ≡ false
  pub short : collected_size s.chunks < s.size

-- The upload is over, with the given content.
pub record IsReady (t : FileTransferSession) (content : ByteArray) : Type 0 where
  pub done : t.done ≡ true
  pub status : t.status ≡ FileTransferStatus.file_ready
  pub error : t.error ≡ FileTransferError.none
  pub bytes : all_bytes t.chunks ≡ content

module _ (h : Hashes) (sign : ByteArray → Text)
    (signed : (d : ByteArray) → h.to_byte_array (sign d) ≡ h.hash_sha256 d) where
  pub push_more :
      (s : FileTransferSession) (previous : Text) (d : ByteArray)
      → IsActive s
      → follows s.chunks (chunk_message sign previous d) ≡ true
      → (collected_size s.chunks + length d) % 2 ^ 64 < s.size
      → push_chunk h s (chunk_message sign previous d)
        ≡ some (
          record s { chunks = s.chunks ++ chunk_of sign previous d ∷ [] },
          FileTransferError.none,
          [],
        )
  unfolding push_chunk
  push_more s previous d a f lt = ground (arith, signed d, hash_matches_self (h.hash_sha256 d))

  -- The last piece ends the session, with the verdict of the hash of the whole file.
  pub push_last :
      (s : FileTransferSession) (previous : Text) (d : ByteArray)
      → IsActive s
      → s.status ≡ FileTransferStatus.file_transfer
      → s.callback ≡ true
      → follows s.chunks (chunk_message sign previous d) ≡ true
      → s.size ≤ (collected_size s.chunks + length d) % 2 ^ 64
      → h.to_hex_string (h.hash_mda5 (all_bytes s.chunks ++ d)) ≡ s.hash
      → push_chunk h s (chunk_message sign previous d)
        ≡ some (
          record s {
            chunks = s.chunks ++ chunk_of sign previous d ∷ [];
            done = true;
            status = FileTransferStatus.file_ready;
            error = FileTransferError.none;
          },
          FileTransferError.none,
          notify FileTransferStatus.file_ready FileTransferError.none ∷ [],
        )
  unfolding push_chunk
  push_last s previous d a st cb f le ok = ground (
    arith,
    signed d,
    hash_matches_self (h.hash_sha256 d),
    all_bytes-snoc s.chunks (chunk_of sign previous d),
  )

  pub follows-snoc :
      (s : FileTransferSession) (previous : Text) (d e : ByteArray)
      → follows (s.chunks ++ chunk_of sign previous d ∷ []) (chunk_message sign (sign d) e) ≡ true
  unfolding follows
  follows-snoc s previous d e =
      rw (last?-append s.chunks (chunk_of sign previous d), follows) (ground arith)
