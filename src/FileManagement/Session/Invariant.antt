-- ===== src/FileManagement/Session/Invariant.antt =====
-- What holds of a platform transfer whatever chunks arrive: its chunks are linked, its counters
-- are bounded, and FILE_READY is only ever said of the file that was announced.
use Prim.Native.Nat.{◌%◌, ◌^◌}
use wolk_connect_task.Prelude.{
  Text, ℕ, ◌+◌, ◌<◌, ◌≤◌, ◌≡◌, refl, true, false, some, List, [], ◌∷◌, ◌++◌, arith, length, text_eq,
  Bool-cases, inl, inr,
}
use wolk_connect_task.Sdk.{
  FileTransferStatus, FileTransferError, status_eq, error_eq, Hashes, FileBinaryResponseMessage,
  FileUploadInitiateMessage,
}
use wolk_connect_task.FileManagement.Session.{
  FileChunk, FileTransferSession, Request, collect_from, collected_size, all_bytes, follows,
  hash_matches, push_chunk, reject_chunk, accept_chunk, abort, upload_session,
}

-- Each chunk names the hash of the one before it.
abbrev pub Linked : List FileChunk → Type 0
Linked [] = Unit {0}
Linked (c ∷ []) = Unit {0}
Linked (c ∷ (d ∷ cs)) = (c.hash ≡ d.previous_hash) × Linked (d ∷ cs)

Linked-snoc :
    (cs : List FileChunk) (m : FileBinaryResponseMessage) (c : FileChunk)
    → c.previous_hash ≡ m.previous_hash
    → Linked cs
    → follows cs m ≡ true
    → Linked (cs ++ c ∷ [])
unfolding follows
Linked-snoc [] m c e l f = tt
Linked-snoc (b ∷ []) m c e l f = ground arith
Linked-snoc (b ∷ (d ∷ cs)) m c e l f = (l.0, Linked-snoc (d ∷ cs) m c e l.1 f)

abbrev chunk_of : FileBinaryResponseMessage → FileChunk
chunk_of m = record { previous_hash = m.previous_hash; bytes = m.content; hash = m.current_hash }

collect_from-snoc :
    (n : ℕ) (cs : List FileChunk) (c : FileChunk)
    → collect_from n (cs ++ c ∷ []) ≡ (collect_from n cs + length c.bytes) % 2 ^ 64
unfolding collect_from
collect_from-snoc n [] c = refl
collect_from-snoc n (d ∷ cs) c = collect_from-snoc ((n + length d.bytes) % 2 ^ 64) cs c

module _ (h : Hashes) where
  -- The bytes of each chunk agree with the hash that came with them.
  abbrev pub Verified : List FileChunk → Type 0
  Verified [] = Unit {0}
  Verified (c ∷ cs) =
      (hash_matches (h.to_byte_array c.hash) (h.hash_sha256 c.bytes) ≡ some true) × Verified cs

  Verified-snoc :
      (cs : List FileChunk) (c : FileChunk)
      → hash_matches (h.to_byte_array c.hash) (h.hash_sha256 c.bytes) ≡ some true
      → Verified cs
      → Verified (cs ++ c ∷ [])
  Verified-snoc [] c e v = (e, tt)
  Verified-snoc (d ∷ cs) c e v = (v.0, Verified-snoc cs c e v.1)

  pub record IsSound (s : FileTransferSession) : Type 0 where
    pub platform : s.url ≡ []
    pub linked : Linked s.chunks
    pub verified : Verified s.chunks
    pub short : s.done ≡ false → collected_size s.chunks < s.size
    pub retries : s.done ≡ false → s.retry_count ≤ 3
    pub retries_max : s.retry_count ≤ 4
    pub ready :
        s.status ≡ FileTransferStatus.file_ready
        → (s.done ≡ true)
          × (h.to_hex_string (h.hash_mda5 (all_bytes s.chunks)) ≡ s.hash)
          × (s.size ≤ collected_size s.chunks)

  pub upload_session-IsSound :
      (id : ℕ) (key : Text) (m : FileUploadInitiateMessage)
      → 0 < m.size
      → IsSound (upload_session id key m true)
  unfolding collected_size collect_from
  upload_session-IsSound id key m pos = record {
    platform = refl;
    linked = tt;
    verified = tt;
    short = λ _. pos;
    retries = λ _. omega arith;
    retries_max = omega arith;
    ready = λ e. cc;
  }

  pub abort-IsSound :
      (s t : FileTransferSession) (out : List Request)
      → IsSound s
      → abort s ≡ some (t, out)
      → IsSound t
  unfolding abort
  abort-IsSound s t out v e = ground arith

  reject_chunk-IsSound :
      (s : FileTransferSession) → IsSound s → s.done ≡ false → IsSound (reject_chunk s).0
  unfolding reject_chunk
  reject_chunk-IsSound s v o = ground arith

  collected_size-snoc :
      (cs : List FileChunk) (c : FileChunk)
      → collected_size (cs ++ c ∷ []) ≡ (collected_size cs + length c.bytes) % 2 ^ 64
  unfolding collected_size collect_from
  collected_size-snoc cs c = collect_from-snoc 0 cs c

  accept_chunk-IsSound :
      (s : FileTransferSession) (m : FileBinaryResponseMessage)
      → IsSound s
      → s.done ≡ false
      → follows s.chunks m ≡ true
      → hash_matches (h.to_byte_array m.current_hash) (h.hash_sha256 m.content) ≡ some true
      → IsSound (accept_chunk h s m).0
  unfolding accept_chunk
  accept_chunk-IsSound s m v o f e = ground (
    arith,
    Linked-snoc s.chunks m (chunk_of m) refl v.linked,
    Verified-snoc s.chunks (chunk_of m) e v.verified,
    collected_size-snoc s.chunks (chunk_of m),
  )

  -- Whatever chunk arrives: the chunks of a platform transfer stay linked and verified, it waits
  -- only while bytes are missing and fewer than four attempts failed, and when its status is
  -- FILE_READY its bytes have the announced hash and are at least as many as announced.
  pub push_chunk-IsSound :
      (s t : FileTransferSession) (m : FileBinaryResponseMessage) (e : FileTransferError)
      (out : List Request)
      → IsSound s
      → push_chunk h s m ≡ some (t, e, out)
      → IsSound t
  unfolding push_chunk
  push_chunk-IsSound s t m e out v p = elim (Bool-cases s.done) [
    | inl d ↦ ground arith
    | inr o ↦ ground (arith, reject_chunk-IsSound s v o, accept_chunk-IsSound s m v o)
  ]
