-- ===== src/FileManagement/Session/Upload.antt =====
-- A whole upload: a file is cut in pieces, sent chunk by chunk, and put together again.
use Prim.Native.Nat.{◌^◌}
use wolk_connect_task.Prelude.{
  Text, ℕ, ◌+◌, ◌<◌, ap, sym, ◌≡◌, refl, ◌∙◌, true, some, List, [], ◌∷◌, ◌++◌, length,
  length-append, append_assoc, append-nil, arith, text_eq,
}
use wolk_connect_task.Sdk.{
  ByteArray, FileTransferStatus, FileTransferError, status_eq, error_eq, Hashes,
  FileUploadInitiateMessage,
}
use wolk_connect_task.FileManagement.Session.{
  FileTransferSession, notify, collect_from, collected_size, all_bytes, follows, upload_session,
}
use wolk_connect_task.FileManagement.Session.Content.{all_bytes-snoc, collected_size-mod}
use wolk_connect_task.FileManagement.Session.Chunks.{
  joined, NonEmpty, chunk_message, messages, chunk_of, push_all, push_all-cons, IsActive, IsReady,
  push_more, push_last, follows-snoc,
}

module _ (h : Hashes) (sign : ByteArray → Text)
    (signed : (d : ByteArray) → h.to_byte_array (sign d) ≡ h.hash_sha256 d) where
  -- The session still waits for the pieces `d ∷ ds`, and they complete its file.
  pub record Awaits (s : FileTransferSession) (previous : Text) (d : ByteArray)
      (ds : List ByteArray) : Type 0 where
    pub active : IsActive s
    pub sending : s.status ≡ FileTransferStatus.file_transfer
    pub heard : s.callback ≡ true
    pub linked : follows s.chunks (chunk_message sign previous d) ≡ true
    pub total : length (all_bytes s.chunks) + length (joined (d ∷ ds)) ≡ s.size
    pub small : s.size < 2 ^ 64
    pub genuine : h.to_hex_string (h.hash_mda5 (all_bytes s.chunks ++ joined (d ∷ ds))) ≡ s.hash

  abbrev grown : FileTransferSession → Text → ByteArray → FileTransferSession
  grown s previous d = record s { chunks = s.chunks ++ chunk_of sign previous d ∷ [] }

  length-grown :
      (s : FileTransferSession) (previous : Text) (d : ByteArray)
      → length (all_bytes (grown s previous d).chunks) ≡ length (all_bytes s.chunks) + length d
  length-grown s previous d =
      ap length (all_bytes-snoc s.chunks (chunk_of sign previous d))
      ∙ length-append (all_bytes s.chunks) d

  grown-regroup :
      (s : FileTransferSession) (previous : Text) (d : ByteArray) (ds : List ByteArray)
      → all_bytes (grown s previous d).chunks ++ joined ds ≡ all_bytes s.chunks ++ joined (d ∷ ds)
  grown-regroup s previous d ds =
      rw (all_bytes-snoc s.chunks (chunk_of sign previous d), append_assoc)

  grown-lt :
      (s : FileTransferSession) (previous : Text) (d e : ByteArray) (es : List ByteArray)
      → NonEmpty (e ∷ es)
      → Awaits s previous d (e ∷ es)
      → length (all_bytes s.chunks) + length d < s.size
  grown-lt s previous d e es ne w =
      omega (arith, w.total, length-append d (joined (e ∷ es)), length-append e (joined es), ne.0)

  grown-Awaits :
      (s : FileTransferSession) (previous : Text) (d e : ByteArray) (es : List ByteArray)
      → NonEmpty (e ∷ es)
      → Awaits s previous d (e ∷ es)
      → Awaits (grown s previous d) (sign d) e es
  grown-Awaits s previous d e es ne w = record {
    active = record {
      platform = w.active.platform;
      open_still = w.active.open_still;
      short = omega (
        arith,
        w.small,
        grown-lt s previous d e es ne w,
        length-grown s previous d,
        collected_size-mod (grown s previous d).chunks,
      );
    };
    sending = w.sending;
    heard = w.heard;
    linked = follows-snoc h sign signed s previous d e;
    total = omega (arith, w.total, length-grown s previous d, length-append d (joined (e ∷ es)));
    small = w.small;
    genuine =
        ap (λ bytes. h.to_hex_string (h.hash_mda5 bytes)) (grown-regroup s previous d (e ∷ es))
        ∙ w.genuine;
  }

  pub push_all-Awaits :
      (s : FileTransferSession) (previous : Text) (d : ByteArray) (ds : List ByteArray)
      → NonEmpty (d ∷ ds)
      → Awaits s previous d ds
      → (t : FileTransferSession) × (push_all h s (messages sign previous (d ∷ ds))
          ≡ some (t, notify FileTransferStatus.file_ready FileTransferError.none ∷ []))
        × IsReady t (all_bytes s.chunks ++ joined (d ∷ ds))
  unfolding push_all
  push_all-Awaits s previous d [] ne w = (
    record (grown s previous d) {
      done = true;
      status = FileTransferStatus.file_ready;
      error = FileTransferError.none;
    },
    push_all-cons h s _ _ _ _ [] _ []
        (push_last h sign signed s previous d w.active w.sending w.heard w.linked
          (omega (arith, w.total, w.small, collected_size-mod s.chunks, ap length (append-nil d)))
          (rw append-nil at w.genuine))
        refl,
    record {
      done = refl;
      status = refl;
      error = refl;
      bytes = rw (all_bytes-snoc s.chunks (chunk_of sign previous d), append-nil);
    },
  )
  push_all-Awaits s previous d (e ∷ es) ne w =
      let (u, run, r) =
        push_all-Awaits (grown s previous d) (sign d) e es ne.1
          (grown-Awaits s previous d e es ne.1 w) in
      (
        u,
        push_all-cons h s (grown s previous d) _ _ _ (messages sign (sign d) (e ∷ es)) u _
            (push_more h sign signed s previous d w.active w.linked (
              omega
                (arith, w.small, grown-lt s previous d e es ne.1 w, collected_size-mod s.chunks)))
            run,
        record {
          done = r.done;
          status = r.status;
          error = r.error;
          bytes = r.bytes ∙ grown-regroup s previous d (e ∷ es);
        },
      )

  -- A file that is cut in non-empty pieces and sent piece by piece, each message naming the hash of
  -- the one before, is put together again by a new session: it ends in FILE_READY, holds the bytes
  -- of the file, and queues one status. This is so when the size and the hash of the initiating
  -- message are those of the file, the file is shorter than 2^64 bytes, and the hash that goes with
  -- a chunk is that of its bytes.
  pub push_all-messages :
      (id : ℕ) (device_key : Text) (init : FileUploadInitiateMessage) (d : ByteArray)
      (ds : List ByteArray)
      → NonEmpty (d ∷ ds)
      → init.size ≡ length (joined (d ∷ ds))
      → init.size < 2 ^ 64
      → init.hash ≡ h.to_hex_string (h.hash_mda5 (joined (d ∷ ds)))
      → (t : FileTransferSession) × (push_all h
            (upload_session id device_key init true)
            (messages sign [] (d ∷ ds))
          ≡ some (t, notify FileTransferStatus.file_ready FileTransferError.none ∷ []))
        × IsReady t (joined (d ∷ ds))
  unfolding all_bytes follows collected_size collect_from
  push_all-messages id device_key init d ds ne size small hash =
      push_all-Awaits (upload_session id device_key init true) [] d ds ne (record {
        active = record {
          platform = refl;
          open_still = refl;
          short = omega (arith, size, ne.0, length-append d (joined ds));
        };
        sending = refl;
        heard = refl;
        linked = refl;
        total = omega (arith, size);
        small = small;
        genuine = sym hash;
      })
