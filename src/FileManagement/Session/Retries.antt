-- ===== src/FileManagement/Session/Retries.antt =====
-- Chunks that fail a check: three may be asked for again, the fourth ends the session.
use wolk_connect_task.Prelude.{
  ℕ, suc, ◌+◌, ◌≤◌, ◌≡◌, refl, ap, ◌∙◌, ◌⊎◌, true, false, some, List, [], ◌∷◌, ◌++◌, length, arith,
}
use wolk_connect_task.Sdk.{
  FileTransferStatus, FileTransferError, status_eq, error_eq, Hashes, FileBinaryResponseMessage,
}
use wolk_connect_task.FileManagement.Session.{
  FileTransferSession, notify, follows, hash_matches, push_chunk, reject_chunk,
}
use wolk_connect_task.FileManagement.Session.Chunks.{IsActive, push_all, push_all-cons}

abbrev counted : FileTransferSession → ℕ → FileTransferSession
counted s n = record s { retry_count = n }

-- How a session ends that has failed too often.
abbrev pub exceeded : FileTransferSession → FileTransferSession
exceeded s = record s {
  retry_count = 4;
  done = true;
  status = FileTransferStatus.error;
  error = FileTransferError.retry_count_exceeded;
}

module _ (h : Hashes) where
  -- The chunk does not follow the last one, or its bytes disagree with its hash.
  abbrev pub IsBad : FileTransferSession → FileBinaryResponseMessage → Type 0
  IsBad s m =
      (follows s.chunks m ≡ false)
      ⊎ (hash_matches (h.to_byte_array m.current_hash) (h.hash_sha256 m.content) ≡ some false)

  abbrev pub AllBad : FileTransferSession → List FileBinaryResponseMessage → Type 0
  AllBad s [] = Unit {0}
  AllBad s (m ∷ ms) = IsBad s m × AllBad s ms

  push_chunk-bad :
      (s : FileTransferSession) (m : FileBinaryResponseMessage)
      → IsActive s
      → IsBad s m
      → push_chunk h s m ≡ some (reject_chunk s)
  unfolding push_chunk
  push_chunk-bad s m a b = ground arith

  AllBad-counted :
      (s : FileTransferSession) (n : ℕ) (ms : List FileBinaryResponseMessage)
      → AllBad s ms
      → AllBad (counted s n) ms
  AllBad-counted s n [] b = tt
  AllBad-counted s n (m ∷ ms) b = (b.0, AllBad-counted s n ms b.1)

  reject_chunk-early :
      (s : FileTransferSession)
      → suc s.retry_count ≤ 3
      → reject_chunk s ≡ (counted s (suc s.retry_count), FileTransferError.file_hash_mismatch, [])
  unfolding reject_chunk
  reject_chunk-early s le = ground arith

  reject_chunk-last :
      (s : FileTransferSession)
      → s.retry_count ≡ 3
      → s.status ≡ FileTransferStatus.file_transfer
      → s.callback ≡ true
      → reject_chunk s ≡ (
        exceeded s,
        FileTransferError.retry_count_exceeded,
        notify FileTransferStatus.error FileTransferError.retry_count_exceeded ∷ [],
      )
  unfolding reject_chunk
  reject_chunk-last s e st cb = ground arith

  -- As long as no more than three chunks failed in all, bad chunks change nothing but the counter of
  -- a platform transfer that waits for bytes: no status is queued.
  push_all-bad :
      (s : FileTransferSession) (ms : List FileBinaryResponseMessage)
      → IsActive s
      → AllBad s ms
      → s.retry_count + length ms ≤ 3
      → push_all h s ms ≡ some (record s { retry_count = s.retry_count + length ms }, [])
  unfolding push_all
  push_all-bad s [] a b le = ground arith
  push_all-bad s (m ∷ ms) a b le =
      push_all-cons h s (counted s (suc s.retry_count)) m _ [] ms _ []
        (push_chunk-bad s m a b.0 ∙ ap some (reject_chunk-early s (omega arith)))
        (push_all-bad (counted s (suc s.retry_count)) ms
          (record { platform = a.platform; open_still = a.open_still; short = a.short })
          (AllBad-counted s (suc s.retry_count) ms b.1) (omega arith))
      ∙ ap (λ n. some (counted s n, [])) (omega arith)

  -- When bad chunks have brought the counter to three, the next bad chunk ends the session with
  -- RETRY_COUNT_EXCEEDED, and that status is queued once in all. This is so for a platform transfer
  -- that waits for bytes and has a callback.
  pub push_all-exceeded :
      (s : FileTransferSession) (ms : List FileBinaryResponseMessage)
      (m : FileBinaryResponseMessage)
      → IsActive s
      → s.status ≡ FileTransferStatus.file_transfer
      → s.callback ≡ true
      → AllBad s ms
      → IsBad s m
      → s.retry_count + length ms ≡ 3
      → push_all h s (ms ++ m ∷ [])
        ≡ some (
          exceeded s,
          notify FileTransferStatus.error FileTransferError.retry_count_exceeded ∷ [],
        )
  unfolding push_all
  push_all-exceeded s [] m a st cb bs b e =
      push_all-cons h s (exceeded s) m _ _ [] (exceeded s) []
        (push_chunk-bad s m a b ∙ ap some (reject_chunk-last s (omega arith) st cb)) refl
  push_all-exceeded s (n ∷ ms) m a st cb bs b e =
      push_all-cons h s (counted s (suc s.retry_count)) n _ [] (ms ++ m ∷ []) (exceeded s) _
        (push_chunk-bad s n a bs.0 ∙ ap some (reject_chunk-early s (omega arith)))
        (push_all-exceeded (counted s (suc s.retry_count)) ms m
          (record { platform = a.platform; open_still = a.open_still; short = a.short }) st cb
          (AllBad-counted s (suc s.retry_count) ms bs.1) b (omega arith))
