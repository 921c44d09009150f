-- ===== src/Tests/Sessions.antt =====
-- An upload of five bytes in three pieces, and one whose chunks are bad.
use native.Mathlib.Decide.{ℕ_discrete}
use wolk_connect_task.Prelude.{
  Text, ◌≡◌, refl, inr, true, some, List, [], ◌∷◌, codes, arith, length,
}
use wolk_connect_task.Sdk.{
  ByteArray, FileTransferStatus, FileTransferError, FileUploadInitiateMessage,
  FileBinaryResponseMessage,
}
use wolk_connect_task.FileManagement.Session.{
  FileTransferSession, notify, upload_session, hash_matches, collected_size, collect_from,
}
use wolk_connect_task.FileManagement.Session.Chunks.{push_all, IsActive, IsReady, messages}
use wolk_connect_task.FileManagement.Session.Upload.{push_all-messages}
use wolk_connect_task.FileManagement.Session.Retries.{IsBad, exceeded, push_all-exceeded}
use wolk_connect_task.Tests.{hashes}

abbrev sign : ByteArray → Text
sign d = length d ∷ []

abbrev init : FileUploadInitiateMessage
init = record { name = codes "f"; size = 5; hash = 5 ∷ [] }

abbrev first : ByteArray
first = 10 ∷ 11 ∷ []

abbrev others : List ByteArray
others = (12 ∷ []) ∷ (13 ∷ 14 ∷ []) ∷ []

abbrev start : FileTransferSession
start = upload_session 0 (codes "D1") init true

push_all-messages_example :
    (t : FileTransferSession) × (push_all hashes start (messages sign [] (first ∷ others))
      ≡ some (t, notify FileTransferStatus.file_ready FileTransferError.none ∷ []))
    × IsReady t (10 ∷ 11 ∷ 12 ∷ 13 ∷ 14 ∷ [])
push_all-messages_example =
    push_all-messages hashes sign (λ d. refl) 0 (codes "D1") init first others
      (omega arith, (omega arith, (omega arith, tt))) refl (omega arith) refl

abbrev bad_chunk : FileBinaryResponseMessage
bad_chunk = record { content = first; previous_hash = []; current_hash = 3 ∷ [] }

start-IsActive : IsActive start
unfolding collected_size collect_from
start-IsActive = record { platform = refl; open_still = refl; short = omega arith }

bad_chunk-IsBad : IsBad hashes start bad_chunk
unfolding hash_matches ℕ_discrete
bad_chunk-IsBad = inr refl

push_all-exceeded_example :
    push_all hashes start (bad_chunk ∷ bad_chunk ∷ bad_chunk ∷ bad_chunk ∷ [])
    ≡ some (
      exceeded start,
      notify FileTransferStatus.error FileTransferError.retry_count_exceeded ∷ [],
    )
push_all-exceeded_example =
    push_all-exceeded hashes start (bad_chunk ∷ bad_chunk ∷ bad_chunk ∷ []) bad_chunk start-IsActive
      refl refl (bad_chunk-IsBad, (bad_chunk-IsBad, (bad_chunk-IsBad, tt))) bad_chunk-IsBad refl
