-- ===== src/FileManagement/Service/Aborts.antt =====
-- What an abort does that comes while commands wait in the buffer.
use wolk_connect_task.Prelude.{
  Text, ◌≡◌, true, none, some, List, [], ◌∷◌, ◌++◌, arith, nat_eq, text_eq,
}
use wolk_connect_task.Prelude.Dict.{insert, lookup-insert}
use wolk_connect_task.Sdk.{
  FileTransferStatus, FileTransferError, status_eq, error_eq, FileTransferStatus-discrete,
}
use wolk_connect_task.FileManagement.Session.{FileTransferSession, abort, change_status_and_error}
use wolk_connect_task.FileManagement.Service.{
  Surroundings, FileManagementService, Command, session_status, reset_session, perform,
}
use wolk_connect_task.FileManagement.Service.Handlers.{
  abort_session, on_file_upload_abort, on_file_url_download_abort,
}
use wolk_connect_task.FileManagement.Service.Run.{session_at, run_command, run_next}
use wolk_connect_task.FileManagement.Service.Storage.{IsStorage, IsUpload, Stored, run_next-Stored}

-- The session after an abort that came in time for its status to change.
abbrev pub aborted : FileTransferSession → FileTransferSession
aborted session = record session {
  chunks = [];
  done = true;
  status = FileTransferStatus.aborted;
  error = FileTransferError.none;
}

abbrev pub aborted_command : Text → FileTransferSession → Command
aborted_command k session =
    session_status session.identity k FileTransferStatus.aborted FileTransferError.none

module _ {Wire Fs : Type 0} (e : Surroundings Wire Fs) where
  on_file_upload_abort-lem :
      (k : Text) (session : FileTransferSession) (s : FileManagementService Wire Fs)
      → IsUpload k session s
      → session.status ≡ FileTransferStatus.file_ready
      → on_file_upload_abort k session.name s
        ≡ some (record s {
          sessions = insert k (some (aborted session)) s.sessions;
          command_buffer = s.command_buffer ++ aborted_command k session ∷ [];
        })
  unfolding on_file_upload_abort abort_session abort change_status_and_error perform
      FileTransferStatus-discrete
  on_file_upload_abort-lem k session s up ready =
      ground (arith, lookup-insert k k (some (aborted session)) s.sessions)

  -- An abort that comes while the FILE_READY of an upload waits in the buffer: the service reports
  -- FILE_READY all the same, and stores an empty file under the name of the upload.
  pub late_abort-empty :
      (fs : IsStorage e.file_system) (k : Text) (session : FileTransferSession)
      (rest : List Command) (s : FileManagementService Wire Fs)
      → IsUpload k session s
      → session.status ≡ FileTransferStatus.file_ready
      → s.command_buffer
        ≡ session_status session.identity k FileTransferStatus.file_ready FileTransferError.none
          ∷ rest
      → (t u : FileManagementService Wire Fs) × (on_file_upload_abort k session.name s ≡ some t)
        × (run_next e t ≡ some u)
        × Stored e k (aborted session) (rest ++ aborted_command k session ∷ []) t u
  late_abort-empty fs k session rest s up ready waiting =
      let t : FileManagementService Wire Fs = record s {
        sessions = insert k (some (aborted session)) s.sessions;
        command_buffer = s.command_buffer ++ aborted_command k session ∷ [];
      } in
      let (u, run, stored) =
        run_next-Stored e fs k (aborted session) (rest ++ aborted_command k session ∷ []) t
          (ground (arith, lookup-insert k k (some (aborted session)) s.sessions)) (ground arith) in
      (t, u, on_file_upload_abort-lem k session s up ready, run, stored)

  -- An abort that comes after the FILE_READY was run, while the deletion of the session waits: its
  -- own status is run after the deletion, on a session that is no more.
  abort-after_ready :
      (k : Text) (session : FileTransferSession) (s : FileManagementService Wire Fs)
      → IsUpload k session s
      → session.status ≡ FileTransferStatus.file_ready
      → s.command_buffer ≡ reset_session k ∷ []
      → (t u : FileManagementService Wire Fs) × (on_file_upload_abort k session.name s ≡ some t)
        × (run_next e t ≡ some u)
        × (run_next e u ≡ none)
  unfolding run_next run_command session_at
  abort-after_ready k session s up ready waiting =
      let t : FileManagementService Wire Fs = record s {
        sessions = insert k (some (aborted session)) s.sessions;
        command_buffer = s.command_buffer ++ aborted_command k session ∷ [];
      } in
      let u : FileManagementService Wire Fs = record t {
        sessions = insert k none t.sessions;
        command_buffer = aborted_command k session ∷ [];
      } in
      (
        t,
        u,
        on_file_upload_abort-lem k session s up ready,
        ground arith,
        ground (arith, lookup-insert k k none t.sessions),
      )

  -- When the deletion of a device's session was run, a message that aborts a download of the device
  -- dereferences a null session, whatever the path that it names.
  url_abort-after_reset :
      (k path : Text) (rest : List Command) (s : FileManagementService Wire Fs)
      → s.command_buffer ≡ reset_session k ∷ rest
      → (t : FileManagementService Wire Fs) × (run_next e s ≡ some t)
        × (on_file_url_download_abort k path t ≡ none)
  unfolding run_next run_command on_file_url_download_abort
  url_abort-after_reset k path rest s waiting =
      let t : FileManagementService Wire Fs = record s {
        command_buffer = rest;
        sessions = insert k none s.sessions;
      } in
      (t, ground arith, ground (arith, lookup-insert k k none s.sessions))

  -- While the deletion of a device's session waits, and nothing else does: an abort of the upload that
  -- is ready queues its status behind the deletion, and that status is run on a session that is no
  -- more; and once the deletion was run, an abort of a download dereferences a null session, whatever
  -- the path that it names.
  pub aborts-after_ready :
      (k path : Text) (session : FileTransferSession) (s : FileManagementService Wire Fs)
      → IsUpload k session s
      → session.status ≡ FileTransferStatus.file_ready
      → s.command_buffer ≡ reset_session k ∷ []
      → ((t u : FileManagementService Wire Fs) × (on_file_upload_abort k session.name s ≡ some t)
          × (run_next e t ≡ some u)
          × (run_next e u ≡ none))
        × ((t : FileManagementService Wire Fs) × (run_next e s ≡ some t)
            × (on_file_url_download_abort k path t ≡ none))
  aborts-after_ready k path session s up ready waiting =
      (abort-after_ready k session s up ready waiting, url_abort-after_reset k path [] s waiting)
