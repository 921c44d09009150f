-- ===== src/FileManagement/Service/Run.antt =====
-- FileManagementService::onFileSessionStatus, and the commands that the buffer runs.
use wolk_connect_task.Prelude.{
  ◌>>=◌, Text, ℕ, not, Option, none, some, [], ◌∷◌, nat_eq, text_eq, ◌==◌, if◌then◌else◌,
}
use wolk_connect_task.Prelude.Dict.{insert}
use wolk_connect_task.Sdk.{ByteArray, FileTransferStatus, FileTransferError}
use wolk_connect_task.FileManagement.Session.{
  FileTransferSession, is_platform_transfer, all_bytes, on_download_status,
}
use wolk_connect_task.FileManagement.Service.{
  Surroundings, FileManagementService, Command, session_status, reset_session, added_file,
  removed_file, push_command, session_of, perform, device_file_folder, report_status,
  absolute_path_of_file, notify_listener_added_file,
}
use wolk_connect_task.FileManagement.Service.Handlers.{update_session}

module _ {Wire Fs : Type 0} where
  -- The bytes of the chunks, or those of the downloader; `none` if that pointer is null.
  unfoldable pub content_of : FileTransferSession → FileManagementService Wire Fs → Option ByteArray
  content_of session s =
      if is_platform_transfer session
      then some (all_bytes session.chunks)
      else if s.downloader
      then some s.downloaded
      else none

  -- A callback reaches its session through the address that it holds; `none` if that session is
  -- no more.
  unfoldable pub session_at : ℕ → Text → FileManagementService Wire Fs → Option FileTransferSession
  session_at id device_key s = do
    session ← session_of device_key s
    if session.identity == id then some session else none

  -- The downloader reports on the session that it works for.
  unfoldable pub download_status :
      ℕ
      → Text
      → FileTransferStatus
      → FileTransferError
      → Text
      → FileManagementService Wire Fs
      → Option (FileManagementService Wire Fs)
  download_status id device_key status error file_name s = do
    session ← session_at id device_key s
    let (t, out) = on_download_status status error file_name session
    some (perform t out (update_session t s))

module _ {Wire Fs : Type 0} (e : Surroundings Wire Fs) where
  abbrev pub made_folder : Text → FileManagementService Wire Fs → FileManagementService Wire Fs
  made_folder folder s =
      if e.is_directory_present s.disk folder
      then s
      else record s { disk = e.create_directory s.disk folder }

  -- The case FILE_READY.
  unfoldable pub store_file :
      Text → FileManagementService Wire Fs → Option (FileManagementService Wire Fs)
  store_file device_key s = do
    session ← session_of device_key s
    let folder = device_file_folder e session.device_key s
    let t = made_folder folder s
    content ← content_of session t
    let (disk, created) =
        e.create_binary_file_with_content t.disk (e.compose_path session.name folder) content
    let u : FileManagementService Wire Fs = record t { disk = disk }
    if not created
        then report_status e device_key FileTransferStatus.error FileTransferError.file_system_error
            u
        else some (
            notify_listener_added_file device_key session.name
              (absolute_path_of_file e device_key session.name u) u)

  -- The switch: FILE_READY falls through to the deletion of the session.
  unfoldable pub close_session :
      FileTransferStatus
      → Text
      → FileManagementService Wire Fs
      → Option (FileManagementService Wire Fs)
  close_session FileTransferStatus.file_ready device_key s = do
    t ← store_file device_key s
    some (push_command (reset_session device_key) t)
  close_session FileTransferStatus.error device_key s =
      some (push_command (reset_session device_key) s)
  close_session FileTransferStatus.aborted device_key s =
      some (push_command (reset_session device_key) s)
  close_session FileTransferStatus.awaiting_device device_key s = some s
  close_session FileTransferStatus.file_transfer device_key s = some s

  unfoldable pub on_file_session_status :
      Text
      → FileTransferStatus
      → FileTransferError
      → FileManagementService Wire Fs
      → Option (FileManagementService Wire Fs)
  on_file_session_status device_key status error s = do
    t ← report_status e device_key status error s
    close_session status device_key t

  unfoldable pub run_command :
      Command → FileManagementService Wire Fs → Option (FileManagementService Wire Fs)
  run_command (session_status id device_key status error) s = do
    session ← session_at id device_key s
    if session.callback then on_file_session_status device_key status error s else some s
  run_command (reset_session device_key) s =
      some (record s { sessions = insert device_key none s.sessions })
  run_command (added_file device_key file_name path) s = some s
  run_command (removed_file device_key file_name) s = some s

  -- The buffer runs its oldest command.
  unfoldable pub run_next : FileManagementService Wire Fs → Option (FileManagementService Wire Fs)
  run_next s = elim s.command_buffer [
    | [] ↦ some s
    | command ∷ rest ↦ run_command command (record s { command_buffer = rest })
  ]
