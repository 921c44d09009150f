-- ===== src/FileManagement/Service/Handlers.antt =====
-- FileManagementService::messageReceived and the handlers of the transfers.
use wolk_connect_task.Prelude.{
  ◌>>=◌, Text, suc, true, not, ◌||◌, Option, none, some, is_empty, text_eq, nat_eq, ◌==◌,
  if◌then◌else◌,
}
use wolk_connect_task.Prelude.Dict.{insert, lookup}
use wolk_connect_task.Sdk.{
  FileTransferStatus, FileTransferError, error_eq, FileUploadInitiateMessage,
  FileBinaryResponseMessage,
}
use wolk_connect_task.FileManagement.Session.{
  FileTransferSession, upload_session, url_session, is_platform_transfer, abort, push_chunk,
  get_next_chunk_request, trigger_download,
}
use wolk_connect_task.FileManagement.Service.{
  Surroundings, FileManagementService, MessageType, session_of, perform, report_status,
  send_chunk_request, report_transfer_protocol_disabled, report_url_transfer_protocol_disabled,
}
use wolk_connect_task.FileManagement.Service.MessageType.{
  file_upload_init, file_upload_abort, file_binary_response, file_url_download_init,
  file_url_download_abort, file_list_request, file_delete, file_purge, other,
}
use wolk_connect_task.FileManagement.Service.Files.{
  report_present_files, on_file_delete, on_file_purge,
}

module _ {Wire Fs : Type 0} where
  -- The session object changes in place.
  abbrev pub update_session :
      FileTransferSession → FileManagementService Wire Fs → FileManagementService Wire Fs
  update_session session s = record s {
    sessions = insert session.device_key (some session) s.sessions;
  }

  -- `m_sessions[deviceKey]->abort()`.
  unfoldable pub abort_session :
      FileTransferSession → FileManagementService Wire Fs → Option (FileManagementService Wire Fs)
  abort_session session s = do (t, out) ← abort session; some (perform t out (update_session t s))

  unfoldable pub on_file_upload_abort :
      Text → Text → FileManagementService Wire Fs → Option (FileManagementService Wire Fs)
  on_file_upload_abort device_key name s = elim (session_of device_key s) [
    | none ↦ some s
    | some session ↦ if session.name == name then abort_session session s else some s
  ]

  -- A device whose session was reset is found in the map, and its null session dereferenced.
  unfoldable pub on_file_url_download_abort :
      Text → Text → FileManagementService Wire Fs → Option (FileManagementService Wire Fs)
  on_file_url_download_abort device_key path s = elim (lookup device_key s.sessions) [
    | none ↦ some s
    | some none ↦ none
    | some (some session) ↦ if session.url == path then abort_session session s else some s
  ]

module _ {Wire Fs : Type 0} (e : Surroundings Wire Fs) where
  unfoldable pub on_file_upload_init :
      Text
      → FileUploadInitiateMessage
      → FileManagementService Wire Fs
      → Option (FileManagementService Wire Fs)
  on_file_upload_init device_key message s =
      if is_empty message.name || message.size == 0 || is_empty message.hash
      then some s
      else elim (session_of device_key s) [
        | some session ↦ some s
        | none ↦
            let session = upload_session s.next_session device_key message true in
            let t : FileManagementService Wire Fs = record (update_session session s) {
              next_session = suc s.next_session;
            } in
            let first = get_next_chunk_request session in
            if not (is_empty first.name)
            then (do
              u ←
                  report_status e device_key FileTransferStatus.file_transfer FileTransferError.none
                    t
              some (send_chunk_request e device_key first u))
            else some t
      ]

  unfoldable pub on_file_binary_response :
      Text
      → FileBinaryResponseMessage
      → FileManagementService Wire Fs
      → Option (FileManagementService Wire Fs)
  on_file_binary_response device_key message s = elim (session_of device_key s) [
    | none ↦ some s
    | some session ↦
        if is_platform_transfer session
        then (do
          (t, error, out) ← push_chunk e.hashes session message
          let u = perform t out (update_session t s)
          some (
              if error == FileTransferError.file_hash_mismatch || not t.done
              then send_chunk_request e device_key (get_next_chunk_request t) u
              else u))
        else some s
  ]

  unfoldable pub on_file_url_download_init :
      Text → Text → FileManagementService Wire Fs → Option (FileManagementService Wire Fs)
  on_file_url_download_init device_key path s = elim (session_of device_key s) [
    | some session ↦ some s
    | none ↦
        let session = url_session s.next_session device_key path true s.downloader in
        let t : FileManagementService Wire Fs = record (update_session session s) {
          next_session = suc s.next_session;
        } in
        let (triggered, out) = trigger_download session in
        report_status e device_key FileTransferStatus.file_transfer FileTransferError.none
          (perform session out t)
  ]

  -- The branches of the switch, on the type that the protocol gives the message.
  unfoldable pub dispatch :
      MessageType
      → Text
      → Wire
      → FileManagementService Wire Fs
      → Option (FileManagementService Wire Fs)
  dispatch file_upload_init target wire s = elim (e.parse_file_upload_init wire) [
    | none ↦ some s
    | some message ↦
        if s.file_transfer_enabled
        then on_file_upload_init target message s
        else some (report_transfer_protocol_disabled e target message.name s)
  ]
  dispatch file_upload_abort target wire s = elim (e.parse_file_upload_abort wire) [
    | none ↦ some s
    | some name ↦
        if s.file_transfer_enabled
        then on_file_upload_abort target name s
        else some (report_transfer_protocol_disabled e target name s)
  ]
  dispatch file_binary_response target wire s = elim (e.parse_file_binary_response wire) [
    | none ↦ some s
    | some message ↦
        if s.file_transfer_enabled then on_file_binary_response target message s else some s
  ]
  dispatch file_url_download_init target wire s = elim (e.parse_file_url_download_init wire) [
    | none ↦ some s
    | some path ↦
        if s.file_transfer_url_enabled
        then on_file_url_download_init target path s
        else some (report_url_transfer_protocol_disabled e target path s)
  ]
  dispatch file_url_download_abort target wire s = elim (e.parse_file_url_download_abort wire) [
    | none ↦ some s
    | some path ↦
        if s.file_transfer_url_enabled
        then on_file_url_download_abort target path s
        else some (report_url_transfer_protocol_disabled e target path s)
  ]
  dispatch file_list_request target wire s =
      if e.parse_file_list_request wire then some (report_present_files e target s) else some s
  dispatch file_delete target wire s = elim (e.parse_file_delete wire) [
    | none ↦ some s
    | some files ↦ some (on_file_delete e target files s)
  ]
  dispatch file_purge target wire s =
      if e.parse_file_purge wire then some (on_file_purge e target s) else some s
  dispatch other target wire s = some s

  -- The null message is `none`.
  unfoldable pub message_received :
      Option Wire → FileManagementService Wire Fs → Option (FileManagementService Wire Fs)
  message_received none s = some s
  message_received (some wire) s = dispatch (e.get_message_type wire) (e.get_device_key wire) wire s
