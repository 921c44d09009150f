-- ===== src/FileManagement/Service.antt =====
-- wolk/service/file_management/FileManagementService.{h,cpp}: the service's state, and the methods
-- that report. The commands that it pushes on its `CommandBuffer` are data, run by `Service.Run`.
-- `none` is undefined behaviour: a null session dereferenced, or a session used after its end.
pub mod Files
pub mod Handlers
pub mod Run
pub mod Sessions
pub mod Untouched
pub mod Safety
pub mod Uploads
pub mod Reachable
pub mod Storage
pub mod Aborts
use wolk_connect_task.Prelude.{
  Text, ℕ, Bool, true, false, Option, none, some, List, [], ◌∷◌, ◌++◌, text_eq, ◌==◌, if◌then◌else◌,
}
use wolk_connect_task.Prelude.Dict.{Dict, lookup}
use wolk_connect_task.Sdk.{
  ByteArray, FileTransferStatus, FileTransferError, FileInformation, FileSystem, Hashes,
  FileUploadInitiateMessage, FileBinaryResponseMessage, FileBinaryRequestMessage,
}
use wolk_connect_task.FileManagement.Session.{
  FileTransferSession, Request, notify, is_platform_transfer,
}

-- What the service asks the protocol to serialize.
pub data Outbound : Type 0 where
  file_upload_status : Text → FileTransferStatus → FileTransferError → Outbound
  file_url_download_status : Text → Text → FileTransferStatus → FileTransferError → Outbound
  file_binary_request : FileBinaryRequestMessage → Outbound
  file_list_response : List FileInformation → Outbound

pub data MessageType : Type 0 where
  file_upload_init file_upload_abort file_binary_response file_url_download_init
        file_url_download_abort file_list_request file_delete file_purge other :
      MessageType

-- `FileManagementProtocol`, over the messages as they are sent.
pub record FileManagementProtocol (Wire : Type 0) : Type 0 where
  pub get_message_type : Wire → MessageType
  pub get_device_key : Wire → Text
  pub parse_file_upload_init : Wire → Option FileUploadInitiateMessage
  pub parse_file_upload_abort : Wire → Option Text
  pub parse_file_binary_response : Wire → Option FileBinaryResponseMessage
  pub parse_file_url_download_init : Wire → Option Text
  pub parse_file_url_download_abort : Wire → Option Text
  pub parse_file_list_request : Wire → Bool
  pub parse_file_delete : Wire → Option (List Text)
  pub parse_file_purge : Wire → Bool
  pub make_outbound_message : Text → Outbound → Option Wire

-- What the service is built on.
pub record Surroundings (Wire Fs : Type 0) : Type 0 where
  pub protocol : FileManagementProtocol Wire
  pub open protocol use *
  pub file_system : FileSystem Fs
  pub open file_system use *
  pub hashes : Hashes
  pub open hashes use *

-- The functions that wait in the command buffer: a session's callback, the deletion of a device's
-- session, and the two calls of the listener.
pub data Command : Type 0 where
  session_status : ℕ → Text → FileTransferStatus → FileTransferError → Command
  reset_session : Text → Command
  added_file : Text → Text → Text → Command
  removed_file : Text → Text → Command

-- The calls of the downloader.
pub data DownloaderCall : Type 0 where
  abort_download : DownloaderCall
  download_file : Text → ℕ → DownloaderCall

-- A device in `sessions` with `none` is one whose `unique_ptr` is null. `sent` lists what was
-- published, `next_session` names the next session object, `downloaded` is what the downloader's
-- `getBytes` returns, and `listening` says that the `weak_ptr` to the listener still locks.
pub record FileManagementService (Wire Fs : Type 0) : Type 0 where
  pub file_transfer_enabled : Bool
  pub file_transfer_url_enabled : Bool
  pub file_location : Text
  pub files : Dict Text (Dict Text FileInformation)
  pub sessions : Dict Text (Option FileTransferSession)
  pub downloader : Bool
  pub downloaded : ByteArray
  pub listening : Bool
  pub command_buffer : List Command
  pub sent : List Wire
  pub calls : List DownloaderCall
  pub next_session : ℕ
  pub disk : Fs

-- What `publish` is given, if the protocol serialized something.
abbrev pub wires {ℓ} : {Wire : Type ℓ} → Option Wire → List Wire
wires none = []
wires (some wire) = wire ∷ []

-- The status of a session, by its kind.
unfoldable pub status_message :
    FileTransferSession → FileTransferStatus → FileTransferError → Outbound
status_message session status error =
    if is_platform_transfer session
    then file_upload_status session.name status error
    else file_url_download_status session.url session.name status error

module _ {Wire Fs : Type 0} where
  abbrev pub push_command : Command → FileManagementService Wire Fs → FileManagementService Wire Fs
  push_command c s = record s { command_buffer = s.command_buffer ++ c ∷ [] }

  -- `m_sessions.find(deviceKey) != m_sessions.cend() && m_sessions[deviceKey] != nullptr`.
  abbrev pub session_of : Text → FileManagementService Wire Fs → Option FileTransferSession
  session_of device_key s = elim (lookup device_key s.sessions) [ none ↦ none | some slot ↦ slot ]

  -- What a session asked for, carried out on the service.
  unfoldable pub perform :
      FileTransferSession
      → List Request
      → FileManagementService Wire Fs
      → FileManagementService Wire Fs
  perform session [] s = s
  perform session (notify status error ∷ out) s =
      perform session out
        (push_command (session_status session.identity session.device_key status error) s)
  perform session (Request.abort_download ∷ out) s =
      perform session out (record s { calls = s.calls ++ DownloaderCall.abort_download ∷ [] })
  perform session (Request.download_file url ∷ out) s =
      perform session out
        (record s { calls = s.calls ++ DownloaderCall.download_file url session.identity ∷ [] })

  unfoldable pub notify_listener_added_file :
      Text → Text → Text → FileManagementService Wire Fs → FileManagementService Wire Fs
  notify_listener_added_file device_key file_name absolute_path s =
      if s.listening then push_command (added_file device_key file_name absolute_path) s else s

  unfoldable pub notify_listener_removed_file :
      Text → Text → FileManagementService Wire Fs → FileManagementService Wire Fs
  notify_listener_removed_file device_key file_name s =
      if s.listening then push_command (removed_file device_key file_name) s else s

module _ {Wire Fs : Type 0} (e : Surroundings Wire Fs) where
  -- Serialize, and publish what came out; the result of `publish` is not looked at.
  unfoldable pub publish_message :
      Text → Outbound → FileManagementService Wire Fs → FileManagementService Wire Fs
  publish_message device_key message s = elim (e.make_outbound_message device_key message) [
    | none ↦ s
    | some wire ↦ record s { sent = s.sent ++ wire ∷ [] }
  ]

  unfoldable pub report_status :
      Text
      → FileTransferStatus
      → FileTransferError
      → FileManagementService Wire Fs
      → Option (FileManagementService Wire Fs)
  report_status device_key status error s = elim (lookup device_key s.sessions) [
    | none ↦ some s
    | some none ↦ none
    | some (some session) ↦
        some (publish_message device_key (status_message session status error) s)
  ]

  unfoldable pub send_chunk_request :
      Text
      → FileBinaryRequestMessage
      → FileManagementService Wire Fs
      → FileManagementService Wire Fs
  send_chunk_request device_key message = publish_message device_key (file_binary_request message)

  unfoldable pub report_transfer_protocol_disabled :
      Text → Text → FileManagementService Wire Fs → FileManagementService Wire Fs
  report_transfer_protocol_disabled device_key file_name = publish_message device_key (
      file_upload_status file_name FileTransferStatus.error
        FileTransferError.transfer_protocol_disabled)

  unfoldable pub report_url_transfer_protocol_disabled :
      Text → Text → FileManagementService Wire Fs → FileManagementService Wire Fs
  report_url_transfer_protocol_disabled device_key url = publish_message device_key (
      file_url_download_status url [] FileTransferStatus.error
        FileTransferError.transfer_protocol_disabled)

  abbrev pub device_file_folder : Text → FileManagementService Wire Fs → Text
  device_file_folder device_key s = e.compose_path device_key s.file_location

  unfoldable pub absolute_path_of_file : Text → Text → FileManagementService Wire Fs → Text
  absolute_path_of_file device_key file s =
      e.absolute_path (e.compose_path file (device_file_folder device_key s))
