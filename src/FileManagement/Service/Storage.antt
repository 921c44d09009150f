-- ===== src/FileManagement/Service/Storage.antt =====
-- FileManagementService::onFileSessionStatus together with the command buffer: what becomes of a
-- session that is ready, and what an abort does that comes while commands wait.
use wolk_connect_task.Prelude.{
  Text, ◌≡◌, Bool, true, false, ◌&&◌, some, List, [], ◌∷◌, ◌++◌, arith, append_assoc, append-nil,
  Option-cases, Bool-cases, ◌⊎◌, inl, inr, nat_eq, text_eq, if◌then◌else◌,
}
use wolk_connect_task.Prelude.Dict.{lookup}
use wolk_connect_task.Sdk.{
  ByteArray, FileSystem, FileTransferStatus, FileTransferError, status_eq, error_eq,
}
use wolk_connect_task.FileManagement.Session.{FileTransferSession, is_platform_transfer, all_bytes}
use wolk_connect_task.FileManagement.Service.{
  Surroundings, FileManagementService, Command, session_status, reset_session, added_file,
  status_message, Outbound, file_upload_status, wires, session_of, device_file_folder,
  report_status, publish_message, absolute_path_of_file, notify_listener_added_file,
}
use wolk_connect_task.FileManagement.Service.Run.{
  content_of, session_at, made_folder, store_file, close_session, on_file_session_status,
  run_command, run_next,
}

-- What the service relies on in the helpers: a file that was created reads back as its content.
pub record IsStorage {Fs : Type 0} (f : FileSystem Fs) : Type 0 where
  pub read-created :
      (d : Fs) (path : Text) (content : ByteArray)
      → (f.create_binary_file_with_content d path content).1 ≡ true
      → f.read_binary_file_content (f.create_binary_file_with_content d path content).0 path
        ≡ some content

module _ {Wire Fs : Type 0} where
  -- The session of the device is an upload whose status the service listens to.
  abbrev pub IsUpload : Text → FileTransferSession → FileManagementService Wire Fs → Type 0
  IsUpload k session s =
      (session_of k s ≡ some session)
      × (session.device_key ≡ k)
      × (session.callback ≡ true)
      × (is_platform_transfer session ≡ true)

module _ {Wire Fs : Type 0} (e : Surroundings Wire Fs) where
  publish_message-sent :
      (k : Text) (m : Outbound) (s : FileManagementService Wire Fs)
      → publish_message e k m s ≡ record s { sent = s.sent ++ wires (e.make_outbound_message k m) }
  unfolding publish_message
  publish_message-sent k m s = elim (Option-cases (e.make_outbound_message k m)) [
    | inl none_made ↦ ground (arith, append-nil s.sent)
    | inr (wire, made) ↦ ground arith
  ]

  report_status-sent :
      (k : Text) (session : FileTransferSession) (status : FileTransferStatus)
      (error : FileTransferError) (s : FileManagementService Wire Fs)
      → session_of k s ≡ some session
      → report_status e k status error s
        ≡ some (record s {
          sent = s.sent ++ wires (e.make_outbound_message k (status_message session status error));
        })
  unfolding report_status
  report_status-sent k session status error s found = elim (Option-cases (lookup k s.sessions)) [
    | inl absent ↦ ground arith
    | inr (slot, present) ↦
        ground (arith, publish_message-sent k (status_message session status error) s)
  ]

  -- The path of the file, the folder that is made for it, and what is published, queued and stored.
  abbrev pub path_of : Text → FileTransferSession → FileManagementService Wire Fs → Text
  path_of k session s = e.compose_path session.name (device_file_folder e k s)

  abbrev pub made_disk : Text → Fs → Fs
  made_disk folder disk =
      if e.is_directory_present disk folder then disk else e.create_directory disk folder

  abbrev pub is_created : Text → FileTransferSession → FileManagementService Wire Fs → Bool
  is_created k session s =
      (e.create_binary_file_with_content (made_disk (device_file_folder e k s) s.disk)
        (path_of k session s) (all_bytes session.chunks)).1

  abbrev pub upload_wires :
      Text → FileTransferSession → FileTransferStatus → FileTransferError → List Wire
  upload_wires k session status error =
      wires (e.make_outbound_message k (file_upload_status session.name status error))

  -- What is reported and told of the creation of the file.
  abbrev pub failure : Text → FileTransferSession → FileManagementService Wire Fs → List Wire
  failure k session s =
      if is_created k session s
      then []
      else upload_wires k session FileTransferStatus.error FileTransferError.file_system_error

  abbrev pub told : Text → FileTransferSession → FileManagementService Wire Fs → List Command
  told k session s =
      if is_created k session s && s.listening
      then added_file k session.name (e.absolute_path (path_of k session s)) ∷ []
      else []

  abbrev pub disk_after : Text → FileTransferSession → FileManagementService Wire Fs → Fs
  disk_after k session s =
      (e.create_binary_file_with_content (made_disk (device_file_folder e k s) s.disk)
        (path_of k session s) (all_bytes session.chunks)).0

  made_folder-disk :
      (folder : Text) (s : FileManagementService Wire Fs)
      → made_folder e folder s ≡ record s { disk = made_disk folder s.disk }
  made_folder-disk folder s = ground arith

  store_file-lem :
      (k : Text) (session : FileTransferSession) (s : FileManagementService Wire Fs)
      → IsUpload k session s
      → store_file e k s
        ≡ some (record s {
          disk = disk_after k session s;
          sent = s.sent ++ failure k session s;
          command_buffer = s.command_buffer ++ told k session s;
        })
  unfolding store_file content_of notify_listener_added_file absolute_path_of_file status_message
  store_file-lem k session s up =
      let made = made_folder e (device_file_folder e k s) s in
      let v : FileManagementService Wire Fs = record made { disk = disk_after k session s } in
      elim (Bool-cases (is_created k session s)) [
        | inl yes_ ↦ ground (
          arith,
          made_folder-disk (device_file_folder e k s) s,
          append-nil s.sent,
          append-nil s.command_buffer,
        )
        | inr no_ ↦ ground (
          arith,
          made_folder-disk (device_file_folder e k s) s,
          report_status-sent k session FileTransferStatus.error FileTransferError.file_system_error
              v,
          append-nil s.command_buffer,
        )
      ]

  -- What the run of a ready upload leaves.
  abbrev pub Stored :
      Text
      → FileTransferSession
      → List Command
      → FileManagementService Wire Fs
      → FileManagementService Wire Fs
      → Type 0
  Stored k session rest s t =
      (t.sent
        ≡ s.sent
          ++ (upload_wires k session FileTransferStatus.file_ready FileTransferError.none
              ++ failure k session s))
      × (t.command_buffer ≡ rest ++ (told k session s ++ reset_session k ∷ []))
      × ((is_created k session s ≡ false)
          ⊎ (e.read_binary_file_content t.disk (path_of k session s)
              ≡ some (all_bytes session.chunks)))

  -- When the buffer runs the FILE_READY of an upload: FILE_READY is reported, the folder is made,
  -- and the file then reads back as the bytes of the chunks, with the listener told if there is
  -- one; if it cannot be created, FILE_SYSTEM_ERROR is reported instead. In both cases the deletion
  -- of the session is queued behind what waits.
  pub run_next-Stored :
      (fs : IsStorage e.file_system) (k : Text) (session : FileTransferSession)
      (rest : List Command) (s : FileManagementService Wire Fs)
      → IsUpload k session s
      → s.command_buffer
        ≡ session_status session.identity k FileTransferStatus.file_ready FileTransferError.none
          ∷ rest
      → (t : FileManagementService Wire Fs) × (run_next e s ≡ some t) × Stored k session rest s t
  unfolding run_next run_command session_at on_file_session_status close_session status_message
  run_next-Stored fs k session rest s up waiting =
      let status = FileTransferStatus.file_ready in
      let started : FileManagementService Wire Fs = record s { command_buffer = rest } in
      let reported : FileManagementService Wire Fs = record started {
        sent = s.sent ++ upload_wires k session status FileTransferError.none;
      } in
      let t : FileManagementService Wire Fs = record reported {
        disk = disk_after k session reported;
        sent = reported.sent ++ failure k session reported;
        command_buffer = (rest ++ told k session reported) ++ reset_session k ∷ [];
      } in
      (
        t,
        ground (
          arith,
          report_status-sent k session status FileTransferError.none started,
          store_file-lem k session reported,
        ),
        (
          ground (
            arith,
            append_assoc s.sent (upload_wires k session status FileTransferError.none)
                (failure k session s),
          ),
          append_assoc rest (told k session s) (reset_session k ∷ []),
          elim (Bool-cases (is_created k session s)) [
            | inl created ↦ inr (
                fs.read-created (made_disk (device_file_folder e k s) s.disk) (path_of k session s)
                  (all_bytes session.chunks) created)
            | inr failed ↦ inl failed
          ],
        ),
      )
