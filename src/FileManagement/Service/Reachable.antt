-- ===== src/FileManagement/Service/Reachable.antt =====
-- What holds in every state that the service reaches, whatever messages arrive, whenever its command
-- buffer runs and whenever the downloader reports.
use wolk_connect_task.Prelude.{
  Text, ℕ, ◌≡◌, refl, inl, inr, false, Option, none, some, [], arith, Option-cases, Bool-cases,
  List-cases, text_eq, nat_eq,
}
use wolk_connect_task.Prelude.Dict.{lookup, lookup-insert}
use wolk_connect_task.Sdk.{FileTransferStatus, FileTransferError, error_eq}
use wolk_connect_task.FileManagement.Session.{
  FileTransferSession, is_platform_transfer, on_download_status,
}
use wolk_connect_task.FileManagement.Session.Invariant.{IsSound}
use wolk_connect_task.FileManagement.Service.{
  Surroundings, FileManagementService, Command, session_status, reset_session, added_file,
  removed_file, session_of, report_status, publish_message, notify_listener_added_file,
}
use wolk_connect_task.FileManagement.Service.Handlers.{update_session, message_received}
use wolk_connect_task.FileManagement.Service.Run.{
  session_at, download_status, store_file, close_session, on_file_session_status, run_command,
  run_next,
}
use wolk_connect_task.FileManagement.Service.Untouched.{Untouched, report_status-Untouched}
use wolk_connect_task.FileManagement.Service.Uploads.{
  IsUpload, on_download_status-IsLike, UploadsSound, UploadsSound-eq, UploadsSound-update,
  message_received-UploadsSound,
}
use wolk_connect_task.FileManagement.Service.Sessions.{perform-sessions}

module _ {Wire Fs : Type 0} (e : Surroundings Wire Fs) where
  store_file-Untouched :
      (k : Text) (s u : FileManagementService Wire Fs) → store_file e k s ≡ some u → Untouched e s u
  unfolding store_file report_status publish_message notify_listener_added_file
  store_file-Untouched k s u p = ground arith

  close_session-Untouched :
      (status : FileTransferStatus) (k : Text) (s u : FileManagementService Wire Fs)
      → close_session e status k s ≡ some u
      → Untouched e s u
  unfolding close_session
  close_session-Untouched FileTransferStatus.file_ready k s u p =
      elim (Option-cases (store_file e k s)) [
        | inl bad ↦ absurd (ground arith)
        | inr (t, q) ↦ ground (arith, store_file-Untouched k s t q)
      ]
  close_session-Untouched FileTransferStatus.error k s u p = ground arith
  close_session-Untouched FileTransferStatus.aborted k s u p = ground arith
  close_session-Untouched FileTransferStatus.awaiting_device k s u p = ground arith
  close_session-Untouched FileTransferStatus.file_transfer k s u p = ground arith

  on_file_session_status-Untouched :
      (k : Text) (status : FileTransferStatus) (error : FileTransferError)
      (s u : FileManagementService Wire Fs)
      → on_file_session_status e k status error s ≡ some u
      → Untouched e s u
  unfolding on_file_session_status
  on_file_session_status-Untouched k status error s u p =
      elim (Option-cases (report_status e k status error s)) [
        | inl bad ↦ absurd (ground arith)
        | inr (t, q) ↦
            let reported = report_status-Untouched e k status error s t q in
            ground (arith, close_session-Untouched status k t u)
      ]

  run_command-UploadsSound :
      (c : Command) (s u : FileManagementService Wire Fs)
      → UploadsSound e s
      → run_command e c s ≡ some u
      → UploadsSound e u
  unfolding run_command
  run_command-UploadsSound (session_status id k status error) s u sound p =
      elim (Option-cases (session_at id k s)) [
        | inl bad ↦ absurd (ground arith)
        | inr (t, q) ↦ elim (Bool-cases t.callback) [
          | inl on ↦
              UploadsSound-eq e s u sound
                (on_file_session_status-Untouched k status error s u (ground arith)).0
          | inr off ↦ UploadsSound-eq e s u sound (ground arith)
        ]
      ]
  run_command-UploadsSound (reset_session k) s u sound p = λ j t h upload.
      sound j t (ground (arith, lookup-insert {V = Option FileTransferSession} j k none s.sessions))
        upload
  run_command-UploadsSound (added_file k name path) s u sound p =
      UploadsSound-eq e s u sound (ground arith)
  run_command-UploadsSound (removed_file k name) s u sound p =
      UploadsSound-eq e s u sound (ground arith)

  run_next-UploadsSound :
      (s u : FileManagementService Wire Fs)
      → UploadsSound e s
      → run_next e s ≡ some u
      → UploadsSound e u
  unfolding run_next
  run_next-UploadsSound s u sound p = elim (List-cases s.command_buffer) [
    | inl idle ↦ UploadsSound-eq e s u sound (ground arith)
    | inr (c, rest, waiting) ↦
        let t : FileManagementService Wire Fs = record s { command_buffer = rest } in
        run_command-UploadsSound c t u (UploadsSound-eq e s t sound refl) (ground arith)
  ]

  download_status-UploadsSound :
      (id : ℕ) (k : Text) (status : FileTransferStatus) (error : FileTransferError) (file : Text)
      (s u : FileManagementService Wire Fs) (t : FileTransferSession)
      → UploadsSound e s
      → session_at id k s ≡ some t
      → is_platform_transfer t ≡ false
      → download_status id k status error file s ≡ some u
      → UploadsSound e u
  unfolding download_status
  download_status-UploadsSound id k status error file s u t sound found url p =
      let (t', out) = on_download_status status error file t in
      let (same, size) = on_download_status-IsLike status error file t in
      UploadsSound-update e s u t' sound (λ upload. absurd (ground arith))
        (ground (arith, perform-sessions t' out (update_session t' s)))

  -- A step of the service: a message arrives, the buffer runs its oldest command, or the downloader
  -- reports on a session of a URL.
  pub data Step (s u : FileManagementService Wire Fs) : Type 0 where
    arrival : (message : Option Wire) → message_received e message s ≡ some u → Step s u
    command : run_next e s ≡ some u → Step s u
    download :
        (id : ℕ) (k : Text) (status : FileTransferStatus) (error : FileTransferError) (file : Text)
        (t : FileTransferSession)
        → session_at id k s ≡ some t
        → is_platform_transfer t ≡ false
        → download_status id k status error file s ≡ some u
        → Step s u

  pub data Reach (s : FileManagementService Wire Fs) : FileManagementService Wire Fs → Type 0 where
    here : Reach s s
    next : {t u : FileManagementService Wire Fs} → Reach s t → Step t u → Reach s u

  Step-UploadsSound :
      {s u : FileManagementService Wire Fs} → Step s u → UploadsSound e s → UploadsSound e u
  Step-UploadsSound {s} {u} (arrival message p) sound =
      message_received-UploadsSound e message s u sound p
  Step-UploadsSound {s} {u} (command p) sound = run_next-UploadsSound s u sound p
  Step-UploadsSound {s} {u} (download id k status error file t found url p) sound =
      download_status-UploadsSound id k status error file s u t sound found url p

  Reach-UploadsSound :
      {s u : FileManagementService Wire Fs} → UploadsSound e s → Reach s u → UploadsSound e u
  Reach-UploadsSound sound here = sound
  Reach-UploadsSound sound (next reach step) =
      Step-UploadsSound step (Reach-UploadsSound sound reach)

  -- In every state that a service without sessions reaches, in any order of messages, of commands
  -- that are run and of reports of the downloader: the session of a device that transfers a file of an
  -- announced size has linked and verified chunks, waits only while bytes are missing and fewer than
  -- four attempts failed, and when its status is FILE_READY, its bytes have the announced hash and are
  -- at least as many as announced.
  pub Reach-IsSound :
      {s u : FileManagementService Wire Fs} (k : Text) (t : FileTransferSession)
      → s.sessions ≡ []
      → Reach s u
      → session_of k u ≡ some t
      → IsUpload t
      → IsSound e.hashes t
  unfolding lookup
  Reach-IsSound {s} {u} k t empty reach =
      Reach-UploadsSound {s = s} {u = u} (λ j v h upload. absurd (ground arith)) reach k t
