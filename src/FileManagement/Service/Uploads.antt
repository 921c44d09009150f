-- ===== src/FileManagement/Service/Uploads.antt =====
-- Every upload stays sound, whatever message arrives: the handlers, one by one, and the whole switch.
use mathlib.Core.Path.{subst, sym}
use wolk_connect_task.Prelude.{
  Text, suc, ◌<◌, ◌≡◌, inl, inr, true, ◌||◌, Option, none, some, List, [], is_empty, arith,
  Option-cases, Bool-cases, text_eq, nat_eq, ◌==◌,
}
use wolk_connect_task.Prelude.Dict.{lookup-insert}
use wolk_connect_task.Sdk.{
  FileTransferStatus, FileTransferError, error_eq, Hashes, FileUploadInitiateMessage,
  FileBinaryResponseMessage,
}
use wolk_connect_task.FileManagement.Session.{
  FileTransferSession, Request, abort, reject_chunk, accept_chunk, push_chunk, upload_session,
  url_session, trigger_download, on_download_status,
}
use wolk_connect_task.FileManagement.Session.Invariant.{
  IsSound, upload_session-IsSound, abort-IsSound, push_chunk-IsSound,
}
use wolk_connect_task.FileManagement.Service.{
  Surroundings, FileManagementService, session_of, report_status, publish_message,
  send_chunk_request,
}
use wolk_connect_task.FileManagement.Service.Handlers.{
  update_session, abort_session, on_file_upload_init, on_file_upload_abort, on_file_binary_response,
  on_file_url_download_init, on_file_url_download_abort, message_received,
}
use wolk_connect_task.FileManagement.Service.Untouched.{dispatch_rule}
use wolk_connect_task.FileManagement.Service.Sessions.{perform-sessions}

-- A transfer of a file whose size was announced.
abbrev pub IsUpload : FileTransferSession → Type 0
IsUpload t = (t.url ≡ []) × (0 < t.size)

-- The kind of the transfer and the size that was announced stay.
abbrev pub IsLike : FileTransferSession → FileTransferSession → Type 0
IsLike s t = (t.url ≡ s.url) × (t.size ≡ s.size)

abort-IsLike :
    (s t : FileTransferSession) (out : List Request) → abort s ≡ some (t, out) → IsLike s t
unfolding abort
abort-IsLike s t out p = ground arith

push_chunk-IsLike :
    (h : Hashes) (s t : FileTransferSession) (m : FileBinaryResponseMessage) (e : FileTransferError)
    (out : List Request)
    → push_chunk h s m ≡ some (t, e, out)
    → IsLike s t
unfolding push_chunk reject_chunk accept_chunk
push_chunk-IsLike h s t m e out p = ground arith

pub on_download_status-IsLike :
    (status : FileTransferStatus) (error : FileTransferError) (file : Text)
    (s : FileTransferSession)
    → IsLike s (on_download_status status error file s).0
unfolding on_download_status
on_download_status-IsLike status error file s = ground arith

module _ {Wire Fs : Type 0} (e : Surroundings Wire Fs) where
  -- Every upload of every device is sound.
  abbrev pub UploadsSound : FileManagementService Wire Fs → Type 0
  UploadsSound s =
      (k : Text) (t : FileTransferSession)
      → session_of k s ≡ some t
      → IsUpload t
      → IsSound e.hashes t

  pub UploadsSound-eq :
      (s u : FileManagementService Wire Fs)
      → UploadsSound s
      → u.sessions ≡ s.sessions
      → UploadsSound u
  UploadsSound-eq s u sound same k t h = sound k t (ground arith)

  -- A session was made, or changed in place.
  pub UploadsSound-update :
      (s u : FileManagementService Wire Fs) (t : FileTransferSession)
      → UploadsSound s
      → (IsUpload t → IsSound e.hashes t)
      → u.sessions ≡ (update_session t s).sessions
      → UploadsSound u
  UploadsSound-update s u t sound new changed k v h upload = elim (Bool-cases (t.device_key == k)) [
    | inl hit ↦
        let same : t ≡ v = ground (arith, lookup-insert k t.device_key (some t) s.sessions) in
        subst (IsSound e.hashes) same (new (subst IsUpload (sym same) upload))
    | inr miss ↦ sound k v (ground (arith, lookup-insert k t.device_key (some t) s.sessions)) upload
  ]

  abort_session-UploadsSound :
      (s u : FileManagementService Wire Fs) (k : Text) (t : FileTransferSession)
      → UploadsSound s
      → session_of k s ≡ some t
      → abort_session t s ≡ some u
      → UploadsSound u
  unfolding abort_session
  abort_session-UploadsSound s u k t sound h p = elim (Option-cases (abort t)) [
    | inl bad ↦ absurd (ground arith)
    | inr (r, q) ↦
        let (url, size) = abort-IsLike t r.0 r.1 q in
        UploadsSound-update s u r.0 sound
          (λ upload. abort-IsSound e.hashes t r.0 r.1 (sound k t h (ground arith)) q)
          (ground (arith, perform-sessions r.0 r.1 (update_session r.0 s)))
  ]

  on_file_upload_abort-UploadsSound :
      (s u : FileManagementService Wire Fs) (k name : Text)
      → UploadsSound s
      → on_file_upload_abort k name s ≡ some u
      → UploadsSound u
  unfolding on_file_upload_abort
  on_file_upload_abort-UploadsSound s u k name sound p = elim (Option-cases (session_of k s)) [
    | inl free ↦ UploadsSound-eq s u sound (ground arith)
    | inr (t, h) ↦ elim (Bool-cases (t.name == name)) [
      | inl named ↦ abort_session-UploadsSound s u k t sound h (ground arith)
      | inr unnamed ↦ UploadsSound-eq s u sound (ground arith)
    ]
  ]

  on_file_url_download_abort-UploadsSound :
      (s u : FileManagementService Wire Fs) (k path : Text)
      → UploadsSound s
      → on_file_url_download_abort k path s ≡ some u
      → UploadsSound u
  unfolding on_file_url_download_abort
  on_file_url_download_abort-UploadsSound s u k path sound p =
      elim (Option-cases (session_of k s)) [
        | inl free ↦ UploadsSound-eq s u sound (ground arith)
        | inr (t, h) ↦ elim (Bool-cases (t.url == path)) [
          | inl named ↦ abort_session-UploadsSound s u k t sound h (ground arith)
          | inr unnamed ↦ UploadsSound-eq s u sound (ground arith)
        ]
      ]

  on_file_upload_init-UploadsSound :
      (s u : FileManagementService Wire Fs) (k : Text) (m : FileUploadInitiateMessage)
      → UploadsSound s
      → on_file_upload_init e k m s ≡ some u
      → UploadsSound u
  unfolding on_file_upload_init report_status send_chunk_request publish_message
  on_file_upload_init-UploadsSound s u k m sound p = elim (Option-cases (session_of k s)) [
    | inl free ↦ elim (Bool-cases (is_empty m.name || m.size == 0 || is_empty m.hash)) [
      | inl bad ↦ UploadsSound-eq s u sound (ground arith)
      | inr good ↦
          UploadsSound-update s u (upload_session s.next_session k m true) sound
            (λ upload. upload_session-IsSound e.hashes s.next_session k m upload.1) (ground arith)
    ]
    | inr (t, h) ↦ UploadsSound-eq s u sound (ground arith)
  ]

  on_file_url_download_init-UploadsSound :
      (s u : FileManagementService Wire Fs) (k path : Text)
      → UploadsSound s
      → on_file_url_download_init e k path s ≡ some u
      → UploadsSound u
  unfolding on_file_url_download_init report_status publish_message
  on_file_url_download_init-UploadsSound s u k path sound p = elim (Option-cases (session_of k s)) [
    | inl free ↦
        let t = url_session s.next_session k path true s.downloader in
        let made : FileManagementService Wire Fs = record (update_session t s) {
          next_session = suc s.next_session;
        } in
        UploadsSound-update s u t sound (λ upload. absurd (omega (arith, upload.1)))
          (ground (arith, perform-sessions t (trigger_download t).1 made))
    | inr (t, h) ↦ UploadsSound-eq s u sound (ground arith)
  ]

  binary_response-UploadsSound :
      (s u : FileManagementService Wire Fs) (k : Text) (m : FileBinaryResponseMessage)
      (t t' : FileTransferSession) (er : FileTransferError) (out : List Request)
      → UploadsSound s
      → session_of k s ≡ some t
      → push_chunk e.hashes t m ≡ some (t', er, out)
      → on_file_binary_response e k m s ≡ some u
      → UploadsSound u
  unfolding on_file_binary_response send_chunk_request publish_message
  binary_response-UploadsSound s u k m t t' er out sound h q p =
      elim (Bool-cases (is_empty t.url)) [
        | inl platform ↦
            let (url, size) = push_chunk-IsLike e.hashes t t' m er out q in
            UploadsSound-update s u t' sound
              (λ upload. push_chunk-IsSound e.hashes t t' m er out (sound k t h (ground arith)) q)
              (ground (arith, perform-sessions t' out (update_session t' s)))
        | inr url ↦ UploadsSound-eq s u sound (ground arith)
      ]

  on_file_binary_response-UploadsSound :
      (s u : FileManagementService Wire Fs) (k : Text) (m : FileBinaryResponseMessage)
      → UploadsSound s
      → on_file_binary_response e k m s ≡ some u
      → UploadsSound u
  unfolding on_file_binary_response
  on_file_binary_response-UploadsSound s u k m sound p = elim (Option-cases (session_of k s)) [
    | inl free ↦ UploadsSound-eq s u sound (ground arith)
    | inr (t, h) ↦ elim (Option-cases (push_chunk e.hashes t m)) [
      | inl bad ↦ UploadsSound-eq s u sound (ground arith)
      | inr (r, q) ↦ binary_response-UploadsSound s u k m t r.0 r.1 r.2 sound h q p
    ]
  ]

  pub message_received-UploadsSound :
      (message : Option Wire) (s u : FileManagementService Wire Fs)
      → UploadsSound s
      → message_received e message s ≡ some u
      → UploadsSound u
  unfolding message_received
  message_received-UploadsSound none s u sound p = UploadsSound-eq s u sound (ground arith)
  message_received-UploadsSound (some wire) s u sound p =
      let k = e.get_device_key wire in
      dispatch_rule e UploadsSound (e.get_message_type wire) k wire s u
        (λ t h. UploadsSound-eq s t sound h.0)
        (λ m t. on_file_upload_init-UploadsSound s t k m sound)
        (λ name t. on_file_upload_abort-UploadsSound s t k name sound)
        (λ m t. on_file_binary_response-UploadsSound s t k m sound)
        (λ path t. on_file_url_download_init-UploadsSound s t k path sound)
        (λ path t. on_file_url_download_abort-UploadsSound s t k path sound) p
