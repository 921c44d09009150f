-- ===== src/FileManagement/Service/Safety.antt =====
-- No message replaces the session of a device: the handlers, one by one, and the whole switch.
use wolk_connect_task.Prelude.{
  Text, suc, ◌≡◌, refl, inl, inr, true, ◌||◌, Option, none, some, List, is_empty, arith,
  Option-cases, Bool-cases, text_eq, nat_eq, ◌==◌,
}
use wolk_connect_task.Sdk.{
  FileTransferError, error_eq, FileUploadInitiateMessage, FileBinaryResponseMessage,
}
use wolk_connect_task.FileManagement.Session.{
  FileTransferSession, Request, push_chunk, upload_session, url_session, trigger_download,
}
use wolk_connect_task.FileManagement.Service.{
  Surroundings, FileManagementService, MessageType, session_of, report_status, publish_message,
  send_chunk_request,
}
use wolk_connect_task.FileManagement.Service.Handlers.{
  update_session, on_file_upload_init, on_file_binary_response, on_file_url_download_init,
  on_file_url_download_abort, dispatch, message_received,
}
use wolk_connect_task.FileManagement.Service.Untouched.{dispatch_rule}
use wolk_connect_task.FileManagement.Service.Sessions.{
  push_chunk-IsSame, IsWellFormed, Keeps, Keeps-eq, Keeps-update, Keeps-new, perform-sessions,
  abort_session-Keeps, on_file_upload_abort-Keeps,
}

module _ {Wire Fs : Type 0} (e : Surroundings Wire Fs) where
  binary_response-Keeps :
      (s u : FileManagementService Wire Fs) (k : Text) (m : FileBinaryResponseMessage)
      (t t' : FileTransferSession) (er : FileTransferError) (out : List Request)
      → IsWellFormed s
      → session_of k s ≡ some t
      → push_chunk e.hashes t m ≡ some (t', er, out)
      → on_file_binary_response e k m s ≡ some u
      → Keeps s u
  unfolding on_file_binary_response send_chunk_request publish_message
  binary_response-Keeps s u k m t t' er out w h q p = elim (Bool-cases (is_empty t.url)) [
    | inl platform ↦
        Keeps-update s u k t t' w h (push_chunk-IsSame e.hashes t t' m er out q)
          (ground (arith, perform-sessions t' out (update_session t' s)))
          (ground (arith, perform-sessions t' out (update_session t' s)))
    | inr url ↦ Keeps-eq s u w (ground arith) (ground arith)
  ]

  on_file_binary_response-Keeps :
      (s u : FileManagementService Wire Fs) (k : Text) (m : FileBinaryResponseMessage)
      → IsWellFormed s
      → on_file_binary_response e k m s ≡ some u
      → Keeps s u
  unfolding on_file_binary_response
  on_file_binary_response-Keeps s u k m w p = elim (Option-cases (session_of k s)) [
    | inl free ↦ Keeps-eq s u w (ground arith) (ground arith)
    | inr (t, h) ↦ elim (Option-cases (push_chunk e.hashes t m)) [
      | inl bad ↦ Keeps-eq s u w (ground arith) (ground arith)
      | inr (r, q) ↦ binary_response-Keeps s u k m t r.0 r.1 r.2 w h q p
    ]
  ]

  on_file_upload_init-Keeps :
      (s u : FileManagementService Wire Fs) (k : Text) (m : FileUploadInitiateMessage)
      → IsWellFormed s
      → on_file_upload_init e k m s ≡ some u
      → Keeps s u
  unfolding on_file_upload_init report_status send_chunk_request publish_message
  on_file_upload_init-Keeps s u k m w p = elim (Option-cases (session_of k s)) [
    | inl free ↦ elim (Bool-cases (is_empty m.name || m.size == 0 || is_empty m.hash)) [
      | inl bad ↦ Keeps-eq s u w (ground arith) (ground arith)
      | inr good ↦
          Keeps-new s u k (upload_session s.next_session k m true) w free refl refl (ground arith)
            (ground arith)
    ]
    | inr (t, h) ↦ Keeps-eq s u w (ground arith) (ground arith)
  ]

  on_file_url_download_init-Keeps :
      (s u : FileManagementService Wire Fs) (k path : Text)
      → IsWellFormed s
      → on_file_url_download_init e k path s ≡ some u
      → Keeps s u
  unfolding on_file_url_download_init report_status publish_message
  on_file_url_download_init-Keeps s u k path w p = elim (Option-cases (session_of k s)) [
    | inl free ↦
        let t = url_session s.next_session k path true s.downloader in
        let made : FileManagementService Wire Fs = record (update_session t s) {
          next_session = suc s.next_session;
        } in
        Keeps-new s u k t w free refl refl
          (ground (arith, perform-sessions t (trigger_download t).1 made))
          (ground (arith, perform-sessions t (trigger_download t).1 made))
    | inr (t, h) ↦ Keeps-eq s u w (ground arith) (ground arith)
  ]

  on_file_url_download_abort-Keeps :
      (s u : FileManagementService Wire Fs) (k path : Text)
      → IsWellFormed s
      → on_file_url_download_abort k path s ≡ some u
      → Keeps s u
  unfolding on_file_url_download_abort
  on_file_url_download_abort-Keeps s u k path w p = elim (Option-cases (session_of k s)) [
    | inl free ↦ Keeps-eq s u w (ground arith) (ground arith)
    | inr (t, h) ↦ ground (arith, abort_session-Keeps s u k t w h, Keeps-eq s u w)
  ]

  dispatch-Keeps :
      (type : MessageType) (k : Text) (wire : Wire) (s u : FileManagementService Wire Fs)
      → IsWellFormed s
      → dispatch e type k wire s ≡ some u
      → Keeps s u
  dispatch-Keeps type k wire s u w p =
      dispatch_rule e (Keeps s) type k wire s u (λ t h. Keeps-eq s t w h.0 h.1)
        (λ m t. on_file_upload_init-Keeps s t k m w)
        (λ name t. on_file_upload_abort-Keeps s t k name w)
        (λ m t. on_file_binary_response-Keeps s t k m w)
        (λ path t. on_file_url_download_init-Keeps s t k path w)
        (λ path t. on_file_url_download_abort-Keeps s t k path w) p

  -- Whatever message arrives, also one that cannot be parsed, and whatever the service does with it:
  -- every device that had a session has the same session object afterwards, and each session is
  -- still kept under its own device with a number that no other object gets.
  pub message_received-Keeps :
      (message : Option Wire) (s u : FileManagementService Wire Fs)
      → IsWellFormed s
      → message_received e message s ≡ some u
      → Keeps s u
  unfolding message_received
  message_received-Keeps none s u w p = Keeps-eq s u w (ground arith) (ground arith)
  message_received-Keeps (some wire) s u w p =
      dispatch-Keeps (e.get_message_type wire) (e.get_device_key wire) wire s u w p
