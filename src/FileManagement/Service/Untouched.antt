-- ===== src/FileManagement/Service/Untouched.antt =====
-- What leaves the sessions of the devices alone, and the rule for the switch over the messages.
use wolk_connect_task.Prelude.{
  Text, ◌≡◌, refl, inl, inr, Bool, true, false, Option, none, some, List, [], ◌∷◌, arith,
  Option-cases, if◌then◌else◌,
}
use mathlib.Core.Path.{subst}
use wolk_connect_task.Prelude.Dict.{Dict}
use wolk_connect_task.Sdk.{
  FileTransferStatus, FileTransferError, FileInformation, FileUploadInitiateMessage,
  FileBinaryResponseMessage,
}
use wolk_connect_task.FileManagement.Service.{
  Surroundings, FileManagementService, MessageType, report_status, publish_message,
  report_transfer_protocol_disabled, report_url_transfer_protocol_disabled,
  notify_listener_added_file, notify_listener_removed_file, Outbound, device_file_folder,
}
use wolk_connect_task.FileManagement.Service.MessageType.{
  file_upload_init, file_upload_abort, file_binary_response, file_url_download_init,
  file_url_download_abort, file_list_request, file_delete, file_purge, other,
}
use wolk_connect_task.FileManagement.Service.Files.{
  collect_files, scan_folder, keep_present, registry_of, report_present_files, delete_file,
  delete_files, on_file_delete, on_file_purge,
}
use wolk_connect_task.FileManagement.Service.Handlers.{
  on_file_upload_init, on_file_upload_abort, on_file_binary_response, on_file_url_download_init,
  on_file_url_download_abort, dispatch,
}

module _ {Wire Fs : Type 0} (e : Surroundings Wire Fs) where
  -- The sessions and their numbers, which most operations leave alone.
  abbrev pub Untouched : FileManagementService Wire Fs → FileManagementService Wire Fs → Type 0
  Untouched s u = (u.sessions ≡ s.sessions) × (u.next_session ≡ s.next_session)

  pub publish_message-Untouched :
      (k : Text) (m : Outbound) (s : FileManagementService Wire Fs)
      → Untouched s (publish_message e k m s)
  unfolding publish_message
  publish_message-Untouched k m s = ground arith

  pub report_status-Untouched :
      (k : Text) (st : FileTransferStatus) (er : FileTransferError)
      (s u : FileManagementService Wire Fs)
      → report_status e k st er s ≡ some u
      → Untouched s u
  unfolding report_status publish_message
  report_status-Untouched k st er s u p = ground arith

  collect_files-Untouched :
      (k : Text) (content : List Text) (r : Dict Text FileInformation)
      (infos : List FileInformation) (s : FileManagementService Wire Fs)
      → Untouched s (collect_files e k content r infos s).2
  unfolding collect_files notify_listener_added_file
  collect_files-Untouched k [] r infos s = (refl, refl)
  collect_files-Untouched k (f ∷ content) r infos s =
      grind (arith, collect_files-Untouched k content)

  report_present_files-Untouched :
      (k : Text) (s : FileManagementService Wire Fs) → Untouched s (report_present_files e k s)
  unfolding report_present_files scan_folder publish_message
  report_present_files-Untouched k s = ground (
    arith,
    collect_files-Untouched k (e.list_files s.disk (device_file_folder e k s))
        (keep_present (e.list_files s.disk (device_file_folder e k s)) (registry_of e k s)) [] s,
  )

  delete_file-Untouched :
      (k f : Text) (s : FileManagementService Wire Fs) → Untouched s (delete_file e k f s)
  unfolding delete_file notify_listener_removed_file
  delete_file-Untouched k f s = ground arith

  delete_files-Untouched :
      (k : Text) (fs : List Text) (s : FileManagementService Wire Fs)
      → Untouched s (delete_files e k fs s)
  unfolding delete_files
  delete_files-Untouched k [] s = (refl, refl)
  delete_files-Untouched k (f ∷ fs) s =
      ground (arith, delete_file-Untouched k f s, delete_files-Untouched k fs (delete_file e k f s))

  on_files-Untouched :
      (k : Text) (fs : List Text) (s : FileManagementService Wire Fs)
      → Untouched s (on_file_delete e k fs s) × Untouched s (on_file_purge e k s)
  unfolding on_file_delete on_file_purge
  on_files-Untouched k fs s =
      let all = e.list_files s.disk (device_file_folder e k s) in
      ground (
        arith,
        delete_files-Untouched k fs s,
        report_present_files-Untouched k (delete_files e k fs s),
        delete_files-Untouched k all s,
        report_present_files-Untouched k (delete_files e k all s),
      )

  -- A parsed message, a flag, and what is done with it on and off.
  gated_rule {ℓ} :
      {A : Type ℓ} (P : FileManagementService Wire Fs → Type 0) (o : Option A) (on : Bool)
      (s u : FileManagementService Wire Fs) (handler : A → Option (FileManagementService Wire Fs))
      (refuse : A → FileManagementService Wire Fs)
      → ((t : FileManagementService Wire Fs) → Untouched s t → P t)
      → ((a : A) (t : FileManagementService Wire Fs) → handler a ≡ some t → P t)
      → ((a : A) → Untouched s (refuse a))
      → (elim o [ none ↦ some s | some a ↦ if on then handler a else some (refuse a) ]) ≡ some u
      → P u
  gated_rule P none on s u handler refuse kept handled off p = subst P (cc) (kept s (refl, refl))
  gated_rule P (some a) true s u handler refuse kept handled off p = handled a u p
  gated_rule P (some a) false s u handler refuse kept handled off p =
      subst P (cc) (kept (refuse a) (off a))

  -- What holds of all that leaves the sessions alone, and after each handler of a transfer, holds
  -- after the switch.
  pub dispatch_rule :
      (P : FileManagementService Wire Fs → Type 0) (type : MessageType) (k : Text) (wire : Wire)
      (s u : FileManagementService Wire Fs)
      → ((t : FileManagementService Wire Fs) → Untouched s t → P t)
      → ((m : FileUploadInitiateMessage) (t : FileManagementService Wire Fs)
          → on_file_upload_init e k m s ≡ some t
          → P t)
      → ((name : Text) (t : FileManagementService Wire Fs)
          → on_file_upload_abort k name s ≡ some t
          → P t)
      → ((m : FileBinaryResponseMessage) (t : FileManagementService Wire Fs)
          → on_file_binary_response e k m s ≡ some t
          → P t)
      → ((path : Text) (t : FileManagementService Wire Fs)
          → on_file_url_download_init e k path s ≡ some t
          → P t)
      → ((path : Text) (t : FileManagementService Wire Fs)
          → on_file_url_download_abort k path s ≡ some t
          → P t)
      → dispatch e type k wire s ≡ some u
      → P u
  unfolding dispatch report_transfer_protocol_disabled report_url_transfer_protocol_disabled
  dispatch_rule P file_upload_init k wire s u kept init stop binary url_init url_stop p =
      gated_rule P (e.parse_file_upload_init wire) s.file_transfer_enabled s u _ _ kept init
        (λ m. publish_message-Untouched k _ s) p
  dispatch_rule P file_upload_abort k wire s u kept init stop binary url_init url_stop p =
      gated_rule P (e.parse_file_upload_abort wire) s.file_transfer_enabled s u _ _ kept stop
        (λ name. publish_message-Untouched k _ s) p
  dispatch_rule P file_binary_response k wire s u kept init stop binary url_init url_stop p =
      gated_rule P (e.parse_file_binary_response wire) s.file_transfer_enabled s u _ (λ m. s) kept
        binary (λ m. (refl, refl)) p
  dispatch_rule P file_url_download_init k wire s u kept init stop binary url_init url_stop p =
      gated_rule P (e.parse_file_url_download_init wire) s.file_transfer_url_enabled s u _ _ kept
        url_init (λ path. publish_message-Untouched k _ s) p
  dispatch_rule P file_url_download_abort k wire s u kept init stop binary url_init url_stop p =
      gated_rule P (e.parse_file_url_download_abort wire) s.file_transfer_url_enabled s u _ _ kept
        url_stop (λ path. publish_message-Untouched k _ s) p
  dispatch_rule P file_list_request k wire s u kept init stop binary url_init url_stop p =
      kept u (ground (arith, report_present_files-Untouched k s))
  dispatch_rule P file_delete k wire s u kept init stop binary url_init url_stop p =
      elim (Option-cases (e.parse_file_delete wire)) [
        | inl bad ↦ kept u (ground arith)
        | inr (fs, q) ↦ kept u (ground (arith, on_files-Untouched k fs s))
      ]
  dispatch_rule P file_purge k wire s u kept init stop binary url_init url_stop p =
      kept u (ground (arith, on_files-Untouched k [] s))
  dispatch_rule P other k wire s u kept init stop binary url_init url_stop p = kept u (ground arith)
