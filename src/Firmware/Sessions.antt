-- ===== src/Firmware/Sessions.antt =====
-- An installation and its session file, over a file system whose calls may fail.
use wolk_connect_task.Prelude.{
  Text, Bool, Bool-cases, ◌⊎◌, true, false, Option, none, some, List, [], ◌∷◌, ◌++◌, text_eq,
  if◌then◌else◌, ◌≡◌, ◌↔◌, inl, inr, arith, append_assoc, append-nil, Option-cases,
}
use wolk_connect_task.Prelude.Dict.{insert, lookup-insert}
use wolk_connect_task.Sdk.{FileSystem, FirmwareUpdateStatus, FirmwareUpdateError}
use wolk_connect_task.Firmware.{
  InstallResponse, Surroundings, FirmwareUpdateService, session_file_of, is_installing,
  send_status_message, store_session_file, delete_session_file, message_path, conclude,
  on_firmware_install,
}

-- What the service relies on in the helpers: a file that was created holds its content, a file
-- that was deleted is not there, and a file that could not be deleted stays as it is. What a file
-- holds that could not be created is left open.
pub record IsFileSystem {Fs : Type 0} (f : FileSystem Fs) : Type 0 where
  pub read-created :
      (d : Fs) (p content : Text)
      → (f.create_file_with_content d p content).1 ≡ true
      → f.read_file_content (f.create_file_with_content d p content).0 p ≡ some content
  pub read-deleted :
      (d : Fs) (p : Text)
      → f.read_file_content (f.delete_file d p).0 p
        ≡ (if (f.delete_file d p).1 then none else f.read_file_content d p)

module _ {Wire Fs : Type 0} (e : Surroundings Wire Fs) where
  -- The wire messages that a status becomes.
  abbrev pub status_wires : Text → FirmwareUpdateStatus → FirmwareUpdateError → List Wire
  status_wires device_key status error = elim (e.make_outbound_message device_key status error) [
    | none ↦ []
    | some wire ↦ wire ∷ []
  ]

  -- The status that the service sends for the installer's answer.
  abbrev pub verdict : Text → InstallResponse → List Wire
  verdict device_key InstallResponse.failed_to_install =
      status_wires device_key FirmwareUpdateStatus.error FirmwareUpdateError.installation_failed
  verdict device_key InstallResponse.no_file =
      status_wires device_key FirmwareUpdateStatus.error FirmwareUpdateError.unknown_file
  verdict device_key InstallResponse.will_install =
      status_wires device_key FirmwareUpdateStatus.installing FirmwareUpdateError.none
  verdict device_key InstallResponse.installed =
      status_wires device_key FirmwareUpdateStatus.success FirmwareUpdateError.none

  -- What the session file holds afterwards: `held` before the switch, and `deleted` says whether it
  -- can be deleted.
  abbrev pub session_left : InstallResponse → Option Text → Bool → Option Text
  session_left InstallResponse.will_install held deleted = held
  session_left InstallResponse.failed_to_install held deleted = if deleted then none else held
  session_left InstallResponse.no_file held deleted = if deleted then none else held
  session_left InstallResponse.installed held deleted = if deleted then none else held

  abbrev pub read_session : Text → FirmwareUpdateService Wire Fs → Option Text
  read_session device_key s = e.read_file_content s.disk (session_file_of device_key s)

  pub send_status_message-sent :
      (k : Text) (status : FirmwareUpdateStatus) (error : FirmwareUpdateError)
      (s : FirmwareUpdateService Wire Fs)
      → send_status_message e k status error s
        ≡ record s { sent = s.sent ++ status_wires k status error }
  unfolding send_status_message
  send_status_message-sent k status error s =
      elim (Option-cases (e.make_outbound_message k status error)) [
        | inl none_made ↦ ground (arith, append-nil s.sent)
        | inr (wire, made) ↦ ground arith
      ]

  -- Whether a file can be deleted.
  abbrev pub can_delete : Text → Fs → Bool
  can_delete path disk = (e.delete_file disk path).1

  -- What the switch leaves.
  abbrev pub Concluded :
      Text
      → InstallResponse
      → FirmwareUpdateService Wire Fs
      → FirmwareUpdateService Wire Fs
      → Type 0
  Concluded k answer s t =
      (t.installs ≡ s.installs)
      × (t.sent ≡ s.sent ++ verdict k answer)
      × ((is_installing k t ≡ true) ↔ (answer ≡ InstallResponse.will_install))
      × (t.session_file ≡ s.session_file)

  conclude-Concluded :
      (k : Text) (answer : InstallResponse) (s : FirmwareUpdateService Wire Fs)
      → is_installing k s ≡ false
      → Concluded k answer s (conclude e k answer s)
  unfolding conclude delete_session_file
  conclude-Concluded k InstallResponse.failed_to_install s idle = ground (
    arith,
    send_status_message-sent k FirmwareUpdateStatus.error FirmwareUpdateError.installation_failed s,
  )
  conclude-Concluded k InstallResponse.no_file s idle = ground (
    arith,
    send_status_message-sent k FirmwareUpdateStatus.error FirmwareUpdateError.unknown_file s,
  )
  conclude-Concluded k InstallResponse.will_install s idle = ground (
    arith,
    send_status_message-sent k FirmwareUpdateStatus.installing FirmwareUpdateError.none
        (record s { installation = insert k true s.installation }),
    lookup-insert k k true s.installation,
  )
  conclude-Concluded k InstallResponse.installed s idle =
      ground
        (arith, send_status_message-sent k FirmwareUpdateStatus.success FirmwareUpdateError.none s)

  conclude-session :
      (fs : IsFileSystem e.file_system) (k : Text) (answer : InstallResponse)
      (s : FirmwareUpdateService Wire Fs)
      → read_session k (conclude e k answer s)
        ≡ session_left answer (read_session k s) (can_delete (session_file_of k s) s.disk)
  unfolding conclude delete_session_file
  conclude-session fs k InstallResponse.failed_to_install s = ground (
    arith,
    send_status_message-sent k FirmwareUpdateStatus.error FirmwareUpdateError.installation_failed s,
    fs.read-deleted s.disk (session_file_of k s),
  )
  conclude-session fs k InstallResponse.no_file s = ground (
    arith,
    send_status_message-sent k FirmwareUpdateStatus.error FirmwareUpdateError.unknown_file s,
    fs.read-deleted s.disk (session_file_of k s),
  )
  conclude-session fs k InstallResponse.will_install s = ground (
    arith,
    send_status_message-sent k FirmwareUpdateStatus.installing FirmwareUpdateError.none
        (record s { installation = insert k true s.installation }),
  )
  conclude-session fs k InstallResponse.installed s = ground (
    arith,
    send_status_message-sent k FirmwareUpdateStatus.success FirmwareUpdateError.none s,
    fs.read-deleted s.disk (session_file_of k s),
  )

  -- The disk after the session file was stored, and whether it could be.
  abbrev pub stored : Text → FirmwareUpdateService Wire Fs → Fs × Bool
  stored k s =
      e.create_file_with_content s.disk (session_file_of k s) (e.get_firmware_version s.installs k)

  -- What the session file then holds.
  abbrev pub session_stored : Text → FirmwareUpdateService Wire Fs → Option Text
  session_stored k s = e.read_file_content (stored k s).0 (session_file_of k s)

  session_stored-cases :
      (fs : IsFileSystem e.file_system) (k : Text) (s : FirmwareUpdateService Wire Fs)
      → ((stored k s).1 ≡ false) ⊎ (session_stored k s ≡ some (e.get_firmware_version s.installs k))
  session_stored-cases fs k s = elim (Bool-cases (stored k s).1) [
    | inl done ↦
        inr
          (fs.read-created s.disk (session_file_of k s) (e.get_firmware_version s.installs k) done)
    | inr failed ↦ inl failed
  ]

  -- The state in which the switch starts.
  abbrev asked : Text → Text → FirmwareUpdateService Wire Fs → FirmwareUpdateService Wire Fs
  asked k file s = record s {
    disk = (stored k s).0;
    sent = s.sent ++ status_wires k FirmwareUpdateStatus.installing FirmwareUpdateError.none;
    installs = s.installs ++ (k, message_path e k file s) ∷ [];
  }

  on_firmware_install-asked :
      (k file : Text) (s : FirmwareUpdateService Wire Fs)
      → is_installing k s ≡ false
      → on_firmware_install e k file s
        ≡ conclude e k (e.install_firmware s.installs k (message_path e k file s)) (asked k file s)
  unfolding on_firmware_install store_session_file
  on_firmware_install-asked k file s idle =
      let kept = store_session_file e k (e.get_firmware_version s.installs k) s in
      ground (
        arith,
        send_status_message-sent k FirmwareUpdateStatus.installing FirmwareUpdateError.none kept,
      )

  -- What an installation does but for the disk.
  abbrev pub Installs : Text → Text → FirmwareUpdateService Wire Fs → Type 0
  Installs k file s =
      let path = message_path e k file s in
      let answer = e.install_firmware s.installs k path in
      let t = on_firmware_install e k file s in
      (t.installs ≡ s.installs ++ (k, path) ∷ [])
      × (t.sent
          ≡ s.sent
            ++ (status_wires k FirmwareUpdateStatus.installing FirmwareUpdateError.none
                ++ verdict k answer))
      × ((is_installing k t ≡ true) ↔ (answer ≡ InstallResponse.will_install))
      × (t.session_file ≡ s.session_file)

  pub on_firmware_install-Installs :
      (k file : Text) (s : FirmwareUpdateService Wire Fs)
      → is_installing k s ≡ false
      → Installs k file s
  on_firmware_install-Installs k file s idle =
      let answer = e.install_firmware s.installs k (message_path e k file s) in
      ground (
        arith,
        on_firmware_install-asked k file s idle,
        conclude-Concluded k answer (asked k file s),
        append_assoc s.sent
            (status_wires k FirmwareUpdateStatus.installing FirmwareUpdateError.none)
            (verdict k answer),
      )

  -- A command to install, while the device is not installing: the installer is asked once, with
  -- the path of the file; the statuses sent are that it is installing and then the verdict on the
  -- answer; the device is then installing exactly when the installer will install; the place of the
  -- session files stays the same. The session file is stored first. It stays when the installer will
  -- install, and is deleted else; when it cannot be deleted, which nobody hears of, it stays. What it
  -- holds is the version from before, unless it could not be stored, which does not stop the
  -- installation.
  pub on_firmware_install-once :
      (fs : IsFileSystem e.file_system) (k file : Text) (s : FirmwareUpdateService Wire Fs)
      → is_installing k s ≡ false
      → Installs k file s
        × (read_session k (on_firmware_install e k file s)
            ≡ session_left
                (e.install_firmware s.installs k (message_path e k file s))
                (session_stored k s)
                (can_delete (session_file_of k s) (stored k s).0))
        × (((stored k s).1 ≡ false)
            ⊎ (session_stored k s ≡ some (e.get_firmware_version s.installs k)))
  on_firmware_install-once fs k file s idle = (
    on_firmware_install-Installs k file s idle,
    ground (
      arith,
      on_firmware_install-asked k file s idle,
      conclude-session fs k (e.install_firmware s.installs k (message_path e k file s))
          (asked k file s),
    ),
    session_stored-cases fs k s,
  )
