-- ===== src/Firmware/Messages.antt =====
-- What the messages of the platform can do to an installation.
use wolk_connect_task.Prelude.{
  Text, true, false, Option, none, some, List, [], ◌∷◌, ◌++◌, text_eq, if◌then◌else◌, ◌==◌, ◌≡◌,
  ◌≢◌, inl, inr, refl, ◌∙◌, arith, append-nil, Option-cases, Bool-cases,
}
use wolk_connect_task.Prelude.Dict.{insert, lookup-insert}
use wolk_connect_task.Sdk.{FirmwareUpdateStatus, FirmwareUpdateError}
use wolk_connect_task.Firmware.{
  InstallResponse, Surroundings, FirmwareUpdateService, is_installing, store_session_file,
  delete_session_file, message_path, conclude, on_firmware_install, on_firmware_abort,
  message_received, send_status_message,
}
use wolk_connect_task.Firmware.Sessions.{send_status_message-sent}

-- The installations of a device that the installer was asked for.
unfoldable pub asked : Text → List (Text × Text) → List (Text × Text)
asked k [] = []
asked k ((device_key, path) ∷ installs) =
    let rest = asked k installs in if device_key == k then (device_key, path) ∷ rest else rest

asked-append :
    (k : Text) (xs ys : List (Text × Text)) → asked k (xs ++ ys) ≡ asked k xs ++ asked k ys
unfolding asked
asked-append k [] ys = refl
asked-append k (x ∷ xs) ys = ground (arith, asked-append k xs ys)

module _ {Wire Fs : Type 0} (e : Surroundings Wire Fs) where
  -- The device is installing in `t`, and was not asked for another installation since `s`.
  abbrev pub StaysInstalling :
      Text → FirmwareUpdateService Wire Fs → FirmwareUpdateService Wire Fs → Type 0
  StaysInstalling k s t = (is_installing k t ≡ true) × (asked k t.installs ≡ asked k s.installs)

  conclude-others :
      (j k : Text) (answer : InstallResponse) (s : FirmwareUpdateService Wire Fs)
      → j ≢ k
      → (is_installing k (conclude e j answer s) ≡ is_installing k s)
        × ((conclude e j answer s).installs ≡ s.installs)
  unfolding conclude delete_session_file
  conclude-others j k InstallResponse.failed_to_install s d = ground (
    arith,
    send_status_message-sent e j FirmwareUpdateStatus.error FirmwareUpdateError.installation_failed
        s,
  )
  conclude-others j k InstallResponse.no_file s d = ground (
    arith,
    send_status_message-sent e j FirmwareUpdateStatus.error FirmwareUpdateError.unknown_file s,
  )
  conclude-others j k InstallResponse.will_install s d = ground (
    arith,
    send_status_message-sent e j FirmwareUpdateStatus.installing FirmwareUpdateError.none
        (record s { installation = insert j true s.installation }),
    lookup-insert k j true s.installation,
  )
  conclude-others j k InstallResponse.installed s d =
      ground (
        arith,
        send_status_message-sent e j FirmwareUpdateStatus.success FirmwareUpdateError.none s,
      )

  on_firmware_install-StaysInstalling :
      (j k file : Text) (s : FirmwareUpdateService Wire Fs)
      → is_installing k s ≡ true
      → StaysInstalling k s (on_firmware_install e j file s)
  unfolding on_firmware_install store_session_file asked
  on_firmware_install-StaysInstalling j k file s busy =
      let path = message_path e j file s in
      let kept = store_session_file e j (e.get_firmware_version s.installs j) s in
      let u : FirmwareUpdateService Wire Fs =
        record (send_status_message e j FirmwareUpdateStatus.installing FirmwareUpdateError.none
          kept) { installs = s.installs ++ (j, path) ∷ [] } in
      elim (Bool-cases (j == k)) [
        | inl same ↦ ground arith
        | inr differs ↦ ground (
          arith,
          send_status_message-sent e j FirmwareUpdateStatus.installing FirmwareUpdateError.none
              kept,
          conclude-others j k (e.install_firmware s.installs j path) u,
          asked-append k s.installs ((j, path) ∷ []),
          append-nil (asked k s.installs),
        )
      ]

  message_received-StaysInstalling :
      (k : Text) (m : Option Wire) (s : FirmwareUpdateService Wire Fs)
      → is_installing k s ≡ true
      → StaysInstalling k s (message_received e m s)
  unfolding message_received on_firmware_abort
  message_received-StaysInstalling k none s busy = (busy, refl)
  message_received-StaysInstalling k (some wire) s busy =
      elim (Option-cases (e.parse_firmware_update_install wire)) [
        | inl unread ↦ ground arith
        | inr (file, read) ↦
            ground
              (arith, on_firmware_install-StaysInstalling (e.get_device_key wire) k file s busy)
      ]

  abbrev pub receive_all :
      List (Option Wire) → FirmwareUpdateService Wire Fs → FirmwareUpdateService Wire Fs
  receive_all [] s = s
  receive_all (m ∷ messages) s = receive_all messages (message_received e m s)

  -- Once a device is installing, no sequence of messages, an abort of that installation included,
  -- makes the installer asked for another installation of the device, or ends the installation.
  pub receive_all-StaysInstalling :
      (k : Text) (messages : List (Option Wire)) (s : FirmwareUpdateService Wire Fs)
      → is_installing k s ≡ true
      → StaysInstalling k s (receive_all messages s)
  receive_all-StaysInstalling k [] s busy = (busy, refl)
  receive_all-StaysInstalling k (m ∷ messages) s busy =
      let (kept, same) = message_received-StaysInstalling k m s busy in
      let (still, same') = receive_all-StaysInstalling k messages (message_received e m s) kept in
      (still, same' ∙ same)

  -- Without an installer every message is ignored.
  receive_all-ignored :
      (messages : List (Option Wire)) (s : FirmwareUpdateService Wire Fs)
      → s.installer ≡ false
      → receive_all messages s ≡ s
  unfolding message_received
  receive_all-ignored [] s absent = refl
  receive_all-ignored (none ∷ messages) s absent = receive_all-ignored messages s absent
  receive_all-ignored (some wire ∷ messages) s absent =
      ground (arith, receive_all-ignored messages s absent)
