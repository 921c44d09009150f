-- ===== src/Firmware/Restarts.antt =====
-- The session file when the service starts, and after a restart.
use wolk_connect_task.Prelude.{
  Text, Bool, Bool-cases, ◌⊎◌, true, false, not, Option, none, some, List, ◌++◌, text_eq,
  if◌then◌else◌, ◌≡◌, inl, inr, arith, append-nil, Option-cases,
}
use wolk_connect_task.Sdk.{FirmwareUpdateStatus, FirmwareUpdateError}
use wolk_connect_task.Firmware.{
  InstallResponse, Surroundings, FirmwareUpdateService, session_file_of, is_installing,
  queue_status_message, delete_session_file, load_state, message_path, on_firmware_install,
}
use wolk_connect_task.Firmware.Sessions.{
  IsFileSystem, status_wires, read_session, can_delete, stored, session_stored,
  on_firmware_install-once,
}

module _ {Wire Fs : Type 0} (e : Surroundings Wire Fs) where
  -- What the service queues for what it reads in the session file, when it starts.
  abbrev pub told : Text → Bool → Option Text → List Wire
  told k installer held = elim held [
    | none ↦ status_wires e k FirmwareUpdateStatus.error FirmwareUpdateError.unknown
    | some version ↦
        if not installer
        then status_wires e k FirmwareUpdateStatus.error FirmwareUpdateError.unknown
        else if e.was_firmware_install_successful k version
        then status_wires e k FirmwareUpdateStatus.success FirmwareUpdateError.none
        else status_wires e k FirmwareUpdateStatus.error FirmwareUpdateError.installation_failed
  ]

  -- The status that the service queues when it starts.
  abbrev pub outcome : Text → FirmwareUpdateService Wire Fs → List Wire
  outcome k s = told k s.installer (read_session e k s)

  queue_status_message-queue :
      (k : Text) (status : FirmwareUpdateStatus) (error : FirmwareUpdateError)
      (s : FirmwareUpdateService Wire Fs)
      → queue_status_message e k status error s
        ≡ record s { queue = s.queue ++ status_wires e k status error }
  unfolding queue_status_message
  queue_status_message-queue k status error s =
      elim (Option-cases (e.make_outbound_message k status error)) [
        | inl none_made ↦ ground (arith, append-nil s.queue)
        | inr (wire, made) ↦ ground arith
      ]

  load_state-lem :
      (k : Text) (s : FirmwareUpdateService Wire Fs)
      → load_state e k s ≡ record s {
        queue = s.queue ++ outcome k s;
        disk = (e.delete_file s.disk (session_file_of k s)).0;
      }
  unfolding load_state delete_session_file
  load_state-lem k s =
      let gone : FirmwareUpdateService Wire Fs = record s {
        disk = (e.delete_file s.disk (session_file_of k s)).0;
      } in
      elim (Option-cases (read_session e k s)) [
        | inl absent ↦ ground (
          arith,
          queue_status_message-queue k FirmwareUpdateStatus.error FirmwareUpdateError.unknown gone,
        )
        | inr (version, present) ↦ ground (
          arith,
          queue_status_message-queue k FirmwareUpdateStatus.error FirmwareUpdateError.unknown gone,
          queue_status_message-queue k FirmwareUpdateStatus.success FirmwareUpdateError.none s,
          queue_status_message-queue k FirmwareUpdateStatus.error
              FirmwareUpdateError.installation_failed s,
        )
      ]

  -- A start queues one status for the device, success exactly when there is an installer that confirms
  -- the version of the session file, and sends nothing. When the session file can be deleted, it is
  -- gone and a second start finds no session; else it stays and a second start queues the same status
  -- again.
  pub load_state-outcome :
      (fs : IsFileSystem e.file_system) (k : Text) (s : FirmwareUpdateService Wire Fs)
      → (let t = load_state e k s in
          let deleted = can_delete e (session_file_of k s) s.disk in
          (t.queue ≡ s.queue ++ outcome k s)
          × (t.sent ≡ s.sent)
          × (read_session e k t ≡ (if deleted then none else read_session e k s))
          × (outcome k t ≡ (
              if deleted
              then status_wires e k FirmwareUpdateStatus.error FirmwareUpdateError.unknown
              else outcome k s)))
  load_state-outcome fs k s =
      ground (arith, load_state-lem k s, fs.read-deleted s.disk (session_file_of k s))

  -- An installation that ended in WILL_INSTALL, and a restart: the service that finds the disk as this
  -- one left it queues what the installer says of the version from before, when the session file
  -- could be stored. When it could not, the installation went on all the same, and the service queues
  -- what the file tells that is there instead.
  pub restart-outcome :
      (fs : IsFileSystem e.file_system) (k file : Text) (s r : FirmwareUpdateService Wire Fs)
      → is_installing k s ≡ false
      → e.install_firmware s.installs k (message_path e k file s) ≡ InstallResponse.will_install
      → r.disk ≡ (on_firmware_install e k file s).disk
      → r.session_file ≡ s.session_file
      → r.installer ≡ true
      → (((stored e k s).1 ≡ true)
          × ((load_state e k r).queue
              ≡ r.queue
                ++ (if e.was_firmware_install_successful k (e.get_firmware_version s.installs k)
                    then status_wires e k FirmwareUpdateStatus.success FirmwareUpdateError.none
                    else status_wires e k FirmwareUpdateStatus.error
                        FirmwareUpdateError.installation_failed)))
        ⊎ (((stored e k s).1 ≡ false)
            × ((load_state e k r).queue ≡ r.queue ++ told k true (session_stored e k s)))
  restart-outcome fs k file s r idle will disk same installer =
      let (installs, left, held) = on_firmware_install-once e fs k file s idle in
      elim (Bool-cases (stored e k s).1) [
        | inl done ↦ inl (done, ground (arith, load_state-lem k r))
        | inr failed ↦ inr (failed, ground (arith, load_state-lem k r))
      ]
