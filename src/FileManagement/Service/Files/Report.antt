-- ===== src/FileManagement/Service/Files/Report.antt =====
-- What the list of files says, against a plain description of it.
use wolk_connect_task.Prelude.{
  Text, ◌≡◌, refl, ap₂, true, false, none, some, List, [], ◌∷◌, ◌++◌, append_assoc, append-nil,
  is_empty, arith, text_eq, if◌then◌else◌,
}
use wolk_connect_task.Prelude.Dict.{Dict, lookup, insert, lookup-insert}
use wolk_connect_task.Sdk.{FileInformation}
use wolk_connect_task.FileManagement.Service.{
  Surroundings, FileManagementService, file_list_response, publish_message, device_file_folder,
  wires, notify_listener_added_file, absolute_path_of_file,
}
use wolk_connect_task.FileManagement.Service.Files.{
  contains, keep_present, listed, obtain_file_information, collect_files, registry_of, scan_folder,
  report_present_files,
}

module _ {Wire Fs : Type 0} (e : Surroundings Wire Fs) where
  -- One file of the folder: what the registry knows of it, or else what can be read now.
  describe :
      Text → Dict Text FileInformation → FileManagementService Wire Fs → Text → List FileInformation
  describe device_key registry s file = elim (lookup file registry) [
    | some info ↦ listed file info ∷ []
    | none ↦
        let fresh = obtain_file_information e device_key file s in
        if is_empty fresh.name then [] else listed file fresh ∷ []
  ]

  unfoldable pub describe_all :
      Text
      → Dict Text FileInformation
      → FileManagementService Wire Fs
      → List Text
      → List FileInformation
  unfolding describe
  describe_all device_key registry s [] = []
  describe_all device_key registry s (file ∷ content) =
      describe device_key registry s file ++ describe_all device_key registry s content

  describe-listener :
      (k : Text) (r : Dict Text FileInformation) (s : FileManagementService Wire Fs)
      (f g path : Text)
      → describe k r (notify_listener_added_file k g path s) f ≡ describe k r s f
  unfolding describe notify_listener_added_file obtain_file_information
  describe-listener k r s f g path = ground arith

  describe_all-listener :
      (k : Text) (r : Dict Text FileInformation) (s : FileManagementService Wire Fs)
      (content : List Text) (g path : Text)
      → describe_all k r (notify_listener_added_file k g path s) content
        ≡ describe_all k r s content
  unfolding describe_all
  describe_all-listener k r s [] g path = refl
  describe_all-listener k r s (f ∷ content) g path =
      ap₂ ◌++◌ (describe-listener k r s f g path) (describe_all-listener k r s content g path)

  describe-insert :
      (k : Text) (r : Dict Text FileInformation) (s : FileManagementService Wire Fs) (f g : Text)
      → lookup g r ≡ none
      → is_empty (obtain_file_information e k g s).name ≡ false
      → describe k (insert g (obtain_file_information e k g s) r) s f ≡ describe k r s f
  unfolding describe
  describe-insert k r s f g absent named =
      ground (arith, lookup-insert f g (obtain_file_information e k g s) r)

  describe_all-insert :
      (k : Text) (r : Dict Text FileInformation) (s : FileManagementService Wire Fs)
      (content : List Text) (g : Text)
      → lookup g r ≡ none
      → is_empty (obtain_file_information e k g s).name ≡ false
      → describe_all k (insert g (obtain_file_information e k g s) r) s content
        ≡ describe_all k r s content
  unfolding describe_all
  describe_all-insert k r s [] g absent named = refl
  describe_all-insert k r s (f ∷ content) g absent named =
      ap₂ ◌++◌ (describe-insert k r s f g absent named)
        (describe_all-insert k r s content g absent named)

  -- The entry that is listed for a file that the registry may know.
  abbrev fresh_or : Dict Text FileInformation → Text → FileInformation → FileInformation
  fresh_or r f fresh = elim (lookup f r) [ none ↦ listed f fresh | some info ↦ listed f info ]

  collect_files-describe_all :
      (k : Text) (content : List Text) (r : Dict Text FileInformation)
      (infos : List FileInformation) (s : FileManagementService Wire Fs)
      → (collect_files e k content r infos s).1 ≡ infos ++ describe_all k r s content
  unfolding collect_files describe_all describe
  collect_files-describe_all k [] r infos s = rw append-nil
  collect_files-describe_all k (f ∷ content) r infos s =
      let fresh = obtain_file_information e k f s in
      let path = absolute_path_of_file e k f s in
      ground (
        arith,
        collect_files-describe_all k content r (infos ++ fresh_or r f fresh ∷ []) s,
        collect_files-describe_all k content r infos s,
        collect_files-describe_all k content (insert f fresh r) (infos ++ listed f fresh ∷ [])
            (notify_listener_added_file k f path s),
        describe_all-listener k (insert f fresh r) s content f path,
        describe_all-insert k r s content f,
        append_assoc infos (fresh_or r f fresh ∷ []) (describe_all k r s content),
        append_assoc infos (listed f fresh ∷ []) (describe_all k r s content),
      )

  lookup-keep_present :
      (f : Text) (content : List Text) (r : Dict Text FileInformation)
      → lookup f (keep_present content r) ≡ (if contains f content then lookup f r else none)
  unfolding lookup keep_present
  lookup-keep_present f content [] = ground arith
  lookup-keep_present f content ((g, i) ∷ r) = ground (arith, lookup-keep_present f content r)

  abbrev AllIn : List Text → List Text → Type 0
  AllIn content [] = Unit {0}
  AllIn content (f ∷ fs) = (contains f content ≡ true) × AllIn content fs

  AllIn-cons : (g : Text) (content fs : List Text) → AllIn content fs → AllIn (g ∷ content) fs
  unfolding contains
  AllIn-cons g content [] a = tt
  AllIn-cons g content (f ∷ fs) a = (ground arith, AllIn-cons g content fs a.1)

  AllIn-self : (content : List Text) → AllIn content content
  unfolding contains
  AllIn-self [] = tt
  AllIn-self (f ∷ content) = (ground arith, AllIn-cons f content content (AllIn-self content))

  describe_all-keep_present :
      (k : Text) (content fs : List Text) (r : Dict Text FileInformation)
      (s : FileManagementService Wire Fs)
      → AllIn content fs
      → describe_all k (keep_present content r) s fs ≡ describe_all k r s fs
  unfolding describe_all describe
  describe_all-keep_present k content [] r s a = refl
  describe_all-keep_present k content (f ∷ fs) r s a =
      ground (arith, lookup-keep_present f content r, describe_all-keep_present k content fs r s)

  -- What the device's folder holds, if there is one.
  unfoldable pub present_files : Text → FileManagementService Wire Fs → List FileInformation
  unfolding describe_all
  present_files k s =
      let folder = device_file_folder e k s in
      if e.is_directory_present s.disk folder
      then describe_all k (registry_of e k s) s (e.list_files s.disk folder)
      else []

  collect_files-sent :
      (k : Text) (content : List Text) (r : Dict Text FileInformation)
      (infos : List FileInformation) (s : FileManagementService Wire Fs)
      → (collect_files e k content r infos s).2.sent ≡ s.sent
  unfolding collect_files notify_listener_added_file
  collect_files-sent k [] r infos s = refl
  collect_files-sent k (f ∷ content) r infos s =
      let fresh = obtain_file_information e k f s in
      ground (
        arith,
        collect_files-sent k content r (infos ++ fresh_or r f fresh ∷ []) s,
        collect_files-sent k content r infos s,
        collect_files-sent k content (insert f fresh r) (infos ++ listed f fresh ∷ [])
            (notify_listener_added_file k f (absolute_path_of_file e k f s) s),
      )

  scan_folder-sent :
      (k : Text) (s : FileManagementService Wire Fs) → (scan_folder e k s).1.sent ≡ s.sent
  unfolding scan_folder
  scan_folder-sent k s =
      let content = e.list_files s.disk (device_file_folder e k s) in
      ground (arith, collect_files-sent k content (keep_present content (registry_of e k s)) [] s)

  scan_folder-present_files :
      (k : Text) (s : FileManagementService Wire Fs) → (scan_folder e k s).0 ≡ present_files k s
  unfolding scan_folder present_files
  scan_folder-present_files k s =
      let content = e.list_files s.disk (device_file_folder e k s) in
      ground (
        arith,
        collect_files-describe_all k content (keep_present content (registry_of e k s)) [] s,
        describe_all-keep_present k content content (registry_of e k s) s (AllIn-self content),
      )

  -- The report publishes exactly one list, unless the protocol cannot serialize it. The list has
  -- every file of the device's folder, in order, that the registry knew or that can be read; with
  -- no such folder it is empty. What the registry knew goes before what is on the disk.
  pub report_present_files-sent :
      (k : Text) (s : FileManagementService Wire Fs)
      → (report_present_files e k s).sent
        ≡ s.sent ++ wires (e.make_outbound_message k (file_list_response (present_files k s)))
  unfolding report_present_files publish_message
  report_present_files-sent k s =
      ground (arith, scan_folder-present_files k s, scan_folder-sent k s, append-nil s.sent)
