-- ===== src/FileManagement/Service/Files.antt =====
-- The registry of files: FileManagementService::reportPresentFiles, obtainFileInformation,
-- createFolder, onFileDelete and onFilePurge.
pub mod Report
use Prim.Native.Nat.{◌/◌, ◌%◌}
use wolk_connect_task.Prelude.{
  Text, ℕ, ◌+◌, ◌-◌, ltb, Bool, true, false, Option, none, some, List, [], ◌∷◌, ◌++◌, is_empty,
  length, text_eq, ◌==◌, if◌then◌else◌,
}
use wolk_connect_task.Prelude.Dict.{Dict, lookup, insert, erase}
use wolk_connect_task.Sdk.{ByteArray, FileInformation}
use wolk_connect_task.FileManagement.Service.{
  Surroundings, FileManagementService, file_list_response, publish_message, device_file_folder,
  absolute_path_of_file, notify_listener_added_file, notify_listener_removed_file,
}

hex_digit : ℕ → ℕ
hex_digit n = if ltb n 10 then b'0' + n else b'a' + n - 10

-- `std::hex` with `std::setw(2)` and `std::setfill('0')`, for bytes.
unfoldable pub hex_string : ByteArray → Text
unfolding hex_digit
hex_string [] = []
hex_string (b ∷ bytes) = hex_digit (b / 16) ∷ (hex_digit (b % 16) ∷ hex_string bytes)

unfoldable pub contains : Text → List Text → Bool
contains file [] = false
contains file (f ∷ fs) = if f == file then true else contains file fs

-- The entries whose file is still in the folder.
unfoldable pub keep_present : List Text → Dict Text FileInformation → Dict Text FileInformation
keep_present content [] = []
keep_present content ((file, info) ∷ registry) =
    let rest = keep_present content registry in
    if contains file content then (file, info) ∷ rest else rest

abbrev pub no_information : FileInformation
no_information = record { name = []; size = 0; hash = [] }

abbrev pub listed : Text → FileInformation → FileInformation
listed file info = record { name = file; size = info.size; hash = info.hash }

module _ {Wire Fs : Type 0} (e : Surroundings Wire Fs) where
  unfoldable pub create_folder : FileManagementService Wire Fs → FileManagementService Wire Fs
  create_folder s =
      if e.is_directory_present s.disk s.file_location
      then s
      else record s { disk = e.create_directory s.disk s.file_location }

  unfoldable pub obtain_file_information :
      Text → Text → FileManagementService Wire Fs → FileInformation
  obtain_file_information device_key file s =
      elim (e.read_binary_file_content s.disk
        (e.compose_path file (device_file_folder e device_key s))) [
          | none ↦ no_information
          | some content ↦ record {
            name = file;
            size = length content;
            hash = hex_string (e.hash_sha256 content);
          }
        ]

  -- The loop over the folder: the registry, the information so far, and the service.
  unfoldable pub collect_files :
      Text
      → List Text
      → Dict Text FileInformation
      → List FileInformation
      → FileManagementService Wire Fs
      → Dict Text FileInformation × List FileInformation × FileManagementService Wire Fs
  collect_files device_key [] registry infos s = (registry, infos, s)
  collect_files device_key (file ∷ content) registry infos s = elim (lookup file registry) [
    | some info ↦ collect_files device_key content registry (infos ++ listed file info ∷ []) s
    | none ↦
        let fresh = obtain_file_information device_key file s in
        elim (is_empty fresh.name) [
          | true ↦ collect_files device_key content registry infos s
          | false ↦
              collect_files device_key content (insert file fresh registry)
                (infos ++ listed file fresh ∷ [])
                (notify_listener_added_file device_key file
                  (absolute_path_of_file e device_key file s) s)
        ]
  ]

  -- `m_files[deviceKey]`, which is made if it is missing.
  abbrev pub registry_of : Text → FileManagementService Wire Fs → Dict Text FileInformation
  registry_of device_key s = elim (lookup device_key s.files) [
    | none ↦ []
    | some registry ↦ registry
  ]

  unfoldable pub scan_folder :
      Text → FileManagementService Wire Fs → List FileInformation × FileManagementService Wire Fs
  scan_folder device_key s =
      let folder = device_file_folder e device_key s in
      if e.is_directory_present s.disk folder
      then (let content = e.list_files s.disk folder in
          let (registry, infos, t) =
            collect_files device_key content (keep_present content (registry_of device_key s)) []
              s in
          (infos, record t { files = insert device_key registry s.files }))
      else ([], s)

  unfoldable pub report_present_files :
      Text → FileManagementService Wire Fs → FileManagementService Wire Fs
  report_present_files device_key s =
      let (infos, t) = scan_folder device_key s in
      publish_message e device_key (file_list_response infos) t

  -- One turn of the loops of `onFileDelete` and `onFilePurge`. `m_files.erase(file)` drops what is
  -- registered under a device whose key is the file's name.
  unfoldable pub delete_file :
      Text → Text → FileManagementService Wire Fs → FileManagementService Wire Fs
  delete_file device_key file s =
      let (disk, deleted) =
        e.file_system.delete_file s.disk
          (e.compose_path file (device_file_folder e device_key s)) in
      let t : FileManagementService Wire Fs = record s { disk = disk } in
      if deleted
      then notify_listener_removed_file device_key file (record t { files = erase file s.files })
      else t

  unfoldable pub delete_files :
      Text → List Text → FileManagementService Wire Fs → FileManagementService Wire Fs
  delete_files device_key [] s = s
  delete_files device_key (file ∷ files) s =
      delete_files device_key files (delete_file device_key file s)

  unfoldable pub on_file_delete :
      Text → List Text → FileManagementService Wire Fs → FileManagementService Wire Fs
  on_file_delete device_key files s =
      report_present_files device_key (delete_files device_key files s)

  unfoldable pub on_file_purge :
      Text → FileManagementService Wire Fs → FileManagementService Wire Fs
  on_file_purge device_key s =
      report_present_files device_key
        (delete_files device_key (e.list_files s.disk (device_file_folder e device_key s)) s)
