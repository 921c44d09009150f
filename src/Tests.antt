-- ===== src/Tests.antt =====
-- Runs of the components at concrete data, over a disk that is a map.
mod Sessions
mod Files
mod Data
mod Downloader
mod Firmware
mod Dbus
mod Debian
mod Errors
mod Registration
mod Wolk
mod Builder
mod Application
mod Examples
use wolk_connect_task.Prelude.{
  Text, ◌≡◌, refl, ◌++◌, length, true, List, [], ◌∷◌, codes, text_eq, arith, ◌==◌, if◌then◌else◌,
}
use wolk_connect_task.Prelude.Dict.{Dict, lookup, insert, erase, lookup-insert, lookup-erase}
use wolk_connect_task.Sdk.{FileSystem, Hashes}
use wolk_connect_task.FileManagement.Service.Storage.{IsStorage}
use wolk_connect_task.Firmware.Sessions.{IsFileSystem}

abbrev pub Disk : Type 0
Disk = Dict Text Text

abbrev pub disk_files : FileSystem Disk
disk_files = record {
  compose_path = λ file directory. directory ++ (codes "/" ++ file);
  absolute_path = λ path. codes "/" ++ path;
  is_directory_present = λ d path. true;
  create_directory = λ d path. d;
  list_files = λ d path. codes "a" ∷ (codes "b" ∷ []);
  delete_file = λ d path. (erase path d, true);
  read_file_content = λ d path. lookup path d;
  create_file_with_content = λ d path content. (insert path content d, true);
  read_binary_file_content = λ d path. lookup path d;
  create_binary_file_with_content = λ d path content. (insert path content d, true);
}

pub disk_files-IsStorage : IsStorage disk_files
disk_files-IsStorage = record {
  read-created = λ d path content created. ground (arith, lookup-insert path path content d);
}

pub disk_files-IsFileSystem : IsFileSystem disk_files
disk_files-IsFileSystem = record {
  read-created = λ d p content created. ground (arith, lookup-insert p p content d);
  read-deleted = λ d p. ground (arith, lookup-erase p p d);
}

-- A hash that counts the bytes.
abbrev pub hashes : Hashes
hashes = record {
  to_byte_array = λ text. text;
  to_hex_string = λ bytes. bytes;
  hash_sha256 = λ bytes. length bytes ∷ [];
  hash_mda5 = λ bytes. length bytes ∷ [];
}
