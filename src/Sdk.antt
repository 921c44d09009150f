-- ===== src/Sdk.antt =====
-- What the connector takes from the WolkAbout SDK (a submodule that is not in this repository):
-- the enumerators that it names, the fields of the messages that it reads and builds, and, as
-- parameters, the file system helpers and the hash functions. `Wire` and `Fs` stand for the
-- SDK's serialized messages and for the state of the disk.
use native.Mathlib.Decide.{ℕ_discrete}
use wolk_connect_task.Prelude.{Text, Eq, Option, List, Bool, ℕ}

abbrev pub ByteArray : Type 0
ByteArray = List ℕ

pub data FileTransferStatus : Type 0 where
  awaiting_device file_transfer file_ready error aborted : FileTransferStatus

pub data FileTransferError : Type 0 where
  none transfer_protocol_disabled unsupported_file_size malformed_url file_hash_mismatch
        file_system_error retry_count_exceeded :
      FileTransferError

unfoldable pub FileTransferStatus-discrete : Discrete FileTransferStatus
FileTransferStatus-discrete = hlevel

unfoldable pub FileTransferError-discrete : Discrete FileTransferError
FileTransferError-discrete = hlevel

instance abbrev pub status_eq : Eq FileTransferStatus
status_eq = record { dec = FileTransferStatus-discrete }

instance abbrev pub error_eq : Eq FileTransferError
error_eq = record { dec = FileTransferError-discrete }

pub record FileUploadInitiateMessage : Type 0 where
  pub name : Text
  pub size : ℕ
  pub hash : Text

pub record FileBinaryResponseMessage : Type 0 where
  pub content : ByteArray
  pub previous_hash : Text
  pub current_hash : Text

pub record FileBinaryRequestMessage : Type 0 where
  pub name : Text
  pub chunk_index : ℕ

pub record FileInformation : Type 0 where
  pub name : Text
  pub size : ℕ
  pub hash : Text

-- `ByteUtils`.
pub record Hashes : Type 0 where
  pub to_byte_array : Text → ByteArray
  pub to_hex_string : ByteArray → Text
  pub hash_sha256 : ByteArray → ByteArray
  pub hash_mda5 : ByteArray → ByteArray

-- `FileSystemUtils`. `compose_path file directory` is the path of a file in a directory.
pub record FileSystem (Fs : Type 0) : Type 0 where
  pub compose_path : Text → Text → Text
  pub absolute_path : Text → Text
  pub is_directory_present : Fs → Text → Bool
  pub create_directory : Fs → Text → Fs
  pub list_files : Fs → Text → List Text
  pub delete_file : Fs → Text → Fs × Bool
  pub read_file_content : Fs → Text → Option Text
  pub create_file_with_content : Fs → Text → Text → Fs × Bool
  pub read_binary_file_content : Fs → Text → Option ByteArray
  pub create_binary_file_with_content : Fs → Text → ByteArray → Fs × Bool

-- The parameters that the connector names; `other` stands for the rest of the enumeration.
pub data ParameterName : Type 0 where
  file_transfer_platform_enabled file_transfer_url_enabled firmware_update_enabled firmware_version
        firmware_update_repository firmware_update_check_time :
      ParameterName
  other : ℕ → ParameterName

unfoldable pub ParameterName-discrete : Discrete ParameterName
ParameterName-discrete = hlevel ℕ_discrete

instance abbrev pub parameter_name_eq : Eq ParameterName
parameter_name_eq = record { dec = ParameterName-discrete }

pub record Parameter : Type 0 where
  pub name : ParameterName
  pub value : Text

pub data ReadingValue : Type 0 where
  string_value : Text → ReadingValue
  string_values : List Text → ReadingValue

pub record Reading : Type 0 where
  pub reference : Text
  pub value : ReadingValue
  pub rtc : ℕ

pub record Attribute : Type 0 where
  pub name : Text
  pub data_type : Text
  pub value : Text

pub record Feed : Type 0 where
  pub name : Text
  pub reference : Text
  pub unit : Text

-- `Persistence`: what the data service calls.
pub record Persistence (P : Type 0) : Type 0 where
  pub put_reading : Text → Reading → P → P
  pub get_readings : P → Text → ℕ → List Reading
  pub remove_readings : Text → ℕ → P → P
  pub get_readings_keys : P → List Text
  pub put_attribute : Text → Attribute → P → P
  pub get_attributes : P → List (Text × Attribute)
  pub remove_attributes : Text → P → P
  pub put_parameter : Text → Parameter → P → P
  pub get_parameters : P → List (Text × Parameter)
  pub remove_parameters : Text → P → P

-- The connectivity service: whether it takes a message, after the attempts so far. Any behaviour of
-- the connection is such a function.
abbrev pub Connectivity : Type 0 → Type 0
Connectivity Wire = List Wire → Wire → Bool

pub data FirmwareUpdateStatus : Type 0 where
  installing success error : FirmwareUpdateStatus

pub data FirmwareUpdateError : Type 0 where
  none unknown_file installation_failed unknown : FirmwareUpdateError

-- The fields of a device that the connector reads.
pub record Device : Type 0 where
  pub key : Text
  pub password : Text
