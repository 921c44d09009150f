-- ===== src/FileManagement/Session.antt =====
-- wolk/service/file_management/FileTransferSession.{h,cpp}: one transfer of a file.
-- A method returns the session, its result, and what it asks of its surroundings, in order.
-- `none` is undefined behaviour: a null pointer dereferenced, or a read past the end.
pub mod Content
pub mod Chunks
pub mod Upload
pub mod Invariant
pub mod Retries
use Prim.Native.Nat.{◌%◌, ◌^◌}
use wolk_connect_task.Prelude.{
  Text, ℕ, ◌+◌, Bool, true, false, not, ◌||◌, Option, none, some, List, [], ◌∷◌, ◌++◌, is_empty,
  length, last?, leb, ◌==◌, text_eq, nat_eq, if◌then◌else◌,
}
use wolk_connect_task.Sdk.{
  ByteArray, FileTransferStatus, FileTransferError, status_eq, error_eq, Hashes,
  FileUploadInitiateMessage, FileBinaryResponseMessage, FileBinaryRequestMessage,
}

pub record FileChunk : Type 0 where
  pub previous_hash : Text
  pub bytes : ByteArray
  pub hash : Text

-- `identity` tells the objects apart that a device gets one after the other: a queued callback
-- holds the address of its session. `downloader` says whether `m_downloader` is set.
pub record FileTransferSession : Type 0 where
  pub identity : ℕ
  pub device_key : Text
  pub name : Text
  pub url : Text
  pub retry_count : ℕ
  pub done : Bool
  pub size : ℕ
  pub hash : Text
  pub chunks : List FileChunk
  pub downloader : Bool
  pub status : FileTransferStatus
  pub error : FileTransferError
  pub callback : Bool

-- A status that is queued for the callback, and the calls of the downloader.
pub data Request : Type 0 where
  notify : FileTransferStatus → FileTransferError → Request
  abort_download : Request
  download_file : Text → Request

abbrev pub upload_session : ℕ → Text → FileUploadInitiateMessage → Bool → FileTransferSession
upload_session id device_key message callback = record {
  identity = id;
  device_key = device_key;
  name = message.name;
  url = [];
  retry_count = 0;
  done = false;
  size = message.size;
  hash = message.hash;
  chunks = [];
  downloader = false;
  status = FileTransferStatus.file_transfer;
  error = FileTransferError.none;
  callback = callback;
}

abbrev pub url_session : ℕ → Text → Text → Bool → Bool → FileTransferSession
url_session id device_key path callback downloader = record {
  identity = id;
  device_key = device_key;
  name = [];
  url = path;
  retry_count = 0;
  done = false;
  size = 0;
  hash = [];
  chunks = [];
  downloader = downloader;
  status = FileTransferStatus.file_transfer;
  error = FileTransferError.none;
  callback = callback;
}

abbrev pub is_platform_transfer : FileTransferSession → Bool
is_platform_transfer s = is_empty s.url

abbrev pub is_url_download : FileTransferSession → Bool
is_url_download s = not (is_platform_transfer s)

unfoldable pub change_status_and_error :
    FileTransferStatus
    → FileTransferError
    → FileTransferSession
    → FileTransferSession × List Request
change_status_and_error status error s =
    if not (status == s.status) || not (error == s.error)
    then (
      record s { status = status; error = error },
      if s.callback then notify status error ∷ [] else [],
    )
    else (s, [])

unfoldable pub abort : FileTransferSession → Option (FileTransferSession × List Request)
unfolding change_status_and_error
abort s =
    if is_platform_transfer s
    then some (finish (record s { chunks = []; done = true }))
    else if s.downloader
    then some (let (t, out) = finish (record s { done = true }) in (t, abort_download ∷ out))
    else none
  where
    finish : FileTransferSession → FileTransferSession × List Request
    finish = change_status_and_error FileTransferStatus.aborted FileTransferError.none

-- The sum of the sizes, in a `std::uint64_t`.
unfoldable pub collect_from : ℕ → List FileChunk → ℕ
collect_from size [] = size
collect_from size (chunk ∷ chunks) = collect_from ((size + length chunk.bytes) % 2 ^ 64) chunks

unfoldable pub collected_size : List FileChunk → ℕ
unfolding collect_from
collected_size chunks = collect_from 0 chunks

unfoldable pub all_bytes : List FileChunk → ByteArray
all_bytes [] = []
all_bytes (chunk ∷ chunks) = chunk.bytes ++ all_bytes chunks

-- The loop over `sendHash`, which reads `currentHash` at the same positions.
unfoldable pub hash_matches : ByteArray → ByteArray → Option Bool
hash_matches [] current = some true
hash_matches (b ∷ send) [] = none
hash_matches (b ∷ send) (c ∷ current) =
    let rest = hash_matches send current in if b == c then rest else some false

-- The check against the last chunk, if there is one.
unfoldable pub follows : List FileChunk → FileBinaryResponseMessage → Bool
follows chunks message = elim (last? chunks) [
  | none ↦ true
  | some chunk ↦ chunk.hash == message.previous_hash
]

-- What both checks do with a chunk that fails them.
unfoldable pub reject_chunk :
    FileTransferSession → FileTransferSession × FileTransferError × List Request
unfolding change_status_and_error
reject_chunk s =
    let counted : FileTransferSession = record s { retry_count = (s.retry_count + 1) % 2 ^ 64 } in
    if leb 3 s.retry_count
    then (let (t, out) =
          change_status_and_error FileTransferStatus.error FileTransferError.retry_count_exceeded
            (record counted { done = true }) in
        (t, FileTransferError.retry_count_exceeded, out))
    else (counted, FileTransferError.file_hash_mismatch, [])

module _ (h : Hashes) where
  -- The check of the whole file, once its bytes are there.
  unfoldable pub finish_file : FileTransferSession → FileTransferSession × List Request
  unfolding change_status_and_error
  finish_file s =
      if h.to_hex_string (h.hash_mda5 (all_bytes s.chunks)) == s.hash
      then change_status_and_error FileTransferStatus.file_ready FileTransferError.none s
      else change_status_and_error FileTransferStatus.error FileTransferError.file_hash_mismatch s

  unfoldable pub accept_chunk :
      FileTransferSession
      → FileBinaryResponseMessage
      → FileTransferSession × FileTransferError × List Request
  unfolding finish_file
  accept_chunk s message =
      let chunk : FileChunk = record {
        previous_hash = message.previous_hash;
        bytes = message.content;
        hash = message.current_hash;
      } in
      let pushed : FileTransferSession = record s { chunks = s.chunks ++ chunk ∷ [] } in
      if leb s.size ((collected_size s.chunks + length message.content) % 2 ^ 64)
      then (let (t, out) = finish_file (record pushed { done = true }) in
          (t, FileTransferError.none, out))
      else (pushed, FileTransferError.none, [])

  unfoldable pub push_chunk :
      FileTransferSession
      → FileBinaryResponseMessage
      → Option (FileTransferSession × FileTransferError × List Request)
  unfolding reject_chunk accept_chunk
  push_chunk s message =
      if is_url_download s
      then some (s, FileTransferError.transfer_protocol_disabled, [])
      else if s.done
      then some (s, FileTransferError.none, [])
      else if leb s.size (collected_size s.chunks)
      then some (s, FileTransferError.unsupported_file_size, [])
      else if not (follows s.chunks message)
      then some (reject_chunk s)
      else elim (hash_matches (h.to_byte_array message.current_hash)
          (h.hash_sha256 message.content)) [
            | none ↦ none
            | some false ↦ some (reject_chunk s)
            | some true ↦ some (accept_chunk s message)
          ]

abbrev pub no_request : FileBinaryRequestMessage
no_request = record { name = []; chunk_index = 0 }

unfoldable pub get_next_chunk_request : FileTransferSession → FileBinaryRequestMessage
get_next_chunk_request s =
    if is_url_download s
    then no_request
    else if s.done
    then no_request
    else if leb s.size (collected_size s.chunks)
    then no_request
    else record { name = s.name; chunk_index = length s.chunks }

unfoldable pub trigger_download : FileTransferSession → Bool × List Request
trigger_download s =
    if is_platform_transfer s
    then (false, [])
    else if not s.downloader
    then (false, [])
    else (true, download_file s.url ∷ [])

-- The function that `triggerDownload` hands to the downloader.
unfoldable pub on_download_status :
    FileTransferStatus
    → FileTransferError
    → Text
    → FileTransferSession
    → FileTransferSession × List Request
unfolding change_status_and_error
on_download_status status error file_name s =
    let named : FileTransferSession =
      if is_empty file_name then s else record s { name = file_name } in
    let (t, out) = change_status_and_error status error named in
    (
      if status == FileTransferStatus.file_ready || status == FileTransferStatus.error
          then record t { done = true }
          else t,
      out,
    )
