-- ===== src/Downloader.antt =====
-- wolk/service/file_management/poco/HTTPFileDownloader.{h,cpp}: one downloader, over a network that
-- answers a request or fails. `none` is undefined: a mutex locked again by the thread that holds it,
-- or a session that is a null pointer.
pub mod Url
pub mod Stages
pub mod Statuses
use wolk_connect_task.Prelude.{
  Text, ℕ, zero, suc, Bool, true, false, not, ◌||◌, ◌>>=◌, Option, none, some, List, [], ◌∷◌, ◌++◌,
  is_empty, drop, codes, nat_eq, ◌==◌, if◌then◌else◌,
}
use wolk_connect_task.Sdk.{ByteArray, FileTransferStatus, FileTransferError, status_eq, Hashes}
use wolk_connect_task.FileManagement.Service.Files.{hex_string}
use wolk_connect_task.Downloader.Url.{
  https_path_prefix, find_char, rfind_char, find, is_url, extract_host, extract_port, extract_uri,
  substr,
}

-- What a request comes to: the code and the body of the response; `none` is an exception.
pub record Surroundings : Type 0 where
  pub request : Bool → Text → ℕ → Text → Option (ℕ × ByteArray)
  pub hashes : Hashes
  pub open hashes use *

pub record StatusCommand : Type 0 where
  pub status : FileTransferStatus
  pub error : FileTransferError
  pub file_name : Text

-- What is left of `download`: all of it, the request, or the name of the file.
pub data Work : Type 0 where
  done : Work
  starting : Text → Work
  requesting : Text → ℕ → Work
  announcing : Text → Work

-- A callback is named by a number. `locked` says that `m_mutex` is held, `session` that `m_session`
-- is set, and `thread` is what the thread has left to do.
pub record HttpFileDownloader : Type 0 where
  pub status : FileTransferStatus
  pub name : Text
  pub bytes : ByteArray
  pub status_callback : Option ℕ
  pub command_buffer : List StatusCommand
  pub calls : List (ℕ × StatusCommand)
  pub locked : Bool
  pub session : Bool
  pub thread : Work

unfoldable pub change_status :
    FileTransferStatus → FileTransferError → Text → HttpFileDownloader → Option HttpFileDownloader
change_status status error file_name d =
    if d.locked
    then none
    else some (
        if not (status == d.status)
        then record d {
          status = status;
          name = file_name;
          command_buffer = elim d.status_callback [
            | none ↦ d.command_buffer
            | some callback ↦
                d.command_buffer
                ++ record { status = status; error = error; file_name = file_name } ∷ []
          ];
        }
        else d)

-- The name of the file: the last part of the URI, up to a question mark that is not its first
-- character, or the hash of the bytes.
unfoldable pub file_name_of : Surroundings → Text → ByteArray → Text
file_name_of e uri bytes =
    let last : Text = elim (rfind_char b'/' uri) [ none ↦ uri | some i ↦ drop (suc i) uri ] in
    let name : Text = elim (find_char b'?' last) [
      | none ↦ last
      | some zero ↦ last
      | some (suc i) ↦ substr 0 (suc i) last
    ] in
    if is_empty name then hex_string (e.hash_sha256 bytes) else name

-- An exception ends in the same status as a response that is not OK.
unfoldable pub failed : HttpFileDownloader → Option HttpFileDownloader
failed d =
    change_status FileTransferStatus.error FileTransferError.malformed_url []
      (record d { thread = Work.done })

-- The thread up to its session.
unfoldable pub open_session : Text → HttpFileDownloader → Option HttpFileDownloader
open_session url d = do
  t ← change_status FileTransferStatus.file_transfer FileTransferError.none [] d
  elim (extract_port url) [
    | none ↦ failed t
    | some port ↦ some (record t { session = true; thread = requesting url port })
  ]

abbrev pub is_secure : Text → Bool
is_secure url = elim (find https_path_prefix url) [ none ↦ false | some i ↦ true ]

-- The request on the session, which is a null pointer after `stop`.
unfoldable pub request_file :
    Surroundings → Text → ℕ → HttpFileDownloader → Option HttpFileDownloader
request_file e url port d =
    if not d.session
    then none
    else elim (e.request (is_secure url) (extract_host url) (if is_secure url then 443 else port)
        (extract_uri url)) [
          | none ↦ failed d
          | some (code, body) ↦
              if not (code == 200)
              then failed d
              else some (record d { bytes = body; thread = announcing url })
        ]

unfoldable pub announce_file : Surroundings → Text → HttpFileDownloader → Option HttpFileDownloader
announce_file e url d =
    change_status FileTransferStatus.file_ready FileTransferError.none
      (file_name_of e (extract_uri url) d.bytes) (record d { thread = Work.done })

-- `download`, one stage at a time: between two of them other threads call the downloader.
unfoldable pub advance : Surroundings → HttpFileDownloader → Option HttpFileDownloader
advance e d = elim d.thread [
  | Work.done ↦ some d
  | starting url ↦ open_session url d
  | requesting url port ↦ request_file e url port d
  | announcing url ↦ announce_file e url d
]

-- Joining the thread waits for all its stages.
unfoldable pub join : Surroundings → HttpFileDownloader → Option HttpFileDownloader
join e d = advance e d >>= advance e >>= advance e

unfoldable pub download_file :
    Surroundings → Text → Option ℕ → HttpFileDownloader → Option HttpFileDownloader
download_file e url callback d =
    let t : HttpFileDownloader = record d { status_callback = callback } in
    if not (is_url url)
    then change_status FileTransferStatus.error FileTransferError.malformed_url [] t
    else (do u ← join e t; some (record u { thread = starting url }))

-- The session is dropped and the thread joined.
unfoldable pub stop : Surroundings → HttpFileDownloader → Option HttpFileDownloader
stop e d = join e (record d { session = false })

-- What `abort_download` comes to: it returns, it waits for ever for `m_mutex`, or it is undefined.
pub data Aborted : Type 0 where
  returned blocked : HttpFileDownloader → Aborted
  undefined : Aborted

-- `m_mutex` is held here when `changeStatus` locks it again.
unfoldable pub abort_download : Surroundings → HttpFileDownloader → Aborted
abort_download e d =
    if not d.session
    then returned d
    else if d.status == FileTransferStatus.awaiting_device
        || d.status == FileTransferStatus.file_transfer
    then (if d.locked
        then blocked d
        else (let t : HttpFileDownloader = record d {
          locked = true;
          status = FileTransferStatus.aborted;
        } in
            elim (change_status FileTransferStatus.aborted FileTransferError.none [] t) [
              | none ↦ blocked t
              | some u ↦ elim (stop e (record u { locked = false })) [
                | none ↦ undefined
                | some v ↦ returned v
              ]
            ]))
    else returned d

-- The buffer runs its oldest command, on the callback that is set by then; `none` is also the call
-- of an empty function.
unfoldable pub run_next : HttpFileDownloader → Option HttpFileDownloader
run_next d = elim d.command_buffer [
  | [] ↦ some d
  | command ∷ rest ↦ elim d.status_callback [
    | none ↦ none
    | some callback ↦
        some (record d { command_buffer = rest; calls = d.calls ++ (callback, command) ∷ [] })
  ]
]
