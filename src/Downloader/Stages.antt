-- ===== src/Downloader/Stages.antt =====
-- The three stages of a download, and the statuses that they announce.
use wolk_connect_task.Prelude.{
  Text, ℕ, ◌≡◌, refl, true, false, Option, none, some, [], ◌∷◌, ◌++◌, nat_eq, ◌==◌, arith,
  if◌then◌else◌,
}
use wolk_connect_task.Sdk.{ByteArray, FileTransferStatus, FileTransferError, status_eq}
use wolk_connect_task.Downloader.{
  Surroundings, StatusCommand, HttpFileDownloader, Work, requesting, announcing, change_status,
  file_name_of, failed, open_session, is_secure, request_file, announce_file, advance, join,
}
use wolk_connect_task.Downloader.Url.{extract_host, extract_port, extract_uri}

-- What the network answers for a URL, when it has a port and the answer is OK.
abbrev pub answer : Surroundings → Text → Option ByteArray
answer e url = elim (extract_port url) [
  | none ↦ none
  | some port ↦
      elim (e.request (is_secure url) (extract_host url) (if is_secure url then 443 else port)
        (extract_uri url)) [
          | none ↦ none
          | some (code, body) ↦ if code == 200 then some body else none
        ]
]

abbrev pub in_transfer : StatusCommand
in_transfer = record {
  status = FileTransferStatus.file_transfer;
  error = FileTransferError.none;
  file_name = [];
}

-- The last status of a download.
abbrev pub outcome : Surroundings → Text → StatusCommand
outcome e url = elim (answer e url) [
  | none ↦ record {
    status = FileTransferStatus.error;
    error = FileTransferError.malformed_url;
    file_name = [];
  }
  | some body ↦ record {
    status = FileTransferStatus.file_ready;
    error = FileTransferError.none;
    file_name = file_name_of e (extract_uri url) body;
  }
]

-- The downloader after a status that its callback is to hear.
abbrev pub announced : StatusCommand → HttpFileDownloader → HttpFileDownloader
announced command d = record d {
  status = command.status;
  name = command.file_name;
  command_buffer = d.command_buffer ++ command ∷ [];
}

pub change_status-heard :
    (command : StatusCommand) (callback : ℕ) (d : HttpFileDownloader)
    → d.locked ≡ false
    → (command.status == d.status) ≡ false
    → d.status_callback ≡ some callback
    → change_status command.status command.error command.file_name d ≡ some (announced command d)
unfolding change_status
change_status-heard command callback d free new heard = ground arith

abbrev pub in_error : StatusCommand
in_error = record {
  status = FileTransferStatus.error;
  error = FileTransferError.malformed_url;
  file_name = [];
}

pub failed-done :
    (callback : ℕ) (d : HttpFileDownloader)
    → d.locked ≡ false
    → d.status ≡ FileTransferStatus.file_transfer
    → d.status_callback ≡ some callback
    → failed d ≡ some (announced in_error (record d { thread = Work.done }))
unfolding failed
failed-done callback d free at heard =
    change_status-heard in_error callback (record d { thread = Work.done }) free (ground arith)
      heard

pub join-from_done :
    (e : Surroundings) (d : HttpFileDownloader) → d.thread ≡ Work.done → advance e d ≡ some d
unfolding advance
join-from_done e d stopped = ground arith

-- The states after each stage.
abbrev pub opened : Text → ℕ → HttpFileDownloader → HttpFileDownloader
opened url port d = record (announced in_transfer d) {
  session = true;
  thread = requesting url port;
}

pub open_session-opened :
    (url : Text) (callback port : ℕ) (d : HttpFileDownloader)
    → d.locked ≡ false
    → (FileTransferStatus.file_transfer == d.status) ≡ false
    → d.status_callback ≡ some callback
    → extract_port url ≡ some port
    → open_session url d ≡ some (opened url port d)
unfolding open_session
open_session-opened url callback port d free new heard found =
    ground (arith, change_status-heard in_transfer callback d free new heard)

pub open_session-failed :
    (url : Text) (callback : ℕ) (d : HttpFileDownloader)
    → d.locked ≡ false
    → (FileTransferStatus.file_transfer == d.status) ≡ false
    → d.status_callback ≡ some callback
    → extract_port url ≡ none
    → open_session url d
      ≡ some (announced in_error (record (announced in_transfer d) { thread = Work.done }))
unfolding open_session
open_session-failed url callback d free new heard missing = ground (
  arith,
  change_status-heard in_transfer callback d free new heard,
  failed-done callback (announced in_transfer d) free refl heard,
)

pub request_file-none :
    (e : Surroundings) (url : Text) (callback port : ℕ) (d : HttpFileDownloader)
    → d.locked ≡ false
    → d.session ≡ true
    → d.status ≡ FileTransferStatus.file_transfer
    → d.status_callback ≡ some callback
    → extract_port url ≡ some port
    → answer e url ≡ none
    → request_file e url port d ≡ some (announced in_error (record d { thread = Work.done }))
unfolding request_file
request_file-none e url callback port d free set at heard found refused =
    ground (arith, failed-done callback d free at heard)

pub request_file-some :
    (e : Surroundings) (url : Text) (port : ℕ) (body : ByteArray) (d : HttpFileDownloader)
    → d.session ≡ true
    → extract_port url ≡ some port
    → answer e url ≡ some body
    → request_file e url port d ≡ some (record d { bytes = body; thread = announcing url })
unfolding request_file
request_file-some e url port body d set found answered = ground arith

pub announce_file-announced :
    (e : Surroundings) (url : Text) (callback : ℕ) (d : HttpFileDownloader)
    → d.locked ≡ false
    → d.status ≡ FileTransferStatus.file_transfer
    → d.status_callback ≡ some callback
    → announce_file e url d
      ≡ some (
          announced
            (record {
              status = FileTransferStatus.file_ready;
              error = FileTransferError.none;
              file_name = file_name_of e (extract_uri url) d.bytes;
            })
            (record d { thread = Work.done }))
unfolding announce_file
announce_file-announced e url callback d free at heard =
    change_status-heard
      (record {
        status = FileTransferStatus.file_ready;
        error = FileTransferError.none;
        file_name = file_name_of e (extract_uri url) d.bytes;
      })
      callback (record d { thread = Work.done }) free (ground arith) heard

pub join-stages :
    (e : Surroundings) (d t u v : HttpFileDownloader)
    → advance e d ≡ some t
    → advance e t ≡ some u
    → advance e u ≡ some v
    → join e d ≡ some v
unfolding join
join-stages e d t u v a b c = ground arith
