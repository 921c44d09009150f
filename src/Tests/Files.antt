-- ===== src/Tests/Files.antt =====
-- A device that uploads a file of two bytes, and aborts that come late.
use wolk_connect_task.Prelude.{
  Text, ◌≡◌, refl, true, false, Option, none, some, [], ◌∷◌, codes, text_dec, arith,
}
use wolk_connect_task.Prelude.Dict.{lookup, insert}
use wolk_connect_task.Sdk.{
  FileTransferStatus, FileTransferError, FileUploadInitiateMessage, FileBinaryResponseMessage,
}
use wolk_connect_task.FileManagement.Session.{
  FileTransferSession, upload_session, get_next_chunk_request, collected_size, collect_from,
  push_chunk, accept_chunk,
}
use wolk_connect_task.FileManagement.Service.{
  Outbound, file_list_response, file_upload_status, MessageType, FileManagementProtocol,
  Surroundings, session_status, reset_session, FileManagementService, report_status,
  publish_message, send_chunk_request, status_message, perform,
}
use wolk_connect_task.FileManagement.Service.Files.Report.{present_files, report_present_files-sent}
use wolk_connect_task.FileManagement.Service.Files.{report_present_files}
use wolk_connect_task.FileManagement.Service.Handlers.{
  on_file_upload_abort, on_file_url_download_abort, on_file_upload_init, on_file_binary_response,
  dispatch, message_received,
}
use wolk_connect_task.FileManagement.Service.Run.{run_next}
use wolk_connect_task.FileManagement.Service.Sessions.{IsWellFormed, Keeps}
use wolk_connect_task.FileManagement.Service.Safety.{message_received-Keeps}
use wolk_connect_task.FileManagement.Session.Invariant.{IsSound}
use wolk_connect_task.FileManagement.Service.Reachable.{Reach, here, next, arrival, Reach-IsSound}
use wolk_connect_task.FileManagement.Service.Storage.{Stored, run_next-Stored}
use wolk_connect_task.FileManagement.Service.Aborts.{
  aborted, aborted_command, late_abort-empty, aborts-after_ready,
}
use wolk_connect_task.Tests.{Disk, disk_files, disk_files-IsStorage, hashes}

data Wire : Type 0 where
  upload_init : Text → FileUploadInitiateMessage → Wire
  binary : Text → FileBinaryResponseMessage → Wire
  out : Text → Outbound → Wire

abbrev type_of : Wire → MessageType
type_of (upload_init k m) = MessageType.file_upload_init
type_of (binary k m) = MessageType.file_binary_response
type_of (out k m) = MessageType.other

abbrev device_of : Wire → Text
device_of (upload_init k m) = k
device_of (binary k m) = k
device_of (out k m) = k

abbrev init_of : Wire → Option FileUploadInitiateMessage
init_of (upload_init k m) = some m
init_of (binary k m) = none
init_of (out k m) = none

abbrev chunk_of : Wire → Option FileBinaryResponseMessage
chunk_of (upload_init k m) = none
chunk_of (binary k m) = some m
chunk_of (out k m) = none

abbrev protocol : FileManagementProtocol Wire
protocol = record {
  get_message_type = type_of;
  get_device_key = device_of;
  parse_file_upload_init = init_of;
  parse_file_upload_abort = λ wire. none;
  parse_file_binary_response = chunk_of;
  parse_file_url_download_init = λ wire. none;
  parse_file_url_download_abort = λ wire. none;
  parse_file_list_request = λ wire. false;
  parse_file_delete = λ wire. none;
  parse_file_purge = λ wire. false;
  make_outbound_message = λ k m. some (out k m);
}

abbrev world : Surroundings Wire Disk
world = record { protocol = protocol; file_system = disk_files; hashes = hashes }

abbrev device : Text
device = codes "D1"

abbrev idle : FileManagementService Wire Disk
idle = record {
  file_transfer_enabled = true;
  file_transfer_url_enabled = true;
  file_location = codes "files";
  files = [];
  sessions = [];
  downloader = true;
  downloaded = [];
  listening = true;
  command_buffer = [];
  sent = [];
  calls = [];
  next_session = 0;
  disk = [];
}

abbrev init : FileUploadInitiateMessage
init = record { name = codes "f"; size = 2; hash = 2 ∷ [] }

abbrev opened : FileManagementService Wire Disk
opened = record idle {
  sessions = (device, some (upload_session 0 device init true)) ∷ [];
  next_session = 1;
  sent =
      out device
        (file_upload_status (codes "f") FileTransferStatus.file_transfer FileTransferError.none)
      ∷ out device (Outbound.file_binary_request (record { name = codes "f"; chunk_index = 0 }))
      ∷ [];
}

idle-IsWellFormed : IsWellFormed idle
unfolding lookup
idle-IsWellFormed k t found = cc

message_received-Keeps_example : Keeps idle opened
unfolding lookup insert text_dec message_received dispatch on_file_upload_init report_status
    publish_message send_chunk_request status_message get_next_chunk_request collected_size
    collect_from
message_received-Keeps_example =
    message_received-Keeps world (some (upload_init device init)) idle opened idle-IsWellFormed refl

report_present_files-sent_example :
    (report_present_files world device idle).sent
    ≡ out device (file_list_response (present_files world device idle)) ∷ []
report_present_files-sent_example = report_present_files-sent world device idle

abbrev ready : FileTransferSession
ready = record (upload_session 0 device init true) {
  chunks = record { previous_hash = []; bytes = 7 ∷ 8 ∷ []; hash = 2 ∷ [] } ∷ [];
  done = true;
  status = FileTransferStatus.file_ready;
}

abbrev waiting : FileManagementService Wire Disk
waiting = record idle {
  sessions = (device, some ready) ∷ [];
  next_session = 1;
  command_buffer =
      session_status 0 device FileTransferStatus.file_ready FileTransferError.none ∷ [];
}

run_next-Stored_example :
    (t : FileManagementService Wire Disk) × (run_next world waiting ≡ some t)
    × Stored world device ready [] waiting t
unfolding lookup text_dec
run_next-Stored_example =
    run_next-Stored world disk_files-IsStorage device ready [] waiting (refl, refl, refl, refl) refl

late_abort-empty_example :
    (t u : FileManagementService Wire Disk) × (on_file_upload_abort device (codes "f") waiting
      ≡ some t)
    × (run_next world t ≡ some u)
    × Stored world device (aborted ready) (aborted_command device ready ∷ []) t u
unfolding lookup text_dec
late_abort-empty_example =
    late_abort-empty world disk_files-IsStorage device ready [] waiting (refl, refl, refl, refl)
      refl refl

abbrev closing : FileManagementService Wire Disk
closing = record waiting { command_buffer = reset_session device ∷ [] }

aborts-after_ready_example :
    ((t u : FileManagementService Wire Disk) × (on_file_upload_abort device (codes "f") closing
        ≡ some t)
      × (run_next world t ≡ some u)
      × (run_next world u ≡ none))
    × ((t : FileManagementService Wire Disk) × (run_next world closing ≡ some t)
        × (on_file_url_download_abort device (codes "u") t ≡ none))
unfolding lookup text_dec
aborts-after_ready_example =
    aborts-after_ready world device (codes "u") ready closing (refl, refl, refl, refl) refl refl

abbrev chunk : FileBinaryResponseMessage
chunk = record { previous_hash = []; content = 7 ∷ 8 ∷ []; current_hash = 2 ∷ [] }

abbrev completed : FileManagementService Wire Disk
completed = record opened {
  sessions = (device, some ready) ∷ [];
  command_buffer =
      session_status 0 device FileTransferStatus.file_ready FileTransferError.none ∷ [];
}

idle-reaches : Reach world idle completed
unfolding lookup insert text_dec message_received dispatch on_file_upload_init
    on_file_binary_response push_chunk accept_chunk report_status perform publish_message
    send_chunk_request status_message get_next_chunk_request collected_size collect_from
    wolk_connect_task.FileManagement.Session.follows
    wolk_connect_task.FileManagement.Session.hash_matches
    wolk_connect_task.Sdk.FileTransferError-discrete
    wolk_connect_task.FileManagement.Session.all_bytes
    wolk_connect_task.Sdk.FileTransferStatus-discrete
idle-reaches =
    next (next here (arrival (some (upload_init device init)) refl))
      (arrival (some (binary device chunk)) refl)

Reach-IsSound_example : IsSound hashes ready
unfolding lookup text_dec
Reach-IsSound_example =
    Reach-IsSound world {s = idle} {u = completed} device ready refl idle-reaches refl
      (refl, omega arith)
