-- ===== src/Tests/Downloader.antt =====
-- Witnesses for the downloader: a network that answers two URLs.
use wolk_connect_task.Prelude.{
  ◌≡◌, ◌↔◌, ◌⊎◌, refl, true, false, none, some, [], ◌∷◌, codes, if◌then◌else◌, ◌==◌, text_eq, arith,
}
use Prim.Native.Nat.{◌%◌, ◌^◌}
use wolk_connect_task.Sdk.{FileTransferStatus, FileTransferError, Hashes}
use wolk_connect_task.Downloader.{
  Surroundings, HttpFileDownloader, Work, starting, requesting, join, download_file, abort_download,
  returned, blocked, change_status,
}
use wolk_connect_task.Downloader.Url.{find, is_url, extract_host, extract_port, extract_uri}
use wolk_connect_task.Downloader.Url.Texts.{Lacks}
use wolk_connect_task.Downloader.Url.Parts.{extract-with_port}
use wolk_connect_task.Downloader.Stages.{outcome}
use wolk_connect_task.Downloader.Statuses.{
  Announces, join-Announces, in_progress, hung, abort_download-hangs,
}

abbrev hashes : Hashes
hashes = record {
  to_byte_array = λ t. t;
  to_hex_string = λ b. b;
  hash_sha256 = λ b. b;
  hash_mda5 = λ b. b;
}

-- The network knows one file of one host.
abbrev e : Surroundings
e = record {
  request = λ secure host port uri. if uri == codes "/a?b" then some (200, 7 ∷ []) else none;
  hashes = hashes;
}

abbrev fresh : HttpFileDownloader
fresh = record {
  status = FileTransferStatus.awaiting_device;
  name = [];
  bytes = [];
  status_callback = some 4;
  command_buffer = [];
  calls = [];
  locked = false;
  session = false;
  thread = starting (codes "http://x.io:8080/a?b");
}

abbrev host_lacks : Lacks b':' (codes "x.io") × Lacks b'/' (codes "x.io")
host_lacks = (
  (λ e. omega arith, (λ e. omega arith, (λ e. omega arith, (λ e. omega arith, tt)))),
  (λ e. omega arith, (λ e. omega arith, (λ e. omega arith, (λ e. omega arith, tt)))),
)

extract-with_port_example :
    (extract_host (codes "http://x.io:65537/a") ≡ codes "x.io")
    × (extract_port (codes "http://x.io:65537/a") ≡ some (65537 % 2 ^ 16))
    × (extract_uri (codes "http://x.io:65537/a") ≡ codes "/a")
unfolding find wolk_connect_task.Downloader.Url.starts_with native.Mathlib.Decide.ℕ_discrete
    wolk_connect_task.Downloader.Url.digits_value
extract-with_port_example =
    extract-with_port (codes "x.io") b'6' (codes "5537") (codes "a") host_lacks.0 host_lacks.1
      (refl, (refl, (refl, (refl, (refl, tt))))) (omega arith) refl

join-Announces_example :
    (t : HttpFileDownloader) × (join e fresh ≡ some t)
    × Announces e (codes "http://x.io:8080/a?b") fresh t
unfolding wolk_connect_task.Sdk.FileTransferStatus-discrete
join-Announces_example = join-Announces e (codes "http://x.io:8080/a?b") 4 fresh refl refl refl refl

-- The file is found, under the name that its URI ends in before the question mark.
outcome_found : outcome e (codes "http://x.io:8080/a?b") ≡ record {
  status = FileTransferStatus.file_ready;
  error = FileTransferError.none;
  file_name = codes "a";
}
unfolding extract_port extract_uri find wolk_connect_task.Downloader.Url.find_char
    wolk_connect_task.Downloader.Url.rfind_char wolk_connect_task.Downloader.Url.remove_first
    wolk_connect_task.Downloader.Url.starts_with wolk_connect_task.Downloader.Url.stoul
    wolk_connect_task.Downloader.Url.skip_spaces wolk_connect_task.Downloader.Url.parse_digits
    wolk_connect_task.Downloader.Url.digits_value native.Mathlib.Decide.ℕ_discrete
    wolk_connect_task.Prelude.text_dec wolk_connect_task.Downloader.file_name_of
outcome_found = refl

abbrev requested : HttpFileDownloader
requested = record fresh {
  status = FileTransferStatus.file_transfer;
  session = true;
  thread = requesting (codes "http://x.io:8080/a?b") 8080;
}

abort_download-hangs_example :
    ((in_progress requested ≡ false) × (abort_download e requested ≡ returned requested))
    ⊎ ((in_progress requested ≡ true)
        × (abort_download e requested ≡ blocked (hung requested))
        × (change_status FileTransferStatus.file_ready FileTransferError.none [] (hung requested)
            ≡ none)
        × ((requested.thread ≡ Work.done) ⊎ (join e (hung requested) ≡ none)))
abort_download-hangs_example =
    abort_download-hangs e requested FileTransferStatus.file_ready FileTransferError.none [] refl
