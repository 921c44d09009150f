-- ===== src/Downloader/Statuses.antt =====
-- The statuses that a download announces, and an abort.
use wolk_connect_task.Prelude.{
  Text, ℕ, Bool, ◌≡◌, ◌&&◌, ◌||◌, ◌⊎◌, inl, inr, refl, true, false, none, some, [], ◌∷◌, ◌++◌,
  nat_eq, ◌==◌, append_assoc, append-nil, arith, Bool-cases, Option-cases, if◌then◌else◌,
}
use wolk_connect_task.Sdk.{FileTransferStatus, FileTransferError, status_eq}
use wolk_connect_task.Downloader.{
  Surroundings, HttpFileDownloader, Work, starting, requesting, announcing, change_status, advance,
  join, open_session, request_file, announce_file, failed, is_secure, download_file, abort_download,
  returned, blocked,
}
use wolk_connect_task.Downloader.Url.{is_url, extract_port, extract_host, extract_uri}
use wolk_connect_task.Downloader.Stages.{
  answer, in_transfer, outcome, announced, in_error, opened, open_session-opened,
  open_session-failed, request_file-none, request_file-some, announce_file-announced, join-stages,
}

-- What a download leaves.
abbrev pub Announces : Surroundings → Text → HttpFileDownloader → HttpFileDownloader → Type 0
Announces e url d t =
    (t.thread ≡ Work.done)
    × (t.command_buffer ≡ d.command_buffer ++ in_transfer ∷ outcome e url ∷ [])
    × (t.status ≡ (outcome e url).status)
    × (t.bytes ≡ (elim (answer e url) [ none ↦ d.bytes | some body ↦ body ]))

-- A thread that was started runs to its end, when the mutex is free, the status is not that of a
-- transfer, and a callback is set. It announces the transfer, and then either the file, under its
-- name and with its bytes in the downloader, when the network answers OK, or an error.
pub join-Announces :
    (e : Surroundings) (url : Text) (callback : ℕ) (d : HttpFileDownloader)
    → d.locked ≡ false
    → d.thread ≡ starting url
    → (FileTransferStatus.file_transfer == d.status) ≡ false
    → d.status_callback ≡ some callback
    → (t : HttpFileDownloader) × (join e d ≡ some t) × Announces e url d t
unfolding advance
join-Announces e url callback d free started new heard = elim (Option-cases (extract_port url)) [
  | inl missing ↦
      let t = announced in_error (record (announced in_transfer d) { thread = Work.done }) in
      (
        t,
        join-stages e d t t t
            (ground (arith, open_session-failed url callback d free new heard missing)) refl refl,
        ground (arith, append_assoc d.command_buffer (in_transfer ∷ []) (in_error ∷ [])),
      )
  | inr (port, found) ↦
      let u = opened url port d in
      let first : advance e d ≡ some u =
        ground (arith, open_session-opened url callback port d free new heard found) in
      elim (Option-cases (answer e url)) [
        | inl refused ↦
            let t = announced in_error (record u { thread = Work.done }) in
            (
              t,
              join-stages e d u t t first
                  (request_file-none e url callback port u free refl refl heard found refused) refl,
              ground (arith, append_assoc d.command_buffer (in_transfer ∷ []) (in_error ∷ [])),
            )
        | inr (body, answered) ↦
            let v : HttpFileDownloader = record u { bytes = body; thread = announcing url } in
            let t = announced (outcome e url) (record v { thread = Work.done }) in
            (
              t,
              join-stages e d u v t first (request_file-some e url port body u refl found answered)
                  (ground (arith, announce_file-announced e url callback v free refl heard)),
              ground (arith, append_assoc d.command_buffer (in_transfer ∷ []) (outcome e url ∷ [])),
            )
      ]
]

-- Whether an abort has something to do: a session is open and no last status was reached.
abbrev pub in_progress : HttpFileDownloader → Bool
in_progress d =
    d.session
    && (d.status == FileTransferStatus.awaiting_device
        || d.status == FileTransferStatus.file_transfer)

-- The downloader after an abort that hangs.
abbrev pub hung : HttpFileDownloader → HttpFileDownloader
hung d = record d { locked = true; status = FileTransferStatus.aborted }

-- A thread with work left does not end while the mutex is held and the session is open.
join-blocked :
    (e : Surroundings) (work : Work) (d : HttpFileDownloader)
    → d.thread ≡ work
    → d.locked ≡ true
    → d.session ≡ true
    → (work ≡ Work.done) ⊎ (join e d ≡ none)
unfolding change_status join advance open_session request_file announce_file failed
join-blocked e Work.done d left held open' = inl refl
join-blocked e (starting url) d left held open' = inr (ground arith)
join-blocked e (requesting url port) d left held open' = inr (
    ground (
      arith,
      Option-cases (
          e.request (is_secure url) (extract_host url) (if is_secure url then 443 else port)
            (extract_uri url)),
    ))
join-blocked e (announcing url) d left held open' = inr (ground arith)

-- An abort with nothing to do returns and changes nothing. One with something to do, when the mutex is
-- free, never returns: it waits for the mutex that it holds itself, with the status set to ABORTED, no
-- status queued, the name, the session and the thread as they were. From then on no status can be
-- announced, and a thread that has work left never ends.
pub abort_download-hangs :
    (e : Surroundings) (d : HttpFileDownloader) (status : FileTransferStatus)
    (error : FileTransferError) (file_name : Text)
    → d.locked ≡ false
    → ((in_progress d ≡ false) × (abort_download e d ≡ returned d))
      ⊎ ((in_progress d ≡ true)
          × (abort_download e d ≡ blocked (hung d))
          × (change_status status error file_name (hung d) ≡ none)
          × ((d.thread ≡ Work.done) ⊎ (join e (hung d) ≡ none)))
unfolding abort_download change_status
abort_download-hangs e d status error file_name free = elim (Bool-cases (in_progress d)) [
  | inl busy ↦
      inr (busy, ground arith, refl, join-blocked e d.thread (hung d) refl refl (ground arith))
  | inr idle ↦ inl (idle, ground arith)
]

-- A malformed URL, when the mutex is free: an error is queued for the new callback, unless the last
-- status was an error already; then nothing is queued. The thread is left as it is.
download_file-malformed :
    (e : Surroundings) (url : Text) (callback : ℕ) (d : HttpFileDownloader)
    → is_url url ≡ false
    → d.locked ≡ false
    → (t : HttpFileDownloader) × (download_file e url (some callback) d ≡ some t)
      × (t.thread ≡ d.thread)
      × (t.command_buffer
          ≡ d.command_buffer
            ++ (if d.status == FileTransferStatus.error then [] else in_error ∷ []))
unfolding download_file change_status
download_file-malformed e url callback d malformed free =
    let heard : HttpFileDownloader = record d { status_callback = some callback } in
    elim (Bool-cases (d.status == FileTransferStatus.error)) [
      | inl again ↦ (heard, ground arith, refl, ground (arith, append-nil d.command_buffer))
      | inr new ↦ (announced in_error heard, ground arith, refl, ground arith)
    ]
