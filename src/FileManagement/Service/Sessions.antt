-- ===== src/FileManagement/Service/Sessions.antt =====
-- The sessions of the devices: each is kept under its own device, a message never replaces one,
-- and only the buffer's deletion ends it.
use wolk_connect_task.Prelude.{
  Text, suc, ◌<◌, ◌≡◌, refl, inl, inr, none, some, List, [], ◌∷◌, arith, Option-cases, Bool-cases,
  text_eq, nat_eq, ◌==◌,
}
use wolk_connect_task.Prelude.Dict.{lookup-insert}
use wolk_connect_task.Sdk.{FileTransferError, error_eq, FileBinaryResponseMessage, Hashes}
use wolk_connect_task.FileManagement.Session.{
  FileTransferSession, Request, notify, abort, push_chunk, reject_chunk, accept_chunk,
}
use wolk_connect_task.FileManagement.Service.{FileManagementService, session_of, perform}
use wolk_connect_task.FileManagement.Service.Handlers.{
  update_session, abort_session, on_file_upload_abort,
}

-- The same object, for the same device.
pub record IsSame (s t : FileTransferSession) : Type 0 where
  pub identity : t.identity ≡ s.identity
  pub device_key : t.device_key ≡ s.device_key

abort-IsSame :
    (s t : FileTransferSession) (out : List Request) → abort s ≡ some (t, out) → IsSame s t
unfolding abort
abort-IsSame s t out p = ground arith

reject_chunk-IsSame : (s : FileTransferSession) → IsSame s (reject_chunk s).0
unfolding reject_chunk
reject_chunk-IsSame s = ground arith

accept_chunk-IsSame :
    (h : Hashes) (s : FileTransferSession) (m : FileBinaryResponseMessage)
    → IsSame s (accept_chunk h s m).0
unfolding accept_chunk
accept_chunk-IsSame h s m = ground arith

pub push_chunk-IsSame :
    (h : Hashes) (s t : FileTransferSession) (m : FileBinaryResponseMessage) (e : FileTransferError)
    (out : List Request)
    → push_chunk h s m ≡ some (t, e, out)
    → IsSame s t
unfolding push_chunk
push_chunk-IsSame h s t m e out p = ground (arith, reject_chunk-IsSame s, accept_chunk-IsSame h s m)

module _ {Wire Fs : Type 0} where
  -- Sessions are kept under their device, and numbered below `next_session`.
  abbrev pub IsWellFormed : FileManagementService Wire Fs → Type 0
  IsWellFormed s =
      (k : Text) (t : FileTransferSession)
      → session_of k s ≡ some t
      → (t.device_key ≡ k) × (t.identity < s.next_session)

  -- What a message may do to the sessions: each that was there is there, none is made or changed
  -- into another object but under a new number.
  pub record Keeps (s u : FileManagementService Wire Fs) : Type 0 where
    pub sound : IsWellFormed u
    pub stays :
        (k : Text) (t : FileTransferSession)
        → session_of k s ≡ some t
        → (t' : FileTransferSession) × (session_of k u ≡ some t') × IsSame t t'

  -- The sessions are untouched.
  pub Keeps-eq :
      (s u : FileManagementService Wire Fs)
      → IsWellFormed s
      → u.sessions ≡ s.sessions
      → u.next_session ≡ s.next_session
      → Keeps s u
  Keeps-eq s u w p q = record {
    sound = λ k t h. ground (arith, w k t);
    stays = λ k t h. (t, ground arith, record { identity = refl; device_key = refl });
  }

  -- One session was changed in place.
  pub Keeps-update :
      (s u : FileManagementService Wire Fs) (k : Text) (t t' : FileTransferSession)
      → IsWellFormed s
      → session_of k s ≡ some t
      → IsSame t t'
      → u.sessions ≡ (update_session t' s).sessions
      → u.next_session ≡ s.next_session
      → Keeps s u
  Keeps-update s u k t t' w h same p q = record {
    sound = λ j v hv.
        ground (arith, w j v, w k t h, lookup-insert j t'.device_key (some t') s.sessions);
    stays = λ j v hv. elim (Bool-cases (k == j)) [
      | inl hit ↦ (
        t',
        ground (arith, w k t h, lookup-insert j t'.device_key (some t') s.sessions),
        ground arith,
      )
      | inr miss ↦ (
        v,
        ground (arith, w k t h, lookup-insert j t'.device_key (some t') s.sessions),
        record { identity = refl; device_key = refl },
      )
    ];
  }

  pub perform-sessions :
      (t : FileTransferSession) (out : List Request) (s : FileManagementService Wire Fs)
      → ((perform t out s).sessions ≡ s.sessions)
        × ((perform t out s).next_session ≡ s.next_session)
  unfolding perform
  perform-sessions t [] s = (refl, refl)
  perform-sessions t (notify status error ∷ out) s = perform-sessions t out _
  perform-sessions t (Request.abort_download ∷ out) s = perform-sessions t out _
  perform-sessions t (Request.download_file url ∷ out) s = perform-sessions t out _

  -- A session was made for a device that had none.
  pub Keeps-new :
      (s u : FileManagementService Wire Fs) (k : Text) (t : FileTransferSession)
      → IsWellFormed s
      → session_of k s ≡ none
      → t.device_key ≡ k
      → t.identity ≡ s.next_session
      → u.sessions ≡ (update_session t s).sessions
      → u.next_session ≡ suc s.next_session
      → Keeps s u
  Keeps-new s u k t w free own fresh p q = record {
    sound = λ j v hv. ground (arith, w j v, lookup-insert j t.device_key (some t) s.sessions);
    stays = λ j v hv. (
      v,
      ground (arith, lookup-insert j t.device_key (some t) s.sessions),
      record { identity = refl; device_key = refl },
    );
  }

  pub abort_session-Keeps :
      (s u : FileManagementService Wire Fs) (k : Text) (t : FileTransferSession)
      → IsWellFormed s
      → session_of k s ≡ some t
      → abort_session t s ≡ some u
      → Keeps s u
  unfolding abort_session
  abort_session-Keeps s u k t w h p = elim (Option-cases (abort t)) [
    | inl bad ↦ absurd (ground arith)
    | inr (r, e) ↦
        Keeps-update s u k t r.0 w h (abort-IsSame t r.0 r.1 e)
          (ground (arith, perform-sessions r.0 r.1 (update_session r.0 s)))
          (ground (arith, perform-sessions r.0 r.1 (update_session r.0 s)))
  ]

  pub on_file_upload_abort-Keeps :
      (s u : FileManagementService Wire Fs) (k name : Text)
      → IsWellFormed s
      → on_file_upload_abort k name s ≡ some u
      → Keeps s u
  unfolding on_file_upload_abort
  on_file_upload_abort-Keeps s u k name w p = grind (arith, abort_session-Keeps, Keeps-eq)
