-- ===== src/Tests/Recovery.antt =====
-- Recovery and retention at the sessions of Tests/Manager.antt.
use spectado_stream_recorder.Common.{ℕ, ◌≡◌, refl, ◌⊎◌, inl, true, false, none, some, [], ◌∷◌, All}
use spectado_stream_recorder.Common.Text.{text_eq, Listed}
use spectado_stream_recorder.Recorder.Session.{finalized, uploading, is_terminal, Session}
use spectado_stream_recorder.Recorder.Manager.{find_session}
use spectado_stream_recorder.Recorder.Reconcile.{blank_session}
use spectado_stream_recorder.Recorder.Recovery.{Disk}
use spectado_stream_recorder.Recorder.Recovery.Uploads.{awaits_upload}
use spectado_stream_recorder.Recorder.Recovery.Queue.{recover_all, recover_all-queued}
use spectado_stream_recorder.Recorder.Lifecycle.{Machine}
use spectado_stream_recorder.Recorder.Retention.{size, Files, retention, find_session-retention}
use spectado_stream_recorder.Tests.Manager.{config, texts, two, session_of}

-- No file exists, and everything works.
abbrev empty_disk : Disk
empty_disk = record {
  audio = λ sid. none;
  trim = λ sid. record {
    open_fails = false;
    stat_fails = false;
    read_fails = false;
    close_fails = false;
    truncate_fails = false;
  };
  mkdir_fails = λ sid. false;
  open_fails = λ sid. false;
  stat_fails = λ sid. false;
  output_missing = λ sid. true;
}

abbrev started_up : Machine ℕ
started_up = record { manager = record two { active = []; sessions = [] }; upload_loops = [] }

-- One session whose upload was interrupted, one that waits for its upload, and one that records.
abbrev interrupted : Session ℕ
interrupted = record (session_of 98) { state = uploading }

abbrev waiting : Session ℕ
waiting = record (session_of 99) { state = finalized }

waiting_awaits : awaits_upload waiting.state ≡ true
waiting_awaits = refl

recover_all-queued_example :
    All
      (λ (s : Session ℕ).
        (awaits_upload s.state ≡ false)
        ⊎ Listed s.session_id
            (recover_all config texts true empty_disk 15
              (interrupted ∷ waiting ∷ session_of 97 ∷ [])
              started_up).upload_loops)
      (interrupted ∷ waiting ∷ session_of 97 ∷ [])
recover_all-queued_example =
    recover_all-queued config texts true empty_disk 15 (interrupted ∷ waiting ∷ session_of 97 ∷ [])
      started_up refl

abbrev files : Files
files = record { audio = λ sid. size 5; remove_fails = λ sid. false }

session_found : find_session (97 ∷ []) two.sessions ≡ some (session_of 97)
unfolding find_session blank_session text_eq
session_found = refl

session_open : is_terminal (session_of 97).state ≡ false
unfolding is_terminal blank_session
session_open = refl

find_session-retention_example :
    find_session (97 ∷ []) (retention 7 files 15 two).sessions ≡ some (session_of 97)
find_session-retention_example =
    find_session-retention 7 files 15 two (97 ∷ []) session_found (inl session_open)
