-- ===== src/Tests/Uploads.antt =====
-- internal/recorder/upload.go at one session that waits for its upload.
use spectado_stream_recorder.Common.{
  arith, ℕ, ◌≡◌, refl, ◌⊎◌, true, false, none, some, [], ◌∷◌, get_or, All,
}
use spectado_stream_recorder.Common.Text.{Text, text_eq}
use spectado_stream_recorder.Recorder.Session.{Session, finalized, is_terminal}
use spectado_stream_recorder.Recorder.Reconcile.{blank_session}
use spectado_stream_recorder.Recorder.Retention.{size}
use spectado_stream_recorder.Recorder.Uploads.Manifest.{Formats}
use spectado_stream_recorder.Recorder.Uploads.Group.{
  rename_group, Attempt, Member, same_object, belongs,
}
use spectado_stream_recorder.Recorder.Uploads.Steps.{answers, Answers, Measured, measure}
use spectado_stream_recorder.Recorder.Uploads.Tiling.{Covers, measure-Covers}
use spectado_stream_recorder.Recorder.Runs.{Run}
use spectado_stream_recorder.Recorder.Manager.{find_session}
use spectado_stream_recorder.Recorder.Uploads.Once.{upload_once}
use spectado_stream_recorder.Recorder.Uploads.Finished.{finished_with}
use spectado_stream_recorder.Recorder.Uploads.Buckets.{in_bucket}
use spectado_stream_recorder.Recorder.Uploads.Sound.{Justified}
use spectado_stream_recorder.Recorder.Uploads.Renames.{Bounded, Most, Renamed, rename_group-Bounded}
use spectado_stream_recorder.Recorder.Uploads.Promises.{
  upload_once-removed, upload_once-stored, upload_once_finishes,
}
use spectado_stream_recorder.Tests.Manager.{config, texts, session_of}

-- A number is written as one character of its own, and a digest is the session's id.
abbrev pub formats : Formats
formats = record {
  session_digest = λ t. t;
  atoi = λ t. some (get_or t 0 0);
  format_time = λ n. n ∷ [];
  parse_time = λ t. elim t [ [] ↦ none | c ∷ cs ↦ some c ];
}

abbrev object : Text
object = 107 ∷ []

abbrev waiting : Session ℕ
waiting = record (session_of 97) { state = finalized; key = object }

abbrev before : Attempt ℕ
before = record {
  sessions = waiting ∷ [];
  remux_failures = λ k. 0;
  merge_allowed = none;
  stored = [];
  removed = [];
}

-- Nothing is stored under the key, and everything works.
abbrev env : Answers ℕ
env = record {
  now = 5;
  files = λ t. size 100;
  head = answers none;
  fallback_head = answers none;
  trimmed = λ t. 0;
  size_behind = λ t. some 100;
  scan_runs = λ t offsets. some ([], record { frames = 4; duration_seconds = 1 });
  conditional_writes = answers true;
  free_disk = none;
  fetch = none;
  build = some (90, false);
  concat = some 100;
  write_document_fails = false;
  overwrite = none;
  upload = answers (101 ∷ []);
  verify = answers none;
  save_fails = λ t. false;
}

run_outcome : (upload_once config texts formats env waiting object before).0 ≡ none
unfolding upload_once is_terminal text_eq same_object blank_session
run_outcome = refl

run_removed :
    (upload_once config texts formats env waiting object before).1.removed ≡ (97 ∷ []) ∷ []
unfolding upload_once is_terminal text_eq same_object blank_session
run_removed = refl

not_terminal : is_terminal waiting.state ≡ false
unfolding is_terminal
not_terminal = refl

upload_once-removed_example :
    All
      (λ sid.
        in_bucket texts formats env
          (upload_once config texts formats env waiting object before).1.stored
          sid
        ≡ true)
      (upload_once config texts formats env waiting object before).1.removed
upload_once-removed_example = upload_once-removed config texts formats env waiting object before

upload_once-stored_example :
    All
      (Justified config texts formats env waiting object [])
      (upload_once config texts formats env waiting object before).1.stored
upload_once-stored_example = upload_once-stored config texts formats env waiting object before

upload_once_finishes_example :
    All
      (λ (o : Session ℕ).
        (belongs waiting object o ≡ false)
        ⊎ (finished_with o.session_id
              (upload_once config texts formats env waiting object before).1.sessions
            ≡ true))
      before.sessions
upload_once_finishes_example =
    upload_once_finishes config texts formats env waiting object before not_terminal run_outcome

before-Bounded : All Bounded before.sessions
unfolding blank_session
before-Bounded = (omega arith, tt)

rename_group-Bounded_example :
    (n : ℕ) × Most n (waiting ∷ [])
    × Renamed texts object (waiting ∷ []) before n (rename_group texts object (waiting ∷ []) before)
rename_group-Bounded_example =
    rename_group-Bounded texts object (waiting ∷ []) before before-Bounded

abbrev run_at : ℕ → Run ℕ
run_at offset = record {
  started_at = 1;
  ended_at = none;
  anchor = 1;
  anchor_source = [];
  offset = offset;
  bytes = 0;
  frames = 0;
  duration_seconds = 0;
  video_files = [];
}

-- Two runs, in a capture of twenty bytes whose tail was cut by one.
abbrev two_runs : Session ℕ
two_runs = record waiting { runs = run_at 0 ∷ run_at 12 ∷ [] }

abbrev scanned : Measured ℕ
scanned = record { frames = 3; duration_seconds = 1 }

abbrev readable : Answers ℕ
readable = record env {
  trimmed = λ sid. 1;
  size_behind = λ sid. some 20;
  scan_runs = λ sid offsets. some (scanned ∷ [], scanned);
}

abbrev part : Member
part = record { session_id = waiting.session_id; start = 1; digest = []; size = 0; frames = 0 }

abbrev recorded : Attempt ℕ
recorded = record before { sessions = two_runs ∷ [] }

part_measured : (measure readable part recorded).0 ≡ some (record part { size = 20; frames = 3 })
unfolding measure
part_measured = refl

part_found : find_session part.session_id recorded.sessions ≡ some two_runs
unfolding find_session blank_session text_eq
part_found = refl

measure-Covers_example :
    (t : Session ℕ) × (find_session part.session_id (measure readable part recorded).1.sessions
      ≡ some t)
    × (t.bytes ≡ 20)
    × Covers 20 (run_at 0 ∷ run_at 12 ∷ []) t.runs
measure-Covers_example =
    measure-Covers readable part recorded part_measured part_found (omega arith, omega arith)
