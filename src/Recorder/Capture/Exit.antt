-- ===== src/Recorder/Capture/Exit.antt =====
-- internal/recorder/ffmpeg.go, supervise: the state of a recording between two runs, what a run did,
-- how its end is classified and noted, and the backoff.
use spectado_stream_recorder.Common.{
  ℕ, ◌+◌, ◌*◌, ◌%◌, Bool, true, false, not, ◌&&◌, ◌||◌, Option, none, some, List, [], ◌∷◌, ◌++◌,
  ltb, if◌then◌else◌,
}
use spectado_stream_recorder.Common.Text.{Text, to_lower, contains, is_empty, codes}
use spectado_stream_recorder.Recorder.Runs.{add_exit}
use spectado_stream_recorder.Recorder.Session.{Session, RunExit}

abbrev pub minute : ℕ
minute = 60_000_000_000

-- videoPlan of a run with video.
pub record Plan : Type 0 where
  pub source : Text
  pub vmap : Text
  pub amap : Text
  pub path : Text

-- videoOutputMarkers
unfoldable pub video_output_markers : Plan → List Text
video_output_markers v =
    let always =
      codes "#1:"
      ∷ codes "#1/"
      ∷ codes "enc:libx264"
      ∷ codes "[libx264 @"
      ∷ (codes "'" ++ (v.vmap ++ codes "'"))
      ∷ (codes "file:" ++ v.path)
      ∷ [] in
    if is_empty v.amap then always else always ++ ((codes "'" ++ (v.amap ++ codes "'")) ∷ [])

-- The fields of activeRecording on the attribution of faults to the video.
pub record Video : Type 0 where
  pub counter_of : Text
  pub failures : ℕ
  pub trial : Bool
  pub fail_line : Text
  pub suspect : Text

pub record RunOutcome (F : Type 0) : Type 0 where
  pub run_err : Option Text
  pub write_err : Option Text
  -- isDiskFull, of the write error
  pub no_space : Bool
  -- wasKilled, and the flag of the stall watchdog
  pub sigkill : Bool
  pub stalled : Bool
  pub run_bytes : ℕ
  pub ran : ℕ
  pub ended_at : ℕ
  pub last_line : Text
  pub error_line : Text
  pub video_line : Text
  pub suppressed : ℕ
  pub run_tail : List Text
  pub meanwhile : Session F → Session F

-- The recording between two runs.
pub record Capture (F : Type 0) : Type 0 where
  pub session : Session F
  pub video : Video
  pub safe_args : Bool
  pub copy_failures : ℕ
  pub backoff : ℕ

abbrev pub is_there {ℓ} : {A : Type ℓ} → Option A → Bool
is_there none = false
is_there (some a) = true

-- classifyExit
unfoldable pub classify_exit : Bool → Bool → Bool → Bool → Bool → Text → Text
classify_exit run_err write_err disk_full killed stalled error_line =
    if disk_full
    then codes "disk-full"
    else if write_err
    then codes "write-error"
    else if stalled
    then codes "stall"
    else if killed
    then codes "killed"
    else if run_err
    then codes "exit-error"
    else if contains error_line (codes "Error during demuxing")
    then codes "demux-error"
    else codes "stream-ended"

-- nextBackoff: the wait, and the backoff behind it. A Duration is an int64 in two's complement, so
-- that one of 2^63 or more stands for a negative one, which is not above the greatest.
unfoldable pub next_backoff : ℕ → ℕ → ℕ → ℕ → ℕ × ℕ
next_backoff cur least most ran =
    let start = if ltb minute ran then least else cur in
    let twice = start * 2 % 18446744073709551616 in
    (start, if ltb most twice && ltb twice 9223372036854775808 then most else twice)

-- firstNonEmptyErr, of two.
abbrev pub first_error : Option Text → Option Text → Text
first_error (some e) w = e
first_error none (some w) = w
first_error none none = []

abbrev pub copy_rejection_markers : List Text
copy_rejection_markers =
    codes "could not write header"
    ∷ codes "adts"
    ∷ codes "only aac"
    ∷ codes "matches no streams"
    ∷ codes "unsupported codec"
    ∷ codes "not currently supported in container"
    ∷ []

unfoldable pub has_marker : Text → List Text → Bool
has_marker l [] = false
has_marker l (mk ∷ mks) = contains l mk || has_marker l mks

-- looksLikeCopyRejection
unfoldable pub looks_like_copy_rejection : List Text → Bool
unfolding has_marker
looks_like_copy_rejection [] = false
looks_like_copy_rejection (line ∷ tail) =
    not (contains line (codes "#1:") || contains line (codes "#1/"))
      && has_marker (to_lower line) copy_rejection_markers
    || looks_like_copy_rejection tail

-- The rejection of an option, by the last line.
unfoldable pub rejects_option : Text → Bool
rejects_option last = contains last (codes "Option") && contains last (codes "not found")

abbrev pub separator : Text
separator = codes " | "

abbrev pub with_detail : Text → Text → Bool → Text
with_detail base detail plain =
    if not (is_empty detail) && plain then base ++ (separator ++ detail) else base

module _ {F : Type 0} where
  abbrev pub writes_well : RunOutcome F → Bool
  writes_well out = not (is_there out.write_err)

  abbrev pub disk_full : RunOutcome F → Bool
  disk_full out = is_there out.write_err && out.no_space

  abbrev pub killed : RunOutcome F → Bool
  killed out = out.sigkill && not out.stalled

  unfoldable pub exit_reason : RunOutcome F → Text
  unfolding classify_exit
  exit_reason out =
      classify_exit (is_there out.run_err) (is_there out.write_err) (disk_full out) (killed out)
        out.stalled out.error_line

  -- The text for LastError; `span` prints a duration.
  unfoldable pub base_of : (ℕ → Text) → RunOutcome F → Text
  base_of span out = elim out.write_err [
    | some w ↦ codes "write to recording file failed: " ++ w
    | none ↦ elim out.run_err [
      | some e ↦ codes "ffmpeg exited after " ++ (span out.ran ++ (codes ": " ++ e))
      | none ↦ codes "ffmpeg exited after " ++ (span out.ran ++ codes " (stream ended)")
    ]
  ]

  abbrev pub detail_of : RunOutcome F → Text
  detail_of out = if is_empty out.error_line then out.last_line else out.error_line

  unfoldable pub exit_of : (ℕ → F) → RunOutcome F → RunExit F
  unfolding exit_reason
  exit_of seconds out = record {
    exited_at = out.ended_at;
    ran_seconds = seconds out.ran;
    bytes = out.run_bytes;
    reason = exit_reason out;
    exit_error = first_error out.run_err out.write_err;
    stderr = out.last_line;
    error_line = out.error_line;
    suppressed = out.suppressed;
  }

  -- The session's counters, its last errors and the list of exits.
  unfoldable pub note_exit : (ℕ → Text) → (ℕ → F) → RunOutcome F → Session F → Session F
  unfolding base_of exit_of
  note_exit span seconds out s = record s {
    restarts = s.restarts + 1;
    write_errors = if writes_well out then s.write_errors else s.write_errors + 1;
    last_error = with_detail (base_of span out) out.last_line (writes_well out);
    record_last_error = with_detail (base_of span out) (detail_of out) (writes_well out);
    exits = add_exit (exit_of seconds out) s.exits;
  }
