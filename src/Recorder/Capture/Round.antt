-- ===== src/Recorder/Capture/Round.antt =====
-- internal/recorder/ffmpeg.go, supervise: one run of the process and its end. What the run did is an `RunOutcome`:
-- how ffmpeg ended, the write error, the counters and what the buffer for its messages then shows.
-- `meanwhile` is what Reconcile did to the session while the process ran. Cancelling, waiting, logging
-- and metrics are left out, and so are the anchor, the record of the run and the trimming of the file's
-- tail in front of it.
mod Cases
pub mod Ends
pub mod Waits
pub mod Faults
pub mod Dockets
pub mod Culprit
use spectado_stream_recorder.Common.{
  ℕ, zero, suc, ◌+◌, ◌-◌, ◌*◌, ◌/◌, ◌%◌, ◌^◌, ◌≤◌, ◌<◌, min, max, ◌≡◌, refl, sym, ap, ◌∙◌, ◌≢◌, ◌↔◌,
  ◌⊎◌, inl, inr, Bool, true, false, not, ◌&&◌, ◌||◌, Option, none, some, List, [], ◌∷◌, ◌++◌, map,
  append-nil, append_assoc, arith, ltb, leb, ◌==◌, if◌then◌else◌, ltb→lt, lt→ltb, leb→le, ==_iff,
  Bool-cases, Option-cases, if_both, if_cases, option_both, nat_both, length, get_or, take, drop,
  All, length-append, take-append-drop, length-take, length-drop, take-length-append,
  drop-length-append, drop-drop, All-map, All-concat, Apart, Apart-concat, Bytes, at, IsByte,
}
use spectado_stream_recorder.Common.Text.{Text, text_eq, to_lower, contains, is_empty, codes}
use spectado_stream_recorder.Recorder.Runs.{add_exit}
use spectado_stream_recorder.Recorder.Session.{Session, RunExit}
use spectado_stream_recorder.Recorder.Capture.Decide.{
  Probe, Choice, Reading, resolve_codec, resolve_video,
}
use spectado_stream_recorder.Recorder.Capture.Exit.{
  minute, Plan, video_output_markers, Video, RunOutcome, Capture, is_there, classify_exit,
  next_backoff, first_error, copy_rejection_markers, has_marker, looks_like_copy_rejection,
  rejects_option, separator, with_detail, writes_well, disk_full, killed, exit_reason, base_of,
  detail_of, exit_of, note_exit,
}
use spectado_stream_recorder.Recorder.Capture.Blame.{
  follow_source, disable_video, judge_trial, blame_output, blame_empty, blame_copy, praise,
  is_explicit, blames_output, rejects_copy, is_refused, attribute,
}

-- What a round is told from outside: the answers of probeMedia and probeCodec, the path of the file
-- that prepareVideoFile handed out, if it did, and what the run did.
pub record RoundAnswers (F : Type 0) : Type 0 where
  pub media : Option Probe
  pub audio : Option (Text × Text)
  pub file : Option Text
  pub outcome : RunOutcome F

-- The configuration, and how durations are printed and measured in seconds.
pub record Setting (F : Type 0) : Type 0 where
  pub audio_codec : Text
  pub backoff_min : ℕ
  pub backoff_max : ℕ
  pub reading : Reading
  pub span : ℕ → Text
  pub seconds : ℕ → F

abbrev pub plan_of : Choice → Text → Plan
plan_of ch path = record { source = ch.source; vmap = ch.vmap; amap = ch.amap; path = path }

-- The video output of a run: not in a trial, and not without a file.
unfoldable pub plan_run : Choice → Bool → Option Text → Option Plan
plan_run ch trial file =
    if (text_eq ch.source (codes "copy") || text_eq ch.source (codes "x264")) && not trial
    then (elim file [ none ↦ none | some path ↦ some (plan_of ch path) ])
    else none

module _ {F : Type 0} (set : Setting F) where
  -- The bookkeeping behind a run: the counters, the trial, whose fault it was.
  unfoldable pub keep_books :
      Text → Bool → Option Plan → Bool → RunOutcome F → Capture F → Capture F
  unfolding note_exit judge_trial attribute
  keep_books codec explicit plan trial out c =
      attribute codec explicit plan trial out (
        judge_trial trial out (record c { session = note_exit set.span set.seconds out c.session }))

  -- The wait, and the backoff behind it.
  unfoldable pub wait_behind : RunOutcome F → Capture F → ℕ × Capture F
  unfolding next_backoff
  wait_behind out c =
      let (wait, next) = next_backoff c.backoff set.backoff_min set.backoff_max out.ran in
      (if disk_full out then minute else wait, record c { backoff = next })

  -- The process runs, behind the decisions.
  unfoldable pub run_round :
      Text → Bool → Choice → Option Text → RunOutcome F → Capture F → ℕ × Capture F
  unfolding plan_run keep_books wait_behind
  run_round codec explicit ch file out c =
      let trial = c.video.trial in
      let plan = plan_run ch trial file in
      wait_behind out (
        keep_books codec explicit plan trial out (record c {
          session = out.meanwhile c.session;
          video = record c.video { trial = false };
        }))

  -- A round of supervise: the wait behind it, and the recording; `none` is decideVideo's panic.
  unfoldable pub supervise_round : RoundAnswers F → Capture F → Option (ℕ × Capture F)
  unfolding follow_source resolve_codec resolve_video is_explicit run_round
  supervise_round a c =
      let c = follow_source c in
      let snap = c.session in
      let (codec, s) = resolve_codec set.audio_codec a.media a.audio snap snap in
      elim (resolve_video set.reading a.media snap s) [
        | none ↦ none
        | some (ch, s) ↦ some (
            run_round codec (is_explicit set.audio_codec snap) ch a.file a.outcome
              (record c { session = s }))
      ]

  -- supervise, for as long as the answers last: the waits, and the recording.
  unfoldable pub supervise : List (RoundAnswers F) → Capture F → Option (List ℕ × Capture F)
  supervise [] c = some ([], c)
  supervise (a ∷ as') c = elim (supervise_round a c) [
    | none ↦ none
    | some (wait, d) ↦ elim (supervise as' d) [
      | none ↦ none
      | some (waits, end) ↦ some (wait ∷ waits, end)
    ]
  ]
