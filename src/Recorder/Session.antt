-- ===== src/Recorder/Session.antt =====
-- internal/recorder/session.go: the session record and its small methods. `F` is float64. Headers
-- and streamInfo are carried and never looked at. Times and durations are nanoseconds.
use spectado_stream_recorder.Common.{
  ℕ, Bool, true, false, not, ◌&&◌, Option, none, some, List, [], ◌∷◌, ◌++◌, if◌then◌else◌,
}
use spectado_stream_recorder.Common.Text.{Text, text_eq, trim_suffix, codes}
use spectado_stream_recorder.Schedule.Document.{Item}
use spectado_stream_recorder.Recorder.Runs.{Run}

pub data State : Type 0 where
  recording finalized uploading uploaded kept failed : State

pub data FinishReason : Type 0 where
  ended removed rotated superseded shutdown error : FinishReason

-- CodecAuto is the empty text or "auto"; the other values are texts of the schedule.
pub record RunExit (F : Type 0) : Type 0 where
  pub exited_at : ℕ
  pub ran_seconds : F
  pub bytes : ℕ
  pub reason : Text
  pub exit_error : Text
  pub stderr : Text
  pub error_line : Text
  pub suppressed : ℕ

-- Session without SchemaVersion, DurationSeconds, OutputFile and the fields on the stored video
-- companion.
pub record Session (F : Type 0) : Type 0 where
  pub id : Text
  pub safe_id : Text
  pub session_id : Text
  pub name : Text
  pub source : Text
  pub type : Text
  pub start : ℕ
  pub end : ℕ
  pub start_early : Option ℕ
  pub stop_late : Option ℕ
  pub stall_timeout : Option ℕ
  pub insecure_tls : Bool
  pub key : Text
  pub key_template : Text
  pub codec : Text
  pub bitrate : Text
  pub headers : List (Text × Text)
  pub stream_info : Text
  pub resolved_codec : Text
  pub session_start : ℕ
  pub session_end : Option ℕ
  pub state : State
  pub bytes : ℕ
  pub size : ℕ
  pub trimmed_bytes : ℕ
  pub restarts : ℕ
  pub stalls : ℕ
  pub write_errors : ℕ
  pub finish_reason : Option FinishReason
  pub last_error : Text
  pub record_last_error : Text
  pub exits : List (RunExit F)
  pub runs : List (Run F)
  -- whether ScheduleNote is set
  pub schedule_note : Bool
  pub suspended_at : Option ℕ
  pub key_renames : ℕ
  pub media_uploaded : Bool
  pub upload_etag : Text
  pub video : Bool
  pub video_source : Text
  pub video_map : Text
  pub video_audio_map : Text
  pub video_seq : ℕ
  pub video_capture_error : Text
  pub runs_coalesced : Bool
  pub updated_at : ℕ
  pub upload_attempts : ℕ
  pub upload_blocked : Bool
  pub next_upload_at : Option ℕ
  pub uploaded_at : Option ℕ
  pub remux_failures : ℕ
  pub transcoded : Bool

abbrev pub object_ext : Text
object_ext = codes ".m4a"

-- videoKey
unfoldable pub video_key : Text → Text
video_key key = trim_suffix key object_ext ++ codes ".mp4"

-- IsTerminal
unfoldable pub is_terminal : State → Bool
is_terminal uploaded = true
is_terminal kept = true
is_terminal failed = true
is_terminal _ = false

abbrev pub or_else : Text → Text → Text
or_else [] old = old
or_else (c ∷ cs) old = c ∷ cs

module _ {F : Type 0} where
  -- setKey
  unfoldable pub set_key : Text → Session F → Session F
  set_key k s =
      if text_eq s.key k then s else record s { key = k; media_uploaded = false; upload_etag = [] }

  -- effectiveStopLate
  unfoldable pub effective_stop_late : ℕ → Session F → ℕ
  effective_stop_late def s = elim s.stop_late [ none ↦ def | some d ↦ d ]

  -- The result of applyItem.
  unfoldable pub source_changed : Item → Session F → Bool
  source_changed it s = not (text_eq s.source []) && not (text_eq it.source s.source)

  abbrev copy_fields : Item → Session F → Session F
  copy_fields it s = record s {
    name = it.name;
    source = it.source;
    type = it.type;
    start = it.start;
    end = it.end;
    headers = it.headers;
    start_early = it.start_early;
    stop_late = it.stop_late;
    stall_timeout = it.stall_timeout;
    insecure_tls = it.insecure_tls;
    stream_info = it.stream_info;
    codec = or_else it.codec s.codec;
    bitrate = or_else it.bitrate s.bitrate;
  }

  -- applyItem
  unfoldable pub apply_item : Item → Session F → Session F
  unfolding source_changed
  apply_item it s =
      if source_changed it s
      then record (copy_fields it s) {
        resolved_codec = [];
        video_source = [];
        video_map = [];
        video_audio_map = [];
        video_capture_error = [];
      }
      else copy_fields it s
