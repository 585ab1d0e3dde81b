-- ===== src/Recorder/Capture/Stderr.antt =====
-- internal/recorder/ffmpeg.go: stderrBuffer, with RedactURL, parseLevel and benignReason. Texts are
-- bytes. `Outside` is what the standard library does here; `clock` gives the readings of time.Now in
-- their order, in nanoseconds, and `readings` counts those that were taken. The calls of logLine and
-- onSuppressed are kept in `events`.
pub mod Chunks
pub mod History
pub mod Shown
pub mod Redaction
use spectado_stream_recorder.Common.{
  ℕ, zero, suc, ◌+◌, ◌-◌, ◌*◌, ◌/◌, ◌%◌, ◌^◌, ◌≤◌, ◌<◌, min, max, ◌≡◌, refl, sym, ap, ◌∙◌, ◌≢◌, ◌↔◌,
  ◌⊎◌, inl, inr, Bool, true, false, not, ◌&&◌, ◌||◌, Option, none, some, List, [], ◌∷◌, ◌++◌, map,
  append-nil, append_assoc, arith, ltb, leb, ◌==◌, if◌then◌else◌, ltb→lt, lt→ltb, leb→le, ==_iff,
  Bool-cases, Option-cases, if_both, if_cases, option_both, nat_both, length, get_or, take, drop,
  All, length-append, take-append-drop, length-take, length-drop, take-length-append,
  drop-length-append, drop-drop, All-map, All-concat, Apart, Apart-concat, Bytes, at, IsByte,
}
use spectado_stream_recorder.Common.Text.{Text, text_eq, contains, is_empty, last_of, codes}
use spectado_stream_recorder.Recorder.Capture.Redact.{
  Account, Url, Outside, redacted, more_params, redact_query, redact_user,
}

pub data Level : Type 0 where
  debug info warn error : Level

-- What reached the logger (a line, or the summary of a log_window) and the hook for harmless lines.
pub data Event : Type 0 where
  logged : Level → Text → Event
  left_out : ℕ → Event
  noticed : Text → Event

-- stderrBuffer without `partial`.
pub record Lines : Type 0 where
  pub tail : List Text
  pub max_tail : ℕ
  -- whether logLine and onSuppressed are set
  pub logs : Bool
  pub notices : Bool
  pub mode : Text
  pub window : ℕ
  pub in_window : ℕ
  pub per_minute : ℕ
  pub suppressed : ℕ
  pub last_message : Text
  pub benign_run : ℕ
  pub last_error_line : Text
  pub video_markers : List Text
  pub video_error_line : Text
  pub run_tail : List Text
  pub readings : ℕ
  pub events : List Event

pub record Buffer : Type 0 where
  pub partial : Text
  pub lines : Lines

-- newStderrBuffer
unfoldable pub new_lines : Text → Bool → Bool → Lines
new_lines mode logs notices = record {
  tail = [];
  max_tail = 20;
  logs = logs;
  notices = notices;
  mode = mode;
  window = 0;
  in_window = 0;
  per_minute = 10;
  suppressed = 0;
  last_message = [];
  benign_run = 0;
  last_error_line = [];
  video_markers = [];
  video_error_line = [];
  run_tail = [];
  readings = 0;
  events = [];
}

-- containsAny
unfoldable pub contains_any : Text → List Text → Bool
contains_any s [] = false
contains_any s (sub ∷ subs) = not (is_empty sub) && contains s sub || contains_any s subs

-- benignReason
unfoldable pub benign_reason : Text → Text
benign_reason line =
    if contains line (codes "Found duplicated MOOV Atom") then codes "duplicate_moov" else []

unfoldable pub level_of : Text → Level
level_of tag =
    if text_eq tag (codes "panic") || text_eq tag (codes "fatal") || text_eq tag (codes "error")
    then error
    else if text_eq tag (codes "warning")
    then warn
    else if text_eq tag (codes "info")
    then info
    else debug

abbrev pub is_error : Level → Bool
is_error error = true
is_error _ = false

abbrev pub is_quiet : Level → Bool
is_quiet debug = true
is_quiet info = true
is_quiet _ = false

-- "…" in UTF-8.
unfoldable pub cap_line : Text → Text
cap_line line = if ltb 1024 (length line) then take 1024 line ++ (226 ∷ 128 ∷ 166 ∷ []) else line

-- The line ends at its first CR or LF.
abbrev pub is_line_end : ℕ → Bool
is_line_end c = c == 13 || c == 10

-- bytes.IndexAny, with the bytes in front of the line end and those behind it.
unfoldable pub cut_line : Text → Option (Text × Text)
cut_line [] = none
cut_line (c ∷ s) =
    if is_line_end c
    then some ([], s)
    else elim (cut_line s) [ none ↦ none | some (l, rest) ↦ some (c ∷ l, rest) ]

-- The logger's line, or the summary in front of it, where there is a logger.
unfoldable pub log_line : Event → Lines → Lines
log_line e b = record b { events = b.events ++ (e ∷ []) }

-- resetRun
unfoldable pub reset_run : List Text → Lines → Lines
reset_run markers b = record b {
  benign_run = 0;
  last_error_line = [];
  video_markers = markers;
  video_error_line = [];
  run_tail = [];
}

-- pushLocked at a harmless line.
unfoldable pub skip_benign : Text → Text → Lines → Lines
unfolding log_line
skip_benign reason msg b =
    let counted = record b { benign_run = b.benign_run + 1 } in
    let told = if b.notices then log_line (noticed reason) counted else counted in
    if text_eq b.mode (codes "debug") && b.logs then log_line (logged debug msg) told else told

-- pushLocked: the diagnostics and the tails.
unfoldable pub keep : (ℕ → Text) → (ℕ → ℕ) → Level → Text → Lines → Lines
keep stamp clock level msg b = record b {
  last_error_line = if is_error level then msg else b.last_error_line;
  video_error_line =
      if is_error level && (is_empty b.video_error_line && contains_any msg b.video_markers)
      then msg
      else b.video_error_line;
  last_message = msg;
  tail = last_of b.max_tail (b.tail ++ ((stamp (clock b.readings) ++ (32 ∷ msg)) ∷ []));
  run_tail = last_of b.max_tail (b.run_tail ++ (msg ∷ []));
  readings = b.readings + 1;
}

abbrev pub log_window : ℕ
log_window = 60_000_000_000

-- pushLocked: the budget of a log_window.
unfoldable pub open_window : ℕ → Lines → Lines
unfolding log_line
open_window now b =
    if ltb log_window (now - b.window)
    then record (if ltb 0 b.suppressed then log_line (left_out b.suppressed) b else b) {
      window = now;
      in_window = 0;
      suppressed = 0;
    }
    else b

unfoldable pub spend : Level → Text → Lines → Lines
unfolding log_line
spend level msg b =
    let spent = record b { in_window = b.in_window + 1 } in
    if leb spent.in_window b.per_minute
    then log_line (logged level msg) spent
    else record spent { suppressed = b.suppressed + 1 }

-- pushLocked: the rate-limited subset for the logger.
unfoldable pub report : (ℕ → ℕ) → Level → Text → Lines → Lines
unfolding log_line open_window spend
report clock level msg b =
    if not b.logs || text_eq b.mode (codes "off")
    then b
    else if text_eq b.mode (codes "debug")
    then log_line (logged debug msg) b
    else if is_quiet level
    then b
    else spend level msg (open_window (clock b.readings) (record b { readings = b.readings + 1 }))

module _ (o : Outside) where
  -- RedactURL
  unfoldable pub redact_url : Text → Text
  unfolding redact_query redact_user
  redact_url raw = elim (o.parse_url raw) [
    | none ↦ raw
    | some u ↦
        if is_empty u.scheme || is_empty u.host
        then raw
        else o.print_url (record u {
          user = elim u.user [ none ↦ none | some w ↦ some (redact_user w) ];
          raw_query =
              if is_empty u.raw_query
              then []
              else redact_query o.query_escape (o.query_keys u.raw_query);
        })
  ]

  -- redactLine
  abbrev pub redact_line : Text → Text
  redact_line line = o.replace_urls redact_url line

  -- parseLevel
  unfoldable pub parse_level : Text → Level × Text
  unfolding level_of
  parse_level line = elim (o.find_tag line) [
    | none ↦ (warn, line)
    | some (from, to, first, last) ↦
        (level_of (take (last - first) (drop first line)), take from line ++ drop to line)
  ]

  -- The level and the message of a line.
  abbrev pub read_line : Text → Level × Text
  read_line line = let (level, msg) = parse_level (cap_line line) in (level, redact_line msg)

  -- pushLocked behind the reading of the line.
  unfoldable pub push_message : Level → Text → Lines → Lines
  push_message level msg b = elim (benign_reason msg) [
    | c ∷ reason ↦ skip_benign (c ∷ reason) msg b
    | [] ↦ report o.clock level msg (keep o.stamp o.clock level msg b)
  ]

  -- pushLocked
  unfoldable pub push_line : Text → Lines → Lines
  push_line line b = let (level, msg) = read_line line in push_message level msg b

  -- A complete line, in the loop of Write.
  unfoldable pub push_complete : Text → Lines → Lines
  push_complete raw b = elim (o.trim_space raw) [ [] ↦ b | c ∷ line ↦ push_line (c ∷ line) b ]

  -- The loop of Write; each round takes a byte at least.
  unfoldable pub drain : ℕ → Text → Lines → Buffer
  drain zero partial b = record { partial = partial; lines = b }
  drain (suc fuel) partial b = elim (cut_line partial) [
    | none ↦ record { partial = partial; lines = b }
    | some (l, rest) ↦ drain fuel rest (push_complete l b)
  ]

  -- A line of more than 4096 bytes is not waited for.
  unfoldable pub flush_long : Buffer → Buffer
  flush_long b =
      if ltb 4096 (length b.partial)
      then record { partial = []; lines = push_line (o.trim_space b.partial) b.lines }
      else b

  -- Write
  unfoldable pub write : Text → Buffer → Buffer
  unfolding drain flush_long
  write p b = flush_long (drain (length b.partial + length p) (b.partial ++ p) b.lines)
