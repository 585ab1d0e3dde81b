-- ===== src/Recorder/Capture/Stderr/Shown.antt =====
-- The abstract view of the buffer: what has happened to it, the newest in front.
use spectado_stream_recorder.Common.{
  ℕ, zero, suc, ◌+◌, ◌-◌, ◌≡◌, refl, sym, ap, inl, inr, Bool, not, ◌&&◌, ◌||◌, none, some, List, [],
  ◌∷◌, ◌++◌, arith, ltb, leb, if◌then◌else◌, Bool-cases, Option-cases, if_both, length,
}
use spectado_stream_recorder.Common.Text.{Text, text_eq, last_of, last_of-append, codes}
use spectado_stream_recorder.Recorder.Capture.Stderr.{
  Level, Lines, Buffer, Event, is_quiet, new_lines, contains_any, benign_reason, cut_line,
  reset_run, skip_benign, log_line, keep, open_window, spend, report, read_line, push_message,
  push_line, push_complete, drain, flush_long, write,
}
use spectado_stream_recorder.Recorder.Capture.Redact.{Outside}
use spectado_stream_recorder.Recorder.Capture.Stderr.History.{
  Happened, said, harmless, started, Call, wrote, began, said_in_run, errors_in_run,
  harmless_in_run, marks_of_run, said_ever, newest, first_with, newest-append, contains_any_empty,
  first_with-append,
}

-- What of a message stands in the tail: the time in front is that of the line.
module _ (o : Outside) where
  unfoldable pub stamped : List Happened → List Text
  stamped [] = []
  stamped (said t level msg ∷ h) = stamped h ++ ((o.stamp t ++ (32 ∷ msg)) ∷ [])
  stamped (harmless ∷ h) = stamped h
  stamped (started ms ∷ h) = stamped h

  -- What a line means to the history.
  unfoldable pub hears : Text → Lines → Happened
  hears line b =
      let (level, msg) = read_line o line in
      elim (benign_reason msg) [ c ∷ reason ↦ harmless | [] ↦ said (o.clock b.readings) level msg ]

  unfoldable pub heard_complete : Text → Lines → List Happened → List Happened
  heard_complete raw b h = elim (o.trim_space raw) [ [] ↦ h | c ∷ line ↦ hears (c ∷ line) b ∷ h ]

  unfoldable pub heard_drain : ℕ → Text → Lines → List Happened → List Happened
  heard_drain zero partial b h = h
  heard_drain (suc fuel) partial b h = elim (cut_line partial) [
    | none ↦ h
    | some (l, rest) ↦ heard_drain fuel rest (push_complete o l b) (heard_complete l b h)
  ]

  -- What Write adds to the history.
  unfoldable pub heard_write : Text → Buffer → List Happened → List Happened
  heard_write p b h =
      let fuel = length b.partial + length p in
      let rest = drain o fuel (b.partial ++ p) b.lines in
      let heard = heard_drain fuel (b.partial ++ p) b.lines h in
      if ltb 4096 (length rest.partial)
      then hears (o.trim_space rest.partial) rest.lines ∷ heard
      else heard

  -- The buffer shows the history.
  pub record Shows (h : List Happened) (b : Lines) : Type 0 where
    pub at_most : b.max_tail ≡ 20
    pub tail_shown : b.tail ≡ last_of 20 (stamped h)
    pub run_tail_shown : b.run_tail ≡ last_of 20 (said_in_run h)
    pub last_shown : b.last_message ≡ newest [] (said_ever h)
    pub error_shown : b.last_error_line ≡ newest [] (errors_in_run h)
    pub marks_shown : b.video_markers ≡ marks_of_run h
    pub video_shown :
        b.video_error_line ≡ first_with (λ m. contains_any m (marks_of_run h)) (errors_in_run h)
    pub benign_shown : b.benign_run ≡ harmless_in_run h

  keep-Shows :
      (h : List Happened) (b : Lines) (level : Level) (msg : Text)
      → Shows h b
      → Shows (said (o.clock b.readings) level msg ∷ h) (keep o.stamp o.clock level msg b)
  unfolding keep stamped said_in_run said_ever errors_in_run marks_of_run harmless_in_run
  keep-Shows h b level msg s = record {
    at_most = s.at_most;
    tail_shown =
        rw (s.at_most, s.tail_shown)
          (last_of-append 20 (stamped h) (o.stamp (o.clock b.readings) ++ (32 ∷ msg)));
    run_tail_shown = rw (s.at_most, s.run_tail_shown) (last_of-append 20 (said_in_run h) msg);
    last_shown = sym (newest-append [] msg (said_ever h));
    error_shown = ground (arith, s.error_shown, newest-append [] msg (errors_in_run h));
    marks_shown = s.marks_shown;
    video_shown = ground (
      arith,
      s.marks_shown,
      s.video_shown,
      first_with-append (λ m. contains_any m (marks_of_run h)) (errors_in_run h) msg
          (contains_any_empty (marks_of_run h)),
    );
    benign_shown = s.benign_shown;
  }

  -- The logger's share of a line leaves what is shown.
  log_line-Shows : (h : List Happened) (e : Event) (b : Lines) → Shows h b → Shows h (log_line e b)
  unfolding log_line
  log_line-Shows h e b s = record {
    at_most = s.at_most;
    tail_shown = s.tail_shown;
    run_tail_shown = s.run_tail_shown;
    last_shown = s.last_shown;
    error_shown = s.error_shown;
    marks_shown = s.marks_shown;
    video_shown = s.video_shown;
    benign_shown = s.benign_shown;
  }

  budget-Shows :
      (h : List Happened) (window used left readings : ℕ) (b : Lines)
      → Shows h b
      → Shows h
          (record b { window = window; in_window = used; suppressed = left; readings = readings })
  budget-Shows h window used left readings b s = record {
    at_most = s.at_most;
    tail_shown = s.tail_shown;
    run_tail_shown = s.run_tail_shown;
    last_shown = s.last_shown;
    error_shown = s.error_shown;
    marks_shown = s.marks_shown;
    video_shown = s.video_shown;
    benign_shown = s.benign_shown;
  }

  open_window-Shows :
      (h : List Happened) (now : ℕ) (b : Lines) → Shows h b → Shows h (open_window now b)
  unfolding open_window
  open_window-Shows h now b s =
      let told = if ltb 0 b.suppressed then log_line (Event.left_out b.suppressed) b else b in
      let ts : Shows h told =
        if_both (Shows h) (ltb 0 b.suppressed) (log_line (Event.left_out b.suppressed) b) b
          (log_line-Shows h (Event.left_out b.suppressed) b s) s in
      if_both (Shows h) (ltb 60_000_000_000 (now - b.window))
        (record told { window = now; in_window = 0; suppressed = 0 }) b
        (budget-Shows h now 0 0 told.readings told ts) s

  spend-Shows :
      (h : List Happened) (level : Level) (msg : Text) (b : Lines)
      → Shows h b
      → Shows h (spend level msg b)
  unfolding spend
  spend-Shows h level msg b s =
      let spent : Lines = record b { in_window = b.in_window + 1 } in
      let ss : Shows h spent =
        budget-Shows h b.window (b.in_window + 1) b.suppressed b.readings b s in
      if_both (Shows h) (leb spent.in_window b.per_minute) (log_line (Event.logged level msg) spent)
        (record spent { suppressed = b.suppressed + 1 })
        (log_line-Shows h (Event.logged level msg) spent ss)
        (budget-Shows h b.window (b.in_window + 1) (b.suppressed + 1) b.readings b s)

  report-Shows :
      (h : List Happened) (level : Level) (msg : Text) (b : Lines)
      → Shows h b
      → Shows h (report o.clock level msg b)
  unfolding report
  report-Shows h level msg b s =
      let read : Lines = record b { readings = b.readings + 1 } in
      let rs : Shows h read =
        budget-Shows h b.window b.in_window b.suppressed (b.readings + 1) b s in
      let opened = open_window (o.clock b.readings) read in
      let loud = spend level msg opened in
      let ls = spend-Shows h level msg opened (open_window-Shows h (o.clock b.readings) read rs) in
      let heeded = if is_quiet level then b else loud in
      let hs : Shows h heeded = if_both (Shows h) (is_quiet level) b loud s ls in
      let said_debug = log_line (Event.logged Level.debug msg) b in
      let rest = if text_eq b.mode (codes "debug") then said_debug else heeded in
      let ts : Shows h rest =
        if_both (Shows h) (text_eq b.mode (codes "debug")) said_debug heeded
          (log_line-Shows h (Event.logged Level.debug msg) b s) hs in
      if_both (Shows h) (not b.logs || text_eq b.mode (codes "off")) b rest s ts

  skip_benign-Shows :
      (h : List Happened) (reason msg : Text) (b : Lines)
      → Shows h b
      → Shows (harmless ∷ h) (skip_benign reason msg b)
  unfolding skip_benign stamped said_in_run said_ever errors_in_run marks_of_run harmless_in_run
  skip_benign-Shows h reason msg b s =
      let counted : Lines = record b { benign_run = b.benign_run + 1 } in
      let cs : Shows (harmless ∷ h) counted = record {
        at_most = s.at_most;
        tail_shown = s.tail_shown;
        run_tail_shown = s.run_tail_shown;
        last_shown = s.last_shown;
        error_shown = s.error_shown;
        marks_shown = s.marks_shown;
        video_shown = s.video_shown;
        benign_shown = ap (λ n. n + 1) s.benign_shown;
      } in
      let told = if b.notices then log_line (Event.noticed reason) counted else counted in
      let ts : Shows (harmless ∷ h) told =
        if_both (Shows (harmless ∷ h)) b.notices (log_line (Event.noticed reason) counted) counted
          (log_line-Shows (harmless ∷ h) (Event.noticed reason) counted cs) cs in
      if_both (Shows (harmless ∷ h)) (text_eq b.mode (codes "debug") && b.logs)
        (log_line (Event.logged Level.debug msg) told) told
        (log_line-Shows (harmless ∷ h) (Event.logged Level.debug msg) told ts) ts

  reset_run-Shows :
      (h : List Happened) (ms : List Text) (b : Lines)
      → Shows h b
      → Shows (started ms ∷ h) (reset_run ms b)
  unfolding reset_run stamped said_in_run said_ever errors_in_run marks_of_run harmless_in_run
      newest first_with
  reset_run-Shows h ms b s = record {
    at_most = s.at_most;
    tail_shown = s.tail_shown;
    run_tail_shown = refl;
    last_shown = s.last_shown;
    error_shown = refl;
    marks_shown = refl;
    video_shown = refl;
    benign_shown = refl;
  }

  push_line-Shows :
      (h : List Happened) (line : Text) (b : Lines)
      → Shows h b
      → Shows (hears line b ∷ h) (push_line o line b)
  unfolding push_line push_message hears
  push_line-Shows h line b s =
      let level = (read_line o line).0 in
      let msg = (read_line o line).1 in hears_message (benign_reason msg) refl
    where
      hears_message :
          (r : Text)
          → benign_reason (read_line o line).1 ≡ r
          → Shows (hears line b ∷ h) (push_line o line b)
      hears_message [] e =
          rw (e, push_message, hears)
            (report-Shows _ (read_line o line).0 (read_line o line).1 _
              (keep-Shows h b (read_line o line).0 (read_line o line).1 s))
      hears_message (c ∷ r) e =
          rw (e, push_message, hears) (skip_benign-Shows h (c ∷ r) (read_line o line).1 b s)

  new_lines-Shows : (mode : Text) (logs notices : Bool) → Shows [] (new_lines mode logs notices)
  unfolding new_lines stamped said_in_run said_ever errors_in_run marks_of_run harmless_in_run
      newest first_with
  new_lines-Shows mode logs notices = record {
    at_most = refl;
    tail_shown = refl;
    run_tail_shown = refl;
    last_shown = refl;
    error_shown = refl;
    marks_shown = refl;
    video_shown = refl;
    benign_shown = refl;
  }

  push_complete-Shows :
      (h : List Happened) (raw : Text) (b : Lines)
      → Shows h b
      → Shows (heard_complete raw b h) (push_complete o raw b)
  unfolding heard_complete push_complete
  push_complete-Shows h raw b s = complete (o.trim_space raw) refl
    where
      complete :
          (t : Text) → o.trim_space raw ≡ t → Shows (heard_complete raw b h) (push_complete o raw b)
      complete [] e = rw (e, heard_complete, push_complete) s
      complete (c ∷ t) e = rw (e, heard_complete, push_complete) (push_line-Shows h (c ∷ t) b s)

  drain-Shows :
      (fuel : ℕ) (partial : Text) (b : Lines) (h : List Happened)
      → Shows h b
      → Shows (heard_drain fuel partial b h) (drain o fuel partial b).lines
  unfolding heard_drain drain
  drain-Shows zero partial b h s = s
  drain-Shows (suc fuel) partial b h s = elim (Option-cases (cut_line partial)) [
    | inl e ↦ rw (e, drain, heard_drain) s
    | inr ((l, rest), e) ↦
        rw (e, drain, heard_drain)
          (drain-Shows fuel rest (push_complete o l b) (heard_complete l b h)
            (push_complete-Shows h l b s))
  ]

  write-Shows :
      (p : Text) (b : Buffer) (h : List Happened)
      → Shows h b.lines
      → Shows (heard_write p b h) (write o p b).lines
  unfolding write flush_long heard_write
  write-Shows p b h s =
      let fuel = length b.partial + length p in
      let rest = drain o fuel (b.partial ++ p) b.lines in
      let rs = drain-Shows fuel (b.partial ++ p) b.lines h s in
      elim (Bool-cases (ltb 4096 (length rest.partial))) [
        | inl e ↦ rw (e) (
            push_line-Shows (heard_drain fuel (b.partial ++ p) b.lines h)
              (o.trim_space rest.partial) rest.lines rs)
        | inr e ↦ rw (e) rs
      ]

  -- The calls, the newest in front, the buffer behind them and the history that they make.
  abbrev pub play : Text → Bool → Bool → List Call → Buffer
  play mode logs notices [] = record { partial = []; lines = new_lines mode logs notices }
  play mode logs notices (wrote p ∷ calls) = write o p (play mode logs notices calls)
  play mode logs notices (began ms ∷ calls) =
      let b = play mode logs notices calls in record b { lines = reset_run ms b.lines }

  abbrev pub history : Text → Bool → Bool → List Call → List Happened
  history mode logs notices [] = []
  history mode logs notices (wrote p ∷ calls) =
      heard_write p (play mode logs notices calls) (history mode logs notices calls)
  history mode logs notices (began ms ∷ calls) = started ms ∷ history mode logs notices calls

  -- Behind any calls of Write and resetRun the buffer is its history, summed up: Tail and RunTail
  -- are the last twenty messages, those of Tail with their times, of all and of those since the run
  -- began, Last is the newest message, LastErrorLine the newest of the run's errors, VideoErrorLine
  -- the first of them that bears one of the marks that the run was begun with, and suppressedRun the
  -- number of the run's harmless lines. So harmless lines never reach the tails or the errors.
  pub play-Shows :
      (mode : Text) (logs notices : Bool) (calls : List Call)
      → Shows (history mode logs notices calls) (play mode logs notices calls).lines
  play-Shows mode logs notices [] = new_lines-Shows mode logs notices
  play-Shows mode logs notices (wrote p ∷ calls) =
      write-Shows p (play mode logs notices calls) (history mode logs notices calls)
        (play-Shows mode logs notices calls)
  play-Shows mode logs notices (began ms ∷ calls) =
      reset_run-Shows (history mode logs notices calls) ms (play mode logs notices calls).lines
        (play-Shows mode logs notices calls)
