-- ===== src/Tests/Recorder.antt =====
-- internal/recorder at small states.
use spectado_stream_recorder.Common.{
  ℕ, ◌+◌, ◌≤◌, ◌≡◌, false, none, some, List, [], ◌∷◌, ◌++◌, length,
}
use spectado_stream_recorder.Recorder.Runs.{Run, History, max_runs, append_run}
use spectado_stream_recorder.Recorder.Runs.Cap.{total_bytes, total_frames, append_run_keeps}

-- An open run at an offset, with a duration in whole seconds.
abbrev run : ℕ → ℕ → Run ℕ
run offset bytes = record {
  started_at = 1;
  ended_at = none;
  anchor = 1;
  anchor_source = [];
  offset = offset;
  bytes = bytes;
  frames = 2;
  duration_seconds = 3;
  video_files = (118 ∷ []) ∷ [];
}

abbrev history : History ℕ
history = record { runs = run 0 16 ∷ []; runs_coalesced = false; suspended_at = some 7 }

append_run_keeps_example :
    let h = (append_run ◌+◌ (run 16 8) history).0.runs in
    (total_bytes h ≡ 24)
    × (total_frames h ≡ 4)
    × (1 ≤ max_runs → length h ≤ max_runs)
    × ((front : List (Run ℕ)) × (h ≡ front ++ (run 16 8 ∷ [])))
append_run_keeps_example = append_run_keeps ◌+◌ (run 16 8) history
