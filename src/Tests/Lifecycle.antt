-- ===== src/Tests/Lifecycle.antt =====
-- internal/recorder/manager.go: a shutdown, and the finalize of a recording that it stops.
use spectado_stream_recorder.Common.{ℕ, ◌≡◌, refl, true, false, some, [], ◌∷◌, ◌++◌}
use spectado_stream_recorder.Recorder.Session.{shutdown}
use spectado_stream_recorder.Recorder.Manager.{Active}
use spectado_stream_recorder.Recorder.Lifecycle.{
  Counted, Machine, not_stopping, finalize, shut_down, finalizes, shuts_down, Reachable, here, next,
}
use spectado_stream_recorder.Recorder.Lifecycle.Steps.{IsSound, Reachable-IsSound}
use spectado_stream_recorder.Tests.Manager.{config, texts, active_of, two, two-IsValid}

abbrev machine : Machine ℕ
machine = record { manager = two; upload_loops = [] }

machine-IsSound : IsSound machine
machine-IsSound = record { valid = two-IsValid; single = tt }

abbrev counted : Counted ℕ
counted = record {
  run_closed = false;
  started = true;
  run_bytes = 30;
  run_frames = 3;
  run_seconds = 1;
  video_file = [];
  drop_video = false;
  bytes = 30;
  saved_bytes = 0;
  file_size = some 30;
}

abbrev stopped : ℕ → Active
stopped id = record (active_of id) { stopping = true }

shut_down_entries :
    (shut_down machine).manager.finalizing
    ≡ [] ++ (stopped 97, shutdown) ∷ (stopped 100, shutdown) ∷ []
unfolding shut_down not_stopping
shut_down_entries = refl

abbrev suspended : Machine ℕ
suspended =
    finalize 9 counted (stopped 97, shutdown)
      (record (shut_down machine) {
        manager = record (shut_down machine).manager { finalizing = (stopped 100, shutdown) ∷ [] };
      })

suspended_reached : Reachable config texts machine suspended
suspended_reached =
    next (shut_down machine) suspended (next machine (shut_down machine) here (shuts_down machine))
      (finalizes 9 counted [] ((stopped 100, shutdown) ∷ []) (stopped 97, shutdown)
        (shut_down machine) shut_down_entries)

Reachable-IsSound_example : IsSound suspended
Reachable-IsSound_example =
    Reachable-IsSound config texts machine suspended machine-IsSound suspended_reached
