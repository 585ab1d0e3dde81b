-- ===== src/Tests/Scan.antt =====
-- internal/adts/duration.go at two frames, with whole milliseconds for seconds.
use spectado_stream_recorder.Common.{ℕ, ◌+◌, ◌*◌, ◌/◌, ◌≡◌, some, ◌++◌}
use spectado_stream_recorder.Adts.Scan.{Float, Info, scan}
use spectado_stream_recorder.Adts.Scan.Partition.{IsScanned, scan-IsScanned}
use spectado_stream_recorder.Tests.Adts.{frame8}

abbrev pub milliseconds : Float ℕ
milliseconds = record {
  zero_seconds = 0;
  add_seconds = λ a b. a + b;
  frame_seconds = λ blocks rate. 1024 * blocks * 1000 / rate;
  to_duration = λ s. s;
}

scan-IsScanned_example :
    (i : Info ℕ) × (scan milliseconds (frame8 ++ frame8) ≡ some i) × IsScanned milliseconds 16 i
scan-IsScanned_example = scan-IsScanned milliseconds (frame8 ++ frame8)
