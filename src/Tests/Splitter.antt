-- ===== src/Tests/Splitter.antt =====
-- internal/adts/splitter.go at two frames, the second of which is cut.
use spectado_stream_recorder.Common.{◌≡◌, refl, true, false, some, [], ◌∷◌, ◌++◌, All, List}
use spectado_stream_recorder.Adts.Header.{
  header_len, frame_length, sampling_index, is_sync, parse_header, parse_full_header,
}
use spectado_stream_recorder.Adts.Splitter.{
  Splitter, Output, junk, round, round_unsynced, round_header, process, fuel_for, feed, flush,
}
use spectado_stream_recorder.Adts.Splitter.Lossless.{handed_out, IsFaithful}
use spectado_stream_recorder.Adts.Splitter.Total.{feed_total, flush_total}
use spectado_stream_recorder.Tests.Adts.{frame8, cut5}

abbrev fresh : Splitter
fresh = record { buf = []; synced = false }

-- The first frame is awaited until the header of the next confirms it.
feed_cut : feed (frame8 ++ cut5) fresh ≡ some ([], record { buf = frame8 ++ cut5; synced = false })
unfolding feed process fuel_for round round_unsynced round_header parse_full_header parse_header
    frame_length header_len sampling_index is_sync
feed_cut = refl

-- A lone frame at the end of the input.
flush_frame : flush (record { buf = frame8; synced = false }) ≡ some (junk frame8 ∷ [], fresh)
unfolding flush process fuel_for round round_unsynced round_header parse_full_header parse_header
    frame_length header_len sampling_index is_sync
flush_frame = refl

feed_total_example :
    (out : List Output) × (t : Splitter) × (feed (frame8 ++ cut5) fresh ≡ some (out, t))
    × (handed_out out ++ t.buf ≡ [] ++ (frame8 ++ cut5))
    × All IsFaithful out
feed_total_example = feed_total (frame8 ++ cut5) fresh

flush_total_example :
    (out : List Output) × (t : Splitter) × (flush (record { buf = cut5; synced = true })
      ≡ some (out, t))
    × (handed_out out ≡ cut5)
    × (t.buf ≡ [])
    × (t.synced ≡ false)
flush_total_example = flush_total (record { buf = cut5; synced = true })
