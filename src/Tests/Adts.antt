-- ===== src/Tests/Adts.antt =====
-- internal/adts at small files.
use spectado_stream_recorder.Common.{◌≡◌, refl, true, false, some, [], ◌∷◌, ◌++◌, arith, Bytes}
use spectado_stream_recorder.Adts.Header.{
  header_len, frame_length, sampling_index, parse_header, header_prefix_valid,
}
use spectado_stream_recorder.Adts.Tail.{
  walk, walk_loop, find, judge, scan_from, scan_tail, Trimmed, trim_partial_tail,
}
use spectado_stream_recorder.Adts.Tail.Elements.{IsFrame, empty, with_frame}
use spectado_stream_recorder.Adts.Tail.Cut.{Trusted, scan_tail-Trusted}
use spectado_stream_recorder.Adts.Tail.Recovery.{
  no_faults, TrimContract, trim_contract, trim_partial_tail-interrupted,
}

-- A frame of eight bytes, LC at 44.1 kHz.
abbrev pub frame8 : Bytes
frame8 = 0xff ∷ 0xf1 ∷ 0x50 ∷ 0x80 ∷ 1 ∷ 0 ∷ 0xfc ∷ 42 ∷ []

abbrev pub cut5 : Bytes
cut5 = 0xff ∷ 0xf1 ∷ 0x50 ∷ 0x80 ∷ 1 ∷ []

frame8_header : parse_header frame8 ≡ some 8
unfolding parse_header frame_length header_len sampling_index
frame8_header = refl

frame8-IsFrame : IsFrame frame8
frame8-IsFrame = (omega arith, frame8_header)

scan_two : scan_tail (frame8 ++ (frame8 ++ cut5)) 21 ≡ some (16, true)
unfolding scan_tail scan_from judge walk walk_loop find parse_header frame_length header_len
    sampling_index header_prefix_valid
scan_two = refl

scan_tail-Trusted_example : Trusted (frame8 ++ (frame8 ++ cut5)) 21 16
scan_tail-Trusted_example = scan_tail-Trusted (frame8 ++ (frame8 ++ cut5)) 21 scan_two

trim_contract_example :
    (t : Trimmed) × (trim_partial_tail no_faults (frame8 ++ cut5) ≡ some t)
    × TrimContract (frame8 ++ cut5) t
trim_contract_example = trim_contract no_faults (frame8 ++ cut5)

trim_partial_tail-interrupted_example :
    trim_partial_tail no_faults ((frame8 ++ frame8) ++ cut5)
    ≡ some (record { contents = frame8 ++ frame8; removed = 5; failed = false })
trim_partial_tail-interrupted_example =
    trim_partial_tail-interrupted frame8 frame8 cut5 (0 ∷ 0xfc ∷ 42 ∷ []) 1 frame8-IsFrame
      (with_frame frame8 frame8-IsFrame empty) frame8-IsFrame (λ e. cc) (λ e. cc) (omega arith)
