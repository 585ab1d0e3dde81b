-- ===== src/Tests/Id3.antt =====
-- internal/id3 at concrete tags.
use spectado_stream_recorder.Common.{◌≡◌, refl, none, some, List, [], ◌∷◌, ◌++◌, arith, length}
use spectado_stream_recorder.Id3.{
  Frame, overflows_tag, syncsafe, desyncsafe, tag_len, tag, tag_body, read_frame, parse_frames,
  parse_body, parse,
}
use spectado_stream_recorder.Id3.RoundTrip.{parse-tag}

abbrev frames : List Frame
frames =
    record { id = b'T' ∷ b'X' ∷ b'X' ∷ b'X' ∷ []; content = 3 ∷ 65 ∷ [] }
    ∷ record { id = b'P' ∷ b'R' ∷ b'I' ∷ b'V' ∷ []; content = [] }
    ∷ []

tag_bytes : length (tag frames) ≡ 32
unfolding tag syncsafe
tag_bytes = refl

tag_size : tag_len (tag frames) ≡ some 32
unfolding tag_len tag syncsafe desyncsafe
tag_size = refl

-- A frame whose size says more than the tag holds.
overflow :
    parse (
      b'I' ∷ b'D' ∷ b'3' ∷ 4 ∷ 0 ∷ 0 ∷ 0 ∷ 0 ∷ 0 ∷ 11 ∷ 65 ∷ 65 ∷ 65 ∷ 65 ∷ 0 ∷ 0 ∷ 0 ∷ 9 ∷ 0 ∷ 0
      ∷ 7 ∷ [])
    ≡ some (record { frames = []; error = some (overflows_tag (65 ∷ 65 ∷ 65 ∷ 65 ∷ []) 9) })
unfolding parse parse_body tag_len desyncsafe parse_frames read_frame
overflow = refl

parse-tag_example :
    parse (tag frames ++ (1 ∷ 2 ∷ [])) ≡ some (record { frames = frames; error = none })
unfolding tag_body syncsafe
parse-tag_example =
    parse-tag frames (1 ∷ 2 ∷ [])
      (
        record { id_length = refl; id_start = omega arith; size_fits = omega arith },
        (record { id_length = refl; id_start = omega arith; size_fits = omega arith }, tt),
      )
      (omega arith)
