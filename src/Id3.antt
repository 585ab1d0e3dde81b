-- ===== src/Id3.antt =====
-- internal/id3/id3.go: the ID3v2 tags of recordings made before 1.1.0. A frame's ID and its data
-- are byte lists. `int` has 64 bits, so the test `size < 0` of Parse never fires and is left out.
pub mod Syncsafe
pub mod Header
pub mod RoundTrip
pub mod Loop
use Prim.Native.Nat.{bit_and, bit_or}
use spectado_stream_recorder.Common.{
  ℕ, zero, suc, ◌+◌, ◌*◌, ◌/◌, ◌%◌, ◌^◌, min, Bool, true, not, ◌&&◌, ◌||◌, Option, none, some, List,
  [], ◌∷◌, ◌++◌, length, take, drop, ltb, leb, ◌==◌, if◌then◌else◌, Bytes, at,
}

pub record Frame : Type 0 where
  pub id : Bytes
  pub content : Bytes

-- Four bytes of seven bits, highest first.
unfoldable pub syncsafe : ℕ → Bytes
syncsafe n =
    bit_and (n / 2 ^ 21) 0x7f % 256
    ∷ bit_and (n / 2 ^ 14) 0x7f % 256
    ∷ bit_and (n / 2 ^ 7) 0x7f % 256
    ∷ bit_and n 0x7f % 256
    ∷ []

unfoldable pub desyncsafe : ℕ → ℕ → ℕ → ℕ → ℕ
desyncsafe a b c d =
    bit_or
      (bit_or (bit_or (bit_and a 0x7f * 2 ^ 21) (bit_and b 0x7f * 2 ^ 14)) (bit_and c 0x7f * 2 ^ 7))
      (bit_and d 0x7f)

-- One of four bytes has its high bit set.
abbrev pub any_high : ℕ → ℕ → ℕ → ℕ → Bool
any_high a b c d =
    not (bit_and a 0x80 == 0)
    || not (bit_and b 0x80 == 0)
    || not (bit_and c 0x80 == 0)
    || not (bit_and d 0x80 == 0)

abbrev pub starts_tag : Bytes → Bool
starts_tag b = at b 0 == b'I' && at b 1 == b'D' && at b 2 == b'3'

-- The version bytes are those of ID3v2.2 to ID3v2.4.
abbrev bad_version : Bytes → Bool
bad_version b = ltb (at b 3) 2 || ltb 4 (at b 3) || at b 4 == 0xff

-- `some n` is (n, true), `none` is (0, false).
unfoldable pub tag_len : Bytes → Option ℕ
tag_len b =
    if ltb (length b) 10
    then none
    else if not (starts_tag b)
    then none
    else if bad_version b
    then none
    else if any_high (at b 6) (at b 7) (at b 8) (at b 9)
    then none
    else let total = 10 + desyncsafe (at b 6) (at b 7) (at b 8) (at b 9) in
      some (if not (bit_and (at b 5) 0x10 == 0) then total + 10 else total)

pub data ParseError : Type 0 where
  not_tag : ParseError
  unsupported_version : ℕ → ParseError
  v22_unsupported : ParseError
  bad_header : ParseError
  non_syncsafe : Bytes → ParseError
  overflows_tag : Bytes → ℕ → ParseError

-- Go's ([]Frame, error); `Parse` hands out the frames read before an error.
pub record Parsed : Type 0 where
  pub frames : List Frame
  pub error : Option ParseError

abbrev failed : ParseError → Parsed
failed e = record { frames = []; error = some e }

-- The frame's size field, in v2.4 and in v2.3.
unfoldable pub frame_size : Bool → Bytes → ℕ
frame_size syncsafe_frames h =
    if syncsafe_frames
    then desyncsafe (at h 4) (at h 5) (at h 6) (at h 7)
    else bit_or (bit_or (bit_or (at h 4 * 2 ^ 24) (at h 5 * 2 ^ 16)) (at h 6 * 2 ^ 8)) (at h 7)

-- What one round of Parse's loop finds: the end of the frames (padding, or an error), or a frame
-- and its size.
pub data Round : Type 0 where
  stop : Option ParseError → Round
  more : Frame → ℕ → Round

-- The body of `for p+10 <= total`, up to the append.
unfoldable pub read_frame : Bool → ℕ → Bytes → ℕ → Round
unfolding frame_size
read_frame syncsafe_frames total b p =
    let h = drop p b in
    let size = frame_size syncsafe_frames h in
    if at h 0 == 0
    then stop none
    else if syncsafe_frames && any_high (at h 4) (at h 5) (at h 6) (at h 7)
    then stop (some (non_syncsafe (take 4 h)))
    else if ltb total (p + 10 + size)
    then stop (some (overflows_tag (take 4 h) size))
    else more (record { id = take 4 h; content = take size (drop (p + 10) b) }) size

-- The loop `for p+10 <= total`; `none` means that the fuel ran out.
unfoldable pub parse_frames : ℕ → Bool → ℕ → Bytes → ℕ → List Frame → Option Parsed
parse_frames zero syncsafe_frames total b p frames = none
parse_frames (suc fuel) syncsafe_frames total b p frames =
    let round : Option Parsed = elim (read_frame syncsafe_frames total b p) [
      | stop e ↦ some (record { frames = frames; error = e })
      | more f size ↦ parse_frames fuel syncsafe_frames total b (p + 10 + size) (frames ++ (f ∷ []))
    ] in
    if ltb total (p + 10) then some (record { frames = frames; error = none }) else round

-- Parse behind its checks; the tag's length is cut to the slice's.
unfoldable pub parse_body : Bytes → Option ℕ → Option Parsed
parse_body b none = some (failed bad_header)
parse_body b (some n) =
    let total = min n (length b) in parse_frames (suc total) (leb 4 (at b 3)) total b 10 []

unfoldable pub parse : Bytes → Option Parsed
parse b =
    if ltb (length b) 10 || not (starts_tag b)
    then some (failed not_tag)
    else if bad_version b
    then some (failed (unsupported_version (at b 3)))
    else if at b 3 == 2
    then some (failed v22_unsupported)
    else parse_body b (tag_len b)

-- A frame of `Tag`: an ID of another length than 4 is padded with zeros, or cut.
unfoldable pub render_frame : Frame → Bytes
render_frame f =
    let id = if not (length f.id == 4) then take 4 (f.id ++ (0 ∷ 0 ∷ 0 ∷ 0 ∷ [])) else f.id in
    id ++ (syncsafe (length f.content) ++ (0 ∷ 0 ∷ f.content))

unfoldable pub tag_body : List Frame → Bytes
unfolding render_frame
tag_body [] = []
tag_body (f ∷ fs) = render_frame f ++ tag_body fs

-- `Tag`.
unfoldable pub tag : List Frame → Bytes
unfolding tag_body
tag frames =
    let body = tag_body frames in b'I' ∷ b'D' ∷ b'3' ∷ 4 ∷ 0 ∷ 0 ∷ (syncsafe (length body) ++ body)
