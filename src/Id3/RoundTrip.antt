-- ===== src/Id3/RoundTrip.antt =====
-- Parse reads back what Tag wrote.
use spectado_stream_recorder.Common.{
  ℕ, zero, suc, ◌+◌, ◌/◌, ◌%◌, ◌^◌, ◌≤◌, ◌<◌, min, ◌≡◌, refl, sym, ◌∙◌, ◌≢◌, true, false, none,
  some, List, [], ◌∷◌, ◌++◌, append-nil, append_assoc, arith, ltb, length, drop, All, length-append,
  take-length-append, drop-length-append, drop-drop, Bytes, at,
}
use spectado_stream_recorder.Id3.{
  Frame, more, read_frame, parse_frames, parse_body, parse, render_frame, tag_body, tag,
}
use spectado_stream_recorder.Id3.Header.{length-tag, tag-header, tag_len-tag}
use spectado_stream_recorder.Id3.Syncsafe.{desyncsafe-syncsafe, syncsafe_lem, not_high}

-- A frame as the package's callers build it: a four-byte ID that is no padding, and data whose
-- length fits the size field.
pub record IsFrame (f : Frame) : Type 0 where
  pub id_length : length f.id ≡ 4
  pub id_start : at f.id 0 ≢ 0
  pub size_fits : length f.content < 2 ^ 28

four :
    (xs : Bytes) → length xs ≡ 4 → (a : ℕ) × (b : ℕ) × (c : ℕ) × (d : ℕ) × (xs ≡ a ∷ b ∷ c ∷ d ∷ [])
four [] h = absurd (omega arith)
four (a ∷ []) h = absurd (omega arith)
four (a ∷ b ∷ []) h = absurd (omega arith)
four (a ∷ b ∷ c ∷ []) h = absurd (omega arith)
four (a ∷ b ∷ c ∷ d ∷ []) h = (a, b, c, d, refl)
four (a ∷ b ∷ c ∷ d ∷ e ∷ xs) h = absurd (omega arith)

-- The bytes of a frame whose ID has four bytes.
render_frame_lem :
    (f : Frame)
    → length f.id ≡ 4
    → render_frame f
      ≡ f.id
        ++ (length f.content / 2 ^ 21 % 128
            ∷ length f.content / 2 ^ 14 % 128
            ∷ length f.content / 2 ^ 7 % 128
            ∷ length f.content % 128
            ∷ 0
            ∷ 0
            ∷ f.content)
unfolding render_frame
render_frame_lem f h = rw (h, syncsafe_lem (length f.content)) refl

-- The loop's round on a rendered frame.
read_frame-render_frame :
    (f : Frame) (rest : Bytes) (total : ℕ) (b : Bytes) (p : ℕ)
    → IsFrame f
    → drop p b ≡ render_frame f ++ rest
    → p + 10 + length f.content ≤ total
    → read_frame true total b p ≡ more f (length f.content)
unfolding read_frame
read_frame-render_frame f rest total b p v e h =
    let (i, j, k, l, id) = four f.id v.id_length in
    let n = length f.content in
    let body : drop (p + 10) b ≡ f.content ++ rest =
      sym (drop-drop 10 p b) ∙ rw (e, render_frame_lem f v.id_length, id) refl in
    let head : drop p b
        ≡ i
          ∷ j
          ∷ k
          ∷ l
          ∷ n / 2 ^ 21 % 128
          ∷ n / 2 ^ 14 % 128
          ∷ n / 2 ^ 7 % 128
          ∷ n % 128
          ∷ 0
          ∷ 0
          ∷ (f.content ++ rest) =
      e ∙ rw (render_frame_lem f v.id_length, id) refl in
    rw (head, body)
      (ground (
        arith,
        v.id_start,
        v.size_fits,
        desyncsafe-syncsafe n,
        id,
        take-length-append f.content rest,
        not_high (n / 2 ^ 21 % 128),
        not_high (n / 2 ^ 14 % 128),
        not_high (n / 2 ^ 7 % 128),
        not_high (n % 128),
      ))

length-render_frame : (f : Frame) → IsFrame f → length (render_frame f) ≡ 10 + length f.content
length-render_frame f v =
    let (i, j, k, l, id) = four f.id v.id_length in
    rw (render_frame_lem f v.id_length, id) (omega arith)

-- The loop on rendered frames, from where the first of them begins up to the tag's end.
parse_frames-tag_body :
    (fs : List Frame) (fuel total : ℕ) (b : Bytes) (p : ℕ) (out : List Frame) (rest : Bytes)
    → All IsFrame fs
    → drop p b ≡ tag_body fs ++ rest
    → p + length (tag_body fs) ≡ total
    → length (tag_body fs) < fuel
    → parse_frames fuel true total b p out ≡ some (record { frames = out ++ fs; error = none })
unfolding parse_frames tag_body
parse_frames-tag_body fs zero total b p out rest v e h enough = absurd (omega arith)
parse_frames-tag_body [] (suc fuel) total b p out rest v e h enough = ground (arith, append-nil out)
parse_frames-tag_body (f ∷ fs) (suc fuel) total b p out rest (vf, vs) e h enough = rw room (
    rw read (
      parse_frames-tag_body fs fuel total b (p + 10 + n) (out ++ (f ∷ [])) rest vs later
        (omega (arith, whole, size)) (omega (arith, whole, size))
      ∙ rw append_assoc))
  where
    n : ℕ
    n = length f.content

    size : length (render_frame f) ≡ 10 + n
    size = length-render_frame f vf

    whole : length (tag_body (f ∷ fs)) ≡ length (render_frame f) + length (tag_body fs)
    whole = length-append (render_frame f) (tag_body fs)

    room : ltb total (p + 10) ≡ false
    room = ground (arith, whole, size)

    split : drop p b ≡ render_frame f ++ (tag_body fs ++ rest)
    split = e ∙ append_assoc (render_frame f) (tag_body fs) rest

    read : read_frame true total b p ≡ more f n
    read =
        read_frame-render_frame f (tag_body fs ++ rest) total b p vf split
          (omega (arith, whole, size))

    later : drop (p + 10 + n) b ≡ tag_body fs ++ rest
    later =
        let e : p + 10 + n ≡ p + length (render_frame f) = omega (arith, size) in
        rw e (
          sym (drop-drop (length (render_frame f)) p b)
          ∙ rw split (drop-length-append (render_frame f) (tag_body fs ++ rest)))

abbrev stored : List Frame → Bytes → Bytes
stored fs rest =
    b'I'
    ∷ b'D'
    ∷ b'3'
    ∷ 4
    ∷ 0
    ∷ 0
    ∷ length (tag_body fs) / 2 ^ 21 % 128
    ∷ length (tag_body fs) / 2 ^ 14 % 128
    ∷ length (tag_body fs) / 2 ^ 7 % 128
    ∷ length (tag_body fs) % 128
    ∷ (tag_body fs ++ rest)

parse_body-tag :
    (fs : List Frame) (rest b : Bytes)
    → All IsFrame fs
    → drop 10 b ≡ tag_body fs ++ rest
    → length b ≡ 10 + length (tag_body fs) + length rest
    → at b 3 ≡ 4
    → parse_body b (some (10 + length (tag_body fs))) ≡ some (record { frames = fs; error = none })
unfolding parse_body
parse_body-tag fs rest b v e h major =
    rw (major, cut) (parse_frames-tag_body fs _ _ b 10 [] rest v e refl (omega arith))
  where
    cut : min (10 + length (tag_body fs)) (length b) ≡ 10 + length (tag_body fs)
    cut = omega arith

-- Parse returns the frames that Tag was given, without an error, whatever bytes follow the tag:
-- every frame has a four-byte ID that does not begin with a zero byte, and the frames together
-- stay below 2 ^ 28 bytes.
pub parse-tag :
    (fs : List Frame) (rest : Bytes)
    → All IsFrame fs
    → length (tag_body fs) < 2 ^ 28
    → parse (tag fs ++ rest) ≡ some (record { frames = fs; error = none })
unfolding parse
parse-tag fs rest v h = rw (tag_len-tag fs rest h) (
    rw (length-tag fs, tag-header fs)
      (ground
        (arith, length-append (tag_body fs) rest, parse_body-tag fs rest (stored fs rest) v refl)))
