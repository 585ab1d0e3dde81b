-- ===== src/Id3/Loop.antt =====
-- Parse's loop ends on every input, and what it reads lies within the tag.
use spectado_stream_recorder.Common.{
  ℕ, zero, suc, ◌+◌, ◌≤◌, ◌<◌, ◌≡◌, ◌≢◌, ◌⊎◌, refl, arith, Bool, Option, none, some, List, [],
  length, length-drop, length-take, ltb, leb, Bytes, at, drop, min, Bool-cases, inl, inr,
}
use spectado_stream_recorder.Id3.{
  Frame, Round, stop, more, read_frame, frame_size, parse_frames, parse, parse_body, tag_len,
  ParseError,
}

pub Round-cases :
    (r : Round)
    → ((e : Option ParseError) × (r ≡ stop e)) ⊎ ((f : Frame) × (size : ℕ) × (r ≡ more f size))
Round-cases (stop e) = inl (e, refl)
Round-cases (more f size) = inr (f, size, refl)

-- A frame that is read ends within the tag, and holds as many bytes as its size says.
pub read_frame_within :
    (ss : Bool) (total : ℕ) (b : Bytes) (p : ℕ) {f : Frame} {size : ℕ}
    → total ≤ length b
    → read_frame ss total b p ≡ more f size
    → (p + 10 + size ≤ total) × (length f.content ≡ size)
unfolding read_frame
read_frame_within ss total b p h e =
    ground (arith, length-take (frame_size ss (drop p b)) (drop (p + 10) b), length-drop (p + 10) b)

module _ (ss : Bool) (total : ℕ) (b : Bytes) where
  parse_frames-ne-none :
      (fuel p : ℕ) (fs : List Frame)
      → total ≤ length b
      → 0 < fuel
      → total ≤ p + fuel
      → parse_frames fuel ss total b p fs ≢ none
  unfolding parse_frames
  parse_frames-ne-none zero p fs hb pos h = absurd (omega arith)
  parse_frames-ne-none (suc fuel) p fs hb pos h = elim (Bool-cases (ltb total (p + 10))) [
    | inl done ↦ rw done (λ e. cc)
    | inr on ↦ rw on (elim (Round-cases (read_frame ss total b p)) [
      | inl (r, e) ↦ rw e (λ x. cc)
      | inr (f, size, e) ↦
          let within = read_frame_within ss total b p hb e in
          rw e (parse_frames-ne-none fuel (p + 10 + size) _ hb (ground arith) (omega arith))
    ])
  ]

parse_body-ne-none : (b : Bytes) (n : Option ℕ) → parse_body b n ≢ none
unfolding parse_body
parse_body-ne-none b none = λ e. cc
parse_body-ne-none b (some n) =
    parse_frames-ne-none (leb 4 (at b 3)) (min n (length b)) b _ 10 [] (omega arith) (omega arith)
      (omega arith)

-- Parse ends on every input: its loop never runs out of fuel.
pub parse-ne-none : (b : Bytes) → parse b ≢ none
unfolding parse
parse-ne-none b = ground (arith, parse_body-ne-none b (tag_len b))
