-- ===== src/Adts/Tail/Elements.antt =====
-- What a recording is made of, described without walk: frames, tags, and a cut element at the end.
use spectado_stream_recorder.Common.{
  ℕ, suc, ◌≤◌, ◌<◌, ◌≡◌, refl, true, false, ◌&&◌, some, [], ◌++◌, arith, leb, length, length-append,
  Bytes,
}
use spectado_stream_recorder.Id3.{tag_len, starts_tag}
use spectado_stream_recorder.Id3.Header.{tag_len_bounds}
use spectado_stream_recorder.Adts.Header.{parse_header, header_prefix_valid, min_header}
use spectado_stream_recorder.Adts.Header.Prefix.{at-append, parse_header-append, parse_header_facts}
use spectado_stream_recorder.Adts.Tail.{partial, tag, frame, find}

-- A whole frame: a header, and as many bytes as it says.
abbrev pub IsFrame : Bytes → Type 0
IsFrame b = (min_header ≤ length b) × (parse_header b ≡ some (length b))

-- A whole ID3v2 tag.
abbrev pub IsTag : Bytes → Type 0
IsTag b = tag_len b ≡ some (length b)

-- `c` whole frames one after the other, with any tags between them.
pub data Frames : Bytes → ℕ → Type 0 where
  empty : Frames [] 0
  with_frame :
      (b : Bytes) {rest : Bytes} {c : ℕ} → IsFrame b → Frames rest c → Frames (b ++ rest) (suc c)
  with_tag : (b : Bytes) {rest : Bytes} {c : ℕ} → IsTag b → Frames rest c → Frames (b ++ rest) c

-- The first bytes of a tag or of a frame, with the rest missing.
pub data IsCut (b : Bytes) : Type 0 where
  tag_header : starts_tag b ≡ true → 3 ≤ length b → length b < 10 → IsCut b
  in_tag : {n : ℕ} → tag_len b ≡ some n → length b < n → IsCut b
  frame_header :
      header_prefix_valid b ≡ true
      → length b < min_header
      → (leb 3 (length b) && starts_tag b) ≡ false
      → IsCut b
  in_frame : {n : ℕ} → min_header ≤ length b → parse_header b ≡ some n → length b < n → IsCut b

pub starts_tag-append : (b rest : Bytes) → 3 ≤ length b → starts_tag (b ++ rest) ≡ starts_tag b
starts_tag-append b rest h =
    rw
      (
        at-append b rest 0 (omega arith),
        at-append b rest 1 (omega arith),
        at-append b rest 2 (omega arith),
      )
      refl

-- A tag's length does not depend on what follows its ten header bytes.
pub tag_len-append : (b rest : Bytes) → 10 ≤ length b → tag_len (b ++ rest) ≡ tag_len b
unfolding tag_len
tag_len-append b rest h = rw (starts_tag-append b rest (omega arith)) (
    rw
      (
        at-append b rest 3 (omega arith),
        at-append b rest 4 (omega arith),
        at-append b rest 5 (omega arith),
        at-append b rest 6 (omega arith),
        at-append b rest 7 (omega arith),
        at-append b rest 8 (omega arith),
        at-append b rest 9 (omega arith),
      )
      (ground (arith, length-append b rest)))

-- walk recognises a whole frame, a whole tag and a cut element, whatever follows the whole ones.
pub find-frame : (b rest : Bytes) → IsFrame b → find (b ++ rest) ≡ frame (length b)
unfolding find
find-frame b rest f =
    rw (parse_header-append b rest f.0, f.1)
      (ground (arith, length-append b rest, parse_header_facts b f.1, at-append b rest 0))

pub find-tag : (b rest : Bytes) → IsTag b → find (b ++ rest) ≡ tag (length b)
unfolding find
find-tag b rest t =
    let (l, s, _, _) = tag_len_bounds b t in
    rw (tag_len-append b rest l, t, starts_tag-append b rest (omega arith), s)
      (ground (arith, length-append b rest))

pub find-IsCut : (b : Bytes) → IsCut b → find b ≡ partial
unfolding find
find-IsCut b (tag_header s h l) = rw s (ground arith)
find-IsCut b (in_tag t l) = let (k, s, _, _) = tag_len_bounds b t in rw (s, t) (ground arith)
find-IsCut b (frame_header v l s) = rw (s, v) (ground arith)
find-IsCut b (in_frame h p l) = rw p (ground (arith, parse_header_facts b p))
