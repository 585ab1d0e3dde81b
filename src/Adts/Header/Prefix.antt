-- ===== src/Adts/Header/Prefix.antt =====
-- What the header's parsers read: the first seven bytes, and fewer of a prefix.
use spectado_stream_recorder.Common.{
  ℕ, zero, suc, ◌≤◌, ◌<◌, ◌≡◌, refl, true, some, [], ◌∷◌, ◌++◌, arith, length, Bytes, at,
}
use spectado_stream_recorder.Adts.Header.{
  is_sync, header_len, frame_length, sampling_index, parse_header, header_prefix_valid, min_header,
}

-- Bytes in front of the end of `b` are those of `b`.
pub at-append : (b rest : Bytes) (i : ℕ) → i < length b → at (b ++ rest) i ≡ at b i
at-append [] rest i h = absurd (omega arith)
at-append (x ∷ b) rest zero h = refl
at-append (x ∷ b) rest (suc i) h = at-append b rest i (omega arith)

pub frame_length-append :
    (b rest : Bytes) → 6 ≤ length b → frame_length (b ++ rest) ≡ frame_length b
unfolding frame_length
frame_length-append b rest h =
    rw
      (
        at-append b rest 3 (omega arith),
        at-append b rest 4 (omega arith),
        at-append b rest 5 (omega arith),
      )
      refl

pub sampling_index-append :
    (b rest : Bytes) → 3 ≤ length b → sampling_index (b ++ rest) ≡ sampling_index b
unfolding sampling_index
sampling_index-append b rest h = rw (at-append b rest 2 (omega arith)) refl

-- A header's answer does not depend on what follows its seven bytes.
pub parse_header-append :
    (b rest : Bytes) → min_header ≤ length b → parse_header (b ++ rest) ≡ parse_header b
unfolding parse_header
parse_header-append b rest h =
    rw
      (
        at-append b rest 0 (omega arith),
        at-append b rest 1 (omega arith),
        sampling_index-append b rest (omega arith),
        frame_length-append b rest (omega arith),
      )
      refl

-- A frame starts with 0xff, and is at least as long as its header.
pub parse_header_facts : (b : Bytes) {n : ℕ} → parse_header b ≡ some n → (at b 0 ≡ 0xff) × (7 ≤ n)
unfolding parse_header header_len
parse_header_facts b h = ground arith

-- The first bytes of a frame, fewer than a header, are recognised as such.
pub header_prefix_valid-prefix :
    (b rest : Bytes) {n : ℕ}
    → parse_header (b ++ rest) ≡ some n
    → 1 ≤ length b
    → header_prefix_valid b ≡ true
unfolding parse_header header_prefix_valid
header_prefix_valid-prefix b rest h l = ground (
  arith,
  at-append b rest 0,
  at-append b rest 1,
  sampling_index-append b rest,
  frame_length-append b rest,
)

pub parse_header-is_sync :
    (b : Bytes) {n : ℕ} → parse_header b ≡ some n → is_sync (at b 0) (at b 1) ≡ true
unfolding parse_header
parse_header-is_sync b h = ground arith
