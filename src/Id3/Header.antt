-- ===== src/Id3/Header.antt =====
-- TagLen: the range of its answers, what they rest on, and the length of what Tag writes.
use spectado_stream_recorder.Common.{
  ℕ, ◌+◌, ◌/◌, ◌%◌, ◌^◌, ◌≤◌, ◌<◌, ◌≡◌, arith, true, some, List, ◌∷◌, ◌++◌, length, Bytes, at,
}
use spectado_stream_recorder.Id3.{Frame, starts_tag, tag_len, tag_body, tag}
use spectado_stream_recorder.Id3.Syncsafe.{
  desyncsafe_lem, desyncsafe-syncsafe, syncsafe_lem, not_high,
}

-- A recognised tag starts with "ID3", has at least its 10-byte header, and ends before 2 ^ 28 + 20
-- bytes: a body of 28 bits with header and footer.
pub tag_len_bounds :
    (b : Bytes) {n : ℕ}
    → tag_len b ≡ some n
    → (10 ≤ length b) × (starts_tag b ≡ true) × (10 ≤ n) × (n < 2 ^ 28 + 20)
unfolding tag_len
tag_len_bounds b h = ground (arith, desyncsafe_lem (at b 6) (at b 7) (at b 8) (at b 9))

-- The bytes of `Tag`, its header written out.
pub tag-header :
    (fs : List Frame)
    → tag fs
      ≡ b'I'
        ∷ b'D'
        ∷ b'3'
        ∷ 4
        ∷ 0
        ∷ 0
        ∷ length (tag_body fs) / 2 ^ 21 % 128
        ∷ length (tag_body fs) / 2 ^ 14 % 128
        ∷ length (tag_body fs) / 2 ^ 7 % 128
        ∷ length (tag_body fs) % 128
        ∷ tag_body fs
unfolding tag
tag-header fs = rw (syncsafe_lem (length (tag_body fs)))

pub length-tag : (fs : List Frame) → length (tag fs) ≡ 10 + length (tag_body fs)
length-tag fs = rw tag-header (omega arith)

-- TagLen of a rendered tag, whatever follows it, is the number of bytes that Tag wrote.
pub tag_len-tag :
    (fs : List Frame) (rest : Bytes)
    → length (tag_body fs) < 2 ^ 28
    → tag_len (tag fs ++ rest) ≡ some (length (tag fs))
unfolding tag_len
tag_len-tag fs rest h = rw (length-tag fs) (
    rw (tag-header fs) (
      ground (
        arith,
        not_high (length (tag_body fs) / 2 ^ 21 % 128),
        not_high (length (tag_body fs) / 2 ^ 14 % 128),
        not_high (length (tag_body fs) / 2 ^ 7 % 128),
        not_high (length (tag_body fs) % 128),
        desyncsafe-syncsafe (length (tag_body fs)),
      )))
