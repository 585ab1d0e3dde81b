-- ===== src/Adts/Scan/Within.antt =====
-- What a round of the scan takes from the rest of the file.
use spectado_stream_recorder.Common.{
  ℕ, ◌+◌, ◌≤◌, inl, inr, Bool, ◌&&◌, arith, ltb, leb, ◌==◌, Bool-cases, Option-cases, length, drop,
  Bytes,
}
use spectado_stream_recorder.Id3.{tag_len, starts_tag}
use spectado_stream_recorder.Id3.Header.{tag_len_bounds}
use spectado_stream_recorder.Adts.Header.{min_header, parse_header}
use spectado_stream_recorder.Adts.Header.Prefix.{parse_header_facts}
use spectado_stream_recorder.Adts.Scan.{
  Element, whole_tag, whole_frame, skipped, classify_frame, classify_bytes, classify,
}

-- What a round that goes on takes lies in the rest, and is a byte at least.
abbrev pub Within : Bytes → Element → Type 0
Within rest (whole_tag n) = (1 ≤ n) × (n ≤ length rest)
Within rest (whole_frame n) = (1 ≤ n) × (n ≤ length rest)
Within rest (skipped s) = 1 ≤ length rest
Within rest _ = Unit

classify_frame-Within :
    (synced : Bool) (rest : Bytes) (n : ℕ)
    → 7 ≤ length rest
    → 7 ≤ n
    → Within rest (classify_frame synced rest n)
unfolding classify_frame
classify_frame-Within synced rest n l big = elim (Bool-cases (ltb (length rest) n)) [
  | inl cut ↦ rw cut tt
  | inr whole ↦
      let fits : (1 ≤ n) × (n ≤ length rest) = ground (arith, whole, big) in
      elim (Bool-cases synced) [
        | inl s ↦ rw (whole, s) fits
        | inr s ↦ elim (Bool-cases (ltb (length rest) (n + min_header))) [
          | inl last ↦ elim (Bool-cases (length rest == n)) [
            | inl e ↦ rw (whole, s, last, e) fits
            | inr e ↦ rw (whole, s, last, e) (omega (arith, l))
          ]
          | inr more ↦ elim (Option-cases (parse_header (drop n rest))) [
            | inl e ↦ rw (whole, s, more, e) (omega (arith, l))
            | inr (k, e) ↦ rw (whole, s, more, e) fits
          ]
        ]
      ]
]

classify_bytes-Within : (synced : Bool) (rest : Bytes) → Within rest (classify_bytes synced rest)
unfolding classify_bytes
classify_bytes-Within synced rest = elim (Bool-cases (ltb (length rest) min_header)) [
  | inl short ↦ rw (short, classify_bytes) tt
  | inr long ↦ elim (Option-cases (parse_header rest)) [
    | inl e ↦ rw (long, e, classify_bytes) (ground (arith, long))
    | inr (n, e) ↦
        rw (long, e, classify_bytes)
          (classify_frame-Within synced rest n (ground (arith, long)) (parse_header_facts rest e).1)
  ]
]

pub classify-Within : (synced : Bool) (rest : Bytes) → Within rest (classify synced rest)
unfolding classify
classify-Within synced rest = elim (Bool-cases (leb 10 (length rest) && starts_tag rest)) [
  | inr other ↦ rw (other, classify) (classify_bytes-Within synced rest)
  | inl marked ↦ elim (Option-cases (tag_len rest)) [
    | inl e ↦ rw (marked, e, classify) (classify_bytes-Within synced rest)
    | inr (n, e) ↦ elim (Bool-cases (ltb (length rest) n)) [
      | inl cut ↦ rw (marked, e, cut, classify) tt
      | inr whole ↦
          rw (marked, e, whole, classify)
            (omega (arith, (tag_len_bounds rest e).2), ground (arith, whole))
    ]
  ]
]
