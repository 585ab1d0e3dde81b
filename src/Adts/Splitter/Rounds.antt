-- ===== src/Adts/Splitter/Rounds.antt =====
-- The rounds of Splitter's loop: what they take from the buffer, and what process does with them.
use spectado_stream_recorder.Common.{
  ℕ, suc, ◌+◌, ◌≤◌, ◌≡◌, refl, ap, ◌∙◌, inl, inr, Bool, true, false, Option, some, List, [], ◌∷◌,
  arith, ltb, leb, ◌==◌, Bool-cases, Option-cases, length, take, drop, Bytes, at,
}
use spectado_stream_recorder.Id3.{tag_len}
use spectado_stream_recorder.Id3.Header.{tag_len_bounds}
use spectado_stream_recorder.Adts.Header.{
  min_header, parse_header, header_prefix_valid, Header, parse_full_header,
}
use spectado_stream_recorder.Adts.Header.Prefix.{parse_header_facts}
use spectado_stream_recorder.Adts.Splitter.{
  Splitter, Output, frame, junk, SplitRound, wait, flush_rest, emit_frame, emit_junk, set_synced,
  hand_out, skip_run, skip_len, round_synced, round_tag, round_header, round_unsynced, round,
  process,
}

skip_run_le : (b : Bytes) → skip_run b ≤ length b
unfolding skip_run
skip_run_le [] = omega arith
skip_run_le (x ∷ b) = ground (arith, skip_run_le b)

skip_len_bounds : (b : Bytes) → 1 ≤ length b → (1 ≤ skip_len b) × (skip_len b ≤ length b)
unfolding skip_len
skip_len_bounds [] h = absurd (omega arith)
skip_len_bounds (x ∷ b) h = ground (arith, skip_run_le b)

pub parse_full_header_facts :
    (b : Bytes) {h : Header}
    → parse_full_header b ≡ some h
    → (7 ≤ length b) × (parse_header b ≡ some h.length) × (7 ≤ h.length)
unfolding parse_full_header
parse_full_header_facts b {h} e = elim (Bool-cases (ltb (length b) min_header)) [
  | inl short ↦ absurd (ground (arith, short, e))
  | inr long ↦ elim (Option-cases (parse_header b)) [
    | inl p ↦ absurd (ground (arith, long, p, e))
    | inr (n, p) ↦
        let same : n ≡ h.length = ground (arith, long, p, e) in
        (ground (arith, long), p ∙ ap some same, omega (arith, same, (parse_header_facts b p).1))
  ]
]

-- What a round takes from the front of the buffer lies in it, and is a byte at least.
abbrev pub Fits : Bytes → SplitRound → Type 0
Fits buf (emit_frame h) =
    (parse_header buf ≡ some h.length) × (1 ≤ h.length) × (h.length ≤ length buf)
Fits buf (emit_junk n) = (1 ≤ n) × (n ≤ length buf)
Fits buf _ = Unit

skip-Fits : (b : Bytes) → 1 ≤ length b → Fits b (emit_junk (skip_len b))
skip-Fits b h = skip_len_bounds b h

round_synced-Fits : (eof : Bool) (b : Bytes) → 1 ≤ length b → Fits b (round_synced eof b)
unfolding round_synced
round_synced-Fits eof b l = elim (Bool-cases (ltb (length b) min_header)) [
  | inl short ↦ ends short eof
  | inr long ↦ elim (Option-cases (parse_full_header b)) [
    | inl e ↦ rw (long, e) tt
    | inr (h, e) ↦ elim (Bool-cases (ltb (length b) h.length)) [
      | inl cut ↦ cuts long e cut eof
      | inr whole ↦
          let (_, p, n) = parse_full_header_facts b e in
          rw (long, e, whole) (p, omega (arith, n), ground (arith, whole))
    ]
  ]
]
  where
    ends : ltb (length b) min_header ≡ true → (eof : Bool) → Fits b (round_synced eof b)
    ends short true = rw short tt
    ends short false = rw short tt

    cuts :
        ltb (length b) min_header ≡ false
        → {h : Header} → parse_full_header b ≡ some h
        → ltb (length b) h.length ≡ true
        → (eof : Bool) → Fits b (round_synced eof b)
    cuts long e cut true = rw (long, e, cut) tt
    cuts long e cut false = rw (long, e, cut) tt

round_tag-Fits : (eof : Bool) (b : Bytes) → 1 ≤ length b → Fits b (round_tag eof b)
unfolding round_tag
round_tag-Fits eof b l = elim (Bool-cases (ltb (length b) 10)) [
  | inl short ↦ elim (Bool-cases eof) [ inl e ↦ rw (short, e) tt | inr e ↦ rw (short, e) tt ]
  | inr long ↦ elim (Option-cases (tag_len b)) [
    | inl e ↦ rw (long, e) (skip-Fits b l)
    | inr (n, e) ↦ elim (Bool-cases (ltb (length b) n)) [
      | inl cut ↦ elim (Bool-cases eof) [
        | inl f ↦ rw (long, e, cut, f) tt
        | inr f ↦ rw (long, e, cut, f) tt
      ]
      | inr whole ↦
          rw (long, e, whole) (omega (arith, (tag_len_bounds b e).2), ground (arith, whole))
    ]
  ]
]

-- A round on the rest of a buffer whose header is accepted.
round_header-Fits :
    (eof : Bool) (b : Bytes) (h : Header)
    → (7 ≤ length b) × (parse_header b ≡ some h.length) × (7 ≤ h.length)
    → Fits b (round_header eof b h)
unfolding round_header
round_header-Fits eof b h (l, p, n) = elim (Bool-cases (leb (h.length + min_header) (length b))) [
  | inl long ↦ elim (Option-cases (parse_header (drop h.length b))) [
    | inl e ↦ rw (long, e) (skip-Fits b (omega (arith, l)))
    | inr (k, e) ↦ rw (long, e) tt
  ]
  | inr short ↦ elim (Bool-cases eof) [
    | inr more ↦ rw (short, more) tt
    | inl ends ↦ elim (Bool-cases (length b == h.length)) [
      | inl whole ↦ rw (short, ends, whole) (p, omega (arith, n), ground (arith, whole))
      | inr other ↦ elim (Bool-cases (ltb (length b) h.length)) [
        | inl cut ↦ rw (short, ends, other, cut) tt
        | inr stray ↦ rw (short, ends, other, stray) (skip-Fits b (omega (arith, l)))
      ]
    ]
  ]
]

round_unsynced-Fits : (eof : Bool) (b : Bytes) → 1 ≤ length b → Fits b (round_unsynced eof b)
unfolding round_unsynced
round_unsynced-Fits eof b l = elim (Bool-cases (at b 0 == 73)) [
  | inl tag ↦ rw (tag, round_unsynced) (round_tag-Fits eof b l)
  | inr other ↦ elim (Bool-cases (ltb (length b) min_header)) [
    | inl short ↦ elim (Bool-cases (header_prefix_valid b)) [
      | inl prefix ↦ elim (Bool-cases eof) [
        | inl e ↦ rw (other, short, prefix, e, round_unsynced) tt
        | inr e ↦ rw (other, short, prefix, e, round_unsynced) tt
      ]
      | inr foreign ↦ rw (other, short, foreign, round_unsynced) (skip-Fits b l)
    ]
    | inr long ↦ elim (Option-cases (parse_full_header b)) [
      | inl e ↦ rw (other, long, e, round_unsynced) (skip-Fits b l)
      | inr (h, e) ↦
          rw (other, long, e, round_unsynced)
            (round_header-Fits eof b h (parse_full_header_facts b e))
    ]
  ]
]

pub round-Fits : (eof synced : Bool) (b : Bytes) → 1 ≤ length b → Fits b (round eof synced b)
unfolding round
round-Fits eof true b l = round_synced-Fits eof b l
round-Fits eof false b l = round_unsynced-Fits eof b l

-- What process does with a round.
abbrev pub act : ℕ → Bool → Splitter → SplitRound → Option (List Output × Splitter)
act fuel eof s wait = some ([], s)
act fuel eof s flush_rest = some (junk s.buf ∷ [], record s { buf = [] })
act fuel eof s (set_synced synced) = process fuel eof (record s { synced = synced })
act fuel eof s (emit_frame h) =
    hand_out (frame (take h.length s.buf) h)
      (process fuel eof (record s { buf = drop h.length s.buf }))
act fuel eof s (emit_junk n) =
    hand_out (junk (take n s.buf)) (process fuel eof (record s { buf = drop n s.buf }))

pub process_step :
    (fuel : ℕ) (eof synced : Bool) (b : ℕ) (bs : Bytes) {r : SplitRound}
    → round eof synced (b ∷ bs) ≡ r
    → process (suc fuel) eof (record { buf = b ∷ bs; synced = synced })
      ≡ act fuel eof (record { buf = b ∷ bs; synced = synced }) r
unfolding process
process_step fuel eof synced b bs {r = wait} e = rw (e, process) refl
process_step fuel eof synced b bs {r = flush_rest} e = rw (e, process) refl
process_step fuel eof synced b bs {r = set_synced c} e = rw (e, process) refl
process_step fuel eof synced b bs {r = emit_frame h} e = rw (e, process) refl
process_step fuel eof synced b bs {r = emit_junk n} e = rw (e, process) refl
