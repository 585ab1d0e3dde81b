-- ===== src/Adts/Splitter.antt =====
-- internal/adts/splitter.go: Splitter, which cuts a stream into frames. What the two callbacks are
-- handed is a list of outputs.
pub mod Rounds
pub mod Lossless
pub mod Ends
pub mod Total
use spectado_stream_recorder.Common.{
  ℕ, zero, suc, ◌+◌, ◌-◌, ◌*◌, ◌/◌, ◌%◌, ◌^◌, ◌≤◌, ◌<◌, min, max, ◌≡◌, refl, sym, ap, ◌∙◌, ◌≢◌, ◌↔◌,
  ◌⊎◌, inl, inr, Bool, true, false, not, ◌&&◌, ◌||◌, Option, none, some, List, [], ◌∷◌, ◌++◌, map,
  append-nil, append_assoc, arith, ltb, leb, ◌==◌, if◌then◌else◌, ltb→lt, lt→ltb, leb→le, ==_iff,
  Bool-cases, Option-cases, length, get_or, take, drop, All, length-append, take-append-drop,
  length-take, length-drop, take-length-append, drop-length-append, drop-drop, All-map, All-concat,
  Apart, Apart-concat, Bytes, at, IsByte,
}
use spectado_stream_recorder.Id3.{tag_len}
use spectado_stream_recorder.Adts.Header.{
  min_header, parse_header, header_prefix_valid, Header, parse_full_header,
}

pub record Splitter : Type 0 where
  pub buf : Bytes
  pub synced : Bool

pub data Output : Type 0 where
  frame : Bytes → Header → Output
  junk : Bytes → Output

-- One round of process's loop: return, hand out the rest as junk, hand out a frame or `n` bytes of
-- junk, or go on with another `synced`.
pub data SplitRound : Type 0 where
  wait flush_rest : SplitRound
  emit_frame : Header → SplitRound
  emit_junk : ℕ → SplitRound
  set_synced : Bool → SplitRound

-- The bytes in front of the next that can start a frame or a tag.
unfoldable pub skip_run : Bytes → ℕ
skip_run [] = 0
skip_run (b ∷ bs) = if not (b == 0xff) && not (b == 73) then 1 + skip_run bs else 0

-- skipJunk: how many bytes it hands out.
unfoldable pub skip_len : Bytes → ℕ
unfolding skip_run
skip_len [] = 0
skip_len (b ∷ bs) = if not (b == 0xff) && not (b == 73) then 1 + skip_run bs else 1

-- The end of the input hands out the rest, otherwise more bytes are awaited.
abbrev pub at_end : Bool → SplitRound
at_end eof = if eof then flush_rest else wait

unfoldable pub round_synced : Bool → Bytes → SplitRound
round_synced eof buf =
    if ltb (length buf) min_header then at_end eof else (elim (parse_full_header buf) [
      | none ↦ set_synced false
      | some h ↦ if ltb (length buf) h.length then at_end eof else emit_frame h
    ])

unfoldable pub round_tag : Bool → Bytes → SplitRound
round_tag eof buf = if ltb (length buf) 10 then at_end eof else (elim (tag_len buf) [
  | none ↦ emit_junk (skip_len buf)
  | some n ↦ if ltb (length buf) n then at_end eof else emit_junk n
])

-- A header that may start a frame: the next header confirms it, or the end of the input.
unfoldable pub round_header : Bool → Bytes → Header → SplitRound
round_header eof buf h =
    if leb (h.length + min_header) (length buf)
    then (elim (parse_header (drop h.length buf)) [
      | some n ↦ set_synced true
      | none ↦ emit_junk (skip_len buf)
    ])
    else if not eof
    then wait
    else if length buf == h.length
    then emit_frame h
    else if ltb (length buf) h.length
    then flush_rest
    else emit_junk (skip_len buf)

unfoldable pub round_unsynced : Bool → Bytes → SplitRound
unfolding round_tag round_header skip_len
round_unsynced eof buf =
    if at buf 0 == 73
    then round_tag eof buf
    else if ltb (length buf) min_header
    then (if header_prefix_valid buf then at_end eof else emit_junk (skip_len buf))
    else (elim (parse_full_header buf) [
      | none ↦ emit_junk (skip_len buf)
      | some h ↦ round_header eof buf h
    ])

unfoldable pub round : Bool → Bool → Bytes → SplitRound
unfolding round_synced round_unsynced
round eof synced buf = if synced then round_synced eof buf else round_unsynced eof buf

-- An output in front of the others.
abbrev pub hand_out : Output → Option (List Output × Splitter) → Option (List Output × Splitter)
hand_out o none = none
hand_out o (some (out, t)) = some (o ∷ out, t)

-- process: what it hands out, and the splitter behind it; `none` means that the fuel ran out.
unfoldable pub process : ℕ → Bool → Splitter → Option (List Output × Splitter)
process zero eof s = none
process (suc fuel) eof s = elim s.buf [
  | [] ↦ some ([], s)
  | b ∷ bs ↦ elim (round eof s.synced s.buf) [
    | wait ↦ some ([], s)
    | flush_rest ↦ some (junk s.buf ∷ [], record s { buf = [] })
    | set_synced synced ↦ process fuel eof (record s { synced = synced })
    | emit_frame h ↦
        hand_out (frame (take h.length s.buf) h)
          (process fuel eof (record s { buf = drop h.length s.buf }))
    | emit_junk n ↦
        hand_out (junk (take n s.buf)) (process fuel eof (record s { buf = drop n s.buf }))
  ]
]

-- Two rounds hand out a byte at least.
unfoldable pub fuel_for : Bytes → ℕ
fuel_for buf = 2 * length buf + 2

-- Feed
unfoldable pub feed : Bytes → Splitter → Option (List Output × Splitter)
unfolding process fuel_for
feed p s = process (fuel_for (s.buf ++ p)) false (record s { buf = s.buf ++ p })

abbrev pub as_junk : Output → Output
as_junk (frame b h) = junk b
as_junk (junk b) = junk b

-- Flush: frames go to the junk callback, and the splitter starts anew.
abbrev pub flushed : Option (List Output × Splitter) → Option (List Output × Splitter)
flushed none = none
flushed (some (out, t)) = some (map as_junk out, record { buf = []; synced = false })

unfoldable pub flush : Splitter → Option (List Output × Splitter)
unfolding process fuel_for
flush s = flushed (process (fuel_for s.buf) true s)
