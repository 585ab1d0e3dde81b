-- ===== src/Adts/Splitter/Lossless.antt =====
-- Splitter loses nothing: what Feed and Flush hand out is the input, and frames are frames.
use mathlib.Core.Path.{subst}
use spectado_stream_recorder.Common.{
  ℕ, zero, suc, ◌≤◌, ◌≡◌, refl, sym, ap, ◌∙◌, ◌≢◌, Bool, true, false, Option, none, some, List, [],
  ◌∷◌, ◌++◌, map, append-nil, append_assoc, arith, length, take, drop, All, take-append-drop,
  length-take, Bytes,
}
use spectado_stream_recorder.Adts.Header.{parse_header, Header}
use spectado_stream_recorder.Adts.Header.Prefix.{parse_header_facts, parse_header-append}
use spectado_stream_recorder.Adts.Splitter.Rounds.{Fits, round-Fits, act, process_step}
use spectado_stream_recorder.Adts.Splitter.{
  Splitter, Output, frame, junk, SplitRound, wait, flush_rest, emit_frame, emit_junk, set_synced,
  hand_out, round_synced, round_tag, round_header, round_unsynced, round, process, fuel_for, feed,
  as_junk, flushed, flush,
}

-- The bytes that were handed out.
abbrev pub bytes_of : Output → Bytes
bytes_of (frame b h) = b
bytes_of (junk b) = b

abbrev pub handed_out : List Output → Bytes
handed_out [] = []
handed_out (o ∷ os) = bytes_of o ++ handed_out os

-- A frame is handed out with its own header, and whole.
abbrev pub IsFaithful : Output → Type 0
IsFaithful (frame b h) = (parse_header b ≡ some h.length) × (length b ≡ h.length)
IsFaithful (junk b) = Unit

-- What was handed out and what is left are the buffer; nothing is left behind the end.
abbrev pub Keeps : Bool → Bytes → Option (List Output × Splitter) → Type 0
Keeps eof buf none = Unit
Keeps eof buf (some (out, t)) =
    (handed_out out ++ t.buf ≡ buf) × All IsFaithful out × (eof ≡ true → t.buf ≡ [])

hand_out-Keeps :
    (eof : Bool) (o : Output) (rest buf : Bytes) (p : Option (List Output × Splitter))
    → IsFaithful o
    → bytes_of o ++ rest ≡ buf
    → Keeps eof rest p
    → Keeps eof buf (hand_out o p)
hand_out-Keeps eof o rest buf none f e k = tt
hand_out-Keeps eof o rest buf (some (out, t)) f e (k, fs, ends) =
    (append_assoc (bytes_of o) (handed_out out) t.buf ∙ ap (◌++◌ (bytes_of o)) k ∙ e, (f, fs), ends)

round_end : (synced : Bool) (b : Bytes) → round true synced b ≢ wait
unfolding round round_synced round_unsynced round_tag round_header
round_end true b e = ground (arith, e)
round_end false b e = ground (arith, e)

-- A frame at the front of a buffer.
front-IsFaithful :
    (buf : Bytes) (h : Header) → Fits buf (emit_frame h) → IsFaithful (frame (take h.length buf) h)
front-IsFaithful buf h (p, n, l) =
    let long : length (take h.length buf) ≡ h.length = omega (arith, l, length-take h.length buf) in
    let enough : 7 ≤ length (take h.length buf) =
      omega (arith, long, (parse_header_facts buf p).1) in
    (
      sym (parse_header-append (take h.length buf) (drop h.length buf) enough)
          ∙ ap parse_header (take-append-drop h.length buf)
          ∙ p,
      long,
    )

act-Keeps :
    (fuel : ℕ) (eof : Bool) (s : Splitter) (r : SplitRound)
    → Fits s.buf r
    → (eof ≡ true → r ≢ wait)
    → ((t : Splitter) → Keeps eof t.buf (process fuel eof t))
    → Keeps eof s.buf (act fuel eof s r)
act-Keeps fuel eof s wait f ends ih = (refl, tt, λ e. absurd (ends e refl))
act-Keeps fuel eof s flush_rest f ends ih =
    (append-nil (s.buf ++ []) ∙ append-nil s.buf, (tt, tt), λ e. refl)
act-Keeps fuel eof s (set_synced synced) f ends ih = ih (record s { synced = synced })
act-Keeps fuel eof s (emit_frame h) f ends ih =
    hand_out-Keeps eof (frame (take h.length s.buf) h) (drop h.length s.buf) s.buf _
      (front-IsFaithful s.buf h f) (take-append-drop h.length s.buf)
      (ih (record s { buf = drop h.length s.buf }))
act-Keeps fuel eof s (emit_junk n) f ends ih =
    hand_out-Keeps eof (junk (take n s.buf)) (drop n s.buf) s.buf _ tt (take-append-drop n s.buf)
      (ih (record s { buf = drop n s.buf }))

process-Keeps :
    (fuel : ℕ) (eof synced : Bool) (buf : Bytes)
    → Keeps eof buf (process fuel eof (record { buf = buf; synced = synced }))
unfolding process
process-Keeps zero eof synced buf = tt
process-Keeps (suc fuel) eof synced [] = (refl, tt, λ e. refl)
process-Keeps (suc fuel) eof synced (b ∷ bs) =
    subst (Keeps eof (b ∷ bs)) (sym (process_step fuel eof synced b bs refl)) (
      act-Keeps fuel eof (record { buf = b ∷ bs; synced = synced }) (round eof synced (b ∷ bs))
        (round-Fits eof synced (b ∷ bs) (omega arith))
        (λ e q. round_end synced (b ∷ bs) (ap (λ x. round x synced (b ∷ bs)) (sym e) ∙ q))
        (λ t. process-Keeps fuel eof t.synced t.buf))

as_junk-handed_out : (out : List Output) → handed_out (map as_junk out) ≡ handed_out out
as_junk-handed_out [] = refl
as_junk-handed_out (frame b h ∷ out) = ap (◌++◌ b) (as_junk-handed_out out)
as_junk-handed_out (junk b ∷ out) = ap (◌++◌ b) (as_junk-handed_out out)

-- What Feed hands out and what it leaves in the buffer are what was there and the new bytes, in
-- order; each frame that it hands out is whole and has the length that its header says.
pub feed-handed_out :
    (p : Bytes) (s : Splitter) {out : List Output} {t : Splitter}
    → feed p s ≡ some (out, t)
    → (handed_out out ++ t.buf ≡ s.buf ++ p) × All IsFaithful out
unfolding feed
feed-handed_out p s {out} {t} e =
    let k =
      subst (Keeps false (s.buf ++ p)) e
        (process-Keeps (fuel_for (s.buf ++ p)) false s.synced (s.buf ++ p)) in
    (k.0, k.1)

-- Flush hands out all that was in the buffer, and leaves an empty splitter.
pub flush-handed_out :
    (s : Splitter) {out : List Output} {t : Splitter}
    → flush s ≡ some (out, t)
    → (handed_out out ≡ s.buf) × (t.buf ≡ []) × (t.synced ≡ false)
unfolding flush
flush-handed_out s {out} {t} e =
    flushed_from (process (fuel_for s.buf) true s) e
      (process-Keeps (fuel_for s.buf) true s.synced s.buf)
  where
    flushed_from :
        (p : Option (List Output × Splitter))
        → flushed p ≡ some (out, t)
        → Keeps true s.buf p
        → (handed_out out ≡ s.buf) × (t.buf ≡ []) × (t.synced ≡ false)
    flushed_from none e k = absurd cc
    flushed_from (some (o, u)) e (k, f, ends) =
        let out_is : map as_junk o ≡ out = cc in
        let t_is : record { buf = []; synced = false } ≡ t = cc in
        (
          ap handed_out (sym out_is)
              ∙ as_junk-handed_out o
              ∙ sym (append-nil (handed_out o))
              ∙ ap (λ x. handed_out o ++ x) (sym (ends refl))
              ∙ k,
          ap Splitter.buf (sym t_is),
          ap Splitter.synced (sym t_is),
        )
