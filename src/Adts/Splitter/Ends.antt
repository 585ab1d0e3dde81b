-- ===== src/Adts/Splitter/Ends.antt =====
-- Splitter's loop ends: two rounds hand out a byte at least, so its fuel is enough.
use mathlib.Core.Path.{subst}
use spectado_stream_recorder.Common.{
  ℕ, zero, suc, ◌+◌, ◌*◌, ◌≤◌, ◌<◌, ◌≡◌, refl, sym, ◌≢◌, inl, inr, Bool, true, false, Option, none,
  some, List, [], ◌∷◌, ◌++◌, arith, Option-cases, length, drop, length-drop, Bytes,
}
use spectado_stream_recorder.Adts.Splitter.{
  Splitter, Output, SplitRound, wait, flush_rest, emit_frame, emit_junk, set_synced, hand_out,
  round_synced, round_tag, round_header, round_unsynced, round, process, fuel_for, feed, flush,
}
use spectado_stream_recorder.Adts.Splitter.Rounds.{Fits, round-Fits, act, process_step}

-- 1 for a round that takes nothing and goes on.
abbrev turns : SplitRound → ℕ
turns (set_synced c) = 1
turns _ = 0

turns_le : (r : SplitRound) → turns r ≤ 1
turns_le wait = omega arith
turns_le flush_rest = omega arith
turns_le (emit_frame h) = omega arith
turns_le (emit_junk n) = omega arith
turns_le (set_synced c) = omega arith

-- Behind such a round stands none.
turns_once :
    (eof synced : Bool) (b : Bytes) {c : Bool}
    → round eof synced b ≡ set_synced c
    → turns (round eof c b) ≡ 0
unfolding round round_synced round_unsynced round_tag round_header
turns_once eof true b {c} e = ground (arith, e)
turns_once eof false b {c} e = ground (arith, e)

hand_out-ne-none :
    (o : Output) (p : Option (List Output × Splitter)) → p ≢ none → hand_out o p ≢ none
hand_out-ne-none o none h e = h refl
hand_out-ne-none o (some (out, t)) h e = cc

act-ne-none :
    (fuel : ℕ) (eof : Bool) (s : Splitter) (r : SplitRound)
    → Fits s.buf r
    → 2 * length s.buf + turns r < suc fuel
    → ((c : Bool) → r ≡ set_synced c → turns (round eof c s.buf) ≡ 0)
    → ((t : Splitter)
        → 2 * length t.buf + turns (round eof t.synced t.buf) < fuel
        → process fuel eof t ≢ none)
    → act fuel eof s r ≢ none
act-ne-none fuel eof s wait f l once ih = λ e. cc
act-ne-none fuel eof s flush_rest f l once ih = λ e. cc
act-ne-none fuel eof s (set_synced c) f l once ih =
    ih (record s { synced = c }) (omega (arith, l, once c refl))
act-ne-none fuel eof s (emit_frame h) (p, n, le) l once ih = hand_out-ne-none _ _ (
    ih (record s { buf = drop h.length s.buf })
      (omega (
        arith,
        l,
        n,
        le,
        length-drop h.length s.buf,
        turns_le (round eof s.synced (drop h.length s.buf)),
      )))
act-ne-none fuel eof s (emit_junk n) (pos, le) l once ih = hand_out-ne-none _ _ (
    ih (record s { buf = drop n s.buf })
      (omega
        (arith, l, pos, le, length-drop n s.buf, turns_le (round eof s.synced (drop n s.buf)))))

process-ne-none :
    (fuel : ℕ) (eof synced : Bool) (buf : Bytes)
    → 2 * length buf + turns (round eof synced buf) < fuel
    → process fuel eof (record { buf = buf; synced = synced }) ≢ none
unfolding process
process-ne-none zero eof synced buf l = absurd (omega arith)
process-ne-none (suc fuel) eof synced [] l = λ e. cc
process-ne-none (suc fuel) eof synced (b ∷ bs) l =
    subst (λ p. p ≢ none) (sym (process_step fuel eof synced b bs refl))
      (act-ne-none fuel eof (record { buf = b ∷ bs; synced = synced }) (round eof synced (b ∷ bs))
        (round-Fits eof synced (b ∷ bs) (omega arith)) l (λ c e. turns_once eof synced (b ∷ bs) e)
        (λ t. process-ne-none fuel eof t.synced t.buf))

-- The loop behind Feed returns for each input and each state of the splitter.
pub feed-ne-none : (p : Bytes) (s : Splitter) → feed p s ≢ none
unfolding feed fuel_for
feed-ne-none p s =
    process-ne-none _ false s.synced (s.buf ++ p)
      (omega (arith, turns_le (round false s.synced (s.buf ++ p))))

-- The loop behind Flush returns for each state of the splitter.
pub flush-ne-none : (s : Splitter) → flush s ≢ none
unfolding flush fuel_for
flush-ne-none s = elim (Option-cases (process (fuel_for s.buf) true s)) [
  | inl e ↦ absurd (
      process-ne-none (fuel_for s.buf) true s.synced s.buf
        (omega (arith, turns_le (round true s.synced s.buf))) e)
  | inr (p, e) ↦ λ n. ground (arith, e, n)
]
