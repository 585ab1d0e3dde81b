-- ===== src/Recorder/Capture/Stderr/Chunks.antt =====
-- What Write does is independent of the pieces in which the bytes come.
use spectado_stream_recorder.Common.{
  ℕ, zero, suc, ◌+◌, ◌≤◌, ◌≡◌, refl, sym, ◌∙◌, inl, inr, true, false, none, some, [], ◌∷◌, ◌++◌,
  append-nil, append_assoc, arith, if◌then◌else◌, Bool-cases, if_cases, length, All, length-append,
  All-concat,
}
use spectado_stream_recorder.Common.Text.{Text}
use spectado_stream_recorder.Recorder.Capture.Stderr.{
  Lines, Buffer, is_line_end, cut_line, push_complete, drain, flush_long, write,
}
use spectado_stream_recorder.Recorder.Capture.Redact.{Outside}

-- No byte of the text ends a line.
abbrev pub NoEnd : Text → Type 0
NoEnd s = All (λ c. is_line_end c ≡ false) s

cut_line-none : (s : Text) → NoEnd s → cut_line s ≡ none
unfolding cut_line
cut_line-none [] h = refl
cut_line-none (c ∷ s) (h, hs) = rw (h, cut_line-none s hs) refl

cut_line_first :
    (s : Text) (c : ℕ) (t : Text)
    → NoEnd s
    → is_line_end c ≡ true
    → cut_line (s ++ (c ∷ t)) ≡ some (s, t)
unfolding cut_line
cut_line_first [] c t h e = rw e refl
cut_line_first (d ∷ s) c t (h, hs) e = rw (h, cut_line_first s c t hs e) refl

module _ (o : Outside) where
  -- One byte at a time.
  feed_byte : ℕ → Buffer → Buffer
  feed_byte c b =
      if is_line_end c
      then record { partial = []; lines = push_complete o b.partial b.lines }
      else record b { partial = b.partial ++ (c ∷ []) }

  feed_all : Text → Buffer → Buffer
  feed_all [] b = b
  feed_all (c ∷ s) b = feed_all s (feed_byte c b)

  feed_all-append : (s t : Text) (b : Buffer) → feed_all (s ++ t) b ≡ feed_all t (feed_all s b)
  unfolding feed_all
  feed_all-append [] t b = refl
  feed_all-append (c ∷ s) t b = feed_all-append s t (feed_byte c b)

  -- What holds between two bytes.
  record Waits (n : ℕ) (b : Buffer) : Type 0 where
    no_end : NoEnd b.partial
    short : length b.partial ≤ n

  feed_byte-Waits : (c n : ℕ) (b : Buffer) → Waits n b → Waits (suc n) (feed_byte c b)
  unfolding feed_byte
  feed_byte-Waits c n b w =
      if_cases (Waits (suc n)) (is_line_end c)
        (record { partial = []; lines = push_complete o b.partial b.lines })
        (record b { partial = b.partial ++ (c ∷ []) })
        (λ e. record { no_end = tt; short = omega arith })
        (λ e. record {
          no_end = All-concat (λ x. is_line_end x ≡ false) b.partial c w.no_end e;
          short = omega (arith, w.short, length-append b.partial (c ∷ []));
        })

  feed_all-Waits : (s : Text) (n : ℕ) (b : Buffer) → Waits n b → Waits (n + length s) (feed_all s b)
  unfolding feed_all
  feed_all-Waits [] n b w = let e : n + 0 ≡ n = omega arith in rw e w
  feed_all-Waits (c ∷ s) n b w =
      let e : n + suc (length s) ≡ suc n + length s = omega arith in
      rw e (feed_all-Waits s (suc n) (feed_byte c b) (feed_byte-Waits c n b w))

  drain-feed_all :
      (s : Text) (fuel : ℕ) (acc : Text) (b : Lines)
      → NoEnd acc
      → length acc + length s ≤ fuel
      → drain o fuel (acc ++ s) b ≡ feed_all s (record { partial = acc; lines = b })
  unfolding drain feed_all feed_byte
  drain-feed_all [] zero acc b h l = rw (append-nil acc) refl
  drain-feed_all [] (suc fuel) acc b h l =
      rw (append-nil acc) (rw (cut_line-none acc h, drain) refl)
  drain-feed_all (c ∷ s) zero acc b h l = absurd (omega (arith, l))
  drain-feed_all (c ∷ s) (suc fuel) acc b h l = elim (Bool-cases (is_line_end c)) [
    | inl e ↦
        rw (cut_line_first acc c s h e, drain, e)
          (drain-feed_all s fuel [] (push_complete o acc b) tt (omega (arith, l)))
    | inr e ↦
        rw (e, sym (append_assoc acc (c ∷ []) s))
          (drain-feed_all s (suc fuel) (acc ++ (c ∷ [])) b
            (All-concat (λ x. is_line_end x ≡ false) acc c h e)
            (omega (arith, l, length-append acc (c ∷ []))))
  ]

  flush_long_short : (b : Buffer) → length b.partial ≤ 4096 → flush_long o b ≡ b
  unfolding flush_long
  flush_long_short b h = ground (arith, h)

  write-feed_all :
      (p : Text) (b : Buffer)
      → NoEnd b.partial
      → length b.partial + length p ≤ 4096
      → write o p b ≡ feed_all p b
  unfolding write
  write-feed_all p b h l =
      let w = feed_all-Waits p (length b.partial) b (record { no_end = h; short = omega arith }) in
      rw (drain-feed_all p (length b.partial + length p) b.partial b.lines h (omega arith))
        (flush_long_short (feed_all p b) (omega (arith, w.short, l)))

  -- Two pieces are taken as the one that they make, where the buffer holds the end of a line only
  -- and the bytes are not more than Write waits for: the lines, the tails, the diagnostics, what is
  -- logged and what is left to wait for are the same.
  pub write-append :
      (p q : Text) (b : Buffer)
      → NoEnd b.partial
      → length b.partial + length p + length q ≤ 4096
      → write o q (write o p b) ≡ write o (p ++ q) b
  write-append p q b h l =
      let w = feed_all-Waits p (length b.partial) b (record { no_end = h; short = omega arith }) in
      let e = write-feed_all p b h (omega (arith, l)) in
      rw e (
        write-feed_all q (feed_all p b) w.no_end (omega (arith, w.short, l))
        ∙ sym (
            write-feed_all (p ++ q) b h (omega (arith, l, length-append p q))
            ∙ feed_all-append p q b))
