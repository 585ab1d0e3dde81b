-- ===== src/Adts/Tail/Accepts.antt =====
-- walk goes through whole frames and tags, and stops at a cut element behind them.
use spectado_stream_recorder.Common.{
  ℕ, zero, suc, ◌+◌, ◌≤◌, ◌≡◌, refl, ◌∙◌, true, Option, none, some, [], ◌∷◌, ◌++◌, append_assoc,
  arith, length, length-append, drop-length-append, Bytes,
}
use spectado_stream_recorder.Id3.Header.{tag_len_bounds}
use spectado_stream_recorder.Adts.Header.{header_prefix_valid}
use spectado_stream_recorder.Adts.Tail.{Walked, walk_loop}
use spectado_stream_recorder.Adts.Tail.Elements.{
  IsFrame, IsTag, Frames, empty, with_frame, with_tag, IsCut, tag_header, in_tag, frame_header,
  in_frame, find-frame, find-tag, find-IsCut,
}
use spectado_stream_recorder.Adts.Tail.Walk.{Ends}

abbrev accepted : ℕ → Option ℕ → Option Walked
accepted complete p = some (record { complete = complete; partial_start = p; valid = true })

not-IsCut-nil : ¬ (IsCut [])
unfolding header_prefix_valid
not-IsCut-nil (tag_header s h l) = omega arith
not-IsCut-nil (in_tag t l) = omega (arith, tag_len_bounds [] t)
not-IsCut-nil (frame_header v l s) = cc
not-IsCut-nil (in_frame h p l) = omega arith

walk_loop-tag :
    (b rest : Bytes) (fuel q c : ℕ)
    → IsTag b
    → walk_loop (suc fuel) (b ++ rest) q c ≡ walk_loop fuel rest (q + length b) c
walk_loop-tag [] rest fuel q c t = absurd (omega (arith, tag_len_bounds [] t))
walk_loop-tag (x ∷ b) rest fuel q c t =
    unfold walk_loop in
    rw (find-tag (x ∷ b) rest t, walk_loop) (rw (drop-length-append (x ∷ b) rest))

walk_loop-frame :
    (b rest : Bytes) (fuel q c : ℕ)
    → IsFrame b
    → walk_loop (suc fuel) (b ++ rest) q c ≡ walk_loop fuel rest (q + length b) (c + 1)
walk_loop-frame [] rest fuel q c t = absurd (omega arith)
walk_loop-frame (x ∷ b) rest fuel q c t =
    unfold walk_loop in
    rw (find-frame (x ∷ b) rest t, walk_loop) (rw (drop-length-append (x ∷ b) rest))

-- At the end of the whole elements.
walk_loop-Ends :
    (cut : Bytes) (fuel q c : ℕ) (p : Option ℕ)
    → Ends cut q p
    → length cut ≤ fuel
    → walk_loop fuel cut q c ≡ accepted c p
unfolding walk_loop
walk_loop-Ends [] fuel q c none e h = refl
walk_loop-Ends [] fuel q c (some start) (i, s) h = absurd (not-IsCut-nil i)
walk_loop-Ends (x ∷ cut) zero q c p e h = absurd (omega arith)
walk_loop-Ends (x ∷ cut) (suc fuel) q c none e h = absurd (cc)
walk_loop-Ends (x ∷ cut) (suc fuel) q c (some start) (i, s) h =
    rw (find-IsCut (x ∷ cut) i, walk_loop) (rw s)

pub walk_loop-Frames :
    {s : Bytes} {k : ℕ} (fuel : ℕ) (cut : Bytes) (q c : ℕ) (p : Option ℕ)
    → Frames s k
    → Ends cut (q + length s) p
    → length s + length cut ≤ fuel
    → walk_loop fuel (s ++ cut) q c ≡ accepted (c + k) p
walk_loop-Frames fuel cut q c p empty e h =
    let q' : q ≡ q + 0 = omega arith in
    let c' : c + 0 ≡ c = omega arith in
    rw c' (walk_loop-Ends cut fuel q c p (rw q' e) (omega arith))
walk_loop-Frames zero cut q c p (with_frame b {rest} f t) e h =
    absurd (omega (arith, length-append b rest))
walk_loop-Frames (suc fuel) cut q c p (with_frame b {rest} {c = k} f t) e h =
    let l = length-append b rest in
    let at_end : q + length (b ++ rest) ≡ q + length b + length rest = omega (arith, l) in
    let count : c + suc k ≡ c + 1 + k = omega arith in
    rw (append_assoc b rest cut) (
      walk_loop-frame b (rest ++ cut) fuel q c f
      ∙ rw count (
          walk_loop-Frames fuel cut (q + length b) (c + 1) p t (rw at_end at e) (omega (arith, l))))
walk_loop-Frames zero cut q c p (with_tag b {rest} f t) e h =
    absurd (omega (arith, length-append b rest, tag_len_bounds b f))
walk_loop-Frames (suc fuel) cut q c p (with_tag b {rest} {c = k} f t) e h =
    let l = length-append b rest in
    let at_end : q + length (b ++ rest) ≡ q + length b + length rest = omega (arith, l) in
    rw (append_assoc b rest cut) (
      walk_loop-tag b (rest ++ cut) fuel q c f
      ∙ (walk_loop-Frames fuel cut (q + length b) c p t (rw at_end at e)
          (omega (arith, l, tag_len_bounds b f))))
