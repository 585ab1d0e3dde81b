-- ===== src/Adts/Tail/Walk.antt =====
-- walk ends, accepts exactly the concatenations of whole elements with at most one cut element
-- behind them, and says where the cut element begins.
use spectado_stream_recorder.Common.{
  ℕ, zero, suc, ◌+◌, ◌≤◌, ◌≡◌, refl, sym, ◌∙◌, ◌≢◌, ◌⊎◌, inl, inr, true, ◌&&◌, Option, none, some,
  [], ◌∷◌, ◌++◌, append_assoc, arith, ltb, leb, Bool-cases, Option-cases, length, take, drop,
  length-append, take-append-drop, length-take, length-drop, Bytes,
}
use spectado_stream_recorder.Id3.{tag_len, starts_tag}
use spectado_stream_recorder.Id3.Header.{tag_len_bounds}
use spectado_stream_recorder.Adts.Header.{parse_header, min_header}
use spectado_stream_recorder.Adts.Header.Prefix.{parse_header-append, parse_header_facts}
use spectado_stream_recorder.Adts.Tail.{Found, partial, broken, tag, frame, find, Walked, walk_loop}
use mathlib.Core.Path.{subst}
use spectado_stream_recorder.Adts.Tail.Elements.{
  IsFrame, IsTag, Frames, empty, with_frame, with_tag, IsCut, tag_header, in_tag, frame_header,
  in_frame, tag_len-append,
}

Found-cases :
    (f : Found)
    → ((f ≡ partial) ⊎ (f ≡ broken)) ⊎ (((n : ℕ) × (f ≡ tag n)) ⊎ ((n : ℕ) × (f ≡ frame n)))
Found-cases partial = inl (inl refl)
Found-cases broken = inl (inr refl)
Found-cases (tag n) = inr (inl (n, refl))
Found-cases (frame n) = inr (inr (n, refl))

-- A tag that walk passes over is a whole tag, and so for a frame and for a cut element.
find-tag_facts :
    (s : Bytes) {n : ℕ}
    → find s ≡ tag n
    → (tag_len s ≡ some n) × (10 ≤ length s) × (10 ≤ n) × (n ≤ length s)
unfolding find
find-tag_facts s e = elim (Option-cases (tag_len s)) [
  | inl t ↦ ground (arith, t)
  | inr (m, t) ↦ ground (arith, t, tag_len_bounds s t)
]

find-frame_facts :
    (s : Bytes) {n : ℕ} → find s ≡ frame n → (parse_header s ≡ some n) × (7 ≤ n) × (n ≤ length s)
unfolding find
find-frame_facts s e = elim (Option-cases (parse_header s)) [
  | inl t ↦ ground (arith, t, tag_len s)
  | inr (m, t) ↦ ground (arith, t, parse_header_facts s t)
]

find-partial_facts : (s : Bytes) → find s ≡ partial → IsCut s
unfolding find
find-partial_facts s e = elim (Bool-cases (leb 3 (length s) && starts_tag s)) [
  | inl t ↦ elim (Bool-cases (ltb (length s) 10)) [
    | inl short ↦ tag_header (ground arith) (ground arith) (ground arith)
    | inr long ↦ elim (Option-cases (tag_len s)) [
      | inl x ↦ absurd (ground (arith, x))
      | inr (m, x) ↦ in_tag x (ground arith)
    ]
  ]
  | inr nt ↦ elim (Bool-cases (ltb (length s) min_header)) [
    | inl short ↦ frame_header (ground arith) (ground arith) nt
    | inr long ↦ elim (Option-cases (parse_header s)) [
      | inl x ↦ absurd (ground (arith, x))
      | inr (m, x) ↦ in_frame (ground arith) x (ground arith)
    ]
  ]
]

-- Passing over whole elements shortens the rest, so the walk ends.
pub walk_loop-ne-none :
    (fuel : ℕ) (rest : Bytes) (q c : ℕ) → length rest ≤ fuel → walk_loop fuel rest q c ≢ none
unfolding walk_loop
walk_loop-ne-none fuel [] q c h = λ x. cc
walk_loop-ne-none zero (b ∷ rest) q c h = absurd (omega arith)
walk_loop-ne-none (suc fuel) (b ∷ rest) q c h = elim (Found-cases (find (b ∷ rest))) [
  | inl (inl e) ↦ rw (e, walk_loop) (λ x. cc)
  | inl (inr e) ↦ rw (e, walk_loop) (λ x. cc)
  | inr (inl (n, e)) ↦
      rw (e, walk_loop)
        (walk_loop-ne-none fuel (drop n (b ∷ rest)) (q + n) c
          (omega (arith, find-tag_facts _ e, length-drop n (b ∷ rest))))
  | inr (inr (n, e)) ↦
      rw (e, walk_loop)
        (walk_loop-ne-none fuel (drop n (b ∷ rest)) (q + n) (c + 1)
          (omega (arith, find-frame_facts _ e, length-drop n (b ∷ rest))))
]

-- What may stand behind the whole elements: nothing, or a cut element that begins at `at_end`.
abbrev pub Ends : Bytes → ℕ → Option ℕ → Type 0
Ends cut at_end none = cut ≡ []
Ends cut at_end (some start) = IsCut cut × (start ≡ at_end)

-- How a rest of `c` frames and a possible cut element divides.
pub record Divides (rest : Bytes) (q : ℕ) (complete : ℕ) (partial_start : Option ℕ) : Type 0 where
  pub whole : Bytes
  pub cut : Bytes
  pub splits : rest ≡ whole ++ cut
  pub frames : Frames whole complete
  pub ends : Ends cut (q + length whole) partial_start

-- The first `n` bytes are an element.
first_IsTag : (s : Bytes) {n : ℕ} → find s ≡ tag n → IsTag (take n s) × (length (take n s) ≡ n)
first_IsTag s {n} e =
    let (t, _, m, l) = find-tag_facts s e in
    let k : length (take n s) ≡ n = omega (arith, length-take n s) in
    (sym (tag_len-append (take n s) (drop n s) (omega arith)) ∙ rw (take-append-drop n s, k) t, k)

first_IsFrame :
    (s : Bytes) {n : ℕ} → find s ≡ frame n → IsFrame (take n s) × (length (take n s) ≡ n)
first_IsFrame s {n} e =
    let (t, m, l) = find-frame_facts s e in
    let k : length (take n s) ≡ n = omega (arith, length-take n s) in
    (
      (
        omega arith,
        sym (parse_header-append (take n s) (drop n s) (omega arith))
            ∙ rw (take-append-drop n s, k) t,
      ),
      k,
    )

Ends-from : (cut : Bytes) {m n : ℕ} (start : Option ℕ) → m ≡ n → Ends cut m start → Ends cut n start
Ends-from cut none e h = h
Ends-from cut (some start) e (h, k) = (h, k ∙ e)

-- One more element in front.
Divides-tag :
    (s : Bytes) {n q k : ℕ} {p : Option ℕ}
    → find s ≡ tag n
    → Divides (drop n s) (q + n) k p
    → Divides s q k p
Divides-tag s {n} {q} {k} {p} e d =
    let (t, l) = first_IsTag s e in
    record {
      whole = take n s ++ d.whole;
      cut = d.cut;
      splits =
          sym (take-append-drop n s) ∙ rw d.splits (sym (append_assoc (take n s) d.whole d.cut));
      frames = with_tag (take n s) t d.frames;
      ends = Ends-from d.cut p (omega (arith, l, length-append (take n s) d.whole)) d.ends;
    }

Divides-frame :
    (s : Bytes) {n q k : ℕ} {p : Option ℕ}
    → find s ≡ frame n
    → Divides (drop n s) (q + n) k p
    → Divides s q (suc k) p
Divides-frame s {n} {q} {k} {p} e d =
    let (t, l) = first_IsFrame s e in
    record {
      whole = take n s ++ d.whole;
      cut = d.cut;
      splits =
          sym (take-append-drop n s) ∙ rw d.splits (sym (append_assoc (take n s) d.whole d.cut));
      frames = with_frame (take n s) t d.frames;
      ends = Ends-from d.cut p (omega (arith, l, length-append (take n s) d.whole)) d.ends;
    }

Divides-end : {q : ℕ} → Divides [] q 0 none
Divides-end = record { whole = []; cut = []; splits = refl; frames = empty; ends = refl }

Divides-cut : (s : Bytes) {q : ℕ} → IsCut s → Divides s q 0 (some q)
Divides-cut s i = record {
  whole = [];
  cut = s;
  splits = refl;
  frames = empty;
  ends = (i, omega arith);
}

-- Whatever walk accepts is whole elements, with a cut one behind them where it says so.
pub walk_loop_sound :
    (fuel : ℕ) (rest : Bytes) (q c : ℕ) {w : Walked}
    → walk_loop fuel rest q c ≡ some w
    → w.valid ≡ true
    → (k : ℕ) × (w.complete ≡ c + k) × Divides rest q k w.partial_start
unfolding walk_loop
walk_loop_sound fuel [] q c {w} e v =
    let p : none ≡ w.partial_start = ground arith in
    (0, ground arith, subst (Divides [] q 0) p Divides-end)
walk_loop_sound zero (b ∷ rest) q c e v = absurd (cc)
walk_loop_sound (suc fuel) (b ∷ rest) q c {w} e v = elim (Found-cases (find (b ∷ rest))) [
  | inl (inl f) ↦
      let p : some q ≡ w.partial_start = ground (arith, f) in
      (
        0,
        ground (arith, f),
        subst (Divides (b ∷ rest) q 0) p (Divides-cut (b ∷ rest) (find-partial_facts _ f)),
      )
  | inl (inr f) ↦ absurd (ground (arith, f))
  | inr (inl (n, f)) ↦
      let (k, count, d) =
        walk_loop_sound fuel (drop n (b ∷ rest)) (q + n) c (rw (f, walk_loop) at e) v in
      (k, count, Divides-tag (b ∷ rest) f d)
  | inr (inr (n, f)) ↦
      let (k, count, d) =
        walk_loop_sound fuel (drop n (b ∷ rest)) (q + n) (c + 1) (rw (f, walk_loop) at e) v in
      (suc k, omega (arith, count), Divides-frame (b ∷ rest) f d)
]
