-- ===== src/Adts/Tail/Cut.antt =====
-- ScanTail: it ends, and a cut that it trusts lies behind whole frames.
use spectado_stream_recorder.Common.{
  ℕ, zero, suc, ◌+◌, ◌-◌, ◌≤◌, ◌<◌, ◌≡◌, ap, ◌≢◌, ◌⊎◌, inl, inr, Bool, true, false, none, some, [],
  ◌++◌, arith, ◌==◌, Bool-cases, Option-cases, length, drop, length-append, length-drop, Bytes, at,
}
use mathlib.Core.Path.{subst}
use spectado_stream_recorder.Adts.Header.{is_sync}
use spectado_stream_recorder.Adts.Tail.{Walked, walk, judge, scan_from, scan_tail, min_chain}
use spectado_stream_recorder.Adts.Tail.Elements.{Frames, IsCut}
use spectado_stream_recorder.Adts.Tail.Walk.{Ends, Divides, walk_loop-ne-none, walk_loop_sound}

walk-ne-none : (tail : Bytes) (p : ℕ) → walk tail p ≢ none
unfolding walk
walk-ne-none tail p =
    walk_loop-ne-none (length tail) (drop p tail) p 0 (omega (arith, length-drop p tail))

-- ScanTail cuts the file at `cut` because of the chain that begins at `start` in the tail: `count`
-- whole frames (three at least, or one if the tail is the whole file and the chain begins it) and
-- any tags, `kept`, up to the cut, and behind it nothing or one incomplete element, `dropped`.
pub record Trusted (tail : Bytes) (size : ℕ) (cut : ℕ) : Type 0 where
  pub start : ℕ
  pub count : ℕ
  pub kept : Bytes
  pub dropped : Bytes
  pub start_in_tail : start < length tail
  pub splits : drop start tail ≡ kept ++ dropped
  pub frames : Frames kept count
  pub incomplete : (dropped ≡ []) ⊎ IsCut dropped
  pub cut_position : cut + length dropped ≡ size
  pub trusted : (min_chain ≤ count) ⊎ ((start ≡ 0) × (size ≡ length tail) × (1 ≤ count))

module _ (whole : Bool) (n size p : ℕ) (w : Walked) {cut : ℕ}
    (h : judge whole n size p w ≡ some cut) where
  judge_valid : w.valid ≡ true
  unfolding judge
  judge_valid = ground arith

  judge_trusted : (3 ≤ w.complete) ⊎ ((p ≡ 0) × (whole ≡ true) × (1 ≤ w.complete))
  unfolding judge
  judge_trusted = ground arith

  judge_clean : w.partial_start ≡ none → cut ≡ size
  unfolding judge
  judge_clean e = ground arith

  judge_partial : (q : ℕ) → w.partial_start ≡ some q → cut ≡ size - (n - q)
  unfolding judge
  judge_partial q e = ground arith

scan_from-ne-none : (rounds : ℕ) (tail : Bytes) (size p : ℕ) → scan_from rounds tail size p ≢ none
unfolding scan_from
scan_from-ne-none zero tail size p = λ x. cc
scan_from-ne-none (suc rounds) tail size p =
    ground (arith, scan_from-ne-none rounds tail size (p + 1), walk-ne-none tail p)

-- ScanTail ends on every input.
pub scan_tail-ne-none : (tail : Bytes) (size : ℕ) → scan_tail tail size ≢ none
unfolding scan_tail
scan_tail-ne-none tail size = ground (arith, scan_from-ne-none (length tail - 1) tail size 0)

-- The lengths that fix the cut.
cut_position_lem :
    (tail : Bytes) (size p k : ℕ) (w : Walked) {cut : ℕ}
    → p < length tail
    → length tail ≤ size
    → (d : Divides (drop p tail) p k w.partial_start)
    → judge (length tail == size) (length tail) size p w ≡ some cut
    → ((d.cut ≡ []) ⊎ IsCut d.cut) × (cut + length d.cut ≡ size)
cut_position_lem tail size p k w {cut} hp hs d h = elim (Option-cases w.partial_start) [
  | inl e ↦
      let nothing : d.cut ≡ [] = subst (Ends d.cut (p + length d.whole)) e d.ends in
      (inl nothing, rw nothing (omega (arith, judge_clean _ _ _ _ _ h e)))
  | inr (q, e) ↦
      let (i, at_end) = subst (Ends d.cut (p + length d.whole)) e d.ends in
      (
        inr i,
        omega (
          arith,
          judge_partial _ _ _ _ _ h q e,
          ap length d.splits,
          length-append d.whole d.cut,
          length-drop p tail,
        ),
      )
]

judge-Trusted :
    (tail : Bytes) (size p : ℕ) (w : Walked) {cut : ℕ}
    → p < length tail
    → length tail ≤ size
    → walk tail p ≡ some w
    → judge (length tail == size) (length tail) size p w ≡ some cut
    → Trusted tail size cut
unfolding walk
judge-Trusted tail size p w hp hs e h =
    let (k, count, d) =
      walk_loop_sound (length tail) (drop p tail) p 0 e (judge_valid _ _ _ _ _ h) in
    let (i, position) = cut_position_lem tail size p k w hp hs d h in
    record {
      start = p;
      count = k;
      kept = d.whole;
      dropped = d.cut;
      start_in_tail = hp;
      splits = d.splits;
      frames = d.frames;
      incomplete = i;
      cut_position = position;
      trusted = ground (arith, judge_trusted _ _ _ _ _ h, count);
    }

scan_from-Trusted :
    (rounds : ℕ) (tail : Bytes) (size p : ℕ) {cut : ℕ}
    → p + rounds < length tail
    → length tail ≤ size
    → scan_from rounds tail size p ≡ some (cut, true)
    → Trusted tail size cut
unfolding scan_from
scan_from-Trusted zero tail size p hp hs h = absurd (cc)
scan_from-Trusted (suc rounds) tail size p {cut} hp hs h =
    let next = λ (later : scan_from rounds tail size (p + 1) ≡ some (cut, true)).
      scan_from-Trusted rounds tail size (p + 1) (omega arith) hs later in
    elim (Bool-cases (is_sync (at tail p) (at tail (p + 1)))) [
      | inr no_sync ↦ next (ground (arith, no_sync))
      | inl sync ↦ elim (Option-cases (walk tail p)) [
        | inl e ↦ absurd (ground (arith, sync, e))
        | inr (w, e) ↦ elim (Option-cases (judge (length tail == size) (length tail) size p w)) [
          | inl j ↦ next (ground (arith, sync, e, j))
          | inr (c, j) ↦
              let same : c ≡ cut = ground (arith, sync, e, j) in
              subst (Trusted tail size) same (judge-Trusted tail size p w (omega arith) hs e j)
        ]
      ]
    ]

-- A cut that ScanTail trusts lies behind whole frames and tags, and cuts off nothing but one
-- incomplete element.
pub scan_tail-Trusted :
    (tail : Bytes) (size : ℕ) {cut : ℕ}
    → scan_tail tail size ≡ some (cut, true)
    → Trusted tail size cut
unfolding scan_tail
scan_tail-Trusted tail size {cut} h =
    scan_from-Trusted (length tail - 1) tail size 0 (ground arith) (ground arith) (ground arith)

scan_from_untrusted :
    (rounds : ℕ) (tail : Bytes) (size p cut : ℕ)
    → scan_from rounds tail size p ≡ some (cut, false)
    → cut ≡ size
unfolding scan_from
scan_from_untrusted zero tail size p cut h = ground arith
scan_from_untrusted (suc rounds) tail size p cut h =
    ground (arith, scan_from_untrusted rounds tail size (p + 1) cut)

-- The documented range of the cut: within the tail's part of the file, and at the file's end where
-- no chain is trusted.
pub scan_tail_bounds :
    (tail : Bytes) (size : ℕ) {cut : ℕ} {ok : Bool}
    → scan_tail tail size ≡ some (cut, ok)
    → (size - length tail ≤ cut) × (cut ≤ size) × (ok ≡ false → cut ≡ size)
unfolding scan_tail
scan_tail_bounds tail size {cut} {ok = true} h =
    let t = scan_tail-Trusted tail size h in
    (
      omega (
        arith,
        t.cut_position,
        ap length t.splits,
        length-append t.kept t.dropped,
        length-drop t.start tail,
      ),
      omega (arith, t.cut_position),
      λ e. cc,
    )
scan_tail_bounds tail size {cut} {ok = false} h =
    let e : cut ≡ size = ground (arith, scan_from_untrusted (length tail - 1) tail size 0 cut) in
    (omega (arith, e), omega (arith, e), λ _. e)
