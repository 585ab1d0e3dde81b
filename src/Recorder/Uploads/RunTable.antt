-- ===== src/Recorder/Uploads/RunTable.antt =====
-- internal/recorder/objectmeta.go: runEntry and capRunTable. `F` is float64, with its addition and
-- round3.
use spectado_stream_recorder.Common.{
  ℕ, zero, suc, ◌≤◌, ◌<◌, max, ◌≡◌, refl, sym, ap, ◌∙◌, ◌&&◌, Option, none, some, List, [], ◌∷◌,
  ◌++◌, append_assoc, arith, ltb, if◌then◌else◌, if_cases, length, take, drop, take-append-drop,
  length-drop,
}
use spectado_stream_recorder.Common.Text.{Text, text_eq}

pub record RunEntry (F : Type 0) : Type 0 where
  pub sid : Text
  pub t : Text
  pub src : Text
  pub off : F
  pub dur : F

module _ {F : Type 0} (add : F → F → F) (round : F → F) where
  -- The entries in front that are of the session.
  unfoldable pub same_session : Text → List (RunEntry F) → ℕ
  same_session sid [] = 0
  same_session sid (e ∷ es) =
      let rest = same_session sid es in if text_eq e.sid sid then suc rest else 0

  -- `last` of capRunTable: with one entry per session, the two oldest are merged.
  abbrev last_merged : Text → List (RunEntry F) → ℕ
  last_merged sid es = max 1 (same_session sid es)

  abbrev add_durations : F → List (RunEntry F) → F
  add_durations d [] = d
  add_durations d (e ∷ es) = add_durations (add d e.dur) es

  -- One round of capRunTable.
  unfoldable pub merge_oldest : RunEntry F → List (RunEntry F) → List (RunEntry F)
  unfolding same_session
  merge_oldest e es =
      let n = last_merged e.sid es in
      record e { dur = round (add_durations e.dur (take n es)) } ∷ drop n es

  -- capRunTable, on fuel.
  unfoldable pub cap_entries : ℕ → ℕ → List (RunEntry F) → Option (List (RunEntry F))
  unfolding merge_oldest
  cap_entries fuel most [] = some []
  cap_entries zero most (e ∷ es) = none
  cap_entries (suc fuel) most (e ∷ es) =
      let next = cap_entries fuel most (merge_oldest e es) in
      if ltb most (length (e ∷ es)) && ltb 1 (length (e ∷ es)) then next else some (e ∷ es)

  -- capRunTable
  unfoldable pub cap_run_table : ℕ → List (RunEntry F) → Option (List (RunEntry F))
  unfolding cap_entries
  cap_run_table most es = cap_entries (length es) most es

  -- From one duration to another by adding those of the entries, one behind the other, and by
  -- rounding what there is.
  pub data Sums : F → List (RunEntry F) → F → Type 0 where
    summed : (d : F) → Sums d [] d
    added :
        (d r : F) (e : RunEntry F) (es : List (RunEntry F))
        → Sums (add d e.dur) es r
        → Sums d (e ∷ es) r
    rounded : (d r : F) (es : List (RunEntry F)) → Sums (round d) es r → Sums d es r

  -- The table begins with an entry for the whole front of the entries, at the place and time of the
  -- first of them, and goes on with the entries behind that front.
  abbrev pub Coalesces : RunEntry F → List (RunEntry F) → List (RunEntry F) → Type 0
  Coalesces e es [] = ⊥
  Coalesces e es (head ∷ tail) =
      (head.sid ≡ e.sid)
      × (head.t ≡ e.t)
      × (head.src ≡ e.src)
      × (head.off ≡ e.off)
      × ((front : List (RunEntry F)) × (es ≡ front ++ tail) × Sums e.dur front head.dur)

  abbrev pub Capped : ℕ → RunEntry F → List (RunEntry F) → Option (List (RunEntry F)) → Type 0
  Capped most e es none = ⊥
  Capped most e es (some r) = (length r ≤ max 1 most) × Coalesces e es r

  Sums_merged :
      (d r : F) (es fs : List (RunEntry F))
      → Sums (round (add_durations d es)) fs r
      → Sums d (es ++ fs) r
  Sums_merged d r [] fs h = rounded d r fs h
  Sums_merged d r (e ∷ es) fs h = added d r e (es ++ fs) (Sums_merged (add d e.dur) r es fs h)

  -- What the rounds behind one merge leave is right for the entries in front of it.
  merge_oldest-Capped :
      (most : ℕ) (e : RunEntry F) (es : List (RunEntry F)) (r : Option (List (RunEntry F)))
      → Capped most
          (record e { dur = round (add_durations e.dur (take (last_merged e.sid es) es)) })
          (drop (last_merged e.sid es) es)
          r
      → Capped most e es r
  merge_oldest-Capped most e es none h = elim h [ ]
  merge_oldest-Capped most e es (some []) (n, h) = elim h [ ]
  merge_oldest-Capped most e es (some (head ∷ tail)) (n, (a, b, s, c, (front, f, d))) =
      let k = last_merged e.sid es in
      let whole : es ≡ (take k es ++ front) ++ tail =
        sym (take-append-drop k es)
        ∙ ap (λ l. take k es ++ l) f
        ∙ sym (append_assoc (take k es) front tail) in
      (n, (a, b, s, c, (take k es ++ front, whole, Sums_merged e.dur head.dur (take k es) front d)))

  cap_entries-Capped :
      (fuel most : ℕ) (e : RunEntry F) (es : List (RunEntry F))
      → length es < fuel
      → Capped most e es (cap_entries fuel most (e ∷ es))
  unfolding cap_entries merge_oldest
  cap_entries-Capped zero most e es h = ground (arith, h)
  cap_entries-Capped (suc fuel) most e es h =
      let k = last_merged e.sid es in
      if_cases (Capped most e es) (ltb most (length (e ∷ es)) && ltb 1 (length (e ∷ es)))
        (cap_entries fuel most (merge_oldest e es)) (some (e ∷ es))
        (λ b. merge_oldest-Capped most e es _ (
          cap_entries-Capped fuel most (record e { dur = round (add_durations e.dur (take k es)) })
            (drop k es) (ground (arith, b, h, length-drop k es))))
        (λ b. (ground (arith, b), (refl, refl, refl, refl, ([], refl, summed e.dur))))

  -- The capped table is computed, and it has at most the entries that are asked for, or one. It
  -- begins with one entry at the place, the time and the source of the first, whose duration is that
  -- of all the entries it stands for, added in their order with what there is rounded in between, and
  -- goes on with the others unchanged.
  pub cap_run_table-Capped :
      (most : ℕ) (e : RunEntry F) (es : List (RunEntry F))
      → Capped most e es (cap_run_table most (e ∷ es))
  unfolding cap_run_table
  cap_run_table-Capped most e es = cap_entries-Capped (suc (length es)) most e es (omega arith)
