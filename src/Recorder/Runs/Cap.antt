-- ===== src/Recorder/Runs/Cap.antt =====
-- appendRun and addExit keep the histories short and lose no byte and no frame.
use spectado_stream_recorder.Common.{
  ℕ, zero, suc, ◌+◌, ◌-◌, ◌≤◌, ◌<◌, ◌≡◌, refl, sym, ap, ◌∙◌, ◌⊎◌, inl, inr, Bool, true, false, none,
  some, List, [], ◌∷◌, ◌++◌, append-nil, append_assoc, arith, ltb, leb, ltb→lt, leb→le, Bool-cases,
  Option-cases, length, take, length-append, take-append-drop, length-drop,
}
use spectado_stream_recorder.Common.Text.{Text}
use spectado_stream_recorder.Recorder.Runs.{
  Run, History, max_runs, max_exits, same_kind, find_pair, merge_run, merge_at, coalesce,
  append_run, close_last, fix_open_run, add_exit,
}

-- The most recent exits, at most `max_exits`: the new exit is the last, and what is dropped are
-- the oldest.
add_exit_lem {ℓ} :
    {E : Type ℓ} (e : E) (exits : List E)
    → (length (add_exit e exits) ≤ max_exits)
      × ((dropped : List E) × (exits ++ (e ∷ []) ≡ dropped ++ add_exit e exits)
          × (length exits < max_exits → dropped ≡ []))
unfolding add_exit
add_exit_lem e exits = elim (Bool-cases (ltb max_exits (length (exits ++ (e ∷ []))))) [
  | inl long ↦ rw long (
    omega (
      arith,
      ltb→lt _ _ long,
      length-drop (length (exits ++ (e ∷ [])) - max_exits) (exits ++ (e ∷ [])),
    ),
    (
      take (length (exits ++ (e ∷ [])) - max_exits) (exits ++ (e ∷ [])),
      sym (take-append-drop (length (exits ++ (e ∷ [])) - max_exits) (exits ++ (e ∷ []))),
      λ h. absurd (omega (arith, ltb→lt _ _ long, length-append exits (e ∷ []))),
    ),
  )
  | inr short ↦ rw short (ground (arith, short), ([], refl, λ h. refl))
]

module _ {F : Type 0} where
  abbrev pub total_bytes : List (Run F) → ℕ
  total_bytes [] = 0
  total_bytes (r ∷ rs) = r.bytes + total_bytes rs

  abbrev pub total_frames : List (Run F) → ℕ
  total_frames [] = 0
  total_frames (r ∷ rs) = r.frames + total_frames rs

  -- Every TS file listed, in order.
  abbrev pub listed_files : List (Run F) → List Text
  listed_files [] = []
  listed_files (r ∷ rs) = r.video_files ++ listed_files rs

  totals_concat :
      (rs : List (Run F)) (r : Run F)
      → (total_bytes (rs ++ (r ∷ [])) ≡ total_bytes rs + r.bytes)
        × (total_frames (rs ++ (r ∷ [])) ≡ total_frames rs + r.frames)
  totals_concat [] r = omega arith
  totals_concat (x ∷ rs) r = omega (arith, totals_concat rs r)

  listed_concat :
      (rs : List (Run F)) (r : Run F)
      → listed_files (rs ++ (r ∷ [])) ≡ listed_files rs ++ r.video_files
  listed_concat [] r = append-nil r.video_files
  listed_concat (x ∷ rs) r =
      rw (listed_concat rs r) (sym (append_assoc x.video_files (listed_files rs) r.video_files))

  -- A pair that is found has a run behind it.
  find_pair_in_range :
      (rs : List (Run F)) (j : ℕ) {i : ℕ}
      → find_pair rs j ≡ some i
      → (j ≤ i) × (i + 2 < j + length rs)
  unfolding find_pair
  find_pair_in_range [] j h = absurd (cc)
  find_pair_in_range (a ∷ []) j h = absurd (cc)
  find_pair_in_range (a ∷ b ∷ []) j h = absurd (cc)
  find_pair_in_range (a ∷ b ∷ c ∷ rest) j {i} h =
      elim (Bool-cases (same_kind a.video_files b.video_files)) [
        | inl same ↦ ground (arith, same)
        | inr other ↦
            let found : find_pair (b ∷ c ∷ rest) (j + 1) ≡ some i = ground (arith, other) in
            omega (arith, find_pair_in_range (b ∷ c ∷ rest) (j + 1) found)
      ]

module _ {F : Type 0} (add : F → F → F) where
  merge_at-totals :
      (i : ℕ) (drop_video : Bool) (rs : List (Run F))
      → (total_bytes (merge_at add i drop_video rs) ≡ total_bytes rs)
        × (total_frames (merge_at add i drop_video rs) ≡ total_frames rs)
  unfolding merge_at merge_run
  merge_at-totals zero d [] = (refl, refl)
  merge_at-totals zero d (a ∷ []) = (refl, refl)
  merge_at-totals zero d (a ∷ b ∷ rest) = omega arith
  merge_at-totals (suc i) d [] = (refl, refl)
  merge_at-totals (suc i) d (a ∷ rest) = omega (arith, merge_at-totals i d rest)

  length-merge_at :
      (i : ℕ) (drop_video : Bool) (rs : List (Run F))
      → i + 1 < length rs
      → length (merge_at add i drop_video rs) + 1 ≡ length rs
  unfolding merge_at
  length-merge_at zero d [] h = absurd (omega arith)
  length-merge_at zero d (a ∷ []) h = absurd (omega arith)
  length-merge_at zero d (a ∷ b ∷ rest) h = omega arith
  length-merge_at (suc i) d [] h = absurd (omega arith)
  length-merge_at (suc i) d (a ∷ rest) h = omega (arith, length-merge_at i d rest)

  -- A merge that keeps the TS files keeps them all, in order.
  merge_at-listed :
      (i : ℕ) (rs : List (Run F)) → listed_files (merge_at add i false rs) ≡ listed_files rs
  unfolding merge_at merge_run
  merge_at-listed zero [] = refl
  merge_at-listed zero (a ∷ []) = refl
  merge_at-listed zero (a ∷ b ∷ rest) = append_assoc a.video_files b.video_files (listed_files rest)
  merge_at-listed (suc i) [] = refl
  merge_at-listed (suc i) (a ∷ rest) = rw (merge_at-listed i rest) refl

  -- A merge in front of the last run leaves the last run.
  merge_at-last :
      (i : ℕ) (d : Bool) (rs : List (Run F)) (r : Run F)
      → i + 2 ≤ length rs
      → (front : List (Run F)) × (merge_at add i d (rs ++ (r ∷ [])) ≡ front ++ (r ∷ []))
  unfolding merge_at
  merge_at-last zero d [] r h = absurd (omega arith)
  merge_at-last zero d (a ∷ []) r h = absurd (omega arith)
  merge_at-last zero d (a ∷ b ∷ rest) r h = (merge_run add d a b ∷ rest, refl)
  merge_at-last (suc i) d [] r h = absurd (omega arith)
  merge_at-last (suc i) d (a ∷ rest) r h =
      let (front, e) = merge_at-last i d rest r (omega arith) in (a ∷ front, ap (◌∷◌ a) e)

  -- Where the pair to merge lies: in front of the last of more than two runs.
  coalesce-facts :
      (rs : List (Run F)) (r : Run F)
      → 2 ≤ length rs
      → (i : ℕ) × (d : Bool) × (i + 2 ≤ length rs)
        × (coalesce add (rs ++ (r ∷ [])) (find_pair (rs ++ (r ∷ [])) 0)
            ≡ merge_at add i d (rs ++ (r ∷ [])))
  unfolding coalesce
  coalesce-facts rs r h = elim (Option-cases (find_pair (rs ++ (r ∷ [])) 0)) [
    | inl e ↦ (0, true, omega arith, rw e refl)
    | inr (i, e) ↦
        (i, false, omega (arith, find_pair_in_range _ 0 e, length-append rs (r ∷ [])), rw e refl)
  ]

  -- appendRun loses nothing: the bytes and the frames of all runs are those of before and of the
  -- new run together, the new run stands at the end unchanged, and a history within `max_runs`
  -- stays within it.
  pub append_run_keeps :
      (r : Run F) (h : History F)
      → (total_bytes (append_run add r h).0.runs ≡ total_bytes h.runs + r.bytes)
        × (total_frames (append_run add r h).0.runs ≡ total_frames h.runs + r.frames)
        × (length h.runs ≤ max_runs → length (append_run add r h).0.runs ≤ max_runs)
        × ((front : List (Run F)) × ((append_run add r h).0.runs ≡ front ++ (r ∷ [])))
  unfolding append_run
  append_run_keeps r h = elim (Bool-cases (leb (length (h.runs ++ (r ∷ []))) max_runs)) [
    | inl short ↦ rw short (
      (totals_concat h.runs r).0,
      (totals_concat h.runs r).1,
      λ _. leb→le _ _ short,
      (h.runs, refl),
    )
    | inr long ↦
        let l = length-append h.runs (r ∷ []) in
        let (i, d, before, e) = coalesce-facts h.runs r (ground (arith, long, l)) in
        let t = merge_at-totals i d (h.runs ++ (r ∷ [])) in
        rw (long, e)
          (
            t.0 ∙ (totals_concat h.runs r).0,
            t.1 ∙ (totals_concat h.runs r).1,
            (λ within.
                omega (arith, length-merge_at i d (h.runs ++ (r ∷ [])) (omega (arith, l)), l)),
            merge_at-last i d h.runs r before,
          )
  ]

  -- While there is room, or two neighbours of one kind stand in front of the new run, appendRun
  -- keeps every TS file that the runs list, in order.
  pub append_run_listed :
      (r : Run F) (h : History F)
      → (length h.runs < max_runs) ⊎ ((i : ℕ) × (find_pair (h.runs ++ (r ∷ [])) 0 ≡ some i))
      → listed_files (append_run add r h).0.runs ≡ listed_files h.runs ++ r.video_files
  unfolding append_run coalesce
  append_run_listed r h c = elim (Bool-cases (leb (length (h.runs ++ (r ∷ []))) max_runs)) [
    | inl short ↦ rw short (listed_concat h.runs r)
    | inr long ↦ elim c [
      | inl room ↦ absurd (ground (arith, long, length-append h.runs (r ∷ [])))
      | inr (i, e) ↦ rw (long, e) (merge_at-listed i (h.runs ++ (r ∷ [])) ∙ listed_concat h.runs r)
    ]
  ]

module _ {F : Type 0} where
  close_last-concat :
      (end size : ℕ) (rs : List (Run F)) (r : Run F)
      → close_last end size (rs ++ (r ∷ [])) ≡ rs ++ close_last end size (r ∷ [])
  unfolding close_last
  close_last-concat end size [] r = refl
  close_last-concat end size (a ∷ []) r = refl
  close_last-concat end size (a ∷ b ∷ rest) r = ap (◌∷◌ a) (close_last-concat end size (b ∷ rest) r)

  -- A run that a crash left open is closed at the suspend time, or now: if it begins within the
  -- file it reaches up to the file's end, and the runs before it do not change.
  pub fix_open_run_closes :
      (size now : ℕ) (h : History F) (before : List (Run F)) (r : Run F)
      → h.runs ≡ before ++ (r ∷ [])
      → r.ended_at ≡ none
      → r.offset ≤ size
      → (s : Run F) × ((fix_open_run size now h).runs ≡ before ++ (s ∷ []))
        × (s.offset + s.bytes ≡ size)
        × ((s.ended_at ≡ some now) ⊎ (s.ended_at ≡ h.suspended_at))
        × (s.offset ≡ r.offset)
        × (s.frames ≡ r.frames)
  unfolding fix_open_run
  fix_open_run_closes size now h before r e open_end within =
      let end : ℕ = elim h.suspended_at [ none ↦ now | some t ↦ t ] in
      (
        record r { ended_at = some end; bytes = size - r.offset },
        rw e (close_last-concat end size before r ∙ ap (◌++◌ before) (ground (arith, open_end))),
        omega arith,
        ground arith,
        refl,
        refl,
      )
