-- ===== src/Recorder/Uploads/Tiling.antt =====
-- What measure makes of the byte ranges of a session's runs.
use mathlib.Core.Path.{subst}
use spectado_stream_recorder.Common.{
  ℕ, ◌+◌, ◌≤◌, ◌≡◌, refl, sym, ap, ◌∙◌, inl, inr, true, Option, none, some, List, [], ◌∷◌, arith,
  leb, Bool-cases, Option-cases, if_cases,
}
use spectado_stream_recorder.Recorder.Runs.{Run}
use spectado_stream_recorder.Recorder.Session.{Session}
use spectado_stream_recorder.Recorder.Manager.{find_session}
use spectado_stream_recorder.Recorder.Uploads.Group.{Attempt, Member, update_session}
use spectado_stream_recorder.Recorder.Uploads.Steps.{
  Answers, Measured, set_measured, set_bytes, rest_of, settle_runs, add_trimmed, note_measured,
  offsets_of, measure,
}
use spectado_stream_recorder.Common.Text.{Text, text_eq}

module _ {F : Type 0} where
  -- The runs begin in the order of the list, and none of them behind the end of the file.
  abbrev pub InOrder : ℕ → List (Run F) → Type 0
  InOrder bytes [] = Unit
  InOrder bytes (r ∷ []) = r.offset ≤ bytes
  InOrder bytes (r ∷ q ∷ rs) = (r.offset ≤ q.offset) × InOrder bytes (q ∷ rs)

  -- The runs before and after: each begins where it began, and ends where the next one begins, the
  -- last one at the end of the file.
  abbrev pub Covers : ℕ → List (Run F) → List (Run F) → Type 0
  Covers bytes [] [] = Unit
  Covers bytes (r ∷ []) (t ∷ []) = (t.offset ≡ r.offset) × (r.offset + t.bytes ≡ bytes)
  Covers bytes (r ∷ q ∷ rs) (t ∷ ts) =
      (t.offset ≡ r.offset) × (r.offset + t.bytes ≡ q.offset) × Covers bytes (q ∷ rs) ts
  Covers bytes [] (t ∷ ts) = ⊥
  Covers bytes (r ∷ rs) [] = ⊥
  Covers bytes (r ∷ []) (t ∷ u ∷ ts) = ⊥

  -- A run's offset and length behind its round.
  settled :
      (upto : ℕ) (ms : List (Measured F)) (r : Run F)
      → r.offset ≤ upto
      → ((set_bytes upto (set_measured ms r)).offset ≡ r.offset)
        × (r.offset + (set_bytes upto (set_measured ms r)).bytes ≡ upto)
  settled upto [] r h =
      if_cases (λ (q : Run F). (q.offset ≡ r.offset) × (r.offset + q.bytes ≡ upto))
        (leb r.offset upto) _ r (λ b. (refl, omega (arith, h))) (λ b. ground (arith, b, h))
  settled upto (m ∷ ms) r h =
      let q : Run F = record r { frames = m.frames; duration_seconds = m.duration_seconds } in
      if_cases (λ (q : Run F). (q.offset ≡ r.offset) × (r.offset + q.bytes ≡ upto))
        (leb r.offset upto) _ q (λ b. (refl, omega (arith, h))) (λ b. ground (arith, b, h))

  settle_runs-Covers :
      (bytes : ℕ) (ms : List (Measured F)) (rs : List (Run F))
      → InOrder bytes rs
      → Covers bytes rs (settle_runs bytes ms rs)
  unfolding settle_runs
  settle_runs-Covers bytes ms [] h = tt
  settle_runs-Covers bytes ms (r ∷ []) h = settled bytes ms r h
  settle_runs-Covers bytes ms (r ∷ q ∷ rs) (h, hs) =
      let (f, g) = settled q.offset ms r h in
      (f, g, settle_runs-Covers bytes (rest_of ms) (q ∷ rs) hs)

  find_session-update_session :
      (f : Session F → Session F) (sid : Text) (ss : List (Session F)) {s : Session F}
      → ((u : Session F) → (f u).session_id ≡ u.session_id)
      → find_session sid ss ≡ some s
      → find_session sid (update_session f sid ss) ≡ some (f s)
  unfolding find_session update_session
  find_session-update_session f sid [] same h = absurd cc
  find_session-update_session f sid (t ∷ ss) {s} same h =
      elim (Bool-cases (text_eq t.session_id sid)) [
        | inl e ↦
            let q : t ≡ s = ground (arith, e, h) in
            let here : text_eq (f t).session_id sid ≡ true = ap (λ i. text_eq i sid) (same t) ∙ e in
            rw (e, here) (ap (λ u. some (f u)) q)
        | inr e ↦
            rw (e, e) (find_session-update_session f sid ss {s = s} same (ground (arith, e, h)))
      ]

  -- Where measure has the size of a capture and its scan, and the runs of its session begin in order
  -- and within the file, the session stays in the table with that size, and the runs that it has
  -- behind measure are those it had, which cover the file from the first run's offset on without gaps
  -- or overlaps.
  pub measure-Covers :
      (env : Answers F) (m : Member) (st : Attempt F) {p : Member} {s : Session F}
      → (measure env m st).0 ≡ some p
      → find_session m.session_id st.sessions ≡ some s
      → InOrder p.size s.runs
      → (t : Session F) × (find_session m.session_id (measure env m st).1.sessions ≡ some t)
        × (t.bytes ≡ p.size)
        × Covers p.size s.runs t.runs
  unfolding measure
  measure-Covers env m st {p} {s} h found order =
      let st1 : Attempt F = record st {
        sessions = update_session (add_trimmed (env.trimmed m.session_id)) m.session_id st.sessions;
      } in
      elim (Option-cases (env.size_behind m.session_id)) [
        | inl e ↦ let q : (measure env m st).0 ≡ none = rw (e, measure) refl in absurd (cc (q, h))
        | inr (n, e) ↦
            elim (Option-cases
              (env.scan_runs m.session_id (offsets_of st1.sessions m.session_id))) [
                | inl f ↦
                    let q : (measure env m st).0 ≡ none = rw (e, f, measure) refl in
                    absurd (cc (q, h))
                | inr ((runs, total), f) ↦
                    let q : (measure env m st).0
                        ≡ some (record m { size = n; frames = total.frames }) =
                      rw (e, f, measure) refl in
                    let table : find_session m.session_id (measure env m st).1.sessions
                        ≡ find_session m.session_id
                            (update_session (note_measured n runs) m.session_id st1.sessions) =
                      rw (e, f, measure) refl in
                    let bytes : n ≡ p.size =
                      ap (λ (o : Option Member). elim o [ none ↦ 0 | some x ↦ x.size ])
                        (sym q ∙ h) in
                    let trimmed =
                      find_session-update_session (add_trimmed (env.trimmed m.session_id))
                        m.session_id st.sessions {s = s} (λ u. refl) found in
                    (
                      note_measured n runs (add_trimmed (env.trimmed m.session_id) s),
                      table
                          ∙ find_session-update_session (note_measured n runs) m.session_id
                              st1.sessions (λ u. refl) trimmed,
                      bytes,
                      subst (λ z. Covers z s.runs (settle_runs n runs s.runs)) bytes
                          (settle_runs-Covers n runs s.runs
                            (subst (λ z. InOrder z s.runs) (sym bytes) order)),
                    )
              ]
      ]
