-- ===== src/Recorder/Uploads/Measuring.antt =====
-- What the loop that measures the parts to add leaves of them.
use spectado_stream_recorder.Common.{
  ℕ, ◌≤◌, ◌≡◌, refl, sym, ap, ◌∙◌, ◌⊎◌, inl, inr, true, Option, none, some, List, [], ◌∷◌, arith,
  option_both, nat_both, length, All, All-map,
}
use spectado_stream_recorder.Common.Text.{Text, codes, Listed}
use spectado_stream_recorder.Recorder.Uploads.Group.{
  Member, Attempt, member_ids, fail_members, give_up,
}
use spectado_stream_recorder.Recorder.Uploads.Steps.{
  Answers, measure, measure_all, measured_next, with_member, add_trimmed,
}
use spectado_stream_recorder.Recorder.Uploads.Finished.{
  finished_with, finished_with-update_all, update_all_finishes, finished_with-update_session,
  give_up_lem, add_trimmed_lem, note_measured_lem,
}
use spectado_stream_recorder.Recorder.Session.{is_terminal}

-- The members that are left.
abbrev pub result_ids : Option (List Member) → List Text
result_ids none = []
result_ids (some ms) = member_ids ms

abbrev pub result_length : Option (List Member) → ℕ
result_length none = 0
result_length (some ms) = length ms

module _ (digest : Text → Text) where
  -- The member's digest is its session's.
  abbrev pub Known : Member → Type 0
  Known m = m.digest ≡ digest m.session_id

  abbrev pub KnownResult : Option (List Member) → Type 0
  KnownResult none = Unit
  KnownResult (some ms) = All Known ms

  abbrev Same : Member → Option Member → Type 0
  Same m none = Unit
  Same m (some q) = (q.session_id ≡ m.session_id) × (q.digest ≡ m.digest)

  abbrev Placed : {F : Type 0} → Option (List Member) × Attempt F → Member → Type 0
  Placed (none, st) m = Unit
  Placed (some ms, st) m =
      (finished_with m.session_id st.sessions ≡ true) ⊎ Listed m.session_id (member_ids ms)

  module _ {F : Type 0} where
    -- Nothing is stored or removed, what was finished stays so, and each member is finished or left.
    pub record Measures (ms : List Member) (st : Attempt F) (r : Option (List Member) × Attempt F)
        : Type 0 where
      pub removed : r.1.removed ≡ st.removed
      pub stored : r.1.stored ≡ st.stored
      pub known : KnownResult r.0
      pub shorter : result_length r.0 ≤ length ms
      pub still :
          (t : Text) → finished_with t st.sessions ≡ true → finished_with t r.1.sessions ≡ true
      pub placed : All (Placed r) ms

    measure_facts :
        (env : Answers F) (m : Member) (st : Attempt F)
        → ((measure env m st).1.removed ≡ st.removed)
          × ((measure env m st).1.stored ≡ st.stored)
          × Same m (measure env m st).0
          × ((t : Text)
              → finished_with t st.sessions ≡ true
              → finished_with t (measure env m st).1.sessions ≡ true)
    unfolding measure
    measure_facts env m st =
        let P = λ (r : Option Member × Attempt F).
          (r.1.removed ≡ st.removed)
          × (r.1.stored ≡ st.stored)
          × Same m r.0
          × ((t : Text)
              → finished_with t st.sessions ≡ true
              → finished_with t r.1.sessions ≡ true) in
        let trim = λ (t : Text) (h : finished_with t st.sessions ≡ true).
          finished_with-update_session (add_trimmed (env.trimmed m.session_id)) m.session_id t
            st.sessions (add_trimmed_lem (env.trimmed m.session_id)) h in
        option_both P (env.size_behind m.session_id) _ _ (refl, refl, tt, trim)
          (λ n.
            option_both P (env.scan_runs m.session_id _) _ _ (refl, refl, tt, trim)
              (λ x. (
                refl,
                refl,
                (refl, refl),
                λ t h.
                    finished_with-update_session _ m.session_id t _ (note_measured_lem n x.0)
                      (trim t h),
              )))

    with_member-Measures :
        (m q : Member) (ms : List Member) (st : Attempt F) (r : Option (List Member) × Attempt F)
        → Same m (some q)
        → Known m
        → Measures ms st r
        → Measures (m ∷ ms) st (with_member q r)
    with_member-Measures m q ms st (none, st2) (i, d) k h = record {
      removed = h.removed;
      stored = h.stored;
      known = tt;
      shorter = omega arith;
      still = h.still;
      placed = (tt, All-map ms (λ x p. tt) h.placed);
    }
    with_member-Measures m q ms st (some qs, st2) (i, d) k h = record {
      removed = h.removed;
      stored = h.stored;
      known = (d ∙ k ∙ ap digest (sym i), h.known);
      shorter = (let l = h.shorter in omega (arith, l));
      still = h.still;
      placed = (
        inr (inl i),
        All-map ms (λ x p. elim p [ inl f ↦ inl f | inr l ↦ inr (inr l) ]) h.placed,
      );
    }

    -- Behind a change that stores and removes nothing and keeps what is finished.
    carry_facts :
        (ms : List Member) (st st1 : Attempt F) (r : Option (List Member) × Attempt F)
        → st1.removed ≡ st.removed
        → st1.stored ≡ st.stored
        → ((t : Text) → finished_with t st.sessions ≡ true → finished_with t st1.sessions ≡ true)
        → Measures ms st1 r
        → Measures ms st r
    carry_facts ms st st1 r e f g h = record {
      removed = h.removed ∙ e;
      stored = h.stored ∙ f;
      known = h.known;
      shorter = h.shorter;
      still = λ t k. h.still t (g t k);
      placed = h.placed;
    }

    put_finished :
        (m : Member) (r : Option (List Member) × Attempt F)
        → finished_with m.session_id r.1.sessions ≡ true
        → Placed r m
    put_finished m (none, st) h = tt
    put_finished m (some ms, st) h = inl h

    -- A member more, which is finished.
    drop_facts :
        (m : Member) (ms : List Member) (st : Attempt F) (r : Option (List Member) × Attempt F)
        → finished_with m.session_id st.sessions ≡ true
        → Measures ms st r
        → Measures (m ∷ ms) st r
    drop_facts m ms st r f h = record {
      removed = h.removed;
      stored = h.stored;
      known = h.known;
      shorter = (let l = h.shorter in omega (arith, l));
      still = h.still;
      placed = (put_finished m r (h.still m.session_id f), h.placed);
    }

    measured_next-Measures :
        (rest : Attempt F → Option (List Member) × Attempt F) (m : Member) (ms : List Member)
        (result : Option Member) (st1 : Attempt F)
        → Same m result
        → Known m
        → ((st : Attempt F) → Measures ms st (rest st))
        → Measures (m ∷ ms) st1 (measured_next rest result st1)
    unfolding fail_members is_terminal
    measured_next-Measures rest m ms none st1 e k ih = record {
      removed = refl;
      stored = refl;
      known = tt;
      shorter = omega arith;
      still = λ t h. h;
      placed = (tt, nothing ms);
    }
      where
        nothing : (qs : List Member) → All (Placed (none, st1)) qs
        nothing [] = tt
        nothing (q ∷ qs) = (tt, nothing qs)
    measured_next-Measures rest m ms (some q) st1 (i, d) k ih =
        nat_both (Measures (m ∷ ms) st1) q.frames _ _
          (let reason = codes "no ADTS frames found" in
            let st2 = fail_members reason (q.session_id ∷ []) st1 in
            carry_facts (m ∷ ms) st1 st2 (rest st2) refl refl
              (λ t h.
                finished_with-update_all (give_up reason) (q.session_id ∷ []) t st1.sessions
                  (give_up_lem reason) h)
              (drop_facts m ms st2 (rest st2)
                (update_all_finishes (give_up reason) (q.session_id ∷ []) m.session_id st1.sessions
                  (give_up_lem reason) (λ s. refl) (inl i))
                (ih st2)))
          (λ n. with_member-Measures m q ms st1 (rest st1) (i, d) k (ih st1))

    pub measure_all-Measures :
        (env : Answers F) (ms : List Member) (st : Attempt F)
        → All Known ms
        → Measures ms st (measure_all env ms st)
    unfolding measure_all
    measure_all-Measures env [] st h = record {
      removed = refl;
      stored = refl;
      known = tt;
      shorter = omega arith;
      still = λ t k. k;
      placed = tt;
    }
    measure_all-Measures env (m ∷ ms) st (h, hs) =
        let (e, f, same, g) = measure_facts env m st in
        carry_facts (m ∷ ms) st (measure env m st).1 _ e f g (
          measured_next-Measures (λ st1. measure_all env ms st1) m ms (measure env m st).0
            (measure env m st).1 same h (λ st1. measure_all-Measures env ms st1 hs))
