-- ===== src/Recorder/Uploads/Renames.antt =====
-- How often renameGroup moves a session to another key.
use mathlib.Core.Path.{subst}
use spectado_stream_recorder.Common.{
  ℕ, ◌+◌, ◌≤◌, ◌<◌, ◌≡◌, refl, sym, ◌∙◌, ◌⊎◌, inl, inr, some, List, [], ◌∷◌, ◌++◌, arith, ltb, leb,
  leb→le, if◌then◌else◌, Bool-cases, if_both, if_cases, All, All-map,
}
use spectado_stream_recorder.Common.Text.{Text, text_eq, text_eq_iff, Listed, codes}
use spectado_stream_recorder.Recorder.Session.{finalized, Session, set_key}
use spectado_stream_recorder.Recorder.Manager.{Texts}
use spectado_stream_recorder.Recorder.Uploads.Group.{
  max_key_renames, permanent, key_renamed, Attempt, Result, with_suffix, update_session, update_all,
  ids, set_failures, most_renames, move_to, rename_group,
}

module _ {F : Type 0} where
  abbrev pub Bounded : Session F → Type 0
  Bounded o = o.key_renames ≤ max_key_renames

  update_session-All :
      (P : Session F → Type 0) (f : Session F → Session F) (sid : Text) (ss : List (Session F))
      → ((s : Session F) → P (f s))
      → All P ss
      → All P (update_session f sid ss)
  unfolding update_session
  update_session-All P f sid [] g h = tt
  update_session-All P f sid (s ∷ ss) g (h, hs) =
      (if_both P (text_eq s.session_id sid) (f s) s (g s) h, update_session-All P f sid ss g hs)

  update_all-All :
      (P : Session F → Type 0) (f : Session F → Session F) (sids : List Text)
      (ss : List (Session F))
      → ((s : Session F) → P (f s))
      → All P ss
      → All P (update_all f sids ss)
  unfolding update_all
  update_all-All P f [] ss g h = h
  update_all-All P f (sid ∷ sids) ss g h =
      update_all-All P f sids _ g (update_session-All P f sid ss g h)

  -- Two tables, session by session.
  abbrev pub Pairwise :
      (Session F → Session F → Type 0) → List (Session F) → List (Session F) → Type 0
  Pairwise R [] [] = Unit
  Pairwise R (s ∷ ss) (t ∷ ts) = R s t × Pairwise R ss ts
  Pairwise R [] (t ∷ ts) = ⊥
  Pairwise R (s ∷ ss) [] = ⊥

  -- The session waits for its upload to another key.
  pub record Moved (key : Text) (n : ℕ) (s t : Session F) : Type 0 where
    pub same_id : t.session_id ≡ s.session_id
    pub new_key : t.key ≡ key
    pub counted : t.key_renames ≡ n
    pub waits_again : t.state ≡ finalized

  -- The sessions listed are moved, and the others are as before.
  abbrev pub MovedOr : Text → ℕ → List Text → Session F → Session F → Type 0
  MovedOr key n sids s t =
      (Listed s.session_id sids × Moved key n s t) ⊎ ((¬ Listed s.session_id sids) × (t ≡ s))

  all_unchanged :
      (R : Session F → Session F → Type 0) (ss : List (Session F))
      → ((s : Session F) → R s s)
      → Pairwise R ss ss
  all_unchanged R [] h = tt
  all_unchanged R (s ∷ ss) h = (h s, all_unchanged R ss h)

  -- One more session moved in front.
  moved_next :
      (key : Text) (n : ℕ) (sid : Text) (sids : List Text) (s t : Session F)
      → MovedOr key n sids (if text_eq s.session_id sid then move_to key n s else s) t
      → MovedOr key n (sid ∷ sids) s t
  unfolding set_key
  moved_next key n sid sids s t h = elim (Bool-cases (text_eq s.session_id sid)) [
    | inl e ↦
        let here : sid ≡ s.session_id = sym ((text_eq_iff s.session_id sid).0 e) in
        let u = move_to key n s in
        let own : Moved key n s u = record {
          same_id = ground arith;
          new_key = ground (arith, text_eq_iff s.key key);
          counted = refl;
          waits_again = refl;
        } in
        let g = subst (λ b. MovedOr key n sids (if b then move_to key n s else s) t) e h in
        inl (
          inl here,
          elim g [
            | inl (l, m) ↦ record {
              same_id = m.same_id ∙ own.same_id;
              new_key = m.new_key;
              counted = m.counted;
              waits_again = m.waits_again;
            }
            | inr (l, q) ↦ subst (Moved key n s) (sym q) own
          ],
        )
    | inr e ↦
        let g = subst (λ b. MovedOr key n sids (if b then move_to key n s else s) t) e h in
        elim g [
          | inl (l, m) ↦ inl (inr l, m)
          | inr (l, q) ↦ inr (
            λ k. elim k [
              | inl i ↦ ground (arith, e, text_eq_iff s.session_id sid, i)
              | inr i ↦ l i
            ],
            q,
          )
        ]
  ]

  moved_step :
      (key : Text) (n : ℕ) (sid : Text) (sids : List Text) (ss ts : List (Session F))
      → Pairwise (MovedOr key n sids) (update_session (move_to key n) sid ss) ts
      → Pairwise (MovedOr key n (sid ∷ sids)) ss ts
  unfolding update_session
  moved_step key n sid sids [] [] h = tt
  moved_step key n sid sids [] (t ∷ ts) h = h
  moved_step key n sid sids (s ∷ ss) [] h = h
  moved_step key n sid sids (s ∷ ss) (t ∷ ts) (h, hs) =
      (moved_next key n sid sids s t h, moved_step key n sid sids ss ts hs)

  update_all-MovedOr :
      (key : Text) (n : ℕ) (sids : List Text) (ss : List (Session F))
      → Pairwise (MovedOr key n sids) ss (update_all (move_to key n) sids ss)
  unfolding update_all
  update_all-MovedOr key n [] ss = all_unchanged _ ss (λ s. inr ((λ k. k), refl))
  update_all-MovedOr key n (sid ∷ sids) ss =
      moved_step key n sid sids ss _
        (update_all-MovedOr key n sids (update_session (move_to key n) sid ss))

  -- `n` is how often the group has been moved: the most of its sessions.
  abbrev pub OneHas : ℕ → List (Session F) → Type 0
  OneHas n [] = n ≡ 0
  OneHas n (o ∷ os) = (o.key_renames ≡ n) ⊎ OneHas n os

  abbrev pub Most : ℕ → List (Session F) → Type 0
  Most n group = All (λ o. o.key_renames ≤ n) group × OneHas n group

  most_renames-Most : (group : List (Session F)) → Most (most_renames group) group
  unfolding most_renames
  most_renames-Most [] = (tt, refl)
  most_renames-Most (o ∷ os) =
      let (all, one) = most_renames-Most os in
      if_cases (λ n. Most n (o ∷ os)) (ltb (most_renames os) o.key_renames) o.key_renames
        (most_renames os)
        (λ b. ((omega arith, All-map os (λ q k. ground (arith, b, k)) all), inl refl))
        (λ b. ((ground (arith, b), all), inr one))

  -- How a rename of a group that has been moved `n` times ends: refused, with nothing changed, or
  -- with its sessions, and no others, at the key with the next number.
  abbrev pub Renamed : Texts → Text → List (Session F) → Attempt F → ℕ → Result F → Type 0
  Renamed texts key group st n (o, after) =
      All Bounded after.sessions
      × (((o ≡ some permanent) × (max_key_renames ≤ n) × (after ≡ st))
          ⊎ ((o ≡ some key_renamed)
              × (n < max_key_renames)
              × Pairwise
                  (MovedOr (with_suffix key (codes "-" ++ texts.itoa (n + 2))) (n + 1) (ids group))
                  st.sessions after.sessions))

  -- Where no session of the table has been moved to another key more than three times, the same holds
  -- behind a rename of a group. The rename is refused as permanent, with nothing changed, if a session
  -- of the group has been moved three times. Otherwise every session of the group, and no other,
  -- waits for its upload to the key with the next number behind it, with one move more than the most
  -- that the group had.
  pub rename_group-Bounded :
      (texts : Texts) (key : Text) (group : List (Session F)) (st : Attempt F)
      → All Bounded st.sessions
      → (n : ℕ) × Most n group × Renamed texts key group st n (rename_group texts key group st)
  unfolding rename_group set_failures
  rename_group-Bounded texts key group st h =
      let n = most_renames group in
      let new_key = with_suffix key (codes "-" ++ texts.itoa (n + 2)) in
      (
        n,
        most_renames-Most group,
        if_cases (Renamed texts key group st n) (leb max_key_renames n) (some permanent, st) _
            (λ b. (h, inl (refl, leb→le max_key_renames n b, refl)))
            (λ b. (
              update_all-All Bounded (move_to new_key (n + 1)) (ids group) st.sessions
                  (λ s. ground (arith, b)) h,
              inr (
                refl,
                ground (arith, b),
                update_all-MovedOr new_key (n + 1) (ids group) st.sessions,
              ),
            )),
      )
