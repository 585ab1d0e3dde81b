-- ===== src/Recorder/Uploads/Finished.antt =====
-- Sessions that an attempt has finished with, through the changes that it makes to the table.
use spectado_stream_recorder.Common.{
  ℕ, ◌≡◌, refl, inl, inr, Bool, true, not, ◌&&◌, ◌||◌, List, [], ◌∷◌, arith, Bool-cases,
}
use mathlib.Core.Path.{subst}
use spectado_stream_recorder.Common.Text.{Text, text_eq, Listed}
use spectado_stream_recorder.Recorder.Session.{is_terminal, Session, set_key}
use spectado_stream_recorder.Recorder.Uploads.Group.{
  update_session, update_all, give_up, mark_uploaded, mirror_failures,
}
use spectado_stream_recorder.Recorder.Uploads.Steps.{Measured, add_trimmed, note_measured}

module _ {F : Type 0} where
  -- Every session of that id needs no more work.
  unfoldable pub finished_with : Text → List (Session F) → Bool
  finished_with sid [] = true
  finished_with sid (s ∷ ss) =
      (not (text_eq s.session_id sid) || is_terminal s.state) && finished_with sid ss

  -- A change that keeps the id, and that a session is finished.
  pub record KeepsFinished (f : Session F → Session F) : Type 0 where
    pub same_id : (s : Session F) → (f s).session_id ≡ s.session_id
    pub still : (s : Session F) → is_terminal s.state ≡ true → is_terminal (f s).state ≡ true

  pub finished_with-update_session :
      (f : Session F → Session F) (sid t : Text) (ss : List (Session F))
      → KeepsFinished f
      → finished_with t ss ≡ true
      → finished_with t (update_session f sid ss) ≡ true
  unfolding finished_with update_session
  finished_with-update_session f sid t [] k h = refl
  finished_with-update_session f sid t (s ∷ ss) k h =
      let ih : finished_with t (update_session f sid ss) ≡ true =
        finished_with-update_session f sid t ss k (ground (arith, h)) in
      elim (Bool-cases (text_eq s.session_id sid)) [
        | inr e ↦ rw e (ground (arith, h, ih))
        | inl e ↦ elim (Bool-cases (is_terminal s.state)) [
          | inl g ↦
              let g2 = k.still s g in let i = k.same_id s in rw (e, i) (ground (arith, g2, ih))
          | inr g ↦ let i = k.same_id s in rw (e, i) (ground (arith, g, h, ih))
        ]
      ]

  pub finished_with-update_all :
      (f : Session F → Session F) (sids : List Text) (t : Text) (ss : List (Session F))
      → KeepsFinished f
      → finished_with t ss ≡ true
      → finished_with t (update_all f sids ss) ≡ true
  unfolding update_all
  finished_with-update_all f [] t ss k h = h
  finished_with-update_all f (sid ∷ sids) t ss k h =
      finished_with-update_all f sids t _ k (finished_with-update_session f sid t ss k h)

  update_session_finishes :
      (f : Session F → Session F) (sid : Text) (ss : List (Session F))
      → KeepsFinished f
      → ((s : Session F) → is_terminal (f s).state ≡ true)
      → finished_with sid (update_session f sid ss) ≡ true
  unfolding finished_with update_session
  update_session_finishes f sid [] k fin = refl
  update_session_finishes f sid (s ∷ ss) k fin =
      let ih = update_session_finishes f sid ss k fin in
      let g = fin s in
      elim (Bool-cases (text_eq s.session_id sid)) [
        | inl e ↦ rw e (ground (arith, g, ih))
        | inr e ↦ rw e (ground (arith, e, ih))
      ]

  -- A change that finishes a session finishes all that it is made to.
  pub update_all_finishes :
      (f : Session F → Session F) (sids : List Text) (t : Text) (ss : List (Session F))
      → KeepsFinished f
      → ((s : Session F) → is_terminal (f s).state ≡ true)
      → Listed t sids
      → finished_with t (update_all f sids ss) ≡ true
  unfolding update_all
  update_all_finishes f [] t ss k fin h = elim h [ ]
  update_all_finishes f (sid ∷ sids) t ss k fin (inr h) = update_all_finishes f sids t _ k fin h
  update_all_finishes f (sid ∷ sids) t ss k fin (inl e) = finished_with-update_all f sids t _ k (
      subst (λ u. finished_with u (update_session f sid ss) ≡ true) e
        (update_session_finishes f sid ss k fin))

  pub give_up_lem : (reason : Text) → KeepsFinished (give_up reason)
  unfolding is_terminal
  give_up_lem reason = record { same_id = λ s. refl; still = λ s h. refl }

  pub mirror_failures_lem : (n : ℕ) → KeepsFinished (mirror_failures n)
  mirror_failures_lem n = record { same_id = λ s. refl; still = λ s h. h }

  pub add_trimmed_lem : (n : ℕ) → KeepsFinished (add_trimmed n)
  add_trimmed_lem n = record { same_id = λ s. refl; still = λ s h. h }

  pub note_measured_lem : (n : ℕ) (ms : List (Measured F)) → KeepsFinished (note_measured n ms)
  note_measured_lem n ms = record { same_id = λ s. refl; still = λ s h. h }

  set_key-session_id : (key : Text) (s : Session F) → (set_key key s).session_id ≡ s.session_id
  unfolding set_key
  set_key-session_id key s = ground arith

  pub mark_uploaded_lem :
      (now : ℕ) (key etag : Text) (transcoded : Bool)
      → KeepsFinished (mark_uploaded now key etag transcoded)
  unfolding is_terminal
  mark_uploaded_lem now key etag transcoded = record {
    same_id = set_key-session_id key;
    still = λ s h. refl;
  }
