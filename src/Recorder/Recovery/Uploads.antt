-- ===== src/Recorder/Recovery/Uploads.antt =====
-- Recover loses no unfinished session and no upload.
use mathlib.Core.Path.{subst}
use spectado_stream_recorder.Common.{
  ℕ, ◌≡◌, refl, sym, ap, ◌∙◌, ◌≢◌, ◌⊎◌, inl, inr, Bool, true, false, not, ◌||◌, none, List, [], ◌∷◌,
  arith, Bool-cases, Option-cases, All,
}
use spectado_stream_recorder.Common.Text.{Text, text_eq_refl, Listed}
use spectado_stream_recorder.Recorder.Session.{
  State, recording, finalized, uploading, uploaded, kept, failed, Session, set_key,
}
use spectado_stream_recorder.Recorder.Manager.{Config, Texts, find_active, find_session, is_some}
use spectado_stream_recorder.Recorder.Reconcile.{pin_key}
use spectado_stream_recorder.Recorder.Recovery.{
  Disk, open_resumed, Recovering, migrate_key, set_session, supersede, resume, recover_session,
  recover,
}

abbrev pub awaits_upload : State → Bool
awaits_upload finalized = true
awaits_upload uploading = true
awaits_upload _ = false

module _ {F : Type 0} where
  migrate_key_facts :
      (cfg : Config) (texts : Texts) (ss : List (Session F)) (s : Session F)
      → ((migrate_key cfg texts ss s).state ≡ s.state)
        × ((migrate_key cfg texts ss s).session_id ≡ s.session_id)
  unfolding migrate_key pin_key set_key
  migrate_key_facts cfg texts ss s = ground arith

  supersede-to_upload :
      (now : ℕ) (id : Text) (r : Recovering F) (sid : Text)
      → Listed sid r.to_upload
      → Listed sid (supersede now id r).to_upload
  unfolding supersede
  supersede-to_upload now id r sid h = elim (Option-cases (find_active id r.manager.active)) [
    | inl e ↦ rw (e, supersede) h
    | inr (prev, e) ↦ elim (Option-cases (find_session prev.session_id r.manager.sessions)) [
      | inl f ↦ rw (e, f, supersede) (inr h)
      | inr (p, f) ↦ rw (e, f, supersede) (inr h)
    ]
  ]

  resume-to_upload :
      (disk : Disk) (now : ℕ) (s : Session F) (r : Recovering F) (sid : Text)
      → Listed sid r.to_upload
      → Listed sid (resume disk now s r).to_upload
  unfolding resume
  resume-to_upload disk now s r sid h = elim (Option-cases (open_resumed disk s.session_id).1) [
    | inl e ↦ rw (e, resume) (inr h)
    | inr (f, e) ↦ rw (e, resume) h
  ]

  recover_session-to_upload :
      (uploads : Bool) (disk : Disk) (now : ℕ) (s : Session F) (state : State) (r : Recovering F)
      (sid : Text)
      → Listed sid r.to_upload
      → Listed sid (recover_session uploads disk now s state r).to_upload
  unfolding recover_session
  recover_session-to_upload uploads disk now s recording r sid h =
      resume-to_upload disk now s (supersede now s.id r) sid (supersede-to_upload now s.id r sid h)
  recover_session-to_upload uploads disk now s finalized r sid h = inr h
  recover_session-to_upload uploads disk now s uploading r sid h = inr h
  recover_session-to_upload uploads disk now s uploaded r sid h =
      elim (Bool-cases (is_some (disk.audio s.session_id))) [
        | inl e ↦ rw e (inr h)
        | inr e ↦ rw e h
      ]
  recover_session-to_upload uploads disk now s kept r sid h =
      elim (Bool-cases (
        uploads
        || not (is_some (disk.audio s.session_id))
        || not (disk.output_missing s.session_id))) [ inl e ↦ rw e h | inr e ↦ rw e (inr h) ]
  recover_session-to_upload uploads disk now s failed r sid h = h

  recover-to_upload_other :
      (cfg : Config) (texts : Texts) (uploads : Bool) (disk : Disk) (now : ℕ)
      (ss : List (Session F)) (r : Recovering F) (sid : Text)
      → Listed sid r.to_upload
      → Listed sid (recover cfg texts uploads disk now ss r).to_upload
  unfolding recover
  recover-to_upload_other cfg texts uploads disk now [] r sid h = h
  recover-to_upload_other cfg texts uploads disk now (s ∷ ss) r sid h =
      recover-to_upload_other cfg texts uploads disk now ss _ sid (
        recover_session-to_upload uploads disk now (migrate_key cfg texts r.manager.sessions s) _ _
          sid h)

  -- An unfinished session behind its round: it is recorded again, or its upload is queued.
  pub recover_session-recording :
      (uploads : Bool) (disk : Disk) (now : ℕ) (s : Session F) (r : Recovering F)
      → (find_active s.id (recover_session uploads disk now s recording r).manager.active ≢ none)
        ⊎ Listed s.session_id (recover_session uploads disk now s recording r).to_upload
  unfolding recover_session resume find_active
  recover_session-recording uploads disk now s r =
      elim (Option-cases (open_resumed disk s.session_id).1) [
        | inl e ↦ rw (e, recover_session, resume) (inr (inl refl))
        | inr (f, e) ↦ rw (e, recover_session, resume) (inl (ground (arith, text_eq_refl s.id)))
      ]

  recover_session_queued :
      (uploads : Bool) (disk : Disk) (now : ℕ) (s : Session F) (state : State) (r : Recovering F)
      → (awaits_upload state ≡ false)
        ⊎ Listed s.session_id (recover_session uploads disk now s state r).to_upload
  unfolding recover_session
  recover_session_queued uploads disk now s recording r = inl refl
  recover_session_queued uploads disk now s finalized r = inr (inl refl)
  recover_session_queued uploads disk now s uploading r = inr (inl refl)
  recover_session_queued uploads disk now s uploaded r = inl refl
  recover_session_queued uploads disk now s kept r = inl refl
  recover_session_queued uploads disk now s failed r = inl refl

  -- Recover hands over for its upload each session that it finds waiting for one or in the middle of one.
  pub recover-to_upload :
      (cfg : Config) (texts : Texts) (uploads : Bool) (disk : Disk) (now : ℕ)
      (ss : List (Session F)) (r : Recovering F)
      → All
          (λ (s : Session F).
            (awaits_upload s.state ≡ false)
            ⊎ Listed s.session_id (recover cfg texts uploads disk now ss r).to_upload)
          ss
  unfolding recover
  recover-to_upload cfg texts uploads disk now [] r = tt
  recover-to_upload cfg texts uploads disk now (s ∷ ss) r =
      let t = migrate_key cfg texts r.manager.sessions s in
      let (state, sid) = migrate_key_facts cfg texts r.manager.sessions s in
      let q : Recovering F = record r { manager = set_session t r.manager } in
      let n = recover_session uploads disk now t t.state q in
      (
        (elim (recover_session_queued uploads disk now t t.state q) [
          | inl e ↦ inl (ap awaits_upload (sym state) ∙ e)
          | inr l ↦ inr (
              recover-to_upload_other cfg texts uploads disk now ss n s.session_id
                (subst (λ x. Listed x n.to_upload) sid l))
        ]),
        recover-to_upload cfg texts uploads disk now ss n,
      )
