-- ===== src/Recorder/Recovery/Queue.antt =====
-- internal/recorder/manager.go, Recover behind its loop: the uploads that it starts.
use mathlib.Core.Path.{subst}
use spectado_stream_recorder.Common.{
  ℕ, ◌≡◌, refl, ◌∙◌, ◌⊎◌, inl, inr, Bool, true, false, not, ◌||◌, List, [], ◌∷◌, arith, Bool-cases,
  Option-cases, if_both, if_cases, All, All-map,
}
use spectado_stream_recorder.Common.Text.{Text, text_eq, text_eq_iff, Listed}
use spectado_stream_recorder.Recorder.Session.{
  State, recording, finalized, uploading, uploaded, kept, failed, Session,
}
use spectado_stream_recorder.Recorder.Manager.{Config, Texts, find_active, find_session, is_some}
use spectado_stream_recorder.Recorder.Recovery.{
  Disk, open_resumed, Recovering, migrate_key, set_session, supersede, resume, recover_session,
  recover,
}
use spectado_stream_recorder.Recorder.Recovery.Uploads.{awaits_upload, recover-to_upload}
use spectado_stream_recorder.Recorder.Lifecycle.{Machine, has_loop, enqueue_upload}

has_loop-Listed : (sid : Text) (ts : List Text) → has_loop sid ts ≡ true → Listed sid ts
unfolding has_loop
has_loop-Listed sid [] h = cc (h)
has_loop-Listed sid (t ∷ ts) h = elim (Bool-cases (text_eq t sid)) [
  | inl e ↦ inl ((text_eq_iff t sid).0 e)
  | inr e ↦ inr (has_loop-Listed sid ts (ground (arith, h, e)))
]

module _ {F : Type 0} where
  -- The loop that queues the uploads; the first of them is the last of the list.
  unfoldable pub enqueue_all : List Text → Machine F → Machine F
  unfolding enqueue_upload
  enqueue_all [] x = x
  enqueue_all (sid ∷ sids) x = enqueue_upload sid (enqueue_all sids x)

  -- Recover, on the sessions that it read, with the uploads that it starts.
  unfoldable pub recover_all :
      Config → Texts → Bool → Disk → ℕ → List (Session F) → Machine F → Machine F
  unfolding recover enqueue_all
  recover_all cfg texts uploads disk now ss x =
      let r =
        recover cfg texts uploads disk now ss (record { manager = x.manager; to_upload = [] }) in
      enqueue_all r.to_upload (record x { manager = r.manager })

  -- The upload runs, behind its own turn and every other.
  enqueue_upload-Listed :
      (sid : Text) (x : Machine F)
      → x.manager.shutting_down ≡ false
      → Listed sid (enqueue_upload sid x).upload_loops
  unfolding enqueue_upload
  enqueue_upload-Listed sid x up =
      if_cases (λ (y : Machine F). Listed sid y.upload_loops)
        (x.manager.shutting_down || has_loop sid x.upload_loops) x _
        (λ b. has_loop-Listed sid x.upload_loops (ground (arith, b, up))) (λ b. inl refl)

  enqueue_upload-stays :
      (sid t : Text) (x : Machine F)
      → Listed t x.upload_loops
      → Listed t (enqueue_upload sid x).upload_loops
  unfolding enqueue_upload
  enqueue_upload-stays sid t x h =
      if_both (λ (y : Machine F). Listed t y.upload_loops)
        (x.manager.shutting_down || has_loop sid x.upload_loops) x _ h (inr h)

  enqueue_all-manager :
      (sids : List Text) (x : Machine F)
      → (enqueue_all sids x).manager.shutting_down ≡ x.manager.shutting_down
  unfolding enqueue_all enqueue_upload
  enqueue_all-manager [] x = refl
  enqueue_all-manager (sid ∷ sids) x =
      let y = enqueue_all sids x in
      if_both (λ (z : Machine F). z.manager.shutting_down ≡ x.manager.shutting_down)
        (y.manager.shutting_down || has_loop sid y.upload_loops) y _ (enqueue_all-manager sids x)
        (enqueue_all-manager sids x)

  enqueue_all-Listed :
      (sids : List Text) (x : Machine F) (t : Text)
      → x.manager.shutting_down ≡ false
      → Listed t sids
      → Listed t (enqueue_all sids x).upload_loops
  unfolding enqueue_all
  enqueue_all-Listed [] x t up h = elim h [ ]
  enqueue_all-Listed (sid ∷ sids) x t up (inl e) =
      subst (λ u. Listed u (enqueue_upload sid (enqueue_all sids x)).upload_loops) e
        (enqueue_upload-Listed sid (enqueue_all sids x) (enqueue_all-manager sids x ∙ up))
  enqueue_all-Listed (sid ∷ sids) x t up (inr h) =
      enqueue_upload-stays sid t (enqueue_all sids x) (enqueue_all-Listed sids x t up h)

  -- Nothing of Recover's loop begins a shutdown.
  supersede-shutting_down :
      (now : ℕ) (id : Text) (r : Recovering F)
      → (supersede now id r).manager.shutting_down ≡ r.manager.shutting_down
  unfolding supersede set_session
  supersede-shutting_down now id r = elim (Option-cases (find_active id r.manager.active)) [
    | inl e ↦ rw (e, supersede) refl
    | inr (prev, e) ↦ elim (Option-cases (find_session prev.session_id r.manager.sessions)) [
      | inl f ↦ rw (e, f, supersede) refl
      | inr (p, f) ↦ rw (e, f, supersede) refl
    ]
  ]

  resume-shutting_down :
      (disk : Disk) (now : ℕ) (s : Session F) (r : Recovering F)
      → (resume disk now s r).manager.shutting_down ≡ r.manager.shutting_down
  unfolding resume set_session
  resume-shutting_down disk now s r = elim (Option-cases (open_resumed disk s.session_id).1) [
    | inl e ↦ rw (e, resume) refl
    | inr (f, e) ↦ rw (e, resume) refl
  ]

  recover_session-shutting_down :
      (uploads : Bool) (disk : Disk) (now : ℕ) (s : Session F) (state : State) (r : Recovering F)
      → (recover_session uploads disk now s state r).manager.shutting_down ≡ r.manager.shutting_down
  unfolding recover_session set_session
  recover_session-shutting_down uploads disk now s recording r =
      resume-shutting_down disk now s (supersede now s.id r) ∙ supersede-shutting_down now s.id r
  recover_session-shutting_down uploads disk now s finalized r = refl
  recover_session-shutting_down uploads disk now s uploading r = refl
  recover_session-shutting_down uploads disk now s uploaded r =
      if_both (λ (q : Recovering F). q.manager.shutting_down ≡ r.manager.shutting_down)
        (is_some (disk.audio s.session_id)) _ r refl refl
  recover_session-shutting_down uploads disk now s kept r =
      if_both (λ (q : Recovering F). q.manager.shutting_down ≡ r.manager.shutting_down)
        (uploads
          || not (is_some (disk.audio s.session_id))
          || not (disk.output_missing s.session_id))
        r _ refl refl
  recover_session-shutting_down uploads disk now s failed r = refl

  recover-shutting_down :
      (cfg : Config) (texts : Texts) (uploads : Bool) (disk : Disk) (now : ℕ)
      (ss : List (Session F)) (r : Recovering F)
      → (recover cfg texts uploads disk now ss r).manager.shutting_down ≡ r.manager.shutting_down
  unfolding recover set_session
  recover-shutting_down cfg texts uploads disk now [] r = refl
  recover-shutting_down cfg texts uploads disk now (s ∷ ss) r =
      let t = migrate_key cfg texts r.manager.sessions s in
      recover-shutting_down cfg texts uploads disk now ss _
      ∙ recover_session-shutting_down uploads disk now t t.state
          (record r { manager = set_session t r.manager })

  -- Outside a shutdown, the upload of each session that Recover finds waiting for one, or in the
  -- middle of one, runs behind it.
  pub recover_all-queued :
      (cfg : Config) (texts : Texts) (uploads : Bool) (disk : Disk) (now : ℕ)
      (ss : List (Session F)) (x : Machine F)
      → x.manager.shutting_down ≡ false
      → All
          (λ (s : Session F).
            (awaits_upload s.state ≡ false)
            ⊎ Listed s.session_id (recover_all cfg texts uploads disk now ss x).upload_loops)
          ss
  unfolding recover_all
  recover_all-queued cfg texts uploads disk now ss x up =
      let start : Recovering F = record { manager = x.manager; to_upload = [] } in
      let r = recover cfg texts uploads disk now ss start in
      All-map ss
        (λ s h. elim h [
          | inl e ↦ inl e
          | inr l ↦ inr (
              enqueue_all-Listed r.to_upload (record x { manager = r.manager }) s.session_id
                (recover-shutting_down cfg texts uploads disk now ss start ∙ up) l)
        ])
        (recover-to_upload cfg texts uploads disk now ss start)
