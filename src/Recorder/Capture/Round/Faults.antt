-- ===== src/Recorder/Capture/Round/Faults.antt =====
-- The attribution of faults to the video output.
use mathlib.Core.Path.{subst}
use spectado_stream_recorder.Common.{
  ℕ, ◌≡◌, refl, sym, ◌∙◌, inl, inr, Bool, false, Option, none, some, List, [], ◌∷◌, arith,
  Bool-cases, All,
}
use spectado_stream_recorder.Common.Text.{Text, is_empty}
use spectado_stream_recorder.Recorder.Session.{Session}
use spectado_stream_recorder.Recorder.Capture.Decide.{
  Choice, no_video, Probe, Reading, resolve_codec, resolve_video,
}
use spectado_stream_recorder.Recorder.Capture.Round.{
  RoundAnswers, Setting, plan_run, keep_books, wait_behind, run_round, supervise_round, supervise,
}
use spectado_stream_recorder.Recorder.Capture.Blame.{
  follow_source, disable_video, judge_trial, blame_empty, blame_copy, is_explicit, blames_output,
  attribute,
}
use spectado_stream_recorder.Recorder.Capture.Exit.{Plan, RunOutcome, Capture, note_exit}
use spectado_stream_recorder.Recorder.Capture.Round.Cases.{attribute_cases, resolve_codec_cases}

module _ {F : Type 0} where
  -- The run got nothing from the source, and no error bears the mark of the video output; Reconcile
  -- leaves the video of the recording alone.
  pub record Outage (a : RoundAnswers F) : Type 0 where
    pub nothing_came : a.outcome.run_bytes ≡ 0
    pub unmarked : a.outcome.video_line ≡ []
    pub left_source : (s : Session F) → (a.outcome.meanwhile s).video_source ≡ s.video_source
    pub left_map : (s : Session F) → (a.outcome.meanwhile s).video_map ≡ s.video_map

  -- The video is decided, as `source` and `vmap`, and not suspect.
  record Clear (source vmap : Text) (c : Capture F) : Type 0 where
    still : c.session.video_source ≡ source
    still_map : c.session.video_map ≡ vmap
    unsuspected : c.video.suspect ≡ []

  follow_source-Clear :
      (source vmap : Text) (c : Capture F)
      → Clear source vmap c
      → Clear source vmap (follow_source c)
  unfolding follow_source
  follow_source-Clear source vmap c h = ground (arith, h)

  blame_empty-Clear :
      (source vmap : Text) (out : RunOutcome F) (c : Capture F)
      → Clear source vmap c
      → Clear source vmap (blame_empty out c)
  unfolding blame_empty disable_video
  blame_empty-Clear source vmap out c h = ground (arith, h)

  blame_copy-Clear :
      (source vmap : Text) (explicit : Bool) (out : RunOutcome F) (c : Capture F)
      → Clear source vmap c
      → Clear source vmap (blame_copy explicit out c)
  unfolding blame_copy
  blame_copy-Clear source vmap explicit out c h = ground (arith, h)

  judge_trial-Clear :
      (source vmap : Text) (trial : Bool) (out : RunOutcome F) (c : Capture F)
      → out.run_bytes ≡ 0
      → Clear source vmap c
      → Clear source vmap (judge_trial trial out c)
  unfolding judge_trial
  judge_trial-Clear source vmap trial out c e h = ground (arith, e, h)

  unmarked-blames_output :
      (plan : Option Plan) (out : RunOutcome F)
      → out.video_line ≡ []
      → blames_output plan out ≡ false
  unmarked-blames_output plan out e = ground (arith, e)

  attribute-Clear :
      (source vmap codec : Text) (explicit : Bool) (plan : Option Plan) (trial : Bool)
      (out : RunOutcome F) (c : Capture F)
      → out.run_bytes ≡ 0
      → out.video_line ≡ []
      → Clear source vmap c
      → Clear source vmap (attribute codec explicit plan trial out c)
  attribute-Clear source vmap codec explicit plan trial out c e v h =
      attribute_cases (Clear source vmap) codec explicit plan trial out c
        (λ q. record { still = h.still; still_map = h.still_map; unsuspected = h.unsuspected })
        (λ p q b. cc (b, unmarked-blames_output plan out v))
        (λ q. blame_copy-Clear source vmap explicit out c h)
        (λ q. blame_empty-Clear source vmap out c h) (λ q. ground (arith, q, e)) h

  resolve_video_decided :
      (o : Reading) (media : Option Probe) (snap s : Session F)
      → is_empty snap.video_source ≡ false
      → (ch : Choice) × (resolve_video o media snap s ≡ some (ch, s))
  unfolding resolve_video
  resolve_video_decided o media snap s ne = elim (Bool-cases snap.video) [
    | inl v ↦ (
      record { source = snap.video_source; vmap = snap.video_map; amap = snap.video_audio_map },
      rw (v, ne, resolve_video) refl,
    )
    | inr v ↦ (no_video, rw (v, resolve_video) refl)
  ]

module _ {F : Type 0} (set : Setting F) where
  run_round-Clear :
      (source vmap codec : Text) (explicit : Bool) (ch : Choice) (a : RoundAnswers F)
      (c : Capture F)
      → Outage a
      → Clear source vmap c
      → Clear source vmap (run_round set codec explicit ch a.file a.outcome c).1
  unfolding run_round keep_books wait_behind note_exit
  run_round-Clear source vmap codec explicit ch a c o h =
      let out = a.outcome in
      let trial = c.video.trial in
      let plan = plan_run ch trial a.file in
      let begun : Capture F = record c {
        session = out.meanwhile c.session;
        video = record c.video { trial = false };
      } in
      let noted : Capture F = record begun {
        session = note_exit set.span set.seconds out begun.session;
      } in
      let n : Clear source vmap noted = record {
        still = o.left_source c.session ∙ h.still;
        still_map = o.left_map c.session ∙ h.still_map;
        unsuspected = h.unsuspected;
      } in
      let k =
        attribute-Clear source vmap codec explicit plan trial out (judge_trial trial out noted)
          o.nothing_came o.unmarked
          (judge_trial-Clear source vmap trial out noted o.nothing_came n) in
      record { still = k.still; still_map = k.still_map; unsuspected = k.unsuspected }

  -- The round answers, and the video is still clear.
  abbrev ClearRound : Text → Text → Option (ℕ × Capture F) → Type 0
  ClearRound source vmap none = ⊥
  ClearRound source vmap (some (wait, d)) = Clear source vmap d

  supervise_round-Clear :
      (source vmap : Text) (a : RoundAnswers F) (c : Capture F)
      → is_empty source ≡ false
      → Outage a
      → Clear source vmap c
      → ClearRound source vmap (supervise_round set a c)
  unfolding supervise_round
  supervise_round-Clear source vmap a b ne o h =
      let c = follow_source b in
      let snap = c.session in
      let k = follow_source-Clear source vmap b h in
      let r = resolve_codec set.audio_codec a.media a.audio snap snap in
      let s =
        resolve_codec_cases (λ s. Clear source vmap (record c { session = s })) set.audio_codec
          a.media a.audio snap snap
          (record { still = k.still; still_map = k.still_map; unsuspected = k.unsuspected })
          (λ codec. record {
            still = k.still;
            still_map = k.still_map;
            unsuspected = k.unsuspected;
          }) in
      let explicit = is_explicit set.audio_codec snap in
      let d : is_empty snap.video_source ≡ false = rw (k.still) ne in
      let (ch, e) = resolve_video_decided set.reading a.media snap r.1 d in
      subst
        (λ v. ClearRound source vmap (elim v [
          | none ↦ none
          | some (ch, s) ↦
              some (run_round set r.0 explicit ch a.file a.outcome (record c { session = s }))
        ]))
        (sym e) (run_round-Clear source vmap r.0 explicit ch a (record c { session = r.1 }) o s)

  supervise-Clear :
      (source vmap : Text) (as' : List (RoundAnswers F)) (c : Capture F)
      → is_empty source ≡ false
      → All Outage as'
      → Clear source vmap c
      → (r : List ℕ × Capture F) × (supervise set as' c ≡ some r) × Clear source vmap r.1
  unfolding supervise
  supervise-Clear source vmap [] c ne all h = (([], c), refl, h)
  supervise-Clear source vmap (a ∷ as') c ne (o, all) h =
      behind (supervise_round set a c) refl (supervise_round-Clear source vmap a c ne o h)
        (λ d k. supervise-Clear source vmap as' d ne all k)
    where
      behind :
          (x : Option (ℕ × Capture F))
          → supervise_round set a c ≡ x
          → ClearRound source vmap x
          → ((d : Capture F)
              → Clear source vmap d
              → (r : List ℕ × Capture F) × (supervise set as' d ≡ some r) × Clear source vmap r.1)
          → (r : List ℕ × Capture F) × (supervise set (a ∷ as') c ≡ some r) × Clear source vmap r.1
      behind none e n ih = elim n [ ]
      behind (some (wait, d)) e k ih =
          let (r, q, rest) = ih d k in ((wait ∷ r.0, r.1), rw (e, supervise, q) refl, rest)

  -- An outage never costs the video: where the video of a recording is decided and not suspect, any
  -- number of runs that all get nothing from the source, with the video output or without it and with
  -- whatever messages but such as bear the mark of the video output, leaves the decision as it is.
  pub supervise-Outage :
      (as' : List (RoundAnswers F)) (c : Capture F)
      → is_empty c.session.video_source ≡ false
      → c.video.suspect ≡ []
      → All Outage as'
      → (waits : List ℕ) × (d : Capture F) × (supervise set as' c ≡ some (waits, d))
        × (d.session.video_source ≡ c.session.video_source)
        × (d.session.video_map ≡ c.session.video_map)
  supervise-Outage as' c ne un all =
      let (r, q, k) =
        supervise-Clear c.session.video_source c.session.video_map as' c ne all
          (record { still = refl; still_map = refl; unsuspected = un }) in
      (r.0, r.1, q, k.still, k.still_map)
