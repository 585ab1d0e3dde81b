-- ===== src/Recorder/Capture/Round/Culprit.antt =====
-- How the video output is found guilty.
use mathlib.Core.Path.{subst}
use spectado_stream_recorder.Common.{
  ℕ, ◌+◌, ◌≡◌, refl, sym, ap, ◌∙◌, Bool, true, false, ◌||◌, Option, none, some, List, [], ◌∷◌,
  arith, leb,
}
use spectado_stream_recorder.Common.Text.{Text, text_eq, is_empty, codes}
use spectado_stream_recorder.Recorder.Session.{Session}
use spectado_stream_recorder.Recorder.Capture.Decide.{Choice, resolve_codec, resolve_video}
use spectado_stream_recorder.Recorder.Capture.Exit.{Plan, RunOutcome, Capture, is_there, note_exit}
use spectado_stream_recorder.Recorder.Capture.Blame.{
  disable_video, judge_trial, blame_empty, praise, is_explicit, attribute,
}
use spectado_stream_recorder.Recorder.Capture.Round.{
  RoundAnswers, Setting, plan_run, keep_books, wait_behind, run_round, supervise_round, supervise,
}
use spectado_stream_recorder.Recorder.Capture.Round.Cases.{resolve_codec_cases}
use spectado_stream_recorder.Recorder.Capture.Round.Dockets.{
  Undisturbed, Barren, Audible, Docket, follow_source_same, attribute_empty, attribute_audio,
  chosen, resolve_video_again, plan_run_trial, plan_run_active,
}

module _ {F : Type 0} (set : Setting F) where
  -- The round behind follow_source.
  abbrev round_from : RoundAnswers F → Capture F → Option (ℕ × Capture F)
  round_from a c =
      let snap = c.session in
      let (codec, s) = resolve_codec set.audio_codec a.media a.audio snap snap in
      elim (resolve_video set.reading a.media snap s) [
        | none ↦ none
        | some (ch, s) ↦ some (
            run_round set codec (is_explicit set.audio_codec snap) ch a.file a.outcome
              (record c { session = s }))
      ]

  abbrev round_run : RoundAnswers F → Capture F → ℕ × Capture F
  round_run a c =
      let r = resolve_codec set.audio_codec a.media a.audio c.session c.session in
      run_round set r.0 (is_explicit set.audio_codec c.session) (chosen c.session) a.file a.outcome
        (record c { session = r.1 })

  -- The round as a run of what was decided before.
  round_decided :
      (a : RoundAnswers F) (c : Capture F)
      → c.session.source ≡ c.video.counter_of
      → c.session.video ≡ true
      → is_empty c.session.video_source ≡ false
      → supervise_round set a c ≡ some (round_run a c)
  unfolding supervise_round
  round_decided a c e v ne =
      let s = (resolve_codec set.audio_codec a.media a.audio c.session c.session).1 in
      ap (round_from a) (follow_source_same c e)
      ∙ ap
          (λ (x : Option (Choice × Session F)). elim x [
            | none ↦ none
            | some (ch, s) ↦ some (
                run_round set (resolve_codec set.audio_codec a.media a.audio c.session c.session).0
                  (is_explicit set.audio_codec c.session) ch a.file a.outcome
                  (record c { session = s }))
          ])
          (resolve_video_again set.reading a.media c.session s v ne)

  abbrev IsCapture : Text → Type 0
  IsCapture source = text_eq source (codes "copy") || text_eq source (codes "x264") ≡ true

  -- The capture when the faults of a run are attributed.
  abbrev noted : RoundAnswers F → Capture F → Capture F
  noted a c =
      let r = resolve_codec set.audio_codec a.media a.audio c.session c.session in
      record c {
        session = note_exit set.span set.seconds a.outcome (a.outcome.meanwhile r.1);
        video = record c.video { trial = false };
      }

  noted-Docket :
      (source : Text) (n : ℕ) (t clear : Bool) (a : RoundAnswers F) (c : Capture F)
      → Undisturbed a
      → Docket source n t clear c
      → Docket source n false clear (noted a c)
  unfolding note_exit
  noted-Docket source n t clear a c u k =
      let r = resolve_codec set.audio_codec a.media a.audio c.session c.session in
      let same = u.left_alone r.1 in
      let h =
        resolve_codec_cases
          (λ s. (s.video ≡ true) × (s.video_source ≡ source) × (s.source ≡ c.video.counter_of))
          set.audio_codec a.media a.audio c.session c.session (k.wanted, k.decided, k.followed)
          (λ codec. (k.wanted, k.decided, k.followed)) in
      record {
        wanted = ap (λ s. s.video) same ∙ h.0;
        decided = ap (λ s. s.video_source) same ∙ h.1;
        followed = ap (λ s. s.source) same ∙ h.2;
        count = k.count;
        tried = refl;
        cleared = k.cleared;
      }

  -- What the attribution makes of a run with a plan, in a trial or not.
  abbrev blamed : RoundAnswers F → Capture F → Option Plan → Bool → Capture F
  blamed a c plan trial =
      attribute (resolve_codec set.audio_codec a.media a.audio c.session c.session).0
        (is_explicit set.audio_codec c.session) plan trial a.outcome
        (judge_trial trial a.outcome (noted a c))

  round_run_as :
      (a : RoundAnswers F) (c : Capture F) (plan : Option Plan) (trial : Bool)
      → plan_run (chosen c.session) c.video.trial a.file ≡ plan
      → c.video.trial ≡ trial
      → (round_run a c).1 ≡ (wait_behind set a.outcome (blamed a c plan trial)).1
  unfolding run_round keep_books
  round_run_as a c plan trial e t = λ i. (wait_behind set a.outcome (blamed a c (e i) (t i))).1

  wait_behind-Docket :
      (source : Text) (n : ℕ) (t clear : Bool) (out : RunOutcome F) (c : Capture F)
      → Docket source n t clear c
      → Docket source n t clear (wait_behind set out c).1
  unfolding wait_behind
  wait_behind-Docket source n t clear out c k = record {
    wanted = k.wanted;
    decided = k.decided;
    followed = k.followed;
    count = k.count;
    tried = k.tried;
    cleared = k.cleared;
  }

  blame_empty-Docket :
      (source : Text) (n : ℕ) (out : RunOutcome F) (c : Capture F)
      → Docket source n false true c
      → Docket source (n + 1) (leb 2 (n + 1)) true (blame_empty out c)
  unfolding blame_empty
  blame_empty-Docket source n out c k = ground (arith, k)

  blame_empty_guilty :
      (source : Text) (n : ℕ) (out : RunOutcome F) (c : Capture F)
      → Docket source n false false c
      → (blame_empty out c).session.video_source ≡ codes "none"
  unfolding blame_empty disable_video
  blame_empty_guilty source n out c k = ground (arith, k)

  judge_trial_suspects :
      (source : Text) (n : ℕ) (a : RoundAnswers F) (c : Capture F)
      → Audible a
      → Docket source n false true c
      → Docket source 0 false false (judge_trial true a.outcome c)
  unfolding judge_trial
  judge_trial_suspects source n a c b k = ground (arith, b.something_came, b.calm.wrote_well, k)

  praise-Docket :
      (source : Text) (out : RunOutcome F) (c : Capture F)
      → Docket source 0 false false c
      → Docket source 0 false false (praise false true out c)
  unfolding praise
  praise-Docket source out c k = ground (arith, k)

  -- The plan of a run, by what the docket says.
  plan_active :
      (source : Text) (n : ℕ) (clear : Bool) (a : RoundAnswers F) (c : Capture F)
      → IsCapture source
      → is_there a.file ≡ true
      → Docket source n false clear c
      → (p : Plan) × (plan_run (chosen c.session) c.video.trial a.file ≡ some p)
  plan_active source n clear a c w f k =
      let (p, e) =
        plan_run_active (chosen c.session) a.file (subst IsCapture (sym k.decided) w) f in
      (p, subst (λ t. plan_run (chosen c.session) t a.file ≡ some p) (sym k.tried) e)

  shows_video :
      (source : Text) (n : ℕ) (clear : Bool) (a : RoundAnswers F) (c : Capture F)
      → IsCapture source
      → is_there a.file ≡ true
      → Docket source n false clear c
      → is_there (plan_run (chosen c.session) c.video.trial a.file) ≡ true
  shows_video source n clear a c w f k =
      let (p, e) = plan_active source n clear a c w f k in ap is_there e

  tries :
      (source : Text) (n : ℕ) (clear : Bool) (a : RoundAnswers F) (c : Capture F)
      → Docket source n true clear c
      → is_there (plan_run (chosen c.session) c.video.trial a.file) ≡ false
  tries source n clear a c k = ap is_there (
      subst (λ t. plan_run (chosen c.session) t a.file ≡ none) (sym k.tried)
        (plan_run_trial (chosen c.session) a.file))

  -- A barren run with video that is not suspect counts.
  empty_round :
      (source : Text) (n : ℕ) (a : RoundAnswers F) (c : Capture F)
      → IsCapture source
      → Barren a
      → Docket source n false true c
      → Docket source (n + 1) (leb 2 (n + 1)) true (round_run a c).1
  unfolding judge_trial
  empty_round source n a c w b k =
      let (p, e) = plan_active source n true a c w b.calm.file_there k in
      subst (Docket source (n + 1) (leb 2 (n + 1)) true)
        (sym (round_run_as a c (some p) false e k.tried))
        (wait_behind-Docket source (n + 1) (leb 2 (n + 1)) true a.outcome
          (blamed a c (some p) false)
          (subst (Docket source (n + 1) (leb 2 (n + 1)) true)
            (sym (attribute_empty _ _ p false a (noted a c) b))
            (blame_empty-Docket source n a.outcome (noted a c)
              (noted-Docket source n false true a c b.calm k))))

  -- One that is suspect is guilty.
  guilty_round :
      (source : Text) (n : ℕ) (a : RoundAnswers F) (c : Capture F)
      → IsCapture source
      → Barren a
      → Docket source n false false c
      → (round_run a c).1.session.video_source ≡ codes "none"
  unfolding judge_trial wait_behind
  guilty_round source n a c w b k =
      let (p, e) = plan_active source n false a c w b.calm.file_there k in
      ap (λ (d : Capture F). d.session.video_source) (round_run_as a c (some p) false e k.tried)
      ∙ ap (λ (d : Capture F). d.session.video_source) (attribute_empty _ _ p false a (noted a c) b)
      ∙ blame_empty_guilty source n a.outcome (noted a c)
          (noted-Docket source n false false a c b.calm k)

  -- A trial with audio makes the video suspect.
  trial_round :
      (source : Text) (n : ℕ) (a : RoundAnswers F) (c : Capture F)
      → Audible a
      → Docket source n true true c
      → Docket source 0 false false (round_run a c).1
  trial_round source n a c b k =
      let e =
        subst (λ t. plan_run (chosen c.session) t a.file ≡ none) (sym k.tried)
          (plan_run_trial (chosen c.session) a.file) in
      let judged = judge_trial true a.outcome (noted a c) in
      let j =
        judge_trial_suspects source n a (noted a c) b
          (noted-Docket source n true true a c b.calm k) in
      subst (Docket source 0 false false) (sym (round_run_as a c none true e k.tried)) (
        wait_behind-Docket source 0 false false a.outcome (blamed a c none true) (
          subst (Docket source 0 false false) (sym (attribute_audio _ _ true a judged b))
            (praise-Docket source a.outcome judged j)))

  IsCapture-set : (source : Text) → IsCapture source → is_empty source ≡ false
  unfolding text_eq
  IsCapture-set [] w = cc (w)
  IsCapture-set (c ∷ s) w = refl

  round_of :
      (source : Text) (n : ℕ) (t clear : Bool) (a : RoundAnswers F) (c : Capture F)
      → IsCapture source
      → Docket source n t clear c
      → supervise_round set a c ≡ some (round_run a c)
  round_of source n t clear a c w k =
      round_decided a c k.followed k.wanted (rw k.decided (IsCapture-set source w))

  supervise_next :
      (a : RoundAnswers F) (as' : List (RoundAnswers F)) (c : Capture F) (r : ℕ × Capture F)
      (waits : List ℕ) (d : Capture F)
      → supervise_round set a c ≡ some r
      → supervise set as' r.1 ≡ some (waits, d)
      → supervise set (a ∷ as') c ≡ some (r.0 ∷ waits, d)
  unfolding supervise
  supervise_next a as' c (wait, b) waits d e h = rw (e, supervise, h) refl

  -- A round of supervise from one capture to the next, with the video output or without.
  abbrev pub Goes : Bool → RoundAnswers F → Capture F → ℕ → Capture F → Type 0
  Goes video a c wait d =
      (supervise_round set a c ≡ some (wait, d))
      × (is_there (plan_run (chosen c.session) c.video.trial a.file) ≡ video)

  -- A video output that keeps the audio away is turned off, behind a trial: where a recording captures
  -- video that is decided, not suspect, not on trial and has no failure counted against its source,
  -- and the first two runs, with the video output, get nothing, the third goes without it; if that
  -- one has audio, the fourth has the video output again, and if it gets nothing, the video is off
  -- behind it. In none of the runs a write fails,
  -- the video file is missing or Reconcile changes the session, and no empty one has a message that
  -- blames the video, the options or the copy.
  pub supervise_guilty :
      (source : Text) (c : Capture F) (first second third fourth : RoundAnswers F)
      → IsCapture source
      → Docket source 0 false true c
      → Barren first
      → Barren second
      → Audible third
      → Barren fourth
      → (w1 : ℕ) × (c1 : Capture F) × (w2 : ℕ) × (c2 : Capture F) × (w3 : ℕ) × (c3 : Capture F)
        × (w4 : ℕ) × (d : Capture F) × Goes true first c w1 c1
        × Goes true second c1 w2 c2
        × Goes false third c2 w3 c3
        × Goes true fourth c3 w4 d
        × (supervise set (first ∷ second ∷ third ∷ fourth ∷ []) c
            ≡ some (w1 ∷ w2 ∷ w3 ∷ w4 ∷ [], d))
        × (d.session.video_source ≡ codes "none")
  unfolding supervise
  supervise_guilty source c first second third fourth w k b1 b2 b3 b4 =
      let r1 = round_run first c in
      let k1 = empty_round source 0 first c w b1 k in
      let r2 = round_run second r1.1 in
      let k2 = empty_round source 1 second r1.1 w b2 k1 in
      let r3 = round_run third r2.1 in
      let k3 = trial_round source 2 third r2.1 b3 k2 in
      let r4 = round_run fourth r3.1 in
      let e4 =
        supervise_next fourth [] r3.1 r4 [] r4.1 (round_of source 0 false false fourth r3.1 w k3)
          refl in
      let e3 =
        supervise_next third (fourth ∷ []) r2.1 r3 _ r4.1
          (round_of source 2 true true third r2.1 w k2) e4 in
      let e2 =
        supervise_next second (third ∷ fourth ∷ []) r1.1 r2 _ r4.1
          (round_of source 1 false true second r1.1 w k1) e3 in
      let e1 =
        supervise_next first (second ∷ third ∷ fourth ∷ []) c r1 _ r4.1
          (round_of source 0 false true first c w k) e2 in
      (
        r1.0,
        r1.1,
        r2.0,
        r2.1,
        r3.0,
        r3.1,
        r4.0,
        r4.1,
        (
          round_of source 0 false true first c w k,
          shows_video source 0 true first c w b1.calm.file_there k,
        ),
        (
          round_of source 1 false true second r1.1 w k1,
          shows_video source 1 true second r1.1 w b2.calm.file_there k1,
        ),
        (round_of source 2 true true third r2.1 w k2, tries source 2 true third r2.1 k2),
        (
          round_of source 0 false false fourth r3.1 w k3,
          shows_video source 0 false fourth r3.1 w b4.calm.file_there k3,
        ),
        e1,
        guilty_round source 0 fourth r3.1 w b4 k3,
      )
