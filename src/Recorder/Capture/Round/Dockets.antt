-- ===== src/Recorder/Capture/Round/Dockets.antt =====
-- What is known of a recording whose video is tried, and what kinds of runs there are.
use spectado_stream_recorder.Common.{
  ℕ, ◌<◌, ◌≡◌, refl, Bool, true, false, ◌||◌, Option, none, some, [], arith,
}
use spectado_stream_recorder.Common.Text.{Text, text_eq, text_eq_refl, is_empty, codes}
use spectado_stream_recorder.Recorder.Session.{Session}
use spectado_stream_recorder.Recorder.Capture.Decide.{Choice, Probe, Reading, resolve_video}
use spectado_stream_recorder.Recorder.Capture.Exit.{
  Plan, Capture, is_there, looks_like_copy_rejection, rejects_option,
}
use spectado_stream_recorder.Recorder.Capture.Blame.{follow_source, blame_empty, praise, attribute}
use spectado_stream_recorder.Recorder.Capture.Round.{RoundAnswers, plan_of, plan_run}

module _ {F : Type 0} where
  -- The run could have video, wrote without an error, and Reconcile left the session alone.
  pub record Undisturbed (a : RoundAnswers F) : Type 0 where
    pub file_there : is_there a.file ≡ true
    pub wrote_well : a.outcome.write_err ≡ none
    pub left_alone : (s : Session F) → a.outcome.meanwhile s ≡ s

  -- It got nothing, and no message blames the options, the video or the copy.
  pub record Barren (a : RoundAnswers F) : Type 0 where
    pub calm : Undisturbed a
    pub nothing_came : a.outcome.run_bytes ≡ 0
    pub unmarked : a.outcome.video_line ≡ []
    pub options_fine : rejects_option a.outcome.last_line ≡ false
    pub copy_fine : looks_like_copy_rejection a.outcome.run_tail ≡ false

  -- It got audio.
  pub record Audible (a : RoundAnswers F) : Type 0 where
    pub calm : Undisturbed a
    pub something_came : 0 < a.outcome.run_bytes

  -- The video is captured from `source`; the count, the trial and the suspicion.
  pub record Docket (source : Text) (n : ℕ) (t clear : Bool) (c : Capture F) : Type 0 where
    pub wanted : c.session.video ≡ true
    pub decided : c.session.video_source ≡ source
    pub followed : c.session.source ≡ c.video.counter_of
    pub count : c.video.failures ≡ n
    pub tried : c.video.trial ≡ t
    pub cleared : is_empty c.video.suspect ≡ clear

  pub follow_source_same :
      (c : Capture F) → c.session.source ≡ c.video.counter_of → follow_source c ≡ c
  unfolding follow_source
  follow_source_same c e = ground (arith, e, text_eq_refl c.video.counter_of)

  -- Empty with the video output.
  pub attribute_empty :
      (codec : Text) (explicit : Bool) (p : Plan) (trial : Bool) (a : RoundAnswers F)
      (c : Capture F)
      → Barren a
      → attribute codec explicit (some p) trial a.outcome c ≡ blame_empty a.outcome c
  unfolding attribute
  attribute_empty codec explicit p trial a c b =
      ground (arith, b.nothing_came, b.unmarked, b.options_fine, b.copy_fine, b.calm.wrote_well)

  -- Audio without the video output.
  pub attribute_audio :
      (codec : Text) (explicit : Bool) (trial : Bool) (a : RoundAnswers F) (c : Capture F)
      → Audible a
      → attribute codec explicit none trial a.outcome c ≡ praise false trial a.outcome c
  unfolding attribute
  attribute_audio codec explicit trial a c b = ground (arith, b.something_came, b.calm.wrote_well)

  -- What is captured, and how: the choice that resolveVideo repeats.
  abbrev pub chosen : Session F → Choice
  chosen s = record { source = s.video_source; vmap = s.video_map; amap = s.video_audio_map }

  pub resolve_video_again :
      (o : Reading) (media : Option Probe) (snap s : Session F)
      → snap.video ≡ true
      → is_empty snap.video_source ≡ false
      → resolve_video o media snap s ≡ some (chosen snap, s)
  unfolding resolve_video
  resolve_video_again o media snap s v ne = rw (v, ne, resolve_video) refl

pub plan_run_trial : (ch : Choice) (file : Option Text) → plan_run ch true file ≡ none
unfolding plan_run
plan_run_trial ch file = ground arith

pub plan_run_active :
    (ch : Choice) (file : Option Text)
    → text_eq ch.source (codes "copy") || text_eq ch.source (codes "x264") ≡ true
    → is_there file ≡ true
    → (p : Plan) × (plan_run ch false file ≡ some p)
unfolding plan_run
plan_run_active ch (some path) k h = (plan_of ch path, rw (k, plan_run) refl)
plan_run_active ch none k h = cc (h)
