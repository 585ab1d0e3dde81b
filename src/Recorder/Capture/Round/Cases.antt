-- ===== src/Recorder/Capture/Round/Cases.antt =====
-- What the branches of a round have, the round has.
use spectado_stream_recorder.Common.{
  ◌+◌, ◌≡◌, refl, Bool, true, not, ◌&&◌, Option, none, some, [], ◌++◌, arith, ltb, leb, ◌==◌,
  if◌then◌else◌, if_both, if_cases, option_both,
}
use spectado_stream_recorder.Common.Text.{Text, text_eq, is_empty, codes}
use spectado_stream_recorder.Recorder.Session.{Session}
use spectado_stream_recorder.Recorder.Capture.Decide.{
  Probe, Choice, Reading, resolve_requested, requested_codec, probed_audio, resolve_codec, no_video,
  decide_video, resolve_video,
}
use spectado_stream_recorder.Recorder.Capture.Blame.{
  follow_source, disable_video, judge_trial, blame_output, blame_empty, blame_copy, praise,
  blames_output, rejects_copy, is_refused, attribute,
}
use spectado_stream_recorder.Recorder.Capture.Exit.{
  Plan, RunOutcome, Capture, is_there, writes_well,
}

module _ {F : Type 0} where
  pub attribute_cases {κ} :
      (P : Capture F → Type κ) (codec : Text) (explicit : Bool) (plan : Option Plan) (trial : Bool)
      (out : RunOutcome F) (c : Capture F)
      → (is_refused out c ≡ true → P (record c { safe_args = true; copy_failures = 0 }))
      → ((p : Plan) → plan ≡ some p → blames_output plan out ≡ true → P (blame_output p out c))
      → (rejects_copy codec out ≡ true → P (blame_copy explicit out c))
      → (is_there plan && out.run_bytes == 0 && writes_well out ≡ true → P (blame_empty out c))
      → (ltb 0 out.run_bytes ≡ true → P (praise (is_there plan) trial out c))
      → P c
      → P (attribute codec explicit plan trial out c)
  unfolding attribute
  attribute_cases P codec explicit plan trial out c refused output copy empty audio same =
      let e5 = if ltb 0 out.run_bytes then praise (is_there plan) trial out c else c in
      let h5 =
        if_cases P (ltb 0 out.run_bytes) (praise (is_there plan) trial out c) c audio (λ e. same) in
      let t4 = is_there plan && out.run_bytes == 0 && writes_well out in
      let e4 = if t4 then blame_empty out c else e5 in
      let h4 = if_cases P t4 (blame_empty out c) e5 empty (λ e. h5) in
      let e3 = if rejects_copy codec out then blame_copy explicit out c else e4 in
      let h3 = if_cases P (rejects_copy codec out) (blame_copy explicit out c) e4 copy (λ e. h4) in
      let blamed : Capture F = elim plan [ none ↦ c | some p ↦ blame_output p out c ] in
      let e2 = if blames_output plan out then blamed else e3 in
      let h2 =
        if_cases P (blames_output plan out) blamed e3 (λ e. output_of plan refl e) (λ e. h3) in
      if_cases P (is_refused out c) (record c { safe_args = true; copy_failures = 0 }) e2 refused
        (λ e. h2)
    where
      output_of :
          (q : Option Plan)
          → plan ≡ q
          → blames_output plan out ≡ true
          → P (elim q [ none ↦ c | some p ↦ blame_output p out c ])
      output_of none e b = same
      output_of (some p) e b = output p e b

  -- What resolveCodec may do to the session.
  pub resolve_codec_cases {κ} :
      (P : Session F → Type κ) (audio_codec : Text) (media : Option Probe)
      (audio : Option (Text × Text)) (snap s : Session F)
      → P s
      → ((codec : Text) → P (record s { resolved_codec = codec }))
      → P (resolve_codec audio_codec media audio snap s).1
  unfolding resolve_codec
  resolve_codec_cases P audio_codec media audio snap s same kept =
      let answer = if snap.video then probed_audio media else audio in
      let r = resolve_requested (requested_codec audio_codec snap) answer in
      if_both (λ (x : Text × Session F). P x.1) (is_empty snap.resolved_codec)
        (r.0, if r.1 then record s { resolved_codec = r.0 } else s) (snap.resolved_codec, s)
        (if_both P r.1 (record s { resolved_codec = r.0 }) s (kept r.0) same) same

  -- What resolveVideo may answer.
  pub resolve_video_cases {κ} :
      (Q : Option (Choice × Session F) → Type κ) (o : Reading) (media : Option Probe)
      (snap s : Session F)
      → Q none
      → ((ch : Choice) → Q (some (ch, s)))
      → ((ch : Choice)
          → Q (
              some (
                ch,
                record s {
                  video_source = ch.source;
                  video_map = ch.vmap;
                  video_audio_map = ch.amap;
                },
              )))
      → Q (resolve_video o media snap s)
  unfolding resolve_video
  resolve_video_cases Q o media snap s panic same chosen =
      let old : Choice = record {
        source = snap.video_source;
        vmap = snap.video_map;
        amap = snap.video_audio_map;
      } in
      let decided = λ (r : Probe). decision (decide_video o r) in
      let probed : Option (Choice × Session F) = elim media [
        | none ↦ some (no_video, s)
        | some r ↦ decision (decide_video o r)
      ] in
      let hp : Q probed = option_both Q media (some (no_video, s)) decided (same no_video) (λ r.
        option_both Q (decide_video o r) none (λ ch. some (ch, with_choice ch)) panic
          (λ ch. chosen ch)) in
      if_both Q (not snap.video) (some (no_video, s))
        (if not (is_empty snap.video_source) then some (old, s) else probed) (same no_video)
        (if_both Q (not (is_empty snap.video_source)) (some (old, s)) probed (same old) hp)
    where
      with_choice : Choice → Session F
      with_choice ch = record s {
        video_source = ch.source;
        video_map = ch.vmap;
        video_audio_map = ch.amap;
      }

      decision : Option Choice → Option (Choice × Session F)
      decision d = elim d [ none ↦ none | some ch ↦ some (ch, with_choice ch) ]

  -- What the bookkeeping of faults leaves alone.
  pub record Kept (c d : Capture F) : Type 0 where
    pub exits_kept : d.session.exits ≡ c.session.exits
    pub restarts_kept : d.session.restarts ≡ c.session.restarts
    pub backoff_kept : d.backoff ≡ c.backoff

  blame_output-Kept :
      (p : Plan) (out : RunOutcome F) (c : Capture F) → Kept c (blame_output p out c)
  unfolding blame_output disable_video
  blame_output-Kept p out c =
      let counted : Capture F = record c {
        video = record c.video {
          suspect = [];
          failures = c.video.failures + 1;
          fail_line = out.video_line;
        };
      } in
      let own : Capture F = record counted {
        session = record c.session { video_audio_map = [] };
      } in
      let t = not (is_empty p.amap) && text_eq c.session.video_audio_map p.amap in
      if_both (Kept c) (leb 2 (c.video.failures + 1))
        (disable_video (codes "the video output failed twice: " ++ out.video_line) counted)
        (if t then own else counted)
        (record { exits_kept = refl; restarts_kept = refl; backoff_kept = refl })
        (if_both (Kept c) t own counted
          (record { exits_kept = refl; restarts_kept = refl; backoff_kept = refl })
          (record { exits_kept = refl; restarts_kept = refl; backoff_kept = refl }))

  blame_empty-Kept : (out : RunOutcome F) (c : Capture F) → Kept c (blame_empty out c)
  unfolding blame_empty disable_video
  blame_empty-Kept out c = ground arith

  blame_copy-Kept :
      (explicit : Bool) (out : RunOutcome F) (c : Capture F) → Kept c (blame_copy explicit out c)
  unfolding blame_copy
  blame_copy-Kept explicit out c = ground arith

  pub attribute-Kept :
      (codec : Text) (explicit : Bool) (plan : Option Plan) (trial : Bool) (out : RunOutcome F)
      (c : Capture F)
      → Kept c (attribute codec explicit plan trial out c)
  unfolding praise
  attribute-Kept codec explicit plan trial out c =
      attribute_cases (Kept c) codec explicit plan trial out c
        (λ e. record { exits_kept = refl; restarts_kept = refl; backoff_kept = refl })
        (λ p q e. blame_output-Kept p out c) (λ e. blame_copy-Kept explicit out c)
        (λ e. blame_empty-Kept out c)
        (λ e. record { exits_kept = refl; restarts_kept = refl; backoff_kept = refl })
        (record { exits_kept = refl; restarts_kept = refl; backoff_kept = refl })

  pub judge_trial-Kept :
      (trial : Bool) (out : RunOutcome F) (c : Capture F) → Kept c (judge_trial trial out c)
  unfolding judge_trial
  judge_trial-Kept trial out c = ground arith

  pub follow_source-Kept : (c : Capture F) → Kept c (follow_source c)
  unfolding follow_source
  follow_source-Kept c = ground arith
