-- ===== src/Recorder/Capture/Blame.antt =====
-- internal/recorder/ffmpeg.go, supervise: whose fault the end of a run was.
use spectado_stream_recorder.Common.{
  ◌+◌, Bool, true, false, not, ◌&&◌, ◌||◌, Option, none, some, [], ◌++◌, ltb, leb, ◌==◌,
  if◌then◌else◌,
}
use spectado_stream_recorder.Common.Text.{Text, text_eq, is_empty, codes}
use spectado_stream_recorder.Recorder.Session.{Session}
use spectado_stream_recorder.Recorder.Capture.Exit.{
  Plan, RunOutcome, Capture, is_there, looks_like_copy_rejection, rejects_option, separator,
  writes_well, detail_of,
}

module _ {F : Type 0} where
  -- A new source says nothing about the old one's video.
  unfoldable pub follow_source : Capture F → Capture F
  follow_source c = if text_eq c.session.source c.video.counter_of then c else record c {
    video = record {
      counter_of = c.session.source;
      failures = 0;
      trial = false;
      fail_line = [];
      suspect = [];
    };
  }

  -- disableVideoLocked
  unfoldable pub disable_video : Text → Capture F → Capture F
  disable_video why c = record c {
    session = record c.session {
      video_source = codes "none";
      video_map = [];
      video_audio_map = [];
      video_capture_error = why;
    };
    video = record c.video { failures = 0; trial = false; fail_line = []; suspect = [] };
  }

  -- The count starts over behind a trial; one with audio makes the video suspect.
  unfoldable pub judge_trial : Bool → RunOutcome F → Capture F → Capture F
  judge_trial trial out c =
      if trial && writes_well out
      then record c {
        video = record c.video {
          failures = 0;
          suspect =
              if ltb 0 out.run_bytes
              then (if is_empty c.video.fail_line then codes "-" else c.video.fail_line)
              else c.video.suspect;
        };
      }
      else c

  -- The video output failed.
  unfoldable pub blame_output : Plan → RunOutcome F → Capture F → Capture F
  unfolding disable_video
  blame_output plan out c =
      let counted = record c {
        video = record c.video {
          suspect = [];
          failures = c.video.failures + 1;
          fail_line = out.video_line;
        };
      } in
      if leb 2 (c.video.failures + 1)
      then disable_video (codes "the video output failed twice: " ++ out.video_line) counted
      else if not (is_empty plan.amap) && text_eq c.session.video_audio_map plan.amap
      then record counted { session = record c.session { video_audio_map = [] } }
      else counted

  -- Empty with the video output, and no line of its own.
  unfoldable pub blame_empty : RunOutcome F → Capture F → Capture F
  unfolding disable_video
  blame_empty out c =
      if not (is_empty c.video.suspect)
      then disable_video
          (codes "ffmpeg produced no audio while the video output was active, and did without it"
            ++ (if text_eq c.video.suspect (codes "-") then [] else separator ++ c.video.suspect))
          c
      else record c {
        video = record c.video {
          failures = c.video.failures + 1;
          fail_line = detail_of out;
          trial = if leb 2 (c.video.failures + 1) then true else c.video.trial;
        };
      }

  -- The muxer or the codec stage rejected the copy.
  unfoldable pub blame_copy : Bool → RunOutcome F → Capture F → Capture F
  blame_copy explicit out c =
      let counted = record c { copy_failures = c.copy_failures + 1 } in
      if explicit
      then record counted {
        session = record c.session {
          last_error =
              codes
                "stream copy rejected by ffmpeg while codec=copy was requested (use aac or auto): "
              ++ out.last_line;
        };
      }
      else if leb 2 (c.copy_failures + 1)
      then record counted { session = record c.session { resolved_codec = codes "aac" } }
      else counted

  -- The run had audio.
  unfoldable pub praise : Bool → Bool → RunOutcome F → Capture F → Capture F
  praise active trial out c = record c {
    copy_failures = 0;
    video = record c.video {
      failures = if trial then c.video.failures else 0;
      suspect = if active then [] else c.video.suspect;
    };
  }

  -- The run's codec was asked for, by the session as it was when the run began, or else by the
  -- configuration.
  unfoldable pub is_explicit : Text → Session F → Bool
  is_explicit audio_codec snap =
      text_eq snap.codec (codes "copy")
      || (is_empty snap.codec || text_eq snap.codec (codes "auto"))
        && text_eq audio_codec (codes "copy")

  abbrev pub blames_output : Option Plan → RunOutcome F → Bool
  blames_output plan out =
      is_there plan
      && writes_well out
      && not (is_empty out.video_line)
      && (is_there out.run_err || out.run_bytes == 0)

  abbrev pub rejects_copy : Text → RunOutcome F → Bool
  rejects_copy codec out =
      text_eq codec (codes "copy")
      && out.run_bytes == 0
      && writes_well out
      && looks_like_copy_rejection out.run_tail

  abbrev pub is_refused : RunOutcome F → Capture F → Bool
  is_refused out c =
      out.run_bytes == 0 && not c.safe_args && writes_well out && rejects_option out.last_line

  -- Whose fault the run's end was.
  unfoldable pub attribute : Text → Bool → Option Plan → Bool → RunOutcome F → Capture F → Capture F
  unfolding blame_output blame_copy blame_empty praise
  attribute codec explicit plan trial out c =
      if is_refused out c
      then record c { safe_args = true; copy_failures = 0 }
      else if blames_output plan out
      then (elim plan [ none ↦ c | some p ↦ blame_output p out c ])
      else if rejects_copy codec out
      then blame_copy explicit out c
      else if is_there plan && out.run_bytes == 0 && writes_well out
      then blame_empty out c
      else if ltb 0 out.run_bytes
      then praise (is_there plan) trial out c
      else c
