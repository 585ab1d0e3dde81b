-- ===== src/Tests/Capture.antt =====
-- internal/recorder/ffmpeg.go at a few runs, and at a library that changes no text.
use spectado_stream_recorder.Common.{
  ℕ, ◌+◌, ◌≡◌, refl, true, false, none, some, List, [], ◌∷◌, ◌++◌, arith, length,
}
use spectado_stream_recorder.Common.Text.{contains, has_prefix, to_lower, text_eq, codes, last_of}
use spectado_stream_recorder.Recorder.Capture.Stderr.{Buffer, new_lines, write}
use spectado_stream_recorder.Recorder.Capture.Redact.{Outside}
use spectado_stream_recorder.Recorder.Capture.Stderr.Chunks.{write-append}
use spectado_stream_recorder.Recorder.Capture.Stderr.Shown.{Shows, play, history, play-Shows}
use spectado_stream_recorder.Recorder.Capture.Stderr.History.{Call, wrote, began}
use spectado_stream_recorder.Recorder.Capture.Decide.{Stream, Program, Probe, Reading}
use spectado_stream_recorder.Recorder.Capture.Round.{RoundAnswers, Setting, supervise}
use spectado_stream_recorder.Recorder.Capture.Exit.{RunOutcome, Capture}
use spectado_stream_recorder.Recorder.Capture.Round.Ends.{TellAll, supervise-exits}
use spectado_stream_recorder.Recorder.Capture.Round.Waits.{FitAll, supervise-Fits}
use spectado_stream_recorder.Recorder.Capture.Round.Culprit.{Goes, supervise_guilty}
use spectado_stream_recorder.Recorder.Capture.Round.Dockets.{Barren, Docket}
use spectado_stream_recorder.Recorder.Capture.Exit.{
  rejects_option, looks_like_copy_rejection, has_marker,
}
use spectado_stream_recorder.Recorder.Capture.Round.Faults.{Outage, supervise-Outage}
use spectado_stream_recorder.Recorder.Reconcile.{blank_session}
use spectado_stream_recorder.Recorder.Session.{RunExit}
use spectado_stream_recorder.Tests.Manager.{session_of}

abbrev plain : Outside
plain = record {
  parse_url = λ t. none;
  print_url = λ u. u.host;
  query_keys = λ t. [];
  query_escape = λ t. t;
  replace_urls = λ f t. t;
  find_tag = λ t. none;
  trim_space = λ t. t;
  stamp = λ t. t ∷ [];
  clock = λ n. n;
}

abbrev fresh_buffer : Buffer
fresh_buffer = record { partial = []; lines = new_lines (codes "warn") true true }

-- A line in two pieces.
write-append_example :
    write plain (codes "r\n") (write plain (codes "er") fresh_buffer)
    ≡ write plain (codes "er" ++ codes "r\n") fresh_buffer
write-append_example = write-append plain (codes "er") (codes "r\n") fresh_buffer tt (omega arith)

abbrev calls : List Call
calls = wrote (codes "late\n") ∷ began [] ∷ wrote (codes "er\nror\n") ∷ []

play-Shows_example :
    Shows plain
      (history plain (codes "warn") true true calls)
      (play plain (codes "warn") true true calls).lines
play-Shows_example = play-Shows plain (codes "warn") true true calls

abbrev video_stream : ℕ → Stream
video_stream i = record {
  index = i;
  codec_type = codes "video";
  codec_name = codes "h264";
  profile = [];
  attached_pic = false;
}

abbrev program : ℕ → ℕ → Program
program id rate = record {
  program_id = id;
  variant_bitrate = rate ∷ [];
  streams = video_stream id ∷ [];
}

-- The rate of a text is its first byte.
abbrev reading : Reading
reading = record {
  same_fold = λ a b. true;
  trim_space = λ t. t;
  read_rate = λ t. elim t [ [] ↦ none | c ∷ s ↦ some c ];
  print = λ n. n ∷ [];
}

abbrev probe : Probe
probe = record {
  streams = video_stream 1 ∷ video_stream 2 ∷ [];
  programs = program 1 5 ∷ program 2 9 ∷ [];
}

-- A run that ends at once, with nothing.
abbrev empty_run : RunOutcome ℕ
empty_run = record {
  run_err = some (codes "exit status 1");
  write_err = none;
  no_space = false;
  sigkill = false;
  stalled = false;
  run_bytes = 0;
  ran = 7;
  ended_at = 20;
  last_line = codes "timeout";
  error_line = [];
  video_line = [];
  suppressed = 0;
  run_tail = codes "timeout" ∷ [];
  meanwhile = λ s. s;
}

abbrev outage : RoundAnswers ℕ
outage = record { media = none; audio = none; file = some (codes "v1.ts"); outcome = empty_run }

abbrev setting : Setting ℕ
setting = record {
  audio_codec = codes "auto";
  backoff_min = 1;
  backoff_max = 8;
  reading = reading;
  span = λ n. n ∷ [];
  seconds = λ n. n;
}

abbrev capture : Capture ℕ
capture = record {
  session = record (session_of 97) { video = true; video_source = codes "copy"; exits = [] };
  video = record { counter_of = []; failures = 0; trial = false; fail_line = []; suspect = [] };
  safe_args = false;
  copy_failures = 0;
  backoff = 1;
}

outage-Outage : Outage outage
outage-Outage = record {
  nothing_came = refl;
  unmarked = refl;
  left_source = λ s. refl;
  left_map = λ s. refl;
}

supervise-Outage_example :
    (waits : List ℕ) × (d : Capture ℕ) × (supervise setting (outage ∷ outage ∷ []) capture
      ≡ some (waits, d))
    × (d.session.video_source ≡ codes "copy")
    × (d.session.video_map ≡ [])
unfolding blank_session
supervise-Outage_example =
    supervise-Outage setting (outage ∷ outage ∷ []) capture refl refl
      (outage-Outage, (outage-Outage, tt))

-- Two rounds of it, and what they leave.
two_rounds :
    (waits : List ℕ) × (d : Capture ℕ) × (supervise setting (outage ∷ outage ∷ []) capture
      ≡ some (waits, d))
two_rounds =
    let (waits, d, e, source, vmap) =
      supervise-Outage setting (outage ∷ outage ∷ []) capture refl refl
        (outage-Outage, (outage-Outage, tt)) in
    (waits, d, e)

supervise-exits_example :
    let d = two_rounds.1 in
    (xs : List (RunExit ℕ)) × TellAll (outage ∷ outage ∷ []) xs
    × (d.session.exits ≡ last_of 20 ([] ++ xs))
    × (d.session.restarts ≡ 0 + 2)
    × (length two_rounds.0 ≡ 2)
unfolding blank_session
supervise-exits_example =
    supervise-exits setting (outage ∷ outage ∷ []) capture
      ((λ s. (refl, refl)), ((λ s. (refl, refl)), tt)) (omega arith) two_rounds.2

supervise-Fits_example : FitAll 1 8 (outage ∷ outage ∷ []) two_rounds.0
supervise-Fits_example =
    supervise-Fits setting (outage ∷ outage ∷ []) capture
      ((λ s. (refl, refl)), ((λ s. (refl, refl)), tt)) (omega arith) (omega arith) (omega arith)
      two_rounds.2

barren : Barren outage
unfolding rejects_option looks_like_copy_rejection has_marker contains has_prefix to_lower
barren = record {
  calm = record { file_there = refl; wrote_well = refl; left_alone = λ s. refl };
  nothing_came = refl;
  unmarked = refl;
  options_fine = refl;
  copy_fine = refl;
}

-- A run that gets audio.
abbrev heard : RoundAnswers ℕ
heard = record outage { outcome = record empty_run { run_bytes = 5 } }

capture-Docket : Docket (codes "copy") 0 false true capture
unfolding blank_session
capture-Docket = record {
  wanted = refl;
  decided = refl;
  followed = refl;
  count = refl;
  tried = refl;
  cleared = refl;
}

supervise_guilty_example :
    (w1 : ℕ) × (c1 : Capture ℕ) × (w2 : ℕ) × (c2 : Capture ℕ) × (w3 : ℕ) × (c3 : Capture ℕ)
    × (w4 : ℕ) × (d : Capture ℕ) × Goes setting true outage capture w1 c1
    × Goes setting true outage c1 w2 c2
    × Goes setting false heard c2 w3 c3
    × Goes setting true outage c3 w4 d
    × (supervise setting (outage ∷ outage ∷ heard ∷ outage ∷ []) capture
        ≡ some (w1 ∷ w2 ∷ w3 ∷ w4 ∷ [], d))
    × (d.session.video_source ≡ codes "none")
unfolding text_eq
supervise_guilty_example =
    supervise_guilty setting (codes "copy") capture outage outage heard outage refl capture-Docket
      barren barren
      (record {
        calm = record { file_there = refl; wrote_well = refl; left_alone = λ s. refl };
        something_came = omega arith;
      })
      barren
