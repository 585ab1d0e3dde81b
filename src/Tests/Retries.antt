-- ===== src/Tests/Retries.antt =====
-- internal/recorder/upload.go: the manifest of an object, the retries, and the ranges of runs.
use spectado_stream_recorder.Common.{
  ℕ, ◌+◌, ◌*◌, ◌/◌, ◌^◌, ◌≤◌, ◌≡◌, refl, false, none, some, [], ◌∷◌, ◌-◌, ◌==◌, arith, get_or, All,
}
use spectado_stream_recorder.Common.Text.{trim, trim_left, trim_right}
use spectado_stream_recorder.Recorder.Session.{Session}
use spectado_stream_recorder.Recorder.Manager.{Texts}
use spectado_stream_recorder.Recorder.Uploads.Manifest.{
  comma, join_with, Formats, manifest, parse_remote_object, Summary, object_metadata,
}
use spectado_stream_recorder.Recorder.Uploads.RoundTrip.{ReadsBack}
use spectado_stream_recorder.Recorder.Uploads.Sent.{
  IsVisible, IsPlain, OnPlain, parse_remote_object-sanitize_metadata,
}
use spectado_stream_recorder.Storage.{Library, sanitize_metadata}
use spectado_stream_recorder.Recorder.Uploads.Group.{key_renamed, failure, Outcome}
use spectado_stream_recorder.Recorder.Uploads.Retries.{
  LoopInput, again, sleep, first_retry, after_attempt, back_off, grow, actions, actions_again,
}
use spectado_stream_recorder.Recorder.Uploads.RunTable.{
  RunEntry, cap_run_table, Capped, cap_run_table-Capped,
}
use spectado_stream_recorder.Tests.Manager.{texts, session_of}

-- A number is written as one digit, and a time as that of its seconds.
abbrev trip_texts : Texts
trip_texts = record texts { is_space = λ c. c == 32; itoa = λ n. (n + 48) ∷ [] }

abbrev trip_formats : Formats
trip_formats = record {
  session_digest = λ t. t;
  atoi = λ t. some (get_or t 0 0 - 48);
  format_time = λ n. (n / 10 ^ 9 + 48) ∷ [];
  parse_time = λ t. elim t [ [] ↦ none | c ∷ cs ↦ some ((c - 48) * 10 ^ 9) ];
}

abbrev summary : Summary
summary = record {
  recording_id = 120 ∷ [];
  digests = (97 ∷ 98 ∷ []) ∷ (99 ∷ []) ∷ [];
  parts = 2;
  last_start = 10 ^ 9 + 1;
}

trip_reads : ReadsBack trip_texts trip_formats summary
unfolding trim trim_left trim_right
trip_reads = record { comma_is_no_space = refl; number = refl; time = refl; no_time = refl }

-- Every text is its own runes.
abbrev ascii_only : Library
ascii_only = record {
  runes = λ t. t;
  utf8 = λ r. r ∷ [];
  lower = λ t. t;
  trim_space = λ t. t;
  encode_word = λ t. t;
}

plainly : OnPlain ascii_only
plainly = record {
  runes_plain = λ t h. refl;
  utf8_plain = λ c h. refl;
  trim_plain = λ t h. refl;
  lower_id = refl;
  lower_sessions = refl;
  lower_parts = refl;
  lower_start = refl;
}

plain_char : (c : ℕ) → IsVisible c → IsPlain (c ∷ [])
plain_char c h = record { filled = refl; visible = (h, tt); short = omega arith }

plain_list : IsPlain (join_with comma summary.digests)
unfolding join_with
plain_list = record {
  filled = refl;
  visible = (
    (omega arith, omega arith),
    ((omega arith, omega arith), ((omega arith, omega arith), ((omega arith, omega arith), tt))),
  );
  short = omega arith;
}

parse_remote_object-sanitize_metadata_example :
    parse_remote_object trip_texts trip_formats (record {
      etag = 7 ∷ [];
      size = 4;
      metadata =
          (sanitize_metadata ascii_only (object_metadata trip_texts trip_formats summary)).out;
    })
    ≡ manifest (record {
      etag = 7 ∷ [];
      size = 4;
      recording_id = 120 ∷ [];
      sessions = summary.digests;
      parts = 2;
      last_start = 10 ^ 9;
    })
parse_remote_object-sanitize_metadata_example =
    parse_remote_object-sanitize_metadata ascii_only plainly trip_texts trip_formats summary
      (97 ∷ 98 ∷ []) ((99 ∷ []) ∷ []) (7 ∷ []) 4 (λ c h. ground (arith, h)) trip_reads refl
      (
        (refl, (((omega arith, omega arith), refl), (((omega arith, omega arith), refl), tt))),
        ((refl, (((omega arith, omega arith), refl), tt)), tt),
      )
      (plain_char 120 (omega arith, omega arith)) (refl, tt) plain_list
      (plain_char 50 (omega arith, omega arith)) (plain_char 49 (omega arith, omega arith)) refl

abbrev round : LoopInput
round = record { backoff_max = 8 * 10 ^ 9; now = 1; cancelled = false; shutting_down = false }

abbrev moved : LoopInput × Outcome × Session ℕ
moved = (round, some key_renamed, session_of 97)

abbrev broken : LoopInput × Outcome × Session ℕ
broken = (round, some failure, session_of 97)

three_again :
    All
      (λ a. a ≡ again)
      (actions (moved ∷ moved ∷ moved ∷ []) (record { backoff = 5; immediate = 0 }))
unfolding actions after_attempt
three_again = (refl, (refl, (refl, tt)))

actions_again_example : 3 ≤ 3
actions_again_example =
    actions_again (moved ∷ moved ∷ moved ∷ []) (record { backoff = 5; immediate = 0 }) three_again

doubled :
    actions (broken ∷ broken ∷ broken ∷ []) (first_retry (8 * 10 ^ 9))
    ≡ sleep (5 * 10 ^ 9) ∷ sleep (8 * 10 ^ 9) ∷ sleep (8 * 10 ^ 9) ∷ []
unfolding actions after_attempt back_off grow first_retry
doubled = refl

abbrev entry_of : ℕ → ℕ → RunEntry ℕ
entry_of sid off = record { sid = sid ∷ []; t = off ∷ []; src = []; off = off; dur = 5 }

-- Four entries of two sessions, cut to two.
cap_run_table-Capped_example :
    Capped ◌+◌
      (λ d. d)
      2
      (entry_of 1 0)
      (entry_of 1 5 ∷ entry_of 2 10 ∷ entry_of 2 15 ∷ [])
      (cap_run_table ◌+◌
        (λ d. d)
        2
        (entry_of 1 0 ∷ entry_of 1 5 ∷ entry_of 2 10 ∷ entry_of 2 15 ∷ []))
cap_run_table-Capped_example =
    cap_run_table-Capped ◌+◌ (λ d. d) 2 (entry_of 1 0)
      (entry_of 1 5 ∷ entry_of 2 10 ∷ entry_of 2 15 ∷ [])
