-- ===== src/Tests/Polling.antt =====
-- Polls at the manager of Tests/Manager.antt.
use spectado_stream_recorder.Common.{ℕ, ◌≡◌, refl, inl, true, false, none, some, [], ◌∷◌}
use spectado_stream_recorder.Recorder.Polling.{
  fetch_failed, not_modified, Poll, Polled, poll_all, poll_all-consecutive_failures,
}
use spectado_stream_recorder.Tests.Manager.{config, texts, two}

abbrev failing : Poll
failing = record {
  now = 5;
  result = fetch_failed;
  free = none;
  faults = record { save_fails = λ t. false; open_fails = λ t. false };
}

abbrev unchanged : Poll
unchanged = record failing { result = not_modified }

abbrev polled : Polled ℕ
polled = record {
  manager = two;
  info = record {
    loaded = true;
    last_attempt = none;
    last_success = none;
    last_error = false;
    last_error_at = none;
    consecutive_failures = 4;
    item_count = 2;
    invalid_items = [];
  };
}

poll_all-consecutive_failures_example :
    let end = poll_all config texts (failing ∷ unchanged ∷ failing ∷ failing ∷ []) polled in
    (end.info.consecutive_failures ≡ 2) × (end.info.last_success ≡ some 5)
poll_all-consecutive_failures_example =
    poll_all-consecutive_failures config texts (failing ∷ []) (failing ∷ failing ∷ []) unchanged
      polled (inl refl) (refl, (refl, tt))
