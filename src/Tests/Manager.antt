-- ===== src/Tests/Manager.antt =====
-- internal/recorder/manager.go at a manager of two recordings.
use spectado_stream_recorder.Common.{
  ℕ, ◌≡◌, refl, ap, ◌≢◌, ◌⊎◌, inl, inr, true, false, Option, none, some, [], ◌∷◌, arith, ◌==◌,
  get_or, All,
}
use spectado_stream_recorder.Common.Text.{Text, text_eq}
use spectado_stream_recorder.Schedule.Document.{get, find_invalid, present}
use spectado_stream_recorder.Recorder.Session.{
  FinishReason, removed, Session, effective_stop_late, source_changed, apply_item,
}
use spectado_stream_recorder.Recorder.Manager.{Config, Texts, Active, Manager, find_session}
use spectado_stream_recorder.Recorder.Reconcile.{
  StartFaults, blank_session, refresh, stop_reason, scheduled, reconcile,
}
use spectado_stream_recorder.Recorder.Reconcile.Starts.{Settled, reconcile-Settled}
use spectado_stream_recorder.Recorder.Reconcile.Stops.{
  Says, verdict, stops_onto, reconcile-finalizing, stop_reason-refresh,
}
use spectado_stream_recorder.Recorder.Reconcile.Valid.{IsValid, reconcile-IsValid}
use spectado_stream_recorder.Tests.Schedule.{item, entries, parsed, entries-parsed}

abbrev pub config : Config
config = record {
  record_start_early = 1;
  record_stop_late = 2;
  max_session_duration = 0;
  max_recordings = 3;
  min_free_disk = 100;
  record_video = false;
  s3_prefix = [];
}

-- A number is written as one character of its own.
abbrev pub texts : Texts
texts = record {
  digest = λ t. 97 ∷ [];
  stamp = λ t. 98 ∷ [];
  date = λ t. 99 ∷ [];
  itoa = λ n. n ∷ [];
  is_space = λ c. c == 32;
}

itoa_apart : (i j : ℕ) → texts.itoa i ≡ texts.itoa j → i ≡ j
itoa_apart i j e = ap (λ (t : Text). get_or t 0 0) e

abbrev no_faults : StartFaults
no_faults = record { save_fails = λ t. false; open_fails = λ t. false }

abbrev pub active_of : ℕ → Active
active_of id = record {
  item_id = id ∷ [];
  session_id = id ∷ [];
  supervised = true;
  stopping = false;
}

abbrev pub session_of : ℕ → Session ℕ
session_of id = blank_session config texts (item id 20) 0 (id ∷ [])

-- Item 97 is in the schedule, item 100 is not, and item 98 is about to start.
abbrev pub two : Manager ℕ
two = record {
  sched = some parsed;
  active = active_of 97 ∷ active_of 100 ∷ [];
  sessions = session_of 97 ∷ session_of 100 ∷ [];
  finalizing = [];
  disk_low = false;
  shutting_down = false;
}

other_ids : ◌≢◌ {A = Text} (97 ∷ []) (100 ∷ [])
other_ids e = let h : 97 ≡ 100 = ap (λ (t : Text). get_or t 0 0) e in omega (arith, h)

pub two-IsValid : IsValid two
unfolding find_session blank_session text_eq
two-IsValid = record {
  separate = (((other_ids, other_ids), tt), (tt, tt));
  known = (λ e. cc, (λ e. cc, tt));
}

-- The verdicts on the two: one goes on, the other is stopped as removed.
two_verdicts :
    (verdict config 15 two.sched two.sessions (active_of 97) ≡ none)
    × (verdict config 15 two.sched two.sessions (active_of 100) ≡ some removed)
unfolding find_session blank_session text_eq stop_reason refresh get present find_invalid apply_item
    source_changed effective_stop_late
two_verdicts = (refl, refl)

reconcile-finalizing_example :
    (why : Active → Option FinishReason) × All
      (λ a. Says config 15 two.sched two.sessions a (why a))
      two.active
    × ((reconcile config texts no_faults none 15 two).finalizing ≡ stops_onto why two.active [])
reconcile-finalizing_example =
    reconcile-finalizing config texts no_faults none 15 two refl two-IsValid.separate

reconcile-Settled_example :
    All (Settled config 15 (reconcile config texts no_faults none 15 two)) (scheduled two.sched)
reconcile-Settled_example =
    reconcile-Settled config texts no_faults 15 itoa_apart (λ id. (refl, refl)) none two refl

reconcile-IsValid_example : IsValid (reconcile config texts no_faults none 15 two)
reconcile-IsValid_example = reconcile-IsValid config texts no_faults 15 none two two-IsValid

stop_reason-refresh_example :
    let s = session_of 99 in
    (stop_reason config 15 (refresh (some parsed) (99 ∷ []) s) ≢ some removed)
    × ((get (99 ∷ []) parsed.items ≢ none)
        ⊎ (((refresh (some parsed) (99 ∷ []) s).0.end ≡ s.end)
            × ((refresh (some parsed) (99 ∷ []) s).0.source ≡ s.source)
            × ((refresh (some parsed) (99 ∷ []) s).0.stop_late ≡ s.stop_late)))
stop_reason-refresh_example =
    stop_reason-refresh config 15 entries (99 ∷ []) (session_of 99) entries-parsed (λ e. cc)
      (inr (inr (inl refl)))
