-- ===== src/Recorder/Lifecycle.antt =====
-- internal/recorder/manager.go: finalize, Shutdown and persist, endRun of ffmpeg.go and enqueueUpload
-- of upload.go, on the state of the manager; and the manager as a machine whose goroutines take their
-- steps one after the other. What the capture has counted is an argument. Logs, metrics and the
-- writing of sidecars are left out.
pub mod Steps
use spectado_stream_recorder.Common.{
  ℕ, zero, suc, ◌+◌, ◌-◌, ◌*◌, ◌/◌, ◌%◌, ◌^◌, ◌≤◌, ◌<◌, min, max, ◌≡◌, refl, sym, ap, ◌∙◌, ◌≢◌, ◌↔◌,
  ◌⊎◌, inl, inr, Bool, true, false, not, ◌&&◌, ◌||◌, Option, none, some, List, [], ◌∷◌, ◌++◌, map,
  append-nil, append_assoc, arith, ltb, leb, ◌==◌, if◌then◌else◌, ltb→lt, lt→ltb, leb→le, ==_iff,
  Bool-cases, Option-cases, if_both, if_cases, option_both, nat_both, length, get_or, take, drop,
  All, length-append, take-append-drop, length-take, length-drop, take-length-append,
  drop-length-append, drop-drop, All-map, All-concat, Apart, Apart-concat, Bytes, at, IsByte,
}
use spectado_stream_recorder.Common.Text.{Text, text_eq}
use spectado_stream_recorder.Schedule.Document.{Schedule}
use spectado_stream_recorder.Recorder.Runs.{Run}
use spectado_stream_recorder.Recorder.Session.{
  State, recording, finalized, FinishReason, shutdown, Session,
}
use spectado_stream_recorder.Recorder.Manager.{
  Config, Texts, Active, Manager, find_session, put_session,
}
use spectado_stream_recorder.Recorder.Reconcile.{StartFaults, DiskFree, reconcile}
use spectado_stream_recorder.Recorder.Polling.{Poll, ScheduleInfo, poll_result}

-- What an active recording has counted, of the run that is open and of the whole file, and the size
-- that os.Stat reads.
pub record Counted (F : Type 0) : Type 0 where
  pub run_closed : Bool
  pub started : Bool
  pub run_bytes : ℕ
  pub run_frames : ℕ
  pub run_seconds : F
  pub video_file : Text
  pub drop_video : Bool
  -- the counter, and savedBytes, what persist saved of it last
  pub bytes : ℕ
  pub saved_bytes : ℕ
  pub file_size : Option ℕ

-- The last TS file of a run that is dropped.
unfoldable pub drop_last_file : Text → List Text → List Text
drop_last_file file [] = []
drop_last_file file (f ∷ []) = if text_eq f file then [] else f ∷ []
drop_last_file file (f ∷ g ∷ fs) = f ∷ drop_last_file file (g ∷ fs)

-- The goroutines of uploads that have been started, by session id, beside the manager.
pub record Machine (F : Type 0) : Type 0 where
  pub manager : Manager F
  pub upload_loops : List Text

abbrev pub is_shutdown : FinishReason → Bool
is_shutdown shutdown = true
is_shutdown _ = false

-- Shutdown's first loop: the recordings that are not stopping yet, and the mark on all.
unfoldable pub mark_stopping : List Active → List Active
mark_stopping [] = []
mark_stopping (a ∷ as') = record a { stopping = true } ∷ mark_stopping as'

unfoldable pub not_stopping : List Active → List (Active × FinishReason)
not_stopping [] = []
not_stopping (a ∷ as') =
    let rest = not_stopping as' in
    if a.stopping then rest else (record a { stopping = true }, shutdown) ∷ rest

unfoldable pub has_loop : Text → List Text → Bool
has_loop sid [] = false
has_loop sid (t ∷ ts) = text_eq t sid || has_loop sid ts

abbrev size_or : Option ℕ → ℕ → ℕ
size_or none old = old
size_or (some n) old = n

module _ {F : Type 0} where
  -- openRun: the last run, if it has no end.
  unfoldable pub change_open_run : (Run F → Run F) → List (Run F) → List (Run F)
  change_open_run f [] = []
  change_open_run f (r ∷ []) = elim r.ended_at [ none ↦ f r ∷ [] | some t ↦ r ∷ [] ]
  change_open_run f (r ∷ q ∷ rs) = r ∷ change_open_run f (q ∷ rs)

  abbrev close_run : ℕ → Counted F → Run F → Run F
  close_run now c r = record r {
    ended_at = some now;
    bytes = c.run_bytes;
    frames = c.run_frames;
    duration_seconds = c.run_seconds;
    video_files = if c.drop_video then drop_last_file c.video_file r.video_files else r.video_files;
  }

  -- endRun
  unfoldable pub end_run : ℕ → Counted F → Session F → Session F
  unfolding change_open_run drop_last_file
  end_run now c s =
      if c.run_closed || not c.started
      then s
      else record s { runs = change_open_run (close_run now c) s.runs }

  -- finalize on its session.
  unfoldable pub finalize_session : ℕ → FinishReason → Counted F → Session F → Session F
  unfolding end_run
  finalize_session now reason c s =
      let t : Session F = record (end_run now c s) { bytes = c.bytes } in
      if is_shutdown reason
      then record t { state = recording; suspended_at = some now }
      else record t {
        session_end = some now;
        finish_reason = some reason;
        state = finalized;
        size = size_or c.file_size t.size;
      }

  -- enqueueUpload
  unfoldable pub enqueue_upload : Text → Machine F → Machine F
  unfolding has_loop
  enqueue_upload sid x =
      if x.manager.shutting_down || has_loop sid x.upload_loops
      then x
      else record x { upload_loops = sid ∷ x.upload_loops }

  abbrev pub put : Session F → Manager F → Manager F
  put s m = record m { sessions = put_session s m.sessions }

  -- finalize of a recording, behind which its goroutine is gone.
  unfoldable pub finalize : ℕ → Counted F → Active × FinishReason → Machine F → Machine F
  unfolding finalize_session enqueue_upload
  finalize now c (ar, reason) x = elim (find_session ar.session_id x.manager.sessions) [
    | none ↦ x
    | some s ↦
        let y : Machine F = record x {
          manager = put (finalize_session now reason c s) x.manager;
        } in
        if is_shutdown reason then y else enqueue_upload ar.session_id y
  ]

  -- Shutdown up to its wait for the goroutines.
  unfoldable pub shut_down : Machine F → Machine F
  unfolding mark_stopping not_stopping
  shut_down x = record x {
    manager = record x.manager {
      shutting_down = true;
      active = mark_stopping x.manager.active;
      finalizing = not_stopping x.manager.active ++ x.manager.finalizing;
    };
  }

  abbrev count_run : Counted F → Run F → Run F
  count_run c r = record r {
    bytes = c.run_bytes;
    frames = c.run_frames;
    duration_seconds = c.run_seconds;
  }

  -- persist on the session of one active recording.
  unfoldable pub persist : Counted F → Active → Manager F → Manager F
  unfolding change_open_run
  persist c ar m = elim (find_session ar.session_id m.sessions) [
    | none ↦ m
    | some s ↦
        put
          (record s {
            runs = change_open_run (count_run c) s.runs;
            bytes = if c.bytes == c.saved_bytes then s.bytes else c.bytes;
          })
          m
  ]

module _ {F : Type 0} (cfg : Config) (texts : Texts) where
  -- A step of the recording side: a round of Reconcile, a poll of the schedule (with the round behind
  -- it), a finalize of a recording that has stopped, the persister at one recording, Shutdown, and the
  -- end of an upload's goroutine. The attempts of an upload and retention are no steps.
  pub data Step : Machine F → Machine F → Type 0 where
    ticks :
        (io : StartFaults) (free : DiskFree) (now : ℕ) (x : Machine F)
        → Step x (record x { manager = reconcile cfg texts io free now x.manager })
    finalizes :
        (now : ℕ) (c : Counted F) (before after : List (Active × FinishReason))
        (entry : Active × FinishReason) (x : Machine F)
        → x.manager.finalizing ≡ before ++ entry ∷ after
        → Step x (
            finalize now c entry
              (record x { manager = record x.manager { finalizing = before ++ after } }))
    persists :
        (c : Counted F) (ar : Active) (x : Machine F)
        → Step x (record x { manager = persist c ar x.manager })
    shuts_down : (x : Machine F) → Step x (shut_down x)
    polls :
        (poll : Poll) (info : ScheduleInfo) (x : Machine F)
        → Step x (record x {
          manager =
              (poll_result cfg texts poll poll.result
                (record { manager = x.manager; info = info })).manager;
        })
    ends_upload :
        (before after : List Text) (sid : Text) (x : Machine F)
        → x.upload_loops ≡ before ++ sid ∷ after
        → Step x (record x { upload_loops = before ++ after })

  -- What the steps lead to.
  pub data Reachable (start : Machine F) : Machine F → Type 0 where
    here : Reachable start start
    next : (x y : Machine F) → Reachable start x → Step x y → Reachable start y
