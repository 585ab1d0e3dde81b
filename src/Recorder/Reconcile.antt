-- ===== src/Recorder/Reconcile.antt =====
-- internal/recorder/manager.go: startSessionLocked and Reconcile.
pub mod Stops
pub mod Starts
pub mod Valid
use spectado_stream_recorder.Common.{
  ℕ, zero, suc, ◌+◌, ◌-◌, ◌*◌, ◌/◌, ◌%◌, ◌^◌, ◌≤◌, ◌<◌, min, max, ◌≡◌, refl, sym, ap, ◌∙◌, ◌≢◌, ◌↔◌,
  ◌⊎◌, inl, inr, Bool, true, false, not, ◌&&◌, ◌||◌, Option, none, some, List, [], ◌∷◌, ◌++◌, map,
  append-nil, append_assoc, arith, ltb, leb, ◌==◌, if◌then◌else◌, ltb→lt, lt→ltb, leb→le, ==_iff,
  Bool-cases, Option-cases, length, get_or, take, drop, All, length-append, take-append-drop,
  length-take, length-drop, take-length-append, drop-length-append, drop-drop, All-map, All-concat,
  Apart, Apart-concat, Bytes, at, IsByte,
}
use spectado_stream_recorder.Common.Text.{Text, text_eq, codes}
use spectado_stream_recorder.Schedule.Document.{Item, Schedule, get, present}
use spectado_stream_recorder.Schedule.Names.{safe_id}
use spectado_stream_recorder.Recorder.Session.{
  State, recording, FinishReason, ended, removed, rotated, Session, set_key, effective_stop_late,
  apply_item,
}
use spectado_stream_recorder.Recorder.Manager.{
  Config, Texts, Active, Manager, window_for, in_window, find_active, remove_active,
  mark_supervised, find_session, put_session, covered, key_for, free_id, lends_codec, lends_video,
  latest,
}

-- The calls behind a start that may fail, by the item's id: the sidecar's write and openActive.
pub record StartFaults : Type 0 where
  pub save_fails : Text → Bool
  pub open_fails : Text → Bool

-- The free disk space, if it is known.
abbrev pub DiskFree : Type 0
DiskFree = Option ℕ

unfoldable pub check_disk : Config → DiskFree → Bool → Bool
check_disk cfg none low = low
check_disk cfg (some free) low = ltb free cfg.min_free_disk

unfoldable pub scheduled : Option Schedule → List Item
scheduled none = []
scheduled (some sched) = sched.items

module _ {F : Type 0} where
  -- The session that startSessionLocked begins with, behind applyItem on the empty session.
  unfoldable pub blank_session : Config → Texts → Item → ℕ → Text → Session F
  blank_session cfg texts it now sid = record {
    id = it.id;
    safe_id = safe_id texts.digest it.id;
    session_id = sid;
    name = [];
    source = [];
    type = [];
    start = 0;
    end = 0;
    start_early = none;
    stop_late = none;
    stall_timeout = none;
    insecure_tls = false;
    key = [];
    key_template = [];
    codec = codes "auto";
    bitrate = [];
    headers = [];
    stream_info = [];
    resolved_codec = [];
    session_start = now;
    session_end = none;
    state = recording;
    bytes = 0;
    size = 0;
    trimmed_bytes = 0;
    restarts = 0;
    stalls = 0;
    write_errors = 0;
    finish_reason = none;
    last_error = [];
    record_last_error = [];
    exits = [];
    runs = [];
    schedule_note = false;
    suspended_at = none;
    key_renames = 0;
    media_uploaded = false;
    upload_etag = [];
    video = cfg.record_video;
    video_source = [];
    video_map = [];
    video_audio_map = [];
    video_seq = 0;
    video_capture_error = [];
    runs_coalesced = false;
    updated_at = 0;
    upload_attempts = 0;
    upload_blocked = false;
    next_upload_at = none;
    uploaded_at = none;
    remux_failures = 0;
    transcoded = false;
  }

  unfoldable pub take_codec : Option (Session F) → Session F → Session F
  take_codec none s = s
  take_codec (some o) s = record s { resolved_codec = o.resolved_codec }

  unfoldable pub take_video : Option (Session F) → Session F → Session F
  take_video none s = s
  take_video (some o) s = record s {
    video_source = o.video_source;
    video_map = o.video_map;
    video_audio_map = o.video_audio_map;
  }

  unfoldable pub reuse_codec : Item → List (Session F) → Session F → Session F
  unfolding take_codec
  reuse_codec it sessions s =
      if text_eq s.codec [] || text_eq s.codec (codes "auto")
      then take_codec (latest (lends_codec it) sessions 0 none) s
      else s

  unfoldable pub reuse_video : Item → List (Session F) → Session F → Session F
  unfolding take_video
  reuse_video it sessions s =
      if s.video then take_video (latest (lends_video it) sessions 0 none) s else s

  unfoldable pub pin_key : Text × ℕ × Bool → Session F → Session F
  pin_key (key, renames, inherited) s = set_key key (record s { key_renames = renames })

  -- The session that startSessionLocked puts into the table, under a free id.
  unfoldable pub new_session : Config → Texts → Item → ℕ → Text → List (Session F) → Session F
  unfolding blank_session reuse_codec reuse_video pin_key
  new_session cfg texts it now sid sessions =
      let s =
        reuse_video it sessions
          (reuse_codec it sessions (apply_item it (blank_session cfg texts it now sid))) in
      let t : Session F = if text_eq it.key [] then s else record s { key_template = it.key } in
      pin_key (key_for cfg texts sessions t) t

  -- One try more than there are sessions, so one of the ids is free.
  unfoldable pub session_id_for : Texts → Item → ℕ → List (Session F) → Option Text
  session_id_for texts it now sessions =
      let base = safe_id texts.digest it.id ++ codes "_" ++ texts.stamp now in
      free_id (suc (length sessions)) texts base 2 base sessions

  -- startSessionLocked; an error leaves the manager as it is.
  unfoldable pub start_session : Config → Texts → StartFaults → ℕ → Item → Manager F → Manager F
  start_session cfg texts io now it m = elim (session_id_for texts it now m.sessions) [
    | none ↦ m
    | some sid ↦ if io.save_fails it.id || io.open_fails it.id then m else record m {
      sessions = new_session cfg texts it now sid m.sessions ∷ m.sessions;
      active =
          record { item_id = it.id; session_id = sid; supervised = true; stopping = false }
          ∷ m.active;
    }
  ]

  -- What an active recording learns from the schedule, and whether its item is still there.
  unfoldable pub refresh : Option Schedule → Text → Session F → Session F × Bool
  refresh none id s = (s, true)
  refresh (some sched) id s = elim (get id sched.items) [
    | some it ↦ (record (apply_item it s) { schedule_note = false }, true)
    | none ↦
        if present id (some sched) then (record s { schedule_note = true }, true) else (s, false)
  ]

  -- Why an active recording stops, if it does.
  unfoldable pub stop_reason : Config → ℕ → Session F × Bool → Option FinishReason
  stop_reason cfg now (s, is_present) =
      if not is_present
      then some removed
      else if leb (s.end + effective_stop_late cfg.record_stop_late s) now
      then some ended
      else if ltb 0 cfg.max_session_duration && leb cfg.max_session_duration (now - s.session_start)
      then some rotated
      else none

  -- stopLocked up to its goroutine.
  unfoldable pub stop : Active → FinishReason → Manager F → Manager F
  stop ar reason m = record m {
    active = remove_active ar.item_id m.active;
    finalizing = (record ar { stopping = true }, reason) ∷ m.finalizing;
  }

  -- startSupervisorLocked, or stopLocked.
  unfoldable pub settle : Active → Option FinishReason → Manager F → Manager F
  unfolding stop
  settle ar none m = record m { active = mark_supervised ar.item_id m.active }
  settle ar (some reason) m = stop ar reason m

  -- The round of Reconcile's first loop for one active recording. An active recording's session is
  -- always in the table.
  unfoldable pub visit : Config → ℕ → Active → Manager F → Manager F
  unfolding settle
  visit cfg now ar m = if ar.stopping then m else (elim (find_session ar.session_id m.sessions) [
    | none ↦ m
    | some s ↦
        let seen = refresh m.sched ar.item_id s in
        settle ar (stop_reason cfg now seen) (record m { sessions = put_session seen.0 m.sessions })
  ])

  unfoldable pub visit_all : Config → ℕ → List Active → Manager F → Manager F
  visit_all cfg now [] m = m
  visit_all cfg now (ar ∷ ars) m = visit_all cfg now ars (visit cfg now ar m)

  -- Why an item does not start.
  abbrev pub is_full : Config → Manager F → Bool
  is_full cfg m = ltb 0 cfg.max_recordings && leb cfg.max_recordings (length m.active)

  -- The round of the second loop for one item.
  unfoldable pub consider : Config → Texts → StartFaults → ℕ → Item → Manager F → Manager F
  consider cfg texts io now it m = elim (find_active it.id m.active) [
    | some ar ↦ m
    | none ↦
        if not (in_window now (window_for cfg it))
          || covered it m.sessions
          || is_full cfg m
          || m.disk_low
        then m
        else start_session cfg texts io now it m
  ]

  unfoldable pub consider_all : Config → Texts → StartFaults → ℕ → List Item → Manager F → Manager F
  consider_all cfg texts io now [] m = m
  consider_all cfg texts io now (it ∷ its) m =
      consider_all cfg texts io now its (consider cfg texts io now it m)

  unfoldable pub reconcile : Config → Texts → StartFaults → DiskFree → ℕ → Manager F → Manager F
  unfolding visit_all consider_all scheduled
  reconcile cfg texts io free now m =
      if m.shutting_down
      then m
      else (let n =
            visit_all cfg now m.active (record m { disk_low = check_disk cfg free m.disk_low }) in
          consider_all cfg texts io now (scheduled m.sched) n)
