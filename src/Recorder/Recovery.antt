-- ===== src/Recorder/Recovery.antt =====
-- internal/recorder/manager.go: Recover over the sessions that scanSessions read, with openActive on
-- a file that is resumed and migrateKeyLocked. What is on disk is an argument; that a sidecar cannot
-- be saved is only logged, and left out like the text of LastError. Queue.antt has the uploads that
-- Recover starts.
pub mod Uploads
pub mod Queue
use spectado_stream_recorder.Common.{
  ℕ, zero, suc, ◌+◌, ◌-◌, ◌*◌, ◌/◌, ◌%◌, ◌^◌, ◌≤◌, ◌<◌, min, max, ◌≡◌, refl, sym, ap, ◌∙◌, ◌≢◌, ◌↔◌,
  ◌⊎◌, inl, inr, Bool, true, false, not, ◌&&◌, ◌||◌, Option, none, some, List, [], ◌∷◌, ◌++◌, map,
  append-nil, append_assoc, arith, ltb, leb, ◌==◌, if◌then◌else◌, ltb→lt, lt→ltb, leb→le, ==_iff,
  Bool-cases, Option-cases, length, get_or, take, drop, All, length-append, take-append-drop,
  length-take, length-drop, take-length-append, drop-length-append, drop-drop, All-map, All-concat,
  Apart, Apart-concat, Bytes, at, IsByte,
}
use spectado_stream_recorder.Common.Text.{Text, text_eq, text_eq_refl, has_suffix, to_lower}
use spectado_stream_recorder.Adts.Tail.{TrimFaults, Trimmed, trim_partial_tail}
use spectado_stream_recorder.Recorder.Runs.{History, fix_open_run}
use spectado_stream_recorder.Recorder.Session.{
  State, recording, finalized, uploading, uploaded, kept, failed, FinishReason, superseded, error,
  is_terminal, Session, object_ext, set_key,
}
use spectado_stream_recorder.Recorder.Manager.{
  Config, Texts, Active, Manager, find_active, remove_active, find_session, put_session, key_for,
  is_some,
}
use spectado_stream_recorder.Recorder.Reconcile.{pin_key}

-- The disk, by session id: the .aac's contents if it exists, the calls of openActive and of
-- TrimPartialTail that fail, and whether the .m4a of a kept session is missing.
pub record Disk : Type 0 where
  pub audio : Text → Option Bytes
  pub trim : Text → TrimFaults
  pub mkdir_fails : Text → Bool
  pub open_fails : Text → Bool
  pub stat_fails : Text → Bool
  pub output_missing : Text → Bool

-- TrimPartialTail's report and the file's contents behind it; a missing file is no error here.
unfoldable pub trim_audio : TrimFaults → Option Bytes → ℕ × Bytes
trim_audio io none = (0, [])
trim_audio io (some file) = elim (trim_partial_tail io file) [
  | none ↦ (0, file)
  | some t ↦ (t.removed, t.contents)
]

-- openActive of a session that is resumed: the bytes trimmed, and the file's size if it opens.
unfoldable pub open_resumed : Disk → Text → ℕ × Option ℕ
unfolding trim_audio
open_resumed disk sid =
    if disk.mkdir_fails sid
    then (0, none)
    else (let (removed, file) = trim_audio (disk.trim sid) (disk.audio sid) in
        if disk.open_fails sid
        then (removed, none)
        else (removed, some (if disk.stat_fails sid then 0 else length file)))

-- The manager, and the ids of the sessions for the uploader, the last in front.
pub record Recovering (F : Type 0) : Type 0 where
  pub manager : Manager F
  pub to_upload : List Text

module _ {F : Type 0} where
  -- An assignment to the table of sessions.
  unfoldable pub store_session : Session F → List (Session F) → List (Session F)
  store_session s ss = if is_some (find_session s.session_id ss) then put_session s ss else s ∷ ss

  -- migrateKeyLocked
  unfoldable pub migrate_key : Config → Texts → List (Session F) → Session F → Session F
  migrate_key cfg texts sessions s =
      if is_terminal s.state || has_suffix (to_lower s.key) object_ext
      then s
      else pin_key (key_for cfg texts sessions s) s

  unfoldable pub finish_as : FinishReason → ℕ → Session F → Session F
  finish_as reason now s = record s {
    state = finalized;
    finish_reason = some reason;
    session_end = some now;
  }

  -- fixOpenRun on a session.
  unfoldable pub close_open_run : ℕ → ℕ → Session F → Session F
  close_open_run bytes now s =
      let h = fix_open_run bytes now (record {
        runs = s.runs;
        runs_coalesced = s.runs_coalesced;
        suspended_at = s.suspended_at;
      }) in
      record s { runs = h.runs }

  unfoldable pub set_session : Session F → Manager F → Manager F
  unfolding store_session
  set_session s m = record m { sessions = store_session s m.sessions }

  -- Another unfinished session of the same item, found before: it is finalized.
  unfoldable pub supersede : ℕ → Text → Recovering F → Recovering F
  unfolding finish_as set_session
  supersede now id r = elim (find_active id r.manager.active) [
    | none ↦ r
    | some prev ↦
        let m = record r.manager { active = remove_active id r.manager.active } in
        elim (find_session prev.session_id m.sessions) [
          | none ↦ record { manager = m; to_upload = prev.session_id ∷ r.to_upload }
          | some p ↦ record {
            manager = set_session (finish_as superseded now p) m;
            to_upload = prev.session_id ∷ r.to_upload;
          }
        ]
  ]

  -- An unfinished session is resumed, or finalized if its file does not open.
  unfoldable pub resume : Disk → ℕ → Session F → Recovering F → Recovering F
  unfolding finish_as set_session close_open_run
  resume disk now s r =
      let opened = open_resumed disk s.session_id in
      let t : Session F = record s {
        session_end = none;
        trimmed_bytes = s.trimmed_bytes + opened.0;
      } in
      (elim opened.1 [
        | none ↦ record {
          manager = set_session (finish_as error now t) r.manager;
          to_upload = s.session_id ∷ r.to_upload;
        }
        | some bytes ↦
            let m =
              set_session (record (close_open_run bytes now t) { suspended_at = none }) r.manager in
            record r {
              manager = record m {
                active =
                    record {
                      item_id = s.id;
                      session_id = s.session_id;
                      supervised = false;
                      stopping = false;
                    }
                    ∷ m.active;
              };
            }
      ])

  abbrev pub queue : Session F → Recovering F → Recovering F
  queue s r = record {
    manager = set_session (record s { state = finalized }) r.manager;
    to_upload = s.session_id ∷ r.to_upload;
  }

  -- The round of Recover's loop behind the migration, by the session's state.
  unfoldable pub recover_session : Bool → Disk → ℕ → Session F → State → Recovering F → Recovering F
  unfolding supersede resume set_session
  recover_session uploads disk now s recording r = resume disk now s (supersede now s.id r)
  recover_session uploads disk now s finalized r = queue s r
  recover_session uploads disk now s uploading r = queue s r
  recover_session uploads disk now s uploaded r =
      if is_some (disk.audio s.session_id) then queue s r else r
  recover_session uploads disk now s kept r =
      if uploads
        || not (is_some (disk.audio s.session_id))
        || not (disk.output_missing s.session_id)
      then r
      else record r { to_upload = s.session_id ∷ r.to_upload }
  recover_session uploads disk now s failed r = r

  unfoldable pub recover :
      Config → Texts → Bool → Disk → ℕ → List (Session F) → Recovering F → Recovering F
  unfolding migrate_key set_session recover_session
  recover cfg texts uploads disk now [] r = r
  recover cfg texts uploads disk now (s ∷ ss) r =
      let t = migrate_key cfg texts r.manager.sessions s in
      recover cfg texts uploads disk now ss (
        recover_session uploads disk now t t.state (record r { manager = set_session t r.manager }))
