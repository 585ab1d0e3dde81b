-- ===== src/Recorder/Uploads/Group.antt =====
-- internal/recorder/upload.go: the sessions of one object. claimGroup, classifyMembers, failMember,
-- noteRemuxFailure, forgetKey, renameGroup and completeGroup, and withSuffix of session.go. The
-- pointer to a session is its id, and the table is a list whose order stands for the order in which a
-- round goes through the map. Logging and metrics are left out, and so are the fields and
-- files of a video companion. That a sidecar cannot be saved matters in completeGroup only.
use spectado_stream_recorder.Common.{
  ℕ, zero, suc, ◌+◌, ◌*◌, ◌^◌, Bool, true, false, not, ◌&&◌, ◌||◌, Option, none, some, List, [],
  ◌∷◌, ◌++◌, ltb, leb, ◌==◌, if◌then◌else◌,
}
use spectado_stream_recorder.Common.Text.{Text, text_eq, codes, trim_suffix}
use spectado_stream_recorder.Recorder.Session.{
  State, recording, finalized, uploading, uploaded, failed, is_terminal, Session, set_key,
}
use spectado_stream_recorder.Recorder.Manager.{Texts}
use spectado_stream_recorder.Recorder.Retention.{FileStat, size, missing, unknown}
use spectado_stream_recorder.Recorder.Uploads.Manifest.{Metadata}

abbrev pub max_key_renames : ℕ
max_key_renames = 3

-- How an attempt fails. The error that a call of the storage client wraps is told apart the same way.
pub data UploadError : Type 0 where
  deferred key_changed key_renamed object_changed object_exists permanent failure : UploadError

-- `none` is a nil error.
abbrev pub Outcome : Type 0
Outcome = Option UploadError

-- uploadMember; `start` is SessionStart, which never changes.
pub record Member : Type 0 where
  pub session_id : Text
  pub start : ℕ
  pub digest : Text
  pub size : ℕ
  pub frames : ℕ

-- An object that Upload has stored: a new one for an empty `replaces`, else in place of the object
-- with that ETag.
pub record Stored : Type 0 where
  pub key : Text
  pub replaces : Text
  pub sessions : List Text
  pub metadata : Metadata

-- The manager's state that an attempt reads and writes, and what the attempt has done outside: the
-- objects it stored and the captures it removed, the last in front.
pub record Attempt (F : Type 0) : Type 0 where
  pub sessions : List (Session F)
  pub remux_failures : Text → ℕ
  -- mergeProbed and mergeAllowed
  pub merge_allowed : Option Bool
  pub stored : List Stored
  pub removed : List Text

abbrev pub Result : Type 0 → Type 0
Result F = Outcome × Attempt F

-- path.Ext: the text from the last dot of the last element.
unfoldable pub file_ext : Text → Text
file_ext [] = []
file_ext (c ∷ cs) =
    let rest = file_ext cs in
    if not (text_eq rest []) then rest else (if c == 46 && no_slash cs then c ∷ cs else [])
  where
    no_slash : Text → Bool
    no_slash [] = true
    no_slash (d ∷ ds) = not (d == 47) && no_slash ds

-- withSuffix
unfoldable pub with_suffix : Text → Text → Text
unfolding file_ext
with_suffix key suffix = trim_suffix key (file_ext key) ++ suffix ++ file_ext key

abbrev pub member_ids : List Member → List Text
member_ids [] = []
member_ids (m ∷ ms) = m.session_id ∷ member_ids ms

abbrev pub is_recording : State → Bool
is_recording recording = true
is_recording _ = false

-- Waiting for an upload or in one.
abbrev pub is_waiting : State → Bool
is_waiting finalized = true
is_waiting uploading = true
is_waiting _ = false

-- deferInterval, in nanoseconds
abbrev pub defer_interval : ℕ
defer_interval = 30 * 10 ^ 9

-- claimGroup's two results; a nil group is an empty one.
pub data Claim (F : Type 0) : Type 0 where
  refused : UploadError → Claim F
  claimed : List (Session F) → Claim F

abbrev pub claimed_group : {F : Type 0} → Claim F → List (Session F)
claimed_group (refused e) = []
claimed_group (claimed group) = group

-- The switch of classifyMembers: the members with audio, those without a file, and the ids of those
-- whose file is empty.
abbrev pub place :
    FileStat
    → Member
    → List Member × List Member × List Text
    → List Member × List Member × List Text
place (size zero) m (local, absent, empty) = (local, absent, m.session_id ∷ empty)
place (size (suc n)) m (local, absent, empty) = (record m { size = suc n } ∷ local, absent, empty)
place missing m (local, absent, empty) = (local, m ∷ absent, empty)
place unknown m (local, absent, empty) = (local, m ∷ absent, empty)

-- The loop over the sidecars of completeGroup: a capture is removed when its own sidecar is written.
unfoldable pub write_sidecars : (Text → Bool) → List Text → Bool × List Text → Bool × List Text
write_sidecars save_fails [] (unsaved, removed) = (unsaved, removed)
write_sidecars save_fails (sid ∷ sids) (unsaved, removed) =
    write_sidecars save_fails sids
      (if save_fails sid then (true, removed) else (unsaved, sid ∷ removed))

module _ {F : Type 0} where
  -- A change through the pointer to a session.
  unfoldable pub update_session :
      (Session F → Session F) → Text → List (Session F) → List (Session F)
  update_session f sid [] = []
  update_session f sid (s ∷ ss) =
      (if text_eq s.session_id sid then f s else s) ∷ update_session f sid ss

  unfoldable pub update_all :
      (Session F → Session F) → List Text → List (Session F) → List (Session F)
  unfolding update_session
  update_all f [] ss = ss
  update_all f (sid ∷ sids) ss = update_all f sids (update_session f sid ss)

  abbrev pub ids : List (Session F) → List Text
  ids [] = []
  ids (s ∷ ss) = s.session_id ∷ ids ss

  unfoldable pub same_object : Session F → Text → Session F → Bool
  same_object s key o = text_eq o.id s.id && text_eq o.key key

  -- The session waits for its upload to the object.
  abbrev pub belongs : Session F → Text → Session F → Bool
  belongs s key o = same_object s key o && is_waiting o.state

  -- A sibling is still capturing into the same object.
  unfoldable pub capturing : Session F → Text → List (Session F) → Bool
  capturing s key [] = false
  capturing s key (o ∷ os) = same_object s key o && is_recording o.state || capturing s key os

  -- sort.Slice by SessionStart; sessions that start together stay in the order of the table.
  unfoldable pub insert_by_start : Session F → List (Session F) → List (Session F)
  insert_by_start s [] = s ∷ []
  insert_by_start s (o ∷ os) =
      let rest = insert_by_start s os in
      if ltb o.session_start s.session_start then o ∷ rest else s ∷ o ∷ os

  unfoldable pub group_of : Session F → Text → List (Session F) → List (Session F)
  unfolding insert_by_start
  group_of s key [] = []
  group_of s key (o ∷ os) =
      let rest = group_of s key os in if belongs s key o then insert_by_start o rest else rest

  abbrev pub start_uploading : Session F → Session F
  start_uploading o = record o { state = uploading; next_upload_at = none }

  abbrev defer_until : ℕ → Session F → Session F
  defer_until next o = record o { next_upload_at = some next }

  -- The sibling's deferral, and the claim itself.
  abbrev pub deferral : ℕ → Session F → Attempt F → Claim F × Attempt F
  deferral now s st = (
    refused deferred,
    record st {
      sessions = update_session (defer_until (now + defer_interval)) s.session_id st.sessions;
    },
  )

  abbrev pub take_group : Session F → Text → Attempt F → Claim F × Attempt F
  take_group s key st =
      let group = group_of s key st.sessions in
      (claimed group, record st { sessions = update_all start_uploading (ids group) st.sessions })

  -- claimGroup
  unfoldable pub claim_group : ℕ → Session F → Text → Attempt F → Claim F × Attempt F
  unfolding capturing group_of update_session update_all
  claim_group now s key st =
      if is_terminal s.state
      then (claimed [], st)
      else (if not (text_eq s.key key)
          then (refused key_changed, st)
          else (if capturing s key st.sessions then deferral now s st else take_group s key st))

  -- failMember
  abbrev pub give_up : Text → Session F → Session F
  give_up reason s = record s { state = failed; last_error = reason; next_upload_at = none }

  unfoldable pub fail_members : Text → List Text → Attempt F → Attempt F
  unfolding update_all
  fail_members reason sids st = record st {
    sessions = update_all (give_up reason) sids st.sessions;
  }

  unfoldable pub member_of : (Text → Text) → Session F → Member
  member_of digest o = record {
    session_id = o.session_id;
    start = o.session_start;
    digest = digest o.session_id;
    size = 0;
    frames = 0;
  }

  unfoldable pub place_all :
      (Text → FileStat) → (Text → Text) → List (Session F) → List Member × List Member × List Text
  unfolding member_of
  place_all files digest [] = ([], [], [])
  place_all files digest (o ∷ os) =
      place (files o.session_id) (member_of digest o) (place_all files digest os)

  -- classifyMembers
  unfoldable pub classify_members :
      (Text → FileStat)
      → (Text → Text)
      → List (Session F)
      → Attempt F
      → List Member × List Member × Attempt F
  unfolding place_all fail_members
  classify_members files digest group st =
      let (local, absent, empty) = place_all files digest group in
      (local, absent, fail_members (codes "empty recording (no data captured)") empty st)

  -- forgetKey and an assignment to the counts of remux failures.
  unfoldable pub set_failures : Text → ℕ → Attempt F → Attempt F
  set_failures key n st = record st {
    remux_failures = λ k. if text_eq k key then n else st.remux_failures k;
  }

  abbrev pub forget_key : Text → Attempt F → Attempt F
  forget_key key st = set_failures key 0 st

  abbrev pub mirror_failures : ℕ → Session F → Session F
  mirror_failures n o = record o { remux_failures = n }

  -- noteRemuxFailure; the count it returns is that of the state.
  unfoldable pub note_remux_failure : Text → List (Session F) → Attempt F → Attempt F
  unfolding set_failures update_all
  note_remux_failure key group st =
      let n = st.remux_failures key + 1 in
      set_failures key n
        (record st { sessions = update_all (mirror_failures n) (ids group) st.sessions })

  unfoldable pub most_renames : List (Session F) → ℕ
  most_renames [] = 0
  most_renames (o ∷ os) =
      let rest = most_renames os in if ltb rest o.key_renames then o.key_renames else rest

  abbrev pub move_to : Text → ℕ → Session F → Session F
  move_to key renames o = record (set_key key o) {
    key_renames = renames;
    state = finalized;
    upload_attempts = o.upload_attempts + 1;
  }

  -- renameGroup; `key` is the key of every session of the group.
  unfoldable pub rename_group : Texts → Text → List (Session F) → Attempt F → Result F
  unfolding most_renames update_all with_suffix set_failures
  rename_group texts key group st =
      let renames = most_renames group in
      if leb max_key_renames renames
      then (some permanent, st)
      else (let new_key = with_suffix key (codes "-" ++ texts.itoa (renames + 2)) in
          (
            some key_renamed,
            forget_key key (record st {
              sessions = update_all (move_to new_key (renames + 1)) (ids group) st.sessions;
            }),
          ))

  abbrev pub mark_uploaded : ℕ → Text → Text → Bool → Session F → Session F
  mark_uploaded now key etag transcoded s = record (set_key key s) {
    media_uploaded = true;
    state = uploaded;
    uploaded_at = some now;
    upload_etag = etag;
    upload_attempts = s.upload_attempts + 1;
    upload_blocked = false;
    last_error = [];
    next_upload_at = none;
    remux_failures = 0;
    transcoded = transcoded || s.transcoded;
  }

  -- completeGroup
  unfoldable pub complete_group :
      (Text → Bool) → ℕ → Text → Text → Bool → List Member → Attempt F → Result F
  unfolding update_all set_failures write_sidecars
  complete_group save_fails now key etag transcoded members st =
      let (unsaved, removed) = write_sidecars save_fails (member_ids members) (false, st.removed) in
      (
        (if unsaved then some failure else none),
        forget_key key (record st {
          sessions =
              update_all (mark_uploaded now key etag transcoded) (member_ids members) st.sessions;
          removed = removed;
        }),
      )
