-- ===== src/Recorder/Uploads/Steps.antt =====
-- internal/recorder/upload.go: the steps of uploadOnce: measure, checkDiskFor, conditionalWrites,
-- putObject and putMetadata, and what summarize of objectmeta.go says of the sessions. What the disk,
-- ffmpeg and the storage client answer is an argument. The sums of sizes do not reach 2^63.
use spectado_stream_recorder.Common.{
  ℕ, zero, suc, ◌+◌, ◌-◌, ◌*◌, ◌/◌, Bool, true, false, not, ◌&&◌, ◌||◌, Option, none, some, List,
  [], ◌∷◌, ◌++◌, map, ltb, leb, ◌==◌, if◌then◌else◌,
}
use spectado_stream_recorder.Common.Text.{Text, text_eq, codes}
use spectado_stream_recorder.Recorder.Runs.{Run}
use spectado_stream_recorder.Recorder.Session.{Session, or_else}
use spectado_stream_recorder.Recorder.Manager.{Config}
use spectado_stream_recorder.Recorder.Retention.{FileStat}
use spectado_stream_recorder.Recorder.Uploads.Manifest.{
  ObjectInfo, RemoteObject, lists_digest, Summary, Metadata,
}
use spectado_stream_recorder.Recorder.Uploads.Group.{
  UploadError, permanent, failure, Outcome, Member, Attempt, fail_members, update_session,
}

abbrev pub max_parts_per_object : ℕ
max_parts_per_object = 20

abbrev pub max_remux_failures : ℕ
max_remux_failures = 3

-- A call's error, or its result.
pub data Answer (A : Type 0) : Type 0 where
  fails : UploadError → Answer A
  answers : A → Answer A

pub answer_both :
    {A : Type 0} {B : Type 0} (P : B → Type 0) (a : Answer A) (f : UploadError → B) (g : A → B)
    → ((e : UploadError) → P (f e))
    → ((x : A) → P (g x))
    → P (elim a [ fails e ↦ f e | answers x ↦ g x ])
answer_both P (fails e) f g h k = h e
answer_both P (answers x) f g h k = k x

-- The part of adts.Info that is kept of a run or a file.
pub record Measured (F : Type 0) : Type 0 where
  pub frames : ℕ
  pub duration_seconds : F

-- What the outside says to one attempt; the functions are by session id.
pub record Answers (F : Type 0) : Type 0 where
  pub now : ℕ
  -- os.Stat of classifyMembers
  pub files : Text → FileStat
  -- the Head of the attempt's key, and that of the fallback key
  pub head : Answer (Option ObjectInfo)
  pub fallback_head : Answer (Option ObjectInfo)
  -- the bytes that TrimPartialTail removes, the size that measure's os.Stat reads, and ScanRuns
  pub trimmed : Text → ℕ
  pub size_behind : Text → Option ℕ
  pub scan_runs : Text → List ℕ → Option (List (Measured F) × Measured F)
  pub conditional_writes : Answer Bool
  pub free_disk : Option ℕ
  -- fetchRemotePart's error
  pub fetch : Option UploadError
  -- build's result: the size of the .m4a, and whether it was transcoded
  pub build : Option (ℕ × Bool)
  -- the size of the concatenated captures
  pub concat : Option ℕ
  pub write_document_fails : Bool
  pub overwrite : Option UploadError
  -- Upload's ETag, and the Head behind a replacing upload
  pub upload : Answer Text
  pub verify : Answer (Option ObjectInfo)
  pub save_fails : Text → Bool

abbrev pub is_permanent : UploadError → Bool
is_permanent permanent = true
is_permanent _ = false

-- summarize
unfoldable pub base_summary : Option RemoteObject → Summary
base_summary none = record { recording_id = []; digests = []; parts = 0; last_start = 0 }
base_summary (some r) = record {
  recording_id = r.recording_id;
  digests = r.sessions;
  parts = r.parts;
  last_start = r.last_start;
}

unfoldable pub add_members : Text → List Member → Summary → Summary
add_members id [] sum = sum
add_members id (m ∷ ms) sum = add_members id ms (record {
  recording_id = or_else sum.recording_id id;
  digests = sum.digests ++ (m.digest ∷ []);
  parts = sum.parts + 1;
  last_start = if ltb sum.last_start m.start then m.start else sum.last_start;
})

unfoldable pub summarize : Text → List Member → Option RemoteObject → Summary
unfolding add_members base_summary
summarize id to_add remote = add_members id to_add (base_summary remote)

-- remoteObject.has over the members: those the object holds, and those it does not.
unfoldable pub held_by : RemoteObject → List Member → List Member
held_by r [] = []
held_by r (m ∷ ms) =
    let rest = held_by r ms in if lists_digest m.digest r.sessions then m ∷ rest else rest

unfoldable pub not_held_by : RemoteObject → List Member → List Member
not_held_by r [] = []
not_held_by r (m ∷ ms) =
    let rest = not_held_by r ms in if lists_digest m.digest r.sessions then rest else m ∷ rest

-- manifestHasAll
unfoldable pub has_all : RemoteObject → List Member → Bool
has_all r [] = true
has_all r (m ∷ ms) = lists_digest m.digest r.sessions && has_all r ms

-- A member is older than the last part of the object.
unfoldable pub out_of_order : RemoteObject → List Member → Bool
out_of_order r [] = false
out_of_order r (m ∷ ms) = not (r.last_start == 0) && ltb m.start r.last_start || out_of_order r ms

abbrev total_size : List Member → ℕ
total_size [] = 0
total_size (m ∷ ms) = m.size + total_size ms

-- checkDiskFor
unfoldable pub disk_short : Option ℕ → ℕ → Bool
disk_short none need = false
disk_short (some free) need = ltb free need

-- The bytes that the preflight asks for.
unfoldable pub needed_bytes : Config → List Member → Option RemoteObject → ℕ
needed_bytes cfg to_add remote =
    total_size to_add * 12 / 10 + cfg.min_free_disk + elim remote [ none ↦ 0 | some r ↦ 3 * r.size ]

-- putMetadata; a refusal that is permanent costs the document only.
unfoldable pub put_metadata : Bool → Option UploadError → Outcome
put_metadata true answer = some failure
put_metadata false none = none
put_metadata false (some e) = if is_permanent e then none else some e

-- The re-read of putObject behind a replacing upload.
unfoldable pub verify_replaced : Answer (Option ObjectInfo) → Text → ℕ → Answer Text
verify_replaced (fails e) etag bytes = fails e
verify_replaced (answers none) etag bytes = fails failure
verify_replaced (answers (some info)) etag bytes =
    if not (info.size == bytes) || (not (text_eq etag []) && not (text_eq info.etag etag))
    then fails failure
    else answers etag

abbrev pub rest_of {ℓ} : {A : Type ℓ} → List A → List A
rest_of [] = []
rest_of (x ∷ xs) = xs

module _ {F : Type 0} where
  -- The runs' counters behind measure: the frames and durations that were scanned, and the bytes up to
  -- the next run or the end of the file.
  abbrev pub set_measured : List (Measured F) → Run F → Run F
  set_measured [] r = r
  set_measured (m ∷ ms) r = record r { frames = m.frames; duration_seconds = m.duration_seconds }

  abbrev pub set_bytes : ℕ → Run F → Run F
  set_bytes upto r = if leb r.offset upto then record r { bytes = upto - r.offset } else r

  unfoldable pub settle_runs : ℕ → List (Measured F) → List (Run F) → List (Run F)
  settle_runs bytes ms [] = []
  settle_runs bytes ms (r ∷ []) = set_bytes bytes (set_measured ms r) ∷ []
  settle_runs bytes ms (r ∷ q ∷ rs) =
      set_bytes q.offset (set_measured ms r) ∷ settle_runs bytes (rest_of ms) (q ∷ rs)

  abbrev pub offsets_of : List (Session F) → Text → List ℕ
  offsets_of [] sid = []
  offsets_of (s ∷ ss) sid =
      if text_eq s.session_id sid then map (λ (r : Run F). r.offset) s.runs else offsets_of ss sid

  abbrev pub add_trimmed : ℕ → Session F → Session F
  add_trimmed n s = record s { trimmed_bytes = s.trimmed_bytes + n }

  abbrev pub note_measured : ℕ → List (Measured F) → Session F → Session F
  note_measured bytes ms s = record s {
    runs = settle_runs bytes ms s.runs;
    size = bytes;
    bytes = bytes;
  }

  -- measure
  unfoldable pub measure : Answers F → Member → Attempt F → Option Member × Attempt F
  unfolding update_session settle_runs
  measure env m st =
      let st1 : Attempt F = record st {
        sessions = update_session (add_trimmed (env.trimmed m.session_id)) m.session_id st.sessions;
      } in
      elim (env.size_behind m.session_id) [
        | none ↦ (none, st1)
        | some n ↦ elim (env.scan_runs m.session_id (offsets_of st1.sessions m.session_id)) [
          | none ↦ (none, st1)
          | some (runs, total) ↦ (
            some (record m { size = n; frames = total.frames }),
            record st1 {
              sessions = update_session (note_measured n runs) m.session_id st1.sessions;
            },
          )
        ]
      ]

  abbrev pub with_member :
      Member → Option (List Member) × Attempt F → Option (List Member) × Attempt F
  with_member m (none, st) = (none, st)
  with_member m (some ms, st) = (some (m ∷ ms), st)

  -- Behind one measure: an error ends the loop, and a member without a frame is dropped.
  abbrev pub measured_next :
      (Attempt F → Option (List Member) × Attempt F)
      → Option Member
      → Attempt F
      → Option (List Member) × Attempt F
  measured_next rest none st = (none, st)
  measured_next rest (some m) st = elim m.frames [
    | zero ↦ rest (fail_members (codes "no ADTS frames found") (m.session_id ∷ []) st)
    | suc n ↦ with_member m (rest st)
  ]

  -- The loop of uploadOnce over the parts to add.
  unfoldable pub measure_all :
      Answers F → List Member → Attempt F → Option (List Member) × Attempt F
  unfolding measure fail_members
  measure_all env [] st = (some [], st)
  measure_all env (m ∷ ms) st =
      measured_next (λ st1. measure_all env ms st1) (measure env m st).0 (measure env m st).1

  -- conditionalWrites
  unfoldable pub conditional_writes_of : Answers F → Attempt F → Answer Bool × Attempt F
  conditional_writes_of env st = elim st.merge_allowed [
    | some allowed ↦ (answers allowed, st)
    | none ↦ elim env.conditional_writes [
      | fails e ↦ (fails e, st)
      | answers ok ↦ (answers ok, record st { merge_allowed = some ok })
    ]
  ]

  -- putObject
  unfoldable pub put_object :
      Answers F → Text → Summary → Metadata → Text → ℕ → Attempt F → Answer Text × Attempt F
  unfolding verify_replaced
  put_object env key sum meta replaces bytes st = elim env.upload [
    | fails e ↦ (fails e, st)
    | answers etag ↦
        let st1 : Attempt F = record st {
          stored =
              (record { key = key; replaces = replaces; sessions = sum.digests; metadata = meta })
              ∷ st.stored;
        } in
        ((if text_eq replaces [] then answers etag else verify_replaced env.verify etag bytes), st1)
  ]
