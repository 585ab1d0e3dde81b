-- ===== src/Recorder/Runs.antt =====
-- internal/recorder/session.go: the run history of a session (appendRun, openRun, fixOpenRun,
-- addExit). `F` is the type of DurationSeconds, a float64, and `add` its addition. Times are
-- nanoseconds.
use spectado_stream_recorder.Common.{
  ℕ, zero, suc, ◌+◌, ◌-◌, ◌*◌, ◌/◌, ◌%◌, ◌^◌, ◌≤◌, ◌<◌, min, max, ◌≡◌, refl, sym, ap, ◌∙◌, ◌≢◌, ◌↔◌,
  ◌⊎◌, inl, inr, Bool, true, false, not, ◌&&◌, ◌||◌, Option, none, some, List, [], ◌∷◌, ◌++◌, map,
  append-nil, append_assoc, arith, ltb, leb, ◌==◌, if◌then◌else◌, ltb→lt, lt→ltb, leb→le, ==_iff,
  Bool-cases, Option-cases, length, get_or, take, drop, All, length-append, take-append-drop,
  length-take, length-drop, take-length-append, drop-length-append, drop-drop, Bytes, at, IsByte,
}
use spectado_stream_recorder.Common.Text.{Text}
pub mod Cap

abbrev pub max_exits : ℕ
max_exits = 20

abbrev pub max_runs : ℕ
max_runs = 2000

pub record Run (F : Type 0) : Type 0 where
  pub started_at : ℕ
  pub ended_at : Option ℕ
  pub anchor : ℕ
  pub anchor_source : Text
  pub offset : ℕ
  pub bytes : ℕ
  pub frames : ℕ
  pub duration_seconds : F
  pub video_files : List Text

-- The fields of Session that the run methods read and write.
pub record History (F : Type 0) : Type 0 where
  pub runs : List (Run F)
  pub runs_coalesced : Bool
  pub suspended_at : Option ℕ

-- laterTime
unfoldable pub later_time : Option ℕ → Option ℕ → Option ℕ
later_time none b = b
later_time (some a) none = some a
later_time (some a) (some b) = if ltb a b then some b else some a

-- addExit: the most recent `max_exits`, the oldest dropped.
unfoldable pub add_exit {ℓ} : {E : Type ℓ} → E → List E → List E
add_exit e exits =
    let appended = exits ++ (e ∷ []) in
    if ltb max_exits (length appended)
    then drop (length appended - max_exits) appended
    else appended

abbrev has_files : List Text → Bool
has_files [] = false
has_files (f ∷ fs) = true

-- Both runs have TS files, or neither has.
abbrev pub same_kind {ℓ} : {A B : Type ℓ} → List A → List B → Bool
same_kind [] [] = true
same_kind (a ∷ as') (b ∷ bs) = true
same_kind [] (b ∷ bs) = false
same_kind (a ∷ as') [] = false

module _ {F : Type 0} where
  -- The loop `for j := 0; j+1 < len(s.Runs)-1; j++`: a pair counts while a run stands behind it.
  unfoldable pub find_pair : List (Run F) → ℕ → Option ℕ
  find_pair (a ∷ b ∷ c ∷ rest) j =
      let later = find_pair (b ∷ c ∷ rest) (j + 1) in
      if same_kind a.video_files b.video_files then some j else later
  find_pair _ j = none

module _ {F : Type 0} (add : F → F → F) where
  -- Run `b` merged into the run before it.
  unfoldable pub merge_run : Bool → Run F → Run F → Run F
  unfolding later_time
  merge_run drop_video a b = record a {
    bytes = a.bytes + b.bytes;
    frames = a.frames + b.frames;
    duration_seconds = add a.duration_seconds b.duration_seconds;
    video_files = if drop_video then [] else a.video_files ++ b.video_files;
    ended_at = later_time a.ended_at b.ended_at;
  }

  -- The runs with `i` and `i + 1` merged.
  unfoldable pub merge_at : ℕ → Bool → List (Run F) → List (Run F)
  merge_at zero drop_video (a ∷ b ∷ rest) = merge_run drop_video a b ∷ rest
  merge_at (suc i) drop_video (a ∷ rest) = a ∷ merge_at i drop_video rest
  merge_at _ drop_video runs = runs

  -- The pair to merge: the oldest of one kind, or the oldest two without their TS files.
  unfoldable pub coalesce : List (Run F) → Option ℕ → List (Run F)
  coalesce runs none = merge_at 0 true runs
  coalesce runs (some i) = merge_at i false runs

  -- appendRun, and whether it coalesced for the first time.
  unfoldable pub append_run : Run F → History F → History F × Bool
  append_run r h =
      let runs = h.runs ++ (r ∷ []) in
      if leb (length runs) max_runs then (record h { runs = runs }, false) else (
        record h { runs = coalesce runs (find_pair runs 0); runs_coalesced = true },
        not h.runs_coalesced,
      )

module _ {F : Type 0} where
  -- fixOpenRun on the last run, if openRun finds it open.
  unfoldable pub close_last : ℕ → ℕ → List (Run F) → List (Run F)
  close_last end size [] = []
  close_last end size (r ∷ []) = elim r.ended_at [
    | none ↦
        record r {
          ended_at = some end;
          bytes = if leb r.offset size then size - r.offset else r.bytes;
        }
        ∷ []
    | some t ↦ r ∷ []
  ]
  close_last end size (r ∷ s ∷ rest) = r ∷ close_last end size (s ∷ rest)

  unfoldable pub fix_open_run : ℕ → ℕ → History F → History F
  unfolding close_last
  fix_open_run size now h =
      let end : ℕ = elim h.suspended_at [ none ↦ now | some t ↦ t ] in
      record h { runs = close_last end size h.runs }
