-- ===== src/Recorder/Manager.antt =====
-- internal/recorder/manager.go: Reconcile and what it calls. The pointer to a session that an active
-- recording and the table of sessions share is the session's id; the table is a list, and its order,
-- like that of the active recordings, stands for the order in which a round goes through the map.
-- Logging and metrics are left out.
pub mod Fresh
use spectado_stream_recorder.Common.{
  ℕ, zero, suc, ◌+◌, ◌-◌, ◌*◌, ◌/◌, ◌%◌, ◌^◌, ◌≤◌, ◌<◌, min, max, ◌≡◌, refl, sym, ap, ◌∙◌, ◌≢◌, ◌↔◌,
  ◌⊎◌, inl, inr, Bool, true, false, not, ◌&&◌, ◌||◌, Option, none, some, List, [], ◌∷◌, ◌++◌, map,
  append-nil, append_assoc, arith, ltb, leb, ◌==◌, if◌then◌else◌, ltb→lt, lt→ltb, leb→le, ==_iff,
  Bool-cases, Option-cases, length, get_or, take, drop, All, length-append, take-append-drop,
  length-take, length-drop, take-length-append, drop-length-append, drop-drop, All-map, All-concat,
  Apart, Apart-concat, Bytes, at, IsByte,
}
use spectado_stream_recorder.Common.Text.{Text, text_eq, has_suffix, to_lower, trim, codes}
use spectado_stream_recorder.Schedule.Document.{Item, Schedule, get, present}
use spectado_stream_recorder.Schedule.Names.{safe_id}
use spectado_stream_recorder.Recorder.Session.{
  State, recording, FinishReason, ended, removed, rotated, Session, object_ext, set_key,
  effective_stop_late, apply_item,
}

pub record Config : Type 0 where
  pub record_start_early : ℕ
  pub record_stop_late : ℕ
  -- 0 for no limit, like `max_recordings`
  pub max_session_duration : ℕ
  pub max_recordings : ℕ
  pub min_free_disk : ℕ
  pub record_video : Bool
  pub s3_prefix : Text

-- What the standard library computes: the digest of SafeID, the time stamps, strconv.Itoa, and the
-- white space of strings.TrimSpace.
pub record Texts : Type 0 where
  pub digest : Text → Text
  pub stamp : ℕ → Text
  pub date : ℕ → Text
  pub itoa : ℕ → Text
  pub is_space : ℕ → Bool

-- activeRecording, without the capture's own state.
pub record Active : Type 0 where
  pub item_id : Text
  pub session_id : Text
  pub supervised : Bool
  pub stopping : Bool

pub record Manager (F : Type 0) : Type 0 where
  pub sched : Option Schedule
  pub active : List Active
  pub sessions : List (Session F)
  -- the goroutines of stopLocked
  pub finalizing : List (Active × FinishReason)
  pub disk_low : Bool
  pub shutting_down : Bool

-- keyPinWindow, in nanoseconds.
abbrev pub key_pin_window : ℕ
key_pin_window = 3600 * 10 ^ 9

-- windowFor
unfoldable pub window_for : Config → Item → ℕ × ℕ
window_for cfg it = (
  it.start - elim it.start_early [ none ↦ cfg.record_start_early | some d ↦ d ],
  it.end + elim it.stop_late [ none ↦ cfg.record_stop_late | some d ↦ d ],
)

unfoldable pub in_window : ℕ → ℕ × ℕ → Bool
in_window now (start, end) = not (ltb now start) && ltb now end

abbrev pub is_ended : Option FinishReason → Bool
is_ended (some ended) = true
is_ended _ = false

abbrev pub is_some {ℓ} : {A : Type ℓ} → Option A → Bool
is_some none = false
is_some (some a) = true

unfoldable pub find_active : Text → List Active → Option Active
find_active id [] = none
find_active id (a ∷ as') = if text_eq a.item_id id then some a else find_active id as'

unfoldable pub remove_active : Text → List Active → List Active
remove_active id [] = []
remove_active id (a ∷ as') =
    let rest = remove_active id as' in if text_eq a.item_id id then rest else a ∷ rest

unfoldable pub mark_supervised : Text → List Active → List Active
mark_supervised id [] = []
mark_supervised id (a ∷ as') =
    (if text_eq a.item_id id then record a { supervised = true } else a) ∷ mark_supervised id as'

-- objectKey
unfoldable pub object_key : Texts → Text → ℕ → Text → Text
object_key texts prefix start safe = prefix ++ texts.date start ++ codes "/" ++ safe ++ object_ext

-- explicitObjectKey
unfoldable pub explicit_object_key : Texts → Text → Text → Text
explicit_object_key texts prefix key =
    let k = prefix ++ trim (λ c. c == 47) (trim texts.is_space key) in
    if has_suffix (to_lower k) object_ext then k else k ++ object_ext

module _ {F : Type 0} where
  unfoldable pub find_session : Text → List (Session F) → Option (Session F)
  find_session sid [] = none
  find_session sid (s ∷ ss) = if text_eq s.session_id sid then some s else find_session sid ss

  -- A change through the pointer to a session.
  unfoldable pub put_session : Session F → List (Session F) → List (Session F)
  put_session s [] = []
  put_session s (t ∷ ss) = (if text_eq t.session_id s.session_id then s else t) ∷ put_session s ss

  -- coveredLocked
  unfoldable pub covered : Item → List (Session F) → Bool
  covered it [] = false
  covered it (s ∷ ss) =
      (text_eq s.id it.id && is_ended s.finish_reason && is_some s.session_end && leb it.end s.end)
      || covered it ss

  -- Whether keyForLocked may take the key of session `o` for `s`, which is not in the table yet.
  unfoldable pub lends_key : Session F → Session F → Bool
  lends_key o s =
      text_eq o.id s.id
      && has_suffix (to_lower o.key) object_ext
      && ltb s.start (o.end + key_pin_window)

  abbrev pub newer : Session F → Option (Session F) → Bool
  newer o none = true
  newer o (some best) = ltb best.session_start o.session_start

  unfoldable pub pinned : Session F → List (Session F) → Option (Session F) → Option (Session F)
  pinned s [] best = best
  pinned s (o ∷ os) best = pinned s os (if lends_key o s && newer o best then some o else best)

  -- keyForLocked: the key, the KeyRenames that go with it, and whether it is inherited.
  unfoldable pub key_for : Config → Texts → List (Session F) → Session F → Text × ℕ × Bool
  unfolding pinned explicit_object_key object_key
  key_for cfg texts sessions s = elim (pinned s sessions none) [
    | some best ↦ (best.key, best.key_renames, true)
    | none ↦ (
      (if not (text_eq s.key_template [])
          then explicit_object_key texts cfg.s3_prefix s.key_template
          else object_key texts cfg.s3_prefix s.start s.safe_id),
      s.key_renames,
      false,
    )
  ]

  -- The loop that looks for a session id which is not taken; `none` means that the fuel ran out.
  unfoldable pub free_id : ℕ → Texts → Text → ℕ → Text → List (Session F) → Option Text
  free_id zero texts base i sid sessions = none
  free_id (suc fuel) texts base i sid sessions =
      let next = free_id fuel texts base (i + 1) (base ++ codes "-" ++ texts.itoa i) sessions in
      if is_some (find_session sid sessions) then next else some sid

  -- The latest session whose resolved codec, or whose video decision, is taken over.
  unfoldable pub lends_codec : Item → Session F → Bool
  lends_codec it o =
      text_eq o.id it.id && text_eq o.source it.source && not (text_eq o.resolved_codec [])

  unfoldable pub lends_video : Item → Session F → Bool
  lends_video it o =
      text_eq o.id it.id
      && text_eq o.source it.source
      && o.video
      && not (text_eq o.video_source [])
      && text_eq o.video_capture_error []

  unfoldable pub latest :
      (Session F → Bool) → List (Session F) → ℕ → Option (Session F) → Option (Session F)
  latest lends [] start best = best
  latest lends (o ∷ os) start best =
      if lends o && ltb start o.session_start
      then latest lends os o.session_start (some o)
      else latest lends os start best
