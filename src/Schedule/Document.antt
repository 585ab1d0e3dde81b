-- ===== src/Schedule/Document.antt =====
-- internal/schedule/schedule.go: items, the look-ups in a schedule, and Parse behind the decoding of
-- JSON. A time is a number of nanoseconds since Go's zero time (the year 1), which is 0; schedule
-- times are of the years 2000 to 2199, and the durations of an item at most six hours, so their
-- difference stays above 0.
use spectado_stream_recorder.Common.{
  ℕ, zero, suc, ◌+◌, ◌-◌, ◌*◌, ◌/◌, ◌%◌, ◌^◌, ◌≤◌, ◌<◌, min, max, ◌≡◌, refl, sym, ap, ◌∙◌, ◌≢◌, ◌↔◌,
  ◌⊎◌, inl, inr, Bool, true, false, not, ◌&&◌, ◌||◌, Option, none, some, List, [], ◌∷◌, ◌++◌, map,
  append-nil, append_assoc, arith, ltb, leb, ◌==◌, if◌then◌else◌, ltb→lt, lt→ltb, leb→le, ==_iff,
  Bool-cases, Option-cases, length, get_or, take, drop, All, length-append, take-append-drop,
  length-take, length-drop, take-length-append, drop-length-append, drop-drop, Bytes, at, IsByte,
}
use spectado_stream_recorder.Common.Text.{Text, text_eq}
pub mod Unique
pub mod Lookup
pub mod Sorted
pub mod Every

pub record Item : Type 0 where
  pub id : Text
  pub name : Text
  pub source : Text
  pub type : Text
  pub start : ℕ
  pub end : ℕ
  pub key : Text
  pub codec : Text
  pub bitrate : Text
  pub headers : List (Text × Text)
  pub start_early : Option ℕ
  pub stop_late : Option ℕ
  pub stall_timeout : Option ℕ
  pub insecure_tls : Bool
  pub stream_info : Text

pub data Reason : Type 0 where
  -- parseItem's error
  rejected : Text → Reason
  duplicate_id : Reason
  -- the key, and the item that has it
  duplicate_key : Text → Text → Reason

pub record InvalidItem : Type 0 where
  pub index : ℕ
  pub id : Text
  pub reason : Reason

pub record Schedule : Type 0 where
  pub items : List Item
  pub invalid : List InvalidItem

-- Schedule.Get
unfoldable pub get : Text → List Item → Option Item
get id [] = none
get id (it ∷ items) = if text_eq it.id id then some it else get id items

-- The loop over Invalid of InvalidReason.
unfoldable pub find_invalid : Text → List InvalidItem → Option Reason
find_invalid id [] = none
find_invalid id (inv ∷ invalid) =
    if not (text_eq inv.id []) && text_eq inv.id id
    then some inv.reason
    else find_invalid id invalid

-- Schedule.Present; a nil schedule is `none`.
unfoldable pub present : Text → Option Schedule → Bool
present id none = false
present id (some s) = elim (get id s.items) [
  | some it ↦ true
  | none ↦ elim (find_invalid id s.invalid) [ some r ↦ true | none ↦ false ]
]

-- A map from texts to texts, with the keys that were put last in front.
unfoldable pub find_key : Text → List (Text × Text) → Option Text
find_key k [] = none
find_key k ((j, v) ∷ m) = if text_eq j k then some v else find_key k m

unfoldable pub seen : Text → List Text → Bool
seen id [] = false
seen id (j ∷ ids) = text_eq j id || seen id ids

-- What Parse has gathered behind some of the entries.
pub record Gathered : Type 0 where
  pub items : List Item
  pub invalid : List InvalidItem
  pub seen_ids : List Text
  pub seen_keys : List (Text × Text)

-- parseItem's (item, error): the error's text, and the id as far as it was read.
pub data Entry : Type 0 where
  valid : Item → Entry
  invalid : Text → Text → Entry

abbrev pub reject : ℕ → Text → Reason → Gathered → Gathered
reject i id reason g = record g {
  invalid = g.invalid ++ (record { index = i; id = id; reason = reason } ∷ []);
}

-- One entry of the loop over rawItems.
unfoldable pub gather_item : ℕ → Item → Gathered → Gathered
gather_item i it g =
    if seen it.id g.seen_ids
    then reject i it.id duplicate_id g
    else (elim (find_key it.key g.seen_keys) [
      | some other ↦
          if text_eq it.key []
          then record g { seen_ids = it.id ∷ g.seen_ids; items = g.items ++ (it ∷ []) }
          else reject i it.id (duplicate_key it.key other) g
      | none ↦ record g {
        seen_ids = it.id ∷ g.seen_ids;
        seen_keys = if text_eq it.key [] then g.seen_keys else (it.key, it.id) ∷ g.seen_keys;
        items = g.items ++ (it ∷ []);
      }
    ])

unfoldable pub gather_entry : ℕ → Entry → Gathered → Gathered
unfolding gather_item
gather_entry i (valid it) g = gather_item i it g
gather_entry i (invalid id why) g = reject i id (rejected why) g

unfoldable pub gather : ℕ → List Entry → Gathered → Gathered
unfolding gather_entry
gather i [] g = g
gather i (p ∷ ps) g = gather (i + 1) ps (gather_entry i p g)

-- sort.SliceStable by Start: insertion keeps equal starts in order.
unfoldable pub insert_item : Item → List Item → List Item
insert_item it [] = it ∷ []
insert_item it (x ∷ xs) = if ltb x.start it.start then x ∷ insert_item it xs else it ∷ x ∷ xs

unfoldable pub sort_items : List Item → List Item
unfolding insert_item
sort_items [] = []
sort_items (x ∷ xs) = insert_item x (sort_items xs)

abbrev pub nothing : Gathered
nothing = record { items = []; invalid = []; seen_ids = []; seen_keys = [] }

-- Parse behind the decoding of the entries; `none` is the error that all of them are invalid.
unfoldable pub parse_items : List Entry → Option Schedule
unfolding gather sort_items
parse_items entries =
    let g = gather 0 entries nothing in
    if ltb 0 (length entries) && length g.items == 0
    then none
    else some (record { items = sort_items g.items; invalid = g.invalid })
