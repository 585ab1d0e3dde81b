-- ===== src/Schedule/Decoding.antt =====
-- internal/schedule/schedule.go: the values of an item, as far as they are read alone: times, durations
-- and the tests of texts. `Decoding` is what encoding/json, net/url, strconv, strings and time do here,
-- with the location of the fetcher; `F` is float64. A decoder's error is its text. Texts are bytes.
use spectado_stream_recorder.Common.{
  ℕ, ◌+◌, ◌*◌, Bool, true, false, not, ◌&&◌, ◌||◌, Option, none, some, List, [], ◌∷◌, ◌++◌, ltb,
  leb, ◌==◌, if◌then◌else◌,
}
use spectado_stream_recorder.Common.Text.{Text, text_eq, is_empty, codes}
use spectado_stream_recorder.Schedule.Document.{find_key}

-- A value, or the text of an error.
pub data Decoded {ℓ} (A : Type ℓ) : Type ℓ where
  good : A → Decoded A
  bad : Text → Decoded A

infixl 5 ◌>>=◌ ◌>>◌
unfoldable pub ◌>>=◌ {ℓ κ} : {A : Type ℓ} {B : Type κ} → Decoded A → (A → Decoded B) → Decoded B
good a >>= f = f a
bad e >>= f = bad e

unfoldable pub ◌>>◌ {ℓ} : {B : Type ℓ} → Decoded (Unit {0}) → Decoded B → Decoded B
unfolding ◌>>=◌
m >> k = m >>= λ _. k

-- `test` must hold.
unfoldable pub demand : Bool → Text → Decoded (Unit {0})
demand true why = good tt
demand false why = bad why

-- An error, with what was read in front.
unfoldable pub within {ℓ} : {A : Type ℓ} → Text → Decoded A → Decoded A
within what (good a) = good a
within what (bad e) = bad (what ++ e)

unfoldable pub or_bad {ℓ} : {A : Type ℓ} → Text → Option A → Decoded A
or_bad why none = bad why
or_bad why (some a) = good a

-- A time.Time: the instant, in nanoseconds since Go's zero time, and Year in its location.
pub record Time : Type 0 where
  pub instant : ℕ
  pub year : ℕ

-- A time.Duration.
pub data Span : Type 0 where
  before_zero : Span
  span : ℕ → Span

-- url.URL, as far as it is looked at.
pub record Address : Type 0 where
  pub scheme : Text
  pub host : Text

pub record Decoding (F : Type 0) : Type 0 where
  -- json.Unmarshal into the types that are asked for; a map holds each key once
  pub array_of : Text → Decoded (List Text)
  pub object_of : Text → Decoded (List (Text × Text))
  pub headers_of : Text → Decoded (List (Text × Text))
  pub string_of : Text → Option Text
  pub number_text_of : Text → Option Text
  pub float_of : Text → Option F
  pub bool_of : Text → Option Bool
  -- strings.TrimSpace and %q
  pub trim_space : Text → Text
  pub quote : Text → Text
  -- url.Parse
  pub address_of : Text → Option Address
  -- strconv.ParseFloat, time.ParseDuration
  pub parse_float : Text → Option F
  pub parse_duration : Text → Option Span
  -- NaN or infinite, n < 0, n > k, int64(n), and the nanoseconds of its fraction
  pub not_finite : F → Bool
  pub below_zero : F → Bool
  pub above : F → ℕ → Bool
  pub whole : F → ℕ
  pub fraction : F → ℕ
  -- int64 of n seconds in nanoseconds, FormatInt of int64(n), and %v
  pub seconds : F → Span
  pub print_whole : F → Text
  pub print_float : F → Text
  -- Year of an instant in UTC
  pub year_of : ℕ → ℕ
  -- time.ParseInLocation, by the layout
  pub layout_time : Text → Text → Option Time

-- The Unix epoch.
abbrev pub epoch : ℕ
epoch = 62_135_596_800 * 1_000_000_000

abbrev pub hours6 : ℕ
hours6 = 21_600_000_000_000

abbrev pub seconds5 : ℕ
seconds5 = 5_000_000_000

abbrev pub Fields : Type 0
Fields = List (Text × Text)

-- parseItem's get: the first of the keys that is there and not null.
unfoldable pub get_field : List Text → Fields → Option Text
get_field [] fields = none
get_field (k ∷ ks) fields = elim (find_key k fields) [
  | none ↦ get_field ks fields
  | some v ↦ if text_eq v (codes "null") then get_field ks fields else some v
]

-- strings.ContainsAny with "\r\n".
unfoldable pub has_break : Text → Bool
has_break [] = false
has_break (c ∷ s) = (c == 13 || c == 10) || has_break s

unfoldable pub has_colon : Text → Bool
has_colon [] = false
has_colon (c ∷ s) = c == b':' || has_colon s

unfoldable pub one_of : Text → List Text → Bool
one_of t [] = false
one_of t (u ∷ us) = text_eq t u || one_of t us

abbrev pub layouts : List Text
layouts =
    codes "2006-01-02T15:04:05.999999999Z07:00"
    ∷ codes "2006-01-02T15:04:05Z07:00"
    ∷ codes "2006-01-02T15:04:05.999999999"
    ∷ codes "2006-01-02T15:04:05"
    ∷ codes "2006-01-02 15:04:05"
    ∷ codes "2006-01-02T15:04"
    ∷ codes "2006-01-02 15:04"
    ∷ []

abbrev pub types : List Text
types = [] ∷ codes "auto" ∷ codes "hls" ∷ codes "icecast" ∷ []

abbrev pub codecs : List Text
codecs = [] ∷ codes "auto" ∷ codes "aac" ∷ codes "copy" ∷ []

-- strings.TrimPrefix of "/".
unfoldable pub trim_slash : Text → Text
trim_slash [] = []
trim_slash (c ∷ s) = if c == b'/' then s else c ∷ s

module _ {F : Type 0} (o : Decoding F) where
  -- unixTime; 0 is the zero time.
  unfoldable pub unix_time : F → Time
  unix_time n =
      if o.not_finite n || o.below_zero n || o.above n 1_000_000_000_000_000
      then record { instant = 0; year = 1 }
      else (let at =
            if o.above n 100_000_000_000
            then epoch + o.whole n * 1_000_000
            else epoch + o.whole n * 1_000_000_000 + o.fraction n in
          record { instant = at; year = o.year_of at })

  -- plausible
  unfoldable pub plausible : Time → Bool
  plausible t = not (t.instant == 0) && leb 2000 t.year && ltb t.year 2200

  unfoldable pub time_of_float : F → Text → Decoded Time
  unfolding unix_time plausible demand
  time_of_float n shown = do
    demand (plausible (unix_time n))
        (codes "unix timestamp " ++ (shown ++ codes " is out of range"))
    good (unix_time n)

  -- The loop over the layouts: the first that fits.
  unfoldable pub first_layout : List Text → Text → Option Time
  first_layout [] s = none
  first_layout (l ∷ ls) s = elim (o.layout_time l s) [ some t ↦ some t | none ↦ first_layout ls s ]

  unfoldable pub time_of_text : Text → Decoded Time
  unfolding time_of_float plausible demand or_bad first_layout
  time_of_text s = elim (o.parse_float s) [
    | some n ↦ time_of_float n (o.quote s)
    | none ↦ do
      t ←
          or_bad
            (codes "unrecognized time "
              ++ (o.quote s ++ codes " (use RFC3339, e.g. 2026-01-31T18:00:00+01:00)"))
            (first_layout layouts s)
      demand (plausible t) (codes "time " ++ (o.quote s ++ codes " is out of range (2000-2200)"))
      good t
  ]

  -- parseTime
  unfoldable pub parse_item_time : Text → Decoded Time
  unfolding time_of_float time_of_text demand or_bad
  parse_item_time raw = elim (o.float_of raw) [
    | some n ↦ time_of_float n (o.print_float n)
    | none ↦ do
      s ← or_bad (codes "must be an RFC3339 string or a unix timestamp") (o.string_of raw)
      demand (not (is_empty (o.trim_space s))) (codes "is empty")
      time_of_text (o.trim_space s)
  ]

  -- Duration.UnmarshalJSON
  unfoldable pub parse_span : Text → Decoded Span
  unfolding or_bad
  parse_span raw = elim (o.float_of raw) [
    | some n ↦ good (o.seconds n)
    | none ↦ do
      s ← or_bad (codes "must be a duration string or a number of seconds") (o.string_of raw)
      elim (o.parse_float (o.trim_space s)) [
        | some n ↦ good (o.seconds n)
        | none ↦
            or_bad (codes "invalid duration " ++ o.quote (o.trim_space s))
              (o.parse_duration (o.trim_space s))
      ]
  ]
