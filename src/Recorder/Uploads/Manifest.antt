-- ===== src/Recorder/Uploads/Manifest.antt =====
-- internal/recorder/upload.go: remoteObject and parseRemoteObject. internal/recorder/objectmeta.go:
-- the part of summarize and objectMetadata that the next merge reads back; the metadata that only
-- describe the object are left out. The zero time is 0.
use spectado_stream_recorder.Common.{
  ℕ, Bool, false, ◌||◌, Option, none, some, List, [], ◌∷◌, ◌++◌, ◌==◌, if◌then◌else◌, length,
}
use spectado_stream_recorder.Common.Text.{Text, codes, text_eq, trim}
use spectado_stream_recorder.Recorder.Manager.{Texts}

-- What the standard library computes: sessionDigest's SHA-256 in hex, strconv.Atoi (a negative number
-- is no number of parts, and `none`), and RFC 3339 in UTC.
pub record Formats : Type 0 where
  pub session_digest : Text → Text
  pub atoi : Text → Option ℕ
  pub format_time : ℕ → Text
  pub parse_time : Text → Option ℕ

abbrev pub Metadata : Type 0
Metadata = List (Text × Text)

-- A key that the map does not have reads as the empty text.
unfoldable pub meta_value : Text → Metadata → Text
meta_value key [] = []
meta_value key ((k, v) ∷ ms) = if text_eq k key then v else meta_value key ms

-- ObjectInfo
pub record ObjectInfo : Type 0 where
  pub etag : Text
  pub size : ℕ
  pub metadata : Metadata

-- remoteObject
pub record RemoteObject : Type 0 where
  pub etag : Text
  pub size : ℕ
  pub recording_id : Text
  -- the session digests, in object order
  pub sessions : List Text
  pub parts : ℕ
  pub last_start : ℕ

unfoldable pub lists_digest : Text → List Text → Bool
lists_digest d [] = false
lists_digest d (e ∷ es) = text_eq e d || lists_digest d es

-- parseRemoteObject's results: errForeignObject, another error, the manifest.
pub data Manifest : Type 0 where
  foreign inconsistent : Manifest
  manifest : RemoteObject → Manifest

abbrev pub comma : ℕ
comma = 44

abbrev push_char : ℕ → List Text → List Text
push_char c [] = (c ∷ []) ∷ []
push_char c (t ∷ ts) = (c ∷ t) ∷ ts

-- strings.Split by one character.
unfoldable pub split_on : ℕ → Text → List Text
split_on sep [] = [] ∷ []
split_on sep (c ∷ cs) =
    let rest = split_on sep cs in if c == sep then [] ∷ rest else push_char c rest

-- strings.Join with one character.
unfoldable pub join_with : ℕ → List Text → Text
join_with sep [] = []
join_with sep (t ∷ []) = t
join_with sep (t ∷ u ∷ us) = t ++ sep ∷ join_with sep (u ∷ us)

-- The loop of parseRemoteObject over the listed sessions.
unfoldable pub trimmed_digests : (ℕ → Bool) → List Text → List Text
trimmed_digests is_space [] = []
trimmed_digests is_space (t ∷ ts) =
    let rest = trimmed_digests is_space ts in
    let d = trim is_space t in if text_eq d [] then rest else d ∷ rest

-- What parseRemoteObject makes of the number of parts.
unfoldable pub check_parts : Option ℕ → RemoteObject → Manifest
check_parts none r = inconsistent
check_parts (some n) r =
    if n == length r.sessions then manifest (record r { parts = n }) else inconsistent

abbrev pub or_zero : Option ℕ → ℕ
or_zero none = 0
or_zero (some t) = t

abbrev pub trimmed_value : Texts → ObjectInfo → Text → Text
trimmed_value texts info key = trim texts.is_space (meta_value key info.metadata)

-- The remoteObject that parseRemoteObject fills in, before it has checked the number of parts.
abbrev pub read_object : Texts → Formats → ObjectInfo → RemoteObject
read_object texts formats info = record {
  etag = info.etag;
  size = info.size;
  recording_id = trimmed_value texts info (codes "recording-id");
  sessions =
      trimmed_digests texts.is_space (split_on comma (trimmed_value texts info (codes "sessions")));
  parts = 0;
  last_start = or_zero (formats.parse_time (trimmed_value texts info (codes "last-session-start")));
}

-- parseRemoteObject
unfoldable pub parse_remote_object : Texts → Formats → ObjectInfo → Manifest
unfolding check_parts trimmed_digests split_on meta_value
parse_remote_object texts formats info =
    if text_eq (trimmed_value texts info (codes "recording-id")) []
      || text_eq (trimmed_value texts info (codes "sessions")) []
    then foreign
    else check_parts (formats.atoi (trimmed_value texts info (codes "parts")))
        (read_object texts formats info)

-- objectSummary, as far as it is merge-critical.
pub record Summary : Type 0 where
  pub recording_id : Text
  pub digests : List Text
  pub parts : ℕ
  pub last_start : ℕ

-- objectMetadata's `set` and `setTime`.
unfoldable pub set_text : Text → Text → Metadata → Metadata
set_text key v ms = if text_eq v [] then ms else (key, v) ∷ ms

unfoldable pub set_time : Formats → Text → ℕ → Metadata → Metadata
set_time formats key t ms = if t == 0 then ms else (key, formats.format_time t) ∷ ms

-- objectMetadata, its first four keys.
unfoldable pub object_metadata : Texts → Formats → Summary → Metadata
unfolding set_text set_time join_with
object_metadata texts formats sum = set_time formats (codes "last-session-start") sum.last_start (
    (codes "parts", texts.itoa sum.parts)
    ∷ set_text (codes "sessions") (join_with comma sum.digests)
        (set_text (codes "recording-id") sum.recording_id []))
