-- ===== src/Schedule/Parsing.antt =====
-- internal/schedule/schedule.go: Parse from the text on, with parseItem; the fields are read by Decoding.
mod Holds
pub mod Bounds
use spectado_stream_recorder.Common.{
  ℕ, zero, suc, ◌+◌, ◌-◌, ◌*◌, ◌/◌, ◌%◌, ◌^◌, ◌≤◌, ◌<◌, min, max, ◌≡◌, refl, sym, ap, ◌∙◌, ◌≢◌, ◌↔◌,
  ◌⊎◌, inl, inr, Bool, true, false, not, ◌&&◌, ◌||◌, Option, none, some, List, [], ◌∷◌, ◌++◌, map,
  append-nil, append_assoc, arith, ltb, leb, ◌==◌, if◌then◌else◌, ltb→lt, lt→ltb, leb→le, ==_iff,
  Bool-cases, Option-cases, if_both, if_cases, option_both, nat_both, length, get_or, take, drop,
  All, length-append, take-append-drop, length-take, length-drop, take-length-append,
  drop-length-append, drop-drop, All-map, All-concat, Apart, Apart-concat, Bytes, at, IsByte,
}
use spectado_stream_recorder.Common.Text.{
  Text, text_eq, to_lower, contains, is_empty, has_prefix, trim_suffix, codes,
}
use spectado_stream_recorder.Schedule.Document.{
  Item, Schedule, find_key, Entry, valid, invalid, parse_items,
}
use spectado_stream_recorder.Schedule.Decoding.{
  Decoded, good, bad, ◌>>=◌, ◌>>◌, demand, within, or_bad, Time, Span, before_zero, span, Address,
  Decoding, epoch, hours6, seconds5, Fields, get_field, has_break, has_colon, one_of, layouts,
  types, codecs, trim_slash, unix_time, plausible, time_of_float, first_layout, time_of_text,
  parse_item_time, parse_span,
}

module _ {F : Type 0} (o : Decoding F) where
  -- stringField, at what get answered.
  unfoldable pub string_field : Option Text → Decoded Text
  unfolding or_bad
  string_field none = good []
  string_field (some raw) = or_bad (codes "must be a string") (o.string_of raw)

  -- validBitrate
  unfoldable pub valid_bitrate : Text → Bool
  valid_bitrate s =
      elim (o.parse_float (trim_suffix (trim_suffix (to_lower s) (codes "k")) (codes "m"))) [
        | none ↦ false
        | some n ↦ o.above n 0
      ]

  -- The id, which may be a string or a number.
  unfoldable pub read_id : Fields → Decoded Text
  unfolding get_field or_bad
  read_id fields = elim (get_field (codes "id" ∷ []) fields) [
    | none ↦ good []
    | some raw ↦ elim (o.string_of raw) [
      | some sid ↦ good (o.trim_space sid)
      | none ↦ do
        sid ← or_bad (codes "id must be a string or number") (o.number_text_of raw)
        good (o.trim_space sid)
    ]
  ]

  abbrev pub is_web : Address → Bool
  is_web u =
      not (is_empty u.host) && (text_eq u.scheme (codes "http") || text_eq u.scheme (codes "https"))

  unfoldable pub web_source : Text → Bool
  web_source s = elim (o.address_of s) [ none ↦ false | some u ↦ is_web u ]

  unfoldable pub read_source : Fields → Decoded Text
  unfolding get_field within string_field demand web_source
  read_source fields = do
    raw ←
        within (codes "source: ")
          (string_field (get_field (codes "source" ∷ codes "url" ∷ codes "stream" ∷ []) fields))
    demand (not (is_empty (o.trim_space raw))) (codes "source is required")
    demand (web_source (o.trim_space raw)) (codes "source must be an http(s) URL")
    good (o.trim_space raw)

  -- A text in lower case that must be one of some.
  unfoldable pub read_word : Text → Text → List Text → Fields → Decoded Text
  unfolding get_field within string_field demand one_of
  read_word what hint words fields = do
    raw ← within (what ++ codes ": ") (string_field (get_field (what ∷ []) fields))
    demand (one_of (to_lower (o.trim_space raw)) words)
        (what ++ (hint ++ (o.quote (to_lower (o.trim_space raw)) ++ codes ")")))
    good (to_lower (o.trim_space raw))

  unfoldable pub read_time : Text → List Text → Fields → Decoded Time
  unfolding get_field within or_bad parse_item_time
  read_time what keys fields = do
    raw ← or_bad (what ++ codes " is required") (get_field keys fields)
    within (what ++ codes ": ") (parse_item_time o raw)

  abbrev pub sound_key : Text → Bool
  sound_key key = not (contains key (codes "..")) && not (has_break key)

  unfoldable pub read_key : Fields → Decoded Text
  unfolding get_field within string_field demand trim_slash
  read_key fields = do
    raw ← within (codes "key: ") (
        string_field (get_field (codes "key" ∷ codes "objectKey" ∷ codes "object_key" ∷ []) fields))
    demand (sound_key (trim_slash (o.trim_space raw)))
        (codes "key must not contain '..' or line breaks")
    demand (leb (length (trim_slash (o.trim_space raw))) 900) (codes "key is longer than 900 bytes")
    good (trim_slash (o.trim_space raw))

  -- The bitrate's text or number.
  unfoldable pub bitrate_text : Text → Decoded Text
  bitrate_text raw = elim (o.string_of raw) [
    | some s ↦ good (o.trim_space s)
    | none ↦ elim (o.float_of raw) [
      | none ↦ bad (codes "bitrate must be a string like \"128k\" or a positive number")
      | some n ↦
          if o.above n 0
          then good (o.print_whole n)
          else bad (codes "bitrate must be a string like \"128k\" or a positive number")
    ]
  ]

  unfoldable pub read_bitrate : Fields → Decoded Text
  unfolding get_field bitrate_text demand valid_bitrate
  read_bitrate fields = elim (get_field (codes "bitrate" ∷ []) fields) [
    | none ↦ good []
    | some raw ↦ do
      b ← bitrate_text raw
      demand (is_empty b || valid_bitrate b)
          (codes "bitrate " ++ (o.quote b ++ codes " is not a valid ffmpeg bitrate"))
      good b
  ]

  abbrev pub sound_header : Text × Text → Bool
  sound_header (k, v) =
      not (is_empty (o.trim_space k)) && not (has_break k || has_colon k) && not (has_break v)

  -- The loop over the headers.
  unfoldable pub check_headers : List (Text × Text) → Decoded (Unit {0})
  unfolding demand has_break has_colon
  check_headers [] = good tt
  check_headers ((k, v) ∷ hs) = do
    demand (sound_header (k, v)) (codes "headers: invalid header " ++ o.quote k)
    check_headers hs

  unfoldable pub read_headers : Fields → Decoded (List (Text × Text))
  unfolding get_field within check_headers
  read_headers fields = elim (get_field (codes "headers" ∷ []) fields) [
    | none ↦ good []
    | some raw ↦ do
      hs ← within (codes "headers must be an object of strings: ") (o.headers_of raw)
      check_headers hs
      good hs
  ]

  -- A duration between 0 and six hours.
  unfoldable pub bounded_span : Text → Span → Decoded ℕ
  unfolding demand
  bounded_span what before_zero = bad (what ++ codes " must be between 0 and 6h")
  bounded_span what (span d) = do
    demand (leb d hours6) (what ++ codes " must be between 0 and 6h")
    good d

  -- One round of the loop over the durations; only the stall timeout has a least value.
  unfoldable pub read_span : Text → ℕ → List Text → Fields → Decoded (Option ℕ)
  unfolding get_field within parse_span bounded_span demand
  read_span what least keys fields = elim (get_field keys fields) [
    | none ↦ good none
    | some raw ↦ do
      parsed ← within (what ++ codes ": ") (parse_span o raw)
      d ← bounded_span what parsed
      demand (leb least d) (what ++ codes " must be at least 5s")
      good (some d)
  ]

  unfoldable pub read_insecure : Fields → Decoded Bool
  unfolding get_field or_bad
  read_insecure fields = elim (get_field (codes "insecureTLS" ∷ codes "insecure_tls" ∷ []) fields) [
    | none ↦ good false
    | some raw ↦ or_bad (codes "insecureTLS must be a boolean") (o.bool_of raw)
  ]

  abbrev pub or_empty : Option Text → Text
  or_empty none = []
  or_empty (some t) = t

  -- parseItem behind the id.
  unfoldable pub read_item : Text → Fields → Decoded Item
  unfolding demand read_source read_word read_time read_key read_bitrate read_headers read_span
      read_insecure get_field within string_field
  read_item id fields = do
    demand (not (is_empty id)) (codes "id is required")
    demand (leb (length id) 128) (codes "id is longer than 128 characters")
    name ←
        within (codes "name: ")
          (string_field (get_field (codes "name" ∷ codes "title" ∷ []) fields))
    source ← read_source fields
    type ← read_word (codes "type") (codes " must be hls, icecast or auto (got ") types fields
    start ←
        read_time (codes "start")
          (codes "start" ∷ codes "startTime" ∷ codes "start_time" ∷ codes "from" ∷ []) fields
    end ←
        read_time (codes "end") (codes "end" ∷ codes "endTime" ∷ codes "end_time" ∷ codes "to" ∷ [])
          fields
    demand (ltb start.instant end.instant) (codes "end must be after start")
    key ← read_key fields
    codec ← read_word (codes "codec") (codes " must be auto, aac or copy (got ") codecs fields
    bitrate ← read_bitrate fields
    headers ← read_headers fields
    start_early ←
        read_span (codes "startEarly") 0 (codes "startEarly" ∷ codes "start_early" ∷ []) fields
    stop_late ← read_span (codes "stopLate") 0 (codes "stopLate" ∷ codes "stop_late" ∷ []) fields
    stall_timeout ←
        read_span (codes "stallTimeout") seconds5
          (codes "stallTimeout" ∷ codes "stall_timeout" ∷ []) fields
    insecure_tls ← read_insecure fields
    good (record {
      id = id;
      name = name;
      source = source;
      type = type;
      start = start.instant;
      end = end.instant;
      key = key;
      codec = codec;
      bitrate = bitrate;
      headers = headers;
      start_early = start_early;
      stop_late = stop_late;
      stall_timeout = stall_timeout;
      insecure_tls = insecure_tls;
      stream_info = or_empty (get_field (codes "streamInfo" ∷ codes "stream_info" ∷ []) fields);
    })

  -- parseItem's answer as Parse takes it: the id, as far as it was read, stands beside the error.
  unfoldable pub item_entry : Text → Decoded Item → Entry
  item_entry id (good it) = valid it
  item_entry id (bad why) = invalid id why

  unfoldable pub read_entry : Fields → Decoded Text → Entry
  unfolding item_entry read_item
  read_entry fields (bad why) = invalid [] why
  read_entry fields (good id) = item_entry id (read_item id fields)

  -- parseItem
  unfoldable pub parse_item : Text → Entry
  unfolding read_entry read_id
  parse_item raw = elim (o.object_of raw) [
    | bad why ↦ invalid [] (codes "item is not an object: " ++ why)
    | good fields ↦ read_entry fields (read_id fields)
  ]

  -- The entries of a document that is an object: the first of the fields that has them.
  unfoldable pub array_field : List Text → Fields → Decoded (List Text)
  unfolding within
  array_field [] doc = bad (codes "document must be an array or an object with an \"items\" array")
  array_field (k ∷ ks) doc = elim (find_key k doc) [
    | none ↦ array_field ks doc
    | some raw ↦
        if text_eq raw (codes "null")
        then array_field ks doc
        else within (codes "field " ++ (o.quote k ++ codes " is not an array: ")) (o.array_of raw)
  ]

  unfoldable pub raw_items : Text → Decoded (List Text)
  unfolding within array_field
  raw_items [] = bad (codes "empty document")
  raw_items (c ∷ text) =
      if c == b'['
      then within (codes "invalid JSON array: ") (o.array_of (c ∷ text))
      else (within (codes "invalid JSON document: ") (o.object_of (c ∷ text))
          >>= array_field (codes "items" ∷ codes "streams" ∷ codes "recordings" ∷ []))

  -- Parse; `none` is the error that all entries are invalid.
  unfoldable pub parse_document : Text → Decoded (Option Schedule)
  unfolding raw_items parse_item parse_items
  parse_document text = do
    raws ← raw_items (o.trim_space text)
    good (parse_items (map parse_item raws))
