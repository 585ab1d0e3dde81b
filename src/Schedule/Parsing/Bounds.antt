-- ===== src/Schedule/Parsing/Bounds.antt =====
-- What an item has that Parse accepts.
use mathlib.Core.Path.{subst}
use spectado_stream_recorder.Common.{
  ℕ, ◌≤◌, ◌<◌, ◌≡◌, refl, inl, inr, true, false, not, ◌||◌, Option, none, some, List, [], ◌∷◌, map,
  arith, ltb, leb, ltb→lt, leb→le, Option-cases, option_both, length, All,
}
use spectado_stream_recorder.Common.Text.{Text, is_empty, to_lower, codes}
use spectado_stream_recorder.Schedule.Document.{Item, Schedule, Entry, valid, invalid}
use spectado_stream_recorder.Schedule.Document.Every.{ValidEntries, parse_items_all}
use spectado_stream_recorder.Schedule.Parsing.{
  valid_bitrate, read_id, web_source, read_source, read_word, read_time, sound_key, read_key,
  read_bitrate, sound_header, check_headers, read_headers, bounded_span, read_span, read_item,
  item_entry, read_entry, parse_item, parse_document,
}
use spectado_stream_recorder.Schedule.Decoding.{
  Decoded, good, bad, Time, Span, before_zero, span, Decoding, hours6, seconds5, Fields, get_field,
  one_of, types, codecs, plausible, unix_time, time_of_float, time_of_text, parse_item_time,
  trim_slash,
}
use spectado_stream_recorder.Schedule.Parsing.Holds.{
  Holds, value, refusal, held, Holds-bind, Holds-any, Holds-demand, Holds-then, Holds-within,
  Holds-map,
}

-- A duration that is set lies between `least` and six hours.
abbrev pub SpanIn : ℕ → Option ℕ → Type 0
SpanIn least none = Unit
SpanIn least (some d) = (least ≤ d) × (d ≤ hours6)

module _ {F : Type 0} (o : Decoding F) where
  pub record Accepted (it : Item) : Type 0 where
    pub id_set : is_empty it.id ≡ false
    pub id_short : length it.id ≤ 128
    pub source_web : web_source o it.source ≡ true
    pub type_known : one_of it.type types ≡ true
    pub start_plausible : (t : Time) × (plausible o t ≡ true) × (it.start ≡ t.instant)
    pub end_plausible : (t : Time) × (plausible o t ≡ true) × (it.end ≡ t.instant)
    pub ends_after : it.start < it.end
    pub key_sound : sound_key o it.key ≡ true
    pub key_short : length it.key ≤ 900
    pub codec_known : one_of it.codec codecs ≡ true
    pub bitrate_valid : is_empty it.bitrate || valid_bitrate o it.bitrate ≡ true
    pub headers_sound : All (λ h. sound_header o h ≡ true) it.headers
    pub early_bounded : SpanIn 0 it.start_early
    pub late_bounded : SpanIn 0 it.stop_late
    pub stall_bounded : SpanIn seconds5 it.stall_timeout

  time_of_float-plausible :
      (n : F) (shown : Text) → Holds (λ t. plausible o t ≡ true) (time_of_float o n shown)
  unfolding time_of_float
  time_of_float-plausible n shown = Holds-demand (plausible o (unix_time o n)) _ (λ h. value h)

  time_of_text-plausible : (s : Text) → Holds (λ t. plausible o t ≡ true) (time_of_text o s)
  unfolding time_of_text
  time_of_text-plausible s = elim (Option-cases (o.parse_float s)) [
    | inl e ↦
        rw (e, time_of_text) (Holds-any _ (λ t. Holds-demand (plausible o t) _ (λ h. value h)))
    | inr (n, e) ↦ rw (e, time_of_text) (time_of_float-plausible n (o.quote s))
  ]

  parse_item_time-plausible :
      (raw : Text) → Holds (λ t. plausible o t ≡ true) (parse_item_time o raw)
  unfolding parse_item_time
  parse_item_time-plausible raw = elim (Option-cases (o.float_of raw)) [
    | inl e ↦
        rw (e, parse_item_time)
          (Holds-any _ (λ s.
            Holds-demand (not (is_empty (o.trim_space s))) _
              (λ h. time_of_text-plausible (o.trim_space s))))
    | inr (n, e) ↦ rw (e, parse_item_time) (time_of_float-plausible n (o.print_float n))
  ]

  read_source-web : (fields : Fields) → Holds (λ s. web_source o s ≡ true) (read_source o fields)
  unfolding read_source
  read_source-web fields = Holds-any _ λ raw.
      Holds-demand (not (is_empty (o.trim_space raw))) _
        λ h. Holds-demand (web_source o (o.trim_space raw)) _ λ k. value k

  read_word_known :
      (what hint : Text) (words : List Text) (fields : Fields)
      → Holds (λ w. one_of w words ≡ true) (read_word o what hint words fields)
  unfolding read_word
  read_word_known what hint words fields =
      Holds-any _ λ raw. Holds-demand (one_of (to_lower (o.trim_space raw)) words) _ λ k. value k

  read_time-plausible :
      (what : Text) (keys : List Text) (fields : Fields)
      → Holds (λ t. plausible o t ≡ true) (read_time o what keys fields)
  unfolding read_time
  read_time-plausible what keys fields =
      Holds-any _ λ raw. Holds-within _ (parse_item_time-plausible raw)

  read_key_sound :
      (fields : Fields) → Holds (λ k. (sound_key o k ≡ true) × (length k ≤ 900)) (read_key o fields)
  unfolding read_key
  read_key_sound fields = Holds-any _ λ raw.
      Holds-demand (sound_key o (trim_slash (o.trim_space raw))) _ λ h.
        Holds-demand (leb (length (trim_slash (o.trim_space raw))) 900) _
          λ l. value (h, leb→le _ _ l)

  read_bitrate-valid :
      (fields : Fields)
      → Holds (λ b. is_empty b || valid_bitrate o b ≡ true) (read_bitrate o fields)
  unfolding read_bitrate
  read_bitrate-valid fields =
      option_both (Holds (λ b. is_empty b || valid_bitrate o b ≡ true))
        (get_field (codes "bitrate" ∷ []) fields) (good []) _ (value refl)
        λ raw. Holds-any _ λ b. Holds-demand (is_empty b || valid_bitrate o b) _ λ h. value h

  check_headers_all :
      (hs : List (Text × Text))
      → Holds (λ _. All (λ h. sound_header o h ≡ true) hs) (check_headers o hs)
  unfolding check_headers
  check_headers_all [] = value tt
  check_headers_all ((k, v) ∷ hs) =
      Holds-demand (sound_header o (k, v)) _ λ h. Holds-map (check_headers_all hs) (λ u hs. (h, hs))

  read_headers_all :
      (fields : Fields)
      → Holds (λ hs. All (λ h. sound_header o h ≡ true) hs) (read_headers o fields)
  unfolding read_headers
  read_headers_all fields = elim (Option-cases (get_field (codes "headers" ∷ []) fields)) [
    | inl e ↦ rw (e, read_headers) (value tt)
    | inr (raw, e) ↦
        rw (e, read_headers) (Holds-any _ λ hs. Holds-then (check_headers_all hs) (λ h. value h))
  ]

  bounded_span-le : (what : Text) (d : Span) → Holds (λ n. n ≤ hours6) (bounded_span o what d)
  unfolding bounded_span
  bounded_span-le what before_zero = refusal
  bounded_span-le what (span d) = Holds-demand (leb d hours6) _ λ h. value (leb→le _ _ h)

  read_span-SpanIn :
      (what : Text) (least : ℕ) (keys : List Text) (fields : Fields)
      → Holds (SpanIn least) (read_span o what least keys fields)
  unfolding read_span
  read_span-SpanIn what least keys fields = elim (Option-cases (get_field keys fields)) [
    | inl e ↦ rw (e, read_span) (value tt)
    | inr (raw, e) ↦
        rw (e, read_span)
          (Holds-any _ λ parsed.
            Holds-bind (bounded_span-le what parsed)
              λ d l. Holds-demand (leb least d) _ λ h. value (leb→le _ _ h, l))
  ]

  read_item-Accepted : (id : Text) (fields : Fields) → Holds Accepted (read_item o id fields)
  unfolding read_item
  read_item-Accepted id fields = Holds-demand (not (is_empty id)) _ λ set.
      Holds-demand (leb (length id) 128) _ λ short. Holds-any _ λ name.
        Holds-bind (read_source-web fields) λ source web.
          Holds-bind
            (read_word_known (codes "type") (codes " must be hls, icecast or auto (got ") types
              fields)
            λ type known.
              Holds-bind
                (read_time-plausible (codes "start")
                  (codes "start" ∷ codes "startTime" ∷ codes "start_time" ∷ codes "from" ∷ [])
                  fields)
                λ start from.
                  Holds-bind
                    (read_time-plausible (codes "end")
                      (codes "end" ∷ codes "endTime" ∷ codes "end_time" ∷ codes "to" ∷ []) fields)
                    λ end to. Holds-demand (ltb start.instant end.instant) _ λ after.
                      Holds-bind (read_key_sound fields) λ key sound.
                        Holds-bind
                          (read_word_known (codes "codec")
                            (codes " must be auto, aac or copy (got ") codecs fields)
                          λ codec decoded. Holds-bind (read_bitrate-valid fields) λ bitrate rate.
                            Holds-bind (read_headers_all fields) λ headers all.
                              Holds-bind
                                (read_span-SpanIn (codes "startEarly") 0
                                  (codes "startEarly" ∷ codes "start_early" ∷ []) fields)
                                λ early in_early.
                                  Holds-bind
                                    (read_span-SpanIn (codes "stopLate") 0
                                      (codes "stopLate" ∷ codes "stop_late" ∷ []) fields)
                                    λ late in_late.
                                      Holds-bind
                                        (read_span-SpanIn (codes "stallTimeout") seconds5
                                          (codes "stallTimeout" ∷ codes "stall_timeout" ∷ [])
                                          fields)
                                        λ stall in_stall. Holds-any _ λ insecure. value (record {
                                          id_set = ground (arith, set);
                                          id_short = leb→le _ _ short;
                                          source_web = web;
                                          type_known = known;
                                          start_plausible = (start, from, refl);
                                          end_plausible = (end, to, refl);
                                          ends_after = ltb→lt _ _ after;
                                          key_sound = sound.0;
                                          key_short = sound.1;
                                          codec_known = decoded;
                                          bitrate_valid = rate;
                                          headers_sound = all;
                                          early_bounded = in_early;
                                          late_bounded = in_late;
                                          stall_bounded = in_stall;
                                        })

  abbrev EntryAccepted : Entry → Type 0
  EntryAccepted (valid it) = Accepted it
  EntryAccepted (invalid id why) = Unit

  item_entry-Accepted :
      (id : Text) (p : Decoded Item) → Holds Accepted p → EntryAccepted (item_entry o id p)
  unfolding item_entry
  item_entry-Accepted id (good it) h = held Accepted it h
  item_entry-Accepted id (bad why) h = tt

  read_entry-Accepted :
      (fields : Fields) (id : Decoded Text) → EntryAccepted (read_entry o fields id)
  unfolding read_entry
  read_entry-Accepted fields (good id) =
      item_entry-Accepted id (read_item o id fields) (read_item-Accepted id fields)
  read_entry-Accepted fields (bad why) = tt

  parse_item-Accepted : (raw : Text) → EntryAccepted (parse_item o raw)
  unfolding parse_item
  parse_item-Accepted raw = decoded (o.object_of raw) refl
    where
      decoded : (p : Decoded Fields) → o.object_of raw ≡ p → EntryAccepted (parse_item o raw)
      decoded (bad why) e = rw (e, parse_item) tt
      decoded (good fields) e = rw (e, parse_item) (read_entry-Accepted fields (read_id o fields))

  entry_first :
      (e : Entry) (es : List Entry)
      → EntryAccepted e
      → ValidEntries Accepted es
      → ValidEntries Accepted (e ∷ es)
  entry_first (valid it) es a v = (a, v)
  entry_first (invalid id why) es a v = v

  entries-Accepted : (raws : List Text) → ValidEntries Accepted (map (parse_item o) raws)
  entries-Accepted [] = tt
  entries-Accepted (raw ∷ raws) =
      entry_first (parse_item o raw) (map (parse_item o) raws) (parse_item-Accepted raw)
        (entries-Accepted raws)

  document-Accepted :
      (text : Text)
      → Holds (λ r. (s : Schedule) → r ≡ some s → All Accepted s.items) (parse_document o text)
  unfolding parse_document
  document-Accepted text = Holds-any _ λ raws.
      value λ s e. parse_items_all Accepted (map (parse_item o) raws) (entries-Accepted raws) e

  -- Whatever the document holds, an item that Parse accepts keeps to the bounds: the id is there and
  -- has 128 bytes at most, the source is a web address, type and codec are among the known ones, both
  -- times are plausible and the end is after the start, the key has 900 bytes at most, no ".." and no
  -- line break, the bitrate is valid where there is one, no header breaks a line, and the durations
  -- are six hours at most, the stall timeout five seconds at least.
  pub parse_document-Accepted :
      (text : Text) {s : Schedule} → parse_document o text ≡ good (some s) → All Accepted s.items
  parse_document-Accepted text {s} e =
      held (λ r. (s : Schedule) → r ≡ some s → All Accepted s.items) (some s)
        (subst (Holds (λ r. (s : Schedule) → r ≡ some s → All Accepted s.items)) e
          (document-Accepted text))
        s refl
