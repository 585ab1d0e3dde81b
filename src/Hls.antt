-- ===== src/Hls.antt =====
-- internal/hls/livelist.go: ParseLive over the lines that bufio.Scanner gives behind the byte order
-- mark; `broken` is whether it ends with an error. Texts are bytes; a time is a number of nanoseconds since Go's zero time, which is 0.
-- `Library` is what the standard library does here; `F` is float64. A slice out of range is `none`.
pub mod Attributes
use spectado_stream_recorder.Common.{
  ℕ, zero, suc, ◌+◌, ◌-◌, ◌*◌, ◌/◌, ◌%◌, ◌^◌, ◌≤◌, ◌<◌, min, max, ◌≡◌, refl, sym, ap, ◌∙◌, ◌≢◌, ◌↔◌,
  ◌⊎◌, inl, inr, Bool, true, false, not, ◌&&◌, ◌||◌, Option, none, some, List, [], ◌∷◌, ◌++◌, map,
  append-nil, append_assoc, arith, ltb, leb, ◌==◌, if◌then◌else◌, ltb→lt, lt→ltb, leb→le, ==_iff,
  Bool-cases, Option-cases, if_both, if_cases, option_both, nat_both, length, get_or, take, drop,
  All, length-append, take-append-drop, length-take, length-drop, take-length-append,
  drop-length-append, drop-drop, All-map, All-concat, Apart, Apart-concat, Bytes, at, IsByte,
}
use spectado_stream_recorder.Common.Text.{Text, text_eq, is_empty, has_prefix, contains, codes}

pub record Library (F : Type 0) : Type 0 where
  pub trim_space : Text → Text
  pub upper : Text → Text
  -- strconv.ParseFloat; d < 0, infinite or NaN; 0; and d seconds in nanoseconds
  pub parse_float : Text → Option F
  pub unusable : F → Bool
  pub zero_seconds : F
  pub to_nanos : F → ℕ
  -- time.Parse by RFC3339Nano and by RFC3339
  pub parse_nano : Text → Option ℕ
  pub parse_plain : Text → Option ℕ

-- LiveSegment
pub record LiveSegment (F : Type 0) : Type 0 where
  pub uri : Text
  pub duration : F
  pub program_date_time : ℕ

-- LivePlaylist
pub record LivePlaylist (F : Type 0) : Type 0 where
  pub master : Bool
  pub variant : Text
  pub segments : List (LiveSegment F)
  pub end_list : Bool

-- ParseLive's answer.
pub data LiveAnswer (F : Type 0) : Type 0 where
  not_playlist broken_input panicked : LiveAnswer F
  parsed : LivePlaylist F → LiveAnswer F

-- The variables of the loop; havePDT and haveInherit are whether the times are there.
pub record Live (F : Type 0) : Type 0 where
  pub playlist : LivePlaylist F
  pub dur : F
  pub pdt : Option ℕ
  pub prev_end : Option ℕ
  pub variant_uri : Text
  pub audio_uri : Text
  pub expect_variant : Bool

-- strings.Index
unfoldable pub index_of : Text → Text → Option ℕ
index_of [] t = if is_empty t then some 0 else none
index_of (c ∷ s) t =
    if has_prefix (c ∷ s) t
    then some 0
    else elim (index_of s t) [ none ↦ none | some i ↦ some (suc i) ]

-- What stands in front of the first byte `b`.
unfoldable pub before_byte : ℕ → Text → Option Text
before_byte b [] = none
before_byte b (c ∷ s) =
    if c == b then some [] else elim (before_byte b s) [ none ↦ none | some t ↦ some (c ∷ t) ]

-- What stands behind a prefix that is there.
abbrev pub behind : Text → Text → Text
behind prefix line = drop (length prefix) line

-- Whether an attribute may begin at an index; the byte in front of it is read.
unfoldable pub at_boundary : Text → ℕ → Option Bool
at_boundary rest zero = some true
at_boundary rest (suc j) =
    if ltb j (length rest)
    then some (at rest j == b',' || at rest j == b' ' || at rest j == b':')
    else none

-- A slice from an index on.
unfoldable pub slice_from : Text → ℕ → Option Text
slice_from rest i = if leb i (length rest) then some (drop i rest) else none

module _ {F : Type 0} (o : Library F) where
  unfoldable pub quoted_value : Text → Text
  unfolding before_byte
  quoted_value v = elim (before_byte b'"' v) [ some t ↦ t | none ↦ o.trim_space v ]

  unfoldable pub bare_value : Text → Text
  unfolding before_byte
  bare_value v = elim (before_byte b',' v) [ some t ↦ o.trim_space t | none ↦ o.trim_space v ]

  unfoldable pub attr_value : Text → Text
  unfolding quoted_value bare_value
  attr_value [] = bare_value []
  attr_value (c ∷ v) = if c == b'"' then quoted_value v else bare_value (c ∷ v)

  -- The loop of attr; each round takes a byte at least.
  unfoldable pub attr_loop : ℕ → Text → Text → Option Text
  unfolding index_of at_boundary slice_from attr_value
  attr_loop zero up rest = none
  attr_loop (suc fuel) up rest = elim (index_of (o.upper rest) up) [
    | none ↦ some []
    | some i ↦ elim (at_boundary rest i) [
      | none ↦ none
      | some ok ↦ elim (slice_from rest (i + length up)) [
        | none ↦ none
        | some v ↦ elim ok [ true ↦ some (attr_value v) | false ↦ attr_loop fuel up v ]
      ]
    ]
  ]

  -- attr
  unfoldable pub attr : Text → Text → Option Text
  unfolding attr_loop
  attr line key = attr_loop (suc (length line)) (o.upper key ++ codes "=") line

  -- parseTime
  unfoldable pub parse_date : Text → Option ℕ
  parse_date v = elim (o.parse_nano (o.trim_space v)) [
    | some t ↦ some t
    | none ↦ o.parse_plain (o.trim_space v)
  ]

  unfoldable pub segment_seconds : Text → F
  unfolding before_byte
  segment_seconds v =
      let text : Text = elim (before_byte b',' v) [ some t ↦ t | none ↦ v ] in
      elim (o.parse_float (o.trim_space text)) [
        | none ↦ o.zero_seconds
        | some d ↦ if o.unusable d then o.zero_seconds else d
      ]

  -- A segment's time: its own, or the end of the one before it.
  unfoldable pub segment_time : Live F → ℕ
  segment_time l = elim l.pdt [ some t ↦ t | none ↦ elim l.prev_end [ some t ↦ t | none ↦ 0 ] ]

  -- A line that is no tag.
  unfoldable pub take_uri : Text → Live F → Live F
  unfolding segment_time
  take_uri line l =
      if l.expect_variant
      then record l {
        variant_uri = if is_empty l.variant_uri then line else l.variant_uri;
        expect_variant = false;
      }
      else (let time = segment_time l in
          let segment : LiveSegment F = record {
            uri = line;
            duration = l.dur;
            program_date_time = time;
          } in
          record l {
            playlist = record l.playlist { segments = l.playlist.segments ++ (segment ∷ []) };
            prev_end = if time == 0 then none else some (time + o.to_nanos l.dur);
            dur = o.zero_seconds;
            pdt = none;
          })

  -- #EXT-X-MEDIA
  unfoldable pub take_media : Text → Live F → Option (Live F)
  unfolding attr
  take_media line l =
      if is_empty l.audio_uri && contains (o.upper line) (codes "TYPE=AUDIO")
      then (elim (attr line (codes "URI")) [
        | none ↦ none
        | some u ↦ some (record l { audio_uri = u })
      ])
      else some l

  unfoldable pub take_date : Text → Live F → Live F
  unfolding parse_date
  take_date v l = elim (parse_date v) [ none ↦ l | some t ↦ record l { pdt = some t } ]

  -- A line behind the first.
  unfoldable pub take_line : Text → Live F → Option (Live F)
  unfolding take_uri take_media take_date segment_seconds
  take_line line l =
      if has_prefix line (codes "#EXT-X-ENDLIST")
      then some (record l { playlist = record l.playlist { end_list = true } })
      else if has_prefix line (codes "#EXT-X-STREAM-INF")
      then some (record l { expect_variant = true })
      else if has_prefix line (codes "#EXT-X-MEDIA:")
      then take_media line l
      else if has_prefix line (codes "#EXT-X-PROGRAM-DATE-TIME:")
      then some (take_date (behind (codes "#EXT-X-PROGRAM-DATE-TIME:") line) l)
      else if has_prefix line (codes "#EXTINF:")
      then some (record l { dur = segment_seconds (behind (codes "#EXTINF:") line) })
      else if has_prefix line (codes "#")
      then some l
      else some (take_uri line l)

  unfoldable pub take_lines : List Text → Live F → Option (Live F)
  unfolding take_line
  take_lines [] l = some l
  take_lines (raw ∷ raws) l = elim (o.trim_space raw) [
    | [] ↦ take_lines raws l
    | c ∷ line ↦ elim (take_line (c ∷ line) l) [ none ↦ none | some k ↦ take_lines raws k ]
  ]

  abbrev pub no_live : Live F
  no_live = record {
    playlist = record { master = false; variant = []; segments = []; end_list = false };
    dur = o.zero_seconds;
    pdt = none;
    prev_end = none;
    variant_uri = [];
    audio_uri = [];
    expect_variant = false;
  }

  -- Behind the loop: without segments, a playlist with a variant or an audio is a master.
  unfoldable pub finish_live : (Text → Text) → Live F → LivePlaylist F
  finish_live resolve l =
      let uri = if is_empty l.variant_uri then l.audio_uri else l.variant_uri in
      if length l.playlist.segments == 0 && not (is_empty uri)
      then record l.playlist { master = true; variant = resolve uri }
      else l.playlist

  -- The lines behind the first.
  unfoldable pub parse_rest : (Text → Text) → Bool → List Text → LiveAnswer F
  unfolding take_lines finish_live
  parse_rest resolve broken raws = elim (take_lines raws no_live) [
    | none ↦ panicked
    | some l ↦ if broken then broken_input else parsed (finish_live resolve l)
  ]

  -- ParseLive; `resolve` is resolve at the base.
  unfoldable pub parse_live : (Text → Text) → Bool → List Text → LiveAnswer F
  unfolding parse_rest
  parse_live resolve broken [] = if broken then broken_input else not_playlist
  parse_live resolve broken (raw ∷ raws) = elim (o.trim_space raw) [
    | [] ↦ parse_live resolve broken raws
    | c ∷ line ↦
        if has_prefix (c ∷ line) (codes "#EXTM3U")
        then parse_rest resolve broken raws
        else not_playlist
  ]
