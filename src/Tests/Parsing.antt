-- ===== src/Tests/Parsing.antt =====
-- internal/schedule/schedule.go and internal/storage/s3.go at decoders that take texts as they are,
-- and internal/hls/livelist.go at a master playlist.
use spectado_stream_recorder.Common.{
  ℕ, ◌+◌, ◌-◌, ◌*◌, ◌≤◌, max, ◌≡◌, refl, ◌⊎◌, inl, arith, Bool, true, false, ◌&&◌, Option, none,
  some, List, [], ◌∷◌, ◌++◌, ltb, leb, ◌==◌, if◌then◌else◌, All,
}
use spectado_stream_recorder.Common.Text.{
  Text, text_eq, codes, has_prefix, to_lower, contains, trim, trim_left, trim_right,
}
use spectado_stream_recorder.Schedule.Document.{Item, find_key, seen}
use spectado_stream_recorder.Schedule.Parsing.{parse_document}
use spectado_stream_recorder.Schedule.Decoding.{good, ◌>>=◌, ◌>>◌, Decoding, span}
use spectado_stream_recorder.Schedule.Parsing.Bounds.{Accepted, parse_document-Accepted}
use spectado_stream_recorder.Storage.{
  Library, is_reserved, sanitize_key, sanitize_value, sanitize_metadata, plain_runes, all_ascii,
  key_runes, key_rune, nothing_built, add_entries,
}
use spectado_stream_recorder.Storage.Metadata.{
  Has, size_of, sanitize_metadata-reserved, sanitize_metadata-budget,
}
use spectado_stream_recorder.Hls.{
  Library as HlsLibrary, not_playlist, broken_input, parsed, LivePlaylist, attr, attr_loop,
  index_of, at_boundary, slice_from, parse_live,
}
use spectado_stream_recorder.Hls.Attributes.{IsAscii, parse_live-total}
use spectado_stream_recorder.Adts.Scan.{Info, scan}
use spectado_stream_recorder.Adts.Scan.RunScan.{RunInfo, Total, scan_file_runs}
use spectado_stream_recorder.Adts.Scan.Totals.{SameTotals, scan_file_runs-scan}
use spectado_stream_recorder.Tests.Adts.{frame8}
use spectado_stream_recorder.Tests.Scan.{milliseconds}

-- Every object has these fields; every text that begins with a digit is a number of hours.
abbrev fields : List (Text × Text)
fields =
    (codes "id", codes "a")
    ∷ (codes "source", codes "http")
    ∷ (codes "start", codes "3")
    ∷ (codes "end", codes "4")
    ∷ []

abbrev first_digit : Text → Option ℕ
first_digit [] = none
first_digit (c ∷ s) = if leb b'0' c && leb c b'9' then some (c - b'0') else none

abbrev decoding : Decoding ℕ
decoding = record {
  array_of = λ t. good (t ∷ []);
  object_of = λ t. good fields;
  headers_of = λ t. good [];
  string_of = λ t. some t;
  number_text_of = λ t. some t;
  float_of = first_digit;
  bool_of = λ t. some true;
  trim_space = λ t. t;
  quote = λ t. t;
  address_of = λ t. some (record { scheme = t; host = t });
  parse_float = first_digit;
  parse_duration = λ t. none;
  not_finite = λ n. false;
  below_zero = λ n. false;
  above = λ n k. ltb k n;
  whole = λ n. n;
  fraction = λ n. 0;
  seconds = λ n. span n;
  print_whole = λ n. n ∷ [];
  print_float = λ n. n ∷ [];
  year_of = λ n. 2026;
  layout_time = λ l t. none;
}

abbrev library : Library
library = record {
  runes = λ t. t;
  utf8 = λ r. r ∷ [];
  lower = λ t. t;
  trim_space = λ t. t;
  encode_word = λ t. t;
}

abbrev hls_library : HlsLibrary ℕ
hls_library = record {
  trim_space = λ t. t;
  upper = λ t. t;
  parse_float = first_digit;
  unusable = λ n. false;
  zero_seconds = 0;
  to_nanos = λ n. n;
  parse_nano = λ t. none;
  parse_plain = λ t. none;
}

abbrev master_lines : List Text
master_lines = codes "#EXTM3U" ∷ codes "#EXT-X-MEDIA:TYPE=AUDIO,URI=\"a.m3u8\"" ∷ []

all_below_128 : Text → Bool
all_below_128 [] = true
all_below_128 (c ∷ t) = ltb c 128 && all_below_128 t

below_128 : (t : Text) → all_below_128 t ≡ true → IsAscii t
unfolding all_below_128
below_128 [] h = tt
below_128 (c ∷ t) h = (ground (arith, h), below_128 t (ground (arith, h)))

master_lines-IsAscii : All IsAscii master_lines
unfolding all_below_128
master_lines-IsAscii = (
  below_128 (codes "#EXTM3U") refl,
  (below_128 (codes "#EXT-X-MEDIA:TYPE=AUDIO,URI=\"a.m3u8\"") refl, tt),
)

parse_live-total_example :
    (parse_live hls_library (λ u. u) false master_lines ≡ broken_input)
    ⊎ (parse_live hls_library (λ u. u) false master_lines ≡ not_playlist)
    ⊎ ((p : LivePlaylist ℕ) × (parse_live hls_library (λ u. u) false master_lines ≡ parsed p)
        × (p.master ≡ true → p.segments ≡ []))
parse_live-total_example =
    parse_live-total hls_library (record { upper_length = λ t h. refl; trim_ascii = λ t h. h })
      (λ u. u) false master_lines master_lines-IsAscii

-- strings.ToUpper of the letter of the bytes 201 and 144 has three bytes.
abbrev grow : Text → Text
grow [] = []
grow (c ∷ s) = if c == 201 then 226 ∷ 177 ∷ grow s else c ∷ grow s

abbrev grown : HlsLibrary ℕ
grown = record hls_library { upper = grow }

-- So the search of attr runs out of range.
attr_panics :
    attr grown (201 ∷ 144 ∷ 201 ∷ 144 ∷ 201 ∷ 144 ∷ 201 ∷ 144 ∷ codes ",URI=x") (codes "URI") ≡ none
unfolding attr attr_loop index_of has_prefix at_boundary slice_from
attr_panics = refl

scan_file_runs-scan_example :
    (i : Info ℕ) × (runs : List (RunInfo ℕ)) × (t : Total milliseconds) × (scan milliseconds
        (frame8 ++ frame8)
      ≡ some i)
    × (scan_file_runs milliseconds (0 ∷ 8 ∷ []) (frame8 ++ frame8) ≡ some (runs, t))
    × SameTotals milliseconds i 16 t
scan_file_runs-scan_example = scan_file_runs-scan milliseconds (0 ∷ 8 ∷ []) (frame8 ++ frame8)

abbrev entries : List (Text × Text)
entries = (codes "parts", codes "2") ∷ (codes "title", codes "x") ∷ []

sanitize_metadata-budget_example :
    size_of library (sanitize_metadata library entries).out
    ≤ max 1800 (size_of library (add_entries library true entries (nothing_built library)).out)
sanitize_metadata-budget_example = sanitize_metadata-budget library entries

sanitize_metadata-reserved_example : Has library (codes "parts") (sanitize_metadata library entries)
unfolding sanitize_key key_runes key_rune trim trim_left trim_right is_reserved text_eq
    sanitize_value plain_runes all_ascii
sanitize_metadata-reserved_example =
    sanitize_metadata-reserved library (codes "parts") (codes "2") entries (inl (refl, refl)) refl
      refl refl

abbrev document : Text
document = codes "[]"

abbrev only : Item
only = record {
  id = codes "a";
  name = [];
  source = codes "http";
  type = [];
  start = 62_135_596_800 * 1_000_000_000 + 3 * 1_000_000_000 + 0;
  end = 62_135_596_800 * 1_000_000_000 + 4 * 1_000_000_000 + 0;
  key = [];
  codec = [];
  bitrate = [];
  headers = [];
  start_early = none;
  stop_late = none;
  stall_timeout = none;
  insecure_tls = false;
  stream_info = [];
}

document_parsed :
    parse_document decoding document ≡ good (some (record { items = only ∷ []; invalid = [] }))
unfolding parse_document ◌>>=◌ ◌>>◌ find_key text_eq to_lower contains seen
document_parsed = refl

parse_document-Accepted_example : All (Accepted decoding) (only ∷ [])
parse_document-Accepted_example = parse_document-Accepted decoding document document_parsed
