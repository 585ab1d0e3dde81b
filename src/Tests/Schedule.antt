-- ===== src/Tests/Schedule.antt =====
-- internal/schedule at small documents.
use spectado_stream_recorder.Common.{
  ℕ, ◌+◌, ◌≡◌, refl, inl, inr, true, false, none, some, List, [], ◌∷◌, length, Apart,
}
use spectado_stream_recorder.Common.Text.{text_eq}
use spectado_stream_recorder.Schedule.Document.{
  Item, Schedule, Entry, valid, invalid, rejected, present, gather, gather_entry, gather_item, seen,
  find_key, insert_item, sort_items, parse_items,
}
use spectado_stream_recorder.Schedule.Document.Unique.{Differ}
use spectado_stream_recorder.Schedule.Document.Sorted.{
  NotAfter, parse_items_unique, parse_items-present,
}

-- An item of one id, without a key.
abbrev pub item : ℕ → ℕ → Item
item id start = record {
  id = id ∷ [];
  name = [];
  source = [];
  type = [];
  start = start;
  end = start + 10;
  key = [];
  codec = [];
  bitrate = [];
  headers = [];
  start_early = none;
  stop_late = none;
  stall_timeout = none;
  insecure_tls = false;
  stream_info = [];
}

-- Two items out of order, and an entry that was edited into an error.
abbrev pub entries : List Entry
entries = valid (item 97 20) ∷ valid (item 98 10) ∷ invalid (99 ∷ []) [] ∷ []

abbrev pub parsed : Schedule
parsed = record {
  items = item 98 10 ∷ item 97 20 ∷ [];
  invalid = record { index = 2; id = 99 ∷ []; reason = rejected [] } ∷ [];
}

pub entries-parsed : parse_items entries ≡ some parsed
unfolding parse_items gather gather_entry gather_item seen find_key text_eq insert_item sort_items
entries-parsed = refl

parse_items_unique_example :
    Apart NotAfter parsed.items
    × Apart Differ parsed.items
    × (length parsed.items + length parsed.invalid ≡ length entries)
parse_items_unique_example = parse_items_unique entries entries-parsed

parse_items-present_example : present (99 ∷ []) (some parsed) ≡ true
parse_items-present_example =
    parse_items-present entries (99 ∷ []) entries-parsed (λ e. cc) (inr (inr (inl refl)))
