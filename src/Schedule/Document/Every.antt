-- ===== src/Schedule/Document/Every.antt =====
-- What every valid entry has, every item of the schedule has.
use spectado_stream_recorder.Common.{
  ℕ, ◌+◌, ◌≡◌, some, List, [], ◌∷◌, arith, if_both, option_both, All, All-concat,
}
use spectado_stream_recorder.Common.Text.{text_eq}
use spectado_stream_recorder.Schedule.Document.{
  Item, Schedule, Entry, valid, invalid, duplicate_id, rejected, reject, gather_item, gather_entry,
  seen, find_key, Gathered, gather, nothing, sort_items, parse_items,
}
use spectado_stream_recorder.Schedule.Document.Sorted.{All-sort_items}

-- The valid entries all have it.
abbrev pub ValidEntries {κ} : (Item → Type κ) → List Entry → Type κ
ValidEntries P [] = Unit {κ}
ValidEntries P (valid it ∷ es) = P it × ValidEntries P es
ValidEntries P (invalid id why ∷ es) = ValidEntries P es

module _ {κ} (P : Item → Type κ) where
  gather_item_all :
      (i : ℕ) (it : Item) (g : Gathered) → P it → All P g.items → All P (gather_item i it g).items
  unfolding gather_item
  gather_item_all i it g p h =
      let more = All-concat P g.items it h p in
      if_both (λ (r : Gathered). All P r.items) (seen it.id g.seen_ids)
        (reject i it.id duplicate_id g) _ h
        (option_both (λ (r : Gathered). All P r.items) (find_key it.key g.seen_keys) _ _ more
          (λ other. if_both (λ (r : Gathered). All P r.items) (text_eq it.key []) _ _ more h))

  gather_all :
      (i : ℕ) (es : List Entry) (g : Gathered)
      → ValidEntries P es
      → All P g.items
      → All P (gather i es g).items
  unfolding gather gather_entry
  gather_all i [] g v h = h
  gather_all i (valid it ∷ es) g (p, v) h =
      gather_all (i + 1) es (gather_item i it g) v (gather_item_all i it g p h)
  gather_all i (invalid id why ∷ es) g v h =
      gather_all (i + 1) es (reject i id (rejected why) g) v h

  -- What all valid entries have, all items of the schedule have.
  pub parse_items_all :
      (es : List Entry) {s : Schedule} → ValidEntries P es → parse_items es ≡ some s → All P s.items
  unfolding parse_items
  parse_items_all es {s} v h =
      let g = gather 0 es nothing in
      let items : s.items ≡ sort_items g.items = ground arith in
      rw items (All-sort_items P g.items (gather_all 0 es nothing v tt))
