-- ===== src/Schedule/Document/Sorted.antt =====
-- Parse as a whole: sorted items, unique ids and keys, every entry accounted for, no id lost.
use spectado_stream_recorder.Common.{
  ℕ, suc, ◌+◌, ◌≤◌, ◌≡◌, refl, ap, ◌∙◌, ◌≢◌, ◌↔◌, inl, inr, true, none, some, List, [], ◌∷◌, ◌++◌,
  arith, ltb, Bool-cases, length, All, length-append, All-map, Apart,
}
use spectado_stream_recorder.Common.Text.{Text}
use spectado_stream_recorder.Schedule.Document.{
  Item, InvalidItem, Schedule, get, present, Entry, valid, invalid, rejected, reject, gather_item,
  seen, find_key, Gathered, gather, nothing, insert_item, sort_items, parse_items,
}
use spectado_stream_recorder.Schedule.Document.Unique.{
  Differ, Differ-sym, gather-Apart, gather-count, gather_item_cases,
}
use spectado_stream_recorder.Schedule.Document.Lookup.{Known, Names, gather-Known}

-- In the order of their starts.
abbrev pub NotAfter : Item → Item → Type 0
NotAfter x y = x.start ≤ y.start

length-insert_item : (it : Item) (xs : List Item) → length (insert_item it xs) ≡ suc (length xs)
unfolding insert_item
length-insert_item it [] = refl
length-insert_item it (x ∷ xs) = ground (arith, length-insert_item it xs)

length-sort_items : (xs : List Item) → length (sort_items xs) ≡ length xs
unfolding sort_items
length-sort_items [] = refl
length-sort_items (x ∷ xs) = length-insert_item x (sort_items xs) ∙ ap suc (length-sort_items xs)

module _ {κ} (P : Item → Type κ) where
  All-insert_item : (it : Item) (xs : List Item) → P it → All P xs → All P (insert_item it xs)
  unfolding insert_item
  All-insert_item it [] p h = (p, tt)
  All-insert_item it (x ∷ xs) p (px, h) = elim (Bool-cases (ltb x.start it.start)) [
    | inl before ↦ rw before (px, All-insert_item it xs p h)
    | inr after ↦ rw after (p, (px, h))
  ]

  pub All-sort_items : (xs : List Item) → All P xs → All P (sort_items xs)
  unfolding sort_items
  All-sort_items [] h = tt
  All-sort_items (x ∷ xs) (p, h) = All-insert_item x (sort_items xs) p (All-sort_items xs h)

insert_item-Differ :
    (it : Item) (xs : List Item)
    → All (Differ it) xs
    → Apart Differ xs
    → Apart Differ (insert_item it xs)
unfolding insert_item
insert_item-Differ it [] h a = (tt, tt)
insert_item-Differ it (x ∷ xs) (hx, h) (ax, a) = elim (Bool-cases (ltb x.start it.start)) [
  | inl before ↦
      rw before
        (All-insert_item (Differ x) it xs (Differ-sym it x hx) ax, insert_item-Differ it xs h a)
  | inr after ↦ rw after ((hx, h), (ax, a))
]

sort_items-Differ : (xs : List Item) → Apart Differ xs → Apart Differ (sort_items xs)
unfolding sort_items
sort_items-Differ [] a = tt
sort_items-Differ (x ∷ xs) (h, a) =
    insert_item-Differ x (sort_items xs) (All-sort_items (Differ x) xs h) (sort_items-Differ xs a)

insert_item-NotAfter :
    (it : Item) (xs : List Item) → Apart NotAfter xs → Apart NotAfter (insert_item it xs)
unfolding insert_item
insert_item-NotAfter it [] a = (tt, tt)
insert_item-NotAfter it (x ∷ xs) (ax, a) = elim (Bool-cases (ltb x.start it.start)) [
  | inl before ↦
      rw before (
        All-insert_item (NotAfter x) it xs (ground (arith, before)) ax,
        insert_item-NotAfter it xs a,
      )
  | inr after ↦
      let le : it.start ≤ x.start = ground (arith, after) in
      rw after ((le, All-map xs (λ y h. omega (arith, h, le)) ax), (ax, a))
]

sort_items-NotAfter : (xs : List Item) → Apart NotAfter (sort_items xs)
unfolding sort_items
sort_items-NotAfter [] = tt
sort_items-NotAfter (x ∷ xs) = insert_item-NotAfter x (sort_items xs) (sort_items-NotAfter xs)

get-insert_item :
    (id : Text) (it : Item) (xs : List Item)
    → get id (it ∷ xs) ≢ none
    → get id (insert_item it xs) ≢ none
unfolding get insert_item
get-insert_item id it [] h = h
get-insert_item id it (x ∷ xs) h = ground (arith, h, get-insert_item id it xs)

get-sort_items : (id : Text) (xs : List Item) → get id xs ≢ none → get id (sort_items xs) ≢ none
unfolding sort_items get
get-sort_items id [] h = h
get-sort_items id (x ∷ xs) h =
    get-insert_item id x (sort_items xs) (ground (arith, h, get-sort_items id xs))

Known-present : (id : Text) (s : Schedule) → Known id s.items s.invalid → present id (some s) ≡ true
unfolding present
Known-present id s (inl h) = ground (arith, h)
Known-present id s (inr h) = ground (arith, h)

-- A document that Parse accepts gives its items in the order of their starts, with ids that differ
-- and keys that differ where they are set; its items and its rejected entries are as many as the
-- document's entries.
pub parse_items_unique :
    (entries : List Entry) {s : Schedule}
    → parse_items entries ≡ some s
    → Apart NotAfter s.items
      × Apart Differ s.items
      × (length s.items + length s.invalid ≡ length entries)
unfolding parse_items
parse_items_unique entries {s} h =
    let g = gather 0 entries nothing in
    let items : s.items ≡ sort_items g.items = ground arith in
    let invalid : s.invalid ≡ g.invalid = ground arith in
    rw (items, invalid)
      (
        sort_items-NotAfter g.items,
        sort_items-Differ g.items (gather-Apart entries),
        omega (arith, length-sort_items g.items, gather-count 0 entries nothing),
      )

-- An id that stands in the document, be its entry kept or rejected, is present in the schedule that
-- Parse returns; so an entry that became invalid is not taken for one that was removed.
pub parse_items-present :
    (entries : List Entry) {s : Schedule} (id : Text)
    → parse_items entries ≡ some s
    → id ≢ []
    → Names id entries
    → present id (some s) ≡ true
unfolding parse_items
parse_items-present entries {s} id h ne n =
    let g = gather 0 entries nothing in
    let items : s.items ≡ sort_items g.items = ground arith in
    let invalid : s.invalid ≡ g.invalid = ground arith in
    Known-present id s (
      rw (items, invalid)
        (elim (gather-Known id 0 entries nothing ne n) [
          | inl k ↦ inl (get-sort_items id g.items k)
          | inr k ↦ inr k
        ]))

-- Every entry is unreadable.
abbrev pub Unreadable : List Entry → Type 0
Unreadable [] = Unit
Unreadable (valid it ∷ ps) = ⊥
Unreadable (invalid id why ∷ ps) = Unreadable ps

gather_item-grows :
    (i : ℕ) (it : Item) (g : Gathered) → length g.items ≤ length (gather_item i it g).items
gather_item-grows i it g = elim (gather_item_cases i it g) [
  | inl (r, e) ↦ rw e (omega arith)
  | inr (keys, e) ↦ rw e (omega (arith, length-append g.items (it ∷ [])))
]

gather-grows :
    (i : ℕ) (ps : List Entry) (g : Gathered) → length g.items ≤ length (gather i ps g).items
unfolding gather
gather-grows i [] g = omega arith
gather-grows i (valid it ∷ ps) g =
    omega (arith, gather-grows (i + 1) ps (gather_item i it g), gather_item-grows i it g)
gather-grows i (invalid id why ∷ ps) g = gather-grows (i + 1) ps (reject i id (rejected why) g)

gather_first :
    (i : ℕ) (it : Item) (inv : List InvalidItem)
    → length (gather_item i it (record nothing { invalid = inv })).items ≡ 1
unfolding gather_item seen find_key
gather_first i it inv = refl

gather-Unreadable :
    (i : ℕ) (ps : List Entry) (inv : List InvalidItem)
    → length (gather i ps (record nothing { invalid = inv })).items ≡ 0
    → Unreadable ps
unfolding gather
gather-Unreadable i [] inv h = tt
gather-Unreadable i (valid it ∷ ps) inv h = absurd (
    omega (
      arith,
      h,
      gather-grows (i + 1) ps (gather_item i it (record nothing { invalid = inv })),
      gather_first i it inv,
    ))
gather-Unreadable i (invalid id why ∷ ps) inv h =
    gather-Unreadable (i + 1) ps
      (inv ++ (record { index = i; id = id; reason = rejected why } ∷ [])) h

Unreadable-gather :
    (i : ℕ) (ps : List Entry) (g : Gathered) → Unreadable ps → (gather i ps g).items ≡ g.items
unfolding gather
Unreadable-gather i [] g u = refl
Unreadable-gather i (valid it ∷ ps) g u = absurd u
Unreadable-gather i (invalid id why ∷ ps) g u = Unreadable-gather (i + 1) ps _ u

-- Parse refuses a document, for its entries, exactly when it has entries and none of them is readable.
pub parse_items_refuses :
    (entries : List Entry) → (parse_items entries ≡ none) ↔ ((entries ≢ []) × Unreadable entries)
unfolding parse_items
parse_items_refuses [] = (λ e. cc, λ (ne, _). absurd (ne refl))
parse_items_refuses (p ∷ ps) = (
  λ e. ((λ x. cc), gather-Unreadable 0 (p ∷ ps) [] (ground (arith, e))),
  λ (_, u). ground (arith, ap length (Unreadable-gather 0 (p ∷ ps) nothing u)),
)
