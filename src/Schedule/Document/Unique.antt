-- ===== src/Schedule/Document/Unique.antt =====
-- Parse's loop over the entries: ids and keys stay unique, every entry is accounted for, and no id
-- of the document is lost.
use spectado_stream_recorder.Common.{
  ℕ, ◌+◌, ◌≡◌, refl, sym, ap, ◌∙◌, ◌≢◌, ◌⊎◌, inl, inr, true, false, none, List, [], ◌∷◌, ◌++◌,
  arith, if◌then◌else◌, Bool-cases, Option-cases, length, All, length-append, All-map, All-concat,
  Apart, Apart-concat,
}
use spectado_stream_recorder.Common.Text.{Text, text_eq, text_eq_iff, text_eq_refl}
use spectado_stream_recorder.Schedule.Document.{
  Item, Reason, rejected, duplicate_id, duplicate_key, find_key, seen, Gathered, Entry, valid,
  invalid, gather_item, gather, nothing, reject,
}

-- Two items that may stand in one schedule: other ids, and other keys where they have one.
pub record Differ (x y : Item) : Type 0 where
  pub ids : x.id ≢ y.id
  pub keys : x.key ≢ [] → x.key ≢ y.key

pub Differ-sym : (x y : Item) → Differ x y → Differ y x
Differ-sym x y d = record {
  ids = λ e. d.ids (sym e);
  keys = λ ne e. d.keys (λ n. ne (e ∙ n)) (sym e);
}

record Unique (g : Gathered) : Type 0 where
  ids_seen : All (λ (x : Item). seen x.id g.seen_ids ≡ true) g.items
  keys_seen : All (λ (x : Item). x.key ≢ [] → find_key x.key g.seen_keys ≢ none) g.items
  apart : Apart Differ g.items

-- An item that is taken: what the loop has seen of the items before it.
add_item-Unique :
    (g : Gathered) (it : Item) (keys : List (Text × Text))
    → Unique g
    → seen it.id g.seen_ids ≡ false
    → (it.key ≢ [] → find_key it.key g.seen_keys ≡ none)
    → ((k : Text) → find_key k g.seen_keys ≢ none → find_key k keys ≢ none)
    → (it.key ≢ [] → find_key it.key keys ≢ none)
    → Unique
        (record g { seen_ids = it.id ∷ g.seen_ids; seen_keys = keys; items = g.items ++ (it ∷ []) })
unfolding seen
add_item-Unique g it keys u new_id new_key more has = record {
  ids_seen =
      All-concat _ g.items it (All-map g.items (λ x h. ground (arith, h)) u.ids_seen)
        (ground (arith, text_eq_refl it.id));
  keys_seen =
      All-concat _ g.items it (All-map g.items (λ x h ne. more x.key (h ne)) u.keys_seen) has;
  apart = Apart-concat Differ g.items it u.apart (both g.items u.ids_seen u.keys_seen);
}
  where
    differ :
        (x : Item)
        → seen x.id g.seen_ids ≡ true
        → (x.key ≢ [] → find_key x.key g.seen_keys ≢ none)
        → Differ x it
    differ x i k = record {
      ids = λ e. cc (ap (λ (t : Text). seen t g.seen_ids) e, i, new_id);
      keys = λ ne e. k ne (ap (λ (t : Text). find_key t g.seen_keys) e ∙ new_key (λ n. ne (e ∙ n)));
    }

    both :
        (xs : List Item)
        → All (λ (x : Item). seen x.id g.seen_ids ≡ true) xs
        → All (λ (x : Item). x.key ≢ [] → find_key x.key g.seen_keys ≢ none) xs
        → All (λ x. Differ x it) xs
    both [] a b = tt
    both (x ∷ xs) (a, as') (b, bs) = (differ x a b, both xs as' bs)

reject-Unique :
    (i : ℕ) (id : Text) (r : Reason) (g : Gathered) → Unique g → Unique (reject i id r g)
reject-Unique i id r g u = record {
  ids_seen = u.ids_seen;
  keys_seen = u.keys_seen;
  apart = u.apart;
}

find_key-cons :
    (j k v : Text) (m : List (Text × Text)) → find_key j m ≢ none → find_key j ((k, v) ∷ m) ≢ none
unfolding find_key
find_key-cons j k v m h = ground (arith, h)

find_key_self : (k v : Text) (m : List (Text × Text)) → find_key k ((k, v) ∷ m) ≢ none
unfolding find_key
find_key_self k v m = ground (arith, text_eq_refl k)

gather_item-Unique : (i : ℕ) (it : Item) (g : Gathered) → Unique g → Unique (gather_item i it g)
unfolding gather_item
gather_item-Unique i it g u = elim (Bool-cases (seen it.id g.seen_ids)) [
  | inl old ↦ rw old (reject-Unique i it.id duplicate_id g u)
  | inr new ↦ elim (Option-cases (find_key it.key g.seen_keys)) [
    | inr (other, k) ↦ elim (Bool-cases (text_eq it.key [])) [
      | inl empty ↦
          let e = (text_eq_iff it.key []).0 empty in
          rw (new, k, empty)
            (add_item-Unique g it g.seen_keys u new (λ ne. absurd (ne e)) (λ j h. h)
              (λ ne. absurd (ne e)))
      | inr full ↦ rw (new, k, full) (reject-Unique i it.id (duplicate_key it.key other) g u)
    ]
    | inl k ↦ elim (Bool-cases (text_eq it.key [])) [
      | inl empty ↦
          let e = (text_eq_iff it.key []).0 empty in
          rw (new, k, empty)
            (add_item-Unique g it g.seen_keys u new (λ ne. absurd (ne e)) (λ j h. h)
              (λ ne. absurd (ne e)))
      | inr full ↦
          rw (new, k, full)
            (add_item-Unique g it ((it.key, it.id) ∷ g.seen_keys) u new (λ _. k)
              (λ j. find_key-cons j it.key it.id g.seen_keys)
              (λ _. find_key_self it.key it.id g.seen_keys))
    ]
  ]
]

gather-Unique : (i : ℕ) (ps : List Entry) (g : Gathered) → Unique g → Unique (gather i ps g)
unfolding gather
gather-Unique i [] g u = u
gather-Unique i (valid it ∷ ps) g u = gather-Unique (i + 1) ps _ (gather_item-Unique i it g u)
gather-Unique i (invalid id why ∷ ps) g u =
    gather-Unique (i + 1) ps _ (reject-Unique i id (rejected why) g u)

-- The items that Parse keeps differ in their ids, and in their keys where they have one.
pub gather-Apart : (ps : List Entry) → Apart Differ (gather 0 ps nothing).items
gather-Apart ps =
    (gather-Unique 0 ps nothing (record { ids_seen = tt; keys_seen = tt; apart = tt })).apart

abbrev pub added : Item → List (Text × Text) → Gathered → Gathered
added it keys g = record g {
  seen_ids = it.id ∷ g.seen_ids;
  seen_keys = keys;
  items = g.items ++ (it ∷ []);
}

-- A readable entry is reported, or its item is kept.
pub gather_item_cases :
    (i : ℕ) (it : Item) (g : Gathered)
    → ((r : Reason) × (gather_item i it g ≡ reject i it.id r g))
      ⊎ ((keys : List (Text × Text)) × (gather_item i it g ≡ added it keys g))
unfolding gather_item
gather_item_cases i it g = elim (Bool-cases (seen it.id g.seen_ids)) [
  | inl old ↦ inl (duplicate_id, rw old refl)
  | inr new ↦ elim (Option-cases (find_key it.key g.seen_keys)) [
    | inl k ↦
        inr (
          if text_eq it.key [] then g.seen_keys else (it.key, it.id) ∷ g.seen_keys,
          rw (new, k) refl,
        )
    | inr (other, k) ↦ elim (Bool-cases (text_eq it.key [])) [
      | inl empty ↦ inr (g.seen_keys, rw (new, k, empty) refl)
      | inr full ↦ inl (duplicate_key it.key other, rw (new, k, full) refl)
    ]
  ]
]

gather_item-count :
    (i : ℕ) (it : Item) (g : Gathered)
    → length (gather_item i it g).items + length (gather_item i it g).invalid
      ≡ length g.items + length g.invalid + 1
gather_item-count i it g = elim (gather_item_cases i it g) [
  | inl (r, e) ↦
      rw e
        (omega (arith, length-append g.invalid (record { index = i; id = it.id; reason = r } ∷ [])))
  | inr (keys, e) ↦ rw e (omega (arith, length-append g.items (it ∷ [])))
]

-- Every entry is kept or reported.
pub gather-count :
    (i : ℕ) (ps : List Entry) (g : Gathered)
    → length (gather i ps g).items + length (gather i ps g).invalid
      ≡ length g.items + length g.invalid + length ps
unfolding gather
gather-count i [] g = omega arith
gather-count i (valid it ∷ ps) g =
    omega (arith, gather-count (i + 1) ps (gather_item i it g), gather_item-count i it g)
gather-count i (invalid id why ∷ ps) g = omega (
  arith,
  gather-count (i + 1) ps (reject i id (rejected why) g),
  length-append g.invalid (record { index = i; id = id; reason = rejected why } ∷ []),
)
