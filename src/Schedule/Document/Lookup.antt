-- ===== src/Schedule/Document/Lookup.antt =====
-- No id of the document is lost: whatever becomes of its entry, Present answers yes.
use spectado_stream_recorder.Common.{
  ℕ, ◌+◌, ◌≡◌, refl, sym, ◌∙◌, ◌≢◌, ◌⊎◌, inl, inr, not, ◌&&◌, Option, none, some, List, [], ◌∷◌,
  ◌++◌, arith, if◌then◌else◌,
}
use spectado_stream_recorder.Common.Text.{Text, text_eq, text_eq_iff, text_eq_refl}
use mathlib.Core.Path.{subst}
use spectado_stream_recorder.Schedule.Document.Unique.{added, gather_item_cases}
use spectado_stream_recorder.Schedule.Document.{
  Item, Reason, rejected, InvalidItem, get, find_invalid, Gathered, Entry, valid, invalid,
  gather_item, gather, reject,
}

pub get-concat :
    (id : Text) (xs : List Item) (y : Item)
    → get id (xs ++ (y ∷ [])) ≡ (elim (get id xs) as (λ _. Option Item) [
      | some x ↦ some x
      | none ↦ if text_eq y.id id then some y else none
    ])
unfolding get
get-concat id [] y = refl
get-concat id (x ∷ xs) y = ground (arith, get-concat id xs y)

find_invalid-concat :
    (id : Text) (xs : List InvalidItem) (y : InvalidItem)
    → find_invalid id (xs ++ (y ∷ [])) ≡ (elim (find_invalid id xs) as (λ _. Option Reason) [
      | some x ↦ some x
      | none ↦ if not (text_eq y.id []) && text_eq y.id id then some y.reason else none
    ])
unfolding find_invalid
find_invalid-concat id [] y = refl
find_invalid-concat id (x ∷ xs) y = ground (arith, find_invalid-concat id xs y)

-- The id is that of an item or of a rejected entry.
abbrev pub Known : Text → List Item → List InvalidItem → Type 0
Known id items inv = (get id items ≢ none) ⊎ (find_invalid id inv ≢ none)

reject-Known :
    (id : Text) (i : ℕ) (eid : Text) (r : Reason) (g : Gathered)
    → Known id g.items g.invalid
    → Known id (reject i eid r g).items (reject i eid r g).invalid
reject-Known id i eid r g (inl h) = inl h
reject-Known id i eid r g (inr h) = inr (
    rw (find_invalid-concat id g.invalid (record { index = i; id = eid; reason = r }))
      (ground (arith, h)))

reject-Known_self :
    (i : ℕ) (id : Text) (r : Reason) (g : Gathered)
    → id ≢ []
    → Known id (reject i id r g).items (reject i id r g).invalid
reject-Known_self i id r g ne = inr (
    rw (find_invalid-concat id g.invalid (record { index = i; id = id; reason = r }))
      (ground (arith, text_eq_refl id, text_eq_iff id [], ne)))

added-Known :
    (id : Text) (it : Item) (keys : List (Text × Text)) (g : Gathered)
    → Known id g.items g.invalid
    → Known id (added it keys g).items (added it keys g).invalid
added-Known id it keys g (inl h) = inl (rw (get-concat id g.items it) (ground (arith, h)))
added-Known id it keys g (inr h) = inr h

gather_item-Known :
    (id : Text) (i : ℕ) (it : Item) (g : Gathered)
    → Known id g.items g.invalid
    → Known id (gather_item i it g).items (gather_item i it g).invalid
gather_item-Known id i it g k = elim (gather_item_cases i it g) [
  | inl (r, e) ↦ rw e (reject-Known id i it.id r g k)
  | inr (keys, e) ↦ rw e (added-Known id it keys g k)
]

gather_item-Known_self :
    (i : ℕ) (it : Item) (g : Gathered)
    → it.id ≢ []
    → Known it.id (gather_item i it g).items (gather_item i it g).invalid
gather_item-Known_self i it g ne = elim (gather_item_cases i it g) [
  | inl (r, e) ↦ rw e (reject-Known_self i it.id r g ne)
  | inr (keys, e) ↦
      rw e (inl (rw (get-concat it.id g.items it) (ground (arith, text_eq_refl it.id))))
]

-- The id stands in an entry of the document, valid or not.
abbrev pub Names : Text → List Entry → Type 0
Names id [] = ⊥
Names id (valid it ∷ ps) = (it.id ≡ id) ⊎ Names id ps
Names id (invalid eid why ∷ ps) = (eid ≡ id) ⊎ Names id ps

gather-Known_old :
    (id : Text) (i : ℕ) (ps : List Entry) (g : Gathered)
    → Known id g.items g.invalid
    → Known id (gather i ps g).items (gather i ps g).invalid
unfolding gather
gather-Known_old id i [] g k = k
gather-Known_old id i (valid it ∷ ps) g k =
    gather-Known_old id (i + 1) ps _ (gather_item-Known id i it g k)
gather-Known_old id i (invalid eid why ∷ ps) g k =
    gather-Known_old id (i + 1) ps _ (reject-Known id i eid (rejected why) g k)

pub gather-Known :
    (id : Text) (i : ℕ) (ps : List Entry) (g : Gathered)
    → id ≢ []
    → Names id ps
    → Known id (gather i ps g).items (gather i ps g).invalid
unfolding gather
gather-Known id i [] g ne n = absurd n
gather-Known id i (valid it ∷ ps) g ne (inl e) = gather-Known_old id (i + 1) ps _ (
    subst (λ t. Known t (gather_item i it g).items (gather_item i it g).invalid) e
      (gather_item-Known_self i it g (λ z. ne (sym e ∙ z))))
gather-Known id i (valid it ∷ ps) g ne (inr n) = gather-Known id (i + 1) ps _ ne n
gather-Known id i (invalid eid why ∷ ps) g ne (inl e) = gather-Known_old id (i + 1) ps _ (
    subst
      (λ t. Known t (reject i eid (rejected why) g).items (reject i eid (rejected why) g).invalid) e
      (reject-Known_self i eid (rejected why) g (λ z. ne (sym e ∙ z))))
gather-Known id i (invalid eid why ∷ ps) g ne (inr n) = gather-Known id (i + 1) ps _ ne n
