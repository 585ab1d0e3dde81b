-- ===== src/Recorder/Uploads/Placing.antt =====
-- Where classifyMembers and the manifest put the sessions of a group.
use mathlib.Core.Path.{subst}
use spectado_stream_recorder.Common.{
  zero, suc, ◌≡◌, refl, ◌⊎◌, inl, inr, true, List, [], ◌∷◌, ◌++◌, arith, Bool-cases, All, All-map,
}
use spectado_stream_recorder.Common.Text.{Text, Listed}
use spectado_stream_recorder.Recorder.Session.{Session}
use spectado_stream_recorder.Recorder.Retention.{FileStat, size, missing, unknown}
use spectado_stream_recorder.Recorder.Uploads.Manifest.{
  RemoteObject, lists_digest, Manifest, manifest, foreign, inconsistent,
}
use spectado_stream_recorder.Recorder.Uploads.Group.{
  Member, member_ids, place, place_all, member_of,
}
use spectado_stream_recorder.Recorder.Uploads.Steps.{held_by, not_held_by, has_all}
use spectado_stream_recorder.Recorder.Uploads.Buckets.{manifest_lists}
use spectado_stream_recorder.Recorder.Uploads.Measuring.{Known}
use spectado_stream_recorder.Recorder.Uploads.Once.{already_stored}

-- What all members have, the listed ids have.
pub member_ids_look :
    (P : Text → Type 0) (ms : List Member) (t : Text)
    → All (λ (m : Member). P m.session_id) ms
    → Listed t (member_ids ms)
    → P t
member_ids_look P [] t h l = elim l [ ]
member_ids_look P (m ∷ ms) t (h, hs) (inl e) = subst P e h
member_ids_look P (m ∷ ms) t (h, hs) (inr l) = member_ids_look P ms t hs l

pub member_ids-append_left :
    (t : Text) (ms qs : List Member) → Listed t (member_ids ms) → Listed t (member_ids (ms ++ qs))
member_ids-append_left t [] qs h = elim h [ ]
member_ids-append_left t (m ∷ ms) qs (inl e) = inl e
member_ids-append_left t (m ∷ ms) qs (inr h) = inr (member_ids-append_left t ms qs h)

pub member_ids-append_right :
    (t : Text) (ms qs : List Member) → Listed t (member_ids qs) → Listed t (member_ids (ms ++ qs))
member_ids-append_right t [] qs h = h
member_ids-append_right t (m ∷ ms) qs h = inr (member_ids-append_right t ms qs h)

-- Among the members of classifyMembers.
abbrev pub Sorted : Text → List Member × List Member × List Text → Type 0
Sorted t (local, absent, empty) =
    Listed t (member_ids local) ⊎ (Listed t (member_ids absent) ⊎ Listed t empty)

place-Sorted :
    (stat : FileStat) (m : Member) (r : List Member × List Member × List Text)
    → Sorted m.session_id (place stat m r)
place-Sorted (size zero) m (local, absent, empty) = inr (inr (inl refl))
place-Sorted (size (suc n)) m (local, absent, empty) = inl (inl refl)
place-Sorted missing m (local, absent, empty) = inr (inl (inl refl))
place-Sorted unknown m (local, absent, empty) = inr (inl (inl refl))

place_keeps :
    (stat : FileStat) (m : Member) (t : Text) (r : List Member × List Member × List Text)
    → Sorted t r
    → Sorted t (place stat m r)
place_keeps (size zero) m t (local, absent, empty) (inl h) = inl h
place_keeps (size zero) m t (local, absent, empty) (inr (inl h)) = inr (inl h)
place_keeps (size zero) m t (local, absent, empty) (inr (inr h)) = inr (inr (inr h))
place_keeps (size (suc n)) m t (local, absent, empty) (inl h) = inl (inr h)
place_keeps (size (suc n)) m t (local, absent, empty) (inr h) = inr h
place_keeps missing m t (local, absent, empty) (inl h) = inl h
place_keeps missing m t (local, absent, empty) (inr (inl h)) = inr (inl (inr h))
place_keeps missing m t (local, absent, empty) (inr (inr h)) = inr (inr h)
place_keeps unknown m t (local, absent, empty) (inl h) = inl h
place_keeps unknown m t (local, absent, empty) (inr (inl h)) = inr (inl (inr h))
place_keeps unknown m t (local, absent, empty) (inr (inr h)) = inr (inr h)

module _ (digest : Text → Text) where
  abbrev pub KnownBoth : List Member × List Member × List Text → Type 0
  KnownBoth (local, absent, empty) = All (Known digest) local × All (Known digest) absent

  place-Known :
      (stat : FileStat) (m : Member) (r : List Member × List Member × List Text)
      → Known digest m
      → KnownBoth r
      → KnownBoth (place stat m r)
  place-Known (size zero) m (local, absent, empty) h k = k
  place-Known (size (suc n)) m (local, absent, empty) h (kl, ka) = ((h, kl), ka)
  place-Known missing m (local, absent, empty) h (kl, ka) = (kl, (h, ka))
  place-Known unknown m (local, absent, empty) h (kl, ka) = (kl, (h, ka))

  module _ {F : Type 0} (files : Text → FileStat) where
    pub place_all-Known : (group : List (Session F)) → KnownBoth (place_all files digest group)
    unfolding place_all member_of
    place_all-Known [] = (tt, tt)
    place_all-Known (o ∷ os) =
        place-Known (files o.session_id) (member_of digest o) _ refl (place_all-Known os)

    pub place_all-Sorted :
        (group : List (Session F))
        → All (λ (o : Session F). Sorted o.session_id (place_all files digest group)) group
    unfolding place_all member_of
    place_all-Sorted [] = tt
    place_all-Sorted (o ∷ os) =
        let r = place_all files digest os in
        let m = member_of digest o in
        (
          place-Sorted (files o.session_id) m r,
          All-map os (λ (q : Session F) h. place_keeps (files o.session_id) m q.session_id r h)
              (place_all-Sorted os),
        )

  -- The manifest lists the session of the member.
  abbrev pub Present : Manifest → Member → Type 0
  Present answer m = manifest_lists (digest m.session_id) answer ≡ true

  pub not_held_by-Known :
      (r : RemoteObject) (ms : List Member)
      → All (Known digest) ms
      → All (Known digest) (not_held_by r ms)
  unfolding not_held_by
  not_held_by-Known r [] h = tt
  not_held_by-Known r (m ∷ ms) (h, hs) = elim (Bool-cases (lists_digest m.digest r.sessions)) [
    | inl e ↦ rw e (not_held_by-Known r ms hs)
    | inr e ↦ rw e (h, not_held_by-Known r ms hs)
  ]

  pub held_by-Present :
      (r : RemoteObject) (ms : List Member)
      → All (Known digest) ms
      → All (Present (manifest r)) (held_by r ms)
  unfolding held_by
  held_by-Present r [] h = tt
  held_by-Present r (m ∷ ms) (h, hs) = elim (Bool-cases (lists_digest m.digest r.sessions)) [
    | inl e ↦
        rw e ((subst (λ (d : Text). lists_digest d r.sessions ≡ true) h e), held_by-Present r ms hs)
    | inr e ↦ rw e (held_by-Present r ms hs)
  ]

  has_all-Present :
      (r : RemoteObject) (ms : List Member)
      → All (Known digest) ms
      → has_all r ms ≡ true
      → All (Present (manifest r)) ms
  unfolding has_all
  has_all-Present r [] h e = tt
  has_all-Present r (m ∷ ms) (h, hs) e = (
    subst (λ (d : Text). lists_digest d r.sessions ≡ true) h (ground (arith, e)),
    has_all-Present r ms hs (ground (arith, e)),
  )

  pub already_stored-Present :
      (mf : Manifest) (id : Text) (ms : List Member)
      → All (Known digest) ms
      → already_stored mf id ms ≡ true
      → All (Present mf) ms
  unfolding already_stored
  already_stored-Present (manifest r) id ms h e = has_all-Present r ms h (ground (arith, e))
  already_stored-Present foreign id ms h e = ground (arith, e)
  already_stored-Present inconsistent id ms h e = ground (arith, e)

-- Each member is held or not.
pub held_by_or_not :
    (r : RemoteObject) (ms : List Member) (t : Text)
    → Listed t (member_ids ms)
    → Listed t (member_ids (held_by r ms)) ⊎ Listed t (member_ids (not_held_by r ms))
unfolding held_by not_held_by
held_by_or_not r [] t h = elim h [ ]
held_by_or_not r (m ∷ ms) t h = elim (Bool-cases (lists_digest m.digest r.sessions)) [
  | inl e ↦ rw e (elim h [
    | inl i ↦ inl (inl i)
    | inr l ↦ elim (held_by_or_not r ms t l) [ inl k ↦ inl (inr k) | inr k ↦ inr k ]
  ])
  | inr e ↦ rw e (elim h [
    | inl i ↦ inr (inl i)
    | inr l ↦ elim (held_by_or_not r ms t l) [ inl k ↦ inl k | inr k ↦ inr (inr k) ]
  ])
]
