-- ===== src/Recorder/Uploads/Buckets.antt =====
-- When a session's digest stands in an object of the bucket.
use spectado_stream_recorder.Common.{
  suc, ◌≡◌, refl, sym, ap, ◌∙◌, inl, inr, Bool, true, false, ◌||◌, Option, some, List, [], ◌∷◌,
  ◌++◌, append-nil, append_assoc, arith, Bool-cases, length, All,
}
use spectado_stream_recorder.Common.Text.{Text, text_eq_refl}
use spectado_stream_recorder.Recorder.Uploads.Manifest.{
  Formats, ObjectInfo, lists_digest, Manifest, foreign, manifest, parse_remote_object, Summary,
}
use spectado_stream_recorder.Recorder.Manager.{Texts}
use spectado_stream_recorder.Recorder.Uploads.Group.{Member, Stored, member_ids, write_sidecars}
use spectado_stream_recorder.Recorder.Uploads.Steps.{Answer, answers, Answers, add_members}

-- The manifest behind a Head, if there is one.
abbrev pub answer_manifest : Texts → Formats → Answer (Option ObjectInfo) → Manifest
answer_manifest texts formats (answers (some info)) = parse_remote_object texts formats info
answer_manifest texts formats _ = foreign

abbrev pub manifest_lists : Text → Manifest → Bool
manifest_lists d (manifest r) = lists_digest d r.sessions
manifest_lists d _ = false

abbrev pub any_stored : Text → List Stored → Bool
any_stored d [] = false
any_stored d (p ∷ ps) = lists_digest d p.sessions || any_stored d ps

-- The session's digest stands in an object that the attempt has seen in the bucket or stored there.
abbrev pub in_bucket : {F : Type 0} → Texts → Formats → Answers F → List Stored → Text → Bool
in_bucket texts formats env stored sid =
    let d = formats.session_digest sid in
    manifest_lists d (answer_manifest texts formats env.head)
    || manifest_lists d (answer_manifest texts formats env.fallback_head)
    || any_stored d stored

pub write_sidecars-All :
    (P : Text → Type 0) (save_fails : Text → Bool) (sids : List Text) (b : Bool) (acc : List Text)
    → All P sids
    → All P acc
    → All P (write_sidecars save_fails sids (b, acc)).1
unfolding write_sidecars
write_sidecars-All P save_fails [] b acc h k = k
write_sidecars-All P save_fails (sid ∷ sids) b acc (h, hs) k = elim (Bool-cases (save_fails sid)) [
  | inl e ↦ rw (e, write_sidecars) (write_sidecars-All P save_fails sids true acc hs k)
  | inr e ↦ rw (e, write_sidecars) (write_sidecars-All P save_fails sids b (sid ∷ acc) hs (h, k))
]

pub member_ids-All :
    (P : Text → Type 0) (ms : List Member)
    → All (λ (m : Member). P m.session_id) ms
    → All P (member_ids ms)
member_ids-All P [] h = tt
member_ids-All P (m ∷ ms) (h, hs) = (h, member_ids-All P ms hs)

pub All_append :
    (P : Member → Type 0) (xs ys : List Member) → All P xs → All P ys → All P (xs ++ ys)
All_append P [] ys h k = k
All_append P (x ∷ xs) ys (h, hs) k = (h, All_append P xs ys hs k)

abbrev pub in_summary : Text → Summary → Bool
in_summary d sum = lists_digest d sum.digests

pub lists_digest-append :
    (d : Text) (es fs : List Text)
    → lists_digest d (es ++ fs) ≡ (lists_digest d es || lists_digest d fs)
unfolding lists_digest
lists_digest-append d [] fs = refl
lists_digest-append d (e ∷ es) fs = ground (arith, lists_digest-append d es fs)

add_members_keeps :
    (id d : Text) (ms : List Member) (sum : Summary)
    → in_summary d sum ≡ true
    → in_summary d (add_members id ms sum) ≡ true
unfolding add_members
add_members_keeps id d [] sum h = h
add_members_keeps id d (m ∷ ms) sum h =
    add_members_keeps id d ms _
      (ground (arith, h, lists_digest-append d sum.digests (m.digest ∷ [])))

-- The summary lists the digest of each member.
pub add_members-All :
    (id : Text) (ms : List Member) (sum : Summary)
    → All (λ (m : Member). in_summary m.digest (add_members id ms sum) ≡ true) ms
unfolding add_members lists_digest
add_members-All id [] sum = tt
add_members-All id (m ∷ ms) sum = (
  add_members_keeps id m.digest ms _ (
      ground
        (arith, text_eq_refl m.digest, lists_digest-append m.digest sum.digests (m.digest ∷ []))),
  add_members-All id ms _,
)

abbrev pub digests_of : List Member → List Text
digests_of [] = []
digests_of (m ∷ ms) = m.digest ∷ digests_of ms

pub add_members-digests :
    (id : Text) (ms : List Member) (sum : Summary)
    → (add_members id ms sum).digests ≡ sum.digests ++ digests_of ms
unfolding add_members
add_members-digests id [] sum = sym (append-nil sum.digests)
add_members-digests id (m ∷ ms) sum =
    add_members-digests id ms _ ∙ append_assoc sum.digests (m.digest ∷ []) (digests_of ms)

pub length-digests_of : (ms : List Member) → length (digests_of ms) ≡ length ms
length-digests_of [] = refl
length-digests_of (m ∷ ms) = ap suc (length-digests_of ms)
