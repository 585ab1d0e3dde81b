-- ===== src/Recorder/Uploads/Once.antt =====
-- internal/recorder/upload.go: uploadOnce and uploadFallback, for sessions that record no video
-- (groupHasVideo is false). An attempt is one step here: nothing else writes the sessions of its group
-- meanwhile, since the attempt holds the key's lock and a waiting session is nobody else's.
use spectado_stream_recorder.Common.{
  ℕ, ◌+◌, Bool, true, false, ◌&&◌, ◌||◌, Option, none, some, List, [], ◌∷◌, ◌++◌, ltb,
  if◌then◌else◌, length,
}
use spectado_stream_recorder.Common.Text.{Text, text_eq, codes, trim_suffix}
use spectado_stream_recorder.Recorder.Session.{Session, object_ext}
use spectado_stream_recorder.Recorder.Manager.{Config, Texts}
use spectado_stream_recorder.Recorder.Uploads.Manifest.{
  Formats, ObjectInfo, RemoteObject, Manifest, foreign, inconsistent, manifest, parse_remote_object,
  Summary, object_metadata,
}
use spectado_stream_recorder.Recorder.Uploads.Group.{
  permanent, failure, Member, Attempt, Result, Claim, refused, claimed, claim_group,
  classify_members, fail_members, note_remux_failure, rename_group, complete_group, set_failures,
  forget_key, member_ids,
}
use spectado_stream_recorder.Recorder.Uploads.Steps.{
  max_parts_per_object, max_remux_failures, Answer, fails, answers, Answers, summarize, held_by,
  not_held_by, has_all, out_of_order, disk_short, needed_bytes, put_metadata, measure_all,
  conditional_writes_of, put_object,
}

abbrev pub fallback_key : Text → Text
fallback_key key = trim_suffix key object_ext ++ codes ".aac"

-- The stored fallback object is this recording's and lists every member to add.
unfoldable pub already_stored : Manifest → Text → List Member → Bool
already_stored (manifest r) id to_add = text_eq r.recording_id id && has_all r to_add
already_stored _ id to_add = false

abbrev pub etag_of : Option RemoteObject → Text
etag_of none = []
etag_of (some r) = r.etag

module _ {F : Type 0} (cfg : Config) (texts : Texts) (formats : Formats) (env : Answers F) where
  -- Steps 7 to 9 of uploadOnce, and their like in uploadFallback: the document, the object under
  -- `at_key`, and the members that are done. The fallback forgets `key` behind its upload; without it
  -- the two keys are the same, and completeGroup forgets it again.
  abbrev pub after_put : Text → Text → Bool → List Member → Answer Text × Attempt F → Result F
  after_put key at_key transcoded done (fails e, st) = (some e, st)
  after_put key at_key transcoded done (answers etag, st) =
      complete_group env.save_fails env.now at_key etag transcoded done (forget_key key st)

  unfoldable pub store :
      Text → Text → Summary → Text → ℕ → Bool → List Member → Attempt F → Result F
  unfolding put_object put_metadata complete_group object_metadata set_failures
  store key at_key sum replaces bytes transcoded done st =
      elim (put_metadata env.write_document_fails env.overwrite) [
        | some e ↦ (some e, st)
        | none ↦
            after_put key at_key transcoded done
              (put_object env at_key sum (object_metadata texts formats sum) replaces bytes st)
      ]

  module _ (s : Session F) (key : Text) (group : List (Session F)) where
    -- uploadFallback without an object under the key, behind the Head of the fallback key.
    unfoldable pub store_raw :
        List Member → List Member → Answer (Option ObjectInfo) → Attempt F → Result F
    unfolding store already_stored parse_remote_object complete_group rename_group summarize
        set_failures
    store_raw to_add present (fails e) st = (some e, st)
    store_raw to_add present (answers none) st = elim env.concat [
      | none ↦ (some failure, st)
      | some bytes ↦
          store key (fallback_key key) (summarize s.id to_add none) [] bytes false
            (to_add ++ present) st
    ]
    store_raw to_add present (answers (some info)) st =
        if already_stored (parse_remote_object texts formats info) s.id to_add
        then complete_group env.save_fails env.now (fallback_key key) info.etag false
            (to_add ++ present) (forget_key key st)
        else rename_group texts key group st

    -- uploadFallback
    unfoldable pub upload_fallback :
        Option RemoteObject → List Member → List Member → Attempt F → Result F
    unfolding store_raw rename_group
    upload_fallback (some r) to_add present st = rename_group texts key group st
    upload_fallback none to_add present st = store_raw to_add present env.fallback_head st

    -- Steps 5 to 9 behind the download of the stored object.
    unfoldable pub build_object :
        Option RemoteObject → List Member → List Member → Attempt F → Result F
    unfolding note_remux_failure upload_fallback store summarize
    build_object remote to_add present st = elim env.build [
      | some (bytes, transcoded) ↦
          store key key (summarize s.id to_add remote) (etag_of remote) bytes transcoded
            (to_add ++ present) st
      | none ↦
          let st1 = note_remux_failure key group st in
          if ltb (st1.remux_failures key) max_remux_failures
          then (some failure, st1)
          else upload_fallback remote to_add present st1
    ]

    -- The disk's preflight, and fetchRemotePart in front of a merge.
    unfoldable pub preflight :
        Option RemoteObject → List Member → List Member → Attempt F → Result F
    unfolding disk_short needed_bytes build_object
    preflight remote to_add present st =
        if disk_short env.free_disk (needed_bytes cfg to_add remote)
        then (some failure, st)
        else elim remote [
          | none ↦ build_object none to_add present st
          | some r ↦ elim env.fetch [
            | some e ↦ (some e, st)
            | none ↦ build_object (some r) to_add present st
          ]
        ]

    abbrev pub may_merge :
        RemoteObject → List Member → List Member → Answer Bool × Attempt F → Result F
    may_merge r to_add present (fails e, st) = (some e, st)
    may_merge r to_add present (answers false, st) = rename_group texts key group st
    may_merge r to_add present (answers true, st) = preflight (some r) to_add present st

    -- Behind the measuring, step 3. `etag` is that of the Head.
    unfoldable pub add_measured :
        Text → Option RemoteObject → List Member → Option (List Member) × Attempt F → Result F
    unfolding preflight conditional_writes_of rename_group complete_group
    add_measured etag remote present (none, st) = (some failure, st)
    add_measured etag remote [] (some [], st) = (none, st)
    add_measured etag remote (p ∷ ps) (some [], st) =
        complete_group env.save_fails env.now key etag false (p ∷ ps) st
    add_measured etag none present (some (m ∷ ms), st) = preflight none (m ∷ ms) present st
    add_measured etag (some r) present (some (m ∷ ms), st) =
        may_merge r (m ∷ ms) present (conditional_writes_of env st)

    -- The object under the key is this recording's.
    unfoldable pub merge_into : RemoteObject → List Member → List Member → Attempt F → Result F
    unfolding held_by not_held_by out_of_order rename_group add_measured measure_all fail_members
    merge_into r local absent st =
        let to_add = not_held_by r local in
        let present = held_by r local ++ held_by r absent in
        let st1 =
          fail_members (codes "recording file missing") (member_ids (not_held_by r absent)) st in
        if out_of_order r to_add
          || (ltb 0 (length to_add) && ltb max_parts_per_object (r.parts + length to_add))
        then rename_group texts key group st1
        else add_measured r.etag (some r) present (measure_all env to_add st1)

    -- Step 2 behind the parsing of the manifest.
    unfoldable pub upload_found : Manifest → List Member → List Member → Attempt F → Result F
    unfolding merge_into rename_group
    upload_found foreign local absent st = rename_group texts key group st
    upload_found inconsistent local absent st = (some permanent, st)
    upload_found (manifest r) local absent st =
        if text_eq r.recording_id s.id
        then merge_into r local absent st
        else rename_group texts key group st

    unfoldable pub upload_headed :
        Answer (Option ObjectInfo) → List Member → List Member → Attempt F → Result F
    unfolding upload_found add_measured parse_remote_object measure_all fail_members
    upload_headed (fails e) local absent st = (some e, st)
    upload_headed (answers (some info)) local absent st =
        upload_found (parse_remote_object texts formats info) local absent st
    upload_headed (answers none) local absent st = add_measured [] none [] (
        measure_all env local
          (fail_members (codes "recording file missing") (member_ids absent) st))

  -- Behind claimGroup.
  unfoldable pub upload_claimed : Session F → Text → Claim F × Attempt F → Result F
  unfolding classify_members upload_headed
  upload_claimed s key (refused e, st) = (some e, st)
  upload_claimed s key (claimed [], st) = (none, st)
  upload_claimed s key (claimed (o ∷ os), st) =
      let (local, absent, st1) = classify_members env.files formats.session_digest (o ∷ os) st in
      upload_headed s key (o ∷ os) env.head local absent st1

  -- uploadOnce; what is stored and removed is that of this attempt.
  unfoldable pub upload_once : Session F → Text → Attempt F → Result F
  unfolding claim_group upload_claimed
  upload_once s key st =
      upload_claimed s key (claim_group env.now s key (record st { stored = []; removed = [] }))
