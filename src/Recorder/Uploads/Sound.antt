-- ===== src/Recorder/Uploads/Sound.antt =====
-- What an attempt of uploadOnce makes sure of, where it gives up, renames, completes or stores.
use mathlib.Core.Path.{subst}
use spectado_stream_recorder.Common.{
  ℕ, ◌+◌, ◌≤◌, ◌≡◌, refl, sym, ◌≢◌, ◌⊎◌, inl, inr, Bool, true, false, Option, none, some, List, [],
  ◌∷◌, ◌++◌, arith, leb, if_both, option_both, length, All, All-map,
}
use spectado_stream_recorder.Common.Text.{Text, Listed}
use spectado_stream_recorder.Recorder.Session.{Session, is_terminal}
use spectado_stream_recorder.Recorder.Manager.{Config, Texts}
use spectado_stream_recorder.Recorder.Uploads.Manifest.{
  Formats, RemoteObject, lists_digest, Manifest, manifest, Summary, object_metadata,
}
use spectado_stream_recorder.Recorder.Uploads.Group.{
  UploadError, Outcome, Member, Stored, Attempt, Result, member_ids, complete_group, rename_group,
  set_failures, forget_key, max_key_renames, most_renames,
}
use spectado_stream_recorder.Recorder.Uploads.Steps.{
  max_parts_per_object, Answer, fails, answers, answer_both, Answers, put_metadata, put_object,
}
use spectado_stream_recorder.Recorder.Uploads.Once.{after_put, store}
use spectado_stream_recorder.Recorder.Uploads.Finished.{
  finished_with, finished_with-update_all, update_all_finishes, mark_uploaded_lem,
}
use spectado_stream_recorder.Recorder.Uploads.Buckets.{
  answer_manifest, in_bucket, write_sidecars-All, member_ids-All, in_summary,
}
use spectado_stream_recorder.Recorder.Uploads.Measuring.{Known}
use spectado_stream_recorder.Recorder.Uploads.Placing.{Present}

some-none : {A : Type 0} (a : A) → ◌≢◌ {A = Option A} (some a) none
some-none a e = ground (arith, e)

module _ {F : Type 0} (cfg : Config) (texts : Texts) (formats : Formats) (env : Answers F)
    (s : Session F) (key : Text) (group : List (Session F)) where
  abbrev pub head_manifest : Manifest
  head_manifest = answer_manifest texts formats env.head

  -- A new object, or a replacement of the very object of this recording that the Head saw, which
  -- keeps the sessions listed there in front and stays within the parts that an object may have.
  abbrev pub Justified : Stored → Type 0
  Justified p =
      (p.replaces ≡ [])
      ⊎ ((r : RemoteObject) × (head_manifest ≡ manifest r)
          × (r.recording_id ≡ s.id)
          × (p.key ≡ key)
          × (p.replaces ≡ r.etag)
          × ((new : List Text) × (p.sessions ≡ r.sessions ++ new))
          × (length p.sessions ≤ max_parts_per_object))

  -- Every session of the group needs no more work.
  abbrev pub AllFinished : Attempt F → Type 0
  AllFinished st = All (λ (o : Session F). finished_with o.session_id st.sessions ≡ true) group

  -- What an attempt makes sure of.
  pub record Sound (r : Result F) : Type 0 where
    pub removed : All (λ sid. in_bucket texts formats env r.1.stored sid ≡ true) r.1.removed
    pub stored : All Justified r.1.stored
    pub finished : r.0 ≡ none → AllFinished r.1

  abbrev pub Quiet : Attempt F → Type 0
  Quiet st = (st.removed ≡ []) × (st.stored ≡ [])

  -- Each session of the group is finished, or among those that `L` says.
  abbrev pub Left : (Text → Type 0) → Attempt F → Type 0
  Left L st =
      All (λ (o : Session F). (finished_with o.session_id st.sessions ≡ true) ⊎ L o.session_id)
        group

  abbrev pub Merges : Option RemoteObject → List Member → Type 0
  Merges none to_add = Unit
  Merges (some r) to_add =
      (head_manifest ≡ manifest r)
      × (r.recording_id ≡ s.id)
      × (length r.sessions + length to_add ≤ max_parts_per_object)

  -- What a stage has of the members it is given.
  pub record Ready (remote : Option RemoteObject) (to_add present : List Member) (st : Attempt F)
      : Type 0 where
    pub quiet : Quiet st
    pub known : All (Known formats.session_digest) to_add
    pub held : All (Present formats.session_digest head_manifest) present
    pub left : Left (λ t. Listed t (member_ids to_add) ⊎ Listed t (member_ids present)) st
    pub merges : Merges remote to_add

  pub gives_up : (e : UploadError) (st : Attempt F) → Quiet st → Sound (some e, st)
  gives_up e st (f, g) = record {
    removed =
        subst (λ sids. All (λ sid. in_bucket texts formats env st.stored sid ≡ true) sids) (sym f)
          tt;
    stored = subst (λ ps. All Justified ps) (sym g) tt;
    finished = λ h. elim (some-none e h) [ ];
  }

  pub all_finished : (st : Attempt F) → Quiet st → AllFinished st → Sound (none, st)
  all_finished st (f, g) h = record {
    removed =
        subst (λ sids. All (λ sid. in_bucket texts formats env st.stored sid ≡ true) sids) (sym f)
          tt;
    stored = subst (λ ps. All Justified ps) (sym g) tt;
    finished = λ e. h;
  }

  abbrev Fails : Outcome → Type 0
  Fails none = ⊥
  Fails (some e) = Unit

  error_outcome : (r : Result F) → Quiet r.1 → Fails r.0 → Sound r
  error_outcome (none, st) q h = elim h [ ]
  error_outcome (some e, st) q h = gives_up e st q

  pub rename_group-Sound : (st : Attempt F) → Quiet st → Sound (rename_group texts key group st)
  unfolding rename_group set_failures
  rename_group-Sound st q =
      let P = λ (r : Result F). Quiet r.1 × Fails r.0 in
      let (a, b) = if_both P (leb max_key_renames (most_renames group)) _ _ (q, tt) (q, tt) in
      error_outcome (rename_group texts key group st) a b

  complete_group-AllFinished :
      (at_key etag : Text) (transcoded : Bool) (done : List Member) (st : Attempt F)
      → Left (λ t. Listed t (member_ids done)) st
      → AllFinished (complete_group env.save_fails env.now at_key etag transcoded done st).1
  unfolding complete_group set_failures is_terminal
  complete_group-AllFinished at_key etag transcoded done st h =
      let k = mark_uploaded_lem env.now at_key etag transcoded in
      All-map group
        (λ (o : Session F) c. elim c [
          | inl f ↦ finished_with-update_all _ (member_ids done) o.session_id st.sessions k f
          | inr l ↦ update_all_finishes _ (member_ids done) o.session_id st.sessions k (λ x. refl) l
        ])
        h

  pub complete_group-Sound :
      (at_key etag : Text) (transcoded : Bool) (done : List Member) (st : Attempt F)
      → st.removed ≡ []
      → All Justified st.stored
      → All (λ (m : Member). in_bucket texts formats env st.stored m.session_id ≡ true) done
      → Left (λ t. Listed t (member_ids done)) st
      → Sound (complete_group env.save_fails env.now at_key etag transcoded done st)
  unfolding complete_group set_failures
  complete_group-Sound at_key etag transcoded done st e j h l =
      let P = λ (sid : Text). in_bucket texts formats env st.stored sid ≡ true in
      record {
        removed =
            write_sidecars-All P env.save_fails (member_ids done) false st.removed
              (member_ids-All P done h) (subst (λ sids. All P sids) (sym e) tt);
        stored = j;
        finished = λ f. complete_group-AllFinished at_key etag transcoded done st l;
      }

  -- Behind the upload, what was in the bucket still is, and so is what the summary lists.
  abbrev pub Kept : Summary → Attempt F → Member → Type 0
  Kept sum st m =
      (in_bucket texts formats env st.stored m.session_id ≡ true)
      ⊎ (in_summary (formats.session_digest m.session_id) sum ≡ true)

  Kept-in_bucket :
      (sum : Summary) (p : Stored) (st : Attempt F) (m : Member)
      → p.sessions ≡ sum.digests
      → Kept sum st m
      → in_bucket texts formats env (p ∷ st.stored) m.session_id ≡ true
  Kept-in_bucket sum p st m e (inl h) = ground (arith, h)
  Kept-in_bucket sum p st m e (inr h) =
      let k : lists_digest (formats.session_digest m.session_id) p.sessions ≡ true =
        subst (λ ds. lists_digest (formats.session_digest m.session_id) ds ≡ true) (sym e) h in
      ground (arith, k)

  -- The object that store puts.
  abbrev pub new_object : Text → Summary → Text → Stored
  new_object at_key sum replaces = record {
    key = at_key;
    replaces = replaces;
    sessions = sum.digests;
    metadata = object_metadata texts formats sum;
  }

  abbrev with_object : Text → Summary → Text → Attempt F → Attempt F
  with_object at_key sum replaces st = record st {
    stored = new_object at_key sum replaces ∷ st.stored;
  }

  after_put-Sound :
      (at_key : Text) (sum : Summary) (replaces : Text) (transcoded : Bool) (done : List Member)
      (a : Answer Text) (st : Attempt F)
      → Quiet st
      → Justified (new_object at_key sum replaces)
      → All (Kept sum st) done
      → Left (λ t. Listed t (member_ids done)) st
      → Sound (
          after_put cfg texts formats env key at_key transcoded done
            (a, with_object at_key sum replaces st))
  unfolding set_failures
  after_put-Sound at_key sum replaces transcoded done (fails x) st (e, f) j h l = record {
    removed =
        subst
          (λ sids.
            All
              (λ sid.
                in_bucket texts formats env (new_object at_key sum replaces ∷ st.stored) sid ≡ true)
              sids)
          (sym e) tt;
    stored = (j, subst (λ ps. All Justified ps) (sym f) tt);
    finished = λ g. elim (some-none x g) [ ];
  }
  after_put-Sound at_key sum replaces transcoded done (answers etag) st (e, f) j h l =
      let st1 = with_object at_key sum replaces st in
      complete_group-Sound at_key etag transcoded done (forget_key key st1) e
        (j, subst (λ ps. All Justified ps) (sym f) tt)
        (All-map done (λ m. Kept-in_bucket sum (new_object at_key sum replaces) st m refl) h) l

  pub store-Sound :
      (at_key : Text) (sum : Summary) (replaces : Text) (bytes : ℕ) (transcoded : Bool)
      (done : List Member) (st : Attempt F)
      → Quiet st
      → Justified (new_object at_key sum replaces)
      → All (Kept sum st) done
      → Left (λ t. Listed t (member_ids done)) st
      → Sound (store cfg texts formats env key at_key sum replaces bytes transcoded done st)
  unfolding store put_object
  store-Sound at_key sum replaces bytes transcoded done st q j h l =
      option_both Sound (put_metadata env.write_document_fails env.overwrite)
        (after_put cfg texts formats env key at_key transcoded done
          (put_object env at_key sum (object_metadata texts formats sum) replaces bytes st))
        (λ x. (some x, st))
        (answer_both
          (λ (a : Answer Text × Attempt F).
            Sound (after_put cfg texts formats env key at_key transcoded done a))
          env.upload _ _ (λ x. gives_up x st q)
          (λ etag. after_put-Sound at_key sum replaces transcoded done _ st q j h l))
        (λ x. gives_up x st q)
