-- ===== src/Recorder/Uploads/Stages.antt =====
-- The stages of uploadOnce that add parts to an object, from the last to the first.
use mathlib.Core.Path.{subst}
use spectado_stream_recorder.Common.{
  ◌+◌, ◌<◌, ◌≡◌, refl, sym, ap, ◌∙◌, inl, inr, Bool, true, false, Option, none, some, List, [], ◌∷◌,
  ◌++◌, arith, if_both, if_cases, option_both, length, All, length-append, All-map,
}
use spectado_stream_recorder.Common.Text.{Text, Listed}
use spectado_stream_recorder.Recorder.Session.{Session}
use spectado_stream_recorder.Recorder.Manager.{Config, Texts}
use spectado_stream_recorder.Recorder.Uploads.Manifest.{Formats, ObjectInfo, RemoteObject, Summary}
use spectado_stream_recorder.Recorder.Uploads.Group.{
  failure, Member, Attempt, member_ids, ids, set_failures, forget_key, note_remux_failure,
}
use spectado_stream_recorder.Recorder.Uploads.Steps.{
  Answer, fails, answers, answer_both, Answers, summarize, base_summary, conditional_writes_of,
}
use spectado_stream_recorder.Recorder.Uploads.Once.{
  fallback_key, etag_of, store_raw, upload_fallback, build_object, preflight, may_merge,
  add_measured,
}
use spectado_stream_recorder.Recorder.Uploads.Finished.{
  finished_with-update_all, mirror_failures_lem,
}
use spectado_stream_recorder.Recorder.Uploads.Buckets.{
  answer_manifest, in_bucket, All_append, in_summary, add_members-All, add_members-digests,
  digests_of, length-digests_of,
}
use spectado_stream_recorder.Recorder.Uploads.Measuring.{Known}
use spectado_stream_recorder.Recorder.Uploads.Placing.{
  member_ids-append_left, member_ids-append_right, Present, already_stored-Present,
}
use spectado_stream_recorder.Recorder.Uploads.Sound.{
  Justified, Sound, Quiet, Left, Merges, Ready, gives_up, all_finished, rename_group-Sound,
  complete_group-Sound, Kept, new_object, store-Sound,
}

module _ {F : Type 0} (cfg : Config) (texts : Texts) (formats : Formats) (env : Answers F)
    (s : Session F) (key : Text) (group : List (Session F)) where
  abbrev Held : Member → Type 0
  Held m = Present formats.session_digest (answer_manifest texts formats env.head) m

  abbrev pub ReadyFor : Option RemoteObject → List Member → List Member → Attempt F → Type 0
  ReadyFor remote to_add present st =
      Ready cfg texts formats env s key group remote to_add present st

  Held-in_bucket :
      (st : Attempt F) (m : Member)
      → Held m
      → in_bucket texts formats env st.stored m.session_id ≡ true
  Held-in_bucket st m h = ground (arith, h)

  to_add-Kept :
      (sum : Summary) (st : Attempt F) (ms : List Member)
      → All (Known formats.session_digest) ms
      → All (λ (m : Member). in_summary m.digest sum ≡ true) ms
      → All (Kept cfg texts formats env s key group sum st) ms
  to_add-Kept sum st [] h k = tt
  to_add-Kept sum st (m ∷ ms) (h, hs) (k, ks) =
      (inr (subst (λ d. in_summary d sum ≡ true) h k), to_add-Kept sum st ms hs ks)

  summarize-Kept :
      (remote : Option RemoteObject) (to_add present : List Member) (st : Attempt F)
      → ReadyFor remote to_add present st
      → All
          (Kept cfg texts formats env s key group (summarize s.id to_add remote) st)
          (to_add ++ present)
  unfolding summarize
  summarize-Kept remote to_add present st r =
      let sum = summarize s.id to_add remote in
      All_append (Kept cfg texts formats env s key group sum st) to_add present
        (to_add-Kept sum st to_add r.known (add_members-All s.id to_add _))
        (All-map present (λ m k. inl (Held-in_bucket st m k)) r.held)

  done_members :
      (remote : Option RemoteObject) (to_add present : List Member) (st : Attempt F)
      → ReadyFor remote to_add present st
      → Left cfg texts formats env s key group (λ t. Listed t (member_ids (to_add ++ present))) st
  done_members remote to_add present st r =
      All-map group
        (λ (o : Session F) c. elim c [
          | inl f ↦ inl f
          | inr l ↦ inr (elim l [
            | inl a ↦ member_ids-append_left o.session_id to_add present a
            | inr b ↦ member_ids-append_right o.session_id to_add present b
          ])
        ])
        r.left

  fallback_held :
      (st : Attempt F) (a : Answer (Option ObjectInfo)) (m : Member)
      → a ≡ env.fallback_head
      → Present formats.session_digest (answer_manifest texts formats a) m
      → in_bucket texts formats env st.stored m.session_id ≡ true
  fallback_held st a m e h =
      let k : Present formats.session_digest (answer_manifest texts formats env.fallback_head) m =
        subst (λ x. Present formats.session_digest (answer_manifest texts formats x) m) e h in
      ground (arith, k)

  store_raw-Sound :
      (to_add present : List Member) (a : Answer (Option ObjectInfo)) (st : Attempt F)
      → a ≡ env.fallback_head
      → ReadyFor none to_add present st
      → Sound cfg texts formats env s key group
          (store_raw cfg texts formats env s key group to_add present a st)
  unfolding store_raw set_failures
  store_raw-Sound to_add present (fails x) st f r =
      gives_up cfg texts formats env s key group x st r.quiet
  store_raw-Sound to_add present (answers none) st f r =
      option_both (Sound cfg texts formats env s key group) env.concat _ _
        (gives_up cfg texts formats env s key group failure st r.quiet)
        (λ bytes.
          store-Sound cfg texts formats env s key group (fallback_key key) _ [] bytes false _ st
            r.quiet (inl refl) (summarize-Kept none to_add present st r)
            (done_members none to_add present st r))
  store_raw-Sound to_add present (answers (some info)) st f r =
      if_cases (Sound cfg texts formats env s key group) _ _ _
        (λ h.
          complete_group-Sound cfg texts formats env s key group (fallback_key key) info.etag false
            _ (forget_key key st) r.quiet.0
            (subst (λ ps. All (Justified cfg texts formats env s key group) ps) (sym r.quiet.1) tt)
            (All_append _ to_add present
              (All-map to_add (λ m. fallback_held st (answers (some info)) m f)
                (already_stored-Present formats.session_digest _ s.id to_add r.known h))
              (All-map present (λ m. Held-in_bucket st m) r.held))
            (done_members none to_add present st r))
        (λ h. rename_group-Sound cfg texts formats env s key group st r.quiet)

  upload_fallback-Sound :
      (remote : Option RemoteObject) (to_add present : List Member) (st : Attempt F)
      → ReadyFor remote to_add present st
      → Sound cfg texts formats env s key group
          (upload_fallback cfg texts formats env s key group remote to_add present st)
  unfolding upload_fallback
  upload_fallback-Sound (some o) to_add present st r =
      rename_group-Sound cfg texts formats env s key group st r.quiet
  upload_fallback-Sound none to_add present st r =
      store_raw-Sound to_add present env.fallback_head st refl r

  -- A merge is justified.
  summarize-Justified :
      (remote : Option RemoteObject) (to_add : List Member)
      → Merges cfg texts formats env s key group remote to_add
      → Justified cfg texts formats env s key group (
          new_object cfg texts formats env s key group key
            (summarize s.id to_add remote)
            (etag_of remote))
  unfolding summarize base_summary
  summarize-Justified none to_add m = inl refl
  summarize-Justified (some r) to_add (f, i, l) =
      let e : (summarize s.id to_add (some r)).digests ≡ r.sessions ++ digests_of to_add =
        add_members-digests s.id to_add (base_summary (some r)) in
      let n : length (summarize s.id to_add (some r)).digests
          ≡ length r.sessions + length (digests_of to_add) =
        ap length e ∙ length-append r.sessions (digests_of to_add) in
      inr
        (r, f, i, refl, refl, (digests_of to_add, e), omega (arith, n, l, length-digests_of to_add))

  build_object-Sound :
      (remote : Option RemoteObject) (to_add present : List Member) (st : Attempt F)
      → ReadyFor remote to_add present st
      → Sound cfg texts formats env s key group
          (build_object cfg texts formats env s key group remote to_add present st)
  unfolding build_object note_remux_failure set_failures
  build_object-Sound remote to_add present st r =
      let st1 = note_remux_failure key group st in
      let r1 : ReadyFor remote to_add present st1 = record {
        quiet = r.quiet;
        known = r.known;
        held = r.held;
        left =
            All-map group
              (λ (o : Session F) c. elim c [
                | inl f ↦ inl (
                    finished_with-update_all _ (ids group) o.session_id st.sessions
                      (mirror_failures_lem (st.remux_failures key + 1)) f)
                | inr l ↦ inr l
              ])
              r.left;
        merges = r.merges;
      } in
      option_both (Sound cfg texts formats env s key group) env.build _ _
        (if_both (Sound cfg texts formats env s key group) _ (some failure, st1) _
          (gives_up cfg texts formats env s key group failure st1 r.quiet)
          (upload_fallback-Sound remote to_add present st1 r1))
        (λ x.
          store-Sound cfg texts formats env s key group key _ (etag_of remote) x.0 x.1 _ st r.quiet
            (summarize-Justified remote to_add r.merges) (summarize-Kept remote to_add present st r)
            (done_members remote to_add present st r))

  preflight-Sound :
      (remote : Option RemoteObject) (to_add present : List Member) (st : Attempt F)
      → ReadyFor remote to_add present st
      → Sound cfg texts formats env s key group
          (preflight cfg texts formats env s key group remote to_add present st)
  unfolding preflight
  preflight-Sound none to_add present st r =
      if_both (Sound cfg texts formats env s key group) _ (some failure, st) _
        (gives_up cfg texts formats env s key group failure st r.quiet)
        (build_object-Sound none to_add present st r)
  preflight-Sound (some o) to_add present st r =
      if_both (Sound cfg texts formats env s key group) _ (some failure, st) _
        (gives_up cfg texts formats env s key group failure st r.quiet)
        (option_both (Sound cfg texts formats env s key group) env.fetch _ _
          (build_object-Sound (some o) to_add present st r)
          (λ x. gives_up cfg texts formats env s key group x st r.quiet))

  may_merge-Sound :
      (o : RemoteObject) (to_add present : List Member) (a : Answer Bool) (st : Attempt F)
      → ReadyFor (some o) to_add present st
      → Sound cfg texts formats env s key group
          (may_merge cfg texts formats env s key group o to_add present (a, st))
  may_merge-Sound o to_add present (fails x) st r =
      gives_up cfg texts formats env s key group x st r.quiet
  may_merge-Sound o to_add present (answers false) st r =
      rename_group-Sound cfg texts formats env s key group st r.quiet
  may_merge-Sound o to_add present (answers true) st r =
      preflight-Sound (some o) to_add present st r

  conditional_writes_of-ReadyFor :
      (remote : Option RemoteObject) (to_add present : List Member) (st : Attempt F)
      → ReadyFor remote to_add present st
      → ReadyFor remote to_add present (conditional_writes_of env st).1
  unfolding conditional_writes_of
  conditional_writes_of-ReadyFor remote to_add present st r =
      let P = λ (a : Answer Bool × Attempt F). ReadyFor remote to_add present a.1 in
      option_both P st.merge_allowed _ _
        (answer_both P env.conditional_writes _ _ (λ x. r)
          (λ ok. record {
            quiet = r.quiet;
            known = r.known;
            held = r.held;
            left = r.left;
            merges = r.merges;
          }))
        (λ allowed. r)

  pub add_measured-Sound :
      (etag : Text) (remote : Option RemoteObject) (present : List Member)
      (ms : Option (List Member)) (st : Attempt F)
      → Quiet cfg texts formats env s key group st
      → ((qs : List Member) → ms ≡ some qs → ReadyFor none qs present st)
      → ((qs : List Member)
          → ms ≡ some qs
          → 0 < length qs
          → Merges cfg texts formats env s key group remote qs)
      → Sound cfg texts formats env s key group
          (add_measured cfg texts formats env s key group etag remote present (ms, st))
  unfolding add_measured
  add_measured-Sound etag remote present none st q h k =
      gives_up cfg texts formats env s key group failure st q
  add_measured-Sound etag remote [] (some []) st q h k =
      let r = h [] refl in
      all_finished cfg texts formats env s key group st q (
        All-map group
          (λ (o : Session F) c. elim c [
            | inl f ↦ f
            | inr l ↦ elim l [ inl a ↦ elim a [ ] | inr b ↦ elim b [ ] ]
          ])
          r.left)
  add_measured-Sound etag remote (p ∷ ps) (some []) st (e, f) h k =
      let r = h [] refl in
      complete_group-Sound cfg texts formats env s key group key etag false (p ∷ ps) st e
        (subst (λ qs. All (Justified cfg texts formats env s key group) qs) (sym f) tt)
        (All-map (p ∷ ps) (λ m. Held-in_bucket st m) r.held) (done_members none [] (p ∷ ps) st r)
  add_measured-Sound etag none present (some (m ∷ ms)) st q h k =
      preflight-Sound none (m ∷ ms) present st (h (m ∷ ms) refl)
  add_measured-Sound etag (some o) present (some (m ∷ ms)) st q h k =
      let r = h (m ∷ ms) refl in
      let ready : ReadyFor (some o) (m ∷ ms) present st = record {
        quiet = r.quiet;
        known = r.known;
        held = r.held;
        left = r.left;
        merges = k (m ∷ ms) refl (omega arith);
      } in
      may_merge-Sound o (m ∷ ms) present (conditional_writes_of env st).0
        (conditional_writes_of env st).1
        (conditional_writes_of-ReadyFor (some o) (m ∷ ms) present st ready)
