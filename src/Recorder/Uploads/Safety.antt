-- ===== src/Recorder/Uploads/Safety.antt =====
-- What an attempt of uploadOnce makes sure of, whatever the disk, ffmpeg and the storage answer.
use mathlib.Core.Path.{subst}
use spectado_stream_recorder.Common.{
  ℕ, ◌+◌, ◌≤◌, ◌<◌, ◌≡◌, refl, sym, ap, ◌∙◌, ◌⊎◌, inl, inr, Bool, true, false, ◌&&◌, ◌||◌, Option,
  none, some, List, [], ◌∷◌, ◌++◌, arith, ltb, ◌==◌, ==_iff, if_both, if_cases, length, All,
  All-map,
}
use spectado_stream_recorder.Common.Text.{Text, codes, text_eq, text_eq_iff, Listed}
use spectado_stream_recorder.Recorder.Session.{Session, is_terminal}
use spectado_stream_recorder.Recorder.Manager.{Config, Texts}
use spectado_stream_recorder.Recorder.Uploads.Manifest.{
  Formats, ObjectInfo, RemoteObject, Manifest, foreign, inconsistent, manifest, parse_remote_object,
  check_parts, trimmed_value, read_object,
}
use spectado_stream_recorder.Recorder.Uploads.Group.{
  permanent, Member, Attempt, Claim, refused, claimed, claimed_group, classify_members, place_all,
  member_ids, fail_members, give_up, rename_group,
}
use spectado_stream_recorder.Recorder.Uploads.Steps.{
  max_parts_per_object, Answer, fails, answers, Answers, held_by, not_held_by, measure_all,
}
use spectado_stream_recorder.Recorder.Uploads.Once.{
  merge_into, upload_found, upload_headed, upload_claimed,
}
use spectado_stream_recorder.Recorder.Uploads.Finished.{
  finished_with, finished_with-update_all, update_all_finishes, give_up_lem,
}
use spectado_stream_recorder.Recorder.Uploads.Buckets.{answer_manifest, All_append}
use spectado_stream_recorder.Recorder.Uploads.Measuring.{
  Known, result_length, Measures, measure_all-Measures,
}
use spectado_stream_recorder.Recorder.Uploads.Placing.{
  member_ids_look, member_ids-append_left, member_ids-append_right, Sorted, place_all-Known,
  place_all-Sorted, Present, not_held_by-Known, held_by-Present, held_by_or_not,
}
use spectado_stream_recorder.Recorder.Uploads.Sound.{
  Sound, Quiet, Left, gives_up, all_finished, rename_group-Sound,
}
use spectado_stream_recorder.Recorder.Uploads.Stages.{ReadyFor, add_measured-Sound}

-- The test of the parts cap, where it lets the parts through.
parts_limit :
    (b : Bool) (parts n m : ℕ)
    → (b || (ltb 0 n && ltb max_parts_per_object (parts + n))) ≡ false
    → 0 < m
    → m ≤ n
    → parts + m ≤ max_parts_per_object
parts_limit b parts n m e h k = ground (arith, e, h, k)

merge_split :
    (r : RemoteObject) (local absent : List Member) (t : Text)
    → Listed t (member_ids local) ⊎ Listed t (member_ids absent)
    → (Listed t (member_ids (not_held_by r local))
        ⊎ Listed t (member_ids (held_by r local ++ held_by r absent)))
      ⊎ Listed t (member_ids (not_held_by r absent))
merge_split r local absent t (inl h) = elim (held_by_or_not r local t h) [
  | inl a ↦ inl (inr (member_ids-append_left t (held_by r local) (held_by r absent) a))
  | inr b ↦ inl (inl b)
]
merge_split r local absent t (inr h) = elim (held_by_or_not r absent t h) [
  | inl a ↦ inl (inr (member_ids-append_right t (held_by r local) (held_by r absent) a))
  | inr b ↦ inr b
]

-- A manifest that is trusted has as many parts as it lists sessions.
abbrev Agrees : Manifest → Type 0
Agrees (manifest r) = r.parts ≡ length r.sessions
Agrees foreign = Unit
Agrees inconsistent = Unit

check_parts-Agrees : (n : Option ℕ) (q : RemoteObject) → Agrees (check_parts n q)
unfolding check_parts
check_parts-Agrees none q = tt
check_parts-Agrees (some n) q =
    if_cases Agrees (n == length q.sessions) _ inconsistent
      (λ h. (==_iff n (length q.sessions)).0 h) (λ h. tt)

parse_remote_object-Agrees :
    (texts : Texts) (formats : Formats) (info : ObjectInfo)
    → Agrees (parse_remote_object texts formats info)
unfolding parse_remote_object
parse_remote_object-Agrees texts formats info =
    let n = formats.atoi (trimmed_value texts info (codes "parts")) in
    let q = read_object texts formats info in
    if_both Agrees
      (text_eq (trimmed_value texts info (codes "recording-id")) []
        || text_eq (trimmed_value texts info (codes "sessions")) [])
      foreign (check_parts n q) tt (check_parts-Agrees n q)

module _ {F : Type 0} (cfg : Config) (texts : Texts) (formats : Formats) (env : Answers F)
    (s : Session F) (key : Text) (group : List (Session F)) where
  gather_ready :
      (to_add present : List Member) (st st1 : Attempt F) (qs : List Member)
      → ReadyFor cfg texts formats env s key group none to_add present st
      → Measures formats.session_digest to_add st (some qs, st1)
      → ReadyFor cfg texts formats env s key group none qs present st1
  gather_ready to_add present st st1 qs r h = record {
    quiet = (h.removed ∙ r.quiet.0, h.stored ∙ r.quiet.1);
    known = h.known;
    held = r.held;
    left =
        All-map group
          (λ (o : Session F) c. elim c [
            | inl f ↦ inl (h.still o.session_id f)
            | inr l ↦ elim l [
              | inr b ↦ inr (inr b)
              | inl a ↦
                  elim (member_ids_look
                    (λ t. (finished_with t st1.sessions ≡ true) ⊎ Listed t (member_ids qs)) to_add
                    o.session_id h.placed a) [ inl f ↦ inl f | inr q ↦ inr (inl q) ]
            ]
          ])
          r.left;
    merges = tt;
  }

  -- What is ready for the measuring is ready behind it.
  Measures-ReadyFor :
      (to_add present : List Member) (st : Attempt F) (ms : Option (List Member)) (st1 : Attempt F)
      → ReadyFor cfg texts formats env s key group none to_add present st
      → Measures formats.session_digest to_add st (ms, st1)
      → (qs : List Member) → ms ≡ some qs
      → ReadyFor cfg texts formats env s key group none qs present st1
  Measures-ReadyFor to_add present st ms st1 r h qs e =
      gather_ready to_add present st st1 qs r
        (subst (λ x. Measures formats.session_digest to_add st (x, st1)) e h)

  -- fail_members on those of the group that it takes out of the ones left.
  fail_members-Left :
      (reason : Text) (sids : List Text) (L M : Text → Type 0) (st : Attempt F)
      → ((t : Text) → L t → M t ⊎ Listed t sids)
      → Left cfg texts formats env s key group L st
      → Left cfg texts formats env s key group M (fail_members reason sids st)
  unfolding fail_members is_terminal
  fail_members-Left reason sids L M st split h =
      All-map group
        (λ (o : Session F) c. elim c [
          | inl f ↦ inl (
              finished_with-update_all (give_up reason) sids o.session_id st.sessions
                (give_up_lem reason) f)
          | inr l ↦ elim (split o.session_id l) [
            | inl m ↦ inr m
            | inr k ↦ inl (
                update_all_finishes (give_up reason) sids o.session_id st.sessions
                  (give_up_lem reason) (λ x. refl) k)
          ]
        ])
        h

  merge_into-Sound :
      (r : RemoteObject) (local absent : List Member) (st : Attempt F)
      → answer_manifest texts formats env.head ≡ manifest r
      → r.recording_id ≡ s.id
      → r.parts ≡ length r.sessions
      → Quiet cfg texts formats env s key group st
      → All (Known formats.session_digest) local
      → All (Known formats.session_digest) absent
      → Left cfg texts formats env s key group
          (λ t. Listed t (member_ids local) ⊎ Listed t (member_ids absent))
          st
      → Sound cfg texts formats env s key group
          (merge_into cfg texts formats env s key group r local absent st)
  unfolding merge_into
  merge_into-Sound r local absent st f i n q hl ha l =
      let gone = member_ids (not_held_by r absent) in
      let st1 = fail_members (codes "recording file missing") gone st in
      let to_add = not_held_by r local in
      let present = held_by r local ++ held_by r absent in
      let ready : ReadyFor cfg texts formats env s key group none to_add present st1 = record {
        quiet = q;
        known = not_held_by-Known formats.session_digest r local hl;
        held =
            subst (λ mf. All (Present formats.session_digest mf) present) (sym f)
              (All_append (Present formats.session_digest (manifest r)) (held_by r local)
                (held_by r absent) (held_by-Present formats.session_digest r local hl)
                (held_by-Present formats.session_digest r absent ha));
        left =
            fail_members-Left (codes "recording file missing") gone _ _ st
              (merge_split r local absent) l;
        merges = tt;
      } in
      let h = measure_all-Measures formats.session_digest env to_add st1 ready.known in
      if_cases (Sound cfg texts formats env s key group) _ (rename_group texts key group st1) _
        (λ b. rename_group-Sound cfg texts formats env s key group st1 q)
        (λ b.
          add_measured-Sound cfg texts formats env s key group r.etag (some r) present
            (measure_all env to_add st1).0 (measure_all env to_add st1).1
            (h.removed ∙ q.0, h.stored ∙ q.1) (Measures-ReadyFor to_add present st1 _ _ ready h)
            (λ qs e more.
              let short : length qs ≤ length to_add =
                subst (λ x. result_length x ≤ length to_add) e h.shorter in
              let limit = parts_limit _ r.parts (length to_add) (length qs) b more short in
              (f, i, subst (λ x. x + length qs ≤ max_parts_per_object) n limit)))

  upload_found-Sound :
      (mf : Manifest) (local absent : List Member) (st : Attempt F)
      → answer_manifest texts formats env.head ≡ mf
      → Agrees mf
      → Quiet cfg texts formats env s key group st
      → All (Known formats.session_digest) local
      → All (Known formats.session_digest) absent
      → Left cfg texts formats env s key group
          (λ t. Listed t (member_ids local) ⊎ Listed t (member_ids absent))
          st
      → Sound cfg texts formats env s key group
          (upload_found cfg texts formats env s key group mf local absent st)
  unfolding upload_found
  upload_found-Sound foreign local absent st f n q hl ha l =
      rename_group-Sound cfg texts formats env s key group st q
  upload_found-Sound inconsistent local absent st f n q hl ha l =
      gives_up cfg texts formats env s key group permanent st q
  upload_found-Sound (manifest r) local absent st f n q hl ha l =
      if_cases (Sound cfg texts formats env s key group) _ _ (rename_group texts key group st)
        (λ b.
          merge_into-Sound r local absent st f ((text_eq_iff r.recording_id s.id).0 b) n q hl ha l)
        (λ b. rename_group-Sound cfg texts formats env s key group st q)

  upload_headed-Sound :
      (a : Answer (Option ObjectInfo)) (local absent : List Member) (st : Attempt F)
      → a ≡ env.head
      → Quiet cfg texts formats env s key group st
      → All (Known formats.session_digest) local
      → All (Known formats.session_digest) absent
      → Left cfg texts formats env s key group
          (λ t. Listed t (member_ids local) ⊎ Listed t (member_ids absent))
          st
      → Sound cfg texts formats env s key group
          (upload_headed cfg texts formats env s key group a local absent st)
  unfolding upload_headed
  upload_headed-Sound (fails x) local absent st f q hl ha l =
      gives_up cfg texts formats env s key group x st q
  upload_headed-Sound (answers (some info)) local absent st f q hl ha l =
      upload_found-Sound (parse_remote_object texts formats info) local absent st
        (ap (answer_manifest texts formats) (sym f)) (parse_remote_object-Agrees texts formats info)
        q hl ha l
  upload_headed-Sound (answers none) local absent st f q hl ha l =
      let st1 = fail_members (codes "recording file missing") (member_ids absent) st in
      let ready : ReadyFor cfg texts formats env s key group none local [] st1 = record {
        quiet = q;
        known = hl;
        held = tt;
        left =
            fail_members-Left (codes "recording file missing") (member_ids absent) _ _ st
              (λ t c. elim c [ inl a ↦ inl (inl a) | inr b ↦ inr b ]) l;
        merges = tt;
      } in
      let h = measure_all-Measures formats.session_digest env local st1 hl in
      add_measured-Sound cfg texts formats env s key group [] none [] (measure_all env local st1).0
        (measure_all env local st1).1 (h.removed ∙ q.0, h.stored ∙ q.1)
        (Measures-ReadyFor local [] st1 _ _ ready h) (λ qs e more. tt)

module _ {F : Type 0} (cfg : Config) (texts : Texts) (formats : Formats) (env : Answers F) where
  Sorted-Left :
      (s : Session F) (key : Text) (group : List (Session F)) (st : Attempt F)
      → Quiet cfg texts formats env s key group st
      → (let (local, absent, st1) = classify_members env.files formats.session_digest group st in
          Left cfg texts formats env s key group
            (λ t. Listed t (member_ids local) ⊎ Listed t (member_ids absent))
            st1)
  unfolding classify_members
  Sorted-Left s key group st q =
      let empty = (place_all env.files formats.session_digest group).2 in
      fail_members-Left cfg texts formats env s key group
        (codes "empty recording (no data captured)") empty
        (λ t. Sorted t (place_all env.files formats.session_digest group)) _ st
        (λ t c. elim c [
          | inl a ↦ inl (inl a)
          | inr b ↦ elim b [ inl x ↦ inl (inr x) | inr y ↦ inr y ]
        ])
        (All-map group (λ (o : Session F) h. inr h)
          (place_all-Sorted formats.session_digest env.files group))

  pub upload_claimed-Sound :
      (s : Session F) (key : Text) (claim : Claim F) (st : Attempt F)
      → Quiet cfg texts formats env s key [] st
      → Sound cfg texts formats env s key
          (claimed_group claim)
          (upload_claimed cfg texts formats env s key (claim, st))
  unfolding upload_claimed classify_members fail_members
  upload_claimed-Sound s key (refused x) st q = gives_up cfg texts formats env s key [] x st q
  upload_claimed-Sound s key (claimed []) st q = all_finished cfg texts formats env s key [] st q tt
  upload_claimed-Sound s key (claimed (o ∷ os)) st q =
      let group = o ∷ os in
      let (kl, ka) = place_all-Known formats.session_digest env.files group in
      let (local, absent, st1) = classify_members env.files formats.session_digest group st in
      upload_headed-Sound cfg texts formats env s key group env.head local absent st1 refl q kl ka
        (Sorted-Left s key group st q)
