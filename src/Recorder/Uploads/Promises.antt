-- ===== src/Recorder/Uploads/Promises.antt =====
-- What uploadOnce promises, whatever the disk, ffmpeg and the storage answer.
use spectado_stream_recorder.Common.{
  ℕ, ◌≡◌, refl, ◌⊎◌, inl, inr, true, false, not, none, List, [], ◌∷◌, arith, if◌then◌else◌, if_both,
  if_cases, All,
}
use spectado_stream_recorder.Common.Text.{Text, text_eq}
use spectado_stream_recorder.Recorder.Session.{Session, is_terminal}
use spectado_stream_recorder.Recorder.Manager.{Config, Texts}
use spectado_stream_recorder.Recorder.Uploads.Manifest.{Formats}
use spectado_stream_recorder.Recorder.Uploads.Group.{
  Attempt, Claim, refused, claimed, claimed_group, claim_group, key_changed, deferral, take_group,
  capturing, group_of, insert_by_start, belongs,
}
use spectado_stream_recorder.Recorder.Uploads.Steps.{Answers}
use spectado_stream_recorder.Recorder.Uploads.Once.{upload_claimed, upload_once}
use spectado_stream_recorder.Recorder.Uploads.Finished.{finished_with}
use spectado_stream_recorder.Recorder.Uploads.Buckets.{in_bucket}
use spectado_stream_recorder.Recorder.Uploads.Sound.{Justified, Sound, Quiet}
use spectado_stream_recorder.Recorder.Uploads.Safety.{upload_claimed-Sound}

module _ {F : Type 0} where
  insert_by_start-All :
      (P : Session F → Type 0) (s : Session F) (os : List (Session F))
      → All P (insert_by_start s os)
      → P s × All P os
  unfolding insert_by_start
  insert_by_start-All P s [] (h, hs) = (h, tt)
  insert_by_start-All P s (o ∷ os) h =
      if_cases (λ l. All P l → P s × (P o × All P os)) _ (o ∷ insert_by_start s os) (s ∷ o ∷ os)
        (λ b k. let (x, xs) = k in let (y, ys) = insert_by_start-All P s os xs in (y, (x, ys)))
        (λ b k. k) h

  -- What the whole group has, each session that belongs to the object has.
  group_of-All :
      (P : Session F → Type 0) (s : Session F) (key : Text) (os : List (Session F))
      → All P (group_of s key os)
      → All (λ (o : Session F). (belongs s key o ≡ false) ⊎ P o) os
  unfolding group_of
  group_of-All P s key [] h = tt
  group_of-All P s key (o ∷ os) h =
      if_cases
        (λ l.
          All P l
          → ((belongs s key o ≡ false) ⊎ P o)
            × All (λ (x : Session F). (belongs s key x ≡ false) ⊎ P x) os)
        (belongs s key o) (insert_by_start o (group_of s key os)) (group_of s key os)
        (λ b k.
          let (x, xs) = insert_by_start-All P o (group_of s key os) k in
          (inr x, group_of-All P s key os xs))
        (λ b k. (inl b, group_of-All P s key os k)) h

  abbrev fresh : Attempt F → Attempt F
  fresh st = record st { stored = []; removed = [] }

  -- How claimGroup ends.
  claim_group_cases :
      (P : Claim F × Attempt F → Type 0) (now : ℕ) (s : Session F) (key : Text) (st : Attempt F)
      → (is_terminal s.state ≡ true → P (claimed [], st))
      → P (refused key_changed, st)
      → P (deferral now s st)
      → P (take_group s key st)
      → P (claim_group now s key st)
  unfolding claim_group
  claim_group_cases P now s key st whole changed later group =
      let waiting =
        if capturing s key st.sessions then deferral now s st else take_group s key st in
      if_cases P (is_terminal s.state) (claimed [], st)
        (if not (text_eq s.key key) then (refused key_changed, st) else waiting) whole
        (λ b.
          if_both P (not (text_eq s.key key)) (refused key_changed, st) waiting changed
            (if_both P (capturing s key st.sessions) (deferral now s st) (take_group s key st) later
              group))

  claim_group-Quiet :
      (cfg : Config) (texts : Texts) (formats : Formats) (env : Answers F) (s : Session F)
      (key : Text) (st : Attempt F)
      → Quiet cfg texts formats env s key [] (claim_group env.now s key (fresh st)).1
  claim_group-Quiet cfg texts formats env s key st =
      claim_group_cases (λ r. Quiet cfg texts formats env s key [] r.1) env.now s key (fresh st)
        (λ e. (refl, refl)) (refl, refl) (refl, refl) (refl, refl)

  upload_once-Sound :
      (cfg : Config) (texts : Texts) (formats : Formats) (env : Answers F) (s : Session F)
      (key : Text) (st : Attempt F)
      → Sound cfg texts formats env s key
          (claimed_group (claim_group env.now s key (fresh st)).0)
          (upload_once cfg texts formats env s key st)
  unfolding upload_once
  upload_once-Sound cfg texts formats env s key st =
      upload_claimed-Sound cfg texts formats env s key (claim_group env.now s key (fresh st)).0
        (claim_group env.now s key (fresh st)).1 (claim_group-Quiet cfg texts formats env s key st)

  -- An attempt removes the capture of a session only if the session's digest stands in the manifest
  -- of an object that it found under the key or the fallback key, or that it stored itself.
  pub upload_once-removed :
      (cfg : Config) (texts : Texts) (formats : Formats) (env : Answers F) (s : Session F)
      (key : Text) (st : Attempt F)
      → All
          (λ sid.
            in_bucket texts formats env (upload_once cfg texts formats env s key st).1.stored sid
            ≡ true)
          (upload_once cfg texts formats env s key st).1.removed
  upload_once-removed cfg texts formats env s key st =
      (upload_once-Sound cfg texts formats env s key st).removed

  -- An attempt stores an object as a new one, or in place of the very object that it found: then that
  -- object is of the same recording, its sessions come first in the new manifest, and the parts do not
  -- exceed the cap.
  pub upload_once-stored :
      (cfg : Config) (texts : Texts) (formats : Formats) (env : Answers F) (s : Session F)
      (key : Text) (st : Attempt F)
      → All
          (Justified cfg texts formats env s key [])
          (upload_once cfg texts formats env s key st).1.stored
  upload_once-stored cfg texts formats env s key st =
      (upload_once-Sound cfg texts formats env s key st).stored

  -- An attempt for a session that is not terminal, if it ends without an error, leaves every session
  -- that waited for its upload to the same object in a terminal state.
  pub upload_once_finishes :
      (cfg : Config) (texts : Texts) (formats : Formats) (env : Answers F) (s : Session F)
      (key : Text) (st : Attempt F)
      → is_terminal s.state ≡ false
      → (upload_once cfg texts formats env s key st).0 ≡ none
      → All
          (λ (o : Session F).
            (belongs s key o ≡ false)
            ⊎ (finished_with o.session_id (upload_once cfg texts formats env s key st).1.sessions
                ≡ true))
          st.sessions
  unfolding upload_once claim_group
  upload_once_finishes cfg texts formats env s key st e =
      let P = λ (r : Claim F × Attempt F).
        (upload_claimed cfg texts formats env s key r).0 ≡ none
        → All
            (λ (o : Session F).
              (belongs s key o ≡ false)
              ⊎ (finished_with o.session_id
                    (upload_claimed cfg texts formats env s key r).1.sessions
                  ≡ true))
            st.sessions in
      claim_group_cases P env.now s key (fresh st) (λ t. ground (arith, e, t))
        (λ h. ground (arith, h)) (λ h. ground (arith, h))
        (λ h. group_of-All _ s key st.sessions (
          (upload_claimed-Sound cfg texts formats env s key (claimed (group_of s key st.sessions))
              (take_group s key (fresh st)).1 (refl, refl)).finished
            h))
