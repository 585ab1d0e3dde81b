-- ===== src/Recorder/Reconcile/Starts.antt =====
-- What Reconcile starts: behind a round every item that should be recording is.
use mathlib.Core.Path.{subst}
use spectado_stream_recorder.Common.{
  ℕ, suc, ◌≡◌, refl, sym, ap, ◌∙◌, ◌≢◌, ◌⊎◌, inl, inr, Bool, true, false, not, ◌||◌, Option, none,
  some, List, [], ◌∷◌, arith, if◌then◌else◌, Bool-cases, Option-cases, length, All,
}
use spectado_stream_recorder.Common.Text.{Text, text_eq, text_eq_refl}
use spectado_stream_recorder.Schedule.Document.{Item}
use spectado_stream_recorder.Recorder.Session.{Session, set_key, apply_item}
use spectado_stream_recorder.Recorder.Manager.{find_session, key_for}
use spectado_stream_recorder.Recorder.Reconcile.{
  take_codec, take_video, reuse_codec, reuse_video, pin_key, blank_session,
}
use spectado_stream_recorder.Recorder.Manager.{
  Config, Texts, Active, Manager, window_for, in_window, find_active, covered,
}
use spectado_stream_recorder.Recorder.Manager.Fresh.{free_id-ne-none, free_id_free}
use spectado_stream_recorder.Recorder.Reconcile.{
  StartFaults, DiskFree, session_id_for, new_session, start_session, is_full, consider,
  consider_all, scheduled, reconcile,
}

-- An item is dealt with: it records, or one of Reconcile's reasons not to start it holds.
abbrev pub Settled : {F : Type 0} → Config → ℕ → Manager F → Item → Type 0
Settled cfg now m it =
    (find_active it.id m.active ≢ none)
    ⊎ (in_window now (window_for cfg it) ≡ false)
    ⊎ (covered it m.sessions ≡ true)
    ⊎ (is_full cfg m ≡ true)
    ⊎ (m.disk_low ≡ true)

-- A manager with an active recording and a session more.
abbrev pub started : {F : Type 0} → Active → Session F → Manager F → Manager F
started a s m = record m { sessions = s ∷ m.sessions; active = a ∷ m.active }

find_active-cons :
    (id : Text) (a : Active) (as' : List Active)
    → find_active id as' ≢ none
    → find_active id (a ∷ as') ≢ none
unfolding find_active
find_active-cons id a as' h = ground (arith, h)

find_active_self : (a : Active) (as' : List Active) → find_active a.item_id (a ∷ as') ≢ none
unfolding find_active
find_active_self a as' = ground (arith, text_eq_refl a.item_id)

-- A field that both branches have alike.
if_same {ℓ ℓ'} :
    {A : Type ℓ} {B : Type ℓ'} (f : A → B) (b : Bool) {x y : A}
    → f x ≡ f y
    → f (if b then x else y) ≡ f y
if_same f true e = e
if_same f false e = refl

-- What startSessionLocked adds: a recording of the item, with a session whose id was free.
pub record Fresh {F : Type 0} (m : Manager F) (it : Item) (a : Active) (s : Session F)
    : Type 0 where
  pub item : a.item_id ≡ it.id
  pub session : a.session_id ≡ s.session_id
  pub unused : find_session s.session_id m.sessions ≡ none

module _ {F : Type 0} where
  covered-cons :
      (it : Item) (s : Session F) (ss : List (Session F))
      → covered it ss ≡ true
      → covered it (s ∷ ss) ≡ true
  unfolding covered
  covered-cons it s ss h = ground (arith, h)

  started-Settled :
      (cfg : Config) (now : ℕ) (a : Active) (s : Session F) (m : Manager F) (it : Item)
      → Settled cfg now m it
      → Settled cfg now (started a s m) it
  started-Settled cfg now a s m it (inl h) = inl (find_active-cons it.id a m.active h)
  started-Settled cfg now a s m it (inr (inl h)) = inr (inl h)
  started-Settled cfg now a s m it (inr (inr (inl h))) =
      inr (inr (inl (covered-cons it s m.sessions h)))
  started-Settled cfg now a s m it (inr (inr (inr (inl h)))) =
      inr (inr (inr (inl (ground (arith, h)))))
  started-Settled cfg now a s m it (inr (inr (inr (inr h)))) = inr (inr (inr (inr h)))

  take_codec_id :
      (o : Option (Session F)) (s : Session F) → (take_codec o s).session_id ≡ s.session_id
  unfolding take_codec
  take_codec_id none s = refl
  take_codec_id (some o) s = refl

  take_video_id :
      (o : Option (Session F)) (s : Session F) → (take_video o s).session_id ≡ s.session_id
  unfolding take_video
  take_video_id none s = refl
  take_video_id (some o) s = refl

  reuse_codec_id :
      (it : Item) (ss : List (Session F)) (s : Session F)
      → (reuse_codec it ss s).session_id ≡ s.session_id
  unfolding reuse_codec take_codec
  reuse_codec_id it ss s = if_same Session.session_id _ (take_codec_id _ s)

  reuse_video_id :
      (it : Item) (ss : List (Session F)) (s : Session F)
      → (reuse_video it ss s).session_id ≡ s.session_id
  unfolding reuse_video take_video
  reuse_video_id it ss s = if_same Session.session_id _ (take_video_id _ s)

  apply_item_id : (it : Item) (s : Session F) → (apply_item it s).session_id ≡ s.session_id
  unfolding apply_item
  apply_item_id it s = ground arith

  pin_key_id : (k : Text × ℕ × Bool) (s : Session F) → (pin_key k s).session_id ≡ s.session_id
  unfolding pin_key set_key
  pin_key_id (key, renames, inherited) s = ground arith

  module _ (cfg : Config) (texts : Texts) (io : StartFaults) (now : ℕ) where
    session_id_for_lem :
        (it : Item) (ss : List (Session F)) {sid : Text}
        → session_id_for texts it now ss ≡ some sid
        → find_session sid ss ≡ none
    unfolding session_id_for
    session_id_for_lem it ss e = free_id_free (suc (length ss)) texts _ 2 _ ss e

    new_session_id :
        (it : Item) (sid : Text) (ss : List (Session F))
        → (new_session cfg texts it now sid ss).session_id ≡ sid
    unfolding new_session blank_session
    new_session_id it sid ss =
        let b = apply_item it (blank_session cfg texts it now sid) in
        let s = reuse_video it ss (reuse_codec it ss b) in
        let t : Session F = if text_eq it.key [] then s else record s { key_template = it.key } in
        pin_key_id (key_for cfg texts ss t) t
        ∙ if_same Session.session_id (text_eq it.key []) refl
        ∙ reuse_video_id it ss (reuse_codec it ss b)
        ∙ reuse_codec_id it ss b
        ∙ apply_item_id it (blank_session cfg texts it now sid)

    -- A start adds one recording, or fails and changes nothing.
    pub start_session_cases :
        (it : Item) (m : Manager F)
        → (start_session cfg texts io now it m ≡ m)
          ⊎ ((a : Active) × (s : Session F) × Fresh m it a s
              × (start_session cfg texts io now it m ≡ started a s m))
    unfolding start_session
    start_session_cases it m = elim (Option-cases (session_id_for texts it now m.sessions)) [
      | inl e ↦ inl (rw (e, start_session) refl)
      | inr (sid, e) ↦ elim (Bool-cases (io.save_fails it.id || io.open_fails it.id)) [
        | inl fails ↦ inl (rw (e, fails, start_session) refl)
        | inr works ↦ inr (
          record { item_id = it.id; session_id = sid; supervised = true; stopping = false },
          new_session cfg texts it now sid m.sessions,
          record {
            item = refl;
            session = sym (new_session_id it sid m.sessions);
            unused =
                ap (λ t. find_session t m.sessions) (new_session_id it sid m.sessions)
                ∙ session_id_for_lem it m.sessions e;
          },
          rw (e, works, start_session) refl,
        )
      ]
    ]

    pub consider_cases :
        (it : Item) (m : Manager F)
        → (consider cfg texts io now it m ≡ m)
          ⊎ ((a : Active) × (s : Session F) × Fresh m it a s
              × (find_active it.id m.active ≡ none)
              × (is_full cfg m ≡ false)
              × (consider cfg texts io now it m ≡ started a s m))
    unfolding consider
    consider_cases it m = elim (Option-cases (find_active it.id m.active)) [
      | inr (a, e) ↦ inl (rw (e, consider) refl)
      | inl e ↦
          elim (Bool-cases (
            not (in_window now (window_for cfg it))
            || covered it m.sessions
            || is_full cfg m
            || m.disk_low)) [
              | inl kept ↦ inl (rw (e, kept, consider) refl)
              | inr starts ↦ elim (start_session_cases it m) [
                | inl same ↦ inl (rw (e, starts, consider) same)
                | inr (a, s, f, new) ↦
                    inr (a, s, f, e, ground (arith, starts), rw (e, starts, consider) new)
              ]
            ]
    ]

    consider-Settled_other :
        (it : Item) (m : Manager F) (other : Item)
        → Settled cfg now m other
        → Settled cfg now (consider cfg texts io now it m) other
    consider-Settled_other it m other h = elim (consider_cases it m) [
      | inl same ↦ subst (λ n. Settled cfg now n other) (sym same) h
      | inr (a, s, _, _, _, new) ↦
          subst (λ n. Settled cfg now n other) (sym new) (started-Settled cfg now a s m other h)
    ]

    module _ (itoa-inj : (i j : ℕ) → texts.itoa i ≡ texts.itoa j → i ≡ j)
        (works : (id : Text) → (io.save_fails id ≡ false) × (io.open_fails id ≡ false)) where
      start_session-active :
          (it : Item) (m : Manager F)
          → find_active it.id (start_session cfg texts io now it m).active ≢ none
      unfolding start_session session_id_for
      start_session-active it m = elim (Option-cases (session_id_for texts it now m.sessions)) [
        | inl e ↦ absurd (free_id-ne-none texts itoa-inj _ m.sessions e)
        | inr (sid, e) ↦
            rw (e, (works it.id).0, (works it.id).1, start_session) (find_active_self _ m.active)
      ]

      consider-Settled :
          (it : Item) (m : Manager F) → Settled cfg now (consider cfg texts io now it m) it
      unfolding consider
      consider-Settled it m = elim (Option-cases (find_active it.id m.active)) [
        | inr (a, e) ↦ inl (ground (arith, e))
        | inl e ↦
            elim (Bool-cases (
              not (in_window now (window_for cfg it))
              || covered it m.sessions
              || is_full cfg m
              || m.disk_low)) [
                | inl kept ↦ ground (arith, e, kept)
                | inr starts ↦ rw (e, starts, consider) (inl (start_session-active it m))
              ]
      ]

      consider_all-Settled_other :
          (its : List Item) (m : Manager F) (other : Item)
          → Settled cfg now m other
          → Settled cfg now (consider_all cfg texts io now its m) other
      unfolding consider_all
      consider_all-Settled_other [] m other h = h
      consider_all-Settled_other (it ∷ its) m other h =
          consider_all-Settled_other its _ other (consider-Settled_other it m other h)

      consider_all-Settled :
          (its : List Item) (m : Manager F)
          → All (Settled cfg now (consider_all cfg texts io now its m)) its
      unfolding consider_all
      consider_all-Settled [] m = tt
      consider_all-Settled (it ∷ its) m =
          (consider_all-Settled_other its _ it (consider-Settled it m), consider_all-Settled its _)

      -- If starting works and strconv.Itoa writes different numbers differently, then behind a round
      -- of Reconcile, outside a shutdown, each item of the schedule records, or it is outside its
      -- window, or a finished session covers it, or the recordings are as many as the configuration
      -- allows, or the disk is low.
      pub reconcile-Settled :
          (free : DiskFree) (m : Manager F)
          → m.shutting_down ≡ false
          → All (Settled cfg now (reconcile cfg texts io free now m)) (scheduled m.sched)
      unfolding reconcile
      reconcile-Settled free m up = rw up (consider_all-Settled (scheduled m.sched) _)
