-- ===== src/Recorder/Reconcile/Valid.antt =====
-- What a round of Reconcile preserves: active recordings of different items, each with a session of
-- its own in the table, and as many as the configuration allows.
use mathlib.Core.Path.{subst}
use spectado_stream_recorder.Common.{
  ℕ, suc, ◌≤◌, ◌<◌, ◌≡◌, refl, sym, ap, ◌∙◌, ◌≢◌, inl, inr, true, Option, none, some, List, [], ◌∷◌,
  arith, Bool-cases, length, All, All-map, Apart,
}
use spectado_stream_recorder.Common.Text.{Text, text_eq, text_eq_iff, text_eq_refl}
use spectado_stream_recorder.Schedule.Document.{Item}
use spectado_stream_recorder.Recorder.Session.{FinishReason, Session}
use spectado_stream_recorder.Recorder.Manager.{
  Config, Texts, Active, Manager, find_active, remove_active, mark_supervised, find_session,
  put_session,
}
use spectado_stream_recorder.Recorder.Reconcile.{
  StartFaults, DiskFree, check_disk, refresh, stop_reason, stop, settle, visit, visit_all,
  consider_all, scheduled, reconcile,
}
use spectado_stream_recorder.Recorder.Reconcile.Starts.{started, Fresh, consider_cases}
use spectado_stream_recorder.Recorder.Reconcile.Stops.{Separate, visit_cases, if_true, if_false}

module _ {κ} (P : Active → Type κ) where
  All-remove_active : (id : Text) (as' : List Active) → All P as' → All P (remove_active id as')
  unfolding remove_active
  All-remove_active id [] h = tt
  All-remove_active id (a ∷ as') (p, h) = elim (Bool-cases (text_eq a.item_id id)) [
    | inl here ↦ rw here (All-remove_active id as' h)
    | inr there ↦ rw there (p, All-remove_active id as' h)
  ]

  All-mark_supervised :
      (id : Text) (as' : List Active)
      → ((a : Active) → P a → P (record a { supervised = true }))
      → All P as'
      → All P (mark_supervised id as')
  unfolding mark_supervised
  All-mark_supervised id [] k h = tt
  All-mark_supervised id (a ∷ as') k (p, h) = elim (Bool-cases (text_eq a.item_id id)) [
    | inl here ↦ rw here (k a p, All-mark_supervised id as' k h)
    | inr there ↦ rw there (p, All-mark_supervised id as' k h)
  ]

remove_active-Separate :
    (id : Text) (as' : List Active) → Apart Separate as' → Apart Separate (remove_active id as')
unfolding remove_active
remove_active-Separate id [] h = tt
remove_active-Separate id (a ∷ as') (ha, h) = elim (Bool-cases (text_eq a.item_id id)) [
  | inl here ↦ rw here (remove_active-Separate id as' h)
  | inr there ↦ rw there (All-remove_active (Separate a) id as' ha, remove_active-Separate id as' h)
]

mark_supervised-Separate :
    (id : Text) (as' : List Active) → Apart Separate as' → Apart Separate (mark_supervised id as')
unfolding mark_supervised
mark_supervised-Separate id [] h = tt
mark_supervised-Separate id (a ∷ as') (ha, h) = elim (Bool-cases (text_eq a.item_id id)) [
  | inl here ↦
      rw here
        (All-mark_supervised (Separate a) id as' (λ b d. d) ha, mark_supervised-Separate id as' h)
  | inr there ↦
      rw there
        (All-mark_supervised (Separate a) id as' (λ b d. d) ha, mark_supervised-Separate id as' h)
]

length-remove_active_le :
    (id : Text) (as' : List Active) → length (remove_active id as') ≤ length as'
unfolding remove_active
length-remove_active_le id [] = omega arith
length-remove_active_le id (a ∷ as') = ground (arith, length-remove_active_le id as')

length-mark_supervised :
    (id : Text) (as' : List Active) → length (mark_supervised id as') ≡ length as'
unfolding mark_supervised
length-mark_supervised id [] = refl
length-mark_supervised id (a ∷ as') = ap suc (length-mark_supervised id as')

-- No recording of an item: all recordings are of others.
find_active-others :
    (id : Text) (as' : List Active)
    → find_active id as' ≡ none
    → All (λ (b : Active). id ≢ b.item_id) as'
unfolding find_active
find_active-others id [] h = tt
find_active-others id (b ∷ bs) h = elim (Bool-cases (text_eq b.item_id id)) [
  | inl here ↦ absurd (ground (arith, here, h))
  | inr there ↦ (
    λ e. ground (arith, there, text_eq_iff b.item_id id, e),
    find_active-others id bs (ground (arith, there, h)),
  )
]

module _ {F : Type 0} where
  pub record IsValid (m : Manager F) : Type 0 where
    pub separate : Apart Separate m.active
    pub known : All (λ (a : Active). find_session a.session_id m.sessions ≢ none) m.active

  pub put_session-known :
      (t : Text) (s : Session F) (ss : List (Session F))
      → find_session t ss ≢ none
      → find_session t (put_session s ss) ≢ none
  unfolding find_session put_session
  put_session-known t s [] h = h
  put_session-known t s (u ∷ ss) h = elim (Bool-cases (text_eq u.session_id s.session_id)) [
    | inl here ↦
        let same = (text_eq_iff u.session_id s.session_id).0 here in
        rw here (ground (arith, h, ap (λ (x : Text). text_eq x t) same, put_session-known t s ss))
    | inr there ↦ rw there (ground (arith, h, put_session-known t s ss))
  ]

  cons-known :
      (t : Text) (s : Session F) (ss : List (Session F))
      → find_session t ss ≢ none
      → find_session t (s ∷ ss) ≢ none
  unfolding find_session
  cons-known t s ss h = ground (arith, h)

  cons_known_self :
      (s : Session F) (ss : List (Session F)) → find_session s.session_id (s ∷ ss) ≢ none
  unfolding find_session
  cons_known_self s ss = ground (arith, text_eq_refl s.session_id)

  settle-IsValid :
      (a : Active) (v : Option FinishReason) (m : Manager F) → IsValid m → IsValid (settle a v m)
  unfolding settle stop
  settle-IsValid a none m ok = record {
    separate = mark_supervised-Separate a.item_id m.active ok.separate;
    known = All-mark_supervised _ a.item_id m.active (λ b h. h) ok.known;
  }
  settle-IsValid a (some r) m ok = record {
    separate = remove_active-Separate a.item_id m.active ok.separate;
    known = All-remove_active _ a.item_id m.active ok.known;
  }

  settle-count :
      (a : Active) (v : Option FinishReason) (m : Manager F)
      → length (settle a v m).active ≤ length m.active
  unfolding settle stop
  settle-count a none m = omega (arith, length-mark_supervised a.item_id m.active)
  settle-count a (some r) m = length-remove_active_le a.item_id m.active

  visit-IsValid :
      (cfg : Config) (now : ℕ) (a : Active) (m : Manager F)
      → IsValid m
      → IsValid (visit cfg now a m)
  visit-IsValid cfg now a m ok = elim (visit_cases cfg now a m) [
    | inl (same, _) ↦ subst IsValid (sym same) ok
    | inr (s, _, _, new) ↦
        let t = (refresh m.sched a.item_id s).0 in
        subst IsValid (sym new) (
          settle-IsValid a _ _ (record {
            separate = ok.separate;
            known =
                All-map m.active (λ b h. put_session-known b.session_id t m.sessions h) ok.known;
          }))
  ]

  visit-count :
      (cfg : Config) (now : ℕ) (a : Active) (m : Manager F)
      → length (visit cfg now a m).active ≤ length m.active
  visit-count cfg now a m = elim (visit_cases cfg now a m) [
    | inl (same, _) ↦ omega (arith, ap (λ n. length n.active) same)
    | inr (s, _, _, new) ↦
        let t = refresh m.sched a.item_id s in
        omega (
          arith,
          ap (λ n. length n.active) new,
          settle-count a (stop_reason cfg now t)
              (record m { sessions = put_session t.0 m.sessions }),
        )
  ]

  visit_all-IsValid :
      (cfg : Config) (now : ℕ) (as' : List Active) (m : Manager F)
      → IsValid m
      → IsValid (visit_all cfg now as' m)
  unfolding visit_all
  visit_all-IsValid cfg now [] m ok = ok
  visit_all-IsValid cfg now (a ∷ as') m ok =
      visit_all-IsValid cfg now as' _ (visit-IsValid cfg now a m ok)

  visit_all-count :
      (cfg : Config) (now : ℕ) (as' : List Active) (m : Manager F)
      → length (visit_all cfg now as' m).active ≤ length m.active
  unfolding visit_all
  visit_all-count cfg now [] m = omega arith
  visit_all-count cfg now (a ∷ as') m =
      omega (arith, visit-count cfg now a m, visit_all-count cfg now as' (visit cfg now a m))

  started-IsValid :
      (m : Manager F) (it : Item) (a : Active) (s : Session F)
      → IsValid m
      → Fresh m it a s
      → find_active it.id m.active ≡ none
      → IsValid (started a s m)
  started-IsValid m it a s ok fresh new = record {
    separate = (apart m.active ok.known (find_active-others it.id m.active new), ok.separate);
    known = (
      λ e.
          cons_known_self s m.sessions
            (ap (λ (t : Text). find_session t (s ∷ m.sessions)) (sym fresh.session) ∙ e),
      All-map m.active (λ b h. cons-known b.session_id s m.sessions h) ok.known,
    );
  }
    where
      apart :
          (as' : List Active)
          → All (λ (b : Active). find_session b.session_id m.sessions ≢ none) as'
          → All (λ (b : Active). it.id ≢ b.item_id) as'
          → All (Separate a) as'
      apart [] k o = tt
      apart (b ∷ bs) (k, ks) (o, os) = (
        (
          λ e. o (sym fresh.item ∙ e),
          λ e.
              k (
                ap (λ (t : Text). find_session t m.sessions) (sym e ∙ fresh.session)
                ∙ fresh.unused),
        ),
        apart bs ks os,
      )

  module _ (cfg : Config) (texts : Texts) (io : StartFaults) (now : ℕ) where
    consider_all-IsValid :
        (its : List Item) (m : Manager F)
        → IsValid m
        → IsValid (consider_all cfg texts io now its m)
    unfolding consider_all
    consider_all-IsValid [] m ok = ok
    consider_all-IsValid (it ∷ its) m ok =
        consider_all-IsValid its _ (elim (consider_cases cfg texts io now it m) [
          | inl same ↦ subst IsValid (sym same) ok
          | inr (a, s, fresh, new, _, e) ↦
              subst IsValid (sym e) (started-IsValid m it a s ok fresh new)
        ])

    consider_all-count :
        (its : List Item) (m : Manager F)
        → 0 < cfg.max_recordings
        → length m.active ≤ cfg.max_recordings
        → length (consider_all cfg texts io now its m).active ≤ cfg.max_recordings
    unfolding consider_all
    consider_all-count [] m limit h = h
    consider_all-count (it ∷ its) m limit h =
        consider_all-count its _ limit (elim (consider_cases cfg texts io now it m) [
          | inl same ↦ subst (λ (n : Manager F). length n.active ≤ cfg.max_recordings) (sym same) h
          | inr (a, s, _, _, room, e) ↦
              subst (λ (n : Manager F). length n.active ≤ cfg.max_recordings) (sym e)
                (ground (arith, room, limit))
        ])

    -- A round of Reconcile keeps the active recordings apart: no two are of one item or have one
    -- session, and each one's session is in the table.
    pub reconcile-IsValid :
        (free : DiskFree) (m : Manager F) → IsValid m → IsValid (reconcile cfg texts io free now m)
    unfolding reconcile
    reconcile-IsValid free m ok = elim (Bool-cases m.shutting_down) [
      | inl down ↦ subst IsValid (sym (if_true _ _ down)) ok
      | inr up ↦ subst IsValid (sym (if_false _ _ up)) (
          consider_all-IsValid (scheduled m.sched) _ (
            visit_all-IsValid cfg now m.active _
              (record { separate = ok.separate; known = ok.known })))
    ]

    -- If a number of recordings is configured and not exceeded, a round of Reconcile does not exceed
    -- it.
    pub reconcile_count :
        (free : DiskFree) (m : Manager F)
        → 0 < cfg.max_recordings
        → length m.active ≤ cfg.max_recordings
        → length (reconcile cfg texts io free now m).active ≤ cfg.max_recordings
    unfolding reconcile
    reconcile_count free m limit h = elim (Bool-cases m.shutting_down) [
      | inl down ↦
          subst (λ (n : Manager F). length n.active ≤ cfg.max_recordings) (sym (if_true _ _ down)) h
      | inr up ↦
          subst (λ (n : Manager F). length n.active ≤ cfg.max_recordings) (sym (if_false _ _ up))
            (consider_all-count (scheduled m.sched) _ limit (
              omega (
                arith,
                h,
                visit_all-count cfg now m.active
                    (record m { disk_low = check_disk cfg free m.disk_low }),
              )))
    ]
