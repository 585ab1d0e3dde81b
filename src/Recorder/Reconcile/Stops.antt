-- ===== src/Recorder/Reconcile/Stops.antt =====
-- What Reconcile stops: exactly the active recordings that the schedule and the clock say.
use mathlib.Core.Path.{subst}
use spectado_stream_recorder.Common.{
  ℕ, ◌+◌, ◌-◌, ◌≤◌, ◌<◌, ◌≡◌, refl, sym, ap, ◌∙◌, ◌≢◌, ◌⊎◌, inl, inr, Bool, true, false, Option,
  none, some, List, [], ◌∷◌, arith, if◌then◌else◌, Bool-cases, Option-cases, All, All-map, Apart,
}
use spectado_stream_recorder.Common.Text.{Text, text_eq, text_eq_iff}
use spectado_stream_recorder.Schedule.Document.{Item, Schedule, get, present, Entry, parse_items}
use spectado_stream_recorder.Schedule.Document.Lookup.{Names}
use spectado_stream_recorder.Schedule.Document.Sorted.{parse_items-present}
use spectado_stream_recorder.Recorder.Session.{
  FinishReason, ended, removed, rotated, Session, effective_stop_late, apply_item,
}
use spectado_stream_recorder.Recorder.Manager.{
  Config, Texts, Active, Manager, find_session, put_session,
}
use spectado_stream_recorder.Recorder.Reconcile.{
  StartFaults, DiskFree, check_disk, refresh, stop_reason, stop, settle, visit, visit_all,
  consider_all, scheduled, reconcile,
}
use spectado_stream_recorder.Recorder.Reconcile.Starts.{consider_cases}

-- Two active recordings, of other items and with other sessions.
abbrev pub Separate : Active → Active → Type 0
Separate a b = (a.item_id ≢ b.item_id) × (a.session_id ≢ b.session_id)

-- The recordings that stop, each put in front of those before it.
abbrev pub stops_onto :
    (Active → Option FinishReason)
    → List Active
    → List (Active × FinishReason)
    → List (Active × FinishReason)
stops_onto v [] acc = acc
stops_onto v (a ∷ as') acc =
    stops_onto v as' (elim (v a) [ none ↦ acc | some r ↦ (record a { stopping = true }, r) ∷ acc ])

stops_onto_same :
    (v w : Active → Option FinishReason) (as' : List Active) (acc : List (Active × FinishReason))
    → All (λ a. v a ≡ w a) as'
    → stops_onto v as' acc ≡ stops_onto w as' acc
stops_onto_same v w [] acc h = refl
stops_onto_same v w (a ∷ as') acc (e, h) = rw e (stops_onto_same v w as' _ h)

-- One recording that stops for a reason, or does not.
abbrev listed :
    Active → Option FinishReason → List (Active × FinishReason) → List (Active × FinishReason)
listed a none acc = acc
listed a (some r) acc = (record a { stopping = true }, r) ∷ acc

stops_onto_one :
    (v : Active → Option FinishReason) (a : Active) (r : Option FinishReason)
    (acc : List (Active × FinishReason))
    → v a ≡ r
    → stops_onto v (a ∷ []) acc ≡ listed a r acc
stops_onto_one v a none acc e = rw (e, stops_onto) refl
stops_onto_one v a (some r) acc e = rw (e, stops_onto) refl

pub if_true {ℓ} : {A : Type ℓ} {b : Bool} (x y : A) → b ≡ true → (if b then x else y) ≡ x
if_true x y e = rw e refl

pub if_false {ℓ} : {A : Type ℓ} {b : Bool} (x y : A) → b ≡ false → (if b then x else y) ≡ y
if_false x y e = rw e refl

-- What the clock says of a session that ends at `end`, with its margin if it has one of its own.
abbrev pub Timed : Config → ℕ → ℕ → Option ℕ → ℕ → Option FinishReason → Type 0
Timed cfg now end late begun r =
    let over = end + elim late [ none ↦ cfg.record_stop_late | some d ↦ d ] in
    let most = cfg.max_session_duration in
    ((over ≤ now) × (r ≡ some ended))
    ⊎ ((now < over) × (0 < most) × (most ≤ now - begun) × (r ≡ some rotated))
    ⊎ ((now < over) × ((most ≡ 0) ⊎ (now - begun < most)) × (r ≡ none))

All_of {ℓ} : {A : Type ℓ} (P : A → Type 0) (xs : List A) → ((x : A) → P x) → All P xs
All_of P [] h = tt
All_of P (x ∷ xs) h = (h x, All_of P xs h)

module _ {F : Type 0} where
  -- Why an active recording stops, by the schedule and its session alone.
  abbrev pub verdict :
      Config → ℕ → Option Schedule → List (Session F) → Active → Option FinishReason
  verdict cfg now sched sessions a =
      if a.stopping then none else (elim (find_session a.session_id sessions) [
        | none ↦ none
        | some s ↦ stop_reason cfg now (refresh sched a.item_id s)
      ])

  find_session_id :
      (sid : Text) (ss : List (Session F)) {s : Session F}
      → find_session sid ss ≡ some s
      → s.session_id ≡ sid
  unfolding find_session
  find_session_id sid [] h = absurd cc
  find_session_id sid (t ∷ ss) {s} h = elim (Bool-cases (text_eq t.session_id sid)) [
    | inl here ↦
        let e : t ≡ s = ground (arith, here, h) in
        ap Session.session_id (sym e) ∙ (text_eq_iff t.session_id sid).0 here
    | inr there ↦ find_session_id sid ss {s = s} (ground (arith, there, h))
  ]

  find_session-put_session :
      (t : Text) (s : Session F) (ss : List (Session F))
      → t ≢ s.session_id
      → find_session t (put_session s ss) ≡ find_session t ss
  unfolding find_session put_session
  find_session-put_session t s [] ne = refl
  find_session-put_session t s (u ∷ ss) ne =
      let other : text_eq s.session_id t ≡ false = ground (arith, ne, text_eq_iff s.session_id t) in
      elim (Bool-cases (text_eq u.session_id s.session_id)) [
        | inl here ↦
            let also : text_eq u.session_id t ≡ false = ground (
              arith,
              ne,
              (text_eq_iff u.session_id s.session_id).0 here,
              text_eq_iff u.session_id t,
            ) in
            rw (here, other, also) (find_session-put_session t s ss ne)
        | inr there ↦ rw there (ground (arith, find_session-put_session t s ss ne))
      ]

  refresh_session_id :
      (sched : Option Schedule) (id : Text) (s : Session F)
      → (refresh sched id s).0.session_id ≡ s.session_id
  unfolding refresh apply_item
  refresh_session_id none id s = refl
  refresh_session_id (some sched) id s = elim (Option-cases (get id sched.items)) [
    | inl e ↦ ground (arith, e)
    | inr (it, e) ↦ ground (arith, e)
  ]

  stop_reason_removed :
      (cfg : Config) (now : ℕ) (s : Session F) → stop_reason cfg now (s, false) ≡ some removed
  unfolding stop_reason
  stop_reason_removed cfg now s = refl

  settle_facts :
      (a : Active) (v : Option FinishReason) (m : Manager F)
      → ((settle a v m).sessions ≡ m.sessions)
        × ((settle a v m).sched ≡ m.sched)
        × ((settle a v m).finalizing ≡ listed a v m.finalizing)
  unfolding settle stop
  settle_facts a none m = (refl, refl, refl)
  settle_facts a (some r) m = (refl, refl, refl)

  visit_running :
      (cfg : Config) (now : ℕ) (a : Active) (m : Manager F)
      → a.stopping ≡ false
      → visit cfg now a m ≡ (elim (find_session a.session_id m.sessions) [
        | none ↦ m
        | some s ↦
            let seen = refresh m.sched a.item_id s in
            settle a
              (stop_reason cfg now seen)
              (record m { sessions = put_session seen.0 m.sessions })
      ])
  unfolding visit
  visit_running cfg now a m runs = if_false m _ runs

  visit_stopping :
      (cfg : Config) (now : ℕ) (a : Active) (m : Manager F)
      → a.stopping ≡ true
      → visit cfg now a m ≡ m
  unfolding visit
  visit_stopping cfg now a m stopping = if_true m _ stopping

  pub visit_cases :
      (cfg : Config) (now : ℕ) (a : Active) (m : Manager F)
      → ((visit cfg now a m ≡ m) × (verdict cfg now m.sched m.sessions a ≡ none))
        ⊎ ((s : Session F) × (find_session a.session_id m.sessions ≡ some s)
            × (verdict cfg now m.sched m.sessions a
                ≡ stop_reason cfg now (refresh m.sched a.item_id s))
            × (visit cfg now a m
                ≡ settle a (stop_reason cfg now (refresh m.sched a.item_id s)) (record m {
                  sessions = put_session (refresh m.sched a.item_id s).0 m.sessions;
                })))
  visit_cases cfg now a m = elim (Bool-cases a.stopping) [
    | inl stopping ↦ inl (visit_stopping cfg now a m stopping, rw stopping refl)
    | inr runs ↦ elim (Option-cases (find_session a.session_id m.sessions)) [
      | inl e ↦ inl (visit_running cfg now a m runs ∙ (rw e refl), rw (runs, e) refl)
      | inr (s, e) ↦ inr (s, e, rw (runs, e) refl, visit_running cfg now a m runs ∙ (rw e refl))
    ]
  ]

  -- A visit lists the recording if it stops, and leaves the other sessions alone.
  visit_facts :
      (cfg : Config) (now : ℕ) (a : Active) (m : Manager F)
      → ((visit cfg now a m).sched ≡ m.sched)
        × ((visit cfg now a m).finalizing
            ≡ stops_onto (verdict cfg now m.sched m.sessions) (a ∷ []) m.finalizing)
        × ((t : Text)
            → t ≢ a.session_id
            → find_session t (visit cfg now a m).sessions ≡ find_session t m.sessions)
  visit_facts cfg now a m = elim (visit_cases cfg now a m) [
    | inl (same, v) ↦ (
      ap Manager.sched same,
      ap Manager.finalizing same
          ∙ sym (stops_onto_one (verdict cfg now m.sched m.sessions) a none m.finalizing v),
      λ t ne. ap (λ n. find_session t n.sessions) same,
    )
    | inr (s, e, v, new) ↦
        let seen = refresh m.sched a.item_id s in
        let f =
          settle_facts a (stop_reason cfg now seen)
            (record m { sessions = put_session seen.0 m.sessions }) in
        let own : seen.0.session_id ≡ a.session_id =
          refresh_session_id m.sched a.item_id s ∙ find_session_id a.session_id m.sessions e in
        (
          ap Manager.sched new ∙ f.1,
          ap Manager.finalizing new
              ∙ f.2
              ∙ sym (
                  stops_onto_one (verdict cfg now m.sched m.sessions) a (stop_reason cfg now seen)
                    m.finalizing v),
          λ t ne.
              ap (λ n. find_session t n.sessions) new
              ∙ ap (find_session t) f.0
              ∙ find_session-put_session t seen.0 m.sessions (λ q. ne (q ∙ own)),
        )
  ]

  verdict_same :
      (cfg : Config) (now : ℕ) (sched : Option Schedule) (ss ss' : List (Session F)) (a : Active)
      → find_session a.session_id ss ≡ find_session a.session_id ss'
      → verdict cfg now sched ss a ≡ verdict cfg now sched ss' a
  verdict_same cfg now sched ss ss' a e = rw e refl

  visit_all-finalizing :
      (cfg : Config) (now : ℕ) (as' : List Active) (m : Manager F)
      → Apart Separate as'
      → (visit_all cfg now as' m).finalizing
        ≡ stops_onto (verdict cfg now m.sched m.sessions) as' m.finalizing
  unfolding visit_all
  visit_all-finalizing cfg now [] m h = refl
  visit_all-finalizing cfg now (a ∷ as') m (ha, h) =
      let n = visit cfg now a m in
      let f = visit_facts cfg now a m in
      visit_all-finalizing cfg now as' n h
      ∙ ap (stops_onto (verdict cfg now n.sched n.sessions) as') f.1
      ∙ stops_onto_same (verdict cfg now n.sched n.sessions) (verdict cfg now m.sched m.sessions)
          as' _
          (All-map as'
            (λ b d.
              ap (λ q. verdict cfg now q n.sessions b) f.0
              ∙ verdict_same cfg now m.sched n.sessions m.sessions b
                  (f.2 b.session_id (λ q. d.1 (sym q))))
            ha)

  consider_all-finalizing :
      (cfg : Config) (texts : Texts) (io : StartFaults) (now : ℕ) (its : List Item) (m : Manager F)
      → (consider_all cfg texts io now its m).finalizing ≡ m.finalizing
  unfolding consider_all
  consider_all-finalizing cfg texts io now [] m = refl
  consider_all-finalizing cfg texts io now (it ∷ its) m =
      consider_all-finalizing cfg texts io now its _
      ∙ (elim (consider_cases cfg texts io now it m) [
        | inl same ↦ ap Manager.finalizing same
        | inr (a, s, _, _, _, new) ↦ ap Manager.finalizing new
      ])

  -- What the schedule and the clock say of a session: by its item's end and margin where the schedule
  -- has the item, by its own where there is no schedule or the item is there but cannot be used.
  abbrev pub Scheduled :
      Config → ℕ → Option Schedule → Text → Session F → Option FinishReason → Type 0
  Scheduled cfg now none id s r = Timed cfg now s.end s.stop_late s.session_start r
  Scheduled cfg now (some sched) id s r = elim (get id sched.items) [
    | some it ↦ Timed cfg now it.end it.stop_late s.session_start r
    | none ↦ elim (present id (some sched)) [
      | true ↦ Timed cfg now s.end s.stop_late s.session_start r
      | false ↦ r ≡ some removed
    ]
  ]

  -- Why an active recording stops, if it does: not, if it is stopping already.
  abbrev pub Says :
      Config → ℕ → Option Schedule → List (Session F) → Active → Option FinishReason → Type 0
  Says cfg now sched sessions a r = elim a.stopping [
    | true ↦ r ≡ none
    | false ↦ elim (find_session a.session_id sessions) [
      | none ↦ r ≡ none
      | some s ↦ Scheduled cfg now sched a.item_id s r
    ]
  ]

  stop_reason-Timed :
      (cfg : Config) (now : ℕ) (s : Session F)
      → Timed cfg now s.end s.stop_late s.session_start (stop_reason cfg now (s, true))
  unfolding stop_reason effective_stop_late
  stop_reason-Timed cfg now s = ground arith

  apply_item_times :
      (it : Item) (s : Session F)
      → ((apply_item it s).end ≡ it.end)
        × ((apply_item it s).stop_late ≡ it.stop_late)
        × ((apply_item it s).session_start ≡ s.session_start)
  unfolding apply_item
  apply_item_times it s = ground arith

  stop_reason-Scheduled :
      (cfg : Config) (now : ℕ) (sched : Option Schedule) (id : Text) (s : Session F)
      → Scheduled cfg now sched id s (stop_reason cfg now (refresh sched id s))
  unfolding refresh
  stop_reason-Scheduled cfg now none id s = stop_reason-Timed cfg now s
  stop_reason-Scheduled cfg now (some sched) id s = elim (Option-cases (get id sched.items)) [
    | inl e ↦ elim (Bool-cases (present id (some sched))) [
      | inl p ↦
          let noted : Session F = record s { schedule_note = true } in
          let q : refresh (some sched) id s ≡ (noted, true) = rw (e, p, refresh) refl in
          rw (e, p, Scheduled, q) (stop_reason-Timed cfg now noted)
      | inr p ↦
          let q : refresh (some sched) id s ≡ (s, false) = rw (e, p, refresh) refl in
          rw (e, p, Scheduled, q) (stop_reason_removed cfg now s)
    ]
    | inr (it, e) ↦
        let t : Session F = record (apply_item it s) { schedule_note = false } in
        let (end, late, begun) = apply_item_times it s in
        let q : refresh (some sched) id s ≡ (t, true) = rw (e, refresh) refl in
        rw (e, Scheduled, q)
          (subst (λ x. Timed cfg now x it.stop_late s.session_start (stop_reason cfg now (t, true)))
            end
            (subst (λ x. Timed cfg now t.end x s.session_start (stop_reason cfg now (t, true))) late
              (subst (λ x. Timed cfg now t.end t.stop_late x (stop_reason cfg now (t, true))) begun
                (stop_reason-Timed cfg now t))))
  ]

  verdict-Says :
      (cfg : Config) (now : ℕ) (sched : Option Schedule) (sessions : List (Session F)) (a : Active)
      → Says cfg now sched sessions a (verdict cfg now sched sessions a)
  verdict-Says cfg now sched sessions a = elim (Bool-cases a.stopping) [
    | inl e ↦
        let q : verdict cfg now sched sessions a ≡ none = rw e refl in
        subst (Says cfg now sched sessions a) (sym q) (rw (e, Says) refl)
    | inr e ↦ elim (Option-cases (find_session a.session_id sessions)) [
      | inl f ↦
          let q : verdict cfg now sched sessions a ≡ none = rw (e, f) refl in
          subst (Says cfg now sched sessions a) (sym q) (rw (e, f, Says) refl)
      | inr (s, f) ↦
          let q : verdict cfg now sched sessions a
              ≡ stop_reason cfg now (refresh sched a.item_id s) =
            rw (e, f) refl in
          subst (Says cfg now sched sessions a) (sym q)
            (rw (e, f, Says) (stop_reason-Scheduled cfg now sched a.item_id s))
    ]
  ]

  -- If no two active recordings are of one item or of one session, a round of Reconcile, outside a
  -- shutdown, stops exactly the recordings that the schedule and the clock say, each with its reason:
  -- those that are not stopping, and whose item is not in the schedule at all (removed), whose end,
  -- with the margin behind it, has come (ended), or whose session has lasted as long as a session may
  -- (rotated). The end and the margin are those of the schedule's item, or else the session's.
  pub reconcile-finalizing :
      (cfg : Config) (texts : Texts) (io : StartFaults) (free : DiskFree) (now : ℕ) (m : Manager F)
      → m.shutting_down ≡ false
      → Apart Separate m.active
      → (why : Active → Option FinishReason) × All
          (λ a. Says cfg now m.sched m.sessions a (why a))
          m.active
        × ((reconcile cfg texts io free now m).finalizing ≡ stops_onto why m.active m.finalizing)
  unfolding reconcile
  reconcile-finalizing cfg texts io free now m up h = (
    verdict cfg now m.sched m.sessions,
    All_of _ m.active (verdict-Says cfg now m.sched m.sessions),
    ap Manager.finalizing (if_false m _ up)
        ∙ consider_all-finalizing cfg texts io now (scheduled m.sched) _
        ∙ visit_all-finalizing cfg now m.active
            (record m { disk_low = check_disk cfg free m.disk_low }) h,
  )

  -- A recording whose id stands in the schedule's document, in an entry that Parse keeps or rejects,
  -- is not stopped as removed; if its item cannot be used, the session keeps its end, its source and
  -- its margin.
  pub stop_reason-refresh :
      (cfg : Config) (now : ℕ) (entries : List Entry) {sched : Schedule} (id : Text) (s : Session F)
      → parse_items entries ≡ some sched
      → id ≢ []
      → Names id entries
      → (stop_reason cfg now (refresh (some sched) id s) ≢ some removed)
        × ((get id sched.items ≢ none)
            ⊎ (((refresh (some sched) id s).0.end ≡ s.end)
                × ((refresh (some sched) id s).0.source ≡ s.source)
                × ((refresh (some sched) id s).0.stop_late ≡ s.stop_late)))
  unfolding stop_reason refresh
  stop_reason-refresh cfg now entries {sched} id s parsed ne named =
      let here = parse_items-present entries id parsed ne named in
      elim (Option-cases (get id sched.items)) [
        | inl e ↦ rw (e, here, refresh) (ground arith, inr (refl, refl, refl))
        | inr (it, e) ↦ rw e (ground arith, inl (λ q. cc))
      ]
