-- ===== src/Recorder/Lifecycle/Steps.antt =====
-- What every step of the manager's goroutines keeps.
use mathlib.Core.Path.{subst}
use spectado_stream_recorder.Common.{
  ℕ, ◌≡◌, ◌≢◌, true, false, ◌||◌, none, List, [], ◌∷◌, ◌++◌, arith, if_both, if_cases, option_both,
  All, All-map, Apart,
}
use spectado_stream_recorder.Common.Text.{Text, text_eq_iff}
use spectado_stream_recorder.Recorder.Session.{FinishReason, Session}
use spectado_stream_recorder.Recorder.Manager.{Config, Texts, Active, Manager, find_session}
use spectado_stream_recorder.Recorder.Reconcile.Stops.{Separate}
use spectado_stream_recorder.Recorder.Reconcile.Valid.{
  IsValid, put_session-known, reconcile-IsValid,
}
use spectado_stream_recorder.Recorder.Polling.{
  Poll, Fetched, cancelled, fetched, not_modified, fetch_failed, Polled, apply_schedule,
  poll_result,
}
use spectado_stream_recorder.Recorder.Lifecycle.{
  Counted, Machine, is_shutdown, mark_stopping, has_loop, enqueue_upload, put, finalize_session,
  finalize, shut_down, persist, Step, ticks, finalizes, persists, shuts_down, polls, ends_upload,
  Reachable, here, next,
}

has_loop-All : (sid : Text) (ts : List Text) → has_loop sid ts ≡ false → All (λ t. sid ≢ t) ts
unfolding has_loop
has_loop-All sid [] h = tt
has_loop-All sid (t ∷ ts) h =
    (λ e. ground (arith, h, text_eq_iff t sid, e), has_loop-All sid ts (ground (arith, h)))

All-mark_stopping :
    (P : Active → Type 0) (as' : List Active)
    → ((a : Active) → P a → P (record a { stopping = true }))
    → All P as'
    → All P (mark_stopping as')
unfolding mark_stopping
All-mark_stopping P [] f h = tt
All-mark_stopping P (a ∷ as') f (h, hs) = (f a h, All-mark_stopping P as' f hs)

Apart-mark_stopping : (as' : List Active) → Apart Separate as' → Apart Separate (mark_stopping as')
unfolding mark_stopping
Apart-mark_stopping [] h = tt
Apart-mark_stopping (a ∷ as') (h, hs) =
    (All-mark_stopping (Separate a) as' (λ b d. d) h, Apart-mark_stopping as' hs)

All-without :
    (P : Text → Type 0) (before after : List Text) (sid : Text)
    → All P (before ++ sid ∷ after)
    → All P (before ++ after)
All-without P [] after sid (h, hs) = hs
All-without P (t ∷ before) after sid (h, hs) = (h, All-without P before after sid hs)

Apart-without :
    (before after : List Text) (sid : Text)
    → Apart (λ (s t : Text). s ≢ t) (before ++ sid ∷ after)
    → Apart (λ (s t : Text). s ≢ t) (before ++ after)
Apart-without [] after sid (h, hs) = hs
Apart-without (t ∷ before) after sid (h, hs) =
    (All-without (λ u. t ≢ u) before after sid h, Apart-without before after sid hs)

module _ {F : Type 0} where
  -- The manager is valid, and no session is uploaded by two goroutines.
  pub record IsSound (x : Machine F) : Type 0 where
    pub valid : IsValid x.manager
    pub single : Apart (λ (s t : Text). s ≢ t) x.upload_loops

  put-IsValid : (s : Session F) (m : Manager F) → IsValid m → IsValid (put s m)
  put-IsValid s m ok = record {
    separate = ok.separate;
    known = All-map m.active (λ a h. put_session-known a.session_id s m.sessions h) ok.known;
  }

  enqueue_upload-IsSound : (sid : Text) (x : Machine F) → IsSound x → IsSound (enqueue_upload sid x)
  unfolding enqueue_upload
  enqueue_upload-IsSound sid x ok =
      if_cases IsSound (x.manager.shutting_down || has_loop sid x.upload_loops) x _ (λ b. ok)
        (λ b. record {
          valid = ok.valid;
          single = (has_loop-All sid x.upload_loops (ground (arith, b)), ok.single);
        })

  finalize-IsSound :
      (now : ℕ) (c : Counted F) (entry : Active × FinishReason) (x : Machine F)
      → IsSound x
      → IsSound (finalize now c entry x)
  unfolding finalize
  finalize-IsSound now c (ar, reason) x ok =
      option_both IsSound (find_session ar.session_id x.manager.sessions) x _ ok (λ s.
        let y : Machine F = record x {
          manager = put (finalize_session now reason c s) x.manager;
        } in
        let sound : IsSound y = record {
          valid = put-IsValid (finalize_session now reason c s) x.manager ok.valid;
          single = ok.single;
        } in
        if_both IsSound (is_shutdown reason) y (enqueue_upload ar.session_id y) sound
          (enqueue_upload-IsSound ar.session_id y sound))

  persist-IsValid :
      (c : Counted F) (ar : Active) (m : Manager F) → IsValid m → IsValid (persist c ar m)
  unfolding persist
  persist-IsValid c ar m ok =
      option_both IsValid (find_session ar.session_id m.sessions) m _ ok (λ s. put-IsValid _ m ok)

  shut_down-IsValid : (x : Machine F) → IsValid x.manager → IsValid (shut_down x).manager
  unfolding shut_down
  shut_down-IsValid x ok = record {
    separate = Apart-mark_stopping x.manager.active ok.separate;
    known =
        All-mark_stopping (λ a. find_session a.session_id x.manager.sessions ≢ none)
          x.manager.active (λ a h. h) ok.known;
  }

  poll_result-IsValid :
      (cfg : Config) (texts : Texts) (poll : Poll) (result : Fetched) (p : Polled F)
      → IsValid p.manager
      → IsValid (poll_result cfg texts poll result p).manager
  unfolding poll_result apply_schedule
  poll_result-IsValid cfg texts poll cancelled p ok = ok
  poll_result-IsValid cfg texts poll (fetched s) p ok =
      reconcile-IsValid cfg texts poll.faults poll.now poll.free _
        (record { separate = ok.separate; known = ok.known })
  poll_result-IsValid cfg texts poll not_modified p ok = ok
  poll_result-IsValid cfg texts poll fetch_failed p ok = ok

  Step-IsSound :
      (cfg : Config) (texts : Texts) {x y : Machine F} → Step cfg texts x y → IsSound x → IsSound y
  unfolding shut_down
  Step-IsSound cfg texts (ticks io free now x) ok = record {
    valid = reconcile-IsValid cfg texts io now free x.manager ok.valid;
    single = ok.single;
  }
  Step-IsSound cfg texts (finalizes now c before after entry x e) ok =
      finalize-IsSound now c entry _ (record {
        valid = record { separate = ok.valid.separate; known = ok.valid.known };
        single = ok.single;
      })
  Step-IsSound cfg texts (persists c ar x) ok = record {
    valid = persist-IsValid c ar x.manager ok.valid;
    single = ok.single;
  }
  Step-IsSound cfg texts (polls poll info x) ok = record {
    valid =
        poll_result-IsValid cfg texts poll poll.result (record { manager = x.manager; info = info })
          ok.valid;
    single = ok.single;
  }
  Step-IsSound cfg texts (ends_upload before after sid x e) ok = record {
    valid = ok.valid;
    single = Apart-without before after sid (subst (Apart (λ (s t : Text). s ≢ t)) e ok.single);
  }
  Step-IsSound cfg texts (shuts_down x) ok = record {
    valid = shut_down-IsValid x ok.valid;
    single = ok.single;
  }

  -- However rounds of Reconcile, polls of the schedule, finalizes of stopped recordings, the persister,
  -- Shutdown and the ends of uploads take turns, from a sound state on, no two active recordings are of
  -- one item or session, each one's session is in the table, and no session is uploaded by two
  -- goroutines. Retention and what an upload's attempt does to the sessions are not among the turns.
  pub Reachable-IsSound :
      (cfg : Config) (texts : Texts) (start x : Machine F)
      → IsSound start
      → Reachable cfg texts start x
      → IsSound x
  Reachable-IsSound cfg texts start x ok here = ok
  Reachable-IsSound cfg texts start x ok (next y z r s) =
      Step-IsSound cfg texts s (Reachable-IsSound cfg texts start y ok r)
