-- ===== src/Recorder/Uploads/Retries.antt =====
-- internal/recorder/upload.go: uploadLoop, one round behind each attempt. Times are nanoseconds. The
-- growth of the backoff behind the sleep is done in front of it: nothing reads it meanwhile. The key
-- lock (Recorder/Locks.antt) and the worker slot around the attempt, LastError, logs and metrics are
-- left out.
use mathlib.Core.Path.{subst}
use spectado_stream_recorder.Common.{
  ℕ, suc, ◌+◌, ◌*◌, ◌^◌, ◌≤◌, ◌<◌, min, max, ◌≡◌, sym, Bool, true, false, ◌&&◌, none, some, List,
  [], ◌∷◌, arith, ltb, leb, if◌then◌else◌, if_both, if_cases, length, All,
}
use spectado_stream_recorder.Recorder.Session.{State, finalized, uploading, Session}
use spectado_stream_recorder.Recorder.Uploads.Group.{
  UploadError, deferred, key_changed, key_renamed, object_changed, object_exists, permanent,
  Outcome, defer_interval,
}

abbrev pub max_immediate_retries : ℕ
max_immediate_retries = 3

-- blockedRetryInterval
abbrev pub blocked_retry_interval : ℕ
blocked_retry_interval = 15 * 60 * 10 ^ 9

-- The variables of uploadLoop.
pub record Retry : Type 0 where
  pub backoff : ℕ
  pub immediate : ℕ

-- What the loop does next; `sleep` is followed by the next attempt, unless the context ends first.
pub data Action : Type 0 where
  finish again : Action
  sleep : ℕ → Action

-- What the loop reads besides: UploadBackoffMax, the clock, whether the context has ended, and
-- whether the manager is shutting down.
pub record LoopInput : Type 0 where
  pub backoff_max : ℕ
  pub now : ℕ
  pub cancelled : Bool
  pub shutting_down : Bool

abbrev pub first_backoff : ℕ
first_backoff = 5 * 10 ^ 9

unfoldable pub first_retry : ℕ → Retry
first_retry backoff_max = record {
  backoff =
      if ltb 0 backoff_max && ltb backoff_max first_backoff then backoff_max else first_backoff;
  immediate = 0;
}

-- The errors of an object that moved.
abbrev pub is_moved : UploadError → Bool
is_moved key_changed = true
is_moved key_renamed = true
is_moved object_changed = true
is_moved object_exists = true
is_moved _ = false

abbrev pub is_deferred : UploadError → Bool
is_deferred deferred = true
is_deferred _ = false

abbrev pub is_blocking : UploadError → Bool
is_blocking permanent = true
is_blocking _ = false

-- The backoff behind a failure that is not permanent.
unfoldable pub grow : ℕ → ℕ → ℕ
grow backoff_max backoff = if ltb backoff_max (backoff * 2) then backoff_max else backoff * 2

abbrev is_uploading : State → Bool
is_uploading uploading = true
is_uploading _ = false

-- A sleep is neither shorter than the first backoff or the ceiling, nor longer than the ceiling or
-- the interval of blocked uploads.
abbrev pub Waits : ℕ → Action → Type 0
Waits backoff_max (sleep w) =
    (min backoff_max first_backoff ≤ w) × (w ≤ max backoff_max blocked_retry_interval)
Waits backoff_max finish = Unit
Waits backoff_max again = Unit

abbrev Within : ℕ → Retry → Type 0
Within backoff_max retry =
    (min backoff_max first_backoff ≤ retry.backoff) × (retry.backoff ≤ backoff_max)

module _ {F : Type 0} where
  abbrev pub note_failure : ℕ → Bool → ℕ → Session F → Session F
  note_failure now blocked wait s = record s {
    state = finalized;
    upload_attempts = s.upload_attempts + 1;
    upload_blocked = blocked;
    next_upload_at = some (now + wait);
  }

  abbrev back_to_finalized : Session F → Session F
  back_to_finalized s = if is_uploading s.state then record s { state = finalized } else s

  -- The normal handling of a failure.
  unfoldable pub back_off : LoopInput → UploadError → Retry → Session F → Action × Retry × Session F
  unfolding grow
  back_off r e retry s =
      let wait = if is_blocking e then blocked_retry_interval else retry.backoff in
      (
        sleep wait,
        record {
          backoff = if is_blocking e then retry.backoff else grow r.backoff_max retry.backoff;
          immediate = 0;
        },
        note_failure r.now (is_blocking e) wait s,
      )

  -- The loop's body behind uploadOnce.
  unfoldable pub after_attempt :
      LoopInput → Outcome → Retry → Session F → Action × Retry × Session F
  unfolding back_off
  after_attempt r none retry s = (finish, retry, s)
  after_attempt r (some e) retry s =
      if r.cancelled
      then (finish, retry, back_to_finalized s)
      else (if is_deferred e
          then (if r.shutting_down
              then (finish, retry, s)
              else (sleep defer_interval, record retry { immediate = 0 }, s))
          else (if is_moved e && leb (retry.immediate + 1) max_immediate_retries
              then (again, record retry { immediate = retry.immediate + 1 }, s)
              else back_off r e retry s))

  -- The actions behind a sequence of attempts, each with the session as the attempt left it.
  unfoldable pub actions : List (LoopInput × Outcome × Session F) → Retry → List Action
  unfolding after_attempt
  actions [] retry = []
  actions ((r, o, s) ∷ rs) retry =
      (after_attempt r o retry s).0 ∷ actions rs (after_attempt r o retry s).1

  after_attempt-again :
      (r : LoopInput) (o : Outcome) (retry : Retry) (s : Session F)
      → (after_attempt r o retry s).0 ≡ again
      → ((after_attempt r o retry s).1.immediate ≡ suc retry.immediate)
        × (suc retry.immediate ≤ max_immediate_retries)
  unfolding after_attempt back_off
  after_attempt-again r none retry s = λ e. ground (arith, e)
  after_attempt-again r (some x) retry s =
      let P = λ (q : Action × Retry × Session F).
        q.0 ≡ again
        → (q.1.immediate ≡ suc retry.immediate) × (suc retry.immediate ≤ max_immediate_retries) in
      if_both P r.cancelled _ _ (λ e. ground (arith, e))
        (if_both P (is_deferred x) _ _
          (if_both P r.shutting_down _ _ (λ e. ground (arith, e)) (λ e. ground (arith, e)))
          (if_cases P (is_moved x && leb (retry.immediate + 1) max_immediate_retries) _
            (back_off r x retry s) (λ b e. (omega arith, ground (arith, b)))
            (λ b e. ground (arith, e))))

  actions_again_filled :
      (r : LoopInput) (o : Outcome) (s : Session F) (rs : List (LoopInput × Outcome × Session F))
      (retry : Retry)
      → All (λ a. a ≡ again) (actions ((r, o, s) ∷ rs) retry)
      → suc (length rs) + retry.immediate ≤ max_immediate_retries
  unfolding actions
  actions_again_filled r o s [] retry (h, hs) =
      let (e, k) = after_attempt-again r o retry s h in omega (arith, k)
  actions_again_filled r o s ((q, p, t) ∷ rs) retry (h, hs) =
      let (e, k) = after_attempt-again r o retry s h in
      let ih = actions_again_filled q p t rs (after_attempt r o retry s).1 hs in
      omega (arith, e, ih)

  -- At most three retries in a row are made without a delay, whatever the attempts answer.
  pub actions_again :
      (rs : List (LoopInput × Outcome × Session F)) (retry : Retry)
      → All (λ a. a ≡ again) (actions rs retry)
      → length rs ≤ max_immediate_retries
  actions_again [] retry h = omega arith
  actions_again ((r, o, s) ∷ rs) retry h =
      let k = actions_again_filled r o s rs retry h in omega (arith, k)

  back_off-Waits :
      (r : LoopInput) (x : UploadError) (retry : Retry) (s : Session F)
      → Within r.backoff_max retry
      → Waits r.backoff_max (back_off r x retry s).0 × Within r.backoff_max (back_off r x retry s).1
  unfolding back_off grow
  back_off-Waits r x retry s (h, k) =
      let P = λ (w : ℕ).
        (min r.backoff_max first_backoff ≤ w) × (w ≤ max r.backoff_max blocked_retry_interval) in
      let Q = λ (w : ℕ). (min r.backoff_max first_backoff ≤ w) × (w ≤ r.backoff_max) in
      (
        if_both P (is_blocking x) blocked_retry_interval retry.backoff (omega arith, omega arith)
            (h, omega (arith, k)),
        if_both Q (is_blocking x) retry.backoff (grow r.backoff_max retry.backoff) (h, k)
            (if_cases Q (ltb r.backoff_max (retry.backoff * 2)) r.backoff_max (retry.backoff * 2)
              (λ b. (omega arith, omega arith)) (λ b. (omega (arith, h), ground (arith, b)))),
      )

  after_attempt-Waits :
      (r : LoopInput) (o : Outcome) (retry : Retry) (s : Session F)
      → Within r.backoff_max retry
      → Waits r.backoff_max (after_attempt r o retry s).0
        × Within r.backoff_max (after_attempt r o retry s).1
  unfolding after_attempt
  after_attempt-Waits r none retry s h = (tt, h)
  after_attempt-Waits r (some x) retry s h =
      let P =
        λ (q : Action × Retry × Session F). Waits r.backoff_max q.0 × Within r.backoff_max q.1 in
      if_both P r.cancelled _ _ (tt, h)
        (if_both P (is_deferred x) _ _
          (if_both P r.shutting_down _ _ (tt, h) ((omega arith, omega arith), h))
          (if_both P (is_moved x && leb (retry.immediate + 1) max_immediate_retries) _
            (back_off r x retry s) (tt, h) (back_off-Waits r x retry s h)))

  actions-Waits :
      (backoff_max : ℕ) (rs : List (LoopInput × Outcome × Session F)) (retry : Retry)
      → All (λ q. q.0.backoff_max ≡ backoff_max) rs
      → Within backoff_max retry
      → All (Waits backoff_max) (actions rs retry)
  unfolding actions
  actions-Waits backoff_max [] retry e h = tt
  actions-Waits backoff_max ((r, o, s) ∷ rs) retry (e, es) h =
      let first : Within r.backoff_max retry = subst (λ m. Within m retry) (sym e) h in
      let (w, k) = after_attempt-Waits r o retry s first in
      (
        subst (λ m. Waits m (after_attempt r o retry s).0) e w,
        actions-Waits backoff_max rs (after_attempt r o retry s).1 es
            (subst (λ m. Within m (after_attempt r o retry s).1) e k),
      )

  -- With a ceiling above 0, an upload that is retried after a delay waits for at least five seconds
  -- or the ceiling, and for at most the ceiling or the interval of blocked uploads, in every run of
  -- attempts from the start of its loop.
  pub actions-first_retry :
      (backoff_max : ℕ) (rs : List (LoopInput × Outcome × Session F))
      → 0 < backoff_max
      → All (λ q. q.0.backoff_max ≡ backoff_max) rs
      → All (Waits backoff_max) (actions rs (first_retry backoff_max))
  unfolding first_retry
  actions-first_retry backoff_max rs h e =
      actions-Waits backoff_max rs (first_retry backoff_max) e (
        if_cases (λ (b : ℕ). (min backoff_max first_backoff ≤ b) × (b ≤ backoff_max))
          (ltb 0 backoff_max && ltb backoff_max first_backoff) backoff_max first_backoff
          (λ b. (omega arith, omega arith)) (λ b. (omega arith, ground (arith, b, h))))
