-- ===== src/Recorder/Polling.antt =====
-- internal/recorder/poller.go: pollOnce, and applyScheduleLocked of manager.go. What Fetch returned
-- is an argument; a schedule whose cache file could not be written counts as fetched.
use spectado_stream_recorder.Common.{
  ℕ, ◌+◌, ◌≡◌, refl, ap, ◌∙◌, ◌⊎◌, inl, inr, Bool, true, false, Option, some, List, [], ◌∷◌, ◌++◌,
  arith, length, All,
}
use spectado_stream_recorder.Schedule.Document.{Schedule, InvalidItem}
use spectado_stream_recorder.Recorder.Manager.{Config, Texts, Manager}
use spectado_stream_recorder.Recorder.Reconcile.{StartFaults, DiskFree, reconcile}

pub data Fetched : Type 0 where
  -- the context is done
  cancelled : Fetched
  fetched : Schedule → Fetched
  not_modified : Fetched
  fetch_failed : Fetched

-- ScheduleInfo, without what describes the server; `last_error` says whether there is one.
pub record ScheduleInfo : Type 0 where
  pub loaded : Bool
  pub last_attempt : Option ℕ
  pub last_success : Option ℕ
  pub last_error : Bool
  pub last_error_at : Option ℕ
  pub consecutive_failures : ℕ
  pub item_count : ℕ
  pub invalid_items : List InvalidItem

-- One poll: when, what came back, the free disk, and the starts that fail.
pub record Poll : Type 0 where
  pub now : ℕ
  pub result : Fetched
  pub free : DiskFree
  pub faults : StartFaults

pub record Polled (F : Type 0) : Type 0 where
  pub manager : Manager F
  pub info : ScheduleInfo

module _ {F : Type 0} where
  -- applyScheduleLocked
  unfoldable pub apply_schedule : Schedule → Polled F → Polled F
  apply_schedule s p = record {
    manager = record p.manager { sched = some s };
    info = record p.info { loaded = true; item_count = length s.items; invalid_items = s.invalid };
  }

  abbrev pub succeed : ℕ → Polled F → Polled F
  succeed now p = record p {
    info = record p.info {
      last_attempt = some now;
      last_success = some now;
      last_error = false;
      consecutive_failures = 0;
    };
  }

  abbrev pub reconciled : Config → Texts → Poll → Polled F → Polled F
  reconciled cfg texts poll p = record p {
    manager = reconcile cfg texts poll.faults poll.free poll.now p.manager;
  }

  -- pollOnce, by what Fetch returned.
  unfoldable pub poll_result : Config → Texts → Poll → Fetched → Polled F → Polled F
  unfolding apply_schedule
  poll_result cfg texts poll cancelled p = p
  poll_result cfg texts poll (fetched s) p =
      reconciled cfg texts poll (apply_schedule s (succeed poll.now p))
  poll_result cfg texts poll not_modified p = succeed poll.now p
  poll_result cfg texts poll fetch_failed p = record p {
    info = record p.info {
      last_attempt = some poll.now;
      last_error = true;
      last_error_at = some poll.now;
      consecutive_failures = p.info.consecutive_failures + 1;
    };
  }

  -- Polls one behind the other.
  unfoldable pub poll_all : Config → Texts → List Poll → Polled F → Polled F
  unfolding poll_result
  poll_all cfg texts [] p = p
  poll_all cfg texts (poll ∷ polls) p =
      poll_all cfg texts polls (poll_result cfg texts poll poll.result p)

  poll_all-append :
      (cfg : Config) (texts : Texts) (xs ys : List Poll) (p : Polled F)
      → poll_all cfg texts (xs ++ ys) p ≡ poll_all cfg texts ys (poll_all cfg texts xs p)
  unfolding poll_all
  poll_all-append cfg texts [] ys p = refl
  poll_all-append cfg texts (x ∷ xs) ys p = poll_all-append cfg texts xs ys _

  failures_add :
      (cfg : Config) (texts : Texts) (polls : List Poll) (p : Polled F)
      → All (λ (q : Poll). q.result ≡ fetch_failed) polls
      → (poll_all cfg texts polls p).info.consecutive_failures
        ≡ p.info.consecutive_failures + length polls
  unfolding poll_all
  failures_add cfg texts [] p h = omega arith
  failures_add cfg texts (q ∷ polls) p (e, h) =
      rw (e, poll_all)
        (omega
          (arith, failures_add cfg texts polls (poll_result cfg texts q fetch_failed p) h, one q p))
    where
      one :
          (q : Poll) (p : Polled F)
          → (poll_result cfg texts q fetch_failed p).info.consecutive_failures
            ≡ p.info.consecutive_failures + 1
      one q p = unfold poll_result in refl

  last_success_stays :
      (cfg : Config) (texts : Texts) (polls : List Poll) (p : Polled F)
      → All (λ (q : Poll). q.result ≡ fetch_failed) polls
      → (poll_all cfg texts polls p).info.last_success ≡ p.info.last_success
  unfolding poll_all
  last_success_stays cfg texts [] p h = refl
  last_success_stays cfg texts (q ∷ polls) p (e, h) =
      rw (e, poll_all)
        (last_success_stays cfg texts polls (poll_result cfg texts q fetch_failed p) h ∙ one q p)
    where
      one :
          (q : Poll) (p : Polled F)
          → (poll_result cfg texts q fetch_failed p).info.last_success ≡ p.info.last_success
      one q p = unfold poll_result in refl

  succeeded :
      (cfg : Config) (texts : Texts) (q : Poll) (r : Polled F)
      → (q.result ≡ not_modified) ⊎ ((s : Schedule) × (q.result ≡ fetched s))
      → let m = poll_result cfg texts q q.result r in
        (m.info.consecutive_failures ≡ 0) × (m.info.last_success ≡ some q.now)
  unfolding poll_result apply_schedule
  succeeded cfg texts q r (inl e) = rw (e, poll_result) (refl, refl)
  succeeded cfg texts q r (inr (s, e)) = rw (e, poll_result) (refl, refl)

  -- Behind a poll that reached the server, whether the schedule has changed or not, the count of
  -- failures is the number of failed polls since, whatever came before, and the time of the last
  -- success is that poll's.
  pub poll_all-consecutive_failures :
      (cfg : Config) (texts : Texts) (before failures : List Poll) (q : Poll) (p : Polled F)
      → (q.result ≡ not_modified) ⊎ ((s : Schedule) × (q.result ≡ fetched s))
      → All (λ (f : Poll). f.result ≡ fetch_failed) failures
      → let end = poll_all cfg texts (before ++ (q ∷ failures)) p in
        (end.info.consecutive_failures ≡ length failures) × (end.info.last_success ≡ some q.now)
  unfolding poll_all
  poll_all-consecutive_failures cfg texts before failures q p e h =
      let r = poll_all cfg texts before p in
      let m = poll_result cfg texts q q.result r in
      let split = poll_all-append cfg texts before (q ∷ failures) p in
      let (count, time) = succeeded cfg texts q r e in
      (
        omega (
          arith,
          ap (λ x. x.info.consecutive_failures) split,
          failures_add cfg texts failures m h,
          count,
        ),
        ap (λ x. x.info.last_success) split ∙ last_success_stays cfg texts failures m h ∙ time,
      )
