-- ===== src/Recorder/Capture/Round/Waits.antt =====
-- How long supervise waits.
use mathlib.Core.Path.{subst}
use spectado_stream_recorder.Common.{
  ℕ, zero, suc, ◌*◌, ◌^◌, ◌%◌, ◌≤◌, ◌<◌, min, ◌≡◌, refl, ◌⊎◌, inl, inr, true, false, ◌&&◌, Option,
  none, some, List, [], ◌∷◌, arith, Option-cases, if_cases, All,
}
use spectado_stream_recorder.Recorder.Capture.Round.{
  RoundAnswers, Setting, supervise_round, supervise,
}
use spectado_stream_recorder.Recorder.Capture.Exit.{
  minute, Capture, is_there, next_backoff, disk_full,
}
use spectado_stream_recorder.Recorder.Capture.Round.Ends.{
  Steady, Ended, EndsRound, supervise_round-Ended,
}

-- The backoff behind `n` runs of at most a minute each, begun at the least backoff.
unfoldable backoff_after : ℕ → ℕ → ℕ → ℕ
backoff_after least most zero = least
backoff_after least most (suc n) = (next_backoff (backoff_after least most n) least most 0).1

-- Below a quarter of its range, a Duration can be doubled.
twice-mod : (n : ℕ) → n < 4611686018427387904 → n * 2 % 18446744073709551616 ≡ n * 2
twice-mod n h = omega (arith, h)

-- Behind `n` short runs in a row, the next wait is the least backoff, doubled `n` times, or the
-- greatest, if that is less: whatever the length of the run, if it is a minute at most.
next_backoff-doubles :
    (least most n ran : ℕ)
    → least ≤ most
    → most < 4611686018427387904
    → ran ≤ minute
    → (next_backoff (backoff_after least most n) least most ran).0 ≡ min (least * 2 ^ n) most
unfolding next_backoff backoff_after
next_backoff-doubles least most zero ran h k r = ground (arith, h, r)
next_backoff-doubles least most (suc n) ran h k r =
    let ih = next_backoff-doubles least most n 0 h k (omega arith) in
    let e : backoff_after least most n ≡ min (least * 2 ^ n) most = ground (arith, ih) in
    let two : 2 ^ suc n ≡ 2 ^ n * 2 = omega arith in
    let d : least * 2 ^ suc n ≡ least * 2 ^ n * 2 = rw two (omega arith) in
    let w = twice-mod (backoff_after least most n) (omega (arith, e, k)) in
    ground (arith, h, r, e, d, w, k)

next_backoff_bounds :
    (cur least most ran : ℕ)
    → least ≤ cur
    → cur ≤ most
    → most < 4611686018427387904
    → let (wait, next) = next_backoff cur least most ran in
      (least ≤ wait) × (wait ≤ most) × (least ≤ next) × (next ≤ most)
unfolding next_backoff
next_backoff_bounds cur least most ran h k l =
    ground
      (arith, h, k, twice-mod cur (omega (arith, k, l)), twice-mod least (omega (arith, h, k, l)))

module _ {F : Type 0} where
  -- The wait behind a run: a minute where a write found the disk full, and otherwise between the
  -- least backoff and the greatest.
  abbrev pub Fits : ℕ → ℕ → RoundAnswers F → ℕ → Type 0
  Fits least most a wait =
      let full = is_there a.outcome.write_err && a.outcome.no_space in
      ((full ≡ true) × (wait ≡ minute)) ⊎ ((full ≡ false) × (least ≤ wait) × (wait ≤ most))

  abbrev pub FitAll : ℕ → ℕ → List (RoundAnswers F) → List ℕ → Type 0
  FitAll least most [] [] = Unit
  FitAll least most (a ∷ as') (w ∷ ws) = Fits least most a w × FitAll least most as' ws
  FitAll least most [] (w ∷ ws) = ⊥
  FitAll least most (a ∷ as') [] = ⊥

module _ {F : Type 0} (set : Setting F) where
  Ended-Fits :
      (a : RoundAnswers F) (c d : Capture F) (wait : ℕ)
      → set.backoff_min ≤ c.backoff
      → c.backoff ≤ set.backoff_max
      → set.backoff_max < 4611686018427387904
      → Ended set a c wait d
      → Fits set.backoff_min set.backoff_max a wait
        × (set.backoff_min ≤ d.backoff)
        × (d.backoff ≤ set.backoff_max)
  Ended-Fits a c d wait h k l e =
      let b = next_backoff_bounds c.backoff set.backoff_min set.backoff_max a.outcome.ran h k l in
      let next = next_backoff c.backoff set.backoff_min set.backoff_max a.outcome.ran in
      (
        rw (e.waited) (
            if_cases (Fits set.backoff_min set.backoff_max a) (disk_full a.outcome) minute next.0
              (λ f. inl (f, refl)) (λ f. inr (f, b.0, b.1))),
        rw (e.backoff_ended) b.2,
        rw (e.backoff_ended) b.3,
      )

  abbrev Waited : List (RoundAnswers F) → Option (List ℕ × Capture F) → Type 0
  Waited as' none = Unit
  Waited as' (some (waits, d)) = FitAll set.backoff_min set.backoff_max as' waits

  supervise-Waited :
      (as' : List (RoundAnswers F)) (c : Capture F)
      → All Steady as'
      → set.backoff_min ≤ c.backoff
      → c.backoff ≤ set.backoff_max
      → set.backoff_max < 4611686018427387904
      → Waited as' (supervise set as' c)
  unfolding supervise
  supervise-Waited [] c all h k l = tt
  supervise-Waited (a ∷ as') c (steady, all) h k l = elim (Option-cases (supervise_round set a c)) [
    | inl e ↦ rw (e, supervise) tt
    | inr ((wait, d), e) ↦
        let ended = subst (EndsRound set a c) e (supervise_round-Ended set a c steady) in
        let (fits, low, high) = Ended-Fits a c d wait h k l ended in
        rw (e, supervise)
          (more wait fits (supervise set as' d) (supervise-Waited as' d all low high l))
  ]
    where
      more :
          (wait : ℕ)
          → Fits set.backoff_min set.backoff_max a wait
          → (r : Option (List ℕ × Capture F)) → Waited as' r
          → Waited (a ∷ as') (elim r [ none ↦ none | some (waits, end) ↦ some (wait ∷ waits, end) ])
      more wait f none w = tt
      more wait f (some (waits, end)) w = (f, w)

  -- Where Reconcile leaves the exits and restarts of a recording alone and the backoff begins within
  -- its bounds, the greatest of which is below 2^62 nanoseconds, supervise waits once behind each run:
  -- a minute where a write found the disk full, and otherwise between the least and the greatest
  -- backoff of the configuration, however many runs fail.
  pub supervise-Fits :
      (as' : List (RoundAnswers F)) (c : Capture F) {waits : List ℕ} {d : Capture F}
      → All Steady as'
      → set.backoff_min ≤ c.backoff
      → c.backoff ≤ set.backoff_max
      → set.backoff_max < 4611686018427387904
      → supervise set as' c ≡ some (waits, d)
      → FitAll set.backoff_min set.backoff_max as' waits
  supervise-Fits as' c {waits} {d} all h k l q =
      subst (Waited as') q (supervise-Waited as' c all h k l)
