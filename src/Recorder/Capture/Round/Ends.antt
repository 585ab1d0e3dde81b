-- ===== src/Recorder/Capture/Round/Ends.antt =====
-- What every round leaves: its exit, its restart, its wait.
use mathlib.Core.Path.{subst}
use spectado_stream_recorder.Common.{
  ℕ, suc, ◌+◌, ◌-◌, ◌≤◌, ◌≡◌, refl, sym, ap, ◌∙◌, ◌⊎◌, inl, inr, Bool, true, false, Option, none,
  some, List, [], ◌∷◌, ◌++◌, append-nil, append_assoc, arith, ltb, if◌then◌else◌, Bool-cases,
  Option-cases, length, All,
}
use spectado_stream_recorder.Common.Text.{Text, codes, contains, last_of, last_of-append}
use spectado_stream_recorder.Recorder.Runs.{add_exit}
use spectado_stream_recorder.Recorder.Session.{Session, RunExit}
use spectado_stream_recorder.Recorder.Capture.Decide.{Choice, resolve_codec}
use spectado_stream_recorder.Recorder.Capture.Round.{
  RoundAnswers, Setting, plan_run, keep_books, wait_behind, run_round, supervise_round, supervise,
}
use spectado_stream_recorder.Recorder.Capture.Blame.{follow_source, judge_trial, is_explicit}
use spectado_stream_recorder.Recorder.Capture.Exit.{
  minute, RunOutcome, Capture, is_there, next_backoff, disk_full, classify_exit, exit_reason,
  exit_of, note_exit,
}
use spectado_stream_recorder.Recorder.Capture.Round.Cases.{
  Kept, attribute-Kept, judge_trial-Kept, follow_source-Kept, resolve_codec_cases,
  resolve_video_cases,
}

module _ {F : Type 0} where
  -- What Reconcile does meanwhile leaves the exits and the restarts.
  abbrev pub Steady : RoundAnswers F → Type 0
  Steady a =
      (s : Session F)
      → ((a.outcome.meanwhile s).exits ≡ s.exits) × ((a.outcome.meanwhile s).restarts ≡ s.restarts)

module _ {F : Type 0} (set : Setting F) where
  pub record Ended (a : RoundAnswers F) (c : Capture F) (wait : ℕ) (d : Capture F) : Type 0 where
    pub exits_ended : d.session.exits ≡ add_exit (exit_of set.seconds a.outcome) c.session.exits
    pub restarts_ended : d.session.restarts ≡ c.session.restarts + 1
    pub backoff_ended :
        d.backoff ≡ (next_backoff c.backoff set.backoff_min set.backoff_max a.outcome.ran).1
    pub waited : wait ≡ (
        if disk_full a.outcome
        then minute
        else (next_backoff c.backoff set.backoff_min set.backoff_max a.outcome.ran).0)

  run_round-Ended :
      (a : RoundAnswers F) (codec : Text) (explicit : Bool) (ch : Choice) (c b : Capture F)
      → Steady a
      → Kept b c
      → let r = run_round set codec explicit ch a.file a.outcome c in Ended a b r.0 r.1
  unfolding run_round keep_books wait_behind note_exit
  run_round-Ended a codec explicit ch c b steady k =
      let out = a.outcome in
      let trial = c.video.trial in
      let plan = plan_run ch trial a.file in
      let begun : Capture F = record c {
        session = out.meanwhile c.session;
        video = record c.video { trial = false };
      } in
      let noted : Capture F = record begun {
        session = note_exit set.span set.seconds out begun.session;
      } in
      let judged = judge_trial trial out noted in
      let j = judge_trial-Kept trial out noted in
      let f = attribute-Kept codec explicit plan trial out judged in
      let (me, mr) = steady c.session in
      record {
        exits_ended =
            f.exits_kept
            ∙ j.exits_kept
            ∙ ap (add_exit (exit_of set.seconds out)) (me ∙ k.exits_kept);
        restarts_ended = f.restarts_kept ∙ j.restarts_kept ∙ ap (λ n. n + 1) (mr ∙ k.restarts_kept);
        backoff_ended =
            ap (λ n. (next_backoff n set.backoff_min set.backoff_max out.ran).1)
              (f.backoff_kept ∙ j.backoff_kept ∙ k.backoff_kept);
        waited =
            ap
              (λ n.
                if disk_full out
                then minute
                else (next_backoff n set.backoff_min set.backoff_max out.ran).0)
              (f.backoff_kept ∙ j.backoff_kept ∙ k.backoff_kept);
      }

  abbrev pub EndsRound : RoundAnswers F → Capture F → Option (ℕ × Capture F) → Type 0
  EndsRound a c none = Unit
  EndsRound a c (some (wait, d)) = Ended a c wait d

  pub supervise_round-Ended :
      (a : RoundAnswers F) (c : Capture F) → Steady a → EndsRound a c (supervise_round set a c)
  unfolding supervise_round
  supervise_round-Ended a b steady =
      let c = follow_source b in
      let snap = c.session in
      let k = follow_source-Kept b in
      let r = resolve_codec set.audio_codec a.media a.audio snap snap in
      let h =
        resolve_codec_cases (λ s. Kept b (record c { session = s })) set.audio_codec a.media a.audio
          snap snap
          (record {
            exits_kept = k.exits_kept;
            restarts_kept = k.restarts_kept;
            backoff_kept = k.backoff_kept;
          })
          (λ codec. record {
            exits_kept = k.exits_kept;
            restarts_kept = k.restarts_kept;
            backoff_kept = k.backoff_kept;
          }) in
      resolve_video_cases
        (λ v. EndsRound a b (elim v [
          | none ↦ none
          | some (ch, s) ↦ some (
              run_round set r.0 (is_explicit set.audio_codec snap) ch a.file a.outcome
                (record c { session = s }))
        ]))
        set.reading a.media snap r.1 tt
        (λ ch.
          run_round-Ended a r.0 (is_explicit set.audio_codec snap) ch (record c { session = r.1 }) b
            steady h)
        (λ ch.
          run_round-Ended a r.0 (is_explicit set.audio_codec snap) ch
            (record c {
              session = record r.1 {
                video_source = ch.source;
                video_map = ch.vmap;
                video_audio_map = ch.amap;
              };
            })
            b steady
            (record {
              exits_kept = h.exits_kept;
              restarts_kept = h.restarts_kept;
              backoff_kept = h.backoff_kept;
            }))

add_exit_last {ℓ} : {E : Type ℓ} (e : E) (xs : List E) → add_exit e xs ≡ last_of 20 (xs ++ (e ∷ []))
unfolding add_exit
add_exit_last e xs = elim (Bool-cases (ltb 20 (length (xs ++ (e ∷ []))))) [
  | inl l ↦ rw l refl
  | inr l ↦ let z : length (xs ++ (e ∷ [])) - 20 ≡ 0 = ground (arith, l) in rw (l, z) refl
]

module _ {F : Type 0} where
  -- The reason that a run ended for: what stands first of a full disk, another failed write, a stall,
  -- a kill, an error of ffmpeg, a message on demuxing, and the stream's end.
  abbrev pub Because : RunOutcome F → Text → Type 0
  Because out reason =
      let writes = is_there out.write_err in
      ((writes ≡ true) × (out.no_space ≡ true) × (reason ≡ codes "disk-full"))
      ⊎ ((writes ≡ true) × (out.no_space ≡ false) × (reason ≡ codes "write-error"))
      ⊎ ((writes ≡ false) × (out.stalled ≡ true) × (reason ≡ codes "stall"))
      ⊎ ((writes ≡ false)
          × (out.stalled ≡ false)
          × (((out.sigkill ≡ true) × (reason ≡ codes "killed"))
              ⊎ ((out.sigkill ≡ false)
                  × (is_there out.run_err ≡ true)
                  × (reason ≡ codes "exit-error"))
              ⊎ ((out.sigkill ≡ false)
                  × (is_there out.run_err ≡ false)
                  × (((contains out.error_line (codes "Error during demuxing") ≡ true)
                        × (reason ≡ codes "demux-error"))
                      ⊎ ((contains out.error_line (codes "Error during demuxing") ≡ false)
                          × (reason ≡ codes "stream-ended"))))))

  -- The entry of a run in the list of exits.
  pub record Tells (out : RunOutcome F) (x : RunExit F) : Type 0 where
    pub when : x.exited_at ≡ out.ended_at
    pub how_much : x.bytes ≡ out.run_bytes
    pub why : Because out x.reason
    pub last_words : x.stderr ≡ out.last_line

  abbrev pub TellAll : List (RoundAnswers F) → List (RunExit F) → Type 0
  TellAll [] [] = Unit
  TellAll (a ∷ as') (x ∷ xs) = Tells a.outcome x × TellAll as' xs
  TellAll [] (x ∷ xs) = ⊥
  TellAll (a ∷ as') [] = ⊥

  exit_reason-Because : (out : RunOutcome F) → Because out (exit_reason out)
  unfolding exit_reason classify_exit
  exit_reason-Because out = ground arith

module _ {F : Type 0} (set : Setting F) where
  abbrev exits_of : List (RoundAnswers F) → List (RunExit F)
  exits_of [] = []
  exits_of (a ∷ as') = exit_of set.seconds a.outcome ∷ exits_of as'

  -- All exits so far: `past` of the session's before, then those of the rounds.
  abbrev Exited :
      List (RunExit F) → Capture F → List (RoundAnswers F) → Option (List ℕ × Capture F) → Type 0
  Exited past c as' none = Unit
  Exited past c as' (some (waits, d)) =
      (d.session.exits ≡ last_of 20 (past ++ exits_of as'))
      × (d.session.restarts ≡ c.session.restarts + length as')
      × (length waits ≡ length as')

  supervise_listed :
      (as' : List (RoundAnswers F)) (c : Capture F) (past : List (RunExit F))
      → All Steady as'
      → c.session.exits ≡ last_of 20 past
      → Exited past c as' (supervise set as' c)
  unfolding supervise
  supervise_listed [] c past all h = (rw (append-nil past) h, omega arith, refl)
  supervise_listed (a ∷ as') c past (steady, all) h =
      elim (Option-cases (supervise_round set a c)) [
        | inl e ↦ rw (e, supervise) tt
        | inr ((wait, d), e) ↦
            let x = exit_of set.seconds a.outcome in
            let ended = subst (EndsRound set a c) e (supervise_round-Ended set a c steady) in
            let grown : d.session.exits ≡ last_of 20 (past ++ (x ∷ [])) =
              ended.exits_ended
              ∙ ap (add_exit x) h
              ∙ add_exit_last x (last_of 20 past)
              ∙ last_of-append 20 past x in
            rw (e, supervise)
              (more wait d ended.restarts_ended (supervise set as' d)
                (supervise_listed as' d (past ++ (x ∷ [])) all grown))
      ]
    where
      more :
          (wait : ℕ) (d : Capture F)
          → d.session.restarts ≡ c.session.restarts + 1
          → (r : Option (List ℕ × Capture F))
          → Exited (past ++ (exit_of set.seconds a.outcome ∷ [])) d as' r
          → Exited past c
              (a ∷ as')
              (elim r [ none ↦ none | some (waits, end) ↦ some (wait ∷ waits, end) ])
      more wait d n none w = tt
      more wait d n (some (waits, end)) (we, wr, wl) = (
        rw (sym (append_assoc past (exit_of set.seconds a.outcome ∷ []) (exits_of as'))) we,
        omega (arith, n, wr),
        ap suc wl,
      )

  exits_of-TellAll : (as' : List (RoundAnswers F)) → TellAll as' (exits_of as')
  unfolding exit_of
  exits_of-TellAll [] = tt
  exits_of-TellAll (a ∷ as') = (
    record { when = refl; how_much = refl; why = exit_reason-Because a.outcome; last_words = refl },
    exits_of-TellAll as',
  )

  -- Where Reconcile leaves the exits and restarts of a recording alone, supervise counts every run
  -- as a restart and waits once behind it, and the session's exits are the last twenty of those it
  -- had and of one for each run, in their order, which tells when the run ended, its bytes, its last
  -- line and its reason: the first of a full disk, another failed write, a stall, a kill, an error of
  -- ffmpeg and a message on demuxing that applies, and otherwise the end of the stream.
  pub supervise-exits :
      (as' : List (RoundAnswers F)) (c : Capture F) {waits : List ℕ} {d : Capture F}
      → All Steady as'
      → length c.session.exits ≤ 20
      → supervise set as' c ≡ some (waits, d)
      → (xs : List (RunExit F)) × TellAll as' xs
        × (d.session.exits ≡ last_of 20 (c.session.exits ++ xs))
        × (d.session.restarts ≡ c.session.restarts + length as')
        × (length waits ≡ length as')
  supervise-exits as' c {waits} {d} all h q =
      let z : length c.session.exits - 20 ≡ 0 = omega (arith, h) in
      let e =
        subst (Exited c.session.exits c as') q
          (supervise_listed as' c c.session.exits all (rw z refl)) in
      (exits_of as', exits_of-TellAll as', e.0, e.1, e.2)
