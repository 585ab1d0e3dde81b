-- ===== src/Recorder/Retention.antt =====
-- internal/recorder/manager.go: retention, which forgets sessions that need no more work. The files
-- of a session are known by its id; removing TS files and the sidecar only deletes files that hold
-- no recording that is left, and is left out.
use spectado_stream_recorder.Common.{
  ℕ, zero, suc, ◌-◌, ◌<◌, ◌≡◌, ap, ◌∙◌, ◌⊎◌, inl, inr, Bool, true, false, not, ◌&&◌, some, List, [],
  ◌∷◌, arith, ltb, if◌then◌else◌, Bool-cases,
}
use spectado_stream_recorder.Common.Text.{Text, text_eq}
use spectado_stream_recorder.Recorder.Session.{State, uploaded, failed, is_terminal, Session}
use spectado_stream_recorder.Recorder.Manager.{Manager, find_session}

-- A session's .aac: os.Stat's answer, and whether os.Remove fails on it. `unknown` is an error that
-- does not say that the file is missing.
pub data FileStat : Type 0 where
  missing unknown : FileStat
  size : ℕ → FileStat

pub record Files : Type 0 where
  pub audio : Text → FileStat
  pub remove_fails : Text → Bool

abbrev pub exists_file : FileStat → Bool
exists_file (size n) = true
exists_file _ = false

-- Behind the removal of an empty file.
unfoldable pub remove_empty : FileStat → Bool → FileStat
remove_empty (size zero) fails = if fails then size zero else missing
remove_empty stat fails = stat

abbrev pub is_missing : FileStat → Bool
is_missing missing = true
is_missing _ = false

-- Whether the session's files let it go, by its state.
unfoldable pub may_forget : State → FileStat → Bool → Bool
unfolding remove_empty
may_forget uploaded stat fails = not (exists_file stat)
may_forget failed stat fails = is_missing (remove_empty stat fails)
may_forget _ stat fails = true

module _ {F : Type 0} where
  -- One round of the loop: whether the session leaves the table.
  unfoldable pub forgets : Files → ℕ → Session F → Bool
  unfolding may_forget
  forgets files cutoff s =
      is_terminal s.state
      && not (ltb cutoff s.updated_at)
      && may_forget s.state (files.audio s.session_id) (files.remove_fails s.session_id)

  unfoldable pub keep_sessions : Files → ℕ → List (Session F) → List (Session F)
  unfolding forgets
  keep_sessions files cutoff [] = []
  keep_sessions files cutoff (s ∷ ss) =
      let rest = keep_sessions files cutoff ss in if forgets files cutoff s then rest else s ∷ rest

  -- retention, where `now` less the configured time is the cutoff.
  unfoldable pub retention : ℕ → Files → ℕ → Manager F → Manager F
  unfolding keep_sessions
  retention retention_uploaded files now m = record m {
    sessions = keep_sessions files (now - retention_uploaded) m.sessions;
  }

  find_session-keep_sessions :
      (files : Files) (cutoff : ℕ) (sid : Text) (ss : List (Session F)) {s : Session F}
      → find_session sid ss ≡ some s
      → forgets files cutoff s ≡ false
      → find_session sid (keep_sessions files cutoff ss) ≡ some s
  unfolding find_session keep_sessions
  find_session-keep_sessions files cutoff sid [] e k = absurd cc
  find_session-keep_sessions files cutoff sid (t ∷ ss) {s} e k =
      elim (Bool-cases (text_eq t.session_id sid)) [
        | inl here ↦
            let same : t ≡ s = ground (arith, here, e) in
            let kept_t : forgets files cutoff t ≡ false = ap (forgets files cutoff) same ∙ k in
            rw (kept_t, keep_sessions) (ground (arith, here, same))
        | inr there ↦
            let found : find_session sid ss ≡ some s = ground (arith, there, e) in
            let ih = find_session-keep_sessions files cutoff sid ss found k in
            elim (Bool-cases (forgets files cutoff t)) [
              | inl gone ↦ rw (gone, keep_sessions) ih
              | inr stays ↦ rw (stays, keep_sessions) (ground (arith, there, ih))
            ]
      ]

  -- Retention keeps each session that needs more work, that changed since the cutoff, or whose audio
  -- would be forgotten with it: an uploaded session whose file still exists, and a failed one whose
  -- file holds bytes.
  pub find_session-retention :
      (days : ℕ) (files : Files) (now : ℕ) (m : Manager F) (sid : Text) {s : Session F}
      → find_session sid m.sessions ≡ some s
      → (is_terminal s.state ≡ false)
        ⊎ (now - days < s.updated_at)
        ⊎ ((s.state ≡ uploaded) × (exists_file (files.audio s.session_id) ≡ true))
        ⊎ ((s.state ≡ failed) × ((n : ℕ) × (files.audio s.session_id ≡ size (suc n))))
      → find_session sid (retention days files now m).sessions ≡ some s
  unfolding retention forgets may_forget remove_empty is_terminal
  find_session-retention days files now m sid {s} e why =
      find_session-keep_sessions files (now - days) sid m.sessions e (kept_for why)
    where
      kept_for :
          (is_terminal s.state ≡ false)
            ⊎ (now - days < s.updated_at)
            ⊎ ((s.state ≡ uploaded) × (exists_file (files.audio s.session_id) ≡ true))
            ⊎ ((s.state ≡ failed) × ((n : ℕ) × (files.audio s.session_id ≡ size (suc n))))
          → forgets files (now - days) s ≡ false
      kept_for (inl active) = ground (arith, active)
      kept_for (inr (inl recent)) = ground (arith, recent)
      kept_for (inr (inr (inl (up, there)))) = rw (up, there, forgets) (ground arith)
      kept_for (inr (inr (inr (broken, (n, there))))) = rw (broken, there, forgets) (ground arith)
