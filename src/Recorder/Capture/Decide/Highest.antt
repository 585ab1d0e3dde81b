-- ===== src/Recorder/Capture/Decide/Highest.antt =====
-- The program that decideVideo takes, and its panic.
use spectado_stream_recorder.Common.{ℕ, suc, ◌≤◌, ◌≡◌, ◌⊎◌, Option, none, some, List, [], ◌∷◌, All}
use spectado_stream_recorder.Recorder.Capture.Decide.{
  Program, Best, Reading, is_video, first_stream,
}

abbrev pub OneOf : Program → List Program → Type 0
OneOf p [] = ⊥
OneOf p (q ∷ ps) = (q ≡ p) ⊎ OneOf p ps

abbrev Over : Option Best → Best → Type 0
Over none b = Unit
Over (some a) b = a.rate ≤ b.rate

module _ (o : Reading) where
  abbrev pub rate_of : Program → Option ℕ
  rate_of p = o.read_rate (o.trim_space p.variant_bitrate)

  -- The program has no picture, or its rate is not above `n`.
  abbrev pub Below : ℕ → Program → Type 0
  Below n p = (first_stream is_video p.streams ≡ none) ⊎ ((r : ℕ) → rate_of p ≡ some r → r ≤ n)

  -- The program has no picture, or a rate below 0.
  abbrev pub Refused : Program → Type 0
  Refused p = (first_stream is_video p.streams ≡ none) ⊎ (rate_of p ≡ none)

  -- One of the programs, with its rate and its picture.
  abbrev pub Chosen : List Program → Best → Type 0
  Chosen ps b =
      OneOf b.program ps
      × (rate_of b.program ≡ some b.rate)
      × (first_stream is_video b.program.streams ≡ some b.stream)

  -- What the loop makes of the leader that it starts with.
  abbrev Wins : List Program → Option Best → Option Best → Type 0
  Wins ps start none = (start ≡ none) × All Refused ps
  Wins ps start (some b) = Over start b × All (Below b.rate) ps × ((start ≡ some b) ⊎ Chosen ps b)

  -- How many of the programs have a picture.
  abbrev pub pictured : List Program → ℕ
  pictured [] = 0
  pictured (p ∷ ps) = elim (first_stream is_video p.streams) [
    | none ↦ pictured ps
    | some st ↦ suc (pictured ps)
  ]
