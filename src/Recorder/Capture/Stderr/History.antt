-- ===== src/Recorder/Capture/Stderr/History.antt =====
-- What may happen to the buffer, and what a history says of the current run.
use spectado_stream_recorder.Common.{
  ℕ, ◌+◌, ◌≡◌, refl, inl, inr, Bool, false, ◌&&◌, List, [], ◌∷◌, ◌++◌, if◌then◌else◌, Bool-cases,
}
use spectado_stream_recorder.Common.Text.{Text, contains, has_prefix, is_empty}
use spectado_stream_recorder.Recorder.Capture.Stderr.{Level, is_error, contains_any}

-- A line that is kept, with the time of it, a harmless one, and the start of a run with the marks
-- of its video output.
pub data Happened : Type 0 where
  said : ℕ → Level → Text → Happened
  harmless : Happened
  started : List Text → Happened

-- A call of Write or of resetRun.
pub data Call : Type 0 where
  wrote : Text → Call
  began : List Text → Call

-- The messages of the current run, the oldest in front.
unfoldable pub said_in_run : List Happened → List Text
said_in_run [] = []
said_in_run (said t level msg ∷ h) = said_in_run h ++ (msg ∷ [])
said_in_run (harmless ∷ h) = said_in_run h
said_in_run (started ms ∷ h) = []

-- Those at the level of an error.
unfoldable pub errors_in_run : List Happened → List Text
errors_in_run [] = []
errors_in_run (said t level msg ∷ h) =
    let before = errors_in_run h in if is_error level then before ++ (msg ∷ []) else before
errors_in_run (harmless ∷ h) = errors_in_run h
errors_in_run (started ms ∷ h) = []

unfoldable pub harmless_in_run : List Happened → ℕ
harmless_in_run [] = 0
harmless_in_run (said t level msg ∷ h) = harmless_in_run h
harmless_in_run (harmless ∷ h) = harmless_in_run h + 1
harmless_in_run (started ms ∷ h) = 0

unfoldable pub marks_of_run : List Happened → List Text
marks_of_run [] = []
marks_of_run (said t level msg ∷ h) = marks_of_run h
marks_of_run (harmless ∷ h) = marks_of_run h
marks_of_run (started ms ∷ h) = ms

-- All messages.
unfoldable pub said_ever : List Happened → List Text
said_ever [] = []
said_ever (said t level msg ∷ h) = said_ever h ++ (msg ∷ [])
said_ever (harmless ∷ h) = said_ever h
said_ever (started ms ∷ h) = said_ever h

unfoldable pub newest : Text → List Text → Text
newest d [] = d
newest d (x ∷ xs) = newest x xs

unfoldable pub first_with : (Text → Bool) → List Text → Text
first_with test [] = []
first_with test (x ∷ xs) = let later = first_with test xs in if test x then x else later

pub newest-append : (d x : Text) (xs : List Text) → newest d (xs ++ (x ∷ [])) ≡ x
unfolding newest
newest-append d x [] = refl
newest-append d x (y ∷ xs) = newest-append y x xs

pub contains_any_empty : (subs : List Text) → contains_any [] subs ≡ false
unfolding contains_any contains has_prefix
contains_any_empty [] = refl
contains_any_empty ([] ∷ subs) = contains_any_empty subs
contains_any_empty ((c ∷ s) ∷ subs) = contains_any_empty subs

pub first_with-append :
    (test : Text → Bool) (xs : List Text) (m : Text)
    → test [] ≡ false
    → first_with test (xs ++ (m ∷ []))
      ≡ (if is_empty (first_with test xs) && test m then m else first_with test xs)
unfolding first_with
first_with-append test [] m h = refl
first_with-append test ([] ∷ xs) m h = rw (h, first_with-append test xs m h) refl
first_with-append test ((c ∷ x) ∷ xs) m h = elim (Bool-cases (test (c ∷ x))) [
  | inl e ↦ rw e refl
  | inr e ↦ rw (e, first_with-append test xs m h) refl
]
