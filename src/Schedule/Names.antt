-- ===== src/Schedule/Names.antt =====
-- internal/schedule/schedule.go: SafeID. A text is its code points, and `digest` the first eight
-- characters of the hex SHA-256 of an id. Only what is safe, and so one byte, is counted and cut.
use spectado_stream_recorder.Common.{
  ℕ, Bool, not, ◌&&◌, ◌||◌, [], ◌∷◌, ◌++◌, ltb, leb, ◌==◌, if◌then◌else◌, length, take,
}
use spectado_stream_recorder.Common.Text.{Text, text_eq, trim, codes}

abbrev within_range : ℕ → ℕ → ℕ → Bool
within_range a b c = leb a c && leb c b

-- The characters that SafeID keeps.
unfoldable pub safe_char : ℕ → Bool
safe_char c =
    within_range 97 122 c
    || within_range 65 90 c
    || within_range 48 57 c
    || c == 45
    || c == 95
    || c == 46

abbrev pub is_dot : ℕ → Bool
is_dot c = c == 46

abbrev pub is_edge : ℕ → Bool
is_edge c = c == 46 || c == 95 || c == 45

unfoldable pub sanitise : Text → Text
sanitise [] = []
sanitise (c ∷ cs) = (if safe_char c then c else 95) ∷ sanitise cs

-- The name behind the shortcut, of the sanitised id and the digest.
unfoldable pub hashed_name : Text → Text → Text
hashed_name s digest =
    let short = trim is_edge (if ltb 48 (length s) then take 48 s else s) in
    if text_eq short [] then codes "item-" ++ digest else short ++ codes "-" ++ digest

unfoldable pub safe_id : (Text → Text) → Text → Text
unfolding sanitise hashed_name
safe_id digest id =
    let s = trim is_dot (sanitise id) in
    if text_eq s id && leb (length s) 64 && not (text_eq s []) then s else hashed_name s (digest id)
