-- ===== src/Recorder/Capture/Redact.antt =====
-- internal/recorder/ffmpeg.go: the parts of RedactURL. `Outside` is what the standard library does for
-- the messages of ffmpeg; `clock` gives the readings of time.Now in their order, in nanoseconds.
use spectado_stream_recorder.Common.{ℕ, Option, none, some, List, [], ◌∷◌, ◌++◌}
use spectado_stream_recorder.Common.Text.{Text, codes}

pub record Account : Type 0 where
  pub name : Text
  pub password : Option Text

-- url.URL
pub record Url : Type 0 where
  pub scheme : Text
  pub user : Option Account
  pub host : Text
  pub path : Text
  pub raw_query : Text
  pub fragment : Text

pub record Outside : Type 0 where
  -- url.Parse and URL.String
  pub parse_url : Text → Option Url
  pub print_url : Url → Text
  -- the keys of a query, sorted, and url.QueryEscape
  pub query_keys : Text → List Text
  pub query_escape : Text → Text
  -- urlRe.ReplaceAllStringFunc
  pub replace_urls : (Text → Text) → Text → Text
  -- levelTagRe.FindStringSubmatchIndex: the match and its group
  pub find_tag : Text → Option (ℕ × ℕ × ℕ × ℕ)
  -- strings.TrimSpace
  pub trim_space : Text → Text
  -- time.Time.Format by RFC3339
  pub stamp : ℕ → Text
  pub clock : ℕ → ℕ

abbrev pub redacted : Text
redacted = codes "REDACTED"

-- The rest of the query behind its first key.
unfoldable pub more_params : (Text → Text) → List Text → Text
more_params escape [] = []
more_params escape (k ∷ ks) =
    codes "&" ++ (escape k ++ (codes "=REDACTED" ++ more_params escape ks))

unfoldable pub redact_query : (Text → Text) → List Text → Text
unfolding more_params
redact_query escape [] = []
redact_query escape (k ∷ ks) = escape k ++ (codes "=REDACTED" ++ more_params escape ks)

unfoldable pub redact_user : Account → Account
redact_user u = elim u.password [
  | some p ↦ record { name = redacted; password = some redacted }
  | none ↦ record { name = redacted; password = none }
]
