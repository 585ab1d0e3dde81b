-- ===== src/Recorder/Capture/Stderr/Redaction.antt =====
-- What RedactURL tells of a URL.
use spectado_stream_recorder.Common.{
  ◌≡◌, refl, sym, ap, ◌∙◌, ◌↔◌, false, ◌||◌, Option, none, some, [], arith, if◌then◌else◌,
}
use spectado_stream_recorder.Common.Text.{Text, is_empty}
use spectado_stream_recorder.Recorder.Capture.Stderr.{redact_url}
use spectado_stream_recorder.Recorder.Capture.Redact.{
  Account, Url, Outside, redact_user, redact_query,
}

abbrev pub SameUser : Option Account → Option Account → Type 0
SameUser none none = Unit
SameUser (some u) (some v) = (u.password ≡ none) ↔ (v.password ≡ none)
SameUser none (some v) = ⊥
SameUser (some u) none = ⊥

module _ (o : Outside) where
  -- Two URLs that differ in the user's name and password and in the values of the query only.
  pub record SamePlace (u v : Url) : Type 0 where
    pub scheme : u.scheme ≡ v.scheme
    pub host : u.host ≡ v.host
    pub path : u.path ≡ v.path
    pub fragment : u.fragment ≡ v.fragment
    pub user : SameUser u.user v.user
    pub asked : is_empty u.raw_query ≡ is_empty v.raw_query
    pub keys : o.query_keys u.raw_query ≡ o.query_keys v.raw_query

redact_user_same :
    (u v : Account) → ((u.password ≡ none) ↔ (v.password ≡ none)) → redact_user u ≡ redact_user v
unfolding redact_user
redact_user_same u v h = ground (arith, h)

hidden : Option Account → Option Account
hidden u = elim u [ none ↦ none | some w ↦ some (redact_user w) ]

hidden_same : (u v : Option Account) → SameUser u v → hidden u ≡ hidden v
unfolding hidden
hidden_same none none h = refl
hidden_same (some u) (some v) h = ap some (redact_user_same u v h)
hidden_same none (some v) h = elim h [ ]
hidden_same (some u) none h = elim h [ ]

module _ (o : Outside) where
  abbrev place : Text → Option Account → Text → Text → Text → Text → Url
  place scheme user host path query fragment = record {
    scheme = scheme;
    user = user;
    host = host;
    path = path;
    raw_query = query;
    fragment = fragment;
  }

  -- The redacted URL.
  shown : Url → Url
  unfolding hidden
  shown u = record u {
    user = hidden u.user;
    raw_query =
        if is_empty u.raw_query then [] else redact_query o.query_escape (o.query_keys u.raw_query);
  }

  shown_same : (u v : Url) → SamePlace o u v → shown u ≡ shown v
  unfolding shown
  shown_same u v h =
      cc (h.scheme, h.host, h.path, h.fragment, h.asked, h.keys, hidden_same u.user v.user h.user)

  redact_url-shown :
      (a : Text) (u : Url)
      → o.parse_url a ≡ some u
      → is_empty u.scheme || is_empty u.host ≡ false
      → redact_url o a ≡ o.print_url (shown u)
  unfolding shown hidden redact_url
  redact_url-shown a u e t = rw (e, redact_url, t) refl

  -- Of a URL with a scheme and a host, what the logs and the state show says nothing about the
  -- user's name, the password and the values of the query: two URLs that differ in these only are
  -- shown alike.
  pub redact_url_alike :
      (a b : Text) {u v : Url}
      → o.parse_url a ≡ some u
      → o.parse_url b ≡ some v
      → is_empty u.scheme || is_empty u.host ≡ false
      → SamePlace o u v
      → redact_url o a ≡ redact_url o b
  redact_url_alike a b {u} {v} ea eb t h =
      redact_url-shown a u ea t
      ∙ ap o.print_url (shown_same u v h)
      ∙ sym (redact_url-shown b v eb (rw (sym h.scheme, sym h.host) t))
