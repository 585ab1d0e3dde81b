-- ===== src/Storage.antt =====
-- internal/storage/s3.go: what the storage client does without the network: the metadata that it
-- sends, the quoting of ETags and the classes of errors. `Library` is what the standard library does
-- here. Texts are bytes; a map is the list of its entries, in the order of their keys where it is an
-- input, the last put in front where it is built.
pub mod Metadata
use spectado_stream_recorder.Common.{
  ℕ, zero, suc, ◌+◌, ◌-◌, ◌*◌, ◌/◌, ◌%◌, ◌^◌, ◌≤◌, ◌<◌, min, max, ◌≡◌, refl, sym, ap, ◌∙◌, ◌≢◌, ◌↔◌,
  ◌⊎◌, inl, inr, Bool, true, false, not, ◌&&◌, ◌||◌, Option, none, some, List, [], ◌∷◌, ◌++◌, map,
  append-nil, append_assoc, arith, ltb, leb, ◌==◌, if◌then◌else◌, ltb→lt, lt→ltb, leb→le, ==_iff,
  Bool-cases, Option-cases, if_both, if_cases, option_both, nat_both, length, get_or, take, drop,
  All, length-append, take-append-drop, length-take, length-drop, take-length-append,
  drop-length-append, drop-drop, All-map, All-concat, Apart, Apart-concat, Bytes, at, IsByte,
}
use spectado_stream_recorder.Common.Text.{
  Text, text_eq, is_empty, has_prefix, has_suffix, trim, codes,
}
use spectado_stream_recorder.Schedule.Document.{find_key}

pub record Library : Type 0 where
  -- the runes of a text, and a rune in UTF-8
  pub runes : Text → List ℕ
  pub utf8 : ℕ → Text
  -- strings.ToLower, strings.TrimSpace and mime.BEncoding.Encode
  pub lower : Text → Text
  pub trim_space : Text → Text
  pub encode_word : Text → Text

-- reservedMetadata
unfoldable pub is_reserved : Text → Bool
is_reserved k =
    text_eq k (codes "recording-id")
    || text_eq k (codes "sessions")
    || text_eq k (codes "parts")
    || text_eq k (codes "last-session-start")

abbrev pub reserved_value_max : ℕ
reserved_value_max = 1024

abbrev pub value_max : ℕ
value_max = 256

abbrev pub budget : ℕ
budget = 1800

-- A rune of a key: kept, put as a dash, or dropped.
unfoldable pub key_rune : ℕ → Text
key_rune r =
    if leb b'a' r && leb r b'z' || leb b'0' r && leb r b'9' || r == b'-'
    then r ∷ []
    else if r == b'_' || r == b' ' || r == b'.'
    then b'-' ∷ []
    else []

unfoldable pub key_runes : List ℕ → Text
unfolding key_rune
key_runes [] = []
key_runes (r ∷ rs) = key_rune r ++ key_runes rs

-- isRuneStart, of a byte.
unfoldable pub is_rune_start : ℕ → Bool
is_rune_start b = not (leb 128 b && ltb b 192)

-- The loop of truncateUTF8, back to the start of a rune.
unfoldable pub rune_cut : Text → ℕ → ℕ
unfolding is_rune_start
rune_cut s zero = 0
rune_cut s (suc cut) =
    let back = rune_cut s cut in if is_rune_start (at s (suc cut)) then suc cut else back

-- truncateUTF8
unfoldable pub truncate_utf8 : Text → ℕ → Text
unfolding rune_cut
truncate_utf8 s most = if leb (length s) most then s else take (rune_cut s most) s

-- A rune that sanitizeValue drops.
abbrev pub is_control : ℕ → Bool
is_control r = ltb r 32 || r == 127

unfoldable pub all_ascii : List ℕ → Bool
all_ascii [] = true
all_ascii (r ∷ rs) = (is_control r || leb r 126) && all_ascii rs

module _ (o : Library) where
  unfoldable pub plain_runes : List ℕ → Text
  plain_runes [] = []
  plain_runes (r ∷ rs) =
      let rest = plain_runes rs in if is_control r then rest else o.utf8 r ++ rest

  -- sanitizeKey
  unfoldable pub sanitize_key : Text → Text
  unfolding key_runes
  sanitize_key k = trim (λ c. c == b'-') (key_runes (o.runes (o.lower k)))

  -- The loop of sanitizeValue: the source is cut until its encoded form fits.
  unfoldable pub shrink : ℕ → ℕ → Text → Text
  unfolding truncate_utf8
  shrink zero most plain = o.encode_word plain
  shrink (suc fuel) most plain =
      let rest = shrink fuel most (truncate_utf8 plain (length plain * 3 / 4)) in
      if ltb (2 * most) (length (o.encode_word plain)) && ltb 8 (length plain)
      then rest
      else o.encode_word plain

  -- sanitizeValue; each round of the loop takes a byte at least.
  unfoldable pub sanitize_value : Text → ℕ → Text
  unfolding plain_runes shrink all_ascii truncate_utf8
  sanitize_value v most =
      let s = o.trim_space (plain_runes (o.runes v)) in
      let cut = if ltb most (length s) then truncate_utf8 s most else s in
      if all_ascii (o.runes v) then cut else shrink (length cut) most cut

  -- What SanitizeMetadata has built.
  pub record Built : Type 0 where
    pub out : List (Text × Text)
    pub total : ℕ

  abbrev pub value_cap : Bool → ℕ
  value_cap true = reserved_value_max
  value_cap false = value_max

  abbrev pub put_value : Text → Text → Built → Built
  put_value k v b = record { out = (k, v) ∷ b.out; total = b.total + (length k + length v) }

  -- An entry whose key is sanitized, in the pass that it belongs to.
  unfoldable pub add_value : Bool → Text → Text → Built → Built
  add_value reserved k v b = elim (find_key k b.out) [
    | some w ↦ b
    | none ↦
        if is_empty v || not reserved && ltb budget (b.total + length k + length v)
        then b
        else put_value k v b
  ]

  unfoldable pub add_entry : Bool → Text × Text → Built → Built
  unfolding add_value sanitize_key sanitize_value is_reserved
  add_entry reserved (orig, value) b =
      let k = sanitize_key orig in
      let mine = if reserved then is_reserved k else not (is_reserved k) in
      if is_empty k || not mine
      then b
      else add_value reserved k (sanitize_value value (value_cap reserved)) b

  unfoldable pub add_entries : Bool → List (Text × Text) → Built → Built
  unfolding add_entry
  add_entries reserved [] b = b
  add_entries reserved (e ∷ es) b = add_entries reserved es (add_entry reserved e b)

  abbrev pub nothing_built : Built
  nothing_built = record { out = []; total = 0 }

  -- SanitizeMetadata
  unfoldable pub sanitize_metadata : List (Text × Text) → Built
  unfolding add_entries
  sanitize_metadata entries = add_entries false entries (add_entries true entries nothing_built)

-- quoteETag
unfoldable pub quote_etag : Text → Text
quote_etag etag =
    if has_prefix etag (codes "\"") && has_suffix etag (codes "\"") && ltb 1 (length etag)
    then etag
    else codes "\"" ++ (etag ++ codes "\"")

-- An error: what errors.Is and errors.As find in it, the code of the service and the status.
pub record Failure : Type 0 where
  pub ended_context : Bool
  pub network : Bool
  pub code : Text
  pub status : ℕ

-- isPreconditionFailed; no error is `none`.
unfoldable pub is_precondition_failed : Option Failure → Bool
is_precondition_failed none = false
is_precondition_failed (some e) = e.status == 412 || text_eq e.code (codes "PreconditionFailed")

-- isNotFound
unfoldable pub is_not_found : Failure → Bool
is_not_found e =
    e.status == 404 || text_eq e.code (codes "NotFound") || text_eq e.code (codes "NoSuchKey")

unfoldable pub is_code : Text → List Text → Bool
is_code c [] = false
is_code c (d ∷ ds) = text_eq c d || is_code c ds

abbrev pub transient_codes : List Text
transient_codes =
    codes "RequestTimeout"
    ∷ codes "RequestTimeoutException"
    ∷ codes "IncompleteBody"
    ∷ codes "XAmzContentSHA256Mismatch"
    ∷ codes "BadDigest"
    ∷ codes "NoSuchUpload"
    ∷ codes "InternalError"
    ∷ codes "SlowDown"
    ∷ codes "ServiceUnavailable"
    ∷ codes "Throttling"
    ∷ codes "ThrottlingException"
    ∷ codes "RequestLimitExceeded"
    ∷ codes "OperationAborted"
    ∷ codes "PreconditionFailed"
    ∷ codes "TooManyRequests"
    ∷ []

abbrev pub permanent_codes : List Text
permanent_codes =
    codes "AccessDenied"
    ∷ codes "InvalidAccessKeyId"
    ∷ codes "SignatureDoesNotMatch"
    ∷ codes "NoSuchBucket"
    ∷ codes "InvalidBucketName"
    ∷ codes "MetadataTooLarge"
    ∷ codes "InvalidArgument"
    ∷ codes "EntityTooLarge"
    ∷ codes "KeyTooLongError"
    ∷ codes "InvalidRequest"
    ∷ codes "Unauthorized"
    ∷ codes "Forbidden"
    ∷ codes "AuthorizationHeaderMalformed"
    ∷ codes "AllAccessDisabled"
    ∷ codes "AccountProblem"
    ∷ []

-- classify: whether the error is wrapped as a PermanentError.
unfoldable pub is_permanent_failure : Failure → Bool
unfolding is_code
is_permanent_failure e =
    if e.ended_context || e.network
    then false
    else if is_code e.code transient_codes
    then false
    else if is_code e.code permanent_codes
    then true
    else e.status == 401 || e.status == 403
