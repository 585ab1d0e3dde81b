-- ===== src/Recorder/Uploads/Sent.antt =====
-- internal/recorder/upload.go, objectmeta.go and internal/storage/s3.go: the manifest from
-- objectMetadata through SanitizeMetadata to parseRemoteObject.
use spectado_stream_recorder.Common.{
  ℕ, ◌*◌, ◌/◌, ◌^◌, ◌≤◌, ◌<◌, ◌≡◌, refl, sym, ap, ◌∙◌, inl, inr, Bool, true, false, ◌&&◌, ◌||◌,
  Option, none, some, List, [], ◌∷◌, arith, ltb, ◌==◌, Bool-cases, Option-cases, if_cases, length,
  All, All-map,
}
use spectado_stream_recorder.Common.Text.{
  Text, codes, text_eq, text_eq_iff, is_empty, trim, trim_left, trim_right,
}
use spectado_stream_recorder.Schedule.Document.{find_key}
use spectado_stream_recorder.Recorder.Manager.{Texts}
use spectado_stream_recorder.Storage.{
  Library, is_reserved, reserved_value_max, key_rune, key_runes, all_ascii, plain_runes,
  sanitize_key, sanitize_value, Built, add_value, add_entry, add_entries, nothing_built,
  sanitize_metadata,
}
use spectado_stream_recorder.Recorder.Uploads.Manifest.{
  Formats, Metadata, meta_value, ObjectInfo, manifest, comma, join_with, trimmed_value,
  parse_remote_object, Summary, set_text, set_time, object_metadata,
}
use spectado_stream_recorder.Recorder.Uploads.RoundTrip.{
  IsWord, ReadsBack, parse_remote_object-object_metadata,
}

-- A visible character of ASCII.
abbrev pub IsVisible : ℕ → Type 0
IsVisible c = (32 < c) × (c < 127)

-- A text of such characters, not empty and not longer than a reserved value may be.
pub record IsPlain (t : Text) : Type 0 where
  pub filled : is_empty t ≡ false
  pub visible : All IsVisible t
  pub short : length t ≤ 1024

-- What the standard library does with visible ASCII: its runes are its bytes, and no white space. The
-- keys of the manifest are in lower case.
pub record OnPlain (o : Library) : Type 0 where
  pub runes_plain : (t : Text) → All IsVisible t → o.runes t ≡ t
  pub utf8_plain : (c : ℕ) → IsVisible c → o.utf8 c ≡ c ∷ []
  pub trim_plain : (t : Text) → All IsVisible t → o.trim_space t ≡ t
  pub lower_id : o.lower (codes "recording-id") ≡ codes "recording-id"
  pub lower_sessions : o.lower (codes "sessions") ≡ codes "sessions"
  pub lower_parts : o.lower (codes "parts") ≡ codes "parts"
  pub lower_start : o.lower (codes "last-session-start") ≡ codes "last-session-start"

all_visible : Text → Bool
all_visible [] = true
all_visible (c ∷ t) = ltb 32 c && ltb c 127 && all_visible t

all_visible-IsVisible : (t : Text) → all_visible t ≡ true → All IsVisible t
unfolding all_visible
all_visible-IsVisible [] h = tt
all_visible-IsVisible (c ∷ t) h =
    ((ground (arith, h), ground (arith, h)), all_visible-IsVisible t (ground (arith, h)))

-- The manifest depends on the metadata by what is read under its keys.
parse_remote_object_same :
    (texts : Texts) (formats : Formats) (a b : ObjectInfo)
    → a.etag ≡ b.etag
    → a.size ≡ b.size
    → ((key : Text) → trimmed_value texts a key ≡ trimmed_value texts b key)
    → parse_remote_object texts formats a ≡ parse_remote_object texts formats b
unfolding parse_remote_object
parse_remote_object_same texts formats a b e f same =
    let id = same (codes "recording-id") in
    let list = same (codes "sessions") in
    let number = same (codes "parts") in
    let start = same (codes "last-session-start") in rw (id, list, number, start, e, f) refl

module _ (o : Library) (on : OnPlain o) where
  plain_runes_visible : (t : Text) → All IsVisible t → plain_runes o t ≡ t
  unfolding plain_runes
  plain_runes_visible [] h = refl
  plain_runes_visible (c ∷ t) (h, hs) =
      let e : (ltb c 32 || c == 127) ≡ false = ground (arith, h) in
      rw (e, on.utf8_plain c h, plain_runes_visible t hs) refl

  all_ascii_visible : (t : Text) → All IsVisible t → all_ascii t ≡ true
  unfolding all_ascii
  all_ascii_visible [] h = refl
  all_ascii_visible (c ∷ t) (h, hs) = ground (arith, h, all_ascii_visible t hs)

  -- A plain value is sent as it is.
  sanitize_value-IsPlain : (v : Text) → IsPlain v → sanitize_value o v reserved_value_max ≡ v
  unfolding sanitize_value
  sanitize_value-IsPlain v p =
      let fits : ltb 1024 (length v) ≡ false = ground (arith, p.short) in
      rw
        (
          on.runes_plain v p.visible,
          plain_runes_visible v p.visible,
          on.trim_plain v p.visible,
          all_ascii_visible v p.visible,
          fits,
        )
        refl

  -- An entry that is sent as it is.
  record IsKept (e : Text × Text) : Type 0 where
    same_key : sanitize_key o e.0 ≡ e.0
    set_key : is_empty e.0 ≡ false
    reserved : is_reserved e.0 ≡ true
    plain : IsPlain e.1

  add_entry-IsKept :
      (k v : Text) (b : Built o)
      → IsKept (k, v)
      → add_entry o true (k, v) b ≡ add_value o true k v b
  unfolding add_entry
  add_entry-IsKept k v b h =
      rw (h.same_key, h.set_key, h.reserved, sanitize_value-IsPlain v h.plain) refl

  passed : (k v : Text) (b : Built o) → IsKept (k, v) → add_entry o false (k, v) b ≡ b
  unfolding add_entry
  passed k v b h = rw (h.same_key, h.set_key, h.reserved) refl

  all_passed : (es : Metadata) (b : Built o) → All IsKept es → add_entries o false es b ≡ b
  unfolding add_entries
  all_passed [] b h = refl
  all_passed ((k, v) ∷ es) b (h, hs) =
      ap (add_entries o false es) (passed k v b h) ∙ all_passed es b hs

  -- What is read under a key: what is there already, or else what the entries say.
  abbrev found_or : Option Text → Text → Text
  found_or none t = t
  found_or (some w) t = w

  add_value-found :
      (key k v : Text) (es : Metadata) (b : Built o)
      → is_empty v ≡ false
      → found_or (find_key key (add_value o true k v b).out) (meta_value key es)
        ≡ found_or (find_key key b.out) (meta_value key ((k, v) ∷ es))
  unfolding add_value find_key meta_value
  add_value-found key k v es b full = elim (Option-cases (find_key k b.out)) [
    | inl e ↦ elim (Bool-cases (text_eq k key)) [
      | inl same ↦
          let q : find_key key b.out ≡ none =
            ap (λ t. find_key t b.out) (sym ((text_eq_iff k key).0 same)) ∙ e in
          rw (e, add_value, full, same, q) refl
      | inr other ↦ rw (e, add_value, full, other) refl
    ]
    | inr (w, e) ↦ elim (Bool-cases (text_eq k key)) [
      | inl same ↦
          let q : find_key key b.out ≡ some w =
            ap (λ t. find_key t b.out) (sym ((text_eq_iff k key).0 same)) ∙ e in
          rw (e, add_value, q) refl
      | inr other ↦ rw (e, add_value, other) refl
    ]
  ]

  add_entries-found :
      (key : Text) (es : Metadata) (b : Built o)
      → All IsKept es
      → found_or (find_key key (add_entries o true es b).out) []
        ≡ found_or (find_key key b.out) (meta_value key es)
  unfolding add_entries meta_value
  add_entries-found key [] b h = refl
  add_entries-found key ((k, v) ∷ es) b (h, hs) =
      add_entries-found key es (add_entry o true (k, v) b) hs
      ∙ ap (λ c. found_or (find_key key c.out) (meta_value key es)) (add_entry-IsKept k v b h)
      ∙ add_value-found key k v es b h.plain.filled

  meta_value-find_key :
      (key : Text) (es : Metadata) → meta_value key es ≡ found_or (find_key key es) []
  unfolding meta_value find_key
  meta_value-find_key key [] = refl
  meta_value-find_key key ((k, v) ∷ es) = elim (Bool-cases (text_eq k key)) [
    | inl e ↦ rw e refl
    | inr e ↦ rw e (meta_value-find_key key es)
  ]

  -- Every key reads behind SanitizeMetadata as in front of it.
  meta_value-sanitize_metadata :
      (key : Text) (es : Metadata)
      → All IsKept es
      → meta_value key (sanitize_metadata o es).out ≡ meta_value key es
  unfolding sanitize_metadata find_key
  meta_value-sanitize_metadata key es h =
      meta_value-find_key key (sanitize_metadata o es).out
      ∙ ap (λ c. found_or (find_key key c.out) [])
          (all_passed es (add_entries o true es (nothing_built o)) h)
      ∙ add_entries-found key es (nothing_built o) h

  -- A key of the manifest is sent as it is.
  same_keys :
      (sanitize_key o (codes "recording-id") ≡ codes "recording-id")
      × (sanitize_key o (codes "sessions") ≡ codes "sessions")
      × (sanitize_key o (codes "parts") ≡ codes "parts")
      × (sanitize_key o (codes "last-session-start") ≡ codes "last-session-start")
  unfolding sanitize_key key_runes key_rune trim trim_left trim_right all_visible
  same_keys =
      let id =
        on.runes_plain (codes "recording-id") (all_visible-IsVisible (codes "recording-id") refl) in
      let ss = on.runes_plain (codes "sessions") (all_visible-IsVisible (codes "sessions") refl) in
      let ps = on.runes_plain (codes "parts") (all_visible-IsVisible (codes "parts") refl) in
      let st =
        on.runes_plain (codes "last-session-start")
          (all_visible-IsVisible (codes "last-session-start") refl) in
      (
        rw (on.lower_id, id) refl,
        rw (on.lower_sessions, ss) refl,
        rw (on.lower_parts, ps) refl,
        rw (on.lower_start, st) refl,
      )

  filled_set : (v : Text) → is_empty v ≡ false → text_eq v [] ≡ false
  unfolding text_eq
  filled_set [] h = h
  filled_set (c ∷ v) h = refl

  object_metadata-IsKept :
      (texts : Texts) (formats : Formats) (sum : Summary)
      → IsPlain sum.recording_id
      → IsPlain (join_with comma sum.digests)
      → IsPlain (texts.itoa sum.parts)
      → IsPlain (formats.format_time sum.last_start)
      → All IsKept (object_metadata texts formats sum)
  unfolding object_metadata set_text set_time is_reserved text_eq
  object_metadata-IsKept texts formats sum id list number time =
      let (ki, ks, kp, kt) = same_keys in
      let full_id = filled_set sum.recording_id id.filled in
      let full_list = filled_set (join_with comma sum.digests) list.filled in
      let rest : All IsKept (
          (codes "parts", texts.itoa sum.parts)
          ∷ (codes "sessions", join_with comma sum.digests)
          ∷ (codes "recording-id", sum.recording_id)
          ∷ []) =
        (
          record { same_key = kp; set_key = refl; reserved = refl; plain = number },
          (
            record { same_key = ks; set_key = refl; reserved = refl; plain = list },
            (record { same_key = ki; set_key = refl; reserved = refl; plain = id }, tt),
          ),
        ) in
      rw (full_id, full_list)
        (if_cases (All IsKept) (sum.last_start == 0) _ _ (λ b. rest)
          (λ b. (record { same_key = kt; set_key = refl; reserved = refl; plain = time }, rest)))

  -- The manifest of an object that lists at least one session reads back from the metadata that
  -- SanitizeMetadata leaves as it was written, with the last start cut to seconds. Its four values
  -- are of visible ASCII characters, of 1024 bytes at most, no session's digest is empty, neither they
  -- nor the recording's id have a comma, and its number and its time are read back by the formats that wrote them.
  pub parse_remote_object-sanitize_metadata :
      (texts : Texts) (formats : Formats) (sum : Summary) (d : Text) (ds : List Text) (etag : Text)
      (bytes : ℕ)
      → ((c : ℕ) → IsVisible c → texts.is_space c ≡ false)
      → ReadsBack texts formats sum
      → sum.digests ≡ d ∷ ds
      → All (λ t. (is_empty t ≡ false) × All (λ c. IsVisible c × ((c == comma) ≡ false)) t) (d ∷ ds)
      → IsPlain sum.recording_id
      → All (λ c. (c == comma) ≡ false) sum.recording_id
      → IsPlain (join_with comma sum.digests)
      → IsPlain (texts.itoa sum.parts)
      → IsPlain (formats.format_time sum.last_start)
      → sum.parts ≡ length sum.digests
      → parse_remote_object texts formats (record {
        etag = etag;
        size = bytes;
        metadata = (sanitize_metadata o (object_metadata texts formats sum)).out;
      })
        ≡ manifest (record {
          etag = etag;
          size = bytes;
          recording_id = sum.recording_id;
          sessions = sum.digests;
          parts = sum.parts;
          last_start = sum.last_start / 10 ^ 9 * 10 ^ 9;
        })
  unfolding parse_remote_object
  parse_remote_object-sanitize_metadata texts formats sum d ds etag bytes space back e words id
        no_comma list number time n =
      let sent : ObjectInfo = record {
        etag = etag;
        size = bytes;
        metadata = (sanitize_metadata o (object_metadata texts formats sum)).out;
      } in
      let written : ObjectInfo = record {
        etag = etag;
        size = bytes;
        metadata = object_metadata texts formats sum;
      } in
      let kept = object_metadata-IsKept texts formats sum id list number time in
      let same : (key : Text) → trimmed_value texts sent key ≡ trimmed_value texts written key =
        λ key.
          ap (trim texts.is_space)
            (meta_value-sanitize_metadata key (object_metadata texts formats sum) kept) in
      let word : (t : Text)
          → (is_empty t ≡ false) × All (λ c. IsVisible c × ((c == comma) ≡ false)) t
          → IsWord texts t =
        λ t h. (filled_set t h.0, All-map t (λ c k. (space c k.0, k.1)) h.1) in
      parse_remote_object_same texts formats sent written refl refl same
      ∙ parse_remote_object-object_metadata texts formats sum d ds etag bytes back e
          (All-map (d ∷ ds) word words)
          (filled_set sum.recording_id id.filled, both sum.recording_id id.visible no_comma) n
    where
      both :
          (t : Text)
          → All IsVisible t
          → All (λ c. (c == comma) ≡ false) t
          → All (λ c. (texts.is_space c ≡ false) × ((c == comma) ≡ false)) t
      both [] h k = tt
      both (c ∷ t) (h, hs) (k, ks) = ((space c h, k), both t hs ks)
