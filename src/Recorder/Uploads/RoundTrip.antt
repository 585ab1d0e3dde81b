-- ===== src/Recorder/Uploads/RoundTrip.antt =====
-- The manifest that objectMetadata writes, read back by parseRemoteObject.
use mathlib.Core.Path.{subst}
use spectado_stream_recorder.Common.{
  ℕ, ◌*◌, ◌/◌, ◌^◌, ◌≡◌, refl, sym, ap, ◌∙◌, Bool, true, false, none, some, List, [], ◌∷◌, ◌++◌,
  arith, ◌==◌, ==_iff, if_cases, length, All, All-map,
}
use spectado_stream_recorder.Common.Text.{Text, codes, text_eq, trim, trim_left, trim_right}
use spectado_stream_recorder.Recorder.Manager.{Texts}
use spectado_stream_recorder.Recorder.Uploads.Manifest.{
  Formats, Metadata, meta_value, ObjectInfo, manifest, comma, split_on, join_with, trimmed_digests,
  or_zero, check_parts, trimmed_value, parse_remote_object, Summary, set_text, set_time,
  object_metadata,
}

-- A text without white space or commas, and not empty: what a digest in hex is.
abbrev pub IsWord : Texts → Text → Type 0
IsWord texts t =
    (text_eq t [] ≡ false) × All (λ c. (texts.is_space c ≡ false) × ((c == comma) ≡ false)) t

module _ (test : ℕ → Bool) where
  abbrev Outside : Text → Type 0
  Outside t = All (λ c. test c ≡ false) t

  append-Outside : (t u : Text) → Outside t → Outside u → Outside (t ++ u)
  append-Outside [] u h k = k
  append-Outside (c ∷ t) u (h, hs) k = (h, append-Outside t u hs k)

  trim_right-Outside : (t : Text) → Outside t → trim_right test t ≡ t
  unfolding trim_right
  trim_right-Outside [] h = refl
  trim_right-Outside (c ∷ []) (h, hs) = rw h refl
  trim_right-Outside (c ∷ d ∷ t) (h, hs) = rw (trim_right-Outside (d ∷ t) hs) refl

  trim_left-Outside : (t : Text) → Outside t → trim_left test t ≡ t
  unfolding trim_left
  trim_left-Outside [] h = refl
  trim_left-Outside (c ∷ t) (h, hs) = rw h refl

  trim-Outside : (t : Text) → Outside t → trim test t ≡ t
  unfolding trim
  trim-Outside t h = ap (trim_right test) (trim_left-Outside t h) ∙ trim_right-Outside t h

-- The words are cut apart again where they were joined.
split_word :
    (t rest : Text)
    → All (λ c. (c == comma) ≡ false) t
    → split_on comma (t ++ comma ∷ rest) ≡ t ∷ split_on comma rest
unfolding split_on
split_word [] rest h = refl
split_word (c ∷ t) rest (h, hs) = rw (split_word t rest hs, h) refl

split_last : (t : Text) → All (λ c. (c == comma) ≡ false) t → split_on comma t ≡ t ∷ []
unfolding split_on
split_last [] h = refl
split_last (c ∷ t) (h, hs) = rw (split_last t hs, h) refl

module _ (texts : Texts) where
  no_comma :
      (t : Text)
      → All (λ c. (texts.is_space c ≡ false) × ((c == comma) ≡ false)) t
      → All (λ c. (c == comma) ≡ false) t
  no_comma t h = All-map t (λ c k. k.1) h

  no_space :
      (t : Text)
      → All (λ c. (texts.is_space c ≡ false) × ((c == comma) ≡ false)) t
      → Outside texts.is_space t
  no_space t h = All-map t (λ c k. k.0) h

  split_on-join_with :
      (d : Text) (ds : List Text)
      → IsWord texts d
      → All (IsWord texts) ds
      → split_on comma (join_with comma (d ∷ ds)) ≡ d ∷ ds
  unfolding join_with
  split_on-join_with d [] (n, h) hs = split_last d (no_comma d h)
  split_on-join_with d (e ∷ es) (n, h) (k, ks) =
      split_word d _ (no_comma d h) ∙ ap (◌∷◌ d) (split_on-join_with e es k ks)

  trimmed_digests-IsWord :
      (ds : List Text) → All (IsWord texts) ds → trimmed_digests texts.is_space ds ≡ ds
  unfolding trimmed_digests
  trimmed_digests-IsWord [] h = refl
  trimmed_digests-IsWord (d ∷ ds) ((n, h), hs) =
      let t = trim-Outside texts.is_space d (no_space d h) in
      let ih = trimmed_digests-IsWord ds hs in rw (t, ih, n) refl

  -- Joined by a character that is no white space, words have none.
  join_with-Outside :
      (ds : List Text)
      → texts.is_space comma ≡ false
      → All (IsWord texts) ds
      → Outside texts.is_space (join_with comma ds)
  unfolding join_with
  join_with-Outside [] s h = tt
  join_with-Outside (d ∷ []) s ((n, h), hs) = no_space d h
  join_with-Outside (d ∷ e ∷ es) s ((n, h), hs) =
      append-Outside texts.is_space d (comma ∷ join_with comma (e ∷ es)) (no_space d h)
        (s, join_with-Outside (e ∷ es) s hs)

-- What the standard library's formats have to read back of a summary: its number and its time up to
-- the seconds; and a comma is no white space.
pub record ReadsBack (texts : Texts) (formats : Formats) (sum : Summary) : Type 0 where
  pub comma_is_no_space : texts.is_space comma ≡ false
  pub number : formats.atoi (trim texts.is_space (texts.itoa sum.parts)) ≡ some sum.parts
  pub time :
      formats.parse_time (trim texts.is_space (formats.format_time sum.last_start))
      ≡ some (sum.last_start / 10 ^ 9 * 10 ^ 9)
  pub no_time : formats.parse_time [] ≡ none

module _ (texts : Texts) (formats : Formats) (sum : Summary) where
  abbrev stored_metadata : Metadata
  stored_metadata = object_metadata texts formats sum

  meta_parts : meta_value (codes "parts") stored_metadata ≡ texts.itoa sum.parts
  unfolding object_metadata set_time meta_value text_eq
  meta_parts =
      if_cases (λ m. meta_value (codes "parts") m ≡ texts.itoa sum.parts) (sum.last_start == 0) _ _
        (λ h. refl) (λ h. refl)

  abbrev texts_part : Metadata
  texts_part =
      set_text (codes "sessions") (join_with comma sum.digests)
        (set_text (codes "recording-id") sum.recording_id [])

  -- The time in front of the metadata hides no other key.
  meta_value-stored :
      (key : Text)
      → text_eq (codes "last-session-start") key ≡ false
      → text_eq (codes "parts") key ≡ false
      → meta_value key stored_metadata ≡ meta_value key texts_part
  unfolding object_metadata set_time meta_value
  meta_value-stored key e f =
      if_cases (λ m. meta_value key m ≡ meta_value key texts_part) (sum.last_start == 0) _ _
        (λ h. rw f refl) (λ h. rw (e, f) refl)

  meta_sessions :
      text_eq (join_with comma sum.digests) [] ≡ false
      → meta_value (codes "sessions") stored_metadata ≡ join_with comma sum.digests
  unfolding text_eq meta_value set_text
  meta_sessions h = meta_value-stored (codes "sessions") refl refl ∙ rw h refl

  meta_id :
      text_eq (join_with comma sum.digests) [] ≡ false
      → text_eq sum.recording_id [] ≡ false
      → meta_value (codes "recording-id") stored_metadata ≡ sum.recording_id
  unfolding text_eq meta_value set_text
  meta_id h k = meta_value-stored (codes "recording-id") refl refl ∙ rw (h, k) refl

  abbrev texts_and_parts : Metadata
  texts_and_parts = (codes "parts", texts.itoa sum.parts) ∷ texts_part

  no_start :
      text_eq (join_with comma sum.digests) [] ≡ false
      → text_eq sum.recording_id [] ≡ false
      → meta_value (codes "last-session-start") texts_part ≡ []
  unfolding text_eq meta_value set_text
  no_start h k = rw (h, k) refl

  meta_start :
      ReadsBack texts formats sum
      → text_eq (join_with comma sum.digests) [] ≡ false
      → text_eq sum.recording_id [] ≡ false
      → or_zero (
          formats.parse_time
            (trim texts.is_space (meta_value (codes "last-session-start") stored_metadata)))
        ≡ sum.last_start / 10 ^ 9 * 10 ^ 9
  unfolding object_metadata set_time meta_value text_eq trim trim_left trim_right
  meta_start back h k =
      let none_read = back.no_time in
      let absent = no_start h k in
      if_cases
        (λ m.
          or_zero
            (formats.parse_time (trim texts.is_space (meta_value (codes "last-session-start") m)))
          ≡ sum.last_start / 10 ^ 9 * 10 ^ 9)
        (sum.last_start == 0) texts_and_parts _
        (λ e.
          let z : sum.last_start ≡ 0 = (==_iff sum.last_start 0).0 e in
          rw (absent, none_read, z) refl)
        (λ e. rw (back.time) refl)

pub join_with_filled :
    (d : Text) (ds : List Text)
    → text_eq d [] ≡ false
    → text_eq (join_with comma (d ∷ ds)) [] ≡ false
unfolding join_with text_eq
join_with_filled d [] h = h
join_with_filled [] (e ∷ es) h = ground (arith, h)
join_with_filled (c ∷ cs) (e ∷ es) h = refl

-- The manifest of an object that lists at least one session, and whose recording id and session
-- digests are words, reads back as it was written, with the last start cut to seconds; a digest is
-- such a word, and the formats of numbers and times read back.
pub parse_remote_object-object_metadata :
    (texts : Texts) (formats : Formats) (sum : Summary) (d : Text) (ds : List Text) (etag : Text)
    (bytes : ℕ)
    → ReadsBack texts formats sum
    → sum.digests ≡ d ∷ ds
    → All (IsWord texts) (d ∷ ds)
    → IsWord texts sum.recording_id
    → sum.parts ≡ length sum.digests
    → parse_remote_object texts formats
        (record { etag = etag; size = bytes; metadata = object_metadata texts formats sum })
      ≡ manifest (record {
        etag = etag;
        size = bytes;
        recording_id = sum.recording_id;
        sessions = sum.digests;
        parts = sum.parts;
        last_start = sum.last_start / 10 ^ 9 * 10 ^ 9;
      })
unfolding parse_remote_object check_parts
parse_remote_object-object_metadata texts formats sum d ds etag bytes back e words id n =
    let info : ObjectInfo = record {
      etag = etag;
      size = bytes;
      metadata = object_metadata texts formats sum;
    } in
    let all : All (IsWord texts) sum.digests = subst (All (IsWord texts)) (sym e) words in
    let filled : text_eq (join_with comma sum.digests) [] ≡ false =
      subst (λ l. text_eq (join_with comma l) [] ≡ false) (sym e)
        (join_with_filled d ds words.0.0) in
    let name : trimmed_value texts info (codes "recording-id") ≡ sum.recording_id =
      ap (trim texts.is_space) (meta_id texts formats sum filled id.0)
      ∙ trim-Outside texts.is_space sum.recording_id (no_space texts sum.recording_id id.1) in
    let list : trimmed_value texts info (codes "sessions") ≡ join_with comma sum.digests =
      ap (trim texts.is_space) (meta_sessions texts formats sum filled)
      ∙ trim-Outside texts.is_space _
          (join_with-Outside texts sum.digests back.comma_is_no_space all) in
    let parts : formats.atoi (trimmed_value texts info (codes "parts")) ≡ some sum.parts =
      ap (λ v. formats.atoi (trim texts.is_space v)) (meta_parts texts formats sum) ∙ back.number in
    let cut : split_on comma (join_with comma sum.digests) ≡ sum.digests =
      subst (λ l. split_on comma (join_with comma l) ≡ l) (sym e)
        (split_on-join_with texts d ds words.0 words.1) in
    let digests = trimmed_digests-IsWord texts sum.digests all in
    let start = meta_start texts formats sum back filled id.0 in
    let same : (length sum.digests == length sum.digests) ≡ true = ground arith in
    rw (name, list, parts, filled, id.0, cut, digests, start, n, same) refl
