-- ===== src/Hls/Attributes.antt =====
-- ParseLive answers for every playlist in ASCII.
use spectado_stream_recorder.Common.{
  ℕ, zero, suc, ◌+◌, ◌≤◌, ◌<◌, ◌≡◌, refl, ◌≢◌, ◌⊎◌, inl, inr, Bool, true, false, Option, none, some,
  List, [], ◌∷◌, ◌++◌, arith, Bool-cases, Option-cases, if_both, length, drop, length-append,
  length-drop, All,
}
use spectado_stream_recorder.Common.Text.{Text, has_prefix, codes}
use spectado_stream_recorder.Hls.{
  Library, Live, LivePlaylist, LiveAnswer, not_playlist, broken_input, panicked, parsed, index_of,
  at_boundary, slice_from, attr_loop, attr, take_uri, take_media, take_date, take_line, take_lines,
  no_live, finish_live, parse_rest, parse_live,
}

has_prefix-le : (s t : Text) → has_prefix s t ≡ true → length t ≤ length s
unfolding has_prefix
has_prefix-le s [] h = omega arith
has_prefix-le [] (b ∷ t) h = cc (h)
has_prefix-le (a ∷ s) (b ∷ t) h = ground (arith, h, has_prefix-le s t)

index_of-le : (s t : Text) {i : ℕ} → index_of s t ≡ some i → i + length t ≤ length s
unfolding index_of
index_of-le [] [] h = ground (arith, h)
index_of-le [] (b ∷ t) h = cc (h)
index_of-le (c ∷ s) t {i} h = elim (Bool-cases (has_prefix (c ∷ s) t)) [
  | inl e ↦ ground (arith, e, h, has_prefix-le (c ∷ s) t e)
  | inr e ↦ elim (Option-cases (index_of s t)) [
    | inl n ↦ ground (arith, e, h, n)
    | inr (j, n) ↦ ground (arith, e, h, n, index_of-le s t n)
  ]
]

abbrev pub IsAscii : Text → Type 0
IsAscii t = All (λ c. c < 128) t

IsAscii-drop : (n : ℕ) (t : Text) → IsAscii t → IsAscii (drop n t)
IsAscii-drop zero t h = h
IsAscii-drop (suc n) [] h = tt
IsAscii-drop (suc n) (c ∷ t) (h, hs) = IsAscii-drop n t hs

module _ {F : Type 0} (o : Library F) where
  -- strings.ToUpper maps an ASCII letter to an ASCII letter, and strings.TrimSpace cuts.
  pub record OnAscii : Type 0 where
    pub upper_length : (t : Text) → IsAscii t → length (o.upper t) ≡ length t
    pub trim_ascii : (t : Text) → IsAscii t → IsAscii (o.trim_space t)

  -- The byte in front of an index in range, and the slice behind what was found there, can be read.
  attr_found :
      (fuel : ℕ) (up rest : Text) (i : ℕ)
      → index_of (o.upper rest) up ≡ some i
      → i + length up ≤ length rest
      → IsAscii rest
      → ((v : Text) → IsAscii v → length v + length up ≤ length rest → attr_loop o fuel up v ≢ none)
      → 0 < length up
      → attr_loop o (suc fuel) up rest ≢ none
  unfolding attr_loop at_boundary slice_from
  attr_found fuel up rest zero e l ok ih pos = rw (e, attr_loop) (ground (arith, l))
  attr_found fuel up rest (suc j) e l ok ih pos =
      let v = drop (suc j + length up) rest in
      let k =
        ih v (IsAscii-drop (suc j + length up) rest ok)
          (omega (arith, l, length-drop (suc j + length up) rest)) in
      rw (e, attr_loop) (ground (arith, l, pos, k))

  attr_loop-ne-none :
      OnAscii
      → (fuel : ℕ) (up rest : Text) → IsAscii rest
      → length rest < fuel
      → 0 < length up
      → attr_loop o fuel up rest ≢ none
  unfolding attr_loop
  attr_loop-ne-none keeps zero up rest ok l pos = absurd (omega (arith, l))
  attr_loop-ne-none keeps (suc fuel) up rest ok l pos =
      elim (Option-cases (index_of (o.upper rest) up)) [
        | inl e ↦ rw (e, attr_loop) (λ q. cc (q))
        | inr (i, e) ↦
            attr_found fuel up rest i e
              (omega (arith, keeps.upper_length rest ok, index_of-le (o.upper rest) up e)) ok
              (λ v a k. attr_loop-ne-none keeps fuel up v a (omega (arith, l, k, pos)) pos) pos
      ]

  -- The attribute's search neither ends out of range nor goes on for ever.
  pub attr-ne-none : OnAscii → (line key : Text) → IsAscii line → attr o line key ≢ none
  unfolding attr
  attr-ne-none keeps line key ok =
      attr_loop-ne-none keeps (suc (length line)) (o.upper key ++ codes "=") line ok (omega arith)
        (omega (arith, length-append (o.upper key) (codes "=")))

  take_media-ne-none :
      OnAscii → (line : Text) (l : Live F) → IsAscii line → take_media o line l ≢ none
  unfolding take_media
  take_media-ne-none keeps line l ok = ground (arith, attr-ne-none keeps line (codes "URI") ok)

  -- A line taken leaves `master` unset.
  take_line-ne-none :
      OnAscii → (line : Text) (l : Live F) → IsAscii line → take_line o line l ≢ none
  unfolding take_line
  take_line-ne-none keeps line l ok = ground (arith, take_media-ne-none keeps line l ok)

  -- What ParseLive may answer.
  abbrev Answered : LiveAnswer F → Type 0
  Answered broken_input = Unit
  Answered not_playlist = Unit
  Answered panicked = ⊥
  Answered (parsed p) = p.master ≡ true → p.segments ≡ []

  -- The loop leaves `master` unset.
  take_line-master :
      (line : Text) (l : Live F) {k : Live F}
      → l.playlist.master ≡ false
      → take_line o line l ≡ some k
      → k.playlist.master ≡ false
  unfolding take_line take_media take_date take_uri
  take_line-master line l h e = ground (arith, h, e)

  finish_live_lem :
      (resolve : Text → Text) (l : Live F)
      → l.playlist.master ≡ false
      → let p = finish_live o resolve l in p.master ≡ true → p.segments ≡ []
  unfolding finish_live
  finish_live_lem resolve l h = ground (arith, h)

  -- The loop's end: it is reached, with `master` unset.
  abbrev Walked : Option (Live F) → Type 0
  Walked none = ⊥
  Walked (some k) = k.playlist.master ≡ false

  taken :
      (raw : Text) (raws : List Text) (l : Live F) (t : Text)
      → o.trim_space raw ≡ t
      → Walked (take_lines o raws l)
      → IsAscii t
      → ((line : Text)
          → IsAscii line
          → (k : Live F) × (take_line o line l ≡ some k) × Walked (take_lines o raws k))
      → Walked (take_lines o (raw ∷ raws) l)
  unfolding take_lines
  taken raw raws l [] e skip ok next = rw (e, take_lines) skip
  taken raw raws l (c ∷ t) e skip ok next =
      let (k, q, h) = next (c ∷ t) ok in rw (e, take_lines, q) h

  take_lines-Walked :
      OnAscii
      → (raws : List Text) (l : Live F) → All IsAscii raws
      → l.playlist.master ≡ false
      → Walked (take_lines o raws l)
  unfolding take_lines
  take_lines-Walked keeps [] l all h = h
  take_lines-Walked keeps (raw ∷ raws) l (ok, all) h =
      taken raw raws l (o.trim_space raw) refl (take_lines-Walked keeps raws l all h)
        (keeps.trim_ascii raw ok)
        (λ line a. elim (Option-cases (take_line o line l)) [
          | inl e ↦ absurd (take_line-ne-none keeps line l a e)
          | inr (k, e) ↦ (k, e, take_lines-Walked keeps raws k all (take_line-master line l h e))
        ])

  parse_rest-Answered :
      OnAscii
      → (resolve : Text → Text) (broken : Bool) (raws : List Text) → All IsAscii raws
      → Answered (parse_rest o resolve broken raws)
  unfolding parse_rest
  parse_rest-Answered keeps resolve broken raws all =
      walked (take_lines o raws (no_live o)) refl
        (take_lines-Walked keeps raws (no_live o) all refl)
    where
      walked :
          (x : Option (Live F))
          → take_lines o raws (no_live o) ≡ x
          → Walked x
          → Answered (parse_rest o resolve broken raws)
      walked none e w = elim w [ ]
      walked (some l) e w =
          rw (e, parse_rest)
            (if_both Answered broken broken_input (parsed (finish_live o resolve l)) tt
              (finish_live_lem resolve l w))

  parse_live-Answered :
      OnAscii
      → (resolve : Text → Text) (broken : Bool) (raws : List Text) → All IsAscii raws
      → Answered (parse_live o resolve broken raws)
  unfolding parse_live
  parse_live-Answered keeps resolve broken [] all =
      if_both Answered broken broken_input not_playlist tt tt
  parse_live-Answered keeps resolve broken (raw ∷ raws) (ok, all) =
      first_line (o.trim_space raw) refl (parse_live-Answered keeps resolve broken raws all)
    where
      first_line :
          (t : Text)
          → o.trim_space raw ≡ t
          → Answered (parse_live o resolve broken raws)
          → Answered (parse_live o resolve broken (raw ∷ raws))
      first_line [] e skip = rw (e, parse_live) skip
      first_line (c ∷ t) e skip =
          rw (e, parse_live)
            (if_both Answered (has_prefix (c ∷ t) (codes "#EXTM3U"))
              (parse_rest o resolve broken raws) not_playlist
              (parse_rest-Answered keeps resolve broken raws all) tt)

  answer_of :
      (x : LiveAnswer F)
      → Answered x
      → (x ≡ broken_input)
        ⊎ (x ≡ not_playlist)
        ⊎ ((p : LivePlaylist F) × (x ≡ parsed p) × (p.master ≡ true → p.segments ≡ []))
  answer_of broken_input a = inl refl
  answer_of not_playlist a = inr (inl refl)
  answer_of panicked a = elim a [ ]
  answer_of (parsed p) a = inr (inr (p, refl, a))

  -- ParseLive is total on ASCII: whatever the lines of a source's playlist, as long as they have no
  -- byte above 127, it does not panic, and it answers that the input is broken, that it is no
  -- playlist, or with the playlist, which is a master only if it has no segments. The upper case of
  -- such a text is as long as the text, and TrimSpace brings in no other byte.
  pub parse_live-total :
      OnAscii
      → (resolve : Text → Text) (broken : Bool) (raws : List Text) → All IsAscii raws
      → (parse_live o resolve broken raws ≡ broken_input)
        ⊎ (parse_live o resolve broken raws ≡ not_playlist)
        ⊎ ((p : LivePlaylist F) × (parse_live o resolve broken raws ≡ parsed p)
            × (p.master ≡ true → p.segments ≡ []))
  parse_live-total keeps resolve broken raws all =
      answer_of (parse_live o resolve broken raws)
        (parse_live-Answered keeps resolve broken raws all)
