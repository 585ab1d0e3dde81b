-- ===== src/Storage/Metadata.antt =====
-- What SanitizeMetadata keeps.
use spectado_stream_recorder.Common.{
  ℕ, zero, suc, ◌+◌, ◌*◌, ◌/◌, ◌≤◌, ◌<◌, max, ◌≡◌, refl, ap, ◌≢◌, ◌⊎◌, inl, inr, Bool, true, false,
  not, ◌&&◌, ◌||◌, none, List, [], ◌∷◌, arith, ltb, if◌then◌else◌, Option-cases, if_both, if_cases,
  option_both, length, length-take,
}
use spectado_stream_recorder.Common.Text.{Text, text_eq_refl, is_empty}
use spectado_stream_recorder.Schedule.Document.{find_key}
use spectado_stream_recorder.Storage.{
  Library, is_reserved, rune_cut, truncate_utf8, shrink, reserved_value_max, value_max, budget,
  sanitize_key, sanitize_value, Built, value_cap, put_value, add_value, add_entry, add_entries,
  nothing_built, sanitize_metadata,
}

rune_cut-le : (s : Text) (n : ℕ) → rune_cut s n ≤ n
unfolding rune_cut
rune_cut-le s zero = omega arith
rune_cut-le s (suc n) = ground (arith, rune_cut-le s n)

length-truncate_utf8 : (s : Text) (most : ℕ) → length (truncate_utf8 s most) ≤ most
unfolding truncate_utf8
length-truncate_utf8 s most = ground (arith, rune_cut-le s most, length-take (rune_cut s most) s)

or_not : (a b : Bool) → a ≡ false → b ≡ true → a || not b ≡ false
or_not a b h k = ground (arith, h, k)

or_right : (a b : Bool) → a || not false && b ≡ false → b ≡ false
or_right a b h = ground (arith, h)

module _ (o : Library) where
  -- The form that sanitizeValue ends with: the encoding of a text that is no longer, and that fits
  -- or has eight bytes at most.
  pub record Shrunk (most : ℕ) (plain result : Text) : Type 0 where
    pub source : Text
    pub result_of : result ≡ o.encode_word source
    pub no_longer : length source ≤ length plain
    pub fits : (length result ≤ 2 * most) ⊎ (length source ≤ 8)

  -- The loop of sanitizeValue ends, with as many rounds as there are bytes at most.
  pub shrink-Shrunk :
      (fuel most : ℕ) (plain : Text)
      → length plain ≤ fuel + 8
      → Shrunk most plain (shrink o fuel most plain)
  unfolding shrink
  shrink-Shrunk zero most plain h = record {
    source = plain;
    result_of = refl;
    no_longer = omega arith;
    fits = inr h;
  }
  shrink-Shrunk (suc fuel) most plain h =
      let cut = truncate_utf8 plain (length plain * 3 / 4) in
      let l = length-truncate_utf8 plain (length plain * 3 / 4) in
      if_cases (Shrunk most plain)
        (ltb (2 * most) (length (o.encode_word plain)) && ltb 8 (length plain))
        (shrink o fuel most cut) (o.encode_word plain)
        (λ e.
          let long : 8 < length plain = ground (arith, e) in
          let k = shrink-Shrunk fuel most cut (omega (arith, l, long, h)) in
          record {
            source = k.source;
            result_of = k.result_of;
            no_longer = omega (arith, k.no_longer, l);
            fits = k.fits;
          })
        (λ e. record {
          source = plain;
          result_of = refl;
          no_longer = omega arith;
          fits = ground (arith, e);
        })

  abbrev pub Has : Text → Built o → Type 0
  Has k b = find_key k b.out ≢ none

  -- The size is that of the entries.
  abbrev pub size_of : List (Text × Text) → ℕ
  size_of [] = 0
  size_of ((k, v) ∷ m) = size_of m + (length k + length v)

  -- What is put stays, and the total is the size of what was put.
  record Grows (b c : Built o) : Type 0 where
    stays : (k : Text) → Has k b → Has k c
    sized : b.total ≡ size_of b.out → c.total ≡ size_of c.out

  same_Grows : (b : Built o) → Grows b b
  same_Grows b = record { stays = λ k h. h; sized = λ h. h }

  put_value-Grows : (k v : Text) (b : Built o) → Grows b (put_value o k v b)
  unfolding find_key
  put_value-Grows k v b = record {
    stays = λ j h. ground (arith, h);
    sized = λ h. ap (λ n. n + (length k + length v)) h;
  }

  add_value-Grows :
      (reserved : Bool) (k v : Text) (b : Built o) → Grows b (add_value o reserved k v b)
  unfolding add_value
  add_value-Grows reserved k v b =
      let full = is_empty v || not reserved && ltb budget (b.total + length k + length v) in
      option_both (Grows b) (find_key k b.out) (if full then b else put_value o k v b) (λ w. b)
        (if_both (Grows b) full b (put_value o k v b) (same_Grows b) (put_value-Grows k v b))
        (λ w. same_Grows b)

  add_entry-Grows :
      (reserved : Bool) (e : Text × Text) (b : Built o) → Grows b (add_entry o reserved e b)
  unfolding add_entry
  add_entry-Grows reserved (orig, value) b =
      let k = sanitize_key o orig in
      let mine = if reserved then is_reserved k else not (is_reserved k) in
      let v = sanitize_value o value (value_cap o reserved) in
      if_both (Grows b) (is_empty k || not mine) b (add_value o reserved k v b) (same_Grows b)
        (add_value-Grows reserved k v b)

  add_entries-Grows :
      (reserved : Bool) (es : List (Text × Text)) (b : Built o)
      → Grows b (add_entries o reserved es b)
  unfolding add_entries
  add_entries-Grows reserved [] b = same_Grows b
  add_entries-Grows reserved (e ∷ es) b =
      let one = add_entry-Grows reserved e b in
      let more = add_entries-Grows reserved es (add_entry o reserved e b) in
      record { stays = λ k h. more.stays k (one.stays k h); sized = λ h. more.sized (one.sized h) }

  -- The entry is one of the input's.
  abbrev pub IsEntry : Text → Text → List (Text × Text) → Type 0
  IsEntry k v [] = ⊥
  IsEntry k v ((j, w) ∷ es) = ((j ≡ k) × (w ≡ v)) ⊎ IsEntry k v es

  add_value-Has : (k v : Text) (b : Built o) → is_empty v ≡ false → Has k (add_value o true k v b)
  unfolding add_value find_key
  add_value-Has k v b full = elim (Option-cases (find_key k b.out)) [
    | inl e ↦ rw (e, add_value, full, text_eq_refl k) (λ q. cc (q))
    | inr (w, e) ↦ rw (e, add_value) (λ q. cc (q, e))
  ]

  -- A reserved entry with a value is put, or another with its key was.
  add_entry-reserved :
      (orig value : Text) (b : Built o)
      → is_empty (sanitize_key o orig) ≡ false
      → is_reserved (sanitize_key o orig) ≡ true
      → is_empty (sanitize_value o value reserved_value_max) ≡ false
      → Has (sanitize_key o orig) (add_entry o true (orig, value) b)
  unfolding add_entry
  add_entry-reserved orig value b set mine full =
      let k = sanitize_key o orig in
      let v = sanitize_value o value reserved_value_max in
      if_cases (Has k) (is_empty k || not (is_reserved k)) b (add_value o true k v b)
        (λ e. cc (e, or_not _ _ set mine)) (λ e. add_value-Has k v b full)

  add_entries-reserved :
      (orig value : Text) (es : List (Text × Text)) (b : Built o)
      → IsEntry orig value es
      → is_empty (sanitize_key o orig) ≡ false
      → is_reserved (sanitize_key o orig) ≡ true
      → is_empty (sanitize_value o value reserved_value_max) ≡ false
      → Has (sanitize_key o orig) (add_entries o true es b)
  unfolding add_entries
  add_entries-reserved orig value [] b m set mine full = elim m [ ]
  add_entries-reserved orig value ((j, w) ∷ es) b (inl (ej, ew)) set mine full =
      (add_entries-Grows true es (add_entry o true (j, w) b)).stays (sanitize_key o orig)
        (rw (ej, ew) (add_entry-reserved orig value b set mine full))
  add_entries-reserved orig value (e ∷ es) b (inr m) set mine full =
      add_entries-reserved orig value es (add_entry o true e b) m set mine full

  -- The merge manifest survives: a reserved key of the input whose value is not empty once it is
  -- sanitized is in the metadata that is sent, whatever else there is and however long it is.
  pub sanitize_metadata-reserved :
      (orig value : Text) (es : List (Text × Text))
      → IsEntry orig value es
      → is_empty (sanitize_key o orig) ≡ false
      → is_reserved (sanitize_key o orig) ≡ true
      → is_empty (sanitize_value o value reserved_value_max) ≡ false
      → Has (sanitize_key o orig) (sanitize_metadata o es)
  unfolding sanitize_metadata
  sanitize_metadata-reserved orig value es m set mine full =
      let first = add_entries o true es (nothing_built o) in
      (add_entries-Grows false es first).stays (sanitize_key o orig)
        (add_entries-reserved orig value es (nothing_built o) m set mine full)

  within_budget :
      (k v : Text) (b : Built o) (n : ℕ)
      → ltb budget (b.total + length k + length v) ≡ false
      → b.total + (length k + length v) ≤ max budget n
  within_budget k v b n e = ground (arith, e)

  add_entry-budget :
      (e : Text × Text) (b : Built o) (n : ℕ)
      → b.total ≤ max budget n
      → (add_entry o false e b).total ≤ max budget n
  unfolding add_entry add_value
  add_entry-budget (orig, value) b n h =
      let k = sanitize_key o orig in
      let v = sanitize_value o value value_max in
      let full = is_empty v || not false && ltb budget (b.total + length k + length v) in
      if_both (λ (c : Built o). c.total ≤ max budget n) (is_empty k || not (not (is_reserved k))) b
        (add_value o false k v b) h
        (option_both (λ (c : Built o). c.total ≤ max budget n) (find_key k b.out)
          (if full then b else put_value o k v b) (λ w. b)
          (if_cases (λ (c : Built o). c.total ≤ max budget n) full b (put_value o k v b) (λ e. h)
            (λ e. within_budget k v b n (or_right _ _ e)))
          (λ w. h))

  add_entries-budget :
      (es : List (Text × Text)) (b : Built o) (n : ℕ)
      → b.total ≤ max budget n
      → (add_entries o false es b).total ≤ max budget n
  unfolding add_entries
  add_entries-budget [] b n h = h
  add_entries-budget (e ∷ es) b n h =
      add_entries-budget es (add_entry o false e b) n (add_entry-budget e b n h)

  -- The metadata takes 1800 bytes at most, unless the reserved entries alone take more; then nothing
  -- is put beside them that takes a byte.
  pub sanitize_metadata-budget :
      (es : List (Text × Text))
      → size_of (sanitize_metadata o es).out
        ≤ max budget (size_of (add_entries o true es (nothing_built o)).out)
  unfolding sanitize_metadata
  sanitize_metadata-budget es =
      let first = add_entries o true es (nothing_built o) in
      let g = add_entries-Grows true es (nothing_built o) in
      let s : first.total ≡ size_of first.out = g.sized refl in
      let t = (add_entries-Grows false es first).sized s in
      omega (arith, s, t, add_entries-budget es first (size_of first.out) (omega (arith, s)))
