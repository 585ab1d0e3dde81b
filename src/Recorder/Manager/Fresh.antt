-- ===== src/Recorder/Manager/Fresh.antt =====
-- The search of startSessionLocked for a session id: it ends, and the id is free.
use spectado_stream_recorder.Common.{
  ℕ, zero, suc, ◌+◌, ◌≤◌, ◌<◌, ◌≡◌, refl, sym, ap, ◌∙◌, ◌≢◌, inl, inr, none, some, List, [], ◌∷◌,
  ◌++◌, arith, if◌then◌else◌, Bool-cases, Option-cases, length, drop, length-append,
  drop-length-append,
}
use spectado_stream_recorder.Common.Text.{Text, text_eq, text_eq_iff, codes}
use spectado_stream_recorder.Recorder.Session.{Session}
use spectado_stream_recorder.Recorder.Manager.{Texts, find_session, free_id}

abbrev numbered : Texts → Text → ℕ → Text
numbered texts base i = base ++ codes "-" ++ texts.itoa i

module _ (texts : Texts) (itoa-inj : (i j : ℕ) → texts.itoa i ≡ texts.itoa j → i ≡ j)
    (base : Text) where
  numbered-inj : (i j : ℕ) → numbered texts base i ≡ numbered texts base j → i ≡ j
  numbered-inj i j e =
      let tails : texts.itoa i ≡ texts.itoa j =
        sym (drop-length-append (base ++ codes "-") (texts.itoa i))
        ∙ ap (drop (length (base ++ codes "-"))) e
        ∙ drop-length-append (base ++ codes "-") (texts.itoa j) in
      itoa-inj i j tails

  numbered-ne-base : (j : ℕ) → numbered texts base j ≢ base
  numbered-ne-base j e =
      let same : length (base ++ codes "-" ++ texts.itoa j) ≡ length base = ap length e in
      omega (
        arith,
        same,
        length-append (base ++ codes "-") (texts.itoa j),
        length-append base (codes "-"),
      )

module _ {F : Type 0} where
  -- The table without the sessions of one id.
  without : Text → List (Session F) → List (Session F)
  without sid [] = []
  without sid (s ∷ ss) =
      let rest = without sid ss in if text_eq s.session_id sid then rest else s ∷ rest

  length-without_le : (sid : Text) (ss : List (Session F)) → length (without sid ss) ≤ length ss
  unfolding without
  length-without_le sid [] = omega arith
  length-without_le sid (s ∷ ss) = ground (arith, length-without_le sid ss)

  length-without :
      (sid : Text) (ss : List (Session F))
      → find_session sid ss ≢ none
      → length (without sid ss) < length ss
  unfolding without find_session
  length-without sid [] h = absurd (h refl)
  length-without sid (s ∷ ss) h = ground (arith, length-without_le sid ss, length-without sid ss)

  find_session-without :
      (sid t : Text) (ss : List (Session F))
      → t ≢ sid
      → find_session t (without sid ss) ≡ find_session t ss
  unfolding without find_session
  find_session-without sid t [] ne = refl
  find_session-without sid t (s ∷ ss) ne = elim (Bool-cases (text_eq s.session_id sid)) [
    | inl here ↦ elim (Bool-cases (text_eq s.session_id t)) [
      | inl both ↦
          absurd
            (ne (sym ((text_eq_iff s.session_id t).0 both) ∙ (text_eq_iff s.session_id sid).0 here))
      | inr other ↦ rw (here, other) (find_session-without sid t ss ne)
    ]
    | inr there ↦ rw there (ground (arith, find_session-without sid t ss ne))
  ]

  pub free_id_free :
      (fuel : ℕ) (texts : Texts) (base : Text) (i : ℕ) (sid : Text) (ss : List (Session F))
      {r : Text}
      → free_id fuel texts base i sid ss ≡ some r
      → find_session r ss ≡ none
  unfolding free_id
  free_id_free zero texts base i sid ss h = absurd cc
  free_id_free (suc fuel) texts base i sid ss {r} h = elim (Option-cases (find_session sid ss)) [
    | inl free ↦ ground (arith, free, h)
    | inr (s, taken) ↦
        free_id_free fuel texts base (i + 1) (base ++ codes "-" ++ texts.itoa i) ss
          (ground (arith, taken, h))
  ]

  module _ (texts : Texts) (itoa-inj : (i j : ℕ) → texts.itoa i ≡ texts.itoa j → i ≡ j)
      (base : Text) where
    search :
        (fuel i : ℕ) (sid : Text) (ss shadow : List (Session F))
        → (find_session sid ss ≢ none → find_session sid shadow ≢ none)
        → ((j : ℕ)
            → i ≤ j
            → find_session (numbered texts base j) ss ≢ none
            → find_session (numbered texts base j) shadow ≢ none)
        → ((j : ℕ) → i ≤ j → numbered texts base j ≢ sid)
        → length shadow < fuel
        → free_id fuel texts base i sid ss ≢ none
    unfolding free_id
    search zero i sid ss shadow here later apart l = absurd (omega arith)
    search (suc fuel) i sid ss shadow here later apart l =
        elim (Option-cases (find_session sid ss)) [
          | inl free ↦ ground (arith, free)
          | inr (s, taken) ↦
              let shown : find_session sid shadow ≢ none = here (λ e. cc) in
              let rest =
                search fuel (i + 1) (numbered texts base i) ss (without sid shadow)
                  (λ h e. later i (omega arith) h (
                    sym (
                      find_session-without sid (numbered texts base i) shadow
                        (apart i (omega arith)))
                    ∙ e))
                  (λ j le h e. later j (omega arith) h (
                    sym (
                      find_session-without sid (numbered texts base j) shadow
                        (apart j (omega arith)))
                    ∙ e))
                  (λ j le e. omega (arith, le, numbered-inj texts itoa-inj base j i e))
                  (omega (arith, l, length-without sid shadow shown)) in
              rw taken rest
        ]

    -- One try more than there are sessions is enough.
    pub free_id-ne-none :
        (ss : List (Session F)) → free_id (suc (length ss)) texts base 2 base ss ≢ none
    free_id-ne-none ss =
        search (suc (length ss)) 2 base ss ss (λ h. h) (λ j _ h. h)
          (λ j _. numbered-ne-base texts itoa-inj base j) (omega arith)
