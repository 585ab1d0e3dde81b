-- ===== src/Common/Text.antt =====
-- Texts as lists of code points (bytes, where they are ASCII), with the tests and cuts of Go's
-- package strings that the program uses. `to_lower` is strings.ToLower of the letters whose lower case
-- is ASCII: the ASCII letters, the dotted capital i (304) and the sign of the kelvin (8490). The other
-- letters stay as they are: what is in lower case is compared with ASCII texts alone.
use Prim.Native.Char.{code}
use Prim.Native.String.{String}
use spectado_stream_recorder.Common.{
  ℕ, ◌+◌, ◌-◌, ◌≡◌, refl, ◌↔◌, ◌⊎◌, inl, inr, Bool, true, false, ◌&&◌, ◌||◌, List, [], ◌∷◌, ◌++◌,
  arith, leb, ◌==◌, if◌then◌else◌, length, take, drop, zero, suc, ◌≤◌, sym, length-append,
  length-drop, drop-drop,
}

abbrev pub Text : Type 0
Text = List ℕ

-- The code points of a literal.
abbrev pub codes : String → Text
codes String.[] = []
codes (String.◌∷◌ c s) = code c ∷ codes s

unfoldable pub text_eq : Text → Text → Bool
text_eq [] [] = true
text_eq (a ∷ s) (b ∷ t) = a == b && text_eq s t
text_eq [] (b ∷ t) = false
text_eq (a ∷ s) [] = false

pub text_eq_iff : (s t : Text) → (text_eq s t ≡ true) ↔ (s ≡ t)
unfolding text_eq
text_eq_iff [] [] = ground arith
text_eq_iff (a ∷ s) (b ∷ t) = ground (arith, text_eq_iff s t)
text_eq_iff [] (b ∷ t) = ground arith
text_eq_iff (a ∷ s) [] = ground arith

pub text_eq_refl : (s : Text) → text_eq s s ≡ true
text_eq_refl s = (text_eq_iff s s).1 refl

-- strings.HasPrefix
unfoldable pub has_prefix : Text → Text → Bool
has_prefix s [] = true
has_prefix [] (b ∷ t) = false
has_prefix (a ∷ s) (b ∷ t) = a == b && has_prefix s t

-- strings.HasSuffix
unfoldable pub has_suffix : Text → Text → Bool
unfolding text_eq
has_suffix s t = leb (length t) (length s) && text_eq (drop (length s - length t) s) t

-- strings.TrimSuffix
unfoldable pub trim_suffix : Text → Text → Text
unfolding has_suffix
trim_suffix s t = if has_suffix s t then take (length s - length t) s else s

lower_code : ℕ → ℕ
lower_code c =
    if leb b'A' c && leb c b'Z'
    then c + 32
    else if c == 304
    then b'i'
    else if c == 8490
    then b'k'
    else c

unfoldable pub to_lower : Text → Text
unfolding lower_code
to_lower [] = []
to_lower (c ∷ s) = lower_code c ∷ to_lower s

-- The letters dropped from the left while `test` holds.
unfoldable pub trim_left : (ℕ → Bool) → Text → Text
trim_left test [] = []
trim_left test (c ∷ s) = let rest = trim_left test s in if test c then rest else c ∷ s

-- The letters dropped from the right while `test` holds.
unfoldable pub trim_right : (ℕ → Bool) → Text → Text
trim_right test [] = []
trim_right test (c ∷ s) = elim (trim_right test s) [
  | [] ↦ if test c then [] else c ∷ []
  | d ∷ t ↦ c ∷ d ∷ t
]

-- strings.Trim, by a test of the cut set.
unfoldable pub trim : (ℕ → Bool) → Text → Text
unfolding trim_left trim_right
trim test s = trim_right test (trim_left test s)

pub eq_of_text_eq : (s t : Text) → text_eq s t ≡ true → s ≡ t
eq_of_text_eq s t h = (text_eq_iff s t).0 h

abbrev pub Listed : Text → List Text → Type 0
Listed t [] = ⊥
Listed t (u ∷ us) = (u ≡ t) ⊎ Listed t us

pub Listed-append_left : (t : Text) (us vs : List Text) → Listed t us → Listed t (us ++ vs)
Listed-append_left t [] vs h = elim h [ ]
Listed-append_left t (u ∷ us) vs (inl e) = inl e
Listed-append_left t (u ∷ us) vs (inr h) = inr (Listed-append_left t us vs h)

pub Listed-append_right : (t : Text) (us vs : List Text) → Listed t vs → Listed t (us ++ vs)
Listed-append_right t [] vs h = h
Listed-append_right t (u ∷ us) vs h = inr (Listed-append_right t us vs h)

-- strings.Contains
unfoldable pub contains : Text → Text → Bool
unfolding has_prefix
contains [] t = has_prefix [] t
contains (c ∷ s) t = has_prefix (c ∷ s) t || contains s t

abbrev pub is_empty : Text → Bool
is_empty [] = true
is_empty (c ∷ s) = false

-- The tail of a list, `n` elements at most.
abbrev pub last_of {ℓ} : {A : Type ℓ} → ℕ → List A → List A
last_of n xs = drop (length xs - n) xs

drop-append {ℓ} :
    {A : Type ℓ} (n : ℕ) (xs ys : List A) → n ≤ length xs → drop n (xs ++ ys) ≡ drop n xs ++ ys
drop-append zero xs ys h = refl
drop-append (suc n) [] ys h = absurd (omega (arith, h))
drop-append (suc n) (x ∷ xs) ys h = drop-append n xs ys (omega (arith, h))

-- To keep the last of a list and of one more element, its own last are enough.
pub last_of-append {ℓ} :
    {A : Type ℓ} (n : ℕ) (xs : List A) (y : A)
    → last_of n (last_of n xs ++ (y ∷ [])) ≡ last_of n (xs ++ (y ∷ []))
last_of-append n xs y =
    let over = length xs - n in
    let e : over + (length (drop over (xs ++ (y ∷ []))) - n) ≡ length (xs ++ (y ∷ [])) - n =
      omega (arith, length-drop over (xs ++ (y ∷ [])), length-append xs (y ∷ [])) in
    rw
      (
        sym (drop-append over xs (y ∷ []) (omega arith)),
        drop-drop (length (drop over (xs ++ (y ∷ []))) - n) over (xs ++ (y ∷ [])),
        e,
      )
      refl
