-- ===== src/Schedule/Parsing/Holds.antt =====
-- What a value has that is parsed, step by step.
use spectado_stream_recorder.Common.{◌≡◌, refl, Bool, true, false}
use spectado_stream_recorder.Common.Text.{Text}
use spectado_stream_recorder.Schedule.Decoding.{Decoded, good, bad, ◌>>=◌, ◌>>◌, demand, within}

-- If there is a value, it has the property.
pub data Holds {ℓ κ} {A : Type ℓ} (P : A → Type κ) : Decoded A → Type (ℓ ⊔ κ) where
  value : {a : A} → P a → Holds P (good a)
  refusal : {why : Text} → Holds P (bad why)

pub held {ℓ κ} : {A : Type ℓ} (P : A → Type κ) (a : A) → Holds P (good a) → P a
held P a (value h) = h

pub Holds-bind {ℓ κ μ ν} :
    {A : Type ℓ} {B : Type κ} {P : A → Type μ} {Q : B → Type ν} {m : Decoded A} {f : A → Decoded B}
    → Holds P m
    → ((a : A) → P a → Holds Q (f a))
    → Holds Q (m >>= f)
unfolding ◌>>=◌
Holds-bind (value {a} h) k = k a h
Holds-bind refusal k = refusal

-- A step of which nothing is known.
pub Holds-any {ℓ κ ν} :
    {A : Type ℓ} {B : Type κ} {Q : B → Type ν} (m : Decoded A) {f : A → Decoded B}
    → ((a : A) → Holds Q (f a))
    → Holds Q (m >>= f)
unfolding ◌>>=◌
Holds-any (good a) k = k a
Holds-any (bad why) k = refusal

pub Holds-demand {κ ν} :
    {B : Type κ} {Q : B → Type ν} (test : Bool) (why : Text) {m : Decoded B}
    → (test ≡ true → Holds Q m)
    → Holds Q (demand test why >> m)
unfolding demand ◌>>◌ ◌>>=◌
Holds-demand true why k = k refl
Holds-demand false why k = refusal

pub Holds-then {κ μ ν} :
    {B : Type κ} {P : Type μ} {Q : B → Type ν} {m : Decoded Unit} {k : Decoded B}
    → Holds (λ u. P) m
    → (P → Holds Q k)
    → Holds Q (m >> k)
unfolding ◌>>◌ ◌>>=◌
Holds-then (value h) f = f h
Holds-then refusal f = refusal

pub Holds-within {ℓ κ} :
    {A : Type ℓ} {P : A → Type κ} (what : Text) {m : Decoded A}
    → Holds P m
    → Holds P (within what m)
unfolding within
Holds-within what (value h) = value h
Holds-within what refusal = refusal

pub Holds-map {ℓ κ μ} :
    {A : Type ℓ} {P : A → Type κ} {Q : A → Type μ} {m : Decoded A}
    → Holds P m
    → ((a : A) → P a → Q a)
    → Holds Q m
Holds-map (value {a} h) f = value (f a h)
Holds-map refusal f = refusal
