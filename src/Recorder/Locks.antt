-- ===== src/Recorder/Locks.antt =====
-- internal/recorder/locks.go: keyedLocks. Mutexes are numbered in the order in which they are made.
-- A user is a call of lock between its turn at the table and that of its unlock; both turns are
-- atomic, since they hold k.mu. Waiting for the mutex itself is left to sync.Mutex.
use mathlib.Core.Path.{subst}
use spectado_stream_recorder.Common.{
  ℕ, ◌+◌, ◌-◌, ◌<◌, ◌≡◌, refl, sym, ap, ◌∙◌, ◌≢◌, ◌⊎◌, inl, inr, true, false, Option, none, some,
  List, [], ◌∷◌, ◌++◌, arith, ◌==◌, if◌then◌else◌, Bool-cases, Option-cases, if_cases, All, All-map,
  Apart,
}
use spectado_stream_recorder.Recorder.Reconcile.Stops.{if_true}
use spectado_stream_recorder.Common.Text.{Text, text_eq, text_eq_iff, text_eq_refl}

pub record User : Type 0 where
  pub key : Text
  pub mutex : ℕ

-- keyedLocks with its keyedLock objects, and who uses them.
pub record Locks : Type 0 where
  pub locks : Text → Option ℕ
  pub refs : ℕ → ℕ
  pub made : ℕ
  pub users : List User

abbrev pub no_locks : Locks
no_locks = record { locks = λ k. none; refs = λ m. 0; made = 0; users = [] }

unfoldable pub set_refs : ℕ → ℕ → Locks → Locks
set_refs m n k = record k { refs = λ o. if o == m then n else k.refs o }

unfoldable pub set_lock : Text → Option ℕ → Locks → Locks
set_lock key m k = record k { locks = λ t. if text_eq t key then m else k.locks t }

abbrev pub add_user : Text → ℕ → Locks → Locks
add_user key m k = record k { users = record { key = key; mutex = m } ∷ k.users }

-- lock, up to where it waits for the mutex.
unfoldable pub lock : Text → Locks → Locks
unfolding set_refs set_lock
lock key k = elim (k.locks key) [
  | some m ↦ add_user key m (set_refs m (k.refs m + 1) k)
  | none ↦
      add_user key k.made
        (set_refs k.made 1 (set_lock key (some k.made) (record k { made = k.made + 1 })))
]

-- The function that lock returns, behind its release of the mutex; `rest` are the other users.
unfoldable pub unlock : User → List User → Locks → Locks
unfolding set_refs set_lock
unlock u rest k =
    let n = k.refs u.mutex - 1 in
    let k1 : Locks = record (set_refs u.mutex n k) { users = rest } in
    if n == 0 then set_lock u.key none k1 else k1

-- A turn at the table.
pub data Turn : Locks → Locks → Type 0 where
  locks_key : (key : Text) (k : Locks) → Turn k (lock key k)
  unlocks_key :
      (before after : List User) (u : User) (k : Locks)
      → k.users ≡ before ++ u ∷ after
      → Turn k (unlock u (before ++ after) k)

pub data Turns : Locks → Type 0 where
  none_yet : Turns no_locks
  one_more : {j k : Locks} → Turns j → Turn j k → Turns k

abbrev count : ℕ → List User → ℕ
count m [] = 0
count m (u ∷ us) = (if u.mutex == m then 1 else 0) + count m us

count-append : (m : ℕ) (us vs : List User) → count m (us ++ vs) ≡ count m us + count m vs
count-append m [] vs = omega arith
count-append m (u ∷ us) vs = omega (arith, count-append m us vs)

-- The mutex that the table has for a user's key is the user's, the references are the users, and no
-- mutex is used before it is made.
pub record IsCounted (k : Locks) : Type 0 where
  pub listed : All (λ u. k.locks u.key ≡ some u.mutex) k.users
  pub counted : (m : ℕ) → k.refs m ≡ count m k.users
  pub older : All (λ u. u.mutex < k.made) k.users
  pub known : (key : Text) (m : ℕ) → k.locks key ≡ some m → m < k.made

count_older : (n : ℕ) (us : List User) → All (λ u. u.mutex < n) us → count n us ≡ 0
count_older n [] h = refl
count_older n (u ∷ us) (h, hs) = ground (arith, h, count_older n us hs)

-- The table behind a change of one key.
locks-set_lock_other :
    (key : Text) (v : Option ℕ) (t : Text) (k : Locks)
    → text_eq t key ≡ false
    → (set_lock key v k).locks t ≡ k.locks t
unfolding set_lock
locks-set_lock_other key v t k h = rw h refl

-- Two answers of the table at one key.
same_answer :
    (k : Locks) (t key : Text) (a b : Option ℕ)
    → text_eq t key ≡ true
    → k.locks t ≡ a
    → k.locks key ≡ b
    → a ≡ b
same_answer k t key a b h e f = sym e ∙ ap k.locks ((text_eq_iff t key).0 h) ∙ f

keeps_listed :
    (key : Text) (v : Option ℕ) (k : Locks)
    → k.locks key ≡ none
    → All (λ u. k.locks u.key ≡ some u.mutex) k.users
    → All (λ u. (set_lock key v k).locks u.key ≡ some u.mutex) k.users
keeps_listed key v k e h =
    All-map k.users
      (λ u l. elim (Bool-cases (text_eq u.key key)) [
        | inr b ↦ locks-set_lock_other key v u.key k b ∙ l
        | inl b ↦ let c = same_answer k u.key key (some u.mutex) none b l e in ground (arith, c)
      ])
      h

lock-IsCounted : (key : Text) (k : Locks) → IsCounted k → IsCounted (lock key k)
unfolding lock set_refs set_lock
lock-IsCounted key k ok = elim (Option-cases (k.locks key)) [
  | inr (m, e) ↦
      rw (e, lock)
        (record {
          listed = (e, ok.listed);
          counted = λ o. ground (arith, ok.counted o, ok.counted m);
          older = (ok.known key m e, ok.older);
          known = ok.known;
        })
  | inl e ↦
      rw (e, lock)
        (record {
          listed = (
            if_true (some k.made) (k.locks key) (text_eq_refl key),
            keeps_listed key (some k.made) k e ok.listed,
          );
          counted = λ o. ground (arith, ok.counted o, count_older k.made k.users ok.older);
          older = (omega arith, All-map k.users (λ u h. omega (arith, h)) ok.older);
          known = λ t m.
              if_cases (λ (a : Option ℕ). a ≡ some m → m < k.made + 1) (text_eq t key) (some k.made)
                (k.locks t) (λ b h. ground (arith, h))
                (λ b h. let l = ok.known t m h in omega (arith, l));
        })
]

All-without :
    (P : User → Type 0) (before after : List User) (u : User)
    → All P (before ++ u ∷ after)
    → P u × All P (before ++ after)
All-without P [] after u h = h
All-without P (v ∷ vs) after u (h, hs) = let (k, ks) = All-without P vs after u hs in (k, (h, ks))

count-zero : (m : ℕ) (us : List User) → count m us ≡ 0 → All (λ u. u.mutex ≢ m) us
count-zero m [] h = tt
count-zero m (u ∷ us) h = (ground (arith, h), count-zero m us (ground (arith, h)))

-- A key that is deleted is nobody's who uses another mutex.
delete_listed :
    (key : Text) (m : ℕ) (k : Locks) (us : List User)
    → k.locks key ≡ some m
    → All (λ u. k.locks u.key ≡ some u.mutex) us
    → All (λ u. u.mutex ≢ m) us
    → All (λ u. (set_lock key none k).locks u.key ≡ some u.mutex) us
delete_listed key m k [] e h z = tt
delete_listed key m k (u ∷ us) e (h, hs) (z, zs) = (
  (elim (Bool-cases (text_eq u.key key)) [
    | inr b ↦ locks-set_lock_other key none u.key k b ∙ h
    | inl b ↦ let c = same_answer k u.key key (some u.mutex) (some m) b h e in ground (arith, c, z)
  ]),
  delete_listed key m k us e hs zs,
)

unlock-IsCounted :
    (before after : List User) (u : User) (k : Locks)
    → k.users ≡ before ++ u ∷ after
    → IsCounted k
    → IsCounted (unlock u (before ++ after) k)
unfolding unlock set_refs
unlock-IsCounted before after u k e ok =
    let rest = before ++ after in
    let n = k.refs u.mutex - 1 in
    let k1 : Locks = record (set_refs u.mutex n k) { users = rest } in
    let (lu, lr) =
      All-without (λ v. k.locks v.key ≡ some v.mutex) before after u
        (subst (λ us. All (λ v. k.locks v.key ≡ some v.mutex) us) e ok.listed) in
    let (ou, or) =
      All-without (λ v. v.mutex < k.made) before after u
        (subst (λ us. All (λ v. v.mutex < k.made) us) e ok.older) in
    let total = λ (m : ℕ). ok.counted m ∙ ap (count m) e ∙ count-append m before (u ∷ after) in
    let kept = λ (m : ℕ). count-append m before after in
    let counted : (m : ℕ) → k1.refs m ≡ count m rest =
      λ m. ground (arith, total m, total u.mutex, kept m, kept u.mutex) in
    if_cases IsCounted (n == 0) (set_lock u.key none k1) k1
      (λ b.
        let zero_left : count u.mutex rest ≡ 0 = ground (arith, b, total u.mutex, kept u.mutex) in
        record {
          listed = delete_listed u.key u.mutex k1 rest lu lr (count-zero u.mutex rest zero_left);
          counted = counted;
          older = or;
          known = λ t m.
              if_cases (λ (a : Option ℕ). a ≡ some m → m < k.made) (text_eq t u.key) none
                (k.locks t) (λ c h. ground (arith, h)) (λ c h. ok.known t m h);
        })
      (λ b. record { listed = lr; counted = counted; older = or; known = ok.known })

Turn-IsCounted : {j k : Locks} → Turn j k → IsCounted j → IsCounted k
Turn-IsCounted (locks_key key k) ok = lock-IsCounted key k ok
Turn-IsCounted (unlocks_key before after u k e) ok = unlock-IsCounted before after u k e ok

Turns-IsCounted : {k : Locks} → Turns k → IsCounted k
Turns-IsCounted none_yet = record {
  listed = tt;
  counted = λ m. refl;
  older = tt;
  known = λ t m h. ground (arith, h);
}
Turns-IsCounted (one_more ts t) = Turn-IsCounted t (Turns-IsCounted ts)

-- Two users have different keys, or one mutex.
abbrev pub OneMutex : User → User → Type 0
OneMutex u v = (u.key ≢ v.key) ⊎ (u.mutex ≡ v.mutex)

listed-OneMutex :
    (k : Locks) (us : List User) → All (λ u. k.locks u.key ≡ some u.mutex) us → Apart OneMutex us
listed-OneMutex k [] h = tt
listed-OneMutex k (u ∷ us) (h, hs) = (
  All-map us
      (λ v l. elim (Bool-cases (text_eq u.key v.key)) [
        | inr b ↦ inl (λ e. ground (arith, b, e, text_eq_iff u.key v.key))
        | inl b ↦
            let c = same_answer k u.key v.key (some u.mutex) (some v.mutex) b h l in
            inr (ground (arith, c))
      ])
      hs,
  listed-OneMutex k us hs,
)

-- Whatever the order in which locks are taken and given back, any two users of one key, who wait for
-- its mutex or hold it, use the same mutex.
pub Turns-OneMutex : {k : Locks} → Turns k → Apart OneMutex k.users
Turns-OneMutex {k} ts = let ok = Turns-IsCounted ts in listed-OneMutex k k.users ok.listed
