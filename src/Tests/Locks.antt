-- ===== src/Tests/Locks.antt =====
-- internal/recorder/locks.go: two users of one key, and one that gives its lock back.
use spectado_stream_recorder.Common.{◌≡◌, refl, [], ◌∷◌, Apart}
use spectado_stream_recorder.Common.Text.{text_eq}
use spectado_stream_recorder.Recorder.Locks.{
  User, Locks, no_locks, lock, unlock, Turns, none_yet, one_more, locks_key, unlocks_key, OneMutex,
  Turns-OneMutex,
}

abbrev two_users : Locks
two_users = lock (107 ∷ []) (lock (107 ∷ []) no_locks)

abbrev second_user : User
second_user = record { key = 107 ∷ []; mutex = 0 }

two_users_held : two_users.users ≡ second_user ∷ second_user ∷ []
unfolding lock text_eq
two_users_held = refl

abbrev third : Locks
third = lock (107 ∷ []) (unlock second_user (second_user ∷ []) two_users)

third_order : Turns third
third_order =
    one_more
      (one_more
        (one_more (one_more none_yet (locks_key (107 ∷ []) no_locks))
          (locks_key (107 ∷ []) (lock (107 ∷ []) no_locks)))
        (unlocks_key [] (second_user ∷ []) second_user two_users two_users_held))
      (locks_key (107 ∷ []) (unlock second_user (second_user ∷ []) two_users))

Turns-OneMutex_example : Apart OneMutex third.users
Turns-OneMutex_example = Turns-OneMutex third_order
