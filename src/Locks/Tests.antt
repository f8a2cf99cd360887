-- ===== src/Locks/Tests.antt =====
-- LOCKfunc, UNLOCKfunc and the starting loop on channels with a place or two.
use nntp_history.Prelude.{true, false, List, [], ◌∷◌, Bytes, ◌≡◌, refl}
use nntp_history.Locks.{Semaphore, lock_func, unlock_func, unlock_held, start_workers, with_lock}

abbrev two_places : Semaphore
two_places = record { cap = 2; held = 0 }

abbrev three_chars : List Bytes
three_chars = (b'0' ∷ []) ∷ (b'1' ∷ []) ∷ (b'2' ∷ []) ∷ []

third_worker_ends :
    start_workers 0 three_chars two_places
    ≡ ((b'0' ∷ [], 0) ∷ (b'1' ∷ [], 1) ∷ [], record { cap = 2; held = 2 })
unfolding start_workers lock_func with_lock
third_worker_ends = refl

unlock_empty : unlock_func two_places ≡ (false, two_places)
unfolding unlock_func unlock_held
unlock_empty = refl

unlock_after_lock : unlock_func (record { cap = 2; held = 1 }) ≡ (true, two_places)
unfolding unlock_func unlock_held
unlock_after_lock = refl
