-- ===== src/Locks/Starts.antt =====
-- Which workers run: all of them where there is room, none where the channel is full.
use nntp_history.Prelude.{
  ℕ, ◌+◌, ◌≤◌, true, false, List, [], ◌∷◌, ◌≡◌, refl, ap, arith, Bytes, lt→ltb, le→ltb, length,
}
use nntp_history.Locks.{Semaphore, lock_func, start_workers, with_lock}

-- Every prefix with its number.
abbrev pub enumerated : ℕ → List Bytes → List (Bytes × ℕ)
enumerated i [] = []
enumerated i (char ∷ chars) = (char, i) ∷ enumerated (i + 1) chars

pub start_workers_room :
    (i : ℕ) (chars : List Bytes) (l : Semaphore)
    → l.held + length chars ≤ l.cap
    → start_workers i chars l ≡ (enumerated i chars, record l { held = l.held + length chars })
unfolding start_workers lock_func with_lock
start_workers_room i [] l h = ap (λ n. ([], record l { held = n })) (omega arith)
start_workers_room i (char ∷ chars) l h =
    rw
      (
        lt→ltb l.held l.cap (omega arith),
        start_workers_room (i + 1) chars (record l { held = l.held + 1 }) (omega arith),
      )
      (ap (λ n. ((char, i) ∷ enumerated (i + 1) chars, record l { held = n })) (omega arith))

pub start_workers_full :
    (i : ℕ) (chars : List Bytes) (l : Semaphore)
    → l.cap ≤ l.held
    → start_workers i chars l ≡ ([], l)
unfolding start_workers lock_func with_lock
start_workers_full i [] l h = refl
start_workers_full i (char ∷ chars) l h =
    rw (le→ltb l.held l.cap h) (start_workers_full (i + 1) chars l h)

-- A lock with one place is taken once.
pub first_lock : lock_func (record { cap = 1; held = 0 }) ≡ (true, record { cap = 1; held = 1 })
unfolding lock_func
first_lock = refl

pub second_lock : lock_func (record { cap = 1; held = 1 }) ≡ (false, record { cap = 1; held = 1 })
unfolding lock_func
second_lock = refl
