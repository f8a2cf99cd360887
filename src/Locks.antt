-- ===== src/Locks.antt =====
-- LOCKfunc and UNLOCKfunc of nntp-history.go: channels that count what runs.
mod Tests
pub mod Starts
use nntp_history.Prelude.{
  ℕ, zero, suc, ◌+◌, ◌-◌, Bool, true, false, List, [], ◌∷◌, Bytes, ltb, if◌then◌else◌,
}

-- A channel of a capacity, and how many elements it holds.
pub record Semaphore : Type 0 where
  pub cap : ℕ
  pub held : ℕ

-- LOCKfunc: false where the channel is full.
pub lock_func : Semaphore → Bool × Semaphore
lock_func l = if ltb l.held l.cap then (true, record l { held = l.held + 1 }) else (false, l)

-- UNLOCKfunc, which blocks on an empty channel: false.
unlock_held : ℕ → Semaphore → Bool × Semaphore
unlock_held zero l = (false, l)
unlock_held (suc n) l = (true, record l { held = n })

pub unlock_func : Semaphore → Bool × Semaphore
unfolding unlock_held
unlock_func l = unlock_held l.held l

-- The loop that starts a worker for every prefix, by what LOCKfunc says to each: the workers that run, with their
-- numbers. They are taken to reach their LOCKfunc in the order in which they are started.
with_lock : Bytes → ℕ → Bool → List (Bytes × ℕ) × Semaphore → List (Bytes × ℕ) × Semaphore
with_lock char i true (workers, l) = ((char, i) ∷ workers, l)
with_lock char i false (workers, l) = (workers, l)

pub start_workers : ℕ → List Bytes → Semaphore → List (Bytes × ℕ) × Semaphore
unfolding lock_func with_lock
start_workers i [] l = ([], l)
start_workers i (char ∷ chars) l =
    let (locked, l') = lock_func l in with_lock char i locked (start_workers (i + 1) chars l')
