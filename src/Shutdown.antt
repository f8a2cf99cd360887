-- ===== src/Shutdown.antt =====
-- The end of a history (CLOSE_HISTORY, hashDB_Index, hashDB_Worker and the nil object of history_Writer in
-- nntp-history.go) as steps of the goroutines, in any order.
pub mod Invariant
pub mod Phases
pub mod Good
pub mod Kept
pub mod Complete
pub mod Progress
pub mod Closes
mod Tests
use nntp_history.Prelude.{
  ℕ, suc, ◌+◌, ◌<◌, Bool, true, false, List, [], ◌∷◌, ◌++◌, ◌≡◌, ◌≢◌, All, replicate, length, ◌==◌,
  if◌then◌else◌,
}

-- What is in a channel of the index: nil, or a request, by a number that stands for it.
pub data Item : Type 0 where
  nil_pointer : Item
  request : ℕ → Item

-- A hashDB_Worker, which runs as long as it holds its place in HISTORY_INDEX_LOCK16, and its channel.
pub record Worker : Type 0 where
  pub running : Bool
  pub chan : List Item

-- `writer_on` says that history_Writer has not sent its nil, behind which it frees LOCKHISTORY; `index_on` is
-- HISTORY_INDEX_LOCK. `queue` is IndexChan, and `closed` whether it was closed. A goroutine of hashDB_Index waits at
-- IndexChan (`idle` counts these), holds a request for its worker (`held`), or has received nil and not yet passed it on
-- (`passing`). `sent` counts the workers that were sent nil. `accepted` are the requests that were sent before the nil of
-- the writer, `late` those behind it, `handled` what workers did. `panicked` tells of a send on the closed channel,
-- which ends the program.
pub record State : Type 0 where
  pub writer_on : Bool
  pub queue : List Item
  pub closed : Bool
  pub panicked : Bool
  pub idle : ℕ
  pub held : List ℕ
  pub passing : ℕ
  pub index_on : Bool
  pub sent : ℕ
  pub workers : List Worker
  pub accepted : List ℕ
  pub late : List ℕ
  pub handled : List ℕ

-- The capacity of a worker's channel
abbrev pub chan_cap : ℕ
chan_cap = 16

-- The worker with something behind in its channel.
abbrev pub sent_to : Item → Worker → Worker
sent_to x w = record w { chan = w.chan ++ x ∷ [] }

-- The condition on which CLOSE_HISTORY leaves its loop: the program runs, and no lock is held.
pub record IsStopped (s : State) : Type 0 where
  pub runs : s.panicked ≡ false
  pub no_writer : s.writer_on ≡ false
  pub no_index : s.index_on ≡ false
  pub no_worker : All (λ w. w.running ≡ false) s.workers

-- `route` is the worker that hashDB_Index chooses, `par` is indexPar and `cap` the capacity of IndexChan.
module _ (route : ℕ → ℕ) (par cap : ℕ) where
  pub data Step (s t : State) : Type 0 where
    -- A client or the writer sends a request,
    arrives :
        (r : ℕ)
        → s.writer_on ≡ true
        → length s.queue < cap
        → t ≡ record s { queue = s.queue ++ request r ∷ []; accepted = r ∷ s.accepted }
        → Step s t
    -- also a client behind the nil of the writer,
    arrives_late :
        (r : ℕ)
        → s.writer_on ≡ false
        → s.closed ≡ false
        → length s.queue < cap
        → t ≡ record s { queue = s.queue ++ request r ∷ []; late = s.late ++ r ∷ [] }
        → Step s t
    -- which panics when IndexChan was closed.
    sends_on_closed :
        s.closed ≡ true → s.panicked ≡ false → t ≡ record s { panicked = true } → Step s t
    -- The writer received nil from CLOSE_HISTORY, sends one to the index and ends.
    writer_ends :
        s.writer_on ≡ true
        → length s.queue < cap
        → t ≡ record s { queue = s.queue ++ nil_pointer ∷ []; writer_on = false }
        → Step s t
    -- A goroutine of hashDB_Index receives a request,
    receives :
        (i r : ℕ) (q : List Item)
        → s.idle ≡ suc i
        → s.queue ≡ request r ∷ q
        → t ≡ record s { queue = q; idle = i; held = r ∷ s.held }
        → Step s t
    -- hands it to its worker,
    hands_on :
        (r : ℕ) (xs ys : List ℕ) (ws vs : List Worker) (w : Worker)
        → s.held ≡ xs ++ r ∷ ys
        → s.workers ≡ ws ++ w ∷ vs
        → length ws ≡ route r
        → length w.chan < chan_cap
        → t ≡ record s {
          held = xs ++ ys;
          idle = s.idle + 1;
          workers = ws ++ sent_to (request r) w ∷ vs;
        }
        → Step s t
    -- or receives nil,
    gets_nil :
        (i : ℕ) (q : List Item)
        → s.idle ≡ suc i
        → s.queue ≡ nil_pointer ∷ q
        → t ≡ record s { queue = q; idle = i; passing = s.passing + 1 }
        → Step s t
    -- which one of several sends to the others, as soon as there is room, and ends;
    passes_on :
        (k : ℕ)
        → par ≢ 1
        → s.passing ≡ suc k
        → length s.queue < cap
        → t ≡ record s { queue = s.queue ++ nil_pointer ∷ []; passing = k }
        → Step s t
    -- one that is alone closes IndexChan and ends.
    closes_chan :
        (k : ℕ)
        → par ≡ 1
        → s.passing ≡ suc k
        → t ≡ record s { closed = true; passing = k }
        → Step s t
    -- When all of them ended, hashDB_Index sends nil to one worker after the other,
    sends_nil :
        (ws vs : List Worker) (w : Worker)
        → s.index_on ≡ true
        → s.idle ≡ 0
        → s.held ≡ []
        → s.passing ≡ 0
        → s.workers ≡ ws ++ w ∷ vs
        → length ws ≡ s.sent
        → length w.chan < chan_cap
        → t ≡ record s { workers = ws ++ sent_to nil_pointer w ∷ vs; sent = s.sent + 1 }
        → Step s t
    -- and ends.
    index_ends :
        s.index_on ≡ true
        → s.idle ≡ 0
        → s.held ≡ []
        → s.passing ≡ 0
        → s.sent ≡ length s.workers
        → t ≡ record s { index_on = false }
        → Step s t
    -- A worker handles a request,
    handles :
        (ws vs : List Worker) (w : Worker) (r : ℕ) (c : List Item)
        → s.workers ≡ ws ++ w ∷ vs
        → w.running ≡ true
        → w.chan ≡ request r ∷ c
        → t ≡ record s { workers = ws ++ record w { chan = c } ∷ vs; handled = r ∷ s.handled }
        → Step s t
    -- or receives nil and ends.
    worker_ends :
        (ws vs : List Worker) (w : Worker) (c : List Item)
        → s.workers ≡ ws ++ w ∷ vs
        → w.running ≡ true
        → w.chan ≡ nil_pointer ∷ c
        → t ≡ record s { workers = ws ++ record w { running = false; chan = c } ∷ vs }
        → Step s t

  -- A booted history with so many workers, and what its goroutines come to.
  abbrev pub running_history : ℕ → State
  running_history n = record {
    writer_on = true;
    queue = [];
    closed = false;
    panicked = false;
    idle = par;
    held = [];
    passing = 0;
    index_on = true;
    sent = 0;
    workers = replicate n (record { running = true; chan = [] });
    accepted = [];
    late = [];
    handled = [];
  }

  pub data Reach (s : State) : State → Type 0 where
    here : Reach s s
    next : {t u : State} → Reach s t → Step t u → Reach s u
