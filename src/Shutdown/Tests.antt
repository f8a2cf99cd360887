-- ===== src/Shutdown/Tests.antt =====
-- One request on its way through an index with one goroutine and one worker, a late one behind it, and the end.
use nntp_history.Prelude.{ℕ, ◌+◌, ◌≤◌, ◌<◌, true, false, List, [], ◌∷◌, ◌≡◌, refl, arith}
use nntp_history.Shutdown.{
  Item, nil_pointer, request, Worker, State, Step, Reach, here, next, arrives, arrives_late,
  writer_ends, receives, hands_on, gets_nil, closes_chan, sends_nil, index_ends, handles,
  worker_ends, running_history, IsStopped,
}
use nntp_history.Shutdown.Invariant.{count, count_items}
use nntp_history.Shutdown.Complete.{every_request_is_handled}
use nntp_history.Shutdown.Closes.{shutdown_ends, Step-lt, to_do}

abbrev only_one : ℕ → ℕ
only_one r = 0

abbrev worker : List Item → Worker
worker chan = record { running = true; chan = chan }

abbrev accepted_one : State
accepted_one = record (running_history only_one 1 4 1) { queue = request 5 ∷ []; accepted = 5 ∷ [] }

abbrev writer_ended : State
writer_ended = record accepted_one { queue = request 5 ∷ nil_pointer ∷ []; writer_on = false }

abbrev closing_one : State
closing_one = record writer_ended {
  queue = request 5 ∷ nil_pointer ∷ request 6 ∷ [];
  late = 6 ∷ [];
}

closing_one-Reach : Reach only_one 1 4 (running_history only_one 1 4 1) closing_one
closing_one-Reach =
    next {t = writer_ended}
      (next {t = accepted_one} (next here (arrives 5 refl (omega arith) refl))
        (writer_ends refl (omega arith) refl))
      (arrives_late 6 refl refl (omega arith) refl)

abbrev held_one : State
held_one = record closing_one { queue = nil_pointer ∷ request 6 ∷ []; idle = 0; held = 5 ∷ [] }

takes_it : Step only_one 1 4 closing_one held_one
takes_it = receives 0 5 (nil_pointer ∷ request 6 ∷ []) refl refl refl

abbrev handed_on : State
handed_on = record held_one { held = []; idle = 1; workers = worker (request 5 ∷ []) ∷ [] }

abbrev handled_one : State
handled_one = record handed_on { workers = worker [] ∷ []; handled = 5 ∷ [] }

abbrev got_nil : State
got_nil = record handled_one { queue = request 6 ∷ []; idle = 0; passing = 1 }

abbrev no_goroutine : State
no_goroutine = record got_nil { closed = true; passing = 0 }

abbrev sent_nil : State
sent_nil = record no_goroutine { workers = worker (nil_pointer ∷ []) ∷ []; sent = 1 }

abbrev no_index : State
no_index = record sent_nil { index_on = false }

abbrev all_ended : State
all_ended = record no_index { workers = record { running = false; chan = [] } ∷ [] }

all_ended-Reach : Reach only_one 1 4 (running_history only_one 1 4 1) all_ended
all_ended-Reach =
    next {t = no_index}
      (next {t = sent_nil}
        (next {t = no_goroutine}
          (next {t = got_nil}
            (next {t = handled_one}
              (next {t = handed_on}
                (next {t = held_one} (next {t = closing_one} closing_one-Reach takes_it)
                  (hands_on 5 [] [] [] [] (worker []) refl refl refl (omega arith) refl))
                (handles [] [] (worker (request 5 ∷ [])) 5 [] refl refl refl refl))
              (gets_nil 0 (request 6 ∷ []) refl refl refl))
            (closes_chan 0 refl refl refl))
          (sends_nil [] [] (worker []) refl refl refl refl refl refl (omega arith) refl))
        (index_ends refl refl refl refl refl refl))
      (worker_ends [] [] (worker (nil_pointer ∷ [])) [] refl refl refl refl)

all_ended-IsStopped : IsStopped all_ended
all_ended-IsStopped = record {
  runs = refl;
  no_writer = refl;
  no_index = refl;
  no_worker = (refl, tt);
}

every_request_is_handled_example :
    (count 6 all_ended.accepted ≤ count 6 all_ended.handled)
    × (count 6 all_ended.accepted + count 6 all_ended.late
        ≡ count 6 all_ended.handled + count_items 6 all_ended.queue)
every_request_is_handled_example =
    every_request_is_handled only_one 1 4 1 6 all_ended (omega arith) all_ended-Reach
      all_ended-IsStopped

shutdown_ends_example : (t : State) × Reach only_one 1 4 closing_one t × IsStopped t
shutdown_ends_example =
    shutdown_ends only_one 1 4 1 closing_one (λ r. omega arith) (omega arith) refl closing_one-Reach
      refl

Step-lt_example : to_do held_one < to_do closing_one
Step-lt_example = Step-lt only_one 1 4 takes_it refl refl
