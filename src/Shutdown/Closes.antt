-- ===== src/Shutdown/Closes.antt =====
-- The steps behind the nil object of CLOSE_HISTORY run out, so that its loop ends.
use nntp_history.Prelude.{
  ℕ, zero, suc, ◌+◌, ◌-◌, ◌*◌, ◌<◌, true, false, List, [], ◌∷◌, ◌++◌, ◌≡◌, inl, inr, refl, sym, ap,
  ◌∙◌, subst, arith, length, length-append, length-replicate, if◌then◌else◌,
}
use nntp_history.Shutdown.{
  Item, nil_pointer, request, Worker, State, sent_to, Step, arrives, arrives_late, sends_on_closed,
  writer_ends, receives, hands_on, gets_nil, passes_on, closes_chan, sends_nil, index_ends, handles,
  worker_ends, Reach, here, next, running_history, IsStopped,
}
use nntp_history.Shutdown.Invariant.{requests, requests-append}
use nntp_history.Shutdown.Good.{IsGood}
use nntp_history.Shutdown.Kept.{Step-IsGood}
use nntp_history.Shutdown.Complete.{running-IsGood, Reach-IsGood}
use nntp_history.Shutdown.Progress.{progress}

abbrev in_chans : List Worker → ℕ
in_chans [] = 0
in_chans (w ∷ ws) = length w.chan + in_chans ws

in_chans-append : (xs ys : List Worker) → in_chans (xs ++ ys) ≡ in_chans xs + in_chans ys
in_chans-append [] ys = omega arith
in_chans-append (w ∷ ws) ys = omega (arith, in_chans-append ws ys)

in_chans-replace :
    (s : State) (ws vs : List Worker) (w w' : Worker)
    → s.workers ≡ ws ++ w ∷ vs
    → in_chans (ws ++ w' ∷ vs) + length w.chan ≡ in_chans s.workers + length w'.chan
in_chans-replace s ws vs w w' at =
    omega (arith, in_chans-append ws (w' ∷ vs), in_chans-append ws (w ∷ vs), ap in_chans at)

workers-replace :
    (s : State) (ws vs : List Worker) (w w' : Worker)
    → s.workers ≡ ws ++ w ∷ vs
    → length (ws ++ w' ∷ vs) ≡ length s.workers
workers-replace s ws vs w w' at =
    omega
      (arith, length-append ws (w' ∷ vs), length-append ws (w ∷ vs), ap (length {A = Worker}) at)

-- What is still to be done, in steps.
abbrev pub to_do : State → ℕ
to_do s =
    3 * requests s.queue
    + 2 * length s.held
    + 2 * (s.idle + length s.held)
    + s.passing
    + (if s.panicked then 0 else 1)
    + in_chans s.workers
    + 2 * (length s.workers - s.sent)
    + (if s.index_on then 1 else 0)

module _ (route : ℕ → ℕ) (par cap : ℕ) where
  -- Once history_Writer has ended, every step that is not a new request of a client makes what is to
  -- be done smaller, so that without such requests no order of steps goes on for ever.
  pub Step-lt :
      {s t : State}
      → Step route par cap s t
      → s.writer_on ≡ false
      → t.late ≡ s.late
      → to_do t < to_do s
  Step-lt (arrives r on room e) off same = cc
  Step-lt {s} (arrives_late r out open_ room e) off same = absurd (
      omega (
        arith,
        length-append s.late (r ∷ []),
        ap (length {A = ℕ}) (sym (ap (λ u. u.late) e) ∙ same),
      ))
  Step-lt {s} (sends_on_closed shut_ runs e) off same =
      subst (λ t. to_do t < to_do s) (sym e) (rw runs (omega arith))
  Step-lt (writer_ends on room e) off same = cc
  Step-lt {s} (receives i r q idle front e) off same =
      subst (λ t. to_do t < to_do s) (sym e) (omega (arith, ap requests front))
  Step-lt {s} (hands_on r xs ys ws vs w held at place room e) off same =
      subst (λ t. to_do t < to_do s) (sym e)
        (omega (
          arith,
          ap (length {A = ℕ}) held,
          length-append xs (r ∷ ys),
          length-append xs ys,
          length-append w.chan (request r ∷ []),
          in_chans-replace s ws vs w (sent_to (request r) w) at,
          workers-replace s ws vs w (sent_to (request r) w) at,
        ))
  Step-lt {s} (gets_nil i q idle front e) off same =
      subst (λ t. to_do t < to_do s) (sym e) (omega (arith, ap requests front))
  Step-lt {s} (passes_on k several h room e) off same =
      subst (λ t. to_do t < to_do s) (sym e)
        (omega (arith, requests-append s.queue (nil_pointer ∷ [])))
  Step-lt {s} (closes_chan k one h e) off same =
      subst (λ t. to_do t < to_do s) (sym e) (omega arith)
  Step-lt {s} (sends_nil ws vs w on idle held passing at place room e) off same =
      subst (λ t. to_do t < to_do s) (sym e)
        (omega (
          arith,
          length-append w.chan (nil_pointer ∷ []),
          in_chans-replace s ws vs w (sent_to nil_pointer w) at,
          workers-replace s ws vs w (sent_to nil_pointer w) at,
          length-append ws (sent_to nil_pointer w ∷ vs),
        ))
  Step-lt {s} (index_ends on idle held passing all e) off same =
      subst (λ t. to_do t < to_do s) (sym e) (rw on (omega arith))
  Step-lt {s} (handles ws vs w r c at on front e) off same =
      subst (λ t. to_do t < to_do s) (sym e)
        (omega (
          arith,
          ap (length {A = Item}) front,
          in_chans-replace s ws vs w (record w { chan = c }) at,
          workers-replace s ws vs w (record w { chan = c }) at,
        ))
  Step-lt {s} (worker_ends ws vs w c at on front e) off same =
      subst (λ t. to_do t < to_do s) (sym e)
        (omega (
          arith,
          ap (length {A = Item}) front,
          in_chans-replace s ws vs w (record w { running = false; chan = c }) at,
          workers-replace s ws vs w (record w { running = false; chan = c }) at,
        ))

  Step-off : {s t : State} → Step route par cap s t → s.writer_on ≡ false → t.writer_on ≡ false
  Step-off (arrives r on room e) off = cc
  Step-off (writer_ends on room e) off = cc
  Step-off (receives i r q idle front e) off = ap (λ t. t.writer_on) e ∙ off
  Step-off (hands_on r xs ys ws vs w held at place room e) off = ap (λ t. t.writer_on) e ∙ off
  Step-off (arrives_late r out open_ room e) off = ap (λ t. t.writer_on) e ∙ off
  Step-off (sends_on_closed shut_ runs e) off = ap (λ t. t.writer_on) e ∙ off
  Step-off (gets_nil i q idle front e) off = ap (λ t. t.writer_on) e ∙ off
  Step-off (passes_on k several h room e) off = ap (λ t. t.writer_on) e ∙ off
  Step-off (closes_chan k one h e) off = ap (λ t. t.writer_on) e ∙ off
  Step-off (sends_nil ws vs w on idle held passing at place room e) off =
      ap (λ t. t.writer_on) e ∙ off
  Step-off (index_ends on idle held passing all e) off = ap (λ t. t.writer_on) e ∙ off
  Step-off (handles ws vs w r c at on front e) off = ap (λ t. t.writer_on) e ∙ off
  Step-off (worker_ends ws vs w c at on front e) off = ap (λ t. t.writer_on) e ∙ off

  Step-length : {s t : State} → Step route par cap s t → length t.workers ≡ length s.workers
  Step-length (arrives r on room e) = ap (λ t. length t.workers) e
  Step-length (writer_ends on room e) = ap (λ t. length t.workers) e
  Step-length (receives i r q idle front e) = ap (λ t. length t.workers) e
  Step-length {s} (hands_on r xs ys ws vs w held at place room e) =
      ap (λ t. length t.workers) e ∙ workers-replace s ws vs w (sent_to (request r) w) at
  Step-length (arrives_late r out open_ room e) = ap (λ t. length t.workers) e
  Step-length (sends_on_closed shut_ runs e) = ap (λ t. length t.workers) e
  Step-length (gets_nil i q idle front e) = ap (λ t. length t.workers) e
  Step-length (passes_on k several h room e) = ap (λ t. length t.workers) e
  Step-length (closes_chan k one h e) = ap (λ t. length t.workers) e
  Step-length {s} (sends_nil ws vs w on idle held passing at place room e) =
      ap (λ t. length t.workers) e ∙ workers-replace s ws vs w (sent_to nil_pointer w) at
  Step-length (index_ends on idle held passing all e) = ap (λ t. length t.workers) e
  Step-length {s} (handles ws vs w r c at on front e) =
      ap (λ t. length t.workers) e ∙ workers-replace s ws vs w (record w { chan = c }) at
  Step-length {s} (worker_ends ws vs w c at on front e) =
      ap (λ t. length t.workers) e
      ∙ workers-replace s ws vs w (record w { running = false; chan = c }) at

  Reach-length : {s t : State} → Reach route par cap s t → length t.workers ≡ length s.workers
  Reach-length here = refl
  Reach-length (next r st) = Step-length st ∙ Reach-length r

  first :
      {s t u : State} → Step route par cap s t → Reach route par cap t u → Reach route par cap s u
  first st here = next here st
  first st (next r st') = next (first st r) st'

  -- By what is still to be done.
  ends_within :
      (k : ℕ) (s : State)
      → to_do s < k
      → ((r : ℕ) → route r < length s.workers)
      → length s.late < cap
      → s.panicked ≡ false
      → s.writer_on ≡ false
      → IsGood route par cap s
      → (t : State) × Reach route par cap s t × IsStopped t
  ends_within zero s small known room runs off g = absurd (omega arith)
  ends_within (suc k) s small known room runs off g =
      elim (progress route par cap s known room runs off g) [
        | inl stopped ↦ (s, here, stopped)
        | inr (t, st, same, runs') ↦
            let (u, reached, stopped) =
              ends_within k t (omega (arith, Step-lt st off same))
                (λ r. subst (λ n. route r < n) (sym (Step-length st)) (known r))
                (omega (arith, room, ap (length {A = ℕ}) same)) (runs' ∙ runs) (Step-off st off)
                (Step-IsGood route par cap st g) in
            (u, first st reached, stopped)
      ]

  -- Once history_Writer has received the nil of CLOSE_HISTORY and ended, where every request has a
  -- worker, fewer requests came behind that nil than IndexChan has places and no send on the closed
  -- channel has panicked, further steps lead to a state where the program runs and no lock is held,
  -- wherever the goroutines stood.
  pub shutdown_ends :
      (n : ℕ) (s : State)
      → ((r : ℕ) → route r < n)
      → length s.late < cap
      → s.panicked ≡ false
      → Reach route par cap (running_history route par cap n) s
      → s.writer_on ≡ false
      → (t : State) × Reach route par cap s t × IsStopped t
  shutdown_ends n s known room runs reached off =
      let size : length s.workers ≡ n =
        Reach-length reached ∙ length-replicate n (record { running = true; chan = [] }) in
      ends_within (suc (to_do s)) s (omega arith)
        (λ r. subst (λ m. route r < m) (sym size) (known r)) room runs off
        (Reach-IsGood route par cap (running-IsGood route par cap n) reached)
