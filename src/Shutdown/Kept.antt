-- ===== src/Shutdown/Kept.antt =====
-- Every step keeps the invariant.
use nntp_history.Prelude.{
  ℕ, suc, ◌+◌, ◌≤◌, true, false, List, [], ◌∷◌, ◌++◌, ◌≡◌, ◌⊎◌, inl, inr, sym, ap, ◌∙◌, subst,
  arith, length, length-append,
}
use nntp_history.Shutdown.{
  Item, nil_pointer, request, Worker, State, sent_to, Step, arrives, arrives_late, sends_on_closed,
  writer_ends, receives, hands_on, gets_nil, passes_on, closes_chan, sends_nil, index_ends, handles,
  worker_ends,
}
use nntp_history.Shutdown.Invariant.{
  count, count_items, count_chans, count-append, count_items-append, count_chans-append, WorkerOk,
  AllOk, AllOk-at, AllOk-replace, AllOk-next, was_sent_not_yet, WorkerOk-request, WorkerOk-nil,
  map-snoc,
}
use nntp_history.Shutdown.Phases.{Phase-moves, Phase-workers}
use nntp_history.Shutdown.Good.{
  IsOver, IsGood, not_over, kept_arrives, kept_arrives_late, kept_sends_on_closed, kept_writer_ends,
  kept_receives, kept_gets_nil, kept_passes_on, kept_closes_chan, kept_index_ends,
}

module _ (route : ℕ → ℕ) (par cap : ℕ) where
  -- Another worker in the place of one.
  length-replace :
      (ws vs : List Worker) (w w' : Worker) → length (ws ++ w' ∷ vs) ≡ length (ws ++ w ∷ vs)
  length-replace ws vs w w' = omega (arith, length-append ws (w' ∷ vs), length-append ws (w ∷ vs))

  count_chans-replace :
      (x : ℕ) (s : State) (ws vs : List Worker) (w w' : Worker)
      → s.workers ≡ ws ++ w ∷ vs
      → count_chans x (ws ++ w' ∷ vs) + count_items x w.chan
        ≡ count_chans x s.workers + count_items x w'.chan
  count_chans-replace x s ws vs w w' at = omega (
    arith,
    count_chans-append x ws (w' ∷ vs),
    count_chans-append x ws (w ∷ vs),
    ap (count_chans x) at,
  )

  index_keeps :
      (s : State) (ws vs : List Worker) (w w' : Worker)
      → IsGood route par cap s
      → s.workers ≡ ws ++ w ∷ vs
      → (s.index_on ≡ true) ⊎ (IsOver s × (s.sent ≡ length (ws ++ w' ∷ vs)))
  index_keeps s ws vs w w' g at = elim g.index [
    | inl on ↦ inl on
    | inr (over, all) ↦
        inr (over, all ∙ ap (length {A = Worker}) at ∙ sym (length-replace ws vs w w'))
  ]

  bound_keeps :
      (s : State) (ws vs : List Worker) (w w' : Worker)
      → IsGood route par cap s
      → s.workers ≡ ws ++ w ∷ vs
      → s.sent ≤ length (ws ++ w' ∷ vs)
  bound_keeps s ws vs w w' g at =
      omega (arith, g.bound, ap (length {A = Worker}) at, length-replace ws vs w w')

  takes_request : (w : Worker) (r : ℕ) → WorkerOk false w → WorkerOk false (sent_to (request r) w)
  takes_request w r (on, cs, e) =
      (on, cs ++ r ∷ [], ap (λ q. q ++ request r ∷ []) e ∙ map-snoc cs r)

  kept_hands_on :
      (s : State) (r : ℕ) (xs ys : List ℕ) (ws vs : List Worker) (w : Worker)
      → IsGood route par cap s
      → s.held ≡ xs ++ r ∷ ys
      → s.workers ≡ ws ++ w ∷ vs
      → IsGood route par cap (record s {
        held = xs ++ ys;
        idle = s.idle + 1;
        workers = ws ++ sent_to (request r) w ∷ vs;
      })
  kept_hands_on s r xs ys ws vs w g held at =
      let size : length s.held ≡ length xs + suc (length ys) =
        ap (length {A = ℕ}) held ∙ length-append xs (r ∷ ys) in
      let (sent, on) = not_over route par cap s g (omega arith) in
      let all : AllOk 0 (ws ++ w ∷ vs) =
        subst (λ k. AllOk k (ws ++ w ∷ vs)) sent (subst (AllOk s.sent) at g.chans) in
      record {
        phase =
            Phase-moves route par cap s (s.idle + 1) (xs ++ ys) (ws ++ sent_to (request r) w ∷ vs)
              g.phase (omega (arith, length-append xs ys));
        bound = bound_keeps s ws vs w (sent_to (request r) w) g at;
        after_all = inl sent;
        chans =
            subst (λ k. AllOk k (ws ++ sent_to (request r) w ∷ vs)) (sym sent)
              (AllOk-replace 0 ws vs w (sent_to (request r) w) all
                (takes_request w r (AllOk-at 0 ws vs w all)));
        index = inl on;
        total = λ x. omega (
          arith,
          g.total x,
          count_chans-replace x s ws vs w (sent_to (request r) w) at,
          count_items-append x w.chan (request r ∷ []),
          ap (count x) held,
          count-append x xs (r ∷ ys),
          count-append x xs ys,
        );
      }

  kept_sends_nil :
      (s : State) (ws vs : List Worker) (w : Worker)
      → IsGood route par cap s
      → s.index_on ≡ true
      → IsOver s
      → s.workers ≡ ws ++ w ∷ vs
      → length ws ≡ s.sent
      → IsGood route par cap
          (record s { workers = ws ++ sent_to nil_pointer w ∷ vs; sent = s.sent + 1 })
  kept_sends_nil s ws vs w g on over at place =
      let all : AllOk s.sent (ws ++ w ∷ vs) = subst (AllOk s.sent) at g.chans in
      let (running, cs, e) =
        subst (λ b. WorkerOk b w) (was_sent_not_yet s.sent ws (omega arith))
          (AllOk-at s.sent ws vs w all) in
      record {
        phase =
            Phase-workers route par cap s (ws ++ sent_to nil_pointer w ∷ vs) (s.sent + 1) s.handled
              s.index_on s.panicked g.phase;
        bound = omega (arith, length-append ws (sent_to nil_pointer w ∷ vs));
        after_all = inr over;
        chans =
            subst (λ k. AllOk k (ws ++ sent_to nil_pointer w ∷ vs)) (omega arith)
              (AllOk-next s.sent ws vs w (sent_to nil_pointer w) place all
                (inl (running, cs, ap (λ q. q ++ nil_pointer ∷ []) e)));
        index = inl on;
        total = λ x. omega (
          arith,
          g.total x,
          count_chans-replace x s ws vs w (sent_to nil_pointer w) at,
          count_items-append x w.chan (nil_pointer ∷ []),
        );
      }

  kept_handles :
      (s : State) (ws vs : List Worker) (w : Worker) (r : ℕ) (c : List Item)
      → IsGood route par cap s
      → s.workers ≡ ws ++ w ∷ vs
      → w.chan ≡ request r ∷ c
      → IsGood route par cap
          (record s { workers = ws ++ record w { chan = c } ∷ vs; handled = r ∷ s.handled })
  kept_handles s ws vs w r c g at front =
      let w' : Worker = record w { chan = c } in
      let all : AllOk s.sent (ws ++ w ∷ vs) = subst (AllOk s.sent) at g.chans in
      record {
        phase =
            Phase-workers route par cap s (ws ++ w' ∷ vs) s.sent (r ∷ s.handled) s.index_on
              s.panicked g.phase;
        bound = bound_keeps s ws vs w w' g at;
        after_all = g.after_all;
        chans =
            AllOk-replace s.sent ws vs w w' all
              (WorkerOk-request _ w r c (AllOk-at s.sent ws vs w all) front);
        index = index_keeps s ws vs w w' g at;
        total = λ x.
            omega
              (arith, g.total x, count_chans-replace x s ws vs w w' at, ap (count_items x) front);
      }

  kept_worker_ends :
      (s : State) (ws vs : List Worker) (w : Worker) (c : List Item)
      → IsGood route par cap s
      → s.workers ≡ ws ++ w ∷ vs
      → w.chan ≡ nil_pointer ∷ c
      → IsGood route par cap
          (record s { workers = ws ++ record w { running = false; chan = c } ∷ vs })
  kept_worker_ends s ws vs w c g at front =
      let w' : Worker = record w { running = false; chan = c } in
      let all : AllOk s.sent (ws ++ w ∷ vs) = subst (AllOk s.sent) at g.chans in
      record {
        phase =
            Phase-workers route par cap s (ws ++ w' ∷ vs) s.sent s.handled s.index_on s.panicked
              g.phase;
        bound = bound_keeps s ws vs w w' g at;
        after_all = g.after_all;
        chans =
            AllOk-replace s.sent ws vs w w' all
              (WorkerOk-nil _ w c (AllOk-at s.sent ws vs w all) front);
        index = index_keeps s ws vs w w' g at;
        total = λ x.
            omega
              (arith, g.total x, count_chans-replace x s ws vs w w' at, ap (count_items x) front);
      }

  pub Step-IsGood :
      {s t : State} → Step route par cap s t → IsGood route par cap s → IsGood route par cap t
  Step-IsGood {s} (arrives r on room e) g =
      subst (IsGood route par cap) (sym e) (kept_arrives route par cap s r g on)
  Step-IsGood {s} (arrives_late r off open_ room e) g =
      subst (IsGood route par cap) (sym e) (kept_arrives_late route par cap s r g off open_)
  Step-IsGood {s} (sends_on_closed shut_ runs e) g =
      subst (IsGood route par cap) (sym e) (kept_sends_on_closed route par cap s g)
  Step-IsGood {s} (writer_ends on room e) g =
      subst (IsGood route par cap) (sym e) (kept_writer_ends route par cap s g on)
  Step-IsGood {s} (receives i r q idle front e) g =
      subst (IsGood route par cap) (sym e) (kept_receives route par cap s i r q g idle front)
  Step-IsGood {s} (hands_on r xs ys ws vs w held at place room e) g =
      subst (IsGood route par cap) (sym e) (kept_hands_on s r xs ys ws vs w g held at)
  Step-IsGood {s} (gets_nil i q idle front e) g =
      subst (IsGood route par cap) (sym e) (kept_gets_nil route par cap s i q g idle front)
  Step-IsGood {s} (passes_on k several h room e) g =
      subst (IsGood route par cap) (sym e) (kept_passes_on route par cap s k g h)
  Step-IsGood {s} (closes_chan k one h e) g =
      subst (IsGood route par cap) (sym e) (kept_closes_chan route par cap s k g one h)
  Step-IsGood {s} (sends_nil ws vs w on idle held passing at place room e) g =
      subst (IsGood route par cap) (sym e)
        (kept_sends_nil s ws vs w g on (idle, held, passing) at place)
  Step-IsGood {s} (index_ends on idle held passing all e) g =
      subst (IsGood route par cap) (sym e)
        (kept_index_ends route par cap s g (idle, held, passing) all)
  Step-IsGood {s} (handles ws vs w r c at on front e) g =
      subst (IsGood route par cap) (sym e) (kept_handles s ws vs w r c g at front)
  Step-IsGood {s} (worker_ends ws vs w c at on front e) g =
      subst (IsGood route par cap) (sym e) (kept_worker_ends s ws vs w c g at front)
