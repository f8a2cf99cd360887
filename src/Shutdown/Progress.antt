-- ===== src/Shutdown/Progress.antt =====
-- As long as something runs behind the end of the writer, and IndexChan is not full of late requests, a step can be
-- taken.
use nntp_history.Prelude.{
  ℕ, zero, suc, ◌≤◌, ◌<◌, Bool, true, false, List, [], ◌∷◌, ◌++◌, map, ◌≡◌, ◌⊎◌, inl, inr, refl,
  sym, ap, ◌∙◌, subst, arith, length, All, Bool-cases, ltb, ◌==◌, ==_iff, ltb→lt, ltb→le,
}
use native.Mathlib.Decide.{dec_lt}
use nntp_history.Shutdown.{
  Item, nil_pointer, request, Worker, State, chan_cap, Step, receives, hands_on, gets_nil,
  passes_on, closes_chan, sends_nil, index_ends, handles, worker_ends, IsStopped,
}
use nntp_history.Shutdown.Invariant.{
  WorkerOk, AllOk, AllOk-at, was_sent_not_yet, requests, requests-map, length-requests,
}
use nntp_history.Shutdown.Phases.{Phase, serving, closing, draining, passing_nil, shut}
use nntp_history.Shutdown.Good.{IsGood, IsOver}

-- The worker at a place.
record At (k : ℕ) (ws : List Worker) : Type 0 where
  before : List Worker
  worker : Worker
  behind : List Worker
  split : ws ≡ before ++ worker ∷ behind
  place : length before ≡ k

At-place : (k : ℕ) (ws : List Worker) → k < length ws → At k ws
At-place k [] h = absurd (omega arith)
At-place zero (w ∷ ws) h = record {
  before = [];
  worker = w;
  behind = ws;
  split = refl;
  place = refl;
}
At-place (suc k) (w ∷ ws) h =
    let a = At-place k ws (omega arith) in
    record {
      before = w ∷ a.before;
      worker = a.worker;
      behind = a.behind;
      split = ap (λ t. w ∷ t) a.split;
      place = ap suc a.place;
    }

-- Among workers that were all sent nil: none runs, or one that still has something to receive.
record Runs (ws : List Worker) : Type 0 where
  before : List Worker
  worker : Worker
  behind : List Worker
  split : ws ≡ before ++ worker ∷ behind
  running : worker.running ≡ true
  cs : List ℕ
  chan : worker.chan ≡ map request cs ++ nil_pointer ∷ []

some-Runs :
    (k : ℕ) (ws : List Worker)
    → AllOk k ws
    → k ≡ length ws
    → All (λ w. w.running ≡ false) ws ⊎ Runs ws
some-Runs k [] all e = inl tt
some-Runs zero (w ∷ ws) all e = absurd (omega arith)
some-Runs (suc k) (w ∷ ws) (inl (on, cs, chan), all) e = inr (record {
  before = [];
  worker = w;
  behind = ws;
  split = refl;
  running = on;
  cs = cs;
  chan = chan;
})
some-Runs (suc k) (w ∷ ws) (inr (off, none), all) e = elim (some-Runs k ws all (omega arith)) [
  | inl stopped ↦ inl (off, stopped)
  | inr r ↦ inr (record {
    before = w ∷ r.before;
    worker = r.worker;
    behind = r.behind;
    split = ap (λ t. w ∷ t) r.split;
    running = r.running;
    cs = r.cs;
    chan = r.chan;
  })
]

module _ (route : ℕ → ℕ) (par cap : ℕ) where
  -- A step that is no new request.
  abbrev pub Moves : State → Type 0
  Moves s = (t : State) × Step route par cap s t × (t.late ≡ s.late) × (t.panicked ≡ s.panicked)

  -- A worker that was not sent nil and whose channel is full can handle a request.
  full_handles :
      (s : State) (ws vs : List Worker) (w : Worker)
      → s.workers ≡ ws ++ w ∷ vs
      → WorkerOk false w
      → chan_cap ≤ length w.chan
      → Moves s
  full_handles s ws vs w at (on, [], e) full = absurd (omega (arith, ap (length {A = Item}) e))
  full_handles s ws vs w at (on, c ∷ cs, e) full =
      (_, handles ws vs w c (map request cs) at on e refl, refl, refl)

  last-Moves : (s : State) → Runs s.workers → Moves s
  last-Moves s r = moves r.cs r.chan
    where
      moves : (cs : List ℕ) → r.worker.chan ≡ map request cs ++ nil_pointer ∷ [] → Moves s
      moves [] e =
          (_, worker_ends r.before r.behind r.worker [] r.split r.running e refl, refl, refl)
      moves (c ∷ cs) e = (
        _,
        handles r.before r.behind r.worker c (map request cs ++ nil_pointer ∷ []) r.split r.running
            e refl,
        refl,
        refl,
      )

  -- A request that is held can be handed on, or its worker can handle one before.
  held-Moves :
      (s : State) (r : ℕ) (held : List ℕ)
      → s.held ≡ r ∷ held
      → IsGood route par cap s
      → route r < length s.workers
      → Moves s
  held-Moves s r held e g known =
      let a = At-place (route r) s.workers known in
      let none_sent : s.sent ≡ 0 = elim g.after_all [
        | inl z ↦ z
        | inr (idle, none, passing) ↦ absurd (omega (arith, ap (length {A = ℕ}) (sym e ∙ none)))
      ] in
      let ok : WorkerOk false a.worker = AllOk-at 0 a.before a.behind a.worker (
        subst (λ k. AllOk k (a.before ++ a.worker ∷ a.behind)) none_sent
          (subst (AllOk s.sent) a.split g.chans)) in
      elim (Bool-cases (ltb (length a.worker.chan) chan_cap)) [
        | inl room ↦ (
          _,
          hands_on r [] held a.before a.behind a.worker e a.split a.place (ltb→lt _ _ room) refl,
          refl,
          refl,
        )
        | inr full ↦ full_handles s a.before a.behind a.worker a.split ok (ltb→le _ _ full)
      ]

  -- A goroutine that waits at IndexChan finds something there, or another one holds the nil.
  idle-Moves :
      (s : State) (i : ℕ)
      → s.idle ≡ suc i
      → s.passing ≡ 0
      → Phase route par cap s
      → s.writer_on ≡ false
      → Moves s
  idle-Moves s i idle p (serving rs on open_ e n p' l) off = cc (on, off)
  idle-Moves s i idle p (closing [] off' open_ e n p') off =
      (_, gets_nil i (map request s.late) idle e refl, refl, refl)
  idle-Moves s i idle p (closing (r ∷ rs) off' open_ e n p') off =
      (_, receives i r (map request rs ++ nil_pointer ∷ map request s.late) idle e refl, refl, refl)
  idle-Moves s i idle p (draining [] ls off' open_ e n p' l) off =
      (_, gets_nil i (map request ls) idle e refl, refl, refl)
  idle-Moves s i idle p (draining (r ∷ rs) ls off' open_ e n p' l) off =
      (_, receives i r (map request rs ++ nil_pointer ∷ map request ls) idle e refl, refl, refl)
  idle-Moves s i idle p (passing_nil rs off' open_ e n p' l) off = absurd (omega arith)
  idle-Moves s i idle p (shut off' c z l) off = absurd (omega arith)

  -- A goroutine that received nil can pass it on, since late requests leave room.
  passing-Moves :
      (s : State) (k : ℕ)
      → s.passing ≡ suc k
      → Phase route par cap s
      → length s.late < cap
      → Moves s
  passing-Moves s k h (serving rs on open_ e n p l) room = absurd (omega arith)
  passing-Moves s k h (closing rs off open_ e n p) room = absurd (omega arith)
  passing-Moves s k h (draining rs ls off open_ e n p l) room = absurd (omega arith)
  passing-Moves s k h (passing_nil rs off open_ e n p (counts, few)) room =
      elim (Bool-cases (par == 1)) [
        | inl one ↦ (_, closes_chan k ((==_iff par 1).0 one) h refl, refl, refl)
        | inr several ↦ (
          _,
          passes_on k (λ one. cc (several, (==_iff par 1).1 one)) h
              (omega (
                arith,
                few,
                ap requests e,
                ap (length {A = Item}) e,
                requests-map rs,
                length-requests rs,
              ))
              refl,
          refl,
          refl,
        )
      ]
  passing-Moves s k h (shut off c z l) room = absurd (omega arith)

  -- hashDB_Index can send the next nil, or the worker can handle a request, or all were sent.
  index-Moves : (s : State) → s.index_on ≡ true → IsOver s → IsGood route par cap s → Moves s
  index-Moves s on (idle, held, passing) g = elim (dec_lt s.sent (length s.workers)) [
    | yes h ↦
        let a = At-place s.sent s.workers h in
        let ok : WorkerOk false a.worker =
          subst (λ b. WorkerOk b a.worker)
            (was_sent_not_yet s.sent a.before (omega (arith, a.place)))
            (AllOk-at s.sent a.before a.behind a.worker (subst (AllOk s.sent) a.split g.chans)) in
        elim (Bool-cases (ltb (length a.worker.chan) chan_cap)) [
          | inl room ↦ (
            _,
            sends_nil a.before a.behind a.worker on idle held passing a.split a.place
                (ltb→lt _ _ room) refl,
            refl,
            refl,
          )
          | inr full ↦ full_handles s a.before a.behind a.worker a.split ok (ltb→le _ _ full)
        ]
    | no h ↦ (_, index_ends on idle held passing (omega (arith, g.bound)) refl, refl, refl)
  ]

  IsStopped-or_Moves :
      (s : State)
      → s.panicked ≡ false
      → s.writer_on ≡ false
      → s.index_on ≡ false
      → IsGood route par cap s
      → IsStopped s ⊎ Moves s
  IsStopped-or_Moves s runs off over g = elim g.index [
    | inl on ↦ cc (on, over)
    | inr (none, all) ↦ elim (some-Runs s.sent s.workers g.chans all) [
      | inl stopped ↦
          inl (record { runs = runs; no_writer = off; no_index = over; no_worker = stopped })
      | inr r ↦ inr (last-Moves s r)
    ]
  ]

  pub progress :
      (s : State)
      → ((r : ℕ) → route r < length s.workers)
      → length s.late < cap
      → s.panicked ≡ false
      → s.writer_on ≡ false
      → IsGood route par cap s
      → IsStopped s ⊎ Moves s
  progress s known room runs off g = by_held s.held refl
    where
      by_index : (b : Bool) → s.index_on ≡ b → IsOver s → IsStopped s ⊎ Moves s
      by_index true e over = inr (index-Moves s e over g)
      by_index false e over = IsStopped-or_Moves s runs off e g

      by_idle : (n : ℕ) → s.idle ≡ n → s.held ≡ [] → s.passing ≡ 0 → IsStopped s ⊎ Moves s
      by_idle zero e held p = by_index s.index_on refl (e, held, p)
      by_idle (suc i) e held p = inr (idle-Moves s i e p g.phase off)

      by_passing : (n : ℕ) → s.passing ≡ n → s.held ≡ [] → IsStopped s ⊎ Moves s
      by_passing zero e held = by_idle s.idle refl held e
      by_passing (suc k) e held = inr (passing-Moves s k e g.phase room)

      by_held : (h : List ℕ) → s.held ≡ h → IsStopped s ⊎ Moves s
      by_held [] e = by_passing s.passing refl e
      by_held (r ∷ held) e = inr (held-Moves s r held e g (known r))
