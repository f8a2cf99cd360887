-- ===== src/Shutdown/Good.antt =====
-- The invariant of the goroutines, and the steps at IndexChan that keep it.
use nntp_history.Prelude.{
  ℕ, suc, ◌+◌, ◌≤◌, ◌<◌, true, false, List, [], ◌∷◌, ◌++◌, ◌≡◌, ◌⊎◌, inl, inr, ap, arith, length,
}
use nntp_history.Shutdown.{Item, nil_pointer, request, State}
use nntp_history.Shutdown.Invariant.{
  count, count_items, count_chans, count_items-append, count-append, AllOk,
}
use nntp_history.Shutdown.Phases.{
  Phase, Phase-arrives, Phase-arrives_late, Phase-writer_ends, Phase-receives, Phase-gets_nil,
  Phase-passes_on, Phase-closes_chan, Phase-workers,
}

-- No goroutine of hashDB_Index is left.
abbrev pub IsOver : State → Type 0
IsOver s = (s.idle ≡ 0) × (s.held ≡ []) × (s.passing ≡ 0)

module _ (route : ℕ → ℕ) (par cap : ℕ) where
  pub record IsGood (s : State) : Type 0 where
    pub phase : Phase route par cap s
    pub bound : s.sent ≤ length s.workers
    pub after_all : (s.sent ≡ 0) ⊎ IsOver s
    pub chans : AllOk s.sent s.workers
    pub index : (s.index_on ≡ true) ⊎ (IsOver s × (s.sent ≡ length s.workers))
    pub total :
        (r : ℕ)
        → count r s.accepted + count r s.late
          ≡ count_items r s.queue + count r s.held + count_chans r s.workers + count r s.handled

  -- A goroutine shows that no worker was sent nil, and that hashDB_Index runs.
  pub not_over :
      (s : State)
      → IsGood s
      → 0 < s.idle + length s.held + s.passing
      → (s.sent ≡ 0) × (s.index_on ≡ true)
  not_over s g busy = (
    elim g.after_all [
      | inl none_sent ↦ none_sent
      | inr (idle, held, passing) ↦ absurd (omega (arith, ap (length {A = ℕ}) held))
    ],
    elim g.index [
      | inl on ↦ on
      | inr ((idle, held, passing), all) ↦ absurd (omega (arith, ap (length {A = ℕ}) held))
    ],
  )

  pub kept_arrives :
      (s : State) (r : ℕ)
      → IsGood s
      → s.writer_on ≡ true
      → IsGood (record s { queue = s.queue ++ request r ∷ []; accepted = r ∷ s.accepted })
  kept_arrives s r g on = record {
    phase = Phase-arrives route par cap s r g.phase on;
    bound = g.bound;
    after_all = g.after_all;
    chans = g.chans;
    index = g.index;
    total = λ x. ground (arith, g.total x, count_items-append x s.queue (request r ∷ []));
  }

  pub kept_arrives_late :
      (s : State) (r : ℕ)
      → IsGood s
      → s.writer_on ≡ false
      → s.closed ≡ false
      → IsGood (record s { queue = s.queue ++ request r ∷ []; late = s.late ++ r ∷ [] })
  kept_arrives_late s r g off open_ = record {
    phase = Phase-arrives_late route par cap s r g.phase off open_;
    bound = g.bound;
    after_all = g.after_all;
    chans = g.chans;
    index = g.index;
    total = λ x. omega (
      arith,
      g.total x,
      count_items-append x s.queue (request r ∷ []),
      count-append x s.late (r ∷ []),
    );
  }

  pub kept_sends_on_closed : (s : State) → IsGood s → IsGood (record s { panicked = true })
  kept_sends_on_closed s g = record {
    phase = Phase-workers route par cap s s.workers s.sent s.handled s.index_on true g.phase;
    bound = g.bound;
    after_all = g.after_all;
    chans = g.chans;
    index = g.index;
    total = g.total;
  }

  pub kept_writer_ends :
      (s : State)
      → IsGood s
      → s.writer_on ≡ true
      → IsGood (record s { queue = s.queue ++ nil_pointer ∷ []; writer_on = false })
  kept_writer_ends s g on = record {
    phase = Phase-writer_ends route par cap s g.phase on;
    bound = g.bound;
    after_all = g.after_all;
    chans = g.chans;
    index = g.index;
    total = λ x. ground (arith, g.total x, count_items-append x s.queue (nil_pointer ∷ []));
  }

  pub kept_receives :
      (s : State) (i r : ℕ) (q : List Item)
      → IsGood s
      → s.idle ≡ suc i
      → s.queue ≡ request r ∷ q
      → IsGood (record s { queue = q; idle = i; held = r ∷ s.held })
  kept_receives s i r q g idle front =
      let (sent, on) = not_over s g (omega arith) in
      record {
        phase = Phase-receives route par cap s i r q g.phase idle front;
        bound = g.bound;
        after_all = inl sent;
        chans = g.chans;
        index = inl on;
        total = λ x. omega (arith, g.total x, ap (count_items x) front);
      }

  pub kept_gets_nil :
      (s : State) (i : ℕ) (q : List Item)
      → IsGood s
      → s.idle ≡ suc i
      → s.queue ≡ nil_pointer ∷ q
      → IsGood (record s { queue = q; idle = i; passing = s.passing + 1 })
  kept_gets_nil s i q g idle front =
      let (sent, on) = not_over s g (omega arith) in
      record {
        phase = Phase-gets_nil route par cap s i q g.phase idle front;
        bound = g.bound;
        after_all = inl sent;
        chans = g.chans;
        index = inl on;
        total = λ x. omega (arith, g.total x, ap (count_items x) front);
      }

  pub kept_passes_on :
      (s : State) (k : ℕ)
      → IsGood s
      → s.passing ≡ suc k
      → IsGood (record s { queue = s.queue ++ nil_pointer ∷ []; passing = k })
  kept_passes_on s k g h =
      let (sent, on) = not_over s g (omega arith) in
      record {
        phase = Phase-passes_on route par cap s k g.phase h;
        bound = g.bound;
        after_all = inl sent;
        chans = g.chans;
        index = inl on;
        total = λ x. omega (arith, g.total x, count_items-append x s.queue (nil_pointer ∷ []));
      }

  pub kept_closes_chan :
      (s : State) (k : ℕ)
      → IsGood s
      → par ≡ 1
      → s.passing ≡ suc k
      → IsGood (record s { closed = true; passing = k })
  kept_closes_chan s k g one h =
      let (sent, on) = not_over s g (omega arith) in
      record {
        phase = Phase-closes_chan route par cap s k g.phase one h;
        bound = g.bound;
        after_all = inl sent;
        chans = g.chans;
        index = inl on;
        total = g.total;
      }

  pub kept_index_ends :
      (s : State)
      → IsGood s
      → IsOver s
      → s.sent ≡ length s.workers
      → IsGood (record s { index_on = false })
  kept_index_ends s g over all = record {
    phase = Phase-workers route par cap s s.workers s.sent s.handled false s.panicked g.phase;
    bound = g.bound;
    after_all = g.after_all;
    chans = g.chans;
    index = inr (over, all);
    total = g.total;
  }
