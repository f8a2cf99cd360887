-- ===== src/Shutdown/Complete.antt =====
-- When CLOSE_HISTORY goes on, every request was handled.
use nntp_history.Prelude.{
  ℕ, zero, suc, ◌+◌, ◌≤◌, ◌<◌, true, false, List, [], ◌∷◌, ◌≡◌, ◌⊎◌, inl, inr, refl, ap, arith,
  length, replicate, All,
}
use nntp_history.Shutdown.{Worker, State, Reach, here, next, running_history, IsStopped}
use nntp_history.Shutdown.Invariant.{count, count_items, count_chans, AllOk}
use nntp_history.Shutdown.Phases.{Phase, serving, closing, draining, passing_nil, shut}
use nntp_history.Shutdown.Good.{IsGood, IsOver}
use nntp_history.Shutdown.Kept.{Step-IsGood}

fresh-AllOk : (n : ℕ) → AllOk 0 (replicate n (record { running = true; chan = [] }))
fresh-AllOk zero = tt
fresh-AllOk (suc n) = ((refl, [], refl), fresh-AllOk n)

fresh-count : (n r : ℕ) → count_chans r (replicate n (record { running = true; chan = [] })) ≡ 0
fresh-count zero r = refl
fresh-count (suc n) r = omega (arith, fresh-count n r)

-- A worker that ended has an empty channel.
stopped-count :
    (k r : ℕ) (ws : List Worker)
    → AllOk k ws
    → All (λ w. w.running ≡ false) ws
    → count_chans r ws ≡ 0
stopped-count k r [] all off = refl
stopped-count zero r (w ∷ ws) ((on, cs, e), all) (off, rest) = cc (on, off)
stopped-count (suc k) r (w ∷ ws) (inl (on, cs, e), all) (off, rest) = cc (on, off)
stopped-count (suc k) r (w ∷ ws) (inr (off', e), all) (off, rest) =
    omega (arith, ap (count_items r) e, stopped-count k r ws all rest)

module _ (route : ℕ → ℕ) (par cap : ℕ) where
  pub running-IsGood : (n : ℕ) → IsGood route par cap (running_history route par cap n)
  running-IsGood n = record {
    phase = serving [] refl refl refl (omega arith) refl refl;
    bound = omega arith;
    after_all = inl refl;
    chans = fresh-AllOk n;
    index = inl refl;
    total = λ r. omega (arith, fresh-count n r);
  }

  pub Reach-IsGood :
      {s t : State} → IsGood route par cap s → Reach route par cap s t → IsGood route par cap t
  Reach-IsGood g here = g
  Reach-IsGood g (next r st) = Step-IsGood route par cap st (Reach-IsGood g r)

  -- Only late requests are left in IndexChan.
  left_over :
      (s : State) (r : ℕ)
      → Phase route par cap s
      → 0 < par
      → s.writer_on ≡ false
      → s.idle ≡ 0
      → s.held ≡ []
      → count_items r s.queue ≤ count r s.late
  left_over s r (serving rs on open_ e n p l) some_ off idle held = cc
  left_over s r (closing rs off open_ e n p) some_ off' idle held =
      absurd (omega (arith, ap (length {A = ℕ}) held))
  left_over s r (draining rs ls off open_ e n p l) some_ off' idle held = l.0 r
  left_over s r (passing_nil rs off open_ e n p l) some_ off' idle held = l.0 r
  left_over s r (shut off c z l) some_ off' idle held = l.0 r

  -- In any order of the steps of a booted history with at least one goroutine of hashDB_Index, clients
  -- that still send behind the nil of history_Writer included: when the program runs and no lock is
  -- held, which lets CLOSE_HISTORY go on, every request that was sent before that nil was handled at
  -- least as many times as it was sent, and all requests that were sent, before or behind it, are
  -- those that were handled together with those left in IndexChan.
  pub every_request_is_handled :
      (n r : ℕ) (s : State)
      → 0 < par
      → Reach route par cap (running_history route par cap n) s
      → IsStopped s
      → (count r s.accepted ≤ count r s.handled)
        × (count r s.accepted + count r s.late ≡ count r s.handled + count_items r s.queue)
  every_request_is_handled n r s some_ reached stopped =
      let g : IsGood route par cap s = Reach-IsGood (running-IsGood n) reached in
      let (idle, held, passing) = done g.index in
      let all : count r s.accepted + count r s.late ≡ count r s.handled + count_items r s.queue =
        omega (
          arith,
          g.total r,
          ap (count r) held,
          stopped-count s.sent r s.workers g.chans stopped.no_worker,
        ) in
      (omega (arith, left_over s r g.phase some_ stopped.no_writer idle held), all)
    where
      done : (s.index_on ≡ true) ⊎ (IsOver s × (s.sent ≡ length s.workers)) → IsOver s
      done (inl on) = cc (on, stopped.no_index)
      done (inr (over, all)) = over
