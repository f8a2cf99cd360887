-- ===== src/Client/Retries.antt =====
-- When a client gives up, and what a second start leaves.
use nntp_history.Prelude.{
  ℕ, zero, suc, ◌+◌, ◌≤◌, ◌<◌, true, false, List, [], ◌∷◌, ◌++◌, ◌≡◌, refl, sym, ap, ◌∙◌, arith,
  replicate, lt→ltb, le→ltb,
}
use nntp_history.Prelude.Int.{ℤ, pos}
use nntp_history.Client.{
  RConn, connected, no_r_conn, Loop, goes_on, gives_up, stands_still, next_pass, passes, Client,
  waits_for_mux, returns_early, boot_history_client,
}

fails_once :
    (retries failed : ℕ)
    → failed < retries
    → next_pass (pos retries) failed no_r_conn ≡ goes_on (failed + 1)
unfolding next_pass
fails_once retries failed h =
    rw (lt→ltb (0 + 0) (retries + 0) (omega arith), lt→ltb (failed + 0) (retries + 0) (omega arith))
      refl

fails_at_last :
    (retries failed : ℕ)
    → 0 < retries
    → failed ≡ retries
    → next_pass (pos retries) failed no_r_conn ≡ gives_up
unfolding next_pass
fails_at_last retries failed some_ h =
    rw (lt→ltb (0 + 0) (retries + 0) (omega arith), le→ltb (failed + 0) (retries + 0) (omega arith))
      refl

-- So many failures on top of others, while there are fewer than the retries.
failures :
    (retries failed k : ℕ)
    → failed + k ≤ retries
    → passes (pos retries) (goes_on failed) (replicate k no_r_conn) ≡ goes_on (failed + k)
unfolding passes
failures retries failed zero h = ap goes_on (omega arith)
failures retries failed (suc k) h =
    ap (λ l. passes (pos retries) l (replicate k no_r_conn))
      (fails_once retries failed (omega arith))
    ∙ failures retries (failed + 1) k (omega arith)
    ∙ ap goes_on (omega arith)

-- And the failure behind as many as there are retries.
failures_end :
    (retries failed k : ℕ)
    → 0 < retries
    → failed + k ≡ retries
    → passes (pos retries) (goes_on failed) (replicate (suc k) no_r_conn) ≡ gives_up
unfolding passes
failures_end retries failed zero some_ h = fails_at_last retries failed some_ (omega arith)
failures_end retries failed (suc k) some_ h =
    ap (λ l. passes (pos retries) l (replicate (suc k) no_r_conn))
      (fails_once retries failed (omega arith))
    ∙ failures_end retries (failed + 1) k some_ (omega arith)

-- A loop that ended stays so.
passes_ended : (retries : ℤ) (ds : List RConn) → passes retries gives_up ds ≡ gives_up
unfolding passes
passes_ended retries [] = refl
passes_ended retries (d ∷ ds) = refl

passes_stuck : (retries : ℤ) (ds : List RConn) → passes retries stands_still ds ≡ stands_still
unfolding passes
passes_stuck retries [] = refl
passes_stuck retries (d ∷ ds) = refl

-- Passes one after the other.
passes-append :
    (retries : ℤ) (loop : Loop) (cs ds : List RConn)
    → passes retries loop (cs ++ ds) ≡ passes retries (passes retries loop cs) ds
unfolding passes
passes-append retries loop [] ds = refl
passes-append retries (goes_on failed) (c ∷ cs) ds =
    passes-append retries (next_pass retries failed c) cs ds
passes-append retries gives_up (c ∷ cs) ds = sym (passes_ended retries ds)
passes-append retries stands_still (c ∷ cs) ds = sym (passes_stuck retries ds)

pub failures_in_a_row :
    (n failed : ℕ) (cs : List RConn)
    → 0 < n
    → passes (pos n) (goes_on 0) cs ≡ goes_on failed
    → (passes (pos n) (goes_on 0) (cs ++ connected ∷ replicate n no_r_conn) ≡ goes_on n)
      × (passes (pos n) (goes_on 0) (cs ++ connected ∷ replicate (suc n) no_r_conn) ≡ gives_up)
unfolding passes next_pass
failures_in_a_row n failed cs some_ before = (
  passes-append (pos n) (goes_on 0) cs (connected ∷ replicate n no_r_conn)
      ∙ ap (λ l. passes (pos n) l (connected ∷ replicate n no_r_conn)) before
      ∙ failures n 0 n (omega arith)
      ∙ ap goes_on (omega arith),
  passes-append (pos n) (goes_on 0) cs (connected ∷ replicate (suc n) no_r_conn)
      ∙ ap (λ l. passes (pos n) l (connected ∷ replicate (suc n) no_r_conn)) before
      ∙ failures_end n 0 n some_ (omega arith),
)

-- A second start of the client keeps mux, so that a third one waits for it.
pub third_start_waits :
    (c : Client)
    → c.mux_locked ≡ false
    → c.has_tcp_chan ≡ true
    → ((boot_history_client c).0 ≡ returns_early)
      × ((boot_history_client (boot_history_client c).1).0 ≡ waits_for_mux)
unfolding boot_history_client
third_start_waits c free booted = rw (free, booted) (refl, refl)
