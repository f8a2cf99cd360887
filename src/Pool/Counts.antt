-- ===== src/Pool/Counts.antt =====
-- The count of open connections against the connections that there are.
use nntp_history.Prelude.{
  ℕ, zero, suc, ◌+◌, ◌<◌, Bool, true, false, [], ◌∷◌, some, ◌≡◌, refl, ap, ◌∙◌, arith,
}
use nntp_history.Prelude.Int.{pos, ltb_ℤ}
use nntp_history.Pool.{
  Pool, Driver, returns, get_db, return_db, init_open, take_or_open, connect_new, keep_open, Opts,
  new_pool, fresh_pool, initial,
}

-- The handle of the only connection in the channel.
abbrev pub HasOnly : ℕ → Pool → Type 0
HasOnly h s = (t : ℕ) × (s.dbs ≡ record { db = some h; timeout = t } ∷ [])

-- The pool after a round that put a handle into the channel.
abbrev put_back : ℕ → Driver → ℕ → Pool → Pool
put_back h w k s = record s {
  dbs = record { db = some h; timeout = w.now + s.timeout } ∷ [];
  is_open = pos k;
}

round_again :
    (h k : ℕ) (w : Driver) (s : Pool)
    → HasOnly h s
    → s.closed ≡ false
    → 0 < s.cap
    → s.is_open ≡ pos k
    → keep_open w (get_db false w s) ≡ (returns tt, put_back h w (suc k) s)
unfolding get_db take_or_open keep_open return_db
round_again h k w s (t, only) open_ room e = ground arith

-- A connection in the channel is taken out, counted and put back in every round.
again :
    (n h k : ℕ) (ws : ℕ → Driver) (s : Pool)
    → HasOnly h s
    → s.closed ≡ false
    → 0 < s.cap
    → s.is_open ≡ pos k
    → ((init_open n ws s).0 ≡ returns tt)
      × HasOnly h (init_open n ws s).1
      × ((init_open n ws s).1.is_open ≡ pos (n + k))
unfolding init_open
again zero h k ws s only open_ room e = (refl, only, e ∙ ap pos (omega arith))
again (suc n) h k ws s only open_ room e =
    rw (round_again h k (ws 0) s only open_ room e, init_open)
      (let (ok, one, count) =
          again n h (suc k) (λ i. ws (suc i)) (put_back h (ws 0) (suc k) s) (_, refl) open_ room
            refl in
        (ok, one, count ∙ ap pos (omega arith)))

-- The first round opens a connection and counts it twice.
round_first :
    (h : ℕ) (w : Driver) (s : Pool)
    → s.dbs ≡ []
    → s.closed ≡ false
    → 0 < s.cap
    → s.is_open ≡ pos 0
    → ltb_ℤ (pos 0) s.max_open ≡ true
    → w.connect ≡ some h
    → keep_open w (get_db false w s) ≡ (returns tt, put_back h w 2 s)
unfolding get_db take_or_open connect_new keep_open return_db
round_first h w s empty open_ room e more c = ground arith

fresh_room :
    (default_max : ℕ) (opts : Opts) → 0 < default_max → 0 < (fresh_pool default_max opts).cap
unfolding fresh_pool
fresh_room default_max opts some_max = ground arith

fresh_more :
    (default_max : ℕ) (opts : Opts)
    → 0 < default_max
    → ltb_ℤ (pos 0) (fresh_pool default_max opts).max_open ≡ true
unfolding fresh_pool
fresh_more default_max opts some_max = ground arith

-- NewSQLpool and NewSQLite3Pool, asked for at least one connection and with a driver whose first
-- connection succeeds: before the tables are made, however many were asked for, the pool has that one
-- connection and counts one more than were asked for.
pub new_pool_counts :
    (default_max n h : ℕ) (create_tables : Bool) (ws : ℕ → Driver) (opts : Opts)
    → 0 < default_max
    → initial create_tables opts ≡ suc n
    → (ws 0).connect ≡ some h
    → ((new_pool default_max create_tables ws opts).0 ≡ returns tt)
      × HasOnly h (new_pool default_max create_tables ws opts).1
      × ((new_pool default_max create_tables ws opts).1.is_open ≡ pos (n + 2))
unfolding new_pool fresh_pool init_open
new_pool_counts default_max n h create_tables ws opts some_max asked c =
    rw
      (
        asked,
        round_first h (ws 0) (fresh_pool default_max opts) refl refl
            (fresh_room default_max opts some_max) refl (fresh_more default_max opts some_max) c,
      )
      (again n h 2 (λ i. ws (suc i)) (put_back h (ws 0) 2 (fresh_pool default_max opts)) (_, refl)
        refl (fresh_room default_max opts some_max) refl)

again_open :
    (n h k : ℕ) (ws : ℕ → Driver) (s : Pool)
    → HasOnly h s
    → s.closed ≡ false
    → 0 < s.cap
    → s.is_open ≡ pos k
    → ((init_open n ws s).1.closed ≡ false) × (0 < (init_open n ws s).1.cap)
unfolding init_open
again_open zero h k ws s only open_ room e = (open_, room)
again_open (suc n) h k ws s only open_ room e =
    rw (round_again h k (ws 0) s only open_ room e, init_open)
      (again_open n h (suc k) (λ i. ws (suc i)) (put_back h (ws 0) (suc k) s) (_, refl) open_ room
        refl)

-- Such a pool can be used: it was not closed and its channel has room.
pub new_pool_open :
    (default_max n h : ℕ) (create_tables : Bool) (ws : ℕ → Driver) (opts : Opts)
    → 0 < default_max
    → initial create_tables opts ≡ suc n
    → (ws 0).connect ≡ some h
    → ((new_pool default_max create_tables ws opts).1.closed ≡ false)
      × (0 < (new_pool default_max create_tables ws opts).1.cap)
unfolding new_pool fresh_pool init_open
new_pool_open default_max n h create_tables ws opts some_max asked c =
    rw
      (
        asked,
        round_first h (ws 0) (fresh_pool default_max opts) refl refl
            (fresh_room default_max opts some_max) refl (fresh_more default_max opts some_max) c,
      )
      (again_open n h 2 (λ i. ws (suc i)) (put_back h (ws 0) 2 (fresh_pool default_max opts))
        (_, refl) refl (fresh_room default_max opts some_max) refl)

again_limits :
    (n h k : ℕ) (ws : ℕ → Driver) (s : Pool)
    → HasOnly h s
    → s.closed ≡ false
    → 0 < s.cap
    → s.is_open ≡ pos k
    → ((init_open n ws s).1.max_open ≡ s.max_open) × ((init_open n ws s).1.cap ≡ s.cap)
unfolding init_open
again_limits zero h k ws s only open_ room e = (refl, refl)
again_limits (suc n) h k ws s only open_ room e =
    rw (round_again h k (ws 0) s only open_ room e, init_open)
      (again_limits n h (suc k) (λ i. ws (suc i)) (put_back h (ws 0) (suc k) s) (_, refl) open_ room
        refl)

-- And its maximum and the capacity of its channel are those that were asked for.
pub new_pool_limits :
    (default_max n h : ℕ) (create_tables : Bool) (ws : ℕ → Driver) (opts : Opts)
    → 0 < default_max
    → initial create_tables opts ≡ suc n
    → (ws 0).connect ≡ some h
    → ((new_pool default_max create_tables ws opts).1.max_open
        ≡ (fresh_pool default_max opts).max_open)
      × ((new_pool default_max create_tables ws opts).1.cap ≡ (fresh_pool default_max opts).cap)
unfolding new_pool fresh_pool init_open
new_pool_limits default_max n h create_tables ws opts some_max asked c =
    rw
      (
        asked,
        round_first h (ws 0) (fresh_pool default_max opts) refl refl
            (fresh_room default_max opts some_max) refl (fresh_more default_max opts some_max) c,
      )
      (again_limits n h 2 (λ i. ws (suc i)) (put_back h (ws 0) 2 (fresh_pool default_max opts))
        (_, refl) refl (fresh_room default_max opts some_max) refl)

pub initial_one : (opts : Opts) → opts.init_open ≡ pos 1 → initial false opts ≡ 1
unfolding initial
initial_one opts e = ground arith

pub initial_two : (opts : Opts) → opts.init_open ≡ pos 2 → initial true opts ≡ 2
unfolding initial
initial_two opts e = ground arith

pub initial_sixteen : (opts : Opts) → opts.init_open ≡ pos 16 → initial true opts ≡ 16
unfolding initial
initial_sixteen opts e = ground arith
