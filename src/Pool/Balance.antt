-- ===== src/Pool/Balance.antt =====
-- The pool between its creation and its end: connections in the channel and connections lent out.
use nntp_history.Prelude.{
  ℕ, zero, suc, ◌+◌, ◌<◌, Bool, false, List, [], ◌∷◌, ◌++◌, Option, none, some, ◌≡◌, ◌≢◌, refl, ap,
  ◌∙◌, arith, length, if◌then◌else◌, ltb, All, All-append, length-append, subst, Bool-cases, inl,
  inr, lt→ltb, ◌&&◌, leb,
}
use nntp_history.Prelude.Int.{pos, negsuc, dec, ltb_ℤ}
use nntp_history.Pool.{
  DbConn, Pool, Driver, Call, returns, errs, blocks, panics, get_db, return_db, close_mysql_pool,
  drain, take_or_open, connect_new, wait_for, revive, reconnect, Opts, new_pool, initial,
}
use nntp_history.Pool.Counts.{new_pool_counts}

-- Every open connection is in the channel or lent out, and no nil handle is in the channel.
pub record IsBalanced (lent : ℕ) (s : Pool) : Type 0 where
  pub counted : s.is_open ≡ pos (length s.dbs + lent)
  pub handles : All (λ conn. conn.db ≢ none) s.dbs

-- What a call of GetDB leaves: one more is lent, or none.
abbrev pub IsServed : ℕ → Call (Option ℕ) × Pool → Type 0
IsServed lent (returns (some h), s) = IsBalanced (suc lent) s
IsServed lent (returns none, s) = IsBalanced lent s
IsServed lent (errs, s) = IsBalanced lent s
IsServed lent (blocks, s) = IsBalanced lent s
IsServed lent (panics, s) = ⊥

IsServed-handle :
    (db : Option ℕ) (lent : ℕ) (s : Pool)
    → db ≢ none
    → IsBalanced (suc lent) s
    → IsServed lent (returns db, s)
IsServed-handle none lent s handle b = absurd (handle refl)
IsServed-handle (some h) lent s handle b = b

-- The pool with its first connection taken out.
taken :
    (conn : DbConn) (rest : List DbConn) (lent : ℕ) (s : Pool)
    → s.dbs ≡ conn ∷ rest
    → IsBalanced lent s
    → (conn.db ≢ none) × IsBalanced (suc lent) (record s { dbs = rest })
taken conn rest lent s e b =
    let handles : All (λ c. c.db ≢ none) (conn ∷ rest) =
      subst (All (λ c. c.db ≢ none)) e b.handles in
    (
      handles.0,
      record {
        counted = b.counted ∙ ap pos (omega (arith, ap (length {A = DbConn}) e));
        handles = handles.1;
      },
    )

connect_new-IsServed :
    (o : Option ℕ) (lent : ℕ) (s : Pool) → IsBalanced lent s → IsServed lent (connect_new o s)
unfolding connect_new
connect_new-IsServed none lent s b = b
connect_new-IsServed (some h) lent s b = record {
  counted = rw b.counted (ap pos (omega arith));
  handles = b.handles;
}

take_or_open-IsServed :
    (dbs : List DbConn) (w : Driver) (lent : ℕ) (s : Pool)
    → s.dbs ≡ dbs
    → IsBalanced lent s
    → s.closed ≡ false
    → IsServed lent (take_or_open w dbs s)
unfolding take_or_open
take_or_open-IsServed [] w lent s e b open_ =
    simp open_ (elim (Bool-cases (ltb_ℤ s.is_open s.max_open)) [
      | inl more ↦ rw more (connect_new-IsServed w.connect lent s b)
      | inr full ↦ rw full b
    ])
take_or_open-IsServed (conn ∷ rest) w lent s e b open_ =
    let (handle, b') = taken conn rest lent s e b in
    IsServed-handle conn.db lent (record s { dbs = rest }) handle b'

reconnect-IsServed :
    (o : Option ℕ) (lent : ℕ) (s : Pool) → IsBalanced (suc lent) s → IsServed lent (reconnect o s)
unfolding reconnect
reconnect-IsServed none lent s b = record {
  counted = rw b.counted (ground arith);
  handles = b.handles;
}
reconnect-IsServed (some h) lent s b = b

revive-IsServed :
    (db : Option ℕ) (w : Driver) (lent : ℕ) (s : Pool)
    → IsBalanced (suc lent) s
    → IsServed lent (revive w db s)
unfolding revive
revive-IsServed none w lent s b = reconnect-IsServed w.connect lent s b
revive-IsServed (some h) w lent s b = elim (Bool-cases w.ping_ok) [
  | inl alive ↦ rw alive b
  | inr dead ↦ rw dead (reconnect-IsServed w.connect lent s b)
]

wait_for-IsServed :
    (dbs : List DbConn) (w : Driver) (lent : ℕ) (s : Pool)
    → s.dbs ≡ dbs
    → IsBalanced lent s
    → s.closed ≡ false
    → IsServed lent (wait_for w dbs s)
unfolding wait_for
wait_for-IsServed [] w lent s e b open_ = simp open_ b
wait_for-IsServed (conn ∷ rest) w lent s e b open_ =
    let (handle, b') = taken conn rest lent s e b in
    elim (Bool-cases (ltb w.now conn.timeout)) [
      | inl fresh ↦ rw fresh (IsServed-handle conn.db lent (record s { dbs = rest }) handle b')
      | inr stale ↦ rw stale (revive-IsServed conn.db w lent (record s { dbs = rest }) b')
    ]

-- GetDB on a pool that was not closed, whose count is the connections in the channel and those lent
-- out and whose channel holds no nil handle, keeps this balance on every branch, with one more lent
-- when it returns a handle.
pub get_db-IsBalanced :
    (wait : Bool) (w : Driver) (lent : ℕ) (s : Pool)
    → IsBalanced lent s
    → s.closed ≡ false
    → IsServed lent (get_db wait w s)
unfolding get_db
get_db-IsBalanced wait w lent s b open_ = elim (Bool-cases (wait && ltb_ℤ (pos 0) s.is_open)) [
  | inl waits ↦ rw waits (wait_for-IsServed s.dbs w lent s refl b open_)
  | inr direct ↦ rw direct (take_or_open-IsServed s.dbs w lent s refl b open_)
]

-- ReturnDB of a handle that was lent succeeds on a balanced pool that was not closed where the channel
-- has room, and keeps the balance with one less lent.
pub return_db-IsBalanced :
    (h lent : ℕ) (w : Driver) (s : Pool)
    → IsBalanced (suc lent) s
    → s.closed ≡ false
    → length s.dbs < s.cap
    → ((return_db (some h) w s).0 ≡ returns tt) × IsBalanced lent (return_db (some h) w s).1
unfolding return_db
return_db-IsBalanced h lent w s b open_ room =
    rw (open_, lt→ltb (length s.dbs) s.cap room)
      (
        refl,
        record {
          counted =
              b.counted
              ∙ ap pos (
                  omega (
                    arith,
                    length-append s.dbs (record { db = some h; timeout = w.now + s.timeout } ∷ []),
                  ));
          handles = All-append _ s.dbs _ b.handles (λ e. cc, tt);
        },
      )

drain_negative :
    (dbs : List DbConn) (k : ℕ) (s : Pool) → s.is_open ≡ negsuc k → (drain dbs s).0 ≡ blocks
unfolding drain
drain_negative [] k s e = refl
drain_negative (conn ∷ rest) k s e =
    ground (arith, drain_negative rest (suc k) (record s { dbs = rest; is_open = dec s.is_open }))

drain_lem :
    (dbs : List DbConn) (k : ℕ) (s : Pool)
    → s.is_open ≡ pos k
    → (drain dbs s).0 ≡ (if ltb 0 k && leb k (length dbs) then returns tt else blocks)
unfolding drain
drain_lem [] k s e = ground arith
drain_lem (conn ∷ rest) zero s e =
    rw e (drain_negative rest 0 (record s { dbs = rest; is_open = negsuc 0 }) refl)
drain_lem (conn ∷ rest) (suc zero) s e = ground arith
drain_lem (conn ∷ rest) (suc (suc k)) s e =
    ground (arith, drain_lem rest (suc k) (record s { dbs = rest; is_open = dec s.is_open }))

-- The MySQL ClosePool, on a pool whose count is not negative, returns exactly when the count is at
-- least 1 and no greater than the number of connections in the channel and of those that come back
-- while it closes, and waits for ever otherwise, where no other call takes a connection or changes the
-- count meanwhile.
pub close_mysql_pool_lem :
    (k : ℕ) (later : List DbConn) (s : Pool)
    → s.is_open ≡ pos k
    → (close_mysql_pool later s).0
      ≡ (if ltb 0 k && leb k (length s.dbs + length later) then returns tt else blocks)
unfolding close_mysql_pool
close_mysql_pool_lem k later s e =
    rw (← length-append s.dbs later) (drain_lem (s.dbs ++ later) k s e)

-- A MySQL pool that was just made, asked for at least one connection and with a driver whose first
-- connection succeeds, of which nothing was lent, so that nothing comes back, never closes: ClosePool
-- blocks for ever.
pub new_pool_blocks :
    (n h : ℕ) (create_tables : Bool) (ws : ℕ → Driver) (opts : Opts)
    → initial create_tables opts ≡ suc n
    → (ws 0).connect ≡ some h
    → (close_mysql_pool [] (new_pool 1 create_tables ws opts).1).0 ≡ blocks
new_pool_blocks n h create_tables ws opts asked c =
    let (made, (t, only), count) =
      new_pool_counts 1 n h create_tables ws opts (omega arith) asked c in
    close_mysql_pool_lem (n + 2) [] (new_pool 1 create_tables ws opts).1 count
    ∙ rw only (ground arith)
