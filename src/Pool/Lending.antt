-- ===== src/Pool/Lending.antt =====
-- A pool as a machine that lends connections: any sequence of calls, and that the channel always has room for what
-- was lent.
use nntp_history.Prelude.{
  ℕ, suc, ◌+◌, ◌≤◌, ◌<◌, Bool, false, [], ◌∷◌, ◌++◌, Option, none, some, ◌≡◌, ◌≢◌, refl, sym, ap,
  ◌∙◌, subst, arith, length, lt→ltb, All,
}
use nntp_history.Prelude.Int.{pos, pos_part, dec}
use nntp_history.Pool.{
  DbConn, Pool, Driver, Call, returns, errs, blocks, panics, get_db, return_db, close_db,
  set_max_open, Opts, new_pool, fresh_pool, initial,
}
use nntp_history.Pool.Balance.{IsBalanced, IsServed, get_db-IsBalanced, return_db-IsBalanced}
use nntp_history.Pool.Counts.{new_pool_counts, new_pool_open, new_pool_limits}
use nntp_history.Pool.Within.{IsWithin, get_db-IsWithin, with_dbs, one_less}

-- One call on the pool, with how many handles are lent before and after it. SetMaxOpen does not go above the capacity of
-- the channel.
pub data Step (lent : ℕ) (s : Pool) : ℕ → Pool → Type 0 where
  gets :
      {t : Pool} (wait : Bool) (w : Driver) (h : ℕ)
      → get_db wait w s ≡ (returns (some h), t)
      → Step lent s (suc lent) t
  gets_none :
      {t : Pool} (wait : Bool) (w : Driver)
      → get_db wait w s ≡ (returns none, t)
      → Step lent s lent t
  fails : {t : Pool} (wait : Bool) (w : Driver) → get_db wait w s ≡ (errs, t) → Step lent s lent t
  gives_back :
      {t : Pool} (w : Driver) (h left : ℕ)
      → lent ≡ suc left
      → return_db (some h) w s ≡ (returns tt, t)
      → Step lent s left t
  closes_one :
      {t : Pool} (h left : ℕ)
      → lent ≡ suc left
      → close_db (some h) s ≡ (returns tt, t)
      → Step lent s left t
  sets_max : {t : Pool} (max : ℕ) → max ≤ s.cap → t ≡ set_max_open (pos max) s → Step lent s lent t

pub data Reach (lent : ℕ) (s : Pool) : ℕ → Pool → Type 0 where
  here : Reach lent s lent s
  next : {n m : ℕ} {t u : Pool} → Reach lent s n t → Step n t m u → Reach lent s m u

-- The count covers the connections in the channel and those lent out; it may be more.
pub record IsLending (lent : ℕ) (s : Pool) : Type 0 where
  pub extra : ℕ
  pub balanced : IsBalanced (lent + extra) s
  pub within : IsWithin s

room_left : (lent : ℕ) (s : Pool) → IsLending (suc lent) s → length s.dbs < s.cap
room_left lent s l =
    omega (arith, ap pos_part (sym l.within.count_is ∙ l.balanced.counted), l.within.count_fits)

-- What GetDB leaves.
got :
    {lent : ℕ} {s t : Pool} {c : Call (Option ℕ)} (wait : Bool) (w : Driver) (l : IsLending lent s)
    → get_db wait w s ≡ (c, t)
    → IsServed (lent + l.extra) (c, t) × IsWithin t
got {lent} {s} wait w l e = (
  subst (IsServed (lent + l.extra)) e
      (get_db-IsBalanced wait w (lent + l.extra) s l.balanced l.within.not_closed),
  subst (λ r. IsWithin r.1) e (get_db-IsWithin wait w (lent + l.extra) s l.balanced l.within),
)

return_db_room :
    (h : ℕ) (w : Driver) (s : Pool)
    → s.closed ≡ false
    → length s.dbs < s.cap
    → return_db (some h) w s ≡ (
      returns tt,
      record s { dbs = s.dbs ++ record { db = some h; timeout = w.now + s.timeout } ∷ [] },
    )
unfolding return_db
return_db_room h w s open_ room = rw (open_, lt→ltb (length s.dbs) s.cap room) refl

pub kept_back :
    (h left extra : ℕ) (w : Driver) (s : Pool)
    → IsBalanced (suc (left + extra)) s
    → IsWithin s
    → IsLending left (return_db (some h) w s).1
kept_back h left extra w s b i =
    let room : length s.dbs < s.cap =
      omega (arith, ap pos_part (sym i.count_is ∙ b.counted), i.count_fits) in
    record {
      extra = extra;
      balanced = (return_db-IsBalanced h (left + extra) w s b i.not_closed room).1;
      within =
          subst (λ r. IsWithin r.1) (sym (return_db_room h w s i.not_closed room)) (with_dbs s _ i);
    }

kept_closed :
    (left extra : ℕ) (s : Pool)
    → IsBalanced (suc (left + extra)) s
    → IsWithin s
    → IsLending left (record s { is_open = dec s.is_open })
kept_closed left extra s b i =
    let count : s.is_open ≡ pos (suc (length s.dbs + (left + extra))) =
      b.counted ∙ ap pos (omega arith) in
    record {
      extra = extra;
      balanced = record { counted = ap dec count; handles = b.handles };
      within = one_less s (length s.dbs + (left + extra)) i count;
    }

kept_max :
    (max lent : ℕ) (s : Pool)
    → max ≤ s.cap
    → IsLending lent s
    → IsLending lent (set_max_open (pos max) s)
unfolding set_max_open
kept_max max lent s fits l = record {
  extra = l.extra;
  balanced = record { counted = l.balanced.counted; handles = l.balanced.handles };
  within = record {
    max = max;
    max_is = ground arith;
    max_fits = fits;
    count = l.within.count;
    count_is = l.within.count_is;
    count_fits = l.within.count_fits;
    not_closed = l.within.not_closed;
  };
}

-- The balance with one handle more.
one_more :
    (left extra : ℕ) (n : ℕ) (s : Pool)
    → n ≡ suc left
    → IsBalanced (n + extra) s
    → IsBalanced (suc (left + extra)) s
one_more left extra n s e b = subst (λ k. IsBalanced k s) (omega arith) b

pub Step-IsLending : {n m : ℕ} {s t : Pool} → Step n s m t → IsLending n s → IsLending m t
Step-IsLending {n} {m} {s} {t} (gets wait w h e) l =
    let (served, within) = got wait w l e in
    record {
      extra = l.extra;
      balanced = subst (λ k. IsBalanced k t) (omega arith) served;
      within = within;
    }
Step-IsLending (gets_none wait w e) l =
    let (served, within) = got wait w l e in
    record { extra = l.extra; balanced = served; within = within }
Step-IsLending (fails wait w e) l =
    let (served, within) = got wait w l e in
    record { extra = l.extra; balanced = served; within = within }
Step-IsLending {n} {m} {s} (gives_back w h left some_ e) l =
    subst (λ r. IsLending left r.1) e
      (kept_back h left l.extra w s (one_more left l.extra n s some_ l.balanced) l.within)
Step-IsLending {n} {m} {s} (closes_one h left some_ e) l =
    subst (λ r. IsLending left r.1) e
      (unfold close_db in
        kept_closed left l.extra s (one_more left l.extra n s some_ l.balanced) l.within)
Step-IsLending {n} {m} {s} (sets_max max fits e) l =
    subst (IsLending n) (sym e) (kept_max max n s fits l)

Reach-IsLending :
    {n : ℕ} {s : Pool} {m : ℕ} {t : Pool} → Reach n s m t → IsLending n s → IsLending m t
Reach-IsLending here l = l
Reach-IsLending (next r step) l = Step-IsLending step (Reach-IsLending r l)

never_panics : (lent : ℕ) (r : Call (Option ℕ) × Pool) → IsServed lent r → r.0 ≢ panics
never_panics lent (returns (some h), s) served e = cc
never_panics lent (returns none, s) served e = cc
never_panics lent (errs, s) served e = cc
never_panics lent (blocks, s) served e = cc
never_panics lent (panics, s) served e = absurd served

fresh_max :
    (default_max : ℕ) (opts : Opts)
    → (fresh_pool default_max opts).max_open ≡ pos (fresh_pool default_max opts).cap
unfolding fresh_pool
fresh_max default_max opts = refl

-- A pool that was just made.
new_pool-IsLending :
    (default_max n h : ℕ) (create_tables : Bool) (ws : ℕ → Driver) (opts : Opts)
    → 0 < default_max
    → initial create_tables opts ≡ suc n
    → (ws 0).connect ≡ some h
    → n + 2 ≤ (fresh_pool default_max opts).cap
    → IsLending 0 (new_pool default_max create_tables ws opts).1
new_pool-IsLending default_max n h create_tables ws opts some_max asked connects fits =
    let (made, (t, only), count) =
      new_pool_counts default_max n h create_tables ws opts some_max asked connects in
    let (open_, room) =
      new_pool_open default_max n h create_tables ws opts some_max asked connects in
    let (max, cap) =
      new_pool_limits default_max n h create_tables ws opts some_max asked connects in
    record {
      extra = n + 1;
      balanced = record {
        counted = count ∙ ap pos (omega (arith, ap (length {A = DbConn}) only));
        handles = subst (All (λ conn. conn.db ≢ none)) (sym only) (λ e. cc, tt);
      };
      within = record {
        max = (fresh_pool default_max opts).cap;
        max_is = max ∙ fresh_max default_max opts;
        max_fits = omega (arith, cap);
        count = n + 2;
        count_is = count;
        count_fits = omega (arith, cap);
        not_closed = open_;
      };
    }

-- After any sequence of GetDB, of ReturnDB and CloseDB of handles that were lent, and of SetMaxOpen up
-- to the capacity of the channel, on a pool as NewSQLpool and NewSQLite3Pool make it before the
-- tables, asked for at least one connection and for at least two fewer than the capacity counts, with
-- a driver whose first connection succeeds: while a handle is lent, ReturnDB of it returns, and GetDB
-- does not panic.
pub return_never_blocks :
    (default_max n h lent handle : ℕ) (create_tables wait : Bool) (ws : ℕ → Driver) (w : Driver)
    (opts : Opts) (s : Pool)
    → 0 < default_max
    → initial create_tables opts ≡ suc n
    → (ws 0).connect ≡ some h
    → n + 2 ≤ (fresh_pool default_max opts).cap
    → Reach 0 (new_pool default_max create_tables ws opts).1 (suc lent) s
    → ((return_db (some handle) w s).0 ≡ returns tt) × ((get_db wait w s).0 ≢ panics)
return_never_blocks default_max n h lent handle create_tables wait ws w opts s some_max asked
      connects fits reached =
    let l =
      Reach-IsLending reached
        (new_pool-IsLending default_max n h create_tables ws opts some_max asked connects fits) in
    (
      ap (λ r. r.0) (return_db_room handle w s l.within.not_closed (room_left lent s l)),
      never_panics (suc lent + l.extra) (get_db wait w s)
          (get_db-IsBalanced wait w (suc lent + l.extra) s l.balanced l.within.not_closed),
    )
