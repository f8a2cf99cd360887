-- ===== src/Pool.antt =====
-- The connection pools of MYSQL.go (SQL) and SQLite.go (SQLite3DB): what is left in the channel, and
-- the count of open connections. What the driver does is given to each call.
pub mod Counts
pub mod Balance
pub mod Within
pub mod Lending
pub mod Optimize
pub mod Schema
mod Tests
use nntp_history.Prelude.{
  ℕ, zero, suc, ◌+◌, Bool, true, false, List, [], ◌∷◌, ◌++◌, Option, none, some, ltb, leb, ◌&&◌,
  if◌then◌else◌, length,
}
use nntp_history.Prelude.Int.{ℤ, pos, negsuc, inc, dec, ltb_ℤ, eq_ℤ, pos_part}

-- DBconn: a handle, or nil, and the second until which it needs no ping.
pub record DbConn : Type 0 where
  pub db : Option ℕ
  pub timeout : ℕ

-- SQL: `dbs` is what the channel of capacity `cap` holds.
pub record Pool : Type 0 where
  pub dbs : List DbConn
  pub cap : ℕ
  pub closed : Bool
  pub max_open : ℤ
  pub is_open : ℤ
  pub timeout : ℕ

-- What the driver and the clock do during a call: the handle that a new connection gets, if it can be made, and
-- whether a ping succeeds.
pub record Driver : Type 0 where
  pub connect : Option ℕ
  pub ping_ok : Bool
  pub now : ℕ

-- A call returns, returns an error, blocks for ever on the channel, or panics.
pub data Call (A : Type 0) : Type 0 where
  returns : A → Call A
  errs blocks panics : Call A

-- NewConn in the branch that replaces a dead connection.
reconnect : Option ℕ → Pool → Call (Option ℕ) × Pool
reconnect none s = (errs, record s { is_open = dec s.is_open })
reconnect (some h) s = (returns (some h), s)

-- A connection is dead when its ping fails; there is no ping of a nil handle.
revive : Driver → Option ℕ → Pool → Call (Option ℕ) × Pool
unfolding reconnect
revive w none s = reconnect w.connect s
revive w (some h) s = if w.ping_ok then (returns (some h), s) else reconnect w.connect s

wait_for : Driver → List DbConn → Pool → Call (Option ℕ) × Pool
unfolding revive
wait_for w [] s = if s.closed then (panics, s) else (blocks, s)
wait_for w (conn ∷ rest) s =
    let s' = record s { dbs = rest } in
    if ltb w.now conn.timeout then (returns conn.db, s') else revive w conn.db s'

connect_new : Option ℕ → Pool → Call (Option ℕ) × Pool
connect_new none s = (errs, s)
connect_new (some h) s = (returns (some h), record s { is_open = inc s.is_open })

-- `select` with a default; where no more may be opened the handle is nil and there is no error.
take_or_open : Driver → List DbConn → Pool → Call (Option ℕ) × Pool
unfolding connect_new
take_or_open w [] s =
    if s.closed
    then (panics, s)
    else if ltb_ℤ s.is_open s.max_open
    then connect_new w.connect s
    else (returns none, s)
take_or_open w (conn ∷ rest) s = (returns conn.db, record s { dbs = rest })

-- GetDB
pub get_db : Bool → Driver → Pool → Call (Option ℕ) × Pool
unfolding wait_for take_or_open
get_db wait w s =
    if wait && ltb_ℤ (pos 0) s.is_open then wait_for w s.dbs s else take_or_open w s.dbs s

-- ReturnDB
pub return_db : Option ℕ → Driver → Pool → Call Unit × Pool
return_db db w s =
    if s.closed
    then (panics, s)
    else if ltb (length s.dbs) s.cap
    then (
      returns tt,
      record s { dbs = s.dbs ++ record { db = db; timeout = w.now + s.timeout } ∷ [] },
    )
    else (blocks, s)

-- CloseDB; closing a nil handle panics.
pub close_db : Option ℕ → Pool → Call Unit × Pool
close_db none s = (panics, s)
close_db (some h) s = (returns tt, record s { is_open = dec s.is_open })

-- SetMaxOpen
pub set_max_open : ℤ → Pool → Pool
set_max_open max s = record s { max_open = if ltb_ℤ max (pos 0) then pos 0 else max }

-- GetIsOpen
pub get_is_open : Pool → ℤ
get_is_open s = s.is_open

-- The loop of the MySQL ClosePool over what it receives from the channel: it ends when the count is 0, and waits for
-- ever where nothing more comes.
drain : List DbConn → Pool → Call Unit × Pool
drain [] s = (blocks, record s { dbs = [] })
drain (conn ∷ rest) s =
    let s' = record s { dbs = rest; is_open = dec s.is_open } in
    let further = drain rest s' in if eq_ℤ s'.is_open (pos 0) then (returns tt, s') else further

-- The MySQL ClosePool; `later` are the connections that ReturnDB puts into the channel while it closes, in their
-- order. No other call takes from the channel or changes the count meanwhile.
pub close_mysql_pool : List DbConn → Pool → Call Unit × Pool
unfolding drain
close_mysql_pool later s = drain (s.dbs ++ later) s

-- The SQLite ClosePool closes the channel and empties it.
empty_out : List DbConn → Pool → Pool
empty_out [] s = record s { dbs = [] }
empty_out (conn ∷ rest) s = empty_out rest (record s { is_open = dec s.is_open })

pub close_sqlite_pool : Pool → Call Unit × Pool
unfolding empty_out
close_sqlite_pool s =
    if s.closed then (panics, s) else (returns tt, empty_out s.dbs (record s { closed = true }))

-- The count goes up again, and the connection into the channel.
keep_open : Driver → Call (Option ℕ) × Pool → Call Unit × Pool
unfolding return_db
keep_open w (returns db, s) = return_db db w (record s { is_open = inc s.is_open })
keep_open w (errs, s) = (errs, s)
keep_open w (blocks, s) = (blocks, s)
keep_open w (panics, s) = (panics, s)

infixl 5 ◌and_then◌
abbrev ◌and_then◌ : Call Unit × Pool → (Pool → Call Unit × Pool) → Call Unit × Pool
(returns u, s) and_then f = f s
(errs, s) and_then f = (errs, s)
(blocks, s) and_then f = (blocks, s)
(panics, s) and_then f = (panics, s)

-- `for i := 0; i < initopen; i++`, with what the driver does from each round on.
pub init_open : ℕ → (ℕ → Driver) → Pool → Call Unit × Pool
unfolding get_db keep_open
init_open zero ws s = (returns tt, s)
init_open (suc n) ws s =
    keep_open (ws 0) (get_db false (ws 0) s) and_then init_open n (λ i. ws (suc i))

-- DBopts and SQLite3Opts, as far as the pool goes.
pub record Opts : Type 0 where
  pub max_open : ℤ
  pub init_open : ℤ
  pub timeout : ℤ

-- The pool before the first connection; `default_max` is 1 for MySQL and 8 for SQLite.
pub fresh_pool : ℕ → Opts → Pool
fresh_pool default_max opts =
    let max = if ltb_ℤ (pos 0) opts.max_open then pos_part opts.max_open else default_max in
    record {
      dbs = [];
      cap = max;
      closed = false;
      max_open = pos max;
      is_open = pos 0;
      timeout = if ltb_ℤ opts.timeout (pos 5) then 5 else pos_part opts.timeout;
    }

-- How many connections are asked for: one at least where tables are to be created.
pub initial : Bool → Opts → ℕ
initial create_tables opts =
    if create_tables && ltb_ℤ opts.init_open (pos 1) then 1 else pos_part opts.init_open

-- NewSQLpool and NewSQLite3Pool up to the creation of the tables.
pub new_pool : ℕ → Bool → (ℕ → Driver) → Opts → Call Unit × Pool
unfolding init_open fresh_pool initial
new_pool default_max create_tables ws opts =
    init_open (initial create_tables opts) ws (fresh_pool default_max opts)
