-- ===== src/Pool/Schema/Ready.antt =====
-- The pools that NewSQLpool and NewSQLite3Pool leave when the driver and the database work.
use nntp_history.Prelude.{
  subst, ℕ, suc, ◌+◌, ◌<◌, true, false, [], ◌∷◌, some, ◌≡◌, refl, ap, ◌∙◌, sym, arith, Bytes, Elem,
  take,
}
use nntp_history.Prelude.Int.{pos}
use nntp_history.Pool.{Pool, Driver, Opts, new_pool, initial}
use nntp_history.Pool.Counts.{HasOnly, new_pool_counts, new_pool_open}
use nntp_history.Pool.Schema.{
  Executes, Schema, created, create_each, with_handle, create_tables_in, create_each_mysql,
  new_sql_pool, new_sqlite3_pool, create_tables, short_hash_db_create_tables, all_tables, no_schema,
}
use nntp_history.Shard.{ShardMode, single_db, create_tables_for_db}
use nntp_history.Store.{table_of}
use nntp_history.Shard.Names.{HasPrefix}
use nntp_history.Shard.Tables.{create_tables_for_db-single, Elem-loop_three_prefix}
use nntp_history.Pool.Schema.Steps.{
  create_each_mysql_all, lends, takes_back, then_create-returned, put_back_mysql_lem, not_wanted,
  create_each_all, put_back_lem,
}

-- createTablesForDB on a pool with one connection, where every statement is executed.
pub create_tables_in_ready :
    (mode : ShardMode) (h k : ℕ) (w : Driver) (x : Executes) (schema : Schema) (s : Pool)
    → HasOnly h s
    → s.is_open ≡ pos (suc k)
    → s.closed ≡ false
    → 0 < s.cap
    → w.ping_ok ≡ true
    → ((t : Bytes) → x.table_ok t ≡ true)
    → ((create_tables_in mode w x schema s).0 ≡ created)
      × HasOnly h (create_tables_in mode w x schema s).1
unfolding create_tables_in with_handle
create_tables_in_ready mode h k w x schema s only e open_ room ping works =
    let names = create_tables_for_db mode in
    let (p, back, only') = takes_back h w s open_ room in
    let made : create_tables_in mode w x schema s ≡ (created, p, (create_each x names schema).1) =
      rw (lends h k w s only e ping, with_handle)
        (put_back_lem h w (create_each x names schema) (record s { dbs = [] }) p
          (create_each_all x names schema works) back) in
    subst (λ t. (t.0 ≡ created) × HasOnly h t.1) (sym made) (refl, only')

create_tables_lem :
    (w : Driver) (x : Executes) (schema : Schema) (s : Pool)
    → create_tables w x schema s ≡ create_tables_in single_db w x schema s
unfolding create_tables create_tables_in
create_tables_lem w x schema s = rw create_tables_for_db-single

-- NewSQLite3Pool with its tables, where everything works.
pub new_sqlite3_pool_ready :
    (n h : ℕ) (ws : ℕ → Driver) (w : Driver) (x : Executes) (opts : Opts)
    → initial true opts ≡ suc n
    → (ws 0).connect ≡ some h
    → w.ping_ok ≡ true
    → ((t : Bytes) → x.table_ok t ≡ true)
    → ((new_sqlite3_pool true ws w x opts).0 ≡ created)
      × HasOnly h (new_sqlite3_pool true ws w x opts).1
unfolding new_sqlite3_pool
new_sqlite3_pool_ready n h ws w x opts asked connects ping works =
    let (returned, only, count) = new_pool_counts 8 n h true ws opts (omega arith) asked connects in
    let (open_, room) = new_pool_open 8 n h true ws opts (omega arith) asked connects in
    rw
      (
        then_create-returned (create_tables w x no_schema) (new_pool 8 true ws opts) returned,
        create_tables_lem w x no_schema (new_pool 8 true ws opts).1,
      )
      (create_tables_in_ready single_db h (n + 1) w x no_schema (new_pool 8 true ws opts).1 only
        (count ∙ ap pos (omega arith)) open_ room ping works)

-- A pool that NewSQLite3Pool made without tables is as it was before them.
pub new_sqlite3_pool_lem :
    (n h : ℕ) (ws : ℕ → Driver) (w : Driver) (x : Executes) (opts : Opts)
    → initial false opts ≡ suc n
    → (ws 0).connect ≡ some h
    → new_sqlite3_pool false ws w x opts ≡ (created, (new_pool 8 false ws opts).1, no_schema)
unfolding new_sqlite3_pool
new_sqlite3_pool_lem n h ws w x opts asked connects =
    not_wanted (create_tables w x no_schema) (new_pool 8 false ws opts)
      (new_pool_counts 8 n h false ws opts (omega arith) asked connects).0

-- The MySQL tables are made on the only connection, which goes back into the channel.
short_hash_db_lem :
    (h k : ℕ) (w : Driver) (x : Executes) (s : Pool)
    → HasOnly h s
    → s.is_open ≡ pos (suc k)
    → s.closed ≡ false
    → 0 < s.cap
    → w.ping_ok ≡ true
    → ((t : Bytes) → x.table_ok t ≡ true)
    → ((short_hash_db_create_tables w x no_schema s).0 ≡ created)
      × HasOnly h (short_hash_db_create_tables w x no_schema s).1
      × ((t : Bytes)
          → Elem t all_tables
          → Elem t (short_hash_db_create_tables w x no_schema s).2.tables)
unfolding short_hash_db_create_tables with_handle
short_hash_db_lem h k w x s only e open_ room ping works =
    let (made, there) = create_each_mysql_all x all_tables no_schema works in
    let (p, back, only') = takes_back h w s open_ room in
    rw (lends h k w s only e ping, with_handle)
      (rw
        (put_back_mysql_lem h w (create_each_mysql x all_tables no_schema) (record s { dbs = [] }) p
          made back)
        (refl, only', there))

-- NewSQLpool, asked for at least one connection and for its tables, where the first connection and a
-- ping succeed and statements are executed, succeeds with one connection in the pool, and the table
-- that InsertOffset takes for a hash of three hexadecimal digits at its beginning is there.
pub new_sql_pool_ready :
    (n handle a b c : ℕ) (ws : ℕ → Driver) (w : Driver) (x : Executes) (opts : Opts) (hash : Bytes)
    → initial true opts ≡ suc n
    → (ws 0).connect ≡ some handle
    → w.ping_ok ≡ true
    → ((t : Bytes) → x.table_ok t ≡ true)
    → HasPrefix a b c hash
    → ((new_sql_pool true ws w x opts).0 ≡ created)
      × HasOnly handle (new_sql_pool true ws w x opts).1
      × Elem (table_of hash) (new_sql_pool true ws w x opts).2.tables
unfolding new_sql_pool table_of
new_sql_pool_ready n handle a b c ws w x opts hash asked connects ping works p =
    let (returned, only, count) =
      new_pool_counts 1 n handle true ws opts (omega arith) asked connects in
    let (open_, room) = new_pool_open 1 n handle true ws opts (omega arith) asked connects in
    let (made, only', there) =
      short_hash_db_lem handle (n + 1) w x (new_pool 1 true ws opts).1 only
        (count ∙ ap pos (omega arith)) open_ room ping works in
    rw
      (then_create-returned (short_hash_db_create_tables w x no_schema) (new_pool 1 true ws opts)
        returned)
      (made, only', there (b's' ∷ take 3 hash) (Elem-loop_three_prefix a b c hash p))
