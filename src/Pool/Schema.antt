-- ===== src/Pool/Schema.antt =====
-- The creation of the tables: ShortHashDB_CreateTables of MYSQL.go, CreateTables of SQLite.go and createTablesForDB
-- of SQLiteSharding.go, on a connection of the pool.
pub mod Creation
pub mod Steps
pub mod Ready
use nntp_history.Prelude.{
  ℕ, Bool, true, false, List, [], ◌∷◌, Option, none, some, Bytes, codes, if◌then◌else◌,
}
use nntp_history.Pool.{
  Pool, Driver, Call, returns, errs, blocks, panics, get_db, return_db, Opts, new_pool,
}
use nntp_history.Shard.{ShardMode, create_tables_for_db, loop_three, hex_digits}

-- What the database does with the statements: whether the table and whether its index can be created.
pub record Executes : Type 0 where
  pub table_ok : Bytes → Bool
  pub index_ok : Bytes → Bool

-- What is in the database.
pub record Schema : Type 0 where
  pub tables : List Bytes
  pub indexes : List Bytes

abbrev pub no_schema : Schema
no_schema = record { tables = []; indexes = [] }

-- How a creation ends; the MySQL one ends the program where a statement fails.
pub data Created : Type 0 where
  created not_created stuck crashed exited : Created

-- The loop over the names: it ends at the first table that cannot be created. Newest first.
pub create_each : Executes → List Bytes → Schema → Bool × Schema
create_each w [] done = (true, done)
create_each w (name ∷ names) done =
    let rest = create_each w names (record {
      tables = name ∷ done.tables;
      indexes = if w.index_ok name then name ∷ done.indexes else done.indexes;
    }) in
    if w.table_ok name then rest else (false, done)

-- The MySQL loop makes no indexes.
pub create_each_mysql : Executes → List Bytes → Schema → Bool × Schema
create_each_mysql w [] done = (true, done)
create_each_mysql w (name ∷ names) done =
    let rest = create_each_mysql w names (record done { tables = name ∷ done.tables }) in
    if w.table_ok name then rest else (false, done)

pub give_back : Created → Call Unit × Pool → Created × Pool
give_back result (returns u, s) = (result, s)
give_back result (errs, s) = (result, s)
give_back result (blocks, s) = (stuck, s)
give_back result (panics, s) = (crashed, s)

-- After the statements the connection goes back into the pool, also where one failed.
pub put_back : Option ℕ → Driver → Bool × Schema → Pool → Created × Pool × Schema
unfolding give_back
put_back db w (all_made, schema) s =
    let (result, s') = give_back (if all_made then created else not_created) (return_db db w s) in
    (result, s', schema)

-- In MySQL a failed statement ends the program.
pub put_back_mysql : Option ℕ → Driver → Bool × Schema → Pool → Created × Pool × Schema
unfolding give_back
put_back_mysql db w (true, schema) s =
    let (result, s') = give_back created (return_db db w s) in (result, s', schema)
put_back_mysql db w (false, schema) s = (exited, s, schema)

-- What is done with what GetDB gave; a statement on a nil handle panics.
pub with_handle :
    (Option ℕ → Pool → Created × Pool × Schema)
    → Schema
    → Call (Option ℕ) × Pool
    → Created × Pool × Schema
with_handle body schema (returns none, s) = (crashed, s, schema)
with_handle body schema (returns (some h), s) = body (some h) s
with_handle body schema (errs, s) = (not_created, s, schema)
with_handle body schema (blocks, s) = (stuck, s, schema)
with_handle body schema (panics, s) = (crashed, s, schema)

-- `s` and every three hexadecimal digits
abbrev pub all_tables : List Bytes
all_tables = loop_three (codes "s") hex_digits

-- ShortHashDB_CreateTables
pub short_hash_db_create_tables : Driver → Executes → Schema → Pool → Created × Pool × Schema
unfolding create_each_mysql put_back_mysql with_handle get_db
short_hash_db_create_tables w x schema s =
    with_handle (λ db s'. put_back_mysql db w (create_each_mysql x all_tables schema) s') schema
      (get_db true w s)

-- CreateTables
pub create_tables : Driver → Executes → Schema → Pool → Created × Pool × Schema
unfolding create_each put_back with_handle get_db
create_tables w x schema s =
    with_handle (λ db s'. put_back db w (create_each x all_tables schema) s') schema
      (get_db true w s)

-- createTablesForDB on the pool of one database
pub create_tables_in : ShardMode → Driver → Executes → Schema → Pool → Created × Pool × Schema
unfolding create_each put_back with_handle get_db
create_tables_in mode w x schema s =
    with_handle (λ db s'. put_back db w (create_each x (create_tables_for_db mode) schema) s')
      schema (get_db true w s)

-- The rest of a constructor, once the first connections were made.
pub then_create :
    Bool → (Pool → Created × Pool × Schema) → Call Unit × Pool → Created × Pool × Schema
then_create true create (returns u, s) = create s
then_create false create (returns u, s) = (created, s, no_schema)
then_create wanted create (errs, s) = (not_created, s, no_schema)
then_create wanted create (blocks, s) = (stuck, s, no_schema)
then_create wanted create (panics, s) = (crashed, s, no_schema)

-- NewSQLpool, on an empty database. The text of the DSN is not looked into.
pub new_sql_pool : Bool → (ℕ → Driver) → Driver → Executes → Opts → Created × Pool × Schema
unfolding then_create
new_sql_pool wanted ws w x opts =
    then_create wanted (short_hash_db_create_tables w x no_schema) (new_pool 1 wanted ws opts)

-- NewSQLite3Pool, on an empty database.
pub new_sqlite3_pool : Bool → (ℕ → Driver) → Driver → Executes → Opts → Created × Pool × Schema
unfolding then_create
new_sqlite3_pool wanted ws w x opts =
    then_create wanted (create_tables w x no_schema) (new_pool 8 wanted ws opts)
