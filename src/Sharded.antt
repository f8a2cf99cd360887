-- ===== src/Sharded.antt =====
-- SQLite3ShardedDB of SQLiteSharding.go: its databases with their pools and tables, from their opening to their end.
pub mod Files
pub mod Opened
pub mod Statistics
mod Tests
use nntp_history.Prelude.{
  ℕ, zero, suc, ◌+◌, ◌*◌, ◌/◌, Bool, true, false, List, [], ◌∷◌, ◌++◌, Option, none, some, Bytes,
  String, codes, ◌==◌, if◌then◌else◌, length,
}
use nntp_history.Prelude.Int.{ℤ, pos, negsuc, ltb_ℤ, pos_part}
use nntp_history.Text.Number.{format_nat, format_padded}
use nntp_history.Shard.{
  ShardMode, single_db, full_split, shard_16_256, shard_64_64, shard_128_32, shard_512_8, other,
  ShardConfig, get_shard_config, get_db_name_from_index, get_adaptive_cache_size,
}
use nntp_history.Pool.{Pool, Driver, Call, returns, errs, blocks, panics, Opts, close_sqlite_pool}
use nntp_history.Pool as Pools
use nntp_history.Pool.Schema.{
  Executes, Schema, Created, created, not_created, stuck, crashed, exited, new_sqlite3_pool,
  create_tables_in,
}

-- buildOptimizedParams
pub build_optimized_params : ShardMode → Bytes
unfolding format_nat get_adaptive_cache_size
build_optimized_params mode =
    codes "?cache=shared&mode=rwc&_journal_mode=WAL&_synchronous=NORMAL&_cache_size="
    ++ (format_nat 10 (get_adaptive_cache_size mode)
        ++ codes "&_temp_store=memory&_mmap_size=268435456")

-- The name of the file of a database in the base directory.
pub db_file_name : ℕ → ℕ → Bytes
unfolding get_db_name_from_index format_padded
db_file_name num_dbs i =
    if num_dbs == 1
    then codes "hashdb.sqlite3"
    else if num_dbs == 4096
    then codes "hashdb_" ++ (get_db_name_from_index (pos i) ++ codes ".sqlite3")
    else codes "hashdb_" ++ (format_padded 3 (pos i) ++ codes ".sqlite3")

-- One database: its file, its parameters, its pool and what is in it.
pub record Member : Type 0 where
  pub file_name : Bytes
  pub params : Bytes
  pub pool : Pool
  pub schema : Schema

-- SQLite3ShardedDB
pub record Sharded : Type 0 where
  pub shard_mode : ShardMode
  pub num_dbs : ℕ
  pub tables_per_db : ℕ
  pub base_dir : Bytes
  pub max_open : ℤ
  pub timeout : ℤ
  pub db_pools : List Member

-- What driver and database do at one file: in the rounds of the constructor, and while the tables are made.
pub record Site : Type 0 where
  pub rounds : ℕ → Driver
  pub driver : Driver
  pub executes : Executes

-- `config.MaxOpenPerDB <= 0` and `config.Timeout < 5`
pub with_defaults : ShardConfig → ShardConfig
with_defaults config = record config {
  max_open_per_db = if ltb_ℤ (pos 0) config.max_open_per_db then config.max_open_per_db else pos 8;
  timeout = if ltb_ℤ config.timeout (pos 5) then pos 5 else config.timeout;
}

pub opts_of : ShardConfig → Opts
opts_of config = record {
  max_open = config.max_open_per_db;
  init_open = pos 1;
  timeout = config.timeout;
}

-- The loop that opens the databases: the first error ends it, and nothing is returned.
pub with_member : Member → Created → Created × List Member → Created × List Member
with_member m created (result, ms) = (result, m ∷ ms)
with_member m not_created rest = (not_created, [])
with_member m stuck rest = (stuck, [])
with_member m crashed rest = (crashed, [])
with_member m exited rest = (exited, [])

pub open_each : (ℕ → Site) → ShardMode → Opts → ℕ → ℕ → ℕ → Created × List Member
unfolding with_member db_file_name build_optimized_params
open_each sites mode opts num_dbs zero i = (created, [])
open_each sites mode opts num_dbs (suc n) i =
    let site = sites i in
    let (result, pool, schema) =
      new_sqlite3_pool false site.rounds site.driver site.executes opts in
    with_member
      (record {
        file_name = db_file_name num_dbs i;
        params = build_optimized_params mode;
        pool = pool;
        schema = schema;
      })
      result (open_each sites mode opts num_dbs n (i + 1))

-- CreateAllTables: the first error ends the loop over the databases.
pub go_on : Member → List Member → Created → Created × List Member → Created × List Member
go_on m ms created (result, ms') = (result, m ∷ ms')
go_on m ms not_created rest = (not_created, m ∷ ms)
go_on m ms stuck rest = (stuck, m ∷ ms)
go_on m ms crashed rest = (crashed, m ∷ ms)
go_on m ms exited rest = (exited, m ∷ ms)

pub create_all_tables : (ℕ → Site) → ShardMode → ℕ → List Member → Created × List Member
unfolding go_on
create_all_tables sites mode i [] = (created, [])
create_all_tables sites mode i (m ∷ ms) =
    let (result, pool, schema) =
      create_tables_in mode (sites i).driver (sites i).executes m.schema m.pool in
    go_on (record m { pool = pool; schema = schema }) ms result
      (create_all_tables sites mode (i + 1) ms)

-- The tables are made where the databases could be opened and tables are wanted.
pub finish : (ℕ → Site) → ShardMode → Bool → Created × List Member → Created × List Member
unfolding create_all_tables
finish sites mode true (created, ms) = create_all_tables sites mode 0 ms
finish sites mode false (created, ms) = (created, ms)
finish sites mode wanted (not_created, ms) = (not_created, ms)
finish sites mode wanted (stuck, ms) = (stuck, ms)
finish sites mode wanted (crashed, ms) = (crashed, ms)
finish sites mode wanted (exited, ms) = (exited, ms)

-- NewSQLite3ShardedDB: how it ends, and the system that is returned where it ends well.
pub new_sqlite3_sharded_db : (ℕ → Site) → ShardConfig → Bool → Created × Sharded
unfolding with_defaults opts_of open_each finish
new_sqlite3_sharded_db sites config wanted =
    let (num_dbs, tables_per_db, description) = get_shard_config config.mode in
    let config' = with_defaults config in
    let (result, ms) =
      finish sites config.mode wanted
        (open_each sites config.mode (opts_of config') num_dbs num_dbs 0) in
    (
      result,
      record {
        shard_mode = config.mode;
        num_dbs = num_dbs;
        tables_per_db = tables_per_db;
        base_dir = config.base_dir;
        max_open = config'.max_open_per_db;
        timeout = config'.timeout;
        db_pools = ms;
      },
    )

-- ReturnDB of one pool among the others
return_to : Option ℕ → Driver → ℕ → List Member → Call Unit × List Member
return_to db w i [] = (returns tt, [])
return_to db w zero (m ∷ ms) =
    let (call, pool) = Pools.return_db db w m.pool in (call, record m { pool = pool } ∷ ms)
return_to db w (suc i) (m ∷ ms) = let (call, ms') = return_to db w i ms in (call, m ∷ ms')

-- ReturnDB: an index out of range is passed over.
pub return_db : Option ℕ → ℤ → Driver → Sharded → Call Unit × Sharded
unfolding return_to
return_db db (negsuc i) w s = (returns tt, s)
return_db db (pos i) w s =
    let (call, ms) = return_to db w i s.db_pools in (call, record s { db_pools = ms })

-- The loop of Close; ClosePool of a pool that was closed panics.
close_next :
    Member → List Member → Call Unit × Pool → Call Unit × List Member → Call Unit × List Member
close_next m ms (returns u, pool) (call, ms') = (call, record m { pool = pool } ∷ ms')
close_next m ms (errs, pool) rest = (errs, record m { pool = pool } ∷ ms)
close_next m ms (blocks, pool) rest = (blocks, record m { pool = pool } ∷ ms)
close_next m ms (panics, pool) rest = (panics, record m { pool = pool } ∷ ms)

close_each : List Member → Call Unit × List Member
unfolding close_next
close_each [] = (returns tt, [])
close_each (m ∷ ms) = close_next m ms (close_sqlite_pool m.pool) (close_each ms)

-- Close
pub close : Sharded → Call Unit × Sharded
unfolding close_each
close s = let (call, ms) = close_each s.db_pools in (call, record s { db_pools = ms })
