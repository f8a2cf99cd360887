-- ===== src/Backend.antt =====
-- The choice of a database: hashDB_Init of MYSQL.go, InitSQLite3WithSharding of SQLite.go and the Initialize functions of
-- nntp-history.go.
pub mod Chosen
pub mod Twice
mod Tests
use nntp_history.Prelude.{
  ℕ, Bool, true, false, List, [], ◌∷◌, ◌++◌, ◌||◌, Option, none, some, Bytes, String, codes,
  eq_bytes, if◌then◌else◌,
}
use nntp_history.Prelude.Int.{pos}
use nntp_history.Locks.{Semaphore, lock_func, start_workers}
use nntp_history.Pool.{Pool, Driver, Opts}
use nntp_history.Pool.Schema.{
  Executes, Schema, Created, created, not_created, stuck, crashed, exited, new_sql_pool,
  new_sqlite3_pool,
}
use nntp_history.Shard.{
  ShardMode, single_db, full_split, shard_16_256, shard_64_64, shard_128_32, shard_512_8, other,
  ShardConfig, get_shard_config,
}
use nntp_history.Sharded.{Sharded, Site, new_sqlite3_sharded_db}

-- his.SQLite3Pool, an interface: nil, a *SQLite3DB or a *SQLite3ShardedDB.
pub data SqlitePool : Type 0 where
  no_pool : SqlitePool
  one_file : Pool → Schema → SqlitePool
  many_files : Sharded → SqlitePool

-- What hashDB_Init sets up: the prefixes in charsMap and indexChans, the workers that run on these channels, and
-- whether a hashDB_Index runs, which sends into whatever channels indexChans holds at the time.
pub record HashIndex : Type 0 where
  pub prefixes : List Bytes
  pub workers : List (Bytes × ℕ)
  pub index_runs : Bool

-- The fields of HISTORY that the choice of a database sets, and the two locks of the index.
pub record Backend : Type 0 where
  pub dir : Bytes
  pub rootdbs : List Bytes
  pub mysql_pool : Option (Pool × Schema)
  pub sqlite3_pool : SqlitePool
  pub hash_index : HashIndex
  pub shard_mode : ShardMode
  pub shard_dbs : ℕ
  pub shard_tables : ℕ
  pub index_lock : Semaphore
  pub sub_locks : Semaphore

-- What the servers and files do.
pub record World : Type 0 where
  pub mysql : Site
  pub one : Site
  pub many : ℕ → Site

abbrev pub mysql_opts : Opts
mysql_opts = record { max_open = pos 64; init_open = pos 16; timeout = pos 30 }

-- The channels are made anew, and workers and an index are started; those that find their lock taken end at once. A
-- worker keeps the channel that it was started with; a hashDB_Index that runs reads the new map and the new channels.
start_index : Pool → Schema → Backend → Backend
start_index pool schema b =
    let (workers, sub_locks) = start_workers 0 b.rootdbs b.sub_locks in
    let (started, index_lock) = lock_func b.index_lock in
    record b {
      mysql_pool = some (pool, schema);
      hash_index = record {
        prefixes = b.rootdbs;
        workers = workers;
        index_runs = started || b.hash_index.index_runs;
      };
      index_lock = index_lock;
      sub_locks = sub_locks;
    }

-- log.Fatalf ends the program where the pool could not be made.
with_pool : Backend → Created × Pool × Schema → Created × Backend
unfolding start_index
with_pool b (created, pool, schema) = (created, start_index pool schema b)
with_pool b (not_created, pool, schema) = (exited, b)
with_pool b (stuck, pool, schema) = (stuck, b)
with_pool b (crashed, pool, schema) = (crashed, b)
with_pool b (exited, pool, schema) = (exited, b)

-- hashDB_Init; any other driver than MySQL ends the program.
pub hash_db_init : World → Bytes → Backend → Created × Backend
unfolding with_pool
hash_db_init w driver b =
    if eq_bytes driver (codes "mysql")
    then with_pool b (new_sql_pool true w.mysql.rounds w.mysql.driver w.mysql.executes mysql_opts)
    else (exited, b)

-- The pool is stored only where there was no error.
stored : Backend → Created → SqlitePool → Created × Backend
stored b created pool = (created, record b { sqlite3_pool = pool })
stored b not_created pool = (not_created, b)
stored b stuck pool = (stuck, b)
stored b crashed pool = (crashed, b)
stored b exited pool = (exited, b)

init_one : World → Backend → Created × Backend
unfolding stored
init_one w b =
    let (result, pool, schema) =
      new_sqlite3_pool true w.one.rounds w.one.driver w.one.executes
        (record { max_open = pos 8; init_open = pos 2; timeout = pos 30 }) in
    stored b result (one_file pool schema)

init_many : World → ShardMode → Backend → Created × Backend
unfolding stored
init_many w mode b =
    let (result, sharded) =
      new_sqlite3_sharded_db w.many
        (record { mode = mode; base_dir = b.dir; max_open_per_db = pos 8; timeout = pos 30 })
        true in
    stored b result (many_files sharded)

-- InitSQLite3WithSharding
pub init_sqlite3_with_sharding : World → ShardMode → Backend → Created × Backend
unfolding init_one init_many
init_sqlite3_with_sharding w single_db b = init_one w b
init_sqlite3_with_sharding w full_split b = init_many w full_split b
init_sqlite3_with_sharding w shard_16_256 b = init_many w shard_16_256 b
init_sqlite3_with_sharding w shard_64_64 b = init_many w shard_64_64 b
init_sqlite3_with_sharding w shard_128_32 b = init_many w shard_128_32 b
init_sqlite3_with_sharding w shard_512_8 b = init_many w shard_512_8 b
init_sqlite3_with_sharding w (other z) b = init_many w (other z) b

-- InitSQLite3
pub init_sqlite3 : World → Backend → Created × Backend
unfolding init_sqlite3_with_sharding
init_sqlite3 w b = init_sqlite3_with_sharding w single_db b

-- The fields that tell of the sharding are set behind a success.
configured : ShardMode → Created × Backend → Created × Backend
configured mode (created, b) =
    let (num_dbs, tables_per_db, description) = get_shard_config mode in
    (created, record b { shard_mode = mode; shard_dbs = num_dbs; shard_tables = tables_per_db })
configured mode (not_created, b) = (not_created, b)
configured mode (stuck, b) = (stuck, b)
configured mode (crashed, b) = (crashed, b)
configured mode (exited, b) = (exited, b)

-- InitializeDatabaseWithSharding
pub initialize_database_with_sharding : World → Bool → ShardMode → Backend → Created × Backend
unfolding hash_db_init init_sqlite3_with_sharding configured
initialize_database_with_sharding w use_mysql mode b =
    if use_mysql
    then hash_db_init w (codes "mysql") b
    else configured mode (init_sqlite3_with_sharding w mode b)

-- InitializeDatabase
pub initialize_database : World → Bool → Backend → Created × Backend
unfolding initialize_database_with_sharding
initialize_database w use_mysql b = initialize_database_with_sharding w use_mysql single_db b

-- InitializeSingleDB, InitializeFullSplit, Initialize16DB256Tables, Initialize64DB64Tables, Initialize128DB32Tables,
-- Initialize512DB8Tables
pub initialize_single_db : World → Backend → Created × Backend
initialize_single_db w b = initialize_database_with_sharding w false single_db b

pub initialize_full_split : World → Backend → Created × Backend
initialize_full_split w b = initialize_database_with_sharding w false full_split b

pub initialize_16_db_256_tables : World → Backend → Created × Backend
initialize_16_db_256_tables w b = initialize_database_with_sharding w false shard_16_256 b

pub initialize_64_db_64_tables : World → Backend → Created × Backend
initialize_64_db_64_tables w b = initialize_database_with_sharding w false shard_64_64 b

pub initialize_128_db_32_tables : World → Backend → Created × Backend
initialize_128_db_32_tables w b = initialize_database_with_sharding w false shard_128_32 b

pub initialize_512_db_8_tables : World → Backend → Created × Backend
initialize_512_db_8_tables w b = initialize_database_with_sharding w false shard_512_8 b

-- UsingSQLite3
using_pool : SqlitePool → Bool
using_pool no_pool = false
using_pool (one_file pool schema) = true
using_pool (many_files s) = true

pub using_sqlite3 : Backend → Bool
unfolding using_pool
using_sqlite3 b = using_pool b.sqlite3_pool

-- GetShardedDB: the type assertion.
sharded_of : SqlitePool → Option Sharded
sharded_of no_pool = none
sharded_of (one_file pool schema) = none
sharded_of (many_files s) = some s

pub get_sharded_db : Backend → Option Sharded
unfolding sharded_of
get_sharded_db b = sharded_of b.sqlite3_pool

-- GetSQLite3Pool: nil for a sharded system.
one_of : SqlitePool → Option Pool
one_of no_pool = none
one_of (one_file pool schema) = some pool
one_of (many_files s) = none

pub get_sqlite3_pool : Backend → Option Pool
unfolding one_of
get_sqlite3_pool b = one_of b.sqlite3_pool

-- GetShardingInfo
pub get_sharding_info : Backend → ShardMode × ℕ × ℕ × String
get_sharding_info b =
    let (num_dbs, tables_per_db, description) = get_shard_config b.shard_mode in
    (b.shard_mode, num_dbs, tables_per_db, description)
