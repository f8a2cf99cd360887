-- ===== src/Backend/Chosen.antt =====
-- What the Initialize functions leave for SQLite.
use nntp_history.Prelude.{
  ℕ, Bool, true, false, not, [], ◌∷◌, Option, none, some, ◌≡◌, refl, sym, ap, ◌∙◌, arith,
}
use nntp_history.Prelude.Int.{pos}
use nntp_history.Text.Number.{digit}
use nntp_history.Pool.{Pool}
use nntp_history.Pool.Counts.{initial_two}
use nntp_history.Pool.Schema.{Schema, Created, created}
use nntp_history.Pool.Schema.Ready.{new_sqlite3_pool_ready}
use nntp_history.Shard.{
  ShardMode, single_db, full_split, shard_16_256, shard_64_64, shard_128_32, shard_512_8, other,
  ShardConfig, get_shard_config,
}
use nntp_history.Shard.Place.{IsKnown}
use nntp_history.Shard.Names.{HasPrefix}
use nntp_history.Sharded.{Sharded, new_sqlite3_sharded_db}
use nntp_history.Sharded.Opened.{Works, new_sqlite3_sharded_db-IsReady}
use nntp_history.Backend.{
  Backend, World, SqlitePool, one_file, many_files, init_one, init_many, stored, configured,
  init_sqlite3_with_sharding, initialize_database_with_sharding, using_sqlite3, get_sharded_db,
  get_sqlite3_pool, get_sharding_info,
}

abbrev pub is_single : ShardMode → Bool
is_single single_db = true
is_single mode = false

abbrev pub is_some {ℓ} : {A : Type ℓ} → Option A → Bool
is_some none = false
is_some (some a) = true

-- Servers and files that work.
pub record AllWork (handle : ℕ → ℕ) (w : World) : Type 0 where
  pub one : Works (handle 0) w.one
  pub many : (i : ℕ) → Works (handle i) (w.many i)

-- What is known of a backend behind an initialization.
pub record IsChosen (mode : ShardMode) (b : Backend) : Type 0 where
  pub using : using_sqlite3 b ≡ true
  pub told : (get_sharding_info b).0 ≡ mode
  pub databases : b.shard_dbs ≡ (get_shard_config mode).0
  pub tables : b.shard_tables ≡ (get_shard_config mode).1
  pub plain : is_some (get_sqlite3_pool b) ≡ is_single mode
  pub sharded : is_some (get_sharded_db b) ≡ not (is_single mode)

pub prefix_zero : HasPrefix 0 0 0 (digit 0 ∷ digit 0 ∷ digit 0 ∷ [])
prefix_zero = record {
  first = omega arith;
  second = omega arith;
  third = omega arith;
  rest = [];
  spelled = refl;
}

stored_created :
    (b : Backend) (r : Created) (pool : SqlitePool)
    → r ≡ created
    → stored b r pool ≡ (created, record b { sqlite3_pool = pool })
unfolding stored
stored_created b r pool e = rw e

init_many_lem :
    (w : World) (handle : ℕ → ℕ) (mode : ShardMode) (b : Backend)
    → AllWork handle w
    → IsKnown mode
    → (s : Sharded) × (init_many w mode b ≡ (created, record b { sqlite3_pool = many_files s }))
unfolding init_many
init_many_lem w handle mode b works known =
    let config : ShardConfig = record {
      mode = mode;
      base_dir = b.dir;
      max_open_per_db = pos 8;
      timeout = pos 30;
    } in
    let made =
      (new_sqlite3_sharded_db-IsReady w.many handle config 0 0 0 _ works.many known
        prefix_zero).0 in
    ((new_sqlite3_sharded_db w.many config true).1, stored_created b _ _ made)

init_one_lem :
    (w : World) (handle : ℕ → ℕ) (b : Backend)
    → AllWork handle w
    → (p : Pool) × (x : Schema) × (init_one w b
        ≡ (created, record b { sqlite3_pool = one_file p x }))
unfolding init_one
init_one_lem w handle b works =
    let made =
      (new_sqlite3_pool_ready 1 (handle 0) w.one.rounds w.one.driver w.one.executes _
        (initial_two _ refl) works.one.connects works.one.pings works.one.executes).0 in
    (_, _, stored_created b _ _ made)

configured_lem :
    (mode : ShardMode) (r : Created × Backend) (b : Backend)
    → r ≡ (created, b)
    → configured mode r ≡ (
      created,
      record b {
        shard_mode = mode;
        shard_dbs = (get_shard_config mode).0;
        shard_tables = (get_shard_config mode).1;
      },
    )
unfolding configured
configured_lem mode r b e = rw e

module _ (w : World) (handle : ℕ → ℕ) (b : Backend) (works : AllWork handle w) where
  IsChosen-many :
      (mode : ShardMode)
      → IsKnown mode
      → is_single mode ≡ false
      → init_sqlite3_with_sharding w mode b ≡ init_many w mode b
      → ((initialize_database_with_sharding w false mode b).0 ≡ created)
        × IsChosen mode (initialize_database_with_sharding w false mode b).1
  unfolding initialize_database_with_sharding using_sqlite3 get_sharded_db get_sqlite3_pool
      get_sharding_info
  IsChosen-many mode known many same =
      let (s, e) = init_many_lem w handle mode b works known in
      rw (configured_lem mode _ _ (same ∙ e)) (
        refl,
        record {
          using = refl;
          told = refl;
          databases = refl;
          tables = refl;
          plain = sym many;
          sharded = ap not (sym many);
        },
      )

  IsChosen-one :
      ((initialize_database_with_sharding w false single_db b).0 ≡ created)
      × IsChosen single_db (initialize_database_with_sharding w false single_db b).1
  unfolding initialize_database_with_sharding init_sqlite3_with_sharding using_sqlite3
      get_sharded_db get_sqlite3_pool get_sharding_info
  IsChosen-one =
      let (p, x, e) = init_one_lem w handle b works in
      rw (configured_lem single_db _ _ e) (
        refl,
        record {
          using = refl;
          told = refl;
          databases = refl;
          tables = refl;
          plain = refl;
          sharded = refl;
        },
      )

  -- InitializeDatabaseWithSharding for SQLite in a mode that GetShardConfig knows, where all databases
  -- work, succeeds; then UsingSQLite3 says yes, the configuration of the mode is what HISTORY tells,
  -- and GetSQLite3Pool gives a pool exactly in the mode with one database, GetShardedDB a sharded
  -- system exactly in the others.
  pub initialize-IsChosen :
      (mode : ShardMode)
      → IsKnown mode
      → ((initialize_database_with_sharding w false mode b).0 ≡ created)
        × IsChosen mode (initialize_database_with_sharding w false mode b).1
  unfolding init_sqlite3_with_sharding
  initialize-IsChosen single_db known = IsChosen-one
  initialize-IsChosen full_split known = IsChosen-many full_split known refl refl
  initialize-IsChosen shard_16_256 known = IsChosen-many shard_16_256 known refl refl
  initialize-IsChosen shard_64_64 known = IsChosen-many shard_64_64 known refl refl
  initialize-IsChosen shard_128_32 known = IsChosen-many shard_128_32 known refl refl
  initialize-IsChosen shard_512_8 known = IsChosen-many shard_512_8 known refl refl
  initialize-IsChosen (other z) known = absurd known
