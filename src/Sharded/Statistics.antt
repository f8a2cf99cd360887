-- ===== src/Sharded/Statistics.antt =====
-- GetStats and GetMemoryInfo of SQLiteSharding.go.
use nntp_history.Prelude.{ℕ, ◌+◌, ◌*◌, ◌/◌, List, [], ◌∷◌, Bytes, String}
use nntp_history.Prelude.Int.{ℤ, pos_part}
use nntp_history.Shard.{
  ShardMode, single_db, full_split, shard_16_256, shard_64_64, shard_128_32, shard_512_8, other,
  get_adaptive_cache_size,
}
use nntp_history.Sharded.{Member, Sharded}

-- GetStats: the entry of one database, its path without the base directory.
pub record DbStats : Type 0 where
  pub db_index : ℕ
  pub is_open : ℤ
  pub db_path : Bytes

pub record ShardStats : Type 0 where
  pub shard_mode : ShardMode
  pub num_databases : ℕ
  pub tables_per_db : ℕ
  pub total_tables : ℕ
  pub max_connections_per_db : ℤ
  pub databases : List DbStats

stats_from : ℕ → List Member → List DbStats
stats_from i [] = []
stats_from i (m ∷ ms) =
    record { db_index = i; is_open = m.pool.is_open; db_path = m.file_name } ∷ stats_from (i + 1) ms

-- GetStats
pub get_stats : Sharded → ShardStats
unfolding stats_from
get_stats s = record {
  shard_mode = s.shard_mode;
  num_databases = s.num_dbs;
  tables_per_db = s.tables_per_db;
  total_tables = s.num_dbs * s.tables_per_db;
  max_connections_per_db = s.max_open;
  databases = stats_from 0 s.db_pools;
}

-- GetMemoryInfo
pub record MemoryInfo : Type 0 where
  pub mode : String
  pub shard_mode : ShardMode
  pub num_databases : ℕ
  pub tables_per_db : ℕ
  pub cache_size_pages : ℕ
  pub cache_mb_per_db : ℕ
  pub total_cache_mb : ℕ
  pub connections_mb : ℕ
  pub estimated_total_mb : ℕ

mode_name : ShardMode → String
mode_name single_db = "Single DB"
mode_name full_split = "Full Split"
mode_name shard_16_256 = "16×256"
mode_name shard_64_64 = "64×64"
mode_name shard_128_32 = "128×32"
mode_name shard_512_8 = "512×8"
mode_name (other z) = "Unknown"

-- `max_open` is positive after the constructor.
pub get_memory_info : Sharded → MemoryInfo
unfolding mode_name get_adaptive_cache_size
get_memory_info s =
    let cache_size = get_adaptive_cache_size s.shard_mode in
    let cache_mb_per_db = cache_size * 4096 / (1024 * 1024) in
    let total_cache_mb = cache_mb_per_db * s.num_dbs in
    let connections_mb = s.num_dbs * pos_part s.max_open * 1 / 10 in
    record {
      mode = mode_name s.shard_mode;
      shard_mode = s.shard_mode;
      num_databases = s.num_dbs;
      tables_per_db = s.tables_per_db;
      cache_size_pages = cache_size;
      cache_mb_per_db = cache_mb_per_db;
      total_cache_mb = total_cache_mb;
      connections_mb = connections_mb;
      estimated_total_mb = total_cache_mb + connections_mb + 5;
    }
