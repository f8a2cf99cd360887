-- ===== src/Sharded/Tests.antt =====
-- A system of sixteen databases, and its files.
use nntp_history.Prelude.{ℕ, true, some, ◌≡◌, refl, arith, Bytes, codes, Elem, get_elem?}
use nntp_history.Prelude.Int.{pos}
use nntp_history.Text.Number.{digit}
use nntp_history.Pool.Counts.{HasOnly}
use nntp_history.Pool.Schema.{created}
use nntp_history.Shard.{ShardConfig, shard_16_256, get_db_index_from_hash, get_table_name_from_hash}
use nntp_history.Shard.Names.{HasPrefix}
use nntp_history.Sharded.{Member, Site, db_file_name, new_sqlite3_sharded_db}
use nntp_history.Sharded.Opened.{new_sqlite3_sharded_db-IsReady}

abbrev site : ℕ → Site
site i = record {
  rounds = λ k. record { connect = some i; ping_ok = true; now = 1700000000 };
  driver = record { connect = some i; ping_ok = true; now = 1700000000 };
  executes = record { table_ok = λ t. true; index_ok = λ t. true };
}

abbrev config : ShardConfig
config = record {
  mode = shard_16_256;
  base_dir = codes "history";
  max_open_per_db = pos 8;
  timeout = pos 30;
}

abbrev hash_a : Bytes
hash_a = codes "7af00"

hash_a-HasPrefix : HasPrefix 7 10 15 hash_a
unfolding digit
hash_a-HasPrefix = record {
  first = omega arith;
  second = omega arith;
  third = omega arith;
  rest = codes "00";
  spelled = refl;
}

new_sqlite3_sharded_db-IsReady_example :
    let (result, s) = new_sqlite3_sharded_db site config true in
    (result ≡ created)
    × (i : ℕ) × (m : Member) × (get_db_index_from_hash shard_16_256 s.num_dbs hash_a ≡ pos i)
    × (get_elem? s.db_pools i ≡ some m)
    × (m.file_name ≡ db_file_name s.num_dbs i)
    × HasOnly i m.pool
    × Elem (get_table_name_from_hash shard_16_256 hash_a) m.schema.tables
new_sqlite3_sharded_db-IsReady_example =
    new_sqlite3_sharded_db-IsReady site (λ i. i) config 7 10 15 hash_a
      (λ i. record { connects = refl; pings = refl; executes = λ t. refl }) tt hash_a-HasPrefix
