-- ===== src/Backend/Tests.antt =====
-- A world in which everything works, and databases of it.
use nntp_history.Prelude.{ℕ, true, false, [], ◌∷◌, none, some, ◌≡◌, refl, codes}
use nntp_history.Pool.Schema.{created}
use nntp_history.Shard.{single_db, shard_64_64}
use nntp_history.Sharded.{Site}
use nntp_history.Locks.Starts.{enumerated}
use nntp_history.Backend.{Backend, World, no_pool, hash_db_init, initialize_database_with_sharding}
use nntp_history.Backend.Chosen.{AllWork, IsChosen, initialize-IsChosen}
use nntp_history.Backend.Twice.{second_init_starts_none}

abbrev site : ℕ → Site
site i = record {
  rounds = λ k. record { connect = some i; ping_ok = true; now = 1700000000 };
  driver = record { connect = some i; ping_ok = true; now = 1700000000 };
  executes = record { table_ok = λ t. true; index_ok = λ t. true };
}

abbrev world : World
world = record { mysql = site 0; one = site 0; many = site }

world-AllWork : AllWork (λ i. i) world
world-AllWork = record {
  one = record { connects = refl; pings = refl; executes = λ t. refl };
  many = λ i. record { connects = refl; pings = refl; executes = λ t. refl };
}

-- Two prefixes stand for the 4096.
abbrev blank : Backend
blank = record {
  dir = codes "history";
  rootdbs = codes "000" ∷ codes "001" ∷ [];
  mysql_pool = none;
  sqlite3_pool = no_pool;
  hash_index = record { prefixes = []; workers = []; index_runs = false };
  shard_mode = single_db;
  shard_dbs = 0;
  shard_tables = 0;
  index_lock = record { cap = 1; held = 0 };
  sub_locks = record { cap = 2; held = 0 };
}

initialize-IsChosen_example :
    ((initialize_database_with_sharding world false shard_64_64 blank).0 ≡ created)
    × IsChosen shard_64_64 (initialize_database_with_sharding world false shard_64_64 blank).1
initialize-IsChosen_example = initialize-IsChosen world (λ i. i) blank world-AllWork shard_64_64 tt

second_init_starts_none_example :
    let (first, b1) = hash_db_init world (codes "mysql") blank in
    let (second, b2) = hash_db_init world (codes "mysql") b1 in
    (first ≡ created)
    × (b1.hash_index ≡ record {
      prefixes = blank.rootdbs;
      workers = enumerated 0 blank.rootdbs;
      index_runs = true;
    })
    × (second ≡ created)
    × (b2.hash_index ≡ record { prefixes = blank.rootdbs; workers = []; index_runs = true })
second_init_starts_none_example =
    second_init_starts_none world world 0 0 2 blank world-AllWork.one world-AllWork.one refl refl
      refl
