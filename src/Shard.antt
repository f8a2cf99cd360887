-- ===== src/Shard.antt =====
-- SQLiteSharding.go: how hashes are shared out over databases and tables.
pub mod Names
pub mod Place
pub mod Tables
pub mod Access
mod Tests
use nntp_history.Prelude.{
  ℕ, zero, suc, ◌+◌, ◌-◌, ◌*◌, ◌/◌, ◌%◌, Bool, true, false, List, [], ◌∷◌, ◌++◌, Option, none, some,
  Bytes, String, codes, Outcome, ok, fail, panic, ◌>>=◌, ltb, leb, ◌==◌, if◌then◌else◌, length,
  take, drop,
}
use nntp_history.Prelude.Int.{ℤ, pos, negsuc, signed}
use nntp_history.Store.{Lease, connection, nil_handle, refused}
use nntp_history.Text.Number.{parse_int, format_nat, pad_left}

-- The SHARD constants, and any other value of the int that holds a mode.
pub data ShardMode : Type 0 where
  single_db full_split shard_16_256 shard_64_64 shard_128_32 shard_512_8 : ShardMode
  other : ℤ → ShardMode

-- GetShardConfig: databases, tables in each, description.
unfoldable pub get_shard_config : ShardMode → ℕ × ℕ × String
get_shard_config single_db = (1, 4096, "1 DB with 4096 tables")
get_shard_config full_split = (4096, 1, "4096 separate DBs")
get_shard_config shard_16_256 = (16, 256, "16 DBs with 256 tables each")
get_shard_config shard_64_64 = (64, 64, "64 DBs with 64 tables each")
get_shard_config shard_128_32 = (128, 32, "128 DBs with 32 tables each")
get_shard_config shard_512_8 = (512, 8, "512 DBs with 8 tables each")
get_shard_config (other z) = (1, 4096, "1 DB with 4096 tables (default)")

-- ShardConfig
pub record ShardConfig : Type 0 where
  pub mode : ShardMode
  pub base_dir : Bytes
  pub max_open_per_db : ℤ
  pub timeout : ℤ

-- Go's / and % by a positive number round towards zero.
unfoldable pub go_div : ℤ → ℕ → ℤ
go_div (pos n) d = pos (n / d)
go_div (negsuc n) d = signed true (suc n / d)

unfoldable pub go_mod : ℤ → ℕ → ℤ
go_mod (pos n) d = pos (n % d)
go_mod (negsuc n) d = signed true (suc n % d)

-- hexToInt
unfoldable pub hex_to_int : Bytes → Option ℤ
hex_to_int hex_str = parse_int 16 hex_str

-- fmt's %0wx
unfoldable pub format_hex : ℕ → ℤ → Bytes
unfolding format_nat pad_left
format_hex w (pos n) = pad_left b'0' w (format_nat 16 n)
format_hex w (negsuc n) = b'-' ∷ pad_left b'0' (w - 1) (format_nat 16 (suc n))

-- getDBNameFromIndex
unfoldable pub get_db_name_from_index : ℤ → Bytes
unfolding format_hex
get_db_name_from_index (negsuc n) = codes "000"
get_db_name_from_index (pos n) = if leb 4096 n then codes "000" else format_hex 3 (pos n)

-- The index that a number read from a hash gives; what is no number gives 0.
index_of : ℕ → ℕ → Option ℤ → ℤ
unfolding go_div go_mod
index_of divisor num_dbs none = pos 0
index_of divisor num_dbs (some val) = go_mod (go_div val divisor) num_dbs

-- getDBIndexFromHash of a system with a mode and numDBs databases
unfoldable pub get_db_index_from_hash : ShardMode → ℕ → Bytes → ℤ
unfolding index_of hex_to_int
get_db_index_from_hash mode num_dbs hash = if ltb (length hash) 3 then pos 0 else elim mode [
  | single_db ↦ pos 0
  | full_split ↦ index_of 1 num_dbs (hex_to_int (take 3 hash))
  | shard_16_256 ↦ index_of 1 num_dbs (hex_to_int (take 1 hash))
  | shard_64_64 ↦ index_of 4 num_dbs (hex_to_int (take 2 hash))
  | shard_128_32 ↦ index_of 2 num_dbs (hex_to_int (take 2 hash))
  | shard_512_8 ↦ index_of 8 num_dbs (hex_to_int (take 3 hash))
  | other z ↦ pos 0
]

-- A table name from a number read from a hash, or the name for what is no number.
name_of : ℕ → ℕ → Bytes → Option ℤ → Bytes
unfolding go_mod format_hex
name_of width tables otherwise none = otherwise
name_of width tables otherwise (some val) = b's' ∷ format_hex width (go_mod val tables)

-- getTableNameFromHash
unfoldable pub get_table_name_from_hash : ShardMode → Bytes → Bytes
unfolding name_of hex_to_int
get_table_name_from_hash mode hash = if ltb (length hash) 3 then codes "s000" else elim mode [
  | single_db ↦ b's' ∷ take 3 hash
  | full_split ↦ codes "shash"
  | shard_16_256 ↦ b's' ∷ take 2 (drop 1 hash)
  | shard_64_64 ↦ name_of 2 64 (codes "s00") (hex_to_int (take 2 (drop 1 hash)))
  | shard_128_32 ↦ name_of 2 32 (codes "s00") (hex_to_int (take 2 (drop 1 hash)))
  | shard_512_8 ↦ name_of 1 8 (codes "s0") (hex_to_int (take 1 (drop 2 hash)))
  | other z ↦ codes "s000"
]

-- `for _, c := range cs`, one, two and three loops deep
abbrev pub hex_digits : Bytes
hex_digits = codes "0123456789abcdef"

loop_one : Bytes → Bytes → List Bytes
loop_one prefix [] = []
loop_one prefix (c ∷ cs) = (prefix ++ c ∷ []) ∷ loop_one prefix cs

loop_two : Bytes → Bytes → List Bytes
unfolding loop_one
loop_two prefix [] = []
loop_two prefix (c ∷ cs) = loop_one (prefix ++ c ∷ []) hex_digits ++ loop_two prefix cs

pub loop_three : Bytes → Bytes → List Bytes
unfolding loop_two
loop_three prefix [] = []
loop_three prefix (c ∷ cs) = loop_two (prefix ++ c ∷ []) hex_digits ++ loop_three prefix cs

-- `for i := 0; i < n; i++` from i on
numbered : ℕ → ℕ → ℕ → List Bytes
unfolding format_hex
numbered width zero i = []
numbered width (suc n) i = (b's' ∷ format_hex width (pos i)) ∷ numbered width n (i + 1)

-- getTableNamesForDB, the same for every database
pub get_table_names_for_db : ShardMode → List Bytes
unfolding loop_three numbered
get_table_names_for_db single_db = loop_three (codes "s") hex_digits
get_table_names_for_db full_split = []
get_table_names_for_db shard_16_256 = loop_two (codes "s") hex_digits
get_table_names_for_db shard_64_64 = numbered 2 64 0
get_table_names_for_db shard_128_32 = numbered 2 32 0
get_table_names_for_db shard_512_8 = numbered 1 8 0
get_table_names_for_db (other z) = []

-- The tables that createTablesForDB makes.
pub create_tables_for_db : ShardMode → List Bytes
unfolding get_table_names_for_db
create_tables_for_db full_split = codes "shash" ∷ []
create_tables_for_db mode = get_table_names_for_db mode

-- getAdaptiveCacheSize, in pages of 4 KB
unfoldable pub get_adaptive_cache_size : ShardMode → ℕ
get_adaptive_cache_size single_db = 100000
get_adaptive_cache_size full_split = 500
get_adaptive_cache_size shard_16_256 = 2000
get_adaptive_cache_size shard_64_64 = 1000
get_adaptive_cache_size shard_128_32 = 500
get_adaptive_cache_size shard_512_8 = 250
get_adaptive_cache_size (other z) = 100000

-- s.DBPools[i], by what GetDB(false) of each pool gives; an index out of range panics.
pool_at : List Lease → ℕ → Outcome Lease
pool_at [] i = panic
pool_at (l ∷ ls) zero = ok l
pool_at (l ∷ ls) (suc i) = pool_at ls i

db_at : List Lease → ℤ → Outcome Lease
unfolding pool_at
db_at leases (pos i) = pool_at leases i
db_at leases (negsuc i) = panic

leased : Bytes → ℤ → Lease → Outcome (Lease × Bytes × ℤ)
leased table index connection = ok (connection, table, index)
leased table index nil_handle = ok (nil_handle, table, index)
leased table index refused = fail

-- GetDBAndTable: the handle, the table and the index.
pub get_db_and_table : ShardMode → List Lease → Bytes → Outcome (Lease × Bytes × ℤ)
unfolding db_at leased
get_db_and_table mode leases hash =
    let index = get_db_index_from_hash mode (get_shard_config mode).0 hash in
    db_at leases index >>= leased (get_table_name_from_hash mode hash) index
