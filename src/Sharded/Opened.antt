-- ===== src/Sharded/Opened.antt =====
-- What NewSQLite3ShardedDB leaves where drivers and databases work: every hash has its table in its database.
use nntp_history.Prelude.{
  ℕ, zero, suc, ◌+◌, ◌<◌, true, false, List, [], ◌∷◌, some, ◌≡◌, refl, sym, subst, arith, Bytes,
  Elem, get_elem?,
}
use nntp_history.Prelude.Int.{pos}
use nntp_history.Pool.{Opts, new_pool}
use nntp_history.Pool.Counts.{HasOnly, new_pool_counts, new_pool_open, initial_one}
use nntp_history.Pool.Schema.{created, no_schema, create_tables_in}
use nntp_history.Pool.Schema.Creation.{created_has_table}
use nntp_history.Pool.Schema.Ready.{create_tables_in_ready, new_sqlite3_pool_lem}
use nntp_history.Shard.{
  ShardMode, ShardConfig, get_shard_config, get_db_index_from_hash, get_table_name_from_hash,
}
use nntp_history.Shard.Names.{HasPrefix}
use nntp_history.Shard.Place.{IsKnown, db_index_lt}
use nntp_history.Sharded.{
  Member, Site, db_file_name, build_optimized_params, opts_of, open_each, create_all_tables,
  with_member, go_on, finish, with_defaults, new_sqlite3_sharded_db,
}

-- A file where the first connection succeeds, a ping succeeds and statements are executed.
pub record Works (h : ℕ) (site : Site) : Type 0 where
  pub connects : (site.rounds 0).connect ≡ some h
  pub pings : site.driver.ping_ok ≡ true
  pub executes : (t : Bytes) → site.executes.table_ok t ≡ true

-- A database in which the hashes that are placed in it find their tables.
pub record IsReady (mode : ShardMode) (num_dbs h i : ℕ) (m : Member) : Type 0 where
  pub named : m.file_name ≡ db_file_name num_dbs i
  pub lends_one : HasOnly h m.pool
  pub has_table :
      (a b c : ℕ) (hash : Bytes)
      → HasPrefix a b c hash
      → Elem (get_table_name_from_hash mode hash) m.schema.tables

module _ (sites : ℕ → Site) (handles : ℕ → ℕ) (works : (i : ℕ) → Works (handles i) (sites i))
    (mode : ShardMode) (num_dbs : ℕ) (opts : Opts) (one_each : opts.init_open ≡ pos 1) where
  -- So many databases from an index on, and no more.
  abbrev AllReady : ℕ → ℕ → List Member → Type 0
  AllReady zero i ms = ms ≡ []
  AllReady (suc n) i [] = ⊥
  AllReady (suc n) i (m ∷ ms) = IsReady mode num_dbs (handles i) i m × AllReady n (i + 1) ms

  IsReady-at :
      (n i k : ℕ) (ms : List Member)
      → AllReady n i ms
      → k < n
      → (m : Member) × (get_elem? ms k ≡ some m) × IsReady mode num_dbs (handles (i + k)) (i + k) m
  IsReady-at zero i k ms r h = absurd (omega arith)
  IsReady-at (suc n) i k [] r h = absurd r
  IsReady-at (suc n) i zero (m ∷ ms) (first, r) h =
      (m, refl, subst (λ t. IsReady mode num_dbs (handles t) t m) (omega arith) first)
  IsReady-at (suc n) i (suc k) (m ∷ ms) (first, r) h =
      let (m', found, ready) = IsReady-at n (i + 1) k ms r (omega arith) in
      (m', found, subst (λ t. IsReady mode num_dbs (handles t) t m') (omega arith) ready)

  fresh_member : ℕ → Member
  fresh_member i = record {
    file_name = db_file_name num_dbs i;
    params = build_optimized_params mode;
    pool = (new_pool 8 false (sites i).rounds opts).1;
    schema = no_schema;
  }

  fresh_members : ℕ → ℕ → List Member
  fresh_members zero i = []
  fresh_members (suc n) i = fresh_member i ∷ fresh_members n (i + 1)

  open_each_lem : (n i : ℕ) → open_each sites mode opts num_dbs n i ≡ (created, fresh_members n i)
  unfolding open_each with_member fresh_members fresh_member
  open_each_lem zero i = refl
  open_each_lem (suc n) i = rw (
    new_sqlite3_pool_lem 0 (handles i) (sites i).rounds (sites i).driver (sites i).executes opts
        (initial_one opts one_each) (works i).connects,
    open_each_lem n (i + 1),
  )

  member-IsReady :
      (i : ℕ)
      → IsKnown mode
      → ((create_tables_in mode
            (sites i).driver
            (sites i).executes
            no_schema
            (fresh_member i).pool).0
          ≡ created)
        × IsReady mode num_dbs (handles i) i (record (fresh_member i) {
          pool =
              (create_tables_in mode
                (sites i).driver
                (sites i).executes
                no_schema
                (fresh_member i).pool).1;
          schema =
              (create_tables_in mode
                (sites i).driver
                (sites i).executes
                no_schema
                (fresh_member i).pool).2;
        })
  unfolding fresh_member
  member-IsReady i known =
      let w = works i in
      let asked = initial_one opts one_each in
      let (returned, only, count) =
        new_pool_counts 8 0 (handles i) false (sites i).rounds opts (omega arith) asked
          w.connects in
      let (open_, room) =
        new_pool_open 8 0 (handles i) false (sites i).rounds opts (omega arith) asked w.connects in
      let (made, only') =
        create_tables_in_ready mode (handles i) 1 (sites i).driver (sites i).executes no_schema
          (new_pool 8 false (sites i).rounds opts).1 only count open_ room w.pings w.executes in
      (
        made,
        record {
          named = refl;
          lends_one = only';
          has_table = λ a b c hash p.
              created_has_table mode (sites i).driver (sites i).executes no_schema
                (new_pool 8 false (sites i).rounds opts).1 a b c hash known p made;
        },
      )

  create_next :
      (i : ℕ) (m : Member) (ms : List Member)
      → (create_tables_in mode (sites i).driver (sites i).executes m.schema m.pool).0 ≡ created
      → create_all_tables sites mode i (m ∷ ms) ≡ (
        (create_all_tables sites mode (i + 1) ms).0,
        record m {
          pool = (create_tables_in mode (sites i).driver (sites i).executes m.schema m.pool).1;
          schema = (create_tables_in mode (sites i).driver (sites i).executes m.schema m.pool).2;
        }
            ∷ (create_all_tables sites mode (i + 1) ms).1,
      )
  unfolding create_all_tables go_on
  create_next i m ms made = rw made

  create-AllReady :
      (n i : ℕ)
      → IsKnown mode
      → ((create_all_tables sites mode i (fresh_members n i)).0 ≡ created)
        × AllReady n i (create_all_tables sites mode i (fresh_members n i)).1
  unfolding fresh_members
  create-AllReady zero i known = unfold create_all_tables in (refl, refl)
  create-AllReady (suc n) i known =
      let (rest_made, rest_ready) = create-AllReady n (i + 1) known in
      let (made, ready) = member-IsReady i known in
      subst (λ t. (t.0 ≡ created) × AllReady (suc n) i t.1)
        (sym
          (create_next i (fresh_member i) (fresh_members n (i + 1)) (unfold fresh_member in made)))
        (rest_made, (unfold fresh_member in ready, rest_ready))

  finished :
      (n : ℕ)
      → IsKnown mode
      → let r = finish sites mode true (open_each sites mode opts num_dbs n 0) in
        (r.0 ≡ created) × AllReady n 0 r.1
  unfolding finish
  finished n known = rw (open_each_lem n 0) (create-AllReady n 0 known)

one_each-opts_of : (config : ShardConfig) → (opts_of config).init_open ≡ pos 1
unfolding opts_of
one_each-opts_of config = refl

-- NewSQLite3ShardedDB in a mode that GetShardConfig knows, with tables wanted, where the first
-- connection and the pings of every database succeed and statements are executed: it succeeds, and for
-- a hash that begins with three hexadecimal digits there is a database at the index of the hash, with
-- the file name of that index, one connection and the table of the hash.
pub new_sqlite3_sharded_db-IsReady :
    (sites : ℕ → Site) (handles : ℕ → ℕ) (config : ShardConfig) (a b c : ℕ) (hash : Bytes)
    → ((i : ℕ) → Works (handles i) (sites i))
    → IsKnown config.mode
    → HasPrefix a b c hash
    → let (result, s) = new_sqlite3_sharded_db sites config true in
      (result ≡ created)
      × (i : ℕ) × (m : Member) × (get_db_index_from_hash config.mode s.num_dbs hash ≡ pos i)
      × (get_elem? s.db_pools i ≡ some m)
      × (m.file_name ≡ db_file_name s.num_dbs i)
      × HasOnly (handles i) m.pool
      × Elem (get_table_name_from_hash config.mode hash) m.schema.tables
unfolding new_sqlite3_sharded_db
new_sqlite3_sharded_db-IsReady sites handles config a b c hash works known p =
    let num_dbs = (get_shard_config config.mode).0 in
    let opts = opts_of (with_defaults config) in
    let (made, all) =
      finished sites handles works config.mode num_dbs opts
        (one_each-opts_of (with_defaults config)) num_dbs known in
    let (i, placed, below) = db_index_lt config.mode a b c hash p in
    let (m, found, ready) =
      IsReady-at sites handles works config.mode num_dbs opts
        (one_each-opts_of (with_defaults config)) num_dbs 0 i _ all below in
    let r : IsReady config.mode num_dbs (handles i) i m =
      subst (λ t. IsReady config.mode num_dbs (handles t) t m) (omega arith) ready in
    (made, i, m, placed, found, r.named, r.lends_one, r.has_table a b c hash p)
