-- ===== src/Pool/Optimize.antt =====
-- NewConn of MYSQL.go and SQLite.go, and OptimizeDB of SQLite.go.
use nntp_history.Prelude.{
  ℕ, ◌+◌, Bool, true, List, [], ◌∷◌, Option, none, some, Bytes, codes, if◌then◌else◌,
}
use nntp_history.Pool.{Pool, Driver, Call, returns, errs, blocks, panics, get_db, return_db}
use nntp_history.Pool.Balance.{IsServed, get_db-IsBalanced}
use nntp_history.Pool.Within.{IsWithin, get_db-IsWithin}
use nntp_history.Pool.Lending.{IsLending, kept_back}

-- NewConn: the handle of sql.Open, if the ping succeeds. This is the `connect` of a Driver.
pub new_conn : Option ℕ → Bool → Option ℕ
new_conn none pings = none
new_conn (some h) pings = if pings then some h else none

pub pragmas : List Bytes
pragmas =
    codes "PRAGMA journal_mode=WAL"
    ∷ codes "PRAGMA synchronous=NORMAL"
    ∷ codes "PRAGMA cache_size=100000"
    ∷ codes "PRAGMA temp_store=memory"
    ∷ codes "PRAGMA mmap_size=268435456"
    ∷ codes "PRAGMA page_size=4096"
    ∷ codes "PRAGMA auto_vacuum=INCREMENTAL"
    ∷ codes "PRAGMA busy_timeout=30000"
    ∷ codes "PRAGMA wal_autocheckpoint=1000"
    ∷ []

-- The SQLite NewConn also executes pragmas, whose errors are only logged.
pub new_sqlite_conn : Option ℕ → Bool → Option ℕ × List Bytes
unfolding new_conn pragmas
new_sqlite_conn opened pings = elim (new_conn opened pings) [
  | none ↦ (none, [])
  | some h ↦ (some h, pragmas)
]

pub optimizations : List Bytes
optimizations =
    codes "PRAGMA optimize"
    ∷ codes "PRAGMA wal_checkpoint(TRUNCATE)"
    ∷ codes "PRAGMA incremental_vacuum"
    ∷ []

-- OptimizeDB: with the handle of GetDB, which goes back into the pool; an error of GetDB is only logged, and a statement
-- on a nil handle panics. What is executed stands last.
pub optimize_with : Driver → Call (Option ℕ) × Pool → Call Unit × Pool × List Bytes
unfolding return_db optimizations
optimize_with w (returns none, s) = (panics, s, [])
optimize_with w (returns (some h), s) =
    let (call, s') = return_db (some h) w s in (call, s', optimizations)
optimize_with w (errs, s) = (returns tt, s, [])
optimize_with w (blocks, s) = (blocks, s, [])
optimize_with w (panics, s) = (panics, s, [])

pub optimize_db : Driver → Pool → Call Unit × Pool × List Bytes
unfolding get_db optimize_with
optimize_db w s = optimize_with w (get_db true w s)

optimize_with-IsLending :
    (lent extra : ℕ) (w : Driver) (r : Call (Option ℕ) × Pool)
    → IsServed (lent + extra) r
    → IsWithin r.1
    → IsLending lent (optimize_with w r).1
unfolding optimize_with
optimize_with-IsLending lent extra w (returns none, s) b i = record {
  extra = extra;
  balanced = b;
  within = i;
}
optimize_with-IsLending lent extra w (returns (some h), s) b i = kept_back h lent extra w s b i
optimize_with-IsLending lent extra w (errs, s) b i = record {
  extra = extra;
  balanced = b;
  within = i;
}
optimize_with-IsLending lent extra w (blocks, s) b i = record {
  extra = extra;
  balanced = b;
  within = i;
}
optimize_with-IsLending lent extra w (panics, s) b i = absurd b

-- OptimizeDB lends nothing for good: what it takes out it puts back.
optimize_db-IsLending :
    (lent : ℕ) (w : Driver) (s : Pool) → IsLending lent s → IsLending lent (optimize_db w s).1
unfolding optimize_db
optimize_db-IsLending lent w s l =
    optimize_with-IsLending lent l.extra w (get_db true w s)
      (get_db-IsBalanced true w (lent + l.extra) s l.balanced l.within.not_closed)
      (get_db-IsWithin true w (lent + l.extra) s l.balanced l.within)
