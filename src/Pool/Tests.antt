-- ===== src/Pool/Tests.antt =====
-- A pool that asks for sixteen connections, and one with a connection lent out.
use nntp_history.Prelude.{
  ℕ, ◌+◌, ◌&&◌, true, false, List, [], ◌∷◌, some, ◌≡◌, ◌≢◌, ap, ◌∙◌, ◌≤◌, refl, arith, length, ltb,
  leb, if◌then◌else◌,
}
use nntp_history.Prelude.Int.{pos}
use nntp_history.Pool.{
  DbConn, Pool, Driver, returns, blocks, get_db, return_db, close_mysql_pool, new_pool, initial,
  Opts, panics, fresh_pool,
}
use nntp_history.Pool.Lending.{gets, here, next, return_never_blocks}
use nntp_history.Pool.Counts.{HasOnly, new_pool_counts}
use nntp_history.Prelude.{Bytes, codes, Elem}
use nntp_history.Text.Number.{digit}
use nntp_history.Store.{table_of}
use nntp_history.Shard.Names.{HasPrefix}
use nntp_history.Pool.Schema.{Executes, created, new_sql_pool}
use nntp_history.Pool.Schema.Steps.{lends}
use nntp_history.Pool.Schema.Ready.{new_sql_pool_ready}
use nntp_history.Pool.Balance.{
  IsBalanced, IsServed, get_db-IsBalanced, close_mysql_pool_lem, new_pool_blocks,
}

-- The options that hashDB_Init gives.
abbrev opts : Opts
opts = record { max_open = pos 64; init_open = pos 16; timeout = pos 30 }

abbrev driver : ℕ → Driver
driver i = record { connect = some i; ping_ok = true; now = 1700000000 }

asked : initial true opts ≡ 16
unfolding initial
asked = refl

new_pool_counts_example :
    ((new_pool 1 true driver opts).0 ≡ returns tt)
    × HasOnly 0 (new_pool 1 true driver opts).1
    × ((new_pool 1 true driver opts).1.is_open ≡ pos (15 + 2))
new_pool_counts_example = new_pool_counts 1 15 0 true driver opts (omega arith) asked refl

new_pool_blocks_example : (close_mysql_pool [] (new_pool 1 true driver opts).1).0 ≡ blocks
new_pool_blocks_example = new_pool_blocks 15 0 true driver opts asked refl

abbrev lent_one : Pool
lent_one = record {
  dbs = record { db = some 7; timeout = 0 } ∷ [];
  cap = 4;
  closed = false;
  max_open = pos 4;
  is_open = pos 2;
  timeout = 30;
}

lent_one-IsBalanced : IsBalanced 1 lent_one
lent_one-IsBalanced = record { counted = refl; handles = (λ e. cc, tt) }

get_db-IsBalanced_example : IsServed 1 (get_db true (driver 9) lent_one)
get_db-IsBalanced_example = get_db-IsBalanced true (driver 9) 1 lent_one lent_one-IsBalanced refl

-- The connection that was lent comes back while the pool closes.
abbrev given_back : List DbConn
given_back = record { db = some 8; timeout = 30 } ∷ []

close_mysql_pool_lem_example :
    (close_mysql_pool given_back lent_one).0
    ≡ (if ltb 0 2 && leb 2 (length lent_one.dbs + length given_back) then returns tt else blocks)
close_mysql_pool_lem_example = close_mysql_pool_lem 2 given_back lent_one refl

abbrev hash_a : Bytes
hash_a = codes "7af00"

hash_a-HasPrefix : HasPrefix 7 10 15 hash_a
unfolding digit
hash_a-HasPrefix = record {
  first = omega arith;
  second = omega arith;
  third = omega arith;
  rest = codes "00";
  spelled = refl;
}

abbrev executes_all : Executes
executes_all = record { table_ok = λ t. true; index_ok = λ t. true }

new_sql_pool_ready_example :
    ((new_sql_pool true driver (driver 9) executes_all opts).0 ≡ created)
    × HasOnly 0 (new_sql_pool true driver (driver 9) executes_all opts).1
    × Elem (table_of hash_a) (new_sql_pool true driver (driver 9) executes_all opts).2.tables
new_sql_pool_ready_example =
    new_sql_pool_ready 15 0 7 10 15 driver (driver 9) executes_all opts hash_a asked refl refl
      (λ t. refl) hash_a-HasPrefix

-- The pool with its connection lent out.
abbrev one_lent : Pool
one_lent = record (new_pool 1 true driver opts).1 { dbs = [] }

lends_it : get_db true (driver 9) (new_pool 1 true driver opts).1 ≡ (returns (some 0), one_lent)
lends_it =
    let (made, only, count) = new_pool_counts 1 15 0 true driver opts (omega arith) asked refl in
    lends 0 16 (driver 9) (new_pool 1 true driver opts).1 only (count ∙ ap pos (omega arith)) refl

sixteen_fit : 15 + 2 ≤ (fresh_pool 1 opts).cap
unfolding fresh_pool
sixteen_fit = omega arith

return_never_blocks_example :
    ((return_db (some 0) (driver 9) one_lent).0 ≡ returns tt)
    × ((get_db false (driver 9) one_lent).0 ≢ panics)
return_never_blocks_example =
    return_never_blocks 1 15 0 0 0 true false driver (driver 9) opts one_lent (omega arith) asked
      refl sixteen_fit (next here (gets true (driver 9) 0 lends_it))
