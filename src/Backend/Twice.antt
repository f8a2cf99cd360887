-- ===== src/Backend/Twice.antt =====
-- What a first and a second hashDB_Init leave.
use nntp_history.Prelude.{
  ℕ, true, List, [], ◌≡◌, refl, ap, ◌∙◌, arith, Bytes, codes, eq_bytes, length,
}
use nntp_history.Locks.{lock_func, start_workers}
use nntp_history.Locks.Starts.{
  enumerated, start_workers_room, start_workers_full, first_lock, second_lock,
}
use nntp_history.Pool.{Pool}
use nntp_history.Pool.Counts.{initial_sixteen}
use nntp_history.Pool.Schema.{Schema, Created, created, not_created, stuck, crashed, exited}
use nntp_history.Pool.Schema.Ready.{new_sql_pool_ready}
use nntp_history.Sharded.Opened.{Works}
use nntp_history.Backend.Chosen.{prefix_zero}
use nntp_history.Backend.{mysql_opts, Backend, World, with_pool, start_index, hash_db_init}

created_by_pool :
    (b : Backend) (r : Created × Pool × Schema)
    → (with_pool b r).0 ≡ created
    → (with_pool b r).1 ≡ start_index r.1 r.2 b
unfolding with_pool
created_by_pool b (created, p, x) e = refl
created_by_pool b (not_created, p, x) e = cc
created_by_pool b (stuck, p, x) e = cc
created_by_pool b (crashed, p, x) e = cc
created_by_pool b (exited, p, x) e = cc

-- The index of a first start, with all locks free.
free_start :
    (p : Pool) (x : Schema) (b : Backend) (n : ℕ)
    → length b.rootdbs ≡ n
    → b.sub_locks ≡ record { cap = n; held = 0 }
    → b.index_lock ≡ record { cap = 1; held = 0 }
    → ((start_index p x b).hash_index
        ≡ record { prefixes = b.rootdbs; workers = enumerated 0 b.rootdbs; index_runs = true })
      × ((start_index p x b).sub_locks ≡ record { cap = n; held = n })
      × ((start_index p x b).index_lock ≡ record { cap = 1; held = 1 })
      × ((start_index p x b).rootdbs ≡ b.rootdbs)
unfolding start_index
free_start p x b n count sub index =
    let started : start_workers 0 b.rootdbs b.sub_locks
        ≡ (enumerated 0 b.rootdbs, record { cap = n; held = n }) =
      ap (start_workers 0 b.rootdbs) sub
      ∙ start_workers_room 0 b.rootdbs (record { cap = n; held = 0 }) (omega (arith, count))
      ∙ ap (λ k. (enumerated 0 b.rootdbs, record { cap = n; held = k })) (omega (arith, count)) in
    rw (started, ap lock_func index ∙ first_lock) (refl, refl, refl, refl)

-- The index of a start that finds all locks taken.
taken_start :
    (p : Pool) (x : Schema) (b : Backend) (n : ℕ)
    → b.sub_locks ≡ record { cap = n; held = n }
    → b.index_lock ≡ record { cap = 1; held = 1 }
    → b.hash_index.index_runs ≡ true
    → (start_index p x b).hash_index
      ≡ record { prefixes = b.rootdbs; workers = []; index_runs = true }
unfolding start_index
taken_start p x b n sub index runs =
    let started : start_workers 0 b.rootdbs b.sub_locks ≡ ([], record { cap = n; held = n }) =
      ap (start_workers 0 b.rootdbs) sub
      ∙ start_workers_full 0 b.rootdbs (record { cap = n; held = n }) (omega arith) in
    rw (started, ap lock_func index ∙ second_lock, runs) refl

initialized :
    (w : World) (b : Backend)
    → (hash_db_init w (codes "mysql") b).0 ≡ created
    → (p : Pool) × (x : Schema) × ((hash_db_init w (codes "mysql") b).1 ≡ start_index p x b)
unfolding hash_db_init eq_bytes
initialized w b e = (_, _, created_by_pool b _ e)

with_pool-created :
    (b : Backend) (r : Created × Pool × Schema) → r.0 ≡ created → (with_pool b r).0 ≡ created
unfolding with_pool
with_pool-created b (created, p, x) e = refl
with_pool-created b (not_created, p, x) e = cc
with_pool-created b (stuck, p, x) e = cc
with_pool-created b (crashed, p, x) e = cc
with_pool-created b (exited, p, x) e = cc

-- hashDB_Init succeeds where the server works.
pub hash_db_init-created :
    (w : World) (h : ℕ) (b : Backend)
    → Works h w.mysql
    → (hash_db_init w (codes "mysql") b).0 ≡ created
unfolding hash_db_init eq_bytes
hash_db_init-created w h b works =
    with_pool-created b _
      (new_sql_pool_ready 15 h 0 0 0 w.mysql.rounds w.mysql.driver w.mysql.executes mysql_opts _
        (initial_sixteen mysql_opts refl) works.connects works.pings works.executes prefix_zero).0

-- Where the MySQL server works, a first hashDB_Init with all locks free and a place for every prefix
-- starts a worker for every prefix and an index; after a second one that index still runs and sends
-- into the new channels, and no worker receives from any of these.
pub second_init_starts_none :
    (w w' : World) (h h' n : ℕ) (b : Backend)
    → Works h w.mysql
    → Works h' w'.mysql
    → length b.rootdbs ≡ n
    → b.sub_locks ≡ record { cap = n; held = 0 }
    → b.index_lock ≡ record { cap = 1; held = 0 }
    → let (first, b1) = hash_db_init w (codes "mysql") b in
      let (second, b2) = hash_db_init w' (codes "mysql") b1 in
      (first ≡ created)
      × (b1.hash_index
          ≡ record { prefixes = b.rootdbs; workers = enumerated 0 b.rootdbs; index_runs = true })
      × (second ≡ created)
      × (b2.hash_index ≡ record { prefixes = b.rootdbs; workers = []; index_runs = true })
second_init_starts_none w w' h h' n b works works' count sub index =
    let b1 = (hash_db_init w (codes "mysql") b).1 in
    let first = hash_db_init-created w h b works in
    let second = hash_db_init-created w' h' b1 works' in
    let (p, x, e1) = initialized w b first in
    let (q, y, e2) = initialized w' b1 second in
    let (index1, sub1, lock1, dbs1) = free_start p x b n count sub index in
    (
      first,
      ap (λ t. t.hash_index) e1 ∙ index1,
      second,
      ap (λ t. t.hash_index) e2
          ∙ taken_start q y b1 n (ap (λ t. t.sub_locks) e1 ∙ sub1)
              (ap (λ t. t.index_lock) e1 ∙ lock1)
              (ap (λ t. t.hash_index.index_runs) e1 ∙ ap (λ t. t.index_runs) index1)
          ∙ ap (λ (t : List Bytes). record { prefixes = t; workers = []; index_runs = true })
              (ap (λ t. t.rootdbs) e1 ∙ dbs1),
    )
