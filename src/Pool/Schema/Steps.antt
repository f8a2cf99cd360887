-- ===== src/Pool/Schema/Steps.antt =====
-- The parts of a creation where driver and database work: the loops, the lending and the giving back.
use nntp_history.Prelude.{
  ℕ, suc, ◌+◌, ◌<◌, Bool, true, false, List, [], ◌∷◌, some, ◌≡◌, refl, arith, Bytes, Elem, inl, inr,
  if◌then◌else◌, Bool-cases, lt→ltb,
}
use nntp_history.Prelude.Int.{pos}
use nntp_history.Pool.{
  Pool, Driver, Call, returns, errs, blocks, panics, get_db, return_db, wait_for, revive,
}
use nntp_history.Pool.Counts.{HasOnly}
use nntp_history.Pool.Schema.{
  Executes, Schema, Created, created, create_each, give_back, put_back, create_each_mysql,
  put_back_mysql, then_create, no_schema,
}

create_each_mysql_keeps :
    (w : Executes) (t : Bytes) (names : List Bytes) (done : Schema)
    → Elem t done.tables
    → Elem t (create_each_mysql w names done).1.tables
unfolding create_each_mysql
create_each_mysql_keeps w t [] done h = h
create_each_mysql_keeps w t (name ∷ names) done h = elim (Bool-cases (w.table_ok name)) [
  | inl made ↦
      rw made
        (create_each_mysql_keeps w t names (record done { tables = name ∷ done.tables }) (inr h))
  | inr refused ↦ rw refused h
]

-- Where every statement is executed, every table is made.
pub create_each_mysql_all :
    (w : Executes) (names : List Bytes) (done : Schema)
    → ((t : Bytes) → w.table_ok t ≡ true)
    → ((create_each_mysql w names done).0 ≡ true)
      × ((t : Bytes) → Elem t names → Elem t (create_each_mysql w names done).1.tables)
unfolding create_each_mysql
create_each_mysql_all w [] done works = (refl, λ t h. elim h [ ])
create_each_mysql_all w (name ∷ names) done works =
    let done' : Schema = record done { tables = name ∷ done.tables } in
    let (ended, made) = create_each_mysql_all w names done' works in
    rw (works name) (
      ended,
      λ t h. elim h [
        | inl e ↦ create_each_mysql_keeps w t names done' (inl e)
        | inr h' ↦ made t h'
      ],
    )

-- A pool with one connection lends it and takes it back.
pub lends :
    (h k : ℕ) (w : Driver) (s : Pool)
    → HasOnly h s
    → s.is_open ≡ pos (suc k)
    → w.ping_ok ≡ true
    → get_db true w s ≡ (returns (some h), record s { dbs = [] })
unfolding get_db wait_for revive
lends h k w s (t, only) e ping = ground arith

pub takes_back :
    (h : ℕ) (w : Driver) (s : Pool)
    → s.closed ≡ false
    → 0 < s.cap
    → (r : Pool) × (return_db (some h) w (record s { dbs = [] }) ≡ (returns tt, r)) × HasOnly h r
unfolding return_db
takes_back h w s open_ room = (
  record s { dbs = record { db = some h; timeout = w.now + s.timeout } ∷ [] },
  rw (open_, lt→ltb 0 s.cap room) refl,
  (w.now + s.timeout, refl),
)

pub then_create-returned :
    (create : Pool → Created × Pool × Schema) (c : Call Unit × Pool)
    → c.0 ≡ returns tt
    → then_create true create c ≡ create c.1
unfolding then_create
then_create-returned create (returns u, s) e = refl
then_create-returned create (errs, s) e = cc
then_create-returned create (blocks, s) e = cc
then_create-returned create (panics, s) e = cc

pub put_back_mysql_lem :
    (h : ℕ) (w : Driver) (r : Bool × Schema) (s p : Pool)
    → r.0 ≡ true
    → return_db (some h) w s ≡ (returns tt, p)
    → put_back_mysql (some h) w r s ≡ (created, p, r.1)
unfolding put_back_mysql give_back
put_back_mysql_lem h w (true, schema) s p made back = rw (back, give_back)
put_back_mysql_lem h w (false, schema) s p made back = cc

pub not_wanted :
    (create : Pool → Created × Pool × Schema) (c : Call Unit × Pool)
    → c.0 ≡ returns tt
    → then_create false create c ≡ (created, c.1, no_schema)
unfolding then_create
not_wanted create (returns u, s) e = refl
not_wanted create (errs, s) e = cc
not_wanted create (blocks, s) e = cc
not_wanted create (panics, s) e = cc

-- The same of the SQLite loop, which makes indexes too.
pub create_each_all :
    (w : Executes) (names : List Bytes) (done : Schema)
    → ((t : Bytes) → w.table_ok t ≡ true)
    → (create_each w names done).0 ≡ true
unfolding create_each
create_each_all w [] done works = refl
create_each_all w (name ∷ names) done works = rw (works name) (
    create_each_all w names
      (record {
        tables = name ∷ done.tables;
        indexes = if w.index_ok name then name ∷ done.indexes else done.indexes;
      })
      works)

pub put_back_lem :
    (h : ℕ) (w : Driver) (r : Bool × Schema) (s p : Pool)
    → r.0 ≡ true
    → return_db (some h) w s ≡ (returns tt, p)
    → put_back (some h) w r s ≡ (created, p, r.1)
unfolding put_back give_back
put_back_lem h w (true, schema) s p made back = rw (back, give_back)
put_back_lem h w (false, schema) s p made back = cc
