-- ===== src/Pool/Schema/Creation.antt =====
-- What a creation that succeeds leaves in the database, and what it leaves in the pool.
use nntp_history.Prelude.{
  ℕ, Bool, true, false, List, [], ◌∷◌, Option, none, some, ◌≡◌, ◌≢◌, refl, ap, ◌∙◌, sym, Bytes,
  Elem, inl, inr, if◌then◌else◌, Bool-cases,
}
use nntp_history.Pool.{Pool, Driver, Call, returns, errs, blocks, panics, get_db, return_db}
use nntp_history.Pool.Schema.{
  Executes, Schema, Created, created, not_created, create_each, give_back, put_back, with_handle,
  create_tables_in, put_back_mysql,
}
use nntp_history.Shard.{ShardMode, create_tables_for_db, get_table_name_from_hash}
use nntp_history.Shard.Names.{HasPrefix}
use nntp_history.Shard.Place.{IsKnown}
use nntp_history.Shard.Tables.{table-Elem}

-- A table stays where it is.
create_each_keeps :
    (w : Executes) (t : Bytes) (names : List Bytes) (done : Schema)
    → Elem t done.tables
    → Elem t (create_each w names done).1.tables
unfolding create_each
create_each_keeps w t [] done h = h
create_each_keeps w t (name ∷ names) done h = elim (Bool-cases (w.table_ok name)) [
  | inl made ↦ rw made (
      create_each_keeps w t names
        (record {
          tables = name ∷ done.tables;
          indexes = if w.index_ok name then name ∷ done.indexes else done.indexes;
        })
        (inr h))
  | inr refused ↦ rw refused h
]

-- A loop that comes to its end made every table.
create_each_makes :
    (w : Executes) (t : Bytes) (names : List Bytes) (done : Schema)
    → (create_each w names done).0 ≡ true
    → Elem t names
    → Elem t (create_each w names done).1.tables
unfolding create_each
create_each_makes w t [] done ended h = elim h [ ]
create_each_makes w t (name ∷ names) done ended h = elim (Bool-cases (w.table_ok name)) [
  | inl made ↦
      let done' : Schema = record {
        tables = name ∷ done.tables;
        indexes = if w.index_ok name then name ∷ done.indexes else done.indexes;
      } in
      rw made (elim h [
        | inl e ↦ create_each_keeps w t names done' (inl e)
        | inr h' ↦ create_each_makes w t names done' (rw made at ended) h'
      ])
  | inr refused ↦ absurd (cc (rw refused at ended))
]

give_back-ne-created : (c : Call Unit × Pool) → (give_back not_created c).0 ≢ created
unfolding give_back
give_back-ne-created (returns u, s) e = cc
give_back-ne-created (errs, s) e = cc
give_back-ne-created (blocks, s) e = cc
give_back-ne-created (panics, s) e = cc

-- A loop over the tables whose success shows in the result.
put_back_made :
    (db : Option ℕ) (w : Driver) (r : Bool × Schema) (s : Pool)
    → (put_back db w r s).0 ≡ created
    → (r.0 ≡ true) × ((put_back db w r s).2 ≡ r.1)
unfolding put_back
put_back_made db w (true, schema) s e = (refl, refl)
put_back_made db w (false, schema) s e = absurd (give_back-ne-created (return_db db w s) e)

put_back_mysql_made :
    (db : Option ℕ) (w : Driver) (r : Bool × Schema) (s : Pool)
    → (put_back_mysql db w r s).0 ≡ created
    → (r.0 ≡ true) × ((put_back_mysql db w r s).2 ≡ r.1)
unfolding put_back_mysql
put_back_mysql_made db w (true, schema) s e = (refl, refl)
put_back_mysql_made db w (false, schema) s e = cc

with_handle_made :
    (body : Option ℕ → Pool → Created × Pool × Schema) (schema : Schema)
    (c : Call (Option ℕ) × Pool)
    → (with_handle body schema c).0 ≡ created
    → (h : ℕ) × (s : Pool) × (with_handle body schema c ≡ body (some h) s)
unfolding with_handle
with_handle_made body schema (returns none, s) e = cc
with_handle_made body schema (returns (some h), s) e = (h, s, refl)
with_handle_made body schema (errs, s) e = cc
with_handle_made body schema (blocks, s) e = cc
with_handle_made body schema (panics, s) e = cc

pub created_has_table :
    (mode : ShardMode) (w : Driver) (x : Executes) (schema : Schema) (s : Pool) (a b c : ℕ)
    (hash : Bytes)
    → IsKnown mode
    → HasPrefix a b c hash
    → (create_tables_in mode w x schema s).0 ≡ created
    → Elem (get_table_name_from_hash mode hash) (create_tables_in mode w x schema s).2.tables
unfolding create_tables_in
created_has_table mode w x schema s a b c hash known p e =
    let names = create_tables_for_db mode in
    let body = λ (db : Option ℕ) (s' : Pool). put_back db w (create_each x names schema) s' in
    let (h, s', same) = with_handle_made body schema (get_db true w s) e in
    let (ended, kept) =
      put_back_made (some h) w (create_each x names schema) s' (ap (λ t. t.0) (sym same) ∙ e) in
    rw (same, kept)
      (create_each_makes x (get_table_name_from_hash mode hash) names schema ended
        (table-Elem mode a b c hash known p))
