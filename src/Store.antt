-- ===== src/Store.antt =====
-- The hash tables behind the index: InsertOffset and GetOffsets of MYSQL.go and SQLite.go over a
-- database and the helpers of go-utils, which are parameters.
pub mod Rows
pub mod Memory
mod Tests
use nntp_history.Prelude.{
  ℕ, ◌+◌, ◌≤◌, ◌^◌, ◌<◌, Bool, true, false, List, [], ◌∷◌, ◌++◌, Option, none, some, ◌≡◌, ◌⊎◌, ◌≢◌,
  Bytes, codes, Outcome, ok, fail, panic, ◌&&◌, ◌>>=◌, ltb, if◌then◌else◌, length, take, drop, All,
}
use nntp_history.Prelude.Int.{ℤ, pos, ltb_ℤ}
use nntp_history.Text.{split}
use nntp_history.Text.Number.{format_int}

-- Digits and lower-case letters, as in the names of tables and in the hexadecimal keys.
abbrev pub IsPlain : Bytes → Type 0
IsPlain = All (λ c. ((b'0' ≤ c) × (c ≤ b'9')) ⊎ ((b'a' ≤ c) × (c ≤ b'z')))

-- What the program relies on of a database server, of one row for each table and key.
-- `upsert` is INSERT … ON DUPLICATE KEY UPDATE o = CONCAT(o, v) (MySQL) or
-- ON CONFLICT DO UPDATE SET o = COALESCE(o, '') || v (SQLite); `select` is SELECT o … LIMIT 1, which finds a row or
-- none. Either may end in an error. `str_to_int64` is utils.Str2int64.
-- MySQL's version writes the key into the text of the query, and a comparison there passes over spaces at the end, so
-- the laws are for plain names and keys.
pub record Database : Type 1 where
  pub Db : Type 0
  pub upsert : Bytes → Bytes → Bytes → Db → Outcome Db
  pub select : Bytes → Bytes → Db → Outcome (Option Bytes)
  pub str_to_int64 : Bytes → ℤ
  pub select-upsert_self :
      (t h v : Bytes) (d d' : Db)
      → IsPlain t
      → IsPlain h
      → upsert t h v d ≡ ok d'
      → ((select t h d ≡ ok none) → select t h d' ≡ ok (some v))
        × ((o : Bytes) → select t h d ≡ ok (some o) → select t h d' ≡ ok (some (o ++ v)))
  pub select-upsert_ne :
      (t h v t' h' : Bytes) (d d' : Db)
      → IsPlain t
      → IsPlain h
      → IsPlain t'
      → IsPlain h'
      → upsert t h v d ≡ ok d'
      → (t ≢ t') ⊎ (h ≢ h')
      → select t' h' d' ≡ select t' h' d
  pub str_to_int64-decimal : (n : ℕ) → n < 2 ^ 63 → str_to_int64 (format_int 10 (pos n)) ≡ pos n
  pub str_to_int64-nil : str_to_int64 [] ≡ pos 0

-- What GetDB hands out: a connection, no connection and no error, or an error.
pub data Lease : Type 0 where
  connection nil_handle refused : Lease

-- fmt.Sprintf("s%s", key[:3]) and key[3:]; a key of less than three bytes panics.
unfoldable pub table_of : Bytes → Bytes
table_of key = b's' ∷ take 3 key

pub row_of : Bytes → Bytes
row_of key = drop 3 key

-- `offset,`
pub offset_text : ℤ → Bytes
offset_text offset = format_int 10 offset ++ b',' ∷ []

module _ (D : Database) where
  open D use {Db, upsert, select, str_to_int64}

  -- InsertOffset: `lease` is the handle that was passed in, or what GetDB(true) gave for a nil one.
  unfoldable pub insert_offset : Lease → Bytes → ℤ → Db → Outcome Db
  unfolding table_of row_of offset_text
  insert_offset refused key offset d = fail
  insert_offset nil_handle key offset d = panic
  insert_offset connection key offset d =
      if ltb (length key) 3
      then panic
      else upsert (table_of key) (row_of key) (offset_text offset) d

  -- The parts of a row that are positive numbers. MySQL's version reads empty parts too.
  positive_offsets : Bool → List Bytes → List ℤ
  positive_offsets skip_empty [] = []
  positive_offsets skip_empty (p ∷ ps) =
      let rest = positive_offsets skip_empty ps in
      if skip_empty && ltb (length p) 1
      then rest
      else if ltb_ℤ (pos 0) (str_to_int64 p)
      then str_to_int64 p ∷ rest
      else rest

  -- The offsets in the column of a row; no row and an empty column hold none.
  read_row : Bool → Option Bytes → List ℤ
  unfolding positive_offsets
  read_row skip_empty none = []
  read_row skip_empty (some []) = []
  read_row skip_empty (some (c ∷ s)) = positive_offsets skip_empty (split b',' (c ∷ s))

  -- GetOffsets of SQL (false) and of SQLite3DB (true).
  unfoldable pub get_offsets : Bool → Lease → Bytes → Db → Outcome (List ℤ)
  unfolding table_of row_of read_row
  get_offsets skip_empty refused key d = fail
  get_offsets skip_empty nil_handle key d = panic
  get_offsets skip_empty connection key d =
      if ltb (length key) 3
      then panic
      else (do row ← select (table_of key) (row_of key) d; ok (read_row skip_empty row))
