-- ===== src/Store/Tests.antt =====
-- Two offsets of one key and one of another, in the database in memory.
use nntp_history.Prelude.{
  ◌≢◌, false, [], ◌∷◌, ◌++◌, map, none, ◌≡◌, refl, arith, Bytes, codes, Outcome, ok, fail, panic,
  eq_bytes, eq_bytes-apart,
}
use nntp_history.Prelude.Int.{pos}
use nntp_history.Store.{IsPlain, connection, insert_offset, get_offsets}
use nntp_history.Store.Memory.{memory}
use nntp_history.Store.Rows.{
  Holds, row_text, get_offsets-Holds, insert_offset-Holds_self, insert_offset-Holds_ne,
}

abbrev key_a : Bytes
key_a = codes "0123456789"

abbrev key_b : Bytes
key_b = codes "0123456780"

abbrev empty : memory.Db
unfolding memory
empty = λ t h. none

-- What a successful call gives; the empty database for any other.
abbrev value_of : Outcome (memory.Db) → memory.Db
unfolding memory
value_of (ok d) = d
value_of fail = empty
value_of panic = empty

abbrev one_row : memory.Db
one_row = value_of (insert_offset memory connection key_a (pos 4096) empty)

abbrev two_offsets : memory.Db
two_offsets = value_of (insert_offset memory connection key_a (pos 4198) one_row)

key_a-IsPlain : IsPlain key_a
key_a-IsPlain = ground arith

key_b-IsPlain : IsPlain key_b
key_b-IsPlain = ground arith

nothing : (key : Bytes) → Holds memory empty key []
unfolding memory Holds row_text empty
nothing key = refl

first_insert : insert_offset memory connection key_a (pos 4096) empty ≡ ok one_row
unfolding memory insert_offset value_of
first_insert = refl

second_insert : insert_offset memory connection key_a (pos 4198) one_row ≡ ok two_offsets
unfolding memory insert_offset value_of
second_insert = refl

insert_offset-Holds_self_example : Holds memory one_row key_a ([] ++ 4096 ∷ [])
insert_offset-Holds_self_example =
    insert_offset-Holds_self memory empty one_row key_a [] 4096 (omega arith) key_a-IsPlain
      first_insert (nothing key_a)

apart : key_a ≢ key_b
unfolding eq_bytes
apart = eq_bytes-apart key_a key_b refl

insert_offset-Holds_ne_example : Holds memory one_row key_b []
insert_offset-Holds_ne_example =
    insert_offset-Holds_ne memory empty one_row key_a key_b [] 4096 (omega arith) key_a-IsPlain
      key_b-IsPlain apart first_insert (nothing key_b)

two_held : Holds memory two_offsets key_a (4096 ∷ 4198 ∷ [])
two_held =
    insert_offset-Holds_self memory one_row two_offsets key_a (4096 ∷ []) 4198 (omega arith)
      key_a-IsPlain second_insert
      (insert_offset-Holds_self memory empty one_row key_a [] 4096 (omega arith) key_a-IsPlain
        first_insert (nothing key_a))

get_offsets-Holds_example :
    get_offsets memory false connection key_a two_offsets ≡ ok (map pos (4096 ∷ 4198 ∷ []))
get_offsets-Holds_example =
    get_offsets-Holds memory false two_offsets key_a (4096 ∷ 4198 ∷ []) (omega arith)
      ((omega arith, omega arith), ((omega arith, omega arith), tt)) two_held
