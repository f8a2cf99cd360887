-- ===== src/Shard/Access.antt =====
-- GetDBAndTable on hashes that begin with hexadecimal digits, and on one that begins with a sign.
use mathlib.Core.List.{cons-ne-nil}
use nntp_history.Prelude.{
  ℕ, zero, suc, ◌+◌, ◌*◌, ◌/◌, ◌%◌, ◌<◌, List, [], ◌∷◌, some, ◌≡◌, refl, arith, Bytes, ok, panic,
  length, replicate, ltb, false,
}
use nntp_history.Prelude.Int.{pos, negsuc}
use nntp_history.Store.{Lease, connection}
use nntp_history.Text.Number.{digit}
use nntp_history.Text.Number.RoundTrip.{parse_int-neg-digit}
use nntp_history.Shard.{
  ShardMode, full_split, get_shard_config, go_div, go_mod, hex_to_int, index_of,
  get_db_index_from_hash, get_table_name_from_hash, pool_at, db_at, get_db_and_table,
}
use nntp_history.Shard.Names.{HasPrefix}
use nntp_history.Shard.Place.{db_index_lt}

pool_at-replicate : (n i : ℕ) (l : Lease) → i < n → pool_at (replicate n l) i ≡ ok l
unfolding pool_at
pool_at-replicate zero i l h = absurd (omega arith)
pool_at-replicate (suc n) zero l h = refl
pool_at-replicate (suc n) (suc i) l h = pool_at-replicate n i l (omega arith)

-- With a connection in the pool of every database a hash that begins with three hexadecimal digits
-- gets a connection, the name of its table and an index below the number of databases, in every mode.
pub get_db_and_table_lem :
    (mode : ShardMode) (a b c : ℕ) (hash : Bytes)
    → HasPrefix a b c hash
    → (i : ℕ) × (i < (get_shard_config mode).0)
      × (get_db_and_table mode (replicate (get_shard_config mode).0 connection) hash
          ≡ ok (connection, get_table_name_from_hash mode hash, pos i))
unfolding get_db_and_table
get_db_and_table_lem mode a b c hash p =
    let (i, e, h) = db_index_lt mode a b c hash p in
    (i, h, rw (e, db_at, pool_at-replicate (get_shard_config mode).0 i connection h))

small_index : (n : ℕ) → n < 4095 → index_of 1 4096 (some (negsuc n)) ≡ negsuc n
unfolding index_of go_div go_mod
small_index n h =
    let whole : suc n / 1 ≡ suc n = omega arith in
    let small : suc n % 4096 ≡ suc n = omega arith in rw (whole, small)

wide3 : (x y z : ℕ) (rest : Bytes) → ltb (length (x ∷ y ∷ z ∷ rest)) 3 ≡ false
wide3 x y z rest = ground arith

-- In the mode with 4096 databases a hash that begins with a minus and two hexadecimal digits, not both
-- 0, has a negative index, and GetDBAndTable panics on it whatever the pools hold.
pub signed_hash_panics :
    (a b n : ℕ) (rest : Bytes) (leases : List Lease)
    → a < 16
    → b < 16
    → a * 16 + b ≡ suc n
    → (get_db_index_from_hash full_split 4096 (b'-' ∷ digit a ∷ digit b ∷ rest) ≡ negsuc n)
      × (get_db_and_table full_split leases (b'-' ∷ digit a ∷ digit b ∷ rest) ≡ panic)
unfolding get_db_and_table
signed_hash_panics a b n rest leases ha hb e =
    (negative, unfold get_shard_config in rw (negative, db_at))
  where
    read : hex_to_int (b'-' ∷ digit a ∷ digit b ∷ []) ≡ some (negsuc n)
    read =
        unfold hex_to_int in
        parse_int-neg-digit 16 (a ∷ b ∷ []) n (cons-ne-nil _ _) (omega arith) (ha, (hb, tt))
          (omega arith) (omega arith)

    negative : get_db_index_from_hash full_split 4096 (b'-' ∷ digit a ∷ digit b ∷ rest) ≡ negsuc n
    negative =
        unfold get_db_index_from_hash in rw (wide3 _ _ _ rest, read, small_index n (omega arith))
