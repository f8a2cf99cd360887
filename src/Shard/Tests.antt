-- ===== src/Shard/Tests.antt =====
-- Places of concrete hashes.
use nntp_history.Prelude.{◌≡◌, refl, arith, Bytes, codes, take}
use nntp_history.Text.Number.{digit}
use nntp_history.Shard.{
  shard_64_64, get_shard_config, get_db_index_from_hash, get_table_name_from_hash,
}
use nntp_history.Shard.Names.{HasPrefix}
use nntp_history.Shard.Place.{place_injective}

abbrev hash_a : Bytes
hash_a = codes "7af00"

abbrev hash_b : Bytes
hash_b = codes "7afff"

hash_a-HasPrefix : HasPrefix 7 10 15 hash_a
unfolding digit
hash_a-HasPrefix = record {
  first = omega arith;
  second = omega arith;
  third = omega arith;
  rest = codes "00";
  spelled = refl;
}

hash_b-HasPrefix : HasPrefix 7 10 15 hash_b
unfolding digit
hash_b-HasPrefix = record {
  first = omega arith;
  second = omega arith;
  third = omega arith;
  rest = codes "ff";
  spelled = refl;
}

same_db :
    get_db_index_from_hash shard_64_64 (get_shard_config shard_64_64).0 hash_a
    ≡ get_db_index_from_hash shard_64_64 (get_shard_config shard_64_64).0 hash_b
unfolding get_db_index_from_hash get_shard_config
same_db = refl

same_table :
    get_table_name_from_hash shard_64_64 hash_a ≡ get_table_name_from_hash shard_64_64 hash_b
unfolding get_table_name_from_hash
same_table = refl

place_injective_example : take 3 hash_a ≡ take 3 hash_b
place_injective_example =
    place_injective shard_64_64 7 10 15 7 10 15 hash_a hash_b tt hash_a-HasPrefix hash_b-HasPrefix
      same_db same_table
