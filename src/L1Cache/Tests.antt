-- ===== src/L1Cache/Tests.antt =====
-- A cache with one booted prefix.
use nntp_history.Prelude.{
  true, [], ◌∷◌, none, some, ◌≡◌, refl, arith, Bytes, codes, replicate, eq_bytes, if◌then◌else◌, ok,
}
use nntp_history.Prelude.Int.{pos}
use nntp_history.Cases.{case_pass, case_dupes, case_added}
use nntp_history.L1Cache.{PqItem, Shard, L1Cache, empty_shard, lock_l1_cache, set}
use nntp_history.L1Cache.Laws.{IsBooted, lock-lock, lock-set}

abbrev hash_a : Bytes
hash_a = replicate 64 b'a'

abbrev hash_b : Bytes
hash_b = replicate 64 b'b'

abbrev booted : L1Cache
booted = record {
  enabled = true;
  cut_char = 3;
  shards = λ c. if eq_bytes c (codes "aaa") then some empty_shard else none;
}

booted-IsBooted : IsBooted hash_a booted empty_shard
unfolding eq_bytes
booted-IsBooted = record {
  enabled = refl;
  nonempty = omega arith;
  long = omega arith;
  shard = refl;
}

nothing_cached : empty_shard.cache hash_a ≡ none
unfolding empty_shard
nothing_cached = refl

lock-lock_example :
    ((lock_l1_cache hash_a case_dupes booted).0 ≡ ok (pos case_pass))
    × ((lock_l1_cache hash_a case_pass (lock_l1_cache hash_a case_dupes booted).1).0
        ≡ ok (pos case_dupes))
lock-lock_example =
    lock-lock hash_a case_dupes case_pass booted empty_shard booted-IsBooted nothing_cached

lock-set_example :
    (l1' : L1Cache) × (set 0 hash_a [] case_added true booted ≡ ok l1')
    × ((lock_l1_cache hash_a case_dupes l1').0 ≡ ok (pos case_added))
lock-set_example =
    lock-set 0 hash_a case_added case_dupes true booted empty_shard booted-IsBooted refl

abbrev item : PqItem
item = record { key = hash_a; expires = 5 }

abbrev waiting : Shard
waiting = record {
  cache = λ k. if eq_bytes k hash_a then some case_added else none;
  queue = item ∷ [];
  counter = λ k. 0;
}
