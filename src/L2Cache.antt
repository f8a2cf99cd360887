-- ===== src/L2Cache.antt =====
-- L2CACHE.go: the hash that stands at an offset of history.dat, one shard for each last hexadecimal digit of offsets.
pub mod Recall
pub mod Extend
use text.Mathlib.Text.{◌==◌ as str_eq}
use nntp_history.Prelude.{
  ℕ, suc, ◌+◌, ◌*◌, ◌%◌, ◌^◌, Bool, true, false, not, List, [], ◌∷◌, ◌++◌, Option, none, some,
  Bytes, String, Outcome, ok, fail, panic, ltb, ◌==◌, eq_bytes, if◌then◌else◌, length,
}
use nntp_history.Prelude.Int.{ℤ, pos, negsuc, ltb_ℤ, eq_ℤ}
use nntp_history.Text.Number.{format_nat}
use nntp_history.RootDbs.{hexchars}
use nntp_history.L1Cache.{wait_until}

-- L2PQItem: `expires` is a time in nanoseconds.
pub record PqItem : Type 0 where
  pub key : ℤ
  pub expires : ℕ

-- What belongs to one digit: L2CACHEMAP, the queue and the counters. An item is its hash.
pub record Shard : Type 0 where
  pub cache : ℤ → Option Bytes
  pub queue : List PqItem
  pub counter : String → ℕ

-- The cache with the global L2.
pub record L2Cache : Type 0 where
  pub enabled : Bool
  pub shards : Bytes → Option Shard

-- cnt.Counter[k]++
count : String → Shard → Shard
count k s = record s {
  counter = λ j. if str_eq k j then (s.counter j + 1) % 2 ^ 64 else s.counter j;
}

-- An offset that has a hash keeps it.
put : ℤ → Bytes → Shard → Shard
put offset hash s = record s {
  cache = λ k.
      if eq_ℤ offset k
      then (elim (s.cache k) [ none ↦ some hash | some h ↦ some h ])
      else s.cache k;
}

-- delete(ptr.cache, offset)
delete : ℤ → Shard → Shard
delete offset s = record s { cache = λ k. if eq_ℤ offset k then none else s.cache k }

with_shard : Bytes → Shard → L2Cache → L2Cache
with_shard char s l2 = record l2 { shards = λ c. if eq_bytes char c then some s else l2.shards c }

listed : Bytes → List Bytes → Bool
listed c [] = false
listed c (d ∷ ds) = let rest = listed c ds in if eq_bytes c d then true else rest

empty_shard : Shard
empty_shard = record { cache = λ k. none; queue = []; counter = λ k. 0 }

-- BootL2Cache: a shard for every character of HEXCHARS.
pub boot_l2_cache : Bool → L2Cache
unfolding listed empty_shard
boot_l2_cache enabled = record {
  enabled = enabled;
  shards = λ c. if not enabled then none else if listed c hexchars then some empty_shard else none;
}

-- OffsetToChar
pub offset_to_char : Bool → ℤ → Bytes
unfolding format_nat
offset_to_char false offset = []
offset_to_char true (negsuc n) = []
offset_to_char true (pos n) = if n == 0 then [] else format_nat 16 (n % 16)

-- DefaultCacheExpires, in seconds
abbrev l2_cache_expires : ℕ
l2_cache_expires = 5

-- Push
push : ℕ → PqItem → Shard → Shard
push now item s = record s {
  queue = s.queue ++ record { key = item.key; expires = now + item.expires * 1_000_000_000 } ∷ [];
}

-- Pop
pop : List PqItem → Shard → Option PqItem × Shard
pop [] s = (none, s)
pop (item ∷ rest) s = (some item, record s { queue = rest })

set_shard : ℕ → ℤ → Bytes → Bytes → Bool → L2Cache → Option Shard → Outcome L2Cache
unfolding push put count with_shard
set_shard now offset char hash flagexpires l2 none = panic
set_shard now offset char hash flagexpires l2 (some s) =
    let queued =
      if flagexpires then push now (record { key = offset; expires = l2_cache_expires }) s else s in
    let counter = if flagexpires then "Count_FlagEx" else "Count_Set" in
    ok (with_shard char (count counter (put offset hash queued)) l2)

-- SetOffsetHash: a shorter hash than a SHA-256 is ignored.
pub set_offset_hash : ℕ → ℤ → Bytes → Bool → L2Cache → Outcome L2Cache
unfolding set_shard
set_offset_hash now offset hash flagexpires l2 =
    if not l2.enabled
    then ok l2
    else if not (ltb_ℤ (pos 0) offset)
    then ok l2
    else if ltb (length hash) 64
    then ok l2
    else let char = offset_to_char l2.enabled offset in
      set_shard now offset char hash flagexpires l2 (l2.shards char)

get_shard : ℤ → Bytes → Option Shard → Outcome Bytes
get_shard offset rethash none = panic
get_shard offset rethash (some s) = elim (s.cache offset) [
  | none ↦ ok rethash
  | some hash ↦ ok hash
]

-- GetHashFromOffset: what `rethash` points to afterwards, given what it held.
pub get_hash_from_offset : ℤ → Bytes → L2Cache → Outcome Bytes
unfolding get_shard
get_hash_from_offset offset rethash l2 =
    if not l2.enabled
    then ok rethash
    else if not (ltb_ℤ (pos 0) offset)
    then ok rethash
    else get_shard offset rethash (l2.shards (offset_to_char l2.enabled offset))

-- One round of pqExpire.
pub pq_expire : ℕ → Shard → Option ℕ × Shard
unfolding pop delete count
pq_expire now s = elim (pop s.queue s).0 [
  | none ↦ (none, s)
  | some item ↦
      (some (wait_until now item.expires), count "Count_Delete" (delete item.key (pop s.queue s).1))
]
