-- ===== src/L1Cache.antt =====
-- L1CACHE.go: hashes that are being added or were added, kept in one shard for each prefix.
pub mod Laws
pub mod Totals
mod Tests
use nntp_history.Prelude.{
  ℕ, zero, suc, ◌+◌, ◌*◌, ◌%◌, ◌^◌, ◌-◌, Bool, true, false, ◌&&◌, not, List, [], ◌∷◌, ◌++◌, Option,
  none, some, Bytes, String, Outcome, ok, fail, panic, ltb, leb, ◌==◌, eq_bytes, if◌then◌else◌,
  length, take,
}
use text.Mathlib.Text.{◌==◌ as str_eq}
use nntp_history.Prelude.Int.{ℤ, pos, negsuc}
use nntp_history.Cases.{case_pass, case_write}

-- L1PQItem: `expires` is a time in nanoseconds.
pub record PqItem : Type 0 where
  pub key : Bytes
  pub expires : ℕ

-- What belongs to one prefix: L1CACHEMAP, the queue and the counters. An item is its value.
pub record Shard : Type 0 where
  pub cache : Bytes → Option ℕ
  pub queue : List PqItem
  pub counter : String → ℕ

-- The cache with the global L1; a prefix that was not booted has no shard.
pub record L1Cache : Type 0 where
  pub enabled : Bool
  pub cut_char : ℕ
  pub shards : Bytes → Option Shard

pub empty_shard : Shard
empty_shard = record { cache = λ k. none; queue = []; counter = λ k. 0 }

-- The booted prefixes.
listed : Bytes → List Bytes → Bool
listed c [] = false
listed c (d ∷ ds) = let rest = listed c ds in if eq_bytes c d then true else rest

-- BootL1Cache: a shard for every prefix of ROOTDBS.
pub boot_l1_cache : Bool → ℕ → List Bytes → L1Cache
unfolding listed empty_shard
boot_l1_cache enabled cut_char rootdbs = record {
  enabled = enabled;
  cut_char = cut_char;
  shards = λ c. if enabled && listed c rootdbs then some empty_shard else none;
}

-- cnt.Counter[k]++
count : String → Shard → Shard
count k s = record s {
  counter = λ j. if str_eq k j then (s.counter j + 1) % 2 ^ 64 else s.counter j;
}

-- ptr.cache[hash] = &L1ITEM{value: value}
put : Bytes → ℕ → Shard → Shard
put hash value s = record s { cache = λ k. if eq_bytes hash k then some value else s.cache k }

-- delete(ptr.cache, hash)
delete : Bytes → Shard → Shard
delete hash s = record s { cache = λ k. if eq_bytes hash k then none else s.cache k }

with_shard : Bytes → Shard → L1Cache → L1Cache
with_shard char s l1 = record l1 { shards = λ c. if eq_bytes char c then some s else l1.shards c }

-- DefaultCacheExpires, in seconds
abbrev l1_cache_expires : ℕ
l1_cache_expires = 5

-- Push: the time to live becomes a point in time.
push : ℕ → PqItem → Shard → Shard
push now item s = record s {
  queue = s.queue ++ record { key = item.key; expires = now + item.expires * 1_000_000_000 } ∷ [];
}

pop_queue : List PqItem → Shard → Option PqItem × Shard
pop_queue [] s = (none, s)
pop_queue (item ∷ rest) s = (some item, record s { queue = rest })

-- Pop
pub pop : Shard → Option PqItem × Shard
unfolding pop_queue
pop s = pop_queue s.queue s

-- What LockL1Cache does in the shard of the hash.
lock_item : Bytes → ℕ → Shard → Option ℕ → ℤ × Shard
unfolding count put
lock_item hash value s none = (pos case_pass, put hash value (count "Count_Locked" s))
lock_item hash value s (some stored) = (pos stored, s)

lock_shard : Bytes → ℕ → L1Cache → Option Shard → Outcome ℤ × L1Cache
unfolding lock_item with_shard
lock_shard hash value l1 none = (panic, l1)
lock_shard hash value l1 (some s) =
    let (code, s') = lock_item hash value s (s.cache hash) in
    (ok code, with_shard (take l1.cut_char hash) s' l1)

-- LockL1Cache: the first to come stores its value and passes; the others are told what is stored.
pub lock_l1_cache : Bytes → ℕ → L1Cache → Outcome ℤ × L1Cache
unfolding lock_shard
lock_l1_cache hash value l1 =
    if not l1.enabled
    then (ok (pos case_pass), l1)
    else if length hash == 0
    then (ok (negsuc 998), l1)
    else if ltb (length hash) l1.cut_char
    then (panic, l1)
    else lock_shard hash value l1 (l1.shards (take l1.cut_char hash))

-- The counter that Set moves.
count_set : ℕ → Bool → Shard → Shard
unfolding count
count_set value true s = count "Count_FlagEx" s
count_set value false s = if value == case_write then count "Count_Set" s else s

set_shard : ℕ → Bytes → Bytes → ℕ → Bool → L1Cache → Option Shard → Outcome L1Cache
unfolding push put count_set with_shard
set_shard now hash char value flagexpires l1 none = panic
set_shard now hash char value flagexpires l1 (some s) =
    let queued =
      if flagexpires then push now (record { key = hash; expires = l1_cache_expires }) s else s in
    ok (with_shard char (count_set value flagexpires (put hash value queued)) l1)

-- Set: a shorter hash than a SHA-256 is ignored.
pub set : ℕ → Bytes → Bytes → ℕ → Bool → L1Cache → Outcome L1Cache
unfolding set_shard
set now hash char value flagexpires l1 =
    if not l1.enabled
    then ok l1
    else if ltb (length hash) 64
    then ok l1
    else let prefix = if length char == 0 then take l1.cut_char hash else char in
      set_shard now hash prefix value flagexpires l1 (l1.shards prefix)

-- How long pqExpire sleeps for an item: not at all where its time is less than a millisecond away.
unfoldable pub wait_until : ℕ → ℕ → ℕ
wait_until now expires = if leb 1_000_000 (expires - now) then expires else now

-- One round of pqExpire: an item is popped, waited for, and its key deleted whatever was stored
-- since. The time at which the deletion happens is returned.
pub pq_expire : ℕ → Shard → Option ℕ × Shard
unfolding pop delete count wait_until
pq_expire now s = elim (pop s).0 [
  | none ↦ (none, s)
  | some item ↦
      (some (wait_until now item.expires), count "Count_Delete" (delete item.key (pop s).1))
]

-- What pqExtend receives: its timer, an item, or a nil item, which ends it.
pub data ExtendEvent : Type 0 where
  timeout : ExtendEvent
  received : PqItem → ExtendEvent
  received_nil : ExtendEvent

-- The keys of the batch that are cached are counted.
count_batch : List PqItem → Shard → Shard
unfolding count
count_batch [] s = s
count_batch (item ∷ items) s =
    count_batch items (elim (s.cache item.key) [ none ↦ s | some v ↦ count "Count_BatchD" s ])

push_batch : ℕ → List PqItem → Shard → Shard
unfolding push
push_batch now [] s = s
push_batch now (item ∷ items) s = push_batch now items (push now item s)

-- ClearEveryN
abbrev pub clear_every_n : ℕ
clear_every_n = 16

-- One round of pqExtend over what it collected (`pushq`); `none` when it returns.
pub pq_extend : ℕ → ExtendEvent → List PqItem × Shard → Option (List PqItem × Shard)
unfolding count_batch push_batch
pq_extend now received_nil (pushq, s) = none
pq_extend now timeout ([], s) = some ([], s)
pq_extend now timeout (item ∷ pushq, s) =
    some ([], push_batch now (item ∷ pushq) (count_batch (item ∷ pushq) s))
pq_extend now (received item) (pushq, s) =
    let pushq' = pushq ++ item ∷ [] in
    if leb clear_every_n (length pushq')
    then some ([], push_batch now pushq' (count_batch pushq' s))
    else some (pushq', s)
