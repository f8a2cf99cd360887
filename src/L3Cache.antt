-- ===== src/L3Cache.antt =====
-- L3CACHE.go: offsets of keys that the hash tables may not know yet, one shard for each character.
pub mod Merge
pub mod Recall
pub mod Boot
pub mod Extend
mod Tests
use text.Mathlib.Text.{◌==◌ as str_eq}
use nntp_history.Prelude.{
  ℕ, suc, ◌+◌, ◌*◌, ◌%◌, ◌^◌, Bool, true, false, not, List, [], ◌∷◌, ◌++◌, Option, none, some,
  Bytes, String, Outcome, ok, fail, panic, ◌>>=◌, ltb, ◌==◌, eq_bytes, if◌then◌else◌, length, take,
}
use nntp_history.Prelude.Int.{ℤ, pos, ltb_ℤ, eq_ℤ}
use nntp_history.RootDbs.{hexchars}
use nntp_history.L1Cache.{wait_until}

-- L3PQItem: `expires` is a time in nanoseconds.
pub record PqItem : Type 0 where
  pub key : Bytes
  pub expires : ℕ

-- What belongs to one character: L3CACHEMAP, the queue and the counters. An item is its offsets.
pub record Shard : Type 0 where
  pub cache : Bytes → Option (List ℤ)
  pub queue : List PqItem
  pub counter : String → ℕ

-- The cache with the global L3.
pub record L3Cache : Type 0 where
  pub enabled : Bool
  pub cut_char : ℕ
  pub shards : Bytes → Option Shard

-- cnt.Counter[k]++
count : String → Shard → Shard
count k s = record s {
  counter = λ j. if str_eq k j then (s.counter j + 1) % 2 ^ 64 else s.counter j;
}

-- ptr.cache[key].offsets = offsets
unfoldable pub put : Bytes → List ℤ → Shard → Shard
put key offsets s = record s { cache = λ k. if eq_bytes key k then some offsets else s.cache k }

-- delete(ptr.cache, key)
delete : Bytes → Shard → Shard
delete key s = record s { cache = λ k. if eq_bytes key k then none else s.cache k }

with_shard : Bytes → Shard → L3Cache → L3Cache
with_shard char s l3 = record l3 { shards = λ c. if eq_bytes char c then some s else l3.shards c }

-- DefaultCacheExpires, in seconds
abbrev l3_cache_expires : ℕ
l3_cache_expires = 5

-- Push
push : ℕ → PqItem → Shard → Shard
push now item s = record s {
  queue = s.queue ++ record { key = item.key; expires = now + item.expires * 1_000_000_000 } ∷ [];
}

-- Pop
pop : List PqItem → Shard → Option PqItem × Shard
pop [] s = (none, s)
pop (item ∷ rest) s = (some item, record s { queue = rest })

-- valueExistsInSliceReverseOrder
pub value_exists_in_slice_reverse_order : ℤ → List ℤ → Bool
value_exists_in_slice_reverse_order value [] = false
value_exists_in_slice_reverse_order value (x ∷ slice) =
    let behind = value_exists_in_slice_reverse_order value slice in
    if behind then true else eq_ℤ x value

-- The loop over the new offsets from the last one on: an offset that is not positive is passed over, one that is
-- cached ends the loop, any other is appended. The new offsets are given in reversed order.
pub append_new : List ℤ → List ℤ → List ℤ
unfolding value_exists_in_slice_reverse_order
append_new [] cached = cached
append_new (offset ∷ before) cached =
    let passed = append_new before cached in
    let further = append_new before (cached ++ offset ∷ []) in
    if not (ltb_ℤ (pos 0) offset)
    then passed
    else if value_exists_in_slice_reverse_order offset cached
    then cached
    else further

pub reversed : List ℤ → List ℤ
reversed [] = []
reversed (x ∷ xs) = reversed xs ++ x ∷ []

-- What is cached for a key after new offsets came.
pub merged : List ℤ → Option (List ℤ) → List ℤ
unfolding append_new reversed
merged offsets none = offsets
merged offsets (some []) = offsets
merged offsets (some (c ∷ cached)) = append_new (reversed offsets) (c ∷ cached)

-- The counter that SetOffsets moves.
count_set : Bool → List ℤ → Shard → Shard
unfolding count
count_set true [] s = s
count_set true (x ∷ offsets) s = count "Count_FlagEx" s
count_set false offsets s = count "Count_Set" s

unfoldable pub set_shard :
    ℕ → Bytes → Bytes → List ℤ → Bool → L3Cache → Option Shard → Outcome L3Cache
unfolding push count_set with_shard put
set_shard now key char offsets flagexpires l3 none = panic
set_shard now key char offsets flagexpires l3 (some s) =
    let queued =
      if flagexpires then push now (record { key = key; expires = l3_cache_expires }) s else s in
    ok (
      with_shard char
        (put key (merged offsets (s.cache key)) (count_set flagexpires offsets queued)) l3)

-- The character of a key, where none is given; a key that is too short panics.
char_of : L3Cache → Bytes → Bytes → Outcome Bytes
char_of l3 key char =
    if not (length char == 0)
    then ok char
    else if ltb (length key) l3.cut_char
    then panic
    else ok (take l3.cut_char key)

-- SetOffsets; absent offsets stand for the nil slice.
pub set_offsets : ℕ → Bytes → Bytes → Option (List ℤ) → Bool → L3Cache → Outcome L3Cache
unfolding char_of
set_offsets now key char none flagexpires l3 =
    if not l3.enabled
    then ok l3
    else if length key == 0
    then ok l3
    else char_of l3 key char >>= λ c. ok l3
set_offsets now key char (some offsets) flagexpires l3 =
    if not l3.enabled
    then ok l3
    else if length key == 0
    then ok l3
    else char_of l3 key char >>= λ c. set_shard now key c offsets flagexpires l3 (l3.shards c)

get_shard : Bytes → Option Shard → Outcome (List ℤ)
get_shard key none = panic
get_shard key (some s) = elim (s.cache key) [ none ↦ ok [] | some offsets ↦ ok offsets ]

-- GetOffsets into an empty slice: what it holds afterwards.
pub get_offsets : Bytes → Bytes → L3Cache → Outcome (List ℤ)
unfolding char_of get_shard
get_offsets key char l3 =
    if not l3.enabled
    then ok []
    else if length key == 0
    then ok []
    else char_of l3 key char >>= λ c. get_shard key (l3.shards c)

-- One round of pqExpire, as in the L1 cache.
pub pq_expire : ℕ → Shard → Option ℕ × Shard
unfolding pop delete count
pq_expire now s = elim (pop s.queue s).0 [
  | none ↦ (none, s)
  | some item ↦
      (some (wait_until now item.expires), count "Count_Delete" (delete item.key (pop s.queue s).1))
]

listed : Bytes → List Bytes → Bool
listed c [] = false
listed c (d ∷ ds) = let rest = listed c ds in if eq_bytes c d then true else rest

pub empty_shard : Shard
empty_shard = record { cache = λ k. none; queue = []; counter = λ k. 0 }

-- The goroutines that are started for a character use its shard at once.
start_all : (Bytes → Option Shard) → List Bytes → Bool
start_all shards [] = true
start_all shards (char ∷ chars) =
    let rest = start_all shards chars in elim (shards char) [ none ↦ false | some s ↦ rest ]

-- BootL3Cache: shards for HEXCHARS, goroutines for ROOTDBS. A goroutine without a shard panics, which ends
-- the program.
pub boot_l3_cache : Bool → ℕ → List Bytes → Outcome L3Cache
unfolding listed empty_shard start_all
boot_l3_cache enabled cut_char rootdbs =
    let shards : Bytes → Option Shard = λ c. if listed c hexchars then some empty_shard else none in
    if not enabled
    then ok (record { enabled = enabled; cut_char = cut_char; shards = λ c. none })
    else if start_all shards rootdbs
    then ok (record { enabled = enabled; cut_char = cut_char; shards = shards })
    else panic
