-- ===== src/L3Cache/Extend.antt =====
-- pqExtend and L3Stats of L3CACHE.go: the goroutine that takes expiring items in batches, and the counters together.
use nntp_history.Prelude.{
  ℕ, Bool, false, not, List, [], ◌∷◌, ◌++◌, Option, none, some, Bytes, String, Outcome, leb,
  if◌then◌else◌, length,
}
use nntp_history.Stats.Totals.{gather, by_key}
use nntp_history.L3Cache.{PqItem, Shard, L3Cache, count, push}

-- What pqExtend receives: its timer, an item, or a nil item, which ends it.
pub data ExtendEvent : Type 0 where
  timeout : ExtendEvent
  received : PqItem → ExtendEvent
  received_nil : ExtendEvent

-- The keys of the batch that are cached are counted.
count_batch : List PqItem → Shard → Shard
unfolding count
count_batch [] s = s
count_batch (item ∷ items) s =
    count_batch items (elim (s.cache item.key) [ none ↦ s | some v ↦ count "Count_BatchD" s ])

push_batch : ℕ → List PqItem → Shard → Shard
unfolding push
push_batch now [] s = s
push_batch now (item ∷ items) s = push_batch now items (push now item s)

-- ClearEveryN
abbrev pub clear_every_n : ℕ
clear_every_n = 16

-- One round of pqExtend over what it collected (`pushq`); `none` when it returns.
pub pq_extend : ℕ → ExtendEvent → List PqItem × Shard → Option (List PqItem × Shard)
unfolding count_batch push_batch
pq_extend now received_nil (pushq, s) = none
pq_extend now timeout ([], s) = some ([], s)
pq_extend now timeout (item ∷ pushq, s) =
    some ([], push_batch now (item ∷ pushq) (count_batch (item ∷ pushq) s))
pq_extend now (received item) (pushq, s) =
    let pushq' = pushq ++ item ∷ [] in
    if leb clear_every_n (length pushq')
    then some ([], push_batch now pushq' (count_batch pushq' s))
    else some (pushq', s)

counters : L3Cache → Bytes → Option (String → ℕ)
counters l3 char = elim (l3.shards char) [ none ↦ none | some s ↦ some s.counter ]

-- L3Stats, over ROOTDBS: the sum for one key, or, for the empty key, a map with all sums. `booted` says whether Muxers
-- were made. It does not ask whether the cache is on.
pub l3_stats : Bool → List Bytes → String → L3Cache → Outcome (ℕ × Option (String → ℕ))
unfolding counters by_key gather
l3_stats booted rootdbs statskey l3 = by_key false (not booted) statskey rootdbs (counters l3)
