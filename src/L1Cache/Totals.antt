-- ===== src/L1Cache/Totals.antt =====
-- L1Stats of L1CACHE.go: the counters of all prefixes together.
use nntp_history.Prelude.{ℕ, Bool, not, List, Option, none, some, Bytes, String, Outcome}
use nntp_history.Stats.Totals.{gather, by_key}
use nntp_history.L1Cache.{L1Cache}

counters : L1Cache → Bytes → Option (String → ℕ)
counters l1 char = elim (l1.shards char) [ none ↦ none | some s ↦ some s.counter ]

-- L1Stats, over ROOTDBS: the sum for one key, or, for the empty key, a map with all sums. `booted` says whether
-- Muxers were made.
pub l1_stats : Bool → List Bytes → String → L1Cache → Outcome (ℕ × Option (String → ℕ))
unfolding counters by_key gather
l1_stats booted rootdbs statskey l1 =
    by_key (not l1.enabled) (not booted) statskey rootdbs (counters l1)
