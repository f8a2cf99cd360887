-- ===== src/Stats/Totals.antt =====
-- The sums that L1Stats, L2Stats and L3Stats take over the counters of their shards.
use nntp_history.Prelude.{
  ℕ, ◌+◌, ◌%◌, ◌^◌, Bool, true, false, List, [], ◌∷◌, Option, none, some, Bytes, String, Outcome,
  ok, panic, if◌then◌else◌, ◌>>=◌,
}
use text.Mathlib.Text.{◌==◌ as str_eq}

-- The loop over the shards: uint64 sums for every key. A missing shard is a nil mutex.
unfoldable pub gather :
    List Bytes → (Bytes → Option (String → ℕ)) → (String → ℕ) → Outcome (String → ℕ)
gather [] counters sums = ok sums
gather (char ∷ chars) counters sums = elim (counters char) [
  | none ↦ panic
  | some counter ↦ gather chars counters (λ k. (sums k + counter k) % 2 ^ 64)
]

-- The results: both are absent where the cache is off; the map is made for the empty key alone.
unfoldable pub by_key :
    Bool
    → Bool
    → String
    → List Bytes
    → (Bytes → Option (String → ℕ))
    → Outcome (ℕ × Option (String → ℕ))
unfolding gather
by_key true unbooted statskey chars counters = ok (0, none)
by_key false true statskey chars counters =
    ok (0, if str_eq statskey "" then some (λ k. 0) else none)
by_key false false statskey chars counters = gather chars counters (λ k. 0) >>= λ sums.
    ok (if str_eq statskey "" then (0, some sums) else (sums statskey, none))
