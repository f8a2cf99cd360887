-- ===== src/Stats.antt =====
-- STATS.go: the counters of a history, kept only while DEBUG is set.
pub mod Totals
use text.Mathlib.Text.{◌==◌}
use nntp_history.Prelude.{ℕ, ◌+◌, ◌%◌, ◌^◌, Bool, String, if◌then◌else◌}

pub record Stats : Type 0 where
  pub debug : Bool
  pub counter : String → ℕ

-- Sync_upcounterN: a uint64 counter wraps around.
unfoldable pub sync_upcounter_n : String → ℕ → Stats → Stats
sync_upcounter_n k v s =
    if s.debug
    then record s { counter = λ j. if k == j then (s.counter j + v) % 2 ^ 64 else s.counter j }
    else s

-- Sync_upcounter
unfoldable pub sync_upcounter : String → Stats → Stats
unfolding sync_upcounter_n
sync_upcounter k s = sync_upcounter_n k 1 s

-- GetCounter
pub get_counter : Stats → String → ℕ
get_counter s k = s.counter k
