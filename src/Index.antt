-- ===== src/Index.antt =====
-- hashDB_Worker, hashDB_Index and IndexQuery of nntp-history.go: the index of stored hashes.
pub mod Verdict
mod Tests
use nntp_history.Prelude.{
  ℕ, zero, suc, ◌+◌, ◌-◌, Bool, true, false, ◌&&◌, not, List, [], ◌∷◌, Option, none, some, Bytes,
  Outcome, ok, fail, panic, ltb, leb, ◌==◌, eq_bytes, if◌then◌else◌, length, take, map,
}
use nntp_history.Prelude.Int.{ℤ, pos, negsuc, ltb_ℤ, eq_ℤ}
use nntp_history.Stats.{Stats, sync_upcounter}
use nntp_history.Cases.{
  HistoryIndex, case_pass, case_dupes, case_retry, case_added, case_error, flag_search,
}
use nntp_history.HisDat.{fseek_history_message_hash}
use nntp_history.Store.{Database, Lease, insert_offset, get_offsets}
use nntp_history.L1Cache
use nntp_history.L1Cache.{L1Cache}

-- Whether history.dat has the hash at one of the offsets; what cannot be read is passed over.
found_at : Option Bytes → Bytes → List ℤ → Stats → Bool × Stats
found_at file hash [] stats = (false, stats)
found_at file hash (offset ∷ offsets) stats =
    let (read, stats') = fseek_history_message_hash file offset [] stats in
    let rest = found_at file hash offsets stats' in
    elim read [
      | ok from_file ↦ if eq_bytes from_file hash then (true, stats') else rest
      | fail ↦ rest
      | panic ↦ rest
    ]

duplicate : Stats → ℕ × Stats
duplicate stats = (case_dupes, sync_upcounter "duplicates" stats)

-- The reply to a query, from the offsets that are stored for its key.
pub verdict : Option Bytes → Bytes → List ℤ → Stats → ℕ × Stats
unfolding found_at duplicate
verdict file hash [] stats = (case_pass, stats)
verdict file hash (offset ∷ []) stats =
    let (read, stats') = fseek_history_message_hash file offset [] stats in
    elim read [
      | ok from_file ↦ if eq_bytes from_file hash then duplicate stats' else (case_pass, stats')
      | fail ↦ (case_retry, stats')
      | panic ↦ (case_retry, stats')
    ]
verdict file hash (offset ∷ next ∷ offsets) stats =
    let (found, stats') = found_at file hash (offset ∷ next ∷ offsets) stats in
    if found then duplicate stats' else (case_pass, stats')

module _ (D : Database) where
  open D use {Db}

  -- What the workers share.
  pub record Hashes : Type 0 where
    pub db : Db
    pub stats : Stats

  unfoldable pub query_reply :
      Option Bytes → Bytes → Hashes → Outcome (List ℤ) → Outcome (Option ℕ) × Hashes
  query_reply file hash st (ok offsets) =
      let (code, stats) = verdict file hash offsets st.stats in
      (ok (some code), record st { stats = stats })
  query_reply file hash st fail = (ok (some case_retry), st)
  query_reply file hash st panic = (panic, st)

  unfoldable pub insert_reply : Hashes → Outcome Db → Outcome (Option ℕ) × Hashes
  insert_reply st (ok db) =
      (ok (some case_added), record st { db = db; stats = sync_upcounter "inserted" st.stats })
  insert_reply st fail = (ok (some case_retry), st)
  insert_reply st panic = (panic, st)

  -- hashDB_Worker on one request: the reply that it sends, if any. A panic ends the program.
  -- `lease` is what GetDB(true) gives, `file` what opening history.dat gives.
  unfoldable pub hash_db_worker :
      Lease → Option Bytes → HistoryIndex → Hashes → Outcome (Option ℕ) × Hashes
  hash_db_worker lease file hi st =
      let full_key = take 10 hi.hash in
      if not hi.has_ret_chan
      then (ok none, st)
      else if ltb (length hi.hash) 10
      then (ok (some case_error), st)
      else if eq_ℤ hi.offset flag_search
      then query_reply file hi.hash st (get_offsets D false lease full_key st.db)
      else if ltb_ℤ (pos 0) hi.offset
      then insert_reply st (insert_offset D lease full_key hi.offset st.db)
      else (ok (some case_error), st)
