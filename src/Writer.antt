-- ===== src/Writer.antt =====
-- history_Writer and what it asks: hashDB_Index, IndexQuery, AddHistory (nntp-history.go).
pub mod Log
pub mod Track
pub mod Step
pub mod Query
pub mod Reach
pub mod Verdicts
pub mod Routing
mod Tests
use nntp_history.Prelude.{
  ℕ, zero, suc, ◌+◌, ◌-◌, ◌%◌, ◌^◌, Bool, true, false, ◌&&◌, not, List, [], ◌∷◌, Option, none, some,
  Bytes, Outcome, ok, fail, panic, ltb, leb, ◌==◌, eq_bytes, if◌then◌else◌, length, take,
}
use nntp_history.Prelude.Int.{ℤ, pos, negsuc, ltb_ℤ, eq_ℤ}
use nntp_history.Cases.{
  HistoryIndex, HistoryObject, case_pass, case_dupes, case_retry, case_added, case_error,
  flag_search,
}
use nntp_history.HisDat.{Appender, Writer, flush, write_history_line}
use nntp_history.Store.{Database, Lease}
use nntp_history.L1Cache
use nntp_history.L1Cache.{L1Cache}
use nntp_history.Index.{Hashes, hash_db_worker}
use nntp_history.RootDbs.{chars_map, to_lower}

-- How the history was set up: UseHashDB, whether his.IndexChan and History.IndexChan were made, the cut of a
-- prefix, ROOTDBS, and whether a hashDB_Worker receives from the channel of a number.
pub record Config : Type 0 where
  pub use_hash_db : Bool
  pub has_index_chan : Bool
  pub global_index_chan : Bool
  pub cut_char : ℕ
  pub dbs : List Bytes
  pub worker_runs : ℕ → Bool

-- What the surroundings answer during one request: the lease of a connection, whether history.dat opens, the time
-- in seconds and in nanoseconds.
pub record Env : Type 0 where
  pub lease : Lease
  pub readable : Bool
  pub now : ℕ
  pub now_nano : ℕ

-- One round of a goroutine of hashDB_Index: it ends, or hands the request to a worker.
pub data Dispatch : Type 0 where
  ends : Dispatch
  to_worker : ℕ → Dispatch

pub hash_db_index : Config → Option HistoryIndex → Dispatch
hash_db_index cfg none = ends
hash_db_index cfg (some hi) =
    if ltb (length hi.hash) 64
    then ends
    else if eq_ℤ hi.offset (pos 0)
    then ends
    else to_worker (chars_map cfg.dbs (to_lower (take cfg.cut_char hi.hash)))

-- What comes back over a return channel: a code, nothing ever, or the end of the program.
pub data Answer : Type 0 where
  answered : ℤ → Answer
  silent crashed : Answer

-- What the loop of history_Writer does after a request.
pub data Next : Type 0 where
  goes_on stops waits_forever crashes : Next

module _ (D : Database) where
  -- The state of the writer goroutine and of what it talks to.
  pub record History : Type 0 where
    pub out : Appender
    pub wrote_lines : ℕ
    pub hashes : Hashes D
    pub l1 : L1Cache

  -- The file as another opening of it reads it.
  pub his_dat : Env → History → Option Bytes
  his_dat env st = if env.readable then some st.out.dw.file else none

  pub worker_answer : History → Outcome (Option ℕ) × Hashes D → Answer × History
  worker_answer st (ok none, hashes) = (silent, record st { hashes = hashes })
  worker_answer st (ok (some code), hashes) = (answered (pos code), record st { hashes = hashes })
  worker_answer st (fail, hashes) = (silent, record st { hashes = hashes })
  worker_answer st (panic, hashes) = (crashed, record st { hashes = hashes })

  -- A request through IndexChan: hashDB_Index, and the worker that it is handed to. Nothing comes back from a channel
  -- that is nil or that no worker receives from.
  pub ask_index : Config → Env → HistoryIndex → History → Answer × History
  ask_index cfg env hi st = elim (hash_db_index cfg (some hi)) [
    | ends ↦ (silent, st)
    | to_worker i ↦
        if cfg.worker_runs i
        then worker_answer st (hash_db_worker D env.lease (his_dat env st) hi st.hashes)
        else (silent, st)
  ]

  pub l1_insert : History → Outcome L1Cache → Outcome Answer × History
  l1_insert st (ok l1) = (ok (answered (pos case_added)), record st { l1 = l1 })
  l1_insert st fail = (panic, st)
  l1_insert st panic = (panic, st)

  pub l1_query : History → Outcome ℤ × L1Cache → Outcome Answer × History
  l1_query st (ok code, l1) = (
    ok (answered (if eq_ℤ code (pos case_pass) then pos case_pass else pos case_dupes)),
    record st { l1 = l1 },
  )
  l1_query st (fail, l1) = (panic, st)
  l1_query st (panic, l1) = (panic, st)

  -- IndexQuery: an error is `fail`. A nil return channel is replaced by a new one.
  pub index_query : Config → Env → Bytes → ℤ → History → Outcome Answer × History
  index_query cfg env hash offset st =
      if ltb (length hash) 64
      then (fail, st)
      else if cfg.has_index_chan
      then (let asked : HistoryIndex = record {
        hash = hash;
        char = [];
        offset = if ltb_ℤ (pos 0) offset then offset else flag_search;
        has_ret_chan = true;
      } in
          let (answer, st') = ask_index cfg env asked st in (ok answer, st'))
      else if cfg.use_hash_db
      then (fail, st)
      else if ltb_ℤ (pos 0) offset
      then l1_insert st (L1Cache.set env.now_nano hash [] case_added true st.l1)
      else l1_query st (L1Cache.lock_l1_cache hash case_dupes st.l1)

  -- One round of history_Writer: what it does next, what it sends to the response channel, and the
  -- state. The channel is closed after an error reply.
  pub record Round : Type 0 where
    pub next : Next
    pub reply : Option ℤ
    pub after : History

  pub respond : HistoryObject → ℤ → Option ℤ
  respond hobj code = if hobj.has_response_chan then some code else none

  pub append_line : HistoryObject → Option ℤ → History → Round
  append_line hobj reply st =
      let (written, out) = write_history_line hobj false st.out in
      if written
      then record {
        next = goes_on;
        reply = reply;
        after = record st { out = out; wrote_lines = (st.wrote_lines + 1) % 2 ^ 64 };
      }
      else record { next = stops; reply = reply; after = record st { out = out } }

  -- `switch isDup`
  pub after_answer : HistoryObject → History → ℤ → Round
  unfolding respond append_line
  after_answer hobj st code =
      let reply = respond hobj code in
      if eq_ℤ code (pos case_dupes)
      then record { next = goes_on; reply = reply; after = st }
      else if eq_ℤ code (pos case_retry)
      then (let (flushed, dw) = flush st.out.dw in
          record {
            next = if flushed then goes_on else stops;
            reply = reply;
            after = record st { out = record (st.out) { dw = dw } };
          })
      else if eq_ℤ code (pos case_added)
      then append_line hobj reply st
      else record { next = stops; reply = reply; after = st }

  pub by_answer : HistoryObject → Answer × History → Round
  unfolding after_answer
  by_answer hobj (answered code, st) = after_answer hobj st code
  by_answer hobj (silent, st) = record { next = waits_forever; reply = none; after = st }
  by_answer hobj (crashed, st) = record { next = crashes; reply = none; after = st }

  pub by_query : HistoryObject → Outcome Answer × History → Round
  unfolding by_answer respond
  by_query hobj (ok answer, st) = by_answer hobj (answer, st)
  by_query hobj (fail, st) = record {
    next = stops;
    reply = respond hobj (pos case_error);
    after = st;
  }
  by_query hobj (panic, st) = record { next = crashes; reply = none; after = st }

  -- An arrival of 0 is replaced by the time.
  pub arrived : Env → HistoryObject → HistoryObject
  arrived env hobj =
      if eq_ℤ hobj.arrival (pos 0) then record hobj { arrival = pos env.now } else hobj

  -- Where the loop is left, the buffer is flushed once more.
  pub leave : Next → Round → Round
  leave stops r = record r {
    after = record (r.after) { out = record (r.after.out) { dw = (flush r.after.out.dw).1 } };
  }
  leave goes_on r = r
  leave waits_forever r = r
  leave crashes r = r

  -- A round of the loop; `none` is the nil object that stops it.
  pub writer_round : Config → Env → Option HistoryObject → History → Round
  writer_round cfg env none st = record { next = stops; reply = none; after = st }
  writer_round cfg env (some hobj) st =
      let hobj' = arrived env hobj in
      if length hobj.message_id_hash == 0
      then record { next = stops; reply = none; after = st }
      else if length hobj.storage_token == 0
      then record { next = stops; reply = none; after = st }
      else if cfg.use_hash_db && cfg.has_index_chan
      then by_answer hobj' (
          ask_index cfg env
            (record {
              hash = hobj.message_id_hash;
              char = hobj.char;
              offset = pos st.out.offset;
              has_ret_chan = cfg.global_index_chan;
            })
            st)
      else by_query hobj' (index_query cfg env hobj.message_id_hash (pos st.out.offset) st)

  -- history_Writer on what it receives.
  pub history_writer : Config → Env → Option HistoryObject → History → Round
  unfolding leave writer_round
  history_writer cfg env hobj st = let r = writer_round cfg env hobj st in leave r.next r

  -- AddHistory: -999 where there is no channel to the writer or the response channel was closed;
  -- `none` where no response ever comes.
  pub add_history : Config → Env → Bool → Option HistoryObject → History → Option ℤ × History
  unfolding history_writer
  add_history cfg env has_writer none st = (some (negsuc 998), st)
  add_history cfg env has_writer (some hobj) st =
      if not has_writer
      then (some (negsuc 998), st)
      else let round = history_writer cfg env (some hobj) st in (round.reply, round.after)
