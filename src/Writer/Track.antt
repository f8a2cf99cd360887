-- ===== src/Writer/Track.antt =====
-- history.dat, the rows of the hash tables and the offset stay in step while objects are added.
use nntp_history.Prelude.{
  ℕ, suc, ◌-◌, ◌≤◌, ◌<◌, ◌^◌, true, false, List, [], ◌∷◌, ◌++◌, Option, some, ◌≡◌, ap, arith, Bytes,
  Outcome, ok, eq_bytes, eq_bytes_sound, eq_bytes_refl, length, take, All, All-append, All-map,
  Lacks, Bool-cases, inl, inr, length-take,
}
use nntp_history.Prelude.Int.{ℤ, pos}
use nntp_history.Cases.{HistoryIndex, HistoryObject}
use nntp_history.HisDat.{history_line, write_history_line}
use nntp_history.HisDat.Lines.{content, IsExact, write_history_line_lem, write_history_line-IsExact}
use nntp_history.Prelude.{All-take, ◌≢◌}
use nntp_history.Store.{IsPlain, Database, Lease, connection, nil_handle, refused, insert_offset}
use nntp_history.Store.Rows.{Holds, insert_offset-Holds_self, insert_offset-Holds_ne}
use nntp_history.Index.{Hashes}
use nntp_history.Index.Verdict.{Entry, IsEntry, offsets_of}
use nntp_history.Index.{hash_db_worker, insert_reply}
use nntp_history.Writer.{
  Config, Env, History, hash_db_index, his_dat, worker_answer, ask_index, by_answer, arrived,
  writer_round,
}
use nntp_history.RootDbs.{chars_map, to_lower}
use nntp_history.HisDat.ReadBack.{LineAt-history_line}
use nntp_history.Writer.Log.{IsEntry-append, offsets-snoc_self, offsets-snoc_ne, with_key}

-- A plain text has no tab.
IsPlain-Lacks : (s : Bytes) → IsPlain s → Lacks 9 s
IsPlain-Lacks s h = All-map _ (λ c. c ≢ 9) s (λ c p. ground arith) h

-- Whatever a hash begins with, a worker runs for it.
abbrev pub HasWorkers : Config → Type 0
HasWorkers cfg = (char : Bytes) → cfg.worker_runs (chars_map cfg.dbs char) ≡ true

module _ (D : Database) where
  -- The log of what was added: the offset is the end of all that was written, the row of each key
  -- holds the offsets of its entries, and each entry's line stands at its offset.
  pub record Tracks (st : History D) (log : List Entry) : Type 0 where
    pub exact : IsExact st.out
    pub rows :
        (key : Bytes)
        → IsPlain key
        → 3 ≤ length key
        → Holds D st.hashes.db key (offsets_of (with_key key log))
    pub lines : All (IsEntry (content st.out.dw)) log

  -- A request to add reaches InsertOffset.
  worker_insert :
      (lease : Lease) (file : Option Bytes) (hi : HistoryIndex) (n : ℕ) (st : Hashes D)
      → hi.has_ret_chan ≡ true
      → 10 ≤ length hi.hash
      → hi.offset ≡ pos (suc n)
      → hash_db_worker D lease file hi st
        ≡ insert_reply D st (insert_offset D lease (take 10 hi.hash) hi.offset st.db)
  unfolding hash_db_worker
  worker_insert lease file hi n st chan long e = ground arith

  ask_index_insert :
      (cfg : Config) (env : Env) (hi : HistoryIndex) (n : ℕ) (st : History D)
      → HasWorkers cfg
      → hi.has_ret_chan ≡ true
      → length hi.hash ≡ 64
      → hi.offset ≡ pos (suc n)
      → ask_index D cfg env hi st
        ≡ worker_answer D st (
            insert_reply D st.hashes
              (insert_offset D env.lease (take 10 hi.hash) hi.offset st.hashes.db))
  unfolding ask_index hash_db_index
  ask_index_insert cfg env hi n st runs chan long e = ground (
    arith,
    runs (to_lower (take cfg.cut_char hi.hash)),
    worker_insert env.lease (his_dat D env st) hi n st.hashes chan (omega arith) e,
  )

  -- An index that is asked through its channels.
  pub record IsIndexed (cfg : Config) : Type 0 where
    pub hash_db : cfg.use_hash_db ≡ true
    pub index_chan : cfg.has_index_chan ≡ true
    pub return_chan : cfg.global_index_chan ≡ true
    pub workers : HasWorkers cfg

  -- An object that history_Writer does not refuse, as clients send it: a SHA-256 in digits and lower-case letters, and
  -- a token.
  pub record IsObject (hobj : HistoryObject) : Type 0 where
    pub sha256 : length hobj.message_id_hash ≡ 64
    pub plain : IsPlain hobj.message_id_hash
    pub token : 0 < length hobj.storage_token

  unfoldable pub insert_of : Env → HistoryObject → History D → Outcome (D.Db)
  insert_of env hobj st =
      insert_offset D env.lease (take 10 hobj.message_id_hash) (pos st.out.offset) st.hashes.db

  pub writer_round_insert :
      (cfg : Config) (env : Env) (hobj : HistoryObject) (st : History D)
      → IsIndexed cfg
      → IsObject hobj
      → 0 < st.out.offset
      → writer_round D cfg env (some hobj) st
        ≡ by_answer D
            (arrived D env hobj)
            (worker_answer D st (insert_reply D st.hashes (insert_of env hobj st)))
  unfolding writer_round insert_of
  writer_round_insert cfg env hobj st c v positive = ground (
    arith,
    ask_index_insert cfg env
        (record {
          hash = hobj.message_id_hash;
          char = hobj.char;
          offset = pos st.out.offset;
          has_ret_chan = cfg.global_index_chan;
        })
        (st.out.offset - 1) st c.workers c.return_chan v.sha256 (ap pos (omega arith)),
  )

  pub message_id_hash-arrived :
      (env : Env) (hobj : HistoryObject)
      → (arrived D env hobj).message_id_hash ≡ hobj.message_id_hash
  unfolding arrived
  message_id_hash-arrived env hobj = ground arith

  abbrev pub entry_of : HistoryObject → History D → Entry
  entry_of hobj st = record { hash = hobj.message_id_hash; offset = st.out.offset }

  -- The row of every key after an insertion.
  rows_after :
      (hobj : HistoryObject) (st : History D) (db' : D.Db) (log : List Entry)
      → Tracks st log
      → 3 ≤ length (take 10 hobj.message_id_hash)
      → IsPlain (take 10 hobj.message_id_hash)
      → insert_offset D connection (take 10 hobj.message_id_hash) (pos st.out.offset) st.hashes.db
        ≡ ok db'
      → (key : Bytes) → IsPlain key
      → 3 ≤ length key
      → Holds D db' key (offsets_of (with_key key (log ++ entry_of hobj st ∷ [])))
  rows_after hobj st db' log t wide mine e key plain long =
      elim (Bool-cases (eq_bytes (take 10 hobj.message_id_hash) key)) [
        | inl same ↦
            rw (offsets-snoc_self key log (entry_of hobj st) same, ← eq_bytes_sound _ key same)
              (insert_offset-Holds_self D st.hashes.db db' (take 10 hobj.message_id_hash) _
                st.out.offset wide mine e (t.rows (take 10 hobj.message_id_hash) mine wide))
        | inr apart ↦ rw (offsets-snoc_ne key log (entry_of hobj st) apart) (
            insert_offset-Holds_ne D st.hashes.db db' (take 10 hobj.message_id_hash) key _
              st.out.offset wide mine plain
              (λ p. cc (
                apart,
                ap (λ k. eq_bytes (take 10 hobj.message_id_hash) k) p,
                eq_bytes_refl (take 10 hobj.message_id_hash),
              ))
              e (t.rows key plain long))
      ]

  -- An insertion that succeeded had a connection.
  insert_connection :
      (lease : Lease) (key : Bytes) (z : ℤ) (d d' : D.Db)
      → insert_offset D lease key z d ≡ ok d'
      → insert_offset D connection key z d ≡ ok d'
  unfolding insert_offset
  insert_connection connection key z d d' e = e
  insert_connection nil_handle key z d d' e = cc
  insert_connection refused key z d d' e = cc

  -- The state after an addition: a new row, a new line and the counters.
  pub added-Tracks :
      (hobj hobj' : HistoryObject) (st after : History D) (db' : D.Db) (log : List Entry)
      (lease : Lease)
      → Tracks st log
      → IsObject hobj
      → hobj'.message_id_hash ≡ hobj.message_id_hash
      → 0 < st.out.offset
      → st.out.offset < 2 ^ 63
      → insert_offset D lease (take 10 hobj.message_id_hash) (pos st.out.offset) st.hashes.db
        ≡ ok db'
      → (write_history_line hobj' false st.out).0 ≡ true
      → after.out ≡ (write_history_line hobj' false st.out).1
      → after.hashes.db ≡ db'
      → Tracks after (log ++ entry_of hobj st ∷ [])
  added-Tracks hobj hobj' st after db' log lease t v same positive fits e written out rows =
      record {
        exact = rw out (write_history_line-IsExact hobj' false st.out t.exact written);
        rows = rw rows (
            rows_after hobj st db' log t wide (All-take _ 10 hobj.message_id_hash v.plain) (
              insert_connection lease (take 10 hobj.message_id_hash) (pos st.out.offset)
                st.hashes.db db' e));
        lines =
            rw (out, (write_history_line_lem hobj' false st.out written).0)
              (All-append (IsEntry _) log _
                (All-map (IsEntry (content st.out.dw)) (IsEntry _) log
                  (λ x h. IsEntry-append (content st.out.dw) (history_line hobj') x h) t.lines)
                (
                  record {
                    sha256 = v.sha256;
                    no_tab = IsPlain-Lacks hobj.message_id_hash v.plain;
                    positive = positive;
                    in_int64 = fits;
                    line =
                        rw (← same)
                          (LineAt-history_line (content st.out.dw) hobj' st.out.offset t.exact);
                  },
                  tt,
                ));
      }
    where
      wide : 3 ≤ length (take 10 hobj.message_id_hash)
      wide = omega (arith, length-take 10 hobj.message_id_hash, v.sha256)
