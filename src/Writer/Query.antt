-- ===== src/Writer/Query.antt =====
-- A query through the index: what IndexQuery tells of a hash.
use nntp_history.Prelude.{
  ◌≤◌, true, false, List, [], ◌∷◌, append-nil, map, some, ◌≡◌, refl, arith, Bytes, ok,
  if◌then◌else◌, length, take, All, length-take,
}
use nntp_history.Prelude.Int.{ℤ, pos}
use nntp_history.Cases.{HistoryIndex, case_dupes, case_pass, flag_search}
use nntp_history.HisDat.Lines.{content}
use nntp_history.Prelude.{All-take}
use nntp_history.Store.{IsPlain, Database, Lease, connection, get_offsets}
use nntp_history.Store.Rows.{IsOffset, get_offsets-Holds}
use nntp_history.Index.{verdict, hash_db_worker, query_reply}
use nntp_history.Index.Verdict.{Entry, IsEntry, offsets_of, contains, verdict-contains}
use nntp_history.Writer.{
  Config, Env, History, answered, hash_db_index, his_dat, worker_answer, ask_index, index_query,
}
use nntp_history.Writer.Track.{Tracks, HasWorkers}
use nntp_history.RootDbs.{to_lower}
use nntp_history.Writer.Log.{with_key, All-with_key, contains-with_key}

module _ (D : Database) where
  -- A query reaches the verdict on the offsets of its key.
  pub ask_index_query :
      (cfg : Config) (env : Env) (hi : HistoryIndex) (st : History D) (offsets : List ℤ)
      → HasWorkers cfg
      → hi.has_ret_chan ≡ true
      → length hi.hash ≡ 64
      → hi.offset ≡ flag_search
      → get_offsets D false env.lease (take 10 hi.hash) st.hashes.db ≡ ok offsets
      → (ask_index D cfg env hi st).0
        ≡ answered (pos (verdict (his_dat D env st) hi.hash offsets st.hashes.stats).0)
  unfolding ask_index hash_db_index worker_answer hash_db_worker query_reply
  ask_index_query cfg env hi st offsets runs chan long search e =
      ground (arith, runs (to_lower (take cfg.cut_char hi.hash)))

  IsOffset-offsets_of :
      (text : Bytes) (es : List Entry) → All (IsEntry text) es → All IsOffset (offsets_of es)
  IsOffset-offsets_of text [] h = tt
  IsOffset-offsets_of text (e ∷ es) h =
      ((h.0.positive, h.0.in_int64), IsOffset-offsets_of text es h.1)

  -- What GetOffsets gives for the key of a hash.
  pub found_offsets :
      (lease : Lease) (hash : Bytes) (st : History D) (log : List Entry)
      → lease ≡ connection
      → length hash ≡ 64
      → IsPlain hash
      → Tracks D st log
      → get_offsets D false lease (take 10 hash) st.hashes.db
        ≡ ok (map pos (offsets_of (with_key (take 10 hash) log)))
  found_offsets lease hash st log leased long plain t = rw leased (
      get_offsets-Holds D false st.hashes.db (take 10 hash) _ wide
        (IsOffset-offsets_of (content st.out.dw) (with_key (take 10 hash) log)
          (All-with_key (IsEntry (content st.out.dw)) (take 10 hash) log t.lines))
        (t.rows (take 10 hash) (All-take _ 10 hash plain) wide))
    where
      wide : 3 ≤ length (take 10 hash)
      wide = omega (arith, length-take 10 hash, long)

  -- Where everything written is on disk, IndexQuery with FlagSearch tells whether a hash was added: CaseDupes for a
  -- hash of the log and CasePass for any other, also for one that shares its key with hashes of the log.
  pub index_query-contains :
      (cfg : Config) (env : Env) (hash : Bytes) (st : History D) (log : List Entry)
      → cfg.has_index_chan ≡ true
      → HasWorkers cfg
      → env.lease ≡ connection
      → env.readable ≡ true
      → length hash ≡ 64
      → IsPlain hash
      → st.out.dw.buf ≡ []
      → Tracks D st log
      → (index_query D cfg env hash flag_search st).0
        ≡ ok (answered (pos (if contains hash log then case_dupes else case_pass)))
  unfolding index_query
  index_query-contains cfg env hash st log chan runs lease readable long plain flushed t = ground (
    arith,
    ask_index_query cfg env
        (record { hash = hash; char = []; offset = flag_search; has_ret_chan = true }) st
        (map pos (offsets_of mine)) runs refl long refl
        (found_offsets env.lease hash st log lease long plain t),
    judged,
  )
    where
      mine : List Entry
      mine = with_key (take 10 hash) log

      on_disk : All (IsEntry st.out.dw.file) log
      on_disk = rw (← append-nil st.out.dw.file, ← flushed) t.lines

      opened : his_dat D env st ≡ some st.out.dw.file
      opened = unfold his_dat in rw readable

      judged :
          (verdict (his_dat D env st) hash (map pos (offsets_of mine)) st.hashes.stats).0
          ≡ (if contains hash log then case_dupes else case_pass)
      judged =
          rw (opened, ← contains-with_key hash log)
            (verdict-contains st.out.dw.file hash mine st.hashes.stats
              (All-with_key (IsEntry st.out.dw.file) (take 10 hash) log on_disk))
