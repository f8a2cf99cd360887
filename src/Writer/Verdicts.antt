-- ===== src/Writer/Verdicts.antt =====
-- What clients are told: whatever was added is found once it is on disk, is not found before, and
-- the writer itself never reports a duplicate.
use nntp_history.Prelude.{
  ℕ, suc, ◌-◌, ◌≤◌, ◌<◌, true, false, List, [], ◌∷◌, map, Option, none, some, ◌≡◌, ◌≢◌, refl, sym,
  ap, subst, ◌∙◌, arith, Bytes, Outcome, ok, fail, panic, if◌then◌else◌, length, take, All,
  Bool-cases, inl, inr,
}
use nntp_history.Prelude.Int.{ℤ, pos}
use nntp_history.Cases.{
  HistoryIndex, HistoryObject, case_added, case_dupes, case_pass, case_retry, flag_search,
}
use nntp_history.Store.{IsPlain, Database, Lease, connection, get_offsets}
use nntp_history.Index.{Hashes, hash_db_worker, insert_reply}
use nntp_history.Index.Verdict.{Entry, IsEntry, contains, verdict_unflushed, offsets_of}
use nntp_history.Writer.{
  Config, Env, History, Round, Next, Answer, answered, silent, crashed, his_dat, worker_answer,
  ask_index, respond, append_line, after_answer, by_answer, by_query, l1_insert, arrived, leave,
  writer_round, history_writer, index_query,
}
use nntp_history.HisDat.{write_history_line}
use nntp_history.Writer.Track.{Tracks, IsIndexed, IsObject, insert_of, writer_round_insert}
use nntp_history.Writer.Log.{with_key, All-with_key}
use nntp_history.HisDat.Lines.{content}
use nntp_history.Writer.Reach.{Reach, Reach-Tracks}
use nntp_history.Writer.Query.{index_query-contains, found_offsets, ask_index_query}

module _ (D : Database) where
  -- Starting from a history with nothing in its log, and with a hash database behind its channels
  -- whose workers run, whatever was added through history_Writer, with any number of additions that
  -- the database refused between and any number of restarts of the program on an empty write buffer:
  -- once nothing waits in the write buffer, history.dat can be read and a connection is there,
  -- IndexQuery with FlagSearch answers, for a 64-byte hash of digits and lower-case letters, CaseDupes
  -- where it was added and CasePass where it was not, also where hashes share the ten bytes of their
  -- key.
  pub added_is_found :
      (cfg : Config) (env : Env) (hash : Bytes) (st : History D) (log : List Entry)
      → IsIndexed D cfg
      → Reach D cfg st log
      → env.lease ≡ connection
      → env.readable ≡ true
      → length hash ≡ 64
      → IsPlain hash
      → st.out.dw.buf ≡ []
      → (index_query D cfg env hash flag_search st).0
        ≡ ok (answered (pos (if contains hash log then case_dupes else case_pass)))
  added_is_found cfg env hash st log c r lease readable long plain flushed =
      index_query-contains D cfg env hash st log c.index_chan c.workers lease readable long plain
        flushed (Reach-Tracks D c r)

  -- With a hash database behind its channels whose workers run, after additions through
  -- history_Writer, with any number of restarts of the program on an empty write buffer between, while
  -- the line of the only entry of its key, with a hash of digits and lower-case letters, still waits
  -- in the buffer, so that its offset is not before the end of the file, IndexQuery with FlagSearch
  -- calls the hash of that entry new, although it was added.
  pub unflushed_is_new :
      (cfg : Config) (env : Env) (e : Entry) (st : History D) (log : List Entry)
      → IsIndexed D cfg
      → Reach D cfg st log
      → env.lease ≡ connection
      → env.readable ≡ true
      → IsPlain e.hash
      → with_key (take 10 e.hash) log ≡ e ∷ []
      → length st.out.dw.file ≤ e.offset
      → (index_query D cfg env e.hash flag_search st).0 ≡ ok (answered (pos case_pass))
  unfolding index_query his_dat
  unflushed_is_new cfg env e st log c r lease readable plain only waits = ground (
    arith,
    ask_index_query D cfg env
        (record { hash = e.hash; char = []; offset = flag_search; has_ret_chan = true }) st
        (pos e.offset ∷ []) c.workers refl mine.sha256 refl found,
    verdict_unflushed st.out.dw.file e.hash e.offset st.hashes.stats mine.positive waits
        mine.sha256,
    mine.sha256,
    c.index_chan,
  )
    where
      t : Tracks D st log
      t = Reach-Tracks D c r

      mine : IsEntry (content st.out.dw) e
      mine =
          (subst (All (IsEntry (content st.out.dw))) only
            (All-with_key (IsEntry (content st.out.dw)) (take 10 e.hash) log t.lines)).0

      found : get_offsets D false env.lease (take 10 e.hash) st.hashes.db ≡ ok (pos e.offset ∷ [])
      found =
          found_offsets D env.lease e.hash st log lease mine.sha256 plain t
          ∙ ap (λ es. ok (map pos (offsets_of es))) only

  worker-ne-dupes :
      (lease : Lease) (file : Option Bytes) (hi : HistoryIndex) (n : ℕ) (st : Hashes D)
      → hi.offset ≡ pos (suc n)
      → (hash_db_worker D lease file hi st).0 ≢ ok (some case_dupes)
  unfolding hash_db_worker insert_reply
  worker-ne-dupes lease file hi n st e = ground arith

  ask_index-ne-dupes :
      (cfg : Config) (env : Env) (hi : HistoryIndex) (n : ℕ) (st : History D)
      → hi.offset ≡ pos (suc n)
      → (ask_index D cfg env hi st).0 ≢ answered (pos case_dupes)
  unfolding ask_index worker_answer
  ask_index-ne-dupes cfg env hi n st e =
      ground (arith, worker-ne-dupes env.lease (his_dat D env st) hi n st.hashes e)

  index_query-ne-dupes :
      (cfg : Config) (env : Env) (hash : Bytes) (z : ℤ) (n : ℕ) (st : History D)
      → z ≡ pos (suc n)
      → (index_query D cfg env hash z st).0 ≢ ok (answered (pos case_dupes))
  unfolding index_query l1_insert
  index_query-ne-dupes cfg env hash z n st e h = ground (
    arith,
    ask_index-ne-dupes cfg env (record { hash = hash; char = []; offset = z; has_ret_chan = true })
        n st e,
  )

  reply-leave : (n : Next) (r : Round D) → (leave D n r).reply ≡ r.reply
  unfolding leave
  reply-leave Next.goes_on r = refl
  reply-leave Next.stops r = refl
  reply-leave Next.waits_forever r = refl
  reply-leave Next.crashes r = refl

  -- A reply is the answer that came.
  by_answer_dupes :
      (hobj : HistoryObject) (a : Answer) (st : History D)
      → (by_answer D hobj (a, st)).reply ≡ some (pos case_dupes)
      → a ≡ answered (pos case_dupes)
  unfolding by_answer after_answer append_line respond
  by_answer_dupes hobj (answered code) st h = ground arith
  by_answer_dupes hobj silent st h = cc
  by_answer_dupes hobj crashed st h = cc

  by_query_dupes :
      (hobj : HistoryObject) (o : Outcome Answer) (st : History D)
      → (by_query D hobj (o, st)).reply ≡ some (pos case_dupes)
      → o ≡ ok (answered (pos case_dupes))
  unfolding by_query respond
  by_query_dupes hobj (ok a) st h = ap ok (by_answer_dupes hobj a st h)
  by_query_dupes hobj fail st h = ground arith
  by_query_dupes hobj panic st h = cc

  round-ne-dupes :
      (cfg : Config) (env : Env) (o : Option HistoryObject) (n : ℕ) (st : History D)
      → st.out.offset ≡ suc n
      → (writer_round D cfg env o st).reply ≢ some (pos case_dupes)
  unfolding writer_round
  round-ne-dupes cfg env none n st e h = cc
  round-ne-dupes cfg env (some hobj) n st e h =
      let hi : HistoryIndex = record {
        hash = hobj.message_id_hash;
        char = hobj.char;
        offset = pos st.out.offset;
        has_ret_chan = cfg.global_index_chan;
      } in
      let asked = ask_index D cfg env hi st in
      let queried = index_query D cfg env hobj.message_id_hash (pos st.out.offset) st in
      ground (
        arith,
        by_answer_dupes (arrived D env hobj) asked.0 asked.1,
        ask_index-ne-dupes cfg env hi n st (ap pos e),
        by_query_dupes (arrived D env hobj) queried.0 queried.1,
        index_query-ne-dupes cfg env hobj.message_id_hash (pos st.out.offset) n st (ap pos e),
      )

  -- The reply is never CaseDupes, however the history was set up.
  history_writer-ne-dupes :
      (cfg : Config) (env : Env) (hobj : Option HistoryObject) (st : History D)
      → 0 < st.out.offset
      → (history_writer D cfg env hobj st).reply ≢ some (pos case_dupes)
  unfolding history_writer
  history_writer-ne-dupes cfg env hobj st positive h =
      round-ne-dupes cfg env hobj (st.out.offset - 1) st (omega arith) (sym (reply-leave _ _) ∙ h)

  -- What the writer replies, and what it leaves in the hash tables, by what InsertOffset does.
  abbrev pub IsTold : Outcome (D.Db) → History D → Round D → Type 0
  IsTold (ok db) st r = (r.reply ≡ some (pos case_added)) × (r.after.hashes.db ≡ db)
  IsTold fail st r = (r.reply ≡ some (pos case_retry)) × (r.after.hashes.db ≡ st.hashes.db)
  IsTold panic st r = (r.reply ≡ none) × (r.next ≡ Next.crashes)

  IsTold-leave :
      (o : Outcome (D.Db)) (st : History D) (n : Next) (r : Round D)
      → IsTold o st r
      → IsTold o st (leave D n r)
  unfolding leave
  IsTold-leave (ok db) st Next.goes_on r h = h
  IsTold-leave (ok db) st Next.stops r h = h
  IsTold-leave (ok db) st Next.waits_forever r h = h
  IsTold-leave (ok db) st Next.crashes r h = h
  IsTold-leave fail st Next.goes_on r h = h
  IsTold-leave fail st Next.stops r h = h
  IsTold-leave fail st Next.waits_forever r h = h
  IsTold-leave fail st Next.crashes r h = h
  IsTold-leave panic st Next.goes_on r h = h
  IsTold-leave panic st Next.stops r h = h
  IsTold-leave panic st Next.waits_forever r h = h
  IsTold-leave panic st Next.crashes r h = h

  IsTold-append_line :
      (hobj : HistoryObject) (reply : Option ℤ) (st st' : History D) (db : D.Db)
      → reply ≡ some (pos case_added)
      → st'.hashes.db ≡ db
      → IsTold (ok db) st (append_line D hobj reply st')
  unfolding append_line
  IsTold-append_line hobj reply st st' db told kept =
      elim (Bool-cases (write_history_line hobj false st'.out).0) [
        | inl written ↦ rw written (told, kept)
        | inr failed ↦ rw failed (told, kept)
      ]

  IsTold-by_answer :
      (hobj : HistoryObject) (o : Outcome (D.Db)) (st : History D)
      → hobj.has_response_chan ≡ true
      → IsTold o st (by_answer D hobj (worker_answer D st (insert_reply D st.hashes o)))
  unfolding by_answer after_answer respond worker_answer insert_reply
  IsTold-by_answer hobj (ok db) st chan = IsTold-append_line hobj _ st _ db (rw chan refl) refl
  IsTold-by_answer hobj fail st chan = (rw chan refl, refl)
  IsTold-by_answer hobj panic st chan = (refl, refl)

  has_response_chan-arrived :
      (env : Env) (hobj : HistoryObject)
      → (arrived D env hobj).has_response_chan ≡ hobj.has_response_chan
  unfolding arrived
  has_response_chan-arrived env hobj = ground arith

  -- With a hash database behind its channels whose workers run, for an object with a storage token, a
  -- 64-byte hash of digits and lower-case letters and a channel for the reply, and with a line to
  -- write behind the header, so at an offset greater than 0: history_Writer never replies CaseDupes,
  -- whatever was added before. Where InsertOffset, with the first ten bytes of the hash and the offset
  -- of the writer, succeeds, it replies CaseAdded and leaves the tables that InsertOffset gives; where
  -- it fails, it replies CaseRetry and leaves the tables as they were; where it panics, so does the
  -- program.
  pub writer_always_inserts :
      (cfg : Config) (env : Env) (hobj : HistoryObject) (st : History D)
      → IsIndexed D cfg
      → IsObject D hobj
      → hobj.has_response_chan ≡ true
      → 0 < st.out.offset
      → ((history_writer D cfg env (some hobj) st).reply ≢ some (pos case_dupes))
        × IsTold (insert_of D env hobj st) st (history_writer D cfg env (some hobj) st)
  unfolding history_writer
  writer_always_inserts cfg env hobj st c v chan positive = (
    history_writer-ne-dupes cfg env (some hobj) st positive,
    IsTold-leave (insert_of D env hobj st) st _ _ (
        subst (IsTold (insert_of D env hobj st) st)
          (sym (writer_round_insert D cfg env hobj st c v positive))
          (IsTold-by_answer (arrived D env hobj) (insert_of D env hobj st) st
            (has_response_chan-arrived env hobj ∙ chan))),
  )
