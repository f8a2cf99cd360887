-- ===== src/Writer/Step.antt =====
-- One round of history_Writer on an object: added, or refused by the database.
use nntp_history.Prelude.{
  ◌<◌, ◌^◌, true, false, List, [], ◌∷◌, ◌++◌, some, ◌≡◌, ◌≢◌, ◌⊎◌, refl, ap, arith, Outcome, ok,
  fail, panic, inl, inr,
}
use nntp_history.Prelude.Int.{pos}
use nntp_history.Cases.{HistoryObject, case_added, case_retry}
use nntp_history.HisDat.{flush, write_history_line}
use nntp_history.HisDat.Lines.{content-flush}
use nntp_history.Store.{Database}
use nntp_history.Index.{insert_reply}
use nntp_history.Index.Verdict.{Entry}
use nntp_history.Writer.{
  Config, Env, History, Round, goes_on, worker_answer, respond, append_line, after_answer,
  by_answer, arrived, leave, history_writer,
}
use nntp_history.Writer.Track.{
  Tracks, IsIndexed, IsObject, insert_of, entry_of, writer_round_insert, message_id_hash-arrived,
  added-Tracks,
}

module _ (D : Database) where
  abbrev round_of : HistoryObject → History D → Outcome (D.Db) → Round D
  round_of hobj st inserted =
      let r = by_answer D hobj (worker_answer D st (insert_reply D st.hashes inserted)) in
      leave D r.next r

  ok_round :
      (hobj : HistoryObject) (st : History D) (db' : D.Db)
      → (round_of hobj st (ok db')).next ≡ goes_on
      → ((write_history_line hobj false st.out).0 ≡ true)
        × ((round_of hobj st (ok db')).after.out ≡ (write_history_line hobj false st.out).1)
        × ((round_of hobj st (ok db')).after.hashes.db ≡ db')
        × ((round_of hobj st (ok db')).reply ≡ respond D hobj (pos case_added))
  unfolding by_answer after_answer append_line worker_answer insert_reply leave
  ok_round hobj st db' h = ground arith

  fail_round :
      (hobj : HistoryObject) (st : History D)
      → (round_of hobj st fail).next ≡ goes_on
      → ((round_of hobj st fail).after.out.dw ≡ (flush st.out.dw).1)
        × ((round_of hobj st fail).after.out.offset ≡ st.out.offset)
        × ((round_of hobj st fail).after.hashes.db ≡ st.hashes.db)
        × ((round_of hobj st fail).reply ≡ respond D hobj (pos case_retry))
  unfolding by_answer after_answer append_line worker_answer insert_reply leave
  fail_round hobj st h = ground arith

  panic_round : (hobj : HistoryObject) (st : History D) → (round_of hobj st panic).next ≢ goes_on
  unfolding by_answer worker_answer insert_reply leave
  panic_round hobj st h = cc

  -- A flush keeps everything in step.
  flushed-Tracks :
      (st after : History D) (log : List Entry)
      → Tracks D st log
      → after.out.dw ≡ (flush st.out.dw).1
      → after.out.offset ≡ st.out.offset
      → after.hashes.db ≡ st.hashes.db
      → Tracks D after log
  flushed-Tracks st after log t dw offset db = record {
    exact = rw (offset, dw, content-flush st.out.dw) t.exact;
    rows = rw db t.rows;
    lines = rw (dw, content-flush st.out.dw) t.lines;
  }

  round_eq :
      (cfg : Config) (env : Env) (hobj : HistoryObject) (st : History D)
      → IsIndexed D cfg
      → IsObject D hobj
      → 0 < st.out.offset
      → history_writer D cfg env (some hobj) st
        ≡ round_of (arrived D env hobj) st (insert_of D env hobj st)
  unfolding history_writer
  round_eq cfg env hobj st c v positive =
      ap (λ (r : Round D). leave D r.next r) (writer_round_insert D cfg env hobj st c v positive)

  -- After a round of history_Writer that goes on, on an object with a storage token and a 64-byte hash
  -- of digits and lower-case letters, with a hash database behind its channels whose workers run:
  -- either the reply is CaseAdded and the log that file, rows and offset keep grew by the object's
  -- hash at the offset where its line begins, or the reply is CaseRetry and they keep the log as it
  -- was.
  pub history_writer-Tracks :
      (cfg : Config) (env : Env) (hobj : HistoryObject) (st : History D) (log : List Entry)
      → IsIndexed D cfg
      → IsObject D hobj
      → 0 < st.out.offset
      → st.out.offset < 2 ^ 63
      → Tracks D st log
      → (history_writer D cfg env (some hobj) st).next ≡ goes_on
      → (((history_writer D cfg env (some hobj) st).reply
            ≡ respond D (arrived D env hobj) (pos case_added))
          × Tracks D
              (history_writer D cfg env (some hobj) st).after
              (log ++ entry_of D hobj st ∷ []))
        ⊎ (((history_writer D cfg env (some hobj) st).reply
              ≡ respond D (arrived D env hobj) (pos case_retry))
            × Tracks D (history_writer D cfg env (some hobj) st).after log)
  history_writer-Tracks cfg env hobj st log c v positive fits t =
      rw (round_eq cfg env hobj st c v positive) (by_insert (insert_of D env hobj st) refl)
    where
      hobj' : HistoryObject
      hobj' = arrived D env hobj

      by_insert :
          (o : Outcome (D.Db))
          → insert_of D env hobj st ≡ o
          → (round_of hobj' st o).next ≡ goes_on
          → (((round_of hobj' st o).reply ≡ respond D hobj' (pos case_added))
              × Tracks D (round_of hobj' st o).after (log ++ entry_of D hobj st ∷ []))
            ⊎ (((round_of hobj' st o).reply ≡ respond D hobj' (pos case_retry))
                × Tracks D (round_of hobj' st o).after log)
      by_insert (ok db') e h =
          let (written, out, rows, reply) = ok_round hobj' st db' h in
          inl (
            reply,
            added-Tracks D hobj hobj' st (round_of hobj' st (ok db')).after db' log env.lease t v
                (message_id_hash-arrived D env hobj) positive fits (unfold insert_of in e) written
                out rows,
          )
      by_insert fail e h =
          let (dw, offset, rows, reply) = fail_round hobj' st h in
          inr (reply, flushed-Tracks st (round_of hobj' st fail).after log t dw offset rows)
      by_insert panic e h = absurd (panic_round hobj' st h)
