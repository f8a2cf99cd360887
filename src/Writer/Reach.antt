-- ===== src/Writer/Reach.antt =====
-- The states that additions lead to, with the log of what was added.
use nntp_history.Prelude.{
  ℕ, ◌<◌, ◌^◌, true, List, [], ◌∷◌, ◌++◌, some, ◌≡◌, ◌≢◌, sym, ◌∙◌, arith, inl, inr,
}
use nntp_history.Prelude.Int.{ℤ, pos}
use nntp_history.Cases.{HistoryObject, case_added, case_retry}
use nntp_history.Store.{Database}
use nntp_history.Index.Verdict.{Entry}
use nntp_history.Stats.{Stats}
use nntp_history.L1Cache.{L1Cache}
use nntp_history.Boot.Kept.{restarted_from, restarted_from-Tracks}
use nntp_history.Writer.{Config, Env, History, goes_on, respond, arrived, history_writer}
use nntp_history.Writer.Track.{Tracks, IsIndexed, IsObject, entry_of}
use nntp_history.Writer.Step.{history_writer-Tracks}

added-ne-retry : some (pos case_added) ≢ some (pos case_retry)
added-ne-retry e = ground arith

module _ (D : Database) where
  -- The states that additions lead to, with the log of what was added.
  pub data Reach (cfg : Config) : History D → List Entry → Type 0 where
    booted : {st : History D} → Tracks D st [] → Reach cfg st []
    added :
        {st : History D} {log : List Entry} (env : Env) (hobj : HistoryObject)
        → Reach cfg st log
        → IsObject D hobj
        → hobj.has_response_chan ≡ true
        → 0 < st.out.offset
        → st.out.offset < 2 ^ 63
        → (history_writer D cfg env (some hobj) st).next ≡ goes_on
        → (history_writer D cfg env (some hobj) st).reply ≡ some (pos case_added)
        → Reach cfg (history_writer D cfg env (some hobj) st).after (log ++ entry_of D hobj st ∷ [])
    retried :
        {st : History D} {log : List Entry} (env : Env) (hobj : HistoryObject)
        → Reach cfg st log
        → IsObject D hobj
        → hobj.has_response_chan ≡ true
        → 0 < st.out.offset
        → st.out.offset < 2 ^ 63
        → (history_writer D cfg env (some hobj) st).next ≡ goes_on
        → (history_writer D cfg env (some hobj) st).reply ≡ some (pos case_retry)
        → Reach cfg (history_writer D cfg env (some hobj) st).after log
    restarted :
        {st : History D} {log : List Entry} (room : ℕ) (stats : Stats) (l1 : L1Cache)
        → Reach cfg st log
        → st.out.dw.buf ≡ []
        → Reach cfg (restarted_from D room stats l1 st) log

  respond_lem :
      (env : Env) (hobj : HistoryObject) (code : ℤ)
      → hobj.has_response_chan ≡ true
      → respond D (arrived D env hobj) code ≡ some code
  unfolding respond arrived
  respond_lem env hobj code chan = ground arith

  added_step :
      (cfg : Config) (env : Env) (hobj : HistoryObject) (st : History D) (log : List Entry)
      → IsIndexed D cfg
      → IsObject D hobj
      → hobj.has_response_chan ≡ true
      → 0 < st.out.offset
      → st.out.offset < 2 ^ 63
      → Tracks D st log
      → (history_writer D cfg env (some hobj) st).next ≡ goes_on
      → (history_writer D cfg env (some hobj) st).reply ≡ some (pos case_added)
      → Tracks D (history_writer D cfg env (some hobj) st).after (log ++ entry_of D hobj st ∷ [])
  added_step cfg env hobj st log c v chan positive fits t on e =
      elim (history_writer-Tracks D cfg env hobj st log c v positive fits t on) [
        | inl a ↦ a.1
        | inr b ↦ absurd (added-ne-retry (sym e ∙ b.0 ∙ respond_lem env hobj (pos case_retry) chan))
      ]

  retried_step :
      (cfg : Config) (env : Env) (hobj : HistoryObject) (st : History D) (log : List Entry)
      → IsIndexed D cfg
      → IsObject D hobj
      → hobj.has_response_chan ≡ true
      → 0 < st.out.offset
      → st.out.offset < 2 ^ 63
      → Tracks D st log
      → (history_writer D cfg env (some hobj) st).next ≡ goes_on
      → (history_writer D cfg env (some hobj) st).reply ≡ some (pos case_retry)
      → Tracks D (history_writer D cfg env (some hobj) st).after log
  retried_step cfg env hobj st log c v chan positive fits t on e =
      elim (history_writer-Tracks D cfg env hobj st log c v positive fits t on) [
        | inl a ↦
            absurd (added-ne-retry (sym (respond_lem env hobj (pos case_added) chan) ∙ sym a.0 ∙ e))
        | inr b ↦ b.1
      ]

  pub Reach-Tracks :
      {cfg : Config} {st : History D} {log : List Entry}
      → IsIndexed D cfg
      → Reach cfg st log
      → Tracks D st log
  Reach-Tracks c (booted t) = t
  Reach-Tracks {cfg} c (added {st = s} {log = l} env hobj r v chan positive fits on e) =
      added_step cfg env hobj s l c v chan positive fits (Reach-Tracks c r) on e
  Reach-Tracks {cfg} c (retried {st = s} {log = l} env hobj r v chan positive fits on e) =
      retried_step cfg env hobj s l c v chan positive fits (Reach-Tracks c r) on e
  Reach-Tracks {cfg} c (restarted {st = s} {log = l} room stats l1 r flushed) =
      restarted_from-Tracks D s l room stats l1 (Reach-Tracks c r) flushed
