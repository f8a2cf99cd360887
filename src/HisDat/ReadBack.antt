-- ===== src/HisDat/ReadBack.antt =====
-- What is written is read back, and how long a line is.
use nntp_history.Prelude.{
  ℕ, suc, ◌+◌, ◌^◌, ◌<◌, true, [], ◌∷◌, ◌++◌, append-nil, some, ◌≡◌, sym, ap, ◌∙◌, arith, Bytes, ok,
  length, Lacks, length-append, drop-append_self,
}
use nntp_history.Prelude.Int.{pos}
use nntp_history.Stats.{Stats, sync_upcounter}
use nntp_history.Cases.{HistoryObject}
use nntp_history.Text.Number.{format_padded}
use nntp_history.Text.Number.Width.{length-format_padded}
use nntp_history.HisDat.{
  Appender, history_line, line_fields, expires_str, write_history_line, fseek_history_message_hash,
  check_bufio_write_buffer, write_string,
}
use nntp_history.HisDat.Lines.{content, IsExact, write_history_line_lem, flush-done}
use nntp_history.HisDat.Seek.{LineAt, line_at, fseek-LineAt}

-- The line of an object begins where the text before it ends.
pub LineAt-history_line :
    (text : Bytes) (hobj : HistoryObject) (n : ℕ)
    → n ≡ length text
    → LineAt (text ++ history_line hobj) n hobj.message_id_hash
unfolding history_line
LineAt-history_line text hobj n h = line_at _ (drop-append_self text (history_line hobj) n h)

-- A write that flushes leaves nothing in the buffer.
buf-write_history_line :
    (hobj : HistoryObject) (a : Appender)
    → (write_history_line hobj true a).0 ≡ true
    → (write_history_line hobj true a).1.dw.buf ≡ []
unfolding write_history_line
buf-write_history_line hobj a h = ground (
  arith,
  flush-done
      (write_string (history_line hobj)
        (check_bufio_write_buffer (length (history_line hobj)) a).1.dw).1,
)

-- Where the offset is the end of all that was written and greater than 0, after a writeHistoryLine
-- that flushes and succeeds, of an object whose hash has 64 bytes and no tab, FseekHistoryMessageHash
-- reads that hash at the offset the line was written at.
pub fseek-write_history_line :
    (hobj : HistoryObject) (a : Appender) (n : ℕ) (rethash : Bytes) (stats : Stats)
    → IsExact a
    → a.offset ≡ suc n
    → length hobj.message_id_hash ≡ 64
    → Lacks 9 hobj.message_id_hash
    → (write_history_line hobj true a).0 ≡ true
    → fseek_history_message_hash
        (some (write_history_line hobj true a).1.dw.file)
        (pos a.offset)
        rethash
        stats
      ≡ (ok hobj.message_id_hash, sync_upcounter "FSEEK" stats)
fseek-write_history_line hobj a n rethash stats exact e long clean written =
    rw (file, e)
      (fseek-LineAt (content a.dw ++ history_line hobj) n hobj.message_id_hash rethash stats
        (LineAt-history_line (content a.dw) hobj (suc n) (sym e ∙ exact)) long clean)
  where
    w : Appender
    w = (write_history_line hobj true a).1

    file : (write_history_line hobj true a).1.dw.file ≡ content a.dw ++ history_line hobj
    file =
        sym (append-nil w.dw.file)
        ∙ ap (λ t. w.dw.file ++ t) (sym (buf-write_history_line hobj a written))
        ∙ (write_history_line_lem hobj true a written).0

-- The seven bytes between the fields of a line.
length_fields :
    (hash arrival expires date token : Bytes)
    → length (
        b'{'
        ∷ (hash
            ++ b'}' ∷ 9 ∷ (arrival ++ b'~' ∷ (expires ++ b'~' ∷ (date ++ 9 ∷ (token ++ 10 ∷ []))))))
      ≡ 7 + length hash + length arrival + length expires + length date + length token
length_fields hash arrival expires date token = simp length-append (omega arith)

length-expires_str : (n : ℕ) → n < 10 ^ 10 → length (expires_str (pos n)) ≡ 10
unfolding expires_str
length-expires_str n h = ground (arith, length-format_padded 9 n h)

-- The line of an object whose three times are not negative and have at most ten digits is 37 bytes
-- longer than its hash and its token together: 102 bytes for a 64-byte hash and a token of one byte.
pub length-history_line :
    (hobj : HistoryObject) (arrival expires date : ℕ)
    → hobj.arrival ≡ pos arrival
    → hobj.expires ≡ pos expires
    → hobj.date ≡ pos date
    → arrival < 10 ^ 10
    → expires < 10 ^ 10
    → date < 10 ^ 10
    → length (history_line hobj) ≡ 37 + length hobj.message_id_hash + length hobj.storage_token
unfolding history_line line_fields expires_str
length-history_line hobj arrival expires date ea ee ed ha he hd =
    rw (ea, ee, ed)
      (length_fields hobj.message_id_hash (format_padded 10 (pos arrival))
          (expires_str (pos expires)) (format_padded 10 (pos date)) hobj.storage_token
        ∙ omega (
          arith,
          length-format_padded 9 arrival ha,
          length-expires_str expires he,
          length-format_padded 9 date hd,
        ))
