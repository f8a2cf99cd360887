-- ===== src/HisDat.antt =====
-- history.dat: the buffered writer of its lines and the readers that seek in it (nntp-history.go).
pub mod Lines
pub mod Seek
pub mod ReadBack
pub mod Header
mod Tests
use nntp_history.Prelude.{
  ℕ, zero, suc, ◌+◌, ◌-◌, ◌%◌, ◌^◌, Bool, true, false, ◌&&◌, ◌||◌, not, List, [], ◌∷◌, ◌++◌, Option,
  none, some, Bytes, codes, Outcome, ok, fail, ltb, leb, ◌==◌, if◌then◌else◌, length, take, drop,
}
use nntp_history.Prelude.Int.{ℤ, pos, negsuc, ltb_ℤ}
use nntp_history.Text.{until}
use nntp_history.Text.Number.{format_padded}
use nntp_history.Cases.{HistoryObject, bufio_buffer, zero_pad_len}
use nntp_history.Stats.{Stats, sync_upcounter}

-- bufio.Writer over a file opened for appending. `room` is what the disk still takes: a write past
-- it is short, and the writer then keeps failing.
pub record Writer : Type 0 where
  pub file : Bytes
  pub buf : Bytes
  pub room : ℕ
  pub failed : Bool

-- A write to the file itself.
write_file : Bytes → Writer → Bool × Writer
write_file s w =
    if leb (length s) w.room
    then (true, record w { file = w.file ++ s; room = w.room - length s })
    else (false, record w { file = w.file ++ take w.room s; room = 0; failed = true })

-- A flush that the disk took in part: what it left stays in the buffer.
short_flush : Writer → Writer
short_flush w = record w {
  file = w.file ++ take w.room w.buf;
  buf = drop w.room w.buf;
  room = 0;
  failed = true;
}

-- Flush: what a short write left over stays in the buffer.
unfoldable pub flush : Writer → Bool × Writer
unfolding short_flush
flush w =
    if w.failed
    then (false, w)
    else if leb (length w.buf) w.room
    then (true, record w { file = w.file ++ w.buf; buf = []; room = w.room - length w.buf })
    else (false, short_flush w)

-- The tail of a text that found the buffer empty: a long one goes to the file at once.
pub write_rest : Bytes → Writer → Bool × Writer
unfolding write_file
write_rest s w =
    if leb (length s) bufio_buffer then (true, record w { buf = s }) else write_file s w

-- WriteString and Write: fill the buffer, flush it, and go on with the rest.
unfoldable pub write_string : Bytes → Writer → Bool × Writer
write_string s w =
    let avail = bufio_buffer - length w.buf in
    if w.failed
    then (false, w)
    else if leb (length s) avail
    then (true, record w { buf = w.buf ++ s })
    else if length w.buf == 0
    then write_rest s w
    else let (flushed, w') = flush (record w { buf = w.buf ++ take avail s }) in
      if flushed then write_rest (drop avail s) w' else (false, w')

-- What the writer goroutine keeps: his.Offset, `wbt`, `buffered` and the writer.
pub record Appender : Type 0 where
  pub dw : Writer
  pub offset : ℕ
  pub wbt : ℕ
  pub buffered : ℕ

-- checkBufioWriteBuffer
unfoldable pub check_bufio_write_buffer : ℕ → Appender → Bool × Appender
check_bufio_write_buffer lenline a =
    if leb bufio_buffer (length a.dw.buf + lenline)
    then (let (flushed, dw) = flush a.dw in
        if flushed
        then (true, record a { dw = dw; buffered = lenline })
        else (false, record a { dw = dw }))
    else (true, record a { buffered = a.buffered + lenline })

-- "----------" stands for an entry that never expires.
expires_str : ℤ → Bytes
expires_str expires = if ltb_ℤ (pos 0) expires then format_padded 10 expires else codes "----------"

-- arrival~expires~date\ttoken\n
line_fields : HistoryObject → Bytes
unfolding expires_str
line_fields hobj =
    format_padded 10 hobj.arrival
    ++ (b'~'
        ∷ (expires_str hobj.expires
            ++ (b'~' ∷ (format_padded 10 hobj.date ++ (9 ∷ (hobj.storage_token ++ 10 ∷ []))))))

-- {hash}\t, and the fields behind it
unfoldable pub history_line : HistoryObject → Bytes
unfolding line_fields
history_line hobj = b'{' ∷ (hobj.message_id_hash ++ b'}' ∷ 9 ∷ line_fields hobj)

-- writeHistoryLine
unfoldable pub write_history_line : HistoryObject → Bool → Appender → Bool × Appender
write_history_line hobj flush_now a =
    let line = history_line hobj in
    let (checked, a1) = check_bufio_write_buffer (length line) a in
    if not checked
    then (false, a1)
    else let (written, dw) = write_string line a1.dw in
      if not written
      then (false, record a1 { dw = dw })
      else let a2 : Appender = record a1 {
        dw = dw;
        wbt = (a1.wbt + length line) % 2 ^ 64;
        offset = a1.offset + length line;
      } in
        if not flush_now
        then (true, a2)
        else let (flushed, dw') = flush dw in
          if flushed
          then (true, record a2 { dw = dw'; buffered = 0 })
          else (false, record a2 { dw = dw' })

-- writeHistoryHeader: an absent offset stands for the nil pointer.
pub write_history_header : Bytes → Option ℕ → Bool → Writer → Bool × Option ℕ × Writer
write_history_header header none flush_now w = (false, none, w)
write_history_header header (some offset) flush_now w =
    if not (length header == zero_pad_len)
    then (false, some offset, w)
    else let (written, w') = write_string (header ++ 10 ∷ []) w in
      if not written
      then (false, some offset, w')
      else if not flush_now
      then (true, some (offset + (length header + 1)), w')
      else let (flushed, w'') = flush w' in
        if flushed
        then (true, some (offset + (length header + 1)), w'')
        else (false, some offset, w'')

-- The last byte of d ∷ s closes a brace.
closes : ℕ → Bytes → Bool
closes d [] = d == b'}'
closes d (e ∷ s) = closes e s

-- The first and the last byte of a text are braces.
braced : Bytes → Bool
unfolding closes
braced [] = false
braced (c ∷ s) = c == b'{' && closes c s

-- result[1 : len(result)-1] of a braced text.
unbraced : Bytes → Bytes
unbraced s = take (length s - 2) (drop 1 s)

abbrev pub eofhash : Bytes
eofhash = codes "EOF"

-- FseekHistoryMessageHash: an absent file stands for an open that failed; the returned hash is what
-- `rethash` points to afterwards, given what it held.
pub fseek_history_message_hash : Option Bytes → ℤ → Bytes → Stats → Outcome Bytes × Stats
unfolding braced unbraced
fseek_history_message_hash file (negsuc n) rethash stats = (fail, stats)
fseek_history_message_hash file (pos zero) rethash stats = (fail, stats)
fseek_history_message_hash none (pos (suc n)) rethash stats = (fail, stats)
fseek_history_message_hash (some file) (pos (suc n)) rethash stats =
    elim (until 9 (drop (suc n) file)) [
      | none ↦ (ok eofhash, stats)
      | some [] ↦ (ok rethash, sync_upcounter "FSEEK" stats)
      | some (c ∷ result) ↦ (
        if not (braced (c ∷ result))
            then fail
            else if length (unbraced (c ∷ result)) == 64
            then ok (unbraced (c ∷ result))
            else ok rethash,
        sync_upcounter "FSEEK" stats,
      )
    ]

-- FseekHistoryHeader: the bytes before the first line feed; a file without one is an error.
pub fseek_history_header : Option Bytes → Outcome Bytes
fseek_history_header none = fail
fseek_history_header (some file) = elim (until 10 file) [ none ↦ fail | some header ↦ ok header ]

-- FseekHistoryLine: the line at an offset, which past the header must begin with a brace.
pub fseek_history_line : Option Bytes → ℤ → Outcome Bytes
fseek_history_line none offset = fail
fseek_history_line (some file) (negsuc n) = fail
fseek_history_line (some file) (pos n) = elim (until 10 (drop n file)) [
  | none ↦ fail
  | some [] ↦ if ltb 0 n then fail else ok []
  | some (c ∷ line) ↦ if ltb 0 n && not (c == b'{') then fail else ok (c ∷ line)
]
