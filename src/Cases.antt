-- ===== src/Cases.antt =====
-- The constants of nntp-history.go, STRUCTS.go and the history object.
use nntp_history.Prelude.{ℕ, ◌*◌, Bool, Bytes}
use nntp_history.Prelude.Int.{ℤ, negsuc}

abbrev pub case_lock : ℕ
case_lock = 0xFF

abbrev pub case_pass : ℕ
case_pass = 0xF1

abbrev pub case_dupes : ℕ
case_dupes = 0x1C

abbrev pub case_retry : ℕ
case_retry = 0x2C

abbrev pub case_added : ℕ
case_added = 0x3C

abbrev pub case_write : ℕ
case_write = 0x4C

abbrev pub case_error : ℕ
case_error = 0xE1

-- FlagSearch: the offset of a request that only asks.
abbrev pub flag_search : ℤ
flag_search = negsuc 0

abbrev pub zero_pad_len : ℕ
zero_pad_len = 0xFFF

abbrev pub buf_lines : ℕ
buf_lines = 10

-- BUFIOBUFFER
abbrev pub bufio_buffer : ℕ
bufio_buffer = 102 * buf_lines

-- HistoryObject: of the response channel only whether there is one matters.
pub record HistoryObject : Type 0 where
  pub message_id_hash : Bytes
  pub storage_token : Bytes
  pub char : Bytes
  pub arrival : ℤ
  pub expires : ℤ
  pub date : ℤ
  pub has_response_chan : Bool

-- HistoryIndex: a request to the index.
pub record HistoryIndex : Type 0 where
  pub hash : Bytes
  pub char : Bytes
  pub offset : ℤ
  pub has_ret_chan : Bool
