-- ===== src/Socket.antt =====
-- SOCKET.go and CLIENT.go: history objects on the wire and the commands of a connection.
pub mod Wire
pub mod Rejects
mod Tests
use nntp_history.Prelude.{
  ℕ, ◌%◌, ◌^◌, ◌+◌, ◌-◌, ◌&&◌, not, Bool, true, false, List, [], ◌∷◌, ◌++◌, Option, none, some,
  Bytes, codes, Outcome, ok, fail, panic, ◌==◌, leb, eq_bytes, if◌then◌else◌, length, drop,
}
use nntp_history.Prelude.Chain.{◌>>=◌}
use nntp_history.Prelude.Int.{ℤ, pos, negsuc, eq_ℤ}
use nntp_history.Cases.{HistoryObject, case_pass, case_dupes, case_retry, flag_search}
use nntp_history.Store.{Database}
use nntp_history.Text.{split, join}
use nntp_history.Text.Number.{format_int, parse_int}
use nntp_history.HashEnc.{crc}
use nntp_history.Writer.{
  Config, Env, History, Answer, answered, silent, crashed, index_query, add_history,
}

-- ConvertHistoryObjectToString
unfoldable pub convert_history_object_to_string : HistoryObject → Bytes
convert_history_object_to_string obj = join b' ' (
    obj.message_id_hash
    ∷ obj.storage_token
    ∷ format_int 10 obj.arrival
    ∷ format_int 10 obj.expires
    ∷ format_int 10 obj.date
    ∷ [])

-- The line that handleRConn sends for an object.
unfoldable pub add_line : HistoryObject → Bytes
unfolding convert_history_object_to_string crc
add_line obj =
    let hobj_str = convert_history_object_to_string obj in
    codes "ADD " ++ crc hobj_str ++ b' ' ∷ hobj_str

-- ConvertStringToHistoryObject; `none` is an error.
unfoldable pub convert_string_to_history_object : List Bytes → Option HistoryObject
convert_string_to_history_object (hash ∷ token ∷ arrival ∷ expires ∷ date ∷ []) = do
  a ← parse_int 10 arrival
  e ← parse_int 10 expires
  d ← parse_int 10 date
  some (record {
    message_id_hash = hash;
    storage_token = token;
    char = [];
    arrival = a;
    expires = e;
    date = d;
    has_response_chan = false;
  })
convert_string_to_history_object parts = none

-- strings.ToUpper, as far as the result is ASCII: the dotless i and the long s have ASCII capitals.
to_upper : Bytes → Bytes
to_upper [] = []
to_upper (c ∷ []) = (if leb b'a' c && leb c b'z' then c - 32 else c) ∷ []
to_upper (c ∷ d ∷ s) =
    let rest = to_upper (d ∷ s) in
    let behind = to_upper s in
    if leb b'a' c && leb c b'z'
    then (c - 32) ∷ rest
    else if c == 0xC4 && d == 0xB1
    then b'I' ∷ behind
    else if c == 0xC5 && d == 0xBF
    then b'S' ∷ behind
    else c ∷ rest

-- What handleSocketConn does after a line: it reads the next, leaves, calls CLOSE_HISTORY and leaves, waits for
-- ever, or the program crashes.
pub data ConnNext : Type 0 where
  reads leaves closes hangs crashes : ConnNext

-- The first word of a line decides.
pub data Command : Type 0 where
  cpu stop quit add unknown : Command

unfoldable pub command_of : List Bytes → Command
unfolding to_upper
command_of [] = unknown
command_of (cmd ∷ args) =
    let word = to_upper cmd in
    if eq_bytes word (codes "CPU")
    then cpu
    else if eq_bytes word (codes "STOP")
    then stop
    else if eq_bytes word (codes "QUIT")
    then quit
    else if eq_bytes word (codes "ADD")
    then add
    else unknown

-- The guards of ADD: the number of parts, the checksum, the object.
pub data Checked : Type 0 where
  part_err crc_err hobj_err : Checked
  accepted : HistoryObject → Checked

converted : Option HistoryObject → Checked
converted (some hobj) = accepted hobj
converted none = hobj_err

unfoldable pub check_add : List Bytes → Checked
unfolding crc convert_string_to_history_object converted
check_add (cmd ∷ sum ∷ rest) =
    if not (length (cmd ∷ sum ∷ rest) == 8)
    then part_err
    else if not (eq_bytes sum (crc (join b' ' rest)))
    then crc_err
    else converted (convert_string_to_history_object rest)
check_add parts = part_err

module _ (D : Database) where
  -- The counters of a connection, whether a CPU profile is being written, and the history.
  pub record Conn : Type 0 where
    pub added : ℕ
    pub tadded : ℕ
    pub cpu_file : Bool
    pub history : History D

  pub record Handled : Type 0 where
    pub next : ConnNext
    pub reply : Option Bytes
    pub conn : Conn

  -- `added++`, with the report after every 10000.
  pub counted : Conn → Conn
  counted c =
      let tadded = (c.tadded + 1) % 2 ^ 64 in
      record c { added = (c.added + 1) % 2 ^ 64; tadded = if leb 10000 tadded then 0 else tadded }

  -- AddHistory, whose response is dropped; without one it does not return.
  pub after_add : Conn → Option ℤ × History D → Handled
  after_add c (none, st) = record {
    next = hangs;
    reply = some (codes "060 AOK");
    conn = record c { history = st };
  }
  after_add c (some code, st) = record {
    next = reads;
    reply = some (codes "060 AOK");
    conn = record c { history = st };
  }

  -- What ADD does with the answer of IndexQuery.
  pub after_query :
      Config → Env → Bool → HistoryObject → Conn → Outcome Answer × History D → Handled
  unfolding after_add
  after_query cfg env has_writer hobj c (fail, st) = record {
    next = leaves;
    reply = some (codes "060 AOK");
    conn = record c { history = st };
  }
  after_query cfg env has_writer hobj c (panic, st) = record {
    next = crashes;
    reply = some (codes "060 AOK");
    conn = record c { history = st };
  }
  after_query cfg env has_writer hobj c (ok silent, st) = record {
    next = hangs;
    reply = some (codes "060 AOK");
    conn = record c { history = st };
  }
  after_query cfg env has_writer hobj c (ok crashed, st) = record {
    next = crashes;
    reply = some (codes "060 AOK");
    conn = record c { history = st };
  }
  after_query cfg env has_writer hobj c (ok (answered code), st) =
      if eq_ℤ code (pos case_pass)
      then after_add c (add_history D cfg env has_writer (some hobj) st)
      else if eq_ℤ code (pos case_dupes)
      then record { next = reads; reply = some (codes "060 AOK"); conn = record c { history = st } }
      else if eq_ℤ code (pos case_retry)
      then record { next = reads; reply = some (codes "060 AOK"); conn = record c { history = st } }
      else record {
        next = leaves;
        reply = some (codes "060 AOK");
        conn = record c { history = st };
      }

  -- The ADD command.
  pub handle_add : Config → Env → Bool → Conn → Checked → Handled
  unfolding after_query counted
  handle_add cfg env has_writer c part_err = record {
    next = reads;
    reply = some (codes "401 PART ERR");
    conn = c;
  }
  handle_add cfg env has_writer c crc_err = record {
    next = reads;
    reply = some (codes "402 CRC ERR");
    conn = c;
  }
  handle_add cfg env has_writer c hobj_err = record {
    next = reads;
    reply = some (codes "403 HOBJ ERR");
    conn = c;
  }
  handle_add cfg env has_writer c (accepted hobj) =
      after_query cfg env has_writer hobj (counted c)
        (index_query D cfg env hobj.message_id_hash flag_search c.history)

  -- The CPU command; `starts` is whether a profile can be started.
  pub handle_cpu : Bool → Conn → Handled
  handle_cpu starts c =
      if c.cpu_file
      then record {
        next = reads;
        reply = some (codes "200 OK stopCPUProfile");
        conn = record c { cpu_file = false };
      }
      else if starts
      then record {
        next = reads;
        reply = some (codes "200 OK startCPUProfile");
        conn = record c { cpu_file = true };
      }
      else record { next = reads; reply = some (codes "400 ERR startCPUProfile"); conn = c }

  -- A round of handleSocketConn; `none` is a line that cannot be read.
  pub handle_line : Config → Env → Bool → Bool → Option Bytes → Conn → Handled
  unfolding handle_add handle_cpu
  handle_line cfg env has_writer starts none c = record { next = leaves; reply = none; conn = c }
  handle_line cfg env has_writer starts (some line) c =
      let parts = split b' ' line in
      elim (command_of parts) [
        | cpu ↦ handle_cpu starts c
        | stop ↦ record { next = closes; reply = some (codes "502 CLOSE_HISTORY"); conn = c }
        | quit ↦ record { next = leaves; reply = some (codes "205 CIAO"); conn = c }
        | add ↦ handle_add cfg env has_writer c (check_add parts)
        | unknown ↦ record { next = reads; reply = none; conn = c }
      ]

-- The banner that a TCP connection is greeted with, and a unix socket is not.
unfoldable pub banner : Bool → Option Bytes
banner socket = if socket then none else some (codes "200 history")
