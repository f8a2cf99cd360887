-- ===== src/Client.antt =====
-- CLIENT.go: the connection to a history server, and the objects that are sent over it.
pub mod Banner
pub mod Retries
mod Tests
use nntp_history.Prelude.{
  ℕ, ◌+◌, ◌-◌, Bool, true, false, not, ◌&&◌, List, [], ◌∷◌, Option, none, some, Bytes, codes, leb,
  ◌==◌, eq_bytes, if◌then◌else◌, length, drop,
}
use nntp_history.Prelude.Int.{ℤ, pos, ltb_ℤ}
use nntp_history.Cases.{HistoryObject}
use nntp_history.Socket.{add_line}

-- strings.HasSuffix
pub has_suffix : Bytes → Bytes → Bool
has_suffix s suffix =
    leb (length suffix) (length s) && eq_bytes (drop (length s - length suffix) s) suffix

-- The networks that are dialled.
pub data Network : Type 0 where
  tcp unix : Network

pub network_of : Bytes → Network
unfolding has_suffix
network_of server = if has_suffix server (codes ".socket") then unix else tcp

-- What a dial and the first ReadLine come to: no connection, an error, no line for ever, or a line.
pub data Dialed : Type 0 where
  no_connection no_line never : Dialed
  first_line : Bytes → Dialed

-- NewRConn: a connection, nil, or it waits for ever.
pub data RConn : Type 0 where
  connected no_r_conn waits : RConn

greeted : Dialed → RConn
greeted no_connection = no_r_conn
greeted no_line = no_r_conn
greeted never = waits
greeted (first_line line) = if eq_bytes line (codes "200 history") then connected else no_r_conn

pub new_r_conn : (Network → Bytes → Dialed) → Bytes → RConn
unfolding network_of greeted
new_r_conn dial server = greeted (dial (network_of server) server)

-- DefaultSocketPath, where no server is given
pub server_of : Bytes → Bytes
server_of server = if length server == 0 then codes "./history.socket" else server

-- The loop of BootHistoryClient: it goes on with so many failures in a row, ends, or stands still in NewRConn.
pub data Loop : Type 0 where
  goes_on : ℕ → Loop
  gives_up stands_still : Loop

-- A pass, by DefaultDialRetries, the failures so far and what NewRConn returned. A connection is used until it is
-- dead.
pub next_pass : ℤ → ℕ → RConn → Loop
next_pass retries failed connected = goes_on 0
next_pass retries failed waits = stands_still
next_pass retries failed no_r_conn =
    if ltb_ℤ (pos 0) retries
    then if not (ltb_ℤ (pos failed) retries) then gives_up else goes_on (failed + 1)
    else goes_on failed

pub passes : ℤ → Loop → List RConn → Loop
unfolding next_pass
passes retries loop [] = loop
passes retries (goes_on failed) (c ∷ cs) = passes retries (next_pass retries failed c) cs
passes retries gives_up (c ∷ cs) = gives_up
passes retries stands_still (c ∷ cs) = stands_still

-- What a BootHistoryClient finds of HISTORY: whether mux is locked, and whether TCPchan was made.
pub record Client : Type 0 where
  pub mux_locked : Bool
  pub has_tcp_chan : Bool

-- Its beginning: it waits for mux, returns, or goes into the loop. It returns without unlocking mux.
pub data Begins : Type 0 where
  waits_for_mux returns_early connects : Begins

pub boot_history_client : Client → Begins × Client
boot_history_client c =
    if c.mux_locked
    then (waits_for_mux, c)
    else if c.has_tcp_chan
    then (returns_early, record c { mux_locked = true })
    else (connects, record { mux_locked = false; has_tcp_chan = true })

-- A round of handleRConn: the line that is sent and what goes to ResponseChan, or its end.
pub data Sent : Type 0 where
  sends : Bytes → Option ℤ → Sent
  closes_conn : Sent

-- `printed` is whether PrintfLine succeeds, `code` what ReadCodeLine returns.
pub handle_r_conn : Option HistoryObject → Bool → ℤ → Sent
unfolding add_line
handle_r_conn none printed code = closes_conn
handle_r_conn (some hobj) printed code =
    if printed
    then sends (add_line hobj) (if hobj.has_response_chan then some code else none)
    else closes_conn
