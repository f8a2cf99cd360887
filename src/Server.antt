-- ===== src/Server.antt =====
-- SOCKET.go: the listeners that startServer runs, and whom they let in.
mod Tests
use nntp_history.Prelude.{
  Bool, true, false, ◌==◌, List, [], ◌∷◌, Option, none, some, Bytes, codes, if◌then◌else◌, length,
}
use nntp_history.Acl.{Acl, setup_acl, is_allowed}
use nntp_history.Socket.{banner}

-- What Accept returns: an error and a nil connection, or a connection with its TCP address, if it has one.
pub data Accepted : Type 0 where
  no_conn : Accepted
  conn_from : Option Bytes → Accepted

-- getRemoteIP of a connection
unfoldable pub remote_ip : Option Bytes → Bytes
remote_ip none = codes "x"
remote_ip (some ip) = ip

-- checkACL
unfoldable pub check_acl : Acl → Option Bytes → Bool
unfolding remote_ip
check_acl acl addr = is_allowed (remote_ip addr) acl

-- A round of a listener's loop: it hands the connection to handleSocketConn, which sends a banner or none, it closes
-- the connection, or it comes to its end.
pub data Listened : Type 0 where
  serves : Bytes → Option Bytes → Listened
  refuses leaves crashes : Listened

unfoldable pub listen_unix : Accepted → Listened
unfolding banner
listen_unix no_conn = leaves
listen_unix (conn_from addr) = serves [] (banner true)

-- The address is asked for before the error is looked at, of a nil connection too.
unfoldable pub listen_tcp : Acl → Accepted → Listened
unfolding check_acl remote_ip banner
listen_tcp acl no_conn = crashes
listen_tcp acl (conn_from addr) =
    if check_acl acl addr then serves (remote_ip addr) (banner false) else refuses

-- A listener runs where it has an address; `none` is os.Exit(1) where the address cannot be listened on.
start_listener : Bytes → Bool → Option Bool
start_listener address listens =
    if length address == 0 then some false else if listens then some true else none

-- The listeners that run, and the list of addresses, which the TCP listener sets up.
pub record Server : Type 0 where
  pub on_unix : Bool
  pub on_tcp : Bool
  pub acl : Acl

-- startServer; `unix_listens` and `tcp_listens` are what net.Listen says.
pub start_server : Bool → Bytes → Bytes → Bool → Bool → Acl → Acl → Option Server
unfolding start_listener setup_acl
start_server true tcp_listen socket_path unix_listens tcp_listens default_acl acl =
    some (record { on_unix = false; on_tcp = false; acl = acl })
start_server false tcp_listen socket_path unix_listens tcp_listens default_acl acl =
    elim (start_listener socket_path unix_listens) [
      | none ↦ none
      | some on_unix ↦ elim (start_listener tcp_listen tcp_listens) [
        | none ↦ none
        | some on_tcp ↦ some (record {
          on_unix = on_unix;
          on_tcp = on_tcp;
          acl = if length tcp_listen == 0 then acl else setup_acl default_acl acl;
        })
      ]
    ]
