-- ===== src/Client/Banner.antt =====
-- A client against the listeners of startServer.
use nntp_history.Prelude.{
  ◌↔◌, true, [], Option, none, some, ◌≡◌, refl, Bytes, codes, eq_bytes, Bool-cases, inl, inr,
  if◌then◌else◌,
}
use nntp_history.Acl.{Acl}
use nntp_history.Server.{
  Listened, serves, refuses, leaves, crashes, conn_from, check_acl, listen_unix, listen_tcp,
}
use nntp_history.Client.{
  Network, tcp, unix, has_suffix, network_of, Dialed, no_connection, no_line, never, first_line,
  connected, waits, greeted, new_r_conn, server_of,
}

-- What the client hears of a round of a listener. A server that serves without a banner waits for a command.
abbrev pub heard : Listened → Dialed
heard (serves raddr none) = never
heard (serves raddr (some line)) = first_line line
heard refuses = no_line
heard leaves = no_connection
heard crashes = no_connection

-- Dialling a server with a list, from an address.
abbrev pub dial_from : Acl → Option Bytes → Network → Bytes → Dialed
dial_from acl addr tcp server = heard (listen_tcp acl (conn_from addr))
dial_from acl addr unix server = heard (listen_unix (conn_from addr))

on_network :
    (acl : Acl) (addr : Option Bytes) (server : Bytes)
    → check_acl acl addr ≡ true
    → new_r_conn (dial_from acl addr) server
      ≡ (if has_suffix server (codes ".socket") then waits else connected)
unfolding new_r_conn network_of greeted listen_tcp listen_unix eq_bytes
on_network acl addr server allowed = elim (Bool-cases (has_suffix server (codes ".socket"))) [
  | inl e ↦ rw e refl
  | inr e ↦ rw (e, allowed) refl
]

-- Where a server lets an address in, NewRConn from that address gets a connection exactly when the
-- server is named by an address that is dialled over TCP; with the default, the unix socket, it waits
-- for ever for a banner that is sent to TCP clients alone.
pub connected_iff_tcp :
    (acl : Acl) (addr : Option Bytes) (server : Bytes)
    → check_acl acl addr ≡ true
    → ((new_r_conn (dial_from acl addr) server ≡ connected) ↔ (network_of server ≡ tcp))
      × (new_r_conn (dial_from acl addr) (server_of []) ≡ waits)
unfolding network_of server_of has_suffix eq_bytes
connected_iff_tcp acl addr server allowed = (
  elim (Bool-cases (has_suffix server (codes ".socket"))) [
    | inl e ↦ rw (on_network acl addr server allowed, e) (λ h. cc, λ h. cc)
    | inr e ↦ rw (on_network acl addr server allowed, e) (λ h. refl, λ h. refl)
  ],
  on_network acl addr (codes "./history.socket") allowed,
)
