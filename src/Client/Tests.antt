-- ===== src/Client/Tests.antt =====
-- A client of a server that lets one address in.
use nntp_history.Prelude.{
  ◌↔◌, true, [], ◌∷◌, some, ◌≡◌, refl, Bytes, codes, eq_bytes, eq_bytes_refl,
}
use nntp_history.Prelude.Int.{pos}
use nntp_history.Acl.{Acl, is_allowed}
use nntp_history.Server.{check_acl, remote_ip}
use nntp_history.Client.{
  connected, no_r_conn, waits, tcp, network_of, new_r_conn, server_of, passes, next_pass, goes_on,
  gives_up,
}
use nntp_history.Client.Banner.{dial_from, connected_iff_tcp}

abbrev local : Bytes
local = 127 ∷ 0 ∷ 0 ∷ 1 ∷ []

abbrev one_address : Acl
one_address = some (λ ip. eq_bytes ip local)

local_allowed : check_acl one_address (some local) ≡ true
unfolding check_acl remote_ip is_allowed
local_allowed = eq_bytes_refl local

connected_iff_tcp_example :
    ((new_r_conn (dial_from one_address (some local)) (codes "[::1]:49119") ≡ connected)
      ↔ (network_of (codes "[::1]:49119") ≡ tcp))
    × (new_r_conn (dial_from one_address (some local)) (server_of []) ≡ waits)
connected_iff_tcp_example =
    connected_iff_tcp one_address (some local) (codes "[::1]:49119") local_allowed

third_failure :
    passes (pos 2) (goes_on 0) (no_r_conn ∷ connected ∷ no_r_conn ∷ no_r_conn ∷ no_r_conn ∷ [])
    ≡ gives_up
unfolding passes next_pass
third_failure = refl
