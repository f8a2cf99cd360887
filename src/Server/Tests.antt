-- ===== src/Server/Tests.antt =====
-- Listeners on addresses that can and cannot be listened on.
use nntp_history.Prelude.{true, false, [], none, some, ◌≡◌, refl, codes}
use nntp_history.Server.{start_server, start_listener, listen_tcp, no_conn, crashes}

tcp_alone :
    start_server false (codes "[::]:49119") [] true true none (some (λ ip. true))
    ≡ some (record { on_unix = false; on_tcp = true; acl = some (λ ip. true) })
unfolding start_server start_listener
tcp_alone = refl

no_socket : start_server false [] (codes "./history.socket") false true none none ≡ none
unfolding start_server start_listener
no_socket = refl

failed_accept : listen_tcp none no_conn ≡ crashes
unfolding listen_tcp
failed_accept = refl
