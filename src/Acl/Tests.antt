-- ===== src/Acl/Tests.antt =====
-- An address that is let in after SetupACL without a default.
use nntp_history.Prelude.{◌≢◌, true, none, ◌≡◌, refl, Bytes, codes, eq_bytes, eq_bytes-apart, ok}
use nntp_history.Acl.{Acl, setup_acl, is_allowed, set_acl, set_acl-setup_acl}

abbrev home : Bytes
home = codes "127.0.0.1"

abbrev away : Bytes
away = codes "10.0.0.1"

apart : away ≢ home
unfolding eq_bytes
apart = eq_bytes-apart away home refl

set_acl-setup_acl_example :
    (after : Acl) × (set_acl home true (setup_acl none none) ≡ ok after)
    × (is_allowed home after ≡ true)
    × (is_allowed away after ≡ is_allowed away (setup_acl none none))
set_acl-setup_acl_example = set_acl-setup_acl none none home away true apart
