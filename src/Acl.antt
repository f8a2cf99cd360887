-- ===== src/Acl.antt =====
-- SOCKET.go: the list of the addresses that may connect.
mod Tests
use nntp_history.Prelude.{
  Bool, true, false, Option, none, some, ◌≡◌, ◌≢◌, refl, arith, Bytes, Outcome, ok, panic, eq_bytes,
  eq_bytes_refl, eq_bytes_sound, if◌then◌else◌,
}

-- AccessControlList: a nil map stands for an absent one.
abbrev pub Acl : Type 0
Acl = Option (Bytes → Bool)

-- SetupACL, with DefaultACL
unfoldable pub setup_acl : Acl → Acl → Acl
setup_acl default_acl (some acl) = some acl
setup_acl none none = some (λ ip. false)
setup_acl (some acl) none = some acl

-- IsAllowed
unfoldable pub is_allowed : Bytes → Acl → Bool
is_allowed ip none = false
is_allowed ip (some acl) = acl ip

-- SetACL: deleting from a nil map does nothing, writing to it panics.
pub set_acl : Bytes → Bool → Acl → Outcome Acl
set_acl ip false none = ok none
set_acl ip true none = panic
set_acl ip val (some acl) = ok (some (λ k. if eq_bytes ip k then val else acl k))

-- A map that is there takes every setting.
set_acl-some :
    (acl : Bytes → Bool) (ip other : Bytes) (val : Bool)
    → other ≢ ip
    → (after : Acl) × (set_acl ip val (some acl) ≡ ok after)
      × (is_allowed ip after ≡ val)
      × (is_allowed other after ≡ is_allowed other (some acl))
unfolding set_acl is_allowed
set_acl-some acl ip other true apart =
    (_, refl, rw (eq_bytes_refl ip), ground (arith, eq_bytes_sound ip other))
set_acl-some acl ip other false apart =
    (_, refl, rw (eq_bytes_refl ip), ground (arith, eq_bytes_sound ip other))

-- Once SetupACL has run, SetACL never fails, the address that it names is allowed exactly as it says,
-- and any other given address is treated as before.
pub set_acl-setup_acl :
    (default_acl acl : Acl) (ip other : Bytes) (val : Bool)
    → other ≢ ip
    → (after : Acl) × (set_acl ip val (setup_acl default_acl acl) ≡ ok after)
      × (is_allowed ip after ≡ val)
      × (is_allowed other after ≡ is_allowed other (setup_acl default_acl acl))
unfolding setup_acl
set_acl-setup_acl default_acl (some acl) ip other val apart = set_acl-some acl ip other val apart
set_acl-setup_acl none none ip other val apart = set_acl-some (λ ip. false) ip other val apart
set_acl-setup_acl (some acl) none ip other val apart = set_acl-some acl ip other val apart
