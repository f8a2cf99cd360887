-- ===== src/Boot/Debug.antt =====
-- SET_DEBUG of nntp-history.go.
use nntp_history.Prelude.{Bool, true, ◌==◌, if◌then◌else◌, ◌≡◌, refl}
use nntp_history.Prelude.Int.{ℤ, pos, negsuc}

-- The global switches.
pub record Debug : Type 0 where
  pub debug : Bool
  pub debug0 : Bool
  pub debug1 : Bool
  pub debug2 : Bool
  pub debug9 : Bool

-- A negative level, and one that is not listed, changes nothing; nothing is ever switched off.
pub set_debug : ℤ → Debug → Debug
set_debug (negsuc n) d = d
set_debug (pos n) d =
    if n == 0
    then record d { debug = true; debug0 = true }
    else if n == 1
    then record d { debug0 = true; debug1 = true }
    else if n == 2
    then record d { debug0 = true; debug1 = true; debug2 = true }
    else if n == 9
    then record d { debug9 = true }
    else d

-- Level 2 switches on what level 1 does, whatever was on before.
set_debug-levels : (d : Debug) → set_debug (pos 1) (set_debug (pos 2) d) ≡ set_debug (pos 2) d
unfolding set_debug
set_debug-levels d = refl
