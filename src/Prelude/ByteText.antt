-- ===== src/Prelude/ByteText.antt =====
-- Go strings and byte slices as lists of byte values, and their comparison.
use Prim.Native.Nat.{ℕ}
use Prim.Native.Char.{code}
use Prim.Native.String.{String}
use mathlib.Core.Path.{◌≡◌, refl}
use mathlib.Core.Logic.{◌≢◌, ◌↔◌}
use mathlib.Core.Bool.{Bool, true, false, ◌&&◌}
use mathlib.Core.List.{List, [], ◌∷◌}
use native.Mathlib.Omega.{arith}
use nntp_history.Prelude.Tests.{◌==◌}
use nntp_history.Prelude.Lists.{All}

abbrev pub Bytes : Type 0
Bytes = List ℕ

-- The bytes of an ASCII literal.
abbrev pub codes : String → Bytes
codes String.[] = []
codes (String.◌∷◌ c s) = code c ∷ codes s

-- The byte does not occur.
abbrev pub Lacks : ℕ → Bytes → Type 0
Lacks b = All (λ c. c ≢ b)

unfoldable pub eq_bytes : Bytes → Bytes → Bool
eq_bytes [] [] = true
eq_bytes [] (d ∷ t) = false
eq_bytes (c ∷ s) [] = false
eq_bytes (c ∷ s) (d ∷ t) = c == d && eq_bytes s t

pub eq_bytes_sound : (s t : Bytes) → eq_bytes s t ≡ true → s ≡ t
unfolding eq_bytes
eq_bytes_sound [] [] h = refl
eq_bytes_sound [] (d ∷ t) h = ground arith
eq_bytes_sound (c ∷ s) [] h = ground arith
eq_bytes_sound (c ∷ s) (d ∷ t) h = ground (arith, eq_bytes_sound s t)

pub eq_bytes_refl : (s : Bytes) → eq_bytes s s ≡ true
unfolding eq_bytes
eq_bytes_refl [] = refl
eq_bytes_refl (c ∷ s) = ground (arith, eq_bytes_refl s)

pub eq_bytes_iff : (s t : Bytes) → (eq_bytes s t ≡ true) ↔ (s ≡ t)
eq_bytes_iff s t = (eq_bytes_sound s t, λ e. rw e (eq_bytes_refl t))

pub eq_bytes-apart : (s t : Bytes) → eq_bytes s t ≡ false → s ≢ t
eq_bytes-apart s t h e = cc (h, e, eq_bytes_refl t)
