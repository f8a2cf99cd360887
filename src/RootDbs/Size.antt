-- ===== src/RootDbs/Size.antt =====
-- How many prefixes there are.
use native.Mathlib.Nat.{suc-mul, pow-zero, pow-succ'}
use nntp_history.Prelude.{
  ℕ, zero, suc, ◌+◌, ◌*◌, ◌^◌, List, [], ◌∷◌, ◌++◌, ◌≡◌, sym, ap, ◌∙◌, arith, Bytes, length,
  length-append,
}
use nntp_history.RootDbs.{each_char, generate_combinations}

length-each_char :
    (deeper : Bytes → List Bytes → List Bytes) (k : ℕ) (chars : List Bytes) (current : Bytes)
    (combinations : List Bytes)
    → ((c : Bytes) (done : List Bytes) → length (deeper c done) ≡ length done + k)
    → length (each_char deeper chars current combinations) ≡ length combinations + length chars * k
unfolding each_char
length-each_char deeper k [] current combinations h = omega arith
length-each_char deeper k (char ∷ chars) current combinations h = omega (
  arith,
  length-each_char deeper k chars current (deeper (current ++ char) combinations) h,
  h (current ++ char) combinations,
  suc-mul (length chars) k,
)

-- generateCombinations adds as many combinations to the given ones as there are words of the missing
-- length over the given characters.
pub length-generate_combinations :
    (chars : List Bytes) (missing : ℕ) (current : Bytes) (combinations : List Bytes)
    → length (generate_combinations chars missing current combinations)
      ≡ length combinations + length chars ^ missing
unfolding generate_combinations
length-generate_combinations chars zero current combinations =
    length-append combinations (current ∷ []) ∙ omega (arith, pow-zero (length chars))
length-generate_combinations chars (suc missing) current combinations =
    length-each_char (generate_combinations chars missing) (length chars ^ missing) chars current
      combinations (length-generate_combinations chars missing)
    ∙ ap (λ t. length combinations + t) (sym (pow-succ' (length chars) missing))
