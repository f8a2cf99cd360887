-- ===== src/Shard/Names.antt =====
-- Hashes that begin with three lower-case hexadecimal digits, the numbers read from them, and the
-- printed names.
use mathlib.Core.List.{cons-ne-nil}
use nntp_history.Prelude.{
  ℕ, zero, suc, Bool, true, false, if◌then◌else◌, ◌+◌, ◌*◌, ◌/◌, ◌%◌, ◌<◌, [], ◌∷◌, some, ◌≡◌, refl,
  ap, ◌∙◌, arith, Bytes, eq_bytes, eq_bytes_sound,
}
use nntp_history.Prelude.Int.{pos}
use nntp_history.Text.Number.{digit}
use nntp_history.Text.Number.RoundTrip.{parse_int-map-digit}
use nntp_history.Shard.{hex_to_int, format_hex}

-- The first three bytes of a hash are the digits of these values.
pub record HasPrefix (a b c : ℕ) (hash : Bytes) : Type 0 where
  pub first : a < 16
  pub second : b < 16
  pub third : c < 16
  pub rest : Bytes
  pub spelled : hash ≡ digit a ∷ digit b ∷ digit c ∷ rest

-- A test that succeeds on every number under a bound, for laws that evaluation can show.
unfoldable pub succeeds_under : (ℕ → Bool) → ℕ → Bool
succeeds_under test zero = true
succeeds_under test (suc bound) =
    let below = succeeds_under test bound in if test bound then below else false

pub succeeds_under_lt :
    (test : ℕ → Bool) (bound d : ℕ) → d < bound → succeeds_under test bound ≡ true → test d ≡ true
unfolding succeeds_under
succeeds_under_lt test zero d small h = absurd (omega arith)
succeeds_under_lt test (suc bound) d small h = ground (arith, succeeds_under_lt test bound d)

two_digits_table :
    succeeds_under (λ t. eq_bytes (format_hex 2 (pos t)) (digit (t / 16) ∷ digit (t % 16) ∷ [])) 256
    ≡ true
unfolding succeeds_under eq_bytes format_hex digit
two_digits_table = refl

-- A byte is printed by two digits.
pub format_hex-two : (t : ℕ) → t < 256 → format_hex 2 (pos t) ≡ digit (t / 16) ∷ digit (t % 16) ∷ []
format_hex-two t h = eq_bytes_sound _ _ (succeeds_under_lt _ 256 t h two_digits_table)

one_digit_table : succeeds_under (λ t. eq_bytes (format_hex 1 (pos t)) (digit t ∷ [])) 16 ≡ true
unfolding succeeds_under eq_bytes format_hex digit
one_digit_table = refl

pub format_hex-one : (t : ℕ) → t < 16 → format_hex 1 (pos t) ≡ digit t ∷ []
format_hex-one t h = eq_bytes_sound _ _ (succeeds_under_lt _ 16 t h one_digit_table)

pub digit-injective : (d e : ℕ) → d < 16 → e < 16 → digit d ≡ digit e → d ≡ e
unfolding digit
digit-injective d e hd he h = ground arith

-- The numbers that one, two and three digits spell.
pub hex_to_int-one : (a : ℕ) → a < 16 → hex_to_int (digit a ∷ []) ≡ some (pos a)
unfolding hex_to_int
hex_to_int-one a ha =
    parse_int-map-digit 16 (a ∷ []) (cons-ne-nil _ _) (omega arith) (ha, tt) (omega arith)
    ∙ ap (λ n. some (pos n)) (omega arith)

pub hex_to_int-two :
    (a b : ℕ) → a < 16 → b < 16 → hex_to_int (digit a ∷ digit b ∷ []) ≡ some (pos (a * 16 + b))
unfolding hex_to_int
hex_to_int-two a b ha hb =
    parse_int-map-digit 16 (a ∷ b ∷ []) (cons-ne-nil _ _) (omega arith) (ha, (hb, tt)) (omega arith)
    ∙ ap (λ n. some (pos n)) (omega arith)

pub hex_to_int-three :
    (a b c : ℕ)
    → a < 16
    → b < 16
    → c < 16
    → hex_to_int (digit a ∷ digit b ∷ digit c ∷ []) ≡ some (pos (a * 256 + b * 16 + c))
unfolding hex_to_int
hex_to_int-three a b c ha hb hc =
    parse_int-map-digit 16 (a ∷ b ∷ c ∷ []) (cons-ne-nil _ _) (omega arith) (ha, (hb, (hc, tt)))
      (omega arith)
    ∙ ap (λ n. some (pos n)) (omega arith)
