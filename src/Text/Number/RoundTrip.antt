-- ===== src/Text/Number/RoundTrip.antt =====
-- Printed numbers are read back, and hold no byte but digits and a sign.
use mathlib.Core.List.{concat-ne-nil, cons-ne-nil}
use native.Mathlib.Nat.{mod-lt, div-add-mod', div-lt_self}
use nntp_history.Prelude.{
  List, map, ℕ, zero, suc, ◌+◌, ◌-◌, ◌*◌, ◌/◌, ◌%◌, ◌^◌, ◌≤◌, ◌<◌, false, [], ◌∷◌, ◌++◌, some, ◌≡◌,
  ◌≢◌, refl, arith, Bytes, codes, ltb, All, Lacks, Option-cases, Bool-cases, ltb→lt, ltb→le,
  All-append, All-map, inl, inr, ◌∙◌, ap,
}
use nntp_history.Prelude.Int.{ℤ, pos, negsuc, IsInt64}
use nntp_history.Text.Number.{
  digit, digit_value, format_fuel, format_nat, format_int, scan, parse_nat, parse_int, in_range,
  format_padded,
}

negative_hex : parse_int 16 (format_int 16 (negsuc 254)) ≡ some (negsuc 254)
unfolding parse_int format_int
negative_hex = refl

padded_decimal : format_padded 10 (pos 1234) ≡ codes "0000001234"
unfolding format_padded
padded_decimal = refl

largest_hex : parse_int 16 (format_int 16 (pos (2 ^ 63 - 1))) ≡ some (pos 9223372036854775807)
unfolding parse_int format_int
largest_hex = refl

digit_value-digit : (b d : ℕ) → b ≤ 16 → d < b → digit_value b (digit d) ≡ some d
unfolding digit_value digit
digit_value-digit b d hb h = ground arith

scan-append :
    (b acc : ℕ) (s t : Bytes) {n : ℕ} → scan b acc s ≡ some n → scan b acc (s ++ t) ≡ scan b n t
unfolding scan
scan-append b acc [] t h = ground arith
scan-append b acc (c ∷ s) t h = elim (Option-cases (digit_value b c)) [
  | inl e ↦ ground arith
  | inr (d, e) ↦ rw (e, scan) (scan-append b (acc * b + d) s t (ground arith))
]

-- A number of one digit.
scan_one : (b acc d : ℕ) → b ≤ 16 → d < b → scan b acc (digit d ∷ []) ≡ some (acc * b + d)
unfolding scan
scan_one b acc d hb h = rw (digit_value-digit b d hb h, scan)

quotient : (n b : ℕ) → 2 ≤ b → b ≤ n → n / b < n
quotient n b lo h = div-lt_self (omega arith) lo

scan-format_fuel : (f b n : ℕ) → 2 ≤ b → b ≤ 16 → n ≤ f → scan b 0 (format_fuel f b n) ≡ some n
unfolding format_fuel
scan-format_fuel zero b n lo hi h = scan_one b 0 n hi (omega arith) ∙ ap some (omega arith)
scan-format_fuel (suc f) b n lo hi h = elim (Bool-cases (ltb n b)) [
  | inl small ↦ rw small (scan_one b 0 n hi (ltb→lt n b small) ∙ ap some (omega arith))
  | inr big ↦ rw big (
      scan-append b 0 (format_fuel f b (n / b)) (digit (n % b) ∷ [])
        (scan-format_fuel f b (n / b) lo hi (omega (arith, quotient n b lo (ltb→le n b big))))
      ∙ scan_one b (n / b) (n % b) hi (mod-lt n (omega arith))
      ∙ ap some (div-add-mod' n b))
]

-- Every byte of a printed number is a digit of the base, and there is at least one.
abbrev pub IsDigit : ℕ → ℕ → Type 0
IsDigit b c = (d : ℕ) × (d < b) × (c ≡ digit d)

format_fuel-IsDigit : (f b n : ℕ) → 2 ≤ b → n ≤ f → All (IsDigit b) (format_fuel f b n)
unfolding format_fuel
format_fuel-IsDigit zero b n lo h = ((n, omega arith, refl), tt)
format_fuel-IsDigit (suc f) b n lo h = elim (Bool-cases (ltb n b)) [
  | inl small ↦ rw small ((n, ltb→lt n b small, refl), tt)
  | inr big ↦ rw big (
      All-append (IsDigit b) (format_fuel f b (n / b)) (digit (n % b) ∷ [])
        (format_fuel-IsDigit f b (n / b) lo (omega (arith, quotient n b lo (ltb→le n b big))))
        ((n % b, mod-lt n (omega arith), refl), tt))
]

pub format_nat-IsDigit : (b n : ℕ) → 2 ≤ b → All (IsDigit b) (format_nat b n)
unfolding format_nat
format_nat-IsDigit b n lo = format_fuel-IsDigit n b n lo (omega arith)

format_fuel-ne-nil : (f b n : ℕ) → format_fuel f b n ≢ []
unfolding format_fuel
format_fuel-ne-nil zero b n h = cc
format_fuel-ne-nil (suc f) b n h = elim (Bool-cases (ltb n b)) [
  | inl small ↦ cc (rw small at h)
  | inr big ↦ concat-ne-nil _ _ (rw big at h)
]

pub format_nat-ne-nil : (b n : ℕ) → format_nat b n ≢ []
unfolding format_nat
format_nat-ne-nil b n = format_fuel-ne-nil n b n

pub parse_nat-scan : (b : ℕ) (s : Bytes) → s ≢ [] → parse_nat b s ≡ scan b 0 s
unfolding parse_nat
parse_nat-scan b [] h = absurd (h refl)
parse_nat-scan b (c ∷ s) h = refl

-- Every number is read back from its print, in every base from two to sixteen.
pub parse_nat-format_nat : (b n : ℕ) → 2 ≤ b → b ≤ 16 → parse_nat b (format_nat b n) ≡ some n
parse_nat-format_nat b n lo hi =
    parse_nat-scan b _ (format_nat-ne-nil b n)
    ∙ unfold format_nat in scan-format_fuel n b n lo hi (omega arith)

-- A text of digits bears no sign.
parse_int-digits :
    (b : ℕ) (s : Bytes)
    → s ≢ []
    → All (IsDigit b) s
    → parse_int b s ≡ in_range false (parse_nat b s)
unfolding parse_int digit
parse_int-digits b [] h hs = absurd (h refl)
parse_int-digits b (c ∷ s) h ((d, lt, e), hs) = ground arith

-- Every int64 is read back from its print, in every base from two to sixteen.
pub parse_int-format_int :
    (b : ℕ) (z : ℤ) → 2 ≤ b → b ≤ 16 → IsInt64 z → parse_int b (format_int b z) ≡ some z
unfolding format_int in_range
parse_int-format_int b (pos n) lo hi h =
    parse_int-digits b _ (format_nat-ne-nil b n) (format_nat-IsDigit b n lo)
    ∙ rw (parse_nat-format_nat b n lo hi) (ground arith)
parse_int-format_int b (negsuc n) lo hi h =
    unfold parse_int in rw (parse_nat-format_nat b (suc n) lo hi) (ground arith)

-- No byte below the digits stands in a printed number.
pub format_nat-Lacks : (b n x : ℕ) → 2 ≤ b → x < b'0' → Lacks x (format_nat b n)
unfolding digit
format_nat-Lacks b n x lo h =
    All-map (IsDigit b) (λ c. c ≢ x) (format_nat b n) (λ c (d, lt, e) p. ground arith)
      (format_nat-IsDigit b n lo)

pub format_int-Lacks : (b : ℕ) (z : ℤ) (x : ℕ) → 2 ≤ b → x < b'-' → Lacks x (format_int b z)
unfolding format_int
format_int-Lacks b (pos n) x lo h = format_nat-Lacks b n x lo (omega arith)
format_int-Lacks b (negsuc n) x lo h = (ground arith, format_nat-Lacks b (suc n) x lo (omega arith))

pub format_int-ne-nil : (b : ℕ) (z : ℤ) → format_int b z ≢ []
unfolding format_int
format_int-ne-nil b (pos n) = format_nat-ne-nil b n
format_int-ne-nil b (negsuc n) = cons-ne-nil _ _

-- The value that digits spell behind a number.
abbrev pub value : ℕ → ℕ → List ℕ → ℕ
value b acc [] = acc
value b acc (d ∷ ds) = value b (acc * b + d) ds

scan-digits :
    (b acc : ℕ) (ds : List ℕ)
    → b ≤ 16
    → All (λ d. d < b) ds
    → scan b acc (map digit ds) ≡ some (value b acc ds)
unfolding scan
scan-digits b acc [] hb h = refl
scan-digits b acc (d ∷ ds) hb h =
    rw (digit_value-digit b d hb h.0, scan) (scan-digits b (acc * b + d) ds hb h.1)

digits-IsDigit : (b : ℕ) (ds : List ℕ) → All (λ d. d < b) ds → All (IsDigit b) (map digit ds)
digits-IsDigit b [] h = tt
digits-IsDigit b (d ∷ ds) h = ((d, h.0, refl), digits-IsDigit b ds h.1)

-- ParseInt reads a text of digits that spell less than 2^63.
pub parse_int-map-digit :
    (b : ℕ) (ds : List ℕ)
    → ds ≢ []
    → b ≤ 16
    → All (λ d. d < b) ds
    → value b 0 ds < 2 ^ 63
    → parse_int b (map digit ds) ≡ some (pos (value b 0 ds))
unfolding in_range
parse_int-map-digit b [] ne hb h fits = absurd (ne refl)
parse_int-map-digit b (d ∷ ds) ne hb h fits =
    parse_int-digits b (map digit (d ∷ ds)) (cons-ne-nil _ _) (digits-IsDigit b (d ∷ ds) h)
    ∙ rw (parse_nat-scan b (map digit (d ∷ ds)) (cons-ne-nil _ _), scan-digits b 0 (d ∷ ds) hb h)
        (ground arith)

-- And, behind a sign, the negative number.
pub parse_int-neg-digit :
    (b : ℕ) (ds : List ℕ) (n : ℕ)
    → ds ≢ []
    → b ≤ 16
    → All (λ d. d < b) ds
    → value b 0 ds ≡ suc n
    → n < 2 ^ 63
    → parse_int b (b'-' ∷ map digit ds) ≡ some (negsuc n)
unfolding in_range parse_int
parse_int-neg-digit b [] n ne hb h e fits = absurd (ne refl)
parse_int-neg-digit b (d ∷ ds) n ne hb h e fits =
    rw (parse_nat-scan b (map digit (d ∷ ds)) (cons-ne-nil _ _), scan-digits b 0 (d ∷ ds) hb h, e)
      (ground arith)
