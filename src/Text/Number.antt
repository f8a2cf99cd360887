-- ===== src/Text/Number.antt =====
-- Numbers as Go's `strconv` and `fmt` print and read them; the proofs are in the module below.
pub mod RoundTrip
pub mod Padded
pub mod Width
use nntp_history.Prelude.{
  ℕ, zero, suc, ◌+◌, ◌-◌, ◌*◌, ◌/◌, ◌%◌, ◌^◌, ◌≤◌, ◌<◌, Bool, true, false, ◌&&◌, ◌||◌, List, [],
  ◌∷◌, ◌++◌, Option, none, some, ◌≡◌, ◌≢◌, refl, arith, Bytes, codes, ltb, leb, ◌==◌, if◌then◌else◌,
  length, replicate, All, Lacks, Option-cases, Bool-cases, ltb→lt, ltb→le, All-append, inl, inr,
  ◌∙◌, ap,
}
use mathlib.Core.List.{concat-ne-nil}
use native.Mathlib.Nat.{mod-lt, div-add-mod', div-lt_self}
use nntp_history.Prelude.Int.{ℤ, pos, negsuc, signed, IsInt64}

-- The digit of a value below sixteen, in lower case.
unfoldable pub digit : ℕ → ℕ
digit d = if ltb d 10 then b'0' + d else b'a' + (d - 10)

-- The value of a digit in a base up to sixteen, in either case.
unfoldable pub digit_value : ℕ → ℕ → Option ℕ
digit_value b c =
    let v =
      (if leb b'0' c && leb c b'9'
        then c - b'0'
        else if leb b'a' c && leb c b'z'
        then c - b'a' + 10
        else if leb b'A' c && leb c b'Z'
        then c - b'A' + 10
        else b) in
    if ltb v b then some v else none

-- FormatUint(n, b): the digits of n, the last one last. The fuel bounds the number of divisions.
format_fuel : ℕ → ℕ → ℕ → Bytes
unfolding digit
format_fuel zero b n = digit n ∷ []
format_fuel (suc f) b n =
    let more = format_fuel f b (n / b) ++ digit (n % b) ∷ [] in
    if ltb n b then digit n ∷ [] else more

-- The number itself is fuel enough: every division makes it smaller.
unfoldable pub format_nat : ℕ → ℕ → Bytes
unfolding format_fuel
format_nat b n = format_fuel n b n

-- strconv.FormatInt(z, b)
unfoldable pub format_int : ℕ → ℤ → Bytes
unfolding format_nat
format_int b (pos n) = format_nat b n
format_int b (negsuc n) = b'-' ∷ format_nat b (suc n)

-- Digits read behind a number.
pub scan : ℕ → ℕ → Bytes → Option ℕ
unfolding digit_value
scan b acc [] = some acc
scan b acc (c ∷ s) = elim (digit_value b c) [ none ↦ none | some d ↦ scan b (acc * b + d) s ]

unfoldable pub parse_nat : ℕ → Bytes → Option ℕ
unfolding scan
parse_nat b [] = none
parse_nat b (c ∷ s) = scan b 0 (c ∷ s)

-- The range test of a signed 64-bit parse.
unfoldable pub in_range : Bool → Option ℕ → Option ℤ
in_range neg none = none
in_range false (some n) = if ltb n (2 ^ 63) then some (pos n) else none
in_range true (some n) = if leb n (2 ^ 63) then some (signed true n) else none

-- strconv.ParseInt(s, b, 64)
unfoldable pub parse_int : ℕ → Bytes → Option ℤ
unfolding parse_nat in_range
parse_int b [] = none
parse_int b (c ∷ s) =
    if c == b'+'
    then in_range false (parse_nat b s)
    else if c == b'-'
    then in_range true (parse_nat b s)
    else in_range false (parse_nat b (c ∷ s))

-- Zeros, or other padding, in front up to a width.
unfoldable pub pad_left : ℕ → ℕ → Bytes → Bytes
pad_left c w s = replicate (w - length s) c ++ s

-- fmt's %0wd: the sign stands before the zeros and counts for the width.
unfoldable pub format_padded : ℕ → ℤ → Bytes
unfolding format_nat pad_left
format_padded w (pos n) = pad_left b'0' w (format_nat 10 n)
format_padded w (negsuc n) = b'-' ∷ pad_left b'0' (w - 1) (format_nat 10 (suc n))
