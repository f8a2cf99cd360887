-- ===== src/Text/Number/Width.antt =====
-- How wide printed decimals are.
use native.Mathlib.Nat.{pow-zero, pow-succ'}
use nntp_history.Prelude.{
  ℕ, zero, suc, ◌-◌, ◌/◌, ◌%◌, ◌^◌, ◌≤◌, ◌<◌, true, [], ◌∷◌, ◌≡◌, arith, Bool-cases, inl, inr, ltb,
  ltb→le, lt→ltb, length, length-append, length-replicate, replicate,
}
use nntp_history.Prelude.Int.{pos}
use nntp_history.Text.Number.{digit, format_fuel, format_nat, format_padded}

-- A number below a power of ten has no more digits than the power.
length-format_fuel : (f n k : ℕ) → n ≤ f → n < 10 ^ suc k → length (format_fuel f 10 n) ≤ suc k
unfolding format_fuel
length-format_fuel zero n k fuel h = omega arith
length-format_fuel (suc f) n zero fuel h =
    let small : ltb n 10 ≡ true = lt→ltb n 10 (omega (arith, pow-succ' 10 0, pow-zero 10)) in
    rw small (omega arith)
length-format_fuel (suc f) n (suc k) fuel h = elim (Bool-cases (ltb n 10)) [
  | inl small ↦ rw small (omega arith)
  | inr big ↦
      let long = ltb→le n 10 big in
      let deeper =
        length-format_fuel f (n / 10) k (omega arith) (omega (arith, pow-succ' 10 (suc k))) in
      rw big
        (omega (arith, length-append (format_fuel f 10 (n / 10)) (digit (n % 10) ∷ []), deeper))
]

-- A number that fits is padded to the width.
pub length-format_padded :
    (w n : ℕ) → n < 10 ^ suc w → length (format_padded (suc w) (pos n)) ≡ suc w
unfolding format_padded format_nat
length-format_padded w n h = omega (
  arith,
  length-format_fuel n n w (omega arith) h,
  length-append (replicate (suc w - length (format_fuel n 10 n)) b'0') (format_fuel n 10 n),
  length-replicate {A = ℕ} (suc w - length (format_fuel n 10 n)) b'0',
)
