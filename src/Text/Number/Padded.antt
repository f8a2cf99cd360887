-- ===== src/Text/Number/Padded.antt =====
-- Numbers printed with zeros in front are read back.
use nntp_history.Prelude.{
  ℕ, zero, suc, ◌-◌, ◌≤◌, [], ◌∷◌, ◌++◌, some, ◌≡◌, ◌≢◌, refl, sym, arith, Bytes, length, replicate,
  ◌∙◌,
}
use nntp_history.Text.Number.{digit_value, format_nat, scan, parse_nat, pad_left}
use nntp_history.Text.Number.RoundTrip.{parse_nat-scan, parse_nat-format_nat, format_nat-ne-nil}

scan-zeros : (b k : ℕ) (s : Bytes) → 2 ≤ b → scan b 0 (replicate k b'0' ++ s) ≡ scan b 0 s
unfolding scan digit_value
scan-zeros b zero s h = refl
scan-zeros b (suc k) s h = ground (arith, scan-zeros b k s h)

append-ne-nil : (s t : Bytes) → t ≢ [] → s ++ t ≢ []
append-ne-nil [] t h e = h e
append-ne-nil (c ∷ s) t h e = cc

-- Zeros in front change nothing.
pub parse_nat-pad_left :
    (b n w : ℕ) → 2 ≤ b → b ≤ 16 → parse_nat b (pad_left b'0' w (format_nat b n)) ≡ some n
unfolding pad_left
parse_nat-pad_left b n w lo hi =
    let zeros = replicate (w - length (format_nat b n)) b'0' in
    parse_nat-scan b _ (append-ne-nil zeros (format_nat b n) (format_nat-ne-nil b n))
    ∙ scan-zeros b (w - length (format_nat b n)) (format_nat b n) lo
    ∙ sym (parse_nat-scan b _ (format_nat-ne-nil b n))
    ∙ parse_nat-format_nat b n lo hi
