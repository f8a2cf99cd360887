-- ===== src/HashEnc/Tests.antt =====
-- Offsets joined and read back, and a padded text.
use nntp_history.Prelude.{true, List, [], ◌∷◌, ◌++◌, some, ◌≡◌, arith, Bytes, ok, length}
use nntp_history.Prelude.Int.{ℤ, pos, negsuc}
use mathlib.Core.List.{cons-ne-nil}
use nntp_history.HashEnc.{concat_int64, parse_byte_to_slice}
use nntp_history.HashEnc.Offsets.{parse-concat}

abbrev offsets : List ℤ
offsets = pos 4096 ∷ negsuc 15 ∷ []

parse-concat_example :
    (text : Bytes) × (concat_int64 true offsets (some []) ≡ (ok (length text), some text))
    × (parse_byte_to_slice true (some text) (some (pos 7 ∷ []))
        ≡ (ok (length ((pos 7 ∷ []) ++ offsets)), some ((pos 7 ∷ []) ++ offsets)))
parse-concat_example =
    parse-concat true offsets [] (pos 7 ∷ []) (cons-ne-nil _ _) (omega arith, (omega arith, tt))
