-- ===== src/HisDat/Seek.antt =====
-- What FseekHistoryMessageHash finds at an offset.
use nntp_history.Prelude.{
  ℕ, suc, ◌≤◌, true, [], ◌∷◌, ◌++◌, append_assoc, some, ◌≡◌, refl, sym, ap, arith, Bytes, ok,
  length, drop, Lacks, All-append, length-append, take-append_self, drop-eq-nil,
}
use nntp_history.Prelude.Int.{pos}
use nntp_history.Text.{until, until-append}
use nntp_history.Stats.{Stats, sync_upcounter}
use nntp_history.HisDat.{closes, braced, unbraced, eofhash, fseek_history_message_hash}

-- A hash in braces.
abbrev pub brace : Bytes → Bytes
brace hash = b'{' ∷ (hash ++ b'}' ∷ [])

closes-append : (d : ℕ) (s : Bytes) → closes d (s ++ b'}' ∷ []) ≡ true
unfolding closes
closes-append d [] = refl
closes-append d (e ∷ s) = closes-append e s

braced-brace : (hash : Bytes) → braced (brace hash) ≡ true
unfolding braced
braced-brace hash = ground (arith, closes-append b'{' hash)

unbraced-brace : (hash : Bytes) → unbraced (brace hash) ≡ hash
unfolding unbraced
unbraced-brace hash =
    take-append_self hash (b'}' ∷ []) _ (omega (arith, length-append hash (b'}' ∷ [])))

brace-Lacks : (hash : Bytes) → Lacks 9 hash → Lacks 9 (brace hash)
brace-Lacks hash h = (ground arith, All-append _ hash (b'}' ∷ []) h (ground arith, tt))

-- The line of a hash begins at an offset of a text.
pub data LineAt (text : Bytes) (offset : ℕ) (hash : Bytes) : Type 0 where
  line_at :
      (rest : Bytes) → drop offset text ≡ b'{' ∷ (hash ++ b'}' ∷ 9 ∷ rest) → LineAt text offset hash

-- FseekHistoryMessageHash at an offset greater than 0 where the line of a 64-byte hash without a tab
-- begins gives that hash and counts one FSEEK.
pub fseek-LineAt :
    (text : Bytes) (n : ℕ) (hash rethash : Bytes) (stats : Stats)
    → LineAt text (suc n) hash
    → length hash ≡ 64
    → Lacks 9 hash
    → fseek_history_message_hash (some text) (pos (suc n)) rethash stats
      ≡ (ok hash, sync_upcounter "FSEEK" stats)
unfolding fseek_history_message_hash
fseek-LineAt text n hash rethash stats (line_at rest e) len clean =
    rw
      (
        e,
        sym_split,
        until-append 9 (brace hash) rest (brace-Lacks hash clean),
        fseek_history_message_hash,
      )
      (rw (braced-brace hash, unbraced-brace hash, len))
  where
    sym_split : b'{' ∷ (hash ++ b'}' ∷ 9 ∷ rest) ≡ brace hash ++ 9 ∷ rest
    sym_split = ap (λ t. b'{' ∷ t) (sym (append_assoc hash (b'}' ∷ []) (9 ∷ rest)))

-- Past the end of the file the end marker is read.
pub fseek_past_end :
    (text : Bytes) (n : ℕ) (rethash : Bytes) (stats : Stats)
    → length text ≤ suc n
    → fseek_history_message_hash (some text) (pos (suc n)) rethash stats ≡ (ok eofhash, stats)
unfolding fseek_history_message_hash until
fseek_past_end text n rethash stats h =
    rw (drop-eq-nil (suc n) text h, until, fseek_history_message_hash)
