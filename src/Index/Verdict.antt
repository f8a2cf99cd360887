-- ===== src/Index/Verdict.antt =====
-- The verdict on a hash, where history.dat holds the lines that the offsets point to, and where it
-- does not hold them yet.
use nntp_history.Prelude.{
  ℕ, zero, suc, ◌≤◌, ◌<◌, ◌^◌, Bool, true, false, List, [], ◌∷◌, map, some, ◌≡◌, refl, ap, subst,
  arith, Bytes, ok, eq_bytes, eq_bytes_sound, if◌then◌else◌, length, All, Lacks, Bool-cases, inl,
  inr,
}
use nntp_history.Prelude.Int.{pos}
use nntp_history.Stats.{Stats, sync_upcounter}
use nntp_history.Cases.{case_pass, case_dupes}
use nntp_history.HisDat.{fseek_history_message_hash, eofhash}
use nntp_history.HisDat.Seek.{LineAt, fseek-LineAt, fseek_past_end}
use nntp_history.Index.{found_at, duplicate, verdict}

-- A hash and the offset of its line.
pub record Entry : Type 0 where
  pub hash : Bytes
  pub offset : ℕ

-- The entry's line begins at its offset in a text.
pub record IsEntry (text : Bytes) (e : Entry) : Type 0 where
  pub sha256 : length e.hash ≡ 64
  pub no_tab : Lacks 9 e.hash
  pub positive : 0 < e.offset
  pub in_int64 : e.offset < 2 ^ 63
  pub line : LineAt text e.offset e.hash

abbrev pub offsets_of : List Entry → List ℕ
offsets_of [] = []
offsets_of (e ∷ es) = e.offset ∷ offsets_of es

-- Whether one of the entries is of the hash.
unfoldable pub contains : Bytes → List Entry → Bool
contains hash [] = false
contains hash (e ∷ es) = if eq_bytes e.hash hash then true else contains hash es

-- Reading at the offset of an entry gives its hash.
fseek-IsEntry :
    (text : Bytes) (e : Entry) (stats : Stats)
    → IsEntry text e
    → fseek_history_message_hash (some text) (pos e.offset) [] stats
      ≡ (ok e.hash, sync_upcounter "FSEEK" stats)
fseek-IsEntry text e stats v = go e.offset refl
  where
    go :
        (n : ℕ)
        → e.offset ≡ n
        → fseek_history_message_hash (some text) (pos e.offset) [] stats
          ≡ (ok e.hash, sync_upcounter "FSEEK" stats)
    go zero p = absurd (omega (arith, v.positive))
    go (suc n) p = rw p (
        fseek-LineAt text n e.hash [] stats (subst (λ k. LineAt text k e.hash) p v.line) v.sha256
          v.no_tab)

found_at-contains :
    (text hash : Bytes) (es : List Entry) (stats : Stats)
    → All (IsEntry text) es
    → (found_at (some text) hash (map pos (offsets_of es)) stats).0 ≡ contains hash es
unfolding found_at contains
found_at-contains text hash [] stats h = refl
found_at-contains text hash (e ∷ es) stats h =
    rw (fseek-IsEntry text e stats h.0, found_at)
      (elim (Bool-cases (eq_bytes e.hash hash)) [
        | inl same ↦ rw same
        | inr apart ↦ rw apart (
            found_at-contains text hash es
              (fseek_history_message_hash (some text) (pos e.offset) [] stats).1 h.1)
      ])

-- Where history.dat holds the line of every stored offset, a hash is called a duplicate exactly when
-- it is the hash of one of these lines, and new otherwise, however many offsets there are.
pub verdict-contains :
    (text hash : Bytes) (es : List Entry) (stats : Stats)
    → All (IsEntry text) es
    → (verdict (some text) hash (map pos (offsets_of es)) stats).0
      ≡ (if contains hash es then case_dupes else case_pass)
unfolding verdict contains duplicate
verdict-contains text hash [] stats h = refl
verdict-contains text hash (e ∷ []) stats h =
    rw (fseek-IsEntry text e stats h.0, verdict) (ground arith)
verdict-contains text hash (e ∷ f ∷ es) stats h =
    ground (arith, found_at-contains text hash (e ∷ f ∷ es) stats h)

-- The end marker is no hash.
eof-ne : (hash : Bytes) → length hash ≡ 64 → eq_bytes eofhash hash ≡ false
eof-ne hash len = elim (Bool-cases (eq_bytes eofhash hash)) [
  | inl same ↦ absurd (omega (arith, ap (length {A = ℕ}) (eq_bytes_sound eofhash hash same)))
  | inr apart ↦ apart
]

-- A single stored offset at or past the end of history.dat, as of a line that still waits in the buffer, makes the
-- worker call its hash new, whatever 64-byte hash is asked for.
pub verdict_unflushed :
    (text hash : Bytes) (offset : ℕ) (stats : Stats)
    → 0 < offset
    → length text ≤ offset
    → length hash ≡ 64
    → (verdict (some text) hash (pos offset ∷ []) stats).0 ≡ case_pass
unfolding verdict
verdict_unflushed text hash zero stats p past len = absurd (omega arith)
verdict_unflushed text hash (suc n) stats p past len =
    rw (fseek_past_end text n [] stats past, verdict) (ground (arith, eof-ne hash len))
