-- ===== src/Writer/Log.antt =====
-- The log of what was added: where lines stand, the entries of a key, and the offsets of both.
use mathlib.Core.List.{cons-ne-nil}
use native.Mathlib.Decide.{dec_lt}
use nntp_history.Prelude.{
  ℕ, ◌<◌, true, false, List, [], ◌∷◌, ◌++◌, append_assoc, append-nil, ◌≡◌, refl, sym, ap, ◌∙◌,
  arith, Bytes, eq_bytes, eq_bytes_sound, eq_bytes_refl, if◌then◌else◌, length, take, All,
  Bool-cases, inl, inr, drop-append_le, drop-eq-nil,
}
use nntp_history.HisDat.Seek.{LineAt, line_at}
use nntp_history.Index.Verdict.{Entry, IsEntry, offsets_of, contains}

LineAt-lt : {text : Bytes} {n : ℕ} {hash : Bytes} → LineAt text n hash → n < length text
LineAt-lt {text} {n} (line_at rest e) = elim (dec_lt n (length text)) [
  | yes h ↦ h
  | no h ↦ absurd (cons-ne-nil _ _ (sym e ∙ drop-eq-nil n text (omega arith)))
]

-- A line stays where it is while a text grows.
LineAt-append :
    {text : Bytes} {n : ℕ} {hash : Bytes} (more : Bytes)
    → LineAt text n hash
    → LineAt (text ++ more) n hash
LineAt-append {text} {n} {hash} more (line_at rest e) = line_at (rest ++ more) (
    drop-append_le n text more (omega (arith, LineAt-lt {text = text} (line_at rest e)))
    ∙ ap (λ t. t ++ more) e
    ∙ ap (λ t. b'{' ∷ t) (append_assoc hash (b'}' ∷ 9 ∷ rest) more))

pub IsEntry-append : (text more : Bytes) (e : Entry) → IsEntry text e → IsEntry (text ++ more) e
IsEntry-append text more e v = record {
  sha256 = v.sha256;
  no_tab = v.no_tab;
  positive = v.positive;
  in_int64 = v.in_int64;
  line = LineAt-append more v.line;
}

-- The entries of a key, the first ten bytes of a hash.
unfoldable pub with_key : Bytes → List Entry → List Entry
with_key key [] = []
with_key key (e ∷ es) =
    let rest = with_key key es in if eq_bytes (take 10 e.hash) key then e ∷ rest else rest

with_key-append :
    (key : Bytes) (es fs : List Entry)
    → with_key key (es ++ fs) ≡ with_key key es ++ with_key key fs
unfolding with_key
with_key-append key [] fs = refl
with_key-append key (e ∷ es) fs = ground (arith, with_key-append key es fs)

offsets_of-append : (es fs : List Entry) → offsets_of (es ++ fs) ≡ offsets_of es ++ offsets_of fs
offsets_of-append [] fs = refl
offsets_of-append (e ∷ es) fs = ap (λ l. e.offset ∷ l) (offsets_of-append es fs)

pub All-with_key :
    (P : Entry → Type 0) (key : Bytes) (es : List Entry) → All P es → All P (with_key key es)
unfolding with_key
All-with_key P key [] h = tt
All-with_key P key (e ∷ es) h = elim (Bool-cases (eq_bytes (take 10 e.hash) key)) [
  | inl same ↦ rw same (h.0, All-with_key P key es h.1)
  | inr apart ↦ rw apart (All-with_key P key es h.1)
]

-- The offsets of a key after one more entry.
pub offsets-snoc_self :
    (key : Bytes) (log : List Entry) (e : Entry)
    → eq_bytes (take 10 e.hash) key ≡ true
    → offsets_of (with_key key (log ++ e ∷ [])) ≡ offsets_of (with_key key log) ++ e.offset ∷ []
unfolding with_key
offsets-snoc_self key log e same =
    rw (with_key-append, same) (offsets_of-append (with_key key log) (e ∷ []))

pub offsets-snoc_ne :
    (key : Bytes) (log : List Entry) (e : Entry)
    → eq_bytes (take 10 e.hash) key ≡ false
    → offsets_of (with_key key (log ++ e ∷ [])) ≡ offsets_of (with_key key log)
unfolding with_key
offsets-snoc_ne key log e apart =
    rw (with_key-append, apart) (ap offsets_of (append-nil (with_key key log)))

-- Entries of other keys are of other hashes.
pub contains-with_key :
    (hash : Bytes) (es : List Entry) → contains hash (with_key (take 10 hash) es) ≡ contains hash es
unfolding with_key contains
contains-with_key hash [] = refl
contains-with_key hash (e ∷ es) = elim (Bool-cases (eq_bytes (take 10 e.hash) (take 10 hash))) [
  | inl same ↦ rw (same, contains-with_key hash es)
  | inr apart ↦ rw (apart, contains-with_key hash es, ne_of_key e.hash hash apart)
]
  where
    ne_of_key : (h k : Bytes) → eq_bytes (take 10 h) (take 10 k) ≡ false → eq_bytes h k ≡ false
    ne_of_key h k apart = elim (Bool-cases (eq_bytes h k)) [
      | inl same ↦ cc (apart, ap (take 10) (eq_bytes_sound h k same), eq_bytes_refl (take 10 k))
      | inr ne ↦ ne
    ]
