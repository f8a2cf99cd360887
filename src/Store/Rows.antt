-- ===== src/Store/Rows.antt =====
-- A key's row holds the offsets that were inserted for it, and they are read back in order.
use mathlib.Core.List.{cons-ne-nil, map-append}
use nntp_history.Prelude.{
  ℕ, ◌≤◌, ◌^◌, ◌<◌, Bool, true, false, List, [], ◌∷◌, ◌++◌, map, append_assoc, Option, none, some,
  ◌≡◌, ◌⊎◌, ◌≢◌, refl, sym, ap, ◌∙◌, inl, inr, arith, le→ltb, Bytes, Bool-cases, eq_bytes,
  eq_bytes_sound, eq_bytes_refl, take-append-drop, ok, ltb, length, take, All, All-take, All-drop,
  Lacks,
}
use nntp_history.Prelude.Int.{pos}
use nntp_history.Text.{split, terminated, split-terminated}
use nntp_history.Text.Number.{format_int}
use nntp_history.Text.Number.RoundTrip.{format_int-Lacks, format_int-ne-nil}
use nntp_history.Store.{
  Database, IsPlain, connection, table_of, row_of, offset_text, insert_offset, get_offsets,
  positive_offsets, read_row,
}

-- An offset that the program may store.
abbrev pub IsOffset : ℕ → Type 0
IsOffset n = (0 < n) × (n < 2 ^ 63)

decimals : List ℕ → List Bytes
decimals offs = map (λ n. format_int 10 (pos n)) offs

-- The column o of a row: nothing for a key that was never inserted.
unfoldable pub row_text : List ℕ → Option Bytes
unfolding decimals
row_text [] = none
row_text (n ∷ offs) = some (terminated b',' (decimals (n ∷ offs)))

length_pos : (s : Bytes) → s ≢ [] → ltb (length s) 1 ≡ false
length_pos [] h = absurd (h refl)
length_pos (c ∷ s) h = ground arith

terminated-ne-nil : (ps : List Bytes) → ps ≢ [] → terminated b',' ps ≢ []
unfolding terminated
terminated-ne-nil [] h = absurd (h refl)
terminated-ne-nil ([] ∷ ps) h = cons-ne-nil _ _
terminated-ne-nil ((c ∷ p) ∷ ps) h = cons-ne-nil _ _

-- Different keys differ in the table or in the row.
keys_apart :
    (key key' : Bytes) → key ≢ key' → (table_of key ≢ table_of key') ⊎ (row_of key ≢ row_of key')
unfolding table_of row_of
keys_apart key key' ne = elim (Bool-cases (eq_bytes (take 3 key) (take 3 key'))) [
  | inl same ↦
      let e = eq_bytes_sound (take 3 key) (take 3 key') same in
      inr (λ r. ne (sym (take-append-drop 3 key) ∙ cc (e, r) ∙ take-append-drop 3 key'))
  | inr apart ↦ inl (λ t. cc (apart, t, eq_bytes_refl (take 3 key')))
]

-- One more offset at the end of a row.
terminated-snoc :
    (ps : List Bytes) (p : Bytes)
    → terminated b',' (ps ++ p ∷ []) ≡ terminated b',' ps ++ (p ++ b',' ∷ [])
unfolding terminated
terminated-snoc [] p = refl
terminated-snoc (q ∷ ps) p =
    rw (terminated-snoc ps p) (sym (append_assoc q (b',' ∷ terminated b',' ps) (p ++ b',' ∷ [])))

table_of-IsPlain : (key : Bytes) → IsPlain key → IsPlain (table_of key)
unfolding table_of
table_of-IsPlain key h = (inr (omega arith, omega arith), All-take _ 3 key h)

row_of-IsPlain : (key : Bytes) → IsPlain key → IsPlain (row_of key)
unfolding row_of
row_of-IsPlain key h = All-drop _ 3 key h

module _ (D : Database) where
  open D use {
    Db, upsert, select, str_to_int64, select-upsert_self, select-upsert_ne, str_to_int64-decimal,
    str_to_int64-nil,
  }

  -- The row of a key holds these offsets.
  unfoldable pub Holds : Db → Bytes → List ℕ → Type 0
  Holds d key offs = select (table_of key) (row_of key) d ≡ ok (row_text offs)

  positive-decimals :
      (skip : Bool) (offs : List ℕ)
      → All IsOffset offs
      → positive_offsets D skip (decimals offs ++ [] ∷ []) ≡ map pos offs
  unfolding decimals positive_offsets
  positive-decimals true [] h = refl
  positive-decimals false [] h = rw str_to_int64-nil
  positive-decimals skip (n ∷ offs) h = ground (
    arith,
    str_to_int64-decimal n,
    length_pos (format_int 10 (pos n)) (format_int-ne-nil 10 (pos n)),
    positive-decimals skip offs h.1,
  )

  decimals-Lacks : (offs : List ℕ) → All (Lacks b',') (decimals offs)
  unfolding decimals
  decimals-Lacks [] = tt
  decimals-Lacks (n ∷ offs) =
      (format_int-Lacks 10 (pos n) b',' (omega arith) (omega arith), decimals-Lacks offs)

  read_row-ne-nil :
      (skip : Bool) (s : Bytes)
      → s ≢ []
      → read_row D skip (some s) ≡ positive_offsets D skip (split b',' s)
  unfolding read_row
  read_row-ne-nil skip [] h = absurd (h refl)
  read_row-ne-nil skip (c ∷ s) h = refl

  read_row_text :
      (skip : Bool) (offs : List ℕ)
      → All IsOffset offs
      → read_row D skip (row_text offs) ≡ map pos offs
  unfolding row_text
  read_row_text skip [] h = unfold read_row in refl
  read_row_text skip (n ∷ offs) h =
      read_row-ne-nil skip _ (terminated-ne-nil (decimals (n ∷ offs)) (cons-ne-nil _ _))
      ∙ rw (split-terminated b',' (decimals (n ∷ offs)) (decimals-Lacks (n ∷ offs)))
          (positive-decimals skip (n ∷ offs) h)

  -- GetOffsets over a connection, for a key of at least three bytes whose row holds some offsets, each
  -- positive and below 2^63, returns them in order, in the version for MySQL and in the one for
  -- SQLite.
  pub get_offsets-Holds :
      (skip : Bool) (d : Db) (key : Bytes) (offs : List ℕ)
      → 3 ≤ length key
      → All IsOffset offs
      → Holds d key offs
      → get_offsets D skip connection key d ≡ ok (map pos offs)
  unfolding get_offsets Holds
  get_offsets-Holds skip d key offs long h e =
      rw (le→ltb (length key) 3 long, e) (ap ok (read_row_text skip offs h))

  insert-upsert :
      (d d' : Db) (key : Bytes) (n : ℕ)
      → 3 ≤ length key
      → insert_offset D connection key (pos n) d ≡ ok d'
      → upsert (table_of key) (row_of key) (offset_text (pos n)) d ≡ ok d'
  unfolding insert_offset
  insert-upsert d d' key n long e = rw (le→ltb (length key) 3 long) at e

  -- An InsertOffset that succeeds, for a key of at least three bytes, all digits or lower-case
  -- letters, whose row holds some offsets, appends the offset to them.
  pub insert_offset-Holds_self :
      (d d' : Db) (key : Bytes) (offs : List ℕ) (n : ℕ)
      → 3 ≤ length key
      → IsPlain key
      → insert_offset D connection key (pos n) d ≡ ok d'
      → Holds d key offs
      → Holds d' key (offs ++ n ∷ [])
  unfolding Holds row_text terminated offset_text
  insert_offset-Holds_self d d' key [] n long plain e h =
      (select-upsert_self (table_of key) (row_of key) (offset_text (pos n)) d d'
          (table_of-IsPlain key plain) (row_of-IsPlain key plain)
          (insert-upsert d d' key n long e)).0
        h
  insert_offset-Holds_self d d' key (m ∷ offs) n long plain e h =
      (select-upsert_self (table_of key) (row_of key) (offset_text (pos n)) d d'
          (table_of-IsPlain key plain) (row_of-IsPlain key plain)
          (insert-upsert d d' key n long e)).1
        _ h
      ∙ ap (λ t. ok (some t))
          (sym (terminated-snoc (decimals (m ∷ offs)) (format_int 10 (pos n)))
            ∙ ap (terminated b',')
                (sym (map-append (λ k. format_int 10 (pos k)) (m ∷ offs) (n ∷ []))))

  -- An InsertOffset that succeeds, for a key of at least three bytes, all digits or lower-case
  -- letters, leaves the offsets of every other key of digits and lower-case letters as they were.
  pub insert_offset-Holds_ne :
      (d d' : Db) (key key' : Bytes) (offs : List ℕ) (n : ℕ)
      → 3 ≤ length key
      → IsPlain key
      → IsPlain key'
      → key ≢ key'
      → insert_offset D connection key (pos n) d ≡ ok d'
      → Holds d key' offs
      → Holds d' key' offs
  unfolding Holds
  insert_offset-Holds_ne d d' key key' offs n long plain plain' ne e h =
      select-upsert_ne (table_of key) (row_of key) (offset_text (pos n)) (table_of key')
        (row_of key') d d' (table_of-IsPlain key plain) (row_of-IsPlain key plain)
        (table_of-IsPlain key' plain') (row_of-IsPlain key' plain')
        (insert-upsert d d' key n long e) (keys_apart key key' ne)
      ∙ h
