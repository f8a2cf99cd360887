-- ===== src/Store/Memory.antt =====
-- A database in memory that meets what the program relies on: a function from tables and keys, with
-- the decimal reader of the language's library.
use nntp_history.Prelude.{
  ℕ, ◌<◌, ◌^◌, ◌&&◌, [], ◌++◌, Option, none, some, ◌≡◌, ◌≢◌, ◌⊎◌, refl, ap, ◌∙◌, arith, Bytes,
  Outcome, ok, ok-injective, sym, eq_bytes, eq_bytes_sound, eq_bytes_refl, if◌then◌else◌,
  Bool-cases, inl, inr,
}
use nntp_history.Prelude.Int.{ℤ, pos}
use nntp_history.Text.Number.{format_int, parse_int}
use nntp_history.Text.Number.RoundTrip.{parse_int-format_int}
use nntp_history.Store.{Database}

abbrev Table : Type 0
Table = Bytes → Bytes → Option Bytes

joined : Bytes → Option Bytes → Bytes
joined v none = v
joined v (some o) = o ++ v

write_row : Bytes → Bytes → Bytes → Table → Table
unfolding joined
write_row t h v d t' h' =
    if eq_bytes t t' && eq_bytes h h' then some (joined v (d t' h')) else d t' h'

write_row_self : (t h v : Bytes) (d : Table) → write_row t h v d t h ≡ some (joined v (d t h))
unfolding write_row
write_row_self t h v d = rw (eq_bytes_refl t, eq_bytes_refl h)

write_row_ne :
    (t h v t' h' : Bytes) (d : Table) → (t ≢ t') ⊎ (h ≢ h') → write_row t h v d t' h' ≡ d t' h'
unfolding write_row
write_row_ne t h v t' h' d (inl ne) = elim (Bool-cases (eq_bytes t t')) [
  | inl same ↦ absurd (ne (eq_bytes_sound t t' same))
  | inr apart ↦ rw apart
]
write_row_ne t h v t' h' d (inr ne) = elim (Bool-cases (eq_bytes h h')) [
  | inl same ↦ absurd (ne (eq_bytes_sound h h' same))
  | inr apart ↦ ground (arith, apart)
]

read_decimal : Bytes → ℤ
read_decimal s = elim (parse_int 10 s) [ none ↦ pos 0 | some z ↦ z ]

read_decimal-format : (n : ℕ) → n < 2 ^ 63 → read_decimal (format_int 10 (pos n)) ≡ pos n
unfolding read_decimal
read_decimal-format n h =
    rw (parse_int-format_int 10 (pos n) (omega arith) (omega arith) (omega arith), read_decimal)

read_decimal-nil : read_decimal [] ≡ pos 0
unfolding read_decimal parse_int
read_decimal-nil = refl

-- The table after a write, read at a row.
after_write :
    (t h v t' h' : Bytes) (d d' : Table)
    → ok (write_row t h v d) ≡ ok d'
    → d' t' h' ≡ write_row t h v d t' h'
after_write t h v t' h' d d' e = ap (λ (f : Table). f t' h') (sym (ok-injective e))

memory-self :
    (t h v : Bytes) (d d' : Table)
    → ok (write_row t h v d) ≡ ok d'
    → ((ok (d t h) ≡ ok none) → ok (d' t h) ≡ ok (some v))
      × ((o : Bytes) → ok (d t h) ≡ ok (some o) → ok (d' t h) ≡ ok (some (o ++ v)))
unfolding joined
memory-self t h v d d' e = (
  λ n. ap ok (
      after_write t h v t h d d' e
      ∙ write_row_self t h v d
      ∙ ap (λ o. some (joined v o)) (ok-injective n)),
  λ o s. ap ok (
      after_write t h v t h d d' e
      ∙ write_row_self t h v d
      ∙ ap (λ o. some (joined v o)) (ok-injective s)),
)

memory-ne :
    (t h v t' h' : Bytes) (d d' : Table)
    → ok (write_row t h v d) ≡ ok d'
    → (t ≢ t') ⊎ (h ≢ h')
    → ◌≡◌ {A = Outcome (Option Bytes)} (ok (d' t' h')) (ok (d t' h'))
memory-ne t h v t' h' d d' e ne =
    ap ok (after_write t h v t' h' d d' e ∙ write_row_ne t h v t' h' d ne)

unfoldable pub memory : Database
unfolding write_row read_decimal memory-self memory-ne read_decimal-format read_decimal-nil
    after_write write_row_self write_row_ne
memory = record {
  Db = Table;
  upsert = λ t h v d. ok (write_row t h v d);
  select = λ t h d. ok (d t h);
  str_to_int64 = read_decimal;
  select-upsert_self = λ t h v d d' pt ph. memory-self t h v d d';
  select-upsert_ne = λ t h v t' h' d d' pt ph pt' ph'. memory-ne t h v t' h' d d';
  str_to_int64-decimal = read_decimal-format;
  str_to_int64-nil = read_decimal-nil;
}
