-- ===== src/Shard/Tables.antt =====
-- The tables that are made: every hash has its table among them, and there are as many as promised.
use nntp_history.Prelude.{
  ℕ, zero, suc, ◌+◌, ◌*◌, ◌%◌, ◌<◌, Bool, true, false, [], ◌∷◌, ◌++◌, ◌≡◌, refl, ap, subst, arith,
  Bytes, codes, length, take, Elem, Elem-append_left, Elem-append_right, inl, inr, ◌==◌,
  if◌then◌else◌,
}
use nntp_history.Prelude.Int.{ℤ, pos}
use nntp_history.Text.Number.{digit}
use nntp_history.Shard.{
  ShardMode, single_db, full_split, shard_16_256, shard_64_64, shard_128_32, shard_512_8, other,
  get_shard_config, format_hex, get_table_name_from_hash, create_tables_for_db, loop_one, loop_two,
  loop_three, numbered, hex_digits,
}
use nntp_history.Shard.Names.{HasPrefix, succeeds_under, succeeds_under_lt, format_hex-one}
use nntp_history.Shard.Place.{IsKnown, table_of, table_name_lem, two_digits}

Elem-loop_one :
    (prefix cs : Bytes) (c : ℕ) → Elem c cs → Elem (prefix ++ c ∷ []) (loop_one prefix cs)
unfolding loop_one
Elem-loop_one prefix [] c h = elim h [ ]
Elem-loop_one prefix (d ∷ cs) c (inl e) = inl (ap (λ x. prefix ++ x ∷ []) e)
Elem-loop_one prefix (d ∷ cs) c (inr h) = inr (Elem-loop_one prefix cs c h)

Elem-loop_two :
    (prefix cs : Bytes) (c d : ℕ)
    → Elem c cs
    → Elem d hex_digits
    → Elem ((prefix ++ c ∷ []) ++ d ∷ []) (loop_two prefix cs)
unfolding loop_two
Elem-loop_two prefix [] c d h hd = elim h [ ]
Elem-loop_two prefix (x ∷ cs) c d (inl e) hd =
    Elem-append_left _ (loop_one (prefix ++ x ∷ []) hex_digits) _
      (rw (← e) (Elem-loop_one (prefix ++ x ∷ []) hex_digits d hd))
Elem-loop_two prefix (x ∷ cs) c d (inr h) hd =
    Elem-append_right _ (loop_one (prefix ++ x ∷ []) hex_digits) _
      (Elem-loop_two prefix cs c d h hd)

Elem-loop_three :
    (prefix cs : Bytes) (c d e : ℕ)
    → Elem c cs
    → Elem d hex_digits
    → Elem e hex_digits
    → Elem (((prefix ++ c ∷ []) ++ d ∷ []) ++ e ∷ []) (loop_three prefix cs)
unfolding loop_three
Elem-loop_three prefix [] c d e h hd he = elim h [ ]
Elem-loop_three prefix (x ∷ cs) c d e (inl p) hd he =
    Elem-append_left _ (loop_two (prefix ++ x ∷ []) hex_digits) _
      (rw (← p) (Elem-loop_two (prefix ++ x ∷ []) hex_digits d e hd he))
Elem-loop_three prefix (x ∷ cs) c d e (inr h) hd he =
    Elem-append_right _ (loop_two (prefix ++ x ∷ []) hex_digits) _
      (Elem-loop_three prefix cs c d e h hd he)

Elem-numbered :
    (width n i k j : ℕ)
    → k < n
    → j ≡ i + k
    → Elem (b's' ∷ format_hex width (pos j)) (numbered width n i)
unfolding numbered
Elem-numbered width zero i k j h e = absurd (omega arith)
Elem-numbered width (suc n) i zero j h e =
    let e' : i ≡ j = omega arith in inl (ap (λ x. b's' ∷ format_hex width (pos x)) e')
Elem-numbered width (suc n) i (suc k) j h e =
    inr (Elem-numbered width n (i + 1) k j (omega arith) (omega arith))

has_byte : ℕ → Bytes → Bool
has_byte c [] = false
has_byte c (d ∷ ds) = let rest = has_byte c ds in if d == c then true else rest

has_byte_sound : (c : ℕ) (s : Bytes) → has_byte c s ≡ true → Elem c s
unfolding has_byte
has_byte_sound c [] h = cc
has_byte_sound c (d ∷ ds) h = ground (arith, has_byte_sound c ds)

digits_table : succeeds_under (λ d. has_byte (digit d) hex_digits) 16 ≡ true
unfolding succeeds_under has_byte digit
digits_table = refl

Elem-digit : (d : ℕ) → d < 16 → Elem (digit d) hex_digits
Elem-digit d h = has_byte_sound _ _ (succeeds_under_lt _ 16 d h digits_table)

Elem-table_of :
    (mode : ShardMode) (a b c : ℕ)
    → IsKnown mode
    → (a < 16) × (b < 16) × (c < 16)
    → Elem (table_of mode a b c) (create_tables_for_db mode)
unfolding create_tables_for_db
Elem-table_of single_db a b c known (ha, hb, hc) =
    Elem-loop_three (codes "s") hex_digits _ _ _ (Elem-digit a ha) (Elem-digit b hb)
      (Elem-digit c hc)
Elem-table_of full_split a b c known h = inl refl
Elem-table_of shard_16_256 a b c known (ha, hb, hc) =
    Elem-loop_two (codes "s") hex_digits _ _ (Elem-digit b hb) (Elem-digit c hc)
Elem-table_of shard_64_64 a b c known (ha, hb, hc) =
    subst (λ t. Elem (b's' ∷ t) (create_tables_for_db shard_64_64))
      (two_digits (b % 4 * 16 + c) (b % 4) c (omega arith) hc refl)
      (Elem-numbered 2 64 0 (b % 4 * 16 + c) (b % 4 * 16 + c) (omega arith) (omega arith))
Elem-table_of shard_128_32 a b c known (ha, hb, hc) =
    subst (λ t. Elem (b's' ∷ t) (create_tables_for_db shard_128_32))
      (two_digits (b % 2 * 16 + c) (b % 2) c (omega arith) hc refl)
      (Elem-numbered 2 32 0 (b % 2 * 16 + c) (b % 2 * 16 + c) (omega arith) (omega arith))
Elem-table_of shard_512_8 a b c known (ha, hb, hc) =
    subst (λ t. Elem (b's' ∷ t) (create_tables_for_db shard_512_8))
      (format_hex-one (c % 8) (omega arith))
      (Elem-numbered 1 8 0 (c % 8) (c % 8) (omega arith) (omega arith))
Elem-table_of (other z) a b c known h = absurd known

pub create_tables_for_db-single : create_tables_for_db single_db ≡ loop_three (codes "s") hex_digits
unfolding create_tables_for_db
create_tables_for_db-single = refl

-- The table that is named after the first three digits of a hash is made by the three loops.
pub Elem-loop_three_prefix :
    (a b c : ℕ) (hash : Bytes)
    → HasPrefix a b c hash
    → Elem (b's' ∷ take 3 hash) (loop_three (codes "s") hex_digits)
Elem-loop_three_prefix a b c hash p = rw (ap (take 3) p.spelled) (
    Elem-loop_three (codes "s") hex_digits _ _ _ (Elem-digit a p.first) (Elem-digit b p.second)
      (Elem-digit c p.third))

-- The table in which a hash that begins with three hexadecimal digits is placed is one of those that
-- createTablesForDB makes in every database, for every mode that GetShardConfig knows.
pub table-Elem :
    (mode : ShardMode) (a b c : ℕ) (hash : Bytes)
    → IsKnown mode
    → HasPrefix a b c hash
    → Elem (get_table_name_from_hash mode hash) (create_tables_for_db mode)
table-Elem mode a b c hash known p =
    rw (table_name_lem mode a b c hash p)
      (Elem-table_of mode a b c known (p.first, p.second, p.third))

-- For every mode that GetShardConfig knows, createTablesForDB makes as many tables in each database as
-- the configuration says, and the databases hold 4096 tables together.
pub length-create_tables_for_db :
    (mode : ShardMode)
    → IsKnown mode
    → (length (create_tables_for_db mode) ≡ (get_shard_config mode).1)
      × ((get_shard_config mode).0 * length (create_tables_for_db mode) ≡ 4096)
unfolding create_tables_for_db get_shard_config
length-create_tables_for_db single_db known = (refl, refl)
length-create_tables_for_db full_split known = (refl, refl)
length-create_tables_for_db shard_16_256 known = (refl, refl)
length-create_tables_for_db shard_64_64 known = (refl, refl)
length-create_tables_for_db shard_128_32 known = (refl, refl)
length-create_tables_for_db shard_512_8 known = (refl, refl)
length-create_tables_for_db (other z) known = absurd known

-- In a mode that GetShardConfig does not know no hash has its table among those that createTablesForDB
-- makes, though the configuration promises 4096.
pub other_mode_has_no_table :
    (z : ℤ) (hash : Bytes)
    → (¬ (Elem (get_table_name_from_hash (other z) hash) (create_tables_for_db (other z))))
      × ((get_shard_config (other z)).0 * (get_shard_config (other z)).1 ≡ 4096)
unfolding create_tables_for_db get_shard_config
other_mode_has_no_table z hash = (λ h. h, refl)
