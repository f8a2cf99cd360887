-- ===== src/Shard/Place.antt =====
-- Where a hash is placed: in range, in a table that is made, and apart from every other prefix.
use mathlib.Core.Path.{ap₂}
use nntp_history.Prelude.{
  ℕ, ◌+◌, ◌*◌, ◌/◌, ◌%◌, ◌<◌, false, [], ◌∷◌, ◌≡◌, sym, ap, ◌∙◌, arith, Bytes, codes, ltb, length,
  take,
}
use nntp_history.Prelude.Int.{pos}
use nntp_history.Text.Number.{digit}
use nntp_history.Shard.{
  ShardMode, single_db, full_split, shard_16_256, shard_64_64, shard_128_32, shard_512_8, other,
  get_shard_config, format_hex, get_db_index_from_hash, get_table_name_from_hash,
}
use nntp_history.Shard.Names.{
  HasPrefix, format_hex-two, format_hex-one, digit-injective, hex_to_int-one, hex_to_int-two,
  hex_to_int-three,
}

-- The database number for three digits.
abbrev pub db_of : ShardMode → ℕ → ℕ → ℕ → ℕ
db_of single_db a b c = 0
db_of full_split a b c = a * 256 + b * 16 + c
db_of shard_16_256 a b c = a
db_of shard_64_64 a b c = a * 4 + b / 4
db_of shard_128_32 a b c = a * 8 + b / 2
db_of shard_512_8 a b c = a * 32 + b * 2 + c / 8
db_of (other z) a b c = 0

abbrev num_dbs : ShardMode → ℕ
num_dbs mode = (get_shard_config mode).0

wide : {a b c : ℕ} {hash : Bytes} → HasPrefix a b c hash → ltb (length hash) 3 ≡ false
wide p = rw p.spelled (ground arith)

-- getDBIndexFromHash, by the digits of the hash.
pub db_index_lem :
    (mode : ShardMode) (a b c : ℕ) (hash : Bytes)
    → HasPrefix a b c hash
    → get_db_index_from_hash mode (get_shard_config mode).0 hash ≡ pos (db_of mode a b c)
unfolding get_db_index_from_hash get_shard_config
db_index_lem single_db a b c hash p = rw (wide p)
db_index_lem full_split a b c hash p =
    rw (wide p, p.spelled, hex_to_int-three a b c p.first p.second p.third)
      (ap pos (omega (arith, p.first, p.second, p.third)))
db_index_lem shard_16_256 a b c hash p =
    rw (wide p, p.spelled, hex_to_int-one a p.first) (ap pos (omega (arith, p.first)))
db_index_lem shard_64_64 a b c hash p =
    rw (wide p, p.spelled, hex_to_int-two a b p.first p.second)
      (ap pos (omega (arith, p.first, p.second)))
db_index_lem shard_128_32 a b c hash p =
    rw (wide p, p.spelled, hex_to_int-two a b p.first p.second)
      (ap pos (omega (arith, p.first, p.second)))
db_index_lem shard_512_8 a b c hash p =
    rw (wide p, p.spelled, hex_to_int-three a b c p.first p.second p.third)
      (ap pos (omega (arith, p.first, p.second, p.third)))
db_index_lem (other z) a b c hash p = rw (wide p)

-- The table name for three digits.
abbrev pub table_of : ShardMode → ℕ → ℕ → ℕ → Bytes
table_of single_db a b c = b's' ∷ digit a ∷ digit b ∷ digit c ∷ []
table_of full_split a b c = codes "shash"
table_of shard_16_256 a b c = b's' ∷ digit b ∷ digit c ∷ []
table_of shard_64_64 a b c = b's' ∷ digit (b % 4) ∷ digit c ∷ []
table_of shard_128_32 a b c = b's' ∷ digit (b % 2) ∷ digit c ∷ []
table_of shard_512_8 a b c = b's' ∷ digit (c % 8) ∷ []
table_of (other z) a b c = codes "s000"

-- A number of two digits is printed by them.
pub two_digits :
    (t x y : ℕ) → x < 16 → y < 16 → t ≡ x * 16 + y → format_hex 2 (pos t) ≡ digit x ∷ digit y ∷ []
two_digits t x y hx hy e =
    format_hex-two t (omega arith) ∙ ap₂ (λ u v. digit u ∷ digit v ∷ []) (omega arith) (omega arith)

pub table_name_lem :
    (mode : ShardMode) (a b c : ℕ) (hash : Bytes)
    → HasPrefix a b c hash
    → get_table_name_from_hash mode hash ≡ table_of mode a b c
unfolding get_table_name_from_hash
table_name_lem single_db a b c hash p = rw (wide p, p.spelled)
table_name_lem full_split a b c hash p = rw (wide p)
table_name_lem shard_16_256 a b c hash p = rw (wide p, p.spelled)
table_name_lem shard_64_64 a b c hash p =
    rw (wide p, p.spelled, hex_to_int-two b c p.second p.third)
      (ap (λ t. b's' ∷ t)
        (two_digits ((b * 16 + c) % 64) (b % 4) c (omega arith) p.third
          (omega (arith, p.second, p.third))))
table_name_lem shard_128_32 a b c hash p =
    rw (wide p, p.spelled, hex_to_int-two b c p.second p.third)
      (ap (λ t. b's' ∷ t)
        (two_digits ((b * 16 + c) % 32) (b % 2) c (omega arith) p.third
          (omega (arith, p.second, p.third))))
table_name_lem shard_512_8 a b c hash p =
    rw (wide p, p.spelled, hex_to_int-one c p.third)
      (ap (λ t. b's' ∷ t) (format_hex-one (c % 8) (omega arith)))
table_name_lem (other z) a b c hash p = rw (wide p)

-- A mode that GetShardConfig knows.
abbrev pub IsKnown : ShardMode → Type 0
IsKnown (other z) = ⊥
IsKnown _ = Unit

in_range :
    (m : ShardMode) (a b c : ℕ) → a < 16 → b < 16 → c < 16 → db_of m a b c < (get_shard_config m).0
unfolding get_shard_config
in_range single_db a b c ha hb hc = omega arith
in_range _ a b c ha hb hc = omega arith

-- In every mode, the database of a hash that begins with three hexadecimal digits exists: its index is
-- a natural number below the number of databases.
pub db_index_lt :
    (mode : ShardMode) (a b c : ℕ) (hash : Bytes)
    → HasPrefix a b c hash
    → (i : ℕ) × (get_db_index_from_hash mode (get_shard_config mode).0 hash ≡ pos i)
      × (i < (get_shard_config mode).0)
db_index_lt mode a b c hash p = (db_of mode a b c, db_index_lem mode a b c hash p, below mode)
  where
    below : (m : ShardMode) → db_of m a b c < (get_shard_config m).0
    below m = unfold get_shard_config in (in_range m a b c p.first p.second p.third)

pos-injective : {m n : ℕ} → pos m ≡ pos n → m ≡ n
pos-injective e = cc

-- A place tells the digits.
same_place :
    (m : ShardMode) (a b c a' b' c' : ℕ)
    → IsKnown m
    → (a < 16) × (b < 16) × (c < 16)
    → (a' < 16) × (b' < 16) × (c' < 16)
    → db_of m a b c ≡ db_of m a' b' c'
    → table_of m a b c ≡ table_of m a' b' c'
    → (a ≡ a') × (b ≡ b') × (c ≡ c')
same_place single_db a b c a' b' c' known (ha, hb, hc) (ha', hb', hc') d t =
    ground (arith, digit-injective a a', digit-injective b b', digit-injective c c')
same_place full_split a b c a' b' c' known (ha, hb, hc) (ha', hb', hc') d t = omega arith
same_place shard_16_256 a b c a' b' c' known (ha, hb, hc) (ha', hb', hc') d t =
    ground (arith, digit-injective b b', digit-injective c c')
same_place shard_64_64 a b c a' b' c' known (ha, hb, hc) (ha', hb', hc') d t =
    ground (arith, digit-injective (b % 4) (b' % 4), digit-injective c c')
same_place shard_128_32 a b c a' b' c' known (ha, hb, hc) (ha', hb', hc') d t =
    ground (arith, digit-injective (b % 2) (b' % 2), digit-injective c c')
same_place shard_512_8 a b c a' b' c' known (ha, hb, hc) (ha', hb', hc') d t =
    ground (arith, digit-injective (c % 8) (c' % 8))
same_place (other z) a b c a' b' c' known ha ha' d t = absurd known

-- The first three bytes of a hash, by its digits.
prefix_lem :
    {a b c : ℕ} {hash : Bytes}
    → HasPrefix a b c hash
    → take 3 hash ≡ digit a ∷ digit b ∷ digit c ∷ []
prefix_lem p = rw p.spelled

-- Two hashes that begin with three hexadecimal digits each and are placed in the same table of the
-- same database, in a mode that GetShardConfig knows, begin with the same three digits.
pub place_injective :
    (mode : ShardMode) (a b c a' b' c' : ℕ) (hash hash' : Bytes)
    → IsKnown mode
    → HasPrefix a b c hash
    → HasPrefix a' b' c' hash'
    → get_db_index_from_hash mode (get_shard_config mode).0 hash
      ≡ get_db_index_from_hash mode (get_shard_config mode).0 hash'
    → get_table_name_from_hash mode hash ≡ get_table_name_from_hash mode hash'
    → take 3 hash ≡ take 3 hash'
place_injective mode a b c a' b' c' hash hash' known p p' same_db same_table =
    let (ea, eb, ec) =
      same_place mode a b c a' b' c' known (p.first, p.second, p.third)
        (p'.first, p'.second, p'.third)
        (pos-injective
          (sym (db_index_lem mode a b c hash p) ∙ same_db ∙ db_index_lem mode a' b' c' hash' p'))
        (sym (table_name_lem mode a b c hash p)
          ∙ same_table
          ∙ table_name_lem mode a' b' c' hash' p') in
    rw (prefix_lem p, prefix_lem p', ea, eb, ec)
