-- ===== src/RootDbs.antt =====
-- ROOTDBS and charsMap: the prefixes that hashDB_Index shares hashes out by.
pub mod Size
pub mod Places
mod Tests
use nntp_history.Prelude.{
  ℕ, zero, suc, ◌+◌, ◌&&◌, List, [], ◌∷◌, ◌++◌, Option, none, some, Bytes, codes, leb, ◌==◌,
  eq_bytes, if◌then◌else◌,
}

-- HEXCHARS
abbrev pub hexchars : List Bytes
hexchars =
    codes "0"
    ∷ codes "1"
    ∷ codes "2"
    ∷ codes "3"
    ∷ codes "4"
    ∷ codes "5"
    ∷ codes "6"
    ∷ codes "7"
    ∷ codes "8"
    ∷ codes "9"
    ∷ codes "a"
    ∷ codes "b"
    ∷ codes "c"
    ∷ codes "d"
    ∷ codes "e"
    ∷ codes "f"
    ∷ []

-- The loop of generateCombinations over the characters, with what a call one longer adds.
each_char : (Bytes → List Bytes → List Bytes) → List Bytes → Bytes → List Bytes → List Bytes
each_char deeper [] current combinations = combinations
each_char deeper (char ∷ chars) current combinations =
    each_char deeper chars current (deeper (current ++ char) combinations)

-- generateCombinations, by the characters that are still missing; the current combination is joined.
pub generate_combinations : List Bytes → ℕ → Bytes → List Bytes → List Bytes
unfolding each_char
generate_combinations chars zero current combinations = combinations ++ current ∷ []
generate_combinations chars (suc missing) current combinations =
    each_char (generate_combinations chars missing) chars current combinations

-- cutChar for a number of cache databases; any other number ends the program.
pub cut_char_of : ℕ → Option ℕ
cut_char_of n =
    if n == 16 then some 1 else if n == 256 then some 2 else if n == 4096 then some 3 else none

abbrev pub num_cache_dbs : ℕ
num_cache_dbs = 4096

-- ROOTDBS for NumCacheDBs = 4096
pub rootdbs : List Bytes
unfolding generate_combinations
rootdbs = generate_combinations hexchars 3 [] []

-- charsMap as hashDB_Init fills it: the last place of a prefix, 0 for one that is missing.
chars_map_from : ℕ → ℕ → List Bytes → Bytes → ℕ
chars_map_from i found [] char = found
chars_map_from i found (db ∷ dbs) char =
    chars_map_from (i + 1) (if eq_bytes db char then i else found) dbs char

pub chars_map : List Bytes → Bytes → ℕ
unfolding chars_map_from
chars_map dbs char = chars_map_from 0 0 dbs char

-- strings.ToLower on ASCII
unfoldable pub to_lower : Bytes → Bytes
to_lower [] = []
to_lower (c ∷ s) = (if leb b'A' c && leb c b'Z' then c + 32 else c) ∷ to_lower s
