-- ===== src/L3Cache/Recall.antt =====
-- Offsets that are set twice for a key, with its character, in a cache that was booted before ROOTDBS is filled.
use nntp_history.Prelude.{
  ℕ, ◌<◌, Bool, true, List, [], ◌∷◌, ◌++◌, none, some, ◌≡◌, refl, sym, ap, ◌∙◌, arith, Bytes, ok,
  eq_bytes_refl, inl, inr, length, Elem, All, if◌then◌else◌,
}
use nntp_history.Prelude.Int.{ℤ}
use nntp_history.RootDbs.{hexchars}
use nntp_history.L3Cache.{
  L3Cache, Shard, append_new, reversed, merged, set_offsets, get_offsets, set_shard, get_shard, put,
  with_shard, char_of, count_set, push, l3_cache_expires, listed, empty_shard, start_all,
  boot_l3_cache,
}
use nntp_history.L3Cache.Merge.{IsDistinct, IsNew, append_new_lem}
use nntp_history.L3Cache.Boot.{hexchars_single}

-- The cache is on, and the character has a shard.
pub record IsBooted (char : Bytes) (l3 : L3Cache) (s : Shard) : Type 0 where
  pub enabled : l3.enabled ≡ true
  pub given : 0 < length char
  pub shard : l3.shards char ≡ some s

char_of-given : (l3 : L3Cache) (key char : Bytes) → 0 < length char → char_of l3 key char ≡ ok char
unfolding char_of
char_of-given l3 key char given = ground arith

-- The shard that SetOffsets leaves.
abbrev was_set : ℕ → Bytes → List ℤ → Bool → Shard → Shard
was_set now key offsets flagexpires s = put key (merged offsets (s.cache key)) (
    count_set flagexpires offsets
      (if flagexpires then push now (record { key = key; expires = l3_cache_expires }) s else s))

set_offsets-IsBooted :
    (now : ℕ) (key char : Bytes) (offsets : List ℤ) (flagexpires : Bool) (l3 : L3Cache) (s : Shard)
    → IsBooted char l3 s
    → 0 < length key
    → set_offsets now key char (some offsets) flagexpires l3
      ≡ ok (with_shard char (was_set now key offsets flagexpires s) l3)
unfolding set_offsets set_shard
set_offsets-IsBooted now key char offsets flagexpires l3 s b long =
    rw (char_of-given l3 key char b.given, b.shard) (ground (arith, b.enabled, long))

get_offsets-IsBooted :
    (key char : Bytes) (l3 : L3Cache) (s : Shard)
    → IsBooted char l3 s
    → 0 < length key
    → get_offsets key char l3 ≡ get_shard key (some s)
unfolding get_offsets
get_offsets-IsBooted key char l3 s b long =
    rw (char_of-given l3 key char b.given, b.shard) (ground (arith, b.enabled, long))

IsBooted-with_shard :
    (char : Bytes) (l3 : L3Cache) (s s' : Shard)
    → IsBooted char l3 s
    → IsBooted char (with_shard char s' l3) s'
unfolding with_shard
IsBooted-with_shard char l3 s s' b = record {
  enabled = b.enabled;
  given = b.given;
  shard = rw (eq_bytes_refl char);
}

-- What is cached for the key behind a SetOffsets.
cache-was_set :
    (now : ℕ) (key : Bytes) (offsets : List ℤ) (flagexpires : Bool) (s : Shard)
    → (was_set now key offsets flagexpires s).cache key ≡ some (merged offsets (s.cache key))
unfolding put
cache-was_set now key offsets flagexpires s = rw (eq_bytes_refl key)

get_shard-cache :
    (key : Bytes) (s : Shard) (offsets : List ℤ)
    → s.cache key ≡ some offsets
    → get_shard key (some s) ≡ ok offsets
unfolding get_shard
get_shard-cache key s offsets e = rw (e, get_shard) refl

listed-Elem : (c : Bytes) (l : List Bytes) → Elem c l → listed c l ≡ true
unfolding listed
listed-Elem c [] h = absurd h
listed-Elem c (d ∷ l) (inl e) = rw (e, eq_bytes_refl c) refl
listed-Elem c (d ∷ l) (inr h) = rw (listed-Elem c l h) (ground arith)

single-Elem : (c : Bytes) (l : List Bytes) → All (λ d. length d ≡ 1) l → Elem c l → length c ≡ 1
single-Elem c [] all h = absurd h
single-Elem c (d ∷ l) all (inl e) = ap (length {A = ℕ}) (sym e) ∙ all.0
single-Elem c (d ∷ l) all (inr h) = single-Elem c l all.1 h

abbrev booted : ℕ → L3Cache
booted cut_char = record {
  enabled = true;
  cut_char = cut_char;
  shards = λ c. if listed c hexchars then some empty_shard else none;
}

booted_lem : (cut_char : ℕ) → boot_l3_cache true cut_char [] ≡ ok (booted cut_char)
unfolding boot_l3_cache start_all
booted_lem cut_char = refl

booted-IsBooted :
    (cut_char : ℕ) (char : Bytes) → Elem char hexchars → IsBooted char (booted cut_char) empty_shard
booted-IsBooted cut_char char h = record {
  enabled = refl;
  given = rw (single-Elem char hexchars hexchars_single h) (omega arith);
  shard = rw (listed-Elem char hexchars h) refl;
}

-- What is cached for the key behind two SetOffsets on an empty shard.
cache_twice :
    (now now' : ℕ) (key : Bytes) (x : ℤ) (xs news : List ℤ) (f f' : Bool)
    → (was_set now' key news f' (was_set now key (x ∷ xs) f empty_shard)).cache key
      ≡ some (append_new (reversed news) (x ∷ xs))
unfolding empty_shard merged
cache_twice now now' key x xs news f f' =
    cache-was_set now' key news f' (was_set now key (x ∷ xs) f empty_shard)
    ∙ ap (λ c. some (merged news c)) (cache-was_set now key (x ∷ xs) f empty_shard)

-- In an L3 cache that was booted before ROOTDBS is filled, for a hexadecimal digit as the given
-- character and a key that is not empty: offsets that SetOffsets stores, at least one and none twice,
-- are what GetOffsets gives, and after a second SetOffsets GetOffsets gives them all in their order,
-- followed by some of the second ones, each of them positive, and none of all is there twice.
pub offsets_are_merged :
    (now now' cut_char : ℕ) (key char : Bytes) (x : ℤ) (xs news : List ℤ) (f f' : Bool)
    → Elem char hexchars
    → 0 < length key
    → IsDistinct (x ∷ xs)
    → (l0 : L3Cache) × (l1 : L3Cache) × (l2 : L3Cache) × (more : List ℤ) × (boot_l3_cache true
          cut_char []
        ≡ ok l0)
      × (set_offsets now key char (some (x ∷ xs)) f l0 ≡ ok l1)
      × (get_offsets key char l1 ≡ ok (x ∷ xs))
      × (set_offsets now' key char (some news) f' l1 ≡ ok l2)
      × (get_offsets key char l2 ≡ ok ((x ∷ xs) ++ more))
      × IsDistinct ((x ∷ xs) ++ more)
      × All (IsNew (reversed news)) more
unfolding empty_shard merged
offsets_are_merged now now' cut_char key char x xs news f f' hex long distinct =
    let l0 = booted cut_char in
    let b0 = booted-IsBooted cut_char char hex in
    let s1 = was_set now key (x ∷ xs) f empty_shard in
    let l1 = with_shard char s1 l0 in
    let b1 = IsBooted-with_shard char l0 empty_shard s1 b0 in
    let s2 = was_set now' key news f' s1 in
    let l2 = with_shard char s2 l1 in
    let b2 = IsBooted-with_shard char l1 s1 s2 b1 in
    let (more, e, d, new) = append_new_lem (reversed news) (x ∷ xs) distinct in
    (
      l0,
      l1,
      l2,
      more,
      booted_lem cut_char,
      set_offsets-IsBooted now key char (x ∷ xs) f l0 empty_shard b0 long,
      get_offsets-IsBooted key char l1 s1 b1 long
          ∙ get_shard-cache key s1 (x ∷ xs) (cache-was_set now key (x ∷ xs) f empty_shard),
      set_offsets-IsBooted now' key char news f' l1 s1 b1 long,
      get_offsets-IsBooted key char l2 s2 b2 long
          ∙ get_shard-cache key s2 ((x ∷ xs) ++ more)
              (cache_twice now now' key x xs news f f' ∙ ap (λ o. some o) e),
      d,
      new,
    )
