-- ===== src/L2Cache/Recall.antt =====
-- The hash of an offset is recalled, and no offset is without a shard.
use nntp_history.Prelude.{
  ℕ, suc, ◌%◌, Bool, true, false, Option, none, some, ◌≡◌, refl, ap, ◌∙◌, arith, Bytes, ok,
  eq_bytes, eq_bytes_refl, if◌then◌else◌, length, Option-cases, inl, inr,
}
use native.Mathlib.Nat.{mod-lt}
use nntp_history.Shard.Names.{succeeds_under, succeeds_under_lt}
use nntp_history.Prelude.Int.{ℤ, pos, eq_ℤ}
use nntp_history.RootDbs.{hexchars}
use nntp_history.Text.Number.{format_nat}
use nntp_history.L2Cache.{
  L2Cache, Shard, offset_to_char, set_offset_hash, get_hash_from_offset, set_shard, get_shard, put,
  push, count, with_shard, listed, empty_shard, boot_l2_cache, l2_cache_expires,
}

-- What an offset that has no hash yet gets, and what one that has a hash keeps.
abbrev pub first_of : Bytes → Option Bytes → Bytes
first_of hash none = hash
first_of hash (some h) = h

eq_ℤ_refl : (x : ℤ) → eq_ℤ x x ≡ true
eq_ℤ_refl x = ground arith

put-cached :
    (offset : ℤ) (hash : Bytes) (s : Shard)
    → (put offset hash s).cache offset ≡ some (first_of hash (s.cache offset))
unfolding put
put-cached offset hash s =
    rw (eq_ℤ_refl offset)
      (elim (Option-cases (s.cache offset)) [ inl e ↦ rw e | inr (h, e) ↦ rw e ])

-- The shard that SetOffsetHash leaves.
abbrev was_set : ℕ → ℤ → Bytes → Bool → Shard → Shard
was_set now offset hash flagexpires s =
    count (if flagexpires then "Count_FlagEx" else "Count_Set") (
      put offset hash (
        if flagexpires
        then push now (record { key = offset; expires = l2_cache_expires }) s
        else s))

set_offset_hash_lem :
    (now n : ℕ) (hash : Bytes) (flagexpires : Bool) (l2 : L2Cache) (s : Shard)
    → l2.enabled ≡ true
    → length hash ≡ 64
    → l2.shards (offset_to_char true (pos (suc n))) ≡ some s
    → set_offset_hash now (pos (suc n)) hash flagexpires l2
      ≡ ok (
          with_shard
            (offset_to_char true (pos (suc n)))
            (was_set now (pos (suc n)) hash flagexpires s)
            l2)
unfolding set_offset_hash set_shard
set_offset_hash_lem now n hash flagexpires l2 s on long shard = ground (arith, on, long, shard)

get_hash_lem :
    (n : ℕ) (rethash h : Bytes) (l2 : L2Cache) (s : Shard)
    → l2.enabled ≡ true
    → l2.shards (offset_to_char true (pos (suc n))) ≡ some s
    → s.cache (pos (suc n)) ≡ some h
    → get_hash_from_offset (pos (suc n)) rethash l2 ≡ ok h
unfolding get_hash_from_offset get_shard
get_hash_lem n rethash h l2 s on shard cached = ground (arith, on, shard, cached)

was_set-cached :
    (now : ℕ) (offset : ℤ) (hash : Bytes) (flagexpires : Bool) (s : Shard)
    → (was_set now offset hash flagexpires s).cache offset ≡ some (first_of hash (s.cache offset))
unfolding count push
was_set-cached now offset hash true s =
    put-cached offset hash (push now (record { key = offset; expires = l2_cache_expires }) s)
was_set-cached now offset hash false s = put-cached offset hash s

-- In a cache that was just booted every offset greater than 0 has a shard: its last hexadecimal digit is listed.
digits_table : succeeds_under (λ d. listed (format_nat 16 d) hexchars) 16 ≡ true
unfolding succeeds_under listed format_nat eq_bytes
digits_table = refl

boot_l2_cache-shards :
    (n : ℕ) → (boot_l2_cache true).shards (offset_to_char true (pos (suc n))) ≡ some empty_shard
unfolding boot_l2_cache offset_to_char
boot_l2_cache-shards n = ground (
  arith,
  succeeds_under_lt (λ d. listed (format_nat 16 d) hexchars) 16 (suc n % 16)
      (mod-lt (suc n) (omega arith)) digits_table,
)

with_shard_self :
    (char : Bytes) (s : Shard) (l2 : L2Cache)
    → l2.enabled ≡ true
    → ((with_shard char s l2).enabled ≡ true) × ((with_shard char s l2).shards char ≡ some s)
unfolding with_shard
with_shard_self char s l2 on = (on, rw (eq_bytes_refl char))

boot_l2_cache-enabled : (boot_l2_cache true).enabled ≡ true
unfolding boot_l2_cache
boot_l2_cache-enabled = refl

nothing_cached : (offset : ℤ) → empty_shard.cache offset ≡ none
unfolding empty_shard
nothing_cached offset = refl

-- In an L2 cache that was just booted, of two 64-byte hashes that SetOffsetHash is given for one
-- offset greater than 0, the first is what GetHashFromOffset tells, and neither call fails, whatever
-- digit the offset ends in.
pub first_hash_stays :
    (now now' n : ℕ) (hash hash' rethash : Bytes) (flagexpires flagexpires' : Bool)
    → length hash ≡ 64
    → length hash' ≡ 64
    → (l2 : L2Cache) × (l2' : L2Cache) × (set_offset_hash now
          (pos (suc n))
          hash
          flagexpires
          (boot_l2_cache true)
        ≡ ok l2)
      × (set_offset_hash now' (pos (suc n)) hash' flagexpires' l2 ≡ ok l2')
      × (get_hash_from_offset (pos (suc n)) rethash l2' ≡ ok hash)
first_hash_stays now now' n hash hash' rethash flagexpires flagexpires' long long' =
    let offset = pos (suc n) in
    let char = offset_to_char true offset in
    let s1 = was_set now offset hash flagexpires empty_shard in
    let l2 = with_shard char s1 (boot_l2_cache true) in
    let (on, has) = with_shard_self char s1 (boot_l2_cache true) boot_l2_cache-enabled in
    let s2 = was_set now' offset hash' flagexpires' s1 in
    let (on', has') = with_shard_self char s2 l2 on in
    (
      l2,
      with_shard char s2 l2,
      set_offset_hash_lem now n hash flagexpires (boot_l2_cache true) empty_shard
          boot_l2_cache-enabled long (boot_l2_cache-shards n),
      set_offset_hash_lem now' n hash' flagexpires' l2 s1 on long' has,
      get_hash_lem n rethash hash (with_shard char s2 l2) s2 on' has' (
          was_set-cached now' offset hash' flagexpires' s1
          ∙ ap (λ o. some (first_of hash' o))
              (was_set-cached now offset hash flagexpires empty_shard)
          ∙ ap (λ o. some (first_of hash o)) (nothing_cached offset)),
    )
