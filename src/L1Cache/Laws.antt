-- ===== src/L1Cache/Laws.antt =====
-- One hash is locked once, and locked again only after its item expired.
use nntp_history.Prelude.{
  ℕ, ◌+◌, ◌≤◌, ◌<◌, Bool, true, false, List, [], ◌∷◌, none, some, ◌≡◌, ◌≢◌, refl, ◌∙◌, arith, Bytes,
  ok, eq_bytes_refl, eq_bytes_sound, length, take, if◌then◌else◌,
}
use nntp_history.Prelude.Int.{pos}
use nntp_history.Cases.{case_pass}
use nntp_history.L1Cache.{
  PqItem, Shard, L1Cache, lock_l1_cache, lock_shard, lock_item, set, set_shard, push, pop,
  pop_queue, pq_expire, wait_until, put, count, delete, with_shard, count_set, l1_cache_expires,
}

-- The cache is on, the hash is long enough for a prefix, and its prefix was booted.
pub record IsBooted (hash : Bytes) (l1 : L1Cache) (s : Shard) : Type 0 where
  pub enabled : l1.enabled ≡ true
  pub nonempty : 0 < length hash
  pub long : l1.cut_char ≤ length hash
  pub shard : l1.shards (take l1.cut_char hash) ≡ some s

lock_booted :
    (hash : Bytes) (value : ℕ) (l1 : L1Cache) (s : Shard)
    → IsBooted hash l1 s
    → lock_l1_cache hash value l1 ≡ lock_shard hash value l1 (some s)
unfolding lock_l1_cache
lock_booted hash value l1 s b = ground (arith, b.enabled, b.nonempty, b.long, b.shard)

-- The shard that a lock leaves.
abbrev locked : Bytes → ℕ → Shard → Shard
locked hash value s = put hash value (count "Count_Locked" s)

IsBooted-after :
    (hash : Bytes) (l1 : L1Cache) (s s' : Shard)
    → IsBooted hash l1 s
    → IsBooted hash (with_shard (take l1.cut_char hash) s' l1) s'
unfolding with_shard
IsBooted-after hash l1 s s' b = record {
  enabled = b.enabled;
  nonempty = b.nonempty;
  long = b.long;
  shard = rw (eq_bytes_refl (take l1.cut_char hash));
}

lock_stored :
    (hash : Bytes) (value stored : ℕ) (l1 : L1Cache) (s : Shard)
    → IsBooted hash l1 s
    → s.cache hash ≡ some stored
    → (lock_l1_cache hash value l1).0 ≡ ok (pos stored)
unfolding lock_shard lock_item
lock_stored hash value stored l1 s b e = rw (lock_booted hash value l1 s b, e)

lock_free :
    (hash : Bytes) (value : ℕ) (l1 : L1Cache) (s : Shard)
    → IsBooted hash l1 s
    → s.cache hash ≡ none
    → lock_l1_cache hash value l1
      ≡ (ok (pos case_pass), with_shard (take l1.cut_char hash) (locked hash value s) l1)
unfolding lock_shard lock_item
lock_free hash value l1 s b e = lock_booted hash value l1 s b ∙ rw e

-- Of two that lock one hash that is not cached, in a booted cache that is on, the first passes and the
-- second is told the value that the first stored, whatever value it came with.
pub lock-lock :
    (hash : Bytes) (value value' : ℕ) (l1 : L1Cache) (s : Shard)
    → IsBooted hash l1 s
    → s.cache hash ≡ none
    → ((lock_l1_cache hash value l1).0 ≡ ok (pos case_pass))
      × ((lock_l1_cache hash value' (lock_l1_cache hash value l1).1).0 ≡ ok (pos value))
unfolding put
lock-lock hash value value' l1 s b e = rw (lock_free hash value l1 s b e) (
  refl,
  lock_stored hash value' value (with_shard (take l1.cut_char hash) (locked hash value s) l1)
      (locked hash value s) (IsBooted-after hash l1 s (locked hash value s) b)
      (rw (eq_bytes_refl hash)),
)

-- The shard that Set leaves.
abbrev was_set : ℕ → Bytes → ℕ → Bool → Shard → Shard
was_set now hash value flagexpires s = count_set value flagexpires (
    put hash value
      (if flagexpires then push now (record { key = hash; expires = l1_cache_expires }) s else s))

set_booted :
    (now : ℕ) (hash : Bytes) (value : ℕ) (flagexpires : Bool) (l1 : L1Cache) (s : Shard)
    → IsBooted hash l1 s
    → length hash ≡ 64
    → set now hash [] value flagexpires l1
      ≡ ok (with_shard (take l1.cut_char hash) (was_set now hash value flagexpires s) l1)
unfolding set set_shard
set_booted now hash value flagexpires l1 s b len = rw (b.enabled, b.shard) (ground (arith, len))

was_set-cached :
    (now : ℕ) (hash : Bytes) (value : ℕ) (flagexpires : Bool) (s : Shard)
    → (was_set now hash value flagexpires s).cache hash ≡ some value
unfolding count_set put count
was_set-cached now hash value true s = rw (eq_bytes_refl hash)
was_set-cached now hash value false s = ground (arith, eq_bytes_refl hash)

-- After Set of a 64-byte hash without a given prefix, in a booted cache that is on, who locks the hash
-- is told the value that was set, whether or not the item was queued to expire.
pub lock-set :
    (now : ℕ) (hash : Bytes) (value value' : ℕ) (flagexpires : Bool) (l1 : L1Cache) (s : Shard)
    → IsBooted hash l1 s
    → length hash ≡ 64
    → (l1' : L1Cache) × (set now hash [] value flagexpires l1 ≡ ok l1')
      × ((lock_l1_cache hash value' l1').0 ≡ ok (pos value))
lock-set now hash value value' flagexpires l1 s b len =
    let s' = was_set now hash value flagexpires s in
    (
      with_shard (take l1.cut_char hash) s' l1,
      set_booted now hash value flagexpires l1 s b len,
      lock_stored hash value' value (with_shard (take l1.cut_char hash) s' l1) s'
          (IsBooted-after hash l1 s s' b) (was_set-cached now hash value flagexpires s),
    )

-- What a round leaves when an item was popped.
pq_expire-some :
    (now : ℕ) (item : PqItem) (rest : List PqItem) (s : Shard)
    → s.queue ≡ item ∷ rest
    → pq_expire now s ≡ (
      some (wait_until now item.expires),
      count "Count_Delete" (delete item.key (record s { queue = rest })),
    )
unfolding pq_expire pop pop_queue
pq_expire-some now item rest s e = rw e

-- A round of pqExpire with an item in the queue deletes no earlier than now and less than a
-- millisecond before the item's time, or later; then the item's hash is no longer cached, any other
-- given hash is as before, and the next item is at the front.
pub pq_expire_lem :
    (now : ℕ) (item : PqItem) (rest : List PqItem) (s : Shard) (other : Bytes)
    → s.queue ≡ item ∷ rest
    → other ≢ item.key
    → (time : ℕ) × ((pq_expire now s).0 ≡ some time)
      × (item.expires < time + 1_000_000)
      × (now ≤ time)
      × ((pq_expire now s).1.cache item.key ≡ none)
      × ((pq_expire now s).1.cache other ≡ s.cache other)
      × ((pq_expire now s).1.queue ≡ rest)
unfolding delete count wait_until
pq_expire_lem now item rest s other e apart = rw (pq_expire-some now item rest s e) (
  _,
  refl,
  ground arith,
  ground arith,
  rw (eq_bytes_refl item.key),
  ground (arith, eq_bytes_sound item.key other),
  refl,
)
