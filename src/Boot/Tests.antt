-- ===== src/Boot/Tests.antt =====
-- A codec that counts, a new history.dat, and its second opening.
use nntp_history.Prelude.{
  ℕ, zero, suc, ◌+◌, ◌≤◌, ◌<◌, true, false, [], ◌∷◌, ◌++◌, Option, none, some, ◌≡◌, refl, ap, ◌∙◌,
  arith, subst, sym, append-nil, Bytes, codes, length, replicate, All-append, inl, inr,
  if◌then◌else◌, ◌==◌, length-replicate,
}
use nntp_history.Prelude.Int.{ℤ, pos, negsuc}
use nntp_history.Cases.{zero_pad_len}
use nntp_history.Store.{IsPlain}
use nntp_history.Store.Memory.{memory}
use nntp_history.Store.Rows.{Holds, row_text}
use nntp_history.Shard.{single_db}
use nntp_history.Sharded.{Site}
use nntp_history.Backend.{Backend, World, no_pool}
use nntp_history.Writer.{History}
use nntp_history.HashEnc.{null_pad}
use nntp_history.Writer.Log.{with_key}
use nntp_history.Writer.Track.{Tracks}
use nntp_history.Boot.{
  Settings, Codec, IsBase64, Booted, Surroundings, Setup, goes_on, key_len, index_of, boot_history,
  appender_of, writer_on,
}
use nntp_history.Boot.Header.{HasHeader}
use nntp_history.Boot.Restart.{IsFine, asked, before_index, boot-boot}
use nntp_history.Boot.Kept.{boot-Tracks, restart-Tracks, restarted_from}

-- As many A as the two numbers say, with an equals sign between.
counted : ℤ → ℤ → Option Bytes
counted (pos a) (pos b) = some (replicate a b'A' ++ b'=' ∷ replicate b b'A')
counted (pos a) (negsuc b) = none
counted (negsuc a) b = none

read_from : ℕ → Bytes → Option Settings
read_from n [] = none
read_from n (c ∷ s) =
    let rest = read_from (suc n) s in
    if c == b'=' then some (record { ka = pos n; kl = pos (length s) }) else rest

read_from-counted :
    (n a b : ℕ)
    → read_from n (replicate a b'A' ++ b'=' ∷ replicate b b'A')
      ≡ some (record { ka = pos (a + n); kl = pos b })
unfolding read_from
read_from-counted n zero b = ground (arith, length-replicate {A = ℕ} b b'A')
read_from-counted n (suc a) b = ground (arith, read_from-counted (suc n) a b)

some-injective : {s t : Bytes} → some s ≡ some t → s ≡ t
some-injective e = cc

letters : (n : ℕ) → IsBase64 (replicate n b'A')
letters zero = tt
letters (suc n) = (inr (inl (omega arith, omega arith)), letters n)

counted-IsBase64 : (k l : ℤ) (t : Bytes) → counted k l ≡ some t → IsBase64 t
unfolding counted
counted-IsBase64 (pos a) (pos b) t e = subst IsBase64 (some-injective e) (
    All-append _ (replicate a b'A') (b'=' ∷ replicate b b'A') (letters a)
      (inr (inr (inr (inr (inr refl)))), letters b))
counted-IsBase64 (pos a) (negsuc b) t e = cc
counted-IsBase64 (negsuc a) l t e = cc

read-counted :
    (k l : ℤ) (t : Bytes) → counted k l ≡ some t → read_from 0 t ≡ some (record { ka = k; kl = l })
unfolding counted
read-counted (pos a) (pos b) t e =
    subst (λ t. read_from 0 t ≡ some (record { ka = pos a; kl = pos b })) (some-injective e)
      (read_from-counted 0 a b ∙ ap (λ n. some (record { ka = pos n; kl = pos b })) (omega arith))
read-counted (pos a) (negsuc b) t e = cc
read-counted (negsuc a) l t e = cc

abbrev codec : Codec
codec = record {
  encode = λ s. counted s.ka s.kl;
  decode = λ t target. read_from 0 t;
  encode-IsBase64 = λ s t e. counted-IsBase64 s.ka s.kl t e;
  decode-encode = λ s target t ka kl e. read-counted s.ka s.kl t e;
}

abbrev site : Site
site = record {
  rounds = λ k. record { connect = none; ping_ok = false; now = 0 };
  driver = record { connect = none; ping_ok = false; now = 0 };
  executes = record { table_ok = λ t. false; index_ok = λ t. false };
}

-- Without a hash database none of its servers is asked.
abbrev world : World
world = record { mysql = site; one = site; many = λ i. site }

abbrev blank : Backend
blank = record {
  dir = [];
  rootdbs = [];
  mysql_pool = none;
  sqlite3_pool = no_pool;
  hash_index = record { prefixes = []; workers = []; index_runs = false };
  shard_mode = single_db;
  shard_dbs = 0;
  shard_tables = 0;
  index_lock = record { cap = 1; held = 0 };
  sub_locks = record { cap = 4096; held = 0 };
}

abbrev setup : Setup
setup = record {
  cpu_profile = false;
  has_writer_chan = false;
  use_hash_db = false;
  l1_enabled = true;
  defaults = record {
    num_queue_write_chan = pos 4096;
    batch_flush_every = pos 5120;
    cache_purge = pos 1;
    cache_expires = pos 5;
    evicts_capacity = pos 16;
    index_parallel = pos 4096;
  };
}

-- An empty directory, with some room.
abbrev nothing_there : Surroundings
nothing_there = record {
  profile_starts = false;
  dir_there = false;
  mkdir_hashdb = true;
  dir_there_then = true;
  mkdir_dir = false;
  his_dat = none;
  opens = true;
  readable = true;
  room = 1_000_000;
}

nothing_there-IsFine : IsFine nothing_there setup
nothing_there-IsFine = record {
  profile = refl;
  not_running = refl;
  hashdb_dir = refl;
  history_dir = refl;
  file_opens = refl;
}

abbrev text : Bytes
text = replicate 11 b'A' ++ b'=' ∷ replicate 7 b'A'

encoded : codec.encode asked ≡ some text
unfolding counted
encoded = refl

starts : index_of world setup.use_hash_db (before_index [] blank) ≡ goes_on (before_index [] blank)
unfolding index_of
starts = refl

abbrev line : Bytes
line = codes "{" ++ 10 ∷ []

boot-boot_example :
    (h : Booted) × (boot_history codec world nothing_there setup [] key_len blank ≡ goes_on h)
    × (h.out.offset ≡ suc zero_pad_len)
    × (length h.out.dw.file ≡ suc zero_pad_len)
    × (h' : Booted) × (boot_history codec world
          (record nothing_there { his_dat = some (h.out.dw.file ++ line) })
          setup
          []
          key_len
          blank
        ≡ goes_on h')
    × (h'.settings ≡ h.settings)
    × (h'.out.dw.file ≡ h.out.dw.file ++ line)
    × (h'.out.offset ≡ h.out.offset + length line)
boot-boot_example =
    boot-boot codec world world nothing_there nothing_there setup setup [] text line blank
      (before_index [] blank) blank (before_index [] blank) nothing_there-IsFine
      nothing_there-IsFine refl encoded (omega arith) (omega arith) starts starts refl

empty : memory.Db
unfolding memory
empty = λ t h. none

empty-Holds : (key : Bytes) → IsPlain key → 3 ≤ length key → Holds memory empty key []
unfolding memory Holds row_text empty
empty-Holds key plain long = refl

abbrev on_file : Bytes → History memory
on_file file = record {
  out = appender_of (writer_on file 1_000_000);
  wrote_lines = 0;
  hashes = record { db = empty; stats = record { debug = false; counter = λ k. 0 } };
  l1 = record { enabled = false; cut_char = 3; shards = λ c. none };
}

boot-Tracks_example :
    (h : Booted) × (boot_history codec world nothing_there setup [] key_len blank ≡ goes_on h)
    × HasHeader codec asked h.out.dw.file
    × (0 < h.out.offset)
    × Tracks memory (record (on_file []) { out = h.out }) []
boot-Tracks_example =
    boot-Tracks memory codec world nothing_there setup [] text blank (before_index [] blank)
      (on_file []) nothing_there-IsFine refl encoded (omega arith) (omega arith) starts empty-Holds

abbrev header : Bytes
header = null_pad text zero_pad_len ++ 10 ∷ []

header-HasHeader : HasHeader codec asked header
header-HasHeader = record {
  text = text;
  encoded = encoded;
  fits = omega arith;
  rest = [];
  begins = refl;
}

header-Tracks : Tracks memory (on_file header) []
unfolding appender_of
header-Tracks = record {
  exact = ap (length {A = ℕ}) (sym (append-nil header));
  rows = λ key plain long. unfold with_key in empty-Holds key plain long;
  lines = tt;
}

header_flushed : (on_file header).out.dw.buf ≡ []
unfolding appender_of
header_flushed = refl

abbrev with_header : Surroundings
with_header = record nothing_there { his_dat = some (on_file header).out.dw.file }

with_header-IsFine : IsFine with_header setup
with_header-IsFine = record {
  profile = refl;
  not_running = refl;
  hashdb_dir = refl;
  history_dir = refl;
  file_opens = refl;
}

restart-Tracks_example :
    (h : Booted) × (boot_history codec world with_header setup [] key_len blank ≡ goes_on h)
    × (h.out
        ≡ (restarted_from memory 1_000_000
            (on_file []).hashes.stats
            (on_file []).l1
            (on_file header)).out)
    × Tracks memory
        (restarted_from memory 1_000_000 (on_file []).hashes.stats (on_file []).l1 (on_file header))
        []
unfolding appender_of
restart-Tracks_example =
    restart-Tracks memory codec world with_header setup [] blank (before_index [] blank)
      (on_file header) [] (on_file []).hashes.stats (on_file []).l1 header-Tracks header_flushed
      header-HasHeader with_header-IsFine refl refl starts
