-- ===== src/Boot.antt =====
-- BootHistory of nntp-history.go with the header of history.dat (gobEncodeHeader, gobDecodeHeader of HASHENC.go).
pub mod Debug
pub mod Header
pub mod Restart
pub mod Kept
mod Tests
use nntp_history.Prelude.{
  ℕ, suc, ◌+◌, ◌≤◌, Bool, true, false, not, ◌&&◌, ◌||◌, List, [], ◌∷◌, ◌++◌, Option, none, some,
  ◌≡◌, ◌≢◌, ◌⊎◌, Bytes, codes, Outcome, ok, fail, panic, All, ◌==◌, if◌then◌else◌, length,
}
use nntp_history.Prelude.Int.{ℤ, pos, negsuc, ltb_ℤ, eq_ℤ}
use nntp_history.Cases.{zero_pad_len}
use nntp_history.HashEnc.{null_pad, remove_null_pad}
use nntp_history.HisDat.{Writer, Appender, write_history_header, fseek_history_header}
use nntp_history.RootDbs.{hexchars, generate_combinations, cut_char_of, num_cache_dbs}
use nntp_history.L1Cache.{L1Cache, boot_l1_cache}
use nntp_history.Pool.Schema.{Created, created, not_created, stuck, crashed, exited}
use nntp_history.Backend.{Backend, World, hash_db_init}

-- HistorySettings
pub record Settings : Type 0 where
  pub ka : ℤ
  pub kl : ℤ

-- Digits, letters, plus, slash and equals sign.
abbrev pub IsBase64 : Bytes → Type 0
IsBase64 = All (λ c.
    ((b'0' ≤ c) × (c ≤ b'9'))
    ⊎ ((b'A' ≤ c) × (c ≤ b'Z'))
    ⊎ ((b'a' ≤ c) × (c ≤ b'z'))
    ⊎ (c ≡ b'+')
    ⊎ (c ≡ b'/')
    ⊎ (c ≡ b'='))

-- gob and base64 of the Go library: settings as base64 text, and a text decoded into a target. gob leaves a field of
-- the target alone where the encoded one was 0.
pub record Codec : Type 0 where
  pub encode : Settings → Option Bytes
  pub decode : Bytes → Settings → Option Settings
  pub encode-IsBase64 : (s : Settings) (t : Bytes) → encode s ≡ some t → IsBase64 t
  pub decode-encode :
      (s target : Settings) (t : Bytes)
      → s.ka ≢ pos 0
      → s.kl ≢ pos 0
      → encode s ≡ some t
      → decode t target ≡ some s

-- HashShort and KeyLen
abbrev pub hash_short : ℤ
hash_short = pos 0x0B

abbrev pub key_len : ℤ
key_len = pos 7

-- How a boot goes: on to a value, back because the history runs, or to an end of the program.
pub data Boot (A : Type 0) : Type 0 where
  goes_on : A → Boot A
  already exits hangs crashes : Boot A

infixl 5 ◌>>=◌ ◌>>◌
abbrev ◌>>=◌ : {A B : Type 0} → Boot A → (A → Boot B) → Boot B
goes_on a >>= f = f a
already >>= f = already
exits >>= f = exits
hangs >>= f = hangs
crashes >>= f = crashes

abbrev ◌>>◌ : {B : Type 0} → Boot (Unit {0}) → Boot B → Boot B
m >> k = m >>= λ _. k

-- os.Exit(1) unless.
abbrev need : Bool → Boot (Unit {0})
need true = goes_on tt
need false = exits

-- The global variables that a boot puts right.
pub record Defaults : Type 0 where
  pub num_queue_write_chan : ℤ
  pub batch_flush_every : ℤ
  pub cache_purge : ℤ
  pub cache_expires : ℤ
  pub evicts_capacity : ℤ
  pub index_parallel : ℤ

-- A value above the limit stays, any other is replaced.
above : ℤ → ℤ → ℤ → ℤ
above limit instead v = if ltb_ℤ limit v then v else instead

pub put_right : Defaults → Defaults
unfolding above
put_right d = record {
  num_queue_write_chan = above (pos 0) (pos 1) d.num_queue_write_chan;
  batch_flush_every = above (pos 2500) (pos 2500) d.batch_flush_every;
  cache_purge = above (pos 0) (pos 1) d.cache_purge;
  cache_expires = above (pos 0) (pos 1) d.cache_expires;
  evicts_capacity = above (pos 0) (pos 1) d.evicts_capacity;
  index_parallel =
      if not (ltb_ℤ (pos 0) d.index_parallel)
      then pos 1
      else if ltb_ℤ (pos num_cache_dbs) d.index_parallel
      then pos num_cache_dbs
      else d.index_parallel;
}

-- What the operating system says during a boot: whether a wanted profile starts, which directories are there or can
-- be made, what history.dat holds if there is one, whether it can be opened, and the room on the disk.
pub record Surroundings : Type 0 where
  pub profile_starts : Bool
  pub dir_there : Bool
  pub mkdir_hashdb : Bool
  pub dir_there_then : Bool
  pub mkdir_dir : Bool
  pub his_dat : Option Bytes
  pub opens : Bool
  pub readable : Bool
  pub room : ℕ

-- How the program was set up.
pub record Setup : Type 0 where
  pub cpu_profile : Bool
  pub has_writer_chan : Bool
  pub use_hash_db : Bool
  pub l1_enabled : Bool
  pub defaults : Defaults

-- The history behind a boot; `out` is what history_Writer starts with.
pub record Booted : Type 0 where
  pub his_dat_path : Bytes
  pub settings : Settings
  pub defaults : Defaults
  pub cut_char : ℕ
  pub backend : Backend
  pub l1 : Option L1Cache
  pub out : Appender

-- gobEncodeHeader
pub gob_encode_header : Codec → Settings → Option Bytes
gob_encode_header g settings = elim (g.encode settings) [
  | none ↦ none
  | some t ↦ some (null_pad t zero_pad_len)
]

-- gobDecodeHeader
pub gob_decode_header : Codec → Bytes → Settings → Option Settings
gob_decode_header g data_ target = g.decode (remove_null_pad data_) target

-- os.OpenFile with O_APPEND and O_CREATE, and the writer on it
abbrev pub writer_on : Bytes → ℕ → Writer
writer_on file room = record { file = file; buf = []; room = room; failed = false }

header_written : Bool × Option ℕ × Writer → Boot Writer
header_written (true, offset, dw) = goes_on dw
header_written (false, offset, dw) = exits

-- A new history.dat gets its header.
new_header : Codec → Settings → Writer → Boot Writer
unfolding header_written gob_encode_header
new_header g settings dw = elim (gob_encode_header g settings) [
  | none ↦ exits
  | some header ↦ header_written (write_history_header header (some 0) true dw)
]

-- What is decoded must have the key length that is asked for and the only algorithm.
checked : Settings → Option Settings → Boot Settings
checked asked none = exits
checked asked (some s) = do need (eq_ℤ s.kl asked.kl); need (eq_ℤ s.ka hash_short); goes_on s

-- The header of an old history.dat is read.
old_header : Codec → Settings → Outcome Bytes → Boot Settings
unfolding checked gob_decode_header
old_header g settings (ok header) = do
  need (not (length header == 0))
  checked settings (gob_decode_header g header settings)
old_header g settings fail = exits
old_header g settings panic = crashes

-- history.dat is opened, and its header written or read.
pub open_file : Codec → Bool → ℕ → Settings → Option Bytes → Boot (Settings × Writer)
unfolding new_header old_header
open_file g readable room asked none = do
  dw ← new_header g asked (writer_on [] room)
  goes_on (asked, dw)
open_file g readable room asked (some file) = do
  settings ← old_header g asked (fseek_history_header (if readable then some file else none))
  goes_on (settings, writer_on file room)

pub open_history : Codec → Surroundings → Settings → Boot (Settings × Writer)
unfolding open_file
open_history g o asked = open_file g o.readable o.room asked o.his_dat

-- history_Writer takes the size of the file for the offset.
unfoldable pub appender_of : Writer → Appender
appender_of dw = record { dw = dw; offset = length dw.file; wbt = 0; buffered = 0 }

of_created : Created × Backend → Boot Backend
of_created (created, b) = goes_on b
of_created (not_created, b) = exits
of_created (stuck, b) = hangs
of_created (crashed, b) = crashes
of_created (exited, b) = exits

-- The hash database is started where it is used.
pub index_of : World → Bool → Backend → Boot Backend
unfolding of_created
index_of w true b = of_created (hash_db_init w (codes "mysql") b)
index_of w false b = goes_on b

cut_of : Option ℕ → Boot ℕ
cut_of none = exits
cut_of (some n) = goes_on n

-- BootHistory
pub boot_history : Codec → World → Surroundings → Setup → Bytes → ℤ → Backend → Boot Booted
unfolding put_right open_history cut_of index_of appender_of
boot_history g w o setup history_dir keylen b = do
  need (not setup.cpu_profile || o.profile_starts)
  (if setup.has_writer_chan then already else goes_on tt)
  let dir = if length history_dir == 0 then codes "history" else history_dir
  need (o.dir_there || o.mkdir_hashdb)
  need (o.dir_there_then || o.mkdir_dir)
  need (eq_ℤ keylen key_len)
  need o.opens
  opened ← open_history g o (record { ka = hash_short; kl = keylen })
  cut_char ← cut_of (cut_char_of num_cache_dbs)
  let rootdbs = generate_combinations hexchars cut_char [] []
  backend ← index_of w setup.use_hash_db (record b { dir = dir; rootdbs = rootdbs })
  goes_on (record {
    his_dat_path = dir ++ codes "/history.dat";
    settings = opened.0;
    defaults = put_right setup.defaults;
    cut_char = cut_char;
    backend = backend;
    l1 = if setup.use_hash_db then none else some (boot_l1_cache setup.l1_enabled cut_char rootdbs);
    out = appender_of opened.1;
  })
