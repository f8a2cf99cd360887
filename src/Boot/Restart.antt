-- ===== src/Boot/Restart.antt =====
-- BootHistory on a new and on an old history.dat, and what a restart keeps.
use nntp_history.Prelude.{
  suc, ◌+◌, ◌-◌, ◌≤◌, true, false, not, ◌||◌, [], ◌∷◌, ◌++◌, some, none, ◌≡◌, refl, ap, ◌∙◌, arith,
  Bytes, codes, length, length-append, if◌then◌else◌, ◌==◌,
}
use nntp_history.Cases.{zero_pad_len}
use nntp_history.HashEnc.{null_pad}
use nntp_history.HisDat.{Writer}
use nntp_history.RootDbs.{rootdbs}
use nntp_history.RootDbs.Places.{cut_char_of-num_cache_dbs, rootdbs_lem}
use nntp_history.L1Cache.{boot_l1_cache}
use nntp_history.Backend.{Backend, World}
use nntp_history.Boot.{
  Settings, Codec, Booted, Surroundings, Setup, goes_on, hash_short, key_len, writer_on,
  open_history, open_file, index_of, cut_of, put_right, appender_of, boot_history,
}
use nntp_history.Boot.Header.{HasHeader, HasHeader-append, length_header, open_new, open_old}

-- Nothing stands in the way of a boot.
pub record IsFine (o : Surroundings) (setup : Setup) : Type 0 where
  pub profile : (not setup.cpu_profile || o.profile_starts) ≡ true
  pub not_running : setup.has_writer_chan ≡ false
  pub hashdb_dir : (o.dir_there || o.mkdir_hashdb) ≡ true
  pub history_dir : (o.dir_there_then || o.mkdir_dir) ≡ true
  pub file_opens : o.opens ≡ true

abbrev pub dir_of : Bytes → Bytes
dir_of history_dir = if length history_dir == 0 then codes "history" else history_dir

-- The settings that are asked for.
abbrev pub asked : Settings
asked = record { ka = hash_short; kl = key_len }

-- The backend that the index is started on.
abbrev pub before_index : Bytes → Backend → Backend
before_index history_dir b = record b { dir = dir_of history_dir; rootdbs = rootdbs }

abbrev pub booted_with : Bytes → Setup → Settings × Writer → Backend → Booted
booted_with history_dir setup opened backend = record {
  his_dat_path = dir_of history_dir ++ codes "/history.dat";
  settings = opened.0;
  defaults = put_right setup.defaults;
  cut_char = 3;
  backend = backend;
  l1 = if setup.use_hash_db then none else some (boot_l1_cache setup.l1_enabled 3 rootdbs);
  out = appender_of opened.1;
}

boot_lem :
    (g : Codec) (w : World) (o : Surroundings) (setup : Setup) (history_dir : Bytes)
    (b backend : Backend) (opened : Settings × Writer)
    → IsFine o setup
    → open_history g o asked ≡ goes_on opened
    → index_of w setup.use_hash_db (before_index history_dir b) ≡ goes_on backend
    → boot_history g w o setup history_dir key_len b
      ≡ goes_on (booted_with history_dir setup opened backend)
unfolding boot_history cut_of
boot_lem g w o setup history_dir b backend opened fine opens starts = simp (
  fine.profile, fine.not_running, fine.hashdb_dir, fine.history_dir, fine.file_opens, opens,
  cut_char_of-num_cache_dbs, rootdbs_lem, starts,
)

-- A boot that finds no history.dat.
pub boot_new :
    (g : Codec) (w : World) (o : Surroundings) (setup : Setup) (history_dir text : Bytes)
    (b backend : Backend)
    → IsFine o setup
    → o.his_dat ≡ none
    → g.encode asked ≡ some text
    → length text ≤ zero_pad_len
    → suc zero_pad_len ≤ o.room
    → index_of w setup.use_hash_db (before_index history_dir b) ≡ goes_on backend
    → boot_history g w o setup history_dir key_len b
      ≡ goes_on (
          booted_with history_dir setup
            (asked, writer_on (null_pad text zero_pad_len ++ 10 ∷ []) (o.room - suc zero_pad_len))
            backend)
unfolding open_history
boot_new g w o setup history_dir text b backend fine new_ e fits enough starts =
    boot_lem g w o setup history_dir b backend _ fine
      (ap (open_file g o.readable o.room asked) new_
        ∙ open_new g asked text o.readable o.room e fits enough)
      starts

-- A boot that finds a history.dat with its header.
pub boot_old :
    (g : Codec) (w : World) (o : Surroundings) (setup : Setup) (history_dir file : Bytes)
    (b backend : Backend)
    → IsFine o setup
    → o.his_dat ≡ some file
    → o.readable ≡ true
    → HasHeader g asked file
    → index_of w setup.use_hash_db (before_index history_dir b) ≡ goes_on backend
    → boot_history g w o setup history_dir key_len b
      ≡ goes_on (booted_with history_dir setup (asked, writer_on file o.room) backend)
unfolding open_history
boot_old g w o setup history_dir file b backend fine old readable header starts =
    boot_lem g w o setup history_dir b backend _ fine
      (ap (open_file g o.readable o.room asked) old
        ∙ ap (λ r. open_file g r o.room asked (some file)) readable
        ∙ open_old g asked file o.room header refl (λ e. ground arith))
      starts

-- Where nothing is in its way, the hash database starts where it is used, the settings are encoded in
-- no more than ZEROPADLEN bytes and the disk has room for the header, BootHistory without a
-- history.dat writes a header of ZEROPADLEN bytes and a line feed, and BootHistory on that file, with
-- any lines behind the header, reads the same settings, keeps every byte and starts with the size of
-- the file as its offset.
pub boot-boot :
    (g : Codec) (w w' : World) (o o' : Surroundings) (setup setup' : Setup)
    (history_dir text lines : Bytes) (b backend b' backend' : Backend)
    → IsFine o setup
    → IsFine o' setup'
    → o.his_dat ≡ none
    → g.encode asked ≡ some text
    → length text ≤ zero_pad_len
    → suc zero_pad_len ≤ o.room
    → index_of w setup.use_hash_db (before_index history_dir b) ≡ goes_on backend
    → index_of w' setup'.use_hash_db (before_index history_dir b') ≡ goes_on backend'
    → o'.readable ≡ true
    → (h : Booted) × (boot_history g w o setup history_dir key_len b ≡ goes_on h)
      × (h.out.offset ≡ suc zero_pad_len)
      × (length h.out.dw.file ≡ suc zero_pad_len)
      × (h' : Booted) × (boot_history g w'
            (record o' { his_dat = some (h.out.dw.file ++ lines) })
            setup'
            history_dir
            key_len
            b'
          ≡ goes_on h')
      × (h'.settings ≡ h.settings)
      × (h'.out.dw.file ≡ h.out.dw.file ++ lines)
      × (h'.out.offset ≡ h.out.offset + length lines)
unfolding appender_of
boot-boot g w w' o o' setup setup' history_dir text lines b backend b' backend' fine fine' new_ e
      fits enough starts starts' readable =
    let header = null_pad text zero_pad_len ++ 10 ∷ [] in
    let size : length header ≡ suc zero_pad_len = length_header g asked text e fits in
    (
      booted_with history_dir setup (asked, writer_on header (o.room - suc zero_pad_len)) backend,
      boot_new g w o setup history_dir text b backend fine new_ e fits enough starts,
      size,
      size,
      booted_with history_dir setup' (asked, writer_on (header ++ lines) o'.room) backend',
      boot_old g w' (record o' { his_dat = some (header ++ lines) }) setup' history_dir
          (header ++ lines) b' backend'
          (record {
            profile = fine'.profile;
            not_running = fine'.not_running;
            hashdb_dir = fine'.hashdb_dir;
            history_dir = fine'.history_dir;
            file_opens = fine'.file_opens;
          })
          refl readable (HasHeader-append g asked text lines e fits) starts',
      refl,
      refl,
      length-append header lines,
    )
