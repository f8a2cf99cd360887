-- ===== src/Boot/Kept.antt =====
-- What was added is kept over a restart: the log of history_Writer against BootHistory.
use nntp_history.Prelude.{
  ℕ, suc, ◌-◌, ◌≤◌, ◌<◌, true, List, [], ◌∷◌, ◌++◌, append-nil, some, none, ◌≡◌, refl, sym, ap,
  subst, arith, Bytes, length, All,
}
use nntp_history.Cases.{zero_pad_len}
use nntp_history.Index.Verdict.{Entry, IsEntry}
use nntp_history.Stats.{Stats}
use nntp_history.L1Cache.{L1Cache}
use nntp_history.HashEnc.{null_pad}
use nntp_history.Writer.Log.{with_key}
use nntp_history.Store.{Database, IsPlain}
use nntp_history.Store.Rows.{Holds}
use nntp_history.Backend.{Backend, World}
use nntp_history.Writer.{History}
use nntp_history.Writer.Track.{Tracks}
use nntp_history.Boot.{
  Codec, Booted, Surroundings, Setup, goes_on, key_len, writer_on, index_of, appender_of,
  boot_history,
}
use nntp_history.Boot.Header.{HasHeader, length_header}
use nntp_history.Boot.Restart.{IsFine, asked, before_index, booted_with, boot_new, boot_old}

module _ (D : Database) where
  -- A history whose program is started anew, on the file as it is: the counters and the L1 cache are new.
  abbrev pub restarted_from : ℕ → Stats → L1Cache → History D → History D
  restarted_from room stats l1 st = record st {
    out = appender_of (writer_on st.out.dw.file room);
    wrote_lines = 0;
    hashes = record (st.hashes) { stats = stats };
    l1 = l1;
  }

  pub restarted_from-Tracks :
      (st : History D) (log : List Entry) (room : ℕ) (stats : Stats) (l1 : L1Cache)
      → Tracks D st log
      → st.out.dw.buf ≡ []
      → Tracks D (restarted_from room stats l1 st) log
  unfolding appender_of
  restarted_from-Tracks st log room stats l1 t flushed = record {
    exact = ap (length {A = ℕ}) (sym (append-nil st.out.dw.file));
    rows = t.rows;
    lines =
        subst (λ (s : Bytes). All (IsEntry s) log) (ap (λ s. st.out.dw.file ++ s) flushed) t.lines;
  }

  -- A BootHistory that finds no history.dat and nothing in its way, with a hash database that starts
  -- where it is used, settings that are encoded in no more than ZEROPADLEN bytes, room for the header
  -- on the disk and hash tables that hold nothing, leaves a history that keeps the empty log, with the
  -- header on disk and an offset greater than 0.
  pub boot-Tracks :
      (g : Codec) (w : World) (o : Surroundings) (setup : Setup) (history_dir text : Bytes)
      (b backend : Backend) (st : History D)
      → IsFine o setup
      → o.his_dat ≡ none
      → g.encode asked ≡ some text
      → length text ≤ zero_pad_len
      → suc zero_pad_len ≤ o.room
      → index_of w setup.use_hash_db (before_index history_dir b) ≡ goes_on backend
      → ((key : Bytes) → IsPlain key → 3 ≤ length key → Holds D st.hashes.db key [])
      → (h : Booted) × (boot_history g w o setup history_dir key_len b ≡ goes_on h)
        × HasHeader g asked h.out.dw.file
        × (0 < h.out.offset)
        × Tracks D (record st { out = h.out }) []
  unfolding appender_of
  boot-Tracks g w o setup history_dir text b backend st fine new_ e fits enough starts empty =
      let header = null_pad text zero_pad_len ++ 10 ∷ [] in
      let size : length header ≡ suc zero_pad_len = length_header g asked text e fits in
      (
        booted_with history_dir setup (asked, writer_on header (o.room - suc zero_pad_len)) backend,
        boot_new g w o setup history_dir text b backend fine new_ e fits enough starts,
        record { text = text; encoded = e; fits = fits; rest = []; begins = refl },
        omega (arith, size),
        record {
          exact = ap (length {A = ℕ}) (sym (append-nil header));
          rows = λ key plain long. unfold with_key in empty key plain long;
          lines = tt;
        },
      )

  -- Where the write buffer of a history whose file, rows and offset keep a log is empty and its file
  -- begins with the header that BootHistory writes, a BootHistory that finds this file, readable, with
  -- nothing in its way and a hash database that starts where it is used, goes on, and the history that
  -- it starts keeps the same log.
  pub restart-Tracks :
      (g : Codec) (w : World) (o : Surroundings) (setup : Setup) (history_dir : Bytes)
      (b backend : Backend) (st : History D) (log : List Entry) (stats : Stats) (l1 : L1Cache)
      → Tracks D st log
      → st.out.dw.buf ≡ []
      → HasHeader g asked st.out.dw.file
      → IsFine o setup
      → o.his_dat ≡ some st.out.dw.file
      → o.readable ≡ true
      → index_of w setup.use_hash_db (before_index history_dir b) ≡ goes_on backend
      → (h : Booted) × (boot_history g w o setup history_dir key_len b ≡ goes_on h)
        × (h.out ≡ (restarted_from o.room stats l1 st).out)
        × Tracks D (restarted_from o.room stats l1 st) log
  restart-Tracks g w o setup history_dir b backend st log stats l1 t flushed header fine old
        readable starts =
      (
        booted_with history_dir setup (asked, writer_on st.out.dw.file o.room) backend,
        boot_old g w o setup history_dir st.out.dw.file b backend fine old readable header starts,
        refl,
        restarted_from-Tracks st log o.room stats l1 t flushed,
      )
