-- ===== src/Writer/Tests.antt =====
-- Runs of history_Writer and IndexQuery on concrete objects, over the database in memory.
use nntp_history.Prelude.{
  ◌<◌, ◌≤◌, ◌^◌, ◌++◌, ◌⊎◌, ◌≢◌, eq_bytes, length, take, true, false, arith, [], ◌∷◌, none, some,
  ◌≡◌, refl, Bytes, codes, replicate, ok, if◌then◌else◌,
}
use nntp_history.Prelude.Int.{pos}
use nntp_history.Cases.{HistoryObject, case_dupes, case_pass, case_added, case_retry, flag_search}
use nntp_history.HisDat.{
  write_history_line, write_string, check_bufio_write_buffer, flush, history_line,
}
use nntp_history.Index.{hash_db_worker, insert_reply}
use nntp_history.Prelude.{All-replicate, inr, ℕ}
use nntp_history.Store.{IsPlain, connection, refused, insert_offset}
use nntp_history.Store.Memory.{memory}
use nntp_history.Writer.{
  Config, Env, History, arrived, respond, by_answer, ask_index, hash_db_index, worker_answer,
  answered, goes_on, index_query, history_writer,
}
use nntp_history.Writer.Track.{Tracks, IsIndexed, IsObject, insert_of, entry_of}
use nntp_history.Writer.Log.{with_key}
use nntp_history.Store.Rows.{Holds, row_text}
use nntp_history.Writer.Reach.{Reach, booted, added, retried}
use nntp_history.Writer.Step.{history_writer-Tracks}
use nntp_history.Writer.Verdicts.{added_is_found, unflushed_is_new, writer_always_inserts, IsTold}
use nntp_history.Index.Verdict.{Entry, contains}
use nntp_history.Text.Number.{format_padded, digit}
use nntp_history.Shard.Names.{HasPrefix}
use nntp_history.RootDbs.{rootdbs}
use nntp_history.Writer.Routing.{routed}
use nntp_history.Cases.{HistoryIndex}
use nntp_history.Writer.{hash_db_index, to_worker}
use nntp_history.Prelude.{get_elem?}

abbrev config : Config
config = record {
  use_hash_db = true;
  has_index_chan = true;
  global_index_chan = true;
  cut_char = 3;
  dbs = rootdbs;
  worker_runs = λ i. true;
}

abbrev surroundings : Env
surroundings = record { lease = connection; readable = true; now = 1700000000; now_nano = 0 }

abbrev hash_a : Bytes
hash_a = replicate 64 b'a'

abbrev article : HistoryObject
article = record {
  message_id_hash = hash_a;
  storage_token = codes "F";
  char = [];
  arrival = pos 1699999999;
  expires = pos 0;
  date = pos 1699999000;
  has_response_chan = true;
}

-- A file with a header of four bytes and an empty database.
abbrev fresh : History memory
unfolding memory
fresh = record {
  out = record {
    dw = record { file = codes "hdr"; buf = []; room = 100000; failed = false };
    offset = 3;
    wbt = 0;
    buffered = 0;
  };
  wrote_lines = 0;
  hashes = record { db = λ t h. none; stats = record { debug = false; counter = λ k. 0 } };
  l1 = record { enabled = false; cut_char = 3; shards = λ c. none };
}

fresh-Tracks : Tracks memory fresh []
unfolding fresh
fresh-Tracks = record {
  exact = refl;
  rows = λ key plain long. unfold memory Holds row_text with_key in refl;
  lines = tt;
}

abbrev one_added : History memory
one_added = (history_writer memory config surroundings (some article) fresh).after

hash_a-IsPlain : IsPlain hash_a
hash_a-IsPlain =
    All-replicate (λ (c : ℕ). ((48 ≤ c) × (c ≤ 57)) ⊎ ((97 ≤ c) × (c ≤ 122))) 64 97
      (inr (omega arith, omega arith))

article-IsObject : IsObject memory article
article-IsObject = record { sha256 = refl; plain = hash_a-IsPlain; token = omega arith }

article_goes_on : (history_writer memory config surroundings (some article) fresh).next ≡ goes_on
unfolding history_writer by_answer ask_index hash_db_index fresh worker_answer hash_db_worker
    insert_reply insert_offset write_history_line memory write_string check_bufio_write_buffer flush
    history_line arrived format_padded
article_goes_on = refl

article_reply :
    (history_writer memory config surroundings (some article) fresh).reply ≡ some (pos case_added)
unfolding history_writer by_answer ask_index hash_db_index fresh worker_answer hash_db_worker
    insert_reply insert_offset write_history_line memory write_string check_bufio_write_buffer flush
    history_line arrived format_padded
article_reply = refl

config-IsIndexed : IsIndexed memory config
config-IsIndexed = record {
  hash_db = refl;
  index_chan = refl;
  return_chan = refl;
  workers = λ char. refl;
}

fresh_positive : 0 < fresh.out.offset
unfolding fresh
fresh_positive = omega arith

fresh_fits : fresh.out.offset < 2 ^ 63
unfolding fresh
fresh_fits = omega arith

abbrev first_entry : Entry
first_entry = record { hash = hash_a; offset = 3 }

one_added-Reach : Reach memory config one_added (first_entry ∷ [])
unfolding fresh
one_added-Reach =
    added surroundings article (booted fresh-Tracks) article-IsObject refl fresh_positive fresh_fits
      article_goes_on article_reply

-- A database that cannot be reached makes the writer flush.
abbrev unreachable : Env
unreachable = record surroundings { lease = refused }

abbrev two_rounds : History memory
two_rounds = (history_writer memory config unreachable (some article) one_added).after

retry_goes_on : (history_writer memory config unreachable (some article) one_added).next ≡ goes_on
unfolding history_writer by_answer ask_index hash_db_index fresh worker_answer hash_db_worker
    insert_reply insert_offset write_history_line memory write_string check_bufio_write_buffer flush
    history_line arrived format_padded
retry_goes_on = refl

retry_reply :
    (history_writer memory config unreachable (some article) one_added).reply
    ≡ some (pos case_retry)
unfolding history_writer by_answer ask_index hash_db_index fresh worker_answer hash_db_worker
    insert_reply insert_offset write_history_line memory write_string check_bufio_write_buffer flush
    history_line arrived format_padded
retry_reply = refl

one_added_positive : (0 < one_added.out.offset) × (one_added.out.offset < 2 ^ 63)
unfolding history_writer by_answer ask_index hash_db_index fresh worker_answer hash_db_worker
    insert_reply insert_offset write_history_line memory write_string check_bufio_write_buffer flush
    history_line arrived format_padded
one_added_positive = (ground arith, ground arith)

two_rounds-Reach : Reach memory config two_rounds (first_entry ∷ [])
two_rounds-Reach =
    retried unreachable article one_added-Reach article-IsObject refl one_added_positive.0
      one_added_positive.1 retry_goes_on retry_reply

on_disk : two_rounds.out.dw.buf ≡ []
unfolding history_writer by_answer ask_index hash_db_index fresh worker_answer hash_db_worker
    insert_reply insert_offset write_history_line memory write_string check_bufio_write_buffer flush
    history_line arrived format_padded
on_disk = refl

added_is_found_example :
    (index_query memory config surroundings hash_a flag_search two_rounds).0
    ≡ ok (answered (pos (if contains hash_a (first_entry ∷ []) then case_dupes else case_pass)))
added_is_found_example =
    added_is_found memory config surroundings hash_a two_rounds (first_entry ∷ []) config-IsIndexed
      two_rounds-Reach refl refl refl hash_a-IsPlain on_disk

history_writer-Tracks_example :
    (((history_writer memory config surroundings (some article) fresh).reply
        ≡ respond memory (arrived memory surroundings article) (pos case_added))
      × Tracks memory
          (history_writer memory config surroundings (some article) fresh).after
          ([] ++ entry_of memory article fresh ∷ []))
    ⊎ (((history_writer memory config surroundings (some article) fresh).reply
          ≡ respond memory (arrived memory surroundings article) (pos case_retry))
        × Tracks memory (history_writer memory config surroundings (some article) fresh).after [])
history_writer-Tracks_example =
    history_writer-Tracks memory config surroundings article fresh [] config-IsIndexed
      article-IsObject fresh_positive fresh_fits fresh-Tracks article_goes_on

alone : with_key (take 10 hash_a) (first_entry ∷ []) ≡ first_entry ∷ []
unfolding with_key eq_bytes
alone = refl

waits : length one_added.out.dw.file ≤ 3
unfolding history_writer by_answer ask_index hash_db_index fresh worker_answer hash_db_worker
    insert_reply insert_offset write_history_line memory write_string check_bufio_write_buffer flush
    history_line arrived format_padded
waits = ground arith

unflushed_is_new_example :
    (index_query memory config surroundings hash_a flag_search one_added).0
    ≡ ok (answered (pos case_pass))
unflushed_is_new_example =
    unflushed_is_new memory config surroundings first_entry one_added (first_entry ∷ [])
      config-IsIndexed one_added-Reach refl refl hash_a-IsPlain alone waits

writer_always_inserts_example :
    ((history_writer memory config surroundings (some article) fresh).reply ≢ some (pos case_dupes))
    × IsTold memory
        (insert_of memory surroundings article fresh)
        fresh
        (history_writer memory config surroundings (some article) fresh)
writer_always_inserts_example =
    writer_always_inserts memory config surroundings article fresh config-IsIndexed article-IsObject
      refl fresh_positive

abbrev asked_for : HistoryIndex
asked_for = record { hash = hash_a; char = []; offset = flag_search; has_ret_chan = true }

hash_a-HasPrefix : HasPrefix 10 10 10 hash_a
unfolding digit
hash_a-HasPrefix = record {
  first = omega arith;
  second = omega arith;
  third = omega arith;
  rest = replicate 61 b'a';
  spelled = refl;
}

routed_example :
    (i : ℕ) × (hash_db_index config (some asked_for) ≡ to_worker i)
    × (get_elem? rootdbs i ≡ some (take 3 hash_a))
routed_example = routed config asked_for 10 10 10 refl refl hash_a-HasPrefix (omega arith) (λ e. cc)
