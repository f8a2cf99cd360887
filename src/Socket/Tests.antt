-- ===== src/Socket/Tests.antt =====
-- An article on the wire, and a line that asks to add one.
use nntp_history.Prelude.{
  true, false, [], none, some, ◌≡◌, refl, arith, Bytes, codes, replicate, eq_bytes,
}
use nntp_history.Prelude.Int.{pos, negsuc}
use nntp_history.Cases.{HistoryObject}
use nntp_history.Store.{connection}
use nntp_history.Store.Memory.{memory}
use nntp_history.Text.{split}
use nntp_history.Writer.{Config, Env}
use nntp_history.RootDbs.{rootdbs}
use nntp_history.Socket.{
  Conn, convert_history_object_to_string, convert_string_to_history_object, handle_line, command_of,
  add, reads,
}
use nntp_history.Socket.Wire.{IsSendable, received, convert-convert}
use nntp_history.Socket.Rejects.{IsRefusal, add_is_refused}

abbrev article : HistoryObject
article = record {
  message_id_hash = replicate 64 b'a';
  storage_token = codes "F";
  char = [];
  arrival = pos 1699999999;
  expires = negsuc 0;
  date = pos 1699999000;
  has_response_chan = true;
}

article-IsSendable : IsSendable article
article-IsSendable = record {
  hash = ground arith;
  token = ground arith;
  arrival = omega arith;
  expires = omega arith;
  date = omega arith;
}

convert-convert_example :
    convert_string_to_history_object (split b' ' (convert_history_object_to_string article))
    ≡ some (received article)
convert-convert_example = convert-convert article article-IsSendable

abbrev config : Config
config = record {
  use_hash_db = true;
  has_index_chan = true;
  global_index_chan = true;
  cut_char = 3;
  dbs = rootdbs;
  worker_runs = λ i. true;
}

abbrev surroundings : Env
surroundings = record { lease = connection; readable = true; now = 1700000000; now_nano = 0 }

abbrev fresh : Conn memory
unfolding memory
fresh = record {
  added = 0;
  tadded = 0;
  cpu_file = false;
  history = record {
    out = record {
      dw = record { file = codes "hdr"; buf = []; room = 100000; failed = false };
      offset = 3;
      wbt = 0;
      buffered = 0;
    };
    wrote_lines = 0;
    hashes = record { db = λ t h. none; stats = record { debug = false; counter = λ k. 0 } };
    l1 = record { enabled = false; cut_char = 3; shards = λ c. none };
  };
}

abbrev eight_parts : Bytes
eight_parts = codes "add 0 h t 1 2 3 4"

named : command_of (split b' ' eight_parts) ≡ add
unfolding command_of split eq_bytes
named = refl

add_is_refused_example :
    ((handle_line memory config surroundings true false (some eight_parts) fresh).next ≡ reads)
    × IsRefusal (handle_line memory config surroundings true false (some eight_parts) fresh).reply
    × ((handle_line memory config surroundings true false (some eight_parts) fresh).conn ≡ fresh)
add_is_refused_example =
    add_is_refused memory config surroundings true false eight_parts fresh named
