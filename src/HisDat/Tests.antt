-- ===== src/HisDat/Tests.antt =====
-- Lines written to an empty file, and a hash read where its line begins.
use mathlib.Core.List.{flatten}
use nntp_history.Prelude.{
  ◌+◌, ◌<◌, ◌⊎◌, true, false, [], ◌∷◌, ◌++◌, some, ◌≡◌, refl, arith, Bytes, codes, replicate,
  length, ok,
}
use nntp_history.Prelude.Int.{pos}
use nntp_history.Stats.{Stats, sync_upcounter}
use nntp_history.Cases.{HistoryObject, bufio_buffer}
use nntp_history.Text.Number.{format_padded}
use nntp_history.HisDat.{
  Appender, write_history_line, write_string, check_bufio_write_buffer, flush, history_line,
  fseek_history_message_hash,
}
use nntp_history.HisDat.Lines.{content, IsWhole, write_history_line_lem, write_history_line-IsWhole}
use nntp_history.HisDat.ReadBack.{fseek-write_history_line, length-history_line}
use nntp_history.HisDat.Seek.{line_at, fseek-LineAt}

abbrev hash_a : Bytes
hash_a = replicate 64 b'a'

abbrev article : HistoryObject
article = record {
  message_id_hash = hash_a;
  storage_token = codes "F";
  char = [];
  arrival = pos 1700000000;
  expires = pos 0;
  date = pos 1699999000;
  has_response_chan = true;
}

abbrev fresh : Appender
fresh = record {
  dw = record { file = codes "hdr"; buf = []; room = 100000; failed = false };
  offset = 3;
  wbt = 0;
  buffered = 0;
}

written : (write_history_line article false fresh).0 ≡ true
unfolding write_history_line write_string check_bufio_write_buffer flush history_line format_padded
written = refl

write_history_line_lem_example :
    (content (write_history_line article false fresh).1.dw
      ≡ content fresh.dw ++ history_line article)
    × ((write_history_line article false fresh).1.offset
        ≡ fresh.offset + length (history_line article))
write_history_line_lem_example = write_history_line_lem article false fresh written

short : length (history_line article) < bufio_buffer
unfolding history_line format_padded
short = ground arith

write_history_line-IsWhole_example :
    IsWhole
      (codes "hdr")
      []
      ([] ++ history_line article ∷ [])
      (write_history_line article false fresh).1.dw
    ⊎ IsWhole
        (codes "hdr")
        ([] ++ [])
        (history_line article ∷ [])
        (write_history_line article false fresh).1.dw
unfolding flatten
write_history_line-IsWhole_example =
    write_history_line-IsWhole article fresh (codes "hdr") [] []
      (record { on_disk = refl; in_buffer = refl }) short written

abbrev quiet : Stats
quiet = record { debug = false; counter = λ k. 0 }

abbrev one_line : Bytes
one_line = 10 ∷ (b'{' ∷ (hash_a ++ b'}' ∷ 9 ∷ (codes "0~0~0" ++ 9 ∷ (codes "F" ++ 10 ∷ []))))

fseek-LineAt_example :
    fseek_history_message_hash (some one_line) (pos 1) [] quiet
    ≡ (ok hash_a, sync_upcounter "FSEEK" quiet)
fseek-LineAt_example = fseek-LineAt one_line 0 hash_a [] quiet (line_at _ refl) refl (ground arith)

written_through : (write_history_line article true fresh).0 ≡ true
unfolding write_history_line write_string check_bufio_write_buffer flush history_line format_padded
written_through = refl

fseek-write_history_line_example :
    fseek_history_message_hash
      (some (write_history_line article true fresh).1.dw.file)
      (pos 3)
      []
      quiet
    ≡ (ok hash_a, sync_upcounter "FSEEK" quiet)
fseek-write_history_line_example =
    fseek-write_history_line article fresh 2 [] quiet refl refl refl (ground arith) written_through

length-history_line_example :
    length (history_line article)
    ≡ 37 + length article.message_id_hash + length article.storage_token
length-history_line_example =
    length-history_line article 1700000000 0 1699999000 refl refl refl (omega arith) (omega arith)
      (omega arith)
