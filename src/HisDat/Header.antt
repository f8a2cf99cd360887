-- ===== src/HisDat/Header.antt =====
-- The header of history.dat, written to a new file and read back.
use nntp_history.Prelude.{
  ℕ, suc, ◌+◌, ◌-◌, ◌≤◌, ◌<◌, true, false, [], ◌∷◌, ◌++◌, some, ◌≡◌, refl, ap, arith, Bytes, ok,
  Lacks, length, length-append, ==_iff, append-nil, ◌∙◌,
}
use nntp_history.Cases.{zero_pad_len, bufio_buffer}
use nntp_history.Text.{until-append}
use nntp_history.HisDat.{
  Writer, write_file, write_rest, write_string, flush, write_history_header, fseek_history_header,
}

-- A writer on a new file
abbrev pub on_new_file : ℕ → Writer
on_new_file room = record { file = []; buf = []; room = room; failed = false }

-- The header goes to the disk at once, since it is longer than the buffer.
long_text :
    (s : Bytes) (room : ℕ)
    → bufio_buffer < length s
    → length s ≤ room
    → write_string s (on_new_file room)
      ≡ (true, record { file = s; buf = []; room = room - length s; failed = false })
unfolding write_string write_rest write_file
long_text s room long fits = ground arith

-- There is nothing left to flush.
flush_nothing :
    (file : Bytes) (room : ℕ)
    → flush (record { file = file; buf = []; room = room; failed = false })
      ≡ (true, record { file = file; buf = []; room = room; failed = false })
unfolding flush
flush_nothing file room = ground (arith, append-nil file)

pub write_history_header_lem :
    (header : Bytes) (room : ℕ)
    → length header ≡ zero_pad_len
    → suc zero_pad_len ≤ room
    → write_history_header header (some 0) true (on_new_file room) ≡ (
      true,
      some (0 + (length header + 1)),
      record { file = header ++ 10 ∷ []; buf = []; room = room - suc zero_pad_len; failed = false },
    )
unfolding write_history_header
write_history_header_lem header room size fits =
    let total : length (header ++ 10 ∷ []) ≡ suc zero_pad_len =
      omega (arith, length-append header (10 ∷ []), size) in
    let written : write_string (header ++ 10 ∷ []) (on_new_file room) ≡ (
      true,
      record { file = header ++ 10 ∷ []; buf = []; room = room - suc zero_pad_len; failed = false },
    ) =
      long_text (header ++ 10 ∷ []) room (omega (arith, total)) (omega (arith, total))
      ∙ ap
          (λ n.
            (true, record { file = header ++ 10 ∷ []; buf = []; room = room - n; failed = false }))
          total in
    rw
      (
        (==_iff (length header) zero_pad_len).1 size,
        written,
        flush_nothing (header ++ 10 ∷ []) (room - suc zero_pad_len),
      )
      refl

-- The bytes before the first line feed, whatever follows.
pub fseek_history_header_lem :
    (header rest : Bytes)
    → Lacks 10 header
    → fseek_history_header (some (header ++ 10 ∷ rest)) ≡ ok header
unfolding fseek_history_header
fseek_history_header_lem header rest h = rw (until-append 10 header rest h, fseek_history_header)
