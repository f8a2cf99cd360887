-- ===== src/HisDat/Lines.antt =====
-- What a written line does to history.dat, to the buffer and to the offset.
use mathlib.Core.List.{flatten}
use nntp_history.Prelude.{
  ℕ, ◌+◌, ◌-◌, ◌≤◌, ◌<◌, Bool, true, false, List, [], ◌∷◌, ◌++◌, append_assoc, append-nil, ◌≡◌, ◌⊎◌,
  inl, inr, refl, ap, ◌∙◌, arith, Bytes, Bool-cases, leb, ◌==◌, length, take, drop, length-append,
  take-append-drop,
}
use nntp_history.Cases.{HistoryObject, bufio_buffer}
use nntp_history.HisDat.{
  Writer, Appender, write_file, flush, short_flush, write_rest, write_string,
  check_bufio_write_buffer, history_line, write_history_line,
}

-- Everything written so far: what is on disk, then what waits in the buffer.
abbrev pub content : Writer → Bytes
content w = w.file ++ w.buf

nil_of_length : (s : Bytes) → (length s == 0) ≡ true → s ≡ []
nil_of_length [] h = refl
nil_of_length (c ∷ s) h = ground arith

-- A flush moves bytes from the buffer to the disk, also where it fails.
pub content-flush : (w : Writer) → content (flush w).1 ≡ content w
unfolding flush short_flush
content-flush w = elim (Bool-cases w.failed) [
  | inl f ↦ rw f
  | inr g ↦ rw g (elim (Bool-cases (leb (length w.buf) w.room)) [
    | inl fits ↦ rw fits (append-nil (w.file ++ w.buf))
    | inr short ↦ rw short (append_assoc w.file _ _ ∙ rw (take-append-drop w.room w.buf))
  ])
]

-- A flush that succeeds leaves no byte in the buffer and no failure.
pub flush-done :
    (w : Writer)
    → (flush w).0 ≡ true
    → ((flush w).1.buf ≡ []) × ((flush w).1.failed ≡ false) × ((flush w).1.file ≡ content w)
unfolding flush
flush-done w h = ground arith

content-write_rest :
    (s : Bytes) (w : Writer)
    → w.buf ≡ []
    → (write_rest s w).0 ≡ true
    → content (write_rest s w).1 ≡ w.file ++ s
unfolding write_rest write_file
content-write_rest s w e h = elim (Bool-cases (leb (length s) bufio_buffer)) [
  | inl fits ↦ rw fits
  | inr long ↦ ground (arith, append-nil (w.file ++ s))
]

live-write_rest :
    (s : Bytes) (w : Writer)
    → w.failed ≡ false
    → (write_rest s w).0 ≡ true
    → (write_rest s w).1.failed ≡ false
unfolding write_rest write_file
live-write_rest s w e h = ground arith

-- The writer with the buffer filled up by the head of a text.
abbrev filled : Bytes → Writer → Writer
filled s w = record w { buf = w.buf ++ take (bufio_buffer - length w.buf) s }

regroup :
    (s : Bytes) (w : Writer)
    → (content (filled s w)) ++ drop (bufio_buffer - length w.buf) s ≡ content w ++ s
regroup s w = simp (append_assoc, take-append-drop)

-- A text that was written stands behind all that was written before.
pub content-write_string :
    (s : Bytes) (w : Writer)
    → (write_string s w).0 ≡ true
    → (content (write_string s w).1 ≡ content w ++ s) × ((write_string s w).1.failed ≡ false)
unfolding write_string
content-write_string s w h =
    let w1 = (flush (filled s w)).1 in
    ground (
      arith,
      append_assoc w.file w.buf s,
      nil_of_length w.buf,
      append-nil w.file,
      content-write_rest s w,
      live-write_rest s w,
      flush-done (filled s w),
      content-write_rest (drop (bufio_buffer - length w.buf) s) w1,
      live-write_rest (drop (bufio_buffer - length w.buf) s) w1,
      regroup s w,
    )

check_lem :
    (n : ℕ) (a : Appender)
    → (content (check_bufio_write_buffer n a).1.dw ≡ content a.dw)
      × ((check_bufio_write_buffer n a).1.offset ≡ a.offset)
unfolding check_bufio_write_buffer
check_lem n a = ground (arith, content-flush a.dw)

-- The offset of an appender is where the next line will begin.
abbrev pub IsExact : Appender → Type 0
IsExact a = a.offset ≡ length (content a.dw)

-- writeHistoryLine, when it succeeds, appends exactly the line to all that was written before, on disk
-- and in the buffer, and moves the offset by its length, whether or not it flushed on the way.
pub write_history_line_lem :
    (hobj : HistoryObject) (now : Bool) (a : Appender)
    → (write_history_line hobj now a).0 ≡ true
    → (content (write_history_line hobj now a).1.dw ≡ content a.dw ++ history_line hobj)
      × ((write_history_line hobj now a).1.offset ≡ a.offset + length (history_line hobj))
unfolding write_history_line
write_history_line_lem hobj now a h =
    let a1 = (check_bufio_write_buffer (length (history_line hobj)) a).1 in
    ground (
      arith,
      check_lem (length (history_line hobj)) a,
      content-write_string (history_line hobj) a1.dw,
      content-flush (write_string (history_line hobj) a1.dw).1,
    )

-- So an exact offset stays exact.
pub write_history_line-IsExact :
    (hobj : HistoryObject) (now : Bool) (a : Appender)
    → IsExact a
    → (write_history_line hobj now a).0 ≡ true
    → IsExact (write_history_line hobj now a).1
write_history_line-IsExact hobj now a e h =
    let (c, o) = write_history_line_lem hobj now a h in
    o ∙ omega (arith, length-append (content a.dw) (history_line hobj), ap (length {A = ℕ}) c)

-- A text that fits goes to the buffer.
write_string_fits :
    (s : Bytes) (w : Writer)
    → length w.buf + length s ≤ bufio_buffer
    → (write_string s w).0 ≡ true
    → ((write_string s w).1.file ≡ w.file) × ((write_string s w).1.buf ≡ w.buf ++ s)
unfolding write_string
write_string_fits s w room h = ground (arith, le_sub (length w.buf) (length s) bufio_buffer)
  where
    le_sub : (a b c : ℕ) → a + b ≤ c → leb b (c - a) ≡ true
    le_sub a b c h = ground arith

-- Before a line the buffer has room for it, or it has been flushed.
check_cases :
    (n : ℕ) (a : Appender)
    → (check_bufio_write_buffer n a).0 ≡ true
    → ((length a.dw.buf + n ≤ bufio_buffer) × ((check_bufio_write_buffer n a).1.dw ≡ a.dw))
      ⊎ (((check_bufio_write_buffer n a).1.dw.file ≡ content a.dw)
          × ((check_bufio_write_buffer n a).1.dw.buf ≡ []))
unfolding check_bufio_write_buffer
check_cases n a h = ground (arith, flush-done a.dw)

flatten-append : (xs ys : List Bytes) → flatten (xs ++ ys) ≡ flatten xs ++ flatten ys
unfolding flatten
flatten-append [] ys = refl
flatten-append (x ∷ xs) ys = rw (flatten-append xs ys, append_assoc)

flatten-snoc : (xs : List Bytes) (x : Bytes) → flatten (xs ++ x ∷ []) ≡ flatten xs ++ x
unfolding flatten
flatten-snoc [] x = append-nil x
flatten-snoc (y ∷ xs) x = rw (flatten-snoc xs x, append_assoc)

flatten-single : (x : Bytes) → flatten (x ∷ []) ≡ x
unfolding flatten
flatten-single x = append-nil x

-- The disk holds whole lines behind what it held, and the buffer holds the lines that wait.
pub record IsWhole (base : Bytes) (done waiting : List Bytes) (w : Writer) : Type 0 where
  pub on_disk : w.file ≡ base ++ flatten done
  pub in_buffer : w.buf ≡ flatten waiting

-- A line shorter than the buffer, written without a flush of its own, never makes the disk end in the
-- middle of a line: the lines that waited either wait on, the new one behind them, or are all on disk
-- and the new one alone waits.
pub write_history_line-IsWhole :
    (hobj : HistoryObject) (a : Appender) (base : Bytes) (done waiting : List Bytes)
    → IsWhole base done waiting a.dw
    → length (history_line hobj) < bufio_buffer
    → (write_history_line hobj false a).0 ≡ true
    → IsWhole base done (waiting ++ history_line hobj ∷ []) (write_history_line hobj false a).1.dw
      ⊎ IsWhole base
          (done ++ waiting)
          (history_line hobj ∷ [])
          (write_history_line hobj false a).1.dw
unfolding write_history_line
write_history_line-IsWhole hobj a base done waiting v short h =
    elim (check_cases n a (ground arith)) [
      | inl (room, same) ↦ inl record {
        on_disk = ground (arith, write_string_fits line a1.dw, v.on_disk);
        in_buffer =
            ground (arith, write_string_fits line a1.dw, flatten-snoc waiting line, v.in_buffer);
      }
      | inr (disk, empty) ↦ inr record {
        on_disk = ground (
          arith,
          write_string_fits line a1.dw,
          v.on_disk,
          v.in_buffer,
          flatten-append done waiting,
          append_assoc base (flatten done) (flatten waiting),
        );
        in_buffer = ground (arith, write_string_fits line a1.dw, flatten-single line);
      }
    ]
  where
    line : Bytes
    line = history_line hobj

    n : ℕ
    n = length line

    a1 : Appender
    a1 = (check_bufio_write_buffer n a).1
