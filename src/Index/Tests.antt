-- ===== src/Index/Tests.antt =====
-- The verdict over a file with two lines.
use nntp_history.Prelude.{
  false, [], ◌∷◌, ◌++◌, map, some, ◌≡◌, refl, arith, Bytes, codes, replicate, if◌then◌else◌,
}
use nntp_history.Prelude.Int.{pos}
use nntp_history.Stats.{Stats}
use nntp_history.Cases.{case_pass, case_dupes}
use nntp_history.HisDat.Seek.{line_at}
use nntp_history.Index.{verdict}
use nntp_history.Index.Verdict.{Entry, IsEntry, offsets_of, contains, verdict-contains}

abbrev hash_a : Bytes
hash_a = replicate 64 b'a'

abbrev hash_b : Bytes
hash_b = replicate 64 b'b'

abbrev two_lines : Bytes
two_lines =
    10
    ∷ (b'{' ∷ (hash_a ++ b'}' ∷ 9 ∷ (codes "-F" ++ 10 ∷ (b'{' ∷ (hash_b ++ b'}' ∷ 9 ∷ 10 ∷ [])))))

abbrev first_entry : Entry
first_entry = record { hash = hash_a; offset = 1 }

abbrev second_entry : Entry
second_entry = record { hash = hash_b; offset = 71 }

abbrev quiet : Stats
quiet = record { debug = false; counter = λ k. 0 }

first-IsEntry : IsEntry two_lines first_entry
first-IsEntry = record {
  sha256 = refl;
  no_tab = ground arith;
  positive = omega arith;
  in_int64 = omega arith;
  line = line_at _ refl;
}

second-IsEntry : IsEntry two_lines second_entry
second-IsEntry = record {
  sha256 = refl;
  no_tab = ground arith;
  positive = omega arith;
  in_int64 = omega arith;
  line = line_at _ refl;
}

verdict-contains_example :
    (verdict
      (some two_lines)
      hash_b
      (map pos (offsets_of (first_entry ∷ second_entry ∷ [])))
      quiet).0
    ≡ (if contains hash_b (first_entry ∷ second_entry ∷ []) then case_dupes else case_pass)
verdict-contains_example =
    verdict-contains two_lines hash_b (first_entry ∷ second_entry ∷ []) quiet
      (first-IsEntry, (second-IsEntry, tt))
