-- ===== src/Sharded/Files.antt =====
-- The files of the databases are apart.
use mathlib.Core.List.{append_cancel_left, append_cancel_right}
use nntp_history.Prelude.{
  ℕ, ◌≤◌, ◌<◌, ◌++◌, ◌≡◌, sym, ap, ◌∙◌, arith, Bytes, codes, ◌==◌, Bool-cases, inl, inr,
}
use nntp_history.Prelude.Int.{pos}
use nntp_history.Text.Number.{parse_nat, pad_left, format_nat, format_padded}
use nntp_history.Text.Number.Padded.{parse_nat-pad_left}
use nntp_history.Shard.{get_db_name_from_index}
use nntp_history.Sharded.{db_file_name}

padded_injective :
    (base i j : ℕ)
    → 2 ≤ base
    → base ≤ 16
    → pad_left b'0' 3 (format_nat base i) ≡ pad_left b'0' 3 (format_nat base j)
    → i ≡ j
padded_injective base i j lo hi e =
    cc (ap (parse_nat base) e, parse_nat-pad_left base i 3 lo hi, parse_nat-pad_left base j 3 lo hi)

inner :
    (x y : Bytes)
    → codes "hashdb_" ++ (x ++ codes ".sqlite3") ≡ codes "hashdb_" ++ (y ++ codes ".sqlite3")
    → x ≡ y
inner x y e =
    append_cancel_right x y (codes ".sqlite3")
      (append_cancel_left (codes "hashdb_") (x ++ codes ".sqlite3") (y ++ codes ".sqlite3") e)

index_name : (i : ℕ) → i < 4096 → get_db_name_from_index (pos i) ≡ pad_left b'0' 3 (format_nat 16 i)
unfolding get_db_name_from_index
index_name i h = ground arith

pub db_file_name_injective :
    (num_dbs i j : ℕ)
    → num_dbs ≤ 4096
    → i < num_dbs
    → j < num_dbs
    → db_file_name num_dbs i ≡ db_file_name num_dbs j
    → i ≡ j
unfolding db_file_name
db_file_name_injective num_dbs i j small hi hj e = elim (Bool-cases (num_dbs == 1)) [
  | inl one ↦ ground arith
  | inr many ↦ elim (Bool-cases (num_dbs == 4096)) [
    | inl full ↦ padded_injective 16 i j (omega arith) (omega arith) (
        sym (index_name i (omega arith))
        ∙ inner _ _ (rw (many, full) at e)
        ∙ index_name j (omega arith))
    | inr hybrid ↦
        padded_injective 10 i j (omega arith) (omega arith)
          (unfold format_padded in inner _ _ (rw (many, hybrid) at e))
  ]
]
