-- ===== src/Writer/Routing.antt =====
-- How hashDB_Index shares hashes out: each prefix has a worker of its own.
use nntp_history.Prelude.{
  ℕ, ◌<◌, ◌≤◌, false, [], ◌∷◌, some, ◌≡◌, ◌≢◌, refl, ap, sym, ◌∙◌, arith, Bytes, get_elem?, take,
  length, le→ltb, Bool-cases, inl, inr,
}
use nntp_history.Prelude.Int.{ℤ, pos, eq_ℤ, eq_ℤ-sound}
use nntp_history.Cases.{HistoryIndex}
use nntp_history.Text.Number.{digit}
use nntp_history.Shard.Names.{HasPrefix}
use nntp_history.RootDbs.{rootdbs, chars_map, to_lower}
use nntp_history.RootDbs.Places.{Elem-rootdbs, get_elem?-chars_map}
use nntp_history.Writer.{Config, to_worker, hash_db_index}

to_lower-digit : (d : ℕ) (s : Bytes) → d < 16 → to_lower (digit d ∷ s) ≡ digit d ∷ to_lower s
unfolding to_lower digit
to_lower-digit d s h = ground arith

to_lower-digits :
    (a b c : ℕ)
    → a < 16
    → b < 16
    → c < 16
    → to_lower (digit a ∷ digit b ∷ digit c ∷ []) ≡ digit a ∷ digit b ∷ digit c ∷ []
to_lower-digits a b c ha hb hc =
    rw
      (
        to_lower-digit a (digit b ∷ digit c ∷ []) ha,
        to_lower-digit b (digit c ∷ []) hb,
        to_lower-digit c [] hc,
      )
      (unfold to_lower in refl)

not_zero : (z : ℤ) → z ≢ pos 0 → eq_ℤ z (pos 0) ≡ false
not_zero z h = elim (Bool-cases (eq_ℤ z (pos 0))) [
  | inl e ↦ absurd (h (eq_ℤ-sound z (pos 0) e))
  | inr e ↦ e
]

dispatched :
    (cfg : Config) (hi : HistoryIndex) (char : Bytes)
    → 64 ≤ length hi.hash
    → hi.offset ≢ pos 0
    → to_lower (take cfg.cut_char hi.hash) ≡ char
    → hash_db_index cfg (some hi) ≡ to_worker (chars_map cfg.dbs char)
unfolding hash_db_index
dispatched cfg hi char long offset e =
    rw (le→ltb (length hi.hash) 64 long, not_zero hi.offset offset, e)

-- With three characters cut and the prefixes of BootHistory, hashDB_Index sends a request, whose hash
-- has at least 64 bytes and begins with three hexadecimal digits and whose offset is not 0, to the
-- worker whose prefix is the first three bytes of the hash.
pub routed :
    (cfg : Config) (hi : HistoryIndex) (a b c : ℕ)
    → cfg.cut_char ≡ 3
    → cfg.dbs ≡ rootdbs
    → HasPrefix a b c hi.hash
    → 64 ≤ length hi.hash
    → hi.offset ≢ pos 0
    → (i : ℕ) × (hash_db_index cfg (some hi) ≡ to_worker i)
      × (get_elem? rootdbs i ≡ some (take 3 hi.hash))
routed cfg hi a b c cut dbs p long offset =
    let digits = digit a ∷ digit b ∷ digit c ∷ [] in
    let prefix : take 3 hi.hash ≡ digits = ap (take 3) p.spelled in
    let lower : to_lower (take cfg.cut_char hi.hash) ≡ digits =
      ap (λ n. to_lower (take n hi.hash)) cut
      ∙ ap to_lower prefix
      ∙ to_lower-digits a b c p.first p.second p.third in
    (
      chars_map rootdbs digits,
      dispatched cfg hi digits long offset lower ∙ ap (λ l. to_worker (chars_map l digits)) dbs,
      get_elem?-chars_map rootdbs digits (Elem-rootdbs a b c p.first p.second p.third)
          ∙ ap some (sym prefix),
    )
