-- ===== src/L3Cache/Boot.antt =====
-- Booting over prefixes that are no single hexadecimal digit.
use nntp_history.Prelude.{
  ℕ, true, false, List, [], ◌∷◌, none, some, Option, ◌≡◌, ◌≢◌, refl, arith, Bytes, panic, length,
  All, Elem, inl, inr, eq_bytes, eq_bytes_sound, if◌then◌else◌, Bool-cases, ap, ◌∙◌,
}
use nntp_history.RootDbs.{hexchars}
use nntp_history.L3Cache.{Shard, listed, start_all, empty_shard, boot_l3_cache}

-- Listed among texts of one byte is only a text of one byte.
listed_single :
    (c : Bytes) (l : List Bytes) → All (λ d. length d ≡ 1) l → length c ≢ 1 → listed c l ≡ false
unfolding listed
listed_single c [] single long = refl
listed_single c (d ∷ l) single long = elim (Bool-cases (eq_bytes c d)) [
  | inl same ↦ absurd (long (ap (length {A = ℕ}) (eq_bytes_sound c d same) ∙ single.0))
  | inr apart ↦ rw (apart, listed_single c l single.1 long)
]

start_all-panics :
    (shards : Bytes → Option Shard) (chars : List Bytes) (c : Bytes)
    → Elem c chars
    → shards c ≡ none
    → start_all shards chars ≡ false
unfolding start_all
start_all-panics shards [] c h e = absurd h
start_all-panics shards (d ∷ chars) c (inl p) e = rw (p, e, start_all)
start_all-panics shards (d ∷ chars) c (inr h) e =
    ground (arith, start_all-panics shards chars c h e)

pub hexchars_single : All (λ d. length d ≡ 1) hexchars
hexchars_single = (
  refl,
  (
    refl,
    (
      refl,
      (
        refl,
        (
          refl,
          (
            refl,
            (refl, (refl, (refl, (refl, (refl, (refl, (refl, (refl, (refl, (refl, tt)))))))))),
          ),
        ),
      ),
    ),
  ),
)

-- BootL3Cache, with the cache on, ends the program when ROOTDBS has a prefix that is not of one byte:
-- its goroutines find no shard.
pub boot_panics :
    (cut_char : ℕ) (rootdbs : List Bytes) (c : Bytes)
    → Elem c rootdbs
    → length c ≢ 1
    → boot_l3_cache true cut_char rootdbs ≡ panic
unfolding boot_l3_cache
boot_panics cut_char rootdbs c h long = rw (
    start_all-panics (λ k. if listed k hexchars then some empty_shard else none) rootdbs c h
      (rw (listed_single c hexchars hexchars_single long)))
