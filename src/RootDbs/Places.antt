-- ===== src/RootDbs/Places.antt =====
-- The places of the prefixes: charsMap against ROOTDBS.
use nntp_history.Prelude.{
  ℕ, zero, suc, ◌+◌, ◌<◌, Bool, true, false, List, [], ◌∷◌, ◌++◌, some, ◌≡◌, refl, ap, ◌∙◌, ◌⊎◌,
  inl, inr, arith, Bytes, Elem, Elem-append_left, Elem-append_right, get_elem?, eq_bytes,
  eq_bytes_sound, eq_bytes_refl, Bool-cases, if◌then◌else◌,
}
use nntp_history.Text.Number.{digit}
use nntp_history.Shard.Names.{succeeds_under, succeeds_under_lt}
use nntp_history.RootDbs.{
  cut_char_of, num_cache_dbs, hexchars, each_char, generate_combinations, rootdbs, chars_map,
  chars_map_from,
}

-- What the loop of hashDB_Init finds from a place on: nothing new, or a place of the prefix.
found_or_place :
    (i found : ℕ) (dbs : List Bytes) (char : Bytes)
    → (chars_map_from i found dbs char ≡ found)
      ⊎ ((j : ℕ) × (chars_map_from i found dbs char ≡ i + j) × (get_elem? dbs j ≡ some char))
unfolding chars_map_from
found_or_place i found [] char = inl refl
found_or_place i found (db ∷ dbs) char = elim (Bool-cases (eq_bytes db char)) [
  | inl same ↦ rw same (elim (found_or_place (i + 1) i dbs char) [
    | inl e ↦ inr (0, e ∙ omega arith, ap some (eq_bytes_sound db char same))
    | inr (j, e, g) ↦ inr (suc j, e ∙ omega arith, g)
  ])
  | inr other ↦ rw other (elim (found_or_place (i + 1) found dbs char) [
    | inl e ↦ inl e
    | inr (j, e, g) ↦ inr (suc j, e ∙ omega arith, g)
  ])
]

place :
    (i found : ℕ) (dbs : List Bytes) (char : Bytes)
    → Elem char dbs
    → (j : ℕ) × (chars_map_from i found dbs char ≡ i + j) × (get_elem? dbs j ≡ some char)
unfolding chars_map_from
place i found [] char h = elim h [ ]
place i found (db ∷ dbs) char (inl same) = rw same (
    rw (eq_bytes_refl char) (elim (found_or_place (i + 1) i dbs char) [
      | inl e ↦ (0, e ∙ omega arith, refl)
      | inr (j, e, g) ↦ (suc j, e ∙ omega arith, g)
    ]))
place i found (db ∷ dbs) char (inr h) =
    let (j, e, g) = place (i + 1) (if eq_bytes db char then i else found) dbs char h in
    (suc j, e ∙ omega arith, g)

zero_add : (j : ℕ) → 0 + j ≡ j
zero_add j = omega arith

-- charsMap sends a prefix that occurs to a place where it stands.
pub get_elem?-chars_map :
    (dbs : List Bytes) (char : Bytes)
    → Elem char dbs
    → get_elem? dbs (chars_map dbs char) ≡ some char
unfolding chars_map
get_elem?-chars_map dbs char h = let (j, e, g) = place 0 0 dbs char h in rw (e ∙ zero_add j) g

-- A combination that is there stays there.
keeps_each :
    (deeper : Bytes → List Bytes → List Bytes) (x : Bytes)
    → ((c : Bytes) (done : List Bytes) → Elem x done → Elem x (deeper c done))
    → (chars : List Bytes) (current : Bytes) (combinations : List Bytes) → Elem x combinations
    → Elem x (each_char deeper chars current combinations)
unfolding each_char
keeps_each deeper x keep [] current combinations h = h
keeps_each deeper x keep (char ∷ chars) current combinations h =
    keeps_each deeper x keep chars current (deeper (current ++ char) combinations)
      (keep (current ++ char) combinations h)

keeps :
    (chars : List Bytes) (x : Bytes) (missing : ℕ) (current : Bytes) (combinations : List Bytes)
    → Elem x combinations
    → Elem x (generate_combinations chars missing current combinations)
unfolding generate_combinations
keeps chars x zero current combinations h = Elem-append_left x combinations (current ∷ []) h
keeps chars x (suc missing) current combinations h =
    keeps_each (generate_combinations chars missing) x (keeps chars x missing) chars current
      combinations h

-- What a call one longer adds for one of the characters is added.
adds_each :
    (deeper : Bytes → List Bytes → List Bytes) (x char : Bytes)
    → ((c : Bytes) (done : List Bytes) → Elem x done → Elem x (deeper c done))
    → (chars : List Bytes) (current : Bytes) (combinations : List Bytes) → Elem char chars
    → ((done : List Bytes) → Elem x (deeper (current ++ char) done))
    → Elem x (each_char deeper chars current combinations)
unfolding each_char
adds_each deeper x char keep [] current combinations h add = elim h [ ]
adds_each deeper x char keep (d ∷ chars) current combinations (inl e) add =
    keeps_each deeper x keep chars current (deeper (current ++ d) combinations)
      (rw e (add combinations))
adds_each deeper x char keep (d ∷ chars) current combinations (inr h) add =
    adds_each deeper x char keep chars current (deeper (current ++ d) combinations) h add

adds :
    (chars : List Bytes) (x char : Bytes) (missing : ℕ) (current : Bytes)
    (combinations : List Bytes)
    → Elem char chars
    → ((done : List Bytes) → Elem x (generate_combinations chars missing (current ++ char) done))
    → Elem x (generate_combinations chars (suc missing) current combinations)
unfolding generate_combinations
adds chars x char missing current combinations h add =
    adds_each (generate_combinations chars missing) x char (keeps chars x missing) chars current
      combinations h add

ends_with :
    (chars : List Bytes) (x : Bytes) (done : List Bytes)
    → Elem x (generate_combinations chars 0 x done)
unfolding generate_combinations
ends_with chars x done = Elem-append_right x done (x ∷ []) (inl refl)

has_text : Bytes → List Bytes → Bool
has_text x [] = false
has_text x (y ∷ ys) = let rest = has_text x ys in if eq_bytes y x then true else rest

has_text_sound : (x : Bytes) (ys : List Bytes) → has_text x ys ≡ true → Elem x ys
unfolding has_text
has_text_sound x [] h = cc
has_text_sound x (y ∷ ys) h = elim (Bool-cases (eq_bytes y x)) [
  | inl same ↦ inl (eq_bytes_sound y x same)
  | inr other ↦ inr (has_text_sound x ys (rw other at h))
]

hexchars_table : succeeds_under (λ d. has_text (digit d ∷ []) hexchars) 16 ≡ true
unfolding succeeds_under has_text digit eq_bytes
hexchars_table = refl

Elem-hexchars : (d : ℕ) → d < 16 → Elem (digit d ∷ []) hexchars
Elem-hexchars d h = has_text_sound _ _ (succeeds_under_lt _ 16 d h hexchars_table)

-- Every three hexadecimal digits stand in ROOTDBS.
pub Elem-rootdbs :
    (a b c : ℕ) → a < 16 → b < 16 → c < 16 → Elem (digit a ∷ digit b ∷ digit c ∷ []) rootdbs
unfolding rootdbs
Elem-rootdbs a b c ha hb hc =
    let x = digit a ∷ digit b ∷ digit c ∷ [] in
    adds hexchars x (digit a ∷ []) 2 [] [] (Elem-hexchars a ha) λ done.
      adds hexchars x (digit b ∷ []) 1 (digit a ∷ []) done (Elem-hexchars b hb) λ done'.
        adds hexchars x (digit c ∷ []) 0 (digit a ∷ digit b ∷ []) done' (Elem-hexchars c hc)
          (ends_with hexchars x)

pub cut_char_of-num_cache_dbs : cut_char_of num_cache_dbs ≡ some 3
unfolding cut_char_of
cut_char_of-num_cache_dbs = refl

pub rootdbs_lem : generate_combinations hexchars 3 [] [] ≡ rootdbs
unfolding rootdbs
rootdbs_lem = refl
