-- ===== src/Text/Parts.antt =====
-- `Split`, `Join`, `ReadString` and `Replace` on byte lists.
use nntp_history.Prelude.{
  ℕ, true, false, List, [], ◌∷◌, ◌++◌, append-nil, append_assoc, Option, none, some, ◌≡◌, ◌≢◌, refl,
  arith, Bytes, Lacks, All, ◌==◌, if◌then◌else◌,
}

module _ (sep : ℕ) where
  -- The parts of a text, with the part that is being read.
  cut : Bytes → Bytes → List Bytes
  cut cur [] = cur ∷ []
  cut cur (c ∷ s) = elim (c == sep) [ true ↦ cur ∷ cut [] s | false ↦ cut (cur ++ c ∷ []) s ]

  cut-append :
      (p cur rest : Bytes) → Lacks sep p → cut cur (p ++ sep ∷ rest) ≡ (cur ++ p) ∷ cut [] rest
  unfolding cut
  cut-append [] cur rest h = ground (arith, append-nil cur)
  cut-append (c ∷ p) cur rest h =
      ground (arith, cut-append p (cur ++ c ∷ []) rest h.1, append_assoc cur (c ∷ []) p)

  cut_last : (p cur : Bytes) → Lacks sep p → cut cur p ≡ (cur ++ p) ∷ []
  unfolding cut
  cut_last [] cur h = ground (arith, append-nil cur)
  cut_last (c ∷ p) cur h =
      ground (arith, cut_last p (cur ++ c ∷ []) h.1, append_assoc cur (c ∷ []) p)

-- strings.Split(s, sep)
unfoldable pub split : ℕ → Bytes → List Bytes
unfolding cut
split sep s = cut sep [] s

-- strings.Join(parts, sep)
unfoldable pub join : ℕ → List Bytes → Bytes
join sep [] = []
join sep (p ∷ []) = p
join sep (p ∷ q ∷ ps) = p ++ sep ∷ join sep (q ∷ ps)

-- A separator behind every part leaves an empty part at the end.
unfoldable pub terminated : ℕ → List Bytes → Bytes
terminated sep [] = []
terminated sep (p ∷ ps) = p ++ sep ∷ terminated sep ps

pub split-terminated :
    (sep : ℕ) (ps : List Bytes) → All (Lacks sep) ps → split sep (terminated sep ps) ≡ ps ++ [] ∷ []
unfolding split terminated
split-terminated sep [] h = unfold cut in refl
split-terminated sep (p ∷ ps) h =
    rw (cut-append sep p [] (terminated sep ps) h.0, split-terminated sep ps h.1)

pub join-terminated :
    (sep : ℕ) (ps : List Bytes) → ps ≢ [] → join sep ps ++ sep ∷ [] ≡ terminated sep ps
unfolding join terminated
join-terminated sep [] h = absurd (h refl)
join-terminated sep (p ∷ []) h = refl
join-terminated sep (p ∷ q ∷ ps) h =
    rw (append_assoc p (sep ∷ join sep (q ∷ ps)) (sep ∷ []), join-terminated sep (q ∷ ps) (cc))

pub split-join :
    (sep : ℕ) (ps : List Bytes) → ps ≢ [] → All (Lacks sep) ps → split sep (join sep ps) ≡ ps
unfolding split join
split-join sep [] h hs = absurd (h refl)
split-join sep (p ∷ []) h hs = cut_last sep p [] hs.0
split-join sep (p ∷ q ∷ ps) h hs =
    rw (cut-append sep p [] (join sep (q ∷ ps)) hs.0, split-join sep (q ∷ ps) (cc) hs.1)

-- `ReadString(c)` with the delimiter trimmed off; `none` at the end of the file.
unfoldable pub until : ℕ → Bytes → Option Bytes
until d [] = none
until d (c ∷ s) =
    let rest = until d s in
    if c == d then some [] else elim rest [ none ↦ none | some r ↦ some (c ∷ r) ]

pub until-append : (d : ℕ) (s rest : Bytes) → Lacks d s → until d (s ++ d ∷ rest) ≡ some s
unfolding until
until-append d [] rest h = ground arith
until-append d (c ∷ s) rest h = ground (arith, until-append d s rest h.1)

-- strings.Replace(s, c, "", -1)
unfoldable pub remove : ℕ → Bytes → Bytes
remove d [] = []
remove d (c ∷ s) = if c == d then remove d s else c ∷ remove d s

pub All-remove : (d : ℕ) (s : Bytes) → Lacks d (remove d s)
unfolding remove
All-remove d [] = tt
All-remove d (c ∷ s) = ground (arith, All-remove d s)

pub remove-eq : (d : ℕ) (s : Bytes) → Lacks d s → remove d s ≡ s
unfolding remove
remove-eq d [] h = refl
remove-eq d (c ∷ s) h = ground (arith, remove-eq d s h.1)
