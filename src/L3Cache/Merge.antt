-- ===== src/L3Cache/Merge.antt =====
-- What merging does to the offsets of a key.
use nntp_history.Prelude.{
  true, false, List, [], ◌∷◌, ◌++◌, append_assoc, append-nil, ◌≡◌, ◌⊎◌, inl, inr, refl, sym, ◌∙◌,
  arith, Bool-cases, Elem, All, All-map,
}
use nntp_history.Prelude.Int.{ℤ, pos, ltb_ℤ, eq_ℤ}
use nntp_history.L3Cache.{value_exists_in_slice_reverse_order, append_new}

-- No offset twice.
abbrev pub IsDistinct : List ℤ → Type 0
IsDistinct [] = Unit
IsDistinct (x ∷ xs) = (¬ (Elem x xs)) × IsDistinct xs

eq_ℤ_refl : (x : ℤ) → eq_ℤ x x ≡ true
eq_ℤ_refl x = ground arith

exists-Elem : (v : ℤ) (l : List ℤ) → Elem v l → value_exists_in_slice_reverse_order v l ≡ true
unfolding value_exists_in_slice_reverse_order
exists-Elem v [] h = absurd h
exists-Elem v (x ∷ l) (inl e) = rw e (elim (Bool-cases (value_exists_in_slice_reverse_order v l)) [
  | inl b ↦ rw b
  | inr b ↦ rw b (eq_ℤ_refl v)
])
exists-Elem v (x ∷ l) (inr h) = rw (exists-Elem v l h)

-- An offset that the search does not find is not there.
not-Elem : (v : ℤ) (l : List ℤ) → value_exists_in_slice_reverse_order v l ≡ false → ¬ (Elem v l)
not-Elem v l e h = cc (e, exists-Elem v l h)

Elem-snoc : (x v : ℤ) (l : List ℤ) → Elem x (l ++ v ∷ []) → Elem x l ⊎ (v ≡ x)
Elem-snoc x v [] (inl e) = inr e
Elem-snoc x v [] (inr h) = absurd h
Elem-snoc x v (y ∷ l) (inl e) = inl (inl e)
Elem-snoc x v (y ∷ l) (inr h) = elim (Elem-snoc x v l h) [
  | inl there ↦ inl (inr there)
  | inr e ↦ inr e
]

IsDistinct-snoc : (v : ℤ) (l : List ℤ) → ¬ (Elem v l) → IsDistinct l → IsDistinct (l ++ v ∷ [])
IsDistinct-snoc v [] apart d = (λ h. h, tt)
IsDistinct-snoc v (x ∷ l) apart (new, d) = (
  λ h. elim (Elem-snoc x v l h) [ inl there ↦ new there | inr e ↦ apart (inl (sym e)) ],
  IsDistinct-snoc v l (λ h. apart (inr h)) d,
)

-- An offset of a list that is positive.
abbrev pub IsNew : List ℤ → ℤ → Type 0
IsNew news x = (ltb_ℤ (pos 0) x ≡ true) × Elem x news

-- The loop of SetOffsets over new offsets, on cached offsets with none twice, appends some of the new
-- ones behind them: each of those is positive, and none of all the offsets is there twice afterwards.
pub append_new_lem :
    (news cached : List ℤ)
    → IsDistinct cached
    → (more : List ℤ) × (append_new news cached ≡ cached ++ more)
      × IsDistinct (cached ++ more)
      × All (IsNew news) more
unfolding append_new
append_new_lem [] cached d = ([], sym (append-nil cached), rw (append-nil cached) d, tt)
append_new_lem (v ∷ news) cached d = elim (Bool-cases (ltb_ℤ (pos 0) v)) [
  | inr bad ↦
      let (more, e, distinct, from) = append_new_lem news cached d in
      (
        more,
        rw bad e,
        distinct,
        All-map (IsNew news) (IsNew (v ∷ news)) more (λ x h. (h.0, inr h.1)) from,
      )
  | inl good ↦ elim (Bool-cases (value_exists_in_slice_reverse_order v cached)) [
    | inl known ↦ ([], rw (good, known) (sym (append-nil cached)), rw (append-nil cached) d, tt)
    | inr fresh ↦
        let (more, e, distinct, from) =
          append_new_lem news (cached ++ v ∷ [])
            (IsDistinct-snoc v cached (not-Elem v cached fresh) d) in
        (
          v ∷ more,
          rw (good, fresh) (e ∙ append_assoc cached (v ∷ []) more),
          rw (← append_assoc cached (v ∷ []) more) distinct,
          (
            (good, inl refl),
            All-map (IsNew news) (IsNew (v ∷ news)) more (λ x h. (h.0, inr h.1)) from,
          ),
        )
  ]
]
