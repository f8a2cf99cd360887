-- ===== src/HashEnc/Padding.antt =====
-- Padding a header and taking the padding off.
use nntp_history.Prelude.{
  ℕ, zero, suc, ◌-◌, [], ◌∷◌, ◌++◌, append-nil, ◌≡◌, refl, arith, Bytes, ltb, length, replicate,
  Lacks, length-append, length-replicate, Bool-cases, inl, inr, ltb→lt, ltb→le, All-append,
  All-replicate, ◌≢◌, sym,
}
use Prim.Native.Nat.{max}
use nntp_history.Text.{remove, remove-eq}
use nntp_history.HashEnc.{left_pad, null_pad, remove_null_pad}

remove-append : (d : ℕ) (s t : Bytes) → remove d (s ++ t) ≡ remove d s ++ remove d t
unfolding remove
remove-append d [] t = refl
remove-append d (c ∷ s) t = ground (arith, remove-append d s t)

remove-replicate : (d n : ℕ) → remove d (replicate n d) ≡ []
unfolding remove
remove-replicate d zero = refl
remove-replicate d (suc n) = ground (arith, remove-replicate d n)

-- Padding a text that holds no NUL, in front or behind, and removing the NULs gives the text, and the
-- padded text is as long as asked for, or as the text where that is longer.
pub remove_null_pad-pad :
    (s : Bytes) (n : ℕ)
    → Lacks 0 s
    → (remove_null_pad (null_pad s n) ≡ s)
      × (remove_null_pad (left_pad s n) ≡ s)
      × (length (null_pad s n) ≡ max n (length s))
      × (length (left_pad s n) ≡ max n (length s))
unfolding null_pad left_pad remove_null_pad
remove_null_pad-pad s n h = elim (Bool-cases (ltb (length s) n)) [
  | inl short ↦ rw short (
    rw (remove-append 0 s (replicate (n - length s) 0), remove-replicate, remove-eq 0 s h)
        (append-nil s),
    rw (remove-append 0 (replicate (n - length s) 0) s, remove-replicate, remove-eq 0 s h),
    omega (
      arith,
      length-append s (replicate (n - length s) 0),
      length-replicate {A = ℕ} (n - length s) 0,
      ltb→lt (length s) n short,
    ),
    omega (
      arith,
      length-append (replicate (n - length s) 0) s,
      length-replicate {A = ℕ} (n - length s) 0,
      ltb→lt (length s) n short,
    ),
  )
  | inr long ↦ rw long (
    remove-eq 0 s h,
    remove-eq 0 s h,
    omega (arith, ltb→le (length s) n long),
    omega (arith, ltb→le (length s) n long),
  )
]

-- A padded text holds the bytes of the text and NULs.
pub null_pad-Lacks : (d n : ℕ) (s : Bytes) → d ≢ 0 → Lacks d s → Lacks d (null_pad s n)
unfolding null_pad
null_pad-Lacks d n s apart h = elim (Bool-cases (ltb (length s) n)) [
  | inl short ↦ rw short (
      All-append _ s (replicate (n - length s) 0) h
        (All-replicate _ (n - length s) 0 (λ e. apart (sym e))))
  | inr long ↦ rw long h
]
