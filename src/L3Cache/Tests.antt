-- ===== src/L3Cache/Tests.antt =====
-- A cache booted before ROOTDBS is filled, and a boot over prefixes of three digits.
use nntp_history.Prelude.{
  ◌≢◌, true, false, List, [], ◌∷◌, ◌++◌, some, ◌≡◌, refl, arith, Bytes, codes, ok, panic, length,
  All, inl, inr, Elem,
}
use nntp_history.Prelude.Int.{ℤ, pos}
use nntp_history.RootDbs.{hexchars}
use nntp_history.L3Cache.{L3Cache, append_new, reversed, set_offsets, get_offsets, boot_l3_cache}
use nntp_history.L3Cache.Merge.{IsDistinct, IsNew, append_new_lem}
use nntp_history.L3Cache.Recall.{offsets_are_merged}
use nntp_history.L3Cache.Boot.{boot_panics}

abbrev key_a : Bytes
key_a = codes "a123456"

a_listed : Elem (codes "a") hexchars
a_listed = inr (inr (inr (inr (inr (inr (inr (inr (inr (inr (inl refl))))))))))

offsets_are_merged_example :
    (l0 : L3Cache) × (l1 : L3Cache) × (l2 : L3Cache) × (more : List ℤ) × (boot_l3_cache true 0 []
      ≡ ok l0)
    × (set_offsets 7 key_a (codes "a") (some (pos 4096 ∷ [])) true l0 ≡ ok l1)
    × (get_offsets key_a (codes "a") l1 ≡ ok (pos 4096 ∷ []))
    × (set_offsets 8 key_a (codes "a") (some (pos 4096 ∷ pos 4198 ∷ [])) false l1 ≡ ok l2)
    × (get_offsets key_a (codes "a") l2 ≡ ok ((pos 4096 ∷ []) ++ more))
    × IsDistinct ((pos 4096 ∷ []) ++ more)
    × All (IsNew (reversed (pos 4096 ∷ pos 4198 ∷ []))) more
offsets_are_merged_example =
    offsets_are_merged 7 8 0 key_a (codes "a") (pos 4096) [] (pos 4096 ∷ pos 4198 ∷ []) true false
      a_listed (omega arith) (λ h. h, tt)

append_new_lem_example :
    (more : List ℤ) × (append_new (pos 4198 ∷ pos 0 ∷ []) (pos 4096 ∷ []) ≡ (pos 4096 ∷ []) ++ more)
    × IsDistinct ((pos 4096 ∷ []) ++ more)
    × All (IsNew (pos 4198 ∷ pos 0 ∷ [])) more
append_new_lem_example = append_new_lem (pos 4198 ∷ pos 0 ∷ []) (pos 4096 ∷ []) (λ h. h, tt)

three_long : length (codes "000") ≢ 1
three_long e = ground arith

boot_panics_example : boot_l3_cache true 3 (codes "000" ∷ codes "001" ∷ []) ≡ panic
boot_panics_example =
    boot_panics 3 (codes "000" ∷ codes "001" ∷ []) (codes "000") (inl refl) three_long
