-- ===== src/RootDbs/Tests.antt =====
-- Combinations of two characters.
use nntp_history.Prelude.{[], ◌∷◌, ◌≡◌, refl, codes}
use nntp_history.RootDbs.{generate_combinations, each_char}

two_of_two :
    generate_combinations (codes "0" ∷ codes "f" ∷ []) 2 [] []
    ≡ codes "00" ∷ codes "0f" ∷ codes "f0" ∷ codes "ff" ∷ []
unfolding generate_combinations each_char
two_of_two = refl
