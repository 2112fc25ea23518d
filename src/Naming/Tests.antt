-- ===== src/Naming/Tests.antt =====
-- core/naming.py at fixed inputs, and instances of what is proved.
use mediaferry.Naming.{
  split, join, safe_source_rel_path, library_rel_path, digits, str_int, tag, candidate_paths,
}
use mediaferry.Naming.Paths.{IsSafePart, library_rel_path-IsPlaced}
use mediaferry.Naming.Candidates.{candidate_paths-injective}
use mediaferry.Text.{codes, last_dot, has_stem, splitext}
use mediaferry.Base.{ℕ, ◌+◌, ◌≡◌, refl, none, ◌∷◌, arith, All}

candidates_test :
    candidate_paths (codes "library/a7/IMG.tar.gz") (codes "2024") (codes "0123456789") 11
    ≡ codes "library/a7/IMG.tar_2024_01234567_10.gz"
unfolding candidate_paths split join tag splitext str_int digits last_dot has_stem
candidates_test = refl

a7-IsSafePart : IsSafePart (codes "a7")
a7-IsSafePart = ((λ h. cc), (λ h. cc), (λ h. ground (arith, h)), refl, refl, refl)

img-IsSafePart : IsSafePart (codes "IMG.gz")
img-IsSafePart = ((λ h. cc), (λ h. cc), (λ h. ground (arith, h)), refl, refl, refl)

refused_test : library_rel_path (codes "original") (codes "a7") (codes "DCIM/../x") ≡ none
unfolding library_rel_path safe_source_rel_path split
refused_test = refl

library_rel_path-IsPlaced_example :
    (split (codes "library/a7/IMG.gz") ≡ codes "library" ∷ codes "a7" ∷ split (codes "IMG.gz"))
    × All IsSafePart (split (codes "library/a7/IMG.gz"))
unfolding library_rel_path safe_source_rel_path split join
library_rel_path-IsPlaced_example =
    library_rel_path-IsPlaced (codes "original") (codes "a7") (codes "IMG.gz") a7-IsSafePart

candidate_paths-injective_example : ◌≡◌ {A = ℕ} 4 (2 + 2)
unfolding split
candidate_paths-injective_example =
    candidate_paths-injective (codes "a7/IMG.gz") (codes "2024") (codes "01")
      (a7-IsSafePart, (img-IsSafePart, tt)) 4 (2 + 2) refl
