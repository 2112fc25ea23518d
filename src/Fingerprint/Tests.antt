-- ===== src/Fingerprint/Tests.antt =====
-- core/fingerprint.py at fixed inputs, and instances of what is proved.
use mediaferry.Fingerprint.Windows.{Spaced, window_offsets-Spaced}
use mediaferry.Fingerprint.{window_bytes, window_count, distinct, window_offsets, quick_fingerprint}
use mediaferry.Base.Sort.{sort_by, place}
use mediaferry.Base.{◌-◌, ◌≡◌, refl, some, [], ◌∷◌, arith, length, get_elem?}

offsets_test :
    window_offsets 2_000_000
    ≡ 0 ∷ 128_964 ∷ 257_929 ∷ 386_893 ∷ 515_857 ∷ 644_821 ∷ 773_786 ∷ 902_750 ∷ 1_031_714
      ∷ 1_160_678 ∷ 1_289_643 ∷ 1_418_607 ∷ 1_547_571 ∷ 1_676_535 ∷ 1_805_500 ∷ 1_934_464 ∷ []
unfolding window_offsets sort_by place distinct
offsets_test = refl

fingerprint_test :
    quick_fingerprint (7 ∷ 8 ∷ []) 2
    ≡ some (b'm' ∷ b'f' ∷ b'q' ∷ 1 ∷ 2 ∷ 0 ∷ 0 ∷ 0 ∷ 0 ∷ 0 ∷ 0 ∷ 0 ∷ 7 ∷ 8 ∷ [])
unfolding quick_fingerprint window_offsets
fingerprint_test = refl

window_offsets-Spaced_example :
    Spaced (window_offsets 2_000_000)
    × (length (window_offsets 2_000_000) ≡ window_count)
    × (get_elem? (window_offsets 2_000_000) 0 ≡ some 0)
    × (get_elem? (window_offsets 2_000_000) 15 ≡ some (2_000_000 - window_bytes))
window_offsets-Spaced_example = window_offsets-Spaced 2_000_000 (omega arith)
