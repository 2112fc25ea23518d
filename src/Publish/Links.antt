-- ===== src/Publish/Links.antt =====
-- publisher.py, `_link`: the loop over the names ends, since only so many of them can be taken.
use mediaferry.Publish.Steps.{with_row, is_same_content, link_loop}
use mediaferry.Publish.{
  Fate, goes, Step, File, look, unlink, Facts, staged, Staging, World, Outcome, returned, raised,
  died,
}
use mediaferry.Text.{Text, text_eq, text_eq_iff}
use mediaferry.Base.{
  ℕ, zero, suc, ◌≤◌, ◌<◌, ◌≡◌, refl, ap, ◌≢◌, ◌⊎◌, inl, inr, true, false, not, none, some, List, [],
  ◌∷◌, arith, if◌then◌else◌, Bool-cases, Option-cases, length, keep, All, Apart,
}

pub look-unlink :
    (p q : Text) (fs : List File) → look p (unlink q fs) ≡ (if text_eq q p then none else look p fs)
look-unlink p q [] = ground arith
look-unlink p q (f ∷ fs) =
    ground (arith, look-unlink p q fs, text_eq_iff f.path q, text_eq_iff f.path p, text_eq_iff q p)

module _ (names : ℕ → Text) where
  abbrev IsTaken : List File → ℕ → Type 0
  IsTaken fs j = look (names j) fs ≢ none

  abbrev spared : Text → List ℕ → List ℕ
  spared path = keep (λ (j : ℕ). not (text_eq path (names j)))

  -- Distinct names, all taken, are no more than the files.
  spared_whole :
      (path : Text) (js : List ℕ)
      → All (λ j. text_eq path (names j) ≡ false) js
      → spared path js ≡ js
  spared_whole path [] h = refl
  spared_whole path (j ∷ js) h = ground (arith, h.0, spared_whole path js h.1)

  others :
      ((m n : ℕ) → names m ≡ names n → m ≡ n)
      → (path : Text) (j : ℕ) (js : List ℕ) → text_eq path (names j) ≡ true
      → All (λ k. j ≢ k) js
      → All (λ k. text_eq path (names k) ≡ false) js
  others inj path j [] e h = tt
  others inj path j (k ∷ js) e h = (
    ground (arith, h.0, inj j k, text_eq_iff path (names j), text_eq_iff path (names k)),
    others inj path j js e h.1,
  )

  length-spared :
      ((m n : ℕ) → names m ≡ names n → m ≡ n)
      → (path : Text) (js : List ℕ) → Apart (λ j. j) js
      → length js ≤ suc (length (spared path js))
  length-spared inj path [] a = omega arith
  length-spared inj path (j ∷ js) a = elim (Bool-cases (text_eq path (names j))) [
    | inl e ↦ ground (arith, e, spared_whole path js (others inj path j js e a.0))
    | inr e ↦ ground (arith, e, length-spared inj path js a.1)
  ]

  keep-All : (P : ℕ → Type 0) (path : Text) (js : List ℕ) → All P js → All P (spared path js)
  keep-All P path [] h = tt
  keep-All P path (j ∷ js) h = elim (Bool-cases (text_eq path (names j))) [
    | inl e ↦ rw e (keep-All P path js h.1)
    | inr e ↦ rw e (h.0, keep-All P path js h.1)
  ]

  spared-Apart : (path : Text) (js : List ℕ) → Apart (λ j. j) js → Apart (λ j. j) (spared path js)
  spared-Apart path [] a = tt
  spared-Apart path (j ∷ js) a = elim (Bool-cases (text_eq path (names j))) [
    | inl e ↦ rw e (spared-Apart path js a.1)
    | inr e ↦ rw e (keep-All (λ k. j ≢ k) path js a.0, spared-Apart path js a.1)
  ]

  spared-IsTaken :
      (f : File) (fs : List File) (js : List ℕ)
      → All (IsTaken (f ∷ fs)) js
      → All (IsTaken fs) (spared f.path js)
  spared-IsTaken f fs [] h = tt
  spared-IsTaken f fs (j ∷ js) h = elim (Bool-cases (text_eq f.path (names j))) [
    | inl e ↦ rw e (spared-IsTaken f fs js h.1)
    | inr e ↦ rw e ((λ n. h.0 (ground (arith, e, n))), spared-IsTaken f fs js h.1)
  ]

  length-IsTaken :
      ((m n : ℕ) → names m ≡ names n → m ≡ n)
      → (fs : List File) (js : List ℕ) → Apart (λ j. j) js
      → All (IsTaken fs) js
      → length js ≤ length fs
  length-IsTaken inj [] [] a h = omega arith
  length-IsTaken inj [] (j ∷ js) a h = absurd (h.0 refl)
  length-IsTaken inj (f ∷ fs) js a h = omega (
    arith,
    length-spared inj f.path js a,
    length-IsTaken inj fs (spared f.path js) (spared-Apart f.path js a) (spared-IsTaken f fs js h),
  )

abbrev up_from : ℕ → ℕ → List ℕ
up_from i zero = []
up_from i (suc n) = i ∷ up_from (suc i) n

length-up_from : (i n : ℕ) → length (up_from i n) ≡ n
length-up_from i zero = refl
length-up_from i (suc n) = ap suc (length-up_from (suc i) n)

up_from-above : (i k n : ℕ) → i < k → All (λ j. i ≢ j) (up_from k n)
up_from-above i k zero h = tt
up_from-above i k (suc n) h = ((λ e. omega arith), up_from-above i (suc k) n (omega arith))

up_from-Apart : (i n : ℕ) → Apart (λ j. j) (up_from i n)
up_from-Apart i zero = tt
up_from-Apart i (suc n) = (up_from-above i (suc i) n (omega arith), up_from-Apart (suc i) n)

-- The process goes on, and nothing breaks.
abbrev pub lives : Step → Fate
lives step = goes

abbrev pub HasReturned : {A : Type 0} → Outcome A → Type 0
HasReturned (returned a w) = Unit
HasReturned (raised e w) = ⊥
HasReturned (died w) = ⊥

module _ (sha1_of : Text → Text) where
  -- Either all the names that it tries are taken, or it gets through.
  link_loop-cases :
      (fuel : ℕ) (names : ℕ → Text) (i : ℕ) (content : Text) (row : Staging) (facts : Facts)
      (w : World)
      → facts.final_rel_path ≡ names i
      → All (IsTaken names w.files) (up_from i fuel)
        ⊎ HasReturned (link_loop sha1_of lives fuel names i content row facts w)
  unfolding link_loop
  link_loop-cases zero names i content row facts w e = inl tt
  link_loop-cases (suc fuel) names i content row facts w e =
      elim (Option-cases (look facts.final_rel_path w.files)) [
        | inl n ↦ inr (rw n tt)
        | inr (c, n) ↦
            let next : Facts = record facts { final_rel_path = names (suc i) } in
            elim (Bool-cases (is_same_content sha1_of (some c) facts)) [
              | inl same ↦ inr (rw n (rw same tt))
              | inr other ↦
                  elim (link_loop-cases fuel names (suc i) content row next
                    (with_row row (staged next) w) refl) [
                      | inl taken ↦ inl ((λ z. ground (arith, z, n, e)), taken)
                      | inr through ↦ inr (rw n (rw other through))
                    ]
            ]
      ]

  -- The loop ends within one attempt more than there are files, if no two names are the same.
  pub link_loop-HasReturned :
      (fuel : ℕ) (names : ℕ → Text) (i : ℕ) (content : Text) (row : Staging) (facts : Facts)
      (w : World)
      → ((m n : ℕ) → names m ≡ names n → m ≡ n)
      → facts.final_rel_path ≡ names i
      → length w.files < fuel
      → HasReturned (link_loop sha1_of lives fuel names i content row facts w)
  link_loop-HasReturned fuel names i content row facts w inj e h =
      elim (link_loop-cases fuel names i content row facts w e) [
        | inl taken ↦ absurd (
            omega (
              arith,
              length-up_from i fuel,
              length-IsTaken names inj w.files (up_from i fuel) (up_from-Apart i fuel) taken,
            ))
        | inr through ↦ through
      ]
