-- ===== src/Profile/Matching/Content.antt =====
-- app/src/mediaferry/core/profiles/matching.py: a profile is adopted for what is on the card.
use mathlib.Core.Path.{subst}
use mediaferry.Base.{
  ℕ, ◌+◌, ◌≤◌, String, ◌≡◌, refl, inl, inr, Bool, true, false, Option, none, some, List, [], ◌∷◌,
  arith, ltb, leb, if◌then◌else◌, Bool-cases, Option-cases, Some,
}
use mediaferry.Profile.{ProfileDefinition}
use mediaferry.Profile.Matching.{
  VolumeFacts, SourceTree, MatchOutcome, Texts, hint_score, count_names, names_below,
  count_matching_files, roots_of, before, insert, in_order, or_nothing, candidate, is_empty, choose,
  resolve_profile,
}

-- How many names the pattern matches.
abbrev pub matching : Texts → String → List String → ℕ
matching t pattern [] = 0
matching t pattern (n ∷ ns) =
    let rest = matching t pattern ns in
    elim (t.match pattern n) [ none ↦ rest | some hit ↦ if hit then rest + 1 else rest ]

-- The card has a root of the profile, and below its roots as many matching names as it asks for.
pub record HasContent (t : Texts) (tree : SourceTree) (d : ProfileDefinition) : Type 0 where
  pub some_root : is_empty (roots_of d tree) ≡ false
  pub enough :
      d.require.min_matching_files
      ≤ matching t d.require.filename_pattern (names_below tree (roots_of d tree))

count-matching :
    (t : Texts) (pattern : String) (enough found : ℕ) (ns : List String) (n : ℕ)
    → count_names t pattern enough found ns ≡ some n
    → n ≤ found + matching t pattern ns
count-matching t pattern enough found [] n e = ground (arith, e)
count-matching t pattern enough found (x ∷ ns) n e = elim (Option-cases (t.match pattern x)) [
  | inl q ↦ absurd (ground (arith, e, q))
  | inr (hit, q) ↦ ground (
    arith,
    e,
    q,
    count-matching t pattern enough found ns n,
    count-matching t pattern enough (found + 1) ns n,
  )
]

module _ (t : Texts) (facts : VolumeFacts) (tree : SourceTree) (s : String) where
  -- A profile of that name whose content is on the card.
  abbrev IsFound : ProfileDefinition → Type 0
  IsFound d = (d.slug ≡ s) × HasContent t tree d

  -- An outcome that is not final.
  abbrev IsOpen : Option MatchOutcome → Type 0
  IsOpen none = Unit
  IsOpen (some o) = o.provisional ≡ true

  IsOpen-candidate :
      (d : ProfileDefinition) (p : Option MatchOutcome) → IsOpen p → IsOpen (candidate t facts d p)
  IsOpen-candidate d (some o) h = h
  IsOpen-candidate d none h = elim (Bool-cases (ltb 0 (hint_score t d facts))) [
    | inl e ↦ rw e refl
    | inr e ↦ rw e tt
  ]

  IsOpen-end :
      (p : Option MatchOutcome)
      → IsOpen p
      → (or_nothing p).slug ≡ some s
      → (or_nothing p).provisional ≡ false
      → ⊥
  IsOpen-end none h e q = ground (arith, e)
  IsOpen-end (some o) h e q = ground (arith, h, q)

  choose-IsFound :
      (p : Option MatchOutcome) (ds : List ProfileDefinition)
      → IsOpen p
      → (choose t facts tree p ds).slug ≡ some s
      → (choose t facts tree p ds).provisional ≡ false
      → Some IsFound ds
  unfolding choose count_matching_files
  choose-IsFound p [] h e q = absurd (IsOpen-end p h e q)
  choose-IsFound p (d ∷ ds) h e q = elim (Bool-cases (is_empty (roots_of d tree))) [
    | inl a ↦ inr (choose-IsFound p ds h (ground (arith, e, a)) (ground (arith, q, a)))
    | inr a ↦ elim (Option-cases (count_matching_files t d tree (roots_of d tree))) [
      | inl b ↦ absurd (ground (arith, e, a, b))
      | inr (n, b) ↦ elim (Bool-cases (leb d.require.min_matching_files n)) [
        | inl c ↦ inl (
          ground (arith, e, a, b, c),
          record {
            some_root = a;
            enough = ground (
              arith,
              c,
              count-matching t d.require.filename_pattern d.require.min_matching_files 0
                  (names_below tree (roots_of d tree)) n b,
            );
          },
        )
        | inr c ↦ inr (
            choose-IsFound (candidate t facts d p) ds (IsOpen-candidate d p h)
              (ground (arith, e, a, b, c)) (ground (arith, q, a, b, c)))
      ]
    ]
  ]

  Some-insert :
      (lt : ProfileDefinition → ProfileDefinition → Bool) (d : ProfileDefinition)
      (es : List ProfileDefinition)
      → Some IsFound (insert lt d es)
      → Some IsFound (d ∷ es)
  Some-insert lt d [] h = h
  Some-insert lt d (e ∷ es) h = elim (Bool-cases (lt e d)) [
    | inl q ↦ elim (subst (Some IsFound) (opened q) h) [
      | inl x ↦ inr (inl x)
      | inr x ↦ elim (Some-insert lt d es x) [ inl y ↦ inl y | inr y ↦ inr (inr y) ]
    ]
    | inr q ↦ subst (Some IsFound) (shut q) h
  ]
    where
      opened : lt e d ≡ true → insert lt d (e ∷ es) ≡ e ∷ insert lt d es
      opened q = rw q refl

      shut : lt e d ≡ false → insert lt d (e ∷ es) ≡ d ∷ e ∷ es
      shut q = rw q refl

  Some-in_order :
      (lt : ProfileDefinition → ProfileDefinition → Bool) (ds : List ProfileDefinition)
      → Some IsFound (in_order lt ds)
      → Some IsFound ds
  Some-in_order lt [] h = h
  Some-in_order lt (d ∷ ds) h = elim (Some-insert lt d (in_order lt ds) h) [
    | inl x ↦ inl x
    | inr x ↦ inr (Some-in_order lt ds x)
  ]

-- A profile that is not provisional is one of the definitions whose content is on the card: it has a
-- root there, and below its roots as many matching names as the profile asks for. No hint is
-- enough.
pub resolve_profile-HasContent :
    (t : Texts) (definitions : List ProfileDefinition) (facts : VolumeFacts) (tree : SourceTree)
    (remembered : Option String) (s : String)
    → (resolve_profile t definitions facts tree remembered).slug ≡ some s
    → (resolve_profile t definitions facts tree remembered).provisional ≡ false
    → Some (λ d. (d.slug ≡ s) × HasContent t tree d) definitions
unfolding resolve_profile
resolve_profile-HasContent t definitions facts tree remembered s e q =
    Some-in_order t facts tree s (before t facts remembered) definitions
      (choose-IsFound t facts tree s none (in_order (before t facts remembered) definitions) tt e q)
