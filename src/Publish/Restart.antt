-- ===== src/Publish/Restart.antt =====
-- publisher.py: the restarts of a publication, each of which may die or break in turn.
use mediaferry.Naming.{split}
use mediaferry.Naming.Paths.{IsSafePart}
use mediaferry.Naming.Candidates.{candidate_paths-injective}
use mediaferry.Publish.Recovery.{
  Ends, skip_to-some, named, HasContent, RowAt, IsReady, IsDone, IsUnderway, IsLinked,
  IsLinkedStill, IsArtifact, IsFound, link_loop-named, link-Ends, finish-Ends,
}
use mediaferry.Publish.Links.{lives, HasReturned, link_loop-HasReturned}
use mediaferry.Publish.Steps.{
  skip_to, existing_id, commit_as, names_of, is_same_content, link, commit, finish, some_artifact,
  resume_stage, resume_row, resume,
}
use mediaferry.Publish.{
  look, Facts, Stage, staged, published, Staging, World, PublishedArtifact, Outcome, returned,
  raised, died, and_then, left_by, Fate, Step,
}
use mediaferry.Text.{Text, text_eq, text_eq_iff}
use mediaferry.Base.{
  ℕ, zero, suc, ◌+◌, ◌≤◌, ◌<◌, ◌≡◌, refl, sym, ap, ◌≢◌, ◌⊎◌, inl, inr, Bool, true, false, Option,
  none, some, List, [], ◌∷◌, arith, Bool-cases, Option-cases, length, All,
}

-- One start of the application: how many links it lives to try, the id that is new to it, and the
-- fate of each step.
pub record Attempt : Type 0 where
  pub fuel : ℕ
  pub fresh : ℕ
  pub fate : Step → Fate

abbrev pub restart : (Text → Text) → List Attempt → World → World
restart sha1_of [] w = w
restart sha1_of (a ∷ rest) w =
    restart sha1_of rest (left_by (resume sha1_of a.fate a.fuel a.fresh w))

passed : (names : ℕ → Text) (i k : ℕ) → i ≤ k → text_eq (names i) (names k) ≡ false → suc i ≤ k
passed names i k h s =
    let apart : i ≢ k = λ q. ground (arith, s, text_eq_iff (names i) (names k), ap names q) in
    omega arith

skip_to-finds :
    (fuel : ℕ) (names : ℕ → Text) (i k : ℕ)
    → i ≤ k
    → k < i + fuel
    → skip_to fuel names (names k) i ≢ none
unfolding skip_to
skip_to-finds zero names i k h l e = omega arith
skip_to-finds (suc fuel) names i k h l e = elim (Bool-cases (text_eq (names i) (names k))) [
  | inl s ↦ ground (arith, s, e)
  | inr s ↦
      skip_to-finds fuel names (suc i) k (passed names i k h s) (omega arith) (ground (arith, s, e))
]

HasReturned-and_then :
    {A B : Type 0} (P : A → World → Type 0) (Q : World → Type 0) (o : Outcome A)
    (f : A → World → Outcome B)
    → Ends P Q o
    → HasReturned o
    → ((a : A) (w : World) → P a w → HasReturned (f a w))
    → HasReturned (and_then o f)
HasReturned-and_then P Q (returned a w) f e h g = g a w e
HasReturned-and_then P Q (raised x w) f e h g = h
HasReturned-and_then P Q (died w) f e h g = h

Ends-HasReturned :
    {A : Type 0} (P : A → World → Type 0) (Q R : World → Type 0) (o : Outcome A)
    → Ends P Q o
    → HasReturned o
    → Ends P R o
Ends-HasReturned P Q R (returned a w) e h = e
Ends-HasReturned P Q R (raised x w) e h = absurd h
Ends-HasReturned P Q R (died w) e h = absurd h

Ends-left_by :
    {A : Type 0} (P : A → World → Type 0) (Q : World → Type 0) (o : Outcome A)
    → ((a : A) (w : World) → P a w → Q w)
    → Ends P Q o
    → Q (left_by o)
Ends-left_by P Q (returned a w) f h = f a w h
Ends-left_by P Q (raised x w) f h = h
Ends-left_by P Q (died w) f h = h

module _ (sha1_of : Text → Text) (base : Staging) (facts : Facts)
    (safe : All IsSafePart (split facts.metadata.desired_rel_path))
    (apart : (n : ℕ) → names_of facts n ≢ base.staging_rel_path) where
  is_same :
      (c : Text)
      → length c ≡ facts.expected_size
      → sha1_of c ≡ facts.content_sha1
      → is_same_content sha1_of (some c) facts ≡ true
  is_same c l s = ground (arith, l, s, text_eq_iff (sha1_of c) facts.content_sha1)

  -- Where the process lives and no call of the system breaks, `_link` returns, within as many
  -- attempts as there are files and one, counted from the first name: the file waits in the staging area, or is under its name. All
  -- components of the wanted path are names of entries, and no candidate is the path in the staging
  -- area.
  pub link-HasReturned :
      (fuel k : ℕ) (w : World)
      → RowAt sha1_of base facts staged k w
      → (HasContent sha1_of base facts base.staging_rel_path w.files
          ⊎ ((look base.staging_rel_path w.files ≡ none)
              × HasContent sha1_of base facts (names_of facts k) w.files))
      → k + length w.files < fuel
      → HasReturned (
          link sha1_of lives fuel
            (record base { stage = staged (named sha1_of base facts k) })
            (named sha1_of base facts k)
            w)
  unfolding link
  link-HasReturned fuel k w r (inr (e, (c, f, l, s))) h = rw (e, f) (rw (is_same c l s) tt)
  link-HasReturned fuel k w r (inl (c, e, l, s)) h =
      rw e (elim (Option-cases (skip_to fuel (names_of facts) (names_of facts k) 0)) [
        | inl n ↦ absurd (skip_to-finds fuel (names_of facts) 0 k (omega arith) (omega arith) n)
        | inr (i, n) ↦
            let same : names_of facts i ≡ names_of facts k =
              skip_to-some fuel (names_of facts) (names_of facts k) 0 i n in
            rw n (
              HasReturned-and_then (IsLinkedStill sha1_of base facts) (IsReady sha1_of base facts) _
                _ (link_loop-named sha1_of base facts apart lives fuel k i c w same r e l s)
                (link_loop-HasReturned sha1_of fuel (names_of facts) i c _ _ w
                  (candidate_paths-injective facts.metadata.desired_rel_path
                    facts.metadata.collision_stamp facts.content_sha1 safe)
                  (sym same) (omega arith))
                (λ reused w' h'. tt))
      ])

  commit_as-HasReturned :
      (id : Option ℕ) (fresh : ℕ) (row : Staging) (f : Facts) (reused : Bool) (w : World)
      → HasReturned (commit_as lives id fresh row f reused w)
  commit_as-HasReturned (some id) fresh row f reused w = tt
  commit_as-HasReturned none fresh row f reused w = tt

  commit-HasReturned :
      (fresh : ℕ) (reused : Bool) (w : World)
      → IsLinked sha1_of base facts reused w
      → HasReturned (commit lives fresh reused w)
  unfolding commit
  commit-HasReturned fresh reused w (k, r, h, u) =
      simp r (commit_as-HasReturned (existing_id (names_of facts k) w.media) fresh _ _ reused w)

  ready-HasReturned :
      (fuel fresh k : ℕ) (w : World)
      → RowAt sha1_of base facts staged k w
      → (HasContent sha1_of base facts base.staging_rel_path w.files
          ⊎ ((look base.staging_rel_path w.files ≡ none)
              × HasContent sha1_of base facts (names_of facts k) w.files))
      → k + length w.files < fuel
      → HasReturned (finish sha1_of lives fuel fresh w)
  unfolding finish
  ready-HasReturned fuel fresh k w r h l = simp r (
      HasReturned-and_then (IsLinked sha1_of base facts) (IsReady sha1_of base facts) _
        (commit lives fresh) (link-Ends sha1_of base facts apart lives fuel k w r h)
        (link-HasReturned fuel k w r h l) (commit-HasReturned fresh))

  done-HasReturned :
      (fuel fresh : ℕ) (w : World)
      → IsDone sha1_of base facts w
      → HasReturned (finish sha1_of lives fuel fresh w)
  unfolding finish commit
  done-HasReturned fuel fresh w (k, id, r, h, m, es, gs) =
      simp r (commit_as-HasReturned (existing_id (names_of facts k) w.media) fresh _ _ false w)

  IsFound-Ends :
      (Q : World → Type 0) (o : Outcome PublishedArtifact)
      → Ends (IsArtifact sha1_of base facts) Q o
      → Ends (IsFound sha1_of base facts) Q (and_then o some_artifact)
  IsFound-Ends Q (returned a w) h = (a, refl, h)
  IsFound-Ends Q (raised x w) h = h
  IsFound-Ends Q (died w) h = h

  IsFound-resume_row :
      (Q : World → Type 0) (o : Option Staging) (f : Facts) (stage : Facts → Stage)
      → (fate : Step → Fate)
      → ((rest : Outcome PublishedArtifact) (w : World)
          → resume_stage fate (stage f) (record base { stage = stage f }) rest w
            ≡ and_then rest some_artifact)
      → o ≡ some (record base { stage = stage f })
      → (rest : Outcome PublishedArtifact) (w : World) → Ends (IsArtifact sha1_of base facts) Q rest
      → Ends (IsFound sha1_of base facts) Q (resume_row fate o rest w)
  IsFound-resume_row Q o f stage fate same e rest w h =
      rw (e, resume_row) (rw (same rest w) (IsFound-Ends Q rest h))

  resume-Ends :
      (Q : World → Type 0) (fate : Step → Fate) (fuel fresh : ℕ) (w : World)
      → IsUnderway sha1_of base facts w
      → Ends (IsArtifact sha1_of base facts) Q (finish sha1_of fate fuel fresh w)
      → Ends (IsFound sha1_of base facts) Q (resume sha1_of fate fuel fresh w)
  unfolding resume
  resume-Ends Q fate fuel fresh w (inl (k, r, h)) e =
      IsFound-resume_row Q w.row (named sha1_of base facts k) staged fate (λ rest w'. refl) r
        (finish sha1_of fate fuel fresh w) w e
  resume-Ends Q fate fuel fresh w (inr (k, id, r, h, m, es, gs)) e =
      IsFound-resume_row Q w.row (named sha1_of base facts k) published fate (λ rest w'. refl) r
        (finish sha1_of fate fuel fresh w) w e

  IsUnderway-resume :
      (fate : Step → Fate) (fuel fresh : ℕ) (w : World)
      → IsUnderway sha1_of base facts w
      → IsUnderway sha1_of base facts (left_by (resume sha1_of fate fuel fresh w))
  IsUnderway-resume fate fuel fresh w u =
      Ends-left_by (IsFound sha1_of base facts) (IsUnderway sha1_of base facts) _
        (λ found w' f. inr f.2.0)
        (resume-Ends _ fate fuel fresh w u
          (finish-Ends sha1_of base facts apart fate fuel fresh w u))

  IsUnderway-restart :
      (attempts : List Attempt) (w : World)
      → IsUnderway sha1_of base facts w
      → IsUnderway sha1_of base facts (restart sha1_of attempts w)
  IsUnderway-restart [] w u = u
  IsUnderway-restart (a ∷ rest) w u =
      IsUnderway-restart rest (left_by (resume sha1_of a.fate a.fuel a.fresh w))
        (IsUnderway-resume a.fate a.fuel a.fresh w u)

  finish-lives :
      (fuel fresh : ℕ) (w : World)
      → IsUnderway sha1_of base facts w
      → HasReturned (finish sha1_of lives fuel fresh w)
      → Ends (IsFound sha1_of base facts) (λ _. ⊥) (resume sha1_of lives fuel fresh w)
  finish-lives fuel fresh w u h =
      resume-Ends (λ _. ⊥) lives fuel fresh w u
        (Ends-HasReturned (IsArtifact sha1_of base facts) (IsUnderway sha1_of base facts) (λ _. ⊥) _
          (finish-Ends sha1_of base facts apart lives fuel fresh w u) h)

  resume_underway :
      (w : World)
      → IsUnderway sha1_of base facts w
      → (enough : ℕ) × ((fuel fresh : ℕ)
          → enough < fuel
          → Ends (IsFound sha1_of base facts) (λ _. ⊥) (resume sha1_of lives fuel fresh w))
  resume_underway w (inl (k, r, h)) = (
    k + length w.files,
    λ fuel fresh l.
        finish-lives fuel fresh w (inl (k, r, h)) (ready-HasReturned fuel fresh k w r h l),
  )
  resume_underway w (inr d) =
      (0, λ fuel fresh l. finish-lives fuel fresh w (inr d) (done-HasReturned fuel fresh w d))

  -- What is staged gets published: after any restarts, each of which may die or break at any step or
  -- die between two links, a restart that lives long enough and in which nothing breaks returns the
  -- artifact. Its path has the size and the hash that were recorded, the path is in the table under
  -- its id, the source entry that waits for the file is published under this id, and the group that
  -- waits has it as its output. All components of the wanted path are names of entries, and no
  -- candidate is the path in the staging area.
  pub resume-restart :
      (attempts : List Attempt) (w : World)
      → IsReady sha1_of base facts w
      → (enough : ℕ) × ((fuel fresh : ℕ)
          → enough < fuel
          → Ends
              (IsFound sha1_of base facts)
              (λ _. ⊥)
              (resume sha1_of lives fuel fresh (restart sha1_of attempts w)))
  resume-restart attempts w h =
      resume_underway (restart sha1_of attempts w) (IsUnderway-restart attempts w (inl h))
