-- ===== src/Publish/Keeps.antt =====
-- publisher.py: what is in the library already stays, whatever a publication comes to.
use mediaferry.Jobs.{Result, ok, err, assert_lease}
use mediaferry.Publish.Request.{
  before_staged, staging, Made, made, broke, ArtifactRequest, Context, begun, placed, give_up,
  interrupted, facts_of, stage_with, with_metadata, with_made, publish,
}
use mediaferry.Publish.Links.{look-unlink}
use mediaferry.Publish.Steps.{
  discard_row, delete_row, unlink_quietly, with_row, with_files, skip_to, existing_id, file_of,
  record_commit, commit_as, names_of, some_artifact, resume_stage, resume_row, discard_found,
  clear_staging, commit_stage, commit_row, commit, is_same_content, link_loop,
  adopt_published_final, link_from, link_content, link, finish_stage, finish, resume,
}
use mediaferry.Publish.{
  Fate, goes, dies, breaks, io_failed, link_step, committing_step, discard_unlink_step,
  discard_delete_step, look, unlink, Described, Facts, Stage, writing, staged, published, Staging,
  MediaFile, World, PublishedArtifact, Failure, publish_aborted, probe_failed, Outcome, returned,
  raised, died, and_then, left_by, checkpoint, Step, writing_row, verified_step, metadata_step,
  final_path_step, staged_step, linked_step, dir_fsynced_step, staging_unlinked_step,
  committed_step,
}
use mediaferry.Text.{Text, text_eq_iff}
use mediaferry.Base.{
  ℕ, zero, suc, ◌≡◌, refl, ◌∙◌, ◌≢◌, inl, inr, Bool, true, false, Option, none, some, List, [], ◌∷◌,
  ◌++◌, arith, ◌==◌, Bool-cases, Option-cases, length,
}

-- Every file but the staged one keeps its path and its content, and every row of the table its id.
abbrev pub Keeps : Text → World → World → Type 0
Keeps gone w w' =
    ((path content : Text)
      → path ≢ gone
      → look path w.files ≡ some content
      → look path w'.files ≡ some content)
    × ((path : Text) (id : ℕ)
        → existing_id path w.media ≡ some id
        → existing_id path w'.media ≡ some id)

Keeps-refl : (gone : Text) (w : World) → Keeps gone w w
Keeps-refl gone w = ((λ p c n h. h), (λ p i h. h))

Keeps-trans : (gone : Text) (u v w : World) → Keeps gone u v → Keeps gone v w → Keeps gone u w
Keeps-trans gone u v w g h = ((λ p c n e. h.0 p c n (g.0 p c n e)), (λ p i e. h.1 p i (g.1 p i e)))

Keeps-and_then :
    {A B : Type 0} (gone : Text) (w : World) (o : Outcome A) (f : A → World → Outcome B)
    → Keeps gone w (left_by o)
    → ((a : A) (v : World) → Keeps gone v (left_by (f a v)))
    → Keeps gone w (left_by (and_then o f))
Keeps-and_then gone w (returned a v) f h g = Keeps-trans gone w v (left_by (f a v)) h (g a v)
Keeps-and_then gone w (raised e v) f h g = h
Keeps-and_then gone w (died v) f h g = h

Keeps-checkpoint :
    {A : Type 0} (gone : Text) (fate : Fate) (w v : World) (o : Outcome A)
    → Keeps gone w v
    → Keeps gone w (left_by o)
    → Keeps gone w (left_by (checkpoint fate v o))
Keeps-checkpoint gone goes w v o h g = g
Keeps-checkpoint gone dies w v o h g = h
Keeps-checkpoint gone breaks w v o h g = h

Keeps-unlink : (gone : Text) (w : World) → Keeps gone w (with_files (unlink gone w.files) w)
Keeps-unlink gone w = (
  (λ (p : Text) (c : Text) (n : p ≢ gone) (h : look p w.files ≡ some c).
      ground (arith, n, h, look-unlink p gone w.files, text_eq_iff gone p)),
  (λ p i h. h),
)

existing_id-kept :
    (p : Text) (i : ℕ) (m : MediaFile) (ms : List MediaFile)
    → existing_id p ms ≡ some i
    → existing_id p (ms ++ (m ∷ [])) ≡ some i
existing_id-kept p i m [] h = cc
existing_id-kept p i m (x ∷ ms) h = ground (arith, h, existing_id-kept p i m ms)

Keeps-commit_as :
    (fate : Step → Fate) (gone : Text) (id : Option ℕ) (fresh : ℕ) (row : Staging) (facts : Facts)
    (reused : Bool) (w : World)
    → Keeps gone w (left_by (commit_as fate id fresh row facts reused w))
Keeps-commit_as fate gone (some id) fresh row facts reused w =
    Keeps-checkpoint gone (fate committing_step) w w _ (Keeps-refl gone w)
      (Keeps-checkpoint gone (fate committed_step) w _ _ (Keeps-refl gone w) (Keeps-refl gone w))
Keeps-commit_as fate gone none fresh row facts reused w =
    let kept : Keeps gone w
        (record_commit fresh (w.media ++ (file_of fresh facts ∷ [])) row facts w) =
      ((λ p c n h. h), (λ p i h. existing_id-kept p i (file_of fresh facts) w.media h)) in
    Keeps-checkpoint gone (fate committing_step) w w _ (Keeps-refl gone w)
      (Keeps-checkpoint gone (fate committed_step) w _ _ kept kept)

Keeps-commit :
    (fate : Step → Fate) (gone : Text) (fresh : ℕ) (reused : Bool) (w : World)
    → Keeps gone w (left_by (commit fate fresh reused w))
unfolding commit
Keeps-commit fate gone fresh reused w = by_row w.row
  where
    by_stage :
        (stage : Stage) (row : Staging)
        → Keeps gone w (left_by (commit_stage fate stage row fresh reused w))
    by_stage writing row = Keeps-refl gone w
    by_stage (staged facts) row =
        Keeps-commit_as fate gone (existing_id facts.final_rel_path w.media) fresh row facts reused
          w
    by_stage (published facts) row =
        Keeps-commit_as fate gone (existing_id facts.final_rel_path w.media) fresh row facts reused
          w

    by_row : (row : Option Staging) → Keeps gone w (left_by (commit_row fate row fresh reused w))
    by_row none = Keeps-refl gone w
    by_row (some row) = by_stage row.stage row

module _ (sha1_of : Text → Text) where
  Keeps-link_loop :
      (gone : Text) (fate : Step → Fate) (fuel : ℕ) (names : ℕ → Text) (i : ℕ) (content : Text)
      (row : Staging) (facts : Facts) (w : World)
      → Keeps gone w (left_by (link_loop sha1_of fate fuel names i content row facts w))
  unfolding link_loop
  Keeps-link_loop gone fate zero names i content row facts w = Keeps-refl gone w
  Keeps-link_loop gone fate (suc fuel) names i content row facts w =
      Keeps-checkpoint gone (fate (link_step i)) w w _ (Keeps-refl gone w)
        (elim (Option-cases (look facts.final_rel_path w.files)) [
          | inl e ↦ rw e (
            (λ (p : Text) (c : Text) (n : p ≢ gone) (h : look p w.files ≡ some c).
                ground (arith, e, h, text_eq_iff facts.final_rel_path p)),
            (λ p j h. h),
          )
          | inr (c, e) ↦ elim (Bool-cases (is_same_content sha1_of (some c) facts)) [
            | inl same ↦ rw e (rw same (Keeps-refl gone w))
            | inr other ↦ rw e (
                rw other (
                  Keeps-link_loop gone fate fuel names (suc i) content row
                    (record facts { final_rel_path = names (suc i) })
                    (with_row row (staged (record facts { final_rel_path = names (suc i) })) w)))
          ]
        ])

module _ {A : Type 0} (fate : Step → Fate) (row : Staging) (w : World)
    (on_gone on_kept : World → Outcome A) (still : (v : World) → left_by (on_gone v) ≡ v)
    (still' : (v : World) → left_by (on_kept v) ≡ v) where
  Keeps-delete_row :
      (d : Fate) (v : World)
      → Keeps row.staging_rel_path w v
      → Keeps row.staging_rel_path w (left_by (delete_row d v on_gone on_kept))
  Keeps-delete_row goes v k = rw (still (record v { row = none })) (k.0, k.1)
  Keeps-delete_row dies v k = k
  Keeps-delete_row breaks v k = rw (still' v) k

  Keeps-unlink_quietly :
      (u : Fate)
      → Keeps row.staging_rel_path w (
          left_by (
            unlink_quietly u row.staging_rel_path w
              (λ v. delete_row (fate discard_delete_step) v on_gone on_kept)))
  Keeps-unlink_quietly goes =
      Keeps-delete_row (fate discard_delete_step) _ (Keeps-unlink row.staging_rel_path w)
  Keeps-unlink_quietly dies = Keeps-refl row.staging_rel_path w
  Keeps-unlink_quietly breaks =
      Keeps-delete_row (fate discard_delete_step) w (Keeps-refl row.staging_rel_path w)

  Keeps-discard_row :
      Keeps row.staging_rel_path w (left_by (discard_row fate row w on_gone on_kept))
  Keeps-discard_row = Keeps-unlink_quietly (fate discard_unlink_step)

module _ (sha1_of : Text → Text) (fate : Step → Fate) where
  Keeps-clear :
      (row : Staging) (reused : Bool) (w : World)
      → Keeps row.staging_rel_path w (left_by (clear_staging fate row reused w))
  Keeps-clear row reused w =
      let gone = row.staging_rel_path in
      Keeps-checkpoint gone (fate linked_step) w w _ (Keeps-refl gone w) (
        Keeps-checkpoint gone (fate dir_fsynced_step) w w _ (Keeps-refl gone w) (
          Keeps-checkpoint gone (fate staging_unlinked_step) w _ _ (Keeps-unlink gone w)
            (Keeps-unlink gone w)))

  Keeps-adopt :
      (gone : Text) (facts : Facts) (w : World)
      → Keeps gone w (left_by (adopt_published_final sha1_of fate facts w))
  Keeps-adopt gone facts w =
      elim (Bool-cases (is_same_content sha1_of (look facts.final_rel_path w.files) facts)) [
        | inl e ↦ rw e (
            Keeps-checkpoint gone (fate dir_fsynced_step) w w _ (Keeps-refl gone w) (
              Keeps-checkpoint gone (fate staging_unlinked_step) w w (returned true w)
                (Keeps-refl gone w) (Keeps-refl gone w)))
        | inr e ↦ rw e (Keeps-refl gone w)
      ]

  Keeps-link :
      (fuel : ℕ) (row : Staging) (facts : Facts) (w : World)
      → Keeps row.staging_rel_path w (left_by (link sha1_of fate fuel row facts w))
  unfolding link
  Keeps-link fuel row facts w = by_content (look row.staging_rel_path w.files)
    where
      by_index :
          (content : Text) (i : Option ℕ)
          → Keeps row.staging_rel_path w
              (left_by (link_from sha1_of fate i fuel (names_of facts) content row facts w))
      by_index content none = Keeps-refl row.staging_rel_path w
      by_index content (some i) =
          Keeps-and_then row.staging_rel_path w
            (link_loop sha1_of fate fuel (names_of facts) i content row facts w)
            (clear_staging fate row)
            (Keeps-link_loop sha1_of row.staging_rel_path fate fuel (names_of facts) i content row
              facts w)
            (Keeps-clear row)

      by_content :
          (found : Option Text)
          → Keeps row.staging_rel_path w
              (left_by (link_content sha1_of fate found fuel row facts w))
      by_content none = Keeps-adopt row.staging_rel_path facts w
      by_content (some content) =
          by_index content (skip_to fuel (names_of facts) facts.final_rel_path 0)

  Keeps-finish :
      (fuel fresh : ℕ) (row : Staging) (w : World)
      → w.row ≡ some row
      → Keeps row.staging_rel_path w (left_by (finish sha1_of fate fuel fresh w))
  unfolding finish
  Keeps-finish fuel fresh row w e = simp e (by_stage row.stage)
    where
      by_stage :
          (stage : Stage)
          → Keeps row.staging_rel_path w
              (left_by (finish_stage sha1_of fate stage fuel fresh row w))
      by_stage writing = Keeps-commit fate row.staging_rel_path fresh false w
      by_stage (staged facts) =
          Keeps-and_then row.staging_rel_path w (link sha1_of fate fuel row facts w)
            (commit fate fresh) (Keeps-link fuel row facts w)
            (λ reused v. Keeps-commit fate row.staging_rel_path fresh reused v)
      by_stage (published facts) = Keeps-commit fate row.staging_rel_path fresh false w

  found-Keeps :
      (gone : Text) (w : World) (o : Outcome PublishedArtifact)
      → Keeps gone w (left_by o)
      → Keeps gone w (left_by (and_then o some_artifact))
  found-Keeps gone w o h = Keeps-and_then gone w o some_artifact h (λ a v. Keeps-refl gone v)

  resume-Keeps :
      (fuel fresh : ℕ) (row : Staging) (w : World)
      → w.row ≡ some row
      → Keeps row.staging_rel_path w (left_by (resume sha1_of fate fuel fresh w))
  unfolding resume
  resume-Keeps fuel fresh row w e = by_row w.row e
    where
      by_stage :
          (stage : Stage)
          → Keeps row.staging_rel_path w
              (left_by (resume_stage fate stage row (finish sha1_of fate fuel fresh w) w))
      by_stage writing =
          Keeps-discard_row fate row w (returned none) (raised io_failed) (λ v. refl) (λ v. refl)
      by_stage (staged facts) =
          found-Keeps row.staging_rel_path w (finish sha1_of fate fuel fresh w)
            (Keeps-finish fuel fresh row w e)
      by_stage (published facts) =
          found-Keeps row.staging_rel_path w (finish sha1_of fate fuel fresh w)
            (Keeps-finish fuel fresh row w e)

      by_row :
          (found : Option Staging)
          → found ≡ some row
          → Keeps row.staging_rel_path w
              (left_by (resume_row fate found (finish sha1_of fate fuel fresh w) w))
      by_row found h = rw (h, resume_row) (by_stage row.stage)

module _ (sha1_of : Text → Text) (fate : Step → Fate) (fuel fresh : ℕ) (ctx : Context) where
  Keeps-placed : (gone : Text) (left : Option Text) (w : World) → Keeps gone w (placed gone left w)
  Keeps-placed gone none w = Keeps-refl gone w
  Keeps-placed gone (some content) w = (
    (λ (p : Text) (c : Text) (n : p ≢ gone) (h : look p w.files ≡ some c).
        ground (arith, n, h, look-unlink p gone w.files, text_eq_iff gone p)),
    (λ p i h. h),
  )

  Keeps-interrupted :
      (gone : Text) (w : World) (o : Outcome PublishedArtifact)
      → Keeps gone w (left_by o)
      → Keeps gone w (left_by (interrupted o))
  Keeps-interrupted gone w (returned a v) h = h
  Keeps-interrupted gone w (raised e v) h = h
  Keeps-interrupted gone w (died v) h = h

  Keeps-discard :
      (e : Failure) (found : Option Staging) (row : Staging) (w : World)
      → found ≡ some (record row { stage = writing })
      → Keeps row.staging_rel_path w
          (left_by {A = PublishedArtifact} (discard_found fate found w (raised e)))
  Keeps-discard e found row w h =
      rw (h, discard_found)
        (Keeps-discard_row fate (record row { stage = writing }) w (raised e) (raised e) (λ v. refl)
          (λ v. refl))

  Keeps-give_up :
      (e : Failure) (row : Staging) (w v : World)
      → Keeps row.staging_rel_path w v
      → v.row ≡ some (record row { stage = writing })
      → Keeps row.staging_rel_path w (left_by (give_up fate e v))
  Keeps-give_up e row w v k h =
      Keeps-trans row.staging_rel_path w v (left_by (give_up fate e v)) k
        (Keeps-discard e v.row row v h)

  Keeps-before_staged :
      (f : Fate) (row : Staging) (w v : World) (o : Outcome PublishedArtifact)
      → Keeps row.staging_rel_path w v
      → v.row ≡ some (record row { stage = writing })
      → Keeps row.staging_rel_path w (left_by o)
      → Keeps row.staging_rel_path w (left_by (before_staged fate f v o))
  Keeps-before_staged goes row w v o k h g = g
  Keeps-before_staged dies row w v o k h g = k
  Keeps-before_staged breaks row w v o k h g = Keeps-give_up io_failed row w v k h

  Keeps-staging :
      (f : Fate) (row : Staging) (facts : Facts) (w v : World) (o : Outcome PublishedArtifact)
      → Keeps row.staging_rel_path w v
      → v.row ≡ some (record row { stage = writing })
      → Keeps row.staging_rel_path w (left_by o)
      → Keeps row.staging_rel_path w (left_by (staging fate f v (with_row row (staged facts) v) o))
  Keeps-staging goes row facts w v o k h g = g
  Keeps-staging dies row facts w v o k h g = k
  Keeps-staging breaks row facts w v o k h g = Keeps-give_up io_failed row w v k h

  Keeps-stage_with :
      (lease : Result (Unit {0})) (row : Staging) (facts : Facts) (w v : World)
      → Keeps row.staging_rel_path w v
      → v.row ≡ some (record row { stage = writing })
      → Keeps row.staging_rel_path w (
          left_by
            (stage_with sha1_of fate fuel fresh ctx lease (record row { stage = writing }) facts v))
  Keeps-stage_with (err e) row facts w v k h = Keeps-give_up publish_aborted row w v k h
  Keeps-stage_with (ok u) row facts w v k h =
      let v' : World = with_row row (staged facts) v in
      Keeps-staging (fate staged_step) row facts w v _ k h (
        Keeps-interrupted row.staging_rel_path w (finish sha1_of fate fuel fresh v') (
          Keeps-trans row.staging_rel_path w v' (left_by (finish sha1_of fate fuel fresh v')) k
            (Keeps-finish sha1_of fate fuel fresh (record row { stage = staged facts }) v' refl)))

  Keeps-with_metadata :
      (metadata : Option (Text × Described)) (row : Staging) (desired : Text) (size : ℕ)
      (sha1 : Text) (w v : World)
      → Keeps row.staging_rel_path w v
      → v.row ≡ some (record row { stage = writing })
      → Keeps row.staging_rel_path w (
          left_by (
            with_metadata sha1_of fate fuel fresh ctx metadata
              (record row { stage = writing })
              desired
              size
              sha1
              v))
  Keeps-with_metadata none row desired size sha1 w v k h = Keeps-give_up probe_failed row w v k h
  Keeps-with_metadata (some (stamp, described)) row desired size sha1 w v k h =
      Keeps-before_staged (fate metadata_step) row w v _ k h (
        Keeps-before_staged (fate final_path_step) row w v _ k h (
          Keeps-stage_with (assert_lease ctx.now ctx.job_id ctx.lease_token ctx.store) row
            (facts_of desired size sha1 stamp described) w v k h))

  row-placed : (gone : Text) (left : Option Text) (w : World) → (placed gone left w).row ≡ w.row
  row-placed gone none w = refl
  row-placed gone (some c) w = refl

  Keeps-with_made :
      (mat : Made) (metadata : Option (Text × Described)) (row : Staging) (desired : Text)
      (w v : World)
      → Keeps row.staging_rel_path w v
      → v.row ≡ some (record row { stage = writing })
      → Keeps row.staging_rel_path w (
          left_by (
            with_made sha1_of fate fuel fresh ctx mat metadata
              (record row { stage = writing })
              desired
              v))
  Keeps-with_made (broke e left) metadata row desired w v k h =
      let gone = row.staging_rel_path in
      Keeps-give_up e row w (placed gone left v)
        (Keeps-trans gone w v (placed gone left v) k (Keeps-placed gone left v))
        (row-placed gone left v ∙ h)
  Keeps-with_made (made content size sha1) metadata row desired w v k h =
      let v' : World = placed row.staging_rel_path (some content) v in
      let k' : Keeps row.staging_rel_path w v' =
        Keeps-trans row.staging_rel_path w v v' k
          (Keeps-placed row.staging_rel_path (some content) v) in
      elim (Bool-cases (length content == size)) [
        | inl e ↦ rw e (
            Keeps-before_staged (fate verified_step) row w v' _ k' h
              (Keeps-with_metadata metadata row desired size sha1 w v' k' h))
        | inr e ↦ rw e (Keeps-give_up publish_aborted row w v' k' h)
      ]

  -- Neither a publication nor a restart of one moves, changes or removes a file of the library, and
  -- a path that is in the table keeps its id, however the call ends; the file in the staging area
  -- is the only one that may go.
  pub publisher-Keeps :
      (staging_rel : Text) (request : ArtifactRequest) (mat : Made)
      (metadata : Option (Text × Described)) (row : Staging) (w v : World)
      → v.row ≡ some row
      → Keeps staging_rel w
          (left_by (publish sha1_of fate fuel fresh ctx staging_rel request mat metadata w))
        × Keeps row.staging_rel_path v (left_by (resume sha1_of fate fuel fresh v))
  unfolding publish
  publisher-Keeps staging_rel request mat metadata row w v e =
      let begin : World = record w { row = some (begun staging_rel request) } in
      (
        Keeps-before_staged (fate writing_row) (begun staging_rel request) w begin _
            (Keeps-refl staging_rel w) refl
            (Keeps-with_made mat metadata (begun staging_rel request) request.desired_rel_path w
              begin (Keeps-refl staging_rel w) refl),
        resume-Keeps sha1_of fate fuel fresh row v e,
      )
