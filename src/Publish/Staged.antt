-- ===== src/Publish/Staged.antt =====
-- publisher.py, `_publish`: it is all or nothing up to `staged`, and `staged` takes the lease.
use mediaferry.Naming.{candidate_paths}
use mediaferry.Jobs.{Result, ok, err, assert_lease, JobStore, key, request_cancel}
use mediaferry.Jobs.Leases.{History, run, cancel_is_final}
use mediaferry.Sql.{IsKeyed}
use mediaferry.Publish.Request.{
  before_staged, staging, Made, made, broke, ArtifactRequest, Context, begun, placed, give_up,
  interrupted, facts_of, stage_with, with_metadata, with_made, publish,
}
use mediaferry.Publish.Recovery.{Ends, IsReady, IsUnderway, IsArtifact, finish-Ends}
use mediaferry.Publish.Links.{look-unlink}
use mediaferry.Publish.Steps.{with_files, unlink_quietly, delete_row, with_row, finish}
use mediaferry.Publish.{
  look, unlink, Described, Facts, staged, Staging, World, PublishedArtifact, Failure,
  publish_aborted, probe_failed, Outcome, returned, raised, died, Fate, goes, dies, breaks,
  io_failed, publish_interrupted, discard_unlink_step, discard_delete_step, Step, writing_row,
  verified_step, metadata_step, final_path_step, staged_step,
}
use mediaferry.Text.{Text, text_eq_iff}
use mediaferry.Base.{
  ℕ, String, ◌≡◌, refl, sym, ◌∙◌, ◌≢◌, ◌⊎◌, inl, inr, true, Option, none, some, arith, ◌==◌, ==_iff,
  Bool-cases, length,
}

-- The materialiser reports the hash of what it left.
abbrev pub IsHonest : (Text → Text) → Made → Type 0
IsHonest sha1_of (made content size sha1) = sha1 ≡ sha1_of content
IsHonest sha1_of (broke e left) = Unit

-- No trace: no row, and the tables and files as before.
abbrev pub IsUntouched : World → World → Type 0
IsUntouched w w' =
    (w'.row ≡ none)
    × (w'.media ≡ w.media)
    × (w'.entries ≡ w.entries)
    × (w'.groups ≡ w.groups)
    × ((path : Text) → look path w'.files ≡ look path w.files)

-- The row says that something may lie in the staging area, and nothing lies elsewhere.
abbrev pub IsWriting : Staging → World → World → Type 0
IsWriting row w w' =
    (w'.row ≡ some row)
    × (w'.media ≡ w.media)
    × (w'.entries ≡ w.entries)
    × (w'.groups ≡ w.groups)
    × ((path : Text) → path ≢ row.staging_rel_path → look path w'.files ≡ look path w.files)

-- The cleanup has broken: the row or the file is still there, and nothing lies elsewhere.
abbrev pub IsLeft : (Step → Fate) → Staging → World → World → Type 0
IsLeft fate row w w' =
    ((fate discard_unlink_step ≡ breaks) ⊎ (fate discard_delete_step ≡ breaks))
    × ((w'.row ≡ none) ⊎ (w'.row ≡ some row))
    × (w'.media ≡ w.media)
    × (w'.entries ≡ w.entries)
    × (w'.groups ≡ w.groups)
    × ((path : Text) → path ≢ row.staging_rel_path → look path w'.files ≡ look path w.files)

look-placed :
    (p q : Text) (left : Option Text) (w : World)
    → p ≢ q
    → look p (placed q left w).files ≡ look p w.files
look-placed p q none w ne = refl
look-placed p q (some c) w ne = ground (arith, ne, look-unlink p q w.files, text_eq_iff q p)

look-discard :
    (p q : Text) (left : Option Text) (w : World)
    → look q w.files ≡ none
    → look p (unlink q (placed q left w).files) ≡ look p w.files
look-discard p q none w e = ground (arith, e, look-unlink p q w.files, text_eq_iff q p)
look-discard p q (some c) w e = ground (
  arith,
  e,
  look-unlink p q (placed q (some c) w).files,
  look-unlink p q w.files,
  text_eq_iff q p,
)

module _ (sha1_of : Text → Text) (ctx : Context) (staging_rel : Text) (request : ArtifactRequest)
    (w : World) where
  abbrev row : Staging
  row = begun staging_rel request

  abbrev pub IsLeased : Type 0
  IsLeased = assert_lease ctx.now ctx.job_id ctx.lease_token ctx.store ≡ ok tt

  -- The facts are those of this request.
  abbrev pub IsOf : Facts → Type 0
  IsOf facts = facts.metadata.desired_rel_path ≡ request.desired_rel_path

  abbrev pub PublishEnds : (Step → Fate) → Outcome PublishedArtifact → Type 0
  PublishEnds fate (returned a w') =
      IsLeased × ((facts : Facts) × IsOf facts × IsArtifact sha1_of row facts a w')
  PublishEnds fate (raised e w') =
      IsUntouched w w'
      ⊎ (IsLeft fate row w w'
          ⊎ ((e ≡ publish_interrupted)
              × IsLeased
              × ((facts : Facts) × IsOf facts × IsUnderway sha1_of row facts w')))
  PublishEnds fate (died w') =
      IsWriting row w w'
      ⊎ (IsLeased × ((facts : Facts) × IsOf facts × IsUnderway sha1_of row facts w'))

  -- The outcomes of a publication whose job has been cancelled.
  abbrev pub LeavesNothing : (Step → Fate) → Outcome PublishedArtifact → Type 0
  LeavesNothing fate (returned a w') = ⊥
  LeavesNothing fate (raised e w') = IsUntouched w w' ⊎ IsLeft fate row w w'
  LeavesNothing fate (died w') = IsWriting row w w'

  without_lease :
      (fate : Step → Fate) (o : Outcome PublishedArtifact)
      → ¬ IsLeased
      → PublishEnds fate o
      → LeavesNothing fate o
  without_lease fate (returned a w') n h = n h.0
  without_lease fate (raised e w') n (inl h) = inl h
  without_lease fate (raised e w') n (inr (inl h)) = inr h
  without_lease fate (raised e w') n (inr (inr h)) = absurd (n h.1)
  without_lease fate (died w') n (inl h) = h
  without_lease fate (died w') n (inr h) = absurd (n h.0)

  abbrev begin : World
  begin = record w { row = some row }

  placed-IsWriting : (left : Option Text) → IsWriting row w (placed staging_rel left begin)
  placed-IsWriting none = (refl, refl, refl, refl, λ p ne. refl)
  placed-IsWriting (some c) =
      (refl, refl, refl, refl, λ p ne. look-placed p staging_rel (some c) begin ne)

  underway-Ends :
      (fate : Step → Fate) (facts : Facts) (o : Outcome PublishedArtifact)
      → IsLeased
      → IsOf facts
      → Ends (IsArtifact sha1_of row facts) (IsUnderway sha1_of row facts) o
      → PublishEnds fate (interrupted o)
  underway-Ends fate facts (returned a w') l f h = (l, (facts, f, h))
  underway-Ends fate facts (raised e w') l f h = inr (inr (refl, l, (facts, f, h)))
  underway-Ends fate facts (died w') l f h = inr (l, (facts, f, h))

  unlinked-IsWriting :
      (left : Option Text)
      → IsWriting row w (
          with_files
            (unlink staging_rel (placed staging_rel left begin).files)
            (placed staging_rel left begin))
  unlinked-IsWriting left =
      let h : IsWriting row w (placed staging_rel left begin) = placed-IsWriting left in
      (h.0, h.1, h.2, h.3, λ p ne. look-unlinked p ne ∙ h.4 p ne)
    where
      look-unlinked :
          (p : Text)
          → p ≢ staging_rel
          → look p (unlink staging_rel (placed staging_rel left begin).files)
            ≡ look p (placed staging_rel left begin).files
      look-unlinked p ne = ground (
        arith,
        ne,
        look-unlink p staging_rel (placed staging_rel left begin).files,
        text_eq_iff staging_rel p,
      )

  module _ (fate : Step → Fate) (free : look staging_rel w.files ≡ none)
      (apart : (stamp sha1 : Text) (n : ℕ)
        → candidate_paths request.desired_rel_path stamp sha1 n ≢ staging_rel) where
    discarded :
        (u d : Fate) (e : Failure) (left : Option Text)
        → fate discard_unlink_step ≡ u
        → fate discard_delete_step ≡ d
        → PublishEnds fate (
            unlink_quietly u staging_rel
              (placed staging_rel left begin)
              (λ v. delete_row d v (raised e) (raised e)))
    discarded goes goes e left uq dq =
        let h : IsWriting row w (placed staging_rel left begin) = placed-IsWriting left in
        inl (refl, h.1, h.2, h.3, λ p. look-discard p staging_rel left begin free)
    discarded goes dies e left uq dq = inl (unlinked-IsWriting left)
    discarded goes breaks e left uq dq =
        let h = unlinked-IsWriting left in inr (inl (inr dq, inr h.0, h.1, h.2, h.3, h.4))
    discarded dies d e left uq dq = inl (placed-IsWriting left)
    discarded breaks goes e left uq dq =
        let h = placed-IsWriting left in inr (inl (inl uq, inl refl, h.1, h.2, h.3, h.4))
    discarded breaks dies e left uq dq = inl (placed-IsWriting left)
    discarded breaks breaks e left uq dq =
        let h = placed-IsWriting left in inr (inl (inl uq, inr h.0, h.1, h.2, h.3, h.4))

    give_up-PublishEnds :
        (e : Failure) (left : Option Text)
        → PublishEnds fate (give_up fate e (placed staging_rel left begin))
    give_up-PublishEnds e none =
        discarded (fate discard_unlink_step) (fate discard_delete_step) e none refl refl
    give_up-PublishEnds e (some c) =
        discarded (fate discard_unlink_step) (fate discard_delete_step) e (some c) refl refl

    PublishEnds-before_staged :
        (f : Fate) (left : Option Text) (o : Outcome PublishedArtifact)
        → PublishEnds fate o
        → PublishEnds fate (before_staged fate f (placed staging_rel left begin) o)
    PublishEnds-before_staged goes left o h = h
    PublishEnds-before_staged dies left o h = inl (placed-IsWriting left)
    PublishEnds-before_staged breaks left o h = give_up-PublishEnds io_failed left

    PublishEnds-staging :
        (f : Fate) (left : Option Text) (w' : World) (o : Outcome PublishedArtifact)
        → IsLeased × ((facts : Facts) × IsOf facts × IsUnderway sha1_of row facts w')
        → PublishEnds fate o
        → PublishEnds fate (staging fate f (placed staging_rel left begin) w' o)
    PublishEnds-staging goes left w' o u h = h
    PublishEnds-staging dies left w' o u h = inr u
    PublishEnds-staging breaks left w' o u h = give_up-PublishEnds io_failed left

    module _ (fuel fresh : ℕ) where
      PublishEnds-stage_with :
          (lease : Result (Unit {0})) (content stamp : Text) (described : Described)
          → assert_lease ctx.now ctx.job_id ctx.lease_token ctx.store ≡ lease
          → PublishEnds fate (
              stage_with sha1_of fate fuel fresh ctx lease row
                (facts_of request.desired_rel_path
                  (length content)
                  (sha1_of content)
                  stamp
                  described)
                (placed staging_rel (some content) begin))
      unfolding candidate_paths
      PublishEnds-stage_with (err e) content stamp described h =
          give_up-PublishEnds publish_aborted (some content)
      PublishEnds-stage_with (ok u) content stamp described h =
          let facts : Facts =
            facts_of request.desired_rel_path (length content) (sha1_of content) stamp described in
          let w' : World = with_row row (staged facts) (placed staging_rel (some content) begin) in
          let ready : IsReady sha1_of row facts w' = (
            0,
            refl,
            inl (content, ground (arith, text_eq_iff staging_rel staging_rel), refl, refl),
          ) in
          PublishEnds-staging (fate staged_step) (some content) w' _ (h, (facts, refl, inl ready))
            (underway-Ends fate facts (finish sha1_of fate fuel fresh w') h refl (
              finish-Ends sha1_of row facts (apart stamp (sha1_of content)) fate fuel fresh w'
                (inl ready)))

      PublishEnds-with_metadata :
          (metadata : Option (Text × Described)) (content : Text)
          → PublishEnds fate (
              with_metadata sha1_of fate fuel fresh ctx metadata row request.desired_rel_path
                (length content)
                (sha1_of content)
                (placed staging_rel (some content) begin))
      PublishEnds-with_metadata none content = give_up-PublishEnds probe_failed (some content)
      PublishEnds-with_metadata (some (stamp, described)) content =
          PublishEnds-before_staged (fate metadata_step) (some content) _ (
            PublishEnds-before_staged (fate final_path_step) (some content) _ (
              PublishEnds-stage_with (assert_lease ctx.now ctx.job_id ctx.lease_token ctx.store)
                content stamp described refl))

      PublishEnds-with_made :
          (mat : Made) (metadata : Option (Text × Described))
          → IsHonest sha1_of mat
          → PublishEnds fate (
              with_made sha1_of fate fuel fresh ctx mat metadata row request.desired_rel_path begin)
      PublishEnds-with_made (broke e left) metadata h = give_up-PublishEnds e left
      PublishEnds-with_made (made content size sha1) metadata h =
          elim (Bool-cases (length content == size)) [
            | inl e ↦
                rw (e, sym ((==_iff (length content) size).0 e), h)
                  (PublishEnds-before_staged (fate verified_step) (some content) _
                    (PublishEnds-with_metadata metadata content))
            | inr e ↦ rw e (give_up-PublishEnds publish_aborted (some content))
          ]

      -- A publication is all or nothing. If it returns, the lease has been asserted, the file is
      -- published, and whoever waits for it has its id. If it raises, one of three things holds:
      -- there is no row, and files and tables are as before; the cleanup has broken too, and only the
      -- row or the file in the staging area is left; or it is interrupted, and as for a death after
      -- `staged`, the lease has been asserted and all is there for a restart to publish. If it dies
      -- before, the row says that something may lie in the staging area and nothing else has
      -- changed. The path in the staging area is free and is no candidate, and the materialiser
      -- reports the hash of what it left.
      pub publish-PublishEnds :
          (mat : Made) (metadata : Option (Text × Described))
          → IsHonest sha1_of mat
          → PublishEnds fate
              (publish sha1_of fate fuel fresh ctx staging_rel request mat metadata w)
      unfolding publish
      publish-PublishEnds mat metadata h =
          PublishEnds-before_staged (fate writing_row) none _ (PublishEnds-with_made mat metadata h)

-- Once a cancel of a job has been answered with `true`, no publication of that job goes through,
-- whatever happens to the jobs in between: it raises and leaves no row, file or change, or, where
-- the cleanup breaks, at most its row and the file in the staging area; or it dies with nothing
-- changed but these. The keys of the jobs are unique; that path is free and is no candidate, and
-- the materialiser reports the hash of what it left.
pub publish-LeavesNothing :
    (now : ℕ) (i : String) (s : JobStore)
    → IsKeyed key s.jobs
    → (request_cancel now i s).0 ≡ true
    → (h : History) (at : ℕ) (token : String)
    → (sha1_of : Text → Text) (fate : Step → Fate) (fuel fresh : ℕ) (staging_rel : Text)
      (request : ArtifactRequest) (mat : Made) (metadata : Option (Text × Described)) (w : World)
    → look staging_rel w.files ≡ none
    → ((stamp sha1 : Text) (n : ℕ)
        → candidate_paths request.desired_rel_path stamp sha1 n ≢ staging_rel)
    → IsHonest sha1_of mat
    → let store = run h (request_cancel now i s).1 in
      let ctx : Context = record { job_id = i; lease_token = token; now = at; store = store } in
      LeavesNothing sha1_of ctx staging_rel request w fate
        (publish sha1_of fate fuel fresh ctx staging_rel request mat metadata w)
publish-LeavesNothing now i s keyed said h at token sha1_of fate fuel fresh staging_rel request mat
      metadata w free apart honest =
    let store : JobStore = run h (request_cancel now i s).1 in
    let ctx : Context = record { job_id = i; lease_token = token; now = at; store = store } in
    without_lease sha1_of ctx staging_rel request w fate
      (publish sha1_of fate fuel fresh ctx staging_rel request mat metadata w)
      (λ l. cc (l, (cancel_is_final now i s keyed said h at token).0))
      (publish-PublishEnds sha1_of ctx staging_rel request w fate free apart fuel fresh mat metadata
        honest)
