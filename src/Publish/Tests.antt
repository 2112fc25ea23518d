-- ===== src/Publish/Tests.antt =====
-- publisher.py at fixed inputs, and instances of what is proved.
use mediaferry.Naming.{candidate_paths, split, join, tag}
use mediaferry.Naming.Paths.{IsSafePart}
use mediaferry.Jobs.{Job, JobStore, new_job, start_row, request_cancel}
use mediaferry.Jobs.Leases.{run}
use mediaferry.Sql.{update, rowcount, get}
use mediaferry.Publish.Staged.{
  PublishEnds, LeavesNothing, publish-PublishEnds, publish-LeavesNothing,
}
use mediaferry.Publish.Restart.{Attempt, restart, link-HasReturned, resume-restart}
use mediaferry.Publish.Keeps.{Keeps, publisher-Keeps}
use mediaferry.Publish.Request.{
  Made, ArtifactRequest, Context, begun, materialise_write, facts_of, publish,
}
use mediaferry.Publish.Recovery.{Ends, IsFound}
use mediaferry.Publish.Links.{lives, HasReturned}
use mediaferry.Publish.Steps.{skip_to, file_of, commit, link_loop, link, finish, resume}
use mediaferry.Publish.{
  Described, Facts, staged, published, Staging, World, left_by, Fate, goes, dies, breaks, link_step,
  io_failed, raised, Step, linked_step,
}
use mediaferry.Text.{Text, codes, last_dot, has_stem, splitext}
use mediaferry.Base.{
  ℕ, zero, suc, ◌<◌, ◌≡◌, refl, ◌≢◌, inl, true, false, none, some, List, [], ◌∷◌, arith, length,
  All,
}

-- A stand-in for the hash.
abbrev sum : Text → Text
sum content = (length content) ∷ content

abbrev described_one : Described
described_one = record {
  role = codes "original";
  profile_id = 1;
  profile_revision_id = 2;
  kind = codes "video";
  captured_at = codes "2024";
  captured_at_source = codes "mtime";
  captured_at_tz = none;
  captured_at_note = none;
  container_wall = none;
  duration_seconds = some 3;
  probe_state = codes "ok";
  mtime_ns = 5;
}

abbrev wanted : Text
wanted = codes "library/a7/A.MP4"

abbrev staging_path : Text
staging_path = codes "staging/j/s"

abbrev content_one : Text
content_one = codes "xyz"

abbrev facts_one : Facts
facts_one = facts_of wanted 3 (sum content_one) (codes "2024") described_one

abbrev request_one : ArtifactRequest
request_one = record { desired_rel_path = wanted; source_entry_id = some 7; merge_group_id = none }

abbrev row_one : Staging
row_one = begun staging_path request_one

-- Another file is at the wanted path, and ours waits in the staging area.
abbrev taken_world : World
taken_world = record {
  row = some (record row_one { stage = staged facts_one });
  files =
      record { path = wanted; content = codes "other" }
      ∷ record { path = staging_path; content = content_one }
      ∷ [];
  media = [];
  entries = record { id = 7; media_file_id = none; is_published = false } ∷ [];
  groups = [];
}

abbrev empty_world : World
empty_world = record taken_world {
  row = none;
  files = record { path = wanted; content = codes "other" } ∷ [];
}

wanted-IsSafePart : All IsSafePart (split wanted)
unfolding split
wanted-IsSafePart = (part, (part', (part'', tt)))
  where
    part : IsSafePart (codes "library")
    part = ((λ h. cc), (λ h. cc), (λ h. cc), refl, refl, refl)

    part' : IsSafePart (codes "a7")
    part' = ((λ h. cc), (λ h. cc), (λ h. ground (arith, h)), refl, refl, refl)

    part'' : IsSafePart (codes "A.MP4")
    part'' = ((λ h. cc), (λ h. cc), (λ h. ground (arith, h)), refl, refl, refl)

first_differs : (s t : Text) → Path Text (b'l' ∷ s) (b's' ∷ t) → ⊥
first_differs s t h = ground (arith, h)

wanted_apart : (stamp sha1 : Text) (n : ℕ) → candidate_paths wanted stamp sha1 n ≢ staging_path
unfolding candidate_paths split join splitext last_dot has_stem
wanted_apart stamp sha1 zero h = first_differs _ _ h
wanted_apart stamp sha1 (suc n) h = first_differs _ _ h

-- The second name is taken, and the file gets there.
resume_run : left_by (resume sum lives 9 40 taken_world) ≡ record taken_world {
  row = some (record row_one {
    stage = published (record facts_one { final_rel_path = codes "library/a7/A_2024.MP4" });
  });
  files =
      record { path = codes "library/a7/A_2024.MP4"; content = content_one }
      ∷ record { path = wanted; content = codes "other" }
      ∷ [];
  media = file_of 40 (record facts_one { final_rel_path = codes "library/a7/A_2024.MP4" }) ∷ [];
  entries = record { id = 7; media_file_id = some 40; is_published = true } ∷ [];
}
unfolding resume finish link commit link_loop skip_to candidate_paths split join tag splitext
    last_dot has_stem
resume_run = refl

-- No link can be made.
abbrev breaks_links : Step → Fate
breaks_links (link_step i) = breaks
breaks_links step = goes

resume_breaks : resume sum breaks_links 9 40 taken_world ≡ raised io_failed taken_world
unfolding resume finish link commit link_loop skip_to candidate_paths split join tag splitext
    last_dot has_stem
resume_breaks = refl

link-HasReturned_example :
    HasReturned
      (link sum lives 9 (record row_one { stage = staged facts_one }) facts_one taken_world)
unfolding candidate_paths
link-HasReturned_example =
    link-HasReturned sum row_one facts_one wanted-IsSafePart
      (wanted_apart (codes "2024") (sum content_one)) 9 0 taken_world refl
      (inl (content_one, refl, refl, refl)) (omega arith)

abbrev dies_linked : Step → Fate
dies_linked linked_step = dies
dies_linked step = goes

-- A link breaks, then the process dies between two links, and then after one.
abbrev died_twice : List Attempt
died_twice =
    record { fuel = 9; fresh = 29; fate = breaks_links }
    ∷ record { fuel = 1; fresh = 30; fate = lives }
    ∷ record { fuel = 9; fresh = 31; fate = dies_linked }
    ∷ []

resume-restart_example :
    (enough : ℕ) × ((fuel fresh : ℕ)
      → enough < fuel
      → Ends
          (IsFound sum row_one facts_one)
          (λ _. ⊥)
          (resume sum lives fuel fresh (restart sum died_twice taken_world)))
unfolding candidate_paths
resume-restart_example =
    resume-restart sum row_one facts_one wanted-IsSafePart
      (wanted_apart (codes "2024") (sum content_one)) died_twice taken_world
      (0, refl, inl (content_one, refl, refl, refl))

abbrev running_job : Job
running_job = start_row 10 "t" 60_000_010 (new_job 5 "a" "import" "{}")

abbrev store_one : JobStore
store_one = record { jobs = running_job ∷ []; events = []; lease_seconds = 60 }

abbrev context_one : Context
context_one = record { job_id = "a"; lease_token = "t"; now = 20; store = store_one }

abbrev made_one : Made
made_one = materialise_write sum (λ written. written) (codes "x" ∷ codes "yz" ∷ []) none

publish-PublishEnds_example :
    PublishEnds sum context_one staging_path request_one empty_world lives (
      publish sum lives 9 40 context_one staging_path request_one made_one
        (some (codes "2024", described_one))
        empty_world)
publish-PublishEnds_example =
    publish-PublishEnds sum context_one staging_path request_one empty_world lives refl wanted_apart
      9 40 made_one (some (codes "2024", described_one)) refl

publish-LeavesNothing_example :
    LeavesNothing sum
      (record context_one { now = 30; store = run [] (request_cancel 15 "a" store_one).1 })
      staging_path
      request_one
      empty_world
      lives
      (publish sum lives 9 40
        (record context_one { now = 30; store = run [] (request_cancel 15 "a" store_one).1 })
        staging_path
        request_one
        made_one
        (some (codes "2024", described_one))
        empty_world)
unfolding request_cancel rowcount get update
publish-LeavesNothing_example =
    publish-LeavesNothing 15 "a" store_one (refl, tt) refl [] 30 "t" sum lives 9 40 staging_path
      request_one made_one (some (codes "2024", described_one)) empty_world refl wanted_apart refl

publisher-Keeps_example :
    Keeps staging_path empty_world (
      left_by (
        publish sum lives 9 40 context_one staging_path request_one made_one
          (some (codes "2024", described_one))
          empty_world))
    × Keeps staging_path taken_world (left_by (resume sum lives 9 40 taken_world))
publisher-Keeps_example =
    publisher-Keeps sum lives 9 40 context_one staging_path request_one made_one
      (some (codes "2024", described_one)) (record row_one { stage = staged facts_one }) empty_world
      taken_world refl
