-- ===== src/Publish/Request.antt =====
-- publisher.py, `_publish`: the steps up to `staged`, after which there is no way back, and the
-- writers that put the file into the staging area. What the disk keeps of a write, the reads of a
-- file and the answers of ffprobe are parameters.
use mediaferry.Jobs.{JobStore, Result, ok, err, assert_lease}
use mediaferry.Publish.Steps.{with_row, with_files, discard_writing, finish}
use mediaferry.Publish.{
  unlink, add_file, Described, Facts, writing, staged, Staging, World, PublishedArtifact, Failure,
  publish_aborted, publish_cancelled, publish_interrupted, probe_failed, Outcome, returned, raised,
  died, Fate, goes, dies, breaks, io_failed, Step, writing_row, verified_step, metadata_step,
  final_path_step, staged_step,
}
use mediaferry.Text.{Text}
use mediaferry.Base.{
  ℕ, suc, ◌+◌, String, Bool, Option, none, some, List, [], ◌∷◌, ◌++◌, ◌==◌, if◌then◌else◌, length,
}

-- `HashingWriter`: what has been written and hashed, and its size.
pub record Writer : Type 0 where
  pub hashed : Text
  pub size : ℕ

abbrev pub write : Writer → Text → Writer
write writer chunk = record { hashed = writer.hashed ++ chunk; size = writer.size + length chunk }

abbrev pub write_all : Writer → List Text → Writer
write_all writer [] = writer
write_all writer (chunk ∷ chunks) = write_all (write writer chunk) chunks

-- What a materialiser leaves in the staging area: the file, with the size and hash that it
-- reports, or what is there when it raises.
pub data Made : Type 0 where
  made : Text → ℕ → Text → Made
  broke : Failure → Option Text → Made

pub record ArtifactRequest : Type 0 where
  pub desired_rel_path : Text
  pub source_entry_id : Option ℕ
  pub merge_group_id : Option ℕ

-- Who publishes: the job and its token, at a time, and the table of the jobs.
pub record Context : Type 0 where
  pub job_id : String
  pub lease_token : String
  pub now : ℕ
  pub store : JobStore

abbrev pub begun : Text → ArtifactRequest → Staging
begun staging_rel request = record {
  staging_rel_path = staging_rel;
  stage = writing;
  source_entry_id = request.source_entry_id;
  merge_group_id = request.merge_group_id;
}

abbrev pub placed : Text → Option Text → World → World
placed staging_rel none w = w
placed staging_rel (some content) w =
    with_files (add_file staging_rel content (unlink staging_rel w.files)) w

-- `except Exception: self._discard_writing(staging_id); raise`
abbrev pub give_up : (Step → Fate) → Failure → World → Outcome PublishedArtifact
give_up fate e w = discard_writing fate w (raised e)

-- A step before `staged`: what it asks of the system may raise, too.
abbrev pub before_staged :
    (Step → Fate) → Fate → World → Outcome PublishedArtifact → Outcome PublishedArtifact
before_staged fate goes w rest = rest
before_staged fate dies w rest = died w
before_staged fate breaks w rest = give_up fate io_failed w

-- The transaction of step 7, which is undone if it raises.
abbrev pub staging :
    (Step → Fate) → Fate → World → World → Outcome PublishedArtifact → Outcome PublishedArtifact
staging fate goes w w' rest = rest
staging fate dies w w' rest = died w'
staging fate breaks w w' rest = give_up fate io_failed w

abbrev pub interrupted : Outcome PublishedArtifact → Outcome PublishedArtifact
interrupted (returned a w) = returned a w
interrupted (raised e w) = raised publish_interrupted w
interrupted (died w) = died w

module _ (sha1_of : Text → Text) where
  -- `_materialise_write`: the chunks go to the file and to the hash. `kept` is what the disk has of
  -- what was written, `fails` whether the source raised after these chunks.
  abbrev pub materialise_write : (Text → Text) → List Text → Option Failure → Made
  materialise_write kept chunks (some failure) =
      broke failure (some (kept (write_all (record { hashed = []; size = 0 }) chunks).hashed))
  materialise_write kept chunks none =
      let writer = write_all (record { hashed = []; size = 0 }) chunks in
      made (kept writer.hashed) writer.size (sha1_of writer.hashed)

  -- The reads of `_materialise_link`: after each chunk a cancel is looked for.
  unfoldable pub read_all : (ℕ → Bool) → ℕ → Writer → List Text → Option Writer
  read_all cancelled i writer [] = some writer
  read_all cancelled i writer (chunk ∷ chunks) =
      let rest = read_all cancelled (suc i) (write writer chunk) chunks in
      if cancelled i then none else rest

  abbrev pub linked_as : Text → Option Writer → Made
  linked_as content none = broke publish_cancelled (some content)
  linked_as content (some writer) = made content writer.size (sha1_of writer.hashed)

  -- `_materialise_link`, of the prepared file as the reads give it
  unfoldable pub materialise_link : (ℕ → Bool) → Text → List Text → Made
  unfolding read_all
  materialise_link cancelled content chunks =
      linked_as content (read_all cancelled 0 (record { hashed = []; size = 0 }) chunks)

abbrev pub facts_of : Text → ℕ → Text → Text → Described → Facts
facts_of desired size sha1 stamp described = record {
  final_rel_path = desired;
  expected_size = size;
  content_sha1 = sha1;
  metadata = record { desired_rel_path = desired; collision_stamp = stamp; described = described };
}

module _ (sha1_of : Text → Text) (fate : Step → Fate) (fuel fresh : ℕ) (ctx : Context) where
  -- Step 7: the lease is asserted and the row moved on in one transaction.
  abbrev pub stage_with : Result (Unit {0}) → Staging → Facts → World → Outcome PublishedArtifact
  stage_with (err e) row facts w = give_up fate publish_aborted w
  stage_with (ok _) row facts w =
      let w' = with_row row (staged facts) w in
      staging fate (fate staged_step) w w' (interrupted (finish sha1_of fate fuel fresh w'))

  -- Steps 5 and 6: what ffprobe and the resolver of the time say; `none` if one of them raises.
  abbrev pub with_metadata :
      Option (Text × Described) → Staging → Text → ℕ → Text → World → Outcome PublishedArtifact
  with_metadata none row desired size sha1 w = give_up fate probe_failed w
  with_metadata (some (stamp, described)) row desired size sha1 w =
      before_staged fate (fate metadata_step) w (
        before_staged fate (fate final_path_step) w (
          stage_with (assert_lease ctx.now ctx.job_id ctx.lease_token ctx.store) row
            (facts_of desired size sha1 stamp described) w))

  abbrev pub with_made :
      Made → Option (Text × Described) → Staging → Text → World → Outcome PublishedArtifact
  with_made (broke e left) metadata row desired w =
      give_up fate e (placed row.staging_rel_path left w)
  with_made (made content size sha1) metadata row desired w =
      let w' = placed row.staging_rel_path (some content) w in
      if length content == size
      then before_staged fate (fate verified_step) w'
          (with_metadata metadata row desired size sha1 w')
      else give_up fate publish_aborted w'

  unfoldable pub publish :
      Text → ArtifactRequest → Made → Option (Text × Described) → World → Outcome PublishedArtifact
  unfolding finish assert_lease
  publish staging_rel request mat metadata w =
      let row = begun staging_rel request in
      let w' = record w { row = some row } in
      before_staged fate (fate writing_row) w'
        (with_made mat metadata row request.desired_rel_path w')
