-- ===== src/Publish/Steps.antt =====
-- publisher.py from step 8 on, `_link`, `_adopt_published_final`, `_commit`, `_finish` and
-- `resume`, and the steps before it, `_publish` and `_discard_writing`.
use mediaferry.Naming.{candidate_paths}
use mediaferry.Publish.{
  Fate, goes, dies, breaks, io_failed, link_step, committing_step, discard_unlink_step,
  discard_delete_step, File, look, unlink, add_file, Facts, Stage, writing, staged, published,
  Staging, MediaFile, SourceEntry, MergeGroup, World, PublishedArtifact, staging_lost, no_row,
  Outcome, returned, raised, died, and_then, checkpoint, Step, linked_step, dir_fsynced_step,
  staging_unlinked_step, committed_step,
}
use mediaferry.Text.{Text, text_eq}
use mediaferry.Base.{
  ℕ, zero, suc, Bool, true, false, ◌&&◌, Option, none, some, List, [], ◌∷◌, ◌++◌, map, ◌==◌,
  if◌then◌else◌, length,
}

abbrev pub with_row : Staging → Stage → World → World
with_row row stage w = record w { row = some (record row { stage = stage }) }

abbrev pub with_files : List File → World → World
with_files fs w = record w { files = fs }

-- `for candidate in names: if candidate == final_rel: break`, as far as the fuel lasts.
unfoldable pub skip_to : ℕ → (ℕ → Text) → Text → ℕ → Option ℕ
skip_to zero names final_rel i = none
skip_to (suc fuel) names final_rel i =
    let rest = skip_to fuel names final_rel (suc i) in
    if text_eq (names i) final_rel then some i else rest

abbrev pub existing_id : Text → List MediaFile → Option ℕ
existing_id rel_path [] = none
existing_id rel_path (m ∷ ms) =
    if text_eq m.rel_path rel_path then some m.id else existing_id rel_path ms

abbrev pub file_of : ℕ → Facts → MediaFile
file_of id facts = record {
  id = id;
  rel_path = facts.final_rel_path;
  size_bytes = facts.expected_size;
  sha1 = facts.content_sha1;
  described = facts.metadata.described;
  captured_at_revision_id = facts.metadata.described.profile_revision_id;
}

abbrev pub is_id : ℕ → Option ℕ → Bool
is_id id none = false
is_id id (some n) = id == n

abbrev pub mark_entries : Option ℕ → ℕ → List SourceEntry → List SourceEntry
mark_entries wanted media_file_id = map (λ (e : SourceEntry).
    if is_id e.id wanted
    then record e { media_file_id = some media_file_id; is_published = true }
    else e)

abbrev pub mark_groups : Option ℕ → ℕ → List MergeGroup → List MergeGroup
mark_groups wanted media_file_id = map (λ (g : MergeGroup).
    if is_id g.id wanted then record g { output_media_file_id = some media_file_id } else g)

abbrev pub artifact_of : ℕ → Facts → Bool → PublishedArtifact
artifact_of id facts reused = record {
  media_file_id = id;
  rel_path = facts.final_rel_path;
  size_bytes = facts.expected_size;
  sha1 = facts.content_sha1;
  reused_existing = reused;
}

-- The writes of the transaction of `_commit`, with the id that the file has or gets.
abbrev pub record_commit : ℕ → List MediaFile → Staging → Facts → World → World
record_commit id media row facts w = record w {
  row = some (record row { stage = published facts });
  media = media;
  entries = mark_entries row.source_entry_id id w.entries;
  groups = mark_groups row.merge_group_id id w.groups;
}

abbrev pub commit_as :
    (Step → Fate) → Option ℕ → ℕ → Staging → Facts → Bool → World → Outcome PublishedArtifact
commit_as fate (some id) fresh row facts reused w =
    let w' = record_commit id w.media row facts w in
    checkpoint (fate committing_step) w
      (checkpoint (fate committed_step) w' (returned (artifact_of id facts reused) w'))
commit_as fate none fresh row facts reused w =
    let w' = record_commit fresh (w.media ++ (file_of fresh facts ∷ [])) row facts w in
    checkpoint (fate committing_step) w
      (checkpoint (fate committed_step) w' (returned (artifact_of fresh facts reused) w'))

abbrev pub names_of : Facts → ℕ → Text
names_of facts =
    candidate_paths facts.metadata.desired_rel_path facts.metadata.collision_stamp
      facts.content_sha1

-- `DELETE FROM artifact_staging`
abbrev pub delete_row :
    {A : Type 0} → Fate → World → (World → Outcome A) → (World → Outcome A) → Outcome A
delete_row goes w gone kept = gone (record w { row = none })
delete_row dies w gone kept = died w
delete_row breaks w gone kept = kept w

-- The unlink, whose errors are suppressed.
abbrev pub unlink_quietly : {A : Type 0} → Fate → Text → World → (World → Outcome A) → Outcome A
unlink_quietly goes path w rest = rest (with_files (unlink path w.files) w)
unlink_quietly dies path w rest = died w
unlink_quietly breaks path w rest = rest w

-- The file goes if it can, then the row; `kept` is what follows if the row cannot be deleted.
abbrev pub discard_row :
    {A : Type 0}
    → (Step → Fate)
    → Staging
    → World
    → (World → Outcome A)
    → (World → Outcome A)
    → Outcome A
discard_row fate row w gone kept =
    unlink_quietly (fate discard_unlink_step) row.staging_rel_path w
      (λ v. delete_row (fate discard_delete_step) v gone kept)

abbrev pub some_artifact : PublishedArtifact → World → Outcome (Option PublishedArtifact)
some_artifact a w = returned (some a) w

abbrev pub resume_stage :
    (Step → Fate)
    → Stage
    → Staging
    → Outcome PublishedArtifact
    → World
    → Outcome (Option PublishedArtifact)
resume_stage fate writing row rest w = discard_row fate row w (returned none) (raised io_failed)
resume_stage fate (staged facts) row rest w = and_then rest some_artifact
resume_stage fate (published facts) row rest w = and_then rest some_artifact

abbrev pub resume_row :
    (Step → Fate)
    → Option Staging
    → Outcome PublishedArtifact
    → World
    → Outcome (Option PublishedArtifact)
resume_row fate none rest w = returned none w
resume_row fate (some row) rest w = resume_stage fate row.stage row rest w

abbrev pub discard_stage :
    {A : Type 0} → (Step → Fate) → Stage → Staging → World → (World → Outcome A) → Outcome A
discard_stage fate writing row w rest = discard_row fate row w rest rest
discard_stage fate (staged facts) row w rest = rest w
discard_stage fate (published facts) row w rest = rest w

abbrev pub discard_found :
    {A : Type 0} → (Step → Fate) → Option Staging → World → (World → Outcome A) → Outcome A
discard_found fate none w rest = rest w
discard_found fate (some row) w rest = discard_stage fate row.stage row w rest

-- `_discard_writing`, whose errors the caller suppresses.
abbrev pub discard_writing : {A : Type 0} → (Step → Fate) → World → (World → Outcome A) → Outcome A
discard_writing fate w rest = discard_found fate w.row w rest

module _ (fate : Step → Fate) where
  -- Steps 8 to 10 once the name is linked.
  abbrev pub clear_staging : Staging → Bool → World → Outcome Bool
  clear_staging row reused w =
      let w' = with_files (unlink row.staging_rel_path w.files) w in
      checkpoint (fate linked_step) w (
        checkpoint (fate dir_fsynced_step) w
          (checkpoint (fate staging_unlinked_step) w' (returned reused w')))

  abbrev pub commit_stage : Stage → Staging → ℕ → Bool → World → Outcome PublishedArtifact
  commit_stage writing row fresh reused w = raised no_row w
  commit_stage (staged facts) row fresh reused w =
      commit_as fate (existing_id facts.final_rel_path w.media) fresh row facts reused w
  commit_stage (published facts) row fresh reused w =
      commit_as fate (existing_id facts.final_rel_path w.media) fresh row facts reused w

  abbrev pub commit_row : Option Staging → ℕ → Bool → World → Outcome PublishedArtifact
  commit_row none fresh reused w = raised no_row w
  commit_row (some row) fresh reused w = commit_stage row.stage row fresh reused w

  unfoldable pub commit : ℕ → Bool → World → Outcome PublishedArtifact
  commit fresh reused w = commit_row (w.row) fresh reused w

module _ (sha1_of : Text → Text) where
  -- `_is_same_content`, of what is at the path
  abbrev pub is_same_content : Option Text → Facts → Bool
  is_same_content none facts = false
  is_same_content (some content) facts =
      length content == facts.expected_size && text_eq (sha1_of content) facts.content_sha1

  -- One `os.link`: where nothing is, it succeeds or else breaks at its step; where something is,
  -- the same content is taken for ours, and other content sends us to the next name.
  abbrev pub try_link : Option Text → Text → Facts → World → Outcome Bool → Outcome Bool
  try_link none content facts w rest =
      returned false (with_files (add_file facts.final_rel_path content w.files) w)
  try_link (some found) content facts w rest =
      if is_same_content (some found) facts then returned true w else rest

  -- The loop from the `i`-th name on. The fuel is how many attempts the process lives to make.
  unfoldable pub link_loop :
      (Step → Fate) → ℕ → (ℕ → Text) → ℕ → Text → Staging → Facts → World → Outcome Bool
  link_loop fate zero names i content row facts w = died w
  link_loop fate (suc fuel) names i content row facts w =
      let next = record facts { final_rel_path = names (suc i) } in
      let rest =
        link_loop fate fuel names (suc i) content row next (with_row row (staged next) w) in
      checkpoint (fate (link_step i)) w
        (try_link (look facts.final_rel_path w.files) content facts w rest)

module _ (sha1_of : Text → Text) (fate : Step → Fate) where
  abbrev pub adopt_published_final : Facts → World → Outcome Bool
  adopt_published_final facts w =
      if is_same_content sha1_of (look facts.final_rel_path w.files) facts
      then checkpoint (fate dir_fsynced_step) w
          (checkpoint (fate staging_unlinked_step) w (returned true w))
      else raised staging_lost w

  abbrev pub link_from : Option ℕ → ℕ → (ℕ → Text) → Text → Staging → Facts → World → Outcome Bool
  link_from none fuel names content row facts w = died w
  link_from (some i) fuel names content row facts w =
      and_then (link_loop sha1_of fate fuel names i content row facts w) (clear_staging fate row)

  abbrev pub link_content : Option Text → ℕ → Staging → Facts → World → Outcome Bool
  link_content none fuel row facts w = adopt_published_final facts w
  link_content (some content) fuel row facts w =
      link_from (skip_to fuel (names_of facts) facts.final_rel_path 0) fuel (names_of facts) content
        row facts w

  unfoldable pub link : ℕ → Staging → Facts → World → Outcome Bool
  unfolding link_loop skip_to candidate_paths
  link fuel row facts w = link_content (look row.staging_rel_path w.files) fuel row facts w

  abbrev pub finish_stage : Stage → ℕ → ℕ → Staging → World → Outcome PublishedArtifact
  finish_stage (staged facts) fuel fresh row w =
      and_then (link fuel row facts w) (commit fate fresh)
  finish_stage writing fuel fresh row w = commit fate fresh false w
  finish_stage (published facts) fuel fresh row w = commit fate fresh false w

  abbrev pub finish_row : Option Staging → ℕ → ℕ → World → Outcome PublishedArtifact
  finish_row none fuel fresh w = raised no_row w
  finish_row (some row) fuel fresh w = finish_stage row.stage fuel fresh row w

  unfoldable pub finish : ℕ → ℕ → World → Outcome PublishedArtifact
  unfolding link commit
  finish fuel fresh w = finish_row w.row fuel fresh w

  unfoldable pub resume : ℕ → ℕ → World → Outcome (Option PublishedArtifact)
  unfolding finish
  resume fuel fresh w = resume_row fate w.row (finish fuel fresh w) w
