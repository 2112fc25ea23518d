-- ===== src/Publish/Recovery.antt =====
-- publisher.py, `resume`: a publication that has reached `staged` is brought to its end, wherever
-- the process has died before.
use mathlib.Core.Path.{subst}
use mediaferry.Publish.Links.{look-unlink}
use mediaferry.Publish.Steps.{
  with_row, with_files, skip_to, existing_id, file_of, is_id, mark_entries, mark_groups,
  artifact_of, record_commit, commit_as, names_of, is_same_content, link_loop,
  adopt_published_final, clear_staging, link, commit, finish,
}
use mediaferry.Publish.{
  Fate, goes, dies, breaks, committing_step, link_step, add_file, File, look, unlink, Facts, Stage,
  staged, published, Staging, MediaFile, SourceEntry, MergeGroup, World, PublishedArtifact, Outcome,
  returned, raised, died, and_then, checkpoint, Step, linked_step, dir_fsynced_step,
  staging_unlinked_step, committed_step,
}
use mediaferry.Text.{Text, text_eq, text_eq_iff}
use mediaferry.Base.{
  ℕ, zero, suc, ◌≡◌, refl, sym, ap, ◌∙◌, ◌≢◌, ==_iff, All, ◌⊎◌, inl, inr, Bool, true, false, Option,
  none, some, List, [], ◌∷◌, ◌++◌, arith, Bool-cases, Option-cases, length,
}

-- What holds of a call's value and world, or else of the world in which it raises or dies.
abbrev pub Ends : {A : Type 0} → (A → World → Type 0) → (World → Type 0) → Outcome A → Type 0
Ends P Q (returned a w) = P a w
Ends P Q (raised e w) = Q w
Ends P Q (died w) = Q w

pub Ends-and_then :
    {A B : Type 0} (P : A → World → Type 0) (Q : World → Type 0) (R : B → World → Type 0)
    (o : Outcome A) (f : A → World → Outcome B)
    → Ends P Q o
    → ((a : A) (w : World) → P a w → Ends R Q (f a w))
    → Ends R Q (and_then o f)
Ends-and_then P Q R (returned a w) f h g = g a w h
Ends-and_then P Q R (raised e w) f h g = h
Ends-and_then P Q R (died w) f h g = h

Ends-checkpoint :
    {A : Type 0} (P : A → World → Type 0) (Q : World → Type 0) (fate : Fate) (w : World)
    (o : Outcome A)
    → Q w
    → Ends P Q o
    → Ends P Q (checkpoint fate w o)
Ends-checkpoint P Q goes w o q h = h
Ends-checkpoint P Q dies w o q h = q
Ends-checkpoint P Q breaks w o q h = q

pub Ends-imp :
    {A : Type 0} (P : A → World → Type 0) (Q R : World → Type 0) (o : Outcome A)
    → ((w : World) → Q w → R w)
    → Ends P Q o
    → Ends P R o
Ends-imp P Q R (returned a w) f h = h
Ends-imp P Q R (raised e w) f h = f w h
Ends-imp P Q R (died w) f h = f w h

pub skip_to-some :
    (fuel : ℕ) (names : ℕ → Text) (final : Text) (i j : ℕ)
    → skip_to fuel names final i ≡ some j
    → names j ≡ final
unfolding skip_to
skip_to-some zero names final i j h = cc
skip_to-some (suc fuel) names final i j h = elim (Bool-cases (text_eq (names i) final)) [
  | inl e ↦ ground (arith, e, h, text_eq_iff (names i) final)
  | inr e ↦ skip_to-some fuel names final (suc i) j (ground (arith, e, h))
]

abbrev head_or : {A : Type 0} → A → List A → A
head_or a [] = a
head_or a (x ∷ xs) = x

abbrev tail : {A : Type 0} → List A → List A
tail [] = []
tail (x ∷ xs) = xs

-- The source entry that waits for the file is published under its id.
abbrev pub IsToldEntry : Option ℕ → ℕ → SourceEntry → Type 0
IsToldEntry wanted id e = wanted ≡ some e.id → (e.media_file_id ≡ some id) × (e.is_published ≡ true)

-- The group that waits for it has it as its output.
abbrev pub IsToldGroup : Option ℕ → ℕ → MergeGroup → Type 0
IsToldGroup wanted id g = wanted ≡ some g.id → g.output_media_file_id ≡ some id

wants : (wanted : Option ℕ) (n : ℕ) → wanted ≡ some n → is_id n wanted ≡ true
wants none n h = cc
wants (some m) n h = ground (arith, h, ==_iff n m)

all-IsToldEntry :
    (wanted : Option ℕ) (id : ℕ) (es : List SourceEntry)
    → mark_entries wanted id es ≡ es
    → All (IsToldEntry wanted id) es
all-IsToldEntry wanted id [] h = tt
all-IsToldEntry wanted id (e ∷ es) h = (
  λ q.
      let same : record e { media_file_id = some id; is_published = true } ≡ e =
        sym (rw (wants wanted e.id q) refl) ∙ ap (head_or e) h in
      (
        sym (ap (λ (x : SourceEntry). x.media_file_id) same),
        sym (ap (λ (x : SourceEntry). x.is_published) same),
      ),
  all-IsToldEntry wanted id es (ap tail h),
)

all-IsToldGroup :
    (wanted : Option ℕ) (id : ℕ) (gs : List MergeGroup)
    → mark_groups wanted id gs ≡ gs
    → All (IsToldGroup wanted id) gs
all-IsToldGroup wanted id [] h = tt
all-IsToldGroup wanted id (g ∷ gs) h = (
  λ q.
      let same : record g { output_media_file_id = some id } ≡ g =
        sym (rw (wants wanted g.id q) refl) ∙ ap (head_or g) h in
      sym (ap (λ (x : MergeGroup). x.output_media_file_id) same),
  all-IsToldGroup wanted id gs (ap tail h),
)

module _ (sha1_of : Text → Text) (base : Staging) (facts : Facts) where
  abbrev pub named : ℕ → Facts
  named k = record facts { final_rel_path = names_of facts k }

  -- The path holds what was staged: its size and its hash.
  abbrev pub HasContent : Text → List File → Type 0
  HasContent path fs =
      (c : Text) × (look path fs ≡ some c)
      × (length c ≡ facts.expected_size)
      × (sha1_of c ≡ facts.content_sha1)

  abbrev pub RowAt : (Facts → Stage) → ℕ → World → Type 0
  RowAt stage k w = w.row ≡ some (record base { stage = stage (named k) })

  -- Staged, with the file in the staging area or else already under its name.
  abbrev pub IsReady : World → Type 0
  IsReady w =
      (k : ℕ) × RowAt staged k w
      × (HasContent base.staging_rel_path w.files
          ⊎ ((look base.staging_rel_path w.files ≡ none) × HasContent (names_of facts k) w.files))

  -- Published: the file is under its name and in the table, and whoever waits for it knows its id.
  abbrev pub IsDone : World → Type 0
  IsDone w =
      (k : ℕ) × (id : ℕ) × RowAt published k w
      × HasContent (names_of facts k) w.files
      × (existing_id (names_of facts k) w.media ≡ some id)
      × All (IsToldEntry base.source_entry_id id) w.entries
      × All (IsToldGroup base.merge_group_id id) w.groups

  abbrev pub IsUnderway : World → Type 0
  IsUnderway w = IsReady w ⊎ IsDone w

  abbrev pub IsLinked : Bool → World → Type 0
  IsLinked reused w = (k : ℕ) × RowAt staged k w × HasContent (names_of facts k) w.files × IsReady w

  abbrev pub IsLinkedStill : Bool → World → Type 0
  IsLinkedStill reused w = IsLinked reused w × HasContent base.staging_rel_path w.files

  HasContent-same :
      (path c : Text) (fs : List File)
      → look path fs ≡ some c
      → is_same_content sha1_of (some c) facts ≡ true
      → HasContent path fs
  HasContent-same path c fs e h =
      (c, e, ground (arith, h), ground (arith, h, text_eq_iff (sha1_of c) facts.content_sha1))

  HasContent-unlink :
      (path gone : Text) (fs : List File)
      → path ≢ gone
      → HasContent path fs
      → HasContent path (unlink gone fs)
  HasContent-unlink path gone fs ne (c, e, l, s) =
      (c, ground (arith, e, ne, look-unlink path gone fs, text_eq_iff gone path), l, s)

  unlink-look : (gone : Text) (fs : List File) → look gone (unlink gone fs) ≡ none
  unlink-look gone fs = ground (arith, look-unlink gone gone fs, text_eq_iff gone gone)

  abbrev pub IsArtifact : PublishedArtifact → World → Type 0
  IsArtifact a w =
      IsDone w
      × HasContent a.rel_path w.files
      × (existing_id a.rel_path w.media ≡ some a.media_file_id)
      × (a.size_bytes ≡ facts.expected_size)
      × (a.sha1 ≡ facts.content_sha1)
      × All (IsToldEntry base.source_entry_id a.media_file_id) w.entries
      × All (IsToldGroup base.merge_group_id a.media_file_id) w.groups

  abbrev pub IsFound : Option PublishedArtifact → World → Type 0
  IsFound found w = (a : PublishedArtifact) × (found ≡ some a) × IsArtifact a w

  existing_id-append :
      (id : ℕ) (f : Facts) (ms : List MediaFile)
      → existing_id f.final_rel_path ms ≡ none
      → existing_id f.final_rel_path (ms ++ (file_of id f ∷ [])) ≡ some id
  existing_id-append id f [] h = ground (arith, text_eq_iff f.final_rel_path f.final_rel_path)
  existing_id-append id f (m ∷ ms) h = ground (arith, existing_id-append id f ms)

  mark_entries_twice :
      (wanted : Option ℕ) (id : ℕ) (es : List SourceEntry)
      → mark_entries wanted id (mark_entries wanted id es) ≡ mark_entries wanted id es
  mark_entries_twice wanted id [] = refl
  mark_entries_twice wanted id (e ∷ es) = elim (Bool-cases (is_id e.id wanted)) [
    | inl h ↦ ground (arith, h, mark_entries_twice wanted id es)
    | inr h ↦ ground (arith, h, mark_entries_twice wanted id es)
  ]

  mark_groups_twice :
      (wanted : Option ℕ) (id : ℕ) (gs : List MergeGroup)
      → mark_groups wanted id (mark_groups wanted id gs) ≡ mark_groups wanted id gs
  mark_groups_twice wanted id [] = refl
  mark_groups_twice wanted id (g ∷ gs) = elim (Bool-cases (is_id g.id wanted)) [
    | inl h ↦ ground (arith, h, mark_groups_twice wanted id gs)
    | inr h ↦ ground (arith, h, mark_groups_twice wanted id gs)
  ]

  recorded-Ends :
      (fate : Fate) (k id : ℕ) (stage : Stage) (media : List MediaFile) (reused : Bool) (w : World)
      → HasContent (names_of facts k) w.files
      → existing_id (names_of facts k) media ≡ some id
      → let w' = record_commit id media (record base { stage = stage }) (named k) w in
        Ends IsArtifact IsDone (checkpoint fate w' (returned (artifact_of id (named k) reused) w'))
  recorded-Ends fate k id stage media reused w (c, f, l, s) m =
      let w' : World = record_commit id media (record base { stage = stage }) (named k) w in
      let told : All (IsToldEntry base.source_entry_id id) w'.entries
          × All (IsToldGroup base.merge_group_id id) w'.groups =
        (
          all-IsToldEntry base.source_entry_id id w'.entries
              (mark_entries_twice base.source_entry_id id w.entries),
          all-IsToldGroup base.merge_group_id id w'.groups
              (mark_groups_twice base.merge_group_id id w.groups),
        ) in
      let done : IsDone w' = (k, id, refl, (c, f, l, s), m, told.0, told.1) in
      Ends-checkpoint IsArtifact IsDone fate w' (returned (artifact_of id (named k) reused) w') done
        (done, (c, f, l, s), m, refl, refl, told.0, told.1)

  commit_as-Ends :
      (fate : Step → Fate) (k fresh : ℕ) (stage : Stage) (reused : Bool) (w : World)
      → HasContent (names_of facts k) w.files
      → IsUnderway w
      → Ends IsArtifact IsUnderway (
          commit_as fate
            (existing_id (names_of facts k) w.media)
            fresh
            (record base { stage = stage })
            (named k)
            reused
            w)
  commit_as-Ends fate k fresh stage reused w h u =
      elim (Option-cases (existing_id (names_of facts k) w.media)) [
        | inl e ↦ rw e (
            Ends-checkpoint IsArtifact IsUnderway (fate committing_step) w _ u (
              Ends-imp IsArtifact IsDone IsUnderway _ (λ w' d. inr d)
                (recorded-Ends (fate committed_step) k fresh stage
                  (w.media ++ (file_of fresh (named k) ∷ [])) reused w h
                  (existing_id-append fresh (named k) w.media e))))
        | inr (id, e) ↦ rw e (
            Ends-checkpoint IsArtifact IsUnderway (fate committing_step) w _ u (
              Ends-imp IsArtifact IsDone IsUnderway _ (λ w' d. inr d)
                (recorded-Ends (fate committed_step) k id stage w.media reused w h e)))
      ]

  module _ (apart : (n : ℕ) → names_of facts n ≢ base.staging_rel_path) where
    pub link_loop-Ends :
        (fate : Step → Fate) (fuel i : ℕ) (content : Text) (stage : Stage) (w : World)
        → RowAt staged i w
        → look base.staging_rel_path w.files ≡ some content
        → length content ≡ facts.expected_size
        → sha1_of content ≡ facts.content_sha1
        → Ends IsLinkedStill IsReady (
            link_loop sha1_of fate fuel
              (names_of facts)
              i
              content
              (record base { stage = stage })
              (named i)
              w)
    unfolding link_loop
    link_loop-Ends fate zero i content stage w r h l s = (i, r, inl (content, h, l, s))
    link_loop-Ends fate (suc fuel) i content stage w r h l s =
        let ready : IsReady w = (i, r, inl (content, h, l, s)) in
        Ends-checkpoint IsLinkedStill IsReady (fate (link_step i)) w _ ready
          (elim (Option-cases (look (names_of facts i) w.files)) [
            | inl e ↦
                let here : HasContent base.staging_rel_path
                    (add_file (names_of facts i) content w.files) =
                  (
                    content,
                    ground
                        (arith, h, text_eq_iff (names_of facts i) base.staging_rel_path, apart i),
                    l,
                    s,
                  ) in
                rw e (
                  (
                    i,
                    r,
                    (
                      content,
                      ground (arith, text_eq_iff (names_of facts i) (names_of facts i)),
                      l,
                      s,
                    ),
                    (i, r, inl here),
                  ),
                  here,
                )
            | inr (c, e) ↦ elim (Bool-cases (is_same_content sha1_of (some c) facts)) [
              | inl same ↦ rw e (
                  rw same (
                    (i, r, HasContent-same (names_of facts i) c w.files e same, ready),
                    (content, h, l, s),
                  ))
              | inr other ↦ rw e (
                  rw other (
                    link_loop-Ends fate fuel (suc i) content stage
                      (with_row (record base { stage = stage }) (staged (named (suc i))) w) refl h l
                      s))
            ]
          ])

    pub clear_staging-Ends :
        (fate : Step → Fate) (stage : Stage) (reused : Bool) (w : World)
        → IsLinkedStill reused w
        → Ends IsLinked IsReady (clear_staging fate (record base { stage = stage }) reused w)
    clear_staging-Ends fate stage reused w ((k, r, h, u), here) =
        let w' : World = with_files (unlink base.staging_rel_path w.files) w in
        let h' : HasContent (names_of facts k) w'.files =
          HasContent-unlink (names_of facts k) base.staging_rel_path w.files (apart k) h in
        let ready : IsReady w = (k, r, inl here) in
        let cleared : IsReady w' = (k, r, inr (unlink-look base.staging_rel_path w.files, h')) in
        Ends-checkpoint IsLinked IsReady (fate linked_step) w _ ready (
          Ends-checkpoint IsLinked IsReady (fate dir_fsynced_step) w _ ready (
            Ends-checkpoint IsLinked IsReady (fate staging_unlinked_step) w' (returned reused w')
              cleared (k, r, h', cleared)))

    adopt-Ends :
        (fate : Step → Fate) (k : ℕ) (w : World)
        → RowAt staged k w
        → look base.staging_rel_path w.files ≡ none
        → HasContent (names_of facts k) w.files
        → Ends IsLinked IsReady (adopt_published_final sha1_of fate (named k) w)
    adopt-Ends fate k w r e (c, f, l, s) =
        let ready : IsReady w = (k, r, inr (e, (c, f, l, s))) in
        let same : is_same_content sha1_of (look (names_of facts k) w.files) (named k) ≡ true =
          rw f (ground (arith, l, s, text_eq_iff (sha1_of c) facts.content_sha1)) in
        rw same (
          Ends-checkpoint IsLinked IsReady (fate dir_fsynced_step) w _ ready (
            Ends-checkpoint IsLinked IsReady (fate staging_unlinked_step) w (returned true w) ready
              (k, r, (c, f, l, s), ready)))

    pub link_loop-named :
        (fate : Step → Fate) (fuel k i : ℕ) (c : Text) (w : World)
        → names_of facts i ≡ names_of facts k
        → RowAt staged k w
        → look base.staging_rel_path w.files ≡ some c
        → length c ≡ facts.expected_size
        → sha1_of c ≡ facts.content_sha1
        → Ends IsLinkedStill IsReady (
            link_loop sha1_of fate fuel
              (names_of facts)
              i
              c
              (record base { stage = staged (named k) })
              (named k)
              w)
    link_loop-named fate fuel k i c w same r e l s =
        let at_name = λ (name : Text). record facts { final_rel_path = name } in
        let r' : RowAt staged i w =
          r ∙ ap (λ name. some (record base { stage = staged (at_name name) })) (sym same) in
        subst
          (λ name. Ends IsLinkedStill IsReady (
            link_loop sha1_of fate fuel (names_of facts) i c
              (record base { stage = staged (named k) }) (at_name name) w))
          same (link_loop-Ends fate fuel i c (staged (named k)) w r' e l s)

    pub link-Ends :
        (fate : Step → Fate) (fuel k : ℕ) (w : World)
        → RowAt staged k w
        → (HasContent base.staging_rel_path w.files
            ⊎ ((look base.staging_rel_path w.files ≡ none) × HasContent (names_of facts k) w.files))
        → Ends IsLinked IsReady
            (link sha1_of fate fuel (record base { stage = staged (named k) }) (named k) w)
    unfolding link
    link-Ends fate fuel k w r (inr (e, h)) = rw e (adopt-Ends fate k w r e h)
    link-Ends fate fuel k w r (inl (c, e, l, s)) =
        rw e (elim (Option-cases (skip_to fuel (names_of facts) (names_of facts k) 0)) [
          | inl f ↦ rw f (k, r, inl (c, e, l, s))
          | inr (i, f) ↦ rw f (
              Ends-and_then IsLinkedStill IsReady IsLinked _ _
                (link_loop-named fate fuel k i c w (skip_to-some fuel (names_of facts) _ 0 i f) r e
                  l s)
                (λ reused w' h'. clear_staging-Ends fate (staged (named k)) reused w' h'))
        ])

    pub commit-Ends :
        (fate : Step → Fate) (fresh : ℕ) (reused : Bool) (w : World)
        → IsLinked reused w
        → Ends IsArtifact IsUnderway (commit fate fresh reused w)
    unfolding commit
    commit-Ends fate fresh reused w (k, r, h, u) =
        simp r (commit_as-Ends fate k fresh (staged (named k)) reused w h (inl u))

    pub finish-Ends :
        (fate : Step → Fate) (fuel fresh : ℕ) (w : World)
        → IsUnderway w
        → Ends IsArtifact IsUnderway (finish sha1_of fate fuel fresh w)
    unfolding finish commit
    finish-Ends fate fuel fresh w (inl (k, r, h)) = simp r (
        Ends-and_then IsLinked IsUnderway IsArtifact _ (commit fate fresh)
          (Ends-imp IsLinked IsReady IsUnderway _ (λ w' d. inl d) (link-Ends fate fuel k w r h))
          (commit-Ends fate fresh))
    finish-Ends fate fuel fresh w (inr (k, id, r, h, m, es, gs)) =
        simp r (
          commit_as-Ends fate k fresh (published (named k)) false w h
            (inr (k, id, r, h, m, es, gs)))
