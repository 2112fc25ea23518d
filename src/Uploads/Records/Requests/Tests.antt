-- ===== src/Uploads/Records/Requests/Tests.antt =====
-- db/uploads.py, `create_pairs`: requests at concrete tables.
use mediaferry.Sql.{update}
use mediaferry.Uploads.Records.Requests.Served.{IsAnswered, create_pairs-IsAnswered}
use mediaferry.Uploads.Records.Requests.{
  Source, Target, missing_file, plain_original, Choice, created, retry_queued, rejected, Asked,
  choose, find, new_record, pair, pair_targets, pair_all, create_pairs,
}
use mediaferry.Uploads.Records.{Row, pending, failed}
use mediaferry.Base.{String, ◌≡◌, refl, true, false, Option, none, some, [], ◌∷◌, str_eq}

abbrev sources_one : String → Option Source
sources_one i = some (record {
  id = i;
  is_missing = str_eq i "gone";
  role = "original";
  member = none;
  owner = none;
})

abbrev targets_one : String → Option Target
targets_one i =
    some (record { id = i; is_archived = false; is_enabled = true; target_epoch = some 1 })

abbrev joined : String → String → String
joined media destination = media

abbrev default_choice : Choice
default_choice = record {
  selection_rule = some "default";
  merge_group_id = none;
  eligibility_reason = plain_original;
  adopt_group_id = none;
}

abbrev failed_record : Row
failed_record =
    record (new_record 3 "old"
      (record { id = "a"; is_missing = false; role = "original"; member = none; owner = none })
      "home" 1 "default" default_choice) { state = failed }

abbrev asked_one : Asked
asked_one = record { rows = failed_record ∷ []; adopted = [] }

-- The failed record is put back, the missing file refused, and the file that is asked for twice gets
-- one record.
request_test :
    create_pairs 5 joined sources_one targets_one
      ("a" ∷ "gone" ∷ "b" ∷ "b" ∷ [])
      ("home" ∷ [])
      asked_one
    ≡ some (
      record {
        media_file_id = "a";
        destination_id = "home";
        result = retry_queued;
        record_id = some "old";
        reason = none;
      }
          ∷ record {
            media_file_id = "gone";
            destination_id = "home";
            result = rejected;
            record_id = none;
            reason = some missing_file;
          }
          ∷ record {
            media_file_id = "b";
            destination_id = "home";
            result = created;
            record_id = some "b";
            reason = none;
          }
          ∷ record {
            media_file_id = "b";
            destination_id = "home";
            result = created;
            record_id = some "b";
            reason = none;
          }
          ∷ [],
      record {
        rows =
            record failed_record { state = pending }
            ∷ new_record 5 "b"
                (record {
                  id = "b";
                  is_missing = false;
                  role = "original";
                  member = none;
                  owner = none;
                })
                "home"
                1
                "default"
                default_choice
            ∷ [];
        adopted = [];
      },
    )
unfolding create_pairs pair_all pair_targets pair choose find update
request_test = refl

create_pairs-IsAnswered_example : IsAnswered asked_one (
    create_pairs 5 joined sources_one targets_one
      ("a" ∷ "gone" ∷ "b" ∷ "b" ∷ [])
      ("home" ∷ [])
      asked_one)
create_pairs-IsAnswered_example =
    create_pairs-IsAnswered 5 joined sources_one targets_one ("a" ∷ "gone" ∷ "b" ∷ "b" ∷ [])
      ("home" ∷ []) asked_one ((λ e. refl), tt)
