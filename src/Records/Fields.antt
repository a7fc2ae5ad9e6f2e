-- ===== src/Records/Fields.antt =====
-- What a record's document says of the record.
use daemon_file_hosting.Base.{◌≡◌, refl, Option, none, some, codes}
use daemon_file_hosting.Base.Int.{ℤ}
use daemon_file_hosting.Bson.{Doc, Value, int64, find_field, as_utf8, as_document}
use daemon_file_hosting.Records.{FileRecord, file_overseer_to_bson}

abbrev as_int64 : Option Value → Option ℤ
as_int64 (some (int64 n)) = some n
as_int64 _ = none

-- A reader of the documents, by the names of their fields.
abbrev pub read_record : Doc → Option FileRecord
read_record d = elim (as_utf8 (find_field (codes "filename") d)) [
  | none ↦ none
  | some filename ↦ elim (as_utf8 (find_field (codes "extension") d)) [
    | none ↦ none
    | some extension ↦ elim (as_int64 (find_field (codes "initial_size") d)) [
      | none ↦ none
      | some initial_size ↦ elim (as_int64 (find_field (codes "actual_size") d)) [
        | none ↦ none
        | some actual_size ↦ some (record {
          filename = filename;
          extension = extension;
          initial_size = initial_size;
          actual_size = actual_size;
          changes = as_document (find_field (codes "changes") d);
        })
      ]
    ]
  ]
]

-- A record is found again in its document, with its changes or without.
pub read_record-file_overseer_to_bson :
    (file : FileRecord) → read_record (file_overseer_to_bson file) ≡ some file
unfolding file_overseer_to_bson
read_record-file_overseer_to_bson file = go file.changes refl
  where
    go :
        (changes : Option Doc)
        → file.changes ≡ changes
        → read_record (file_overseer_to_bson file) ≡ some file
    go none e = rw e refl
    go (some d) e = rw e refl
