-- ===== src/Records.antt =====
-- The records of files and the calls that store them, of src/db/mongo_ops_server.c and
-- src/db/mongo_ops.c.
pub mod Fields
use daemon_file_hosting.Base.{
  ℕ, ◌+◌, ◌*◌, ◌/◌, ◌%◌, ◌^◌, Bool, true, false, Option, none, some, Bytes, codes,
}
use daemon_file_hosting.Base.Int.{ℤ, pos, long_of_bits}
use daemon_file_hosting.Bson.{Doc, nil, field, append, utf8, int64, boolean, date_time, document}
use daemon_file_hosting.External.{Mongo, Inserted, inserted, refused}

-- `file_record_t`; the names are the C strings in its arrays.
pub record FileRecord : Type 0 where
  pub filename : Bytes
  pub extension : Bytes
  pub initial_size : ℤ
  pub actual_size : ℤ
  pub changes : Option Doc

unfoldable pub change_info_to_bson : Bytes → ℤ → Doc
change_info_to_bson type size_after =
    field (codes "type_of_changes") (utf8 type) (field (codes "size_after") (int64 size_after) nil)

-- The last field is there if the record has changes.
abbrev pub with_changes : Option Doc → Doc → Doc
with_changes none doc = doc
with_changes (some changes) doc = append doc (codes "changes") (document changes)

unfoldable pub file_overseer_to_bson : FileRecord → Doc
file_overseer_to_bson file = with_changes file.changes (
    field (codes "filename") (utf8 file.filename) (
      field (codes "extension") (utf8 file.extension) (
        field (codes "initial_size") (int64 file.initial_size)
          (field (codes "actual_size") (int64 file.actual_size) nil))))

-- A `uint64_t` size as the `int64_t` that is stored.
abbrev pub stored_size : ℕ → ℤ
stored_size size = long_of_bits (size % 2 ^ 64)

abbrev pub name_query : Bytes → Doc
name_query filename = field (codes "filename") (utf8 filename) nil

-- The `$set` document, at the seconds and nanoseconds that `clock_gettime` gives.
abbrev pub set_fields : Bytes → ℕ → Bytes → ℕ × ℕ → Doc
set_fields filename size mime (tv_sec, tv_nsec) = field (codes "filename") (utf8 filename) (
    field (codes "size") (int64 (stored_size size)) (
      field (codes "mime_type") (utf8 mime)
        (field (codes "last_modified") (date_time (pos (tv_sec * 1000 + tv_nsec / 1000000))) nil)))

abbrev pub is_inserted : Inserted → Bool
is_inserted inserted = true
is_inserted (refused code) = false

module _ (D : Mongo) where
  unfoldable pub mongo_update_or_insert : Bytes → ℕ → Bytes → ℕ × ℕ → D.Db → Bool × D.Db
  mongo_update_or_insert filename size mime ts db =
      D.update_one db (name_query filename)
        (field (codes "$set") (document (set_fields filename size mime ts)) nil)

  -- The server's variant, into the collection of the global variable, at a monotonic time in
  -- microseconds.
  unfoldable pub mongo_insert : Option D.Db → Option Bytes → ℕ → Bytes → ℕ → Bool × Option D.Db
  mongo_insert none filename size mime_type time = (false, none)
  mongo_insert (some db) none size mime_type time = (false, some db)
  mongo_insert (some db) (some filename) size mime_type time =
      let r = D.insert_one db (
        field (codes "filename") (utf8 filename) (
          field (codes "mime_type") (utf8 mime_type) (
            field (codes "size") (int64 (stored_size size)) (
              field (codes "deleted") (boolean false)
                (field (codes "created_at") (date_time (pos (time / 1000))) nil))))) in
      (is_inserted r.0, some r.1)

  -- The other variant, into a collection that is given.
  unfoldable pub mongo_insert_into : Option D.Db → Bytes → ℕ → Bytes → ℕ → Bool × Option D.Db
  mongo_insert_into none filename size mime time = (false, none)
  mongo_insert_into (some db) filename size mime time =
      let r = D.insert_one db (
        field (codes "filename") (utf8 filename) (
          field (codes "size") (int64 (stored_size size)) (
            field (codes "mime_type") (utf8 mime) (
              field (codes "deleted") (boolean false)
                (field (codes "uploaded_at") (date_time (pos (time / 1000))) nil))))) in
      (is_inserted r.0, some r.1)
