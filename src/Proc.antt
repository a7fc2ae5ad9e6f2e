-- ===== src/Proc.antt =====
-- The proc map of a file's document: `get_next_proc_key`, `create_base_document` and
-- `append_proc_event`, which src/server/server.c and src/main.c both contain.
pub mod Key
pub mod Based
pub mod Frame
pub mod Growth
pub mod Preserve
pub mod Stale
use daemon_file_hosting.Base.{
  ℕ, zero, suc, ◌+◌, ◌-◌, ◌*◌, ◌/◌, ◌^◌, Bool, true, false, not, ◌&&◌, ◌||◌, List, [], ◌∷◌, ◌++◌,
  Option, none, some, Bytes, codes, length, ltb, ◌==◌, if◌then◌else◌,
}
use daemon_file_hosting.Base.Int.{ℤ, pos, negsuc}
use daemon_file_hosting.Bson.{
  Doc, Value, nil, field, utf8, date_time, document, find_field, as_document, keys,
}
use daemon_file_hosting.External.{Platform, Inserted, inserted, refused}
use daemon_file_hosting.World.{
  World, M, pure, ◌>>=◌, ◌>>◌, malloc, find, insert_one, update_one, get_collection,
}
use daemon_file_hosting.Path.{stem, extension, snprintf}
use daemon_file_hosting.Number.{Strtol, strtol, print_int64}

abbrev pub erange_code : ℕ
erange_code = 34

abbrev pub is_empty : Bytes → Bool
is_empty [] = true
is_empty (_ ∷ _) = false

-- num > 0 && num > max_key
abbrev pub exceeds : ℤ → ℕ → Bool
exceeds (pos n) m = ltb 0 n && ltb m n
exceeds (negsuc n) m = false

abbrev pub value_of : ℤ → ℕ
value_of (pos n) = n
value_of (negsuc n) = 0

-- `errno` after the call of `strtol`, which sets it only when the number is out of range.
abbrev pub errno_after : Bytes → ℕ → ℕ
errno_after key errno = if (strtol key).erange then erange_code else errno

-- The new maximum: `errno` must be 0, whoever has set it, and the whole key must be a number.
abbrev pub max_after : Bytes → ℕ → ℕ → ℕ
max_after key errno max_key =
    let r = strtol key in
    if errno == 0 && is_empty r.rest && exceeds r.value max_key then value_of r.value else max_key

-- The loop over the keys of the proc map: `errno` and the maximum after it.
unfoldable pub scan_keys : List Bytes → ℕ → ℕ → ℕ × ℕ
scan_keys [] errno max_key = (errno, max_key)
scan_keys (key ∷ more) errno max_key =
    let errno' = errno_after key errno in scan_keys more errno' (max_after key errno' max_key)

abbrev pub max_key_length : ℕ
max_key_length = 32

-- The keys of the proc map of the first document that was found, if it has one.
abbrev pub proc_keys_of : List Doc → List Bytes
proc_keys_of [] = []
proc_keys_of (doc ∷ _) = elim (as_document (find_field (codes "proc") doc)) [
  | none ↦ []
  | some proc ↦ keys proc
]

abbrev pub by_id : Bytes → Doc
by_id id = field (codes "_id") (utf8 id) nil

-- The event as the document that the update sets.
abbrev pub event_doc : ℤ → Bytes → Bytes → Doc
event_doc now_ms change_type status = field (codes "date") (date_time now_ms) (
    field (codes "info")
      (document (
        field (codes "type_of_changes") (utf8 change_type)
          (field (codes "status") (utf8 status) nil)))
      nil)

abbrev pub set_path : Bytes → Bytes
set_path key = snprintf 64 (codes "proc." ++ key)

abbrev pub set_update : Bytes → Doc → Doc
set_update path event = field (codes "$set") (document (field path (document event) nil)) nil

abbrev pub base_doc : Bytes → Bytes → Bytes → Doc
base_doc fullpath filename ext = field (codes "_id") (utf8 fullpath) (
    field (codes "filename") (utf8 filename)
      (field (codes "extension") (utf8 ext) (field (codes "proc") (document nil) nil)))

-- 11000 is the server's code of a duplicate key.
abbrev pub insert_succeeded : Inserted → Bool
insert_succeeded inserted = true
insert_succeeded (refused code) = code == 11000

module _ (P : Platform) where
  -- The body of the loop and what surrounds it, on the documents found. The calls before it may have
  -- set `errno`.
  next_key : List Doc → M P Bytes
  unfolding scan_keys
  next_key docs w =
      let r = scan_keys (proc_keys_of docs) (P.mongo.errno_left w.db w.errno) 0 in
      (snprintf max_key_length (print_int64 (r.1 + 1)), record w { errno = r.0 })

  unfoldable pub get_next_proc_key : Bytes → M P (Option Bytes)
  unfolding next_key
  get_next_proc_key file_id = do
    coll ← get_collection P
    if not coll then pure none else do
      docs ← find P (by_id file_id) nil
      key ← next_key docs
      room ← malloc P max_key_length
      pure (if room then some key else none)

  -- `get_filename_without_extension` with its allocation, on a path that is not NULL.
  unfoldable pub get_filename_without_extension : Bytes → M P (Option Bytes)
  get_filename_without_extension path = do
    room ← malloc P (length (stem path) + 1)
    pure (if room then some (stem path) else none)

  -- `get_file_extension`; `strdup` allocates the text and its NUL.
  unfoldable pub get_file_extension : Bytes → M P (Option Bytes)
  get_file_extension path = do
    room ← malloc P (length (extension path) + 1)
    pure (if room then some (extension path) else none)

  insert_base : Bytes → Option Bytes → Option Bytes → M P Bool
  insert_base fullpath (some filename) (some ext) = do
    r ← insert_one P (base_doc fullpath filename ext)
    pure (insert_succeeded r)
  insert_base fullpath _ _ = pure false

  unfoldable pub create_base_document : Bytes → M P Bool
  unfolding insert_base get_filename_without_extension get_file_extension
  create_base_document fullpath = do
    coll ← get_collection P
    if not coll then pure false else do
      filename ← get_filename_without_extension fullpath
      ext ← get_file_extension fullpath
      insert_base fullpath filename ext

  abbrev now_ms : M P ℤ
  now_ms w =
      let (sec, usec, t) = P.system.gettimeofday w.time in
      (pos (sec * 1000 + usec / 1000), record w { time = t })

  -- The update itself, once there is a key.
  set_event : Bytes → Bytes → Bytes → Option Bytes → M P Bool
  set_event file_id change_type status none = pure false
  set_event file_id change_type status (some key) = do
    now ← now_ms
    update_one P (by_id file_id) (set_update (set_path key) (event_doc now change_type status))

  unfoldable pub append_proc_event : Bytes → Bytes → Bytes → M P Bool
  unfolding create_base_document get_next_proc_key set_event
  append_proc_event file_id change_type status = do
    based ← create_base_document file_id
    if not based then pure false else do
      coll ← get_collection P
      if not coll
          then pure false
          else do key ← get_next_proc_key file_id; set_event file_id change_type status key
