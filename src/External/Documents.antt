-- ===== src/External/Documents.antt =====
-- What the theorems on proc maps assume of MongoDB: a view of a collection as the keys of the proc
-- map of each document, by its `_id`, and what the three calls do to it.
use daemon_file_hosting.Base.{
  ℕ, ◌^◌, ◌<◌, ◌≡◌, ◌≢◌, true, List, [], ◌∷◌, ◌++◌, Option, none, some, Bytes, codes, if◌then◌else◌,
}
use daemon_file_hosting.Bson.{Doc, nil}
use daemon_file_hosting.External.{Mongo, inserted, refused}
use daemon_file_hosting.Number.{print_int64}
use daemon_file_hosting.Proc.{proc_keys_of, by_id, base_doc, set_update}
use daemon_file_hosting.Proc.Key.{contains}

abbrev pub keys_or_nil : Option (List Bytes) → List Bytes
keys_or_nil none = []
keys_or_nil (some ks) = ks

pub record IsProcStore (D : Mongo) : Type 0 where
  -- `none` if there is no document of that `_id`.
  pub proc : D.Db → Bytes → Option (List Bytes)
  pub proc-get_collection : (db : D.Db) (id : Bytes) → proc (D.get_collection db).1 id ≡ proc db id
  -- A query by `_id` finds the document.
  pub find_by_id :
      (db : D.Db) (id : Bytes) → proc_keys_of (D.find db (by_id id) nil) ≡ keys_or_nil (proc db id)
  -- An insertion that succeeds adds the document; one that is refused changes nothing, and a
  -- duplicate key means that there is one.
  pub insert_ok :
      (db : D.Db) (id f e : Bytes)
      → (D.insert_one db (base_doc id f e)).0 ≡ inserted
      → (proc db id ≡ none) × (proc (D.insert_one db (base_doc id f e)).1 id ≡ some [])
  pub insert_refused :
      (db : D.Db) (id f e : Bytes) (code : ℕ)
      → (D.insert_one db (base_doc id f e)).0 ≡ refused code
      → proc (D.insert_one db (base_doc id f e)).1 id ≡ proc db id
  pub insert_duplicate :
      (db : D.Db) (id f e : Bytes)
      → (D.insert_one db (base_doc id f e)).0 ≡ refused 11000
      → proc db id ≢ none
  -- `$set` of "proc.<n>" in a document that exists replaces the event of that key, or adds one at
  -- the end; an update that fails changes nothing.
  pub update_ok :
      (db : D.Db) (id : Bytes) (n : ℕ) (event : Doc) (ks : List Bytes)
      → n < 2 ^ 63
      → proc db id ≡ some ks
      → let r = D.update_one db (by_id id) (set_update (codes "proc." ++ print_int64 n) event) in
        r.0 ≡ true
        → proc r.1 id
          ≡ some (if contains ks (print_int64 n) then ks else ks ++ (print_int64 n ∷ []))
  pub update_failed :
      (db : D.Db) (id : Bytes) (path : Bytes) (event : Doc)
      → let r = D.update_one db (by_id id) (set_update path event) in
        r.0 ≢ true → proc r.1 id ≡ proc db id
