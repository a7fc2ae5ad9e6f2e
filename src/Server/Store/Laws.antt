-- ===== src/Server/Store/Laws.antt =====
-- What the shelf assumes of the external code beside the laws of its parts.
use daemon_file_hosting.Base.{
  ℕ, ◌≡◌, ◌≢◌, true, some, List, [], ◌∷◌, ◌++◌, Bytes, bytes_eq, length, if◌then◌else◌,
}
use daemon_file_hosting.Base.Int.{ℤ}
use daemon_file_hosting.Bson.{Doc, nil}
use daemon_file_hosting.External.{Disk, Mongo, System, inserted, refused}
use daemon_file_hosting.External.Laws.{IsFileStore}
use daemon_file_hosting.Proc.{by_id, base_doc, set_update}
use daemon_file_hosting.Server.Upload.{metadata}
use daemon_file_hosting.Server.Download.{download_query}

-- A call on one path leaves the contents of the other paths alone.
pub record KeepsOthers (D : Disk) (F : IsFileStore D) : Type 0 where
  pub open_other :
      (f : D.Files) (path other : Bytes)
      → path ≢ other
      → F.contents (D.fopen_write f path).1 other ≡ F.contents f other
  pub write_other :
      (f : D.Files) (path text other : Bytes)
      → path ≢ other
      → F.contents (D.fwrite f path text).1 other ≡ F.contents f other
  pub close_other :
      (f : D.Files) (path other : Bytes)
      → path ≢ other
      → F.contents (D.fclose f path).1 other ≡ F.contents f other

-- No file fails when it is closed.
pub record ClosesFiles (D : Disk) : Type 0 where
  pub fclose_ok : (f : D.Files) (path : Bytes) → (D.fclose f path).0 ≡ true

-- The documents of a collection that have a name and are not deleted, in the order in which a query
-- gives them, which is that of their insertion; a query that fails gives the first of them or none. A document of events has no `deleted` field, so
-- that it is none of them, and an update by `_id` sets no name.
pub record IsDocStore (D : Mongo) : Type 0 where
  pub named : D.Db → Bytes → List Doc
  pub find_named :
      (db : D.Db) (name : Bytes)
      → (lost : List Doc) × (named db name ≡ D.find db (download_query name) nil ++ lost)
  pub named-get_collection :
      (db : D.Db) (name : Bytes) → named (D.get_collection db).1 name ≡ named db name
  pub named-insert :
      (db : D.Db) (name other iv tag owner : Bytes) (size : ℤ)
      → (D.insert_one db (metadata name size iv tag owner)).0 ≡ inserted
      → named (D.insert_one db (metadata name size iv tag owner)).1 other ≡ (
          if bytes_eq other name
          then named db other ++ (metadata name size iv tag owner ∷ [])
          else named db other)
  pub named-refused :
      (db : D.Db) (doc : Doc) (code : ℕ) (other : Bytes)
      → (D.insert_one db doc).0 ≡ refused code
      → named (D.insert_one db doc).1 other ≡ named db other
  pub named-base_doc :
      (db : D.Db) (id f e other : Bytes)
      → named (D.insert_one db (base_doc id f e)).1 other ≡ named db other
  pub named-update :
      (db : D.Db) (id path other : Bytes) (event : Doc)
      → named (D.update_one db (by_id id) (set_update path event)).1 other ≡ named db other

-- No query fails.
pub record AnswersQueries (D : Mongo) (N : IsDocStore D) : Type 0 where
  pub find_all : (db : D.Db) (name : Bytes) → D.find db (download_query name) nil ≡ N.named db name

-- `RAND_bytes(buf, n)` fills n bytes.
pub record FillsBuffers (S : System) : Type 0 where
  pub length-rand_bytes :
      (e : S.Entropy) (n : ℕ) (b : Bytes) → (S.rand_bytes e n).0 ≡ some b → length b ≡ n
