-- ===== src/Tests/Store.antt =====
-- Two small databases: one that keeps the keys of proc maps, and one that holds fixed documents.
use daemon_file_hosting.Base.{
  ℕ, ◌≡◌, ◌≢◌, refl, ◌∙◌, ap, Bool, true, false, List, [], ◌∷◌, ◌++◌, Option, none, some, Bytes,
  codes, bytes_eq, bytes_eq_refl, drop, if◌then◌else◌,
}
use daemon_file_hosting.Bson.{Doc, nil, field, document, find_field, keys, as_utf8, as_document}
use daemon_file_hosting.External.{Mongo, Inserted, inserted, refused}
use daemon_file_hosting.External.Documents.{IsProcStore, keys_or_nil}
use daemon_file_hosting.World.{World, FileCrypto}
use daemon_file_hosting.Proc.{proc_keys_of}
use daemon_file_hosting.Proc.Key.{contains}
use daemon_file_hosting.Tests.Platform.{platform, Files, copies}

abbrev pub Db : Type 0
Db = Bytes → Option (List Bytes)

-- The text of the `_id` of a document or a query.
abbrev pub id_of : Doc → Bytes
id_of d = elim (as_utf8 (find_field (codes "_id") d)) [ none ↦ [] | some id ↦ id ]

abbrev pub doc_of_keys : List Bytes → Doc
doc_of_keys [] = nil
doc_of_keys (k ∷ ks) = field k (document nil) (doc_of_keys ks)

abbrev pub found_docs : Option (List Bytes) → List Doc
found_docs none = []
found_docs (some ks) = field (codes "proc") (document (doc_of_keys ks)) nil ∷ []

abbrev pub store : Db → Bytes → List Bytes → Db
store db id ks other = if bytes_eq other id then some ks else db other

abbrev pub insert_new : Db → Bytes → Option (List Bytes) → Inserted × Db
insert_new db id none = (inserted, store db id [])
insert_new db id (some ks) = (refused 11000, db)

abbrev pub add_key : List Bytes → Bytes → List Bytes
add_key ks key = if contains ks key then ks else ks ++ (key ∷ [])

-- The path in "$set", less "proc.".
abbrev pub key_of : Doc → Bytes
key_of u = elim (as_document (find_field (codes "$set") u)) [
  | none ↦ []
  | some set ↦ elim (keys set) [ [] ↦ [] | path ∷ _ ↦ drop 5 path ]
]

abbrev pub update_found : Db → Bytes → Bytes → Option (List Bytes) → Bool × Db
update_found db id key none = (false, db)
update_found db id key (some ks) = (true, store db id (add_key ks key))

abbrev pub proc_mongo : Mongo
proc_mongo = record {
  Db = Db;
  get_collection = λ db. (true, db);
  insert_one = λ db d. insert_new db (id_of d) (db (id_of d));
  find = λ db q opts. found_docs (db (id_of q));
  update_one = λ db q u. update_found db (id_of q) (key_of u) (db (id_of q));
  as_json = λ d. none;
  errno_left = λ db e. e;
}

keys-doc_of_keys : (ks : List Bytes) → keys (doc_of_keys ks) ≡ ks
keys-doc_of_keys [] = refl
keys-doc_of_keys (k ∷ ks) = ap (λ l. k ∷ l) (keys-doc_of_keys ks)

pub found_docs-keys : (o : Option (List Bytes)) → proc_keys_of (found_docs o) ≡ keys_or_nil o
found_docs-keys none = refl
found_docs-keys (some ks) = keys-doc_of_keys ks

pub insert_new-ok :
    (db : Db) (id : Bytes) (o : Option (List Bytes))
    → (insert_new db id o).0 ≡ inserted
    → (o ≡ none) × ((insert_new db id o).1 id ≡ some [])
insert_new-ok db id none h = (refl, rw (bytes_eq_refl id))
insert_new-ok db id (some ks) h = cc h

pub insert_new-refused :
    (db : Db) (id : Bytes) (o : Option (List Bytes)) (code : ℕ)
    → o ≡ db id
    → (insert_new db id o).0 ≡ refused code
    → ((insert_new db id o).1 id ≡ db id) × (db id ≢ none)
insert_new-refused db id none code e h = cc h
insert_new-refused db id (some ks) code e h = (refl, λ n. cc (e ∙ n))

pub update_found-failed :
    (db : Db) (id key : Bytes) (o : Option (List Bytes))
    → (update_found db id key o).0 ≢ true
    → (update_found db id key o).1 id ≡ db id
update_found-failed db id key none h = refl
update_found-failed db id key (some ks) h = absurd (h refl)

unfoldable pub proc_IsProcStore : IsProcStore proc_mongo
proc_IsProcStore = record {
  proc = λ db id. db id;
  proc-get_collection = λ db id. refl;
  find_by_id = λ db id. found_docs-keys (db id);
  insert_ok = λ db id f e h. insert_new-ok db id (db id) h;
  insert_refused = λ db id f e code h. (insert_new-refused db id (db id) code refl h).0;
  insert_duplicate = λ db id f e h. (insert_new-refused db id (db id) 11000 refl h).1;
  update_ok = λ db id n event ks bound there h. rw (there, bytes_eq_refl id);
  update_failed = λ db id path event h. update_found-failed db id (drop 5 path) (db id) h;
}

-- A database whose documents are what every query finds.
abbrev pub doc_mongo : Mongo
doc_mongo = record {
  Db = List Doc;
  get_collection = λ db. (true, db);
  insert_one = λ db d. (inserted, d ∷ db);
  find = λ db q opts. db;
  update_one = λ db q u. (true, db);
  as_json = λ d. some (b'{' ∷ b'}' ∷ []);
  errno_left = λ db e. e;
}

abbrev pub no_files : Files
no_files path = none

abbrev pub server_key : FileCrypto
server_key = record { key = copies 32 7; initialized = true }

-- A server with a key and no file, a database and a text that comes in.
abbrev pub world_of : (D : Mongo) → D.Db → Bytes → World (platform D)
world_of D db incoming = record {
  conn = record { sent = []; incoming = incoming };
  files = no_files;
  db = db;
  engine = 0;
  entropy = 5;
  heap = 0;
  time = 1;
  errno = 0;
  g_file_crypto = server_key;
}
