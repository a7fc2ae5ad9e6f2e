-- ===== src/Tests/Shelf.antt =====
-- A database that finds documents by name, and the server as a shelf over it.
use mathlib.Core.Option.{some-injective}
use daemon_file_hosting.Base.{
  ℕ, zero, suc, ◌≡◌, ◌≢◌, refl, sym, ◌∙◌, ap, inl, inr, Bool, true, false, not, ◌&&◌, List, [], ◌∷◌,
  ◌++◌, Option, none, some, Bytes, codes, bytes_eq, bytes_eq_refl, bytes_eq_sound, Bool-cases,
  length, append-nil, if◌then◌else◌, arith,
}
use daemon_file_hosting.Base.Int.{ℤ, pos}
use daemon_file_hosting.Bson.{Doc, find_field, as_utf8, as_bool}
use daemon_file_hosting.External.{Mongo, Platform, inserted}
use daemon_file_hosting.World.{World}
use daemon_file_hosting.Protocol.{RequestHeader}
use daemon_file_hosting.Path.{is_unsafe, storage_path}
use daemon_file_hosting.Proc.{base_doc}
use daemon_file_hosting.Server.Upload.{is_bad_recipient, metadata, handle_upload_request}
use daemon_file_hosting.Server.Store.{Item, Shelf, put, IsName}
use daemon_file_hosting.Server.Store.Laws.{IsDocStore, KeepsOthers}
use daemon_file_hosting.Server.Store.Uploads.{IsPut, put-Refines}
use daemon_file_hosting.Server.Store.Uploads.Accepting.{UploadLaws, Holds}
use daemon_file_hosting.Server.Store.Uploads.Success.{NothingFails, handle_upload_request-puts}
use daemon_file_hosting.Cipher.Success.{Encrypts}
use daemon_file_hosting.Hash.{compute_buffer_blake3}
use daemon_file_hosting.Server.Upload.Guards.{IsAdmissible}
use daemon_file_hosting.Tests.Platform.{
  platform, file_disk, file_IsFileStore, flip_IsGcm, flip_all, pipe_IsStream, pipe_KeepsMoving,
  pipe_KeepsComing, copies,
}
use daemon_file_hosting.Tests.Store.{world_of}

abbrev pub is_text : Bytes → Option Bytes → Bool
is_text name none = false
is_text name (some text) = bytes_eq name text

abbrev pub is_false : Option Bool → Bool
is_false none = false
is_false (some b) = not b

abbrev pub matches : Bytes → Doc → Bool
matches name d =
    is_text name (as_utf8 (find_field (codes "filename") d))
    && is_false (as_bool (find_field (codes "deleted") d))

abbrev pub select : Bytes → List Doc → List Doc
select name [] = []
select name (d ∷ ds) = if matches name d then d ∷ select name ds else select name ds

abbrev pub asked_name : Option Bytes → Bytes
asked_name none = []
asked_name (some name) = name

abbrev pub name_mongo : Mongo
name_mongo = record {
  Db = List Doc;
  get_collection = λ db. (true, db);
  insert_one = λ db d. (inserted, db ++ (d ∷ []));
  find = λ db q opts. select (asked_name (as_utf8 (find_field (codes "filename") q))) db;
  update_one = λ db q u. (true, db);
  as_json = λ d. none;
  errno_left = λ db e. e;
}

pub select-snoc :
    (name : Bytes) (db : List Doc) (d : Doc)
    → select name (db ++ (d ∷ []))
      ≡ (if matches name d then select name db ++ (d ∷ []) else select name db)
select-snoc name [] d = refl
select-snoc name (e ∷ db) d = elim (Bool-cases (matches name e)) [
  | inl is ↦ elim (Bool-cases (matches name d)) [
    | inl m ↦ rw (is, select-snoc name db d, m) refl
    | inr m ↦ rw (is, select-snoc name db d, m) refl
  ]
  | inr is ↦ elim (Bool-cases (matches name d)) [
    | inl m ↦ rw (is, select-snoc name db d, m) refl
    | inr m ↦ rw (is, select-snoc name db d, m) refl
  ]
]

pub matches-metadata :
    (other name iv tag owner : Bytes) (size : ℤ)
    → matches other (metadata name size iv tag owner) ≡ bytes_eq other name
unfolding metadata
matches-metadata other name iv tag owner size = elim (Bool-cases (bytes_eq other name)) [
  | inl e ↦ rw e refl
  | inr e ↦ rw e refl
]

pub matches-base_doc : (other id f e : Bytes) → matches other (base_doc id f e) ≡ false
matches-base_doc other id f e = elim (Bool-cases (bytes_eq other f)) [
  | inl same ↦ rw same refl
  | inr differ ↦ rw differ refl
]

unfoldable pub name_IsDocStore : IsDocStore name_mongo
name_IsDocStore = record {
  named = λ db name. select name db;
  find_named = λ db name. ([], sym (append-nil (select name db)));
  named-get_collection = λ db name. refl;
  named-insert = λ db name other iv tag owner size h.
      select-snoc other db (metadata name size iv tag owner)
      ∙ rw (matches-metadata other name iv tag owner size) refl;
  named-refused = λ db doc code other h. cc h;
  named-base_doc = λ db id f e other.
      select-snoc other db (base_doc id f e) ∙ rw (matches-base_doc other id f e) refl;
  named-update = λ db id path other event. refl;
}

pub differ : (path other : Bytes) → path ≢ other → bytes_eq other path ≡ false
differ path other n = elim (Bool-cases (bytes_eq other path)) [
  | inl same ↦ absurd (n (sym (bytes_eq_sound other path same)))
  | inr e ↦ e
]

unfoldable pub file_KeepsOthers : KeepsOthers file_disk file_IsFileStore
unfolding file_IsFileStore
file_KeepsOthers = record {
  open_other = λ f path other n. rw (differ path other n) refl;
  write_other = λ f path text other n. rw (differ path other n) refl;
  close_other = λ f path other n. refl;
}

pub length-copies : (n b : ℕ) → length (copies n b) ≡ n
length-copies zero b = refl
length-copies (suc n) b = ap suc (length-copies n b)

abbrev pub P : Platform
P = platform name_mongo

unfoldable pub laws : UploadLaws P
unfolding name_IsDocStore flip_IsGcm file_IsFileStore file_KeepsOthers pipe_IsStream
laws = record {
  gcm = flip_IsGcm;
  files = file_IsFileStore;
  docs = name_IsDocStore;
  others = file_KeepsOthers;
  stream = pipe_IsStream;
  random = record {
    length-rand_bytes = λ e n b h. ap length (sym (some-injective _ _ h)) ∙ length-copies n e;
  };
  closing = record { fclose_ok = λ f path. refl };
}

abbrev pub greeting : Bytes
greeting = codes "hello, server"

abbrev pub request : ℕ → RequestHeader
request offset = record {
  command = pos 0;
  filename = codes "a.txt";
  filesize = pos 13;
  offset = pos offset;
  flags = 0;
  file_hash = greeting;
  recipient = [];
}

abbrev pub owner : Bytes
owner = codes "0102"

abbrev pub nothing : Shelf
nothing name = none

abbrev pub empty : World P
empty = world_of name_mongo [] greeting

pub empty-Holds : Holds P laws empty nothing
unfolding laws name_IsDocStore
empty-Holds = record { held = λ name item n e. cc e; free = λ name n e. refl }

pub flip_Encrypts : Encrypts P.evp
flip_Encrypts = record {
  ctx_new_ok = λ e n. cc n;
  init_cipher_ok = λ c n. cc n;
  init_key_ok = λ c key iv n. cc n;
  update_ok = λ c s n e. cc e;
  final_ok = λ c n. cc n;
  get_tag_ok = λ c k n. cc n;
}

nothing_fails : NothingFails P laws
unfolding laws
nothing_fails = record {
  moving = pipe_KeepsMoving;
  coming = pipe_KeepsComing;
  malloc_ok = λ h n. refl;
  rand_bytes_ok = λ e n lost. cc lost;
  encrypts = flip_Encrypts;
  fopen_ok = λ f path. refl;
  fwrite_ok = λ f path text. refl;
  insert_ok = λ db name iv tag o size. refl;
}

let_in : IsAdmissible empty (request 0)
unfolding is_unsafe is_bad_recipient
let_in = record { ready = refl; safe = refl; addressed = refl }

hashed : compute_buffer_blake3 P.blake3 greeting ≡ greeting
unfolding compute_buffer_blake3
hashed = refl

handle_upload_request-puts_example :
    Holds P laws
      (handle_upload_request P (request 0) owner empty).1
      (put (codes "a.txt") (record { owner = owner; text = greeting }) nothing)
unfolding laws pipe_IsStream
handle_upload_request-puts_example =
    handle_upload_request-puts P laws nothing_fails (request 0) owner greeting [] nothing empty
      let_in (omega arith) refl empty-Holds (omega arith) refl refl hashed

abbrev pub item : Item
item = record { owner = owner; text = greeting }

-- The file and the document of the text are there.
abbrev pub full : World P
full = record empty {
  files = λ path.
      if bytes_eq path (storage_path (codes "a.txt")) then some (flip_all greeting) else none;
  db = metadata (codes "a.txt") (pos 13) (copies 12 5) (copies 16 13) owner ∷ [];
}

full-IsPut : IsPut P flip_IsGcm file_IsFileStore name_IsDocStore (codes "a.txt") item empty full
unfolding flip_IsGcm file_IsFileStore name_IsDocStore
full-IsPut = record {
  size = pos 13;
  iv = copies 12 5;
  tag = copies 16 13;
  named_put = λ other.
      rw (matches-metadata other (codes "a.txt") (copies 12 5) (copies 16 13) owner (pos 13)) refl;
  key_same = refl;
  contents_same = λ path n. rw (differ (storage_path (codes "a.txt")) path n) refl;
  sealed_at = record {
    small = omega arith;
    nonce = refl;
    held = rw (bytes_eq_refl (storage_path (codes "a.txt"))) refl;
    mark = refl;
  };
}

pub a_txt-IsName : IsName (codes "a.txt")
unfolding is_unsafe
a_txt-IsName = record { short = omega arith; safe = refl }

pub full-Holds : Holds P laws full (put (codes "a.txt") item nothing)
unfolding laws
full-Holds =
    put-Refines P flip_IsGcm file_IsFileStore name_IsDocStore (codes "a.txt") item nothing empty
      full a_txt-IsName refl full-IsPut empty-Holds
