-- ===== src/Server/Store.antt =====
-- The server as a shelf of texts: what the upload and download handlers of src/server/server.c
-- together promise, over the files and the collection.
pub mod Laws
pub mod Quiet
pub mod Uploads
pub mod Downloads
use daemon_file_hosting.Base.{
  ℕ, ◌^◌, ◌<◌, ◌≡◌, false, Option, none, some, List, [], ◌∷◌, Bytes, bytes_eq, length,
  if◌then◌else◌,
}
use daemon_file_hosting.Base.Int.{ℤ}
use daemon_file_hosting.Bson.{Doc}
use daemon_file_hosting.External.{Platform}
use daemon_file_hosting.External.Laws.{IsGcm, IsFileStore}
use daemon_file_hosting.World.{World}
use daemon_file_hosting.Path.{is_unsafe, storage_path}
use daemon_file_hosting.Server.Upload.{metadata}
use daemon_file_hosting.Server.Download.Held.{IsSealedAt}
use daemon_file_hosting.Server.Store.Laws.{IsDocStore}

-- What a client sees of a name: its text, and whose it is.
pub record Item : Type 0 where
  pub owner : Bytes
  pub text : Bytes

abbrev pub Shelf : Type 0
Shelf = Bytes → Option Item

-- The shelf after an upload of a name that was free.
abbrev pub put : Bytes → Item → Shelf → Shelf
put name item shelf other = if bytes_eq other name then some item else shelf other

-- The names that a request can hold and that pass the test.
pub record IsName (name : Bytes) : Type 0 where
  pub short : length name < 256
  pub safe : is_unsafe name ≡ false

module _ (P : Platform) (G : IsGcm P.evp) (F : IsFileStore P.disk) (D : IsDocStore P.mongo) where
  -- The first document of the name holds the marks of the text, and the file its ciphertext.
  pub record IsHeld (name : Bytes) (item : Item) (w : World P) : Type 0 where
    pub size : ℤ
    pub iv : Bytes
    pub tag : Bytes
    pub others : List Doc
    pub first : D.named w.db name ≡ metadata name size iv tag item.owner ∷ others
    pub sealed_at : IsSealedAt P G F (storage_path name) iv tag item.text w

  -- The world holds what is on the shelf, and no document of a name that is free.
  pub record Refines (w : World P) (shelf : Shelf) : Type 0 where
    pub held :
        (name : Bytes) (item : Item) → IsName name → shelf name ≡ some item → IsHeld name item w
    pub free : (name : Bytes) → IsName name → shelf name ≡ none → D.named w.db name ≡ []
