-- ===== src/Server/Store/Uploads/Accepting.antt =====
-- What an upload may leave: the same shelf, or a shelf with the text that has come.
use daemon_file_hosting.Base.{ℕ, ◌++◌, ◌≡◌, refl, ◌⊎◌, inl, none, Bytes, c_string, length}
use daemon_file_hosting.Base.Int.{ℤ, pos}
use daemon_file_hosting.External.{Platform}
use daemon_file_hosting.External.Laws.{IsGcm, IsFileStore, IsStream}
use daemon_file_hosting.World.{World}
use daemon_file_hosting.Protocol.{RequestHeader, resp_error}
use daemon_file_hosting.Hash.{compute_buffer_blake3}
use daemon_file_hosting.Server.Reply.{respond, respond_with, send}
use daemon_file_hosting.Transfer.Apart.{ssl_send_all-incoming}
use daemon_file_hosting.Server.Upload.{encrypt, store_upload}
use daemon_file_hosting.Server.Store.{Shelf, put, IsName, Refines}
use daemon_file_hosting.Server.Store.Laws.{IsDocStore, KeepsOthers, FillsBuffers, ClosesFiles}
use daemon_file_hosting.Server.Store.Quiet.{IsQuietOn, quiet_refl, quiet_trans, respond-quiet}
use daemon_file_hosting.Server.Store.Uploads.{OtherPath}
use daemon_file_hosting.Server.Store.Uploads.Files.{quiet-Refines}

-- What the theorems on uploads assume of a platform.
pub record UploadLaws (P : Platform) : Type 0 where
  pub gcm : IsGcm P.evp
  pub files : IsFileStore P.disk
  pub docs : IsDocStore P.mongo
  pub others : KeepsOthers P.disk files
  pub stream : IsStream P.tls
  pub random : FillsBuffers P.system
  pub closing : ClosesFiles P.disk

module _ (P : Platform) (A : UploadLaws P) where
  abbrev pub Holds : World P → Shelf → Type 0
  Holds w shelf = Refines P A.gcm A.files A.docs w shelf

  abbrev pub Quiet : Bytes → World P → World P → Type 0
  Quiet name w v = IsQuietOn P A.files A.docs (OtherPath name) w v

  -- The shelf is what it was, or it has a text of the announced size and hash under the name, which
  -- is the first of the bytes that were to come in.
  abbrev pub Accepts : RequestHeader → Bytes → Shelf → Bytes → World P → Type 0
  Accepts req owner shelf all u =
      Holds u shelf
      ⊎ ((text : Bytes) × (rest : Bytes) × (all ≡ text ++ rest)
          × (pos (length text) ≡ req.filesize)
          × (compute_buffer_blake3 P.blake3 text ≡ req.file_hash)
          × Holds u (put (c_string req.filename) (record { owner = owner; text = text }) shelf))

  -- What is known when the request is let in.
  pub record IsFree (req : RequestHeader) (shelf : Shelf) (w : World P) : Type 0 where
    pub is_name : IsName (c_string req.filename)
    pub free : shelf (c_string req.filename) ≡ none
    pub before : Holds w shelf

  pub Quiet-Accepts :
      (req : RequestHeader) (owner : Bytes) (shelf : Shelf) (w u : World P)
      → IsFree req shelf w
      → Quiet (c_string req.filename) w u
      → Accepts req owner shelf (A.stream.incoming w.conn) u
  Quiet-Accepts req owner shelf w u i q = inl (
      quiet-Refines P A.gcm A.files A.docs (c_string req.filename) shelf w u i.is_name i.free
        i.before q)

  -- A reply takes nothing in.
  pub respond-incoming :
      (status : ℕ) (w : World P)
      → A.stream.incoming (respond P status w).1.conn ≡ A.stream.incoming w.conn
  unfolding respond respond_with send
  respond-incoming status w = ssl_send_all-incoming P.tls A.stream _ w.conn

  -- An early return: one reply from a state that is quiet so far.
  pub reply-Accepts :
      (status : ℕ) (req : RequestHeader) (owner : Bytes) (shelf : Shelf) (w v : World P)
      → IsFree req shelf w
      → Quiet (c_string req.filename) w v
      → Accepts req owner shelf (A.stream.incoming w.conn) (respond P status v).1
  reply-Accepts status req owner shelf w v i q = Quiet-Accepts req owner shelf w _ i (
      quiet_trans P A.files A.docs (OtherPath (c_string req.filename)) w v _ q
        (respond-quiet P A.files A.docs (OtherPath (c_string req.filename)) status v))

  -- A change of other parts of the state is quiet.
  pub after-Quiet :
      (name : Bytes) (w v u : World P)
      → Quiet name w v
      → u.db ≡ v.db
      → u.files ≡ v.files
      → u.g_file_crypto ≡ v.g_file_crypto
      → Quiet name w u
  after-Quiet name w v u q d f g =
      quiet_trans P A.files A.docs (OtherPath name) w v u q
        (quiet_refl P A.files A.docs (OtherPath name) v u d f g)

  pub encrypt-rest :
      (text iv : Bytes) (size : ℤ) (v : World P)
      → ((encrypt P text size iv v).1.db ≡ v.db)
        × ((encrypt P text size iv v).1.files ≡ v.files)
        × ((encrypt P text size iv v).1.g_file_crypto ≡ v.g_file_crypto)
  unfolding encrypt
  encrypt-rest text iv size v = (refl, refl, refl)

  pub store_upload-none :
      (req : RequestHeader) (owner iv : Bytes) (v : World P)
      → (store_upload P req owner iv none v).1 ≡ (respond P resp_error v).1
  unfolding store_upload
  store_upload-none req owner iv v = refl
