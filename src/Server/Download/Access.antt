-- ===== src/Server/Download/Access.antt =====
-- Who is served by `handle_download_request`.
use daemon_file_hosting.Base.{
  ℕ, ◌≡◌, ◌≢◌, refl, inl, inr, true, false, List, [], ◌∷◌, Bytes, c_string, bytes_eq, arith,
  Bool-cases,
}
use daemon_file_hosting.Base.Int.{ℤ}
use daemon_file_hosting.Bson.{Doc, nil}
use daemon_file_hosting.External.{Platform}
use daemon_file_hosting.World.{World}
use daemon_file_hosting.Protocol.{
  RequestHeader, resp_success, resp_permission_denied, resp_file_not_found,
}
use daemon_file_hosting.Path.{is_unsafe}
use daemon_file_hosting.Server.Reply.{respond}
use daemon_file_hosting.Server.Upload.{metadata}
use daemon_file_hosting.Server.Download.{
  may_read, download_query, serve_document, serve_first, handle_download_request,
}

module _ (P : Platform) where
  -- The documents that the request finds.
  abbrev pub documents : RequestHeader → World P → List Doc
  documents req w = P.mongo.find w.db (download_query (c_string req.filename)) nil

  -- The name is allowed, and the client may read the first document that it finds.
  pub record IsReadable (req : RequestHeader) (fingerprint : Bytes) (w : World P) : Type 0 where
    pub safe : is_unsafe (c_string req.filename) ≡ false
    pub first : Doc
    pub others : List Doc
    pub found : documents req w ≡ first ∷ others
    pub allowed : may_read first fingerprint ≡ true

  pub serve_document-denied :
      (req : RequestHeader) (fingerprint : Bytes) (doc : Doc) (w : World P)
      → may_read doc fingerprint ≡ false
      → serve_document P req fingerprint doc w ≡ (tt, (respond P resp_permission_denied w).1)
  unfolding serve_document
  serve_document-denied req fingerprint doc w h = rw (h, serve_document)

  pub handle_download_request-safe :
      (req : RequestHeader) (fingerprint : Bytes) (w : World P)
      → is_unsafe (c_string req.filename) ≡ false
      → handle_download_request P req fingerprint w
        ≡ serve_first P req fingerprint (documents req w) w
  unfolding handle_download_request
  handle_download_request-safe req fingerprint w h = rw (h, handle_download_request)

  -- One reply without data, and nothing else.
  abbrev pub IsRefused : World P → Unit {0} × World P → Type 0
  IsRefused w r = (status : ℕ) × (status ≢ resp_success) × (r ≡ (tt, (respond P status w).1))

  serve_first-refuses :
      (req : RequestHeader) (fingerprint : Bytes) (w : World P) (docs : List Doc)
      → is_unsafe (c_string req.filename) ≡ false
      → documents req w ≡ docs
      → ¬ IsReadable req fingerprint w
      → IsRefused w (serve_first P req fingerprint docs w)
  serve_first-refuses req fingerprint w [] safe e unreadable =
      (resp_file_not_found, omega arith, refl)
  serve_first-refuses req fingerprint w (doc ∷ docs) safe e unreadable =
      elim (Bool-cases (may_read doc fingerprint)) [
        | inl allowed ↦ absurd (
            unreadable
              (record { safe = safe; first = doc; others = docs; found = e; allowed = allowed }))
        | inr denied ↦ (
          resp_permission_denied,
          omega arith,
          serve_document-denied req fingerprint doc w denied,
        )
      ]

  -- Unless the name is allowed and the client may read the first document of that name, a
  -- download request gets one reply header with a status other than success, and nothing else
  -- happens: no data are sent, no file is read and no event is recorded.
  pub handle_download_request_refuses :
      (req : RequestHeader) (fingerprint : Bytes) (w : World P)
      → ¬ IsReadable req fingerprint w
      → IsRefused w (handle_download_request P req fingerprint w)
  unfolding handle_download_request
  handle_download_request_refuses req fingerprint w unreadable =
      elim (Bool-cases (is_unsafe (c_string req.filename))) [
        | inl bad ↦ (resp_permission_denied, omega arith, rw (bad, handle_download_request))
        | inr safe ↦
            rw (handle_download_request-safe req fingerprint w safe)
              (serve_first-refuses req fingerprint w (documents req w) safe refl unreadable)
      ]

-- The metadata of an upload name no recipient and are not public: only the owner may read.
pub may_read-metadata :
    (name : Bytes) (size : ℤ) (iv tag owner fingerprint : Bytes)
    → may_read (metadata name size iv tag owner) fingerprint ≡ bytes_eq owner fingerprint
unfolding may_read metadata
may_read-metadata name size iv tag owner fingerprint = refl
