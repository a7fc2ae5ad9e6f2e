-- ===== src/Server/Store/Uploads/Success.antt =====
-- An upload for which no call fails puts its text on the shelf.
use daemon_file_hosting.Base.{
  ℕ, ◌+◌, ◌++◌, ◌^◌, ◌<◌, ◌≡◌, ◌≢◌, refl, sym, subst, arith, ◌∙◌, ap, inl, inr, true, [], ◌∷◌, none,
  some, Bytes, List, codes, bytes_eq_refl, c_string, length, append-cut, length-append, not_none,
  ◌==◌,
}
use daemon_file_hosting.Base.Int.{ℤ, pos, pos_part, to_size}
use daemon_file_hosting.Bson.{Doc}
use daemon_file_hosting.External.{Platform, inserted}
use daemon_file_hosting.World.{World, malloc, rand_bytes}
use daemon_file_hosting.Protocol.{RequestHeader, resp_success, encode_response}
use daemon_file_hosting.Path.{storage_path}
use daemon_file_hosting.Cipher.{Sealed}
use daemon_file_hosting.Cipher.Success.{Encrypts, enhanced_aes_gcm_encrypt-succeeds}
use daemon_file_hosting.Hash.{compute_buffer_blake3}
use daemon_file_hosting.Transfer.Sent.{KeepsMoving, ssl_send_all-succeeds}
use daemon_file_hosting.Transfer.Received.{KeepsComing}
use daemon_file_hosting.Proc.{append_proc_event}
use daemon_file_hosting.Server.Reply.{respond, respond_with, send}
use daemon_file_hosting.Server.Upload.{
  metadata, encrypt, write_file, record_upload, store_upload, seal_upload, accept_upload,
  receive_file, receive_upload, handle_upload_request,
}
use daemon_file_hosting.Server.Upload.Received.{receive_file-exact, receive_file-succeeds}
use daemon_file_hosting.Server.Upload.Guards.{IsAdmissible, handle_upload_request_enters}
use daemon_file_hosting.Server.Store.{Shelf, put}
use daemon_file_hosting.Server.Store.Quiet.{Everywhere, respond-quiet, append_proc_event-quiet}
use daemon_file_hosting.Server.Store.Uploads.Accepting.{UploadLaws, Holds, respond-incoming}
use daemon_file_hosting.Server.Store.Uploads.Handler.{handle_upload_request-Refines}

-- No call of an upload's fails.
pub record NothingFails (P : Platform) (A : UploadLaws P) : Type 0 where
  pub moving : KeepsMoving P.tls
  pub coming : KeepsComing P.tls A.stream
  pub malloc_ok : (h : P.system.Heap) (n : ℕ) → (P.system.malloc h n).0 ≡ true
  pub rand_bytes_ok : (e : P.system.Entropy) (n : ℕ) → (P.system.rand_bytes e n).0 ≢ none
  pub encrypts : Encrypts P.evp
  pub fopen_ok : (f : P.disk.Files) (path : Bytes) → (P.disk.fopen_write f path).0 ≡ true
  pub fwrite_ok :
      (f : P.disk.Files) (path text : Bytes) → (P.disk.fwrite f path text).0 ≡ length text
  pub insert_ok :
      (db : P.mongo.Db) (name iv tag owner : Bytes) (size : ℤ)
      → (P.mongo.insert_one db (metadata name size iv tag owner)).0 ≡ inserted

snoc-not_nil : (docs : List Doc) (d : Doc) → docs ++ (d ∷ []) ≢ []
snoc-not_nil [] d e = cc e
snoc-not_nil (x ∷ docs) d e = cc e

module _ (P : Platform) (A : UploadLaws P) (N : NothingFails P A) where
  -- A document of the name is there.
  abbrev IsThere : RequestHeader → World P → Type 0
  IsThere req u = A.docs.named u.db (c_string req.filename) ≢ []

  respond-succeeds : (status : ℕ) (w : World P) → (respond P status w).0 ≡ true
  unfolding respond respond_with send encode_response
  respond-succeeds status w = ssl_send_all-succeeds P.tls N.moving _ w.conn (omega arith)

  encrypt-succeeds :
      (text iv : Bytes) (size : ℤ) (v : World P)
      → (sealed : Sealed) × ((encrypt P text size iv v).0 ≡ some sealed)
  unfolding encrypt
  encrypt-succeeds text iv size v =
      enhanced_aes_gcm_encrypt-succeeds P.evp N.encrypts text _ v.g_file_crypto.key iv v.engine

  record_upload-IsThere :
      (req : RequestHeader) (owner iv : Bytes) (sealed : Sealed) (v : World P)
      → IsThere req (record_upload P req owner iv sealed v).1
  unfolding record_upload
  record_upload-IsThere req owner iv sealed v =
      let name = c_string req.filename in
      let doc = metadata name req.filesize iv sealed.tag owner in
      let done = N.insert_ok v.db name iv sealed.tag owner req.filesize in
      let v1 : World P = record v {
        db = (P.mongo.insert_one v.db doc).1;
        time = (P.system.monotonic v.time).1;
      } in
      let u1 = (append_proc_event P (storage_path name) (codes "upload") (codes "success") v1).1 in
      let recorded =
        append_proc_event-quiet P A.files A.docs (Everywhere P A.files A.docs) (storage_path name)
          (codes "upload") (codes "success") v1 in
      let replied = respond-quiet P A.files A.docs (Everywhere P A.files A.docs) resp_success u1 in
      let there : A.docs.named (respond P resp_success u1).1.db name
          ≡ A.docs.named v.db name ++ (doc ∷ []) =
        replied.docs_same name
        ∙ recorded.docs_same name
        ∙ A.docs.named-insert v.db name name iv sealed.tag owner req.filesize done
        ∙ rw (bytes_eq_refl name) refl in
      rw (done, record_upload)
        (λ nothing. snoc-not_nil (A.docs.named v.db name) doc (sym there ∙ nothing))

  store_upload-IsThere :
      (req : RequestHeader) (owner iv : Bytes) (sealed : Sealed) (v : World P)
      → IsThere req (store_upload P req owner iv (some sealed) v).1
  unfolding store_upload write_file
  store_upload-IsThere req owner iv sealed v =
      let name = storage_path (c_string req.filename) in
      let whole : (length sealed.ciphertext == length sealed.ciphertext) ≡ true = ground arith in
      rw
        (
          N.fopen_ok v.files name,
          N.fwrite_ok (P.disk.fopen_write v.files name).1 name sealed.ciphertext,
          whole,
          store_upload,
        )
        (record_upload-IsThere req owner iv sealed _)

  seal_upload-IsThere :
      (req : RequestHeader) (owner text iv : Bytes) (v : World P)
      → IsThere req (seal_upload P req owner text (some iv) v).1
  seal_upload-IsThere req owner text iv v =
      let (sealed, e) = encrypt-succeeds text iv req.filesize v in
      rw e (store_upload-IsThere req owner iv sealed (encrypt P text req.filesize iv v).1)

  accept_upload-IsThere :
      (req : RequestHeader) (owner text : Bytes) (v : World P)
      → compute_buffer_blake3 P.blake3 text ≡ req.file_hash
      → IsThere req (accept_upload P req owner text v).1
  unfolding accept_upload
  accept_upload-IsThere req owner text v same =
      let room = (malloc P (to_size req.filesize + 16) v).1 in
      let n = rand_bytes P 12 room in
      let (iv, drawn) = not_none n.0 (N.rand_bytes_ok room.entropy 12) in
      rw (same, bytes_eq_refl req.file_hash, drawn, accept_upload)
        (seal_upload-IsThere req owner text iv n.1)

  receive_upload-IsThere :
      (req : RequestHeader) (owner text rest : Bytes) (v : World P)
      → req.filesize ≡ pos (length text)
      → A.stream.incoming v.conn ≡ text ++ rest
      → compute_buffer_blake3 P.blake3 text ≡ req.file_hash
      → IsThere req (receive_upload P req owner v).1
  unfolding receive_upload
  receive_upload-IsThere req owner text rest v announced waits same =
      let room = malloc P (to_size req.filesize) v in
      let r = receive_file P req.filesize room.1 in
      let size : pos_part req.filesize ≡ length text = ap pos_part announced in
      let all = ap length waits ∙ length-append text rest in
      let (got, e) = not_none r.0 (
        receive_file-succeeds P A.stream N.coming req.filesize room.1 (omega (arith, size, all))) in
      let (len, came) = receive_file-exact P A.stream req.filesize got room.1 e in
      let (is_text, _) = append-cut got _ text rest (len ∙ size) (sym came ∙ waits) in
      rw (N.malloc_ok v.heap (to_size req.filesize), e, receive_upload)
        (accept_upload-IsThere req owner got r.1
          (ap (compute_buffer_blake3 P.blake3) is_text ∙ same))

  -- Where no call fails, the server has its key, the name is allowed, below 256 bytes and free, and
  -- the recipient is none or a fingerprint, an upload whose announced size, below 2 ^ 31, and hash
  -- are those of the text that comes in first puts that text on the shelf, as the owner's.
  pub handle_upload_request-puts :
      (req : RequestHeader) (owner text rest : Bytes) (shelf : Shelf) (w : World P)
      → IsAdmissible w req
      → length (c_string req.filename) < 256
      → shelf (c_string req.filename) ≡ none
      → Holds P A w shelf
      → length text < 2 ^ 31
      → req.filesize ≡ pos (length text)
      → A.stream.incoming w.conn ≡ text ++ rest
      → compute_buffer_blake3 P.blake3 text ≡ req.file_hash
      → Holds P A
          (handle_upload_request P req owner w).1
          (put (c_string req.filename) (record { owner = owner; text = text }) shelf)
  handle_upload_request-puts req owner text rest shelf w entry short free before small announced
        waits same =
      elim (handle_upload_request-Refines P A req owner (length text) shelf w short announced small
        free before) [
          | inl unchanged ↦ absurd (
              there (
                unchanged.free (c_string req.filename) (record { short = short; safe = entry.safe })
                  free))
          | inr (got, others, came, size, hash, held) ↦
              let (is_text, _) =
                append-cut got others text rest (ap pos_part (size ∙ announced))
                  (sym came ∙ waits) in
              subst
                (λ t.
                  Holds P A (handle_upload_request P req owner w).1
                    (put (c_string req.filename) (record { owner = owner; text = t }) shelf))
                is_text held
        ]
    where
      ready : (respond P resp_success w).0 ≡ true
      ready = respond-succeeds resp_success w

      there : IsThere req (handle_upload_request P req owner w).1
      there =
          rw (handle_upload_request_enters P req owner w entry, ready)
            (receive_upload-IsThere req owner text rest (respond P resp_success w).1 announced
              (respond-incoming P A resp_success w ∙ waits) same)
