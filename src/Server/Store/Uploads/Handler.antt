-- ===== src/Server/Store/Uploads/Handler.antt =====
-- `handle_upload_request` on the shelf.
use daemon_file_hosting.Base.{
  ℕ, ◌++◌, ◌+◌, ◌^◌, ◌<◌, ◌≡◌, refl, sym, subst, arith, ◌∙◌, ap, inl, inr, none, some, Bytes,
  bytes_eq, bytes_eq_sound, Bool-cases, Option-cases, c_string, length,
}
use daemon_file_hosting.Base.Int.{pos, pos_part, to_size}
use daemon_file_hosting.External.{Platform}
use daemon_file_hosting.World.{World, FileCrypto, malloc, rand_bytes}
use daemon_file_hosting.Protocol.{RequestHeader, resp_success, resp_error, resp_integrity_error}
use daemon_file_hosting.Path.{is_unsafe}
use daemon_file_hosting.Cipher.RoundTrip.{IsSealed}
use daemon_file_hosting.Hash.{compute_buffer_blake3}
use daemon_file_hosting.Server.Reply.{respond}
use daemon_file_hosting.Server.Upload.{
  is_bad_recipient, encrypt, seal_upload, accept_upload, receive_file, receive_upload,
  handle_upload_request,
}
use daemon_file_hosting.Server.Upload.Stored.{encrypt-sealed}
use daemon_file_hosting.Server.Upload.Received.{receive_file-conn, receive_file-exact}
use daemon_file_hosting.Server.Upload.Guards.{
  IsAdmissible, handle_upload_request_refuses, handle_upload_request_enters,
}
use daemon_file_hosting.Server.Store.{Shelf}
use daemon_file_hosting.Server.Store.Quiet.{Everywhere, respond-quiet, Refines-quiet}
use daemon_file_hosting.Server.Store.Uploads.{OtherPath}
use daemon_file_hosting.Server.Store.Uploads.Files.{store_upload-Uploaded}
use daemon_file_hosting.Server.Store.Uploads.Accepting.{
  UploadLaws, Holds, Quiet, Accepts, IsFree, Quiet-Accepts, respond-incoming, reply-Accepts,
  after-Quiet, encrypt-rest, store_upload-none,
}

module _ (P : Platform) (A : UploadLaws P) where
  -- What is known of the text that has come.
  record IsReceived (req : RequestHeader) (all text : Bytes) : Type 0 where
    others : Bytes
    came : all ≡ text ++ others
    small : length text < 2 ^ 31
    announced : pos (length text) ≡ req.filesize
    hashed : compute_buffer_blake3 P.blake3 text ≡ req.file_hash

  seal_upload-Accepts :
      (req : RequestHeader) (owner text iv : Bytes) (shelf : Shelf) (w v : World P)
      → IsFree P A req shelf w
      → Quiet P A (c_string req.filename) w v
      → IsReceived req (A.stream.incoming w.conn) text
      → length iv ≡ 12
      → Accepts P A req owner shelf
          (A.stream.incoming w.conn)
          (seal_upload P req owner text (some iv) v).1
  seal_upload-Accepts req owner text iv shelf w v i q t n12 =
      let e = encrypt P text req.filesize iv v in
      let (d, f, g) = encrypt-rest P A text iv req.filesize v in
      let quiet = after-Quiet P A (c_string req.filename) w v e.1 q d f g in
      elim (Option-cases e.0) [
        | inl failed ↦
            rw (failed, store_upload-none P A req owner iv e.1)
              (reply-Accepts P A resp_error req owner shelf w e.1 i quiet)
        | inr (sealed, ok) ↦
            let is_sealed =
              encrypt-sealed P A.gcm text iv sealed v t.small
                (ap (λ n. (encrypt P text n iv v).0) t.announced ∙ ok) in
            rw ok
              (elim (store_upload-Uploaded P A.gcm A.files A.docs A.others A.closing req owner iv
                text sealed shelf w e.1 i.is_name i.free t.small n12 i.before quiet
                (subst (λ (c : FileCrypto). IsSealed P.evp A.gcm c.key iv text sealed) (sym g)
                  is_sealed)) [
                    | inl same ↦ inl same
                    | inr there ↦ inr (text, t.others, t.came, t.announced, t.hashed, there)
                  ])
      ]

  accept_upload-Accepts :
      (req : RequestHeader) (owner text others : Bytes) (shelf : Shelf) (w v : World P)
      → IsFree P A req shelf w
      → Quiet P A (c_string req.filename) w v
      → A.stream.incoming w.conn ≡ text ++ others
      → length text < 2 ^ 31
      → pos (length text) ≡ req.filesize
      → Accepts P A req owner shelf (A.stream.incoming w.conn) (accept_upload P req owner text v).1
  unfolding accept_upload
  accept_upload-Accepts req owner text others shelf w v i q came small announced =
      let hash = compute_buffer_blake3 P.blake3 text in
      let room = (malloc P (to_size req.filesize + 16) v).1 in
      let n = rand_bytes P 12 room in
      let quiet = after-Quiet P A (c_string req.filename) w v n.1 q refl refl refl in
      elim (Bool-cases (bytes_eq hash req.file_hash)) [
        | inr differ ↦
            rw (differ, accept_upload)
              (reply-Accepts P A resp_integrity_error req owner shelf w v i q)
        | inl same ↦
            let t : IsReceived req (A.stream.incoming w.conn) text = record {
              others = others;
              came = came;
              small = small;
              announced = announced;
              hashed = bytes_eq_sound hash req.file_hash same;
            } in
            elim (Option-cases n.0) [
              | inl dry ↦
                  rw (same, dry, accept_upload)
                    (reply-Accepts P A resp_error req owner shelf w n.1 i quiet)
              | inr (iv, drawn) ↦
                  rw (same, drawn, accept_upload)
                    (seal_upload-Accepts req owner text iv shelf w n.1 i quiet t
                      (A.random.length-rand_bytes room.entropy 12 iv drawn))
            ]
      ]

  receive_upload-Accepts :
      (req : RequestHeader) (owner : Bytes) (k : ℕ) (shelf : Shelf) (w v : World P)
      → IsFree P A req shelf w
      → Quiet P A (c_string req.filename) w v
      → A.stream.incoming v.conn ≡ A.stream.incoming w.conn
      → k < 2 ^ 31
      → req.filesize ≡ pos k
      → Accepts P A req owner shelf (A.stream.incoming w.conn) (receive_upload P req owner v).1
  unfolding receive_upload
  receive_upload-Accepts req owner k shelf w v i q waits small announced =
      let room = malloc P (to_size req.filesize) v in
      let begun = after-Quiet P A (c_string req.filename) w v room.1 q refl refl refl in
      let r = receive_file P req.filesize room.1 in
      let (c, rest) = receive_file-conn P req.filesize room.1 in
      let quiet =
        after-Quiet P A (c_string req.filename) w room.1 r.1 begun (ap (λ u. u.db) rest)
          (ap (λ u. u.files) rest) (ap (λ u. u.g_file_crypto) rest) in
      elim (Bool-cases room.0) [
        | inr full ↦
            rw (full, receive_upload)
              (reply-Accepts P A resp_error req owner shelf w room.1 i begun)
        | inl there ↦ elim (Option-cases r.0) [
          | inl lost ↦
              rw (there, lost, receive_upload) (Quiet-Accepts P A req owner shelf w r.1 i quiet)
          | inr (text, e) ↦
              let (len, came) = receive_file-exact P A.stream req.filesize text room.1 e in
              let long : length text ≡ k = len ∙ ap pos_part announced in
              rw (there, e, receive_upload)
                (accept_upload-Accepts req owner text _ shelf w r.1 i quiet (sym waits ∙ came)
                  (omega (arith, long)) (ap pos long ∙ sym announced))
        ]
      ]

  pub handle_upload_request-Refines :
      (req : RequestHeader) (owner : Bytes) (k : ℕ) (shelf : Shelf) (w : World P)
      → length (c_string req.filename) < 256
      → req.filesize ≡ pos k
      → k < 2 ^ 31
      → shelf (c_string req.filename) ≡ none
      → Holds P A w shelf
      → Accepts P A req owner shelf
          (A.stream.incoming w.conn)
          (handle_upload_request P req owner w).1
  handle_upload_request-Refines req owner k shelf w short announced small free before =
      elim (Bool-cases w.g_file_crypto.initialized) [
        | inr cold ↦ refused (λ e. cc (e.ready))
        | inl ready ↦ elim (Bool-cases (is_unsafe (c_string req.filename))) [
          | inl bad ↦ refused (λ e. cc (e.safe))
          | inr safe ↦ elim (Bool-cases (is_bad_recipient (c_string req.recipient))) [
            | inl bad ↦ refused (λ e. cc (e.addressed))
            | inr addressed ↦ entered (record { ready = ready; safe = safe; addressed = addressed })
          ]
        ]
      ]
    where
      refused :
          ¬ IsAdmissible w req
          → Accepts P A req owner shelf
              (A.stream.incoming w.conn)
              (handle_upload_request P req owner w).1
      refused no_entry = rw (handle_upload_request_refuses P req owner w no_entry) (
          inl (
            Refines-quiet P A.gcm A.files A.docs (Everywhere P A.files A.docs) shelf w _
              (respond-quiet P A.files A.docs (Everywhere P A.files A.docs) _ w)
              (λ name item n e. tt) before))

      entered :
          IsAdmissible w req
          → Accepts P A req owner shelf
              (A.stream.incoming w.conn)
              (handle_upload_request P req owner w).1
      entered entry =
          let i : IsFree P A req shelf w = record {
            is_name = record { short = short; safe = entry.safe };
            free = free;
            before = before;
          } in
          let first = respond P resp_success w in
          let q =
            respond-quiet P A.files A.docs (OtherPath (c_string req.filename)) resp_success w in
          elim (Bool-cases first.0) [
            | inr gone ↦
                rw (handle_upload_request_enters P req owner w entry, gone)
                  (Quiet-Accepts P A req owner shelf w first.1 i q)
            | inl ready ↦
                rw (handle_upload_request_enters P req owner w entry, ready)
                  (receive_upload-Accepts req owner k shelf w first.1 i q
                    (respond-incoming P A resp_success w) small announced)
          ]
